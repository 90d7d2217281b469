-- ===== src/Sac/SesionTests.antt =====
-- The attributes of the file of the image, and a thread whose connection ends at once.
use tp_2019_2c_vendo_fiat.Protocol.Words.{word_le}
use tp_2019_2c_vendo_fiat.Protocol.Mensaje
use tp_2019_2c_vendo_fiat.Protocol.Head
use tp_2019_2c_vendo_fiat.Sac.Llamadas.{turno_path}
use tp_2019_2c_vendo_fiat.Sac.RemotasTests.{buena}
use tp_2019_2c_vendo_fiat.Sac.Sesion.{listen_sac_cli_turnos}
use tp_2019_2c_vendo_fiat.Base.Int.{pos}
use tp_2019_2c_vendo_fiat.Base.{arith, ◌∷◌, [], ◌≡◌, some, refl, bytes_eq, List, ℕ, true, inr, inl}
use tp_2019_2c_vendo_fiat.Protocol.Conexion.{conexion}
use tp_2019_2c_vendo_fiat.Sac.Remoto.{servidor}
use tp_2019_2c_vendo_fiat.Sac.State.{t_file, atributos, Sac}
use tp_2019_2c_vendo_fiat.Sac.Tests.{partes, imagen, ruta, hallada}
use tp_2019_2c_vendo_fiat.Sac.Wire.{listen_sac_cli, atender_path}
use tp_2019_2c_vendo_fiat.Protocol.Mensaje.{Socket, recv_message, recv_content}
use tp_2019_2c_vendo_fiat.Sac.Cliente.{do_getattr}
use tp_2019_2c_vendo_fiat.Sac.Atributos.{Caben, stat_de, do_getattr-sac_getattr}
use tp_2019_2c_vendo_fiat.Sac.Operations.{sac_getattr, get_number_links}

se_ven : sac_getattr partes ruta imagen ≡ some (atributos 100 0 0 t_file 1 ∷ [], imagen)
unfolding sac_getattr bytes_eq get_number_links
se_ven = rw hallada refl

entran : Caben 100 0 0 t_file 1
entran = record {
  de_size = omega arith;
  de_creation = omega arith;
  de_modification = omega arith;
  de_status = omega arith;
  de_links = omega arith;
}

do_getattr-sac_getattr_example :
    do_getattr (servidor partes 9 0 0 5 11) 11 (pos 0) (pos 0) ruta imagen
    ≡ some (pos 0, some (stat_de 100 0 0 t_file 1), imagen)
unfolding bytes_eq
do_getattr-sac_getattr_example =
    do_getattr-sac_getattr partes 9 0 0 5 11 ruta 100 0 0 t_file 1 imagen imagen 0 0 buena refl
      entran se_ven

-- The request of the attributes of "/a".
abbrev pedido : Socket
pedido = conexion 11 (6 ∷ 0 ∷ 0 ∷ 0 ∷ 0 ∷ 0 ∷ 0 ∷ 0 ∷ 10 ∷ 0 ∷ 0 ∷ 0 ∷ b'/' ∷ b'a' ∷ [])

llega :
    recv_message pedido
    ≡ some (record { head = Head.get_attr; content = b'/' ∷ b'a' ∷ [] }, conexion 11 [])
unfolding recv_message recv_content word_le
llega = refl

termina : recv_message (conexion 11 []) ≡ some (Mensaje.error true 11, conexion 11 [])
unfolding recv_message
termina = refl

listen_sac_cli_turnos_example :
    (res : List ℕ × Sac) × (listen_sac_cli partes 9 0 15 5 pedido imagen ≡ some res)
    × (listen_sac_cli partes 9 0 80 5 pedido imagen ≡ some res)
listen_sac_cli_turnos_example =
    listen_sac_cli_turnos partes 9 0 15 80 5 pedido imagen (omega arith) (omega arith) (
      _,
      llega,
      inr (
        refl,
        (atributos 100 0 0 t_file 1 ∷ [], conexion 11 [], imagen),
        turno_path partes 9 0 0 5 11 Head.get_attr ruta imagen (atributos 100 0 0 t_file 1 ∷ [])
            imagen buena refl (unfold atender_path in se_ven),
        (_, termina, inl (unfold Mensaje.error in refl)),
      ),
    )
