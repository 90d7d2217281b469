-- ===== src/Muse/MapaTests.antt =====
-- Mappings on the state of one segment, and a client's messages.
use tp_2019_2c_vendo_fiat.Protocol.Words.{word_le}
use tp_2019_2c_vendo_fiat.Muse.Vacio.{flags_leidos, uint32_de, libmuse_map_vacio}
use tp_2019_2c_vendo_fiat.Muse.Sesion.{
  atender_todos, handler_clients_turnos, handler_clients-enviados,
}
use tp_2019_2c_vendo_fiat.Muse.Servidor.{turno_de}
use tp_2019_2c_vendo_fiat.Protocol.Conexion.{conexion}
use tp_2019_2c_vendo_fiat.Muse.Libmuse.{libmuse_map}
use tp_2019_2c_vendo_fiat.Muse.Atencion.{handler_clients, atender_map}
use tp_2019_2c_vendo_fiat.Protocol.Mensaje.{Socket, TMessage, size_of, recv_message, recv_content}
use tp_2019_2c_vendo_fiat.Muse.RemotaTests.{nada_leido}
use tp_2019_2c_vendo_fiat.Muse.AllocTests.{mismos, estado, segmento, programa_solo, es_p, ceros}
use tp_2019_2c_vendo_fiat.Muse.Mapeadas.{Entra, Mapeada, muse_map-Mapeada}
use tp_2019_2c_vendo_fiat.Muse.Mapa.{muse_sync, muse_map}
use tp_2019_2c_vendo_fiat.Base.{
  Bool, List, Option, ◌≡◌, option_case, some, true, ℕ, ◌*◌, ◌-◌, [], refl, ◌≤◌, arith, none, ◌∷◌,
  suc, All, inr, inl,
}
use tp_2019_2c_vendo_fiat.Muse.State.{Muse, Segmento}
use tp_2019_2c_vendo_fiat.Muse.Segmentos.{obtener_base_logica_nuevo_segmento, techo}
use tp_2019_2c_vendo_fiat.Protocol.Head
use tp_2019_2c_vendo_fiat.Protocol.Framing.{enviados, Cabe}
use tp_2019_2c_vendo_fiat.Base.Int.{ℤ, pos}
use Prim.Native.String.{String}

mapa-Entra : Entra 32 40 (segmento ∷ [])
unfolding obtener_base_logica_nuevo_segmento techo
mapa-Entra = record { detras = (omega arith, tt); entra = omega arith }

alcanza : techo 40 32 * 32 ≤ 64
unfolding techo
alcanza = omega arith

muse_map-Mapeada_example :
    (r : ℤ × Muse) × (muse_map mismos "p" "/f" 40 1 estado ≡ some r)
    × Mapeada mismos 0 32 (64 - techo 40 32 * 32) programa_solo "/f" 40 r
muse_map-Mapeada_example =
    muse_map-Mapeada mismos "p" "/f" 0 40 1 programa_solo estado refl es_p refl mapa-Entra alcanza

-- A mapping of two pages, which have the two frames.
abbrev segmento_f : Segmento
segmento_f = record segmento {
  num_segmento = 1;
  base_logica = 32;
  tamanio = 64;
  paginas = 0 ∷ 1 ∷ [];
  status_metadata = [];
  es_mmap = true;
  compartido = true;
  path_mapeo = "/f";
  tamanio_mapeo = 40;
}

abbrev segmentos : List Segmento
segmentos = segmento ∷ segmento_f ∷ []

abbrev mapeado : Muse
mapeado = record estado { lista_programas = record { id = "p"; segmentos = segmentos } ∷ [] }

abbrev todo_abre : String → Bool
todo_abre path = true

abbrev escrito : ℤ × Option (String × List ℕ) × Muse
escrito =
    option_case (muse_sync mismos nada_leido todo_abre "p" 65 2 mapeado) (pos 1, none, mapeado)
      (λ r. r)

-- The files are not looked at.
abbrev sin_leer : ℕ → String → ℕ → ℕ → ℕ
sin_leer d path n k = 0

abbrev todo_se_abre : ℕ → String → Bool
todo_se_abre d path = true

abbrev dejar_nada : String → List ℕ → ℕ → ℕ
dejar_nada path bytes d = suc d

abbrev nombre_p : ℕ → String
nombre_p pid = "p"

abbrev path_f : List ℕ → String
path_f bytes = "/f"

abbrev mensajes : List TMessage
mensajes =
    record { head = Head.muse_init; content = 7 ∷ 0 ∷ 0 ∷ 0 ∷ [] }
    ∷ record { head = Head.muse_unmap; content = 40 ∷ 0 ∷ 0 ∷ 0 ∷ [] }
    ∷ record { head = Head.muse_close; content = [] }
    ∷ []

caben : All Cabe mensajes
unfolding size_of
caben = (
  record { head = omega arith; size = omega arith },
  (
    record { head = omega arith; size = omega arith },
    (record { head = omega arith; size = omega arith }, tt),
  ),
)

handler_clients-enviados_example :
    handler_clients sin_leer todo_se_abre dejar_nada ceros mismos nombre_p path_f 4
      (conexion 11 (enviados mensajes))
      none
      estado
      0
    ≡ atender_todos sin_leer todo_se_abre dejar_nada ceros mismos nombre_p path_f mensajes none
        estado 0
handler_clients-enviados_example =
    handler_clients-enviados sin_leer todo_se_abre dejar_nada ceros mismos nombre_p path_f 4
      mensajes 11 none estado 0 (omega arith) caben (refl, (refl, (refl, tt)))

-- A message that closes a client without a name.
abbrev cierre : Socket
cierre = conexion 11 (4 ∷ 0 ∷ 0 ∷ 0 ∷ 0 ∷ 0 ∷ 0 ∷ 0 ∷ 35 ∷ 0 ∷ 0 ∷ 0 ∷ [])

se_cierra :
    recv_message cierre ≡ some (record { head = Head.muse_close; content = [] }, conexion 11 [])
unfolding recv_message recv_content word_le
se_cierra = refl

handler_clients_turnos_example :
    (res : List ℕ × Muse × ℕ) × (handler_clients sin_leer todo_se_abre dejar_nada ceros mismos
        nombre_p path_f 13 cierre
        (some "p")
        estado
        0
      ≡ some res)
    × (handler_clients sin_leer todo_se_abre dejar_nada ceros mismos nombre_p path_f 90 cierre
          (some "p")
          estado
          0
        ≡ some res)
handler_clients_turnos_example =
    handler_clients_turnos sin_leer todo_se_abre dejar_nada ceros mismos nombre_p path_f 13 90
      cierre (some "p") estado 0 (omega arith) (omega arith)
      (_, se_cierra, inr (inl (refl, refl, "p", refl)))

libmuse_map_vacio_example :
    libmuse_map
      (turno_de 11 Head.muse_map (atender_map mismos path_f "p"))
      11
      (47 ∷ 102 ∷ [])
      40
      1
      estado
    ≡ option_case
        (muse_map mismos "p" "/f" 0 (flags_leidos (47 ∷ 102 ∷ []) 40 1) estado)
        none
        (λ r. some (uint32_de r.0, r.1))
libmuse_map_vacio_example =
    libmuse_map_vacio mismos path_f 11 "p" (47 ∷ 102 ∷ []) 40 1 estado (omega arith)
