-- ===== src/Sac/Llamadas.antt =====
-- The callbacks of the client against the operations of the server.
use tp_2019_2c_vendo_fiat.Protocol.Framing.{Cabe}
use tp_2019_2c_vendo_fiat.Sac.Remoto.{servidor, EsPedido, pedir-servidor, una_vuelta_sola}
use tp_2019_2c_vendo_fiat.Sac.Cliente.{pedir_estado}
use tp_2019_2c_vendo_fiat.Protocol.Conexion.{conexion}
use tp_2019_2c_vendo_fiat.Protocol.Words.{bytes_le, word_le}
use tp_2019_2c_vendo_fiat.Sac.Campos.{SinNul, fill_path_solo}
use tp_2019_2c_vendo_fiat.Base.Int.{ℤ, pos, negsuc, ltb_ℤ}
use tp_2019_2c_vendo_fiat.Protocol.Mensaje.{get_status, size_of, send_message}
use tp_2019_2c_vendo_fiat.Sac.Wire.{mensaje_de, turno, es_de_path, codigo, path_size, atender_path}
use tp_2019_2c_vendo_fiat.Base.{
  List, Option, ℕ, length, some, ◌<◌, ◌≡◌, true, arith, ◌-◌, none, ◌∷◌, [], ◌==◌, false, refl,
}
use tp_2019_2c_vendo_fiat.Protocol.Head
use tp_2019_2c_vendo_fiat.Sac.State.{
  enoent, eexist, edquot, enospc, enotempty, ok, error, contenido, dir_name, enlaces, atributos,
  Respuesta, Sac,
}

-- The status that an answer carries, if it carries one: 0, or less than 0 an error.
abbrev pub estado_de : Respuesta → Option ℤ
estado_de ok = some (pos 0)
estado_de (error e) = some (negsuc (codigo e - 1))
estado_de _ = none

-- A path that the server takes.
pub record PathBueno (path : List ℕ) : Type 0 where
  pub sin_nul : SinNul path
  pub corto : length path < path_size

pub mensaje_estado :
    (r : Respuesta) (z : ℤ)
    → estado_de r ≡ some z
    → Cabe (mensaje_de r) × (get_status (mensaje_de r) ≡ z)
unfolding mensaje_de get_status bytes_le word_le size_of codigo
mensaje_estado ok z e = (record { head = omega arith; size = omega arith }, ground arith)
mensaje_estado (error enoent) z e =
    (record { head = omega arith; size = omega arith }, ground arith)
mensaje_estado (error eexist) z e =
    (record { head = omega arith; size = omega arith }, ground arith)
mensaje_estado (error edquot) z e =
    (record { head = omega arith; size = omega arith }, ground arith)
mensaje_estado (error enospc) z e =
    (record { head = omega arith; size = omega arith }, ground arith)
mensaje_estado (error enotempty) z e =
    (record { head = omega arith; size = omega arith }, ground arith)
mensaje_estado (enlaces n) z e = cc
mensaje_estado (atributos a b c d f) z e = cc
mensaje_estado (dir_name n) z e = cc
mensaje_estado (contenido n) z e = cc

module _ (string_split : List ℕ → List (List ℕ)) (now fuel turnos numero errno : ℕ) where
  abbrev red : List ℕ → Sac → Option (List ℕ × Sac)
  red = servidor string_split now fuel turnos numero errno

  -- A request with one answer that carries a status.
  pub pedir_estado-turno :
      (head : ℕ) (content : List ℕ) (s : Sac) (r : Respuesta) (z : ℤ) (t : Sac) (n : ℕ)
      → Cabe (record { head = head; content = content })
      → EsPedido head
      → turno string_split now fuel
          (record { head = head; content = content })
          (conexion errno [])
          s
        ≡ some (r ∷ [], conexion errno [], t)
      → estado_de r ≡ some z
      → pedir_estado red errno (pos n) head content s ≡ some (z, t)
  unfolding pedir_estado
  pedir_estado-turno head content s r z t n c p e st =
      let (cabe, estado) = mensaje_estado r z st in
      let ida =
        una_vuelta_sola string_split now fuel turnos numero errno head content s (r ∷ []) t c p e in
      let nuevo : ltb_ℤ (pos n) (pos 0) ≡ false = ground arith in
      rw
        (
          nuevo,
          pedir-servidor string_split now fuel turnos numero errno (send_message head content) s r
              [] t ida cabe,
          estado,
        )
        refl

  pub turno_path :
      (head : ℕ) (path : List ℕ) (s : Sac) (rs : List Respuesta) (t : Sac)
      → PathBueno path
      → es_de_path head ≡ true
      → atender_path string_split now fuel head path s ≡ some (rs, t)
      → turno string_split now fuel (record { head = head; content = path }) (conexion errno []) s
        ≡ some (rs, conexion errno [], t)
  unfolding turno
  turno_path head path s rs t p h e =
      let otra : head == Head.write ≡ false = ground arith in
      rw (otra, h, fill_path_solo path p.sin_nul p.corto, e) refl
