-- ===== src/Sac/Remotas.antt =====
-- The callbacks of the client that send a path, and the read of a file, over the connection.
use tp_2019_2c_vendo_fiat.Protocol.Words.{bytes_le, length-bytes_le}
use tp_2019_2c_vendo_fiat.Protocol.Framing.{Cabe}
use tp_2019_2c_vendo_fiat.Protocol.Mensaje.{size_of, size_header, size_size, send_message}
use tp_2019_2c_vendo_fiat.Sac.Campos.{pedido_read-Leidos}
use tp_2019_2c_vendo_fiat.Sac.Datos.{sac_read}
use tp_2019_2c_vendo_fiat.Sac.Operations.{Salida, sac_mkdir, sac_rmdir, sac_unlink}
use tp_2019_2c_vendo_fiat.Sac.Llamadas.{PathBueno, estado_de, pedir_estado-turno, turno_path}
use tp_2019_2c_vendo_fiat.Base.Int.{ℤ, pos, ltb_ℤ}
use tp_2019_2c_vendo_fiat.Sac.Remoto.{servidor, pedir-servidor, una_vuelta_sola}
use tp_2019_2c_vendo_fiat.Sac.Wire.{turno, atender_largo, atender_path, es_de_path, mensaje_de}
use tp_2019_2c_vendo_fiat.Sac.Cliente.{
  pedido_read, pedir_estado, do_read, do_mkdir, do_rmdir, do_unlink,
}
use tp_2019_2c_vendo_fiat.Protocol.Conexion.{conexion}
use tp_2019_2c_vendo_fiat.Sac.State.{Sac, Respuesta, contenido}
use tp_2019_2c_vendo_fiat.Base.{
  ltb, List, ℕ, Option, ◌<◌, ◌^◌, ◌≡◌, some, true, ◌∷◌, [], length, false, arith, refl, ◌+◌,
  length-append, ◌++◌,
}
use tp_2019_2c_vendo_fiat.Protocol.Head

-- The changes of the tree of names whose answer is a status.
pub data Cambio : Type 0 where
  crea_directorio borra_directorio borra_archivo : Cambio

pub Cabe-corto :
    (head : ℕ) (content : List ℕ)
    → head < 256
    → length content < 1000
    → Cabe (record { head = head; content = content })
unfolding size_of
Cabe-corto head content h l = record { head = omega arith; size = omega arith }

pub length-pedido_read :
    (path : List ℕ) (size off : ℕ) → length (pedido_read path size off) ≡ 24 + length path
unfolding pedido_read
length-pedido_read path size off = omega (
  arith,
  length-append (bytes_le 8 (length path)) (path ++ (bytes_le 8 size ++ bytes_le 8 off)),
  length-append path (bytes_le 8 size ++ bytes_le 8 off),
  length-append (bytes_le 8 size) (bytes_le 8 off),
  length-bytes_le 8 (length path),
  length-bytes_le 8 size,
  length-bytes_le 8 off,
)

module _ (string_split : List ℕ → List (List ℕ)) (now fuel turnos numero errno : ℕ) where
  abbrev red : List ℕ → Sac → Option (List ℕ × Sac)
  red = servidor string_split now fuel turnos numero errno

  -- The operation of the server that changes the tree of names.
  unfoldable pub en_servidor : Cambio → List ℕ → Sac → Salida
  en_servidor crea_directorio path s = sac_mkdir string_split now path s
  en_servidor borra_directorio path s = sac_rmdir string_split path s
  en_servidor borra_archivo path s = sac_unlink string_split path s

  -- The callback of the client for it, over the connection.
  unfoldable pub en_cliente : Cambio → ℤ → List ℕ → Sac → Option (ℤ × Sac)
  en_cliente crea_directorio op_res path s = do_mkdir red errno op_res path s
  en_cliente borra_directorio op_res path s = do_rmdir red errno op_res path s
  en_cliente borra_archivo op_res path s = do_unlink red errno op_res path s

  pedir_path :
      (head : ℕ) (path : List ℕ) (s : Sac) (r : Respuesta) (z : ℤ) (t : Sac) (n : ℕ)
      → PathBueno path
      → es_de_path head ≡ true
      → atender_path string_split now fuel head path s ≡ some (r ∷ [], t)
      → estado_de r ≡ some z
      → pedir_estado red errno (pos n) head path s ≡ some (z, t)
  pedir_path head path s r z t n p h e st =
      pedir_estado-turno string_split now fuel turnos numero errno head path s r z t n
        (Cabe-corto head path (ground arith) (omega (arith, p.corto))) (ground arith, ground arith)
        (turno_path string_split now fuel turnos numero errno head path s (r ∷ []) t p h e) st

  -- For a path of at most 70 bytes and no NUL, over a connection that is not down: where `sac_mkdir`,
  -- `sac_rmdir` or `sac_unlink` answers one message that carries a status, `do_mkdir`, `do_rmdir` or
  -- `do_unlink` on the same path answers that status, and the image is the one that the operation
  -- of the server leaves.
  pub en_cliente-en_servidor :
      (o : Cambio) (path : List ℕ) (s : Sac) (r : Respuesta) (z : ℤ) (t : Sac) (n : ℕ)
      → PathBueno path
      → en_servidor o path s ≡ some (r ∷ [], t)
      → estado_de r ≡ some z
      → en_cliente o (pos n) path s ≡ some (z, t)
  unfolding en_servidor en_cliente do_mkdir do_rmdir do_unlink
  en_cliente-en_servidor crea_directorio path s r z t n p e st =
      let corto : ltb 70 (length path) ≡ false = (let c = p.corto in ground (arith, c)) in
      rw corto (pedir_path Head.mkdir path s r z t n p refl (unfold atender_path in e) st)
  en_cliente-en_servidor borra_directorio path s r z t n p e st =
      pedir_path Head.rmdir path s r z t n p refl (unfold atender_path in e) st
  en_cliente-en_servidor borra_archivo path s r z t n p e st =
      let nuevo : ltb_ℤ (pos n) (pos 0) ≡ false = ground arith in
      rw nuevo (pedir_path Head.unlink path s r z t n p refl (unfold atender_path in e) st)

  turno-read :
      (path : List ℕ) (size off : ℕ) (s : Sac) (rs : List Respuesta) (t : Sac)
      → PathBueno path
      → size < 256 ^ 8
      → off < 256 ^ 8
      → sac_read string_split path size off s ≡ some (rs, t)
      → turno string_split now fuel
          (record { head = Head.read; content = pedido_read path size off })
          (conexion errno [])
          s
        ≡ some (rs, conexion errno [], t)
  unfolding turno atender_largo
  turno-read path size off s rs t p hs ho e =
      let l = pedido_read-Leidos path size off p.sin_nul p.corto hs ho in
      rw (l.de_path, l.de_size, l.de_off, e) refl

  Cabe-contenido :
      (bs : List ℕ) → length bs + size_header < 256 ^ size_size → Cabe (mensaje_de (contenido bs))
  unfolding mensaje_de size_of
  Cabe-contenido bs h = record { head = omega arith; size = h }

  -- Over a connection that is not down, for a path of at most 70 bytes and no NUL, and a size and
  -- an offset that fit in 8 bytes: where `sac_read` answers bytes that fit in a message, `do_read`
  -- answers their count, puts those bytes and no others in the buffer, and the image is the one
  -- that `sac_read` leaves.
  pub do_read-sac_read :
      (path : List ℕ) (size off : ℕ) (s : Sac) (bs : List ℕ) (t : Sac) (n : ℕ)
      → PathBueno path
      → size < 256 ^ 8
      → off < 256 ^ 8
      → length bs + size_header < 256 ^ size_size
      → sac_read string_split path size off s ≡ some (contenido bs ∷ [], t)
      → do_read red errno (pos n) path size off s ≡ some (pos (length bs), bs, t)
  unfolding do_read
  do_read-sac_read path size off s bs t n p hs ho hb e =
      let content = pedido_read path size off in
      let cabe =
        Cabe-corto Head.read content (omega arith)
          (omega (arith, length-pedido_read path size off, p.corto)) in
      let ida =
        una_vuelta_sola string_split now fuel turnos numero errno Head.read content s
          (contenido bs ∷ []) t cabe (refl, refl)
          (turno-read path size off s (contenido bs ∷ []) t p hs ho e) in
      let nuevo : ltb_ℤ (pos n) (pos 0) ≡ false = ground arith in
      rw
        (
          nuevo,
          pedir-servidor string_split now fuel turnos numero errno (send_message Head.read content)
              s (contenido bs) [] t ida (Cabe-contenido bs hb),
        )
        (unfold mensaje_de in refl)
