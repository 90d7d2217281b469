-- ===== src/Sac/Escrituras.antt =====
-- The write of a file over the connection: it goes in two messages.
use tp_2019_2c_vendo_fiat.Sac.Campos.{pedido_read-Leidos}
use tp_2019_2c_vendo_fiat.Protocol.Head
use tp_2019_2c_vendo_fiat.Sac.Remotas.{Cabe-corto, length-pedido_read}
use tp_2019_2c_vendo_fiat.Sac.Llamadas.{PathBueno, estado_de, mensaje_estado}
use tp_2019_2c_vendo_fiat.Sac.Remoto.{servidor, una_vuelta, pedir-servidor}
use tp_2019_2c_vendo_fiat.Sac.Cliente.{do_write, pedido_read}
use tp_2019_2c_vendo_fiat.Protocol.Conexion.{conexion, recv_solo}
use tp_2019_2c_vendo_fiat.Sac.State.{
  Sac, Respuesta, error, enlaces, atributos, dir_name, contenido, ok, enoent, eexist, edquot,
  enospc, enotempty,
}
use tp_2019_2c_vendo_fiat.Protocol.Words.{bytes_le, word_le, take-append_self}
use tp_2019_2c_vendo_fiat.Protocol.Mensaje.{
  get_status, size_of, size_header, size_size, send_message,
}
use tp_2019_2c_vendo_fiat.Base.{
  List, ℕ, if◌then◌else◌, Option, length, ◌+◌, ◌≡◌, some, ◌<◌, ◌==◌, ◌^◌, ◌∷◌, [], arith, false,
  ◌++◌, refl, leb, true, length-append,
}
use tp_2019_2c_vendo_fiat.Sac.Wire.{mensaje_de, turno, atender_write, codigo}
use tp_2019_2c_vendo_fiat.Base.Int.{ℤ, ltb_ℤ, pos}
use tp_2019_2c_vendo_fiat.Sac.Datos.{sac_write}

-- What `do_write` makes of the status of the server.
unfoldable pub resultado_write : ℤ → ℕ → ℤ
resultado_write z n = if ltb_ℤ z (pos 0) then z else pos n

resultado_write-estado_de :
    (r : Respuesta) (z : ℤ) (n : ℕ)
    → estado_de r ≡ some z
    → (if (mensaje_de r).head == Head.error then get_status (mensaje_de r) else pos n)
      ≡ resultado_write z n
unfolding mensaje_de get_status resultado_write bytes_le word_le codigo
resultado_write-estado_de ok z n e = ground arith
resultado_write-estado_de (error enoent) z n e = ground arith
resultado_write-estado_de (error eexist) z n e = ground arith
resultado_write-estado_de (error edquot) z n e = ground arith
resultado_write-estado_de (error enospc) z n e = ground arith
resultado_write-estado_de (error enotempty) z n e = ground arith
resultado_write-estado_de (enlaces m) z n e = cc
resultado_write-estado_de (atributos a b c d f) z n e = cc
resultado_write-estado_de (dir_name m) z n e = cc
resultado_write-estado_de (contenido m) z n e = cc

module _ (string_split : List ℕ → List (List ℕ)) (now fuel turnos numero errno : ℕ) where
  abbrev red : List ℕ → Sac → Option (List ℕ × Sac)
  red = servidor string_split now fuel turnos numero errno

  -- The turn of the server on a write, with its data in the next message.
  turno-write :
      (path buf : List ℕ) (off : ℕ) (s : Sac) (rs : List Respuesta) (t : Sac)
      → PathBueno path
      → length buf + size_header < 256 ^ size_size
      → off < 256 ^ 8
      → sac_write string_split now path buf (length buf) off s ≡ some (rs, t)
      → turno string_split now fuel
          (record { head = Head.write; content = pedido_read path (length buf) off })
          (conexion errno (send_message Head.ok buf))
          s
        ≡ some (rs, conexion errno [], t)
  unfolding turno atender_write size_of
  turno-write path buf off s rs t p hb ho e =
      let l = pedido_read-Leidos path (length buf) off p.sin_nul p.corto (omega (arith, hb)) ho in
      let llega = recv_solo Head.ok buf errno (record { head = omega arith; size = hb }) in
      let entra : leb (length buf) (length (buf ++ (0 ∷ []))) ≡ true =
        ground (arith, length-append buf (0 ∷ [])) in
      rw (l.de_path, l.de_size, l.de_off, llega, entra, take-append_self buf (0 ∷ []), e) refl

  -- Over a connection that is not down, for a path of at most 70 bytes and no NUL, an offset that
  -- fits in 8 bytes, and data that fit in a message: where `sac_write`, on just those data and that
  -- offset, answers one status, `do_write` answers the count of the bytes if the status is not
  -- negative, and otherwise the status; the image is the one that `sac_write` leaves.
  pub do_write-sac_write :
      (path buf : List ℕ) (off : ℕ) (s : Sac) (r : Respuesta) (z : ℤ) (t : Sac) (n : ℕ)
      → PathBueno path
      → length buf + size_header < 256 ^ size_size
      → off < 256 ^ 8
      → sac_write string_split now path buf (length buf) off s ≡ some (r ∷ [], t)
      → estado_de r ≡ some z
      → do_write red errno (pos n) path buf off s ≡ some (resultado_write z (length buf), t)
  unfolding do_write
  do_write-sac_write path buf off s r z t n p hb ho e st =
      let content = pedido_read path (length buf) off in
      let cabe =
        Cabe-corto Head.write content (omega arith)
          (omega (arith, length-pedido_read path (length buf) off, p.corto)) in
      let ida =
        una_vuelta string_split now fuel turnos numero errno
          (record { head = Head.write; content = content }) (send_message Head.ok buf) s (r ∷ []) t
          cabe (refl, refl) (turno-write path buf off s (r ∷ []) t p hb ho e) in
      let (cabe_r, _) = mensaje_estado r z st in
      let nuevo : ltb_ℤ (pos n) (pos 0) ≡ false = ground arith in
      rw
        (
          nuevo,
          pedir-servidor string_split now fuel turnos numero errno
              (send_message Head.write content ++ send_message Head.ok buf) s r [] t ida cabe_r,
          resultado_write-estado_de r z (length buf) st,
        )
        refl
