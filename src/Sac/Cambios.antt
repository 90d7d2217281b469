-- ===== src/Sac/Cambios.antt =====
-- `do_trucate` and `do_rename` over the connection: they drop the status of the server.
use tp_2019_2c_vendo_fiat.Sac.Campos.{con_largo_de-append, fill_path_largo, campo_tras_path}
use tp_2019_2c_vendo_fiat.Protocol.Head
use tp_2019_2c_vendo_fiat.Sac.Remotas.{Cabe-corto}
use tp_2019_2c_vendo_fiat.Sac.Llamadas.{PathBueno, estado_de, pedir_estado-turno}
use tp_2019_2c_vendo_fiat.Sac.Remoto.{servidor}
use tp_2019_2c_vendo_fiat.Sac.Cliente.{
  do_rename, do_trucate, pedido_rename, pedido_truncate, con_largo_de,
}
use tp_2019_2c_vendo_fiat.Protocol.Conexion.{conexion}
use tp_2019_2c_vendo_fiat.Sac.State.{Sac, Respuesta}
use tp_2019_2c_vendo_fiat.Protocol.Words.{bytes_le, length-bytes_le, drop-append_self}
use tp_2019_2c_vendo_fiat.Base.{
  List, ℕ, Option, length, ◌+◌, ◌≡◌, some, ◌<◌, ◌^◌, ◌∷◌, [], arith, false, ◌++◌, refl,
  length-append, drop, ltb, sym, ◌∙◌, ap, append_assoc,
}
use tp_2019_2c_vendo_fiat.Sac.Wire.{turno, atender_largo}
use tp_2019_2c_vendo_fiat.Base.Int.{ℤ, pos}
use tp_2019_2c_vendo_fiat.Sac.Datos.{sac_truncate}
use tp_2019_2c_vendo_fiat.Sac.Operations.{sac_rename}

module _ (string_split : List ℕ → List (List ℕ)) (now fuel turnos numero errno : ℕ) where
  abbrev red : List ℕ → Sac → Option (List ℕ × Sac)
  red = servidor string_split now fuel turnos numero errno

  turno-truncate :
      (path : List ℕ) (off : ℕ) (s : Sac) (rs : List Respuesta) (t : Sac)
      → PathBueno path
      → off < 256 ^ 8
      → sac_truncate string_split fuel path off s ≡ some (rs, t)
      → turno string_split now fuel
          (record { head = Head.truncate; content = pedido_truncate path off })
          (conexion errno [])
          s
        ≡ some (rs, conexion errno [], t)
  unfolding turno atender_largo pedido_truncate
  turno-truncate path off s rs t p ho e =
      let junto = con_largo_de-append path (bytes_le 8 off) (0 ∷ []) in
      rw
        (
          junto,
          fill_path_largo path (bytes_le 8 off ++ (0 ∷ [])) p.sin_nul p.corto,
          campo_tras_path path [] (0 ∷ []) 8 off (8 + length path) (omega arith) ho,
          e,
        )
        refl

  length-pedido_truncate :
      (path : List ℕ) (off : ℕ) → length (pedido_truncate path off) ≡ 16 + length path
  unfolding pedido_truncate
  length-pedido_truncate path off = omega (
    arith,
    length-append (bytes_le 8 (length path)) (path ++ bytes_le 8 off),
    length-append path (bytes_le 8 off),
    length-bytes_le 8 (length path),
    length-bytes_le 8 off,
  )

  -- Over a connection that is not down, for a path of at most 70 bytes and no NUL and a size that
  -- fits in 8 bytes: where `sac_truncate` answers one status, an error too, `do_trucate` answers 0,
  -- and the image is the one that `sac_truncate` leaves.
  pub do_trucate-sac_truncate :
      (path : List ℕ) (off : ℕ) (s : Sac) (r : Respuesta) (z : ℤ) (t : Sac) (n : ℕ)
      → PathBueno path
      → off < 256 ^ 8
      → sac_truncate string_split fuel path off s ≡ some (r ∷ [], t)
      → estado_de r ≡ some z
      → do_trucate red errno (pos n) path off s ≡ some (pos 0, t)
  unfolding do_trucate
  do_trucate-sac_truncate path off s r z t n p ho e st =
      let content = pedido_truncate path off in
      let cabe =
        Cabe-corto Head.truncate content (omega arith)
          (omega (arith, length-pedido_truncate path off, p.corto)) in
      rw
        (pedir_estado-turno string_split now fuel turnos numero errno Head.truncate content s r z t
          n cabe (refl, refl) (turno-truncate path off s (r ∷ []) t p ho e) st)
        refl

  drop-con_largo_de :
      (path resto : List ℕ) → drop (8 + length path) (con_largo_de path resto) ≡ resto
  drop-con_largo_de path resto =
      let cabeza = bytes_le 8 (length path) ++ path in
      let junto : con_largo_de path resto ≡ cabeza ++ resto =
        sym (append_assoc (bytes_le 8 (length path)) path resto) in
      let largo : 8 + length path ≡ length cabeza =
        omega
          (arith, length-append (bytes_le 8 (length path)) path, length-bytes_le 8 (length path)) in
      rw (junto, largo) (drop-append_self cabeza resto)

  turno-rename :
      (basura old_path new_path : List ℕ) (s : Sac) (rs : List Respuesta) (t : Sac)
      → PathBueno old_path
      → PathBueno new_path
      → sac_rename string_split now old_path new_path s ≡ some (rs, t)
      → turno string_split now fuel
          (record { head = Head.rename; content = pedido_rename basura old_path new_path })
          (conexion errno [])
          s
        ≡ some (rs, conexion errno [], t)
  unfolding turno atender_largo pedido_rename
  turno-rename basura old_path new_path s rs t p q e =
      let nuevo = con_largo_de new_path basura in
      let junto : con_largo_de old_path nuevo ++ (0 ∷ [])
          ≡ con_largo_de old_path (con_largo_de new_path (basura ++ (0 ∷ []))) =
        con_largo_de-append old_path nuevo (0 ∷ [])
        ∙ ap (con_largo_de old_path) (con_largo_de-append new_path basura (0 ∷ [])) in
      let resto = con_largo_de new_path (basura ++ (0 ∷ [])) in
      rw
        (
          junto,
          fill_path_largo old_path resto p.sin_nul p.corto,
          drop-con_largo_de old_path resto,
          fill_path_largo new_path (basura ++ (0 ∷ [])) q.sin_nul q.corto,
          e,
        )
        refl

  length-pedido_rename :
      (basura old_path new_path : List ℕ)
      → length (pedido_rename basura old_path new_path)
        ≡ 16 + length old_path + length new_path + length basura
  unfolding pedido_rename
  length-pedido_rename basura old_path new_path = omega (
    arith,
    length-append (bytes_le 8 (length old_path)) (old_path ++ con_largo_de new_path basura),
    length-append old_path (con_largo_de new_path basura),
    length-append (bytes_le 8 (length new_path)) (new_path ++ basura),
    length-append new_path basura,
    length-bytes_le 8 (length old_path),
    length-bytes_le 8 (length new_path),
  )

  -- Over a connection that is not down, for two paths of at most 70 bytes and no NUL: where
  -- `sac_rename` answers one status, an error too, `do_rename` answers 0, and the image is the one
  -- that `sac_rename` leaves, whatever the 8 bytes at most that the client sends after the new
  -- path.
  pub do_rename-sac_rename :
      (basura old_path new_path : List ℕ) (s : Sac) (r : Respuesta) (z : ℤ) (t : Sac) (n : ℕ)
      → PathBueno old_path
      → PathBueno new_path
      → length basura < 9
      → sac_rename string_split now old_path new_path s ≡ some (r ∷ [], t)
      → estado_de r ≡ some z
      → do_rename red errno (pos n) basura old_path new_path s ≡ some (pos 0, t)
  unfolding do_rename
  do_rename-sac_rename basura old_path new_path s r z t n p q hb e st =
      let content = pedido_rename basura old_path new_path in
      let cabe =
        Cabe-corto Head.rename content (omega arith)
          (omega (arith, length-pedido_rename basura old_path new_path, p.corto, q.corto)) in
      let corto : ltb 70 (length new_path) ≡ false = ground (arith, q.corto) in
      rw
        (
          corto,
          pedir_estado-turno string_split now fuel turnos numero errno Head.rename content s r z t n
              cabe (refl, refl) (turno-rename basura old_path new_path s (r ∷ []) t p q e) st,
        )
        refl
