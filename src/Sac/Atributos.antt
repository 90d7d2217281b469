-- ===== src/Sac/Atributos.antt =====
-- The attributes of a file over the connection.
use tp_2019_2c_vendo_fiat.Sac.Remotas.{Cabe-corto}
use tp_2019_2c_vendo_fiat.Base.Int.{pos, ltb_ℤ}
use tp_2019_2c_vendo_fiat.Sac.Operations.{sac_getattr}
use tp_2019_2c_vendo_fiat.Sac.Llamadas.{PathBueno, turno_path}
use tp_2019_2c_vendo_fiat.Sac.Remoto.{servidor, una_vuelta_sola, pedir-servidor}
use tp_2019_2c_vendo_fiat.Protocol.Framing.{Cabe}
use tp_2019_2c_vendo_fiat.Protocol.Mensaje.{size_of, send_message}
use tp_2019_2c_vendo_fiat.Muse.Remota.{word_le-take}
use tp_2019_2c_vendo_fiat.Protocol.Words.{bytes_le, campo-bytes_le}
use tp_2019_2c_vendo_fiat.Sac.State.{atributos, t_dir, Sac}
use tp_2019_2c_vendo_fiat.Sac.Wire.{mensaje_de, atender_path}
use tp_2019_2c_vendo_fiat.Sac.Cliente.{leer_stat, Stat, do_getattr, pedir_atributos}
use tp_2019_2c_vendo_fiat.Base.{
  ℕ, ◌==◌, ◌≡◌, bytes_eq, if◌then◌else◌, ◌++◌, drop, List, ◌<◌, ◌^◌, Option, arith, refl, ◌∷◌, [],
  false, some, ap,
}
use tp_2019_2c_vendo_fiat.Protocol.Head

-- The fields of the attributes fit in the bytes that carry them.
pub record Caben (size creation modification status links : ℕ) : Type 0 where
  pub de_size : size < 256 ^ 4
  pub de_creation : creation < 256 ^ 8
  pub de_modification : modification < 256 ^ 8
  pub de_status : status < 256
  pub de_links : links < 256 ^ 4

abbrev pub stat_de : ℕ → ℕ → ℕ → ℕ → ℕ → Stat
stat_de size creation modification status links = record {
  es_dir = status == t_dir;
  nlink = links;
  size = if status == t_dir then 0 else size;
  mtim = modification;
  ctim = creation;
}

leer_stat-mensaje_de :
    (size creation modification status links : ℕ)
    → Caben size creation modification status links
    → leer_stat (mensaje_de (atributos size creation modification status links)).content
      ≡ stat_de size creation modification status links
unfolding leer_stat mensaje_de
leer_stat-mensaje_de size creation modification status links c =
    let r4 = bytes_le 4 links in
    let r3 = bytes_le 1 status ++ r4 in
    let r2 = bytes_le 8 modification ++ r3 in
    let r1 = bytes_le 8 creation ++ r2 in
    let todo = bytes_le 4 size ++ r1 in
    let e1 : drop 4 todo ≡ r1 = (unfold bytes_le in refl) in
    let e2 : drop 12 todo ≡ r2 = (unfold bytes_le in refl) in
    let e3 : drop 20 todo ≡ r3 = (unfold bytes_le in refl) in
    let e4 : drop 21 todo ≡ r4 = (unfold bytes_le in refl) in
    rw
      (
        e1,
        e2,
        e3,
        e4,
        campo-bytes_le 4 size r1 c.de_size,
        campo-bytes_le 8 creation r2 c.de_creation,
        campo-bytes_le 8 modification r3 c.de_modification,
        campo-bytes_le 1 status r4 c.de_status,
        word_le-take links c.de_links,
      )
      refl

Cabe-atributos :
    (size creation modification status links : ℕ)
    → Cabe (mensaje_de (atributos size creation modification status links))
unfolding mensaje_de size_of bytes_le
Cabe-atributos size creation modification status links = record {
  head = omega arith;
  size = omega arith;
}

module _ (string_split : List ℕ → List (List ℕ)) (now fuel turnos numero errno : ℕ) where
  abbrev red : List ℕ → Sac → Option (List ℕ × Sac)
  red = servidor string_split now fuel turnos numero errno

  -- Over connections that are not down, for a path of at most 70 bytes and no NUL that is not "/":
  -- where the attributes that `sac_getattr` answers fit in their fields, `do_getattr` answers 0 and
  -- those attributes: the count of links, the dates, whether it is a directory, and the size, 0 for
  -- a directory.
  pub do_getattr-sac_getattr :
      (path : List ℕ) (size creation modification status links : ℕ) (s t : Sac) (n k : ℕ)
      → PathBueno path
      → bytes_eq path (b'/' ∷ []) ≡ false
      → Caben size creation modification status links
      → sac_getattr string_split path s
        ≡ some (atributos size creation modification status links ∷ [], t)
      → do_getattr red errno (pos n) (pos k) path s
        ≡ some (pos 0, some (stat_de size creation modification status links), t)
  unfolding do_getattr pedir_atributos
  do_getattr-sac_getattr path size creation modification status links s t n k p otro c e =
      let r = atributos size creation modification status links in
      let hecho : atender_path string_split now fuel Head.get_attr path s ≡ some (r ∷ [], t) =
        unfold atender_path in e in
      let ida =
        una_vuelta_sola string_split now fuel turnos numero errno Head.get_attr path s (r ∷ []) t
          (Cabe-corto Head.get_attr path (omega arith) (omega (arith, p.corto))) (refl, refl)
          (turno_path string_split now fuel turnos numero errno Head.get_attr path s (r ∷ []) t p
            refl hecho) in
      let nuevo : ltb_ℤ (pos n) (pos 0) ≡ false = ground arith in
      rw
        (
          otro,
          nuevo,
          pedir-servidor string_split now fuel turnos numero errno (send_message Head.get_attr path)
              s r [] t ida (Cabe-atributos size creation modification status links),
        )
        (unfold mensaje_de in
          ap (λ a. some (pos 0, some a, t))
            (leer_stat-mensaje_de size creation modification status links c))
