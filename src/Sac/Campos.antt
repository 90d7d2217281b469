-- ===== src/Sac/Campos.antt =====
-- What the server reads of the contents that the client writes.
use tp_2019_2c_vendo_fiat.Sac.Cliente.{con_largo_de, pedido_read}
use tp_2019_2c_vendo_fiat.Protocol.Words.{
  bytes_le, drop-bytes_le, length-bytes_le, take-append_self,
}
use tp_2019_2c_vendo_fiat.Sac.Wire.{copiar_path, fill_path, path_size}
use tp_2019_2c_vendo_fiat.Protocol.Conexion.{hasta_nul}
use tp_2019_2c_vendo_fiat.Protocol.Conexion.{campo, campo-append}
use tp_2019_2c_vendo_fiat.Base.{
  List, ℕ, All, length, ◌++◌, ◌<◌, ◌≡◌, ◌+◌, ◌==◌, ◌^◌, ◌∷◌, [], false, some, leb, ltb, refl, true,
  arith, lt→ltb, length-append, ap, sym, append_assoc, ◌∙◌,
}

-- A string in memory: no byte of it is NUL.
abbrev pub SinNul : List ℕ → Type 0
SinNul = All (λ b. b == 0 ≡ false)

pub hasta_nul-append : (path resto : List ℕ) → SinNul path → hasta_nul (path ++ (0 ∷ resto)) ≡ path
unfolding hasta_nul
hasta_nul-append [] resto h = refl
hasta_nul-append (b ∷ path) resto h = rw (h.0, hasta_nul-append path resto h.1) refl

pub hasta_nul-SinNul : (path : List ℕ) → SinNul path → hasta_nul path ≡ path
unfolding hasta_nul
hasta_nul-SinNul [] h = refl
hasta_nul-SinNul (b ∷ path) h = rw (h.0, hasta_nul-SinNul path h.1) refl

copiar_path-append :
    (path resto : List ℕ)
    → SinNul path
    → length path < path_size
    → copiar_path (length path) (path ++ resto) ≡ some path
unfolding copiar_path
copiar_path-append path resto h l =
    let cabe : ltb (length path) path_size ≡ true = lt→ltb _ _ l in
    let esta : leb (length path) (length (path ++ resto)) ≡ true =
      ground (arith, length-append path resto) in
    rw (cabe, esta, take-append_self path resto, hasta_nul-SinNul path h) refl

pub fill_path_solo :
    (path : List ℕ)
    → SinNul path
    → length path < path_size
    → fill_path (path ++ (0 ∷ [])) false ≡ some path
unfolding fill_path
fill_path_solo path h l = rw (hasta_nul-append path [] h) (copiar_path-append path (0 ∷ []) h l)

pub fill_path_largo :
    (path resto : List ℕ)
    → SinNul path
    → length path < path_size
    → fill_path (con_largo_de path resto) true ≡ some path
unfolding fill_path
fill_path_largo path resto h l =
    rw
      (
        campo-append 8 (length path) [] (path ++ resto) (omega (arith, l)),
        drop-bytes_le 8 (length path) (path ++ resto),
      )
      (copiar_path-append path resto h l)

-- The fields after a path with its length.
pub campo_tras_path :
    (path antes despues : List ℕ) (n v k : ℕ)
    → k ≡ 8 + length path + length antes
    → v < 256 ^ n
    → campo n k (con_largo_de path (antes ++ (bytes_le n v ++ despues))) ≡ some v
campo_tras_path path antes despues n v k e h =
    let cabeza = bytes_le 8 (length path) ++ (path ++ antes) in
    let campos = bytes_le n v ++ despues in
    let junto : con_largo_de path (antes ++ campos) ≡ cabeza ++ campos =
      ap (◌++◌ (bytes_le 8 (length path))) (sym (append_assoc path antes campos))
      ∙ sym (append_assoc (bytes_le 8 (length path)) (path ++ antes) campos) in
    let largo : k ≡ length cabeza = omega (
      arith,
      length-append (bytes_le 8 (length path)) (path ++ antes),
      length-append path antes,
      length-bytes_le 8 (length path),
    ) in
    rw (junto, largo) (campo-append n v cabeza despues h)

pub con_largo_de-append :
    (path xs ys : List ℕ) → con_largo_de path xs ++ ys ≡ con_largo_de path (xs ++ ys)
con_largo_de-append path xs ys =
    append_assoc (bytes_le 8 (length path)) (path ++ xs) ys
    ∙ ap (◌++◌ (bytes_le 8 (length path))) (append_assoc path xs ys)

-- The two fields of a read or a write, with the NUL after them.
pub record Leidos (path buf : List ℕ) (size off : ℕ) : Type 0 where
  pub de_path : fill_path buf true ≡ some path
  pub de_size : campo 8 (8 + length path) buf ≡ some size
  pub de_off : campo 8 (8 + length path + 8) buf ≡ some off

pub pedido_read-Leidos :
    (path : List ℕ) (size off : ℕ)
    → SinNul path
    → length path < path_size
    → size < 256 ^ 8
    → off < 256 ^ 8
    → Leidos path (pedido_read path size off ++ (0 ∷ [])) size off
unfolding pedido_read
pedido_read-Leidos path size off h l hs ho =
    let a = bytes_le 8 size in
    let b = bytes_le 8 off in
    let junto : con_largo_de path (a ++ b) ++ (0 ∷ []) ≡ con_largo_de path (a ++ (b ++ (0 ∷ []))) =
      con_largo_de-append path (a ++ b) (0 ∷ [])
      ∙ ap (con_largo_de path) (append_assoc a b (0 ∷ [])) in
    rw junto (record {
      de_path = fill_path_largo path (a ++ (b ++ (0 ∷ []))) h l;
      de_size = campo_tras_path path [] (b ++ (0 ∷ [])) 8 size (8 + length path) (omega arith) hs;
      de_off =
          campo_tras_path path a (0 ∷ []) 8 off (8 + length path + 8)
            (omega (arith, length-bytes_le 8 size)) ho;
    })
