-- ===== src/Protocol/Words.antt =====
-- What memcpy copies of an integer: its bytes, the least first, on the machines the programs run
-- on. A negative int32_t is its bit pattern.
use native.Mathlib.Nat.{pow-suc}
use tp_2019_2c_vendo_fiat.Base.Int.{ℤ, pos, negsuc}
use tp_2019_2c_vendo_fiat.Base.{
  List, ℕ, [], drop, if◌then◌else◌, length, take, ◌<◌, ◌∷◌, ltb, suc, ◌%◌, ◌++◌, ◌+◌, ◌^◌, ◌≡◌, ap,
  arith, refl, ◌*◌, ◌/◌, zero, ◌-◌, is_empty, ◌∙◌, false,
}

unfoldable pub bytes_le : ℕ → ℕ → List ℕ
bytes_le zero v = []
bytes_le (suc n) v = v % 256 ∷ bytes_le n (v / 256)

unfoldable pub word_le : List ℕ → ℕ
word_le [] = 0
word_le (b ∷ bs) = b + 256 * word_le bs

-- The number that the pattern of an int32_t stands for, and the pattern of a number.
abbrev pub signed32 : ℕ → ℤ
signed32 w = if ltb w (2 ^ 31) then pos w else negsuc (2 ^ 32 - w - 1)

abbrev pub pattern32 : ℤ → ℕ
pattern32 (pos n) = n % 2 ^ 32
pattern32 (negsuc n) = (2 ^ 32 - 1 - n % 2 ^ 32)

pub length-bytes_le : (n v : ℕ) → length (bytes_le n v) ≡ n
unfolding bytes_le
length-bytes_le zero v = refl
length-bytes_le (suc n) v = ap suc (length-bytes_le n (v / 256))

pub word_le-bytes_le : (n v : ℕ) → v < 256 ^ n → word_le (bytes_le n v) ≡ v
unfolding bytes_le word_le
word_le-bytes_le zero v h = omega arith
word_le-bytes_le (suc n) v h =
    let small : v / 256 < 256 ^ n = omega (arith, pow-suc 256 n) in
    rw (word_le-bytes_le n (v / 256) small) (omega arith)

pub take-append_self : (xs ys : List ℕ) → take (length xs) (xs ++ ys) ≡ xs
take-append_self [] ys = refl
take-append_self (x ∷ xs) ys = ap (◌∷◌ x) (take-append_self xs ys)

pub drop-append_self : (xs ys : List ℕ) → drop (length xs) (xs ++ ys) ≡ ys
drop-append_self [] ys = refl
drop-append_self (x ∷ xs) ys = drop-append_self xs ys

-- A field at the front of a buffer, and what follows it.
pub take-bytes_le : (n v : ℕ) (resto : List ℕ) → take n (bytes_le n v ++ resto) ≡ bytes_le n v
unfolding bytes_le
take-bytes_le zero v resto = refl
take-bytes_le (suc n) v resto = ap (◌∷◌ (v % 256)) (take-bytes_le n (v / 256) resto)

pub drop-bytes_le : (n v : ℕ) (resto : List ℕ) → drop n (bytes_le n v ++ resto) ≡ resto
unfolding bytes_le
drop-bytes_le zero v resto = refl
drop-bytes_le (suc n) v resto = drop-bytes_le n (v / 256) resto

pub campo-bytes_le :
    (n v : ℕ) (resto : List ℕ) → v < 256 ^ n → word_le (take n (bytes_le n v ++ resto)) ≡ v
campo-bytes_le n v resto h = ap word_le (take-bytes_le n v resto) ∙ word_le-bytes_le n v h

pub is_empty-bytes_le : (n v : ℕ) (resto : List ℕ) → is_empty (bytes_le (suc n) v ++ resto) ≡ false
unfolding bytes_le
is_empty-bytes_le n v resto = refl
