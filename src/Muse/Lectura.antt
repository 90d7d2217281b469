-- ===== src/Muse/Lectura.antt =====
-- What `muse_get` answers of what `muse_cpy` wrote.
use tp_2019_2c_vendo_fiat.Base.{
  List, ℕ, drop, length, take, ◌+◌, ◌<◌, ◌≡◌, ap, get_or, suc, ◌∷◌, [], arith, zero, refl, ◌∙◌, ◌≤◌,
  ◌-◌,
}
use tp_2019_2c_vendo_fiat.Muse.Acceso.{bytes_desde}

drop-bytes_desde :
    (f : ℕ → ℕ) (a o k l : ℕ) → k ≡ o + l → drop o (bytes_desde f a k) ≡ bytes_desde f (a + o) l
unfolding bytes_desde
drop-bytes_desde f a zero k l e =
    let e1 : k ≡ l = omega arith in let e2 : a + 0 ≡ a = omega arith in rw (e1, e2) refl
drop-bytes_desde f a (suc o) zero l e = absurd (omega arith)
drop-bytes_desde f a (suc o) (suc k) l e =
    let e1 : a + suc o ≡ suc a + o = omega arith in
    rw e1 (drop-bytes_desde f (suc a) o k l (omega arith))

take-bytes_desde : (f : ℕ → ℕ) (a n k : ℕ) → n ≤ k → take n (bytes_desde f a k) ≡ bytes_desde f a n
unfolding bytes_desde
take-bytes_desde f a zero k h = refl
take-bytes_desde f a (suc n) zero h = absurd (omega arith)
take-bytes_desde f a (suc n) (suc k) h =
    ap (◌∷◌ (f a)) (take-bytes_desde f (suc a) n k (omega arith))

bytes_desde-get_or :
    (f : ℕ → ℕ) (a : ℕ) (datos : List ℕ)
    → ((j : ℕ) → j < length datos → f (a + j) ≡ get_or datos j 0)
    → bytes_desde f a (length datos) ≡ datos
unfolding bytes_desde
bytes_desde-get_or f a [] h = refl
bytes_desde-get_or f a (x ∷ datos) h =
    let here : f a ≡ x = ground (arith, h 0 (omega arith)) in
    let there : bytes_desde f (suc a) (length datos) ≡ datos =
      bytes_desde-get_or f (suc a) datos (λ j l. ground (arith, h (suc j) (omega arith))) in
    rw (here, there) refl

-- The `datos` are in memory from `a + o` on, in a page of `t` bytes.
pub leer_datos :
    (f : ℕ → ℕ) (a o t : ℕ) (datos : List ℕ)
    → o + length datos ≤ t
    → ((j : ℕ) → j < length datos → f (a + o + j) ≡ get_or datos j 0)
    → take (length datos) (drop o (bytes_desde f a t)) ≡ datos
leer_datos f a o t datos h e =
    ap (take (length datos)) (drop-bytes_desde f a o t (t - o) (omega arith))
    ∙ take-bytes_desde f (a + o) (length datos) (t - o) (omega arith)
    ∙ bytes_desde-get_or f (a + o) datos e
