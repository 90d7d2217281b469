-- ===== src/Base/Found.antt =====
-- What a search of a list finds and leaves.
use mathlib.Core.Path.{◌≡◌, refl, ap, sym, ◌∙◌}
use mathlib.Core.Logic.{inl, inr}
use mathlib.Core.Bool.{Bool, true, false}
use Prim.Native.Nat.{ℕ, zero, suc, ◌<◌}
use mathlib.Core.Option.{none, some, some-injective}
use tp_2019_2c_vendo_fiat.Base.Lists.{get_elem?, length, set}
use mathlib.Core.List.{List, [], ◌∷◌, ◌++◌}
use native.Mathlib.Omega.{arith}
use tp_2019_2c_vendo_fiat.Base.Tests.{Bool-cases}
use tp_2019_2c_vendo_fiat.Base.Search.{find, find_index, remove_first, all, All}

module _ {ℓ} {A : Type ℓ} (p : A → Bool) where
  -- The found element satisfies the condition, and the first removal takes that element out.
  pub find-remove_first :
      (xs : List A) (h : A)
      → find p xs ≡ some h
      → (pre : List A) × (post : List A) × (xs ≡ pre ++ h ∷ post)
        × (remove_first p xs ≡ pre ++ post)
        × (p h ≡ true)
  unfolding find remove_first
  find-remove_first [] h e = cc
  find-remove_first (x ∷ xs) h e = elim (Bool-cases (p x)) [
    | inl hit ↦
        let x_is_h : x ≡ h = ground arith in
        ([], xs, ap (λ y. y ∷ xs) x_is_h, rw hit, rw x_is_h at hit)
    | inr miss ↦
        let (pre, post, split, removed, holds) = find-remove_first xs h (ground arith) in
        (x ∷ pre, post, ap (◌∷◌ x) split, rw miss (ap (◌∷◌ x) removed), holds)
  ]

  -- A search fails only where every element fails the condition.
  pub find-none : (xs : List A) → find p xs ≡ none → All (λ x. p x ≡ false) xs
  unfolding find
  find-none [] e = tt
  find-none (x ∷ xs) e = ground (arith, find-none xs)

  pub all-All : (xs : List A) → all p xs ≡ true → All (λ x. p x ≡ true) xs
  unfolding all
  all-All [] e = tt
  all-All (x ∷ xs) e = ground (arith, all-All xs)

  pub All-all : (xs : List A) → All (λ x. p x ≡ true) xs → all p xs ≡ true
  unfolding all
  All-all [] h = refl
  All-all (x ∷ xs) h = rw h.0 (All-all xs h.1)

  -- The found position holds an element that satisfies the condition.
  pub find_index-some :
      (xs : List A) (i : ℕ)
      → find_index p xs ≡ some i
      → (x : A) × (get_elem? xs i ≡ some x) × (p x ≡ true)
  unfolding find_index
  find_index-some [] i e = cc
  find_index-some (x ∷ xs) zero e = elim (Bool-cases (p x)) [
    | inl hit ↦ (x, refl, hit)
    | inr miss ↦ absurd (ground arith)
  ]
  find_index-some (x ∷ xs) (suc j) e = elim (Bool-cases (p x)) [
    | inl hit ↦ absurd (ground arith)
    | inr miss ↦ find_index-some xs j (ground arith)
  ]

  pub find_index-none : (xs : List A) → find_index p xs ≡ none → All (λ x. p x ≡ false) xs
  unfolding find_index
  find_index-none [] e = tt
  find_index-none (x ∷ xs) e = ground (arith, find_index-none xs)

  -- Before the found position every element fails the condition.
  pub find_index-before :
      (xs : List A) (i j : ℕ)
      → find_index p xs ≡ some i
      → j < i
      → (x : A) × (get_elem? xs j ≡ some x) × (p x ≡ false)
  unfolding find_index
  find_index-before [] i j e l = cc
  find_index-before (x ∷ xs) zero j e l = absurd (omega arith)
  find_index-before (x ∷ xs) (suc i) zero e l = elim (Bool-cases (p x)) [
    | inl hit ↦ absurd (ground arith)
    | inr miss ↦ (x, refl, miss)
  ]
  find_index-before (x ∷ xs) (suc i) (suc j) e l = elim (Bool-cases (p x)) [
    | inl hit ↦ absurd (ground arith)
    | inr miss ↦ find_index-before xs i j (ground arith) (omega arith)
  ]

  -- Where only the added element satisfies the condition, it is the one that is found.
  pub find_index-append :
      (xs : List A) (y : A)
      → All (λ x. p x ≡ false) xs
      → p y ≡ true
      → find_index p (xs ++ (y ∷ [])) ≡ some (length xs)
  unfolding find_index
  find_index-append [] y h e = rw e refl
  find_index-append (x ∷ xs) y h e = rw (h.0, find_index-append xs y h.1 e) refl

  -- A change that the condition does not see.
  pub find_index-set :
      (xs : List A) (i : ℕ) (x v : A)
      → get_elem? xs i ≡ some x
      → p v ≡ p x
      → find_index p (set xs i v) ≡ find_index p xs
  unfolding find_index
  find_index-set [] i x v e h = refl
  find_index-set (y ∷ ys) zero x v e h =
      let mismo : p v ≡ p y = h ∙ sym (ap p (some-injective _ _ e)) in rw mismo refl
  find_index-set (y ∷ ys) (suc i) x v e h = rw (find_index-set ys i x v e h) refl
