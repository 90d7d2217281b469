-- ===== src/Muse/Clock/Recorrido.antt =====
-- The loops of the clock: what a round trip from one frame to another finds, and what it clears.
use tp_2019_2c_vendo_fiat.Muse.State.{BitMemoria}
use tp_2019_2c_vendo_fiat.Base.{
  Option, List, ℕ, get_elem?, length, some, ◌≡◌, ◌≢◌, false, none, ◌≤◌, ◌<◌, ◌+◌, refl, arith, true,
  suc, Bool-cases, inl, ◌∷◌, ◌⊎◌, [], ap, inr, zero, ◌∙◌,
}
use tp_2019_2c_vendo_fiat.Muse.Clock.{limpiar_uso, vuelta_0_0, es_0_0, es_0_1, vuelta_0_1}

eq_or_lt : (p i : ℕ) → p ≤ i → (p ≡ i) ⊎ (suc p ≤ i)
eq_or_lt p i l = omega arith

pub vuelta_0_0-none :
    (n p : ℕ) (bits : List BitMemoria)
    → vuelta_0_0 n p bits ≡ none
    → (i : ℕ) → p ≤ i
    → i < p + n
    → es_0_0 (get_elem? bits i) ≡ false
unfolding vuelta_0_0
vuelta_0_0-none zero p bits e i l h = absurd (omega arith)
vuelta_0_0-none (suc n) p bits e i l h = elim (eq_or_lt p i l) [
  | inl here ↦ rw (← here) (ground arith)
  | inr later ↦ vuelta_0_0-none n (suc p) bits (ground arith) i later (omega arith)
]

-- A hit is the first one of the round.
pub vuelta_0_0-some :
    (n p : ℕ) (bits : List BitMemoria) (q : ℕ)
    → vuelta_0_0 n p bits ≡ some q
    → (p ≤ q)
      × (q < p + n)
      × (es_0_0 (get_elem? bits q) ≡ true)
      × ((i : ℕ) → p ≤ i → i < q → es_0_0 (get_elem? bits i) ≡ false)
unfolding vuelta_0_0
vuelta_0_0-some zero p bits q e = cc
vuelta_0_0-some (suc n) p bits q e = elim (Bool-cases (es_0_0 (get_elem? bits p))) [
  | inl hit ↦
      let here : p ≡ q = ground arith in
      rw (← here) (omega arith, omega arith, hit, λ i l h. absurd (omega arith))
  | inr miss ↦
      let (l, u, hit, first) = vuelta_0_0-some n (suc p) bits q (ground arith) in
      (
        omega arith,
        omega arith,
        hit,
        λ i pi iq. elim (eq_or_lt p i pi) [
          | inl here ↦ rw (← here) miss
          | inr later ↦ first i later iq
        ],
      )
]

abbrev pub sin_uso : Option BitMemoria → Option BitMemoria
sin_uso none = none
sin_uso (some b) = some (record b { bit_uso = false })

limpiar_uso_self :
    (bits : List BitMemoria) (p : ℕ) → get_elem? (limpiar_uso bits p) p ≡ sin_uso (get_elem? bits p)
unfolding limpiar_uso
limpiar_uso_self [] p = refl
limpiar_uso_self (b ∷ bits) zero = ground arith
limpiar_uso_self (b ∷ bits) (suc p) = limpiar_uso_self bits p

limpiar_uso_ne :
    (bits : List BitMemoria) (p i : ℕ) → p ≢ i → get_elem? (limpiar_uso bits p) i ≡ get_elem? bits i
unfolding limpiar_uso
limpiar_uso_ne [] p i ne = refl
limpiar_uso_ne (b ∷ bits) zero zero ne = absurd (ne refl)
limpiar_uso_ne (b ∷ bits) zero (suc i) ne = refl
limpiar_uso_ne (b ∷ bits) (suc p) zero ne = refl
limpiar_uso_ne (b ∷ bits) (suc p) (suc i) ne = limpiar_uso_ne bits p i (omega arith)

length-limpiar_uso : (bits : List BitMemoria) (p : ℕ) → length (limpiar_uso bits p) ≡ length bits
unfolding limpiar_uso
length-limpiar_uso [] p = refl
length-limpiar_uso (b ∷ bits) zero = refl
length-limpiar_uso (b ∷ bits) (suc p) = ap suc (length-limpiar_uso bits p)

-- A round that finds nothing saw no (0, 1), and has cleared the use bits of its frames only.
pub record SinVictima (n p : ℕ) (bits after : List BitMemoria) : Type 0 where
  pub ninguno : (i : ℕ) → p ≤ i → i < p + n → es_0_1 (get_elem? bits i) ≡ false
  pub limpio : (i : ℕ) → p ≤ i → i < p + n → get_elem? after i ≡ sin_uso (get_elem? bits i)
  pub igual : (i : ℕ) → ((i < p) ⊎ (p + n ≤ i)) → get_elem? after i ≡ get_elem? bits i

pub vuelta_0_1-none :
    (n p : ℕ) (bits : List BitMemoria)
    → (vuelta_0_1 n p bits).0 ≡ none
    → SinVictima n p bits (vuelta_0_1 n p bits).1
unfolding vuelta_0_1
vuelta_0_1-none zero p bits e = record {
  ninguno = λ i l h. absurd (omega arith);
  limpio = λ i l h. absurd (omega arith);
  igual = λ i o. refl;
}
vuelta_0_1-none (suc n) p bits e = elim (Bool-cases (es_0_1 (get_elem? bits p))) [
  | inl hit ↦ cc
  | inr miss ↦
      let ih = vuelta_0_1-none n (suc p) (limpiar_uso bits p) (ground arith) in
      rw miss (record {
        ninguno = λ i l h. elim (eq_or_lt p i l) [
          | inl here ↦ rw (← here) miss
          | inr later ↦
              rw (limpiar_uso_ne bits p i (omega arith)) at (ih.ninguno i later (omega arith))
        ];
        limpio = λ i l h. elim (eq_or_lt p i l) [
          | inl here ↦ rw (← here) (ih.igual p (inl (omega arith)) ∙ limpiar_uso_self bits p)
          | inr later ↦
              ih.limpio i later (omega arith) ∙ ap sin_uso (limpiar_uso_ne bits p i (omega arith))
        ];
        igual = λ i o. ih.igual i (omega arith) ∙ limpiar_uso_ne bits p i (omega arith);
      })
]

pub length-vuelta_0_1 :
    (n p : ℕ) (bits : List BitMemoria) → length (vuelta_0_1 n p bits).1 ≡ length bits
unfolding vuelta_0_1
length-vuelta_0_1 zero p bits = refl
length-vuelta_0_1 (suc n) p bits =
    ground (arith, length-vuelta_0_1 n (suc p) (limpiar_uso bits p), length-limpiar_uso bits p)

-- A hit is a frame of the round, whose bits are as they were.
pub vuelta_0_1-some :
    (n p : ℕ) (bits : List BitMemoria) (q : ℕ)
    → (vuelta_0_1 n p bits).0 ≡ some q
    → (q < p + n) × (p ≤ q) × (es_0_1 (get_elem? (vuelta_0_1 n p bits).1 q) ≡ true)
unfolding vuelta_0_1
vuelta_0_1-some zero p bits q e = cc
vuelta_0_1-some (suc n) p bits q e = elim (Bool-cases (es_0_1 (get_elem? bits p))) [
  | inl hit ↦ let here : p ≡ q = ground arith in rw (← here, hit) (omega arith, omega arith, hit)
  | inr miss ↦
      let (u, l, hit) = vuelta_0_1-some n (suc p) (limpiar_uso bits p) q (ground arith) in
      rw miss (omega arith, omega arith, hit)
]
