-- ===== src/Muse/Clock/Casos.antt =====
-- Each search of the clock over both its loops: it hits a frame, or shows that there is none.
use tp_2019_2c_vendo_fiat.Muse.Clock.Recorrido.{
  vuelta_0_0-none, vuelta_0_0-some, sin_uso, SinVictima, vuelta_0_1-none, length-vuelta_0_1,
  vuelta_0_1-some,
}
use tp_2019_2c_vendo_fiat.Muse.State.{BitMemoria}
use tp_2019_2c_vendo_fiat.Muse.Clock.{
  buscar_bit_0_0, Busqueda, vuelta_0_0, es_0_0, busqueda, es_0_1, buscar_bit_0_1, primera_mitad_0_1,
  segunda_mitad_0_1, vuelta_0_1,
}
use tp_2019_2c_vendo_fiat.Base.{
  List, ℕ, ◌<◌, ◌≤◌, length, ◌⊎◌, arith, ◌≡◌, none, some, ◌-◌, get_elem?, false, inl, true, inr,
  suc, option_elim, refl, Option, ap, sym, ◌∙◌,
}

-- What the searches promise of a frame that they return.
pub record EsVictima (bits : List BitMemoria) (r : Busqueda) (q : ℕ) : Type 0 where
  pub hallado : r.bit ≡ some q
  pub en_rango : q < length bits
  pub sin_usar : (es_0_0 (get_elem? r.bits q) ≡ true) ⊎ (es_0_1 (get_elem? r.bits q) ≡ true)
  pub largo : length r.bits ≡ length bits
  pub puntero : r.puntero ≤ length bits

-- Frame `i` comes before frame `q` on the way round from the pointer `p`.
abbrev pub Antes : ℕ → ℕ → ℕ → Type 0
Antes p i q = ((p ≤ i) × (i < q)) ⊎ (((p ≤ i) × (q < p)) ⊎ ((i < q) × (q < p)))

lt_or_le : (i p : ℕ) → (i < p) ⊎ (p ≤ i)
lt_or_le i p = omega arith

-- What a search of (0, 0) that fails shows: nothing changed.
pub record Falla00 (bits : List BitMemoria) (p : ℕ) (r : Busqueda) : Type 0 where
  pub bit : r.bit ≡ none
  pub bits_igual : r.bits ≡ bits
  pub puntero_igual : r.puntero ≡ p
  pub ninguno : (i : ℕ) → i < length bits → es_0_0 (get_elem? bits i) ≡ false

-- A hit of the search of (0, 0) leaves the bits alone, and is the first (0, 0) frame from the clock
-- pointer on, where the frames before the pointer come last.
pub record Acierto00 (bits : List BitMemoria) (p : ℕ) (r : Busqueda) (q : ℕ) : Type 0 where
  pub victima : EsVictima bits r q
  pub bits_igual : r.bits ≡ bits
  pub es : es_0_0 (get_elem? bits q) ≡ true
  pub antes : (i : ℕ) → i < length bits → Antes p i q → es_0_0 (get_elem? bits i) ≡ false

pub buscar_bit_0_0-cases :
    (bits : List BitMemoria) (p : ℕ)
    → p ≤ length bits
    → Falla00 bits p (buscar_bit_0_0 bits p)
      ⊎ ((q : ℕ) × Acierto00 bits p (buscar_bit_0_0 bits p) q)
unfolding buscar_bit_0_0
buscar_bit_0_0-cases bits p h =
    option_elim (λ r. Falla00 bits p r ⊎ ((q : ℕ) × Acierto00 bits p r q))
      (vuelta_0_0 (length bits - p) p bits) _ _
      (λ e1.
        option_elim (λ r. Falla00 bits p r ⊎ ((q : ℕ) × Acierto00 bits p r q)) (vuelta_0_0 p 0 bits)
          _ _ (λ e2. inl (falla e1 e2)) (λ q e2. inr (q, segunda q e1 e2)))
      (λ q e1. inr (q, primera q e1))
  where
    falla :
        vuelta_0_0 (length bits - p) p bits ≡ none
        → vuelta_0_0 p 0 bits ≡ none
        → Falla00 bits p (busqueda none bits p)
    falla e1 e2 = record {
      bit = refl;
      bits_igual = refl;
      puntero_igual = refl;
      ninguno = λ i l. elim (lt_or_le i p) [
        | inl bajo ↦ vuelta_0_0-none p 0 bits e2 i (omega arith) (omega arith)
        | inr alto ↦ vuelta_0_0-none (length bits - p) p bits e1 i alto (omega arith)
      ];
    }

    primera :
        (q : ℕ)
        → vuelta_0_0 (length bits - p) p bits ≡ some q
        → Acierto00 bits p (busqueda (some q) bits (suc q)) q
    primera q e =
        let (l, u, hit, first) = vuelta_0_0-some (length bits - p) p bits q e in
        record {
          victima = record {
            hallado = refl;
            en_rango = omega arith;
            sin_usar = inl hit;
            largo = refl;
            puntero = omega arith;
          };
          bits_igual = refl;
          es = hit;
          antes = λ i il a. elim a [
            | inl (pi, iq) ↦ first i pi iq
            | inr (inl (pi, qp)) ↦ absurd (omega arith)
            | inr (inr (iq, qp)) ↦ absurd (omega arith)
          ];
        }

    segunda :
        (q : ℕ)
        → vuelta_0_0 (length bits - p) p bits ≡ none
        → vuelta_0_0 p 0 bits ≡ some q
        → Acierto00 bits p (busqueda (some q) bits q) q
    segunda q e1 e2 =
        let (l, u, hit, first) = vuelta_0_0-some p 0 bits q e2 in
        record {
          victima = record {
            hallado = refl;
            en_rango = omega arith;
            sin_usar = inl hit;
            largo = refl;
            puntero = omega arith;
          };
          bits_igual = refl;
          es = hit;
          antes = λ i il a. elim a [
            | inl (pi, iq) ↦ absurd (omega arith)
            | inr (inl (pi, qp)) ↦ vuelta_0_0-none (length bits - p) p bits e1 i pi (omega arith)
            | inr (inr (iq, qp)) ↦ first i (omega arith) iq
          ];
        }

-- A search of (0, 1) that fails saw no (0, 1) and has cleared every use bit.
pub record Falla01 (bits : List BitMemoria) (p : ℕ) (r : Busqueda) : Type 0 where
  pub bit : r.bit ≡ none
  pub largo : length r.bits ≡ length bits
  pub puntero_igual : r.puntero ≡ p
  pub ninguno : (i : ℕ) → i < length bits → es_0_1 (get_elem? bits i) ≡ false
  pub limpio : (i : ℕ) → i < length bits → get_elem? r.bits i ≡ sin_uso (get_elem? bits i)

abbrev pub Resultado01 : List BitMemoria → ℕ → Busqueda → Type 0
Resultado01 bits p r = Falla01 bits p r ⊎ ((q : ℕ) × EsVictima bits r q)

segunda_mitad-cases :
    (bits bits1 : List BitMemoria) (p : ℕ)
    → p ≤ length bits
    → length bits1 ≡ length bits
    → SinVictima (length bits - p) p bits bits1
    → (v : Option ℕ × List BitMemoria) → v ≡ vuelta_0_1 p 0 bits1
    → Resultado01 bits p (segunda_mitad_0_1 v p)
unfolding segunda_mitad_0_1
segunda_mitad-cases bits bits1 p h len sv (none, bits2) e =
    let sv2 = vuelta_0_1-none p 0 bits1 (ap (λ v. v.0) (sym e)) in
    let e2 : bits2 ≡ (vuelta_0_1 p 0 bits1).1 = ap (λ v. v.1) e in
    inl (record {
      bit = refl;
      largo = ap length e2 ∙ length-vuelta_0_1 p 0 bits1 ∙ len;
      puntero_igual = refl;
      ninguno = λ i l. elim (lt_or_le i p) [
        | inl bajo ↦ rw (sv.igual i (inl bajo)) at (sv2.ninguno i (omega arith) (omega arith))
        | inr alto ↦ sv.ninguno i alto (omega arith)
      ];
      limpio = λ i l. elim (lt_or_le i p) [
        | inl bajo ↦
            ap (λ b. get_elem? b i) e2
            ∙ sv2.limpio i (omega arith) (omega arith)
            ∙ ap sin_uso (sv.igual i (inl bajo))
        | inr alto ↦
            ap (λ b. get_elem? b i) e2
            ∙ sv2.igual i (inr (omega arith))
            ∙ sv.limpio i alto (omega arith)
      ];
    })
segunda_mitad-cases bits bits1 p h len sv (some q, bits2) e =
    let (u, l, hit) = vuelta_0_1-some p 0 bits1 q (ap (λ v. v.0) (sym e)) in
    let e2 : bits2 ≡ (vuelta_0_1 p 0 bits1).1 = ap (λ v. v.1) e in
    inr (
      q,
      record {
        hallado = refl;
        en_rango = omega arith;
        sin_usar = inr (ap (λ b. es_0_1 (get_elem? b q)) e2 ∙ hit);
        largo = ap length e2 ∙ length-vuelta_0_1 p 0 bits1 ∙ len;
        puntero = omega arith;
      },
    )

primera_mitad-cases :
    (bits : List BitMemoria) (p : ℕ)
    → p ≤ length bits
    → (v : Option ℕ × List BitMemoria) → v ≡ vuelta_0_1 (length bits - p) p bits
    → Resultado01 bits p (primera_mitad_0_1 v p)
unfolding primera_mitad_0_1
primera_mitad-cases bits p h (none, bits1) e =
    let e1 : bits1 ≡ (vuelta_0_1 (length bits - p) p bits).1 = ap (λ v. v.1) e in
    segunda_mitad-cases bits bits1 p h (ap length e1 ∙ length-vuelta_0_1 _ p bits)
      (rw e1 (vuelta_0_1-none (length bits - p) p bits (ap (λ v. v.0) (sym e)))) _ refl
primera_mitad-cases bits p h (some q, bits1) e =
    let (u, l, hit) = vuelta_0_1-some (length bits - p) p bits q (ap (λ v. v.0) (sym e)) in
    let e1 : bits1 ≡ (vuelta_0_1 (length bits - p) p bits).1 = ap (λ v. v.1) e in
    inr (
      q,
      record {
        hallado = refl;
        en_rango = omega arith;
        sin_usar = inr (ap (λ b. es_0_1 (get_elem? b q)) e1 ∙ hit);
        largo = ap length e1 ∙ length-vuelta_0_1 _ p bits;
        puntero = omega arith;
      },
    )

pub buscar_bit_0_1-cases :
    (bits : List BitMemoria) (p : ℕ) → p ≤ length bits → Resultado01 bits p (buscar_bit_0_1 bits p)
unfolding buscar_bit_0_1
buscar_bit_0_1-cases bits p h = primera_mitad-cases bits p h _ refl
