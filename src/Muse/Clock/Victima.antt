-- ===== src/Muse/Clock/Victima.antt =====
-- `ejecutarClockModificado` finds a victim in every bitmap that has a frame.
use tp_2019_2c_vendo_fiat.Muse.Clock.Casos.{
  Acierto00, EsVictima, buscar_bit_0_0-cases, buscar_bit_0_1-cases,
}
use tp_2019_2c_vendo_fiat.Muse.Clock.Recorrido.{sin_uso}
use tp_2019_2c_vendo_fiat.Muse.State.{BitMemoria}
use tp_2019_2c_vendo_fiat.Muse.Clock.{
  buscar_bit_0_0, Busqueda, es_0_0, es_0_1, buscar_bit_0_1, buscar_victima,
  ejecutar_segunda_vuelta_clock, o_si_no,
}
use tp_2019_2c_vendo_fiat.Base.{
  List, ℕ, ◌<◌, ◌≤◌, length, arith, ◌≡◌, none, some, get_elem?, false, inl, true, inr, Option, ◌∙◌,
  ◌≢◌, ◌∷◌, [],
}

o_si_no-hit :
    (r : Busqueda) (next : List BitMemoria → ℕ → Busqueda) {q : ℕ}
    → r.bit ≡ some q
    → o_si_no r next ≡ r
o_si_no-hit r next e = rw e

o_si_no-miss :
    (r : Busqueda) (next : List BitMemoria → ℕ → Busqueda)
    → r.bit ≡ none
    → o_si_no r next ≡ next r.bits r.puntero
o_si_no-miss r next e = rw e

-- A frame whose use bit is clear passes one of the two tests.
un_test :
    (o b : Option BitMemoria) → b ≡ sin_uso o → b ≢ none → es_0_0 b ≡ false → es_0_1 b ≡ false → ⊥
unfolding es_0_0 es_0_1
un_test none b e n f g = n e
un_test (some c) b e n f g = ground arith

get_elem?-ne-none : (bits : List BitMemoria) → 0 < length bits → get_elem? bits 0 ≢ none
get_elem?-ne-none [] h e = absurd (omega arith)
get_elem?-ne-none (b ∷ bits) h e = cc

segunda_vuelta-EsVictima :
    (bits : List BitMemoria) (p : ℕ) (o : Option BitMemoria)
    → p ≤ length bits
    → 0 < length bits
    → get_elem? bits 0 ≡ sin_uso o
    → (q : ℕ) × EsVictima bits (ejecutar_segunda_vuelta_clock bits p) q
unfolding ejecutar_segunda_vuelta_clock
segunda_vuelta-EsVictima bits p o h pos e = elim (buscar_bit_0_0-cases bits p h) [
  | inr (q, a) ↦
      (q, rw (o_si_no-hit (buscar_bit_0_0 bits p) buscar_bit_0_1 a.victima.hallado) a.victima)
  | inl f ↦
      rw (o_si_no-miss (buscar_bit_0_0 bits p) buscar_bit_0_1 f.bit, f.bits_igual, f.puntero_igual)
        (elim (buscar_bit_0_1-cases bits p h) [
          | inr hit ↦ hit
          | inl g ↦ absurd (
              un_test o (get_elem? bits 0) e (get_elem?-ne-none bits pos) (f.ninguno 0 pos)
                (g.ninguno 0 pos))
        ])
]

EsVictima-largo :
    (bits bits1 : List BitMemoria) (r : Busqueda) (q : ℕ)
    → length bits1 ≡ length bits
    → EsVictima bits1 r q
    → EsVictima bits r q
EsVictima-largo bits bits1 r q e v = record {
  hallado = v.hallado;
  en_rango = omega arith;
  sin_usar = v.sin_usar;
  largo = v.largo ∙ e;
  puntero = omega arith;
}

-- The modified clock always finds a victim: in a bitmap of at least one frame, with the clock
-- pointer within it, the three searches return a frame of the bitmap whose use bit is clear when
-- they return, they keep the number of frames, and the pointer stays within the bitmap.
pub buscar_victima-EsVictima :
    (bits : List BitMemoria) (p : ℕ)
    → 0 < length bits
    → p ≤ length bits
    → (q : ℕ) × EsVictima bits (buscar_victima bits p) q
unfolding buscar_victima
buscar_victima-EsVictima bits p pos h = elim (buscar_bit_0_0-cases bits p h) [
  | inr (q, a) ↦ (
    q,
    rw (o_si_no-hit (buscar_bit_0_0 bits p) buscar_bit_0_1 a.victima.hallado) (
        rw (o_si_no-hit (buscar_bit_0_0 bits p) ejecutar_segunda_vuelta_clock a.victima.hallado)
          a.victima),
  )
  | inl f ↦
      rw (o_si_no-miss (buscar_bit_0_0 bits p) buscar_bit_0_1 f.bit, f.bits_igual, f.puntero_igual)
        (elim (buscar_bit_0_1-cases bits p h) [
          | inr (q, v) ↦ (
            q,
            rw (o_si_no-hit (buscar_bit_0_1 bits p) ejecutar_segunda_vuelta_clock v.hallado) v,
          )
          | inl g ↦
              rw
                (
                  o_si_no-miss (buscar_bit_0_1 bits p) ejecutar_segunda_vuelta_clock g.bit,
                  g.puntero_igual,
                )
                (let (q, v) =
                    segunda_vuelta-EsVictima (buscar_bit_0_1 bits p).bits p (get_elem? bits 0)
                      (omega (arith, g.largo)) (omega (arith, g.largo)) (g.limpio 0 pos) in
                  (q, EsVictima-largo bits _ _ q g.largo v))
        ])
]

-- An unused and unmodified frame is preferred: if the bitmap has a (0, 0), the victim is the first
-- one on the way round from the pointer, and no bit changes.
pub buscar_victima-Acierto00 :
    (bits : List BitMemoria) (p i : ℕ)
    → p ≤ length bits
    → i < length bits
    → es_0_0 (get_elem? bits i) ≡ true
    → (q : ℕ) × Acierto00 bits p (buscar_victima bits p) q
unfolding buscar_victima
buscar_victima-Acierto00 bits p i h l e = elim (buscar_bit_0_0-cases bits p h) [
  | inr (q, a) ↦ (
    q,
    rw (o_si_no-hit (buscar_bit_0_0 bits p) buscar_bit_0_1 a.victima.hallado) (
        rw (o_si_no-hit (buscar_bit_0_0 bits p) ejecutar_segunda_vuelta_clock a.victima.hallado) a),
  )
  | inl f ↦ let no = f.ninguno i l in cc
]
