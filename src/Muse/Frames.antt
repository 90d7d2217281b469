-- ===== src/Muse/Frames.antt =====
-- The count of frames that a size takes, with the floats of IEEE 754.
use tp_2019_2c_vendo_fiat.Muse.Metadata.{calcular_frames_necesarios, vueltas_frames}
use tp_2019_2c_vendo_fiat.Muse.State.{Maquina}
use tp_2019_2c_vendo_fiat.Base.{
  ℕ, ◌<◌, ◌+◌, ◌≡◌, ◌≤◌, some, ◌*◌, suc, ◌⊎◌, arith, inl, inr, Bool-cases, refl, ltb, ltb→lt, zero,
  true, false, ◌^◌, ◌∙◌, sym,
}

-- Below this, a float holds every number.
abbrev pub float_mod : ℕ
float_mod = 2 ^ 24

-- What floats of 24 bits, rounded to the nearest, give. The quotient of two numbers that a float
-- holds is above a number exactly where the division is; and no quotient is above a number that is
-- twice as large.
pub record FloatBueno (maquina : Maquina) : Type 0 where
  pub exacto :
      (tam t n : ℕ)
      → 0 < t
      → t < float_mod
      → tam < float_mod
      → maquina.supera tam t n ≡ ltb (n * t) tam
  pub doble :
      (tam t n : ℕ) → 0 < t → t < float_mod → tam + tam ≤ n * t → maquina.supera tam t n ≡ false

-- `n` frames are enough for `tam` bytes, and one less is not, unless one is the least that is asked
-- for.
pub record Justos (t tam n : ℕ) : Type 0 where
  pub alguno : 0 < n
  pub alcanzan : tam ≤ n * t
  pub ajustados : (n * t < tam + t) ⊎ (n ≡ 1)

-- Where the loop stops: the test was true of the count before, if there is one.
record Frenado (maquina : Maquina) (t tam n : ℕ) : Type 0 where
  alguno : 0 < n
  frena : maquina.supera tam t n ≡ false
  antes : (m : ℕ) → n ≡ suc m → (maquina.supera tam t m ≡ true) ⊎ (m ≡ 0)

module _ (maquina : Maquina) (b : FloatBueno maquina) where
  vueltas_frames-Frenado :
      (fuel tam t n : ℕ)
      → 0 < t
      → t < float_mod
      → tam + tam < fuel + n * t
      → (maquina.supera tam t n ≡ true) ⊎ (n ≡ 0)
      → (m : ℕ) × (vueltas_frames maquina fuel tam t n ≡ some m) × Frenado maquina t tam m
  unfolding vueltas_frames
  vueltas_frames-Frenado zero tam t n p q f a = elim a [
    | inl mas ↦ let nunca = b.doble tam t n p q (omega (arith, f)) in ground arith
    | inr nada ↦ ground arith
  ]
  vueltas_frames-Frenado (suc fuel) tam t n p q f a =
      elim (Bool-cases (maquina.supera tam t (suc n))) [
        | inl falta ↦
            let r = vueltas_frames-Frenado fuel tam t (suc n) p q (omega arith) (inl falta) in
            (r.0, rw falta r.1, r.2)
        | inr alcanza ↦ (
          suc n,
          rw alcanza refl,
          record {
            alguno = omega arith;
            frena = alcanza;
            antes = λ m e. let igual : n ≡ m = omega (arith, e) in rw (sym igual) a;
          },
        )
      ]

  calcular_frames_necesarios-Frenado :
      (t tam : ℕ)
      → 0 < t
      → t < float_mod
      → (n : ℕ) × (calcular_frames_necesarios maquina t tam ≡ some n) × Frenado maquina t tam n
  unfolding calcular_frames_necesarios
  calcular_frames_necesarios-Frenado t tam p q =
      vueltas_frames-Frenado (suc (tam + tam)) tam t 0 p q (omega arith) (inr refl)

  Frenado-Justos :
      (t tam n : ℕ)
      → 0 < t
      → t < float_mod
      → tam < float_mod
      → Frenado maquina t tam n
      → Justos t tam n
  Frenado-Justos t tam zero p q chico r = absurd (let x = r.alguno in omega (arith, x))
  Frenado-Justos t tam (suc m) p q chico r =
      let frena = r.frena in
      let e = b.exacto tam t (suc m) p q chico in
      let e1 = b.exacto tam t m p q chico in
      record {
        alguno = omega arith;
        alcanzan = ground arith;
        ajustados = elim (r.antes m refl) [
          | inl falta ↦
              inl (let menos = ltb→lt (m * t) tam (sym e1 ∙ falta) in omega (arith, menos))
          | inr nada ↦ inr (omega arith)
        ];
      }

  -- With pages that are not empty, the loop ends; its count is right for a size that a float holds.
  pub calcular_frames_necesarios-alcanzan :
      (t tam : ℕ)
      → 0 < t
      → t < float_mod
      → (n : ℕ) × (calcular_frames_necesarios maquina t tam ≡ some n)
        × (tam < float_mod → Justos t tam n)
  calcular_frames_necesarios-alcanzan t tam p q =
      let (n, hecho, r) = calcular_frames_necesarios-Frenado t tam p q in
      (n, hecho, λ chico. Frenado-Justos t tam n p q chico r)

  -- `calcularFramesNecesarios` on pages that are not empty, with the size of a page and the bytes
  -- below 2^24, as floats hold these: it ends, and answers the least count of pages, 1 at least,
  -- that hold the bytes.
  pub calcular_frames_necesarios-Justos :
      (t tam : ℕ)
      → 0 < t
      → t < float_mod
      → tam < float_mod
      → (n : ℕ) × (calcular_frames_necesarios maquina t tam ≡ some n) × Justos t tam n
  calcular_frames_necesarios-Justos t tam p q chico =
      let (n, hecho, r) = calcular_frames_necesarios-alcanzan t tam p q in (n, hecho, r chico)
