-- ===== src/Muse/Segmentacion.antt =====
-- The segments of a program whose blocks fill them, and what changes of the state keep them so.
use tp_2019_2c_vendo_fiat.Muse.Reserva.{crear_pagina}
use tp_2019_2c_vendo_fiat.Muse.Teselado.{Tesela}
use tp_2019_2c_vendo_fiat.Muse.Metadata.{segmento_en, set_segmento, set_segmentos}
use tp_2019_2c_vendo_fiat.Muse.Quietud.{Quieto, crear_pagina-Quieto}
use tp_2019_2c_vendo_fiat.Muse.Alloc.{agregar_paginas}
use tp_2019_2c_vendo_fiat.Muse.State.{Segmento, Muse, Programa}
use mathlib.Core.Option.{some-injective}
use tp_2019_2c_vendo_fiat.Base.{
  SiHay, SiHay-option_case, ℕ, List, ◌≡◌, All, false, ap, get_elem?, option_elim, some, suc,
  Option-cases, none, set, sym, All-set, arith, inl, ◌∙◌, All-get_elem?, inr, ◌+◌, ◌++◌, ◌∷◌, [],
  get_elem?-set_self, zero, lt-of_get_elem?, subst,
}

-- The blocks of a segment fill it, if it is not a mapping.
abbrev pub SegBueno : Segmento → Type 0
SegBueno seg = seg.es_mmap ≡ false → Tesela 0 seg.status_metadata seg.tamanio

-- So do those of all segments of the program in place `i`.
abbrev pub Teselado : ℕ → Muse → Type 0
Teselado i s = (p : Programa) → get_elem? s.lista_programas i ≡ some p → All SegBueno p.segmentos

pub Quieto-Teselado : (i : ℕ) (s t : Muse) → Teselado i s → Quieto s t → Teselado i t
Quieto-Teselado i s t h q = λ p e. h p (ap (λ ps. get_elem? ps i) (sym q.0) ∙ e)

pub set_segmentos-Teselado :
    (i : ℕ) (segs : List Segmento) (s : Muse)
    → All SegBueno segs
    → Teselado i (set_segmentos i segs s)
set_segmentos-Teselado i segs s h = elim (Option-cases (get_elem? s.lista_programas i)) [
  | inl nada ↦ rw nada (λ p e. ground arith)
  | inr hay ↦ rw (hay.1) λ p e.
      let puesto =
        get_elem?-set_self s.lista_programas i (record hay.0 { segmentos = segs })
          (lt-of_get_elem? s.lista_programas i hay.0 hay.1) in
      subst (λ q. All SegBueno q.segmentos) (some-injective _ _ (sym puesto ∙ e)) h
]

pub segmento_en-SegBueno :
    (i j : ℕ) (s : Muse) (seg : Segmento)
    → Teselado i s
    → segmento_en i j s ≡ some seg
    → SegBueno seg
segmento_en-SegBueno i j s seg h e =
    option_elim (λ o. o ≡ some seg → SegBueno seg) (get_elem? s.lista_programas i) none
      (λ p. get_elem? p.segmentos j) (λ _ k. ground arith)
      (λ p k l. All-get_elem? SegBueno p.segmentos j seg (h p k) l) e

pub set_segmento-Teselado :
    (i j : ℕ) (seg : Segmento) (s : Muse)
    → Teselado i s
    → SegBueno seg
    → Teselado i (set_segmento i j seg s)
set_segmento-Teselado i j seg s h b =
    option_elim (Teselado i) (get_elem? s.lista_programas i) s _ (λ _. h)
      (λ p e.
        set_segmentos-Teselado i (set p.segmentos j seg) s
          (All-set SegBueno p.segmentos j seg (h p e) b))

pub agregar_paginas-Teselado :
    (i j ultima k v : ℕ) (s : Muse)
    → Teselado i s
    → SiHay (Teselado i) (agregar_paginas i j ultima k v s)
unfolding agregar_paginas
agregar_paginas-Teselado i j ultima zero v s h = h
agregar_paginas-Teselado i j ultima (suc k) v s h =
    SiHay-option_case (Teselado i) (λ r. Quieto s r.1) (crear_pagina (ultima + 1 + v) v s) _
      (crear_pagina-Quieto (ultima + 1 + v) v s)
      λ r _ q.
        let despues = Quieto-Teselado i s r.1 h q in
        option_elim (SiHay (Teselado i)) (segmento_en i j r.1) none _ (λ _. tt)
          λ seg e. agregar_paginas-Teselado i j ultima k (suc v) _ (
            set_segmento-Teselado i j (record seg { paginas = seg.paginas ++ (r.0 ∷ []) }) r.1
              despues (segmento_en-SegBueno i j r.1 seg despues e))
