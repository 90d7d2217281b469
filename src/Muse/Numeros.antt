-- ===== src/Muse/Numeros.antt =====
-- `muse_free` numbers the blocks of its segment by their places, as `muse_alloc` needs them.
use tp_2019_2c_vendo_fiat.Muse.State.{Maquina}
use tp_2019_2c_vendo_fiat.Muse.Segmentos.{buscar_programa, obtener_segmento_por_direccion, u32_mod}
use tp_2019_2c_vendo_fiat.Muse.Ocupacion.{Numerado}
use tp_2019_2c_vendo_fiat.Muse.Metadata.{segmento_en, set_segmento, sustituir_heap_metadata}
use tp_2019_2c_vendo_fiat.Muse.State.{Muse, InfoHeap, Segmento, Programa}
use tp_2019_2c_vendo_fiat.Base.{
  SiHay, ℕ, Bool, ◌≡◌, List, get_elem?, option_elim, some, ◌+◌, Option-cases, arith, none, inl, ◌∷◌,
  ap, subst, option_case, inr, suc, set, get_elem?-set_self, lt-of_get_elem?, [], refl, zero,
  find_index, ◌-◌, ◌%◌, if_elim,
}
use tp_2019_2c_vendo_fiat.Muse.Merge.{numerar, liberar_heap, muse_free, merge, empieza_en}
use tp_2019_2c_vendo_fiat.Base.Int.{ℤ, pos}
use Prim.Native.String.{String}

numerar-indice :
    (k h : ℕ) (heap : InfoHeap) (heaps : List InfoHeap)
    → get_elem? (numerar k heaps) h ≡ some heap
    → heap.indice ≡ k + h
unfolding numerar
numerar-indice k h heap [] e = ground arith
numerar-indice k zero heap (x ∷ xs) e =
    let igual : k ≡ heap.indice = ap (λ o. option_case o k (λ v. v.indice)) e in omega arith
numerar-indice k (suc h) heap (x ∷ xs) e = omega (arith, numerar-indice (suc k) h heap xs e)

-- The segment of the state is the one that was put there.
segmento_en-set_segmento :
    (i j : ℕ) (viejo seg : Segmento) (s : Muse)
    → segmento_en i j s ≡ some viejo
    → segmento_en i j (set_segmento i j seg s) ≡ some seg
segmento_en-set_segmento i j viejo seg s e = elim (Option-cases (get_elem? s.lista_programas i)) [
  | inl nada ↦
      let falso : none ≡ some viejo =
        subst (λ o. option_case o none (λ p. get_elem? p.segmentos j) ≡ some viejo) nada e in
      ground arith
  | inr hay ↦
      let esta : get_elem? hay.0.segmentos j ≡ some viejo =
        subst (λ o. option_case o none (λ p. get_elem? p.segmentos j) ≡ some viejo) hay.1 e in
      let nuevo : Programa = record hay.0 { segmentos = set hay.0.segmentos j seg } in
      let puesto =
        get_elem?-set_self s.lista_programas i nuevo
          (lt-of_get_elem? s.lista_programas i hay.0 hay.1) in
      rw (hay.1, puesto)
        (get_elem?-set_self hay.0.segmentos j seg (lt-of_get_elem? hay.0.segmentos j viejo esta))
]

-- The segment in place `j` of the program in place `i` has its blocks numbered by their places.
abbrev pub NumeradoEn : ℕ → ℕ → Muse → Type 0
NumeradoEn i j t = (seg : Segmento) × (segmento_en i j t ≡ some seg) × Numerado seg

-- That, unless the answer is not 0.
abbrev NumeradoSi : ℕ → ℕ → ℤ × Muse → Type 0
NumeradoSi i j r = r.0 ≡ pos 0 → NumeradoEn i j r.1

module _ (maquina : Maquina) where
  liberar_heap-Numerado :
      (i j h : ℕ) (heap : InfoHeap) (seg : Segmento) (s : Muse)
      → SiHay (NumeradoSi i j) (liberar_heap maquina i j h heap seg s)
  unfolding liberar_heap
  liberar_heap-Numerado i j h heap seg s =
      option_elim (SiHay (NumeradoSi i j))
        (sustituir_heap_metadata seg.paginas heap.direccion_heap _ _) none _ (λ _. tt)
        λ s1 _.
          option_elim (SiHay (NumeradoSi i j)) (merge maquina i j s1) none _ (λ _. tt)
            λ s2 _.
              option_elim (SiHay (NumeradoSi i j)) (segmento_en i j s2) none _ (λ _. tt)
                λ seg2 e _. (
                  record seg2 { status_metadata = numerar 0 seg2.status_metadata },
                  segmento_en-set_segmento i j seg2 _ s2 e,
                  λ k b x. omega (arith, numerar-indice 0 k b seg2.status_metadata x),
                )

  module _ (string_equals_ignore_case : String → String → Bool) where
    muse_free_numera :
        (id : String) (dir i j : ℕ) (prog : Programa) (s : Muse)
        → buscar_programa string_equals_ignore_case id s ≡ some i
        → get_elem? s.lista_programas i ≡ some prog
        → obtener_segmento_por_direccion prog.segmentos dir ≡ some j
        → SiHay (NumeradoSi i j) (muse_free maquina string_equals_ignore_case id dir s)
    unfolding muse_free
    muse_free_numera id dir i j prog s hb e hj =
        rw (hb, e, hj)
          (option_elim (SiHay (NumeradoSi i j)) (get_elem? prog.segmentos j) none _ (λ _. tt)
            λ seg _.
              if_elim (SiHay (NumeradoSi i j)) seg.es_mmap none _ (λ _. tt)
                λ _.
                  option_elim (SiHay (NumeradoSi i j))
                    (find_index (empieza_en ((dir + u32_mod - seg.base_logica) % u32_mod))
                      seg.status_metadata)
                    _ _ (λ _ f. ground arith)
                    λ h _.
                      option_elim (SiHay (NumeradoSi i j)) (get_elem? seg.status_metadata h) none _
                        (λ _. tt) (λ heap _. liberar_heap-Numerado i j h heap seg s))

    -- For a program that is found and a direction in one of its segments: if `muse_free` answers 0,
    -- the blocks that the segment is left with are numbered by their places.
    pub muse_free-Numerado :
        (id : String) (dir i j : ℕ) (prog : Programa) (s t : Muse)
        → buscar_programa string_equals_ignore_case id s ≡ some i
        → get_elem? s.lista_programas i ≡ some prog
        → obtener_segmento_por_direccion prog.segmentos dir ≡ some j
        → muse_free maquina string_equals_ignore_case id dir s ≡ some (pos 0, t)
        → NumeradoEn i j t
    muse_free-Numerado id dir i j prog s t hb e hj r =
        subst (SiHay (NumeradoSi i j)) r (muse_free_numera id dir i j prog s hb e hj) refl
