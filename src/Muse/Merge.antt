-- ===== src/Muse/Merge.antt =====
-- muse/src/utils.c, lines 315 to 374, and muse/src/muse.c, lines 708 to 751: `merge` and
-- `muse_free`. An InfoHeap holds the 32 bits of its `espacio`, which `merge` can make negative.
-- `none` is a fault.
use tp_2019_2c_vendo_fiat.Muse.State.{Maquina}
use tp_2019_2c_vendo_fiat.Muse.Segmentos.{
  buscar_programa, size_metadata, obtener_segmento_por_direccion, u32_mod,
}
use tp_2019_2c_vendo_fiat.Muse.Cierre.{destruir_paginas}
use tp_2019_2c_vendo_fiat.Muse.Metadata.{
  set_segmento, segmento_en, sustituir_heap_metadata, heap_metadata,
}
use Prim.Native.String.{String}
use tp_2019_2c_vendo_fiat.Muse.State.{InfoHeap, Muse, Segmento}
use tp_2019_2c_vendo_fiat.Base.{
  ℕ, List, Bool, Option, take, ◌∷◌, length, option_case, set, some, suc, ◌+◌, [], drop,
  if◌then◌else◌, true, ◌-◌, get_elem?, none, zero, ◌&&◌, ◌*◌, ◌/◌, ◌==◌, ltb, find_index, ◌%◌,
}
use tp_2019_2c_vendo_fiat.Base.Int.{ℤ, pos, negsuc}

-- list_remove_and_destroy_element of commons/collections/list.h: a place beyond the end is left.
unfoldable pub quitar_en {ℓ} : {A : Type ℓ} → ℕ → List A → List A
quitar_en k [] = []
quitar_en zero (x ∷ xs) = xs
quitar_en (suc k) (x ∷ xs) = x ∷ quitar_en k xs

-- The pages of the segment from place `k` on go away, and their space is available again.
unfoldable pub soltar_paginas : ℕ → ℕ → ℕ → Segmento → Muse → Segmento × Muse
soltar_paginas i j k seg s =
    let quedan = take k seg.paginas in
    let s1 = destruir_paginas (drop k seg.paginas) s in
    let seg1 : Segmento = record seg {
      paginas = quedan;
      tamanio = length quedan * s.tamanio_pagina;
    } in
    (
      seg1,
      set_segmento i j seg1 (record s1 {
        espacio_disponible =
            s1.espacio_disponible + length (drop k seg.paginas) * s1.tamanio_pagina;
      }),
    )

-- The blocks of the segment in the state are replaced.
abbrev pub set_heaps : ℕ → ℕ → Segmento → List InfoHeap → Muse → Muse
set_heaps i j seg heaps s = set_segmento i j (record seg { status_metadata = heaps }) s

-- The block whose data begin at a direction of the segment.
unfoldable pub empieza_en : ℕ → InfoHeap → Bool
empieza_en d heap = heap.direccion_heap + size_metadata == d

unfoldable pub numerar : ℕ → List InfoHeap → List InfoHeap
numerar k [] = []
numerar k (h ∷ hs) = record h { indice = k } ∷ numerar (suc k) hs

module _ (maquina : Maquina) where
  -- The block `hm`, in place `c` after the free block `anterior`, is put together with it:
  -- `anterior` is to have `espacio` bytes.
  unfoldable pub unir_heaps : ℕ → ℕ → ℕ → InfoHeap → InfoHeap → ℕ → Segmento → Muse → Option Muse
  unir_heaps i j c hm anterior espacio seg s =
      let heaps = set seg.status_metadata (c - 1) (record anterior { espacio = espacio }) in
      option_case
        (sustituir_heap_metadata seg.paginas anterior.direccion_heap
          (heap_metadata maquina espacio true) s)
        none (λ s1. some (set_heaps i j seg (quitar_en hm.indice heaps) s1))

  -- The last block is free, and so is `anterior`: the pages after the HeapMetadata of `anterior` go
  -- away.
  unfoldable pub unir_ultimo : ℕ → ℕ → ℕ → InfoHeap → InfoHeap → Segmento → Muse → Option Muse
  unir_ultimo i j c hm anterior seg s =
      let t = s.tamanio_pagina in
      let d = anterior.direccion_heap in
      let r = soltar_paginas i j (suc ((d + size_metadata) / t)) seg s in
      unir_heaps i j c hm anterior ((t + u32_mod - d % t - size_metadata) % u32_mod) r.0 r.1

  -- A round of the loop, on the block `hm` in place `c`.
  unfoldable pub vuelta_merge : ℕ → ℕ → ℕ → InfoHeap → Segmento → Muse → Option Muse
  vuelta_merge i j c hm seg s =
      let n = length seg.status_metadata in
      if hm.libre && n == 1
      then (let r = soltar_paginas i j 0 seg s in
          some (set_heaps i j r.0 (quitar_en 0 seg.status_metadata) r.1))
      else if hm.libre && c + 1 == n
      then option_case (get_elem? seg.status_metadata (c - 1)) none
          (λ anterior. if anterior.libre then unir_ultimo i j c hm anterior seg s else some s)
      else if hm.libre && ltb 0 c
      then option_case (get_elem? seg.status_metadata (c - 1)) none (λ anterior.
        if anterior.libre
        then unir_heaps i j c hm anterior
            ((anterior.espacio + (size_metadata + hm.espacio)) % u32_mod) seg s
        else some s)
      else some s

  -- The loop, on the `c` first places, from the last one down.
  unfoldable pub merge_loop : ℕ → ℕ → ℕ → Muse → Option Muse
  merge_loop i j zero s = some s
  merge_loop i j (suc c) s = option_case (segmento_en i j s) none λ seg.
      option_case (get_elem? seg.status_metadata c) none
        λ hm. option_case (vuelta_merge i j c hm seg s) none (merge_loop i j c)

  unfoldable pub merge : ℕ → ℕ → Muse → Option Muse
  merge i j s =
      option_case (segmento_en i j s) none (λ seg. merge_loop i j (length seg.status_metadata) s)

  -- The block in place `h` becomes free.
  unfoldable pub liberar_heap : ℕ → ℕ → ℕ → InfoHeap → Segmento → Muse → Option (ℤ × Muse)
  liberar_heap i j h heap seg s =
      let s0 = set_heaps i j seg (set seg.status_metadata h (record heap { libre = true })) s in
      option_case
        (sustituir_heap_metadata seg.paginas heap.direccion_heap
          (heap_metadata maquina heap.espacio true) s0)
        none
        λ s1. option_case (merge i j s1) none λ s2.
          option_case (segmento_en i j s2) none
            λ seg2. some (pos 0, set_heaps i j seg2 (numerar 0 seg2.status_metadata) s2)

  module _ (string_equals_ignore_case : String → String → Bool) where
    -- A mapping has no list of blocks: reading it is a fault.
    unfoldable pub muse_free : String → ℕ → Muse → Option (ℤ × Muse)
    muse_free id dir s =
        option_case (buscar_programa string_equals_ignore_case id s) (some (negsuc 0, s)) λ i.
          option_case (get_elem? s.lista_programas i) none λ prog.
            option_case (obtener_segmento_por_direccion prog.segmentos dir) (some (negsuc 0, s))
              λ j. option_case (get_elem? prog.segmentos j) none λ seg.
                if seg.es_mmap
                then none
                else option_case
                    (find_index (empieza_en ((dir + u32_mod - seg.base_logica) % u32_mod))
                      seg.status_metadata)
                    (some (negsuc 0, s))
                    λ h.
                      option_case (get_elem? seg.status_metadata h) none
                        (λ heap. liberar_heap i j h heap seg s)
