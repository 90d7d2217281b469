-- ===== src/Muse/Alloc.antt =====
-- muse/src/muse.c, lines 302 to 314 and 420 to 706: `muse_alloc`, in a free block, or in a segment
-- that grows. `none` is a fault, or a value that was never set. The answer is an int.
use tp_2019_2c_vendo_fiat.Muse.State.{Maquina}
use tp_2019_2c_vendo_fiat.Muse.Segmentos.{
  techo, obtener_heap_con_espacio, size_metadata, u32_mod, buscar_programa,
  obtener_segmento_para_ocupar,
}
use tp_2019_2c_vendo_fiat.Muse.Metadata.{
  heap_metadata, queda_cortado, escribir_cortado, sustituir_heap_metadata,
  calcular_frames_necesarios, escribir_en_lista, segmento_en, set_segmento,
}
use tp_2019_2c_vendo_fiat.Muse.Reserva.{
  list_add_in_index, crear_pagina, alloc_tras_mmap, alloc_primero, gastar, hay_espacio, bytes_de,
}
use Prim.Native.String.{String}
use tp_2019_2c_vendo_fiat.Muse.State.{Segmento, InfoHeap, Muse}
use tp_2019_2c_vendo_fiat.Base.{
  ℕ, List, Bool, Option, if◌then◌else◌, length, option_case, some, suc, ◌%◌, ◌*◌, ◌+◌, leb, true,
  ◌-◌, false, get_elem?, last, none, set, is_empty, ◌/◌, ◌++◌, ◌∷◌, [], zero,
}
use tp_2019_2c_vendo_fiat.Base.Int.{ℤ, pos, negsuc}

-- A block whose first `tamanio` bytes are taken, and the free block after it, with its
-- HeapMetadata.
abbrev pub heap_tomado : ℕ → InfoHeap → InfoHeap
heap_tomado tamanio heap = record heap { espacio = tamanio; libre = false }

abbrev pub siguiente : ℕ → ℕ → InfoHeap → InfoHeap
siguiente tamanio espacio heap = record {
  direccion_heap = heap.direccion_heap + tamanio + size_metadata;
  espacio = espacio;
  libre = true;
  indice = suc heap.indice;
}

-- What is left of `entero` bytes and those of the block.
abbrev pub sobra : ℕ → ℕ → InfoHeap → ℕ
sobra tamanio entero heap =
    (entero + heap.espacio + 2 * u32_mod - tamanio - size_metadata) % u32_mod

-- The block in place `h` takes `tamanio` bytes, of its own and of the `entero` that its segment
-- grows by, and the rest is a free block after it.
unfoldable pub partir_heap : ℕ → ℕ → ℕ → InfoHeap → List InfoHeap → List InfoHeap
partir_heap tamanio entero h heap heaps =
    list_add_in_index (suc heap.indice) (siguiente tamanio (sobra tamanio entero heap) heap)
      (set heaps h (heap_tomado tamanio heap))

-- The answer for a block at the direction `d`, from the number of the page that holds the end of
-- its HeapMetadata.
unfoldable pub direccion_datos : Segmento → ℕ → Muse → Option ℕ
direccion_datos seg d s =
    let t = s.tamanio_pagina in
    let offset = d % t in
    if queda_cortado t offset
    then option_case (get_elem? seg.paginas (suc (d / t))) none
        (λ q. some (seg.base_logica + (s.paginas q).num_pagina * t + size_metadata - (t - offset)))
    else option_case (get_elem? seg.paginas (d / t)) none
        (λ q. some (seg.base_logica + (s.paginas q).num_pagina * t + offset + size_metadata))

-- The pages that a segment grows by: `k` rounds from `v` on, after the page with the number
-- `ultima`.
unfoldable pub agregar_paginas : ℕ → ℕ → ℕ → ℕ → ℕ → Muse → Option Muse
agregar_paginas i j ultima zero v s = some s
agregar_paginas i j ultima (suc k) v s = option_case (crear_pagina (ultima + 1 + v) v s) none λ r.
    option_case (segmento_en i j r.1) none λ seg.
      agregar_paginas i j ultima k (suc v)
        (set_segmento i j (record seg { paginas = seg.paginas ++ (r.0 ∷ []) }) r.1)

module _ (maquina : Maquina) where
  -- The HeapMetadata of the rest of a block. Where it is not cut, it is written at the offset of
  -- the first HeapMetadata, `offset_inicial`.
  unfoldable pub escribir_resto : List ℕ → ℕ → ℕ → ℕ → Muse → Option Muse
  escribir_resto paginas offset_inicial d tamanio s =
      let t = s.tamanio_pagina in
      let heap = heap_metadata maquina tamanio true in
      if queda_cortado t (d % t)
      then escribir_cortado paginas (d / t) (d % t) heap s
      else escribir_en_lista paginas (d / t) offset_inicial heap size_metadata s

  -- In the free block `heap`, in place `h` of the segment.
  unfoldable pub alloc_en_heap : ℕ → ℕ → Segmento → ℕ → InfoHeap → ℕ → Muse → Option (ℤ × Muse)
  alloc_en_heap i j seg h heap tamanio s =
      let d = heap.direccion_heap in
      let resto = sobra tamanio 0 heap in
      option_case (sustituir_heap_metadata seg.paginas d (heap_metadata maquina tamanio false) s)
        none
        λ s1. option_case (direccion_datos seg d s1) none λ dir.
          option_case
            (escribir_resto seg.paginas (d % s.tamanio_pagina) (d + tamanio + size_metadata) resto
              s1)
            none
            λ s2.
              let seg1 : Segmento = record seg {
                status_metadata = partir_heap tamanio 0 h heap seg.status_metadata;
              } in
              some (pos dir, set_segmento i j seg1 s2)

  unfoldable pub alloc_en_segmento : ℕ → ℕ → Segmento → ℕ → Muse → Option (ℤ × Muse)
  alloc_en_segmento i j seg tamanio s = option_case (obtener_heap_con_espacio seg tamanio) none λ h.
      option_case (get_elem? seg.status_metadata h) none
        (λ heap. alloc_en_heap i j seg h heap tamanio s)

  -- The HeapMetadata of the grown block is written near that of the free rest, on the page before
  -- the end of the quotient rounded up.
  unfoldable pub escribir_viejo : List ℕ → ℕ → ℕ → Muse → Option Muse
  escribir_viejo paginas d tamanio s =
      let t = s.tamanio_pagina in
      let k = techo d t - 1 in
      let heap = heap_metadata maquina tamanio false in
      if queda_cortado t (d % t)
      then escribir_cortado paginas k (d % t) heap s
      else escribir_en_lista paginas k (d % t) heap size_metadata s

  -- The segment in place `j`, the last one, grows by `n` pages. `heap` is its last block, in place
  -- `h`.
  unfoldable pub crecer_segmento :
      ℕ → ℕ → Segmento → ℕ → InfoHeap → ℕ → ℕ → Muse → Option (ℤ × Muse)
  crecer_segmento i j seg h heap n tamanio s =
      let entero = bytes_de n s in
      let d = heap.direccion_heap + tamanio + size_metadata in
      let resto = sobra tamanio entero heap in
      let seg1 : Segmento = record seg {
        tamanio = seg.tamanio + entero;
        status_metadata = partir_heap tamanio entero h heap seg.status_metadata;
      } in
      option_case (last seg.paginas) none λ q.
        option_case
          (agregar_paginas i j (s.paginas q).num_pagina n 0 (set_segmento i j seg1 (gastar n s)))
          none
          λ s1. option_case (segmento_en i j s1) none λ seg2.
            option_case
              (sustituir_heap_metadata seg2.paginas d (heap_metadata maquina resto true) s1) none
              λ s2.
                option_case (escribir_viejo seg2.paginas d tamanio s2) none
                  λ s3. some (pos (heap.direccion_heap + size_metadata), s3)

  -- Where the size does not fit, the last block is not free any more.
  unfoldable pub agrandar_segmento : ℕ → ℕ → Segmento → ℕ → Muse → Option (ℤ × Muse)
  agrandar_segmento i j seg tamanio s =
      let h = length seg.status_metadata - 1 in
      option_case (get_elem? seg.status_metadata h) none λ heap.
        let lo_que_necesito = (tamanio + u32_mod - heap.espacio + size_metadata) % u32_mod in
        option_case (calcular_frames_necesarios maquina s.tamanio_pagina lo_que_necesito) none λ n.
          let heap_tomado : Segmento = record seg {
            status_metadata = set seg.status_metadata h (record heap { libre = false });
          } in
          if hay_espacio n s
          then crecer_segmento i j seg h heap n tamanio s
          else some (negsuc 0, set_segmento i j heap_tomado s)

  -- With no free block that is large enough.
  unfoldable pub alloc_sin_lugar : ℕ → List Segmento → ℕ → Muse → Option (ℤ × Muse)
  alloc_sin_lugar i segs tamanio s =
      let j = length segs - 1 in
      option_case (get_elem? segs j) none λ ultimo.
        if ultimo.es_mmap
        then alloc_tras_mmap maquina i segs tamanio s
        else agrandar_segmento i j ultimo tamanio s

  module _ (string_equals_ignore_case : String → String → Bool) where
    unfoldable pub muse_alloc : String → ℕ → Muse → Option (ℤ × Muse)
    muse_alloc id tamanio s =
        if leb (tamanio + size_metadata) s.espacio_disponible
        then option_case (buscar_programa string_equals_ignore_case id s) (some (negsuc 0, s)) (λ i.
          option_case (get_elem? s.lista_programas i) none λ prog.
            if is_empty prog.segmentos
            then alloc_primero maquina i tamanio s
            else option_case (obtener_segmento_para_ocupar prog.segmentos (tamanio + size_metadata))
                (alloc_sin_lugar i prog.segmentos tamanio s)
                λ j.
                  option_case (get_elem? prog.segmentos j) none
                    (λ seg. alloc_en_segmento i j seg tamanio s))
        else some (negsuc 0, s)
