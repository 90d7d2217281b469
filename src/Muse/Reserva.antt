-- ===== src/Muse/Reserva.antt =====
-- muse/src/muse.c, lines 314 to 419 and 495 to 597: the new segments of `muse_alloc`. `none` is a
-- fault, or a value that was never set. The segments of the program in place `i` of the list of
-- programs are read from the state, since a page fault reads them too. TAMANIO_MEMORIA /
-- TAMANIO_PAGINA is the count of the frames.
use tp_2019_2c_vendo_fiat.Muse.State.{Maquina}
use tp_2019_2c_vendo_fiat.Muse.Paginacion.{asignar_marco_nuevo, buscar_bit_libre_swap}
use tp_2019_2c_vendo_fiat.Base.Int.{ℤ, negsuc}
use tp_2019_2c_vendo_fiat.Muse.Metadata.{
  heap_metadata, calcular_frames_necesarios, escribir_en_pagina, queda_cortado, set_segmentos,
}
use tp_2019_2c_vendo_fiat.Muse.Segmentos.{
  size_metadata, obtener_base_logica_nuevo_segmento, u32_mod,
}
use tp_2019_2c_vendo_fiat.Base.Int.{ℤ, pos, negsuc}
use tp_2019_2c_vendo_fiat.Muse.State.{Muse, InfoHeap, Segmento, set_pagina}
use tp_2019_2c_vendo_fiat.Base.{
  ℕ, List, Bool, Option, ◌-◌, ◌∷◌, false, if◌then◌else◌, leb, some, suc, ◌*◌, [], length,
  option_case, true, zero, ◌+◌, ◌==◌, none, ◌&&◌, get_elem?, ◌++◌, set, ◌%◌,
}

-- list_add_in_index of commons/collections/list.h: nothing is added at a place beyond the end.
unfoldable pub list_add_in_index {ℓ} : {A : Type ℓ} → ℕ → A → List A → List A
list_add_in_index zero x xs = x ∷ xs
list_add_in_index (suc k) x [] = []
list_add_in_index (suc k) x (y ∷ ys) = y ∷ list_add_in_index k x ys

-- A page with the number `num`, made in round `i` of a loop: it gets a frame if `i` is at most the
-- count of the frames, and otherwise a place of the swap area, which is not marked as taken.
unfoldable pub crear_pagina : ℕ → ℕ → Muse → Option (ℕ × Muse)
crear_pagina num i s =
    let q = s.next_pagina in
    if leb i (length s.bits_memoria)
    then option_case (asignar_marco_nuevo s) none (λ r.
      option_case (get_elem? r.1.bits_memoria r.0) none λ bit. some (
        q,
        set_pagina q
            (record { num_pagina = num; presencia = true; bit_marco = some r.0; bit_swap = none })
            (record r.1 {
              bits_memoria =
                  set r.1.bits_memoria r.0 (record bit { bit_uso = true; bit_modificado = true });
              next_pagina = suc q;
            }),
      ))
    else some (
      q,
      set_pagina q
          (record {
            num_pagina = num;
            presencia = false;
            bit_marco = none;
            bit_swap = buscar_bit_libre_swap s.bits_memoria_virtual;
          })
          (record s { next_pagina = suc q }),
    )

-- The two InfoHeap of a new segment.
abbrev pub heaps_nuevos : ℕ → ℕ → List InfoHeap
heaps_nuevos tamanio libre =
    record { direccion_heap = 0; espacio = tamanio; libre = false; indice = 0 }
    ∷ record { direccion_heap = tamanio + size_metadata; espacio = libre; libre = true; indice = 1 }
    ∷ []

-- The bytes of `n` pages, as a uint32_t: the size that a segment grows by can wrap around.
abbrev pub bytes_de : ℕ → Muse → ℕ
bytes_de n s = (n * s.tamanio_pagina) % u32_mod

abbrev pub gastar : ℕ → Muse → Muse
gastar n s = record s { espacio_disponible = s.espacio_disponible - bytes_de n s }

abbrev pub hay_espacio : ℕ → Muse → Bool
hay_espacio n s = leb (bytes_de n s) s.espacio_disponible

module _ (maquina : Maquina) where
  -- What is written to the page `q`, the one in place `i` of the `n` of a new segment: the first
  -- HeapMetadata, and the last one, which may lie on the last two pages.
  unfoldable pub escribir_inicio : ℕ → ℕ → ℕ → Muse → Option Muse
  escribir_inicio tamanio i q s =
      if i == 0
      then escribir_en_pagina q 0 (heap_metadata maquina tamanio false) size_metadata s
      else some s

  unfoldable pub escribir_anteultima : ℕ → ℕ → ℕ → ℕ → Muse → Option Muse
  escribir_anteultima libre n i q s =
      let t = s.tamanio_pagina in
      let heap_anteultima_pagina = size_metadata - (t - libre) in
      if i + 2 == n && queda_cortado t libre
      then escribir_en_pagina q (t - heap_anteultima_pagina) (heap_metadata maquina libre true)
          heap_anteultima_pagina s
      else some s

  unfoldable pub escribir_ultima : ℕ → ℕ → ℕ → ℕ → Muse → Option Muse
  escribir_ultima libre n i q s =
      let t = s.tamanio_pagina in
      let heap = heap_metadata maquina libre true in
      if i + 1 == n
      then (if queda_cortado t libre
          then escribir_en_pagina q 0
              (λ b. heap (size_metadata * (size_metadata - (t - libre)) + b)) (t - libre) s
          else escribir_en_pagina q (t - libre - size_metadata) heap size_metadata s)
      else some s

  -- The loop over the pages of a new segment: `k` rounds from `i` on.
  unfoldable pub crear_paginas : ℕ → ℕ → ℕ → ℕ → ℕ → Muse → Option (List ℕ × Muse)
  crear_paginas tamanio libre n zero i s = some ([], s)
  crear_paginas tamanio libre n (suc k) i s = option_case (crear_pagina i i s) none λ r.
      option_case (escribir_inicio tamanio i r.0 r.1) none λ s1.
        option_case (escribir_anteultima libre n i r.0 s1) none λ s2.
          option_case (escribir_ultima libre n i r.0 s2) none λ s3.
            option_case (crear_paginas tamanio libre n k (suc i) s3) none
              (λ rest. some (r.0 ∷ rest.0, rest.1))

  -- A new segment of `n` pages, at the end of the list.
  unfoldable pub crear_segmento : ℕ → List Segmento → ℕ → ℕ → ℕ → Muse → Option Muse
  crear_segmento i segs base n tamanio s =
      let libre = n * s.tamanio_pagina - tamanio - size_metadata * 2 in
      option_case (crear_paginas tamanio libre n n 0 s) none λ r.
        let seg : Segmento = record {
          num_segmento = length segs;
          base_logica = base;
          tamanio = n * s.tamanio_pagina;
          paginas = r.0;
          status_metadata = heaps_nuevos tamanio libre;
          es_mmap = false;
          compartido = false;
          path_mapeo = "";
          tamanio_mapeo = 0;
        } in
        some (set_segmentos i (segs ++ (seg ∷ [])) r.1)

  -- With no segment: the size does not fit, or the program gets its first one.
  unfoldable pub alloc_primero : ℕ → ℕ → Muse → Option (ℤ × Muse)
  alloc_primero i tamanio s =
      option_case
        (calcular_frames_necesarios maquina s.tamanio_pagina (tamanio + size_metadata * 2)) none
        λ n.
          if hay_espacio n s
          then option_case (crear_segmento i [] 0 n tamanio (gastar n s)) none
              (λ t. some (pos size_metadata, t))
          else some (negsuc 0, s)

  -- After a mapping: where the size does not fit, the answer was never set.
  unfoldable pub alloc_tras_mmap : ℕ → List Segmento → ℕ → Muse → Option (ℤ × Muse)
  alloc_tras_mmap i segs tamanio s =
      option_case
        (calcular_frames_necesarios maquina s.tamanio_pagina (tamanio + size_metadata * 2)) none
        λ n.
          let base = obtener_base_logica_nuevo_segmento s.tamanio_pagina segs in
          if hay_espacio n s
          then option_case (crear_segmento i segs base n tamanio (gastar n s)) none
              (λ t. some (pos (base + size_metadata), t))
          else none
