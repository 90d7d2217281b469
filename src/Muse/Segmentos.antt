-- ===== src/Muse/Segmentos.antt =====
-- muse/src/utils.c, lines 5 to 39, 92 to 147 and 220 to 290: the searches in the segments of a
-- program, and the pages of a mapped file that were never loaded. `string_equals_ignore_case` of
-- commons/string.h is a parameter, and so is what the buffer of `paginasMapEnMemoria` holds once
-- the file was read into it. Directions and sizes are below 2^31, so `techo` of a quotient of
-- doubles is the quotient rounded up.
use tp_2019_2c_vendo_fiat.Muse.Paginacion.{asignar_marco_nuevo, obtener_puntero_a_marco}
use Prim.Native.String.{String}
use tp_2019_2c_vendo_fiat.Muse.State.{Muse, Segmento, InfoHeap, memcpy, set_pagina}
use tp_2019_2c_vendo_fiat.Base.{
  List, ℕ, Bool, Option, if◌then◌else◌, option_case, ◌^◌, any, find_index, last, leb, ltb, none,
  not, some, ◌%◌, ◌&&◌, ◌/◌, false, get_elem?, suc, ◌+◌, ◌-◌, ◌==◌, length, ◌*◌, true, zero, set,
  is_none,
}

abbrev pub u32_mod : ℕ
u32_mod = 2 ^ 32

-- sizeof(HeapMetadata)
abbrev pub size_metadata : ℕ
size_metadata = 5

-- techo((double) a / t)
unfoldable pub techo : ℕ → ℕ → ℕ
techo a t = if a % t == 0 then a / t else a / t + 1

-- The subtraction is on uint32_t.
unfoldable pub buscar_segmento : ℕ → Segmento → Bool
buscar_segmento direccion seg = ltb ((direccion + u32_mod - seg.base_logica) % u32_mod) seg.tamanio

-- The position of the segment in the list; `segmentoAlQuePertenece` is the same search.
unfoldable pub obtener_segmento_por_direccion : List Segmento → ℕ → Option ℕ
obtener_segmento_por_direccion segmentos direccion =
    find_index (buscar_segmento direccion) segmentos

unfoldable pub tiene_heap_disponible : ℕ → InfoHeap → Bool
tiene_heap_disponible tamanio heap = heap.libre && leb tamanio heap.espacio

unfoldable pub find_segmento_con_espacio : ℕ → Segmento → Bool
find_segmento_con_espacio tamanio seg =
    if not seg.es_mmap then any (tiene_heap_disponible tamanio) seg.status_metadata else false

unfoldable pub obtener_segmento_para_ocupar : List Segmento → ℕ → Option ℕ
obtener_segmento_para_ocupar segmentos tamanio =
    find_index (find_segmento_con_espacio tamanio) segmentos

-- `none` where the code ends without a value.
unfoldable pub obtener_heap_con_espacio : Segmento → ℕ → Option ℕ
obtener_heap_con_espacio seg tamanio =
    find_index (tiene_heap_disponible (tamanio + size_metadata)) seg.status_metadata

unfoldable pub obtener_base_logica_nuevo_segmento : ℕ → List Segmento → ℕ
obtener_base_logica_nuevo_segmento tamanio_pagina segmentos =
    option_case (last segmentos) 0
      (λ ultimo. (ultimo.base_logica + length ultimo.paginas * tamanio_pagina) % u32_mod)

unfoldable pub no_cargada : Muse → ℕ → ℕ → ℕ → Bool
no_cargada s inicial final q =
    leb inicial (s.paginas q).num_pagina
    && leb (s.paginas q).num_pagina final
    && is_none (s.paginas q).bit_marco
    && is_none (s.paginas q).bit_swap

unfoldable pub tiene_paginas_no_cargadas_en_memoria : Segmento → ℕ → ℕ → Muse → Bool
tiene_paginas_no_cargadas_en_memoria seg inicial final s =
    any (no_cargada s inicial final) seg.paginas

-- The bytes `f` are written at the address `a` of main memory.
abbrev pub escribir_memoria : ℕ → (ℕ → ℕ) → ℕ → Muse → Muse
escribir_memoria a f n s = record s { memoria = memcpy s.memoria a f 0 n }

-- A page that was never loaded gets a frame.
unfoldable pub dar_marco : ℕ → Muse → Option Muse
dar_marco q s = option_case (asignar_marco_nuevo s) none λ r.
    option_case (get_elem? r.1.bits_memoria r.0) none λ bit. some (
      set_pagina q
        (record (r.1.paginas q) { bit_marco = some r.0; presencia = true; bit_swap = none })
        (record r.1 {
          bits_memoria =
              set r.1.bits_memoria r.0 (record bit { bit_uso = true; bit_modificado = true });
        }))

-- What a page of the mapping gets: the bytes of the buffer from the page on; the last page of the
-- segment is filled up with zeros.
unfoldable pub bytes_de_mapa : (ℕ → ℕ) → ℕ → ℕ → ℕ → Bool → ℕ → ℕ
bytes_de_mapa buffer i t relleno true k = if ltb k (t - relleno) then buffer (i * t + k) else 0
bytes_de_mapa buffer i t relleno false k = buffer (i * t + k)

-- One round of the loop of `paginasMapEnMemoria`, on the page in place `i` of the segment.
unfoldable pub cargar_pagina : (ℕ → ℕ) → ℕ → ℕ → ℕ → ℕ → Muse → Option Muse
cargar_pagina buffer relleno ultima i q s =
    if is_none (s.paginas q).bit_marco && is_none (s.paginas q).bit_swap
    then option_case (dar_marco q s) none (λ s1.
      option_case (obtener_puntero_a_marco q s1) none λ r. option_case r.0 none λ a. some (
        escribir_memoria a
          (bytes_de_mapa buffer i s.tamanio_pagina relleno ((r.1.paginas q).num_pagina == ultima))
          s.tamanio_pagina r.1))
    else some s

unfoldable pub cargar_paginas : (ℕ → ℕ) → ℕ → List ℕ → ℕ → ℕ → Muse → Option Muse
cargar_paginas buffer relleno paginas zero i s = some s
cargar_paginas buffer relleno paginas (suc n) i s = option_case (get_elem? paginas i) none λ q.
    option_case (cargar_pagina buffer relleno (length paginas - 1) i q s) none
      (cargar_paginas buffer relleno paginas n (suc i))

module _ (leido : String → ℕ → ℕ → ℕ) where
  -- `leido path n` are the bytes of the buffer after `n` bytes of the file were asked for.
  unfoldable pub paginas_map_en_memoria : ℕ → ℕ → Segmento → Muse → Option Muse
  paginas_map_en_memoria direccion tamanio seg s =
      let t = s.tamanio_pagina in
      let primera = direccion / t in
      let fin = techo (direccion + tamanio) t in
      let bytes_por_leer = (fin - primera) * t in
      if tiene_paginas_no_cargadas_en_memoria seg primera (fin - 1) s
      then cargar_paginas (leido seg.path_mapeo bytes_por_leer)
          (bytes_por_leer - direccion % t - tamanio) seg.paginas (fin - primera) primera s
      else some s

module _ (string_equals_ignore_case : String → String → Bool) where
  unfoldable pub buscar_programa : String → Muse → Option ℕ
  buscar_programa id s = find_index (λ p. string_equals_ignore_case p.id id) s.lista_programas

  unfoldable pub obtener_lista_segmentos_por_id : String → Muse → Option (List Segmento)
  obtener_lista_segmentos_por_id id s =
      option_case (buscar_programa id s) none
        λ i. option_case (get_elem? s.lista_programas i) none (λ p. some p.segmentos)
