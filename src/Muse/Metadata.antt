-- ===== src/Muse/Metadata.antt =====
-- muse/src/utils.c, lines 240 to 247 and 293 to 313: the frames that a size takes, and the
-- HeapMetadata in the pages of a segment. A HeapMetadata is a packed uint32_t and bool; `maquina.basura` is
-- what the memory holds after it, which the code copies from where it adds a number of bytes to a
-- HeapMetadata pointer. Floats are a parameter.
use tp_2019_2c_vendo_fiat.Muse.State.{Maquina}
use tp_2019_2c_vendo_fiat.Protocol.Words.{bytes_le}
use tp_2019_2c_vendo_fiat.Muse.Segmentos.{size_metadata, escribir_memoria}
use tp_2019_2c_vendo_fiat.Muse.Paginacion.{obtener_puntero_a_marco}
use tp_2019_2c_vendo_fiat.Muse.State.{Muse, Segmento}
use tp_2019_2c_vendo_fiat.Base.{
  List, ℕ, Bool, Option, if◌then◌else◌, ltb, none, option_case, suc, ◌%◌, ◌-◌, get_elem?, get_or,
  ◌*◌, ◌+◌, ◌/◌, set, some, zero, ◌++◌, ◌∷◌, [], ◌^◌,
}

-- The state with another segment in place `j` of the program in place `i`.
abbrev pub segmento_en : ℕ → ℕ → Muse → Option Segmento
segmento_en i j s = option_case (get_elem? s.lista_programas i) none (λ p. get_elem? p.segmentos j)

abbrev pub set_segmentos : ℕ → List Segmento → Muse → Muse
set_segmentos i segs s =
    option_case (get_elem? s.lista_programas i) s
      (λ p. record s { lista_programas = set s.lista_programas i (record p { segmentos = segs }) })

abbrev pub set_segmento : ℕ → ℕ → Segmento → Muse → Muse
set_segmento i j seg s =
    option_case (get_elem? s.lista_programas i) s (λ p. set_segmentos i (set p.segmentos j seg) s)

-- The do-while, whose test is on floats: at most `fuel` rounds.
unfoldable pub vueltas_frames : Maquina → ℕ → ℕ → ℕ → ℕ → Option ℕ
vueltas_frames maquina zero tam t n = none
vueltas_frames maquina (suc fuel) tam t n =
    if maquina.supera tam t (suc n) then vueltas_frames maquina fuel tam t (suc n) else some (suc n)

unfoldable pub calcular_frames_necesarios : Maquina → ℕ → ℕ → Option ℕ
calcular_frames_necesarios maquina t tam = vueltas_frames maquina (suc (tam + tam)) tam t 0

-- A HeapMetadata in memory, by its bytes.
unfoldable pub heap_metadata : Maquina → ℕ → Bool → ℕ → ℕ
heap_metadata maquina tamanio libre k =
    if ltb k 5
    then get_or (bytes_le 4 tamanio ++ ((if libre then 1 else 0) ∷ [])) k 0
    else maquina.basura k

-- `n` bytes are written at an offset of a page. A page that is not found is a fault.
unfoldable pub escribir_en_pagina : ℕ → ℕ → (ℕ → ℕ) → ℕ → Muse → Option Muse
escribir_en_pagina q offset f n s =
    option_case (obtener_puntero_a_marco q s) none
      λ r. option_case r.0 none (λ a. some (escribir_memoria (a + offset) f n r.1))

unfoldable pub escribir_en_lista : List ℕ → ℕ → ℕ → (ℕ → ℕ) → ℕ → Muse → Option Muse
escribir_en_lista paginas k offset f n s =
    option_case (get_elem? paginas k) none (λ q. escribir_en_pagina q offset f n s)

-- offset > TAMANIO_PAGINA - sizeof(HeapMetadata): the difference is a size_t, of 64 bits, and wraps
-- around on a page that is shorter than a HeapMetadata.
unfoldable pub queda_cortado : ℕ → ℕ → Bool
queda_cortado t offset = ltb ((t + 2 ^ 64 - size_metadata) % 2 ^ 64) offset

-- A HeapMetadata that is cut: the second part is read `loQueCopio` HeapMetadata further.
unfoldable pub escribir_cortado : List ℕ → ℕ → ℕ → (ℕ → ℕ) → Muse → Option Muse
escribir_cortado paginas k offset heap s =
    let lo_que_copio = s.tamanio_pagina - offset in
    option_case (escribir_en_lista paginas k offset heap lo_que_copio s) none λ s1.
      escribir_en_lista paginas (suc k) 0 (λ b. heap (size_metadata * lo_que_copio + b))
        (size_metadata - lo_que_copio) s1

unfoldable pub sustituir_heap_metadata : List ℕ → ℕ → (ℕ → ℕ) → Muse → Option Muse
sustituir_heap_metadata paginas direccion_heap new s =
    let offset_marco = direccion_heap % s.tamanio_pagina in
    let pagina = direccion_heap / s.tamanio_pagina in
    if queda_cortado s.tamanio_pagina offset_marco
    then escribir_cortado paginas pagina offset_marco new s
    else escribir_en_lista paginas pagina offset_marco new size_metadata s
