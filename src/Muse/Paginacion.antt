-- ===== src/Muse/Paginacion.antt =====
-- muse/src/utils.c, lines 41 to 74 and 378 to 500: frames for pages, the swap area, page faults.
-- `none` is a fault: the code reads or writes through a NULL pointer.
use tp_2019_2c_vendo_fiat.Muse.Clock.{buscar_bit_libre_memoria, buscar_victima}
use tp_2019_2c_vendo_fiat.Muse.State.{Muse, BitSwap, Programa, Segmento, memcpy, set_pagina}
use tp_2019_2c_vendo_fiat.Base.{
  List, ℕ, Option, option_case, find_index, get_elem?, if◌then◌else◌, none, some, ◌*◌, ◌∷◌, not,
  set, ◌++◌, ◌+◌, ◌==◌, [], false, true,
}

-- The position of the first free place in the swap area. It is not marked as taken.
unfoldable pub buscar_bit_libre_swap : List BitSwap → Option ℕ
buscar_bit_libre_swap bits = find_index (λ b. not b.esta_ocupado) bits

abbrev pub pos_marco : Muse → ℕ → ℕ
pos_marco s m = option_case (get_elem? s.bits_memoria m) 0 (λ b. b.pos)

abbrev pub pos_swap : Muse → ℕ → ℕ
pos_swap s b = option_case (get_elem? s.bits_memoria_virtual b) 0 (λ x. x.pos)

-- The frame `m` is copied to the place `b`, whose bit is `bit`, and the place is marked as taken.
unfoldable pub copiar_a_swap : ℕ → ℕ → BitSwap → Muse → Muse
copiar_a_swap m b bit s = record s {
  area_swap =
      memcpy s.area_swap (bit.pos * s.tamanio_pagina) s.memoria (pos_marco s m * s.tamanio_pagina)
        s.tamanio_pagina;
  bits_memoria_virtual = set s.bits_memoria_virtual b (record bit { esta_ocupado = true });
}

unfoldable pub pasar_a_swap : ℕ → Muse → Option (ℕ × Muse)
pasar_a_swap m s = option_case (buscar_bit_libre_swap s.bits_memoria_virtual) none λ b.
    option_case (get_elem? s.bits_memoria_virtual b) none λ bit. some (b, copiar_a_swap m b bit s)

-- The last of some pages that is present in the frame at `pos`. A present page with no frame is a
-- fault.
unfoldable pub buscar_bit : Muse → ℕ → List ℕ → Option ℕ → Option (Option ℕ)
buscar_bit s pos [] victima = some victima
buscar_bit s pos (q ∷ qs) victima =
    let salteada = buscar_bit s pos qs victima in
    if (s.paginas q).presencia
    then option_case (s.paginas q).bit_marco none
        (λ m. buscar_bit s pos qs (if pos_marco s m == pos then some q else victima))
    else salteada

-- The pages of all segments of all programs, in the order in which they are visited.
abbrev pub paginas_de_segmentos : List Segmento → List ℕ
paginas_de_segmentos [] = []
paginas_de_segmentos (seg ∷ segs) = seg.paginas ++ paginas_de_segmentos segs

abbrev pub paginas_de_programas : List Programa → List ℕ
paginas_de_programas [] = []
paginas_de_programas (p ∷ ps) = paginas_de_segmentos p.segmentos ++ paginas_de_programas ps

unfoldable pub buscar_pagina_segun_bit : ℕ → Muse → Option (Option ℕ)
buscar_pagina_segun_bit m s =
    buscar_bit s (pos_marco s m) (paginas_de_programas s.lista_programas) none

-- The page `q`, whose bytes are in the place `b`, leaves the frame `m`.
unfoldable pub dejar_marco : ℕ → ℕ → ℕ → Muse → Option Muse
dejar_marco m q b s = option_case (get_elem? s.bits_memoria m) none λ bit. some (
    set_pagina q (record (s.paginas q) { bit_swap = some b; bit_marco = none; presencia = false })
      (record s {
        bits_memoria = set s.bits_memoria m (record bit { bit_modificado = false; bit_uso = true });
      }))

-- The frame of the page `q` is copied to the swap area, and the page leaves the frame `m`.
unfoldable pub desalojar_pagina : ℕ → ℕ → Muse → Option Muse
desalojar_pagina m q s =
    option_case (s.paginas q).bit_marco none
      λ f. option_case (pasar_a_swap f s) none λ r. dejar_marco m q r.0 r.1

-- Where no page of a program is in the frame, it is handed over as it is.
unfoldable pub desalojar_victima : ℕ → Option ℕ → Muse → Option (ℕ × Muse)
desalojar_victima m none s = some (m, s)
desalojar_victima m (some q) s = option_case (desalojar_pagina m q s) none (λ t. some (m, t))

unfoldable pub ejecutar_clock_modificado : Muse → Option (ℕ × Muse)
ejecutar_clock_modificado s =
    let r = buscar_victima s.bits_memoria s.puntero_clock in
    let s1 = record s { bits_memoria = r.bits; puntero_clock = r.puntero } in
    option_case r.bit none
      λ m. option_case (buscar_pagina_segun_bit m s1) none λ victima. desalojar_victima m victima s1

unfoldable pub asignar_marco_nuevo : Muse → Option (ℕ × Muse)
asignar_marco_nuevo s =
    let r = buscar_bit_libre_memoria s.bits_memoria in
    option_case r.0 (ejecutar_clock_modificado s) (λ m. some (m, record s { bits_memoria = r.1 }))

-- The bytes `victima` are written to the frame `m`, which is the frame of the page `q` now.
unfoldable pub poner_en_marco : ℕ → ℕ → (ℕ → ℕ) → Muse → Muse
poner_en_marco q m victima s =
    set_pagina q (record (s.paginas q) { bit_marco = some m; presencia = true })
      (record s {
        memoria = memcpy s.memoria (pos_marco s m * s.tamanio_pagina) victima 0 s.tamanio_pagina;
      })

-- A page that is in the swap area comes back into memory: its bytes are saved, then a frame is
-- assigned, then they are written. The place in the swap area stays taken.
unfoldable pub traer_de_swap : ℕ → ℕ → Muse → Option Muse
traer_de_swap q b s =
    let victima = λ (k : ℕ). s.area_swap (pos_swap s b * s.tamanio_pagina + k) in
    let s0 = set_pagina q (record (s.paginas q) { bit_swap = none }) s in
    option_case (asignar_marco_nuevo s0) none λ r. some (poner_en_marco q r.0 victima r.1)

unfoldable pub asegurar_presencia : ℕ → Muse → Option Muse
asegurar_presencia q s =
    if (s.paginas q).presencia
    then some s
    else option_case (s.paginas q).bit_swap (some s) (λ b. traer_de_swap q b s)

unfoldable pub marcar_uso : ℕ → Muse → Muse
marcar_uso m s =
    option_case (get_elem? s.bits_memoria m) s
      λ bit. record s { bits_memoria = set s.bits_memoria m (record bit { bit_uso = true }) }

-- The offset of the page's frame in main memory, `none` where the code returns NULL.
unfoldable pub puntero_de : Option ℕ → Muse → Option ℕ × Muse
puntero_de none s = (none, s)
puntero_de (some m) s = (some (pos_marco s m * s.tamanio_pagina), marcar_uso m s)

unfoldable pub obtener_puntero_a_marco : ℕ → Muse → Option (Option ℕ × Muse)
obtener_puntero_a_marco q s =
    option_case (asegurar_presencia q s) none λ s1. some (puntero_de (s1.paginas q).bit_marco s1)

-- The frame and the place in the swap area of a page that goes away are free again.
unfoldable pub liberar_marco : ℕ → Muse → Muse
liberar_marco m s =
    option_case (get_elem? s.bits_memoria m) s
      λ bit. record s { bits_memoria = set s.bits_memoria m (record bit { esta_ocupado = false }) }

unfoldable pub liberar_swap : ℕ → Muse → Muse
liberar_swap b s = option_case (get_elem? s.bits_memoria_virtual b) s λ bit. record s {
  bits_memoria_virtual = set s.bits_memoria_virtual b (record bit { esta_ocupado = false });
}

unfoldable pub destruir_pagina : ℕ → Muse → Muse
destruir_pagina q s =
    let s1 = option_case (s.paginas q).bit_marco s (λ m. liberar_marco m s) in
    option_case (s.paginas q).bit_swap s1 (λ b. liberar_swap b s1)
