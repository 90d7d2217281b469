-- ===== src/Muse/Acceso.antt =====
-- muse/src/muse.c, lines 881 to 1051: `muse_get` and `muse_cpy`. `none` is a fault.
use tp_2019_2c_vendo_fiat.Muse.Segmentos.{
  obtener_lista_segmentos_por_id, paginas_map_en_memoria, size_metadata, escribir_memoria,
  obtener_segmento_por_direccion, techo,
}
use tp_2019_2c_vendo_fiat.Muse.Paginacion.{obtener_puntero_a_marco}
use Prim.Native.String.{String}
use tp_2019_2c_vendo_fiat.Muse.State.{Segmento, InfoHeap, Muse, set_pagina}
use tp_2019_2c_vendo_fiat.Base.{
  List, ℕ, Bool, [], Option, leb, suc, if◌then◌else◌, length, none, option_case, some, ◌+◌, ◌/◌,
  ◌∷◌, get_elem?, not, take, zero, ◌%◌, ◌-◌, drop, find, ◌&&◌, ◌==◌, get_or, ltb, true, set, ◌++◌,
}

-- What a call answers.
pub data Respuesta : Type 0 where
  menos_uno cero : Respuesta
  leido : List ℕ → Respuesta

unfoldable pub bytes_desde : (ℕ → ℕ) → ℕ → ℕ → List ℕ
bytes_desde memoria a zero = []
bytes_desde memoria a (suc n) = memoria a ∷ bytes_desde memoria (suc a) n

-- The loop of `muse_get`: `n` whole pages from the place `k` on. `obtenerPunteroAMarco` has set the
-- use bit that the loop sets.
unfoldable pub leer_paginas : List ℕ → ℕ → ℕ → Muse → Option (List ℕ × Muse)
leer_paginas paginas zero k s = some ([], s)
leer_paginas paginas (suc n) k s = option_case (get_elem? paginas k) none λ q.
    option_case (obtener_puntero_a_marco q s) none λ r. option_case r.0 none λ a.
      let s1 = set_pagina q (record (r.1.paginas q) { presencia = true }) r.1 in
      option_case (leer_paginas paginas n (suc k) s1) none
        λ t. some (bytes_desde s1.memoria a s1.tamanio_pagina ++ t.0, t.1)

-- A write into the page `q`, whose frame is at the address `a`: the frame is used and modified.
unfoldable pub escribir_marco : ℕ → ℕ → List ℕ → Muse → Option Muse
escribir_marco q a datos s = option_case (s.paginas q).bit_marco none λ m.
    option_case (get_elem? s.bits_memoria m) none λ bit. some (
      escribir_memoria a (λ k. get_or datos k 0) (length datos)
        (record s {
          bits_memoria =
              set s.bits_memoria m (record bit { bit_uso = true; bit_modificado = true });
        }))

unfoldable pub escribir_pagina : ℕ → ℕ → List ℕ → Muse → Option Muse
escribir_pagina q desplazamiento datos s =
    option_case (obtener_puntero_a_marco q s) none
      λ r. option_case r.0 none (λ a. escribir_marco q (a + desplazamiento) datos r.1)

unfoldable pub escribir_en_lugar : List ℕ → ℕ → ℕ → List ℕ → Muse → Option Muse
escribir_en_lugar paginas k desplazamiento datos s =
    option_case (get_elem? paginas k) none (λ q. escribir_pagina q desplazamiento datos s)

-- The do-while of `muse_cpy` on what is left to copy. Each round copies a page that is not empty,
-- so fuel beyond the count of bytes is enough.
unfoldable pub copiar_resto : ℕ → List ℕ → ℕ → List ℕ → Muse → Option Muse
copiar_resto zero paginas k datos s = none
copiar_resto (suc f) paginas k datos s =
    let t = s.tamanio_pagina in
    let rest =
      option_case (escribir_en_lugar paginas k 0 (take t datos) s) none
        (copiar_resto f paginas (suc k) (drop t datos)) in
    if leb t (length datos)
    then rest
    else if ltb 0 (length datos)
    then escribir_en_lugar paginas k 0 datos s
    else some s

-- The bytes are copied from a direction of the segment on.
unfoldable pub copiar_en_heap : Segmento → ℕ → List ℕ → Muse → Option Muse
copiar_en_heap seg direccion datos s =
    let t = s.tamanio_pagina in
    let k = direccion / t in
    let sobrante = direccion % t in
    let lo_que_puedo = t - sobrante in
    if leb lo_que_puedo (length datos)
    then option_case (escribir_en_lugar seg.paginas k sobrante (take lo_que_puedo datos) s) none
        (copiar_resto (suc (length datos)) seg.paginas (suc k) (drop lo_que_puedo datos))
    else escribir_en_lugar seg.paginas k sobrante datos s

unfoldable pub es_destino : ℕ → InfoHeap → Bool
es_destino direccion h =
    leb (h.direccion_heap + size_metadata) direccion
    && ltb direccion (h.direccion_heap + size_metadata + h.espacio)
    && not h.libre

-- The loop of `muse_cpy` on a mapping: `n` pages from the place `k` on. `primera` and `ultima` are
-- the numbers of the first and the last page, and `datos` is what is left to copy. A page with no
-- frame is passed over.
unfoldable pub copiar_en_mapa : ℕ → ℕ → ℕ → List ℕ → ℕ → ℕ → List ℕ → Muse → Option Muse
copiar_en_mapa primera ultima offset paginas zero k datos s = some s
copiar_en_mapa primera ultima offset paginas (suc n) k datos s =
    option_case (get_elem? paginas k) none λ q. option_case (obtener_puntero_a_marco q s) none λ r.
      let num = (r.1.paginas q).num_pagina in
      let desplazamiento = if num == primera then offset else 0 in
      let cuanto = if num == ultima then length datos else s.tamanio_pagina - desplazamiento in
      option_case r.0 (copiar_en_mapa primera ultima offset paginas n (suc k) datos r.1) λ a.
        option_case (escribir_marco q (a + desplazamiento) (take cuanto datos) r.1) none
          (copiar_en_mapa primera ultima offset paginas n (suc k) (drop cuanto datos))

module _ (string_equals_ignore_case : String → String → Bool) (leido_de : String → ℕ → ℕ → ℕ) where
  -- The segment of a direction and the direction in it; the answer is -1 where there is none.
  abbrev pub con_segmento :
      String → ℕ → Muse → (Segmento → ℕ → Option (Respuesta × Muse)) → Option (Respuesta × Muse)
  con_segmento id direccion s f =
      option_case (obtener_lista_segmentos_por_id string_equals_ignore_case id s)
        (some (menos_uno, s))
        λ segmentos.
          option_case (obtener_segmento_por_direccion segmentos direccion) (some (menos_uno, s))
            λ i.
              option_case (get_elem? segmentos i) none (λ seg. f seg (direccion - seg.base_logica))

  -- The pages of a mapping are loaded first.
  unfoldable pub cargar_mapa : Segmento → ℕ → ℕ → Muse → Option Muse
  cargar_mapa seg direccion n s =
      if seg.es_mmap then paginas_map_en_memoria leido_de direccion n seg s else some s

  unfoldable pub muse_get : String → ℕ → ℕ → Muse → Option (Respuesta × Muse)
  muse_get id src n s = con_segmento id src s λ seg direccion.
      let t = s.tamanio_pagina in
      let inicial = direccion / t in
      if leb n (seg.tamanio - direccion)
      then option_case (cargar_mapa seg direccion n s) none (λ s1.
        option_case (leer_paginas seg.paginas (techo (direccion + n) t - inicial) inicial s1) none
          (λ r. some (leido (take n (drop (direccion % t) r.0)), r.1)))
      else some (cero, s)

  unfoldable pub muse_cpy : String → ℕ → List ℕ → Muse → Option (Respuesta × Muse)
  muse_cpy id dst datos s = con_segmento id dst s λ seg direccion.
      let t = s.tamanio_pagina in
      let n = length datos in
      let inicial = direccion / t in
      let final = (direccion + n) / t in
      if not seg.es_mmap
      then option_case (find (es_destino direccion) seg.status_metadata) (some (menos_uno, s))
          (λ h. option_case (copiar_en_heap seg direccion datos s) none (λ s1. some (cero, s1)))
      else option_case (paginas_map_en_memoria leido_de direccion n seg s) none (λ s1.
        if ltb seg.tamanio (direccion + n)
        then some (menos_uno, s1)
        else option_case
            (copiar_en_mapa inicial final (direccion % t) seg.paginas (suc final - inicial) inicial
              datos s1)
            none (λ s2. some (cero, s2)))
