-- ===== src/Muse/Cierre.antt =====
-- muse/src/utils.c, lines 18 to 30, 149 to 194 and 510 to 524, and muse/src/muse.c, lines 864 to
-- 879 and 1053 to 1067: the mappings, and what goes away when a segment is unmapped or a program is
-- closed. `string_equals_ignore_case` of commons/string.h is a parameter.
use tp_2019_2c_vendo_fiat.Muse.Segmentos.{
  obtener_lista_segmentos_por_id, buscar_programa, obtener_segmento_por_direccion, u32_mod,
}
use tp_2019_2c_vendo_fiat.Muse.Paginacion.{destruir_pagina}
use tp_2019_2c_vendo_fiat.Muse.Acceso.{Respuesta, cero, menos_uno}
use Prim.Native.String.{String}
use tp_2019_2c_vendo_fiat.Muse.State.{Segmento, Muse, Mapeo, Programa}
use tp_2019_2c_vendo_fiat.Base.{
  List, Bool, ℕ, Option, if◌then◌else◌, remove_first, ◌∷◌, [], none, not, option_case, some, ◌&&◌,
  ◌==◌, false, find, find_index, ◌+◌, get_elem?, ◌%◌, ◌-◌, set,
}

unfoldable pub destruir_paginas : List ℕ → Muse → Muse
destruir_paginas [] s = s
destruir_paginas (q ∷ qs) s = destruir_paginas qs (destruir_pagina q s)

-- The pages of a mapping stay.
unfoldable pub destruir_segmento : Segmento → Muse → Muse
destruir_segmento seg s = if not seg.es_mmap then destruir_paginas seg.paginas s else s

unfoldable pub destruir_segmentos : List Segmento → Muse → Muse
destruir_segmentos [] s = s
destruir_segmentos (seg ∷ segs) s = destruir_segmentos segs (destruir_segmento seg s)

unfoldable pub es_segmento : Segmento → Segmento → Bool
es_segmento buscado seg = if seg.es_mmap then seg.base_logica == buscado.base_logica else false

module _ (string_equals_ignore_case : String → String → Bool) where
  unfoldable pub es_mapeo : String → ℕ → Mapeo → Bool
  es_mapeo path tamanio m = string_equals_ignore_case m.path path && m.tamanio == tamanio

  -- Every mapping that fits is counted, and the pages are those of the last one.
  unfoldable pub contar_mapeos :
      String → ℕ → List Mapeo → Option (List ℕ) → Option (List ℕ) × List Mapeo
  contar_mapeos path tamanio [] paginas = (paginas, [])
  contar_mapeos path tamanio (m ∷ ms) paginas =
      let hay = es_mapeo path tamanio m in
      let rest = contar_mapeos path tamanio ms (if hay then some m.paginas else paginas) in
      (rest.0, (if hay then record m { contador = (m.contador + 1) % u32_mod } else m) ∷ rest.1)

  unfoldable pub obtener_mapeo_existente : String → ℕ → Muse → Option (List ℕ) × Muse
  obtener_mapeo_existente path tamanio s =
      let r = contar_mapeos path tamanio s.lista_mapeos none in
      (r.0, record s { lista_mapeos = r.1 })

  -- `unmapear` on the mapping in place `i`, where nothing maps it any more.
  unfoldable pub soltar_mapeo : ℕ → Mapeo → Segmento → Muse → Muse
  soltar_mapeo i m seg s =
      if m.contador == 0
      then destruir_paginas m.paginas (record s {
        lista_mapeos =
            remove_first (λ x. string_equals_ignore_case x.path seg.path_mapeo) s.lista_mapeos;
      })
      else s

  unfoldable pub unmapear : Segmento → String → Muse → Option Muse
  unmapear seg id s =
      option_case (find_index (λ x. string_equals_ignore_case x.path seg.path_mapeo) s.lista_mapeos)
        (some s)
        λ i. option_case (get_elem? s.lista_mapeos i) none λ viejo.
          option_case (buscar_programa string_equals_ignore_case id s) none λ j.
            option_case (get_elem? s.lista_programas j) none λ prog.
              let m = record viejo { contador = (viejo.contador + u32_mod - 1) % u32_mod } in
              some (
                soltar_mapeo i m seg (record s {
                  lista_mapeos = set s.lista_mapeos i m;
                  lista_programas =
                      set s.lista_programas j
                        (record prog { segmentos = remove_first (es_segmento seg) prog.segmentos });
                }))

  unfoldable pub muse_unmap : String → ℕ → Muse → Option (Respuesta × Muse)
  muse_unmap id dir s =
      option_case (obtener_lista_segmentos_por_id string_equals_ignore_case id s)
        (some (menos_uno, s))
        λ segmentos.
          option_case (obtener_segmento_por_direccion segmentos dir) (some (menos_uno, s)) λ i.
            option_case (get_elem? segmentos i) none λ seg.
              if seg.es_mmap
              then option_case (unmapear seg id s) none (λ t. some (cero, t))
              else some (menos_uno, s)

  abbrev pub sin_programa : String → Muse → Muse
  sin_programa id s = record s {
    lista_programas = remove_first (λ p. string_equals_ignore_case p.id id) s.lista_programas;
  }

  -- The program is taken out of the list before it is destroyed; then the list is searched again
  -- for its name.
  unfoldable pub destruir_programa : Programa → Muse → Muse
  destruir_programa prog s = sin_programa prog.id (destruir_segmentos prog.segmentos s)

  unfoldable pub muse_close : String → Muse → Respuesta × Muse
  muse_close id s = (
    cero,
    option_case (find (λ p. string_equals_ignore_case p.id id) s.lista_programas) s
        (λ prog. destruir_programa prog (sin_programa id s)),
  )
