-- ===== src/Muse/Mapeadas.antt =====
-- What `muse_map` leaves: the segment at the end of the list, and the mapping that others find.
-- `string_equals_ignore_case` of commons/string.h is a parameter.
use tp_2019_2c_vendo_fiat.Base.Int.{ℤ}
use tp_2019_2c_vendo_fiat.Muse.Segmentos.{
  obtener_segmento_por_direccion, obtener_base_logica_nuevo_segmento, techo, u32_mod,
  buscar_programa,
}
use tp_2019_2c_vendo_fiat.Muse.Cierre.{es_mapeo, obtener_mapeo_existente}
use tp_2019_2c_vendo_fiat.Base.{
  ℕ, Bool, ◌≡◌, List, refl, get_elem?, some, true, ◌∷◌, ◌++◌, [], ◌==◌, All, ◌+◌, ◌<◌, ◌≤◌, false,
  ◌*◌, arith, length, find_index-append, ◌-◌, none, if_elim, option_elim, leb, ◌∙◌,
}
use tp_2019_2c_vendo_fiat.Muse.Mapa.{
  crear_paginas_mapa, mapear_compartido, mapear_nuevo, segmento_mapa, mapear, muse_map, map_private,
}
use tp_2019_2c_vendo_fiat.Muse.State.{Muse, Programa, Mapeo, Segmento}
use tp_2019_2c_vendo_fiat.Base.Int.{ℤ, pos}
use Prim.Native.String.{String}
use tp_2019_2c_vendo_fiat.Muse.Mapeos.{
  contar_mapeos-append, contar_mapeos_twice, crear_paginas_mapa-Listas, agregar_segmento-get,
  buscar_segmento-past, buscar_segmento-inside,
}

-- What is left where a file was mapped by the program in place `i`.
pub record Mapeada (string_equals_ignore_case : String → String → Bool) (i t disponible : ℕ)
    (prog : Programa) (path : String) (tamanio : ℕ) (r : ℤ × Muse) : Type 0 where
  pub seg : Segmento
  pub responde : r.0 ≡ pos seg.base_logica
  pub espacio : r.1.espacio_disponible ≡ disponible
  pub agregado :
      get_elem? r.1.lista_programas i
      ≡ some (record prog { segmentos = prog.segmentos ++ (seg ∷ []) })
  pub es_mapa : seg.es_mmap ≡ true
  pub hallado :
      (k : ℕ)
      → k < techo tamanio t * t
      → obtener_segmento_por_direccion (prog.segmentos ++ (seg ∷ [])) (seg.base_logica + k)
        ≡ some (length prog.segmentos)
  pub otros :
      (obtener_mapeo_existente string_equals_ignore_case path tamanio r.1).0 ≡ some seg.paginas

-- The next free direction is past every segment, and the mapping fits.
pub record Entra (t tamanio : ℕ) (segs : List Segmento) : Type 0 where
  pub detras : All (λ x. x.base_logica + x.tamanio ≤ obtener_base_logica_nuevo_segmento t segs) segs
  pub entra : obtener_base_logica_nuevo_segmento t segs + techo tamanio t * t < u32_mod

segmento_mapa-hallado :
    (t tamanio : ℕ) (segs : List Segmento) (seg : Segmento)
    → Entra t tamanio segs
    → seg.base_logica ≡ obtener_base_logica_nuevo_segmento t segs
    → seg.tamanio ≡ techo tamanio t * t
    → (k : ℕ) → k < techo tamanio t * t
    → obtener_segmento_por_direccion (segs ++ (seg ∷ [])) (seg.base_logica + k) ≡ some (length segs)
unfolding obtener_segmento_por_direccion
segmento_mapa-hallado t tamanio segs seg h b e k l =
    find_index-append _ segs seg
      (rw b (buscar_segmento-past _ k (techo tamanio t * t) segs l h.entra h.detras))
      (buscar_segmento-inside k (techo tamanio t * t) seg l (rw b h.entra) e)

module _ (string_equals_ignore_case : String → String → Bool) where
  es_mapeo_self :
      (path : String) (m : Mapeo)
      → string_equals_ignore_case m.path path ≡ true
      → es_mapeo string_equals_ignore_case path m.tamanio m ≡ true
  unfolding es_mapeo
  es_mapeo_self path m h = let n = m.tamanio in rw h (ground arith)

  mapear_nuevo-Mapeada :
      (i : ℕ) (prog : Programa) (path : String) (tamanio : ℕ) (compartido : Bool) (s : Muse)
      → string_equals_ignore_case path path ≡ true
      → get_elem? s.lista_programas i ≡ some prog
      → Entra s.tamanio_pagina tamanio prog.segmentos
      → Mapeada string_equals_ignore_case i s.tamanio_pagina s.espacio_disponible prog path tamanio
          (mapear_nuevo i prog.segmentos path tamanio compartido s)
  unfolding mapear_nuevo obtener_mapeo_existente
  mapear_nuevo-Mapeada i prog path tamanio compartido s refleja e h =
      let t = s.tamanio_pagina in
      let segs = prog.segmentos in
      let r = crear_paginas_mapa (techo tamanio t) 0 s in
      let (programas, mapeos, espacio) = crear_paginas_mapa-Listas (techo tamanio t) 0 s in
      let seg = segmento_mapa t segs path tamanio compartido r.0 in
      let g = agregar_segmento-get i prog segs seg r.1 (rw programas e) in
      record {
        seg = seg;
        responde = refl;
        espacio = g.2 ∙ espacio;
        agregado = g.0;
        es_mapa = refl;
        hallado = segmento_mapa-hallado t tamanio segs seg h refl refl;
        otros =
            contar_mapeos-append string_equals_ignore_case path tamanio _ _ none
              (es_mapeo_self path _ refleja);
      }

  mapear_compartido-Mapeada :
      (i : ℕ) (prog : Programa) (path : String) (tamanio : ℕ) (paginas : List ℕ) (s : Muse)
      → get_elem? s.lista_programas i ≡ some prog
      → Entra s.tamanio_pagina tamanio prog.segmentos
      → (obtener_mapeo_existente string_equals_ignore_case path tamanio s).0 ≡ some paginas
      → Mapeada string_equals_ignore_case i s.tamanio_pagina s.espacio_disponible prog path tamanio
          (mapear_compartido i prog.segmentos path tamanio paginas s)
  unfolding mapear_compartido obtener_mapeo_existente
  mapear_compartido-Mapeada i prog path tamanio paginas s e h o =
      let t = s.tamanio_pagina in
      let segs = prog.segmentos in
      let seg = segmento_mapa t segs path tamanio true paginas in
      let g = agregar_segmento-get i prog segs seg s e in
      record {
        seg = seg;
        responde = refl;
        espacio = g.2;
        agregado = g.0;
        es_mapa = refl;
        hallado = segmento_mapa-hallado t tamanio segs seg h refl refl;
        otros = rw (g.1) o;
      }

  mapear-Mapeada :
      (i : ℕ) (prog : Programa) (path : String) (tamanio flag : ℕ) (s : Muse)
      → string_equals_ignore_case path path ≡ true
      → get_elem? s.lista_programas i ≡ some prog
      → Entra s.tamanio_pagina tamanio prog.segmentos
      → Mapeada string_equals_ignore_case i s.tamanio_pagina s.espacio_disponible prog path tamanio
          (mapear string_equals_ignore_case i prog.segmentos path tamanio flag s)
  unfolding mapear obtener_mapeo_existente
  mapear-Mapeada i prog path tamanio flag s refleja e h =
      let M =
        Mapeada string_equals_ignore_case i s.tamanio_pagina s.espacio_disponible prog path
          tamanio in
      if_elim M (flag == map_private) _ _
        (λ _. mapear_nuevo-Mapeada i prog path tamanio false s refleja e h)
        λ _.
          option_elim M (obtener_mapeo_existente string_equals_ignore_case path tamanio s).0 _ _
            (λ _. mapear_nuevo-Mapeada i prog path tamanio true _ refleja e h)
            (λ paginas o. mapear_compartido-Mapeada i prog path tamanio paginas _ e h (
              contar_mapeos_twice string_equals_ignore_case path tamanio s.lista_mapeos none none
              ∙ o))

  -- Where the path is equal to itself, the available space is enough for the pages, the program is
  -- there, the next direction is past all its segments and the mapping ends below 2^32, `muse_map`
  -- answers the direction of a new segment, a mapping, at the end of the program's list, and the
  -- available space is less by the pages; every direction of that many whole pages from there on is
  -- found in that segment; and the pages that another program finds for the same path and size are
  -- those of the segment.
  pub muse_map-Mapeada :
      (id path : String) (i tamanio flag : ℕ) (prog : Programa) (s : Muse)
      → string_equals_ignore_case path path ≡ true
      → buscar_programa string_equals_ignore_case id s ≡ some i
      → get_elem? s.lista_programas i ≡ some prog
      → Entra s.tamanio_pagina tamanio prog.segmentos
      → techo tamanio s.tamanio_pagina * s.tamanio_pagina ≤ s.espacio_disponible
      → (r : ℤ × Muse) × (muse_map string_equals_ignore_case id path tamanio flag s ≡ some r)
        × Mapeada string_equals_ignore_case i s.tamanio_pagina
            (s.espacio_disponible - techo tamanio s.tamanio_pagina * s.tamanio_pagina)
            prog
            path
            tamanio
            r
  unfolding muse_map buscar_programa
  muse_map-Mapeada id path i tamanio flag prog s refleja b e h c =
      let bytes = techo tamanio s.tamanio_pagina * s.tamanio_pagina in
      let hay : leb bytes s.espacio_disponible ≡ true = ground arith in
      (
        _,
        rw (hay, b, e) refl,
        mapear-Mapeada i prog path tamanio flag
            (record s { espacio_disponible = s.espacio_disponible - bytes }) refleja e h,
      )
