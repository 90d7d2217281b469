-- ===== src/Muse/Mapa.antt =====
-- muse/src/muse.c, lines 753 to 862: `muse_map` and `muse_sync`. `none` is a fault. A direction
-- that is answered is an int, below 2^31.
use tp_2019_2c_vendo_fiat.Muse.Acceso.{bytes_desde}
use tp_2019_2c_vendo_fiat.Muse.Paginacion.{obtener_puntero_a_marco}
use tp_2019_2c_vendo_fiat.Muse.Cierre.{obtener_mapeo_existente}
use tp_2019_2c_vendo_fiat.Muse.Segmentos.{
  obtener_base_logica_nuevo_segmento, techo, obtener_lista_segmentos_por_id, paginas_map_en_memoria,
  buscar_programa, obtener_segmento_por_direccion,
}
use tp_2019_2c_vendo_fiat.Muse.Metadata.{set_segmentos}
use tp_2019_2c_vendo_fiat.Muse.State.{Muse, Segmento, Mapeo, Pagina, set_pagina}
use tp_2019_2c_vendo_fiat.Base.{
  Bool, List, ℕ, ◌∷◌, Option, [], length, replicate, if◌then◌else◌, option_case, some, suc, true,
  ◌*◌, ◌++◌, ◌/◌, get_elem?, ◌-◌, ◌==◌, false, leb, none, ◌+◌, zero,
}
use tp_2019_2c_vendo_fiat.Base.Int.{ℤ, pos, negsuc}
use Prim.Native.String.{String}

-- MAP_PRIVATE of sys/mman.h
abbrev pub map_private : ℕ
map_private = 2

-- Pages that were never loaded, from the number `i` on.
unfoldable pub crear_paginas_mapa : ℕ → ℕ → Muse → List ℕ × Muse
crear_paginas_mapa zero i s = ([], s)
crear_paginas_mapa (suc n) i s =
    let q = s.next_pagina in
    let nueva : Pagina = record {
      num_pagina = i;
      presencia = false;
      bit_marco = none;
      bit_swap = none;
    } in
    let rest =
      crear_paginas_mapa n (suc i) (set_pagina q nueva (record s { next_pagina = suc q })) in
    (q ∷ rest.0, rest.1)

-- The segment of a mapping, at the end of the list.
abbrev pub segmento_mapa : ℕ → List Segmento → String → ℕ → Bool → List ℕ → Segmento
segmento_mapa t segs path tamanio compartido paginas = record {
  num_segmento = length segs;
  base_logica = obtener_base_logica_nuevo_segmento t segs;
  tamanio = techo tamanio t * t;
  paginas = paginas;
  status_metadata = [];
  es_mmap = true;
  compartido = compartido;
  path_mapeo = path;
  tamanio_mapeo = tamanio;
}

abbrev pub agregar_segmento : ℕ → List Segmento → Segmento → Muse → Muse
agregar_segmento i segs seg s = set_segmentos i (segs ++ (seg ∷ [])) s

-- A mapping from nothing; it is one that others can share, whatever the flag.
unfoldable pub mapear_nuevo : ℕ → List Segmento → String → ℕ → Bool → Muse → ℤ × Muse
mapear_nuevo i segs path tamanio compartido s =
    let t = s.tamanio_pagina in
    let r = crear_paginas_mapa (techo tamanio t) 0 s in
    let mapeo : Mapeo = record { path = path; contador = 1; paginas = r.0; tamanio = tamanio } in
    let s1 = agregar_segmento i segs (segmento_mapa t segs path tamanio compartido r.0) r.1 in
    (
      pos (obtener_base_logica_nuevo_segmento t segs),
      record s1 { lista_mapeos = s1.lista_mapeos ++ (mapeo ∷ []) },
    )

-- The pages of a mapping that is there already.
unfoldable pub mapear_compartido : ℕ → List Segmento → String → ℕ → List ℕ → Muse → ℤ × Muse
mapear_compartido i segs path tamanio paginas s =
    let t = s.tamanio_pagina in
    (
      pos (obtener_base_logica_nuevo_segmento t segs),
      agregar_segmento i segs (segmento_mapa t segs path tamanio true paginas) s,
    )

module _ (string_equals_ignore_case : String → String → Bool) where
  unfoldable pub mapear : ℕ → List Segmento → String → ℕ → ℕ → Muse → ℤ × Muse
  mapear i segs path tamanio flag s =
      let r = obtener_mapeo_existente string_equals_ignore_case path tamanio s in
      if flag == map_private
      then mapear_nuevo i segs path tamanio false s
      else option_case r.0 (mapear_nuevo i segs path tamanio true r.1)
          (λ paginas. mapear_compartido i segs path tamanio paginas r.1)

  -- The space is taken before the program is looked for.
  unfoldable pub muse_map : String → String → ℕ → ℕ → Muse → Option (ℤ × Muse)
  muse_map id path tamanio flag s =
      let bytes = techo tamanio s.tamanio_pagina * s.tamanio_pagina in
      let s1 = record s { espacio_disponible = s.espacio_disponible - bytes } in
      if leb bytes s.espacio_disponible
      then option_case (buscar_programa string_equals_ignore_case id s1) (some (negsuc 0, s1)) (λ i.
        option_case (get_elem? s1.lista_programas i) none
          (λ prog. some (mapear i prog.segmentos path tamanio flag s1)))
      else some (negsuc 0, s)

-- The bytes of `n` whole pages, from the place `k` on.
unfoldable pub copiar_marcos : List ℕ → ℕ → ℕ → Muse → Option (List ℕ × Muse)
copiar_marcos paginas zero k s = some ([], s)
copiar_marcos paginas (suc n) k s = option_case (get_elem? paginas k) none λ q.
    option_case (obtener_puntero_a_marco q s) none λ r. option_case r.0 none λ a.
      option_case (copiar_marcos paginas n (suc k) r.1) none
        (λ rest. some (bytes_desde r.1.memoria a r.1.tamanio_pagina ++ rest.0, rest.1))

-- What a file holds after "wb+", which empties it, a seek, and a write of `bytes`.
unfoldable pub contenido_nuevo : ℕ → List ℕ → List ℕ
contenido_nuevo offset [] = []
contenido_nuevo offset (b ∷ bytes) = replicate offset 0 ++ (b ∷ bytes)

module _ (string_equals_ignore_case : String → String → Bool) (leido_de : String → ℕ → ℕ → ℕ)
    (se_abre : String → Bool) where
  -- On a mapping: the answer, and the file with what it is left with, if it was opened.
  unfoldable pub sincronizar :
      Segmento → ℕ → ℕ → Muse → Option (ℤ × Option (String × List ℕ) × Muse)
  sincronizar seg direccion n s =
      let t = s.tamanio_pagina in
      let primera = direccion / t in
      option_case (paginas_map_en_memoria leido_de direccion n seg s) none λ s1.
        option_case (copiar_marcos seg.paginas (techo (direccion + n) t - primera) primera s1) none
          λ r. some (
            if se_abre seg.path_mapeo
            then (pos 0, some (seg.path_mapeo, contenido_nuevo (primera * t) r.0), r.1)
            else (negsuc 0, none, r.1))

  unfoldable pub muse_sync : String → ℕ → ℕ → Muse → Option (ℤ × Option (String × List ℕ) × Muse)
  muse_sync id addr n s =
      option_case (obtener_lista_segmentos_por_id string_equals_ignore_case id s)
        (some (negsuc 0, none, s))
        λ segmentos.
          option_case (obtener_segmento_por_direccion segmentos addr) (some (negsuc 0, none, s))
            λ i. option_case (get_elem? segmentos i) none λ seg.
              if seg.es_mmap
              then sincronizar seg (addr - seg.base_logica) n s
              else some (negsuc 0, none, s)
