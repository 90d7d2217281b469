-- ===== src/Muse/Mapeos.antt =====
-- What `muse_map` finds: the mappings that fit, and the segment of a direction.
use tp_2019_2c_vendo_fiat.Muse.Segmentos.{buscar_segmento, u32_mod}
use tp_2019_2c_vendo_fiat.Muse.Cierre.{contar_mapeos, es_mapeo}
use tp_2019_2c_vendo_fiat.Base.{
  ℕ, Bool, suc, ◌≡◌, List, zero, refl, Option, get_elem?, some, true, ◌∷◌, Bool-cases, ◌++◌, [],
  ◌&&◌, get_elem?-set_self, ◌==◌, inl, lt-of_get_elem?, inr, All, ◌+◌, ◌<◌, ◌≤◌, false, lt→ltb,
  All-mono, arith, ltb, ◌-◌, ◌%◌,
}
use tp_2019_2c_vendo_fiat.Muse.Mapa.{crear_paginas_mapa, agregar_segmento}
use tp_2019_2c_vendo_fiat.Muse.State.{Muse, Programa, Mapeo, Segmento}
use Prim.Native.String.{String}

-- The last mapping that fits is the one that is found, and counting the mappings does not change
-- which.
module _ (string_equals_ignore_case : String → String → Bool) where
  pub contar_mapeos-append :
      (path : String) (tamanio : ℕ) (ms : List Mapeo) (m : Mapeo) (o : Option (List ℕ))
      → es_mapeo string_equals_ignore_case path tamanio m ≡ true
      → (contar_mapeos string_equals_ignore_case path tamanio (ms ++ (m ∷ [])) o).0 ≡ some m.paginas
  unfolding contar_mapeos
  contar_mapeos-append path tamanio [] m o e = rw e refl
  contar_mapeos-append path tamanio (x ∷ ms) m o e = contar_mapeos-append path tamanio ms m _ e

  pub contar_mapeos_twice :
      (path : String) (tamanio : ℕ) (ms : List Mapeo) (o o' : Option (List ℕ))
      → let una = contar_mapeos string_equals_ignore_case path tamanio ms o in
        (contar_mapeos string_equals_ignore_case path tamanio una.1 o').0
        ≡ (contar_mapeos string_equals_ignore_case path tamanio ms o').0
  unfolding contar_mapeos es_mapeo
  contar_mapeos_twice path tamanio [] o o' = refl
  contar_mapeos_twice path tamanio (m ∷ ms) o o' =
      elim (Bool-cases (string_equals_ignore_case m.path path && m.tamanio == tamanio)) [
        | inl si ↦ rw (si, si) (contar_mapeos_twice path tamanio ms _ _)
        | inr falta ↦ rw (falta, falta) (contar_mapeos_twice path tamanio ms _ _)
      ]

-- The programs, the mappings and the available space of the state are as they were.
abbrev Listas : Muse → Muse → Type 0
Listas s t =
    (t.lista_programas ≡ s.lista_programas)
    × (t.lista_mapeos ≡ s.lista_mapeos)
    × (t.espacio_disponible ≡ s.espacio_disponible)

pub crear_paginas_mapa-Listas : (n i : ℕ) (s : Muse) → Listas s (crear_paginas_mapa n i s).1
unfolding crear_paginas_mapa
crear_paginas_mapa-Listas zero i s = (refl, refl, refl)
crear_paginas_mapa-Listas (suc n) i s = crear_paginas_mapa-Listas n (suc i) _

pub agregar_segmento-get :
    (i : ℕ) (prog : Programa) (segs : List Segmento) (seg : Segmento) (s : Muse)
    → get_elem? s.lista_programas i ≡ some prog
    → (get_elem? (agregar_segmento i segs seg s).lista_programas i
        ≡ some (record prog { segmentos = segs ++ (seg ∷ []) }))
      × ((agregar_segmento i segs seg s).lista_mapeos ≡ s.lista_mapeos)
      × ((agregar_segmento i segs seg s).espacio_disponible ≡ s.espacio_disponible)
agregar_segmento-get i prog segs seg s e = rw e (
  get_elem?-set_self s.lista_programas i _ (lt-of_get_elem? s.lista_programas i prog e),
  refl,
  refl,
)

lejos : (a n : ℕ) → n ≤ a → ltb a n ≡ false
lejos a n h = ground arith

-- A direction past the end of a segment is not in it.
pub buscar_segmento-past :
    (b k n : ℕ) (segs : List Segmento)
    → k < n
    → b + n < u32_mod
    → All (λ x. x.base_logica + x.tamanio ≤ b) segs
    → All (λ x. buscar_segmento (b + k) x ≡ false) segs
unfolding buscar_segmento
buscar_segmento-past b k n segs l c h =
    All-mono (λ x. x.base_logica + x.tamanio ≤ b) (λ x. buscar_segmento (b + k) x ≡ false) segs
      (λ x e. lejos ((b + k + u32_mod - x.base_logica) % u32_mod) x.tamanio (omega (arith, e))) h

pub buscar_segmento-inside :
    (k n : ℕ) (seg : Segmento)
    → k < n
    → seg.base_logica + n < u32_mod
    → seg.tamanio ≡ n
    → buscar_segmento (seg.base_logica + k) seg ≡ true
unfolding buscar_segmento
buscar_segmento-inside k n seg l c e = lt→ltb _ _ (omega (arith, e))
