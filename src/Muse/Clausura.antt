-- ===== src/Muse/Clausura.antt =====
-- The pages, the segments and the program that `muse_close` destroys.
use tp_2019_2c_vendo_fiat.Muse.Acceso.{cero}
use tp_2019_2c_vendo_fiat.Muse.Liberacion.{
  Libre, Conserva, Conserva-refl, Conserva-trans, Libre-mono, lugar_libre, marco_libre,
  option_case_mono, liberar_marco-libre, liberar_swap-libre,
}
use tp_2019_2c_vendo_fiat.Muse.State.{Segmento, Muse, Programa}
use Prim.Native.String.{String}
use tp_2019_2c_vendo_fiat.Muse.Cierre.{
  destruir_paginas, destruir_segmento, destruir_segmentos, muse_close, destruir_programa,
  sin_programa,
}
use tp_2019_2c_vendo_fiat.Muse.Paginacion.{destruir_pagina, liberar_marco, liberar_swap}
use tp_2019_2c_vendo_fiat.Base.{
  List, Option, Bool, ℕ, ◌∷◌, All, if◌then◌else◌, option_case, ◌≡◌, find, not, [], some, ◌++◌,
  All-mono, refl, subst, true, All-append, false, none,
}

soltar_marco :
    (o : Option ℕ) (s : Muse)
    → let t = option_case o s (λ m. liberar_marco m s) in
      Conserva s t × (option_case o true (λ m. marco_libre m t) ≡ true)
soltar_marco none s = (Conserva-refl s, refl)
soltar_marco (some m) s = liberar_marco-libre m s

soltar_lugar :
    (o : Option ℕ) (s : Muse)
    → let t = option_case o s (λ b. liberar_swap b s) in
      Conserva s t × (option_case o true (λ b. lugar_libre b t) ≡ true)
soltar_lugar none s = (Conserva-refl s, refl)
soltar_lugar (some b) s = liberar_swap-libre b s

destruir_pagina-Libre :
    (q : ℕ) (s : Muse)
    → Conserva s (destruir_pagina q s) × Libre (s.paginas q) (destruir_pagina q s)
unfolding destruir_pagina
destruir_pagina-Libre q s =
    let p = s.paginas q in
    let s1 = option_case p.bit_marco s (λ m. liberar_marco m s) in
    let (c1, m1) = soltar_marco p.bit_marco s in
    let (c2, l2) = soltar_lugar p.bit_swap s1 in
    (
      Conserva-trans s s1 _ c1 c2,
      record { marco = option_case_mono p.bit_marco _ _ c2.marcos m1; lugar = l2 },
    )

-- All the pages `qs` of `s` are free in `t`.
abbrev pub LibresTodas : List ℕ → Muse → Muse → Type 0
LibresTodas qs s t = All (λ q. Libre (s.paginas q) t) qs

LibresTodas-desde :
    (qs : List ℕ) (s s1 t : Muse) → Conserva s s1 → LibresTodas qs s1 t → LibresTodas qs s t
LibresTodas-desde qs s s1 t c h = subst (λ f. All (λ q. Libre (f q) t) qs) c.paginas h

LibresTodas-hasta :
    (qs : List ℕ) (s t u : Muse) → Conserva t u → LibresTodas qs s t → LibresTodas qs s u
LibresTodas-hasta qs s t u c h = All-mono _ _ qs (λ q l. Libre-mono (s.paginas q) t u c l) h

destruir_paginas-LibresTodas :
    (qs : List ℕ) (s : Muse)
    → Conserva s (destruir_paginas qs s) × LibresTodas qs s (destruir_paginas qs s)
unfolding destruir_paginas
destruir_paginas-LibresTodas [] s = (Conserva-refl s, tt)
destruir_paginas-LibresTodas (q ∷ qs) s =
    let s1 = destruir_pagina q s in
    let (c1, l1) = destruir_pagina-Libre q s in
    let (c2, ls) = destruir_paginas-LibresTodas qs s1 in
    (
      Conserva-trans s s1 _ c1 c2,
      (Libre-mono (s.paginas q) s1 _ c2 l1, LibresTodas-desde qs s s1 _ c1 ls),
    )

-- The pages of the segments that are not mappings.
abbrev pub paginas_propias : List Segmento → List ℕ
paginas_propias [] = []
paginas_propias (seg ∷ segs) = (if not seg.es_mmap then seg.paginas else []) ++ paginas_propias segs

destruir_segmento-LibresTodas :
    (seg : Segmento) (s : Muse)
    → Conserva s (destruir_segmento seg s)
      × LibresTodas (if not seg.es_mmap then seg.paginas else []) s (destruir_segmento seg s)
unfolding destruir_segmento
destruir_segmento-LibresTodas seg s = por_caso (not seg.es_mmap)
  where
    por_caso :
        (b : Bool)
        → Conserva s (if b then destruir_paginas seg.paginas s else s)
          × LibresTodas
              (if b then seg.paginas else [])
              s
              (if b then destruir_paginas seg.paginas s else s)
    por_caso true = destruir_paginas-LibresTodas seg.paginas s
    por_caso false = (Conserva-refl s, tt)

destruir_segmentos-LibresTodas :
    (segs : List Segmento) (s : Muse)
    → Conserva s (destruir_segmentos segs s)
      × LibresTodas (paginas_propias segs) s (destruir_segmentos segs s)
unfolding destruir_segmentos
destruir_segmentos-LibresTodas [] s = (Conserva-refl s, tt)
destruir_segmentos-LibresTodas (seg ∷ segs) s =
    let s1 = destruir_segmento seg s in
    let qs = if not seg.es_mmap then seg.paginas else [] in
    let (c1, l1) = destruir_segmento-LibresTodas seg s in
    let (c2, l2) = destruir_segmentos-LibresTodas segs s1 in
    let t = destruir_segmentos segs s1 in
    (
      Conserva-trans s s1 t c1 c2,
      All-append _ qs (paginas_propias segs) (LibresTodas-hasta qs s s1 t c2 l1)
          (LibresTodas-desde (paginas_propias segs) s s1 t c1 l2),
    )

module _ (string_equals_ignore_case : String → String → Bool) where
  -- What is left of a program that was closed.
  pub record Cerrado (prog : Programa) (s t : Muse) : Type 0 where
    pub libres : LibresTodas (paginas_propias prog.segmentos) s t
    pub espacio : t.espacio_disponible ≡ s.espacio_disponible

  -- `muse_close` of a program that is found answers 0 and frees the frame and the place in the swap
  -- area of every page of its segments that are not mappings, and the count of the available space
  -- stays as it was.
  pub muse_close-Cerrado :
      (id : String) (s : Muse) (prog : Programa)
      → find (λ p. string_equals_ignore_case p.id id) s.lista_programas ≡ some prog
      → ((muse_close string_equals_ignore_case id s).0 ≡ cero)
        × Cerrado prog s (muse_close string_equals_ignore_case id s).1
  unfolding muse_close destruir_programa
  muse_close-Cerrado id s prog e =
      let s1 = sin_programa string_equals_ignore_case id s in
      let (c, l) = destruir_segmentos-LibresTodas prog.segmentos s1 in
      (
        refl,
        rw e (record {
          libres =
              All-mono _ _ (paginas_propias prog.segmentos)
                (λ q h. record { marco = h.marco; lugar = h.lugar }) l;
          espacio = c.espacio;
        }),
      )
