-- ===== src/Muse/Retorno.antt =====
-- A page that was swapped out comes back with its bytes.
use tp_2019_2c_vendo_fiat.Muse.Intercambio.{
  Desalojada, memcpy_in, DesalojadaO, desalojar_pagina-Desalojada,
}
use tp_2019_2c_vendo_fiat.Muse.Clock.{buscar_bit_libre_memoria, buscar_victima}
use tp_2019_2c_vendo_fiat.Base.{
  ℕ, Option, option_elim, some, ◌≡◌, false, none, true, arith, ◌<◌, refl, ◌+◌, ◌*◌, option_case, ap,
  ◌∙◌, subst,
}
use tp_2019_2c_vendo_fiat.Muse.Paginacion.{
  asignar_marco_nuevo, desalojar_victima, obtener_puntero_a_marco, asegurar_presencia,
  desalojar_pagina, ejecutar_clock_modificado, dejar_marco, traer_de_swap, pasar_a_swap,
  copiar_a_swap, buscar_pagina_segun_bit, pos_swap, marcar_uso, poner_en_marco, pos_marco,
  puntero_de,
}
use tp_2019_2c_vendo_fiat.Muse.State.{Muse, set_pagina}

abbrev MismoTamanio : Muse → Option (ℕ × Muse) → Type 0
MismoTamanio s none = Unit {0}
MismoTamanio s (some r) = r.1.tamanio_pagina ≡ s.tamanio_pagina

desalojar_victima-tamanio :
    (m : ℕ) (o : Option ℕ) (s : Muse) → MismoTamanio s (desalojar_victima m o s)
unfolding desalojar_victima desalojar_pagina dejar_marco pasar_a_swap copiar_a_swap
desalojar_victima-tamanio m none s = refl
desalojar_victima-tamanio m (some q) s = ground arith

asignar_marco_nuevo-tamanio : (s : Muse) → MismoTamanio s (asignar_marco_nuevo s)
unfolding asignar_marco_nuevo ejecutar_clock_modificado
asignar_marco_nuevo-tamanio s =
    option_elim (MismoTamanio s) (buscar_bit_libre_memoria s.bits_memoria).0 _ _
      (λ _.
        option_elim (MismoTamanio s) (buscar_victima s.bits_memoria s.puntero_clock).bit _ _
          (λ _. tt)
          λ m _.
            option_elim (MismoTamanio s) (buscar_pagina_segun_bit m _) _ _ (λ _. tt)
              λ victima _. desalojar_victima-tamanio m victima _)
      (λ m _. refl)

-- The page `q` is in a frame that holds the bytes of the place `b`.
record Traida (q b : ℕ) (s t : Muse) : Type 0 where
  presente : (t.paginas q).presencia ≡ true
  marco : ℕ
  bit_marco : (t.paginas q).bit_marco ≡ some marco
  bytes :
      (k : ℕ)
      → k < s.tamanio_pagina
      → t.memoria (pos_marco t marco * t.tamanio_pagina + k)
        ≡ s.area_swap (pos_swap s b * s.tamanio_pagina + k)

abbrev TraidaO : ℕ → ℕ → Muse → Option Muse → Type 0
TraidaO q b s none = Unit {0}
TraidaO q b s (some t) = Traida q b s t

zero_plus : (k : ℕ) → 0 + k ≡ k
zero_plus k = omega arith

poner_en_marco-Traida :
    (q b m : ℕ) (s s1 : Muse)
    → s1.tamanio_pagina ≡ s.tamanio_pagina
    → Traida q b s (poner_en_marco q m (λ k. s.area_swap (pos_swap s b * s.tamanio_pagina + k)) s1)
unfolding poner_en_marco
poner_en_marco-Traida q b m s s1 e = record {
  presente = ground arith;
  marco = m;
  bit_marco = ground arith;
  bytes = λ k h.
      memcpy_in s1.memoria (pos_marco s1 m * s1.tamanio_pagina)
        (λ j. s.area_swap (pos_swap s b * s.tamanio_pagina + j)) 0 s1.tamanio_pagina k (omega arith)
      ∙ ap (λ j. s.area_swap (pos_swap s b * s.tamanio_pagina + j)) (zero_plus k);
}

traer_de_swap-Traida : (q b : ℕ) (s : Muse) → TraidaO q b s (traer_de_swap q b s)
unfolding traer_de_swap
traer_de_swap-Traida q b s = de_marco (asignar_marco_nuevo s0) (asignar_marco_nuevo-tamanio s0)
  where
    s0 : Muse
    s0 = set_pagina q (record (s.paginas q) { bit_swap = none }) s

    de_marco :
        (o : Option (ℕ × Muse))
        → MismoTamanio s0 o
        → TraidaO q b s (
            option_case o none (λ r.
              some (
                poner_en_marco q r.0 (λ k. s.area_swap (pos_swap s b * s.tamanio_pagina + k)) r.1)))
    de_marco none h = tt
    de_marco (some (m, s1)) h = poner_en_marco-Traida q b m s s1 h

asegurar_presencia-Traida :
    (q b : ℕ) (s : Muse)
    → (s.paginas q).presencia ≡ false
    → (s.paginas q).bit_swap ≡ some b
    → TraidaO q b s (asegurar_presencia q s)
unfolding asegurar_presencia
asegurar_presencia-Traida q b s absent e = simp (absent, e) (traer_de_swap-Traida q b s)

-- What `obtenerPunteroAMarco` answers for a page whose bytes should be `bytes`.
abbrev pub Leida : ℕ → ℕ → (ℕ → ℕ) → Option (Option ℕ × Muse) → Type 0
Leida q n bytes none = Unit {0}
Leida q n bytes (some (none, t)) = ⊥
Leida q n bytes (some (some a, t)) =
    ((t.paginas q).presencia ≡ true) × ((k : ℕ) → k < n → t.memoria (a + k) ≡ bytes k)

marcar_uso-memoria : (m : ℕ) (s : Muse) → (marcar_uso m s).memoria ≡ s.memoria
unfolding marcar_uso
marcar_uso-memoria m s = ground arith

marcar_uso-paginas : (m : ℕ) (s : Muse) → (marcar_uso m s).paginas ≡ s.paginas
unfolding marcar_uso
marcar_uso-paginas m s = ground arith

marcar_uso-Leida :
    (q n : ℕ) (bytes : ℕ → ℕ) (a m : ℕ) (t : Muse)
    → Leida q n bytes (some (some a, t))
    → Leida q n bytes (some (some a, marcar_uso m t))
marcar_uso-Leida q n bytes a m t h = (
  ap (λ ps. (ps q).presencia) (marcar_uso-paginas m t) ∙ h.0,
  λ k l. ap (λ mem. mem (a + k)) (marcar_uso-memoria m t) ∙ h.1 k l,
)

-- For a page in the swap area the code answers, where it does not fault, the address of a frame
-- that holds the bytes of the page's place.
obtener_puntero_a_marco-Leida :
    (q b : ℕ) (s : Muse)
    → (s.paginas q).presencia ≡ false
    → (s.paginas q).bit_swap ≡ some b
    → Leida q s.tamanio_pagina
        (λ k. s.area_swap (pos_swap s b * s.tamanio_pagina + k))
        (obtener_puntero_a_marco q s)
unfolding obtener_puntero_a_marco puntero_de
obtener_puntero_a_marco-Leida q b s absent e =
    leer (asegurar_presencia q s) (asegurar_presencia-Traida q b s absent e)
  where
    leer :
        (o : Option Muse)
        → TraidaO q b s o
        → Leida q s.tamanio_pagina
            (λ k. s.area_swap (pos_swap s b * s.tamanio_pagina + k))
            (option_case o none (λ s1. some (puntero_de (s1.paginas q).bit_marco s1)))
    leer none h = tt
    leer (some t) h = rw h.bit_marco (
        marcar_uso-Leida q s.tamanio_pagina (λ k. s.area_swap (pos_swap s b * s.tamanio_pagina + k))
          _ h.marco t (h.presente, h.bytes))

Leida-mono :
    (q n : ℕ) (f g : ℕ → ℕ) (o : Option (Option ℕ × Muse))
    → ((k : ℕ) → k < n → f k ≡ g k)
    → Leida q n f o
    → Leida q n g o
Leida-mono q n f g none e h = tt
Leida-mono q n f g (some (none, t)) e h = h
Leida-mono q n f g (some (some a, t)) e h = (h.0, λ k l. h.1 k l ∙ e k l)

desde_swap :
    (q f : ℕ) (s t : Muse)
    → Desalojada q f s t
    → Leida q s.tamanio_pagina
        (λ k. s.memoria (pos_marco s f * s.tamanio_pagina + k))
        (obtener_puntero_a_marco q t)
desde_swap q f s t w =
    Leida-mono q s.tamanio_pagina (λ k. t.area_swap (pos_swap t w.lugar * t.tamanio_pagina + k)) _
      (obtener_puntero_a_marco q t)
      (λ k h. ap (λ n. t.area_swap (pos_swap t w.lugar * n + k)) w.tamanio ∙ w.bytes k h)
      (subst
        (λ n.
          Leida q n (λ k. t.area_swap (pos_swap t w.lugar * t.tamanio_pagina + k))
            (obtener_puntero_a_marco q t))
        w.tamanio (obtener_puntero_a_marco-Leida q w.lugar t w.ausente w.bit_swap))

-- A page survives the swap area: a resident page `q` of the frame `f` that is swapped out and is
-- then asked for again is in memory, at the address that the code answers, with the bytes that it
-- had, whatever frame it is given and whatever page is evicted for it, unless one of the two steps
-- faults.
pub ida_y_vuelta :
    (m q f : ℕ) (s t : Muse)
    → (s.paginas q).bit_marco ≡ some f
    → desalojar_pagina m q s ≡ some t
    → Leida q s.tamanio_pagina
        (λ k. s.memoria (pos_marco s f * s.tamanio_pagina + k))
        (obtener_puntero_a_marco q t)
ida_y_vuelta m q f s t e out =
    desde_swap q f s t (subst (DesalojadaO q f s) out (desalojar_pagina-Desalojada m q f s e))
