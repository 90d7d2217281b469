-- ===== src/Muse/Quietud.antt =====
-- What page faults and writes into pages leave as it was: the programs with their segments, the
-- size of a page and the available space.
use tp_2019_2c_vendo_fiat.Muse.Segmentos.{size_metadata}
use tp_2019_2c_vendo_fiat.Muse.Reserva.{crear_pagina}
use tp_2019_2c_vendo_fiat.Muse.Metadata.{
  escribir_cortado, escribir_en_lista, escribir_en_pagina, sustituir_heap_metadata,
}
use tp_2019_2c_vendo_fiat.Muse.Clock.{buscar_bit_libre_memoria, buscar_victima}
use tp_2019_2c_vendo_fiat.Muse.Paginacion.{
  asignar_marco_nuevo, desalojar_victima, desalojar_pagina, ejecutar_clock_modificado, dejar_marco,
  pasar_a_swap, copiar_a_swap, buscar_pagina_segun_bit, asegurar_presencia, obtener_puntero_a_marco,
  poner_en_marco, puntero_de, traer_de_swap, marcar_uso,
}
use tp_2019_2c_vendo_fiat.Base.{
  SiHay, SiHay-option_case, SiHay-mono, Option, some, ◌∙◌, ◌≡◌, none, option_elim, refl, ℕ, arith,
  Bool, List, if_elim, get_elem?, if◌then◌else◌, leb, suc, length,
}
use tp_2019_2c_vendo_fiat.Muse.State.{Muse, set_pagina}

abbrev pub Quieto : Muse → Muse → Type 0
Quieto s t =
    (t.lista_programas ≡ s.lista_programas)
    × (t.tamanio_pagina ≡ s.tamanio_pagina)
    × (t.espacio_disponible ≡ s.espacio_disponible)

pub Quieto-refl : (s : Muse) → Quieto s s
Quieto-refl s = (refl, refl, refl)

pub Quieto-trans : (s t u : Muse) → Quieto s t → Quieto t u → Quieto s u
Quieto-trans s t u a b = (b.0 ∙ a.0, b.1 ∙ a.1, b.2 ∙ a.2)

desalojar_victima-Quieto :
    (m : ℕ) (o : Option ℕ) (s : Muse) → SiHay (λ r. Quieto s r.1) (desalojar_victima m o s)
unfolding desalojar_victima desalojar_pagina dejar_marco pasar_a_swap copiar_a_swap
desalojar_victima-Quieto m none s = Quieto-refl s
desalojar_victima-Quieto m (some q) s = ground arith

pub asignar_marco_nuevo-Quieto : (s : Muse) → SiHay (λ r. Quieto s r.1) (asignar_marco_nuevo s)
unfolding asignar_marco_nuevo ejecutar_clock_modificado
asignar_marco_nuevo-Quieto s =
    option_elim (SiHay (λ r. Quieto s r.1)) (buscar_bit_libre_memoria s.bits_memoria).0 _ _
      (λ _.
        option_elim (SiHay (λ r. Quieto s r.1)) (buscar_victima s.bits_memoria s.puntero_clock).bit
          _ _ (λ _. tt)
          λ m _.
            option_elim (SiHay (λ r. Quieto s r.1)) (buscar_pagina_segun_bit m _) _ _ (λ _. tt)
              λ victima _. desalojar_victima-Quieto m victima _)
      (λ m _. (refl, refl, refl))

traer_de_swap-Quieto : (q b : ℕ) (s : Muse) → SiHay (Quieto s) (traer_de_swap q b s)
unfolding traer_de_swap poner_en_marco
traer_de_swap-Quieto q b s =
    let s0 = set_pagina q (record (s.paginas q) { bit_swap = none }) s in
    SiHay-option_case (Quieto s) (λ r. Quieto s r.1) (asignar_marco_nuevo s0) _
      (asignar_marco_nuevo-Quieto s0) (λ r _ h. h)

asegurar_presencia-Quieto : (q : ℕ) (s : Muse) → SiHay (Quieto s) (asegurar_presencia q s)
unfolding asegurar_presencia
asegurar_presencia-Quieto q s =
    if_elim (SiHay (Quieto s)) (s.paginas q).presencia _ _ (λ _. Quieto-refl s)
      λ _.
        option_elim (SiHay (Quieto s)) (s.paginas q).bit_swap _ _ (λ _. Quieto-refl s)
          (λ b _. traer_de_swap-Quieto q b s)

puntero_de-Quieto : (o : Option ℕ) (s : Muse) → Quieto s (puntero_de o s).1
unfolding puntero_de marcar_uso
puntero_de-Quieto none s = Quieto-refl s
puntero_de-Quieto (some m) s =
    option_elim (Quieto s) (get_elem? s.bits_memoria m) _ _ (λ _. Quieto-refl s)
      (λ bit _. Quieto-refl s)

pub obtener_puntero_a_marco-Quieto :
    (q : ℕ) (s : Muse) → SiHay (λ r. Quieto s r.1) (obtener_puntero_a_marco q s)
unfolding obtener_puntero_a_marco
obtener_puntero_a_marco-Quieto q s =
    SiHay-option_case (λ r. Quieto s r.1) (Quieto s) (asegurar_presencia q s) _
      (asegurar_presencia-Quieto q s)
      (λ s1 _ h.
        Quieto-trans s s1 (puntero_de (s1.paginas q).bit_marco s1).1 h
          (puntero_de-Quieto (s1.paginas q).bit_marco s1))

pub escribir_en_pagina-Quieto :
    (q offset : ℕ) (f : ℕ → ℕ) (n : ℕ) (s : Muse)
    → SiHay (Quieto s) (escribir_en_pagina q offset f n s)
unfolding escribir_en_pagina
escribir_en_pagina-Quieto q offset f n s =
    SiHay-option_case (Quieto s) (λ r. Quieto s r.1) (obtener_puntero_a_marco q s) _
      (obtener_puntero_a_marco-Quieto q s)
      λ r _ h. option_elim (SiHay (Quieto s)) r.0 _ _ (λ _. tt) (λ a _. h)

escribir_en_lista-Quieto :
    (paginas : List ℕ) (k offset : ℕ) (f : ℕ → ℕ) (n : ℕ) (s : Muse)
    → SiHay (Quieto s) (escribir_en_lista paginas k offset f n s)
unfolding escribir_en_lista
escribir_en_lista-Quieto paginas k offset f n s =
    option_elim (SiHay (Quieto s)) (get_elem? paginas k) _ _ (λ _. tt)
      (λ q _. escribir_en_pagina-Quieto q offset f n s)

pub escribir_cortado-Quieto :
    (paginas : List ℕ) (k offset : ℕ) (heap : ℕ → ℕ) (s : Muse)
    → SiHay (Quieto s) (escribir_cortado paginas k offset heap s)
unfolding escribir_cortado
escribir_cortado-Quieto paginas k offset heap s =
    SiHay-option_case (Quieto s) (Quieto s) (escribir_en_lista paginas k offset heap _ s) _
      (escribir_en_lista-Quieto paginas k offset heap _ s)
      (λ s1 _ h.
        SiHay-mono (Quieto s1) (Quieto s) _ (escribir_en_lista-Quieto paginas (suc k) 0 _ _ s1)
          (λ t. Quieto-trans s s1 t h))

-- A write of a HeapMetadata that is cut or is not.
pub escribir_heap-Quieto :
    (b : Bool) (paginas : List ℕ) (k o1 o2 : ℕ) (heap : ℕ → ℕ) (s : Muse)
    → SiHay (Quieto s) (
        if b
        then escribir_cortado paginas k o1 heap s
        else escribir_en_lista paginas k o2 heap size_metadata s)
escribir_heap-Quieto b paginas k o1 o2 heap s =
    if_elim (SiHay (Quieto s)) b _ _ (λ _. escribir_cortado-Quieto paginas k o1 heap s)
      (λ _. escribir_en_lista-Quieto paginas k o2 heap size_metadata s)

pub sustituir_heap_metadata-Quieto :
    (paginas : List ℕ) (d : ℕ) (heap : ℕ → ℕ) (s : Muse)
    → SiHay (Quieto s) (sustituir_heap_metadata paginas d heap s)
unfolding sustituir_heap_metadata
sustituir_heap_metadata-Quieto paginas d heap s = escribir_heap-Quieto _ paginas _ _ _ heap s

pub crear_pagina-Quieto : (num i : ℕ) (s : Muse) → SiHay (λ r. Quieto s r.1) (crear_pagina num i s)
unfolding crear_pagina
crear_pagina-Quieto num i s =
    if_elim (SiHay (λ r. Quieto s r.1)) (leb i (length s.bits_memoria)) _ _
      (λ _.
        SiHay-option_case (λ r. Quieto s r.1) (λ r. Quieto s r.1) (asignar_marco_nuevo s) _
          (asignar_marco_nuevo-Quieto s)
          (λ r _ h.
            option_elim (SiHay (λ r. Quieto s r.1)) (get_elem? r.1.bits_memoria r.0) _ _ (λ _. tt)
              (λ bit _. h)))
      (λ _. Quieto-refl s)
