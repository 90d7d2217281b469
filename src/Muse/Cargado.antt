-- ===== src/Muse/Cargado.antt =====
-- Loading the pages of a mapping leaves the programs, the size of a page and the available space.
use tp_2019_2c_vendo_fiat.Muse.Paginacion.{asignar_marco_nuevo, obtener_puntero_a_marco}
use tp_2019_2c_vendo_fiat.Muse.Quietud.{
  Quieto, Quieto-refl, asignar_marco_nuevo-Quieto, Quieto-trans, obtener_puntero_a_marco-Quieto,
}
use Prim.Native.String.{String}
use tp_2019_2c_vendo_fiat.Muse.State.{Muse, Segmento}
use tp_2019_2c_vendo_fiat.Base.{
  SiHay, SiHay-option_case, SiHay-mono, ℕ, List, suc, if_elim, option_elim, get_elem?, is_none,
  zero, none, ◌&&◌,
}
use tp_2019_2c_vendo_fiat.Muse.Segmentos.{
  cargar_pagina, cargar_paginas, dar_marco, paginas_map_en_memoria,
  tiene_paginas_no_cargadas_en_memoria,
}

dar_marco-Quieto : (q : ℕ) (s : Muse) → SiHay (Quieto s) (dar_marco q s)
unfolding dar_marco
dar_marco-Quieto q s =
    SiHay-option_case (Quieto s) (λ r. Quieto s r.1) (asignar_marco_nuevo s) _
      (asignar_marco_nuevo-Quieto s)
      (λ r _ h.
        option_elim (SiHay (Quieto s)) (get_elem? r.1.bits_memoria r.0) none _ (λ _. tt)
          (λ bit _. h))

cargar_pagina-Quieto :
    (buffer : ℕ → ℕ) (relleno ultima i q : ℕ) (s : Muse)
    → SiHay (Quieto s) (cargar_pagina buffer relleno ultima i q s)
unfolding cargar_pagina
cargar_pagina-Quieto buffer relleno ultima i q s =
    if_elim (SiHay (Quieto s)) (is_none (s.paginas q).bit_marco && is_none (s.paginas q).bit_swap) _
      _
      (λ _.
        SiHay-option_case (Quieto s) (Quieto s) (dar_marco q s) _ (dar_marco-Quieto q s) λ s1 _ h.
          SiHay-option_case (Quieto s) (λ r. Quieto s1 r.1) (obtener_puntero_a_marco q s1) _
            (obtener_puntero_a_marco-Quieto q s1)
            (λ r _ k.
              option_elim (SiHay (Quieto s)) r.0 none _ (λ _. tt)
                (λ a _. Quieto-trans s s1 r.1 h k)))
      (λ _. Quieto-refl s)

cargar_paginas-Quieto :
    (buffer : ℕ → ℕ) (relleno : ℕ) (paginas : List ℕ) (n i : ℕ) (s : Muse)
    → SiHay (Quieto s) (cargar_paginas buffer relleno paginas n i s)
unfolding cargar_paginas
cargar_paginas-Quieto buffer relleno paginas zero i s = Quieto-refl s
cargar_paginas-Quieto buffer relleno paginas (suc n) i s =
    option_elim (SiHay (Quieto s)) (get_elem? paginas i) none _ (λ _. tt)
      λ q _.
        SiHay-option_case (Quieto s) (Quieto s) (cargar_pagina buffer relleno _ i q s) _
          (cargar_pagina-Quieto buffer relleno _ i q s)
          (λ s1 _ h.
            SiHay-mono (Quieto s1) (Quieto s) _
              (cargar_paginas-Quieto buffer relleno paginas n (suc i) s1)
              (λ t. Quieto-trans s s1 t h))

pub paginas_map_en_memoria-Quieto :
    (leido : String → ℕ → ℕ → ℕ) (d n : ℕ) (seg : Segmento) (s : Muse)
    → SiHay (Quieto s) (paginas_map_en_memoria leido d n seg s)
unfolding paginas_map_en_memoria
paginas_map_en_memoria-Quieto leido d n seg s =
    if_elim (SiHay (Quieto s)) (tiene_paginas_no_cargadas_en_memoria seg _ _ s) _ _
      (λ _. cargar_paginas-Quieto _ _ seg.paginas _ _ s) (λ _. Quieto-refl s)
