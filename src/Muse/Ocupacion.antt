-- ===== src/Muse/Ocupacion.antt =====
-- `muse_alloc` keeps the segments of a program filled by their blocks.
use tp_2019_2c_vendo_fiat.Muse.State.{Maquina}
use tp_2019_2c_vendo_fiat.Muse.Teselado.{heaps_nuevos-Tesela}
use tp_2019_2c_vendo_fiat.Muse.Metadata.{queda_cortado}
use tp_2019_2c_vendo_fiat.Muse.Frames.{FloatBueno, float_mod, calcular_frames_necesarios-alcanzan}
use tp_2019_2c_vendo_fiat.Muse.Segmentos.{u32_mod, size_metadata}
use tp_2019_2c_vendo_fiat.Muse.Quietud.{
  Quieto, Quieto-refl, escribir_en_pagina-Quieto, crear_pagina-Quieto, Quieto-trans,
}
use tp_2019_2c_vendo_fiat.Muse.Reserva.{
  alloc_primero, alloc_tras_mmap, crear_paginas, crear_segmento, escribir_anteultima,
  escribir_inicio, escribir_ultima, hay_espacio, gastar, crear_pagina,
}
use tp_2019_2c_vendo_fiat.Muse.Segmentacion.{SegBueno, Teselado, set_segmentos-Teselado}
use tp_2019_2c_vendo_fiat.Base.{
  SiHay, SiHay-option_case, ℕ, List, All, get_elem?, ◌+◌, ◌<◌, ◌*◌, ◌≡◌, if_elim, some, option_case,
  suc, ◌==◌, ◌≤◌, [], ◌&&◌, none, All-append, arith, zero,
}
use tp_2019_2c_vendo_fiat.Muse.State.{Segmento, InfoHeap, Muse}
use tp_2019_2c_vendo_fiat.Base.Int.{ℤ}

-- Every block of a segment has the number of its place.
abbrev pub Numerado : Segmento → Type 0
Numerado seg =
    (h : ℕ) (heap : InfoHeap) → get_elem? seg.status_metadata h ≡ some heap → heap.indice ≡ h

-- A segment whose blocks are numbered, and fill it if it is not a mapping, with room for `n` bytes
-- more in 32 bits.
pub record Bueno (n : ℕ) (seg : Segmento) : Type 0 where
  pub bueno : SegBueno seg
  pub numerado : Numerado seg
  pub holgado : seg.tamanio + n < u32_mod

abbrev pub QuedaTeselado : ℕ → ℤ × Muse → Type 0
QuedaTeselado i r = Teselado i r.1

-- Pages are not empty, and a page with the available space and a HeapMetadata is below 2^24 bytes.
pub record Entra (s : Muse) : Type 0 where
  pub paginas : 0 < s.tamanio_pagina
  pub juntos : s.tamanio_pagina + s.espacio_disponible + size_metadata < float_mod

module _ (maquina : Maquina) where
  escribir_inicio-Quieto :
      (tamanio i q : ℕ) (s : Muse) → SiHay (Quieto s) (escribir_inicio maquina tamanio i q s)
  unfolding escribir_inicio
  escribir_inicio-Quieto tamanio i q s =
      if_elim (SiHay (Quieto s)) (i == 0) _ _ (λ _. escribir_en_pagina-Quieto q 0 _ size_metadata s)
        (λ _. Quieto-refl s)

  escribir_anteultima-Quieto :
      (libre n i q : ℕ) (s : Muse) → SiHay (Quieto s) (escribir_anteultima maquina libre n i q s)
  unfolding escribir_anteultima
  escribir_anteultima-Quieto libre n i q s =
      if_elim (SiHay (Quieto s)) (i + 2 == n && queda_cortado s.tamanio_pagina libre) _ _
        (λ _. escribir_en_pagina-Quieto q _ _ _ s) (λ _. Quieto-refl s)

  escribir_ultima-Quieto :
      (libre n i q : ℕ) (s : Muse) → SiHay (Quieto s) (escribir_ultima maquina libre n i q s)
  unfolding escribir_ultima
  escribir_ultima-Quieto libre n i q s =
      if_elim (SiHay (Quieto s)) (i + 1 == n) _ _
        (λ _.
          if_elim (SiHay (Quieto s)) (queda_cortado s.tamanio_pagina libre) _ _
            (λ _. escribir_en_pagina-Quieto q _ _ _ s) (λ _. escribir_en_pagina-Quieto q _ _ _ s))
        (λ _. Quieto-refl s)

  crear_paginas-Quieto :
      (tamanio libre n k i : ℕ) (s : Muse)
      → SiHay (λ r. Quieto s r.1) (crear_paginas maquina tamanio libre n k i s)
  unfolding crear_paginas
  crear_paginas-Quieto tamanio libre n zero i s = Quieto-refl s
  crear_paginas-Quieto tamanio libre n (suc k) i s =
      SiHay-option_case (λ r. Quieto s r.1) (λ r. Quieto s r.1) (crear_pagina i i s) _
        (crear_pagina-Quieto i i s)
        λ r _ h.
          SiHay-option_case (λ r. Quieto s r.1) (Quieto r.1) _ _
            (escribir_inicio-Quieto tamanio i r.0 r.1)
            λ s1 _ h1.
              SiHay-option_case (λ r. Quieto s r.1) (Quieto s1) _ _
                (escribir_anteultima-Quieto libre n i r.0 s1)
                λ s2 _ h2.
                  SiHay-option_case (λ r. Quieto s r.1) (Quieto s2) _ _
                    (escribir_ultima-Quieto libre n i r.0 s2)
                    λ s3 _ h3.
                      SiHay-option_case (λ r. Quieto s r.1) (λ t. Quieto s3 t.1) _ _
                        (crear_paginas-Quieto tamanio libre n k (suc i) s3)
                        λ t _ h4. Quieto-trans s r.1 t.1 h (
                          Quieto-trans r.1 s1 t.1 h1
                            (Quieto-trans s1 s2 t.1 h2 (Quieto-trans s2 s3 t.1 h3 h4)))

  crear_segmento-Teselado :
      (i : ℕ) (segs : List Segmento) (base n tamanio : ℕ) (s : Muse)
      → All SegBueno segs
      → tamanio + 2 * size_metadata ≤ n * s.tamanio_pagina
      → SiHay (Teselado i) (crear_segmento maquina i segs base n tamanio s)
  unfolding crear_segmento
  crear_segmento-Teselado i segs base n tamanio s h l =
      SiHay-option_case (Teselado i) (λ r. Quieto s r.1) _ _
        (crear_paginas-Quieto tamanio _ n n 0 s)
        λ r _ _. set_segmentos-Teselado i _ r.1 (
          All-append SegBueno segs _ h
            ((λ _. heaps_nuevos-Tesela tamanio (n * s.tamanio_pagina) l), tt))

  crear_o-Teselado :
      (i : ℕ) (segs : List Segmento) (base n tamanio : ℕ) (z : ℤ) (s : Muse)
      → All SegBueno segs
      → tamanio + size_metadata * 2 ≤ n * s.tamanio_pagina
      → SiHay (QuedaTeselado i) (
          option_case
            (crear_segmento maquina i segs base n tamanio (gastar n s))
            none
            (λ t. some (z, t)))
  crear_o-Teselado i segs base n tamanio z s h j =
      SiHay-option_case (QuedaTeselado i) (Teselado i) _ _
        (crear_segmento-Teselado i segs base n tamanio (gastar n s) h (omega (arith, j)))
        (λ t _ k. k)

  pub alloc_primero-Teselado :
      (i tamanio : ℕ) (s : Muse)
      → FloatBueno maquina
      → Entra s
      → tamanio + size_metadata ≤ s.espacio_disponible
      → Teselado i s
      → SiHay (QuedaTeselado i) (alloc_primero maquina i tamanio s)
  unfolding alloc_primero
  alloc_primero-Teselado i tamanio s fb en c h =
      let hay = en.paginas in
      let chica = en.juntos in
      let f =
        calcular_frames_necesarios-alcanzan maquina fb s.tamanio_pagina
          (tamanio + size_metadata * 2) hay (omega (arith, chica)) in
      let justo = f.2 (omega (arith, chica, c)) in
      let alcanza = justo.alcanzan in
      rw (f.1) (
        if_elim (SiHay (QuedaTeselado i)) (hay_espacio f.0 s) _ _
          (λ _. crear_o-Teselado i [] 0 f.0 tamanio _ s tt alcanza) (λ _. h))

  pub alloc_tras_mmap-Teselado :
      (i : ℕ) (segs : List Segmento) (tamanio : ℕ) (s : Muse)
      → FloatBueno maquina
      → Entra s
      → tamanio + size_metadata ≤ s.espacio_disponible
      → All SegBueno segs
      → SiHay (QuedaTeselado i) (alloc_tras_mmap maquina i segs tamanio s)
  unfolding alloc_tras_mmap
  alloc_tras_mmap-Teselado i segs tamanio s fb en c h =
      let hay = en.paginas in
      let chica = en.juntos in
      let f =
        calcular_frames_necesarios-alcanzan maquina fb s.tamanio_pagina
          (tamanio + size_metadata * 2) hay (omega (arith, chica)) in
      let justo = f.2 (omega (arith, chica, c)) in
      let alcanza = justo.alcanzan in
      rw (f.1) (
        if_elim (SiHay (QuedaTeselado i)) (hay_espacio f.0 s) _ _
          (λ _. crear_o-Teselado i segs _ f.0 tamanio _ s h alcanza) (λ _. tt))
