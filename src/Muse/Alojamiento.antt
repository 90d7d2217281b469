-- ===== src/Muse/Alojamiento.antt =====
-- `muse_alloc` in a free block, and in a segment that grows.
use tp_2019_2c_vendo_fiat.Muse.State.{Maquina}
use tp_2019_2c_vendo_fiat.Muse.Metadata.{set_segmento, segmento_en}
use tp_2019_2c_vendo_fiat.Muse.Teselado.{
  Tesela-espacio, partir_heap-Tesela, partir_heap-Tesela_ultimo,
}
use tp_2019_2c_vendo_fiat.Muse.Ocupacion.{Bueno, QuedaTeselado}
use tp_2019_2c_vendo_fiat.Muse.Segmentacion.{
  Teselado, set_segmento-Teselado, Quieto-Teselado, agregar_paginas-Teselado,
}
use tp_2019_2c_vendo_fiat.Muse.Quietud.{
  Quieto, escribir_heap-Quieto, sustituir_heap_metadata-Quieto,
}
use tp_2019_2c_vendo_fiat.Muse.Segmentos.{
  obtener_heap_con_espacio, tiene_heap_disponible, size_metadata,
}
use tp_2019_2c_vendo_fiat.Muse.State.{Segmento, InfoHeap, Muse}
use tp_2019_2c_vendo_fiat.Muse.Alloc.{
  alloc_en_heap, alloc_en_segmento, crecer_segmento, escribir_resto, escribir_viejo, partir_heap,
}
use tp_2019_2c_vendo_fiat.Base.{
  SiHay, SiHay-option_case, ℕ, List, ◌≡◌, false, get_elem?, option_elim, some, find_index, suc, ◌+◌,
  length, none, ◌≤◌, find_index-some, arith, true, last,
}
use tp_2019_2c_vendo_fiat.Muse.Reserva.{gastar, bytes_de}
use tp_2019_2c_vendo_fiat.Muse.Alloc.{direccion_datos}

tiene_heap_disponible-le :
    (n : ℕ) (heap : InfoHeap) → tiene_heap_disponible n heap ≡ true → n ≤ heap.espacio
unfolding tiene_heap_disponible
tiene_heap_disponible-le n heap e = ground arith

module _ (maquina : Maquina) where
  escribir_resto-Quieto :
      (paginas : List ℕ) (o d tamanio : ℕ) (s : Muse)
      → SiHay (Quieto s) (escribir_resto maquina paginas o d tamanio s)
  unfolding escribir_resto
  escribir_resto-Quieto paginas o d tamanio s = escribir_heap-Quieto _ paginas _ _ o _ s

  escribir_viejo-Quieto :
      (paginas : List ℕ) (d tamanio : ℕ) (s : Muse)
      → SiHay (Quieto s) (escribir_viejo maquina paginas d tamanio s)
  unfolding escribir_viejo
  escribir_viejo-Quieto paginas d tamanio s = escribir_heap-Quieto _ paginas _ _ _ _ s

  alloc_en_heap-Teselado :
      (i j h tamanio n : ℕ) (seg : Segmento) (heap : InfoHeap) (s : Muse)
      → Teselado i s
      → Bueno n seg
      → seg.es_mmap ≡ false
      → get_elem? seg.status_metadata h ≡ some heap
      → tamanio + size_metadata ≤ heap.espacio
      → SiHay (QuedaTeselado i) (alloc_en_heap maquina i j seg h heap tamanio s)
  unfolding alloc_en_heap
  alloc_en_heap-Teselado i j h tamanio n seg heap s te b m e c =
      let lleno = b.bueno m in
      let corto = Tesela-espacio 0 seg.tamanio h heap seg.status_metadata lleno e in
      let partido =
        partir_heap-Tesela tamanio h seg.tamanio heap seg.status_metadata lleno e
          (b.numerado h heap e) c (omega (arith, corto, b.holgado)) in
      SiHay-option_case (QuedaTeselado i) (Quieto s) _ _
        (sustituir_heap_metadata-Quieto seg.paginas heap.direccion_heap _ s)
        λ s1 _ q1.
          option_elim (SiHay (QuedaTeselado i)) (direccion_datos seg heap.direccion_heap s1) none _
            (λ _. tt)
            λ dir _.
              SiHay-option_case (QuedaTeselado i) (Quieto s1) _ _
                (escribir_resto-Quieto seg.paginas _ _ _ s1)
                λ s2 _ q2.
                  set_segmento-Teselado i j
                    (record seg {
                      status_metadata = partir_heap tamanio 0 h heap seg.status_metadata;
                    })
                    s2 (Quieto-Teselado i s1 s2 (Quieto-Teselado i s s1 te q1) q2) (λ _. partido)

  pub alloc_en_segmento-Teselado :
      (i j tamanio n : ℕ) (seg : Segmento) (s : Muse)
      → Teselado i s
      → Bueno n seg
      → seg.es_mmap ≡ false
      → SiHay (QuedaTeselado i) (alloc_en_segmento maquina i j seg tamanio s)
  unfolding alloc_en_segmento obtener_heap_con_espacio tiene_heap_disponible
  alloc_en_segmento-Teselado i j tamanio n seg s te b m =
      option_elim (SiHay (QuedaTeselado i))
        (find_index (tiene_heap_disponible (tamanio + size_metadata)) seg.status_metadata) none _
        (λ _. tt)
        λ h e.
          let hallado = find_index-some _ seg.status_metadata h e in
          rw (hallado.1) (
            alloc_en_heap-Teselado i j h tamanio n seg hallado.0 s te b m hallado.1
              (tiene_heap_disponible-le _ hallado.0 hallado.2))

  pub crecer_segmento-Teselado :
      (i j h tamanio n : ℕ) (seg : Segmento) (heap : InfoHeap) (s : Muse)
      → Teselado i s
      → Bueno s.espacio_disponible seg
      → seg.es_mmap ≡ false
      → get_elem? seg.status_metadata h ≡ some heap
      → suc h ≡ length seg.status_metadata
      → tamanio + size_metadata ≤ bytes_de n s + heap.espacio
      → bytes_de n s ≤ s.espacio_disponible
      → SiHay (QuedaTeselado i) (crecer_segmento maquina i j seg h heap n tamanio s)
  unfolding crecer_segmento
  crecer_segmento-Teselado i j h tamanio n seg heap s te b m e u c l =
      let lleno = b.bueno m in
      let entero = bytes_de n s in
      let corto = Tesela-espacio 0 seg.tamanio h heap seg.status_metadata lleno e in
      let partido =
        partir_heap-Tesela_ultimo tamanio entero h seg.tamanio heap seg.status_metadata lleno e
          (b.numerado h heap e) u c (omega (arith, corto, b.holgado, l)) in
      let seg1 : Segmento = record seg {
        tamanio = seg.tamanio + entero;
        status_metadata = partir_heap tamanio entero h heap seg.status_metadata;
      } in
      let s0 = set_segmento i j seg1 (gastar n s) in
      let antes = set_segmento-Teselado i j seg1 (gastar n s) te (λ _. partido) in
      option_elim (SiHay (QuedaTeselado i)) (last seg.paginas) none _ (λ _. tt)
        λ q _.
          SiHay-option_case (QuedaTeselado i) (Teselado i) _ _
            (agregar_paginas-Teselado i j (s.paginas q).num_pagina n 0 s0 antes)
            λ s1 _ te1.
              option_elim (SiHay (QuedaTeselado i)) (segmento_en i j s1) none _ (λ _. tt)
                λ seg2 _.
                  SiHay-option_case (QuedaTeselado i) (Quieto s1) _ _
                    (sustituir_heap_metadata-Quieto seg2.paginas _ _ s1)
                    λ s2 _ q2.
                      SiHay-option_case (QuedaTeselado i) (Quieto s2) _ _
                        (escribir_viejo-Quieto seg2.paginas _ tamanio s2)
                        λ s3 _ q3. Quieto-Teselado i s2 s3 (Quieto-Teselado i s1 s2 te1 q2) q3
