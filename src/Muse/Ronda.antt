-- ===== src/Muse/Ronda.antt =====
-- `muse_cpy` and then `muse_get`, on bytes inside one page of a heap segment.
use native.Mathlib.Nat.{mod-add-mod, mod-eq_of_lt, div-add-mod, mul-div_cancel_left}
use tp_2019_2c_vendo_fiat.Muse.Lectura.{leer_datos}
use tp_2019_2c_vendo_fiat.Muse.Paginacion.{
  obtener_puntero_a_marco, asegurar_presencia, puntero_de, marcar_uso,
}
use tp_2019_2c_vendo_fiat.Muse.Segmentos.{
  escribir_memoria, obtener_lista_segmentos_por_id, obtener_segmento_por_direccion, techo,
  buscar_programa,
}
use tp_2019_2c_vendo_fiat.Muse.Acceso.{
  copiar_en_heap, escribir_en_lugar, escribir_pagina, escribir_marco, es_destino, leer_paginas,
  bytes_desde, muse_cpy, muse_get, cargar_mapa, cero, leido,
}
use tp_2019_2c_vendo_fiat.Muse.State.{BitMemoria, Muse, Segmento, InfoHeap, set_pagina}
use tp_2019_2c_vendo_fiat.Base.{
  Bool, ℕ, List, ◌*◌, ◌+◌, ◌≡◌, some, ◌%◌, get_or, get_elem?, length, leb, set, ◌-◌, false, true,
  arith, find, get_elem?-set_self, lt-of_get_elem?, ◌/◌, ◌<◌, refl, ◌++◌, [], take, drop,
  if◌then◌else◌, not, append-nil, sym, ◌∙◌, ◌==◌, ap,
}
use Prim.Native.String.{String}

-- The bytes at the direction `d` of the segment stand in its page `q`, which is in the frame `m`.
pub record Residente (igual : String → String → Bool) (id : String) (dst : ℕ) (datos : List ℕ)
    (s : Muse) (seg : Segmento) (d q m : ℕ) : Type 0 where
  pub segmentos : List Segmento
  pub indice : ℕ
  pub de_programa : obtener_lista_segmentos_por_id igual id s ≡ some segmentos
  pub de_segmento : obtener_segmento_por_direccion segmentos dst ≡ some indice
  pub segmento : get_elem? segmentos indice ≡ some seg
  pub direccion : dst - seg.base_logica ≡ d
  pub propio : seg.es_mmap ≡ false
  pub heap : InfoHeap
  pub destino : find (es_destino d) seg.status_metadata ≡ some heap
  pub pagina : get_elem? seg.paginas (d / s.tamanio_pagina) ≡ some q
  pub presente : (s.paginas q).presencia ≡ true
  pub marco : (s.paginas q).bit_marco ≡ some m
  pub bit : BitMemoria
  pub en_bitmap : get_elem? s.bits_memoria m ≡ some bit
  pub hay : 0 < length datos
  pub cabe : d % s.tamanio_pagina + length datos < s.tamanio_pagina
  pub dentro : leb (length datos) (seg.tamanio - d) ≡ true

module _ (igual : String → String → Bool) (de_archivo : String → ℕ → ℕ → ℕ) where
  -- The state after the copy.
  abbrev copiado : ℕ → ℕ → ℕ → BitMemoria → List ℕ → Muse → Muse
  copiado d q m bit datos s =
      escribir_memoria (bit.pos * s.tamanio_pagina + d % s.tamanio_pagina) (λ k. get_or datos k 0)
        (length datos)
        (record s {
          bits_memoria =
              set (set s.bits_memoria m (record bit { bit_uso = true })) m
                (record bit { bit_uso = true; bit_modificado = true });
        })

  copiar_en_heap-copiado :
      (id : String) (dst : ℕ) (datos : List ℕ) (s : Muse) (seg : Segmento) (d q m : ℕ)
      (r : Residente igual id dst datos s seg d q m)
      → copiar_en_heap seg d datos s ≡ some (copiado d q m r.bit datos s)
  unfolding copiar_en_heap escribir_en_lugar escribir_pagina escribir_marco obtener_puntero_a_marco
      asegurar_presencia puntero_de marcar_uso
  copiar_en_heap-copiado id dst datos s seg d q m r =
      let corto : leb (s.tamanio_pagina - d % s.tamanio_pagina) (length datos) ≡ false =
        ground (arith, r.cabe) in
      let otra =
        get_elem?-set_self s.bits_memoria m (record r.bit { bit_uso = true })
          (lt-of_get_elem? s.bits_memoria m r.bit r.en_bitmap) in
      rw (corto, r.pagina, r.presente, r.marco, r.en_bitmap) (rw (r.marco, otra) refl)

  -- The page is read from its frame.
  leer_paginas-copiado :
      (id : String) (dst : ℕ) (datos : List ℕ) (s : Muse) (seg : Segmento) (d q m : ℕ)
      (r : Residente igual id dst datos s seg d q m)
      → (u : Muse) × (leer_paginas seg.paginas 1
            (d / s.tamanio_pagina)
            (copiado d q m r.bit datos s)
          ≡ some (
            bytes_desde
                  (copiado d q m r.bit datos s).memoria
                  (r.bit.pos * s.tamanio_pagina)
                  s.tamanio_pagina
                ++ [],
            u,
          ))
  unfolding leer_paginas obtener_puntero_a_marco asegurar_presencia puntero_de marcar_uso
  leer_paginas-copiado id dst datos s seg d q m r =
      let t = copiado d q m r.bit datos s in
      let b1 = record r.bit { bit_uso = true } in
      let b2 = record r.bit { bit_uso = true; bit_modificado = true } in
      let dentro1 = lt-of_get_elem? s.bits_memoria m r.bit r.en_bitmap in
      let otra = get_elem?-set_self s.bits_memoria m b1 dentro1 in
      let una : get_elem? t.bits_memoria m ≡ some b2 =
        get_elem?-set_self (set s.bits_memoria m b1) m b2
          (lt-of_get_elem? (set s.bits_memoria m b1) m b1 otra) in
      (
        set_pagina q (record (s.paginas q) { presencia = true })
            (record t { bits_memoria = set t.bits_memoria m (record b2 { bit_uso = true }) }),
        rw (r.pagina, r.presente, r.marco, una) (rw r.marco refl),
      )

  -- The bytes of the frame hold the data.
  copiado-leido :
      (id : String) (dst : ℕ) (datos : List ℕ) (s : Muse) (seg : Segmento) (d q m : ℕ)
      (r : Residente igual id dst datos s seg d q m)
      → take (length datos) (
          drop (d % s.tamanio_pagina) (
            bytes_desde
              (copiado d q m r.bit datos s).memoria
              (r.bit.pos * s.tamanio_pagina)
              s.tamanio_pagina))
        ≡ datos
  copiado-leido id dst datos s seg d q m r =
      leer_datos (copiado d q m r.bit datos s).memoria (r.bit.pos * s.tamanio_pagina)
        (d % s.tamanio_pagina) s.tamanio_pagina datos (omega (arith, r.cabe))
        (λ j l. ground (arith, l))

  una_pagina : (d n t : ℕ) → 0 < n → d % t + n < t → techo (d + n) t - d / t ≡ 1
  unfolding techo
  una_pagina d n t h l =
      let resto : (d + n) % t ≡ d % t + n = sym (mod-add-mod d t n) ∙ mod-eq_of_lt l in
      let veces : t * ((d + n) / t) ≡ t * (d / t) =
        omega (arith, resto, div-add-mod (d + n) t, div-add-mod d t) in
      let igual_cociente : (d + n) / t ≡ d / t =
        sym (mul-div_cancel_left ((d + n) / t) (omega (arith, l)))
        ∙ ap (λ k. k / t) veces
        ∙ mul-div_cancel_left (d / t) (omega (arith, l)) in
      let sobra : (d + n) % t == 0 ≡ false = ground (arith, resto, h) in
      rw (sobra, igual_cociente) (omega arith)

  si_propio {ℓ} :
      {A : Type ℓ} {b : Bool} → b ≡ false → (x y : A) {z : A} → x ≡ z → (if not b then x else y) ≡ z
  si_propio e x y h = rw e h

  cargar_mapa-propio :
      (seg : Segmento) (d n : ℕ) (s : Muse)
      → seg.es_mmap ≡ false
      → cargar_mapa igual de_archivo seg d n s ≡ some s
  unfolding cargar_mapa
  cargar_mapa-propio seg d n s e = rw e refl

  -- Some bytes that end before the last byte of a resident page of a heap segment of the program,
  -- at a direction that an InfoHeap in use covers: `muse_cpy` answers 0, and `muse_get` at the same
  -- direction then answers these bytes.
  pub muse_cpy-muse_get :
      (id : String) (dst : ℕ) (datos : List ℕ) (s : Muse) (seg : Segmento) (d q m : ℕ)
      → Residente igual id dst datos s seg d q m
      → (t : Muse) × (u : Muse) × (muse_cpy igual de_archivo id dst datos s ≡ some (cero, t))
        × (muse_get igual de_archivo id dst (length datos) t ≡ some (leido datos, u))
  unfolding muse_cpy muse_get obtener_lista_segmentos_por_id buscar_programa
  muse_cpy-muse_get id dst datos s seg d q m r =
      let t = copiado d q m r.bit datos s in
      let (u, e) = leer_paginas-copiado id dst datos s seg d q m r in
      (
        t,
        u,
        rw (r.de_programa, r.de_segmento, r.segmento, r.direccion, r.destino)
            (si_propio r.propio _ _ (rw (copiar_en_heap-copiado id dst datos s seg d q m r) refl)),
        rw (r.de_programa, r.de_segmento, r.segmento, r.direccion, r.dentro)
            (rw
              (
                cargar_mapa-propio seg d (length datos) t r.propio,
                una_pagina d (length datos) s.tamanio_pagina r.hay r.cabe,
                e,
                append-nil,
                copiado-leido id dst datos s seg d q m r,
              )
              refl),
      )
