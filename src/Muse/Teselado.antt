-- ===== src/Muse/Teselado.antt =====
-- The blocks of a segment that is not a mapping fill it: each begins where the one before it ends,
-- the first at 0 and the last ending at the end of the segment.
use tp_2019_2c_vendo_fiat.Muse.Alloc.{partir_heap, siguiente, sobra, heap_tomado}
use tp_2019_2c_vendo_fiat.Muse.Segmentos.{size_metadata, u32_mod}
use tp_2019_2c_vendo_fiat.Muse.Reserva.{list_add_in_index, heaps_nuevos}
use tp_2019_2c_vendo_fiat.Muse.State.{InfoHeap}
use tp_2019_2c_vendo_fiat.Base.{
  ℕ, List, ◌+◌, ◌≡◌, ◌*◌, ◌∷◌, [], get_elem?, ◌≤◌, some, suc, ◌-◌, arith, length, set, ap, refl,
  option_case, subst, zero, ◌<◌, sym,
}

-- The blocks fill a segment from the direction `d` to the direction `fin`.
abbrev pub Tesela : ℕ → List InfoHeap → ℕ → Type 0
Tesela d [] fin = d ≡ fin
Tesela d (h ∷ hs) fin = (h.direccion_heap ≡ d) × Tesela (d + size_metadata + h.espacio) hs fin

-- The block `heap` is cut into `x` and `y`.
pub record Cortado (heap x y : InfoHeap) : Type 0 where
  pub empieza : x.direccion_heap ≡ heap.direccion_heap
  pub sigue : y.direccion_heap ≡ x.direccion_heap + x.espacio + size_metadata

pub Cortado-Tesela :
    (x y heap : InfoHeap) (d h fin : ℕ) (heaps : List InfoHeap)
    → Cortado heap x y
    → x.espacio + size_metadata + y.espacio ≡ heap.espacio
    → Tesela d heaps fin
    → get_elem? heaps h ≡ some heap
    → Tesela d (list_add_in_index (suc h) y (set heaps h x)) fin
unfolding list_add_in_index
Cortado-Tesela x y heap d h fin [] c m t e = ground arith
Cortado-Tesela x y heap d zero fin (a ∷ cs) c m t e =
    let igual : a ≡ heap = ap (λ o. option_case o a (λ v. v)) e in
    let dir : a.direccion_heap ≡ heap.direccion_heap = ap (λ v. v.direccion_heap) igual in
    let esp : a.espacio ≡ heap.espacio = ap (λ v. v.espacio) igual in
    (
      omega (arith, c.empieza, t.0, dir),
      (
        omega (arith, c.empieza, c.sigue, t.0, dir),
        subst (λ k. Tesela k cs fin) (omega (arith, m, esp)) t.1,
      ),
    )
Cortado-Tesela x y heap d (suc h) fin (a ∷ cs) c m t e =
    (t.0, Cortado-Tesela x y heap (d + size_metadata + a.espacio) h fin cs c m t.1 e)

-- The last block is cut, and the segment grows.
pub alargado-Tesela :
    (x y heap : InfoHeap) (d h fin entero : ℕ) (heaps : List InfoHeap)
    → Cortado heap x y
    → x.espacio + size_metadata + y.espacio ≡ heap.espacio + entero
    → Tesela d heaps fin
    → get_elem? heaps h ≡ some heap
    → suc h ≡ length heaps
    → Tesela d (list_add_in_index (suc h) y (set heaps h x)) (fin + entero)
unfolding list_add_in_index
alargado-Tesela x y heap d h fin entero [] c m t e l = ground arith
alargado-Tesela x y heap d zero fin entero (a ∷ []) c m t e l =
    let igual : a ≡ heap = ap (λ o. option_case o a (λ v. v)) e in
    let dir : a.direccion_heap ≡ heap.direccion_heap = ap (λ v. v.direccion_heap) igual in
    let esp : a.espacio ≡ heap.espacio = ap (λ v. v.espacio) igual in
    (
      omega (arith, c.empieza, t.0, dir),
      (omega (arith, c.empieza, c.sigue, t.0, dir), omega (arith, m, esp, t.1)),
    )
alargado-Tesela x y heap d zero fin entero (a ∷ b ∷ cs) c m t e l = ground arith
alargado-Tesela x y heap d (suc h) fin entero (a ∷ cs) c m t e l = (
  t.0,
  alargado-Tesela x y heap (d + size_metadata + a.espacio) h fin entero cs c m t.1 e
      (omega (arith, l)),
)

-- The blocks of a new segment fill it.
pub heaps_nuevos-Tesela :
    (tamanio total : ℕ)
    → tamanio + 2 * size_metadata ≤ total
    → Tesela 0 (heaps_nuevos tamanio (total - tamanio - size_metadata * 2)) total
heaps_nuevos-Tesela tamanio total h = (refl, (omega arith, omega arith))

Tesela-le : (d fin : ℕ) (heaps : List InfoHeap) → Tesela d heaps fin → d ≤ fin
Tesela-le d fin [] t = omega (arith, t)
Tesela-le d fin (h ∷ hs) t = omega (arith, Tesela-le (d + size_metadata + h.espacio) fin hs t.1)

-- A block is not larger than its segment.
pub Tesela-espacio :
    (d fin h : ℕ) (heap : InfoHeap) (heaps : List InfoHeap)
    → Tesela d heaps fin
    → get_elem? heaps h ≡ some heap
    → heap.espacio ≤ fin
Tesela-espacio d fin h heap [] t e = ground arith
Tesela-espacio d fin zero heap (x ∷ xs) t e =
    let esp : x.espacio ≡ heap.espacio = ap (λ o. option_case o x.espacio (λ v. v.espacio)) e in
    omega (arith, esp, Tesela-le (d + size_metadata + x.espacio) fin xs t.1)
Tesela-espacio d fin (suc h) heap (x ∷ xs) t e =
    Tesela-espacio (d + size_metadata + x.espacio) fin h heap xs t.1 e

-- A block that is large enough, in the place that it is numbered with, is cut.
pub partir_heap-Tesela :
    (tamanio h fin : ℕ) (heap : InfoHeap) (heaps : List InfoHeap)
    → Tesela 0 heaps fin
    → get_elem? heaps h ≡ some heap
    → heap.indice ≡ h
    → tamanio + size_metadata ≤ heap.espacio
    → heap.espacio < u32_mod
    → Tesela 0 (partir_heap tamanio 0 h heap heaps) fin
unfolding partir_heap
partir_heap-Tesela tamanio h fin heap heaps t e n c l =
    subst
      (λ k.
        Tesela 0
          (list_add_in_index (suc k) (siguiente tamanio (sobra tamanio 0 heap) heap)
            (set heaps h (heap_tomado tamanio heap)))
          fin)
      (sym n)
      (Cortado-Tesela (heap_tomado tamanio heap) (siguiente tamanio (sobra tamanio 0 heap) heap)
        heap 0 h fin heaps (record { empieza = refl; sigue = refl }) (omega arith) t e)

-- The last block takes more than it has, of what the segment grows by.
pub partir_heap-Tesela_ultimo :
    (tamanio entero h fin : ℕ) (heap : InfoHeap) (heaps : List InfoHeap)
    → Tesela 0 heaps fin
    → get_elem? heaps h ≡ some heap
    → heap.indice ≡ h
    → suc h ≡ length heaps
    → tamanio + size_metadata ≤ entero + heap.espacio
    → entero + heap.espacio < u32_mod
    → Tesela 0 (partir_heap tamanio entero h heap heaps) (fin + entero)
unfolding partir_heap
partir_heap-Tesela_ultimo tamanio entero h fin heap heaps t e n u c l =
    subst
      (λ k.
        Tesela 0
          (list_add_in_index (suc k) (siguiente tamanio (sobra tamanio entero heap) heap)
            (set heaps h (heap_tomado tamanio heap)))
          (fin + entero))
      (sym n)
      (alargado-Tesela (heap_tomado tamanio heap)
        (siguiente tamanio (sobra tamanio entero heap) heap) heap 0 h fin entero heaps
        (record { empieza = refl; sigue = refl }) (omega arith) t e u)
