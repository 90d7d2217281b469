-- ===== src/Sac/Lectura.antt =====
-- What `sac_read` gives back of what `sac_write` wrote.
use tp_2019_2c_vendo_fiat.Sac.Operations.{enviar}
use tp_2019_2c_vendo_fiat.Sac.Nodes.{get_position}
use tp_2019_2c_vendo_fiat.Sac.State.{
  GFile, Sac, block_size, leer_ptr, ok, contenido, set_node, set_block,
}
use tp_2019_2c_vendo_fiat.Base.{
  ℕ, List, length, ◌<◌, get_elem?, ◌+◌, ◌≡◌, get_or, some, ◌%◌, ◌∷◌, arith, ◌≤◌, suc, ◌==◌, [],
  false, refl, get_elem?-set_self, lt-of_get_elem?, true,
}
use tp_2019_2c_vendo_fiat.Sac.Datos.{
  escribir_bytes, escribir_nodo, leer_bytes, asegurar_puntero, escribir_en, leer_nodo, u32_mod,
  en_bloque,
}

leer_bytes-get_or :
    (bytes : ℕ → ℕ) (k : ℕ) (datos : List ℕ)
    → ((j : ℕ) → j < length datos → bytes (k + j) ≡ get_or datos j 0)
    → leer_bytes bytes k (length datos) ≡ datos
unfolding leer_bytes
leer_bytes-get_or bytes k [] h = refl
leer_bytes-get_or bytes k (x ∷ datos) h =
    let here : bytes k ≡ x = ground (arith, h 0 (omega arith)) in
    let there : leer_bytes bytes (suc k) (length datos) ≡ datos =
      leer_bytes-get_or bytes (suc k) datos (λ j l. ground (arith, h (suc j) (omega arith))) in
    rw (here, there) refl

leer_bytes-escribir_bytes :
    (bytes : ℕ → ℕ) (datos : List ℕ)
    → leer_bytes (escribir_bytes bytes datos (length datos)) 0 (length datos) ≡ datos
unfolding escribir_bytes
leer_bytes-escribir_bytes bytes datos =
    leer_bytes-get_or (escribir_bytes bytes datos (length datos)) 0 datos (λ j l. ground arith)

-- The data block of an offset in the file of the place `i`, both pointers set.
pub record Puesto (i : ℕ) (node : GFile) (ptr b offset : ℕ) (s : Sac) : Type 0 where
  pub en_tabla : get_elem? s.nodes_table i ≡ some node
  pub puntero : node.blocks_ptr ((get_position offset).indirect) ≡ ptr
  pub bloque : leer_ptr (s.blocks ptr) ((get_position offset).block) ≡ b
  pub puntero_puesto : ptr == 0 ≡ false
  pub bloque_puesto : b == 0 ≡ false
  pub distintos : b == ptr ≡ false

-- In a file whose pointers lead to a data block, other than the block of pointers: a write of data
-- that fit in the block, from its start on, answers OK, and a read of as many bytes at the same
-- offset then answers these data.
pub escribir_nodo-leer_nodo :
    (now i : ℕ) (node : GFile) (datos : List ℕ) (ptr b offset : ℕ) (s : Sac)
    → Puesto i node ptr b offset s
    → offset % block_size ≡ 0
    → length datos ≤ block_size
    → (t : Sac) × (node' : GFile) × (escribir_nodo now i datos (length datos) offset s
        ≡ enviar ok t)
      × (get_elem? t.nodes_table i ≡ some node')
      × (leer_nodo node' (length datos) offset t ≡ enviar (contenido datos) t)
unfolding escribir_nodo asegurar_puntero escribir_en leer_nodo
escribir_nodo-leer_nodo now i node datos ptr b offset s p inicio cabe =
    let n = length datos in
    let node2 = record node { size = (node.size + n) % u32_mod; modification_date = now } in
    let t = set_node i node2 (set_block b (escribir_bytes (s.blocks b) datos n) s) in
    let todo : en_bloque offset n ≡ n = ground arith in
    let bb : b == b ≡ true = ground arith in
    (
      t,
      node2,
      rw (p.en_tabla, p.puntero, p.puntero_puesto)
          (rw (p.en_tabla, p.puntero)
            (rw (p.bloque, p.bloque_puesto) (rw (p.en_tabla, p.bloque, todo) refl))),
      get_elem?-set_self s.nodes_table i node2 (lt-of_get_elem? s.nodes_table i node p.en_tabla),
      rw (p.puntero, p.puntero_puesto, p.distintos)
          (rw (p.bloque, p.bloque_puesto)
            (rw (todo, inicio, bb, leer_bytes-escribir_bytes (s.blocks b) datos) refl)),
    )
