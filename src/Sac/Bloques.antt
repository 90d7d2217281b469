-- ===== src/Sac/Bloques.antt =====
-- SAC-server/src/operations.c, lines 200 to 231: the loops of `delete_blocks`, for an
-- offset below 2^31.
use tp_2019_2c_vendo_fiat.Sac.Nodes.{get_position, clean_bit}
use tp_2019_2c_vendo_fiat.Sac.State.{
  GFile, Sac, set_block, blocks_node, leer_ptr, block_size, zeros, blocks_indirect, set_node,
  escribir_ptr,
}
use tp_2019_2c_vendo_fiat.Base.{Bool, ℕ, if◌then◌else◌, suc, ltb, ◌%◌, ◌==◌, zero, ◌-◌, not, ◌||◌}

-- memset(data + offset, 0, BLOCK_SIZE): it runs into the next block of the image.
unfoldable pub borrar_datos : ℕ → ℕ → Sac → Sac
borrar_datos b offset s =
    let s1 = set_block b (λ k. if ltb k offset then s.blocks b k else 0) s in
    set_block (suc b) (λ k. if ltb k offset then 0 else s1.blocks (suc b) k) s1

-- One round of the inner loop: data block `b` stands under the pointer `j` of the block `ptr`.
unfoldable pub borrar_bloque : Bool → ℕ → ℕ → ℕ → ℕ → ℕ → Sac → Sac
borrar_bloque delete desde offset ptr j b s =
    let s1 = if j == desde then borrar_datos b offset s else set_block b zeros s in
    if not (j == 0) || delete
    then set_block ptr (escribir_ptr ((clean_bit b s1).blocks ptr) j 0) (clean_bit b s1)
    else s1

-- `n` rounds of the inner loop, from the pointer `j` on.
unfoldable pub borrar_bloques : Bool → ℕ → ℕ → ℕ → ℕ → ℕ → Sac → Sac
borrar_bloques delete desde offset ptr zero j s = s
borrar_bloques delete desde offset ptr (suc n) j s =
    let b = leer_ptr (s.blocks ptr) j in
    let rest =
      borrar_bloques delete desde offset ptr n (suc j)
        (borrar_bloque delete desde offset ptr j b s) in
    if b == 0 then s else rest

-- `n` rounds of the outer loop, from the block of pointers `i` of the node on.
unfoldable pub borrar_punteros : Bool → ℕ → ℕ → ℕ → ℕ → GFile → Sac → GFile × Sac
borrar_punteros delete desde offset zero i node s = (node, s)
borrar_punteros delete desde offset (suc n) i node s =
    let ptr = node.blocks_ptr i in
    let s1 = borrar_bloques delete desde offset ptr (blocks_node - desde) desde s in
    let hecho = not (i == 0) || delete in
    let rest =
      borrar_punteros delete desde offset n (suc i)
        (if hecho
          then record node { blocks_ptr = λ j. if j == i then 0 else node.blocks_ptr j }
          else node)
        (if hecho then clean_bit ptr s1 else s1) in
    if ptr == 0 then (node, s) else rest

-- delete_blocks for the node in place `i` of the table.
unfoldable pub delete_blocks : ℕ → GFile → ℕ → Bool → Sac → Sac
delete_blocks i node offset delete s =
    let pos = get_position offset in
    let r =
      borrar_punteros delete pos.block (offset % block_size) (blocks_indirect - pos.indirect)
        pos.indirect node s in
    set_node i (record r.0 { size = offset }) r.1
