-- ===== src/Sac/Datos.antt =====
-- SAC-server/src/operations.c: `sac_read`, `sac_write` and `sac_truncate`.
use tp_2019_2c_vendo_fiat.Sac.Bloques.{delete_blocks}
use tp_2019_2c_vendo_fiat.Sac.Nodes.{get_position, search_node, free_blocks, allocate_node}
use tp_2019_2c_vendo_fiat.Sac.Operations.{Salida, enviar, con_nodo}
use tp_2019_2c_vendo_fiat.Sac.State.{
  GFile, Sac, block_size, set_node, Respuesta, leer_ptr, contenido, error, ok, edquot, enoent,
  enospc, set_block,
}
use tp_2019_2c_vendo_fiat.Base.{
  Bool, List, ℕ, [], if◌then◌else◌, ◌^◌, Option, ltb, option_case, suc, ◌-◌, get_elem?, get_or, leb,
  some, ◌%◌, ◌+◌, ◌∷◌, none, zero, ◌==◌, ◌*◌, false, true, ◌++◌,
}

abbrev pub u32_mod : ℕ
u32_mod = 2 ^ 32

-- size_t has 64 bits.
abbrev pub size_mod : ℕ
size_mod = 2 ^ 64

-- The bytes of a block from an offset on.
unfoldable pub leer_bytes : (ℕ → ℕ) → ℕ → ℕ → List ℕ
leer_bytes bytes k zero = []
leer_bytes bytes k (suc n) = bytes k ∷ leer_bytes bytes (suc k) n

-- memcpy(block->data, data, n)
unfoldable pub escribir_bytes : (ℕ → ℕ) → List ℕ → ℕ → ℕ → ℕ
escribir_bytes bytes datos n k = if ltb k n then get_or datos k 0 else bytes k

-- How much of `size` bytes goes into the block of the offset.
abbrev pub en_bloque : ℕ → ℕ → ℕ
en_bloque offset size =
    let space_in_block = block_size - offset % block_size in
    if ltb size space_in_block then size else space_in_block

-- A test of `sac_write` on a pointer that is 0: a block is allocated; the inner `none` where that
-- fails.
unfoldable pub asegurar_puntero : Bool → ℕ → Sac → Option (Option ℕ × Sac)
asegurar_puntero false i s = some (some 0, s)
asegurar_puntero true i s =
    option_case (get_elem? s.nodes_table i) (some (none, s)) (λ node. allocate_node i node s)

abbrev pub nodo : ℕ → Sac → GFile
nodo i s = option_case (get_elem? s.nodes_table i) vacio (λ node. node)
  where
    vacio : GFile
    vacio = record {
      status = 0;
      file_name = [];
      root = 0;
      size = 0;
      creation_date = 0;
      modification_date = 0;
      blocks_ptr = λ j. 0;
    }

-- The end of `sac_write`: the data go to the start of the block, whatever the offset in it.
unfoldable pub escribir_en : ℕ → ℕ → ℕ → List ℕ → ℕ → ℕ → Sac → Salida
escribir_en now i ptr datos size offset s =
    let pos = get_position offset in
    let b = leer_ptr (s.blocks ptr) pos.block in
    let n = en_bloque offset size in
    let node = nodo i s in
    enviar ok (
      set_node i (record node { size = (node.size + n) % u32_mod; modification_date = now })
        (set_block b (escribir_bytes (s.blocks b) datos n) s))

-- `sac_write` in the node in place `i`.
unfoldable pub escribir_nodo : ℕ → ℕ → List ℕ → ℕ → ℕ → Sac → Salida
escribir_nodo now i datos size offset s =
    let pos = get_position offset in
    option_case (asegurar_puntero ((nodo i s).blocks_ptr pos.indirect == 0) i s) none λ r.
      option_case r.0 (enviar (error edquot) r.1) λ _.
        let ptr = (nodo i r.1).blocks_ptr pos.indirect in
        option_case (asegurar_puntero (leer_ptr (r.1.blocks ptr) pos.block == 0) i r.1) none λ r2.
          option_case r2.0 (enviar (error edquot) r2.1)
            λ _. escribir_en now i ptr datos size offset r2.1

unfoldable pub leer_nodo : GFile → ℕ → ℕ → Sac → Salida
leer_nodo node size offset s =
    let pos = get_position offset in
    let ptr = node.blocks_ptr pos.indirect in
    let b = leer_ptr (s.blocks ptr) pos.block in
    if ptr == 0
    then enviar (contenido (0 ∷ [])) s
    else if b == 0
    then enviar (contenido (0 ∷ [])) s
    else enviar (contenido (leer_bytes (s.blocks b) (offset % block_size) (en_bloque offset size)))
        s

-- The loop of `sac_truncate`, at most `fuel` rounds; `none` if there would be more, and for a
-- fault of `allocate_node`. `size` is a
-- size_t and wraps around. A failed allocation is reported and the loop goes on.
unfoldable pub crecer : ℕ → ℕ → ℕ → ℕ → Sac → Option (ℕ × List Respuesta × Sac)
crecer zero i space size s = if leb space size then none else some (size, [], s)
crecer (suc fuel) i space size s =
    let rest = option_case (allocate_node i (nodo i s) s) none λ r.
      let s1 = r.1 in
      let node = nodo i s1 in
      let s2 = set_node i (record node { size = (node.size + block_size) % u32_mod }) s1 in
      option_case (crecer fuel i space ((size + size_mod - block_size) % size_mod) s2) none
        λ q. some (q.0, option_case r.0 (error enospc ∷ []) (λ _. []) ++ q.1, q.2) in
    if leb space size then rest else some (size, [], s)

unfoldable pub sumar_tamanio : ℕ → ℕ → Sac → Sac
sumar_tamanio i n s = set_node i (record (nodo i s) { size = ((nodo i s).size + n) % u32_mod }) s

-- `sac_truncate` to a size beyond that of the node in place `i`.
unfoldable pub agrandar : ℕ → ℕ → ℕ → Sac → Salida
agrandar fuel i offset s =
    let node = nodo i s in
    let space = block_size - node.size % block_size in
    let size = offset - node.size in
    if ltb (free_blocks s * block_size) ((size + size_mod - space) % size_mod)
    then enviar (error enospc) s
    else if leb size space
    then enviar ok (sumar_tamanio i size s)
    else option_case (crecer fuel i space size (sumar_tamanio i space s)) none
        λ q. some (q.1 ++ (ok ∷ []), sumar_tamanio i q.0 q.2)

unfoldable pub truncar_nodo : ℕ → ℕ → GFile → ℕ → Sac → Salida
truncar_nodo fuel i node offset s =
    if leb offset node.size
    then enviar ok (delete_blocks i node offset false s)
    else agrandar fuel i offset s

module _ (string_split : List ℕ → List (List ℕ)) where
  unfoldable pub sac_write : ℕ → List ℕ → List ℕ → ℕ → ℕ → Sac → Salida
  sac_write now path datos size offset s =
      option_case (search_node string_split path s) none
        λ found. con_nodo found s λ i node. escribir_nodo now i datos size offset s

  unfoldable pub sac_read : List ℕ → ℕ → ℕ → Sac → Salida
  sac_read path size offset s =
      option_case (search_node string_split path s) none
        λ found. con_nodo found s λ i node. leer_nodo node size offset s

  unfoldable pub sac_truncate : ℕ → List ℕ → ℕ → Sac → Salida
  sac_truncate fuel path offset s = option_case (search_node string_split path s) none λ found.
      option_case found (enviar (error enoent) s)
        λ index. con_nodo (some index) s λ i node. truncar_nodo fuel i node offset s
