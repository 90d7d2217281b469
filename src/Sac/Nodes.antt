-- ===== src/Sac/Nodes.antt =====
-- SAC-server/src/nodes.c: paths, the search for a node, the bitmap of blocks and the blocks of a
-- file. `string_split` of commons/string.h, on the separator "/", is a parameter.
use tp_2019_2c_vendo_fiat.Sac.State.{
  Sac, GFile, block_size, set_block, t_deleted, blocks_node, escribir_ptr, zeros, set_node,
  blocks_indirect,
}
use tp_2019_2c_vendo_fiat.Base.{
  List, ℕ, Bool, Option, if◌then◌else◌, set, ◌/◌, false, find_index, last, none, option_case, suc,
  take, ◌==◌, ◌∷◌, bytes_eq, length, not, some, ◌&&◌, ◌*◌, ◌+◌, [], true, ◌-◌, zero, ◌%◌, ltb, ◌^◌,
}

abbrev barra : ℕ
barra = b'/'

unfoldable pub is_last_char : List ℕ → ℕ → Bool
is_last_char str chr = option_case (last str) false (λ c. c == chr)

-- search_first_free_node: `none` for -1.
unfoldable pub search_first_free_node : Sac → Option ℕ
search_first_free_node s = find_index (λ node. node.status == t_deleted) s.nodes_table

-- search_and_test_first_free_block: the first clear bit is set; `none` for -1.
unfoldable pub search_and_test_first_free_block : Sac → Option ℕ × Sac
search_and_test_first_free_block s =
    option_case (find_index not s.bitmap) (none, s)
      (λ i. (some i, record s { bitmap = set s.bitmap i true }))

unfoldable pub contar_libres : List Bool → ℕ
contar_libres [] = 0
contar_libres (b ∷ bits) = (if b then 0 else 1) + contar_libres bits

unfoldable pub free_blocks : Sac → ℕ
free_blocks s = contar_libres s.bitmap

pub record Position : Type 0 where
  pub indirect : ℕ
  pub block : ℕ

-- The int of 32 bits that is the negative of `k`.
abbrev pub menos_int : ℕ → ℕ
menos_int k = (2 ^ 32 - k) % 2 ^ 32

-- get_position: `div` takes an int, which holds the low 32 bits of the offset; ints are held by
-- their 32 bits, and the division of a negative one goes towards 0.
unfoldable pub get_position : ℕ → Position
get_position offset =
    let int = offset % 2 ^ 32 in
    let bytes = block_size * blocks_node in
    let k = menos_int int in
    if ltb int (2 ^ 31)
    then record { indirect = int / bytes; block = int % bytes / block_size }
    else record { indirect = menos_int (k / bytes); block = menos_int (k % bytes / block_size) }

-- Whether a position is within the arrays of pointers.
abbrev pub dentro : Position → Bool
dentro pos = ltb pos.indirect blocks_indirect && ltb pos.block blocks_node

unfoldable pub clean_bit : ℕ → Sac → Sac
clean_bit b s = record s { bitmap = set s.bitmap b false }

-- The block of pointers of `allocate_node`: a new one where the position in it is 0.
unfoldable pub bloque_de_punteros : ℕ → GFile → ℕ → Position → Sac → Option (ℕ × Sac)
bloque_de_punteros i node free_block pos s =
    let r = search_and_test_first_free_block s in
    if pos.block == 0
    then option_case r.0 none (λ new_node.
      let s1 = set_block new_node zeros r.1 in
      some (
        new_node,
        set_node i
            (record node {
              blocks_ptr = λ j.
                  if j == pos.indirect
                  then new_node
                  else if j == pos.indirect + 1
                  then 0
                  else node.blocks_ptr j;
            })
            s1,
      ))
    else some (node.blocks_ptr pos.indirect, s)

-- allocate_node for the node in place `i` of the table: the inner `none` for a negative result. A
-- position outside of the arrays is a fault.
unfoldable pub allocate_node : ℕ → GFile → Sac → Option (Option ℕ × Sac)
allocate_node i node s =
    let r = search_and_test_first_free_block s in
    let pos = get_position node.size in
    option_case r.0 (some (none, s)) (λ free_block.
      if free_block == 0
      then some (some 0, r.1)
      else if dentro pos
      then some (
          option_case (bloque_de_punteros i node free_block pos r.1)
            (none, clean_bit free_block r.1)
            (λ p. (
              some free_block,
              set_block p.0 (escribir_ptr (p.1.blocks p.0) pos.block free_block) p.1,
            )))
      else none)

module _ (string_split : List ℕ → List (List ℕ)) where
  -- get_name: the last piece of the path, `none` where there is none and the code reads before the
  -- array.
  unfoldable pub get_name : List ℕ → Option (List ℕ)
  get_name path = last (string_split path)

  -- get_directory: the path without a slash at its end and without its name.
  unfoldable pub sin_barra : List ℕ → List ℕ
  sin_barra path = if is_last_char path barra then take (length path - 1) path else path

  unfoldable pub get_directory : List ℕ → Option (List ℕ)
  get_directory path =
      option_case (get_name path) none
        λ file. some (take (length (sin_barra path) - length file) (sin_barra path))

  unfoldable pub es_nodo : ℕ → List ℕ → GFile → Bool
  es_nodo root name node = node.root == root && bytes_eq node.file_name name

  unfoldable pub buscar_en : ℕ → List ℕ → Sac → Option ℕ
  buscar_en root name s =
      option_case (find_index (es_nodo root name) s.nodes_table) none (λ i. some (suc i))

  -- search_node on fuel. The outer `none` is a fault, or fuel that ran out; the inner one stands
  -- for -1. Where the directory is not found the code returns a variable that was never set: a
  -- fault.
  unfoldable pub search_node_fuel : ℕ → List ℕ → Sac → Option (Option ℕ)
  search_node_fuel zero path s = none
  search_node_fuel (suc f) path s =
      let directory = option_case (get_directory path) none (λ dir. search_node_fuel f dir s) in
      if bytes_eq path (barra ∷ [])
      then some (some 0)
      else option_case (get_name path) none (λ name.
        option_case directory none
          (λ found. option_case found none (λ root. some (buscar_en root name s))))

  unfoldable pub search_node : List ℕ → Sac → Option (Option ℕ)
  search_node path s = search_node_fuel (suc (length path)) path s
