-- ===== src/Sac/Operations.antt =====
-- SAC-server/src/operations.c: the operations of the file system, but `sac_write`, `sac_read` and
-- `sac_truncate`. An operation returns what it sends to the client and the new image; `none` is a
-- fault. `string_split` and the time are parameters. The place of a node is its index less 1: with
-- the path "/", or one that `search_node` does not find where the code does not ask, the code goes
-- outside the table, a fault.
use tp_2019_2c_vendo_fiat.Sac.Bloques.{delete_blocks}
use tp_2019_2c_vendo_fiat.Sac.Nodes.{
  search_and_test_first_free_block, search_first_free_node, search_node, get_name, get_directory,
}
use tp_2019_2c_vendo_fiat.Sac.State.{
  Respuesta, GFile, Sac, dir_name, error, edquot, enoent, ok, t_file, enotempty, set_node, t_dir,
  eexist, enlaces, set_block, t_deleted, atributos, zeros, escribir_ptr,
}
use tp_2019_2c_vendo_fiat.Base.{
  List, Option, ℕ, Bool, if◌then◌else◌, option_case, some, ◌∷◌, [], none, ◌==◌, any, get_elem?, suc,
  ◌&&◌, bytes_eq, zero, ◌++◌, ◌+◌, true, ◌||◌,
}

abbrev pub Salida : Type 0
Salida = Option (List Respuesta × Sac)

abbrev pub enviar : Respuesta → Sac → Salida
enviar r s = some (r ∷ [], s)

unfoldable pub get_subdirectories : ℕ → List GFile → ℕ
get_subdirectories node [] = 0
get_subdirectories node (n ∷ ns) =
    (if n.root == node && n.status == t_dir then 1 else 0) + get_subdirectories node ns

unfoldable pub get_number_links : ℕ → ℕ → Sac → ℕ
get_number_links status index s =
    if status == t_file then 1 else get_subdirectories index s.nodes_table + 2

-- nodes_table[index - 1]
abbrev pub con_nodo : Option ℕ → Sac → (ℕ → GFile → Salida) → Salida
con_nodo none s f = none
con_nodo (some zero) s f = none
con_nodo (some (suc i)) s f = option_case (get_elem? s.nodes_table i) none (f i)

-- An entry of the directory `index`.
unfoldable pub es_entrada : ℕ → GFile → Bool
es_entrada index node = node.root == index && (node.status == t_dir || node.status == t_file)

unfoldable pub entradas : ℕ → List GFile → List Respuesta
entradas index [] = []
entradas index (n ∷ ns) =
    if es_entrada index n then dir_name n.file_name ∷ entradas index ns else entradas index ns

-- `sac_create`, once the node in place `i` was taken for a file of the directory `root`.
unfoldable pub crear_archivo : ℕ → ℕ → GFile → List ℕ → Sac → Salida
crear_archivo now i node name s =
    let r = search_and_test_first_free_block s in
    option_case r.0 (enviar (error edquot) s) λ b.
      let node1 = record node {
        blocks_ptr = λ j. if j == 0 then b else if j == 1 then 0 else node.blocks_ptr j;
      } in
      let s1 = set_node i node1 r.1 in
      let r2 = search_and_test_first_free_block s1 in
      option_case r2.0 (enviar (error edquot) s1) λ d.
        let s2 = set_block d zeros (set_block b (escribir_ptr (escribir_ptr zeros 0 d) 1 0) r2.1) in
        enviar ok (
          set_node i
            (record node1 { creation_date = now; modification_date = now; file_name = name }) s2)

-- `sac_mkdir`, once a block was taken: the node in place `i` is the directory.
unfoldable pub crear_directorio : ℕ → ℕ → ℕ → GFile → List ℕ → Sac → Salida
crear_directorio now i root node name s =
    let r = search_and_test_first_free_block s in
    option_case r.0 (enviar (error edquot) s) λ b. enviar ok (
      set_node i
        (record node {
          status = t_dir;
          file_name = name;
          size = 0;
          root = root;
          modification_date = now;
          creation_date = now;
        })
        r.1)

module _ (string_split : List ℕ → List (List ℕ)) where
  unfoldable pub sac_getattr : List ℕ → Sac → Salida
  sac_getattr path s = option_case (search_node string_split path s) none λ found.
      option_case found (enviar (error enoent) s) λ index.
        if bytes_eq path (b'/' ∷ [])
        then enviar (enlaces (get_number_links t_dir 0 s)) s
        else con_nodo (some index) s λ i node.
          enviar
            (atributos node.size node.creation_date node.modification_date node.status
              (get_number_links node.status index s))
            s

  -- What `sac_create` and `sac_mkdir` share: the path is new and its directory is there.
  unfoldable pub con_directorio : List ℕ → Sac → (ℕ → List ℕ → Salida) → Salida
  con_directorio path s f = option_case (search_node string_split path s) none λ found.
      option_case found
        (option_case (get_name string_split path) none λ name.
          option_case (get_directory string_split path) none λ dir.
            option_case (search_node string_split dir s) none
              λ root. option_case root (enviar (error enoent) s) λ r. f r name)
        (λ index. enviar (error eexist) s)

  -- With no free node the code writes before the table.
  unfoldable pub sac_create : ℕ → List ℕ → Sac → Salida
  sac_create now path s = con_directorio path s λ root name.
      option_case (search_first_free_node s) none λ i.
        option_case (get_elem? s.nodes_table i) none λ old.
          let node = record old { size = 0; root = root; status = t_file } in
          crear_archivo now i node name (set_node i node s)

  unfoldable pub sac_mkdir : ℕ → List ℕ → Sac → Salida
  sac_mkdir now path s = con_directorio path s λ root name.
      option_case (search_first_free_node s) (enviar (error edquot) s) λ i.
        option_case (get_elem? s.nodes_table i) none λ old. crear_directorio now i root old name s

  unfoldable pub sac_unlink : List ℕ → Sac → Salida
  sac_unlink path s = option_case (search_node string_split path s) none λ found.
      option_case found (enviar (error enoent) s) λ index. con_nodo (some index) s λ i node.
        let s1 = delete_blocks i node 0 true s in
        option_case (get_elem? s1.nodes_table i) none
          λ node1. enviar ok (set_node i (record node1 { status = t_deleted; file_name = [] }) s1)

  unfoldable pub sac_readdir : List ℕ → Sac → Salida
  sac_readdir path s = option_case (search_node string_split path s) none λ found.
      option_case found (enviar (error enoent) s)
        λ index. some (entradas index s.nodes_table ++ (ok ∷ []), s)

  unfoldable pub sac_rmdir : List ℕ → Sac → Salida
  sac_rmdir path s = option_case (search_node string_split path s) none λ found.
      option_case found none λ index.
        if any (es_entrada index) s.nodes_table
        then enviar (error enotempty) s
        else con_nodo (some index) s
            λ i node. enviar ok (set_node i (record node { status = t_deleted; file_name = [] }) s)

  unfoldable pub sac_utimens : List ℕ → ℕ → Sac → Salida
  sac_utimens path last_mod s = option_case (search_node string_split path s) none λ found.
      con_nodo found s
        λ i node. enviar ok (set_node i (record node { modification_date = last_mod }) s)

  unfoldable pub sac_rename : ℕ → List ℕ → List ℕ → Sac → Salida
  sac_rename now old_path new_path s =
      option_case (search_node string_split old_path s) none λ found.
        option_case (get_name string_split new_path) none λ name.
          option_case (get_directory string_split new_path) none λ dir.
            option_case (search_node string_split dir s) none λ new_root.
              option_case new_root (enviar (error enoent) s) λ root. con_nodo found s λ i node.
                enviar ok (
                  set_node i
                    (record node { file_name = name; modification_date = now; root = root }) s)
