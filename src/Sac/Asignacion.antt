-- ===== src/Sac/Asignacion.antt =====
-- What `allocate_node` gives a file.
use tp_2019_2c_vendo_fiat.Sac.Posicion.{leer_ptr-escribir_ptr}
use tp_2019_2c_vendo_fiat.Sac.Bitmap.{search_and_test_first_free_block-Reservado, Reservado}
use tp_2019_2c_vendo_fiat.Sac.Datos.{u32_mod}
use tp_2019_2c_vendo_fiat.Sac.State.{
  blocks_indirect, blocks_node, GFile, Sac, leer_ptr, set_node, set_block, zeros, escribir_ptr,
}
use tp_2019_2c_vendo_fiat.Sac.Nodes.{dentro, allocate_node, bloque_de_punteros, get_position}
use tp_2019_2c_vendo_fiat.Base.{
  ℕ, get_elem?, ◌≡◌, some, false, true, ◌<◌, Bool-cases, ◌≢◌, ◌==◌, inl, inr, arith, sym,
  if◌then◌else◌, ◌+◌, get_elem?-set_self, refl, Option-cases, lt-of_get_elem?,
}

-- The block `b` that a file of the table gets at its end: it was free and is taken, and the
-- pointers of the file at its size lead to it.
pub record Asignado (i : ℕ) (node : GFile) (s : Sac) (b : ℕ) (t : Sac) : Type 0 where
  pub era_libre : get_elem? s.bitmap b ≡ some false
  pub ocupado : get_elem? t.bitmap b ≡ some true
  pub nodo_despues : GFile
  pub en_tabla : get_elem? t.nodes_table i ≡ some nodo_despues
  pub tamanio : nodo_despues.size ≡ node.size
  pub indice : (get_position node.size).indirect < blocks_indirect
  pub bloque_dentro : (get_position node.size).block < blocks_node
  pub apuntado :
      leer_ptr
        (t.blocks (nodo_despues.blocks_ptr ((get_position node.size).indirect)))
        ((get_position node.size).block)
      ≡ b

-- The block of pointers that takes the new pointer.
record ConPunteros (i : ℕ) (node : GFile) (b : ℕ) (s : Sac) (p : ℕ × Sac) : Type 0 where
  sigue : get_elem? p.1.bitmap b ≡ some true
  nodo_despues : GFile
  en_tabla : get_elem? p.1.nodes_table i ≡ some nodo_despues
  tamanio : nodo_despues.size ≡ node.size
  puntero : nodo_despues.blocks_ptr ((get_position node.size).indirect) ≡ p.0

puntero_nuevo :
    (i : ℕ) (node : GFile) (b : ℕ) (s : Sac) (n : ℕ) (t : Sac)
    → get_elem? s.nodes_table i ≡ some node
    → get_elem? s.bitmap b ≡ some true
    → Reservado s n t
    → ConPunteros i node b s (
      n,
      set_node i
          (record node {
            blocks_ptr = λ j.
                if j == (get_position node.size).indirect
                then n
                else if j == (get_position node.size).indirect + 1
                then 0
                else node.blocks_ptr j;
          })
          (set_block n zeros t),
    )
puntero_nuevo i node b s n t at taken res =
    let apart : n ≢ b = λ q. ground (arith, res.era_libre) in
    record {
      sigue = ground (arith, res.otros b apart);
      nodo_despues = record node {
        blocks_ptr = λ j.
            if j == (get_position node.size).indirect
            then n
            else if j == (get_position node.size).indirect + 1
            then 0
            else node.blocks_ptr j;
      };
      en_tabla =
          get_elem?-set_self t.nodes_table i _
            (rw res.tabla (lt-of_get_elem? s.nodes_table i node at));
      tamanio = refl;
      puntero = ground arith;
    }

punteros :
    (i : ℕ) (node : GFile) (b : ℕ) (s : Sac) (p : ℕ × Sac)
    → get_elem? s.nodes_table i ≡ some node
    → get_elem? s.bitmap b ≡ some true
    → bloque_de_punteros i node b (get_position node.size) s ≡ some p
    → ConPunteros i node b s p
unfolding bloque_de_punteros
punteros i node b s p at taken e = elim (Bool-cases ((get_position node.size).block == 0)) [
  | inr later ↦
      let ep : (node.blocks_ptr ((get_position node.size).indirect), s) ≡ p = ground arith in
      rw (sym ep) (record {
        sigue = taken;
        nodo_despues = node;
        en_tabla = at;
        tamanio = refl;
        puntero = refl;
      })
  | inl first ↦ elim (search_and_test_first_free_block-Reservado s) [
    | inl (full, zero_left) ↦ absurd (ground arith)
    | inr (n, t, found, res) ↦
        let ep : (
          n,
          set_node i
              (record node {
                blocks_ptr = λ j.
                    if j == (get_position node.size).indirect
                    then n
                    else if j == (get_position node.size).indirect + 1
                    then 0
                    else node.blocks_ptr j;
              })
              (set_block n zeros t),
        )
            ≡ p =
          ground arith in
        rw (sym ep) (puntero_nuevo i node b s n t at taken res)
  ]
]

asignado :
    (i : ℕ) (node : GFile) (s : Sac) (n : ℕ) (s1 : Sac) (p : ℕ × Sac)
    → n < u32_mod
    → dentro (get_position node.size) ≡ true
    → Reservado s n s1
    → ConPunteros i node n s1 p
    → Asignado i node s n
        (set_block p.0 (escribir_ptr (p.1.blocks p.0) (get_position node.size).block n) p.1)
asignado i node s n s1 p lo d res con = record {
  era_libre = res.era_libre;
  ocupado = con.sigue;
  nodo_despues = con.nodo_despues;
  en_tabla = con.en_tabla;
  tamanio = con.tamanio;
  indice = ground arith;
  bloque_dentro = ground arith;
  apuntado =
      let k = (get_position node.size).block in
      let here : k == k ≡ true = ground arith in
      let there : p.0 == p.0 ≡ true = ground arith in
      rw (con.puntero, there, leer_ptr-escribir_ptr (p.1.blocks p.0) k k n lo, here) refl;
}

-- Where `allocate_node` gives a file of the table the block `b`, which is not block 0 and fits in a
-- pointer, `b` was free and is taken, and the pointers that the file then has at its size lead to
-- `b`, at a position within both arrays of pointers; the size stays.
pub allocate_node-Asignado :
    (i : ℕ) (node : GFile) (s : Sac) (b : ℕ) (t : Sac)
    → get_elem? s.nodes_table i ≡ some node
    → b < u32_mod
    → b ≢ 0
    → allocate_node i node s ≡ some (some b, t)
    → Asignado i node s b t
unfolding allocate_node
allocate_node-Asignado i node s b t at lo ne e =
    elim (search_and_test_first_free_block-Reservado s) [
      | inl (full, zero_left) ↦ absurd (ground arith)
      | inr (n, s1, found, res) ↦ elim (Bool-cases (n == 0)) [
        | inl at_zero ↦ absurd (ne (ground arith))
        | inr positive ↦ elim (Bool-cases (dentro (get_position node.size))) [
          | inr fuera ↦ absurd (ground arith)
          | inl d ↦ elim (Option-cases (bloque_de_punteros i node n (get_position node.size) s1)) [
            | inl failed ↦ absurd (ground arith)
            | inr (p, done) ↦
                let same : n ≡ b = ground arith in
                let after : set_block p.0
                      (escribir_ptr (p.1.blocks p.0) (get_position node.size).block n) p.1
                    ≡ t =
                  ground arith in
                let con = punteros i node n s1 p (rw res.tabla at) res.ocupado done in
                rw (sym same, sym after) (asignado i node s n s1 p (rw same lo) d res con)
          ]
        ]
      ]
    ]
