-- ===== src/Sac/Directorios.antt =====
-- `sac_rmdir` of operations.c against `sac_readdir`.
use tp_2019_2c_vendo_fiat.Sac.Nodes.{search_node}
use tp_2019_2c_vendo_fiat.Sac.State.{
  Respuesta, GFile, Sac, ok, dir_name, set_node, t_deleted, error, enotempty,
}
use tp_2019_2c_vendo_fiat.Sac.Operations.{sac_readdir, entradas, sac_rmdir, es_entrada, enviar}
use tp_2019_2c_vendo_fiat.Base.{
  any, List, ℕ, ◌≡◌, false, some, [], suc, get_elem?, ◌⊎◌, true, ◌∷◌, inl, Bool-cases, inr, ◌++◌,
  refl,
}

entradas-any :
    (index : ℕ) (ns : List GFile)
    → ((any (es_entrada index) ns ≡ false) × (entradas index ns ≡ []))
      ⊎ ((name : List ℕ) × (rest : List Respuesta) × (any (es_entrada index) ns ≡ true)
          × (entradas index ns ≡ dir_name name ∷ rest))
unfolding any entradas
entradas-any index [] = inl (refl, refl)
entradas-any index (n ∷ ns) = elim (Bool-cases (es_entrada index n)) [
  | inl hit ↦ inr (n.file_name, entradas index ns, rw hit refl, rw hit refl)
  | inr miss ↦ elim (entradas-any index ns) [
    | inl (nada, vacio) ↦ inl (rw (miss, nada) refl, rw (miss, vacio) refl)
    | inr (name, rest, hay, lista) ↦ inr (name, rest, rw (miss, hay) refl, rw (miss, lista) refl)
  ]
]

-- A node that a path leads to: either `sac_readdir` lists no entry of it, and `sac_rmdir` answers
-- OK and marks it as deleted, or `sac_readdir` lists an entry, and `sac_rmdir` answers ENOTEMPTY
-- and changes nothing.
pub sac_rmdir-sac_readdir :
    (string_split : List ℕ → List (List ℕ)) (path : List ℕ) (s : Sac) (i : ℕ) (node : GFile)
    → search_node string_split path s ≡ some (some (suc i))
    → get_elem? s.nodes_table i ≡ some node
    → ((sac_readdir string_split path s ≡ enviar ok s)
        × (sac_rmdir string_split path s
            ≡ enviar ok (set_node i (record node { status = t_deleted; file_name = [] }) s)))
      ⊎ ((name : List ℕ) × (rest : List Respuesta) × (sac_readdir string_split path s
            ≡ some (dir_name name ∷ rest, s))
          × (sac_rmdir string_split path s ≡ enviar (error enotempty) s))
unfolding sac_readdir sac_rmdir
sac_rmdir-sac_readdir string_split path s i node e at = elim (entradas-any (suc i) s.nodes_table) [
  | inl (nada, vacio) ↦ inl (rw (e, vacio) refl, rw (e, nada, at) refl)
  | inr (name, rest, hay, lista) ↦
      inr (name, rest ++ (ok ∷ []), rw (e, lista) refl, rw (e, hay) refl)
]
