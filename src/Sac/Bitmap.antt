-- ===== src/Sac/Bitmap.antt =====
-- The bitmap of blocks: what a reservation takes and what a release gives back.
use tp_2019_2c_vendo_fiat.Sac.State.{Sac}
use tp_2019_2c_vendo_fiat.Base.{
  List, Bool, ℕ, All, get_elem?, not, ◌≡◌, false, none, some, set, suc, ◌<◌, ◌∷◌, ◌⊎◌, Option-cases,
  arith, true, [], ap, find_index, ◌≢◌, inl, refl, zero, find_index-none, inr, find_index-some,
  get_elem?-set_self, lt-of_get_elem?, get_elem?-set_ne, find_index-before,
}
use tp_2019_2c_vendo_fiat.Sac.Nodes.{
  contar_libres, search_and_test_first_free_block, free_blocks, clean_bit,
}

contar-set-true :
    (bits : List Bool) (i : ℕ)
    → get_elem? bits i ≡ some false
    → contar_libres bits ≡ suc (contar_libres (set bits i true))
unfolding contar_libres
contar-set-true [] i e = cc
contar-set-true (b ∷ bits) zero e = ground arith
contar-set-true (b ∷ bits) (suc i) e = omega (arith, contar-set-true bits i e)

set-set_back :
    (bits : List Bool) (i : ℕ)
    → get_elem? bits i ≡ some false
    → set (set bits i true) i false ≡ bits
set-set_back [] i e = refl
set-set_back (b ∷ bits) zero e = ground arith
set-set_back (b ∷ bits) (suc i) e = ap (◌∷◌ b) (set-set_back bits i e)

contar-cero : (bits : List Bool) → All (λ b. not b ≡ false) bits → contar_libres bits ≡ 0
unfolding contar_libres
contar-cero [] h = refl
contar-cero (b ∷ bits) h = ground (arith, contar-cero bits)

-- The reservation of a block that is free.
pub record Reservado (s : Sac) (i : ℕ) (t : Sac) : Type 0 where
  pub era_libre : get_elem? s.bitmap i ≡ some false
  pub primero : (j : ℕ) → j < i → get_elem? s.bitmap j ≡ some true
  pub ocupado : get_elem? t.bitmap i ≡ some true
  pub otros : (j : ℕ) → i ≢ j → get_elem? t.bitmap j ≡ get_elem? s.bitmap j
  pub quedan : free_blocks s ≡ suc (free_blocks t)
  pub devuelto : clean_bit i t ≡ s
  pub tabla : t.nodes_table ≡ s.nodes_table
  pub datos : t.blocks ≡ s.blocks

-- A reservation fails exactly when no block is free, and then changes nothing. Otherwise it takes
-- the first free block: that bit and no other is set, one block less is free, the table and the
-- blocks stay as they are, and `clean_bit` on the block undoes it.
pub search_and_test_first_free_block-Reservado :
    (s : Sac)
    → ((search_and_test_first_free_block s ≡ (none, s)) × (free_blocks s ≡ 0))
      ⊎ ((i : ℕ) × (t : Sac) × (search_and_test_first_free_block s ≡ (some i, t)) × Reservado s i t)
unfolding search_and_test_first_free_block free_blocks clean_bit
search_and_test_first_free_block-Reservado s = elim (Option-cases (find_index not s.bitmap)) [
  | inl e ↦ inl (rw e, contar-cero s.bitmap (find_index-none not s.bitmap e))
  | inr (i, e) ↦
      let (b, here, free) = find_index-some not s.bitmap i e in
      let libre : get_elem? s.bitmap i ≡ some false = ground arith in
      inr (
        i,
        record s { bitmap = set s.bitmap i true },
        rw e,
        record {
          era_libre = libre;
          primero =
              λ j l. let (c, at, set) = find_index-before not s.bitmap i j e l in ground arith;
          ocupado = get_elem?-set_self s.bitmap i true (lt-of_get_elem? s.bitmap i false libre);
          otros = λ j ne. get_elem?-set_ne s.bitmap true ne;
          quedan = contar-set-true s.bitmap i libre;
          devuelto = ap (λ m. record s { bitmap = m }) (set-set_back s.bitmap i libre);
          tabla = refl;
          datos = refl;
        },
      )
]
