-- ===== src/Sac/Posicion.antt =====
-- Where an offset of a file is kept, and the pointers of a block.
use tp_2019_2c_vendo_fiat.Sac.Datos.{u32_mod}
use tp_2019_2c_vendo_fiat.Base.{
  ℕ, ◌<◌, ◌*◌, ◌≡◌, if◌then◌else◌, ◌==◌, ◌+◌, ◌%◌, arith, Bool-cases, inl, inr, ◌/◌, ◌≢◌, refl, ◌^◌,
  ltb, ◌≤◌, ◌⊎◌, ◌-◌, suc, ltb→lt, zero,
}
use tp_2019_2c_vendo_fiat.Sac.State.{
  leer_ptr, escribir_ptr, blocks_indirect, blocks_node, block_size,
}
use tp_2019_2c_vendo_fiat.Sac.Nodes.{get_position}

-- The position of an offset that an int holds is a pointer of the node and a pointer of its block,
-- and with the rest inside the block it gives the offset back.
unfoldable pub DeInt : ℕ → Type 0
DeInt offset =
    (offset < 2 ^ 31)
    × ((get_position offset).indirect < blocks_indirect)
    × ((get_position offset).block < blocks_node)
    × (((get_position offset).indirect * blocks_node + (get_position offset).block) * block_size
          + offset % block_size
        ≡ offset)

-- That of another offset of 32 bits is 0 or a negative int.
unfoldable pub DeNegativo : ℕ → Type 0
DeNegativo offset =
    (2 ^ 31 ≤ offset)
    × (((get_position offset).indirect ≡ 0) ⊎ (2 ^ 31 ≤ (get_position offset).indirect))

-- The position of an offset below 2^31 is within the pointers of a node and of a block, and with
-- the rest inside the block it gives the offset back. From there up to 2^32, the pointer of the node
-- is 0 or a negative int, outside of the array, though a file may have up to 1000 * 2^22 bytes.
pub get_position_bounds : (offset : ℕ) → offset < 2 ^ 32 → DeInt offset ⊎ DeNegativo offset
unfolding get_position DeInt DeNegativo
get_position_bounds offset h =
    let int : offset % 2 ^ 32 ≡ offset = omega arith in
    elim (Bool-cases (ltb offset (2 ^ 31))) [
      | inl bajo ↦
          let menor = ltb→lt _ _ bajo in
          inl (rw (int, bajo) (menor, omega arith, omega arith, omega arith))
      | inr alto ↦
          let mayor : 2 ^ 31 ≤ offset = ground (arith, alto) in
          inr (
            rw (int, alto)
              (
                mayor,
                partes ((2 ^ 32 - offset) % 2 ^ 32 / (block_size * blocks_node)) (omega arith),
              ))
    ]
  where
    partes : (q : ℕ) → q ≤ 2 ^ 31 → ((2 ^ 32 - q) % 2 ^ 32 ≡ 0) ⊎ (2 ^ 31 ≤ (2 ^ 32 - q) % 2 ^ 32)
    partes zero k = inl refl
    partes (suc q) k = inr (omega arith)

escribir_ptr_outside : (bytes : ℕ → ℕ) (i v k : ℕ) → k / 4 ≢ i → escribir_ptr bytes i v k ≡ bytes k
unfolding escribir_ptr
escribir_ptr_outside bytes i v k h = ground arith

-- A pointer that was written is read back, and the other pointers of the block are as they were.
pub leer_ptr-escribir_ptr :
    (bytes : ℕ → ℕ) (i j v : ℕ)
    → v < u32_mod
    → leer_ptr (escribir_ptr bytes i v) j ≡ (if i == j then v else leer_ptr bytes j)
unfolding leer_ptr escribir_ptr
leer_ptr-escribir_ptr bytes i j v h = elim (Bool-cases (i == j)) [
  | inl e ↦ ground arith
  | inr ne ↦
      let apart : i ≢ j = ground arith in
      rw
        (
          ne,
          escribir_ptr_outside bytes i v (4 * j) (omega arith),
          escribir_ptr_outside bytes i v (4 * j + 1) (omega arith),
          escribir_ptr_outside bytes i v (4 * j + 2) (omega arith),
          escribir_ptr_outside bytes i v (4 * j + 3) (omega arith),
        )
        refl
]
