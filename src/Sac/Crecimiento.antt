-- ===== src/Sac/Crecimiento.antt =====
-- What growing a file asks of the bitmap.
use tp_2019_2c_vendo_fiat.Sac.Nodes.{free_blocks}
use tp_2019_2c_vendo_fiat.Sac.State.{Sac, block_size, error, enospc}
use tp_2019_2c_vendo_fiat.Base.{ℕ, ◌<◌, ◌-◌, ◌%◌, ◌*◌, ◌≡◌, ◌+◌, arith, lt→ltb, refl}
use tp_2019_2c_vendo_fiat.Sac.Datos.{agrandar, nodo, size_mod}
use tp_2019_2c_vendo_fiat.Sac.Operations.{enviar}

-- A file that is to grow and not to fill its last block needs no block, and is refused with ENOSPC
-- however many blocks are free, their bytes being less than 2^64 - 4096: the difference of the
-- sizes wraps around.
pub agrandar_dentro :
    (fuel i offset : ℕ) (s : Sac)
    → (nodo i s).size < offset
    → offset - (nodo i s).size < block_size - (nodo i s).size % block_size
    → free_blocks s * block_size < size_mod - block_size
    → agrandar fuel i offset s ≡ enviar (error enospc) s
unfolding agrandar
agrandar_dentro fuel i offset s crece cabe libres =
    let resta : free_blocks s * block_size
        < ((offset - (nodo i s).size) + size_mod - (block_size - (nodo i s).size % block_size))
          % size_mod =
      omega arith in
    rw (lt→ltb _ _ resta) refl
