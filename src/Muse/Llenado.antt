-- ===== src/Muse/Llenado.antt =====
-- `muse_alloc` as a whole, on a program whose segments are filled by their blocks.
use tp_2019_2c_vendo_fiat.Muse.Segmentacion.{Teselado}
use Prim.Native.String.{String}
use tp_2019_2c_vendo_fiat.Muse.State.{Muse}
