-- ===== src/Sac/State.antt =====
-- SAC-server/src/nodes.h: the file system image. A block of the image is a map from an offset to a
-- byte and stands under its number in the whole image, as the bitmap counts; `file_system[i]` and
-- `get_block_data(i)` are the same block. A name is the bytes before its NUL. BITMAP_SIZE_BITS is
-- the length of `bitmap`, and BLOCKS_NODE the length of `nodes_table`.
use tp_2019_2c_vendo_fiat.Base.{List, ℕ, Bool, if◌then◌else◌, set, ◌*◌, ◌+◌, ◌==◌, ◌%◌, ◌/◌}

abbrev pub block_size : ℕ
block_size = 4096

abbrev pub blocks_node : ℕ
blocks_node = 1024

abbrev pub blocks_indirect : ℕ
blocks_indirect = 1000

abbrev pub t_deleted : ℕ
t_deleted = 0

abbrev pub t_file : ℕ
t_file = 1

abbrev pub t_dir : ℕ
t_dir = 2

pub record GFile : Type 0 where
  pub status : ℕ
  pub file_name : List ℕ
  pub root : ℕ
  pub size : ℕ
  pub creation_date : ℕ
  pub modification_date : ℕ
  pub blocks_ptr : ℕ → ℕ

pub record Sac : Type 0 where
  pub bitmap : List Bool
  pub nodes_table : List GFile
  pub blocks : ℕ → ℕ → ℕ

abbrev pub set_node : ℕ → GFile → Sac → Sac
set_node i node s = record s { nodes_table = set s.nodes_table i node }

abbrev pub set_block : ℕ → (ℕ → ℕ) → Sac → Sac
set_block b bytes s = record s { blocks = λ j. if b == j then bytes else s.blocks j }

-- memset(block, 0, BLOCK_SIZE)
abbrev pub zeros : ℕ → ℕ
zeros k = 0

-- The word `j` of a block of pointers, least byte first.
unfoldable pub leer_ptr : (ℕ → ℕ) → ℕ → ℕ
leer_ptr bytes j =
    bytes (4 * j)
    + 256 * bytes (4 * j + 1)
    + 65536 * bytes (4 * j + 2)
    + 16777216 * bytes (4 * j + 3)

unfoldable pub escribir_ptr : (ℕ → ℕ) → ℕ → ℕ → ℕ → ℕ
escribir_ptr bytes j v k =
    if k == 4 * j
    then v % 256
    else if k == 4 * j + 1
    then v / 256 % 256
    else if k == 4 * j + 2
    then v / 65536 % 256
    else if k == 4 * j + 3
    then v / 16777216 % 256
    else bytes k

-- What the server sends: a status or a content, under the head OK or ERROR, or the name of an
-- entry.
pub data Errno : Type 0 where
  enoent eexist edquot enospc enotempty : Errno

pub data Respuesta : Type 0 where
  ok : Respuesta
  error : Errno → Respuesta
  enlaces : ℕ → Respuesta
  atributos : (size creation_date modification_date status links : ℕ) → Respuesta
  dir_name : List ℕ → Respuesta
  contenido : List ℕ → Respuesta
