-- ===== src/Muse/State.antt =====
-- muse/src/estructuras.h and the globals of muse/src/muse.h. A BitMemoria or BitSwap is named by
-- its position in the bitmap, a Pagina by a number whose cell stands in the store `paginas`, since
-- a mapping and several segments may hold the same pages. Main memory and the swap area are maps
-- from an offset to a byte. The `espacio` of an InfoHeap is a C int, held as its 32 bits.
use Prim.Native.Nat.{ℕ}
use Prim.Native.String.{String}
use tp_2019_2c_vendo_fiat.Base.{
  Bool, ℕ, List, Option, if◌then◌else◌, leb, ◌==◌, ◌&&◌, ltb, ◌+◌, ◌-◌,
}

pub record BitMemoria : Type 0 where
  pub esta_ocupado : Bool
  pub pos : ℕ
  pub bit_uso : Bool
  pub bit_modificado : Bool

pub record BitSwap : Type 0 where
  pub esta_ocupado : Bool
  pub pos : ℕ

pub record Pagina : Type 0 where
  pub num_pagina : ℕ
  pub presencia : Bool
  pub bit_marco : Option ℕ
  pub bit_swap : Option ℕ

pub record InfoHeap : Type 0 where
  pub direccion_heap : ℕ
  pub espacio : ℕ
  pub libre : Bool
  pub indice : ℕ

pub record Segmento : Type 0 where
  pub num_segmento : ℕ
  pub base_logica : ℕ
  pub tamanio : ℕ
  pub paginas : List ℕ
  pub status_metadata : List InfoHeap
  pub es_mmap : Bool
  pub compartido : Bool
  pub path_mapeo : String
  pub tamanio_mapeo : ℕ

pub record Programa : Type 0 where
  pub id : String
  pub segmentos : List Segmento

pub record Mapeo : Type 0 where
  pub path : String
  pub contador : ℕ
  pub paginas : List ℕ
  pub tamanio : ℕ

pub record Muse : Type 0 where
  pub tamanio_pagina : ℕ
  pub memoria : ℕ → ℕ
  pub area_swap : ℕ → ℕ
  pub bits_memoria : List BitMemoria
  pub bits_memoria_virtual : List BitSwap
  pub puntero_clock : ℕ
  pub espacio_disponible : ℕ
  pub paginas : ℕ → Pagina
  pub next_pagina : ℕ
  pub lista_programas : List Programa
  pub lista_mapeos : List Mapeo

-- memcpy of `n` bytes from the offset `src` of one map to the offset `dst` of another.
abbrev pub memcpy : (ℕ → ℕ) → ℕ → (ℕ → ℕ) → ℕ → ℕ → ℕ → ℕ
memcpy to dst from src n a = if leb dst a && ltb a (dst + n) then from (src + (a - dst)) else to a

abbrev pub set_pagina : ℕ → Pagina → Muse → Muse
set_pagina q v s = record s { paginas = λ j. if q == j then v else s.paginas j }

-- What the machine does where the language leaves it open: the bytes of fresh memory, and those after
-- a HeapMetadata, whether the quotient of two numbers as floats is above a third one as a float, and
-- whether malloc finds as many bytes.
pub record Maquina : Type 0 where
  pub basura : ℕ → ℕ
  pub supera : ℕ → ℕ → ℕ → Bool
  pub hay_memoria : ℕ → Bool
