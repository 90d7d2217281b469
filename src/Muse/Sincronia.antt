-- ===== src/Muse/Sincronia.antt =====
-- What `muse_sync` leaves in the mapped file. What reading a file puts in the buffer, whether it
-- can be opened for writing, and `string_equals_ignore_case` are parameters.
use tp_2019_2c_vendo_fiat.Muse.Copia.{Trozos}
use tp_2019_2c_vendo_fiat.Base.Int.{ℤ}
use tp_2019_2c_vendo_fiat.Muse.Quietud.{Quieto}
use tp_2019_2c_vendo_fiat.Base.Int.{ℤ, pos}
use Prim.Native.String.{String}
use tp_2019_2c_vendo_fiat.Muse.State.{Muse}
use tp_2019_2c_vendo_fiat.Base.{drop, ℕ, List, length, take, ◌≡◌, replicate, ◌*◌, ◌-◌, Option, some}

-- What is left where a mapping was written to its file: the answer is 0, the file ends with the
-- last page that was touched, and what was before the first one is gone.
pub record Escrito (path : String) (paginas : List ℕ) (primera fin : ℕ) (s : Muse)
    (r : ℤ × Option (String × List ℕ) × Muse) : Type 0 where
  pub contenido : List ℕ
  pub responde : r.0 ≡ pos 0
  pub archivo : r.1 ≡ some (path, contenido)
  pub tamanio : length contenido ≡ fin * s.tamanio_pagina
  pub escritas :
      Trozos s.tamanio_pagina paginas
        (fin - primera)
        primera
        (drop (primera * s.tamanio_pagina) contenido)
  pub perdido :
      take (primera * s.tamanio_pagina) contenido ≡ replicate (primera * s.tamanio_pagina) 0
  pub quieto : Quieto s r.2
