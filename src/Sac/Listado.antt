-- ===== src/Sac/Listado.antt =====
-- The callback that lists a directory, over the connection: the answer is a message for each entry.
use tp_2019_2c_vendo_fiat.Sac.Remotas.{Cabe-corto}
use tp_2019_2c_vendo_fiat.Base.Int.{pos, ltb_ℤ}
use tp_2019_2c_vendo_fiat.Sac.Nodes.{search_node}
use tp_2019_2c_vendo_fiat.Sac.Llamadas.{PathBueno, turno_path}
use tp_2019_2c_vendo_fiat.Sac.Remoto.{servidor, una_vuelta_sola, pedir-servidor}
use tp_2019_2c_vendo_fiat.Protocol.Framing.{Cabe, recv_message-send_message}
use tp_2019_2c_vendo_fiat.Protocol.Words.{bytes_le, length-bytes_le, word_le}
use tp_2019_2c_vendo_fiat.Sac.State.{GFile, Respuesta, Sac, ok, dir_name}
use tp_2019_2c_vendo_fiat.Protocol.Mensaje.{
  send_message, size_of, size_header, size_size, get_status,
}
use tp_2019_2c_vendo_fiat.Sac.Cliente.{leer_nombres, do_readdir}
use tp_2019_2c_vendo_fiat.Protocol.Conexion.{conexion}
use tp_2019_2c_vendo_fiat.Sac.Wire.{mensaje_de, atender_path, responder}
use tp_2019_2c_vendo_fiat.Base.{
  List, ℕ, All, length, Option, ◌++◌, ◌<◌, ◌∷◌, [], if◌then◌else◌, suc, arith, ◌≡◌, Bool-cases,
  some, inl, length-append, false, inr, refl, ◌==◌, ◌+◌, zero,
}
use tp_2019_2c_vendo_fiat.Protocol.Head
use tp_2019_2c_vendo_fiat.Sac.Operations.{sac_readdir, entradas, es_entrada}

-- The names of the nodes that the directory `index` holds, in the order of the table.
unfoldable pub nombres_de : ℕ → List GFile → List (List ℕ)
nombres_de index [] = []
nombres_de index (n ∷ ns) =
    if es_entrada index n then n.file_name ∷ nombres_de index ns else nombres_de index ns

-- The messages of a listing: the first, and those after it.
abbrev primera : List (List ℕ) → Respuesta
primera [] = ok
primera (n ∷ ns) = dir_name n

abbrev siguientes : List (List ℕ) → List Respuesta
siguientes [] = []
siguientes (n ∷ ns) = primera ns ∷ siguientes ns

entradas-nombres_de :
    (index : ℕ) (nodes : List GFile)
    → entradas index nodes ++ (ok ∷ [])
      ≡ primera (nombres_de index nodes) ∷ siguientes (nombres_de index nodes)
unfolding entradas nombres_de
entradas-nombres_de index [] = refl
entradas-nombres_de index (n ∷ ns) = elim (Bool-cases (es_entrada index n)) [
  | inl entra ↦ rw (entra, entradas-nombres_de index ns) refl
  | inr fuera ↦ rw (fuera, entradas-nombres_de index ns) refl
]

-- A name that fits in a message.
abbrev pub NombreCorto : List ℕ → Type 0
NombreCorto name = length name < 72

Cabe-primera : (names : List (List ℕ)) → All NombreCorto names → Cabe (mensaje_de (primera names))
unfolding mensaje_de size_of bytes_le
Cabe-primera [] h = record { head = omega arith; size = omega arith }
Cabe-primera (n ∷ ns) h = record { head = omega arith; size = omega (arith, h.0) }

head-primera : (names : List (List ℕ)) → (mensaje_de (primera names)).head == Head.error ≡ false
unfolding mensaje_de
head-primera [] = refl
head-primera (n ∷ ns) = refl

leer_nombres-siguientes :
    (names : List (List ℕ)) (fuel errno : ℕ)
    → All NombreCorto names
    → length names < fuel
    → leer_nombres fuel (mensaje_de (primera names)) (conexion errno (responder (siguientes names)))
      ≡ some (names, mensaje_de ok)
unfolding leer_nombres mensaje_de
leer_nombres-siguientes [] zero errno h f = ground arith
leer_nombres-siguientes (n ∷ ns) zero errno h f = ground arith
leer_nombres-siguientes [] (suc fuel) errno h f = refl
leer_nombres-siguientes (n ∷ ns) (suc fuel) errno h f =
    let resto = leer_nombres-siguientes ns fuel errno h.1 (omega arith) in
    rw
      (
        recv_message-send_message (mensaje_de (primera ns)) (responder (siguientes ns)) false errno
            (Cabe-primera ns h.1),
        resto,
      )
      refl

length-siguientes :
    (names : List (List ℕ)) → length names < suc (length (responder (siguientes names)))
unfolding send_message
length-siguientes [] = omega arith
length-siguientes (n ∷ ns) =
    let m = mensaje_de (primera ns) in
    let lejos = bytes_le size_header m.head ++ m.content in
    omega (
      arith,
      length-siguientes ns,
      length-append (send_message m.head m.content) (responder (siguientes ns)),
      length-append (bytes_le size_size (size_of m)) lejos,
      length-bytes_le size_size (size_of m),
    )

module _ (string_split : List ℕ → List (List ℕ)) (now fuel turnos numero errno : ℕ) where
  abbrev red : List ℕ → Sac → Option (List ℕ × Sac)
  red = servidor string_split now fuel turnos numero errno

  -- Over a connection that is not down, for a path of at most 70 bytes and no NUL that leads to a
  -- node, with names of at most 71 bytes in it: `do_readdir` answers 0, lists ".", ".." and the
  -- names of the files and directories that the node holds, each once and in the order of the
  -- table, and the image is as it was.
  pub do_readdir-nombres_de :
      (path : List ℕ) (s : Sac) (index n : ℕ)
      → PathBueno path
      → search_node string_split path s ≡ some (some index)
      → All NombreCorto (nombres_de index s.nodes_table)
      → do_readdir red errno (pos n) path s
        ≡ some (pos 0, (b'.' ∷ []) ∷ (b'.' ∷ b'.' ∷ []) ∷ nombres_de index s.nodes_table, s)
  unfolding do_readdir atender_path
  do_readdir-nombres_de path s index n p e h =
      let names = nombres_de index s.nodes_table in
      let hecho : sac_readdir string_split path s ≡ some (primera names ∷ siguientes names, s) =
        unfold sac_readdir in rw (e, entradas-nombres_de index s.nodes_table) refl in
      let ida =
        una_vuelta_sola string_split now fuel turnos numero errno Head.readdir path s
          (primera names ∷ siguientes names) s
          (Cabe-corto Head.readdir path (omega arith) (omega (arith, p.corto))) (refl, refl)
          (turno_path string_split now fuel turnos numero errno Head.readdir path s
            (primera names ∷ siguientes names) s p refl hecho) in
      let nuevo : ltb_ℤ (pos n) (pos 0) ≡ false = ground arith in
      let primero =
        pedir-servidor string_split now fuel turnos numero errno (send_message Head.readdir path) s
          (primera names) (siguientes names) s ida (Cabe-primera names h) in
      let sin_error : (mensaje_de (primera names)).head == Head.error ≡ false =
        head-primera names in
      let leidos =
        leer_nombres-siguientes names (2 + length (responder (siguientes names))) errno h
          (omega (arith, length-siguientes names)) in
      rw (nuevo, primero, sin_error, leidos) (unfold mensaje_de get_status word_le bytes_le in refl)
