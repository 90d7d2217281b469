-- ===== src/Sac/Wire.antt =====
-- SAC-server/src/aux.c and the loop `listen_sac_cli` of SAC-server/src/SAC-server.c: what the
-- server reads out of a message, and what it answers. The buffer of a content has a NUL after it; a
-- read past that, a path of more than 70 bytes in the 71 of its array, and what `recv_message`
-- makes a fault, are faults. An answer is a list of messages. Status codes are those of Linux.
use tp_2019_2c_vendo_fiat.Protocol.Conexion.{campo, hasta_nul}
use tp_2019_2c_vendo_fiat.Sac.Datos.{sac_truncate, sac_read, sac_write}
use tp_2019_2c_vendo_fiat.Sac.Operations.{
  Salida, sac_getattr, sac_mkdir, sac_rmdir, sac_utimens, sac_create, sac_rename, sac_unlink,
  sac_readdir,
}
use tp_2019_2c_vendo_fiat.Protocol.Words.{bytes_le}
use tp_2019_2c_vendo_fiat.Protocol.Mensaje.{TMessage, Socket, send_message, recv_message}
use tp_2019_2c_vendo_fiat.Base.{
  List, ℕ, Bool, Option, if◌then◌else◌, ◌∷◌, leb, length, ltb, none, option_case, ◌++◌, ◌==◌, ◌^◌,
  [], drop, suc, true, ◌&&◌, ◌+◌, ◌-◌, ◌||◌, false, some, take, zero,
}
use tp_2019_2c_vendo_fiat.Protocol.Head
use tp_2019_2c_vendo_fiat.Sac.State.{
  Respuesta, Errno, Sac, ok, error, enlaces, atributos, dir_name, contenido, enoent, eexist, edquot,
  enospc, enotempty,
}

unfoldable pub codigo : Errno → ℕ
codigo enoent = 2
codigo eexist = 17
codigo edquot = 122
codigo enospc = 28
codigo enotempty = 39

-- The message that carries an answer of an operation.
unfoldable pub mensaje_de : Respuesta → TMessage
mensaje_de ok = record { head = Head.ok; content = bytes_le 4 0 }
mensaje_de (error e) = record { head = Head.error; content = bytes_le 4 (2 ^ 32 - codigo e) }
mensaje_de (enlaces n) = record { head = Head.ok; content = bytes_le 4 n }
mensaje_de (atributos size creation_date modification_date status links) = record {
  head = Head.ok;
  content =
      bytes_le 4 size
      ++ (bytes_le 8 creation_date
          ++ (bytes_le 8 modification_date ++ (bytes_le 1 status ++ bytes_le 4 links)));
}
mensaje_de (dir_name name) = record { head = Head.dir_name; content = name }
mensaje_de (contenido bytes) = record { head = Head.ok; content = bytes }

abbrev pub responder : List Respuesta → List ℕ
responder [] = []
responder (r ∷ rs) = send_message (mensaje_de r).head (mensaje_de r).content ++ responder rs

abbrev pub path_size : ℕ
path_size = 71

-- The first `n` bytes of a buffer, copied to the array of the path.
unfoldable pub copiar_path : ℕ → List ℕ → Option (List ℕ)
copiar_path n buf =
    if ltb n path_size && leb n (length buf) then some (hasta_nul (take n buf)) else none

unfoldable pub fill_path : List ℕ → Bool → Option (List ℕ)
fill_path buf false = copiar_path (length (hasta_nul buf)) buf
fill_path buf true = option_case (campo 8 0 buf) none (λ n. copiar_path n (drop 8 buf))

-- A path that comes with its length, and where the fields after it begin.
abbrev pub con_largo :
    List ℕ → (List ℕ → ℕ → Option (List Respuesta × Sac)) → Option (List Respuesta × Sac)
con_largo buf f = option_case (fill_path buf true) none (λ path. f path (8 + length path))

-- The heads whose content is a path.
abbrev pub es_de_path : ℕ → Bool
es_de_path head =
    head == Head.get_attr
    || head == Head.mkdir
    || head == Head.rmdir
    || head == Head.create
    || head == Head.unlink
    || head == Head.readdir

module _ (string_split : List ℕ → List (List ℕ)) (now fuel : ℕ) where
  -- The cases whose content is a path.
  unfoldable pub atender_path : ℕ → List ℕ → Sac → Salida
  atender_path head path s =
      if head == Head.get_attr
      then sac_getattr string_split path s
      else if head == Head.mkdir
      then sac_mkdir string_split now path s
      else if head == Head.rmdir
      then sac_rmdir string_split path s
      else if head == Head.create
      then sac_create string_split now path s
      else if head == Head.unlink
      then sac_unlink string_split path s
      else if head == Head.readdir
      then sac_readdir string_split path s
      else some ([], s)

  -- The cases whose content is a path with its length and more, but WRITE; a head that the server
  -- does not know gets no answer.
  unfoldable pub atender_largo : ℕ → List ℕ → Sac → Salida
  atender_largo head buf s =
      if head == Head.truncate
      then con_largo buf (λ path k.
        option_case (campo 8 k buf) none (λ off. sac_truncate string_split fuel path off s))
      else if head == Head.read
      then con_largo buf (λ path k. option_case (campo 8 k buf) none λ size.
        option_case (campo 8 (k + 8) buf) none (λ off. sac_read string_split path size off s))
      else if head == Head.utime
      then con_largo buf (λ path k.
        option_case (campo 8 k buf) none (λ last_mod. sac_utimens string_split path last_mod s))
      else if head == Head.rename
      then con_largo buf (λ path k.
        option_case (fill_path (drop k buf) true) none
          (λ new_path. sac_rename string_split now path new_path s))
      else some ([], s)

  -- The case WRITE: the data are the content of a second message.
  unfoldable pub atender_write : List ℕ → Socket → Sac → Option (List Respuesta × Socket × Sac)
  atender_write buf socket s = option_case (fill_path buf true) none λ path.
      option_case (campo 8 (8 + length path) buf) none λ size.
        option_case (campo 8 (8 + length path + 8) buf) none λ offset.
          option_case (recv_message socket) none λ r.
            let datos = r.0.content ++ (0 ∷ []) in
            if leb size (length datos)
            then option_case (sac_write string_split now path (take size datos) size offset s) none
                (λ q. some (q.0, r.1, q.1))
            else none

  -- A turn of the loop, on the message `m`, but the answer to HI_PLEASE_BE_MY_FRIEND.
  unfoldable pub turno : TMessage → Socket → Sac → Option (List Respuesta × Socket × Sac)
  turno m socket s =
      let buf = m.content ++ (0 ∷ []) in
      if m.head == Head.write
      then atender_write buf socket s
      else if es_de_path m.head
      then option_case (fill_path buf false) none
          (λ path. option_case (atender_path m.head path s) none (λ q. some (q.0, socket, q.1)))
      else option_case (atender_largo m.head buf s) none (λ q. some (q.0, socket, q.1))

  -- HI_PLEASE_BE_MY_FRIEND is answered with the number of the socket.
  unfoldable pub contestar : ℕ → TMessage → List Respuesta → List ℕ
  contestar numero m rs =
      if m.head == Head.hi_please_be_my_friend
      then send_message Head.hi_please_be_my_friend (bytes_le 4 numero)
      else responder rs

  -- The loop of the thread for a client, on at most `turnos` messages, up to the end of the
  -- connection: the bytes that it sends, and the image that it leaves.
  unfoldable pub listen_sac_cli : ℕ → ℕ → Socket → Sac → Option (List ℕ × Sac)
  listen_sac_cli zero numero socket s = none
  listen_sac_cli (suc turnos) numero socket s = option_case (recv_message socket) none λ r.
      if r.0.head == Head.no_connection || r.0.head == Head.error_recv
      then some ([], s)
      else option_case (turno r.0 r.1 s) none λ q.
        option_case (listen_sac_cli turnos numero q.1 q.2) none
          λ rest. some (contestar numero r.0 q.0 ++ rest.0, rest.1)
