-- ===== src/Protocol/Mensaje.antt =====
-- shared/shared/protocol.c. A socket holds the bytes that were sent to it and not read yet, and
-- whether what follows them is an error in place of the end of the connection; `errno` is what
-- errno holds then. `recv` with MSG_WAITALL waits for all the bytes that it is asked for, and
-- answers the count of those that it got: fewer at the end only.
use tp_2019_2c_vendo_fiat.Protocol.Words.{bytes_le, signed32, pattern32, word_le}
use tp_2019_2c_vendo_fiat.Base.Int.{ℤ}
use tp_2019_2c_vendo_fiat.Base.{
  Bool, List, Option, ℕ, if◌then◌else◌, length, is_empty, ◌++◌, ◌+◌, ◌==◌, ◌^◌, some, take, ◌-◌,
  not, true, [], ltb, none, drop,
}
use tp_2019_2c_vendo_fiat.Protocol.Head

pub record TMessage : Type 0 where
  pub head : ℕ
  pub content : List ℕ

pub record Socket : Type 0 where
  pub bytes : List ℕ
  pub broken : Bool
  pub errno : ℕ

-- sizeof(t_header) and sizeof(size_t)
abbrev pub size_header : ℕ
size_header = 4

abbrev pub size_size : ℕ
size_size = 8

-- The size of a message on the wire counts its head.
unfoldable pub size_of : TMessage → ℕ
size_of m = length m.content + size_header

-- What `send_message` sends: the size, then the head and the content in one buffer.
unfoldable pub send_message : ℕ → List ℕ → List ℕ
send_message head content =
    bytes_le size_size (size_of (record { head = head; content = content }))
    ++ (bytes_le size_header head ++ content)

-- `status` is an int32_t.
unfoldable pub send_status : ℕ → ℤ → List ℕ
send_status head status = send_message head (bytes_le 4 (pattern32 status))

-- The first four bytes of the content, as an int.
unfoldable pub get_status : TMessage → ℤ
get_status m = signed32 (word_le (take 4 m.content))

-- The message in place of one that was not received: `ended` says that `recv` answered 0.
unfoldable pub error : Bool → ℕ → TMessage
error ended errno = record {
  head = if ended then Head.no_connection else Head.error_recv;
  content = bytes_le 4 (2 ^ 32 - errno);
}

-- `recv_message` answers the message and what is left to read. The socket is closed after a `recv`
-- that answers no bytes, and nothing more is read. `none` is a fault: a part of the bytes came
-- before the end, or the size does not even count the head, and the code goes on with bytes that it
-- never got.
unfoldable pub recv_content : ℕ → Socket → Option (TMessage × Socket)
recv_content size s =
    if size == 0
    then some (error true s.errno, record s { bytes = [] })
    else if is_empty s.bytes
    then some (error (not s.broken) s.errno, s)
    else if ltb size size_header
    then none
    else if ltb (length s.bytes) size
    then none
    else some (
      record {
        head = word_le (take size_header s.bytes);
        content = drop size_header (take size s.bytes);
      },
      record s { bytes = drop size s.bytes },
    )

unfoldable pub recv_message : Socket → Option (TMessage × Socket)
recv_message s =
    if is_empty s.bytes
    then some (error (not s.broken) s.errno, s)
    else if ltb (length s.bytes) size_size
    then none
    else recv_content (word_le (take size_size s.bytes))
        (record s { bytes = drop size_size s.bytes })
