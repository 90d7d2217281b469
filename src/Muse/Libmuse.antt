-- ===== src/Muse/Libmuse.antt =====
-- libmuse/libmuse/libmuse.c, lines 199 to 204 and 216 to 379: the client of MUSE. Its copies of the
-- functions of shared/shared/protocol.c are the same, but for `send_status`. `red` stands for the
-- connection, as in Protocol.Conexion; the sizes of the contents are those that are sent.
use tp_2019_2c_vendo_fiat.Protocol.Conexion.{pedir}
use tp_2019_2c_vendo_fiat.Protocol.Words.{bytes_le, word_le}
use tp_2019_2c_vendo_fiat.Protocol.Mensaje.{send_message}
use tp_2019_2c_vendo_fiat.Base.{
  List, ℕ, Option, Bool, length, option_case, ◌++◌, none, some, if◌then◌else◌, ◌==◌, [], take, ◌^◌,
  ◌-◌,
}
use tp_2019_2c_vendo_fiat.Protocol.Head
use tp_2019_2c_vendo_fiat.Base.Int.{ℤ, pos, negsuc}

-- The status is sent as the head.
unfoldable pub libmuse_send_status : ℕ → ℕ → List ℕ
libmuse_send_status head status = send_message status (bytes_le 4 status)

unfoldable pub pedido_get : ℕ → ℕ → List ℕ
pedido_get src n = bytes_le 4 src ++ bytes_le 8 n

-- The count of the data is an int.
unfoldable pub pedido_cpy : ℕ → List ℕ → List ℕ
pedido_cpy dst src = bytes_le 4 dst ++ (bytes_le 4 (length src) ++ src)

unfoldable pub pedido_map : List ℕ → ℕ → ℕ → List ℕ
pedido_map path length_map flags =
    bytes_le 8 (length path) ++ (path ++ (bytes_le 8 length_map ++ bytes_le 4 flags))

-- The message with which a client closes.
unfoldable pub libmuse_close : List ℕ
libmuse_close = libmuse_send_status Head.muse_close 1

module _ {ℓ} {S : Type ℓ} (red : List ℕ → S → Option (List ℕ × S)) (errno : ℕ) where
  -- -1 where the answer is an ERROR, or else 0.
  unfoldable pub pedir_cero : ℕ → List ℕ → S → Option (ℤ × S)
  pedir_cero head content s =
      option_case (pedir red errno (send_message head content) s) none
        (λ r. some ((if r.0.head == Head.error then negsuc 0 else pos 0), r.2))

  -- The number of the client that comes back.
  unfoldable pub libmuse_init : ℕ → S → Option (ℕ × S)
  libmuse_init id s =
      option_case (pedir red errno (send_message Head.muse_init (bytes_le 4 id)) s) none
        (λ r. some (word_le (take 4 r.0.content), r.2))

  -- A uint32_t: -1 is 2^32 - 1.
  unfoldable pub libmuse_alloc : ℕ → S → Option (ℕ × S)
  libmuse_alloc tam s =
      option_case (pedir red errno (send_message Head.muse_alloc (bytes_le 4 tam)) s) none (λ r.
        some ((if r.0.head == Head.error then 2 ^ 32 - 1 else word_le (take 4 r.0.content)), r.2))

  -- Whether the program is killed by SIGSEGV.
  unfoldable pub libmuse_free : ℕ → S → Option (Bool × S)
  libmuse_free dir s =
      option_case (pedir red errno (send_message Head.muse_free (bytes_le 4 dir)) s) none
        (λ r. some (r.0.head == Head.error, r.2))

  -- The answer, and the bytes that go to `dst`.
  unfoldable pub libmuse_get : ℕ → ℕ → S → Option (ℤ × List ℕ × S)
  libmuse_get src n s =
      option_case (pedir red errno (send_message Head.muse_get (pedido_get src n)) s) none (λ r.
        some (if r.0.head == Head.error then (negsuc 0, [], r.2) else (pos 0, r.0.content, r.2)))

  unfoldable pub libmuse_cpy : ℕ → List ℕ → S → Option (Bool × S)
  libmuse_cpy dst src s =
      option_case (pedir red errno (send_message Head.muse_cpy (pedido_cpy dst src)) s) none
        (λ r. some (r.0.head == Head.error, r.2))

  unfoldable pub libmuse_map : List ℕ → ℕ → ℕ → S → Option (ℕ × S)
  libmuse_map path length_map flags s =
      option_case
        (pedir red errno (send_message Head.muse_map (pedido_map path length_map flags)) s) none
        (λ r.
          some ((if r.0.head == Head.error then 2 ^ 32 - 1 else word_le (take 4 r.0.content)), r.2))

  unfoldable pub libmuse_sync : ℕ → ℕ → S → Option (ℤ × S)
  libmuse_sync addr len s = pedir_cero Head.muse_sync (pedido_get addr len) s

  -- The head is that of a sync.
  unfoldable pub libmuse_unmap : ℕ → S → Option (ℤ × S)
  libmuse_unmap dir s = pedir_cero Head.muse_sync (bytes_le 4 dir) s
