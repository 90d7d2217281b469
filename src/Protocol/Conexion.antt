-- ===== src/Protocol/Conexion.antt =====
-- A request over a connection to a server, and the fields of a content.
-- The first message of an answer and the rest.
use tp_2019_2c_vendo_fiat.Protocol.Framing.{Cabe, recv_message-send_message}
use tp_2019_2c_vendo_fiat.Protocol.Words.{
  bytes_le, word_le, length-bytes_le, drop-append_self, campo-bytes_le,
}
use tp_2019_2c_vendo_fiat.Protocol.Mensaje.{Socket, TMessage, recv_message, send_message}
use tp_2019_2c_vendo_fiat.Base.{
  List, ℕ, Option, ◌<◌, false, if◌then◌else◌, ◌^◌, leb, length, option_case, none, ◌++◌, ◌+◌, some,
  ◌≡◌, take, true, arith, drop, length-append, refl, [], subst, append-nil, ◌∷◌, ◌==◌,
}

abbrev pub conexion : ℕ → List ℕ → Socket
conexion errno bytes = record { bytes = bytes; broken = false; errno = errno }

-- What is sent, and the first message that comes back. `red` takes what is sent and the state of
-- the server, and answers what comes back and the new state.
unfoldable pub pedir {ℓ} :
    {S : Type ℓ}
    → (List ℕ → S → Option (List ℕ × S))
    → ℕ
    → List ℕ
    → S
    → Option (TMessage × Socket × S)
pedir red errno bytes s =
    option_case (red bytes s) none
      λ r. option_case (recv_message (conexion errno r.0)) none (λ q. some (q.0, q.1, r.1))

-- An integer of `n` bytes at an offset of a buffer.
unfoldable pub campo : ℕ → ℕ → List ℕ → Option ℕ
campo n offset buf =
    if leb (offset + n) (length buf) then some (word_le (take n (drop offset buf))) else none

-- The string at the front of a buffer.
unfoldable pub hasta_nul : List ℕ → List ℕ
hasta_nul [] = []
hasta_nul (b ∷ bs) = if b == 0 then [] else b ∷ hasta_nul bs

-- A field at the front of what is left of a buffer.
pub campo-append :
    (n v : ℕ) (antes despues : List ℕ)
    → v < 256 ^ n
    → campo n (length antes) (antes ++ (bytes_le n v ++ despues)) ≡ some v
unfolding campo
campo-append n v antes despues h =
    let esta : leb (length antes + n) (length (antes ++ (bytes_le n v ++ despues))) ≡ true =
      ground (
        arith,
        length-append antes (bytes_le n v ++ despues),
        length-append (bytes_le n v) despues,
        length-bytes_le n v,
      ) in
    rw (esta, drop-append_self antes (bytes_le n v ++ despues), campo-bytes_le n v despues h) refl

-- One message, and nothing after it.
pub recv_solo :
    (head : ℕ) (content : List ℕ) (errno : ℕ)
    → Cabe (record { head = head; content = content })
    → recv_message (conexion errno (send_message head content))
      ≡ some (record { head = head; content = content }, conexion errno [])
recv_solo head content errno c =
    subst
      (λ b.
        recv_message (conexion errno b)
        ≡ some (record { head = head; content = content }, conexion errno []))
      (append-nil (send_message head content))
      (recv_message-send_message (record { head = head; content = content }) [] false errno c)
