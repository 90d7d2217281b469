-- ===== src/Protocol/Framing.antt =====
-- What is received is what was sent, whatever follows it on the socket.
use tp_2019_2c_vendo_fiat.Protocol.Head
use tp_2019_2c_vendo_fiat.Protocol.Words.{
  bytes_le, length-bytes_le, is_empty-bytes_le, campo-bytes_le, word_le, drop-bytes_le,
  take-append_self, drop-append_self,
}
use tp_2019_2c_vendo_fiat.Protocol.Mensaje.{
  error, TMessage, recv_content, recv_message, send_message, size_of, size_header, size_size,
  Socket,
}
use tp_2019_2c_vendo_fiat.Base.{
  List, ℕ, ◌<◌, Bool, ◌^◌, ◌∷◌, ◌++◌, [], ◌≡◌, some, length, ◌+◌, arith, length-append, ltb, false,
  ◌==◌, is_empty, ap, append_assoc, ◌∙◌, take, drop, refl, All, Option, none, suc, option_case,
  if◌then◌else◌, zero,
}

-- The bytes of messages, one after the other.
abbrev pub enviados : List TMessage → List ℕ
enviados [] = []
enviados (m ∷ ms) = send_message m.head m.content ++ enviados ms

-- A message whose head and size fit in their fields.
pub record Cabe (m : TMessage) : Type 0 where
  pub head : m.head < 256 ^ size_header
  pub size : size_of m < 256 ^ size_size

recv_content-send :
    (m : TMessage) (resto : List ℕ) (broken : Bool) (errno : ℕ)
    → Cabe m
    → recv_content (size_of m) (record {
      bytes = (bytes_le size_header m.head ++ m.content) ++ resto;
      broken = broken;
      errno = errno;
    })
      ≡ some (m, record { bytes = resto; broken = broken; errno = errno })
unfolding recv_content size_of
recv_content-send m resto broken errno c =
    let x = bytes_le size_header m.head ++ m.content in
    let largo : length m.content + size_header ≡ length x = omega (
      arith,
      length-append (bytes_le size_header m.head) m.content,
      length-bytes_le size_header m.head,
    ) in
    let todos : ltb (length (x ++ resto)) (length m.content + size_header) ≡ false =
      ground (arith, largo, length-append x resto) in
    let alguno : length m.content + size_header == 0 ≡ false = ground arith in
    let con_head : ltb (length m.content + size_header) size_header ≡ false = ground arith in
    let lleno : is_empty (x ++ resto) ≡ false =
      ap is_empty (append_assoc (bytes_le size_header m.head) m.content resto)
      ∙ is_empty-bytes_le 3 m.head (m.content ++ resto) in
    rw (alguno, lleno, con_head, todos)
      (let cabeza : word_le (take size_header (x ++ resto)) ≡ m.head =
          ap (λ y. word_le (take size_header y))
            (append_assoc (bytes_le size_header m.head) m.content resto)
          ∙ campo-bytes_le size_header m.head (m.content ++ resto) c.head in
        let cuerpo : take (size_of m) (x ++ resto) ≡ x =
          ap (λ k. take k (x ++ resto)) largo ∙ take-append_self x resto in
        let sobra : drop (size_of m) (x ++ resto) ≡ resto =
          ap (λ k. drop k (x ++ resto)) largo ∙ drop-append_self x resto in
        rw (cabeza, cuerpo, sobra, drop-bytes_le size_header m.head m.content) refl)

-- A message that was sent is received, and the rest of the bytes stays.
pub recv_message-send_message :
    (m : TMessage) (resto : List ℕ) (broken : Bool) (errno : ℕ)
    → Cabe m
    → recv_message
        (record { bytes = send_message m.head m.content ++ resto; broken = broken; errno = errno })
      ≡ some (m, record { bytes = resto; broken = broken; errno = errno })
unfolding recv_message send_message
recv_message-send_message m resto broken errno c =
    let x = bytes_le size_header m.head ++ m.content in
    let y = bytes_le size_size (size_of m) in
    let junto : send_message m.head m.content ++ resto ≡ y ++ (x ++ resto) =
      append_assoc y x resto in
    let largo : ltb (length (y ++ (x ++ resto))) size_size ≡ false =
      ground (arith, length-append y (x ++ resto), length-bytes_le size_size (size_of m)) in
    rw
      (
        junto,
        is_empty-bytes_le 7 (size_of m) (x ++ resto),
        largo,
        campo-bytes_le size_size (size_of m) (x ++ resto) c.size,
        drop-bytes_le size_size (size_of m) (x ++ resto),
      )
      (recv_content-send m resto broken errno c)

-- Receives message after message until the connection is over, and answers the messages received;
-- a message takes at least a byte, so the count of bytes is enough fuel.
unfoldable pub recibir_todos : ℕ → Socket → Option (List TMessage)
recibir_todos zero s = none
recibir_todos (suc f) s = option_case (recv_message s) none λ r.
    let rest = option_case (recibir_todos f r.1) none (λ ms. some (r.0 ∷ ms)) in
    if r.0.head == Head.no_connection then some [] else rest

-- Messages that were sent one after the other, none of them a NO_CONNECTION, are received as they
-- were sent, in their order and none besides, up to the end of the connection.
pub recibir_todos-enviados :
    (ms : List TMessage) (errno : ℕ)
    → All Cabe ms
    → All (λ m. m.head == Head.no_connection ≡ false) ms
    → recibir_todos
        (suc (length ms))
        (record { bytes = enviados ms; broken = false; errno = errno })
      ≡ some ms
unfolding recibir_todos
recibir_todos-enviados [] errno c h = unfold recv_message error in refl
recibir_todos-enviados (m ∷ ms) errno c h =
    rw
      (
        recv_message-send_message m (enviados ms) false errno c.0,
        h.0,
        recibir_todos-enviados ms errno c.1 h.1,
      )
      refl
