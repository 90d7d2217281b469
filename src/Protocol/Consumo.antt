-- ===== src/Protocol/Consumo.antt =====
-- A message that is received takes bytes from its socket.
use tp_2019_2c_vendo_fiat.Base.{
  Bool, SiHay, length, ℕ, if_elim, ◌<◌, ◌==◌, ◌≡◌, ◌≤◌, arith, false, is_empty, true, ◌||◌, ltb,
  not, drop, length-drop, SiHay-mono, refl,
}
use tp_2019_2c_vendo_fiat.Protocol.Mensaje.{
  error, Socket, TMessage, recv_content, recv_message, size_header, size_size,
}
use tp_2019_2c_vendo_fiat.Protocol.Head

-- The head that the end of a connection, or an error, is given.
abbrev pub es_final : TMessage → Bool
es_final m = m.head == Head.no_connection || m.head == Head.error_recv

-- Fewer bytes are left, unless the message is that of an end; never more.
pub record Consume (s : Socket) (r : TMessage × Socket) : Type 0 where
  pub hasta : length r.1.bytes ≤ length s.bytes
  pub menos : es_final r.0 ≡ false → length r.1.bytes < length s.bytes

error-es_final : (ended : Bool) (errno : ℕ) → es_final (error ended errno) ≡ true
unfolding error
error-es_final true errno = refl
error-es_final false errno = refl

Consume-final :
    (s : Socket) (m : TMessage) (t : Socket)
    → length t.bytes ≤ length s.bytes
    → es_final m ≡ true
    → Consume s (m, t)
Consume-final s m t h e = record { hasta = h; menos = λ f. ground arith }

Consume-menos :
    (s : Socket) (m : TMessage) (t : Socket) → length t.bytes < length s.bytes → Consume s (m, t)
Consume-menos s m t h = record { hasta = omega (arith, h); menos = λ f. h }

recv_content-length :
    (size : ℕ) (s : Socket) → SiHay (λ r. length r.1.bytes ≤ length s.bytes) (recv_content size s)
unfolding recv_content
recv_content-length size s =
    let P = SiHay (λ (r : TMessage × Socket). length r.1.bytes ≤ length s.bytes) in
    if_elim P (size == 0) _ _ (λ _. omega arith)
      λ _.
        if_elim P (is_empty s.bytes) _ _ (λ _. omega arith)
          λ _.
            if_elim P (ltb size size_header) _ _ (λ _. tt)
              λ _.
                if_elim P (ltb (length s.bytes) size) _ _ (λ _. tt)
                  λ _. omega (arith, length-drop size s.bytes)

pub recv_message-Consume : (s : Socket) → SiHay (Consume s) (recv_message s)
unfolding recv_message
recv_message-Consume s =
    if_elim (SiHay (Consume s)) (is_empty s.bytes) _ _
      (λ _. Consume-final s _ s (omega arith) (error-es_final (not s.broken) s.errno))
      λ _.
        if_elim (SiHay (Consume s)) (ltb (length s.bytes) size_size) _ _ (λ _. tt)
          λ h.
            let estan : size_size ≤ length s.bytes = ground arith in
            let s1 = record s { bytes = drop size_size s.bytes } in
            SiHay-mono (λ (r : TMessage × Socket). length r.1.bytes ≤ length s1.bytes) (Consume s)
              (recv_content _ s1) (recv_content-length _ s1)
              (λ r l.
                Consume-menos s r.0 r.1 (omega (arith, l, estan, length-drop size_size s.bytes)))
