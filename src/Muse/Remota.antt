-- ===== src/Muse/Remota.antt =====
-- Calls of libmuse over a connection to the handler of MUSE.
use tp_2019_2c_vendo_fiat.Muse.State.{Maquina}
use tp_2019_2c_vendo_fiat.Muse.Alloc.{muse_alloc}
use tp_2019_2c_vendo_fiat.Protocol.Words.{
  bytes_le, length-bytes_le, pattern32, word_le, word_le-bytes_le,
}
use tp_2019_2c_vendo_fiat.Protocol.Framing.{Cabe}
use tp_2019_2c_vendo_fiat.Muse.Libmuse.{libmuse_get, pedido_get, libmuse_alloc}
use tp_2019_2c_vendo_fiat.Muse.State.{Muse}
use tp_2019_2c_vendo_fiat.Muse.Servidor.{
  turno_de, buffer_de_get, buffer_de, atender_get, atender_alloc, contestar_get,
}
use tp_2019_2c_vendo_fiat.Protocol.Mensaje.{
  size_of, size_header, send_message, size_size, send_status,
}
use tp_2019_2c_vendo_fiat.Base.{
  ℕ, Bool, List, ◌<◌, Option, length, ◌^◌, arith, ◌+◌, ◌≡◌, some, ◌++◌, append_assoc, [], subst,
  ◌∷◌, append-nil, ◌==◌, ◌∙◌, ap, length-append, true, sym, refl, if◌then◌else◌, ◌-◌, if_elim, take,
  ◌%◌, none,
}
use tp_2019_2c_vendo_fiat.Protocol.Conexion.{pedir, campo, conexion, campo-append, recv_solo}
use tp_2019_2c_vendo_fiat.Protocol.Head
use tp_2019_2c_vendo_fiat.Base.Int.{ℤ, pos, negsuc, ltb_ℤ}
use Prim.Native.String.{String}
use tp_2019_2c_vendo_fiat.Muse.Acceso.{Respuesta, muse_get, leido, menos_uno, cero}

pub pedir-turno_de :
    (errno head head2 : ℕ) (content content2 : List ℕ) (s t : Muse)
    (caso : List ℕ → Muse → Option (List ℕ × Muse))
    → Cabe (record { head = head; content = content })
    → caso content s ≡ some (send_message head2 content2, t)
    → Cabe (record { head = head2; content = content2 })
    → pedir (turno_de errno head caso) errno (send_message head content) s
      ≡ some (record { head = head2; content = content2 }, conexion errno [], t)
unfolding pedir turno_de
pedir-turno_de errno head head2 content content2 s t caso c e c2 =
    let mismo : head == head ≡ true = ground arith in
    rw (recv_solo head content errno c, mismo, e, recv_solo head2 content2 errno c2) refl

pub pedir-turno_none :
    (errno head : ℕ) (content : List ℕ) (s : Muse) (caso : List ℕ → Muse → Option (List ℕ × Muse))
    → Cabe (record { head = head; content = content })
    → caso content s ≡ none
    → pedir (turno_de errno head caso) errno (send_message head content) s ≡ none
unfolding pedir turno_de
pedir-turno_none errno head content s caso c e =
    let mismo : head == head ≡ true = ground arith in
    rw (recv_solo head content errno c, mismo, e) refl

-- A number at the front of a content.
campo_primero :
    (n v : ℕ) (resto : List ℕ)
    → v < 256 ^ n
    → campo n 0 (buffer_de (bytes_le n v ++ resto)) ≡ some v
campo_primero n v resto h =
    rw (append_assoc (bytes_le n v) resto (0 ∷ [])) (campo-append n v [] (resto ++ (0 ∷ [])) h)

campo_segundo :
    (u n v : ℕ) (resto : List ℕ)
    → v < 256 ^ n
    → campo n 4 (buffer_de (bytes_le 4 u ++ (bytes_le n v ++ resto))) ≡ some v
campo_segundo u n v resto h =
    let junto =
      append_assoc (bytes_le 4 u) (bytes_le n v ++ resto) (0 ∷ [])
      ∙ ap (◌++◌ (bytes_le 4 u)) (append_assoc (bytes_le n v) resto (0 ∷ [])) in
    let largo : 4 ≡ length (bytes_le 4 u) = sym (length-bytes_le 4 u) in
    subst (λ k. campo n k (buffer_de (bytes_le 4 u ++ (bytes_le n v ++ resto))) ≡ some v)
      (sym largo) (rw junto (campo-append n v (bytes_le 4 u) (resto ++ (0 ∷ [])) h))

pub Cabe-chico :
    (head : ℕ) (content : List ℕ)
    → head < 256
    → length content < 1000
    → Cabe (record { head = head; content = content })
unfolding size_of
Cabe-chico head content h l = record { head = omega arith; size = omega arith }

-- The answers of `muse_alloc`: a direction that is not 0, or less than 0.
abbrev pub Alcanzable : ℤ → Type 0
Alcanzable (pos k) = (0 < k) × (k < 2 ^ 31)
Alcanzable (negsuc k) = Unit

-- What the client makes of them: -1 is 2^32 - 1.
abbrev pub uint_de : ℤ → ℕ
uint_de (pos k) = k
uint_de (negsuc k) = 2 ^ 32 - 1

abbrev cabeza_alloc : ℤ → ℕ
cabeza_alloc z = if ltb_ℤ (pos 0) z then Head.ok else Head.error

cabeza_alloc_corta : (z : ℤ) → cabeza_alloc z < 256
cabeza_alloc_corta z = ground arith

send_status-cabeza_alloc :
    (z : ℤ)
    → (if ltb_ℤ (pos 0) z then send_status Head.ok z else send_status Head.error z)
      ≡ send_message (cabeza_alloc z) (bytes_le 4 (pattern32 z))
unfolding send_status
send_status-cabeza_alloc z =
    if_elim (λ b. b ≡ send_message (cabeza_alloc z) (bytes_le 4 (pattern32 z))) (ltb_ℤ (pos 0) z) _
      _ (λ e. rw e refl) (λ e. rw e refl)

pub word_le-take : (v : ℕ) → v < 256 ^ 4 → word_le (take 4 (bytes_le 4 v)) ≡ v
word_le-take v h = (unfold bytes_le in word_le-bytes_le 4 v h)

leido-uint_de :
    (z : ℤ)
    → Alcanzable z
    → (if cabeza_alloc z == Head.error
        then 2 ^ 32 - 1
        else word_le (take 4 (bytes_le 4 (pattern32 z))))
      ≡ uint_de z
leido-uint_de (pos k) h =
    let positivo : ltb_ℤ (pos 0) (pos k) ≡ true = ground (arith, h.0) in
    rw (positivo, word_le-take (k % 2 ^ 32) (omega arith)) (omega (arith, h.1))
leido-uint_de (negsuc k) h = ground arith

module _ (maquina : Maquina) (string_equals_ignore_case : String → String → Bool)
    (leido_de : String → ℕ → ℕ → ℕ) (errno : ℕ) (id : String) where
  contestar_get_hay :
      (r : Respuesta) (n : ℕ)
      → maquina.hay_memoria n ≡ true
      → contestar_get maquina string_equals_ignore_case leido_de r n
        ≡ some (send_message Head.ok (buffer_de_get maquina r n))
  unfolding contestar_get buffer_de_get
  contestar_get_hay menos_uno n h = rw h refl
  contestar_get_hay cero n h = rw h refl
  contestar_get_hay (leido []) n h = rw h refl
  contestar_get_hay (leido (x ∷ bytes)) n h = rw h refl

  -- For a direction that fits in 4 bytes, a count that fits in 8 and that malloc finds memory for,
  -- and an answer that fits in a message: where the `muse_get` of the server does not fault, libmuse's answers 0, and copies
  -- what is in the buffer of the server: the bytes that were read, or, where the server's answered
  -- -1 or 0 without reading, as many bytes of fresh memory.
  pub libmuse_get-muse_get :
      (src n : ℕ) (s : Muse) (r : Respuesta) (t : Muse)
      → src < 256 ^ 4
      → n < 256 ^ 8
      → maquina.hay_memoria n ≡ true
      → length (buffer_de_get maquina r n) + size_header < 256 ^ size_size
      → muse_get string_equals_ignore_case leido_de id src n s ≡ some (r, t)
      → libmuse_get
          (turno_de errno Head.muse_get (atender_get maquina string_equals_ignore_case leido_de id))
          errno
          src
          n
          s
        ≡ some (pos 0, buffer_de_get maquina r n, t)
  unfolding libmuse_get pedido_get
  libmuse_get-muse_get src n s r t hs hn hm hb e =
      let content = bytes_le 4 src ++ bytes_le 8 n in
      let de_n : campo 8 4 (buffer_de content) ≡ some n =
        subst (λ b. campo 8 4 (buffer_de (bytes_le 4 src ++ b)) ≡ some n)
          (append-nil (bytes_le 8 n)) (campo_segundo src 8 n [] hn) in
      let hecho : atender_get maquina string_equals_ignore_case leido_de id content s
          ≡ some (send_message Head.ok (buffer_de_get maquina r n), t) =
        unfold atender_get in
        rw (campo_primero 4 src (bytes_le 8 n) hs, de_n, e) (rw (contestar_get_hay r n hm) refl) in
      rw
        (pedir-turno_de errno Head.muse_get Head.ok content _ s t _
          (Cabe-chico Head.muse_get content (omega arith) (
            omega (
              arith,
              length-append (bytes_le 4 src) (bytes_le 8 n),
              length-bytes_le 4 src,
              length-bytes_le 8 n,
            )))
          hecho (record { head = omega arith; size = unfold size_of in hb }))
        refl

  -- For a size that fits in 4 bytes: where the `muse_alloc` of the server answers a direction above
  -- 0 and below 2^31, libmuse's answers the same, and where it answers less than 0, libmuse's
  -- answers 2^32 - 1; the state is the one that the server's leaves.
  pub libmuse_alloc-muse_alloc :
      (tam : ℕ) (s : Muse) (z : ℤ) (t : Muse)
      → tam < 256 ^ 4
      → Alcanzable z
      → muse_alloc maquina string_equals_ignore_case id tam s ≡ some (z, t)
      → libmuse_alloc
          (turno_de errno Head.muse_alloc
            (atender_alloc maquina string_equals_ignore_case leido_de id))
          errno
          tam
          s
        ≡ some (uint_de z, t)
  unfolding libmuse_alloc
  libmuse_alloc-muse_alloc tam s z t ht hz e =
      let content = bytes_le 4 tam in
      let head2 = if ltb_ℤ (pos 0) z then Head.ok else Head.error in
      let de_tam : campo 4 0 (buffer_de content) ≡ some tam =
        subst (λ b. campo 4 0 (buffer_de b) ≡ some tam) (append-nil content)
          (campo_primero 4 tam [] ht) in
      let hecho : atender_alloc maquina string_equals_ignore_case leido_de id content s
          ≡ some (send_message (cabeza_alloc z) (bytes_le 4 (pattern32 z)), t) =
        unfold atender_alloc in rw (de_tam, e, send_status-cabeza_alloc z) refl in
      rw
        (
          pedir-turno_de errno Head.muse_alloc (cabeza_alloc z) content _ s t _
              (Cabe-chico Head.muse_alloc content (omega arith)
                (omega (arith, length-bytes_le 4 tam)))
              hecho
              (Cabe-chico (cabeza_alloc z) (bytes_le 4 (pattern32 z)) (cabeza_alloc_corta z)
                (omega (arith, length-bytes_le 4 (pattern32 z)))),
          leido-uint_de z hz,
        )
        refl
