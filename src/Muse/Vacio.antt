-- ===== src/Muse/Vacio.antt =====
-- What the server maps for libmuse's `muse_map`: the length of the path is sent in 8 bytes and read
-- from 4.
use tp_2019_2c_vendo_fiat.Muse.Remota.{Cabe-chico, pedir-turno_none, word_le-take, pedir-turno_de}
use tp_2019_2c_vendo_fiat.Protocol.Framing.{Cabe}
use tp_2019_2c_vendo_fiat.Protocol.Mensaje.{send_status, send_message, size_of}
use tp_2019_2c_vendo_fiat.Muse.Mapa.{muse_map}
use tp_2019_2c_vendo_fiat.Muse.State.{Muse}
use tp_2019_2c_vendo_fiat.Muse.Atencion.{atender_map, contestar_mapa}
use tp_2019_2c_vendo_fiat.Muse.Servidor.{buffer_de, turno_de}
use tp_2019_2c_vendo_fiat.Protocol.Words.{word_le, bytes_le, length-bytes_le, pattern32}
use Prim.Native.String.{String}
use tp_2019_2c_vendo_fiat.Muse.Libmuse.{pedido_map, libmuse_map}
use tp_2019_2c_vendo_fiat.Base.{
  List, ℕ, Bool, length, ◌%◌, ◌≡◌, take, ◌^◌, drop, ◌+◌, ◌-◌, ◌∷◌, [], ◌<◌, option_case, suc, ◌++◌,
  arith, zero, length-append, none, refl, some, leb, true, append_assoc, ◌≤◌, ◌∙◌, ap,
  if◌then◌else◌, ◌==◌, Option-cases, false, inl, inr,
}
use tp_2019_2c_vendo_fiat.Protocol.Conexion.{hasta_nul, campo}
use tp_2019_2c_vendo_fiat.Protocol.Head
use tp_2019_2c_vendo_fiat.Base.Int.{ℤ, pos, negsuc, ltb_ℤ}

hasta_nul_cero : (n b : ℕ) (bs : List ℕ) → b ≡ 0 → hasta_nul (take n (b ∷ bs)) ≡ []
unfolding hasta_nul
hasta_nul_cero zero b bs e = refl
hasta_nul_cero (suc n) b bs e = rw e refl

-- What the client makes of an answer that is sent in 32 bits.
abbrev pub uint32_de : ℤ → ℕ
uint32_de (pos k) = k % 2 ^ 32
uint32_de (negsuc k) = 2 ^ 32 - 1

-- The four bytes that the server takes for the flags.
abbrev pub flags_leidos : List ℕ → ℕ → ℕ → ℕ
flags_leidos path length_map flags =
    word_le (take 4 (drop 12 (buffer_de (pedido_map path length_map flags))))

length-pedido_map :
    (path : List ℕ) (length_map flags : ℕ)
    → length (buffer_de (pedido_map path length_map flags)) ≡ 21 + length path
unfolding pedido_map
length-pedido_map path length_map flags =
    let fin = bytes_le 8 length_map ++ bytes_le 4 flags in
    let todo = bytes_le 8 (length path) ++ (path ++ fin) in
    omega (
      arith,
      length-append todo (0 ∷ []),
      length-append (bytes_le 8 (length path)) (path ++ fin),
      length-append path fin,
      length-append (bytes_le 8 length_map) (bytes_le 4 flags),
      length-bytes_le 8 (length path),
      length-bytes_le 8 length_map,
      length-bytes_le 4 flags,
    )

campo_cabe :
    (n k : ℕ) (buf : List ℕ)
    → k + n ≤ length buf
    → campo n k buf ≡ some (word_le (take n (drop k buf)))
unfolding campo
campo_cabe n k buf h = let esta : leb (k + n) (length buf) ≡ true = ground arith in rw esta refl

-- The 8 bytes of a number below 2^31: the first four are those of an int, the others are 0.
mitad_baja : (n : ℕ) (ys : List ℕ) → n < 2 ^ 31 → word_le (take 4 (bytes_le 8 n ++ ys)) ≡ n
unfolding bytes_le word_le
mitad_baja n ys h = omega arith

mitad_alta :
    (n k : ℕ) (ys : List ℕ) → n < 2 ^ 31 → hasta_nul (take k (drop 4 (bytes_le 8 n ++ ys))) ≡ []
unfolding bytes_le
mitad_alta n k ys h = hasta_nul_cero k _ _ (omega arith)

mitad_alta_word :
    (n : ℕ) (ys : List ℕ) → n < 2 ^ 31 → word_le (take 8 (drop 4 (bytes_le 8 n ++ ys))) % 2 ^ 32 ≡ 0
unfolding bytes_le word_le
mitad_alta_word n ys h = omega arith

module _ (string_equals_ignore_case : String → String → Bool) (texto : List ℕ → String) (errno : ℕ)
    (id : String) where
  atender_map_vacio :
      (path : List ℕ) (length_map flags : ℕ) (s : Muse)
      → length path < 2 ^ 31
      → atender_map string_equals_ignore_case texto id (pedido_map path length_map flags) s
        ≡ option_case
            (muse_map string_equals_ignore_case id
              (texto [])
              0
              (flags_leidos path length_map flags)
              s)
            none
            (λ r. some (contestar_mapa r.0 r.0, r.1))
  unfolding atender_map
  atender_map_vacio path length_map flags s h =
      let n = length path in
      let resto = (path ++ (bytes_le 8 length_map ++ bytes_le 4 flags)) ++ (0 ∷ []) in
      let buf = buffer_de (pedido_map path length_map flags) in
      let largo = length-pedido_map path length_map flags in
      let junto : buf ≡ bytes_le 8 n ++ resto =
        (unfold pedido_map in append_assoc (bytes_le 8 n) _ _) in
      let es_len : campo 4 0 buf ≡ some n =
        campo_cabe 4 0 buf (omega (arith, largo))
        ∙ ap (λ b. some (word_le (take 4 b))) junto
        ∙ ap some (mitad_baja n resto h) in
      let sin_path : hasta_nul (take n (drop 4 buf)) ≡ [] = rw junto (mitad_alta n n resto h) in
      let esta : leb (4 + n) (length buf) ≡ true = ground (arith, largo) in
      let es_tamanio : campo 8 4 buf ≡ some (word_le (take 8 (drop 4 buf))) =
        campo_cabe 8 4 buf (omega (arith, largo)) in
      let es_cero : word_le (take 8 (drop 4 buf)) % 2 ^ 32 ≡ 0 =
        rw junto (mitad_alta_word n resto h) in
      let es_flags : campo 4 12 buf ≡ some (flags_leidos path length_map flags) =
        campo_cabe 4 12 buf (omega (arith, largo)) in
      rw (es_len, sin_path, esta, es_tamanio, es_flags, es_cero) refl

  contestar_mapa-send :
      (z : ℤ)
      → (head : ℕ) × (content : List ℕ) × (contestar_mapa z z ≡ send_message head content)
        × Cabe (record { head = head; content = content })
        × ((if head == Head.error then 2 ^ 32 - 1 else word_le (take 4 content)) ≡ uint32_de z)
  unfolding contestar_mapa send_status
  contestar_mapa-send (pos k) =
      let positivo : ltb_ℤ (pos k) (pos 0) ≡ false = ground arith in
      let content = bytes_le 4 (k % 2 ^ 32) in
      (
        Head.ok,
        content,
        rw positivo refl,
        Cabe-chico Head.ok content (omega arith) (omega (arith, length-bytes_le 4 (k % 2 ^ 32))),
        word_le-take (k % 2 ^ 32) (omega arith),
      )
  contestar_mapa-send (negsuc k) =
      let content = bytes_le 4 (pattern32 (negsuc 0)) in
      (
        Head.error,
        content,
        (let negativo : ltb_ℤ (negsuc k) (pos 0) ≡ true = ground arith in rw negativo refl),
        Cabe-chico Head.error content (omega arith)
            (omega (arith, length-bytes_le 4 (pattern32 (negsuc 0)))),
        refl,
      )

  -- For a path of less than 2^31 bytes: whatever the path, the size and the flags are, the server
  -- maps nothing of the file "" to libmuse's `muse_map`, with the flags that it makes out of the
  -- bytes of the path and the size; libmuse's answers the direction of that, in 32 bits, or 2^32 -
  -- 1.
  pub libmuse_map_vacio :
      (path : List ℕ) (length_map flags : ℕ) (s : Muse)
      → length path < 2 ^ 31
      → libmuse_map
          (turno_de errno Head.muse_map (atender_map string_equals_ignore_case texto id))
          errno
          path
          length_map
          flags
          s
        ≡ option_case
            (muse_map string_equals_ignore_case id
              (texto [])
              0
              (flags_leidos path length_map flags)
              s)
            none
            (λ r. some (uint32_de r.0, r.1))
  unfolding libmuse_map
  libmuse_map_vacio path length_map flags s h =
      let content = pedido_map path length_map flags in
      let caso = atender_map string_equals_ignore_case texto id in
      let pedida =
        muse_map string_equals_ignore_case id (texto []) 0 (flags_leidos path length_map flags) s in
      let hecho = atender_map_vacio path length_map flags s h in
      let cabe : Cabe (record { head = Head.muse_map; content = content }) = record {
        head = omega arith;
        size =
            unfold size_of in
            omega
              (arith, h, length-pedido_map path length_map flags, length-append content (0 ∷ []));
      } in
      elim (Option-cases pedida) [
        | inl nada ↦
            rw
              (
                nada,
                pedir-turno_none errno Head.muse_map content s caso cabe (
                    hecho
                    ∙ ap (λ o. option_case o none (λ r. some (contestar_mapa r.0 r.0, r.1))) nada),
              )
              refl
        | inr hay ↦
            let r = hay.0 in
            let (head, content2, enviado, entra, leido) = contestar_mapa-send r.0 in
            rw
              (
                hay.1,
                pedir-turno_de errno Head.muse_map head content content2 s r.1 caso cabe
                    (hecho
                      ∙ ap (λ o. option_case o none (λ q. some (contestar_mapa q.0 q.0, q.1))) hay.1
                      ∙ ap (λ b. some (b, r.1)) enviado)
                    entra,
                leido,
              )
              refl
      ]
