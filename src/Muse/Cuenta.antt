-- ===== src/Muse/Cuenta.antt =====
-- The count of bytes that libmuse's `muse_cpy` sends, and the one that the handler reads.
use tp_2019_2c_vendo_fiat.Muse.State.{Maquina}
use tp_2019_2c_vendo_fiat.Protocol.Words.{bytes_le, word_le}
use tp_2019_2c_vendo_fiat.Muse.Libmuse.{libmuse_cpy, pedido_cpy}
use tp_2019_2c_vendo_fiat.Muse.State.{Muse}
use tp_2019_2c_vendo_fiat.Muse.Servidor.{turno_de, buffer_de, atender_cpy}
use tp_2019_2c_vendo_fiat.Protocol.Mensaje.{size_of, size_header, size_size}
use tp_2019_2c_vendo_fiat.Base.{
  ℕ, Bool, List, ◌<◌, length, ◌^◌, arith, ◌+◌, ◌≡◌, ◌++◌, [], ◌∷◌, length-append, true, refl, none,
  ◌%◌, ◌*◌, ◌/◌, leb, false,
}
use tp_2019_2c_vendo_fiat.Protocol.Conexion.{pedir, campo, recv_solo}
use tp_2019_2c_vendo_fiat.Protocol.Head
use Prim.Native.String.{String}

module _ (maquina : Maquina) (string_equals_ignore_case : String → String → Bool)
    (leido_de : String → ℕ → ℕ → ℕ) (errno : ℕ) (id : String) where
  -- The server reads the count of the data as 8 bytes, with the first four of the data.
  atender_cpy_falla :
      (dst a b c d : ℕ) (rest : List ℕ) (s : Muse)
      → 0 < a + b + c + d
      → length rest < 2 ^ 31
      → atender_cpy maquina string_equals_ignore_case leido_de id
          (pedido_cpy dst (a ∷ b ∷ c ∷ d ∷ rest))
          s
        ≡ none
  unfolding atender_cpy pedido_cpy campo bytes_le word_le
  atender_cpy_falla dst a b c d rest s h l =
      let cola = length-append rest (0 ∷ []) in
      let n = length (a ∷ b ∷ c ∷ d ∷ rest) in
      let leidos : ℕ =
        n % 256
        + 256
          * (n / 256 % 256
              + 256
                * (n / 256 / 256 % 256
                    + 256
                      * (n / 256 / 256 / 256 % 256
                          + 256 * (a + 256 * (b + 256 * (c + 256 * (d + 256 * 0))))))) in
      let hay_dst : leb 4 (length (buffer_de (pedido_cpy dst (a ∷ b ∷ c ∷ d ∷ rest)))) ≡ true =
        ground (arith, cola) in
      let hay_n : leb 12 (length (buffer_de (pedido_cpy dst (a ∷ b ∷ c ∷ d ∷ rest)))) ≡ true =
        ground (arith, cola) in
      let faltan : leb leidos (length (rest ++ (0 ∷ []))) ≡ false = ground (arith, cola) in
      rw (hay_dst, hay_n, faltan) refl

  -- Of data of at least four bytes and less than 2^31 + 4, the first four not all zero, libmuse's
  -- `muse_cpy` makes the server read past the message, whatever the direction and the state.
  pub libmuse_cpy_falla :
      (dst a b c d : ℕ) (rest : List ℕ) (s : Muse)
      → 0 < a + b + c + d
      → length rest < 2 ^ 31
      → libmuse_cpy
          (turno_de errno Head.muse_cpy (atender_cpy maquina string_equals_ignore_case leido_de id))
          errno
          dst
          (a ∷ b ∷ c ∷ d ∷ rest)
          s
        ≡ none
  unfolding libmuse_cpy pedir turno_de
  libmuse_cpy_falla dst a b c d rest s h l =
      let content = pedido_cpy dst (a ∷ b ∷ c ∷ d ∷ rest) in
      let largo : length content + size_header < 256 ^ size_size =
        unfold pedido_cpy bytes_le in omega arith in
      rw
        (
          recv_solo Head.muse_cpy content errno
              (record { head = omega arith; size = unfold size_of in largo }),
          atender_cpy_falla dst a b c d rest s h l,
        )
        refl
