-- ===== src/Sac/Sesion.antt =====
-- The thread of a client of the file server, on the whole of what the client sends.
use tp_2019_2c_vendo_fiat.Sac.Datos.{sac_write}
use tp_2019_2c_vendo_fiat.Protocol.Consumo.{Consume, recv_message-Consume, es_final}
use tp_2019_2c_vendo_fiat.Protocol.Conexion.{campo}
use tp_2019_2c_vendo_fiat.Sac.Wire.{
  atender_write, listen_sac_cli, turno, fill_path, es_de_path, atender_path, atender_largo,
  contestar,
}
use tp_2019_2c_vendo_fiat.Sac.State.{Respuesta, Sac}
use tp_2019_2c_vendo_fiat.Base.{
  sym, ◌∙◌, ◌⊎◌, inl, inr, zero, suc, List, ℕ, SiHay, length, option_elim, ◌++◌, ◌<◌, ◌≤◌, ◌∷◌, ◌≡◌,
  [], arith, true, if_elim, none, suc, option_case_cong, ◌==◌, ◌+◌, SiHay-option_case, false,
  if_cong, leb, some, take, ap, option_case, subst, refl,
}
use tp_2019_2c_vendo_fiat.Protocol.Mensaje.{Socket, TMessage, recv_message}
use tp_2019_2c_vendo_fiat.Protocol.Head

-- What a turn leaves on the socket.
abbrev Queda : Socket → List Respuesta × Socket × Sac → Type 0
Queda s q = length q.1.bytes ≤ length s.bytes

module _ (string_split : List ℕ → List (List ℕ)) (now fuel : ℕ) where
  atender_write-Queda :
      (buf : List ℕ) (socket : Socket) (s : Sac)
      → SiHay (Queda socket) (atender_write string_split now fuel buf socket s)
  unfolding atender_write
  atender_write-Queda buf socket s =
      option_elim (SiHay (Queda socket)) (fill_path buf true) none _ (λ _. tt)
        λ path _.
          option_elim (SiHay (Queda socket)) (campo 8 (8 + length path) buf) none _ (λ _. tt)
            λ size _.
              option_elim (SiHay (Queda socket)) (campo 8 (8 + length path + 8) buf) none _
                (λ _. tt)
                λ offset _.
                  SiHay-option_case (Queda socket) (Consume socket) (recv_message socket) _
                    (recv_message-Consume socket)
                    λ r _ c.
                      let datos = r.0.content ++ (0 ∷ []) in
                      if_elim (SiHay (Queda socket)) (leb size (length datos)) _ none
                        (λ _.
                          option_elim (SiHay (Queda socket))
                            (sac_write string_split now path (take size datos) size offset s) none _
                            (λ _. tt) (λ q _. c.hasta))
                        (λ _. tt)

  turno-Queda :
      (m : TMessage) (socket : Socket) (s : Sac)
      → SiHay (Queda socket) (turno string_split now fuel m socket s)
  unfolding turno
  turno-Queda m socket s =
      let buf = m.content ++ (0 ∷ []) in
      if_elim (SiHay (Queda socket)) (m.head == Head.write) _ _
        (λ _. atender_write-Queda buf socket s)
        λ _.
          if_elim (SiHay (Queda socket)) (es_de_path m.head) _ _
            (λ _.
              option_elim (SiHay (Queda socket)) (fill_path buf false) none _ (λ _. tt)
                λ path _.
                  option_elim (SiHay (Queda socket))
                    (atender_path string_split now fuel m.head path s) none _ (λ _. tt)
                    (λ q _. omega arith))
            (λ _.
              option_elim (SiHay (Queda socket)) (atender_largo string_split now fuel m.head buf s)
                none _ (λ _. tt) (λ q _. omega arith))

  -- With more turns than there are bytes on the socket, how many does not matter.
  mas_turnos :
      (f g numero : ℕ) (socket : Socket) (s : Sac)
      → length socket.bytes < f
      → length socket.bytes < g
      → listen_sac_cli string_split now fuel f numero socket s
        ≡ listen_sac_cli string_split now fuel g numero socket s
  unfolding listen_sac_cli
  mas_turnos zero g numero socket s hf hg = absurd (omega arith)
  mas_turnos (suc f) zero numero socket s hf hg = absurd (omega arith)
  mas_turnos (suc f) (suc g) numero socket s hf hg =
      option_case_cong (Consume socket) (recv_message socket) none _ _ (recv_message-Consume socket)
        λ r _ c. if_cong (es_final r.0) (some ([], s)) _ _ λ sigue.
          let quedan = c.menos sigue in
          option_case_cong (Queda r.1) (turno string_split now fuel r.0 r.1 s) none _ _
            (turno-Queda r.0 r.1 s)
            λ q _ l.
              ap
                (λ o.
                  option_case o none (λ rest.
                    some (contestar string_split now fuel numero r.0 q.0 ++ rest.0, rest.1)))
                (mas_turnos f g numero q.1 q.2 (omega (arith, quedan, l, hf))
                  (omega (arith, quedan, l, hg)))

  -- For as many turns nothing faults: each message is received, and it is an end or its turn does not
  -- fault.
  abbrev pub SinFalla : ℕ → Socket → Sac → Type 0
  SinFalla zero socket s = Unit
  SinFalla (suc n) socket s =
      (r : TMessage × Socket) × (recv_message socket ≡ some r)
      × ((es_final r.0 ≡ true)
          ⊎ ((es_final r.0 ≡ false)
              × (q : List Respuesta × Socket × Sac) × (turno string_split now fuel r.0 r.1 s
                  ≡ some q)
              × SinFalla n q.1 q.2))

  listen_acaba :
      (f numero : ℕ) (socket : Socket) (s : Sac)
      → length socket.bytes < f
      → SinFalla f socket s
      → (res : List ℕ × Sac) × (listen_sac_cli string_split now fuel f numero socket s ≡ some res)
  unfolding listen_sac_cli
  listen_acaba zero numero socket s h k = absurd (omega arith)
  listen_acaba (suc f) numero socket s h (r, e, inl fin) = (([], s), rw (e, fin) refl)
  listen_acaba (suc f) numero socket s h (r, e, inr (sigue, q, hecho, resto)) =
      let c = subst (SiHay (Consume socket)) e (recv_message-Consume socket) in
      let queda = subst (SiHay (Queda r.1)) hecho (turno-Queda r.0 r.1 s) in
      let quedan = c.menos sigue in
      let (res, acaba) = listen_acaba f numero q.1 q.2 (omega (arith, quedan, queda, h)) resto in
      (
        (contestar string_split now fuel numero r.0 q.0 ++ res.0, res.1),
        rw (e, sigue, hecho, acaba) refl,
      )

  -- With more turns than there are bytes on the socket, where no message faults, the thread ends with
  -- a result, and that is its result with any other count of turns that is above that.
  pub listen_sac_cli_turnos :
      (f g numero : ℕ) (socket : Socket) (s : Sac)
      → length socket.bytes < f
      → length socket.bytes < g
      → SinFalla f socket s
      → (res : List ℕ × Sac) × (listen_sac_cli string_split now fuel f numero socket s ≡ some res)
        × (listen_sac_cli string_split now fuel g numero socket s ≡ some res)
  listen_sac_cli_turnos f g numero socket s hf hg k =
      let (res, acaba) = listen_acaba f numero socket s hf k in
      (res, acaba, sym (mas_turnos f g numero socket s hf hg) ∙ acaba)
