-- ===== src/Muse/Sesion.antt =====
-- The thread of a client of MUSE, on the whole of what the client sends.
use tp_2019_2c_vendo_fiat.Muse.State.{Maquina}
use tp_2019_2c_vendo_fiat.Protocol.Conexion.{conexion}
use tp_2019_2c_vendo_fiat.Muse.Cierre.{muse_close}
use tp_2019_2c_vendo_fiat.Protocol.Framing.{Cabe, enviados, recv_message-send_message}
use tp_2019_2c_vendo_fiat.Protocol.Mensaje.{error, TMessage}
use tp_2019_2c_vendo_fiat.Protocol.Consumo.{Consume, recv_message-Consume, es_final}
use tp_2019_2c_vendo_fiat.Muse.State.{Muse}
use tp_2019_2c_vendo_fiat.Muse.Atencion.{handler_clients, atender_mensaje}
use tp_2019_2c_vendo_fiat.Protocol.Mensaje.{Socket, recv_message}
use tp_2019_2c_vendo_fiat.Base.{
  true, sym, ◌∙◌, ◌⊎◌, inl, inr, ℕ, Bool, List, Option, length, ◌<◌, ◌≡◌, arith, suc, zero,
  option_case_cong, none, if_cong, some, [], ◌==◌, ap, option_case, ◌++◌, option_case_ext, All, ◌∷◌,
  if◌then◌else◌, false, refl, subst, SiHay,
}
use Prim.Native.String.{String}
use tp_2019_2c_vendo_fiat.Protocol.Head

module _ {ℓ} {D : Type ℓ} (leido_de : D → String → ℕ → ℕ → ℕ) (se_abre : D → String → Bool)
    (dejar : String → List ℕ → D → D) (maquina : Maquina)
    (string_equals_ignore_case : String → String → Bool) (string_itoa : ℕ → String)
    (texto : List ℕ → String) where
  -- The thread, with the parameters of this module.
  abbrev hilo : ℕ → Socket → Option String → Muse → D → Option (List ℕ × Muse × D)
  hilo = handler_clients leido_de se_abre dejar maquina string_equals_ignore_case string_itoa texto

  -- With more turns than there are bytes on the socket, how many does not matter.
  mas_turnos :
      (f g : ℕ) (socket : Socket) (id : Option String) (s : Muse) (d : D)
      → length socket.bytes < f
      → length socket.bytes < g
      → hilo f socket id s d ≡ hilo g socket id s d
  unfolding handler_clients
  mas_turnos zero g socket id s d hf hg = absurd (omega arith)
  mas_turnos (suc f) zero socket id s d hf hg = absurd (omega arith)
  mas_turnos (suc f) (suc g) socket id s d hf hg =
      option_case_cong (Consume socket) (recv_message socket) none _ _ (recv_message-Consume socket)
        λ r _ c. if_cong (es_final r.0) (some ([], s, d)) _ _ λ sigue.
          if_cong (r.0.head == Head.muse_close) _ _ _ λ _.
            let quedan = c.menos sigue in
            option_case_ext
              (atender_mensaje leido_de se_abre dejar maquina string_equals_ignore_case string_itoa
                texto r.0 id s d)
              none _ _
              λ q.
                ap (λ o. option_case o none (λ rest. some (q.0 ++ rest.0, rest.1, rest.2)))
                  (mas_turnos f g r.1 q.1 q.2 q.3 (omega (arith, quedan, hf))
                    (omega (arith, quedan, hg)))

  -- For as many turns nothing faults: each message is received, and it is an end, or a MUSE_CLOSE of a
  -- client that was named, or its case does not fault.
  abbrev pub SinFalla : ℕ → Socket → Option String → Muse → D → Type ℓ
  SinFalla zero socket id s d = Unit
  SinFalla (suc n) socket id s d =
      (r : TMessage × Socket) × (recv_message socket ≡ some r)
      × ((es_final r.0 ≡ true)
          ⊎ ((es_final r.0 ≡ false)
              × (r.0.head == Head.muse_close ≡ true)
              × (i : String) × (id ≡ some i))
          ⊎ ((es_final r.0 ≡ false)
              × (r.0.head == Head.muse_close ≡ false)
              × (q : List ℕ × Option String × Muse × D) × (atender_mensaje leido_de se_abre dejar
                    maquina string_equals_ignore_case string_itoa texto r.0 id s d
                  ≡ some q)
              × SinFalla n r.1 q.1 q.2 q.3))

  hilo_acaba :
      (f : ℕ) (socket : Socket) (id : Option String) (s : Muse) (d : D)
      → length socket.bytes < f
      → SinFalla f socket id s d
      → (res : List ℕ × Muse × D) × (hilo f socket id s d ≡ some res)
  unfolding handler_clients
  hilo_acaba zero socket id s d h k = absurd (omega arith)
  hilo_acaba (suc f) socket id s d h (r, e, inl fin) = (([], s, d), rw (e, fin) refl)
  hilo_acaba (suc f) socket id s d h (r, e, inr (inl (sigue, cierra, i, de))) =
      (([], (muse_close string_equals_ignore_case i s).1, d), rw (e, sigue, cierra, de) refl)
  hilo_acaba (suc f) socket id s d h (r, e, inr (inr (sigue, abierta, q, hecho, resto))) =
      let c = subst (SiHay (Consume socket)) e (recv_message-Consume socket) in
      let quedan = c.menos sigue in
      let (res, acaba) = hilo_acaba f r.1 q.1 q.2 q.3 (omega (arith, quedan, h)) resto in
      ((q.0 ++ res.0, res.1, res.2), rw (e, sigue, abierta, hecho, acaba) refl)

  -- With more turns than there are bytes on the socket, where no message faults, the thread ends with
  -- a result, and that is its result with any other count of turns that is above that.
  pub handler_clients_turnos :
      (f g : ℕ) (socket : Socket) (id : Option String) (s : Muse) (d : D)
      → length socket.bytes < f
      → length socket.bytes < g
      → SinFalla f socket id s d
      → (res : List ℕ × Muse × D) × (hilo f socket id s d ≡ some res)
        × (hilo g socket id s d ≡ some res)
  handler_clients_turnos f g socket id s d hf hg k =
      let (res, acaba) = hilo_acaba f socket id s d hf k in
      (res, acaba, sym (mas_turnos f g socket id s d hf hg) ∙ acaba)

  -- What the thread does of messages, without the connection.
  unfoldable pub atender_todos :
      List TMessage → Option String → Muse → D → Option (List ℕ × Muse × D)
  atender_todos [] id s d = some ([], s, d)
  atender_todos (m ∷ ms) id s d =
      if m.head == Head.muse_close
      then option_case id none (λ i. some ([], (muse_close string_equals_ignore_case i s).1, d))
      else option_case
          (atender_mensaje leido_de se_abre dejar maquina string_equals_ignore_case string_itoa
            texto m id s d)
          none
          λ q.
            option_case (atender_todos ms q.1 q.2 q.3) none
              λ rest. some (q.0 ++ rest.0, rest.1, rest.2)

  -- On a connection with the bytes of messages whose heads and sizes fit, none of them with the
  -- head of an end, and then its end, the thread does with those messages, one after the other,
  -- what their cases do, up to the first MUSE_CLOSE, given a turn more than there are messages.
  pub handler_clients-enviados :
      (turnos : ℕ) (ms : List TMessage) (errno : ℕ) (id : Option String) (s : Muse) (d : D)
      → length ms < turnos
      → All Cabe ms
      → All (λ m. es_final m ≡ false) ms
      → hilo turnos (conexion errno (enviados ms)) id s d ≡ atender_todos ms id s d
  unfolding handler_clients atender_todos
  handler_clients-enviados zero ms errno id s d h c e = absurd (omega arith)
  handler_clients-enviados (suc f) [] errno id s d h c e = unfold recv_message error in refl
  handler_clients-enviados (suc f) (m ∷ ms) errno id s d h c e =
      rw (recv_message-send_message m (enviados ms) false errno c.0, e.0)
        (if_cong (m.head == Head.muse_close) _ _ _ λ _.
          option_case_ext
            (atender_mensaje leido_de se_abre dejar maquina string_equals_ignore_case string_itoa
              texto m id s d)
            none _ _
            λ q.
              ap (λ o. option_case o none (λ rest. some (q.0 ++ rest.0, rest.1, rest.2)))
                (handler_clients-enviados f ms errno q.1 q.2 q.3 (omega (arith, h)) c.1 e.1))
