-- ===== src/Suse/Sesion.antt =====
-- The handler of SUSE over a connection, and the requests behind its messages.
use tp_2019_2c_vendo_fiat.Protocol.Framing.{Cabe, recv_message-send_message}
use tp_2019_2c_vendo_fiat.Suse.Servidor.{
  buffer_de, handler_loop, leer_pedido, nombre_de, es_doble, pedido_doble, pedido_simple, handler,
}
use tp_2019_2c_vendo_fiat.Protocol.Conexion.{campo, conexion}
use tp_2019_2c_vendo_fiat.Suse.State.{Double, Config, Suse}
use Prim.Native.String.{String}
use tp_2019_2c_vendo_fiat.Suse.Calls.{Pedido, correr, atender, crear_programa}
use tp_2019_2c_vendo_fiat.Base.{
  List, Option, ℕ, option_case, none, some, ◌∷◌, if◌then◌else◌, map, ◌≡◌, length, [],
  option_case_ext, ◌<◌, All, ◌∙◌, option_case-none, arith, suc, false, ltb, true, Option-cases, inl,
  inr, Bool-cases, zero, refl, if_elim,
}
use tp_2019_2c_vendo_fiat.Protocol.Framing.{enviados}
use tp_2019_2c_vendo_fiat.Protocol.Mensaje.{error, TMessage, recv_message}

-- A request before the others, if both could be read.
abbrev pub anteponer : Option Pedido → Option (List Pedido) → Option (List Pedido)
anteponer q qs = option_case q none (λ x. option_case qs none (λ xs. some (x ∷ xs)))

fin : (errno : ℕ) → recv_message (conexion errno []) ≡ some (error true errno, conexion errno [])
unfolding recv_message
fin errno = refl

module _ (texto : List ℕ → String) where
  -- The request of a message and the one after it.
  abbrev pub pedido_con : TMessage → Option String → Option Pedido
  pedido_con m nombre = option_case (campo 4 0 (buffer_de m.content)) none λ thread_id. some (
      if es_doble m.head
      then pedido_doble m.head thread_id nombre
      else pedido_simple m.head thread_id)

  -- What messages ask for, without the connection: a SUSE_WAIT or SUSE_SIGNAL takes the message
  -- after it, and has no name where there is none.
  unfoldable pub pedidos_de : List TMessage → Option (List Pedido)
  pedidos_de [] = some []
  pedidos_de (m ∷ []) = anteponer (pedido_con m none) (some [])
  pedidos_de (m ∷ n ∷ ms) =
      let uno = anteponer (pedido_con m none) (pedidos_de (n ∷ ms)) in
      let dos = anteponer (pedido_con m (nombre_de texto n)) (pedidos_de ms) in
      if es_doble m.head then dos else uno

  module _ {D : Type 0} (d : Double D) (c : Config D) where
    -- The requests of the program `p`, one after the other.
    abbrev pub correr_de : ℕ → Option (List Pedido) → Suse D → Option (Suse D)
    correr_de p qs s = option_case qs none (λ ps. correr d c (map (λ q. (p, q)) ps) s)

    anteponer-correr_de :
        (p : ℕ) (q : Pedido) (qs : Option (List Pedido)) (s : Suse D)
        (sigue : Suse D → Option (Suse D))
        → ((t : Suse D) → sigue t ≡ correr_de p qs t)
        → option_case (atender d c p q s) none sigue ≡ correr_de p (anteponer (some q) qs) s
    unfolding correr
    anteponer-correr_de p q none s sigue h =
        option_case_ext (atender d c p q s) none sigue (λ t. none) h
        ∙ option_case-none (atender d c p q s)
    anteponer-correr_de p q (some ps) s sigue h = option_case_ext (atender d c p q s) none sigue _ h

    handler_loop-enviados :
        (turnos : ℕ) (ms : List TMessage) (errno p : ℕ) (s : Suse D)
        → length ms < turnos
        → All Cabe ms
        → All (λ m. m.head < 10) ms
        → handler_loop texto d c turnos (conexion errno (enviados ms)) p s
          ≡ correr_de p (pedidos_de ms) s
    unfolding handler_loop pedidos_de leer_pedido nombre_de error
    handler_loop-enviados zero ms errno p s h k e = absurd (omega arith)
    handler_loop-enviados (suc f) [] errno p s h k e = unfold recv_message error correr in refl
    handler_loop-enviados (suc f) (m ∷ []) errno p s h k e =
        let hay_m = recv_message-send_message m [] false errno k.0 in
        let bajo : ltb m.head 10 ≡ true = ground (arith, e.0) in
        elim (Option-cases (campo 4 0 (buffer_de m.content))) [
          | inl nada ↦ rw (hay_m, bajo, nada) refl
          | inr hay ↦
              rw (hay_m, bajo, hay.1)
                (elim (Bool-cases (es_doble m.head)) [
                  | inl doble ↦
                      rw (doble, fin errno)
                        (anteponer-correr_de p (pedido_doble m.head hay.0 none) (some []) s _
                          (λ t. handler_loop-enviados f [] errno p t (omega (arith, h)) tt tt))
                  | inr simple ↦ rw simple (
                      anteponer-correr_de p (pedido_simple m.head hay.0) (some []) s _
                        (λ t. handler_loop-enviados f [] errno p t (omega (arith, h)) tt tt))
                ])
        ]
    handler_loop-enviados (suc f) (m ∷ n ∷ ms) errno p s h k e =
        let hay_m = recv_message-send_message m (enviados (n ∷ ms)) false errno k.0 in
        let hay_n = recv_message-send_message n (enviados ms) false errno k.1.0 in
        let bajo : ltb m.head 10 ≡ true = ground (arith, e.0) in
        elim (Option-cases (campo 4 0 (buffer_de m.content))) [
          | inl nada ↦
              rw (hay_m, bajo, nada)
                (if_elim (λ o. none ≡ correr_de p o s) (es_doble m.head) none none (λ _. refl)
                  (λ _. refl))
          | inr hay ↦
              rw (hay_m, bajo, hay.1)
                (elim (Bool-cases (es_doble m.head)) [
                  | inl doble ↦
                      rw (doble, hay_n)
                        (anteponer-correr_de p (pedido_doble m.head hay.0 (nombre_de texto n))
                          (pedidos_de ms) s _
                          (λ t.
                            handler_loop-enviados f ms errno p t (omega (arith, h)) k.1.1 e.1.1))
                  | inr simple ↦ rw simple (
                      anteponer-correr_de p (pedido_simple m.head hay.0) (pedidos_de (n ∷ ms)) s _
                        (λ t.
                          handler_loop-enviados f (n ∷ ms) errno p t (omega (arith, h)) k.1 e.1))
                ])
        ]

    -- On a connection with the bytes of messages whose heads and sizes fit, with heads below 10,
    -- and then its end: given a turn more than there are messages, the handler makes a program, and
    -- does for it what the messages ask for, one request after the other; it faults where a request
    -- does or cannot be read.
    pub handler-enviados :
        (turnos : ℕ) (ms : List TMessage) (errno puerto : ℕ) (s : Suse D)
        → length ms < turnos
        → All Cabe ms
        → All (λ m. m.head < 10) ms
        → handler texto d c turnos puerto (conexion errno (enviados ms)) s
          ≡ correr_de s.next_programa (pedidos_de ms) (crear_programa puerto s)
    unfolding handler
    handler-enviados turnos ms errno puerto s h k e =
        handler_loop-enviados turnos ms errno s.next_programa (crear_programa puerto s) h k e
