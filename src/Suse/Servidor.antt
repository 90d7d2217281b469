-- ===== src/Suse/Servidor.antt =====
-- suse/src/suse.c, lines 389 to 471: `handler` over a connection: what it reads of the messages,
-- and its loop. The buffer of a content has a NUL after it, and a read past that is a fault. A
-- thread id or a time that is sent is below 2^31, and `texto` is the string of some bytes.
-- `destruirPrograma` does nothing.
use tp_2019_2c_vendo_fiat.Protocol.Mensaje.{Socket, TMessage, recv_message}
use Prim.Native.String.{String}
use tp_2019_2c_vendo_fiat.Base.{
  List, ℕ, if◌then◌else◌, ◌++◌, ◌==◌, ◌∷◌, Option, [], none, option_case, some, suc, ltb, zero,
  Bool, ◌||◌,
}
use tp_2019_2c_vendo_fiat.Protocol.Head
use tp_2019_2c_vendo_fiat.Protocol.Conexion.{campo, hasta_nul}
use tp_2019_2c_vendo_fiat.Suse.Calls.{
  Pedido, create, schedule_next, wait, signal, join, close, otro, atender, crear_programa,
}
use tp_2019_2c_vendo_fiat.Suse.State.{Double, Config, Suse}

-- A content, with the NUL after it.
abbrev pub buffer_de : List ℕ → List ℕ
buffer_de content = content ++ (0 ∷ [])

-- The requests of a single message; SUSE_CONTENT, and a head that is not known, do nothing.
unfoldable pub pedido_simple : ℕ → ℕ → Pedido
pedido_simple head thread_id =
    if head == Head.suse_create
    then create thread_id
    else if head == Head.suse_schedule_next
    then schedule_next thread_id
    else if head == Head.suse_join
    then join thread_id
    else if head == Head.suse_close
    then close thread_id
    else otro

-- A SUSE_WAIT and a SUSE_SIGNAL are followed by a second message.
abbrev pub es_doble : ℕ → Bool
es_doble head = head == Head.suse_wait || head == Head.suse_signal

unfoldable pub pedido_doble : ℕ → ℕ → Option String → Pedido
pedido_doble head thread_id nombre =
    if head == Head.suse_wait then wait thread_id nombre else signal nombre

module _ (texto : List ℕ → String) where
  -- The name in a second message, where it is SUSE_CONTENT.
  unfoldable pub nombre_de : TMessage → Option String
  nombre_de m =
      if m.head == Head.suse_content then some (texto (hasta_nul (buffer_de m.content))) else none

  -- What the message `m` asks for, and what is left on the socket.
  unfoldable pub leer_pedido : TMessage → Socket → Option (Pedido × Socket)
  leer_pedido m socket = option_case (campo 4 0 (buffer_de m.content)) none λ thread_id.
      if es_doble m.head
      then option_case (recv_message socket) none
          (λ r. some (pedido_doble m.head thread_id (nombre_de r.0), r.1))
      else some (pedido_simple m.head thread_id, socket)

  module _ {D : Type 0} (d : Double D) (c : Config D) where
    -- The loop, on at most `turnos` requests, up to a head that is not below 10.
    unfoldable pub handler_loop : ℕ → Socket → ℕ → Suse D → Option (Suse D)
    handler_loop zero socket p s = none
    handler_loop (suc turnos) socket p s = option_case (recv_message socket) none λ r.
        if ltb r.0.head 10
        then option_case (leer_pedido r.0 r.1) none
            (λ q. option_case (atender d c p q.0 s) none (handler_loop turnos q.1 p))
        else some s

    unfoldable pub handler : ℕ → ℕ → Socket → Suse D → Option (Suse D)
    handler turnos puerto socket s =
        handler_loop turnos socket s.next_programa (crear_programa puerto s)
