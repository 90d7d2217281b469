-- ===== src/Sac/Remoto.antt =====
-- A callback of the client over a connection to the server: the bytes that it sends are all that
-- the thread of the server gets before the end of the connection.
use tp_2019_2c_vendo_fiat.Protocol.Mensaje
use tp_2019_2c_vendo_fiat.Protocol.Framing.{Cabe, recv_message-send_message}
use tp_2019_2c_vendo_fiat.Protocol.Mensaje.{recv_message, TMessage, send_message}
use tp_2019_2c_vendo_fiat.Protocol.Conexion.{pedir, conexion}
use tp_2019_2c_vendo_fiat.Sac.Wire.{listen_sac_cli, contestar, responder, turno, mensaje_de}
use tp_2019_2c_vendo_fiat.Sac.State.{Sac, Respuesta}
use tp_2019_2c_vendo_fiat.Base.{
  List, ℕ, ◌==◌, Option, ◌||◌, suc, ◌≡◌, false, some, [], refl, ◌∷◌, ◌++◌, append-nil, subst,
}
use tp_2019_2c_vendo_fiat.Protocol.Head

-- A head of a request: the loop neither stops nor greets at it.
abbrev pub EsPedido : ℕ → Type 0
EsPedido head =
    (head == Head.no_connection || head == Head.error_recv ≡ false)
    × (head == Head.hi_please_be_my_friend ≡ false)

module _ (string_split : List ℕ → List (List ℕ)) (now fuel turnos numero errno : ℕ) where
  abbrev pub servidor : List ℕ → Sac → Option (List ℕ × Sac)
  servidor bytes s =
      listen_sac_cli string_split now fuel (suc (suc turnos)) numero (conexion errno bytes) s

  -- The thread stops at the end of the connection.
  fin_de_conexion :
      (n : ℕ) (s : Sac)
      → listen_sac_cli string_split now fuel (suc n) numero (conexion errno []) s ≡ some ([], s)
  unfolding listen_sac_cli recv_message Mensaje.error
  fin_de_conexion n s = refl

  -- One request, and then the end.
  pub una_vuelta :
      (m : TMessage) (resto : List ℕ) (s : Sac) (rs : List Respuesta) (t : Sac)
      → Cabe m
      → EsPedido m.head
      → turno string_split now fuel m (conexion errno resto) s ≡ some (rs, conexion errno [], t)
      → servidor (send_message m.head m.content ++ resto) s ≡ some (responder rs, t)
  unfolding listen_sac_cli contestar
  una_vuelta m resto s rs t c p e =
      rw
        (
          recv_message-send_message m resto false errno c,
          p.0,
          e,
          fin_de_conexion turnos t,
          p.1,
          append-nil,
        )
        refl

  -- A request in one message.
  pub una_vuelta_sola :
      (head : ℕ) (content : List ℕ) (s : Sac) (rs : List Respuesta) (t : Sac)
      → Cabe (record { head = head; content = content })
      → EsPedido head
      → turno string_split now fuel
          (record { head = head; content = content })
          (conexion errno [])
          s
        ≡ some (rs, conexion errno [], t)
      → servidor (send_message head content) s ≡ some (responder rs, t)
  una_vuelta_sola head content s rs t c p e =
      subst (λ b. servidor b s ≡ some (responder rs, t)) (append-nil (send_message head content))
        (una_vuelta (record { head = head; content = content }) [] s rs t c p e)

  -- The first message of the answer.
  pub pedir-servidor :
      (bytes : List ℕ) (s : Sac) (r : Respuesta) (rs : List Respuesta) (t : Sac)
      → servidor bytes s ≡ some (responder (r ∷ rs), t)
      → Cabe (mensaje_de r)
      → pedir servidor errno bytes s ≡ some (mensaje_de r, conexion errno (responder rs), t)
  unfolding pedir
  pedir-servidor bytes s r rs t e c =
      rw (e, recv_message-send_message (mensaje_de r) (responder rs) false errno c) refl
