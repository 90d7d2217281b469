-- ===== src/Muse/Atencion.antt =====
-- muse/src/muse.c, lines 22 to 176: `handler_clients` as a whole, with the cases MUSE_MAP,
-- MUSE_SYNC and MUSE_CLOSE. The files are a parameter: `leido_de` is what a buffer holds after a
-- file was read into it, `se_abre` whether a file can be opened for writing, and `dejar` puts a
-- content in a file. `texto` is the string of some bytes. `none` is a fault: the name of a client
-- is not set before its MUSE_INIT.
use tp_2019_2c_vendo_fiat.Muse.State.{Maquina}
use tp_2019_2c_vendo_fiat.Muse.Cierre.{muse_close}
use tp_2019_2c_vendo_fiat.Muse.Mapa.{muse_sync, muse_map}
use tp_2019_2c_vendo_fiat.Protocol.Mensaje.{Socket, TMessage, send_status, recv_message}
use tp_2019_2c_vendo_fiat.Muse.State.{Muse}
use Prim.Native.String.{String}
use tp_2019_2c_vendo_fiat.Base.{
  List, Bool, ℕ, if◌then◌else◌, ◌==◌, Option, ◌||◌, none, option_case, some, [], suc, take, drop,
  leb, ◌++◌, ◌+◌, length, zero, ◌%◌, ◌^◌,
}
use tp_2019_2c_vendo_fiat.Muse.Servidor.{
  atender_get, atender_alloc, atender_cpy, atender_free, atender_init, atender_unmap, buffer_de,
}
use tp_2019_2c_vendo_fiat.Protocol.Conexion.{campo, hasta_nul}
use tp_2019_2c_vendo_fiat.Protocol.Head
use tp_2019_2c_vendo_fiat.Base.Int.{ℤ, pos, negsuc, ltb_ℤ}

-- The answer to a map or a sync: ERROR with -1, or OK with the status.
unfoldable pub contestar_mapa : ℤ → ℤ → List ℕ
contestar_mapa res status =
    if ltb_ℤ res (pos 0) then send_status Head.error (negsuc 0) else send_status Head.ok status

-- The path begins after 4 bytes; what follows it is looked for after its first NUL.
unfoldable pub atender_map :
    (String → String → Bool) → (List ℕ → String) → String → List ℕ → Muse → Option (List ℕ × Muse)
atender_map string_equals_ignore_case texto id content s =
    let buf = buffer_de content in
    option_case (campo 4 0 buf) none λ len.
      let path = hasta_nul (take len (drop 4 buf)) in
      if leb (4 + len) (length buf)
      then option_case (campo 8 (4 + length path) buf) none (λ tamanio.
        option_case (campo 4 (4 + length path + 8) buf) none λ flags.
          option_case
            (muse_map string_equals_ignore_case id (texto path) (tamanio % 2 ^ 32) flags s) none
            (λ r. some (contestar_mapa r.0 r.0, r.1)))
      else none

-- The heads of the requests of a client that was named.
abbrev pub es_de_cliente : ℕ → Bool
es_de_cliente head =
    head == Head.muse_alloc
    || head == Head.muse_free
    || head == Head.muse_get
    || head == Head.muse_cpy
    || head == Head.muse_map
    || head == Head.muse_unmap

module _ {ℓ} {D : Type ℓ} (leido_de : D → String → ℕ → ℕ → ℕ) (se_abre : D → String → Bool)
    (dejar : String → List ℕ → D → D) (maquina : Maquina)
    (string_equals_ignore_case : String → String → Bool) (string_itoa : ℕ → String)
    (texto : List ℕ → String) where
  unfoldable pub atender_sync : String → List ℕ → Muse → D → Option (List ℕ × Muse × D)
  atender_sync id content s d = option_case (campo 4 0 (buffer_de content)) none λ addr.
      option_case (campo 8 4 (buffer_de content)) none λ len.
        option_case (muse_sync string_equals_ignore_case (leido_de d) (se_abre d) id addr len s)
          none
          λ r. some (
            contestar_mapa r.0 (pos 0),
            r.2,
            option_case r.1 d (λ escrito. dejar escrito.0 escrito.1 d),
          )

  -- The cases that neither write a file nor end the thread; a head that the server does not know
  -- gets no answer.
  unfoldable pub atender_memoria : ℕ → D → String → List ℕ → Muse → Option (List ℕ × Muse)
  atender_memoria head d id content s =
      if head == Head.muse_alloc
      then atender_alloc maquina string_equals_ignore_case (leido_de d) id content s
      else if head == Head.muse_free
      then atender_free maquina string_equals_ignore_case (leido_de d) id content s
      else if head == Head.muse_get
      then atender_get maquina string_equals_ignore_case (leido_de d) id content s
      else if head == Head.muse_cpy
      then atender_cpy maquina string_equals_ignore_case (leido_de d) id content s
      else if head == Head.muse_map
      then atender_map string_equals_ignore_case texto id content s
      else if head == Head.muse_unmap
      then atender_unmap maquina string_equals_ignore_case (leido_de d) id content s
      else some ([], s)

  -- What is sent, the name of the client, and what the message leaves.
  unfoldable pub atender_mensaje :
      TMessage → Option String → Muse → D → Option (List ℕ × Option String × Muse × D)
  atender_mensaje m id s d =
      if m.head == Head.muse_init
      then option_case (atender_init string_itoa m.content s) none
          (λ r. some (r.1, some r.0, r.2, d))
      else if m.head == Head.muse_sync
      then option_case id none
          (λ i. option_case (atender_sync i m.content s d) none (λ r. some (r.0, id, r.1, r.2)))
      else if es_de_cliente m.head
      then option_case id none (λ i.
        option_case (atender_memoria m.head d i m.content s) none (λ r. some (r.0, id, r.1, d)))
      else some ([], id, s, d)

  -- The thread of a client, on at most `turnos` messages: the bytes that it sends, and what it
  -- leaves.
  unfoldable pub handler_clients :
      ℕ → Socket → Option String → Muse → D → Option (List ℕ × Muse × D)
  handler_clients zero socket id s d = none
  handler_clients (suc turnos) socket id s d = option_case (recv_message socket) none λ r.
      if r.0.head == Head.no_connection || r.0.head == Head.error_recv
      then some ([], s, d)
      else if r.0.head == Head.muse_close
      then option_case id none (λ i. some ([], (muse_close string_equals_ignore_case i s).1, d))
      else option_case (atender_mensaje r.0 id s d) none λ q.
        option_case (handler_clients turnos r.1 q.1 q.2 q.3) none
          λ rest. some (q.0 ++ rest.0, rest.1, rest.2)
