-- ===== src/Muse/Servidor.antt =====
-- muse/src/muse.c, lines 22 to 103 and 143 to 153: the cases of `handler_clients` but MUSE_MAP,
-- MUSE_SYNC and MUSE_CLOSE: what is read of the content of a message, the operation, and the
-- message that is sent. The buffer of a content has a NUL after it, and a read past that is a
-- fault. `basura` is what fresh memory holds, and `string_itoa` is that of commons/string.h.
use tp_2019_2c_vendo_fiat.Muse.State.{Maquina}
use tp_2019_2c_vendo_fiat.Protocol.Words.{bytes_le}
use tp_2019_2c_vendo_fiat.Muse.Cierre.{muse_unmap}
use tp_2019_2c_vendo_fiat.Muse.Merge.{muse_free}
use tp_2019_2c_vendo_fiat.Muse.Alloc.{muse_alloc}
use tp_2019_2c_vendo_fiat.Protocol.Conexion.{campo, conexion}
use tp_2019_2c_vendo_fiat.Muse.State.{Muse, Programa}
use tp_2019_2c_vendo_fiat.Protocol.Mensaje.{send_status, recv_message, send_message}
use tp_2019_2c_vendo_fiat.Base.{
  List, ℕ, Bool, ◌++◌, Option, ◌∷◌, [], option_case, none, drop, if◌then◌else◌, some, leb, ◌==◌,
  length, take,
}
use tp_2019_2c_vendo_fiat.Protocol.Head
use tp_2019_2c_vendo_fiat.Base.Int.{pos, negsuc, ltb_ℤ}
use Prim.Native.String.{String}
use tp_2019_2c_vendo_fiat.Muse.Acceso.{
  Respuesta, cero, menos_uno, leido, muse_get, muse_cpy, bytes_desde,
}

abbrev pub buffer_de : List ℕ → List ℕ
buffer_de content = content ++ (0 ∷ [])

-- The status that is sent for an operation: 0 with OK, or -1 with ERROR.
unfoldable pub enviar_estado : Respuesta → List ℕ
enviar_estado menos_uno = send_status Head.error (negsuc 0)
enviar_estado cero = send_status Head.ok (pos 0)
enviar_estado (leido bytes) = send_status Head.ok (pos 0)

-- The buffer that `muse_get` was to fill.
unfoldable pub buffer_de_get : Maquina → Respuesta → ℕ → List ℕ
buffer_de_get maquina (leido bytes) n = bytes
buffer_de_get maquina menos_uno n = bytes_desde maquina.basura 0 n
buffer_de_get maquina cero n = bytes_desde maquina.basura 0 n

-- A program is added for a client, whose name is the number that it sends.
unfoldable pub atender_init : (ℕ → String) → List ℕ → Muse → Option (String × List ℕ × Muse)
atender_init string_itoa content s = option_case (campo 4 0 (buffer_de content)) none λ pid.
    let programa : Programa = record { id = string_itoa pid; segmentos = [] } in
    some (
      string_itoa pid,
      send_message Head.ok (bytes_le 4 pid),
      record s { lista_programas = s.lista_programas ++ (programa ∷ []) },
    )

module _ (maquina : Maquina) (string_equals_ignore_case : String → String → Bool)
    (leido_de : String → ℕ → ℕ → ℕ) where
  unfoldable pub atender_alloc : String → List ℕ → Muse → Option (List ℕ × Muse)
  atender_alloc id content s = option_case (campo 4 0 (buffer_de content)) none λ tam.
      option_case (muse_alloc maquina string_equals_ignore_case id tam s) none λ r.
        some
          ((if ltb_ℤ (pos 0) r.0 then send_status Head.ok r.0 else send_status Head.error r.0), r.1)

  unfoldable pub atender_free : String → List ℕ → Muse → Option (List ℕ × Muse)
  atender_free id content s = option_case (campo 4 0 (buffer_de content)) none λ dir.
      option_case (muse_free maquina string_equals_ignore_case id dir s) none λ r. some (
        (if ltb_ℤ r.0 (pos 0) then send_status Head.error (negsuc 0) else send_status Head.ok r.0),
        r.1,
      )

  -- The answer is the buffer, whatever `muse_get` answers; an error where malloc found no memory,
  -- and `muse_get` copied nothing there: a copy is a fault.
  unfoldable pub contestar_get : Respuesta → ℕ → Option (List ℕ)
  contestar_get (leido (x ∷ bytes)) n =
      if maquina.hay_memoria n then some (send_message Head.ok (x ∷ bytes)) else none
  contestar_get r n = some (
      if maquina.hay_memoria n
      then send_message Head.ok (buffer_de_get maquina r n)
      else send_status Head.error (negsuc 0))

  unfoldable pub atender_get : String → List ℕ → Muse → Option (List ℕ × Muse)
  atender_get id content s = option_case (campo 4 0 (buffer_de content)) none λ src.
      option_case (campo 8 4 (buffer_de content)) none λ n.
        option_case (muse_get string_equals_ignore_case leido_de id src n s) none
          λ r. option_case (contestar_get r.0 n) none (λ sale. some (sale, r.1))

  unfoldable pub atender_cpy : String → List ℕ → Muse → Option (List ℕ × Muse)
  atender_cpy id content s = option_case (campo 4 0 (buffer_de content)) none λ dst.
      option_case (campo 8 4 (buffer_de content)) none λ n.
        let src = drop 12 (buffer_de content) in
        if leb n (length src)
        then option_case (muse_cpy string_equals_ignore_case leido_de id dst (take n src) s) none
            (λ r. some (enviar_estado r.0, r.1))
        else none

  unfoldable pub atender_unmap : String → List ℕ → Muse → Option (List ℕ × Muse)
  atender_unmap id content s = option_case (campo 4 0 (buffer_de content)) none λ dir.
      option_case (muse_unmap string_equals_ignore_case id dir s) none
        λ r. some (enviar_estado r.0, r.1)

-- A turn of the handler on the first message of `bytes`, which is to have the head of the case.
unfoldable pub turno_de :
    ℕ → ℕ → (List ℕ → Muse → Option (List ℕ × Muse)) → List ℕ → Muse → Option (List ℕ × Muse)
turno_de errno head caso bytes s =
    option_case (recv_message (conexion errno bytes)) none
      λ r. if r.0.head == head then caso r.0.content s else none
