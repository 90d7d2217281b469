-- ===== src/Protocol/Tests.antt =====
-- Two messages on a socket.
use tp_2019_2c_vendo_fiat.Protocol.Mensaje.{size_of, TMessage}
use tp_2019_2c_vendo_fiat.Base.{List, false, ◌∷◌, ◌≡◌, [], some, arith, refl}
use tp_2019_2c_vendo_fiat.Protocol.Framing.{enviados, recibir_todos, recibir_todos-enviados}

abbrev dos : List TMessage
dos = record { head = 14; content = b'/' ∷ b'a' ∷ [] } ∷ record { head = 24; content = [] } ∷ []

recibir_todos-enviados_example :
    recibir_todos 3 (record { bytes = enviados dos; broken = false; errno = 11 }) ≡ some dos
unfolding size_of
recibir_todos-enviados_example =
    recibir_todos-enviados dos 11
      (
        record { head = omega arith; size = omega arith },
        (record { head = omega arith; size = omega arith }, tt),
      )
      (refl, (refl, tt))
