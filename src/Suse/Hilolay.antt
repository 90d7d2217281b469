-- ===== src/Suse/Hilolay.antt =====
-- hilolay/example_alumnos.c, lines 214 to 265: what the calls of hilolay send to SUSE, and the handler
-- on it. A time or a thread id is an int that is not negative, and a name has a NUL at its end, which is
-- sent. The socket of the client is connected; the time is a parameter.
use tp_2019_2c_vendo_fiat.Protocol.Words.{bytes_le, length-bytes_le}
use tp_2019_2c_vendo_fiat.Protocol.Mensaje.{TMessage, size_of}
use tp_2019_2c_vendo_fiat.Protocol.Framing.{Cabe, enviados}
use tp_2019_2c_vendo_fiat.Protocol.Conexion.{campo, campo-append, conexion}
use tp_2019_2c_vendo_fiat.Protocol.Head
use tp_2019_2c_vendo_fiat.Sac.Campos.{SinNul, hasta_nul-append}
use tp_2019_2c_vendo_fiat.Suse.State.{Double, Config, Suse}
use tp_2019_2c_vendo_fiat.Suse.Servidor.{
  buffer_de, es_doble, handler, nombre_de, pedido_doble, pedido_simple,
}
use tp_2019_2c_vendo_fiat.Suse.Sesion.{anteponer, handler-enviados, pedido_con, pedidos_de}
use tp_2019_2c_vendo_fiat.Suse.Calls.{
  Pedido, correr, crear_programa, create, schedule_next, wait, signal, join, close,
}
use tp_2019_2c_vendo_fiat.Base.{
  ℕ, List, [], ◌∷◌, ◌++◌, ◌≡◌, ◌<◌, ◌^◌, ◌+◌, map, length, All, refl, arith, some, append_assoc,
  false, length-append, none, ◌∙◌, ap,
}
use Prim.Native.String.{String}

-- A call of hilolay, with what the code reads for it: of `suse_schedule_next` the time.
pub data Llamada : Type 0 where
  suse_create suse_schedule_next suse_join suse_close : ℕ → Llamada
  suse_wait suse_signal : ℕ → List ℕ → Llamada

abbrev con_int : ℕ → ℕ → TMessage
con_int head n = record { head = head; content = bytes_le 4 n }

abbrev con_nombre : List ℕ → TMessage
con_nombre sem_name = record { head = Head.suse_content; content = sem_name ++ (0 ∷ []) }

-- The messages of a call.
unfoldable pub mandar : Llamada → List TMessage
mandar (suse_create tid) = con_int Head.suse_create tid ∷ []
mandar (suse_schedule_next tiempo) = con_int Head.suse_schedule_next tiempo ∷ []
mandar (suse_join tid) = con_int Head.suse_join tid ∷ []
mandar (suse_close tid) = con_int Head.suse_close tid ∷ []
mandar (suse_wait tid sem_name) = con_int Head.suse_wait tid ∷ con_nombre sem_name ∷ []
mandar (suse_signal tid sem_name) = con_int Head.suse_signal tid ∷ con_nombre sem_name ∷ []

unfoldable pub mandar_todo : List Llamada → List TMessage
mandar_todo [] = []
mandar_todo (l ∷ ls) = mandar l ++ mandar_todo ls

-- The numbers are ints, and the names are short and have no NUL inside.
abbrev pub Manda : Llamada → Type 0
Manda (suse_create n) = n < 2 ^ 31
Manda (suse_schedule_next n) = n < 2 ^ 31
Manda (suse_join n) = n < 2 ^ 31
Manda (suse_close n) = n < 2 ^ 31
Manda (suse_wait n nombre) = (n < 2 ^ 31) × (length nombre < 2 ^ 31) × SinNul nombre
Manda (suse_signal n nombre) = (n < 2 ^ 31) × (length nombre < 2 ^ 31) × SinNul nombre

module _ (texto : List ℕ → String) where
  -- What a call asks for.
  unfoldable pub pedido_de : Llamada → Pedido
  pedido_de (suse_create tid) = create tid
  pedido_de (suse_schedule_next tiempo) = schedule_next tiempo
  pedido_de (suse_join tid) = join tid
  pedido_de (suse_close tid) = close tid
  pedido_de (suse_wait tid sem_name) = wait tid (some (texto sem_name))
  pedido_de (suse_signal tid sem_name) = signal (some (texto sem_name))

campo_int : (n : ℕ) → n < 2 ^ 31 → campo 4 0 (buffer_de (bytes_le 4 n)) ≡ some n
campo_int n h = campo-append 4 n [] (0 ∷ []) (omega (arith, h))

Cabe-int : (head n : ℕ) → head < 256 → Cabe (con_int head n)
unfolding size_of
Cabe-int head n h = record { head = omega arith; size = omega (arith, length-bytes_le 4 n) }

length-mandar : (ls : List Llamada) → length (mandar_todo ls) < length ls + length ls + 1
unfolding mandar_todo mandar
length-mandar [] = omega arith
length-mandar (suse_create n ∷ ls) = omega (arith, length-mandar ls)
length-mandar (suse_schedule_next n ∷ ls) = omega (arith, length-mandar ls)
length-mandar (suse_join n ∷ ls) = omega (arith, length-mandar ls)
length-mandar (suse_close n ∷ ls) = omega (arith, length-mandar ls)
length-mandar (suse_wait n s ∷ ls) = omega (arith, length-mandar ls)
length-mandar (suse_signal n s ∷ ls) = omega (arith, length-mandar ls)

module _ (texto : List ℕ → String) where
  nombre_de_nombre :
      (nombre : List ℕ) → SinNul nombre → nombre_de texto (con_nombre nombre) ≡ some (texto nombre)
  unfolding nombre_de
  nombre_de_nombre nombre h =
      rw (append_assoc nombre (0 ∷ []) (0 ∷ []), hasta_nul-append nombre (0 ∷ []) h) refl

  pedidos_de_simple :
      (m : TMessage) (ms : List TMessage)
      → es_doble m.head ≡ false
      → pedidos_de texto (m ∷ ms) ≡ anteponer (pedido_con texto m none) (pedidos_de texto ms)
  unfolding pedidos_de
  pedidos_de_simple m [] h = refl
  pedidos_de_simple m (n ∷ ms) h = rw h refl

  pedidos_de-mandar :
      (l : Llamada) (ls : List Llamada)
      → Manda l
      → pedidos_de texto (mandar_todo ls) ≡ some (map (pedido_de texto) ls)
      → pedidos_de texto (mandar l ++ mandar_todo ls)
        ≡ some (pedido_de texto l ∷ map (pedido_de texto) ls)
  unfolding mandar pedido_de pedido_simple pedido_doble pedidos_de
  pedidos_de-mandar (suse_create n) ls h e =
      rw (pedidos_de_simple (con_int Head.suse_create n) (mandar_todo ls) refl, campo_int n h, e)
        refl
  pedidos_de-mandar (suse_schedule_next n) ls h e =
      rw
        (
          pedidos_de_simple (con_int Head.suse_schedule_next n) (mandar_todo ls) refl,
          campo_int n h,
          e,
        )
        refl
  pedidos_de-mandar (suse_join n) ls h e =
      rw (pedidos_de_simple (con_int Head.suse_join n) (mandar_todo ls) refl, campo_int n h, e) refl
  pedidos_de-mandar (suse_close n) ls h e =
      rw (pedidos_de_simple (con_int Head.suse_close n) (mandar_todo ls) refl, campo_int n h, e)
        refl
  pedidos_de-mandar (suse_wait n s) ls h e = rw (campo_int n h.0, nombre_de_nombre s h.2, e) refl
  pedidos_de-mandar (suse_signal n s) ls h e = rw (campo_int n h.0, nombre_de_nombre s h.2, e) refl

  pedidos_de-mandar_todo :
      (ls : List Llamada)
      → All Manda ls
      → pedidos_de texto (mandar_todo ls) ≡ some (map (pedido_de texto) ls)
  unfolding mandar_todo
  pedidos_de-mandar_todo [] h = unfold pedidos_de in refl
  pedidos_de-mandar_todo (l ∷ ls) h = pedidos_de-mandar l ls h.0 (pedidos_de-mandar_todo ls h.1)

  Cabe-nombre : (s : List ℕ) → length s < 2 ^ 31 → Cabe (con_nombre s)
  unfolding size_of
  Cabe-nombre s h = record { head = omega arith; size = omega (arith, length-append s (0 ∷ []), h) }

  Cabe-mandar : (ls : List Llamada) → All Manda ls → All Cabe (mandar_todo ls)
  unfolding mandar_todo mandar
  Cabe-mandar [] h = tt
  Cabe-mandar (suse_create n ∷ ls) h =
      (Cabe-int Head.suse_create n (omega arith), Cabe-mandar ls h.1)
  Cabe-mandar (suse_schedule_next n ∷ ls) h =
      (Cabe-int Head.suse_schedule_next n (omega arith), Cabe-mandar ls h.1)
  Cabe-mandar (suse_join n ∷ ls) h = (Cabe-int Head.suse_join n (omega arith), Cabe-mandar ls h.1)
  Cabe-mandar (suse_close n ∷ ls) h = (Cabe-int Head.suse_close n (omega arith), Cabe-mandar ls h.1)
  Cabe-mandar (suse_wait n s ∷ ls) h =
      (Cabe-int Head.suse_wait n (omega arith), (Cabe-nombre s h.0.1, Cabe-mandar ls h.1))
  Cabe-mandar (suse_signal n s ∷ ls) h =
      (Cabe-int Head.suse_signal n (omega arith), (Cabe-nombre s h.0.1, Cabe-mandar ls h.1))

  baja-mandar : (ls : List Llamada) → All (λ m. m.head < 10) (mandar_todo ls)
  unfolding mandar_todo mandar
  baja-mandar [] = tt
  baja-mandar (suse_create n ∷ ls) = (omega arith, baja-mandar ls)
  baja-mandar (suse_schedule_next n ∷ ls) = (omega arith, baja-mandar ls)
  baja-mandar (suse_join n ∷ ls) = (omega arith, baja-mandar ls)
  baja-mandar (suse_close n ∷ ls) = (omega arith, baja-mandar ls)
  baja-mandar (suse_wait n s ∷ ls) = (omega arith, (omega arith, baja-mandar ls))
  baja-mandar (suse_signal n s ∷ ls) = (omega arith, (omega arith, baja-mandar ls))

  map-con :
      (p : ℕ) (ls : List Llamada)
      → map {B = ℕ × Pedido} (λ q. (p, q)) (map (pedido_de texto) ls)
        ≡ map {B = ℕ × Pedido} (λ l. (p, pedido_de texto l)) ls
  map-con p [] = refl
  map-con p (l ∷ ls) = ap {A = List (ℕ × Pedido)} (λ rs. (p, pedido_de texto l) ∷ rs) (map-con p ls)

  -- Calls of hilolay with ints that are not negative and names with no NUL, sent over a connection
  -- that then ends: with more turns than twice the calls, the handler of SUSE makes a program and does
  -- for it the operation of each call, with its thread, time and name, one call after the other.
  pub handler-llamadas :
      {D : Type 0} (d : Double D) (c : Config D) (turnos : ℕ) (ls : List Llamada) (errno puerto : ℕ)
      (s : Suse D)
      → length ls + length ls < turnos
      → All Manda ls
      → handler texto d c turnos puerto (conexion errno (enviados (mandar_todo ls))) s
        ≡ correr d c
            (map {B = ℕ × Pedido} (λ l. (s.next_programa, pedido_de texto l)) ls)
            (crear_programa puerto s)
  handler-llamadas d c turnos ls errno puerto s h k =
      handler-enviados texto d c turnos (mandar_todo ls) errno puerto s
        (omega (arith, h, length-mandar ls)) (Cabe-mandar ls k) (baja-mandar ls)
      ∙ rw (pedidos_de-mandar_todo ls k)
          (ap (λ qs. correr d c qs (crear_programa puerto s)) (map-con s.next_programa ls))
