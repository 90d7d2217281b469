-- ===== src/Suse/Calls.antt =====
-- suse/src/suse.c, lines 227 to 471: programs, the operations behind each message, and the handler.
use Prim.Native.String.{String}
use tp_2019_2c_vendo_fiat.Base.{
  option_case, ℕ, suc, Bool, true, false, Option, none, some, List, [], ◌++◌, ◌∷◌, if◌then◌else◌,
  is_empty, set, get_elem?,
}
use tp_2019_2c_vendo_fiat.Base.Int.{ℤ, pos, ◌+ℤ◌, ◌-ℤ◌, ltb_ℤ}
use tp_2019_2c_vendo_fiat.Suse.State.{
  Double, Estado, new, ready, exec, blocked, exit, Hilo, Programa, Semaforo, Config, Suse, update,
  set_hilo, set_estado, set_programa, set_ready, set_en_ejecucion, agregar_a_ready,
}
use tp_2019_2c_vendo_fiat.Suse.Ops.{
  buscar_hilo, remover_hilo_de_lista, agregar_hilo_a_lista_nuevos, buscar_semaforo,
  cargar_hilos_a_ready, bloquear_hilo, estimar_duracion_hilo, suse_schedule_next, desbloquear_hilo,
}

abbrev pub is_blocked : Estado → Bool
is_blocked blocked = true
is_blocked _ = false

-- A message, decoded: the head and what the handler reads of the content. SUSE_WAIT and SUSE_SIGNAL
-- are followed by a second message, `none` where its head is not SUSE_CONTENT.
pub data Pedido : Type 0 where
  create schedule_next join close : ℕ → Pedido
  wait : ℕ → Option String → Pedido
  signal : Option String → Pedido
  otro : Pedido

unfoldable pub incrementar : Semaforo → ℤ
incrementar sem = if ltb_ℤ sem.valor sem.valor_maximo then sem.valor +ℤ pos 1 else sem.valor

module _ {D : Type 0} where
  abbrev pub set_semaforo : ℕ → Semaforo → Suse D → Suse D
  set_semaforo i sem s = record s { lista_semaforos = set s.lista_semaforos i sem }

  -- The new pointer is `next_programa`; `id` counts up from 1.
  unfoldable pub crear_programa : ℕ → Suse D → Suse D
  crear_programa puerto s =
      let p : Programa = record {
        id = s.next_id;
        puerto = puerto;
        joined_by = [];
        lista_de_hilos = [];
        lista_de_ready = [];
        en_ejecucion = none;
      } in
      record s {
        programas = update s.programas s.next_programa p;
        next_programa = suc s.next_programa;
        next_id = suc s.next_id;
        lista_de_programas = s.lista_de_programas ++ (s.next_programa ∷ []);
      }

  -- `suseWait` on a semaphore and a thread that were found.
  unfoldable pub decrementar : ℕ → Semaforo → ℕ → Suse D → Suse D
  decrementar i sem h s =
      let v = sem.valor -ℤ pos 1 in
      if ltb_ℤ v (pos 0)
      then bloquear_hilo h
          (set_semaforo i (record sem { valor = v; cola_bloqueo = sem.cola_bloqueo ++ (h ∷ []) }) s)
      else set_semaforo i (record sem { valor = v }) s

  unfoldable pub esperar_en : Option ℕ → ℕ → Suse D → Option (Suse D)
  esperar_en none h s = none
  esperar_en (some i) h s =
      option_case (get_elem? s.lista_semaforos i) none (λ sem. some (decrementar i sem h s))

  unfoldable pub suse_wait : ℕ → String → ℕ → Suse D → Option (Suse D)
  suse_wait thread_id nombre p s =
      let i = buscar_semaforo nombre s in
      option_case (buscar_hilo thread_id p s) (some s)
        λ h. if is_blocked (s.hilos h).estado then some s else esperar_en i h s

  -- `suseJoin`: thread 0 is blocked at every join.
  unfoldable pub suse_join : ℕ → ℕ → Suse D → Option (Suse D)
  suse_join thread_id p s = option_case (buscar_hilo thread_id p s) (some s) λ h.
      let s1 = set_hilo h (record (s.hilos h) { joined = true }) s in
      option_case (buscar_hilo 0 p s1) none λ cero.
        let s2 = bloquear_hilo cero s1 in
        let pr = s2.programas p in
        some (set_programa p (record pr { joined_by = pr.joined_by ++ (h ∷ []) }) s2)

  unfoldable pub suse_create : Double D → ℕ → ℕ → Suse D → Suse D
  suse_create d thread_id p s =
      let h = s.next_hilo in
      let nuevo : Hilo D = record {
        id = thread_id;
        joined = false;
        id_padre = p;
        estado = new;
        tiempo_inicial = d.of_int 0;
        tiempo_espera = d.of_int 0;
        tiempo_cpu = d.of_int 0;
        estimado_sjf = d.of_int 0;
      } in
      let s1 = set_hilo h nuevo (record s { next_hilo = suc h }) in
      let pr = s1.programas p in
      agregar_hilo_a_lista_nuevos h
        (set_programa p (record pr { lista_de_hilos = pr.lista_de_hilos ++ (h ∷ []) }) s1)

  -- The thread 0 of the program is made ready when its last join is over.
  unfoldable pub desbloquear_cero : ℕ → Suse D → Option (Suse D)
  desbloquear_cero p s =
      if is_empty (s.programas p).joined_by
      then option_case (buscar_hilo 0 p s) none
          (λ cero. some (agregar_a_ready ((s.hilos cero).id_padre) cero (set_estado cero ready s)))
      else some s

  unfoldable pub desbloquear_join : ℕ → ℕ → Suse D → Option (Suse D)
  desbloquear_join h p s =
      if (s.hilos h).joined
      then (let pr = s.programas p in
          let s1 =
            set_programa p (record pr { joined_by = remover_hilo_de_lista s h pr.joined_by }) s in
          desbloquear_cero p (set_hilo h (record (s1.hilos h) { joined = false }) s1))
      else some s

  -- The switch of `suseClose` on the state of the thread.
  unfoldable pub cerrar : Estado → ℕ → ℕ → Suse D → Suse D
  cerrar exec h p s =
      let s1 = set_en_ejecucion p none s in
      record s1 { programas_en_memoria = s1.programas_en_memoria -ℤ pos 1 }
  cerrar ready h p s =
      let s1 = set_ready p (remover_hilo_de_lista s h (s.programas p).lista_de_ready) s in
      record s1 { programas_en_memoria = s1.programas_en_memoria -ℤ pos 1 }
  cerrar new h p s = record s { lista_nuevos = remover_hilo_de_lista s h s.lista_nuevos }
  cerrar blocked h p s = record s { programas_en_memoria = s.programas_en_memoria -ℤ pos 1 }
  cerrar exit h p s = s

  unfoldable pub suse_close : ℕ → ℕ → Suse D → Option (Suse D)
  suse_close thread_id p s = option_case (buscar_hilo thread_id p s) none λ h.
      let pr = s.programas p in
      let s1 =
        set_programa p (record pr { lista_de_hilos = remover_hilo_de_lista s h pr.lista_de_hilos })
          s in
      option_case (desbloquear_join h p s1) none λ s2. some (cerrar (s2.hilos h).estado h p s2)

  module _ (d : Double D) where
    -- The queue's head is woken up, if there is one.
    unfoldable pub despertar : ℕ → Semaforo → List ℕ → Suse D → Option (Suse D)
    despertar i sem [] s = some (set_semaforo i sem s)
    despertar i sem (h ∷ rest) s =
        desbloquear_hilo d h
          (set_estado h ready (set_semaforo i (record sem { cola_bloqueo = rest }) s))

    unfoldable pub suse_signal : String → Suse D → Option (Suse D)
    suse_signal nombre s = option_case (buscar_semaforo nombre s) none λ i.
        option_case (get_elem? s.lista_semaforos i) none
          λ sem. despertar i (record sem { valor = incrementar sem }) sem.cola_bloqueo s

    unfoldable pub estimar : Config D → Option ℕ → ℕ → Suse D → Suse D
    estimar c none t s = s
    estimar c (some h) t s = estimar_duracion_hilo d c h (d.of_int t) s

    -- One turn of the handler's loop, for the program `p`. Where the second message of a wait or a
    -- signal is not SUSE_CONTENT, the code frees a pointer that has no value: a fault.
    unfoldable pub atender : Config D → ℕ → Pedido → Suse D → Option (Suse D)
    atender c p (create t) s = some (suse_create d t p s)
    atender c p (schedule_next t) s =
        suse_schedule_next d p (cargar_hilos_a_ready c (estimar c (s.programas p).en_ejecucion t s))
    atender c p (wait t (some nombre)) s = suse_wait t nombre p s
    atender c p (wait t none) s = none
    atender c p (signal (some nombre)) s = suse_signal nombre s
    atender c p (signal none) s = none
    atender c p (join t) s = suse_join t p s
    atender c p (close t) s = suse_close t p s
    atender c p otro s = some s

    -- The turns of all handlers, in the order in which they run, where none overlaps another: the
    -- code holds a mutex for that in suseWait and suseSignal only.
    unfoldable pub correr : Config D → List (ℕ × Pedido) → Suse D → Option (Suse D)
    correr c [] s = some s
    correr c ((p, m) ∷ ms) s = option_case (atender c p m s) none (correr c ms)
