-- ===== src/Suse/Ops.antt =====
-- suse/src/suse.c, lines 72 to 387: the searches, the state changes of a thread, and the operations
-- behind each message. `none` is a fault: the code reads through a NULL pointer. One
-- operation runs at a time, which the code does not see to but in suseWait and suseSignal: runs in
-- which others overlap are not these. Thread ids and times are not negative, as hilolay sends them.
use Prim.Native.String.{String}
use text.Mathlib.Text.{◌==◌ as str_eq}
use tp_2019_2c_vendo_fiat.Base.{
  ℕ, Bool, ◌&&◌, Option, none, some, List, [], ◌++◌, ◌∷◌, ◌==◌, if◌then◌else◌, option_case, find,
  find_index, remove_first, all, is_empty, is_none,
}
use tp_2019_2c_vendo_fiat.Base.Int.{pos, ◌+ℤ◌, ltb_ℤ}
use tp_2019_2c_vendo_fiat.Suse.State.{
  Double, Estado, new, ready, exec, blocked, exit, Config, Suse, set_hilo, set_estado, set_ready,
  set_en_ejecucion, agregar_a_ready,
}

module _ {D : Type 0} where
  unfoldable pub es_hilo_por_id : Suse D → ℕ → ℕ → ℕ → Bool
  es_hilo_por_id s id id_padre h =
      (s.hilos h).id == id && (s.programas ((s.hilos h).id_padre)).id == id_padre

  unfoldable pub buscar_hilo : ℕ → ℕ → Suse D → Option ℕ
  buscar_hilo id p s = find (es_hilo_por_id s id (s.programas p).id) (s.programas p).lista_de_hilos

  unfoldable pub remover_hilo_de_lista : Suse D → ℕ → List ℕ → List ℕ
  remover_hilo_de_lista s h xs =
      remove_first (es_hilo_por_id s (s.hilos h).id (s.programas ((s.hilos h).id_padre)).id) xs

  unfoldable pub agregar_hilo_a_lista_nuevos : ℕ → Suse D → Suse D
  agregar_hilo_a_lista_nuevos h s = record s { lista_nuevos = s.lista_nuevos ++ (h ∷ []) }

  -- The position of the semaphore in `listaSemaforos`.
  unfoldable pub buscar_semaforo : String → Suse D → Option ℕ
  buscar_semaforo nombre s = find_index (λ sem. str_eq sem.nombre nombre) s.lista_semaforos

  -- One round of the loop of `cargarHilosAReady`: the thread leaves the new ones.
  unfoldable pub cargar_hilo : ℕ → List ℕ → Suse D → Suse D
  cargar_hilo h rest s =
      let s1 = set_estado h ready (record s { lista_nuevos = rest }) in
      let s2 = agregar_a_ready ((s1.hilos h).id_padre) h s1 in
      record s2 { programas_en_memoria = s2.programas_en_memoria +ℤ pos 1 }

  -- The loop, in a run in which no other handler loads at once: Suse.Carrera has the steps of several.
  -- The list of new threads is one shorter after each round, so it bounds the loop.
  unfoldable pub cargar_loop : Config D → List ℕ → Suse D → Suse D
  cargar_loop c [] s = s
  cargar_loop c (h ∷ rest) s =
      let loaded = cargar_loop c rest (cargar_hilo h rest s) in
      if ltb_ℤ s.programas_en_memoria c.max_multiprog then loaded else s

  unfoldable pub cargar_hilos_a_ready : Config D → Suse D → Suse D
  cargar_hilos_a_ready c s = cargar_loop c s.lista_nuevos s

  unfoldable pub quitar_de_estado : Estado → ℕ → Suse D → Suse D
  quitar_de_estado exec h s = set_en_ejecucion ((s.hilos h).id_padre) none s
  quitar_de_estado ready h s =
      let p = (s.hilos h).id_padre in
      set_ready p (remover_hilo_de_lista s h (s.programas p).lista_de_ready) s
  quitar_de_estado new h s = record s { lista_nuevos = remover_hilo_de_lista s h s.lista_nuevos }
  quitar_de_estado blocked h s = s
  quitar_de_estado exit h s = s

  unfoldable pub bloquear_hilo : ℕ → Suse D → Suse D
  bloquear_hilo h s = set_estado h blocked (quitar_de_estado (s.hilos h).estado h s)

  unfoldable pub pendiente_de_envios : ℕ → Suse D → Bool
  pendiente_de_envios p s =
      is_none (s.programas p).en_ejecucion && is_empty (s.programas p).lista_de_ready

  -- The running thread goes back to the end of the ready list.
  unfoldable pub desalojar : ℕ → Option ℕ → Suse D → Suse D
  desalojar p none s = s
  desalojar p (some h) s = set_en_ejecucion p none (agregar_a_ready p h (set_estado h ready s))

  module _ (d : Double D) where
    unfoldable pub estimar_duracion_hilo : Config D → ℕ → D → Suse D → Suse D
    estimar_duracion_hilo c h duracion s =
        set_hilo h
          (record (s.hilos h) {
            estimado_sjf =
                d.add (d.mul duracion c.alpha_sjf)
                  (d.mul (d.sub (d.of_int 1) c.alpha_sjf) (s.hilos h).estimado_sjf);
          })
          s

    unfoldable pub es_el_menor : Suse D → D → ℕ → Bool
    es_el_menor s x h = d.leb x (s.hilos h).estimado_sjf

    unfoldable pub tiene_menor_estimado : Suse D → List ℕ → ℕ → Bool
    tiene_menor_estimado s xs h = all (es_el_menor s (s.hilos h).estimado_sjf) xs

    unfoldable pub despachar : ℕ → ℕ → Suse D → Suse D
    despachar p h s =
        let xs = (s.programas p).lista_de_ready in
        let s1 = set_ready p (remove_first (tiene_menor_estimado s xs) xs) s in
        let s2 = set_en_ejecucion p (some h) (set_estado h exec s1) in
        record s2 { enviados = s2.enviados ++ (((s2.programas p).puerto, (s2.hilos h).id) ∷ []) }

    -- `none` where no estimate is least: then the code writes through NULL.
    unfoldable pub elegir : ℕ → List ℕ → Suse D → Option (Suse D)
    elegir p [] s = some s
    elegir p (x ∷ xs) s =
        option_case (find (tiene_menor_estimado s (x ∷ xs)) (x ∷ xs)) none
          (λ h. some (despachar p h s))

    unfoldable pub suse_schedule_next : ℕ → Suse D → Option (Suse D)
    suse_schedule_next p s =
        let s1 = desalojar p (s.programas p).en_ejecucion s in
        elegir p (s1.programas p).lista_de_ready s1

    unfoldable pub desbloquear_hilo : ℕ → Suse D → Option (Suse D)
    desbloquear_hilo h s =
        let p = (s.hilos h).id_padre in
        if pendiente_de_envios p s
        then suse_schedule_next p (set_en_ejecucion p (some h) s)
        else some (agregar_a_ready p h s)
