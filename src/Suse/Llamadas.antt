-- ===== src/Suse/Llamadas.antt =====
-- The operations behind the messages keep the threads in the lists of a program its own.
use tp_2019_2c_vendo_fiat.Base.Int.{ltb_ℤ, ◌-ℤ◌, pos}
use tp_2019_2c_vendo_fiat.Suse.Propiedad.{
  De, Hecho, Propios, set_programa-Propios, set_hilo-Propios, agregar_a_ready-Propios,
  bloquear_hilo-Propios, buscar_hilo-De, set_hilo-De, set_estado-Propios, PropioDe-mono,
}
use Prim.Native.String.{String}
use tp_2019_2c_vendo_fiat.Suse.State.{
  Semaforo, Suse, Double, Estado, exec, ready, new, set_hilo, blocked, set_estado, exit, Hilo,
  set_programa,
}
use tp_2019_2c_vendo_fiat.Suse.Ops.{
  bloquear_hilo, agregar_hilo_a_lista_nuevos, quitar_de_estado, remover_hilo_de_lista, buscar_hilo,
  buscar_semaforo,
}
use tp_2019_2c_vendo_fiat.Suse.Calls.{
  cerrar, decrementar, desbloquear_cero, desbloquear_join, esperar_en, suse_close, suse_create,
  suse_join, suse_wait, set_semaforo, is_blocked,
}
use tp_2019_2c_vendo_fiat.Base.{
  ℕ, Option, All, SiHay, if_elim, All-remove_first, All-set, is_empty, option_elim, some, get_elem?,
  none, refl, true, All-get_elem?, SiHay-option_case, All-append, ◌∷◌, [], suc, arith, false, ◌≡◌,
  ◌==◌, All-mono,
}

module _ {D : Type 0} where
  -- A write into the semaphores.
  pub set_semaforo-Propios :
      (i : ℕ) (sem : Semaforo) (s : Suse D)
      → All (Hecho s) sem.cola_bloqueo
      → Propios s
      → Propios (set_semaforo i sem s)
  set_semaforo-Propios i sem s y x =
      (x.0, All-set (λ k. All (Hecho s) k.cola_bloqueo) s.lista_semaforos i sem x.1 y, x.2)

  decrementar-Propios :
      (i h : ℕ) (sem : Semaforo) (s : Suse D)
      → Hecho s h
      → All (Hecho s) sem.cola_bloqueo
      → Propios s
      → Propios (decrementar i sem h s)
  unfolding decrementar
  decrementar-Propios i h sem s y q x =
      if_elim Propios (ltb_ℤ (sem.valor -ℤ pos 1) (pos 0)) _ _
        (λ _.
          bloquear_hilo-Propios h _ (
            set_semaforo-Propios i _ s (All-append (Hecho s) sem.cola_bloqueo (h ∷ []) q (y, tt))
              x))
        (λ _. set_semaforo-Propios i _ s q x)

  esperar_en-Propios :
      (o : Option ℕ) (h : ℕ) (s : Suse D) → Hecho s h → Propios s → SiHay Propios (esperar_en o h s)
  unfolding esperar_en
  esperar_en-Propios none h s y x = tt
  esperar_en-Propios (some i) h s y x =
      option_elim (SiHay Propios) (get_elem? s.lista_semaforos i) none _ (λ _. tt)
        λ sem e.
          decrementar-Propios i h sem s y
            (All-get_elem? (λ k. All (Hecho s) k.cola_bloqueo) s.lista_semaforos i sem x.1 e) x

  pub suse_wait-Propios :
      (t : ℕ) (nombre : String) (p : ℕ) (s : Suse D)
      → Propios s
      → SiHay Propios (suse_wait t nombre p s)
  unfolding suse_wait
  suse_wait-Propios t nombre p s x =
      option_elim (SiHay Propios) (buscar_hilo t p s) _ _ (λ _. x)
        λ h e.
          if_elim (SiHay Propios) (is_blocked (s.hilos h).estado) _ _ (λ _. x)
            (λ _.
              esperar_en-Propios (buscar_semaforo nombre s) h s (buscar_hilo-De t p h s x e).0 x)

  -- A thread of the program is blocked.
  bloquear_hilo-De : (h p k : ℕ) (s : Suse D) → De s p k → De (bloquear_hilo h s) p k
  unfolding bloquear_hilo quitar_de_estado
  bloquear_hilo-De h p k s y =
      set_hilo-De h _ (quitar_de_estado (s.hilos h).estado h s) p k refl
        (de_estado (s.hilos h).estado)
    where
      de_estado : (e : Estado) → De (quitar_de_estado e h s) p k
      de_estado new = y
      de_estado _ = y

  pub suse_join-Propios : (t p : ℕ) (s : Suse D) → Propios s → SiHay Propios (suse_join t p s)
  unfolding suse_join
  suse_join-Propios t p s x =
      option_elim (SiHay Propios) (buscar_hilo t p s) _ _ (λ _. x)
        λ h e.
          let v = record (s.hilos h) { joined = true } in
          let s1 = set_hilo h v s in
          let x1 : Propios s1 = set_hilo-Propios h v s refl x in
          let suyo = set_hilo-De h v s p h refl (buscar_hilo-De t p h s x e) in
          option_elim (SiHay Propios) (buscar_hilo 0 p s1) none _ (λ _. tt)
            λ cero _.
              let x2 = bloquear_hilo-Propios cero s1 x1 in
              let z = x2.2 p in
              let juntos = ((bloquear_hilo cero s1).programas p).joined_by in
              set_programa-Propios p _ (bloquear_hilo cero s1)
                (
                  z.0,
                  z.1,
                  All-append (De (bloquear_hilo cero s1) p) juntos (h ∷ []) z.2
                      (bloquear_hilo-De cero p h s1 suyo, tt),
                  z.3,
                )
                x2

  abbrev hilo_nuevo : Double D → ℕ → ℕ → Hilo D
  hilo_nuevo d t p = record {
    id = t;
    joined = false;
    id_padre = p;
    estado = new;
    tiempo_inicial = d.of_int 0;
    tiempo_espera = d.of_int 0;
    tiempo_cpu = d.of_int 0;
    estimado_sjf = d.of_int 0;
  }

  pub suse_create-Propios :
      (d : Double D) (t p : ℕ) (s : Suse D) → Propios s → Propios (suse_create d t p s)
  unfolding suse_create agregar_hilo_a_lista_nuevos
  suse_create-Propios d t p s x =
      let nx = s.next_hilo in
      let s0 = record s { next_hilo = suc nx } in
      let s1 = set_hilo nx (hilo_nuevo d t p) s0 in
      let sigue : (q k : ℕ) → De s q k → De s1 q k = λ q k y. (
        omega (arith, y.0),
        if_elim (λ w. w.id_padre ≡ q) (nx == k) (hilo_nuevo d t p) (s.hilos k)
            (λ b. absurd (ground (arith, y.0))) (λ _. y.1),
      ) in
      let antes : (k : ℕ) → Hecho s k → Hecho s1 k = λ k y. omega (arith, y) in
      let x1 : Propios s1 = (
        All-mono (Hecho s) (Hecho s1) s.lista_nuevos antes x.0,
        All-mono _ _ s.lista_semaforos (λ sem. All-mono (Hecho s) (Hecho s1) sem.cola_bloqueo antes)
            x.1,
        λ q. PropioDe-mono s s1 q (s.programas q) (sigue q) (x.2 q),
      ) in
      let z = x1.2 p in
      let suyo : De s1 p nx =
        (omega arith, (let mismo : nx == nx ≡ true = ground arith in rw mismo refl)) in
      let x2 =
        set_programa-Propios p _ s1
          (
            All-append (De s1 p) (s.programas p).lista_de_hilos (nx ∷ []) z.0 (suyo, tt),
            z.1,
            z.2,
            z.3,
          )
          x1 in
      (All-append (Hecho s1) s.lista_nuevos (nx ∷ []) x2.0 (suyo.0, tt), x2.1, x2.2)

  desbloquear_cero-Propios : (p : ℕ) (s : Suse D) → Propios s → SiHay Propios (desbloquear_cero p s)
  unfolding desbloquear_cero
  desbloquear_cero-Propios p s x =
      if_elim (SiHay Propios) (is_empty (s.programas p).joined_by) _ _
        (λ _.
          option_elim (SiHay Propios) (buscar_hilo 0 p s) none _ (λ _. tt)
            λ cero e.
              let q = (s.hilos cero).id_padre in
              agregar_a_ready-Propios q cero (set_estado cero ready s)
                (set_hilo-De cero _ s q cero refl ((buscar_hilo-De 0 p cero s x e).0, refl))
                (set_estado-Propios cero ready s x))
        (λ _. x)

  desbloquear_join-Propios :
      (h p : ℕ) (s : Suse D) → Propios s → SiHay Propios (desbloquear_join h p s)
  unfolding desbloquear_join remover_hilo_de_lista
  desbloquear_join-Propios h p s x =
      if_elim (SiHay Propios) (s.hilos h).joined _ _
        (λ _.
          let z = x.2 p in
          let pr = s.programas p in
          let s1 =
            set_programa p (record pr { joined_by = remover_hilo_de_lista s h pr.joined_by }) s in
          let x1 : Propios s1 =
            set_programa-Propios p _ s (z.0, z.1, All-remove_first (De s p) _ pr.joined_by z.2, z.3)
              x in
          let v = record (s1.hilos h) { joined = false } in
          desbloquear_cero-Propios p (set_hilo h v s1) (set_hilo-Propios h v s1 refl x1))
        (λ _. x)

  cerrar-Propios : (e : Estado) (h p : ℕ) (s : Suse D) → Propios s → Propios (cerrar e h p s)
  unfolding cerrar remover_hilo_de_lista
  cerrar-Propios exec h p s x = let z = x.2 p in set_programa-Propios p _ s (z.0, z.1, z.2, tt) x
  cerrar-Propios ready h p s x =
      let z = x.2 p in
      set_programa-Propios p _ s
        (z.0, All-remove_first (De s p) _ (s.programas p).lista_de_ready z.1, z.2, z.3) x
  cerrar-Propios new h p s x = (All-remove_first (Hecho s) _ s.lista_nuevos x.0, x.1, x.2)
  cerrar-Propios blocked h p s x = x
  cerrar-Propios exit h p s x = x

  pub suse_close-Propios : (t p : ℕ) (s : Suse D) → Propios s → SiHay Propios (suse_close t p s)
  unfolding suse_close remover_hilo_de_lista
  suse_close-Propios t p s x =
      option_elim (SiHay Propios) (buscar_hilo t p s) none _ (λ _. tt)
        λ h _.
          let z = x.2 p in
          let x1 =
            set_programa-Propios p _ s
              (All-remove_first (De s p) _ (s.programas p).lista_de_hilos z.0, z.1, z.2, z.3) x in
          SiHay-option_case Propios Propios (desbloquear_join h p _) _
            (desbloquear_join-Propios h p _ x1)
            (λ s2 _ x2. cerrar-Propios (s2.hilos h).estado h p s2 x2)
