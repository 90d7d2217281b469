-- ===== src/Suse/Propiedad.antt =====
-- Which program the threads in the lists of suse.c belong to.
use tp_2019_2c_vendo_fiat.Base.Int.{ltb_ℤ}
use tp_2019_2c_vendo_fiat.Suse.Ops.{
  bloquear_hilo, buscar_hilo, cargar_loop, desalojar, quitar_de_estado, cargar_hilo,
  remover_hilo_de_lista, desbloquear_hilo, elegir, suse_schedule_next, despachar,
  pendiente_de_envios, tiene_menor_estimado,
}
use tp_2019_2c_vendo_fiat.Base.{
  ℕ, All, Option, ◌<◌, ◌≡◌, All-append, All-mono, SiHay, some, All-find, All-remove_first, List,
  SiHay-mono, if_elim, refl, ◌∷◌, [], ◌==◌, arith, none, subst, ◌∙◌, ap, option_elim, find,
  remove_first,
}
use tp_2019_2c_vendo_fiat.Suse.State.{
  Suse, Hilo, Programa, agregar_a_ready, Config, Estado, set_hilo, set_programa, set_estado, exec,
  ready, new, blocked, exit, Double, set_en_ejecucion, set_ready,
}

module _ {D : Type 0} where
  -- The thread was made, and belongs to the program.
  abbrev pub De : Suse D → ℕ → ℕ → Type 0
  De s p h = (h < s.next_hilo) × ((s.hilos h).id_padre ≡ p)

  -- The threads in the lists of a program, and the one that it runs, are its own.
  abbrev pub PropioDe : Suse D → ℕ → Programa → Type 0
  PropioDe s p v =
      All (De s p) v.lista_de_hilos
      × All (De s p) v.lista_de_ready
      × All (De s p) v.joined_by
      × SiHay (De s p) v.en_ejecucion

  abbrev pub Hecho : Suse D → ℕ → Type 0
  Hecho s h = h < s.next_hilo

  -- That of every program; the new and the waiting threads were made.
  abbrev pub Propios : Suse D → Type 0
  Propios s =
      All (Hecho s) s.lista_nuevos
      × All (λ sem. All (Hecho s) sem.cola_bloqueo) s.lista_semaforos
      × ((p : ℕ) → PropioDe s p (s.programas p))

  pub PropioDe-mono :
      (s t : Suse D) (p : ℕ) (v : Programa)
      → ((h : ℕ) → De s p h → De t p h)
      → PropioDe s p v
      → PropioDe t p v
  PropioDe-mono s t p v f x = (
    All-mono (De s p) (De t p) v.lista_de_hilos f x.0,
    All-mono (De s p) (De t p) v.lista_de_ready f x.1,
    All-mono (De s p) (De t p) v.joined_by f x.2,
    SiHay-mono (De s p) (De t p) v.en_ejecucion x.3 f,
  )

  pub set_programa-Propios :
      (p : ℕ) (v : Programa) (s : Suse D)
      → PropioDe s p v
      → Propios s
      → Propios (set_programa p v s)
  set_programa-Propios p v s hv x = (
    x.0,
    x.1,
    λ q.
        if_elim (PropioDe s q) (p == q) v (s.programas q)
          (λ e. let mismo : p ≡ q = ground arith in subst (λ r. PropioDe s r v) mismo hv)
          (λ _. x.2 q),
  )

  -- A write into a thread that leaves it with its program.
  pub set_hilo-De :
      (h : ℕ) (v : Hilo D) (s : Suse D) (p k : ℕ)
      → v.id_padre ≡ (s.hilos h).id_padre
      → De s p k
      → De (set_hilo h v s) p k
  set_hilo-De h v s p k e y = (
    y.0,
    if_elim (λ w. w.id_padre ≡ p) (h == k) v (s.hilos k)
        (λ b. let mismo : h ≡ k = ground arith in e ∙ ap (λ j. (s.hilos j).id_padre) mismo ∙ y.1)
        (λ _. y.1),
  )

  pub set_hilo-Propios :
      (h : ℕ) (v : Hilo D) (s : Suse D)
      → v.id_padre ≡ (s.hilos h).id_padre
      → Propios s
      → Propios (set_hilo h v s)
  set_hilo-Propios h v s e x = (
    x.0,
    x.1,
    λ p. PropioDe-mono s (set_hilo h v s) p (s.programas p) (λ k. set_hilo-De h v s p k e) (x.2 p),
  )

  pub set_estado-Propios :
      (h : ℕ) (e : Estado) (s : Suse D) → Propios s → Propios (set_estado h e s)
  set_estado-Propios h e s x = set_hilo-Propios h (record (s.hilos h) { estado = e }) s refl x

  pub buscar_hilo-De :
      (id p h : ℕ) (s : Suse D) → Propios s → buscar_hilo id p s ≡ some h → De s p h
  unfolding buscar_hilo
  buscar_hilo-De id p h s x e = All-find (De s p) _ (s.programas p).lista_de_hilos h (x.2 p).0 e

  pub agregar_a_ready-Propios :
      (p h : ℕ) (s : Suse D) → De s p h → Propios s → Propios (agregar_a_ready p h s)
  agregar_a_ready-Propios p h s y x =
      let z = x.2 p in
      set_programa-Propios p _ s
        (z.0, All-append (De s p) (s.programas p).lista_de_ready (h ∷ []) z.1 (y, tt), z.2, z.3) x

  quitar_de_estado-Propios :
      (e : Estado) (h : ℕ) (s : Suse D) → Propios s → Propios (quitar_de_estado e h s)
  unfolding quitar_de_estado remover_hilo_de_lista
  quitar_de_estado-Propios exec h s x =
      let z = x.2 (s.hilos h).id_padre in set_programa-Propios _ _ s (z.0, z.1, z.2, tt) x
  quitar_de_estado-Propios ready h s x =
      let p = (s.hilos h).id_padre in
      let z = x.2 p in
      set_programa-Propios p _ s
        (z.0, All-remove_first (De s p) _ (s.programas p).lista_de_ready z.1, z.2, z.3) x
  quitar_de_estado-Propios new h s x = (All-remove_first (Hecho s) _ s.lista_nuevos x.0, x.1, x.2)
  quitar_de_estado-Propios blocked h s x = x
  quitar_de_estado-Propios exit h s x = x

  pub bloquear_hilo-Propios : (h : ℕ) (s : Suse D) → Propios s → Propios (bloquear_hilo h s)
  unfolding bloquear_hilo
  bloquear_hilo-Propios h s x =
      set_estado-Propios h blocked (quitar_de_estado (s.hilos h).estado h s)
        (quitar_de_estado-Propios (s.hilos h).estado h s x)

  pub cargar_loop-Propios :
      (c : Config D) (xs : List ℕ) (s : Suse D)
      → All (Hecho s) xs
      → Propios s
      → Propios (cargar_loop c xs s)
  unfolding cargar_loop cargar_hilo
  cargar_loop-Propios c [] s y x = x
  cargar_loop-Propios c (h ∷ rest) s y x =
      let s1 = set_estado h ready (record s { lista_nuevos = rest }) in
      let x1 : Propios s1 =
        set_estado-Propios h ready (record s { lista_nuevos = rest }) (y.1, x.1, x.2) in
      let x2 = agregar_a_ready-Propios (s1.hilos h).id_padre h s1 (y.0, refl) x1 in
      if_elim Propios (ltb_ℤ s.programas_en_memoria c.max_multiprog) _ _
        (λ _. cargar_loop-Propios c rest (cargar_hilo h rest s) y.1 x2) (λ _. x)

  desalojar-Propios :
      (p : ℕ) (o : Option ℕ) (s : Suse D) → SiHay (De s p) o → Propios s → Propios (desalojar p o s)
  unfolding desalojar
  desalojar-Propios p none s y x = x
  desalojar-Propios p (some h) s y x =
      let s1 = set_estado h ready s in
      let x1 = set_estado-Propios h ready s x in
      let x2 = agregar_a_ready-Propios p h s1 (set_hilo-De h _ s p h refl y) x1 in
      let z = x2.2 p in set_programa-Propios p _ (agregar_a_ready p h s1) (z.0, z.1, z.2, tt) x2

  module _ (d : Double D) where
    elegir-Propios :
        (p : ℕ) (xs : List ℕ) (s : Suse D)
        → All (De s p) xs
        → Propios s
        → SiHay Propios (elegir d p xs s)
    unfolding elegir despachar
    elegir-Propios p [] s y x = x
    elegir-Propios p (h0 ∷ hs) s y x =
        option_elim (SiHay Propios) (find (tiene_menor_estimado d s (h0 ∷ hs)) (h0 ∷ hs)) none _
          (λ _. tt)
          λ h e.
            let suyo = All-find (De s p) _ (h0 ∷ hs) h y e in
            let xs = (s.programas p).lista_de_ready in
            let z = x.2 p in
            let s1 = set_ready p (remove_first (tiene_menor_estimado d s xs) xs) s in
            let x1 : Propios s1 =
              set_programa-Propios p _ s (z.0, All-remove_first (De s p) _ xs z.1, z.2, z.3) x in
            let s2 = set_estado h exec s1 in
            let x2 : Propios s2 = set_estado-Propios h exec s1 x1 in
            let w = x2.2 p in
            set_programa-Propios p _ s2 (w.0, w.1, w.2, set_hilo-De h _ s1 p h refl suyo) x2

    pub suse_schedule_next-Propios :
        (p : ℕ) (s : Suse D) → Propios s → SiHay Propios (suse_schedule_next d p s)
    unfolding suse_schedule_next
    suse_schedule_next-Propios p s x =
        let s1 = desalojar p (s.programas p).en_ejecucion s in
        let x1 = desalojar-Propios p (s.programas p).en_ejecucion s (x.2 p).3 x in
        elegir-Propios p (s1.programas p).lista_de_ready s1 (x1.2 p).1 x1

    pub desbloquear_hilo-Propios :
        (h : ℕ) (s : Suse D) → Hecho s h → Propios s → SiHay Propios (desbloquear_hilo d h s)
    unfolding desbloquear_hilo
    desbloquear_hilo-Propios h s y x =
        let p = (s.hilos h).id_padre in
        let z = x.2 p in
        if_elim (SiHay Propios) (pendiente_de_envios p s) _ _
          (λ _.
            suse_schedule_next-Propios p (set_en_ejecucion p (some h) s)
              (set_programa-Propios p _ s (z.0, z.1, z.2, (y, refl)) x))
          (λ _. agregar_a_ready-Propios p h s (y, refl) x)
