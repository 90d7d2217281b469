-- ===== src/Suse/Frame.antt =====
-- What the operations of suse.c leave alone: the semaphores and the count of loaded threads.
use tp_2019_2c_vendo_fiat.Base.{
  option_elim, if_elim, ℕ, ◌≡◌, refl, ◌∙◌, Option, none, some, List, [], ◌∷◌, arith,
}
use tp_2019_2c_vendo_fiat.Suse.State.{Double, Estado, new, Suse, Config}
use tp_2019_2c_vendo_fiat.Base.Int.{ltb_ℤ}
use tp_2019_2c_vendo_fiat.Suse.Ops.{
  cargar_loop, cargar_hilo, cargar_hilos_a_ready, estimar_duracion_hilo, buscar_hilo,
  agregar_hilo_a_lista_nuevos, quitar_de_estado, bloquear_hilo, desalojar, despachar, elegir,
  suse_schedule_next, desbloquear_hilo, pendiente_de_envios,
}
use tp_2019_2c_vendo_fiat.Suse.Calls.{
  cerrar, estimar, suse_join, suse_create, desbloquear_cero, desbloquear_join,
}

module _ {D : Type 0} where
  pub record Igual (s t : Suse D) : Type 0 where
    pub semaforos : t.lista_semaforos ≡ s.lista_semaforos
    pub cuenta : t.programas_en_memoria ≡ s.programas_en_memoria

  pub Igual-refl : (s : Suse D) → Igual s s
  Igual-refl s = record { semaforos = refl; cuenta = refl }

  -- The same of an operation that may fault.
  abbrev pub IgualO : Suse D → Option (Suse D) → Type 0
  IgualO s none = Unit {0}
  IgualO s (some t) = Igual s t

  pub quitar_de_estado-Igual : (e : Estado) (h : ℕ) (s : Suse D) → Igual s (quitar_de_estado e h s)
  unfolding quitar_de_estado
  quitar_de_estado-Igual new h s = record { semaforos = refl; cuenta = refl }
  quitar_de_estado-Igual _ h s = record { semaforos = refl; cuenta = refl }

  pub bloquear_hilo-Igual : (h : ℕ) (s : Suse D) → Igual s (bloquear_hilo h s)
  unfolding bloquear_hilo
  bloquear_hilo-Igual h s =
      let q = quitar_de_estado-Igual (s.hilos h).estado h s in
      record { semaforos = q.semaforos; cuenta = q.cuenta }

  trans : {s t : Suse D} (o : Option (Suse D)) → Igual s t → IgualO t o → IgualO s o
  trans none e f = tt
  trans (some u) e f = record {
    semaforos = f.semaforos ∙ e.semaforos;
    cuenta = f.cuenta ∙ e.cuenta;
  }

  desalojar-Igual : (p : ℕ) (e : Option ℕ) (s : Suse D) → Igual s (desalojar p e s)
  unfolding desalojar
  desalojar-Igual p none s = record { semaforos = refl; cuenta = refl }
  desalojar-Igual p (some h) s = record { semaforos = refl; cuenta = refl }

  module _ (d : Double D) where
    elegir-Igual : (p : ℕ) (xs : List ℕ) (s : Suse D) → IgualO s (elegir d p xs s)
    unfolding elegir despachar
    elegir-Igual p [] s = Igual-refl s
    elegir-Igual p (x ∷ xs) s = ground arith

    pub suse_schedule_next-Igual : (p : ℕ) (s : Suse D) → IgualO s (suse_schedule_next d p s)
    unfolding suse_schedule_next
    suse_schedule_next-Igual p s =
        trans _ (desalojar-Igual p (s.programas p).en_ejecucion s) (elegir-Igual p _ _)

    pub desbloquear_hilo-Igual : (h : ℕ) (s : Suse D) → IgualO s (desbloquear_hilo d h s)
    unfolding desbloquear_hilo
    desbloquear_hilo-Igual h s =
        if_elim (IgualO s) (pendiente_de_envios ((s.hilos h).id_padre) s) _ _
          (λ _.
            trans _ (record { semaforos = refl; cuenta = refl })
              (suse_schedule_next-Igual ((s.hilos h).id_padre) _))
          (λ _. record { semaforos = refl; cuenta = refl })

  -- Creating a thread, joining one and waking the joining thread up are such operations too.
  pub suse_create-Igual : (d : Double D) (t p : ℕ) (s : Suse D) → Igual s (suse_create d t p s)
  unfolding suse_create agregar_hilo_a_lista_nuevos
  suse_create-Igual d t p s = record { semaforos = refl; cuenta = refl }

  pub suse_join-Igual : (t p : ℕ) (s : Suse D) → IgualO s (suse_join t p s)
  unfolding suse_join
  suse_join-Igual t p s =
      option_elim (IgualO s) (buscar_hilo t p s) _ _ (λ _. Igual-refl s)
        λ h _.
          option_elim (IgualO s) (buscar_hilo 0 p _) _ _ (λ _. tt)
            λ cero _.
              let q = bloquear_hilo-Igual cero _ in
              record { semaforos = q.semaforos; cuenta = q.cuenta }

  pub desbloquear_join-Igual : (h p : ℕ) (s : Suse D) → IgualO s (desbloquear_join h p s)
  unfolding desbloquear_join desbloquear_cero
  desbloquear_join-Igual h p s = ground arith

  cargar_loop-semaforos :
      (c : Config D) (xs : List ℕ) (s : Suse D)
      → (cargar_loop c xs s).lista_semaforos ≡ s.lista_semaforos
  unfolding cargar_loop cargar_hilo
  cargar_loop-semaforos c [] s = refl
  cargar_loop-semaforos c (h ∷ rest) s =
      if_elim {A = Suse D} (λ t. t.lista_semaforos ≡ s.lista_semaforos)
        (ltb_ℤ s.programas_en_memoria c.max_multiprog) _ _ (λ _. cargar_loop-semaforos c rest _)
        (λ _. refl)

  -- What a SUSE_SCHEDULE_NEXT does before it picks a thread.
  pub preparar-semaforos :
      (d : Double D) (c : Config D) (o : Option ℕ) (t : ℕ) (s : Suse D)
      → (cargar_hilos_a_ready c (estimar d c o t s)).lista_semaforos ≡ s.lista_semaforos
  unfolding cargar_hilos_a_ready estimar estimar_duracion_hilo
  preparar-semaforos d c none t s = cargar_loop-semaforos c s.lista_nuevos s
  preparar-semaforos d c (some h) t s = cargar_loop-semaforos c s.lista_nuevos _

  pub cerrar-semaforos :
      (e : Estado) (h p : ℕ) (s : Suse D) → (cerrar e h p s).lista_semaforos ≡ s.lista_semaforos
  unfolding cerrar
  cerrar-semaforos new h p s = refl
  cerrar-semaforos _ h p s = refl
