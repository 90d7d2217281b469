-- ===== src/Suse/Turnos.antt =====
-- The order in which the threads that wait on a semaphore of suse.c are woken up.
use tp_2019_2c_vendo_fiat.Suse.Despertar.{
  Despierto, NoBloquea, desbloquear_hilo-Despierto, set_estado-NoBloquea, set_estado-despierto,
}
use Prim.Native.String.{String}
use tp_2019_2c_vendo_fiat.Suse.Frame.{IgualO, desbloquear_hilo-Igual}
use tp_2019_2c_vendo_fiat.Suse.Planificacion.{suse_schedule_next-Planificado}
use tp_2019_2c_vendo_fiat.Suse.Calls.{
  despertar, incrementar, set_semaforo, correr, suse_signal, Pedido, atender, signal,
}
use tp_2019_2c_vendo_fiat.Suse.Ops.{desbloquear_hilo, pendiente_de_envios, buscar_semaforo}
use tp_2019_2c_vendo_fiat.Suse.State.{
  Double, Suse, Semaforo, IsTotal, ready, set_en_ejecucion, set_estado, Config,
}
use tp_2019_2c_vendo_fiat.Base.{
  ℕ, List, some, ◌≡◌, SiHay, get_elem?, if_elim, set, drop, ◌∷◌, All, refl, ◌∙◌, inl, subst, take,
  ap, inr, [], suc, zero, map, length, get_elem?-set_self, lt-of_get_elem?, All-mono,
  find_index-set,
}

drop_uno : (n : ℕ) (xs : List ℕ) → drop n (drop 1 xs) ≡ drop (suc n) xs
drop_uno zero [] = refl
drop_uno (suc n) [] = refl
drop_uno n (x ∷ xs) = refl

All-take_uno :
    (P : ℕ → Type 0) (n : ℕ) (xs : List ℕ)
    → All P (take 1 xs)
    → All P (take n (drop 1 xs))
    → All P (take (suc n) xs)
All-take_uno P n [] h k = tt
All-take_uno P n (x ∷ xs) h k = (h.0, k)

module _ {D : Type 0} where
  module _ (d : Double D) where
    -- Over numbers, a wake-up never faults.
    desbloquear_hilo_total :
        IsTotal d → (h : ℕ) (s : Suse D) → (t : Suse D) × (desbloquear_hilo d h s ≡ some t)
    unfolding desbloquear_hilo
    desbloquear_hilo_total total h s =
        let p = (s.hilos h).id_padre in
        if_elim (λ o. (t : Suse D) × (o ≡ some t)) (pendiente_de_envios p s) _ _
          (λ _. elim (suse_schedule_next-Planificado d total p (set_en_ejecucion p (some h) s)) [
            | inl igual ↦ (_, igual.1)
            | inr otro ↦ (otro.1, otro.2)
          ])
          (λ _. (_, refl))

    -- What a signal of a semaphore with the queue `cola` leaves.
    record Senalado (i : ℕ) (sem : Semaforo) (q : List ℕ) (s t : Suse D) : Type 0 where
      semaforos :
          t.lista_semaforos
          ≡ set s.lista_semaforos i
              (record sem { valor = incrementar sem; cola_bloqueo = drop 1 q })
      despiertos : All (Despierto t) (take 1 q)
      nadie : NoBloquea s t

    despertar-Senalado :
        IsTotal d
        → (i : ℕ) (sem : Semaforo) (q : List ℕ) (s : Suse D) → sem.cola_bloqueo ≡ q
        → (t : Suse D) × (despertar d i (record sem { valor = incrementar sem }) q s ≡ some t)
          × Senalado i sem q s t
    unfolding despertar
    despertar-Senalado total i sem [] s e = (
      _,
      refl,
      record {
        semaforos =
            ap
              (λ q.
                set s.lista_semaforos i (record sem { valor = incrementar sem; cola_bloqueo = q }))
              e;
        despiertos = tt;
        nadie = λ k y. y;
      },
    )
    despertar-Senalado total i sem (h ∷ rest) s e =
        let s1 = set_semaforo i (record sem { valor = incrementar sem; cola_bloqueo = rest }) s in
        let s2 = set_estado h ready s1 in
        let (t, hecho) = desbloquear_hilo_total total h s2 in
        let (sigue, despierto) =
          subst (SiHay (λ u. NoBloquea s2 u × Despierto u h)) hecho
            (desbloquear_hilo-Despierto d h s2 (set_estado-despierto h ready s1 refl)) in
        let igual = subst (IgualO s2) hecho (desbloquear_hilo-Igual d h s2) in
        (
          t,
          hecho,
          record {
            semaforos = igual.semaforos;
            despiertos = (despierto, tt);
            nadie = λ k y. sigue k (set_estado-NoBloquea h ready s1 refl k y);
          },
        )

    suse_signal-Senalado :
        IsTotal d
        → (nombre : String) (i : ℕ) (sem : Semaforo) (s : Suse D)
        → buscar_semaforo nombre s ≡ some i
        → get_elem? s.lista_semaforos i ≡ some sem
        → (t : Suse D) × (suse_signal d nombre s ≡ some t) × Senalado i sem sem.cola_bloqueo s t
    unfolding suse_signal
    suse_signal-Senalado total nombre i sem s b e =
        let (t, hecho, r) = despertar-Senalado total i sem sem.cola_bloqueo s refl in
        (t, rw (b, e) hecho, r)

    -- Signals of a semaphore, by the programs `ps`.
    abbrev pub senales : String → List ℕ → List (ℕ × Pedido)
    senales nombre ps = map (λ p. (p, signal (some nombre))) ps

    -- What signals leave: the first threads of the queue are awake, ready or running in
    -- their programs, and the others wait on.
    pub record Despertados (n i : ℕ) (cola : List ℕ) (t : Suse D) : Type 0 where
      pub sem : Semaforo
      pub esta : get_elem? t.lista_semaforos i ≡ some sem
      pub quedan : sem.cola_bloqueo ≡ drop n cola
      pub despiertos : All (Despierto t) (take n cola)

    -- That, and that nobody is blocked anew.
    correr-senales :
        IsTotal d
        → (c : Config D) (nombre : String) (ps : List ℕ) (i : ℕ) (sem : Semaforo) (s : Suse D)
        → buscar_semaforo nombre s ≡ some i
        → get_elem? s.lista_semaforos i ≡ some sem
        → (t : Suse D) × (correr d c (senales nombre ps) s ≡ some t)
          × Despertados (length ps) i sem.cola_bloqueo t
          × NoBloquea s t
    unfolding correr atender
    correr-senales total c nombre [] i sem s b e =
        (s, refl, record { sem = sem; esta = e; quedan = refl; despiertos = tt }, λ k y. y)
    correr-senales total c nombre (p ∷ ps) i sem s b e =
        let (u, hecho, r) = suse_signal-Senalado total nombre i sem s b e in
        let sem1 = record sem { valor = incrementar sem; cola_bloqueo = drop 1 sem.cola_bloqueo } in
        let e1 : get_elem? u.lista_semaforos i ≡ some sem1 = rw (r.semaforos) (
          get_elem?-set_self s.lista_semaforos i sem1
            (lt-of_get_elem? s.lista_semaforos i sem e)) in
        let b1 : buscar_semaforo nombre u ≡ some i =
          unfold buscar_semaforo in
          rw (r.semaforos) (find_index-set _ s.lista_semaforos i sem sem1 e refl ∙ b) in
        let (t, sigue, w, nadie) = correr-senales total c nombre ps i sem1 u b1 e1 in
        (
          t,
          rw hecho sigue,
          record {
            sem = w.sem;
            esta = w.esta;
            quedan = w.quedan ∙ drop_uno (length ps) sem.cola_bloqueo;
            despiertos =
                All-take_uno (Despierto t) (length ps) sem.cola_bloqueo
                  (All-mono (Despierto u) (Despierto t) (take 1 sem.cola_bloqueo) nadie
                    r.despiertos)
                  w.despiertos;
          },
          λ k y. nadie k (r.nadie k y),
        )

    -- Over numbers that are not NaN, where a semaphore is found: signals of it, by whatever
    -- programs, meet no fault; as many threads as there are signals, taken from the front of its
    -- queue, are blocked no more, and each is in the ready list of its own program or runs there; the
    -- queue is left with the others, in their order. So a thread in place `k` of the queue is awake
    -- after `k + 1` signals.
    pub correr-Despertados :
        IsTotal d
        → (c : Config D) (nombre : String) (ps : List ℕ) (i : ℕ) (sem : Semaforo) (s : Suse D)
        → buscar_semaforo nombre s ≡ some i
        → get_elem? s.lista_semaforos i ≡ some sem
        → (t : Suse D) × (correr d c (senales nombre ps) s ≡ some t)
          × Despertados (length ps) i sem.cola_bloqueo t
    correr-Despertados total c nombre ps i sem s b e =
        let (t, hecho, w, _) = correr-senales total c nombre ps i sem s b e in (t, hecho, w)
