-- ===== src/Suse/Pertenencia.antt =====
-- Over every history of turns, the threads in the lists of a program are its own.
use tp_2019_2c_vendo_fiat.Suse.Propiedad.{
  Hecho, Propios, set_hilo-Propios, set_estado-Propios, desbloquear_hilo-Propios,
  suse_schedule_next-Propios, cargar_loop-Propios,
}
use Prim.Native.String.{String}
use tp_2019_2c_vendo_fiat.Suse.State.{Semaforo, Suse, Double, ready, set_estado, Config}
use tp_2019_2c_vendo_fiat.Suse.Ops.{buscar_semaforo, cargar_hilos_a_ready, estimar_duracion_hilo}
use tp_2019_2c_vendo_fiat.Suse.Calls.{
  set_semaforo, atender, correr, despertar, estimar, suse_signal, incrementar, Pedido, create,
  schedule_next, wait, signal, join, close, otro,
}
use tp_2019_2c_vendo_fiat.Base.{
  ℕ, Option, All, SiHay, option_elim, some, get_elem?, none, refl, All-get_elem?, SiHay-option_case,
  ◌∷◌, [], List,
}
use tp_2019_2c_vendo_fiat.Suse.Llamadas.{
  set_semaforo-Propios, suse_wait-Propios, suse_join-Propios, suse_create-Propios,
  suse_close-Propios,
}

module _ {D : Type 0} where
  module _ (d : Double D) where
    despertar-Propios :
        (i : ℕ) (sem : Semaforo) (xs : List ℕ) (s : Suse D)
        → All (Hecho s) xs
        → All (Hecho s) sem.cola_bloqueo
        → Propios s
        → SiHay Propios (despertar d i sem xs s)
    unfolding despertar
    despertar-Propios i sem [] s y q x = set_semaforo-Propios i sem s q x
    despertar-Propios i sem (h ∷ rest) s y q x =
        let s1 = set_semaforo i (record sem { cola_bloqueo = rest }) s in
        desbloquear_hilo-Propios d h (set_estado h ready s1) y.0 (
          set_estado-Propios h ready s1
            (set_semaforo-Propios i (record sem { cola_bloqueo = rest }) s y.1 x))

    suse_signal-Propios :
        (nombre : String) (s : Suse D) → Propios s → SiHay Propios (suse_signal d nombre s)
    unfolding suse_signal
    suse_signal-Propios nombre s x =
        option_elim (SiHay Propios) (buscar_semaforo nombre s) none _ (λ _. tt)
          λ i _.
            option_elim (SiHay Propios) (get_elem? s.lista_semaforos i) none _ (λ _. tt)
              λ sem e.
                let cola =
                  All-get_elem? (λ k. All (Hecho s) k.cola_bloqueo) s.lista_semaforos i sem x.1 e in
                despertar-Propios i (record sem { valor = incrementar sem }) sem.cola_bloqueo s cola
                  cola x

    estimar-Propios :
        (c : Config D) (o : Option ℕ) (t : ℕ) (s : Suse D) → Propios s → Propios (estimar d c o t s)
    unfolding estimar estimar_duracion_hilo
    estimar-Propios c none t s x = x
    estimar-Propios c (some h) t s x = set_hilo-Propios h _ s refl x

    pub atender-Propios :
        (c : Config D) (p : ℕ) (m : Pedido) (s : Suse D)
        → Propios s
        → SiHay Propios (atender d c p m s)
    unfolding atender cargar_hilos_a_ready
    atender-Propios c p (create t) s x = suse_create-Propios d t p s x
    atender-Propios c p (schedule_next t) s x =
        let x1 = estimar-Propios c (s.programas p).en_ejecucion t s x in
        suse_schedule_next-Propios d p _ (cargar_loop-Propios c _ _ x1.0 x1)
    atender-Propios c p (wait t (some nombre)) s x = suse_wait-Propios t nombre p s x
    atender-Propios c p (wait t none) s x = tt
    atender-Propios c p (signal (some nombre)) s x = suse_signal-Propios nombre s x
    atender-Propios c p (signal none) s x = tt
    atender-Propios c p (join t) s x = suse_join-Propios t p s x
    atender-Propios c p (close t) s x = suse_close-Propios t p s x
    atender-Propios c p otro s x = x

    -- Over any interleaving of the handlers' turns that meets no fault: if, to begin with, every
    -- thread in the lists of a program, and the one that it runs, belongs to that program, and all
    -- of these, the new threads and those that wait on a semaphore were made, then it is so at the
    -- end.
    correr-Propios :
        (c : Config D) (ms : List (ℕ × Pedido)) (s : Suse D)
        → Propios s
        → SiHay Propios (correr d c ms s)
    unfolding correr
    correr-Propios c [] s x = x
    correr-Propios c ((p, m) ∷ ms) s x =
        SiHay-option_case Propios Propios (atender d c p m s) (correr d c ms)
          (atender-Propios c p m s x) (λ t _ y. correr-Propios c ms t y)
