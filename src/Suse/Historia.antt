-- ===== src/Suse/Historia.antt =====
-- suse/src/suse.c from its start: connections and requests, in the order in which they come.
use tp_2019_2c_vendo_fiat.Suse.Propiedad.{set_programa-Propios, Propios}
use tp_2019_2c_vendo_fiat.Suse.Semaforos.{SemaforosValid, IsValid, Validos, atender-Validos}
use tp_2019_2c_vendo_fiat.Suse.Pertenencia.{atender-Propios}
use tp_2019_2c_vendo_fiat.Suse.Inicio.{
  iniciar, Nuevo, ConfigSemaforos, Configurado, cargar_semaforos, cargar_semaforos-Nuevo,
}
use tp_2019_2c_vendo_fiat.Suse.Calls.{Pedido, crear_programa, atender}
use tp_2019_2c_vendo_fiat.Suse.State.{Double, Config, Suse, Hilo}
use tp_2019_2c_vendo_fiat.Base.{
  ◌∷◌, ℕ, List, Option, SiHay, SiHay-option_case, some, [], option_case, none, ◌≡◌, All, subst,
  All-mono, sym,
}
use tp_2019_2c_vendo_fiat.Base.Int.{ℤ}
use Prim.Native.String.{String}

-- `solicitar p m` is a turn of the handler of the program `p` that reads the request `m`.
pub data Evento : Type 0 where
  conectar : ℕ → Evento
  solicitar : ℕ → Pedido → Evento

module _ {D : Type 0} (d : Double D) (c : Config D) where
  unfoldable pub historia : List Evento → Suse D → Option (Suse D)
  historia [] s = some s
  historia (conectar puerto ∷ es) s = historia es (crear_programa puerto s)
  historia (solicitar p m ∷ es) s = option_case (atender d c p m s) none (historia es)

  -- The invariants of the server.
  pub record Sano (s : Suse D) : Type 0 where
    pub semaforos : SemaforosValid s
    pub propios : Propios s

  crear_programa-Sano : (puerto : ℕ) (s : Suse D) → Sano s → Sano (crear_programa puerto s)
  unfolding crear_programa
  crear_programa-Sano puerto s h = record {
    semaforos = h.semaforos;
    propios = set_programa-Propios s.next_programa _ s (tt, tt, tt, tt) h.propios;
  }

  Sano-juntar : (o : Option (Suse D)) → Validos o → SiHay Propios o → SiHay Sano o
  Sano-juntar none v x = tt
  Sano-juntar (some t) v x = record { semaforos = v; propios = x }

  atender-Sano : (p : ℕ) (m : Pedido) (s : Suse D) → Sano s → SiHay Sano (atender d c p m s)
  atender-Sano p m s h =
      Sano-juntar (atender d c p m s) (atender-Validos d c p m s h.semaforos)
        (atender-Propios d c p m s h.propios)

  historia-Sano : (es : List Evento) (s : Suse D) → Sano s → SiHay Sano (historia es s)
  unfolding historia
  historia-Sano [] s h = h
  historia-Sano (conectar puerto ∷ es) s h =
      historia-Sano es (crear_programa puerto s) (crear_programa-Sano puerto s h)
  historia-Sano (solicitar p m ∷ es) s h =
      SiHay-option_case Sano Sano (atender d c p m s) (historia es) (atender-Sano p m s h)
        (λ t _ k. historia-Sano es t k)

  -- From the start of the server, with initial values of the semaphores between 0 and their maxima,
  -- over any connections and requests, in whatever order they come, of which none overlaps another
  -- and none faults: each semaphore has as many queued threads as its negative value counts and a
  -- value within its maximum, and the threads in the lists of a program, and the one that it runs,
  -- are its own.
  pub historia-Sano_inicio :
      (atoi : String → ℤ) (cs : ConfigSemaforos) (cantidad : ℕ) (hilos : ℕ → Hilo D)
      (es : List Evento) (s : Suse D)
      → Configurado atoi cs
      → iniciar atoi cs cantidad hilos ≡ some s
      → SiHay Sano (historia es s)
  unfolding iniciar
  historia-Sano_inicio atoi cs cantidad hilos es s k e =
      let inicial : SiHay Sano (iniciar atoi cs cantidad hilos) =
        SiHay-option_case Sano (All Nuevo) (cargar_semaforos atoi cs cantidad 0) _
          (cargar_semaforos-Nuevo atoi cs cantidad 0 k)
          λ sems _ v. record {
            semaforos = All-mono Nuevo IsValid sems (λ _ x. x.0) v;
            propios = (
              tt,
              All-mono Nuevo _ sems (λ sem x. subst (All _) (sym x.1) tt) v,
              λ p. (tt, tt, tt, tt),
            );
          } in
      historia-Sano es s (subst (SiHay Sano) e inicial)
