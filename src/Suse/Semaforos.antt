-- ===== src/Suse/Semaforos.antt =====
-- The counting semaphores of suse.c, over every history of handler turns.
use Prim.Native.String.{String}
use tp_2019_2c_vendo_fiat.Base.{
  ℕ, ◌≡◌, refl, sym, ap, subst, true, false, Option, none, some, List, [], ◌++◌, ◌∷◌, arith,
  option_elim, if_elim, length, length-append, All, All-set, All-get_elem?, get_elem?,
}
use tp_2019_2c_vendo_fiat.Base.Int.{pos, neg_part, ◌≤ℤ◌, ◌+ℤ◌, ◌-ℤ◌, ltb_ℤ}
use tp_2019_2c_vendo_fiat.Suse.State.{Double, Semaforo, Config, Suse}
use tp_2019_2c_vendo_fiat.Suse.Ops.{
  buscar_hilo, buscar_semaforo, cargar_hilos_a_ready, bloquear_hilo,
}
use tp_2019_2c_vendo_fiat.Suse.Calls.{
  Pedido, create, schedule_next, wait, signal, join, close, otro, is_blocked, set_semaforo,
  decrementar, esperar_en, suse_wait, incrementar, suse_create, desbloquear_join, cerrar,
  suse_close, despertar, suse_signal, estimar, atender, correr,
}
use tp_2019_2c_vendo_fiat.Suse.Frame.{
  preparar-semaforos, cerrar-semaforos, IgualO, bloquear_hilo-Igual, suse_schedule_next-Igual,
  desbloquear_hilo-Igual, suse_create-Igual, suse_join-Igual, desbloquear_join-Igual,
}

-- A negative value counts the waiting threads, and the value stays within its maximum.
pub record IsValid (sem : Semaforo) : Type 0 where
  pub esperando : length sem.cola_bloqueo ≡ neg_part sem.valor
  pub acotado : sem.valor ≤ℤ sem.valor_maximo
  pub maximo : pos 0 ≤ℤ sem.valor_maximo

bajar-IsValid :
    (sem : Semaforo) (h : ℕ)
    → ltb_ℤ (sem.valor -ℤ pos 1) (pos 0) ≡ true
    → IsValid sem
    → IsValid
        (record sem { valor = sem.valor -ℤ pos 1; cola_bloqueo = sem.cola_bloqueo ++ (h ∷ []) })
unfolding ◌-ℤ◌
bajar-IsValid sem h neg v = ground (arith, length-append sem.cola_bloqueo (h ∷ []))

decrementar-IsValid :
    (sem : Semaforo)
    → ltb_ℤ (sem.valor -ℤ pos 1) (pos 0) ≡ false
    → IsValid sem
    → IsValid (record sem { valor = sem.valor -ℤ pos 1 })
unfolding ◌-ℤ◌
decrementar-IsValid sem h v = ground arith

despertar-IsValid :
    (sem : Semaforo) (h : ℕ) (rest : List ℕ)
    → sem.cola_bloqueo ≡ h ∷ rest
    → IsValid sem
    → IsValid (record sem { valor = incrementar sem; cola_bloqueo = rest })
unfolding ◌+ℤ◌ incrementar
despertar-IsValid sem h rest e v = ground (arith, ap length e)

incrementar-IsValid :
    (sem : Semaforo)
    → sem.cola_bloqueo ≡ []
    → IsValid sem
    → IsValid (record sem { valor = incrementar sem })
unfolding ◌+ℤ◌ incrementar
incrementar-IsValid sem e v = ground (arith, ap length e)

module _ {D : Type 0} where
  abbrev pub SemaforosValid : Suse D → Type 0
  SemaforosValid s = All IsValid s.lista_semaforos

  abbrev pub Validos : Option (Suse D) → Type 0
  Validos none = Unit {0}
  Validos (some t) = SemaforosValid t

  keep :
      (s t : Suse D) → t.lista_semaforos ≡ s.lista_semaforos → SemaforosValid s → SemaforosValid t
  keep s t e v = subst (All IsValid) (sym e) v

  keep_o : (s : Suse D) (o : Option (Suse D)) → IgualO s o → SemaforosValid s → Validos o
  keep_o s none e v = tt
  keep_o s (some t) e v = keep s t e.semaforos v

  set-Validos :
      (s : Suse D) (i : ℕ) (sem : Semaforo)
      → SemaforosValid s
      → IsValid sem
      → SemaforosValid (set_semaforo i sem s)
  set-Validos s i sem v w = All-set IsValid s.lista_semaforos i sem v w

  bloquear_hilo-Validos :
      (h : ℕ) (s : Suse D) → SemaforosValid s → SemaforosValid (bloquear_hilo h s)
  bloquear_hilo-Validos h s v = keep s (bloquear_hilo h s) (bloquear_hilo-Igual h s).semaforos v

  decrementar-Validos :
      (i : ℕ) (sem : Semaforo) (h : ℕ) (s : Suse D)
      → SemaforosValid s
      → IsValid sem
      → SemaforosValid (decrementar i sem h s)
  unfolding decrementar
  decrementar-Validos i sem h s v w =
      if_elim SemaforosValid (ltb_ℤ (sem.valor -ℤ pos 1) (pos 0)) _ _
        (λ e. bloquear_hilo-Validos h _ (set-Validos s i _ v (bajar-IsValid sem h e w)))
        (λ e. set-Validos s i _ v (decrementar-IsValid sem e w))

  suse_wait-Validos :
      (t : ℕ) (nombre : String) (p : ℕ) (s : Suse D)
      → SemaforosValid s
      → Validos (suse_wait t nombre p s)
  unfolding suse_wait esperar_en
  suse_wait-Validos t nombre p s v =
      option_elim Validos (buscar_hilo t p s) _ _ (λ _. v)
        λ h _.
          if_elim Validos (is_blocked (s.hilos h).estado) _ _ (λ _. v)
            (λ _. esperar_en-Validos (buscar_semaforo nombre s) h)
    where
      esperar_en-Validos : (o : Option ℕ) (h : ℕ) → Validos (esperar_en o h s)
      esperar_en-Validos none h = tt
      esperar_en-Validos (some i) h =
          option_elim Validos (get_elem? s.lista_semaforos i) _ _ (λ _. tt)
            λ sem e.
              decrementar-Validos i sem h s v (All-get_elem? IsValid s.lista_semaforos i sem v e)

  suse_close-Validos : (t p : ℕ) (s : Suse D) → SemaforosValid s → Validos (suse_close t p s)
  unfolding suse_close
  suse_close-Validos t p s v =
      option_elim Validos (buscar_hilo t p s) _ _ (λ _. tt)
        λ h _.
          option_elim Validos (desbloquear_join h p _) _ _ (λ _. tt)
            λ s2 e.
              keep s2 (cerrar (s2.hilos h).estado h p s2)
                (cerrar-semaforos (s2.hilos h).estado h p s2)
                (subst Validos e (keep_o _ _ (desbloquear_join-Igual h p _) v))

  module _ (d : Double D) where
    despertar-Validos :
        (i : ℕ) (sem : Semaforo) (q : List ℕ) (s : Suse D)
        → sem.cola_bloqueo ≡ q
        → SemaforosValid s
        → IsValid sem
        → Validos (despertar d i (record sem { valor = incrementar sem }) q s)
    unfolding despertar
    despertar-Validos i sem [] s e v w = set-Validos s i _ v (incrementar-IsValid sem e w)
    despertar-Validos i sem (h ∷ rest) s e v w =
        keep_o _ _ (desbloquear_hilo-Igual d h _)
          (set-Validos s i _ v (despertar-IsValid sem h rest e w))

    suse_signal-Validos :
        (nombre : String) (s : Suse D) → SemaforosValid s → Validos (suse_signal d nombre s)
    unfolding suse_signal
    suse_signal-Validos nombre s v =
        option_elim Validos (buscar_semaforo nombre s) _ _ (λ _. tt)
          λ i _.
            option_elim Validos (get_elem? s.lista_semaforos i) _ _ (λ _. tt)
              λ sem e.
                despertar-Validos i sem sem.cola_bloqueo s refl v
                  (All-get_elem? IsValid s.lista_semaforos i sem v e)

    -- One turn of a handler keeps every semaphore valid.
    pub atender-Validos :
        (c : Config D) (p : ℕ) (m : Pedido) (s : Suse D)
        → SemaforosValid s
        → Validos (atender d c p m s)
    unfolding atender suse_close
    atender-Validos c p (create t) s v =
        keep s (suse_create d t p s) (suse_create-Igual d t p s).semaforos v
    atender-Validos c p (schedule_next t) s v = keep_o _ _ (suse_schedule_next-Igual d p _) (
        keep s (cargar_hilos_a_ready c (estimar d c (s.programas p).en_ejecucion t s))
          (preparar-semaforos d c (s.programas p).en_ejecucion t s) v)
    atender-Validos c p (wait t (some nombre)) s v = suse_wait-Validos t nombre p s v
    atender-Validos c p (wait t none) s v = tt
    atender-Validos c p (signal (some nombre)) s v = suse_signal-Validos nombre s v
    atender-Validos c p (signal none) s v = tt
    atender-Validos c p (join t) s v = keep_o s _ (suse_join-Igual t p s) v
    atender-Validos c p (close t) s v = suse_close-Validos t p s v
    atender-Validos c p otro s v = v

    -- Over any interleaving of the handlers' turns, the queue of each semaphore holds as many
    -- threads as its value lies below 0, and the value does not exceed its maximum, which is not
    -- negative: if every
    -- semaphore starts so, and no turn faults, every semaphore ends so.
    pub correr-Validos :
        (c : Config D) (ms : List (ℕ × Pedido)) (s : Suse D)
        → SemaforosValid s
        → Validos (correr d c ms s)
    unfolding correr
    correr-Validos c [] s v = v
    correr-Validos c ((p, m) ∷ ms) s v =
        option_elim Validos (atender d c p m s) none (correr d c ms) (λ _. tt)
          λ t e. correr-Validos c ms t (subst Validos e (atender-Validos c p m s v))
