-- ===== src/Suse/Inicio.antt =====
-- suse/src/suse.c, lines 55 to 70 and 473 to 483: the semaphores that the configuration names, and
-- the state at the start. `cantidad` is the count that the code reads, `strlen` of the array of
-- names divided by the size of a pointer, and `atoi` that of stdlib.h. `none` is a fault: the code
-- reads past an array.
use tp_2019_2c_vendo_fiat.Suse.Semaforos.{IsValid}
use tp_2019_2c_vendo_fiat.Suse.State.{Hilo, Programa, Semaforo, Suse}
use tp_2019_2c_vendo_fiat.Base.{
  List, ℕ, Option, SiHay, get_elem?, All, ◌≡◌, option_case, option_elim, some, suc,
  SiHay-option_case, [], none, arith, zero, ◌∷◌, refl,
}
use Prim.Native.String.{String}
use tp_2019_2c_vendo_fiat.Base.Int.{ℤ, pos, ◌≤ℤ◌}

-- SEM_IDS, SEM_INIT and SEM_MAX of the configuration.
pub record ConfigSemaforos : Type 0 where
  pub sem_ids : List String
  pub sem_init_value : List String
  pub sem_max : List String

-- What is behind a pointer to a program that was not made.
abbrev pub sin_programa : Programa
sin_programa = record {
  id = 0;
  puerto = 0;
  joined_by = [];
  lista_de_hilos = [];
  lista_de_ready = [];
  en_ejecucion = none;
}

abbrev pub Nuevo : Semaforo → Type 0
Nuevo sem = IsValid sem × (sem.cola_bloqueo ≡ [])

module _ (atoi : String → ℤ) where
  unfoldable pub cargar_semaforo : ConfigSemaforos → ℕ → Option Semaforo
  cargar_semaforo c i = option_case (get_elem? c.sem_ids i) none λ nombre.
      option_case (get_elem? c.sem_init_value i) none λ inicial.
        option_case (get_elem? c.sem_max i) none λ maximo. some (record {
          nombre = nombre;
          valor = atoi inicial;
          valor_maximo = atoi maximo;
          cola_bloqueo = [];
        })

  -- The loop, on the `n` places from `i` on.
  unfoldable pub cargar_semaforos : ConfigSemaforos → ℕ → ℕ → Option (List Semaforo)
  cargar_semaforos c zero i = some []
  cargar_semaforos c (suc n) i =
      option_case (cargar_semaforo c i) none
        λ sem. option_case (cargar_semaforos c n (suc i)) none (λ sems. some (sem ∷ sems))

  -- The lists are empty and no thread is loaded; `hilos` is what is behind the pointers to threads.
  unfoldable pub iniciar : {D : Type 0} → ConfigSemaforos → ℕ → (ℕ → Hilo D) → Option (Suse D)
  iniciar c cantidad hilos = option_case (cargar_semaforos c cantidad 0) none λ sems. some (record {
    hilos = hilos;
    next_hilo = 0;
    programas = λ p. sin_programa;
    next_programa = 0;
    next_id = 1;
    lista_nuevos = [];
    lista_semaforos = sems;
    lista_de_programas = [];
    programas_en_memoria = pos 0;
    enviados = [];
  })

  -- The initial values are between 0 and the maxima.
  abbrev pub Configurado : ConfigSemaforos → Type 0
  Configurado c =
      (i : ℕ) (inicial maximo : String)
      → get_elem? c.sem_init_value i ≡ some inicial
      → get_elem? c.sem_max i ≡ some maximo
      → (pos 0 ≤ℤ atoi inicial) × (atoi inicial ≤ℤ atoi maximo)

  cargar_semaforo-Nuevo :
      (c : ConfigSemaforos) (i : ℕ) → Configurado c → SiHay Nuevo (cargar_semaforo c i)
  unfolding cargar_semaforo
  cargar_semaforo-Nuevo c i h =
      option_elim (SiHay Nuevo) (get_elem? c.sem_ids i) none _ (λ _. tt)
        λ nombre _.
          option_elim (SiHay Nuevo) (get_elem? c.sem_init_value i) none _ (λ _. tt)
            λ inicial e.
              option_elim (SiHay Nuevo) (get_elem? c.sem_max i) none _ (λ _. tt)
                λ maximo f.
                  let (menos, mas) = h i inicial maximo e f in
                  (
                    record {
                      esperando = ground arith;
                      acotado = mas;
                      maximo = omega (arith, menos, mas);
                    },
                    refl,
                  )

  -- Every semaphore that is loaded is valid and nobody waits on it.
  pub cargar_semaforos-Nuevo :
      (c : ConfigSemaforos) (n i : ℕ) → Configurado c → SiHay (All Nuevo) (cargar_semaforos c n i)
  unfolding cargar_semaforos
  cargar_semaforos-Nuevo c zero i h = tt
  cargar_semaforos-Nuevo c (suc n) i h =
      SiHay-option_case (All Nuevo) Nuevo (cargar_semaforo c i) _ (cargar_semaforo-Nuevo c i h)
        λ sem _ v.
          SiHay-option_case (All Nuevo) (All Nuevo) (cargar_semaforos c n (suc i)) _
            (cargar_semaforos-Nuevo c n (suc i) h) (λ sems _ vs. (v, vs))
