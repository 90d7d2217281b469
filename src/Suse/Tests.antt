-- ===== src/Suse/Tests.antt =====
-- The scheduler on a small run: a program of two threads and one semaphore.
use tp_2019_2c_vendo_fiat.Suse.Planificacion.{
  candidatos, Despachado, suse_schedule_next-Planificado,
}
use tp_2019_2c_vendo_fiat.Suse.Carga.{Cargados, cargar_hilos_a_ready-Cargados}
use tp_2019_2c_vendo_fiat.Suse.Calls.{
  correr, Pedido, suse_create, create, schedule_next, wait, signal, close,
}
use tp_2019_2c_vendo_fiat.Suse.Ops.{
  cargar_hilos_a_ready, suse_schedule_next, cargar_hilo, agregar_hilo_a_lista_nuevos,
}
use tp_2019_2c_vendo_fiat.Suse.Carrera.{carrera, paso, cargar_uno, probar, cargar}
use tp_2019_2c_vendo_fiat.Suse.Semaforos.{Validos, correr-Validos}
use tp_2019_2c_vendo_fiat.Base.Int.{pos, ◌+ℤ◌}
use tp_2019_2c_vendo_fiat.Base.{
  List, [], arith, ℕ, Option, false, none, ◌+◌, ◌∷◌, refl, ◌-◌, ◌≡◌, ◌*◌, leb, some, ◌⊎◌,
  option_case,
}
use tp_2019_2c_vendo_fiat.Suse.State.{Double, IsTotal, Hilo, Programa, Semaforo, Config, Suse, new}

-- Whole numbers in the place of doubles.
abbrev pub enteros : Double ℕ
enteros = record {
  of_int = λ n. n;
  add = λ x y. x + y;
  sub = λ x y. x - y;
  mul = λ x y. x * y;
  leb = λ x y. leb x y;
}

pub enteros-IsTotal : IsTotal enteros
enteros-IsTotal = record {
  leb_total = λ x y h. ground arith;
  leb_trans = λ x y z h k. ground arith;
}

abbrev pub hilo_vacio : Hilo ℕ
hilo_vacio = record {
  id = 0;
  joined = false;
  id_padre = 0;
  estado = new;
  tiempo_inicial = 0;
  tiempo_espera = 0;
  tiempo_cpu = 0;
  estimado_sjf = 0;
}

abbrev programa_vacio : Programa
programa_vacio = record {
  id = 1;
  puerto = 7;
  joined_by = [];
  lista_de_hilos = [];
  lista_de_ready = [];
  en_ejecucion = none;
}

abbrev pub semaforo_a : Semaforo
semaforo_a = record { nombre = "A"; valor = pos 0; valor_maximo = pos 1; cola_bloqueo = [] }

abbrev pub config : Config ℕ
config = record { max_multiprog = pos 2; alpha_sjf = 1 }

abbrev pub inicio : Suse ℕ
inicio = record {
  hilos = λ h. hilo_vacio;
  next_hilo = 0;
  programas = λ p. programa_vacio;
  next_programa = 1;
  next_id = 2;
  lista_nuevos = [];
  lista_semaforos = semaforo_a ∷ [];
  lista_de_programas = 0 ∷ [];
  programas_en_memoria = pos 0;
  enviados = [];
}

-- Two threads are made and run, one waits on the semaphore, the other raises it.
abbrev pub vuelta : List (ℕ × Pedido)
vuelta =
    (0, create 0)
    ∷ (0, create 1)
    ∷ (0, schedule_next 5)
    ∷ (0, wait 0 (some "A"))
    ∷ (0, schedule_next 3)
    ∷ (0, signal (some "A"))
    ∷ (0, close 1)
    ∷ []

-- The state after the two threads were made.
abbrev con_dos : Suse ℕ
con_dos = suse_create enteros 1 0 (suse_create enteros 0 0 inicio)

correr-Validos_example : Validos (correr enteros config vuelta inicio)
correr-Validos_example =
    correr-Validos enteros config vuelta inicio
      (record { esperando = refl; acotado = omega arith; maximo = omega arith }, tt)

-- Two new threads of the program, and room for one.
abbrev casi_lleno : Suse ℕ
casi_lleno = record con_dos { programas_en_memoria = pos 1 }

-- In that order both of two handlers load a thread, and the count passes MAX_MULTIPROG, which is 2.
pasa_el_grado :
    option_case
      (carrera config 2 (probar ∷ probar ∷ cargar ∷ cargar ∷ []) (0, casi_lleno))
      (pos 0)
      (λ r. r.1.programas_en_memoria)
    ≡ pos 3
unfolding carrera paso cargar_uno cargar_hilo suse_create agregar_hilo_a_lista_nuevos ◌+ℤ◌
pasa_el_grado = refl

cargar_hilos_a_ready-Cargados_example :
    (k : ℕ) × Cargados config con_dos.lista_nuevos k con_dos (cargar_hilos_a_ready config con_dos)
cargar_hilos_a_ready-Cargados_example = cargar_hilos_a_ready-Cargados config con_dos

suse_schedule_next-Planificado_example :
    let s = cargar_hilos_a_ready config con_dos in
    ((candidatos enteros 0 s ≡ []) × (suse_schedule_next enteros 0 s ≡ some s))
    ⊎ ((h : ℕ) × (t : Suse ℕ) × (suse_schedule_next enteros 0 s ≡ some t)
        × Despachado enteros 0 (candidatos enteros 0 s) h s t)
suse_schedule_next-Planificado_example =
    suse_schedule_next-Planificado enteros enteros-IsTotal 0 (cargar_hilos_a_ready config con_dos)

resultado : Option (List (ℕ × ℕ))
resultado = option_case (correr enteros config vuelta inicio) none (λ s. some s.enviados)
