-- ===== src/Suse/State.antt =====
-- suse/src/suse.h and the globals of suse/src/suse.c. A pointer to a t_hilo or a t_programa is a
-- number, its cell is found in the store `hilos` or `programas`; so two lists that hold one pointer
-- share the thread. `enviados` records the SUSE_SCHEDULE_NEXT messages, as (socket, thread id).
use Prim.Native.String.{String}
use tp_2019_2c_vendo_fiat.Base.{
  ℕ, ◌≡◌, Bool, true, false, Option, List, [], ◌++◌, ◌∷◌, ◌==◌, if◌then◌else◌,
}
use tp_2019_2c_vendo_fiat.Base.Int.{ℤ}

-- The operations of C's double that the scheduler uses.
pub record Double (D : Type 0) : Type 0 where
  pub of_int : ℕ → D
  pub add : D → D → D
  pub sub : D → D → D
  pub mul : D → D → D
  pub leb : D → D → Bool

-- What IEEE 754 says of `<=` on numbers that are not NaN.
pub record IsTotal {D : Type 0} (d : Double D) : Type 0 where
  pub leb_total : (x y : D) → d.leb x y ≡ false → d.leb y x ≡ true
  pub leb_trans : (x y z : D) → d.leb x y ≡ true → d.leb y z ≡ true → d.leb x z ≡ true

pub data Estado : Type 0 where
  new ready exec blocked exit : Estado

pub record Hilo (D : Type 0) : Type 0 where
  pub id : ℕ
  pub joined : Bool
  pub id_padre : ℕ
  pub estado : Estado
  pub tiempo_inicial : D
  pub tiempo_espera : D
  pub tiempo_cpu : D
  pub estimado_sjf : D

pub record Programa : Type 0 where
  pub id : ℕ
  pub puerto : ℕ
  pub joined_by : List ℕ
  pub lista_de_hilos : List ℕ
  pub lista_de_ready : List ℕ
  pub en_ejecucion : Option ℕ

pub record Semaforo : Type 0 where
  pub nombre : String
  pub valor : ℤ
  pub valor_maximo : ℤ
  pub cola_bloqueo : List ℕ

pub record Config (D : Type 0) : Type 0 where
  pub max_multiprog : ℤ
  pub alpha_sjf : D

pub record Suse (D : Type 0) : Type 0 where
  pub hilos : ℕ → Hilo D
  pub next_hilo : ℕ
  pub programas : ℕ → Programa
  pub next_programa : ℕ
  pub next_id : ℕ
  pub lista_nuevos : List ℕ
  pub lista_semaforos : List Semaforo
  pub lista_de_programas : List ℕ
  pub programas_en_memoria : ℤ
  pub enviados : List (ℕ × ℕ)

-- A write through a pointer.
abbrev pub update {ℓ} : {A : Type ℓ} → (ℕ → A) → ℕ → A → ℕ → A
update f k v j = if k == j then v else f j

module _ {D : Type 0} where
  abbrev pub set_hilo : ℕ → Hilo D → Suse D → Suse D
  set_hilo h v s = record s { hilos = update s.hilos h v }

  abbrev pub set_estado : ℕ → Estado → Suse D → Suse D
  set_estado h e s = set_hilo h (record (s.hilos h) { estado = e }) s

  abbrev pub set_programa : ℕ → Programa → Suse D → Suse D
  set_programa p v s = record s { programas = update s.programas p v }

  abbrev pub set_ready : ℕ → List ℕ → Suse D → Suse D
  set_ready p xs s = set_programa p (record (s.programas p) { lista_de_ready = xs }) s

  abbrev pub set_en_ejecucion : ℕ → Option ℕ → Suse D → Suse D
  set_en_ejecucion p h s = set_programa p (record (s.programas p) { en_ejecucion = h }) s

  -- list_add(programa->listaDeReady, hilo)
  abbrev pub agregar_a_ready : ℕ → ℕ → Suse D → Suse D
  agregar_a_ready p h s = set_ready p ((s.programas p).lista_de_ready ++ (h ∷ [])) s
