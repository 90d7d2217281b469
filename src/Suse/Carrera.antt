-- ===== src/Suse/Carrera.antt =====
-- suse/src/suse.c, lines 175 to 184: `cargarHilosAReady` in several handlers at once. No mutex is held
-- over its loop, so the test of one handler and its load are two steps, with those of others between;
-- a load, with its increment, is one.
use tp_2019_2c_vendo_fiat.Suse.Ops.{cargar_hilo}
use tp_2019_2c_vendo_fiat.Suse.State.{Config, Suse}
use tp_2019_2c_vendo_fiat.Base.Int.{pos, ◌+ℤ◌, ◌≤ℤ◌, ltb_ℤ}
use tp_2019_2c_vendo_fiat.Base.{
  ℕ, List, [], ◌∷◌, Option, some, none, suc, zero, ltb, ◌&&◌, if◌then◌else◌, is_empty, not,
  option_case,
}

-- list_remove, and the load of what it gives.
unfoldable pub cargar_uno : {D : Type 0} → ℕ → Suse D → List ℕ → Option (ℕ × Suse D)
cargar_uno n s [] = none
cargar_uno n s (h ∷ rest) = some (n, cargar_hilo h rest s)

-- A handler tests the condition of the loop, or loads a thread after its test.
pub data Paso : Type 0 where
  probar cargar : Paso

module _ {D : Type 0} (c : Config D) (handlers : ℕ) where
  -- How many handlers are between a test that was true and their load, and the state. Only a handler
  -- that is not there can test. A load with no new thread left is a fault.
  unfoldable pub paso : Paso → ℕ × Suse D → Option (ℕ × Suse D)
  paso probar (n, s) = some (
      if ltb n handlers
        && ltb_ℤ s.programas_en_memoria c.max_multiprog
        && not (is_empty s.lista_nuevos)
      then (suc n, s)
      else (n, s))
  paso cargar (zero, s) = some (zero, s)
  paso cargar (suc n, s) = cargar_uno n s s.lista_nuevos

  unfoldable pub carrera : List Paso → ℕ × Suse D → Option (ℕ × Suse D)
  carrera [] s = some s
  carrera (p ∷ ps) s = option_case (paso p s) none (carrera ps)

module _ {D : Type 0} (c : Config D) where
  -- What the steps keep: the loaded threads and the handlers that are about to load one.
  abbrev Acotada : ℕ → ℕ × Suse D → Type 0
  Acotada otros r = r.1.programas_en_memoria +ℤ pos r.0 ≤ℤ c.max_multiprog +ℤ pos otros
