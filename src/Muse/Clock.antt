-- ===== src/Muse/Clock.antt =====
-- muse/src/utils.c, lines 76 to 90 and 421 to 508: the search for a free frame, and the search of
-- the modified clock for a victim. A search returns the position of the frame, the bits and the
-- clock pointer. The pointer starts within the bitmap, so `list_get` finds a frame at every round.
pub mod Recorrido
pub mod Casos
pub mod Victima
use tp_2019_2c_vendo_fiat.Base.{
  List, Option, ℕ, Bool, length, none, option_case, false, get_elem?, not, suc, ◌∷◌, if◌then◌else◌,
  ◌&&◌, set, true, zero, [], some, ◌-◌,
}
use tp_2019_2c_vendo_fiat.Muse.State.{BitMemoria}
use mathlib.Core.Option

unfoldable pub esta_libre : BitMemoria → Bool
esta_libre bit = not bit.esta_ocupado

-- The first free frame, which is marked as taken, modified and used.
unfoldable pub buscar_bit_libre_memoria : List BitMemoria → Option ℕ × List BitMemoria
unfolding esta_libre
buscar_bit_libre_memoria [] = (none, [])
buscar_bit_libre_memoria (b ∷ bits) =
    let rest = buscar_bit_libre_memoria bits in
    if esta_libre b
    then (some 0, record b { esta_ocupado = true; bit_modificado = true; bit_uso = true } ∷ bits)
    else (Option.map suc rest.0, b ∷ rest.1)

-- The tests (0, 0) and (0, 1) on the bits (use, modified).
unfoldable pub es_0_0 : Option BitMemoria → Bool
es_0_0 none = false
es_0_0 (some b) = not b.bit_modificado && not b.bit_uso

unfoldable pub es_0_1 : Option BitMemoria → Bool
es_0_1 none = false
es_0_1 (some b) = b.bit_modificado && not b.bit_uso

-- `n` rounds of the loop of `buscarBit_0_0`, from the frame `p`.
unfoldable pub vuelta_0_0 : ℕ → ℕ → List BitMemoria → Option ℕ
vuelta_0_0 zero p bits = none
vuelta_0_0 (suc n) p bits =
    let rest = vuelta_0_0 n (suc p) bits in if es_0_0 (get_elem? bits p) then some p else rest

pub record Busqueda : Type 0 where
  pub bit : Option ℕ
  pub bits : List BitMemoria
  pub puntero : ℕ

abbrev pub busqueda : Option ℕ → List BitMemoria → ℕ → Busqueda
busqueda b bits p = record { bit = b; bits = bits; puntero = p }

-- The first loop runs to the end and steps past the frame that it finds, the second runs from 0 to
-- the initial position and stays on it.
unfoldable pub buscar_bit_0_0 : List BitMemoria → ℕ → Busqueda
buscar_bit_0_0 bits inicial =
    option_case (vuelta_0_0 (length bits - inicial) inicial bits)
      (option_case (vuelta_0_0 inicial 0 bits) (busqueda none bits inicial)
        (λ p. busqueda (some p) bits p))
      (λ p. busqueda (some p) bits (suc p))

unfoldable pub limpiar_uso : List BitMemoria → ℕ → List BitMemoria
limpiar_uso [] p = []
limpiar_uso (b ∷ bits) zero = (if b.bit_uso then record b { bit_uso = false } else b) ∷ bits
limpiar_uso (b ∷ bits) (suc p) = b ∷ limpiar_uso bits p

-- `n` rounds of the loop of `buscarBit_0_1`: the use bits of the frames that it passes are cleared.
unfoldable pub vuelta_0_1 : ℕ → ℕ → List BitMemoria → Option ℕ × List BitMemoria
vuelta_0_1 zero p bits = (none, bits)
vuelta_0_1 (suc n) p bits =
    let rest = vuelta_0_1 n (suc p) (limpiar_uso bits p) in
    if es_0_1 (get_elem? bits p) then (some p, bits) else rest

unfoldable pub segunda_mitad_0_1 : Option ℕ × List BitMemoria → ℕ → Busqueda
segunda_mitad_0_1 (some p, bits) inicial = busqueda (some p) bits p
segunda_mitad_0_1 (none, bits) inicial = busqueda none bits inicial

unfoldable pub primera_mitad_0_1 : Option ℕ × List BitMemoria → ℕ → Busqueda
primera_mitad_0_1 (some p, bits) inicial = busqueda (some p) bits (suc p)
primera_mitad_0_1 (none, bits) inicial = segunda_mitad_0_1 (vuelta_0_1 inicial 0 bits) inicial

unfoldable pub buscar_bit_0_1 : List BitMemoria → ℕ → Busqueda
buscar_bit_0_1 bits inicial =
    primera_mitad_0_1 (vuelta_0_1 (length bits - inicial) inicial bits) inicial

-- A search that failed is followed by another.
abbrev pub o_si_no : Busqueda → (List BitMemoria → ℕ → Busqueda) → Busqueda
o_si_no r next = option_case r.bit (next r.bits r.puntero) (λ _. r)

unfoldable pub ejecutar_segunda_vuelta_clock : List BitMemoria → ℕ → Busqueda
ejecutar_segunda_vuelta_clock bits p = o_si_no (buscar_bit_0_0 bits p) buscar_bit_0_1

-- The three searches at the head of `ejecutarClockModificado`.
unfoldable pub buscar_victima : List BitMemoria → ℕ → Busqueda
buscar_victima bits p =
    o_si_no (o_si_no (buscar_bit_0_0 bits p) buscar_bit_0_1) ejecutar_segunda_vuelta_clock
