-- ===== src/Muse/Inicio.antt =====
-- muse/src/muse.c, lines 209 to 220 and 232 to 255: the state at the start. `basura` is what fresh
-- memory holds; the swap file was emptied and made as long as the swap area, so it holds zeros.
use mathlib.Core.Option.{some-injective}
use native.Mathlib.Nat.{mul-le-mul_right, div-mul-le_self}
use tp_2019_2c_vendo_fiat.Muse.State.{BitMemoria, Pagina, BitSwap, Muse}
use tp_2019_2c_vendo_fiat.Base.{
  ℕ, List, length, [], get_elem?, ◌≡◌, some, suc, ◌/◌, arith, false, ◌+◌, zero, ◌*◌, ◌∷◌, refl, ◌≤◌,
  lt-of_get_elem?, ap, sym,
}

-- `n` frames from the position `i` on.
unfoldable pub crear_bits_memoria : ℕ → ℕ → List BitMemoria
crear_bits_memoria zero i = []
crear_bits_memoria (suc n) i =
    record { esta_ocupado = false; pos = i; bit_uso = false; bit_modificado = false }
    ∷ crear_bits_memoria n (suc i)

unfoldable pub crear_bits_swap : ℕ → ℕ → List BitSwap
crear_bits_swap zero i = []
crear_bits_swap (suc n) i = record { esta_ocupado = false; pos = i } ∷ crear_bits_swap n (suc i)

-- The cells of pages have no meaning before a page is made.
unfoldable pub inicializar_estructuras : (ℕ → ℕ) → (ℕ → Pagina) → ℕ → ℕ → ℕ → Muse
inicializar_estructuras basura paginas tamanio_memoria tamanio_pagina tamanio_swap = record {
  tamanio_pagina = tamanio_pagina;
  memoria = basura;
  area_swap = λ a. 0;
  bits_memoria = crear_bits_memoria (tamanio_memoria / tamanio_pagina) 0;
  bits_memoria_virtual = crear_bits_swap (tamanio_swap / tamanio_pagina) 0;
  puntero_clock = 0;
  espacio_disponible = tamanio_memoria + tamanio_swap;
  paginas = paginas;
  next_pagina = 0;
  lista_programas = [];
  lista_mapeos = [];
}

length-crear_bits_memoria : (n i : ℕ) → length (crear_bits_memoria n i) ≡ n
unfolding crear_bits_memoria
length-crear_bits_memoria zero i = refl
length-crear_bits_memoria (suc n) i = omega (arith, length-crear_bits_memoria n (suc i))

-- Every frame is free and has the number of its place.
pub crear_bits_memoria-pos :
    (n i k : ℕ) (bit : BitMemoria)
    → get_elem? (crear_bits_memoria n i) k ≡ some bit
    → (bit.pos ≡ i + k) × (bit.esta_ocupado ≡ false)
unfolding crear_bits_memoria
crear_bits_memoria-pos zero i k bit e = ground arith
crear_bits_memoria-pos (suc n) i zero bit e =
    let igual = some-injective _ _ e in
    (omega (arith, ap (λ b. b.pos) igual), sym (ap (λ b. b.esta_ocupado) igual))
crear_bits_memoria-pos (suc n) i (suc k) bit e =
    let r = crear_bits_memoria-pos n (suc i) k bit e in (omega (arith, r.0), r.1)

-- The frames lie in main memory, one after the other, and so many of them fit.
pub inicializar_estructuras-marcos :
    (basura : ℕ → ℕ) (paginas : ℕ → Pagina) (memoria t swap k : ℕ) (bit : BitMemoria)
    → get_elem? (inicializar_estructuras basura paginas memoria t swap).bits_memoria k ≡ some bit
    → (bit.pos ≡ k) × (bit.esta_ocupado ≡ false) × (bit.pos * t + t ≤ memoria)
unfolding inicializar_estructuras
inicializar_estructuras-marcos basura paginas memoria t swap k bit e =
    let r = crear_bits_memoria-pos (memoria / t) 0 k bit e in
    let dentro = lt-of_get_elem? (crear_bits_memoria (memoria / t) 0) k bit e in
    let cuantos = length-crear_bits_memoria (memoria / t) 0 in
    let lugar : bit.pos ≡ k = omega (arith, r.0) in
    let entran : suc bit.pos * t ≤ memoria / t * t =
      mul-le-mul_right t (omega (arith, lugar, dentro, cuantos)) in
    (lugar, r.1, omega (arith, entran, div-mul-le_self memoria t))
