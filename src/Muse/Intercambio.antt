-- ===== src/Muse/Intercambio.antt =====
-- The bytes of a page on its way to the swap area and back.
use mathlib.Core.Option.{guard}
use tp_2019_2c_vendo_fiat.Muse.Paginacion.{
  pos_swap, pos_marco, pasar_a_swap, buscar_bit_libre_swap, copiar_a_swap, desalojar_pagina,
  dejar_marco,
}
use mathlib.Core.Option
use tp_2019_2c_vendo_fiat.Muse.State.{Muse, memcpy, BitSwap}
use tp_2019_2c_vendo_fiat.Base.{
  ℕ, ◌<◌, Option, ◌⊎◌, ◌+◌, ◌≡◌, ◌≤◌, arith, ◌-◌, get_elem?, some, false, true, ◌*◌, All, List,
  none, not, Option-cases, ◌∷◌, [], inl, find_index-none, inr, find_index-some, ap,
  get_elem?-set_self, lt-of_get_elem?, option_case, refl, option_elim, ◌∙◌, ◌≢◌, get_elem?-set_ne,
  sym,
}

pub memcpy_in :
    (to : ℕ → ℕ) (dst : ℕ) (from : ℕ → ℕ) (src n k : ℕ)
    → k < n
    → memcpy to dst from src n (dst + k) ≡ from (src + k)
memcpy_in to dst from src n k h = let e : dst + k - dst ≡ k = omega arith in ground (arith, e)

pub memcpy_out :
    (to : ℕ → ℕ) (dst : ℕ) (from : ℕ → ℕ) (src n a : ℕ)
    → ((a < dst) ⊎ (dst + n ≤ a))
    → memcpy to dst from src n a ≡ to a
memcpy_out to dst from src n a h = ground arith

-- What a swap out promises.
pub record EnSwap (m : ℕ) (s : Muse) (b : ℕ) (t : Muse) : Type 0 where
  pub libre : Option.map (λ x. x.esta_ocupado) (get_elem? s.bits_memoria_virtual b) ≡ some false
  pub ocupado : Option.map (λ x. x.esta_ocupado) (get_elem? t.bits_memoria_virtual b) ≡ some true
  pub copiado :
      (k : ℕ)
      → k < s.tamanio_pagina
      → t.area_swap (pos_swap s b * s.tamanio_pagina + k)
        ≡ s.memoria (pos_marco s m * s.tamanio_pagina + k)
  pub intacto :
      (a : ℕ)
      → ((a < pos_swap s b * s.tamanio_pagina)
          ⊎ (pos_swap s b * s.tamanio_pagina + s.tamanio_pagina ≤ a))
      → t.area_swap a ≡ s.area_swap a
  pub memoria : t.memoria ≡ s.memoria
  pub tamanio : t.tamanio_pagina ≡ s.tamanio_pagina
  pub posicion : pos_swap t b ≡ pos_swap s b
  pub otros :
      (k : ℕ) → k ≢ b → get_elem? t.bits_memoria_virtual k ≡ get_elem? s.bits_memoria_virtual k
  pub resto :
      t ≡ record s { area_swap = t.area_swap; bits_memoria_virtual = t.bits_memoria_virtual }

-- The swap area is full: no place is free.
abbrev pub SwapLleno : Muse → Type 0
SwapLleno s = All (λ x. x.esta_ocupado ≡ true) s.bits_memoria_virtual

ocupados :
    (bits : List BitSwap)
    → All (λ x. not x.esta_ocupado ≡ false) bits
    → All (λ x. x.esta_ocupado ≡ true) bits
ocupados [] h = tt
ocupados (b ∷ bits) h = (ground arith, ocupados bits h.1)

copiar_a_swap-pos :
    (m b : ℕ) (bit : BitSwap) (s : Muse)
    → get_elem? s.bits_memoria_virtual b ≡ some bit
    → pos_swap (copiar_a_swap m b bit s) b ≡ pos_swap s b
unfolding copiar_a_swap
copiar_a_swap-pos m b bit s here =
    ap (λ (o : Option BitSwap). option_case o 0 (λ x. x.pos))
      (get_elem?-set_self s.bits_memoria_virtual b (record bit { esta_ocupado = true })
        (lt-of_get_elem? s.bits_memoria_virtual b bit here))
    ∙ rw here

copiar_a_swap-EnSwap :
    (m b : ℕ) (bit : BitSwap) (s : Muse)
    → get_elem? s.bits_memoria_virtual b ≡ some bit
    → bit.esta_ocupado ≡ false
    → EnSwap m s b (copiar_a_swap m b bit s)
unfolding copiar_a_swap
copiar_a_swap-EnSwap m b bit s here free = record {
  libre = rw here (ap some free);
  ocupado = ap (Option.map (λ x. x.esta_ocupado)) (
      get_elem?-set_self s.bits_memoria_virtual b (record bit { esta_ocupado = true })
        (lt-of_get_elem? s.bits_memoria_virtual b bit here));
  copiado = λ k h. rw here (
      memcpy_in s.area_swap (bit.pos * s.tamanio_pagina) s.memoria
        (pos_marco s m * s.tamanio_pagina) s.tamanio_pagina k h);
  intacto = λ a h.
      memcpy_out s.area_swap (bit.pos * s.tamanio_pagina) s.memoria
        (pos_marco s m * s.tamanio_pagina) s.tamanio_pagina a (rw here at h);
  memoria = refl;
  tamanio = refl;
  posicion = copiar_a_swap-pos m b bit s here;
  otros = λ k ne. get_elem?-set_ne s.bits_memoria_virtual _ (λ e. ne (sym e));
  resto = refl;
}

-- Moving a frame to the swap area faults exactly where the area is full. Otherwise it takes a free
-- place, which is taken afterwards, copies the bytes of the frame there and none elsewhere, and
-- changes no other place of the swap area and nothing else of the state.
pub pasar_a_swap-EnSwap :
    (m : ℕ) (s : Muse)
    → ((pasar_a_swap m s ≡ none) × SwapLleno s)
      ⊎ ((b : ℕ) × (t : Muse) × (pasar_a_swap m s ≡ some (b, t)) × EnSwap m s b t)
unfolding pasar_a_swap buscar_bit_libre_swap
pasar_a_swap-EnSwap m s = elim (Option-cases (buscar_bit_libre_swap s.bits_memoria_virtual)) [
  | inl e ↦ inl (rw e, ocupados s.bits_memoria_virtual (find_index-none _ s.bits_memoria_virtual e))
  | inr (b, e) ↦
      let (bit, here, free) = find_index-some _ s.bits_memoria_virtual b e in
      inr (
        b,
        copiar_a_swap m b bit s,
        rw (e, here),
        copiar_a_swap-EnSwap m b bit s here (ground arith),
      )
]

-- The page `q` is in the swap area, where its bytes are those that the frame `f` held.
pub record Desalojada (q f : ℕ) (s t : Muse) : Type 0 where
  pub lugar : ℕ
  pub bit_swap : (t.paginas q).bit_swap ≡ some lugar
  pub ausente : (t.paginas q).presencia ≡ false
  pub sin_marco : (t.paginas q).bit_marco ≡ none
  pub tamanio : t.tamanio_pagina ≡ s.tamanio_pagina
  pub bytes :
      (k : ℕ)
      → k < s.tamanio_pagina
      → t.area_swap (pos_swap t lugar * s.tamanio_pagina + k)
        ≡ s.memoria (pos_marco s f * s.tamanio_pagina + k)

abbrev pub DesalojadaO : ℕ → ℕ → Muse → Option Muse → Type 0
DesalojadaO q f s none = Unit {0}
DesalojadaO q f s (some t) = Desalojada q f s t

dejar_marco-Desalojada :
    (m q f b : ℕ) (s s1 : Muse) → EnSwap f s b s1 → DesalojadaO q f s (dejar_marco m q b s1)
unfolding dejar_marco
dejar_marco-Desalojada m q f b s s1 w =
    option_elim (DesalojadaO q f s) (get_elem? s1.bits_memoria m) _ _ (λ _. tt)
      λ bit _. record {
        lugar = b;
        bit_swap = ground arith;
        ausente = ground arith;
        sin_marco = ground arith;
        tamanio = w.tamanio;
        bytes = λ k h. ap (λ p. s1.area_swap (p * s.tamanio_pagina + k)) w.posicion ∙ w.copiado k h;
      }

-- Where the eviction of a resident page does not fault, its bytes are in the swap area.
pub desalojar_pagina-Desalojada :
    (m q f : ℕ) (s : Muse)
    → (s.paginas q).bit_marco ≡ some f
    → DesalojadaO q f s (desalojar_pagina m q s)
unfolding desalojar_pagina
desalojar_pagina-Desalojada m q f s e = elim (pasar_a_swap-EnSwap f s) [
  | inl (fault, _) ↦ rw (e, fault) tt
  | inr (b, s1, done, w) ↦ rw (e, done) (dejar_marco-Desalojada m q f b s s1 w)
]
