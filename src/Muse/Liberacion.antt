-- ===== src/Muse/Liberacion.antt =====
-- What `muse_close` gives back.
use tp_2019_2c_vendo_fiat.Muse.Paginacion.{liberar_marco, liberar_swap}
use tp_2019_2c_vendo_fiat.Muse.State.{Muse, Pagina}
use tp_2019_2c_vendo_fiat.Base.{
  Bool, Option, ℕ, List, option_case, ◌∙◌, ◌≡◌, false, get_elem?, true, not, option_elim, refl, set,
  some, none, ◌∷◌, suc, [], zero,
}

abbrev pub libre_en {ℓ} : {A : Type ℓ} → (A → Bool) → List A → ℕ → Bool
libre_en ocupado bits i = option_case (get_elem? bits i) true (λ x. not (ocupado x))

abbrev pub marco_libre : ℕ → Muse → Bool
marco_libre m s = libre_en (λ b. b.esta_ocupado) s.bits_memoria m

abbrev pub lugar_libre : ℕ → Muse → Bool
lugar_libre b s = libre_en (λ x. x.esta_ocupado) s.bits_memoria_virtual b

-- The frame and the place in the swap area that a page has are free.
pub record Libre (p : Pagina) (s : Muse) : Type 0 where
  pub marco : option_case p.bit_marco true (λ m. marco_libre m s) ≡ true
  pub lugar : option_case p.bit_swap true (λ b. lugar_libre b s) ≡ true

-- What is free stays free, and only bitmaps change.
pub record Conserva (s t : Muse) : Type 0 where
  pub paginas : t.paginas ≡ s.paginas
  pub espacio : t.espacio_disponible ≡ s.espacio_disponible
  pub programas : t.lista_programas ≡ s.lista_programas
  pub marcos : (m : ℕ) → marco_libre m s ≡ true → marco_libre m t ≡ true
  pub lugares : (b : ℕ) → lugar_libre b s ≡ true → lugar_libre b t ≡ true

pub Conserva-refl : (s : Muse) → Conserva s s
Conserva-refl s = record {
  paginas = refl;
  espacio = refl;
  programas = refl;
  marcos = λ m h. h;
  lugares = λ b h. h;
}

pub Conserva-trans : (s t u : Muse) → Conserva s t → Conserva t u → Conserva s u
Conserva-trans s t u a b = record {
  paginas = b.paginas ∙ a.paginas;
  espacio = b.espacio ∙ a.espacio;
  programas = b.programas ∙ a.programas;
  marcos = λ m h. b.marcos m (a.marcos m h);
  lugares = λ k h. b.lugares k (a.lugares k h);
}

pub option_case_mono :
    (o : Option ℕ) (f g : ℕ → Bool)
    → ((k : ℕ) → f k ≡ true → g k ≡ true)
    → option_case o true f ≡ true
    → option_case o true g ≡ true
option_case_mono none f g h e = refl
option_case_mono (some k) f g h e = h k e

pub Libre-mono : (p : Pagina) (s t : Muse) → Conserva s t → Libre p s → Libre p t
Libre-mono p s t c l = record {
  marco = option_case_mono p.bit_marco _ (λ m. marco_libre m t) c.marcos l.marco;
  lugar = option_case_mono p.bit_swap _ (λ b. lugar_libre b t) c.lugares l.lugar;
}

module _ {ℓ} {A : Type ℓ} (ocupado : A → Bool) where
  libre_en-set :
      (bits : List A) (i j : ℕ) (b : A)
      → ocupado b ≡ false
      → libre_en ocupado bits j ≡ true
      → libre_en ocupado (set bits i b) j ≡ true
  libre_en-set [] i j b e h = h
  libre_en-set (x ∷ bits) zero zero b e h = rw e refl
  libre_en-set (x ∷ bits) zero (suc j) b e h = h
  libre_en-set (x ∷ bits) (suc i) zero b e h = h
  libre_en-set (x ∷ bits) (suc i) (suc j) b e h = libre_en-set bits i j b e h

  libre_en-set_self :
      (bits : List A) (i : ℕ) (b : A) → ocupado b ≡ false → libre_en ocupado (set bits i b) i ≡ true
  libre_en-set_self [] i b e = refl
  libre_en-set_self (x ∷ bits) zero b e = rw e refl
  libre_en-set_self (x ∷ bits) (suc i) b e = libre_en-set_self bits i b e

pub liberar_marco-libre :
    (m : ℕ) (s : Muse) → Conserva s (liberar_marco m s) × (marco_libre m (liberar_marco m s) ≡ true)
unfolding liberar_marco
liberar_marco-libre m s =
    option_elim (λ t. Conserva s t × (marco_libre m t ≡ true)) (get_elem? s.bits_memoria m) _ _
      (λ e. (Conserva-refl s, rw e refl))
      (λ bit e. (
        record {
          paginas = refl;
          espacio = refl;
          programas = refl;
          marcos = λ k h. libre_en-set (λ b. b.esta_ocupado) s.bits_memoria m k _ refl h;
          lugares = λ b h. h;
        },
        libre_en-set_self (λ b. b.esta_ocupado) s.bits_memoria m _ refl,
      ))

pub liberar_swap-libre :
    (b : ℕ) (s : Muse) → Conserva s (liberar_swap b s) × (lugar_libre b (liberar_swap b s) ≡ true)
unfolding liberar_swap
liberar_swap-libre b s =
    option_elim (λ t. Conserva s t × (lugar_libre b t ≡ true)) (get_elem? s.bits_memoria_virtual b)
      _ _ (λ e. (Conserva-refl s, rw e refl))
      (λ bit e. (
        record {
          paginas = refl;
          espacio = refl;
          programas = refl;
          marcos = λ m h. h;
          lugares = λ k h. libre_en-set (λ x. x.esta_ocupado) s.bits_memoria_virtual b k _ refl h;
        },
        libre_en-set_self (λ x. x.esta_ocupado) s.bits_memoria_virtual b _ refl,
      ))
