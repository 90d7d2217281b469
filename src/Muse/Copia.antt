-- ===== src/Muse/Copia.antt =====
-- The pages that `muse_sync` copies for the file.
use tp_2019_2c_vendo_fiat.Protocol.Words.{drop-append_self, take-append_self}
use tp_2019_2c_vendo_fiat.Muse.Paginacion.{obtener_puntero_a_marco}
use tp_2019_2c_vendo_fiat.Muse.Quietud.{
  Quieto, Quieto-refl, Quieto-trans, obtener_puntero_a_marco-Quieto,
}
use tp_2019_2c_vendo_fiat.Muse.State.{Muse}
use tp_2019_2c_vendo_fiat.Muse.Mapa.{copiar_marcos}
use tp_2019_2c_vendo_fiat.Muse.Acceso.{bytes_desde}
use tp_2019_2c_vendo_fiat.Base.{
  drop, SiHay, SiHay-option_case, ℕ, List, length, take, ◌≡◌, suc, ◌*◌, arith, option_elim,
  get_elem?, zero, length-append, none, refl, ◌++◌, ap, some, ◌∙◌, subst, sym,
}

length-bytes_desde : (f : ℕ → ℕ) (a n : ℕ) → length (bytes_desde f a n) ≡ n
unfolding bytes_desde
length-bytes_desde f a zero = refl
length-bytes_desde f a (suc n) = omega (arith, length-bytes_desde f (suc a) n)

-- The first `n` pieces of `t` bytes are those of the pages from the place `k` on: each is what main
-- memory holds at the address that `obtenerPunteroAMarco` answers for its page, in its turn.
abbrev pub Trozos : ℕ → List ℕ → ℕ → ℕ → List ℕ → Type 0
Trozos t paginas zero k bytes = Unit
Trozos t paginas (suc n) k bytes =
    (q a : ℕ) × (u v : Muse) × (get_elem? paginas k ≡ some q)
    × (obtener_puntero_a_marco q u ≡ some (some a, v))
    × (take t bytes ≡ bytes_desde v.memoria a t)
    × Trozos t paginas n (suc k) (drop t bytes)

-- As many bytes as the pages have, and those of the pages.
abbrev pub Copiados : List ℕ → ℕ → ℕ → Muse → List ℕ × Muse → Type 0
Copiados paginas k n s r =
    (length r.0 ≡ n * s.tamanio_pagina) × Quieto s r.1 × Trozos s.tamanio_pagina paginas n k r.0

take-primero : (xs ys : List ℕ) (t : ℕ) → length xs ≡ t → take t (xs ++ ys) ≡ xs
take-primero xs ys t e = subst (λ k. take k (xs ++ ys) ≡ xs) e (take-append_self xs ys)

drop-primero : (xs ys : List ℕ) (t : ℕ) → length xs ≡ t → drop t (xs ++ ys) ≡ ys
drop-primero xs ys t e = subst (λ k. drop k (xs ++ ys) ≡ ys) e (drop-append_self xs ys)

un_trozo :
    (paginas : List ℕ) (n k q a t : ℕ) (u v : Muse) (resto : List ℕ)
    → get_elem? paginas k ≡ some q
    → obtener_puntero_a_marco q u ≡ some (some a, v)
    → v.tamanio_pagina ≡ t
    → Trozos t paginas n (suc k) resto
    → Trozos t paginas (suc n) k (bytes_desde v.memoria a v.tamanio_pagina ++ resto)
un_trozo paginas n k q a t u v resto eq ep et h =
    let largo : length (bytes_desde v.memoria a v.tamanio_pagina) ≡ t =
      length-bytes_desde v.memoria a v.tamanio_pagina ∙ et in
    (
      q,
      a,
      u,
      v,
      eq,
      ep,
      take-primero (bytes_desde v.memoria a v.tamanio_pagina) resto t largo
          ∙ ap (bytes_desde v.memoria a) et,
      subst (Trozos t paginas n (suc k))
          (sym (drop-primero (bytes_desde v.memoria a v.tamanio_pagina) resto t largo)) h,
    )

largo :
    (l : ℕ) (t : Muse) (a : ℕ) (resto : List ℕ) (n : ℕ)
    → t.tamanio_pagina ≡ l
    → length resto ≡ n * t.tamanio_pagina
    → length (bytes_desde t.memoria a t.tamanio_pagina ++ resto) ≡ suc n * l
largo l t a resto n e h =
    let iguales : n * t.tamanio_pagina ≡ n * l = ap (λ k. n * k) e in
    omega (
      arith,
      iguales,
      length-append (bytes_desde t.memoria a t.tamanio_pagina) resto,
      length-bytes_desde t.memoria a t.tamanio_pagina,
    )

pub copiar_marcos-Copiados :
    (paginas : List ℕ) (n k : ℕ) (s : Muse)
    → SiHay (Copiados paginas k n s) (copiar_marcos paginas n k s)
unfolding copiar_marcos
copiar_marcos-Copiados paginas zero k s = (omega arith, Quieto-refl s, tt)
copiar_marcos-Copiados paginas (suc n) k s =
    let C = Copiados paginas k (suc n) s in
    option_elim (SiHay C) (get_elem? paginas k) none _ (λ _. tt)
      λ q eq.
        SiHay-option_case C (λ r. Quieto s r.1) (obtener_puntero_a_marco q s) _
          (obtener_puntero_a_marco-Quieto q s)
          λ r er h.
            option_elim (SiHay C) r.0 none _ (λ _. tt)
              λ a ea.
                SiHay-option_case C (Copiados paginas (suc k) n r.1)
                  (copiar_marcos paginas n (suc k) r.1) _
                  (copiar_marcos-Copiados paginas n (suc k) r.1)
                  λ t _ c. (
                    largo s.tamanio_pagina r.1 a t.0 n h.1 c.0,
                    Quieto-trans s r.1 t.1 h c.1,
                    un_trozo paginas n k q a s.tamanio_pagina s r.1 t.0 eq
                        (er ∙ ap (λ o. some (o, r.1)) ea) h.1
                        (subst (λ l. Trozos l paginas n (suc k) t.0) h.1 c.2),
                  )
