-- ===== src/Suse/Carga.antt =====
-- cargarHilosAReady of suse.c: how new threads are loaded.
use tp_2019_2c_vendo_fiat.Base.Int.{pos_part, neg_part, ◌+ℤ◌, pos, ◌≤ℤ◌, ℤ, int_laws, ltb_ℤ}
use tp_2019_2c_vendo_fiat.Suse.Ops.{cargar_hilo, cargar_loop, cargar_hilos_a_ready}
use tp_2019_2c_vendo_fiat.Suse.State.{Config, Suse, ready}
use tp_2019_2c_vendo_fiat.Base.{
  true, false, ℕ, List, ◌∷◌, suc, if◌then◌else◌, ◌≡◌, [], ap, arith, drop, ◌++◌, ◌==◌, append-nil,
  fun_ext, ◌⊎◌, sym, take, All, Bool, inl, refl, append_assoc, if_elim, false, inr, ◌∙◌, ap₂, subst,
  ◌+◌, ◌<◌,
}

-- The threads of a list whose parent is the program `p`, in order.
abbrev pub de_programa : (ℕ → ℕ) → ℕ → List ℕ → List ℕ
de_programa padre p [] = []
de_programa padre p (h ∷ xs) =
    if padre h == p then h ∷ de_programa padre p xs else de_programa padre p xs

de_programa-ext :
    (f g : ℕ → ℕ) (p : ℕ) (xs : List ℕ)
    → ((h : ℕ) → f h ≡ g h)
    → de_programa f p xs ≡ de_programa g p xs
de_programa-ext f g p xs e = ap (λ k. de_programa k p xs) (fun_ext e)

+ℤ_suc : (x : ℤ) (k : ℕ) → x +ℤ pos 1 +ℤ pos k ≡ x +ℤ pos (suc k)
+ℤ_suc x k = omega int_laws

+ℤ_cero : (x : ℤ) → x +ℤ pos 0 ≡ x
+ℤ_cero x = omega int_laws

uno_cabe : (x y : ℤ) → ltb_ℤ x y ≡ true → x +ℤ pos 1 ≤ℤ y
uno_cabe x y e =
    let menor : pos_part x + neg_part y < pos_part y + neg_part x = ground (arith, e) in
    omega (int_laws, menor)

hasta_el_tope : (x y : ℤ) → ltb_ℤ x y ≡ false → y ≤ℤ x
hasta_el_tope x y e = ground arith

module _ {D : Type 0} where
  abbrev pub padres : Suse D → ℕ → ℕ
  padres s h = (s.hilos h).id_padre

  -- What holds after `k` threads of `xs` were loaded.
  pub record Cargados (c : Config D) (xs : List ℕ) (k : ℕ) (s t : Suse D) : Type 0 where
    pub nuevos : t.lista_nuevos ≡ drop k xs
    pub cuenta : t.programas_en_memoria ≡ s.programas_en_memoria +ℤ pos k
    pub grado : (k ≡ 0) ⊎ (t.programas_en_memoria ≤ℤ c.max_multiprog)
    pub tope : (t.lista_nuevos ≡ []) ⊎ (c.max_multiprog ≤ℤ t.programas_en_memoria)
    pub en_ready :
        (p : ℕ)
        → (t.programas p).lista_de_ready
          ≡ (s.programas p).lista_de_ready ++ de_programa (padres s) p (take k xs)
    pub cargado : All (λ h. (t.hilos h).estado ≡ ready) (take k xs)
    pub persiste : (h : ℕ) → (s.hilos h).estado ≡ ready → (t.hilos h).estado ≡ ready

  cargar_hilo-ready :
      (h : ℕ) (rest : List ℕ) (s : Suse D) (p : ℕ)
      → ((cargar_hilo h rest s).programas p).lista_de_ready
        ≡ (s.programas p).lista_de_ready ++ de_programa (padres s) p (h ∷ [])
  unfolding cargar_hilo
  cargar_hilo-ready h rest s p = ground (arith, append-nil (s.programas p).lista_de_ready)

  cargar_hilo-padres :
      (h : ℕ) (rest : List ℕ) (s : Suse D) (j : ℕ) → padres (cargar_hilo h rest s) j ≡ padres s j
  unfolding cargar_hilo
  cargar_hilo-padres h rest s j = ground arith

  cargar_hilo-estado :
      (h : ℕ) (rest : List ℕ) (s : Suse D) (j : ℕ)
      → (s.hilos j).estado ≡ ready
      → ((cargar_hilo h rest s).hilos j).estado ≡ ready
  unfolding cargar_hilo
  cargar_hilo-estado h rest s j e = ground arith

  cargar_hilo-estado_self :
      (h : ℕ) (rest : List ℕ) (s : Suse D) → ((cargar_hilo h rest s).hilos h).estado ≡ ready
  unfolding cargar_hilo
  cargar_hilo-estado_self h rest s = ground arith

  cargar_hilo-cuenta :
      (h : ℕ) (rest : List ℕ) (s : Suse D)
      → (cargar_hilo h rest s).programas_en_memoria ≡ s.programas_en_memoria +ℤ pos 1
  unfolding cargar_hilo
  cargar_hilo-cuenta h rest s = refl

  cargar_hilo-nuevos :
      (h : ℕ) (rest : List ℕ) (s : Suse D) → (cargar_hilo h rest s).lista_nuevos ≡ rest
  unfolding cargar_hilo
  cargar_hilo-nuevos h rest s = refl

  ninguno :
      (c : Config D) (xs : List ℕ) (s : Suse D)
      → s.lista_nuevos ≡ xs
      → ((s.lista_nuevos ≡ []) ⊎ (c.max_multiprog ≤ℤ s.programas_en_memoria))
      → Cargados c xs 0 s s
  unfolding ◌+ℤ◌
  ninguno c xs s e stop = record {
    nuevos = e;
    cuenta = ground arith;
    grado = inl refl;
    tope = stop;
    en_ready = λ p. sym (append-nil _);
    cargado = tt;
    persiste = λ h e. e;
  }

  dentro_del_grado :
      (c : Config D) (h : ℕ) (rest : List ℕ) (s : Suse D) (k : ℕ) (t : Suse D)
      → ltb_ℤ s.programas_en_memoria c.max_multiprog ≡ true
      → Cargados c rest k (cargar_hilo h rest s) t
      → t.programas_en_memoria ≤ℤ c.max_multiprog
  dentro_del_grado c h rest s k t lugar r = elim r.grado [
    | inr bajo ↦ bajo
    | inl nada ↦
        let igual : t.programas_en_memoria ≡ s.programas_en_memoria +ℤ pos 1 =
          r.cuenta
          ∙ ap (λ j. (cargar_hilo h rest s).programas_en_memoria +ℤ pos j) nada
          ∙ +ℤ_cero _
          ∙ cargar_hilo-cuenta h rest s in
        subst (λ x. x ≤ℤ c.max_multiprog) (sym igual)
          (uno_cabe s.programas_en_memoria c.max_multiprog lugar)
  ]

  uno_mas :
      (c : Config D) (h : ℕ) (rest : List ℕ) (s : Suse D) (k : ℕ) (t : Suse D)
      → ltb_ℤ s.programas_en_memoria c.max_multiprog ≡ true
      → Cargados c rest k (cargar_hilo h rest s) t
      → Cargados c (h ∷ rest) (suc k) s t
  uno_mas c h rest s k t lugar r = record {
    nuevos = r.nuevos;
    cuenta =
        r.cuenta
        ∙ ap (λ z. z +ℤ pos k) (cargar_hilo-cuenta h rest s)
        ∙ +ℤ_suc s.programas_en_memoria k;
    grado = inr (dentro_del_grado c h rest s k t lugar r);
    tope = r.tope;
    en_ready = λ p.
        r.en_ready p
        ∙ ap₂ ◌++◌ (cargar_hilo-ready h rest s p)
            (de_programa-ext _ _ p (take k rest) (cargar_hilo-padres h rest s))
        ∙ juntar p;
    cargado = (r.persiste h (cargar_hilo-estado_self h rest s), r.cargado);
    persiste = λ j e. r.persiste j (cargar_hilo-estado h rest s j e);
  }
    where
      juntar :
          (p : ℕ)
          → ((s.programas p).lista_de_ready ++ de_programa (padres s) p (h ∷ []))
              ++ de_programa (padres s) p (take k rest)
            ≡ (s.programas p).lista_de_ready ++ de_programa (padres s) p (h ∷ take k rest)
      juntar p = rw append_assoc (ap (◌++◌ (s.programas p).lista_de_ready) (unir (padres s h == p)))
        where
          unir :
              (b : Bool)
              → (if b then h ∷ [] else []) ++ de_programa (padres s) p (take k rest) ≡ (
                  if b
                  then h ∷ de_programa (padres s) p (take k rest)
                  else de_programa (padres s) p (take k rest))
          unir true = refl
          unir false = refl

  cargar_loop-Cargados :
      (c : Config D) (xs : List ℕ) (s : Suse D)
      → s.lista_nuevos ≡ xs
      → (k : ℕ) × Cargados c xs k s (cargar_loop c xs s)
  unfolding cargar_loop
  cargar_loop-Cargados c [] s e = (0, ninguno c [] s e (inl e))
  cargar_loop-Cargados c (h ∷ rest) s e =
      if_elim (λ t. (k : ℕ) × Cargados c (h ∷ rest) k s t)
        (ltb_ℤ s.programas_en_memoria c.max_multiprog) _ _
        (λ lugar.
          let (k, r) =
            cargar_loop-Cargados c rest (cargar_hilo h rest s) (cargar_hilo-nuevos h rest s) in
          (suc k, uno_mas c h rest s k _ lugar r))
        (λ lleno. (
          0,
          ninguno c (h ∷ rest) s e
              (inr (hasta_el_tope s.programas_en_memoria c.max_multiprog lleno)),
        ))

  -- Where no other handler loads at once, new threads are loaded first come, first served: some `k` of them leave the front of the list,
  -- each goes in order to the end of its own program's ready list and is READY, the count of loaded
  -- threads grows by `k`, past MAX_MULTIPROG never, and no more are left to load or the count has
  -- reached MAX_MULTIPROG.
  pub cargar_hilos_a_ready-Cargados :
      (c : Config D) (s : Suse D)
      → (k : ℕ) × Cargados c s.lista_nuevos k s (cargar_hilos_a_ready c s)
  unfolding cargar_hilos_a_ready
  cargar_hilos_a_ready-Cargados c s = cargar_loop-Cargados c s.lista_nuevos s refl
