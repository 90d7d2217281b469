-- ===== src/Suse/Despertar.antt =====
-- desbloquearHilo of suse.c: the thread runs or is ready, and no other is put aside.
use tp_2019_2c_vendo_fiat.Suse.Calls.{is_blocked}
use tp_2019_2c_vendo_fiat.Suse.Ops.{
  desalojar, desbloquear_hilo, elegir, despachar, suse_schedule_next, pendiente_de_envios,
  tiene_menor_estimado,
}
use tp_2019_2c_vendo_fiat.Suse.State.{
  Double, Suse, Estado, Hilo, Programa, ready, set_estado, set_en_ejecucion, agregar_a_ready,
}
use tp_2019_2c_vendo_fiat.Base.{
  ℕ, Option, List, Bool, some, none, ◌≡◌, ◌⊎◌, inl, inr, true, false, [], ◌∷◌, ◌++◌, ◌==◌, any,
  SiHay, if_elim, Bool-cases, find, refl, sym, subst, arith, ◌&&◌, is_none, is_empty, option_case,
  SiHay-mono,
}

-- The thread is in the ready list of the program, or it is the one that the program runs.
abbrev pub EnJuego : Programa → ℕ → Type 0
EnJuego v k = (any (λ j. j == k) v.lista_de_ready ≡ true) ⊎ (v.en_ejecucion ≡ some k)

any-append_left : (p : ℕ → Bool) (xs ys : List ℕ) → any p xs ≡ true → any p (xs ++ ys) ≡ true
unfolding any
any-append_left p [] ys h = absurd (ground arith)
any-append_left p (x ∷ xs) ys h = elim (Bool-cases (p x)) [
  | inl e ↦ rw e refl
  | inr e ↦ rw e (any-append_left p xs ys (rw e at h))
]

any-append_last : (k : ℕ) (xs : List ℕ) → any (λ j. j == k) (xs ++ (k ∷ [])) ≡ true
unfolding any
any-append_last k [] = ground arith
any-append_last k (x ∷ xs) = elim (Bool-cases (x == k)) [
  | inl e ↦ rw e refl
  | inr e ↦ rw e (any-append_last k xs)
]

-- A program with nothing to run has no thread that is ready or runs.
pendiente_nadie :
    (o : Option ℕ) (xs : List ℕ) (k : ℕ)
    → (is_none o && is_empty xs) ≡ true
    → ¬ ((any (λ j. j == k) xs ≡ true) ⊎ (o ≡ some k))
unfolding any
pendiente_nadie none [] k e (inl r) = ground arith
pendiente_nadie none [] k e (inr r) = cc
pendiente_nadie none (x ∷ xs) k e r = ground arith
pendiente_nadie (some h) xs k e r = ground arith

pendiente_vacia : (o : Option ℕ) (xs : List ℕ) → (is_none o && is_empty xs) ≡ true → xs ≡ []
pendiente_vacia o [] e = refl
pendiente_vacia none (x ∷ xs) e = absurd (ground arith)
pendiente_vacia (some h) (x ∷ xs) e = absurd (ground arith)

module _ {D : Type 0} where
  -- The thread is not blocked, and its program has it ready or runs it.
  abbrev pub Despierto : Suse D → ℕ → Type 0
  Despierto s h =
      (is_blocked (s.hilos h).estado ≡ false) × EnJuego (s.programas ((s.hilos h).id_padre)) h

  -- Who is awake stays so.
  abbrev pub NoBloquea : Suse D → Suse D → Type 0
  NoBloquea s t = (h : ℕ) → Despierto s h → Despierto t h

  pub set_estado-NoBloquea :
      (h : ℕ) (e : Estado) (s : Suse D) → is_blocked e ≡ false → NoBloquea s (set_estado h e s)
  set_estado-NoBloquea h e s b k y =
      if_elim (λ (v : Hilo D). (is_blocked v.estado ≡ false) × EnJuego (s.programas v.id_padre) k)
        (h == k) _ _
        (λ q.
          let igual : h ≡ k = ground arith in
          (b, subst (λ j. EnJuego (s.programas ((s.hilos j).id_padre)) k) (sym igual) y.1))
        (λ _. y)

  pub set_estado-despierto :
      (h : ℕ) (e : Estado) (s : Suse D)
      → is_blocked e ≡ false
      → is_blocked ((set_estado h e s).hilos h).estado ≡ false
  set_estado-despierto h e s b = let mismo : h == h ≡ true = ground arith in rw mismo b

  agregar_a_ready-NoBloquea : (p h : ℕ) (s : Suse D) → NoBloquea s (agregar_a_ready p h s)
  agregar_a_ready-NoBloquea p h s k (b, j) = (b, por_programa ((s.hilos k).id_padre) j)
    where
      por_programa :
          (q : ℕ) → EnJuego (s.programas q) k → EnJuego ((agregar_a_ready p h s).programas q) k
      por_programa q x =
          if_elim (λ v. EnJuego v k) (p == q) _ _
            (λ e.
              let igual : p ≡ q = ground arith in
              elim (subst (λ r. EnJuego (s.programas r) k) (sym igual) x) [
                | inl esta ↦ inl (any-append_left _ _ (h ∷ []) esta)
                | inr corre ↦ inr corre
              ])
            (λ _. x)

  agregar_a_ready-Despierto :
      (h : ℕ) (s : Suse D)
      → is_blocked (s.hilos h).estado ≡ false
      → Despierto (agregar_a_ready ((s.hilos h).id_padre) h s) h
  agregar_a_ready-Despierto h s b =
      let p = (s.hilos h).id_padre in
      let mismo : p == p ≡ true = ground arith in
      (b, rw mismo (inl (any-append_last h (s.programas p).lista_de_ready)))

  module _ (d : Double D) where
    -- Of a single ready thread, that one is dispatched, if any.
    elegir_solo :
        (p h : ℕ) (xs : List ℕ) (s : Suse D)
        → xs ≡ h ∷ []
        → SiHay (λ t. t ≡ despachar d p h s) (elegir d p xs s)
    unfolding elegir find
    elegir_solo p h xs s e =
        subst (λ ys. SiHay (λ t. t ≡ despachar d p h s) (elegir d p ys s)) (sym e)
          (if_elim
            (λ o.
              SiHay (λ t. t ≡ despachar d p h s)
                (option_case o none (λ k. some (despachar d p k s))))
            (tiene_menor_estimado d s (h ∷ []) h) (some h) none (λ _. refl) (λ _. tt))

    -- The thread `h` of the program `p`, put in an empty ready list and dispatched.
    abbrev al_frente : ℕ → ℕ → Suse D → Suse D
    al_frente p h s =
        set_en_ejecucion p none
          (agregar_a_ready p h (set_estado h ready (set_en_ejecucion p (some h) s)))

    al_frente_solo :
        (p h : ℕ) (s : Suse D)
        → (s.programas p).lista_de_ready ≡ []
        → ((al_frente p h s).programas p).lista_de_ready ≡ h ∷ []
    al_frente_solo p h s e = let mismo : p == p ≡ true = ground arith in rw (mismo, e) refl

    padre_igual :
        (p h : ℕ) (s : Suse D) (k : ℕ)
        → ((despachar d p h (al_frente p h s)).hilos k).id_padre ≡ (s.hilos k).id_padre
    unfolding despachar
    padre_igual p h s k = ground arith

    sigue_despierto :
        (p h : ℕ) (s : Suse D) (k : ℕ)
        → is_blocked (s.hilos k).estado ≡ false
        → is_blocked ((despachar d p h (al_frente p h s)).hilos k).estado ≡ false
    unfolding despachar
    sigue_despierto p h s k b = elim (Bool-cases (h == k)) [ inl e ↦ rw e refl | inr e ↦ rw e b ]

    otro_igual :
        (p h : ℕ) (s : Suse D) (q : ℕ)
        → p == q ≡ false
        → (despachar d p h (al_frente p h s)).programas q ≡ s.programas q
    unfolding despachar
    otro_igual p h s q e = rw e refl

    corre :
        (p h : ℕ) (s : Suse D)
        → ((despachar d p h (al_frente p h s)).programas p).en_ejecucion ≡ some h
    unfolding despachar
    corre p h s = let mismo : p == p ≡ true = ground arith in rw mismo refl

    despachada-NoBloquea :
        (h : ℕ) (s : Suse D)
        → pendiente_de_envios ((s.hilos h).id_padre) s ≡ true
        → NoBloquea s (despachar d ((s.hilos h).id_padre) h (al_frente ((s.hilos h).id_padre) h s))
    unfolding pendiente_de_envios
    despachada-NoBloquea h s e k (b, j) =
        let p = (s.hilos h).id_padre in
        let q = (s.hilos k).id_padre in
        let t = despachar d p h (al_frente p h s) in
        let juega : EnJuego (t.programas q) k = elim (Bool-cases (p == q)) [
          | inl igual ↦
              let mismo : p ≡ q = ground arith in
              absurd (
                pendiente_nadie (s.programas p).en_ejecucion (s.programas p).lista_de_ready k e
                  (subst (λ r. EnJuego (s.programas r) k) (sym mismo) j))
          | inr otro ↦ subst (λ v. EnJuego v k) (sym (otro_igual p h s q otro)) j
        ] in
        (
          sigue_despierto p h s k b,
          subst (λ r. EnJuego (t.programas r) k) (sym (padre_igual p h s k)) juega,
        )

    -- A wake-up of a thread that is not blocked makes it ready or makes it run, and every other one
    -- that was ready or ran still is or does.
    pub desbloquear_hilo-Despierto :
        (h : ℕ) (s : Suse D)
        → is_blocked (s.hilos h).estado ≡ false
        → SiHay (λ t. NoBloquea s t × Despierto t h) (desbloquear_hilo d h s)
    unfolding desbloquear_hilo suse_schedule_next desalojar
    desbloquear_hilo-Despierto h s b =
        let p = (s.hilos h).id_padre in
        let mismo : p == p ≡ true = ground arith in
        if_elim (SiHay (λ t. NoBloquea s t × Despierto t h)) (pendiente_de_envios p s) _ _
          (λ e.
            let vacia : (s.programas p).lista_de_ready ≡ [] =
              pendiente_vacia (s.programas p).en_ejecucion (s.programas p).lista_de_ready
                (unfold pendiente_de_envios in e) in
            rw mismo (
              SiHay-mono (λ t. t ≡ despachar d p h (al_frente p h s)) _ _
                (elegir_solo p h _ (al_frente p h s) (al_frente_solo p h s vacia))
                (λ t igual.
                  subst (λ u. NoBloquea s u × Despierto u h) (sym igual)
                    (
                      despachada-NoBloquea h s e,
                      (
                        sigue_despierto p h s h b,
                        inr (
                            subst
                              (λ r.
                                ((despachar d p h (al_frente p h s)).programas r).en_ejecucion
                                ≡ some h)
                              (sym (padre_igual p h s h)) (corre p h s)),
                      ),
                    ))))
          (λ _. (agregar_a_ready-NoBloquea p h s, agregar_a_ready-Despierto h s b))
