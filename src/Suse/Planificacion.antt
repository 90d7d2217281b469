-- ===== src/Suse/Planificacion.antt =====
-- suseScheduleNext of suse.c: shortest job first.
use tp_2019_2c_vendo_fiat.Suse.Ops.{
  despachar, tiene_menor_estimado, es_el_menor, desalojar, elegir, suse_schedule_next,
}
use tp_2019_2c_vendo_fiat.Base.{
  Option, ℕ, List, ◌≡◌, All, find, true, ◌++◌, ◌∷◌, Bool-cases, all, if_elim, if◌then◌else◌, some,
  All-mono, [], find-remove_first, ◌≢◌, arith, none, all-All, false, find-none, All-all, inl, inr,
  ◌∙◌, ◌⊎◌, ap₂, option_elim, refl,
}
use tp_2019_2c_vendo_fiat.Suse.State.{Double, IsTotal, Suse, exec}

module _ {D : Type 0} (d : Double D) (total : IsTotal d) where
  refl_leb : (x : D) → d.leb x x ≡ true
  refl_leb x = elim (Bool-cases (d.leb x x)) [ inl e ↦ e | inr e ↦ total.leb_total x x e ]

  module _ (e : ℕ → D) where
    -- A least element, which shows that the search succeeds.
    minimo : ℕ → List ℕ → ℕ
    minimo x [] = x
    minimo x (y ∷ ys) = let m = minimo y ys in if d.leb (e x) (e m) then x else m

    minimo-le : (x : ℕ) (xs : List ℕ) → All (λ y. d.leb (e (minimo x xs)) (e y) ≡ true) (x ∷ xs)
    unfolding minimo
    minimo-le x [] = (refl_leb (e x), tt)
    minimo-le x (y ∷ ys) =
        let ih = minimo-le y ys in
        if_elim (λ m. All (λ z. d.leb (e m) (e z) ≡ true) (x ∷ y ∷ ys))
          (d.leb (e x) (e (minimo y ys))) _ _
          (λ h. (
            refl_leb (e x),
            All-mono _ _ (y ∷ ys) (λ z le. total.leb_trans (e x) (e (minimo y ys)) (e z) h le) ih,
          ))
          (λ h. (total.leb_total (e x) (e (minimo y ys)) h, ih))

    minimo-All : (P : ℕ → Type 0) (x : ℕ) (xs : List ℕ) → All P (x ∷ xs) → P (minimo x xs)
    unfolding minimo
    minimo-All P x [] h = h.0
    minimo-All P x (y ∷ ys) h =
        let ih = minimo-All P y ys h.1 in
        if_elim P (d.leb (e x) (e (minimo y ys))) _ _ (λ _. h.0) (λ _. ih)

    -- The search for an element whose estimate is least cannot fail.
    menor-ne-none :
        (x : ℕ) (xs : List ℕ) → find (λ h. all (λ z. d.leb (e h) (e z)) (x ∷ xs)) (x ∷ xs) ≢ none
    menor-ne-none x xs none_found =
        let fails =
          minimo-All (λ h. all (λ z. d.leb (e h) (e z)) (x ∷ xs) ≡ false) x xs
            (find-none (λ h. all (λ z. d.leb (e h) (e z)) (x ∷ xs)) (x ∷ xs) none_found) in
        let holds = All-all (λ z. d.leb (e (minimo x xs)) (e z)) (x ∷ xs) (minimo-le x xs) in cc

-- The threads among which a program's next one is chosen: the ready ones, then the running one.
abbrev pub con_el_actual : Option ℕ → List ℕ → List ℕ
con_el_actual none xs = xs
con_el_actual (some h) xs = xs ++ (h ∷ [])

module _ {D : Type 0} (d : Double D) where
  abbrev pub candidatos : ℕ → Suse D → List ℕ
  candidatos p s = con_el_actual (s.programas p).en_ejecucion (s.programas p).lista_de_ready

  -- Thread `h` of the list `xs` was put on the processor.
  pub record Despachado (p : ℕ) (xs : List ℕ) (h : ℕ) (s t : Suse D) : Type 0 where
    pub antes : List ℕ
    pub despues : List ℕ
    pub elegido : xs ≡ antes ++ h ∷ despues
    pub resto : (t.programas p).lista_de_ready ≡ antes ++ despues
    pub menor : All (λ x. d.leb (s.hilos h).estimado_sjf (s.hilos x).estimado_sjf ≡ true) xs
    pub corre : (t.programas p).en_ejecucion ≡ some h
    pub estado : (t.hilos h).estado ≡ exec
    pub aviso : t.enviados ≡ s.enviados ++ (((s.programas p).puerto, (s.hilos h).id) ∷ [])

  despachar-Despachado :
      (p : ℕ) (xs : List ℕ) (h : ℕ) (s : Suse D)
      → (s.programas p).lista_de_ready ≡ xs
      → find (tiene_menor_estimado d s xs) xs ≡ some h
      → Despachado p xs h s (despachar d p h s)
  unfolding despachar tiene_menor_estimado es_el_menor
  despachar-Despachado p xs h s e found =
      let (pre, post, split, removed, least) =
        find-remove_first (tiene_menor_estimado d s xs) xs h found in
      record {
        antes = pre;
        despues = post;
        elegido = split;
        resto = ground (arith, removed);
        menor = all-All _ xs least;
        corre = ground arith;
        estado = ground arith;
        aviso = ground arith;
      }

  -- What `desalojar` leaves: the candidates are the ready list, and nothing else that the choice
  -- reads has changed.
  record Desalojado (p : ℕ) (xs : List ℕ) (s t : Suse D) : Type 0 where
    lista : (t.programas p).lista_de_ready ≡ xs
    estimado : (h : ℕ) → (t.hilos h).estimado_sjf ≡ (s.hilos h).estimado_sjf
    id : (h : ℕ) → (t.hilos h).id ≡ (s.hilos h).id
    puerto : (t.programas p).puerto ≡ (s.programas p).puerto
    enviados : t.enviados ≡ s.enviados

  desalojar-Desalojado :
      (p : ℕ) (o : Option ℕ) (s : Suse D)
      → Desalojado p (con_el_actual o (s.programas p).lista_de_ready) s (desalojar p o s)
  unfolding desalojar
  desalojar-Desalojado p none s = record {
    lista = refl;
    estimado = λ h. refl;
    id = λ h. refl;
    puerto = refl;
    enviados = refl;
  }
  desalojar-Desalojado p (some r) s = record {
    lista = ground arith;
    estimado = λ h. ground arith;
    id = λ h. ground arith;
    puerto = ground arith;
    enviados = refl;
  }

  Despachado-desde :
      (p : ℕ) (xs : List ℕ) (h : ℕ) (s t u : Suse D)
      → Desalojado p xs s t
      → Despachado p xs h t u
      → Despachado p xs h s u
  Despachado-desde p xs h s t u a b = record {
    antes = b.antes;
    despues = b.despues;
    elegido = b.elegido;
    resto = b.resto;
    menor = All-mono _ _ xs (λ x le. rw (← a.estimado h, ← a.estimado x) le) b.menor;
    corre = b.corre;
    estado = b.estado;
    aviso = b.aviso ∙ ap₂ ◌++◌ a.enviados (λ i. (a.puerto i, a.id h i) ∷ []);
  }

  abbrev pub Planificado : ℕ → List ℕ → Suse D → Option (Suse D) → Type 0
  Planificado p xs s o =
      ((xs ≡ []) × (o ≡ some s)) ⊎ ((h : ℕ) × (t : Suse D) × (o ≡ some t) × Despachado p xs h s t)

  elegir-Planificado :
      IsTotal d
      → (p : ℕ) (xs : List ℕ) (s : Suse D) → (s.programas p).lista_de_ready ≡ xs
      → Planificado p xs s (elegir d p xs s)
  unfolding elegir
  elegir-Planificado total p [] s e = inl (refl, refl)
  elegir-Planificado total p (x ∷ xs) s e =
      option_elim (Planificado p (x ∷ xs) s) (find (tiene_menor_estimado d s (x ∷ xs)) (x ∷ xs)) _ _
        (λ n. absurd (hay_menor n))
        (λ h found. inr (h, _, refl, despachar-Despachado p (x ∷ xs) h s e found))
    where
      hay_menor : find (tiene_menor_estimado d s (x ∷ xs)) (x ∷ xs) ≢ none
      hay_menor =
          unfold tiene_menor_estimado es_el_menor in
          menor-ne-none d total (λ h. (s.hilos h).estimado_sjf) x xs

  ne_vacio : (xs : List ℕ) (r : ℕ) → xs ++ (r ∷ []) ≢ []
  ne_vacio [] r e = cc
  ne_vacio (x ∷ xs) r e = cc

  desde_desalojo :
      (p : ℕ) (o : Option ℕ) (s : Suse D) (r : Option (Suse D))
      → let xs = con_el_actual o (s.programas p).lista_de_ready in
        Planificado p xs (desalojar p o s) r → Planificado p xs s r
  unfolding desalojar
  desde_desalojo p none s r x = x
  desde_desalojo p (some h) s r (inl (vacio, _)) = absurd (ne_vacio _ h vacio)
  desde_desalojo p (some h) s r (inr (h', t, e, desp)) =
      inr (h', t, e, Despachado-desde p _ h' s _ t (desalojar-Desalojado p (some h) s) desp)

  -- Over doubles that are not NaN, SUSE_SCHEDULE_NEXT never faults. With no ready and no running
  -- thread it changes nothing. Otherwise it takes out of the candidates, the ready threads and then
  -- the running one, a thread whose estimate is least among them, makes it the running one, in
  -- state EXEC, keeps the others in order as the ready list, and sends the thread's id to the
  -- program.
  pub suse_schedule_next-Planificado :
      IsTotal d
      → (p : ℕ) (s : Suse D)
      → ((candidatos p s ≡ []) × (suse_schedule_next d p s ≡ some s))
        ⊎ ((h : ℕ) × (t : Suse D) × (suse_schedule_next d p s ≡ some t)
            × Despachado p (candidatos p s) h s t)
  unfolding suse_schedule_next
  suse_schedule_next-Planificado total p s =
      let o = (s.programas p).en_ejecucion in
      let lista = (desalojar-Desalojado p o s).lista in
      desde_desalojo p o s _
        (rw lista (elegir-Planificado total p (candidatos p s) (desalojar p o s) lista))
