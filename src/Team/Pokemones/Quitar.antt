-- ===== src/Team/Pokemones/Quitar.antt =====
-- team/src: lists of pokemon in which no name stands twice. `sumarizar_pokemones` makes them and
-- `remove_pokemon_by_nombre` keeps them.
use sistemas_operativos_utn.Base.{
  ℕ, ◌-◌, ◌≡◌, ◌<◌, refl, ◌∙◌, Bool, true, false, List, [], ◌∷◌, ◌++◌, arith, Bool-cases, inl, inr,
}
use sistemas_operativos_utn.Team.Entrenador.{PokemonTeam, EsIgualdad}
use sistemas_operativos_utn.Team.Nombres.{uno, igual_mismo, igual_vuelta}
use sistemas_operativos_utn.Base.{Todas}
use sistemas_operativos_utn.Team.Pokemones.{
  get_cantidad_by_nombre_pokemon, remove_pokemon_by_nombre, incrementar, clonar, agregar,
  sumarizar_en, sumarizar_pokemones,
}

module _ (igual : List ℕ → List ℕ → Bool) where
  -- No entry has the name.
  abbrev pub Ausente : List ℕ → List PokemonTeam → Type 0
  Ausente n = Todas (λ (q : PokemonTeam). igual n q.nombre.texto ≡ false)

  -- Each name stands once, with an amount that is not 0.
  abbrev pub Sumarizada : List PokemonTeam → Type 0
  Sumarizada [] = Unit
  Sumarizada (p ∷ ps) = (0 < p.cantidad) × Ausente p.nombre.texto ps × Sumarizada ps

  module _ (ei : EsIgualdad igual) where
    cant-Ausente :
        (n : List ℕ) (ps : List PokemonTeam)
        → Ausente n ps
        → get_cantidad_by_nombre_pokemon igual n ps ≡ 0
    unfolding get_cantidad_by_nombre_pokemon
    cant-Ausente n [] h = refl
    cant-Ausente n (p ∷ ps) (h, hs) = ground (arith, cant-Ausente n ps hs)

    Ausente-mismo :
        (m n : List ℕ) (ps : List PokemonTeam) → igual m n ≡ true → Ausente n ps → Ausente m ps
    Ausente-mismo m n [] e h = tt
    Ausente-mismo m n (p ∷ ps) e (h, hs) = (
      igual_vuelta igual ei m p.nombre.texto
          ∙ igual_mismo igual ei p.nombre.texto m n e
          ∙ igual_vuelta igual ei p.nombre.texto n
          ∙ h,
      Ausente-mismo m n ps e hs,
    )

    -- Removing a name takes one from its amount, and leaves that of every other name.
    pub remove_pokemon_by_nombre-cantidad :
        (m n : List ℕ) (ps : List PokemonTeam)
        → Sumarizada ps
        → get_cantidad_by_nombre_pokemon igual m (remove_pokemon_by_nombre igual n ps).0
          ≡ get_cantidad_by_nombre_pokemon igual m ps - uno (igual m n)
    unfolding remove_pokemon_by_nombre get_cantidad_by_nombre_pokemon
    remove_pokemon_by_nombre-cantidad m n [] s = omega arith
    remove_pokemon_by_nombre-cantidad m n (p ∷ ps) (k, a, s) =
        let q = p.nombre.texto in
        elim (Bool-cases (igual n q)) [
          | inl h ↦ elim (Bool-cases (igual m q)) [
            | inl e ↦
                ground (
                  arith,
                  igual_mismo igual ei m n q h,
                  cant-Ausente m ps (Ausente-mismo m q ps e a),
                )
            | inr e ↦ ground (arith, igual_mismo igual ei m n q h)
          ]
          | inr h ↦ elim (Bool-cases (igual m n)) [
            | inl e ↦ ground (
              arith,
              remove_pokemon_by_nombre-cantidad m n ps s,
              igual_mismo igual ei q m n e,
              igual_vuelta igual ei m q,
              igual_vuelta igual ei n q,
            )
            | inr e ↦ ground (arith, remove_pokemon_by_nombre-cantidad m n ps s)
          ]
        ]

  -- No entry has the name, tested from the entry's side.
  abbrev NoEs : List ℕ → List PokemonTeam → Type 0
  NoEs n = Todas (λ (q : PokemonTeam). igual q.nombre.texto n ≡ false)

  incrementar-Ausente :
      (n q : List ℕ) (ss : List PokemonTeam) → Ausente n ss → Ausente n (incrementar igual q ss).0
  unfolding incrementar
  incrementar-Ausente n q [] h = tt
  incrementar-Ausente n q (s ∷ ss) (h, hs) = elim (Bool-cases (igual s.nombre.texto q)) [
    | inl e ↦ rw e (h, incrementar-Ausente n q ss hs)
    | inr e ↦ rw e (h, incrementar-Ausente n q ss hs)
  ]

  incrementar-Sumarizada :
      (q : List ℕ) (ss : List PokemonTeam) → Sumarizada ss → Sumarizada (incrementar igual q ss).0
  unfolding incrementar
  incrementar-Sumarizada q [] h = tt
  incrementar-Sumarizada q (s ∷ ss) (k, a, h) =
      let a' = incrementar-Ausente s.nombre.texto q ss a in
      let h' = incrementar-Sumarizada q ss h in
      elim (Bool-cases (igual s.nombre.texto q)) [
        | inl e ↦ rw e (omega arith, a', h')
        | inr e ↦ rw e (k, a', h')
      ]

  incrementar-NoEs :
      (q : List ℕ) (ss : List PokemonTeam)
      → (incrementar igual q ss).1 ≡ false
      → NoEs q (incrementar igual q ss).0
  unfolding incrementar
  incrementar-NoEs q [] h = tt
  incrementar-NoEs q (s ∷ ss) h = elim (Bool-cases (igual s.nombre.texto q)) [
    | inl e ↦ ground arith
    | inr e ↦
        let h' : (incrementar igual q ss).1 ≡ false = rw e at h in
        rw e (e, incrementar-NoEs q ss h')
  ]

  Ausente-snoc :
      (n : List ℕ) (ss : List PokemonTeam) (c : PokemonTeam)
      → Ausente n ss
      → igual n c.nombre.texto ≡ false
      → Ausente n (ss ++ (c ∷ []))
  Ausente-snoc n [] c h k = (k, tt)
  Ausente-snoc n (s ∷ ss) c (h, hs) k = (h, Ausente-snoc n ss c hs k)

  Sumarizada-snoc :
      (ss : List PokemonTeam) (c : PokemonTeam)
      → Sumarizada ss
      → NoEs c.nombre.texto ss
      → 0 < c.cantidad
      → Sumarizada (ss ++ (c ∷ []))
  Sumarizada-snoc [] c h k z = (z, tt, tt)
  Sumarizada-snoc (s ∷ ss) c (z', a, h) (k, ks) z =
      (z', Ausente-snoc s.nombre.texto ss c a k, Sumarizada-snoc ss c h ks z)

  module _ (sin_iniciar : PokemonTeam) where
    agregar-Sumarizada :
        (p : PokemonTeam) (ss : List PokemonTeam)
        → 0 < p.cantidad
        → Sumarizada ss
        → Sumarizada (agregar igual sin_iniciar p ss)
    unfolding agregar clonar
    agregar-Sumarizada p ss k h =
        let q = p.nombre.texto in
        let h' = incrementar-Sumarizada q ss h in
        elim (Bool-cases (incrementar igual q ss).1) [
          | inl e ↦ rw e h'
          | inr e ↦ rw e (
              Sumarizada-snoc (incrementar igual q ss).0 (clonar sin_iniciar p) h'
                (incrementar-NoEs q ss e) k)
        ]

    sumarizar_en-Sumarizada :
        (ss ps : List PokemonTeam)
        → Todas (λ p. 0 < p.cantidad) ps
        → Sumarizada ss
        → Sumarizada (sumarizar_en igual sin_iniciar ss ps)
    unfolding sumarizar_en
    sumarizar_en-Sumarizada ss [] k h = h
    sumarizar_en-Sumarizada ss (p ∷ ps) (k, ks) h =
        sumarizar_en-Sumarizada (agregar igual sin_iniciar p ss) ps ks (agregar-Sumarizada p ss k h)

    -- From amounts that are not 0, `sumarizar_pokemones` makes a list in which each name stands
    -- once, with an amount that is not 0.
    pub sumarizar_pokemones-Sumarizada :
        (ps : List PokemonTeam)
        → Todas (λ p. 0 < p.cantidad) ps
        → Sumarizada (sumarizar_pokemones igual sin_iniciar ps)
    unfolding sumarizar_pokemones
    sumarizar_pokemones-Sumarizada ps k = sumarizar_en-Sumarizada [] ps k tt
