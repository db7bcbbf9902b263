-- ===== src/Team/Pokemones/Sumarizar.antt =====
-- team/src/pokemon_utils.c: the amount of a name in the list that `sumarizar_pokemones` makes.
use sistemas_operativos_utn.Base.{
  ℕ, ◌+◌, ◌≡◌, refl, Bool, true, false, ◌&&◌, ◌||◌, List, [], ◌∷◌, ◌++◌, arith, if◌then◌else◌,
  Bool-cases, inl, inr,
}
use sistemas_operativos_utn.Team.Entrenador.{PokemonTeam, EsIgualdad}
use sistemas_operativos_utn.Team.Nombres.{uno, igual_mismo, igual_vuelta}
use sistemas_operativos_utn.Team.Pokemones.{
  incrementar, get_cantidad_by_nombre_pokemon, esta_en_objetivos_globales, agregar, clonar,
  sumarizar_en, sumarizar_pokemones,
}

-- How many entries have the name.
abbrev pub veces : (List ℕ → List ℕ → Bool) → List ℕ → List PokemonTeam → ℕ
veces igual n [] = 0
veces igual n (p ∷ ps) = uno (igual n p.nombre.texto) + veces igual n ps

-- The amount of the first entry with the name, and one for each further one.
abbrev pub primera_y_veces : (List ℕ → List ℕ → Bool) → List ℕ → List PokemonTeam → ℕ
primera_y_veces igual n [] = 0
primera_y_veces igual n (p ∷ ps) =
    if igual n p.nombre.texto then p.cantidad + veces igual n ps else primera_y_veces igual n ps

module _ (igual : List ℕ → List ℕ → Bool) (ei : EsIgualdad igual) where
  abbrev cant : List ℕ → List PokemonTeam → ℕ
  cant = get_cantidad_by_nombre_pokemon igual

  abbrev esta : List ℕ → List PokemonTeam → Bool
  esta = esta_en_objetivos_globales igual

  esta_mismo : (n a : List ℕ) (ss : List PokemonTeam) → igual n a ≡ true → esta n ss ≡ esta a ss
  unfolding esta_en_objetivos_globales
  esta_mismo n a [] e = refl
  esta_mismo n a (s ∷ ss) e = ground (
    arith,
    esta_mismo n a ss e,
    igual_vuelta igual ei n s.nombre.texto,
    igual_vuelta igual ei a s.nombre.texto,
    igual_mismo igual ei s.nombre.texto n a e,
  )

  cant_sin : (n : List ℕ) (ss : List PokemonTeam) → esta n ss ≡ false → cant n ss ≡ 0
  unfolding esta_en_objetivos_globales get_cantidad_by_nombre_pokemon
  cant_sin n [] e = refl
  cant_sin n (s ∷ ss) e = ground (arith, cant_sin n ss)

  incrementar-cant :
      (n q : List ℕ) (ss : List PokemonTeam)
      → cant n (incrementar igual q ss).0 ≡ cant n ss + uno (esta n ss && igual n q)
  unfolding incrementar esta_en_objetivos_globales get_cantidad_by_nombre_pokemon
  incrementar-cant n q [] = refl
  incrementar-cant n q (s ∷ ss) = elim (Bool-cases (igual s.nombre.texto q)) [
    | inl h ↦ ground (arith, incrementar-cant n q ss, igual_mismo igual ei n s.nombre.texto q h)
    | inr h ↦ elim (Bool-cases (igual n s.nombre.texto)) [
      | inl k ↦ ground (
        arith,
        igual_vuelta igual ei s.nombre.texto q,
        igual_vuelta igual ei n q,
        igual_mismo igual ei q n s.nombre.texto k,
      )
      | inr k ↦ ground (arith, incrementar-cant n q ss)
    ]
  ]

  incrementar-esta :
      (n q : List ℕ) (ss : List PokemonTeam) → esta n (incrementar igual q ss).0 ≡ esta n ss
  unfolding incrementar esta_en_objetivos_globales
  incrementar-esta n q [] = refl
  incrementar-esta n q (s ∷ ss) = ground (arith, incrementar-esta n q ss)

  incrementar-encontrado :
      (q : List ℕ) (ss : List PokemonTeam) → (incrementar igual q ss).1 ≡ esta q ss
  unfolding incrementar esta_en_objetivos_globales
  incrementar-encontrado q [] = refl
  incrementar-encontrado q (s ∷ ss) =
      ground (arith, incrementar-encontrado q ss, igual_vuelta igual ei q s.nombre.texto)

  cant-append :
      (n : List ℕ) (xs ys : List PokemonTeam)
      → cant n (xs ++ ys) ≡ (if esta n xs then cant n xs else cant n ys)
  unfolding esta_en_objetivos_globales get_cantidad_by_nombre_pokemon
  cant-append n [] ys = refl
  cant-append n (x ∷ xs) ys = ground (arith, cant-append n xs ys)

  esta-append :
      (n : List ℕ) (xs ys : List PokemonTeam) → esta n (xs ++ ys) ≡ (esta n xs || esta n ys)
  unfolding esta_en_objetivos_globales
  esta-append n [] ys = refl
  esta-append n (x ∷ xs) ys = ground (arith, esta-append n xs ys)

  module _ (sin_iniciar : PokemonTeam) where
    cant-clonar :
        (n : List ℕ) (p : PokemonTeam)
        → cant n (clonar sin_iniciar p ∷ []) ≡ (if igual n p.nombre.texto then p.cantidad else 0)
    unfolding clonar get_cantidad_by_nombre_pokemon
    cant-clonar n p = refl

    agregar-cant :
        (n : List ℕ) (p : PokemonTeam) (ss : List PokemonTeam)
        → cant n (agregar igual sin_iniciar p ss) ≡ (
            if esta n ss
            then cant n ss + uno (igual n p.nombre.texto)
            else if igual n p.nombre.texto
            then p.cantidad
            else 0)
    unfolding agregar
    agregar-cant n p ss =
        let q = p.nombre.texto in
        let ss' = (incrementar igual q ss).0 in
        ground (
          arith,
          incrementar-encontrado q ss,
          incrementar-cant n q ss,
          incrementar-esta n q ss,
          cant-append n ss' (clonar sin_iniciar p ∷ []),
          cant-clonar n p,
          cant_sin n ss,
          esta_mismo n q ss,
        )

    esta-clonar :
        (n : List ℕ) (p : PokemonTeam) → esta n (clonar sin_iniciar p ∷ []) ≡ igual n p.nombre.texto
    unfolding clonar esta_en_objetivos_globales
    esta-clonar n p = ground arith

    agregar-esta :
        (n : List ℕ) (p : PokemonTeam) (ss : List PokemonTeam)
        → esta n (agregar igual sin_iniciar p ss) ≡ (esta n ss || igual n p.nombre.texto)
    unfolding agregar
    agregar-esta n p ss =
        let q = p.nombre.texto in
        let ss' = (incrementar igual q ss).0 in
        ground (
          arith,
          incrementar-encontrado q ss,
          incrementar-esta n q ss,
          esta-append n ss' (clonar sin_iniciar p ∷ []),
          esta-clonar n p,
          esta_mismo n q ss,
        )

    sumarizar_en-cant :
        (n : List ℕ) (ss ps : List PokemonTeam)
        → cant n (sumarizar_en igual sin_iniciar ss ps)
          ≡ (if esta n ss then cant n ss + veces igual n ps else primera_y_veces igual n ps)
    unfolding sumarizar_en
    sumarizar_en-cant n ss [] = ground (arith, cant_sin n ss)
    sumarizar_en-cant n ss (p ∷ ps) = ground (
      arith,
      sumarizar_en-cant n (agregar igual sin_iniciar p ss) ps,
      agregar-cant n p ss,
      agregar-esta n p ss,
    )

    -- In the list that `sumarizar_pokemones` makes, a name has the amount of its first entry in the
    -- list given, and one for each further entry, whatever the amounts of these.
    pub sumarizar_pokemones-cantidad :
        (n : List ℕ) (ps : List PokemonTeam)
        → get_cantidad_by_nombre_pokemon igual n (sumarizar_pokemones igual sin_iniciar ps)
          ≡ primera_y_veces igual n ps
    unfolding sumarizar_pokemones esta_en_objetivos_globales
    sumarizar_pokemones-cantidad n ps = sumarizar_en-cant n [] ps
