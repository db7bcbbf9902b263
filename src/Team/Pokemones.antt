-- ===== src/Team/Pokemones.antt =====
-- team/src/pokemon_utils.c, and the functions of utils.c that look up a name in a list of pokemon.
--
-- `igual` is `string_equals_ignore_case` of the commons, and `sin_iniciar` what a block of
-- `malloc` holds before it is written.
pub mod Sumarizar
pub mod Quitar
use sistemas_operativos_utn.Base.{
  ℕ, suc, ◌+◌, ◌-◌, Bool, true, false, Option, none, some, List, [], ◌∷◌, ◌++◌, map, ltb, length,
  get_elem?, ◌%◌, if◌then◌else◌,
}
use sistemas_operativos_utn.Universo.{Posicion, Localized}
use sistemas_operativos_utn.Team.Entrenador.{Cadena, PokemonTeam, Entrenador}

unfoldable pub get_cantidad_pokemon : List PokemonTeam → ℕ
get_cantidad_pokemon [] = 0
get_cantidad_pokemon (p ∷ ps) = p.cantidad + get_cantidad_pokemon ps

unfoldable pub puede_capturar_pokemones : Entrenador → Bool
unfolding get_cantidad_pokemon
puede_capturar_pokemones e =
    ltb (get_cantidad_pokemon e.pokemones) (get_cantidad_pokemon e.objetivo)

-- The parameter is the result of `rand()`.
unfoldable pub get_nombre_aleatorio : ℕ → List Cadena → Option Cadena
get_nombre_aleatorio rand nombres = get_elem? nombres (rand % (length nombres - 1))

module _ (sin_iniciar : PokemonTeam) where
  unfoldable pub get_pokemon : Cadena → PokemonTeam
  get_pokemon pokemon_name = record sin_iniciar { cantidad = 1; nombre = pokemon_name }

  unfoldable pub get_pokemon_team : Cadena → Posicion → PokemonTeam
  get_pokemon_team nombre posicion = record sin_iniciar {
    cantidad = 1;
    nombre = nombre;
    posicion = posicion;
  }

  -- The address is that of the name in the message, which all entries share.
  unfoldable pub localized_to_pokemon_team : ℕ → Localized → List PokemonTeam
  unfolding get_pokemon_team
  localized_to_pokemon_team direccion mensaje =
      map (get_pokemon_team (record { direccion = direccion; texto = mensaje.pokemon.nombre }))
        mensaje.lista_posiciones

  unfoldable pub clonar : PokemonTeam → PokemonTeam
  clonar p = record sin_iniciar { cantidad = p.cantidad; nombre = p.nombre; posicion = p.posicion }

module _ (igual : List ℕ → List ℕ → Bool) where
  -- The inner loop of `sumarizar_pokemones`, with `pokemon_encontrado`.
  unfoldable pub incrementar : List ℕ → List PokemonTeam → List PokemonTeam × Bool
  incrementar nombre [] = ([], false)
  incrementar nombre (s ∷ ss) =
      let (resto, encontrado) = incrementar nombre ss in
      if igual s.nombre.texto nombre
      then (record s { cantidad = suc s.cantidad } ∷ resto, true)
      else (s ∷ resto, encontrado)

  unfoldable pub get_cantidad_by_nombre_pokemon : List ℕ → List PokemonTeam → ℕ
  get_cantidad_by_nombre_pokemon nombre [] = 0
  get_cantidad_by_nombre_pokemon nombre (p ∷ ps) =
      if igual nombre p.nombre.texto then p.cantidad else get_cantidad_by_nombre_pokemon nombre ps

  unfoldable pub get_pokemon_by_nombre : List ℕ → List PokemonTeam → Option PokemonTeam
  get_pokemon_by_nombre nombre [] = none
  get_pokemon_by_nombre nombre (p ∷ ps) =
      if igual nombre p.nombre.texto then some p else get_pokemon_by_nombre nombre ps

  -- The list that is left, and the pokemon that the pointer leads to afterwards.
  unfoldable pub remove_pokemon_by_nombre :
      List ℕ → List PokemonTeam → List PokemonTeam × Option PokemonTeam
  remove_pokemon_by_nombre nombre [] = ([], none)
  remove_pokemon_by_nombre nombre (p ∷ ps) =
      let (resto, quitado) = remove_pokemon_by_nombre nombre ps in
      let menos = record p { cantidad = p.cantidad - 1 } in
      if igual nombre p.nombre.texto
      then if ltb 1 p.cantidad then (menos ∷ ps, some menos) else (ps, some p)
      else (p ∷ resto, quitado)

  unfoldable pub esta_en_objetivos_globales : List ℕ → List PokemonTeam → Bool
  esta_en_objetivos_globales nombre [] = false
  esta_en_objetivos_globales nombre (p ∷ ps) =
      if igual nombre p.nombre.texto then true else esta_en_objetivos_globales nombre ps

  unfoldable pub fue_recibido : List ℕ → List (List ℕ) → Bool
  fue_recibido nombre [] = false
  fue_recibido nombre (r ∷ rs) = if igual nombre r then true else fue_recibido nombre rs

-- One round of `sumarizar_pokemones`, and its loop.
module _ (igual : List ℕ → List ℕ → Bool) (sin_iniciar : PokemonTeam) where
  unfoldable pub agregar : PokemonTeam → List PokemonTeam → List PokemonTeam
  unfolding incrementar clonar
  agregar p sumarizada =
      let (lista, encontrado) = incrementar igual p.nombre.texto sumarizada in
      if encontrado then lista else lista ++ (clonar sin_iniciar p ∷ [])

  unfoldable pub sumarizar_en : List PokemonTeam → List PokemonTeam → List PokemonTeam
  unfolding agregar
  sumarizar_en sumarizada [] = sumarizada
  sumarizar_en sumarizada (p ∷ ps) = sumarizar_en (agregar p sumarizada) ps

  unfoldable pub sumarizar_pokemones : List PokemonTeam → List PokemonTeam
  unfolding sumarizar_en
  sumarizar_pokemones sin_sumarizar = sumarizar_en [] sin_sumarizar
