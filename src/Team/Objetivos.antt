-- ===== src/Team/Objetivos.antt =====
-- team/src/utils.c: what the trainers have, what they are to have, and which messages and pokemon
-- the Team can use. The globals `entrenadores` and `objetivo_global` are arguments.
pub mod Pendientes
use sistemas_operativos_utn.Base.{
  ℕ, ◌+◌, Bool, true, false, not, ◌&&◌, Option, none, some, List, [], ◌∷◌, ◌++◌, ltb, ◌==◌, length,
  if◌then◌else◌,
}
use sistemas_operativos_utn.Universo.{Posicion, Localized, Appeared}
use sistemas_operativos_utn.Team.Entrenador.{Cadena, PokemonTeam, Entrenador}
use sistemas_operativos_utn.Team.Pokemones.{
  get_cantidad_by_nombre_pokemon, get_pokemon_by_nombre, esta_en_objetivos_globales, fue_recibido,
  sumarizar_pokemones,
}

-- A return out of a loop where there is something to return, and the rest of the loop if not.
unfoldable pub o_sino : Option PokemonTeam → Option PokemonTeam → Option PokemonTeam
o_sino (some p) resto = some p
o_sino none resto = resto

-- The two loops of `get_objetivo_global`.
unfoldable pub juntar_objetivos : List Entrenador → List PokemonTeam
juntar_objetivos [] = []
juntar_objetivos (e ∷ es) = e.objetivo ++ juntar_objetivos es

-- Those of `get_pokemones_capturados_sumarizados_global`.
unfoldable pub juntar_pokemones : List Entrenador → List PokemonTeam
juntar_pokemones [] = []
juntar_pokemones (e ∷ es) = e.pokemones ++ juntar_pokemones es

unfoldable pub es_destino : PokemonTeam → Entrenador → Bool
es_destino p e = elim e.pokemon_destino [
  | none ↦ false
  | some d ↦
      d.nombre.direccion == p.nombre.direccion
      && d.posicion.x == p.posicion.x
      && d.posicion.y == p.posicion.y
]

unfoldable pub alguien_yendo : PokemonTeam → List Entrenador → Bool
unfolding es_destino
alguien_yendo p [] = false
alguien_yendo p (e ∷ es) = if es_destino p e then true else alguien_yendo p es

unfoldable pub va_por : Cadena → Entrenador → Bool
va_por pokemon e = elim e.pokemon_destino [
  | none ↦ false
  | some d ↦ d.nombre.direccion == pokemon.direccion
]

unfoldable pub get_cantidad_entrenadores_yendo : Cadena → List Entrenador → ℕ
unfolding va_por
get_cantidad_entrenadores_yendo pokemon [] = 0
get_cantidad_entrenadores_yendo pokemon (e ∷ es) =
    (if va_por pokemon e then 1 else 0) + get_cantidad_entrenadores_yendo pokemon es

module _ (igual : List ℕ → List ℕ → Bool) where
  unfoldable pub alcanza_objetivo : List PokemonTeam → List PokemonTeam → Bool
  unfolding get_cantidad_by_nombre_pokemon
  alcanza_objetivo pokemones [] = true
  alcanza_objetivo pokemones (o ∷ os) =
      if o.cantidad == get_cantidad_by_nombre_pokemon igual o.nombre.texto pokemones
      then alcanza_objetivo pokemones os
      else false

module _ (igual : List ℕ → List ℕ → Bool) (sin_iniciar : PokemonTeam) where
  unfoldable pub get_objetivo_global : List Entrenador → List PokemonTeam
  unfolding juntar_objetivos sumarizar_pokemones
  get_objetivo_global entrenadores =
      sumarizar_pokemones igual sin_iniciar (juntar_objetivos entrenadores)

  unfoldable pub get_pokemones_capturados_sumarizados_global : List Entrenador → List PokemonTeam
  unfolding juntar_pokemones sumarizar_pokemones
  get_pokemones_capturados_sumarizados_global entrenadores =
      let capturados = juntar_pokemones entrenadores in
      if ltb 0 (length capturados)
      then sumarizar_pokemones igual sin_iniciar capturados
      else capturados

  unfoldable pub get_pokemones_capturados_sumarizados_entrenador : Entrenador → List PokemonTeam
  unfolding sumarizar_pokemones
  get_pokemones_capturados_sumarizados_entrenador e =
      if ltb 0 (length e.pokemones)
      then sumarizar_pokemones igual sin_iniciar e.pokemones
      else e.pokemones

  unfoldable pub pokemon_necesario : List Entrenador → List PokemonTeam → PokemonTeam → Bool
  unfolding alguien_yendo get_pokemones_capturados_sumarizados_global get_cantidad_by_nombre_pokemon
      get_cantidad_entrenadores_yendo
  pokemon_necesario entrenadores objetivo_global p =
      let capturados = get_pokemones_capturados_sumarizados_global entrenadores in
      let cantidad_capturados = get_cantidad_by_nombre_pokemon igual p.nombre.texto capturados in
      let necesito_capturar = get_cantidad_by_nombre_pokemon igual p.nombre.texto objetivo_global in
      let estan_yendo = get_cantidad_entrenadores_yendo p.nombre entrenadores in
      if alguien_yendo p entrenadores
      then false
      else ltb (cantidad_capturados + estan_yendo) necesito_capturar

  unfoldable pub puedo_capturar : List ℕ → List Entrenador → List PokemonTeam → Bool
  unfolding get_pokemones_capturados_sumarizados_global get_cantidad_by_nombre_pokemon
  puedo_capturar pokemon entrenadores objetivo_global =
      ltb
        (get_cantidad_by_nombre_pokemon igual pokemon
          (get_pokemones_capturados_sumarizados_global entrenadores))
        (get_cantidad_by_nombre_pokemon igual pokemon objetivo_global)

  unfoldable pub appeared_valido : Appeared → List Entrenador → List PokemonTeam → Bool
  unfolding esta_en_objetivos_globales puedo_capturar
  appeared_valido mensaje entrenadores objetivo_global =
      esta_en_objetivos_globales igual mensaje.pokemon.nombre objetivo_global
      && puedo_capturar mensaje.pokemon.nombre entrenadores objetivo_global

  -- The trainer whose list is summed up goes with the answer.
  unfoldable pub cumplio_objetivo : Entrenador → Bool × Entrenador
  unfolding alcanza_objetivo sumarizar_pokemones
  cumplio_objetivo e =
      let sumados = sumarizar_pokemones igual sin_iniciar e.pokemones in
      (alcanza_objetivo igual sumados e.objetivo, record e { pokemones = sumados })

module _ (igual : List ℕ → List ℕ → Bool) where
  unfoldable pub localized_valido : Localized → List (List ℕ) → List PokemonTeam → Bool
  unfolding esta_en_objetivos_globales fue_recibido
  localized_valido mensaje recibidos objetivo_global =
      esta_en_objetivos_globales igual mensaje.pokemon.nombre objetivo_global
      && not (fue_recibido igual mensaje.pokemon.nombre recibidos)

  -- The entries of one list of which there are more than in the other: the loop of
  -- `pokemones_de_mas` and, with the lists swapped, of `objetivos_pendientes`.
  unfoldable pub excedentes : List PokemonTeam → List PokemonTeam → List PokemonTeam
  unfolding get_cantidad_by_nombre_pokemon
  excedentes otros [] = []
  excedentes otros (p ∷ ps) =
      let resto = excedentes otros ps in
      if ltb (get_cantidad_by_nombre_pokemon igual p.nombre.texto otros) p.cantidad
      then p ∷ resto
      else resto

  unfoldable pub pokemones_de_mas : Entrenador → List PokemonTeam
  unfolding excedentes
  pokemones_de_mas e = excedentes e.objetivo e.pokemones

  unfoldable pub objetivos_pendientes : Entrenador → List PokemonTeam
  unfolding excedentes
  objetivos_pendientes e = excedentes e.pokemones e.objetivo

  -- The loop of the two functions below: the first of the goals that is in a list.
  unfoldable pub primero_que_esta : List PokemonTeam → List PokemonTeam → Option PokemonTeam
  unfolding get_pokemon_by_nombre o_sino
  primero_que_esta pokemones [] = none
  primero_que_esta pokemones (o ∷ os) =
      o_sino (get_pokemon_by_nombre igual o.nombre.texto pokemones) (primero_que_esta pokemones os)

  unfoldable pub pokemon_que_sirve : Entrenador → Entrenador → Option PokemonTeam
  unfolding primero_que_esta
  pokemon_que_sirve e1 e2 = primero_que_esta e2.pokemones e1.objetivo

  unfoldable pub pokemon_que_sirve_intercambio : Entrenador → Entrenador → Option PokemonTeam
  unfolding primero_que_esta pokemones_de_mas
  pokemon_que_sirve_intercambio e1 e2 = primero_que_esta (pokemones_de_mas e2) e1.objetivo

  -- The inner loop of `filtrar_localized_repetidos`.
  unfoldable pub ya_filtrado : Localized → List Localized → Bool
  ya_filtrado mensaje [] = false
  ya_filtrado mensaje (f ∷ fs) =
      let resto = ya_filtrado mensaje fs in
      if igual f.pokemon.nombre mensaje.pokemon.nombre then true else resto

  unfoldable pub filtrar_localized_en : List Localized → List Localized → List Localized
  unfolding ya_filtrado
  filtrar_localized_en filtrados [] = filtrados
  filtrar_localized_en filtrados (m ∷ ms) =
      filtrar_localized_en (if ya_filtrado m filtrados then filtrados else filtrados ++ (m ∷ [])) ms

  unfoldable pub filtrar_localized_repetidos : List Localized → List Localized
  unfolding filtrar_localized_en
  filtrar_localized_repetidos mensajes = filtrar_localized_en [] mensajes

  unfoldable pub filtrar_localized_objetivo_global :
      List Localized → List PokemonTeam → List Localized
  unfolding esta_en_objetivos_globales
  filtrar_localized_objetivo_global [] objetivo_global = []
  filtrar_localized_objetivo_global (m ∷ ms) objetivo_global =
      let resto = filtrar_localized_objetivo_global ms objetivo_global in
      if esta_en_objetivos_globales igual m.pokemon.nombre objetivo_global then m ∷ resto else resto
