-- ===== src/Team/Cercania.antt =====
-- team/src/utils.c: the nearest trainer that is free to go, and the nearest pokemon that is needed.
pub mod Minimo
use sistemas_operativos_utn.Base.{
  ℕ, ◌+◌, ◌-◌, Bool, true, false, not, ◌&&◌, Option, none, some, List, [], ◌∷◌, ltb, if◌then◌else◌,
}
use sistemas_operativos_utn.Universo.{Posicion}
use sistemas_operativos_utn.Team.Entrenador.{
  PokemonTeam, EstadoCode, new, ready, blocked, exec, exit, Entrenador,
}
use sistemas_operativos_utn.Team.Pokemones.{puede_capturar_pokemones}
use sistemas_operativos_utn.Team.Objetivos.{pokemon_necesario}

-- `abs(b - a)`; one of the two differences is 0.
abbrev pub distancia : ℕ → ℕ → ℕ
distancia a b = (b - a) + (a - b)

unfoldable pub get_distancia_entre_puntos : Posicion → Posicion → ℕ
get_distancia_entre_puntos pos1 pos2 = distancia pos1.x pos2.x + distancia pos1.y pos2.y

unfoldable pub espera : EstadoCode → Bool
espera blocked = true
espera new = true
espera ready = false
espera exec = false
espera exit = false

unfoldable pub es_planificable : Entrenador → Bool
unfolding espera puede_capturar_pokemones
es_planificable e = espera e.estado && not e.ocupado && puede_capturar_pokemones e

-- The body of both loops, for an entry that may be chosen. The distance -1, for nothing found, is
-- `none`.
unfoldable pub acercar {ℓ} : {A : Type ℓ} → ℕ → A → Option (ℕ × A) → Option (ℕ × A)
acercar d a none = some (d, a)
acercar d a (some (menor, b)) = if ltb d menor then some (d, a) else some (menor, b)

unfoldable pub mas_cercano_desde {ℓ} :
    {A : Type ℓ} → (A → Bool) → (A → ℕ) → Option (ℕ × A) → List A → Option (ℕ × A)
unfolding acercar
mas_cercano_desde sirve lejos hallado [] = hallado
mas_cercano_desde sirve lejos hallado (a ∷ as') =
    mas_cercano_desde sirve lejos (if sirve a then acercar (lejos a) a hallado else hallado) as'

unfoldable pub sin_distancia {ℓ} : {A : Type ℓ} → Option (ℕ × A) → Option A
sin_distancia none = none
sin_distancia (some (d, a)) = some a

unfoldable pub get_entrenador_planificable_mas_cercano :
    List Entrenador → Posicion → Option Entrenador
unfolding mas_cercano_desde sin_distancia es_planificable get_distancia_entre_puntos
get_entrenador_planificable_mas_cercano entrenadores posicion_pokemon = sin_distancia (
    mas_cercano_desde es_planificable (λ e. get_distancia_entre_puntos e.posicion posicion_pokemon)
      none entrenadores)

module _ (igual : List ℕ → List ℕ → Bool) (sin_iniciar : PokemonTeam)
    (entrenadores : List Entrenador) (objetivo_global : List PokemonTeam) where
  unfoldable pub se_busca : PokemonTeam → Bool
  unfolding pokemon_necesario
  se_busca p = pokemon_necesario igual sin_iniciar entrenadores objetivo_global p && p.planificable

  unfoldable pub get_pokemon_necesario_mas_cercano :
      List PokemonTeam → Posicion → Option PokemonTeam
  unfolding mas_cercano_desde sin_distancia se_busca get_distancia_entre_puntos
  get_pokemon_necesario_mas_cercano ubicados posicion_entrenador = sin_distancia (
      mas_cercano_desde se_busca (λ p. get_distancia_entre_puntos posicion_entrenador p.posicion)
        none ubicados)
