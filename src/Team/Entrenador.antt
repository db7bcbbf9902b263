-- ===== src/Team/Entrenador.antt =====
-- team/src/team.h: the data of the Team.
--
-- A `char*` is an address with the bytes that it leads to, since utils.c compares both: the texts
-- by `string_equals_ignore_case`, the pointers by `==`.
use sistemas_operativos_utn.Base.{ℕ, Bool, Option, List, ◌≡◌, true}
use sistemas_operativos_utn.Universo.{Posicion}

pub record Cadena : Type 0 where
  pub direccion : ℕ
  pub texto : List ℕ

-- What the documentation of the commons says of `string_equals_ignore_case`: two texts are the
-- same but for the case of their letters.
pub record EsIgualdad (igual : List ℕ → List ℕ → Bool) : Type 0 where
  pub reflexiva : (a : List ℕ) → igual a a ≡ true
  pub simetrica : (a b : List ℕ) → igual a b ≡ true → igual b a ≡ true
  pub transitiva : (a b c : List ℕ) → igual a b ≡ true → igual b c ≡ true → igual a c ≡ true

-- `t_pokemon_team`.
pub record PokemonTeam : Type 0 where
  pub nombre : Cadena
  pub cantidad : ℕ
  pub posicion : Posicion
  pub planificable : Bool

-- `estado_code`.
pub data EstadoCode : Type 0 where
  new ready blocked exec exit : EstadoCode

-- `t_entrenador`, without its semaphore.
pub record Entrenador : Type 0 where
  pub posicion : Posicion
  pub pokemon_destino : Option PokemonTeam
  pub pokemones : List PokemonTeam
  pub objetivo : List PokemonTeam
  pub estado : EstadoCode
  pub id : ℕ
  pub ocupado : Bool
  pub estimacion_anterior : ℕ
  pub cantidad_ejecutada : ℕ
  pub estimacion : ℕ
  pub ciclos : ℕ
