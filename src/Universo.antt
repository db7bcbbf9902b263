-- ===== src/Universo.antt =====
-- OurLibraries/UniversoPokemon (universo.h, universo.c): the payloads of the messages and their
-- sizes on the wire.
--
-- An `int32_t` is the number that its 32 bits spell; `sizeof(int32_t)` is 4 and
-- `sizeof(t_posicion)` 8. The name of a pokemon is the bytes that its pointer leads to.
use sistemas_operativos_utn.Base.{ℕ, ◌+◌, ◌*◌, List, length, ◌==◌, if◌then◌else◌}

pub record Posicion : Type 0 where
  pub x : ℕ
  pub y : ℕ

pub record Pokemon : Type 0 where
  pub size_nombre : ℕ
  pub nombre : List ℕ

pub record New : Type 0 where
  pub pokemon : Pokemon
  pub posicion : Posicion
  pub cant : ℕ

pub record Localized : Type 0 where
  pub pokemon : Pokemon
  pub lista_posiciones : List Posicion

pub record Get : Type 0 where
  pub pokemon : Pokemon

pub record Appeared : Type 0 where
  pub pokemon : Pokemon
  pub posicion : Posicion

pub record Catch : Type 0 where
  pub pokemon : Pokemon
  pub posicion : Posicion

pub record Caught : Type 0 where
  pub fue_atrapado : ℕ

unfoldable pub tamanio_pokemon : Pokemon → ℕ
tamanio_pokemon p = p.size_nombre + 4

unfoldable pub tamanio_new : New → ℕ
tamanio_new n = n.pokemon.size_nombre + 4 + 8 + 4

unfoldable pub tamanio_localized : Localized → ℕ
unfolding tamanio_pokemon
tamanio_localized l =
    let cantidad = length l.lista_posiciones in
    tamanio_pokemon l.pokemon + 4 + (if cantidad == 0 then 0 else 8 * cantidad)

unfoldable pub tamanio_get : Get → ℕ
unfolding tamanio_pokemon
tamanio_get g = tamanio_pokemon g.pokemon

unfoldable pub tamanio_appeared : Appeared → ℕ
unfolding tamanio_pokemon
tamanio_appeared a = tamanio_pokemon a.pokemon + 8

unfoldable pub tamanio_catch : Catch → ℕ
unfolding tamanio_pokemon
tamanio_catch c = tamanio_pokemon c.pokemon + 8

unfoldable pub tamanio_caught : Caught → ℕ
tamanio_caught c = 4
