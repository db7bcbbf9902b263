-- ===== src/Broker/Tamanios.antt =====
-- Broker/src/Broker.c: the bytes that a message takes in the memory, `getSizeMensaje*`, and the
-- sums of the memory. `sizeof(int32_t)` is 4 and `sizeof(t_posicion)` 8.
use sistemas_operativos_utn.Base.{ℕ, ◌+◌, ◌-◌, ◌*◌, List, [], ◌∷◌, length, ◌==◌, if◌then◌else◌}
use sistemas_operativos_utn.Universo.{Pokemon, New, Localized, Get, Appeared, Catch, Caught}
use sistemas_operativos_utn.Particiones.Tabla.{Particion}

-- The final 0 of the name is not counted.
unfoldable pub get_size_pokemon : Pokemon → ℕ
get_size_pokemon pokemon = 4 + pokemon.size_nombre - 1

unfoldable pub get_size_mensaje_new : New → ℕ
unfolding get_size_pokemon
get_size_mensaje_new new = get_size_pokemon new.pokemon + 8 + 4

unfoldable pub get_size_mensaje_localized : Localized → ℕ
unfolding get_size_pokemon
get_size_mensaje_localized localized =
    let cantidad = length localized.lista_posiciones in
    get_size_pokemon localized.pokemon + 4 + (if cantidad == 0 then 0 else 8 * cantidad)

unfoldable pub get_size_mensaje_get : Get → ℕ
unfolding get_size_pokemon
get_size_mensaje_get get = get_size_pokemon get.pokemon

unfoldable pub get_size_mensaje_appeared : Appeared → ℕ
unfolding get_size_pokemon
get_size_mensaje_appeared appeared = get_size_pokemon appeared.pokemon + 8

unfoldable pub get_size_mensaje_catch : Catch → ℕ
unfolding get_size_pokemon
get_size_mensaje_catch catch = get_size_pokemon catch.pokemon + 8

-- The operand of `sizeof` is itself a `sizeof`: the size of a `size_t`, a parameter.
unfoldable pub get_size_mensaje_caught : ℕ → Caught → ℕ
get_size_mensaje_caught sizeof_size_t caught = sizeof_size_t

-- The sum is over all the partitions, also the free ones.
unfoldable pub get_memoria_ocupada : List Particion → ℕ
get_memoria_ocupada [] = 0
get_memoria_ocupada (p ∷ ps) = p.size + get_memoria_ocupada ps

unfoldable pub get_memoria_disponible : ℕ → List Particion → ℕ
unfolding get_memoria_ocupada
get_memoria_disponible size_memoria tabla = size_memoria - get_memoria_ocupada tabla
