-- ===== src/Team/Enteros.antt =====
-- team/src/pokemon_utils.c: the lists of integers with which a deadlock is described.
pub mod SinRepetidos
use sistemas_operativos_utn.Base.{ℕ, Bool, true, false, List, [], ◌∷◌, ◌++◌, ◌==◌, if◌then◌else◌}

unfoldable pub int_in_list : ℕ → List ℕ → Bool
int_in_list elem [] = false
int_in_list elem (e ∷ es) = if elem == e then true else int_in_list elem es

-- The loop of `list_eliminar_int_repetidos`, with the new list.
unfoldable pub eliminar_repetidos_en : List ℕ → List ℕ → List ℕ
unfolding int_in_list
eliminar_repetidos_en new_list [] = new_list
eliminar_repetidos_en new_list (e ∷ es) =
    eliminar_repetidos_en (if int_in_list e new_list then new_list else new_list ++ (e ∷ [])) es

unfoldable pub list_eliminar_int_repetidos : List ℕ → List ℕ
unfolding eliminar_repetidos_en
list_eliminar_int_repetidos list = eliminar_repetidos_en [] list
