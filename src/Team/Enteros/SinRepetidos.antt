-- ===== src/Team/Enteros/SinRepetidos.antt =====
-- team/src/pokemon_utils.c: what `list_eliminar_int_repetidos` leaves.
use sistemas_operativos_utn.Base.{
  ℕ, ◌+◌, ◌≡◌, refl, ap, true, false, ◌||◌, List, [], ◌∷◌, ◌++◌, ◌==◌, ◌≤◌, arith, if◌then◌else◌,
}
use sistemas_operativos_utn.Team.Enteros.{
  int_in_list, eliminar_repetidos_en, list_eliminar_int_repetidos,
}

-- How often a number stands in a list.
abbrev pub apariciones : ℕ → List ℕ → ℕ
apariciones e [] = 0
apariciones e (x ∷ xs) = (if e == x then 1 else 0) + apariciones e xs

apariciones-append :
    (e : ℕ) (xs ys : List ℕ) → apariciones e (xs ++ ys) ≡ apariciones e xs + apariciones e ys
apariciones-append e [] ys = omega arith
apariciones-append e (x ∷ xs) ys = ground (arith, apariciones-append e xs ys)

in_list-apariciones :
    (e : ℕ) (xs : List ℕ)
    → apariciones e xs ≤ 1
    → apariciones e xs ≡ (if int_in_list e xs then 1 else 0)
unfolding int_in_list
in_list-apariciones e [] h = refl
in_list-apariciones e (x ∷ xs) h = ground (arith, in_list-apariciones e xs)

int_in_list-append :
    (e : ℕ) (xs ys : List ℕ) → int_in_list e (xs ++ ys) ≡ (int_in_list e xs || int_in_list e ys)
unfolding int_in_list
int_in_list-append e [] ys = refl
int_in_list-append e (x ∷ xs) ys = ground (arith, int_in_list-append e xs ys)

int_in_list-uno : (e x : ℕ) → int_in_list e (x ∷ []) ≡ (e == x)
unfolding int_in_list
int_in_list-uno e x = ground arith

int_in_list-mismo : (e x : ℕ) (xs : List ℕ) → (e == x) ≡ true → int_in_list e xs ≡ int_in_list x xs
int_in_list-mismo e x xs h = ap (λ k. int_in_list k xs) (ground arith)

agregar-en :
    (e x : ℕ) (xs : List ℕ)
    → int_in_list e (if int_in_list x xs then xs else xs ++ (x ∷ []))
      ≡ (int_in_list e xs || (e == x))
agregar-en e x xs =
    ground (arith, int_in_list-append e xs (x ∷ []), int_in_list-uno e x, int_in_list-mismo e x xs)

eliminar_repetidos_en-esta :
    (e : ℕ) (new_list xs : List ℕ)
    → int_in_list e (eliminar_repetidos_en new_list xs)
      ≡ (int_in_list e new_list || int_in_list e xs)
unfolding eliminar_repetidos_en int_in_list
eliminar_repetidos_en-esta e n [] = ground arith
eliminar_repetidos_en-esta e n (x ∷ xs) = ground (
  arith,
  eliminar_repetidos_en-esta e (if int_in_list x n then n else n ++ (x ∷ [])) xs,
  agregar-en e x n,
)

agregar-una_vez :
    (e x : ℕ) (xs : List ℕ)
    → apariciones e xs ≤ 1
    → apariciones e (if int_in_list x xs then xs else xs ++ (x ∷ [])) ≤ 1
agregar-una_vez e x xs h =
    ground (
      arith,
      apariciones-append e xs (x ∷ []),
      in_list-apariciones e xs h,
      int_in_list-mismo e x xs,
    )

eliminar_repetidos_en-una_vez :
    (e : ℕ) (new_list xs : List ℕ)
    → apariciones e new_list ≤ 1
    → apariciones e (eliminar_repetidos_en new_list xs) ≤ 1
unfolding eliminar_repetidos_en
eliminar_repetidos_en-una_vez e n [] h = h
eliminar_repetidos_en-una_vez e n (x ∷ xs) h =
    eliminar_repetidos_en-una_vez e (if int_in_list x n then n else n ++ (x ∷ [])) xs
      (agregar-una_vez e x n h)

int_in_list-nada : (e : ℕ) → int_in_list e [] ≡ false
unfolding int_in_list
int_in_list-nada e = refl

-- A number stands in the list that `list_eliminar_int_repetidos` makes exactly once if it stands in
-- the list given, and not at all if it does not.
pub list_eliminar_int_repetidos-una_vez :
    (e : ℕ) (xs : List ℕ)
    → apariciones e (list_eliminar_int_repetidos xs) ≡ (if int_in_list e xs then 1 else 0)
unfolding list_eliminar_int_repetidos
list_eliminar_int_repetidos-una_vez e xs = ground (
  arith,
  in_list-apariciones e (eliminar_repetidos_en [] xs)
      (eliminar_repetidos_en-una_vez e [] xs (omega arith)),
  eliminar_repetidos_en-esta e [] xs,
  int_in_list-nada e,
)
