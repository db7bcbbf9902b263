-- ===== src/Base/Lists.antt =====
-- Lists measured and indexed by native numbers: the operations of a `t_list` (`list_get`,
-- `list_add_in_index`, `list_remove`) as the program uses them, with an index in range.
use Prim.Native.Nat.{ℕ, zero, suc, ◌+◌}
use mathlib.Core.Path.{◌≡◌, ap}
use mathlib.Core.List.{List, [], ◌∷◌, ◌++◌}
use mathlib.Core.Option.{Option, none, some}
use native.Mathlib.Omega.{arith}

module _ {ℓ} {A : Type ℓ} where
  abbrev pub length : List A → ℕ
  length [] = 0
  length (x ∷ xs) = suc (length xs)

  abbrev pub get_elem? : List A → ℕ → Option A
  get_elem? [] i = none
  get_elem? (x ∷ xs) zero = some x
  get_elem? (x ∷ xs) (suc i) = get_elem? xs i

  -- A write through a pointer to the element at an index.
  abbrev pub set : List A → ℕ → A → List A
  set [] i v = []
  set (x ∷ xs) zero v = v ∷ xs
  set (x ∷ xs) (suc i) v = x ∷ set xs i v

  abbrev pub remove_at : List A → ℕ → List A
  remove_at [] i = []
  remove_at (x ∷ xs) zero = xs
  remove_at (x ∷ xs) (suc i) = x ∷ remove_at xs i

  abbrev pub insert_at : List A → ℕ → A → List A
  insert_at xs zero v = v ∷ xs
  insert_at [] (suc i) v = []
  insert_at (x ∷ xs) (suc i) v = x ∷ insert_at xs i v

  pub length-append : (xs ys : List A) → length (xs ++ ys) ≡ length xs + length ys
  length-append [] ys = omega arith
  length-append (x ∷ xs) ys = omega (arith, length-append xs ys)

-- What the operations do behind a prefix.
module _ {ℓ} {A : Type ℓ} where
  pub get_elem?-append :
      (xs ys : List A) (i k : ℕ) → i ≡ length xs + k → get_elem? (xs ++ ys) i ≡ get_elem? ys k
  get_elem?-append [] ys i k e = ap (get_elem? ys) (omega arith)
  get_elem?-append (x ∷ xs) ys zero k e = absurd (omega arith)
  get_elem?-append (x ∷ xs) ys (suc i) k e = get_elem?-append xs ys i k (omega arith)

  pub set-append :
      (xs ys : List A) (i k : ℕ) (v : A) → i ≡ length xs + k → set (xs ++ ys) i v ≡ xs ++ set ys k v
  set-append [] ys i k v e = ap (λ j. set ys j v) (omega arith)
  set-append (x ∷ xs) ys zero k v e = absurd (omega arith)
  set-append (x ∷ xs) ys (suc i) k v e = ap (◌∷◌ x) (set-append xs ys i k v (omega arith))

  pub remove_at-append :
      (xs ys : List A) (i k : ℕ) → i ≡ length xs + k → remove_at (xs ++ ys) i ≡ xs ++ remove_at ys k
  remove_at-append [] ys i k e = ap (remove_at ys) (omega arith)
  remove_at-append (x ∷ xs) ys zero k e = absurd (omega arith)
  remove_at-append (x ∷ xs) ys (suc i) k e = ap (◌∷◌ x) (remove_at-append xs ys i k (omega arith))

  pub insert_at-append :
      (xs ys : List A) (i k : ℕ) (v : A)
      → i ≡ length xs + k
      → insert_at (xs ++ ys) i v ≡ xs ++ insert_at ys k v
  insert_at-append [] ys i k v e = ap (λ j. insert_at ys j v) (omega arith)
  insert_at-append (x ∷ xs) ys zero k v e = absurd (omega arith)
  insert_at-append (x ∷ xs) ys (suc i) k v e =
      ap (◌∷◌ x) (insert_at-append xs ys i k v (omega arith))
