-- ===== src/Base/Predicados.antt =====
-- A predicate on every entry of a list, and on the value of a step that may fault.
use sistemas_operativos_utn.Base.Lists.{get_elem?, set, remove_at, insert_at}
use sistemas_operativos_utn.Base.Monad.{◌>>=◌}
use sistemas_operativos_utn.Base.Tests.{if◌then◌else◌}
use Prim.Native.Nat.{ℕ, zero, suc}
use mathlib.Core.Bool.{Bool, true, false}
use mathlib.Core.List.{List, [], ◌∷◌, ◌++◌}
use mathlib.Core.Option.{Option, none, some}

abbrev pub Todas {ℓ κ} : {A : Type ℓ} → (A → Type κ) → List A → Type κ
Todas P [] = Unit
Todas P (x ∷ xs) = P x × Todas P xs

pub Todas-map {ℓ κ ι} :
    {A : Type ℓ} (P : A → Type κ) (Q : A → Type ι) (xs : List A)
    → ((a : A) → P a → Q a)
    → Todas P xs
    → Todas Q xs
Todas-map P Q [] f h = tt
Todas-map P Q (x ∷ xs) f (h, hs) = (f x h, Todas-map P Q xs f hs)

-- The value of a step that may fault, if there is one.
abbrev pub Si {ℓ κ} : {A : Type ℓ} → (A → Type κ) → Option A → Type κ
Si P none = Unit
Si P (some a) = P a

pub sin_condicion {ℓ} : {A : Type ℓ} (m : Option A) → Si (λ (a : A). Unit {0}) m
sin_condicion none = tt
sin_condicion (some a) = tt

pub Si->>= {ℓ κ ι} :
    {A : Type ℓ} {B : Type ℓ} (P : A → Type κ) (Q : B → Type ι) (m : Option A) (f : A → Option B)
    → Si P m
    → ((a : A) → P a → Si Q (f a))
    → Si Q (m >>= f)
Si->>= P Q none f h k = tt
Si->>= P Q (some a) f h k = k a h

pub Si-if {ℓ κ} :
    {A : Type ℓ} (P : A → Type κ) (b : Bool) (x y : Option A)
    → Si P x
    → Si P y
    → Si P (if b then x else y)
Si-if P true x y h k = h
Si-if P false x y h k = k

module _ {ℓ κ} {A : Type ℓ} (P : A → Type κ) where
  pub Todas-get : (xs : List A) (i : ℕ) → Todas P xs → Si P (get_elem? xs i)
  Todas-get [] i h = tt
  Todas-get (x ∷ xs) zero h = h.0
  Todas-get (x ∷ xs) (suc i) h = Todas-get xs i h.1

  pub Todas-set : (xs : List A) (i : ℕ) (y : A) → Todas P xs → P y → Todas P (set xs i y)
  Todas-set [] i y h k = tt
  Todas-set (x ∷ xs) zero y h k = (k, h.1)
  Todas-set (x ∷ xs) (suc i) y h k = (h.0, Todas-set xs i y h.1 k)

  pub Todas-remove : (xs : List A) (i : ℕ) → Todas P xs → Todas P (remove_at xs i)
  Todas-remove [] i h = tt
  Todas-remove (x ∷ xs) zero h = h.1
  Todas-remove (x ∷ xs) (suc i) h = (h.0, Todas-remove xs i h.1)

  pub Todas-insert : (xs : List A) (i : ℕ) (y : A) → Todas P xs → P y → Todas P (insert_at xs i y)
  Todas-insert [] zero y h k = (k, tt)
  Todas-insert [] (suc i) y h k = tt
  Todas-insert (x ∷ xs) zero y h k = (k, h)
  Todas-insert (x ∷ xs) (suc i) y h k = (h.0, Todas-insert xs i y h.1 k)

  pub Todas-append : (xs ys : List A) → Todas P xs → Todas P ys → Todas P (xs ++ ys)
  Todas-append [] ys h k = k
  Todas-append (x ∷ xs) ys h k = (h.0, Todas-append xs ys h.1 k)
