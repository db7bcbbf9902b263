-- ===== src/Base/Monad.antt =====
-- A chain of steps of which each may fault: `none` is the fault, as where C reads through NULL.
use mathlib.Core.Option.{Option, none, some}

infixl 5 ◌>>=◌
abbrev pub ◌>>=◌ {ℓ κ} : {A : Type ℓ} {B : Type κ} → Option A → (A → Option B) → Option B
none >>= f = none
some a >>= f = f a
