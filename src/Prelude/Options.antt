-- ===== src/Prelude/Options.antt =====
-- Options as results of calls that may yield nothing.
use mathlib.Core.Option.{Option, none, some}

infixl 5 ◌>>=◌
-- `?` on an `Option`
abbrev pub ◌>>=◌ {ℓ κ} : {A : Type ℓ} {B : Type κ} → Option A → (A → Option B) → Option B
none >>= f = none
some a >>= f = f a
