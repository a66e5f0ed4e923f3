-- ===== src/Prelude/Effects.antt =====
-- What a call comes to, and what a loop over an iterator sees.
use Prim.Native.Nat.{ℕ, zero, suc, ◌<◌}
use mathlib.Core.Path.{◌≡◌}
use mathlib.Core.List.{List, [], ◌∷◌}
use mathlib.Core.Option.{Option, none, some}
use native.Mathlib.Omega.{arith}
use pprof_rs.Prelude.Lists.{length}

-- A value, a panic, or a loop that its fuel does not cover.
pub data Outcome {ℓ} (A : Type ℓ) : Type ℓ where
  done : A → Outcome A
  panic out_of_fuel : Outcome A

infixl 5 ◌>>=◌
abbrev pub ◌>>=◌ {ℓ κ} : {A : Type ℓ} {B : Type κ} → Outcome A → (A → Outcome B) → Outcome B
done a >>= f = f a
panic >>= f = panic
out_of_fuel >>= f = out_of_fuel

-- The call ends with a value that has the property.
abbrev pub Returns {ℓ κ} : {A : Type ℓ} → Outcome A → (A → Type κ) → Type (ℓ ⊔ κ)
Returns {A} m P = (a : A) × (m ≡ done a) × P a

-- Rust's `Result`, the error first.
pub data Result {ℓ κ} (E : Type ℓ) (A : Type κ) : Type (ℓ ⊔ κ) where
  ok : A → Result E A
  err : E → Result E A

module _ {ℓ κ} {S : Type κ} {A : Type ℓ} (next : S → Outcome (Option (A × S))) where
  -- All that an iterator yields, in order.
  unfoldable pub drain : ℕ → S → Outcome (List A)
  drain zero s = out_of_fuel
  drain (suc fuel) s = next s >>= λ o. elim o [
    | none ↦ done []
    | some (a, s') ↦ drain fuel s' >>= λ rest. done (a ∷ rest)
  ]

  -- `next` yields the items of the list in turn, and then nothing.
  pub data Yields : S → List A → Type (ℓ ⊔ κ) where
    end : {s : S} → next s ≡ done none → Yields s []
    item :
        {s : S} {a : A} {s' : S} {rest : List A}
        → next s ≡ done (some (a, s'))
        → Yields s' rest
        → Yields s (a ∷ rest)

  pub drain-Yields :
      (fuel : ℕ) {s : S} {l : List A} → Yields s l → length l < fuel → drain fuel s ≡ done l
  unfolding drain
  drain-Yields zero y h = absurd (omega arith)
  drain-Yields (suc fuel) (end e) h = rw e
  drain-Yields (suc fuel) (item e y) h = rw (e, drain-Yields fuel y (omega arith))
