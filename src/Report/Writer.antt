-- ===== src/Report/Writer.antt =====
-- What the writers of src/report.rs use of `std::io::Write`.
use pprof_rs.Prelude.{Option, none, some, List, [], ◌∷◌, ◌≡◌, refl, ◌∙◌, ◌++◌}
use mathlib.Core.List.{append-nil, append_assoc}
use pprof_rs.Frames.{Text}

-- `write!` with the text that its format comes to: the writer after it, and the error if it fails.
pub record Writer (W E : Type 0) : Type 0 where
  pub write_fmt : W → Text → W × Option E

-- `?`: what follows is not run after an error.
infixl 5 ◌and_then◌
abbrev pub ◌and_then◌ : {W E : Type 0} → W × Option E → (W → W × Option E) → W × Option E
(w, none) and_then f = f w
(w, some e) and_then f = (w, some e)

module _ {W E : Type 0} where
  pub and_then_assoc :
      (r : W × Option E) (f g : W → W × Option E)
      → (r and_then f and_then g) ≡ (r and_then λ w. f w and_then g)
  and_then_assoc (w, none) f g = refl
  and_then_assoc (w, some e) f g = refl

  pub and_then_none : (r : W × Option E) → (r and_then λ w. (w, none)) ≡ r
  and_then_none (w, none) = refl
  and_then_none (w, some e) = refl

  pub and_then_cong :
      (r : W × Option E) (f g : W → W × Option E)
      → ((w : W) → f w ≡ g w)
      → (r and_then f) ≡ (r and_then g)
  and_then_cong (w, none) f g h = h w
  and_then_cong (w, some e) f g h = refl

module _ {W E : Type 0} (writer : Writer W E) where
  -- Some texts are written in turn, up to the first that fails.
  unfoldable pub write_each : List Text → W → W × Option E
  write_each [] w = (w, none)
  write_each (t ∷ ts) w = writer.write_fmt w t and_then λ w'. write_each ts w'

  -- Writing two lists of texts one after the other is writing them joined.
  pub write_each-append :
      (ts us : List Text) (w : W)
      → (write_each ts w and_then λ w'. write_each us w') ≡ write_each (ts ++ us) w
  unfolding write_each
  write_each-append [] us w = refl
  write_each-append (t ∷ ts) us w =
      and_then_assoc (writer.write_fmt w t) _ _
      ∙ and_then_cong (writer.write_fmt w t) _ _ (write_each-append ts us)

abbrev pub concat : List Text → Text
concat [] = []
concat (t ∷ ts) = t ++ concat ts

-- A vector takes every text.
abbrev pub vector : {E : Type 0} → Writer Text E
vector = record { write_fmt = λ w t. (w ++ t, none) }

pub write_each-vector :
    {E : Type 0} (ts : List Text) (w : Text)
    → write_each (vector {E = E}) ts w ≡ (w ++ concat ts, none)
unfolding write_each
write_each-vector [] w = rw append-nil refl
write_each-vector (t ∷ ts) w = write_each-vector ts (w ++ t) ∙ rw append_assoc refl
