-- ===== src/Report/Folded/Split.antt =====
-- Splitting a text at a separator, for the reader of what src/report.rs writes.
use pprof_rs.Prelude.{
  ℕ, ◌≡◌, refl, ap, false, Option, none, some, List, [], ◌∷◌, ◌++◌, if◌then◌else◌, ◌==◌, All, arith,
}
use pprof_rs.Frames.{Text}

-- The text has none of the separators.
abbrev pub Free : ℕ → Text → Type 0
Free sep = All (λ c. (c == sep) ≡ false)

abbrev onto_first : ℕ → List Text → List Text
onto_first c [] = []
onto_first c (t ∷ ts) = (c ∷ t) ∷ ts

-- The pieces between separators; there is one at least.
unfoldable pub split : ℕ → Text → List Text
split sep [] = [] ∷ []
split sep (c ∷ cs) = if c == sep then [] ∷ split sep cs else onto_first c (split sep cs)

pub split-Free : (sep : ℕ) (t : Text) → Free sep t → split sep t ≡ t ∷ []
unfolding split
split-Free sep [] h = refl
split-Free sep (c ∷ cs) h = rw (h.0, split-Free sep cs h.1) refl

pub split-append :
    (sep : ℕ) (t rest : Text) → Free sep t → split sep (t ++ sep ∷ rest) ≡ t ∷ split sep rest
unfolding split
split-append sep [] rest h = ground arith
split-append sep (c ∷ cs) rest h = rw (h.0, split-append sep cs rest h.1) refl

abbrev put_back : ℕ → ℕ → Text → Option (Text × Text) → Option (Text × Text)
put_back sep c cs none = if c == sep then some ([], cs) else none
put_back sep c cs (some (a, b)) = some (c ∷ a, b)

-- The two sides of the last separator.
unfoldable pub split_last : ℕ → Text → Option (Text × Text)
split_last sep [] = none
split_last sep (c ∷ cs) = put_back sep c cs (split_last sep cs)

split_last-Free : (sep : ℕ) (t : Text) → Free sep t → split_last sep t ≡ none
unfolding split_last
split_last-Free sep [] h = refl
split_last-Free sep (c ∷ cs) h = rw (split_last-Free sep cs h.1, h.0) refl

pub split_last-append :
    (sep : ℕ) (t rest : Text) → Free sep rest → split_last sep (t ++ sep ∷ rest) ≡ some (t, rest)
unfolding split_last
split_last-append sep [] rest h = rw (split_last-Free sep rest h) (ground arith)
split_last-append sep (c ∷ cs) rest h = rw (split_last-append sep cs rest h) refl

-- All but the last.
abbrev pub drop_last : List Text → List Text
drop_last [] = []
drop_last (t ∷ []) = []
drop_last (t ∷ u ∷ ts) = t ∷ drop_last (u ∷ ts)

pub drop_last-append : (ts : List Text) (t : Text) → drop_last (ts ++ t ∷ []) ≡ ts
drop_last-append [] t = refl
drop_last-append (u ∷ []) t = refl
drop_last-append (u ∷ v ∷ ts) t = ap (λ r. u ∷ r) (drop_last-append (v ∷ ts) t)
