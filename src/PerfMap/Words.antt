-- ===== src/PerfMap/Words.antt =====
-- `split_whitespace` and `join` of src/perfmap.rs: words that are joined come apart again.
use pprof_rs.Prelude.{◌≡◌, refl, ap, ◌∙◌, false, List, [], ◌∷◌, ◌++◌, All}
use pprof_rs.Frames.{Text}
use pprof_rs.PerfMap.{is_whitespace, pieces, drop_empty, split_whitespace, join}

-- Not empty, and without white space.
abbrev pub IsWord : Text → Type 0
IsWord [] = ⊥
IsWord (c ∷ cs) = All (λ d. is_whitespace d ≡ false) (c ∷ cs)

pieces_solid : (t : Text) → All (λ d. is_whitespace d ≡ false) t → pieces t ≡ t ∷ []
unfolding pieces
pieces_solid [] h = refl
pieces_solid (c ∷ cs) h = rw (h.0, pieces_solid cs h.1) refl

pieces-append :
    (t rest : Text)
    → All (λ d. is_whitespace d ≡ false) t
    → pieces (t ++ 32 ∷ rest) ≡ t ∷ pieces rest
unfolding pieces is_whitespace
pieces-append [] rest h = refl
pieces-append (c ∷ cs) rest h = rw (h.0, pieces-append cs rest h.1) refl

word_solid : (t : Text) → IsWord t → All (λ d. is_whitespace d ≡ false) t
word_solid [] h = absurd h
word_solid (c ∷ cs) h = h

drop_empty_word : (t : Text) (ts : List Text) → IsWord t → drop_empty (t ∷ ts) ≡ t ∷ drop_empty ts
drop_empty_word [] ts h = absurd h
drop_empty_word (c ∷ cs) ts h = refl

split_word : (t : Text) → IsWord t → split_whitespace t ≡ t ∷ []
unfolding split_whitespace
split_word t h = rw (pieces_solid t (word_solid t h), drop_empty_word t [] h) refl

pub split-append :
    (t rest : Text) → IsWord t → split_whitespace (t ++ 32 ∷ rest) ≡ t ∷ split_whitespace rest
unfolding split_whitespace
split-append t rest h =
    rw (pieces-append t rest (word_solid t h), drop_empty_word t (pieces rest) h) refl

pub split-join : (ts : List Text) → All IsWord ts → split_whitespace (join ts) ≡ ts
unfolding join split_whitespace pieces
split-join [] h = refl
split-join (t ∷ []) h = split_word t h.0
split-join (t ∷ u ∷ ts) h =
    split-append t (join (u ∷ ts)) h.0 ∙ ap (λ r. t ∷ r) (split-join (u ∷ ts) h.1)
