-- ===== src/Frames/Resolved.antt =====
-- src/frames.rs, lines 170-190: `Eq` and `Hash` of `Frames`, as they are derived, with symbols compared
-- by their raw names.
use mathlib.Core.List.{flatten}
use pprof_rs.Prelude.{
  ℕ, ◌≡◌, refl, sym, ◌∙◌, ◌↔◌, Bool, true, false, ◌&&◌, List, [], ◌∷◌, ◌++◌, map, ◌==◌, ==_iff,
  length, arith,
}
use pprof_rs.Key.{Key, decides_refl, decides_symm, decides_trans}
use pprof_rs.Frames.{Frames, Resolver, Text, raw_name}

-- The part of a value that `==` looks at.
abbrev pub raw_names : Frames → List (List Text)
raw_names f = map (map raw_name) f.frames

unfoldable pub list_eq : {A : Type 0} → (A → A → Bool) → List A → List A → Bool
list_eq eq_item [] [] = true
list_eq eq_item [] (y ∷ ys) = false
list_eq eq_item (x ∷ xs) [] = false
list_eq eq_item (x ∷ xs) (y ∷ ys) = eq_item x y && list_eq eq_item xs ys

pub list_eq_iff :
    {A : Type 0} (eq_item : A → A → Bool)
    → ((a b : A) → (eq_item a b ≡ true) ↔ (a ≡ b))
    → (xs ys : List A) → (list_eq eq_item xs ys ≡ true) ↔ (xs ≡ ys)
unfolding list_eq
list_eq_iff eq_item h [] [] = (λ e. refl, λ e. refl)
list_eq_iff eq_item h [] (y ∷ ys) = (λ e. cc, λ e. cc)
list_eq_iff eq_item h (x ∷ xs) [] = (λ e. cc, λ e. cc)
list_eq_iff eq_item h (x ∷ xs) (y ∷ ys) =
    let (to, back) = list_eq_iff eq_item h xs ys in
    (λ e. ground (arith, (h x y).0, to), λ e. ground (arith, (h x y).1, back))

-- `Frames::eq`
unfoldable pub frames_eq : Frames → Frames → Bool
unfolding list_eq
frames_eq a b =
    list_eq (list_eq (list_eq ◌==◌)) (raw_names a) (raw_names b)
    && (list_eq ◌==◌ a.thread_name b.thread_name
        && ((a.thread_id == b.thread_id) && (a.sample_timestamp == b.sample_timestamp)))

-- Two values are equal if they agree in everything that is compared.
abbrev pub SameFrames : Frames → Frames → Type 0
SameFrames a b =
    (raw_names a ≡ raw_names b)
    × (a.thread_name ≡ b.thread_name)
    × (a.thread_id ≡ b.thread_id)
    × (a.sample_timestamp ≡ b.sample_timestamp)

text_list_eq_iff : (xs ys : Text) → (list_eq ◌==◌ xs ys ≡ true) ↔ (xs ≡ ys)
text_list_eq_iff = list_eq_iff ◌==◌ ==_iff

-- Two converted stacks are equal just if the raw names of their symbols, their thread names,
-- thread numbers and time stamps are.
pub frames_eq-SameFrames : (a b : Frames) → (frames_eq a b ≡ true) ↔ SameFrames a b
unfolding frames_eq
frames_eq-SameFrames a b =
    let names =
      list_eq_iff (list_eq (list_eq ◌==◌)) (list_eq_iff (list_eq ◌==◌) text_list_eq_iff)
        (raw_names a) (raw_names b) in
    let thread = text_list_eq_iff a.thread_name b.thread_name in
    (λ e. ground (arith, names.0, thread.0), λ e. ground (arith, names.1 e.0, thread.1 e.1))

-- The words that `Frames::hash` writes: each vector behind its length.
unfoldable pub words : List (List Text) → Text → ℕ → ℕ → List ℕ
words names thread_name thread_id sample_timestamp =
    length names ∷ flatten (map (λ ss. length ss ∷ flatten (map (λ s. length s ∷ s) ss)) names)
    ++ (thread_name ++ 0xff ∷ thread_id ∷ sample_timestamp ∷ [])

module _ {Frame : Type 0} (env : Resolver Frame) where
  -- `Frames::hash`
  unfoldable pub frames_hash : Frames → ℕ
  frames_hash f = env.hasher (words (raw_names f) f.thread_name f.thread_id f.sample_timestamp)

  -- Converted stacks that are equal hash alike.
  pub frames_hash_congr : (a b : Frames) → frames_eq a b ≡ true → frames_hash a ≡ frames_hash b
  unfolding frames_hash
  frames_hash_congr a b h =
      let (names, thread, id, time) = (frames_eq-SameFrames a b).0 h in
      λ i. env.hasher (words (names i) (thread i) (id i) (time i))

  pub frames_refl : (a : Frames) → frames_eq a a ≡ true
  frames_refl =
      decides_refl frames_eq SameFrames frames_eq-SameFrames (λ a. (refl, refl, refl, refl))

  pub frames_symm : (a b : Frames) → frames_eq a b ≡ frames_eq b a
  frames_symm =
      decides_symm frames_eq SameFrames frames_eq-SameFrames
        (λ a b s. (sym s.0, sym s.1, sym s.2, sym s.3))

  pub frames_trans :
      (a b c : Frames) → frames_eq a b ≡ true → frames_eq b c ≡ true → frames_eq a c ≡ true
  frames_trans =
      decides_trans frames_eq SameFrames frames_eq-SameFrames
        (λ a b c s t. (s.0 ∙ t.0, s.1 ∙ t.1, s.2 ∙ t.2, s.3 ∙ t.3))

  -- The keys of a report.
  abbrev pub resolved_key : Key Frames
  resolved_key = record {
    eq = frames_eq;
    hash = frames_hash;
    eq_refl = frames_refl;
    eq_symm = frames_symm;
    eq_trans = frames_trans;
    eq-hash = frames_hash_congr;
  }
