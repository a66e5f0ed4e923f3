-- ===== src/Pprof/Functions.antt =====
-- src/report.rs, lines 469-512, and src/alloc.rs, lines 429-474: the tables of functions and
-- locations, and an independent reader that finds the name of a location's function.
use pprof_rs.Prelude.{
  ℕ, ◌<◌, ◌≤◌, ◌≡◌, Option, none, some, List, [], ◌∷◌, ◌++◌, arith, if◌then◌else◌, ◌==◌, get_elem?,
  All, Option-cases, inl, inr, list_equality,
}
use pprof_rs.Frames.{Text}
use pprof_rs.Proto.{Line, Location, Function}

unfoldable pub find_function : ℕ → List Function → Option Function
find_function id [] = none
find_function id (f ∷ fs) = if f.id == id then some f else find_function id fs

unfoldable pub find_location : ℕ → List Location → Option Location
find_location id [] = none
find_location id (l ∷ ls) = if l.id == id then some l else find_location id ls

module _ (table : List Text) (fns : List Function) where
  abbrev pub name_text : Option Function → Option Text
  name_text none = none
  name_text (some f) = get_elem? table f.name

  abbrev pub line_text : List Line → Option Text
  line_text [] = none
  line_text (l ∷ ls) = name_text (find_function l.function_id fns)

  abbrev pub location_text : Option Location → Option Text
  location_text none = none
  location_text (some l) = line_text l.line

-- The name of the function of a location, by the tables of a profile.
unfoldable pub location_name : List Text → List Function → List Location → ℕ → Option Text
location_name table fns locs id = location_text table fns (find_location id locs)

find_function-append :
    (id : ℕ) (f : Function) (xs ys : List Function)
    → find_function id xs ≡ some f
    → find_function id (xs ++ ys) ≡ some f
unfolding find_function
find_function-append id f [] ys h = absurd (cc h)
find_function-append id f (x ∷ xs) ys h = ground (arith, find_function-append id f xs ys)

find_location-append :
    (id : ℕ) (l : Location) (xs ys : List Location)
    → find_location id xs ≡ some l
    → find_location id (xs ++ ys) ≡ some l
unfolding find_location
find_location-append id l [] ys h = absurd (cc h)
find_location-append id l (x ∷ xs) ys h = ground (arith, find_location-append id l xs ys)

pub find_function-last :
    (f : Function) (xs : List Function) (n : ℕ)
    → All (λ g. g.id ≤ n) xs
    → n < f.id
    → find_function f.id (xs ++ f ∷ []) ≡ some f
unfolding find_function
find_function-last f [] n all h = ground arith
find_function-last f (x ∷ xs) n all h = ground (arith, find_function-last f xs n all.1 h)

pub find_location-last :
    (l : Location) (xs : List Location) (n : ℕ)
    → All (λ g. g.id ≤ n) xs
    → n < l.id
    → find_location l.id (xs ++ l ∷ []) ≡ some l
unfolding find_location
find_location-last l [] n all h = ground arith
find_location-last l (x ∷ xs) n all h = ground (arith, find_location-last l xs n all.1 h)

module _ (table : List Text) (fns more : List Function) where
  name_text-append :
      (id : ℕ) (t : Text)
      → name_text table fns (find_function id fns) ≡ some t
      → name_text table (fns ++ more) (find_function id (fns ++ more)) ≡ some t
  name_text-append id t h = elim (Option-cases (find_function id fns)) [
    | inl missing ↦ absurd (cc (rw missing at h))
    | inr (f, found) ↦ rw (find_function-append id f fns more found) (rw found at h)
  ]

  line_text-append :
      (ls : List Line) (t : Text)
      → line_text table fns ls ≡ some t
      → line_text table (fns ++ more) ls ≡ some t
  line_text-append [] t h = absurd (cc h)
  line_text-append (l ∷ ls) t h = name_text-append l.function_id t h

  -- What a location's name is stays so when the tables grow.
  pub location_name-append :
      (locs later : List Location) (id : ℕ) (t : Text)
      → location_name table fns locs id ≡ some t
      → location_name table (fns ++ more) (locs ++ later) id ≡ some t
  unfolding location_name
  location_name-append locs later id t h = elim (Option-cases (find_location id locs)) [
    | inl missing ↦ absurd (cc (rw missing at h))
    | inr (l, found) ↦
        rw (find_location-append id l locs later found) (line_text-append l.line t (rw found at h))
  ]
