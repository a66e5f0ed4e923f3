-- ===== src/Session/Blocklist.antt =====
-- src/profiler.rs, lines 130-178: which addresses `blocklist` keeps out of stacks.
use pprof_rs.Prelude.{
  ℕ, ◌<◌, ◌≡◌, refl, ap, sym, ◌∙◌, ◌⊎◌, ◌↔◌, inl, inr, Bool, true, false, ◌||◌, Option, none, some,
  List, [], ◌∷◌, ◌++◌, if◌then◌else◌, Any, add64, Bool-cases, arith,
}
use mathlib.Core.List.{append_assoc, append-nil}
use pprof_rs.Frames.{Text}
use pprof_rs.Profiler.{segment_blocklisted}
use pprof_rs.Profiler.Control.{ProfilerGuardBuilder}
use pprof_rs.Session.{
  SharedLibrary, contains, starts_with, any_contained, is_library_blocked, push_segments,
  each_library, blocklist,
}

-- The address lies inside the segment, whose end wraps at the word.
abbrev pub IsInside : ℕ → ℕ × ℕ → Type 0
IsInside addr seg = (seg.0 < addr) × (addr < add64 seg.0 seg.1)

-- The pattern stands somewhere in the text.
abbrev pub Occurs : Text → Text → Type 0
Occurs pattern text = (before after : Text) × (text ≡ before ++ (pattern ++ after))

-- The library has a name that is valid text, in which a pattern occurs.
abbrev pub IsNamed : List Text → Option Text → Type 0
IsNamed patterns none = ⊥
IsNamed patterns (some name) = Any (λ pattern. Occurs pattern name) patterns

starts_with-append : (pattern after : Text) → starts_with (pattern ++ after) pattern ≡ true
unfolding starts_with
starts_with-append [] [] = refl
starts_with-append [] (c ∷ cs) = refl
starts_with-append (c ∷ cs) after = ground (arith, starts_with-append cs after)

starts_with_prefix :
    (text pattern : Text)
    → starts_with text pattern ≡ true
    → (after : Text) × (text ≡ pattern ++ after)
unfolding starts_with
starts_with_prefix text [] h = (text, refl)
starts_with_prefix [] (c ∷ cs) h = absurd (cc h)
starts_with_prefix (d ∷ ds) (c ∷ cs) h =
    let (after, e) = starts_with_prefix ds cs (ground arith) in
    let same : d ≡ c = ground arith in (after, rw (same, e) refl)

starts_with-contains :
    (text pattern : Text) → starts_with text pattern ≡ true → contains text pattern ≡ true
unfolding contains
starts_with-contains [] pattern h = h
starts_with-contains (c ∷ cs) pattern h = rw h refl

or_right : (a b : Bool) → b ≡ true → (a || b) ≡ true
or_right true b h = refl
or_right false b h = h

or_split : (a b : Bool) → (a || b) ≡ true → (a ≡ true) ⊎ (b ≡ true)
or_split true b h = inl refl
or_split false b h = inr h

contains-append :
    (before pattern after : Text) → contains (before ++ (pattern ++ after)) pattern ≡ true
unfolding contains
contains-append [] pattern after =
    starts_with-contains (pattern ++ after) pattern (starts_with-append pattern after)
contains-append (c ∷ cs) pattern after = or_right _ _ (contains-append cs pattern after)

contains-Occurs : (text pattern : Text) → contains text pattern ≡ true → Occurs pattern text
unfolding contains
contains-Occurs [] pattern h = let (after, e) = starts_with_prefix [] pattern h in ([], after, e)
contains-Occurs (c ∷ cs) pattern h = elim (or_split _ _ h) [
  | inl here ↦ let (after, e) = starts_with_prefix (c ∷ cs) pattern here in ([], after, e)
  | inr there ↦
      let (before, after, e) = contains-Occurs cs pattern there in
      (c ∷ before, after, ap (λ t. c ∷ t) e)
]

contains_iff : (text pattern : Text) → (contains text pattern ≡ true) ↔ Occurs pattern text
contains_iff text pattern = (
  contains-Occurs text pattern,
  λ (before, after, e). ap (λ t. contains t pattern) e ∙ contains-append before pattern after,
)

any_contained_iff :
    (name : Text) (patterns : List Text) (in_blocklist : Bool)
    → (any_contained name patterns in_blocklist ≡ true)
      ↔ ((in_blocklist ≡ true) ⊎ Any (λ pattern. Occurs pattern name) patterns)
unfolding any_contained
any_contained_iff name [] b =
    (λ h. inl h, λ u. elim u [ inl h ↦ h | inr none_left ↦ absurd none_left ])
any_contained_iff name (p ∷ ps) b =
    let (rest, back) = any_contained_iff name ps (if contains name p then true else b) in
    let (found, occurs) = contains_iff name p in
    elim (Bool-cases (contains name p)) [
      | inl hit ↦ (λ h. inr (inl (found hit)), λ u. back (inl (rw hit refl)))
      | inr miss ↦ (
        λ h. elim (rest h) [
          | inl before ↦ inl (sym (rw miss refl) ∙ before)
          | inr others ↦ inr (inr others)
        ],
        λ u. elim u [
          | inl before ↦ back (inl (rw miss before))
          | inr (inl here) ↦ absurd (cc (occurs here, miss))
          | inr (inr others) ↦ back (inr others)
        ],
      )
    ]

-- A library adds its segments to the list.
abbrev wrapped : List (ℕ × ℕ) → List (ℕ × ℕ)
wrapped [] = []
wrapped ((start, len) ∷ rest) = (start, add64 start len) ∷ wrapped rest

push_segments_append :
    (segments new : List (ℕ × ℕ)) → push_segments segments new ≡ segments ++ wrapped new
unfolding push_segments
push_segments_append segments [] = sym (append-nil segments)
push_segments_append segments ((start, len) ∷ rest) =
    push_segments_append (segments ++ (start, add64 start len) ∷ []) rest
    ∙ append_assoc segments ((start, add64 start len) ∷ []) (wrapped rest)

abbrev IsHit : ℕ → List (ℕ × ℕ) → Type 0
IsHit addr segments = segment_blocklisted segments addr ≡ true

append-IsHit :
    (addr : ℕ) (xs ys : List (ℕ × ℕ)) → IsHit addr (xs ++ ys) ↔ (IsHit addr xs ⊎ IsHit addr ys)
unfolding segment_blocklisted
append-IsHit addr [] ys = (λ h. inr h, λ u. elim u [ inl h ↦ absurd (cc h) | inr h ↦ h ])
append-IsHit addr (x ∷ xs) ys = ground (arith, append-IsHit addr xs ys)

wrapped-IsHit :
    (addr : ℕ) (segments : List (ℕ × ℕ))
    → IsHit addr (wrapped segments) ↔ Any (IsInside addr) segments
unfolding segment_blocklisted
wrapped-IsHit addr [] = (λ h. absurd (cc h), λ h. absurd h)
wrapped-IsHit addr ((start, len) ∷ rest) = ground (arith, wrapped-IsHit addr rest)

-- A library that a pattern names covers the address.
abbrev pub Blocks : ℕ → List Text → SharedLibrary → Type 0
Blocks addr patterns shlib = IsNamed patterns shlib.name × Any (IsInside addr) shlib.segments

is_library_blocked_iff :
    (patterns : List Text) (name : Option Text)
    → (is_library_blocked patterns name ≡ true) ↔ IsNamed patterns name
is_library_blocked_iff patterns none = (λ h. absurd (cc h), λ h. absurd h)
is_library_blocked_iff patterns (some name) =
    let (there, back) = any_contained_iff name patterns false in
    (λ h. elim (there h) [ inl e ↦ absurd (cc e) | inr a ↦ a ], λ a. back (inr a))

pushed_iff :
    (addr : ℕ) (segments new : List (ℕ × ℕ))
    → IsHit addr (push_segments segments new) ↔ (IsHit addr segments ⊎ Any (IsInside addr) new)
pushed_iff addr segments new =
    let (apart, joined) = append-IsHit addr segments (wrapped new) in
    let (inside, hit) = wrapped-IsHit addr new in
    rw (push_segments_append segments new) (
      λ h. elim (apart h) [ inl a ↦ inl a | inr w ↦ inr (inside w) ],
      λ u. joined (elim u [ inl a ↦ inl a | inr w ↦ inr (hit w) ]),
    )

each_library_iff :
    (addr : ℕ) (patterns : List Text) (segments : List (ℕ × ℕ)) (shlibs : List SharedLibrary)
    → IsHit addr (each_library patterns segments shlibs)
      ↔ (IsHit addr segments ⊎ Any (Blocks addr patterns) shlibs)
unfolding each_library
each_library_iff addr patterns segments [] =
    (λ h. inl h, λ u. elim u [ inl h ↦ h | inr none_left ↦ absurd none_left ])
each_library_iff addr patterns segments (shlib ∷ shlibs) =
    let (named, name) = is_library_blocked_iff patterns shlib.name in
    elim (Bool-cases (is_library_blocked patterns shlib.name)) [
      | inl blocked ↦
          let (there, back) =
            each_library_iff addr patterns (push_segments segments shlib.segments) shlibs in
          let (pushed, push) = pushed_iff addr segments shlib.segments in
          rw blocked (
            λ h. elim (there h) [
              | inr others ↦ inr (inr others)
              | inl here ↦ elim (pushed here) [
                | inl old ↦ inl old
                | inr new ↦ inr (inl (named blocked, new))
              ]
            ],
            λ u. elim u [
              | inl old ↦ back (inl (push (inl old)))
              | inr (inl here) ↦ back (inl (push (inr here.1)))
              | inr (inr others) ↦ back (inr others)
            ],
          )
      | inr free ↦
          let (there, back) = each_library_iff addr patterns segments shlibs in
          rw free (
            λ h. elim (there h) [ inl old ↦ inl old | inr others ↦ inr (inr others) ],
            λ u. elim u [
              | inl old ↦ back (inl old)
              | inr (inl here) ↦ absurd (cc (name here.0, free))
              | inr (inr others) ↦ back (inr others)
            ],
          )
    ]

-- After `blocklist`, an address is kept out of stacks just if it lies strictly inside a segment
-- of a shared library with a name that is valid text, in which one of the patterns occurs; the
-- end of a segment wraps at the word. An earlier list of segments is forgotten, and the other
-- settings stay.
pub blocklist_iff :
    (shlibs : List SharedLibrary) (self : ProfilerGuardBuilder) (patterns : List Text) (addr : ℕ)
    → ((segment_blocklisted (blocklist shlibs self patterns).blocklist_segments addr ≡ true)
        ↔ Any (Blocks addr patterns) shlibs)
      × (record (blocklist shlibs self patterns) { blocklist_segments = self.blocklist_segments }
          ≡ self)
unfolding blocklist segment_blocklisted
blocklist_iff shlibs self patterns addr =
    let (there, back) = each_library_iff addr patterns [] shlibs in
    ((λ h. elim (there h) [ inl old ↦ absurd (cc old) | inr a ↦ a ], λ a. back (inr a)), refl)
