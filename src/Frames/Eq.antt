-- ===== src/Frames/Eq.antt =====
-- src/frames.rs, lines 83-104: `Eq` and `Hash` of `UnresolvedFrames`.
use mathlib.Core.Path.{ap₂}
use pprof_rs.Prelude.{◌≡◌, refl, sym, ap, ◌∙◌, ◌↔◌, true, List, [], ◌∷◌, ◌++◌, map, length, arith}
use pprof_rs.Key.{Key, decides_refl, decides_symm, decides_trans}
use pprof_rs.Frames.{UnresolvedFrames, Resolver, all_same, eq, hash}

module _ {Frame : Type 0} (env : Resolver Frame) where
  -- Two stacks are the same if they are of the same thread and go through the same functions.
  abbrev pub SameStack : UnresolvedFrames Frame → UnresolvedFrames Frame → Type 0
  SameStack a b =
      (a.thread_id ≡ b.thread_id)
      × (map env.symbol_address a.frames ≡ map env.symbol_address b.frames)

  all_same-map :
      (xs ys : List Frame)
      → length xs ≡ length ys
      → all_same env xs ys ≡ true
      → map env.symbol_address xs ≡ map env.symbol_address ys
  unfolding all_same
  all_same-map [] [] l h = refl
  all_same-map [] (y ∷ ys) l h = absurd (omega arith)
  all_same-map (x ∷ xs) [] l h = absurd (omega arith)
  all_same-map (x ∷ xs) (y ∷ ys) l h = ground (arith, all_same-map xs ys)

  map-all_same :
      (xs ys : List Frame)
      → map env.symbol_address xs ≡ map env.symbol_address ys
      → (length xs ≡ length ys) × (all_same env xs ys ≡ true)
  unfolding all_same
  map-all_same [] [] h = (refl, refl)
  map-all_same [] (y ∷ ys) h = cc
  map-all_same (x ∷ xs) [] h = cc
  map-all_same (x ∷ xs) (y ∷ ys) h = ground (arith, map-all_same xs ys)

  -- `eq` holds of two stacks just if they are of the same thread and go through the same
  -- functions; names and time stamps play no part.
  pub eq-SameStack : (a b : UnresolvedFrames Frame) → (eq env a b ≡ true) ↔ SameStack a b
  unfolding eq
  eq-SameStack a b = (
    λ h. ground (arith, all_same-map a.frames b.frames),
    λ h. ground (arith, map-all_same a.frames b.frames h.1),
  )

  pub stack_refl : (a : UnresolvedFrames Frame) → eq env a a ≡ true
  stack_refl = decides_refl (eq env) SameStack eq-SameStack (λ a. (refl, refl))

  pub stack_symm : (a b : UnresolvedFrames Frame) → eq env a b ≡ eq env b a
  stack_symm = decides_symm (eq env) SameStack eq-SameStack (λ a b s. (sym s.0, sym s.1))

  pub stack_trans :
      (a b c : UnresolvedFrames Frame) → eq env a b ≡ true → eq env b c ≡ true → eq env a c ≡ true
  stack_trans = decides_trans (eq env) SameStack eq-SameStack (λ a b c s t. (s.0 ∙ t.0, s.1 ∙ t.1))

  -- Stacks that are equal hash alike.
  pub hash_congr : (a b : UnresolvedFrames Frame) → eq env a b ≡ true → hash env a ≡ hash env b
  unfolding hash
  hash_congr a b h =
      let (i, s) = (eq-SameStack a b).0 h in ap env.hasher (ap₂ (λ xs t. xs ++ t ∷ []) s i)

  -- What the collector is instantiated with.
  abbrev pub frames_key : Key (UnresolvedFrames Frame)
  frames_key = record {
    eq = eq env;
    hash = hash env;
    eq_refl = stack_refl;
    eq_symm = stack_symm;
    eq_trans = stack_trans;
    eq-hash = hash_congr;
  }
