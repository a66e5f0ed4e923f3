-- ===== src/Collector/Bucket/Weight.antt =====
-- The weight of a list of entries: the counts of the items that pass a test, added up.
use pprof_rs.Prelude.{
  ℕ, zero, suc, ◌+◌, ◌≤◌, ◌≡◌, refl, Bool, true, false, some, List, [], ◌∷◌, ◌++◌, if◌then◌else◌,
  get_elem?, set, arith, Adds, length,
}
use pprof_rs.Key.{Key, ◌==◌, Respects}
use pprof_rs.Collector.Bucket.{Entry, bump, has}

module _ {ℓ} {T : Type ℓ} where
  unfoldable pub weigh : (T → Bool) → List (Entry T) → ℕ
  weigh p [] = 0
  weigh p (e ∷ es) = (if p e.item then e.count else 0) + weigh p es

  pub weigh-append :
      (p : T → Bool) (xs ys : List (Entry T)) → weigh p (xs ++ ys) ≡ weigh p xs + weigh p ys
  unfolding weigh
  weigh-append p [] ys = omega arith
  weigh-append p (x ∷ xs) ys = omega (arith, weigh-append p xs ys)

  -- What a write puts in and what it takes out balance.
  pub weigh-set :
      (p : T → Bool) (es : List (Entry T)) (i : ℕ) (old e : Entry T)
      → get_elem? es i ≡ some old
      → weigh p (set es i e) + weigh p (old ∷ []) ≡ weigh p es + weigh p (e ∷ [])
  unfolding weigh
  weigh-set p [] i old e h = ground arith
  weigh-set p (x ∷ es) zero old e h = ground arith
  weigh-set p (x ∷ es) (suc i) old e h = omega (arith, weigh-set p es i old e h)

  pub weigh_le_all : (p : T → Bool) (es : List (Entry T)) → weigh p es ≤ weigh (λ _. true) es
  unfolding weigh
  weigh_le_all p [] = omega arith
  weigh_le_all p (e ∷ es) = ground (arith, weigh_le_all p es)

module _ {ℓ} {T : Type ℓ} ⦃key : Key T⦄ where
  -- No two entries have equal items.
  abbrev pub Distinct : List (Entry T) → Type 0
  Distinct [] = Unit {0}
  Distinct (e ∷ es) = (has e.item es ≡ false) × Distinct es

  pub bump_absent : (k : T) (c : ℕ) (es : List (Entry T)) → has k es ≡ false → bump k c es ≡ es
  unfolding bump has
  bump_absent k c [] h = refl
  bump_absent k c (e ∷ es) h = ground (arith, bump_absent k c es)

  pub length-bump : (k : T) (c : ℕ) (es : List (Entry T)) → length (bump k c es) ≡ length es
  unfolding bump
  length-bump k c [] = refl
  length-bump k c (e ∷ es) = omega (arith, length-bump k c es)

  pub has_congr : (a b : T) (es : List (Entry T)) → (a == b) ≡ true → has a es ≡ has b es
  unfolding has
  has_congr a b [] h = refl
  has_congr a b (e ∷ es) h =
      ground (
        arith,
        has_congr a b es h,
        key.eq_trans e.item a b,
        key.eq_trans e.item b a,
        key.eq_symm a b,
      )

  pub has-bump : (q k : T) (c : ℕ) (es : List (Entry T)) → has q (bump k c es) ≡ has q es
  unfolding bump has
  has-bump q k c [] = refl
  has-bump q k c (e ∷ es) = ground (arith, has-bump q k c es)

  pub bump-Distinct : (k : T) (c : ℕ) (es : List (Entry T)) → Distinct es → Distinct (bump k c es)
  unfolding bump
  bump-Distinct k c [] d = tt
  bump-Distinct k c (e ∷ es) d = ground (arith, bump-Distinct k c es d.1, has-bump e.item k c es)

  -- Among distinct entries exactly one is bumped.
  pub weigh-bump :
      (p : T → Bool) (k : T) (c : ℕ) (es : List (Entry T))
      → Respects p
      → Distinct es
      → has k es ≡ true
      → Adds (weigh p (bump k c es)) (weigh p es) (if p k then c else 0)
  unfolding bump has weigh
  weigh-bump p k c [] r d h = cc
  weigh-bump p k c (e ∷ es) r d h =
      ground
        (arith, r e.item k, has_congr e.item k es, bump_absent k c es, weigh-bump p k c es r d.1)
