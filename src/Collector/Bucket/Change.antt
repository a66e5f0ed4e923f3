-- ===== src/Collector/Bucket/Change.antt =====
-- src/collector.rs, lines 48-81: valid buckets, and the changes that `Bucket::add` may make to the live
-- entries, which is what the rest of the collector needs to know of it.
use pprof_rs.Prelude.{
  ℕ, zero, suc, ◌+◌, ◌≤◌, ◌<◌, ◌≡◌, refl, ◌∙◌, inl, inr, Bool, true, false, Option, none, some,
  List, [], ◌∷◌, ◌++◌, lts, if◌then◌else◌, get_elem?, set, take, length, arith, All, Adds,
  Bool-cases, to_list, All-append, All-set, All-get,
}
use pprof_rs.Key.{Key, ◌==◌, Respects}
use pprof_rs.Collector.Bucket.{Entry, Bucket, buckets_associativity, bump, has}
use pprof_rs.Collector.Bucket.Weight.{
  Distinct, weigh, bump-Distinct, weigh-bump, weigh-append, weigh-set, has-bump,
}

module _ {ℓ} {T : Type ℓ} where
  -- The entries in use.
  abbrev pub live : Bucket T → List (Entry T)
  live b = take b.length b.entries

  -- No entry has a lower count.
  abbrev pub IsLeast : Entry T → List (Entry T) → Type 0
  IsLeast old = All (λ e. lts e.count old.count ≡ false)

module _ {ℓ} {T : Type ℓ} ⦃key : Key T⦄ where
  -- The size of the array, the bound on `length`, and that no two live entries are equal.
  pub record IsValid (b : Bucket T) : Type 0 where
    pub array : length b.entries ≡ buckets_associativity
    pub fits : b.length ≤ buckets_associativity
    pub distinct : Distinct (live b)

  -- What adding `count` to `k` makes of the live entries `es`, and what it evicts.
  pub data Change (k : T) (count : ℕ) (es es' : List (Entry T)) (out : Option (Entry T))
      : Type ℓ where
    bumped : has k es ≡ true → es' ≡ bump k count es → out ≡ none → Change k count es es' out
    appended :
        has k es ≡ false
        → length es < buckets_associativity
        → es' ≡ es ++ record { item = k; count = count } ∷ []
        → out ≡ none
        → Change k count es es' out
    replaced :
        (i : ℕ) (old : Entry T)
        → has k es ≡ false
        → length es ≡ buckets_associativity
        → get_elem? es i ≡ some old
        → IsLeast old es
        → es' ≡ set es i (record { item = k; count = count })
        → out ≡ some old
        → Change k count es es' out

  has_append :
      (q : T) (es : List (Entry T)) (e : Entry T)
      → has q es ≡ false
      → (e.item == q) ≡ false
      → has q (es ++ e ∷ []) ≡ false
  unfolding has
  has_append q [] e h n = ground arith
  has_append q (x ∷ es) e h n = ground (arith, has_append q es e)

  has-set :
      (q : T) (es : List (Entry T)) (i : ℕ) (e : Entry T)
      → has q es ≡ false
      → (e.item == q) ≡ false
      → has q (set es i e) ≡ false
  unfolding has
  has-set q [] i e h n = h
  has-set q (x ∷ es) zero e h n = ground arith
  has-set q (x ∷ es) (suc i) e h n = ground (arith, has-set q es i e)

  has_appended :
      (q : T) (es : List (Entry T)) (e : Entry T)
      → (e.item == q) ≡ true
      → has q (es ++ e ∷ []) ≡ true
  unfolding has
  has_appended q [] e h = ground arith
  has_appended q (x ∷ es) e h = ground (arith, has_appended q es e)

  has_stored :
      (q : T) (es : List (Entry T)) (i : ℕ) (old e : Entry T)
      → get_elem? es i ≡ some old
      → (e.item == q) ≡ true
      → has q (set es i e) ≡ true
  unfolding has
  has_stored q [] i old e at h = cc
  has_stored q (x ∷ es) zero old e at h = ground arith
  has_stored q (x ∷ es) (suc i) old e at h = ground (arith, has_stored q es i old e at)

  bump-All :
      (P : T → Type 0) (k : T) (c : ℕ) (es : List (Entry T))
      → All (λ e. P e.item) es
      → All (λ e. P e.item) (bump k c es)
  unfolding bump
  bump-All P k c [] a = tt
  bump-All P k c (e ∷ es) a = elim (Bool-cases (e.item == k)) [
    | inl h ↦ rw h (a.0, bump-All P k c es a.1)
    | inr h ↦ rw h (a.0, bump-All P k c es a.1)
  ]

  pub append-Distinct :
      (es : List (Entry T)) (e : Entry T)
      → has e.item es ≡ false
      → Distinct es
      → Distinct (es ++ e ∷ [])
  unfolding has
  append-Distinct [] e h d = (refl, tt)
  append-Distinct (x ∷ es) e h d =
      ground (arith, append-Distinct es e, has_append x.item es e, key.eq_symm x.item e.item)

  set-Distinct :
      (es : List (Entry T)) (i : ℕ) (e : Entry T)
      → has e.item es ≡ false
      → Distinct es
      → Distinct (set es i e)
  unfolding has
  set-Distinct [] i e h d = d
  set-Distinct (x ∷ es) zero e h d = ground arith
  set-Distinct (x ∷ es) (suc i) e h d =
      ground (arith, set-Distinct es i e, has-set x.item es i e, key.eq_symm x.item e.item)

  module _ {k : T} {count : ℕ} {es es' : List (Entry T)} {out : Option (Entry T)} where
    pub Change-Distinct : Change k count es es' out → Distinct es → Distinct es'
    Change-Distinct (bumped h e o) d = rw e (bump-Distinct k count es d)
    Change-Distinct (appended h n e o) d = rw e (append-Distinct es _ h d)
    Change-Distinct (replaced i old h n at least e o) d = rw e (set-Distinct es i _ h d)

    -- Nothing is lost: what leaves the bucket is what `add` returns.
    pub Change-weigh :
        (p : T → Bool)
        → Respects p
        → Change k count es es' out
        → Distinct es
        → Adds (weigh p es' + weigh p (to_list out)) (weigh p es) (if p k then count else 0)
    unfolding weigh
    Change-weigh p r (bumped h e o) d = rw (e, o) (ground (arith, weigh-bump p k count es r d h))
    Change-weigh p r (appended h n e o) d =
        rw (e, o) (ground (arith, weigh-append p es ((record { item = k; count = count }) ∷ [])))
    Change-weigh p r (replaced i old h n at least e o) d =
        rw (e, o) (ground (arith, weigh-set p es i old (record { item = k; count = count }) at))

    -- A property of items that the new key has is kept, also by the entry that leaves.
    pub Change-All :
        (P : T → Type 0)
        → P k
        → Change k count es es' out
        → All (λ e. P e.item) es
        → All (λ e. P e.item) es' × All (λ e. P e.item) (to_list out)
    Change-All P h (bumped _ e o) a = rw (e, o) (bump-All P k count es a, tt)
    Change-All P h (appended _ _ e o) a = rw (e, o) (All-append _ es _ a (h, tt), tt)
    Change-All P h (replaced i old _ _ at _ e o) a =
        rw (e, o) (All-set _ es i _ h a, (All-get (λ e. P e.item) es i old at a, tt))

    -- The key is live afterwards.
    pub Change-has : Change k count es es' out → has k es' ≡ true
    Change-has (bumped h e o) = rw e (has-bump k k count es ∙ h)
    Change-has (appended h n e o) = rw e (has_appended k es _ (key.eq_refl k))
    Change-has (replaced i old h n at least e o) = rw e (has_stored k es i old _ at (key.eq_refl k))
