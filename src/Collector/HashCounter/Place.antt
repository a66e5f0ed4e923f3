-- ===== src/Collector/HashCounter/Place.antt =====
-- src/collector.rs, lines 109-139: the entries of a table of buckets, and where they stand.
use pprof_rs.Prelude.{
  ℕ, zero, suc, ◌+◌, ◌<◌, ◌≡◌, ◌≢◌, refl, Bool, false, ◌||◌, some, List, [], ◌∷◌, ◌++◌, done,
  get_elem?, set, All, arith,
}
use mathlib.Core.Path.{subst, subst₂}
use pprof_rs.Key.{Key}
use pprof_rs.Collector.Bucket.{Entry, Bucket, has}
use pprof_rs.Collector.Bucket.Change.{live, IsValid}
use pprof_rs.Collector.Bucket.Iter.{collect-live}
use pprof_rs.Collector.Bucket.Weight.{weigh, weigh-append, Distinct}
use pprof_rs.Collector.HashCounter.{slot, collect_buckets}

module _ {ℓ} {T : Type ℓ} where
  -- All live entries, bucket by bucket.
  unfoldable pub contents : List (Bucket T) → List (Entry T)
  contents [] = []
  contents (b ∷ bs) = live b ++ contents bs

  -- Replacing a bucket exchanges its weight.
  pub weigh-contents-set :
      (p : T → Bool) (bs : List (Bucket T)) (i : ℕ) (b b' : Bucket T)
      → get_elem? bs i ≡ some b
      → weigh p (contents (set bs i b')) + weigh p (live b)
        ≡ weigh p (contents bs) + weigh p (live b')
  unfolding contents
  weigh-contents-set p [] i b b' h = cc
  weigh-contents-set p (x ∷ bs) zero b b' h =
      let same : x ≡ b = ground arith in
      rw (same, weigh-append p (live b') (contents bs), weigh-append p (live b) (contents bs))
        (omega arith)
  weigh-contents-set p (x ∷ bs) (suc i) b b' h =
      rw (weigh-append p (live x) (contents (set bs i b')), weigh-append p (live x) (contents bs))
        (omega (arith, weigh-contents-set p bs i b b' h))

module _ {ℓ} {T : Type ℓ} ⦃key : Key T⦄ where
  -- The keys of the `i`-th bucket and those behind it hash to their places.
  abbrev pub IsPlaced : ℕ → List (Bucket T) → Type 0
  IsPlaced i [] = Unit {0}
  IsPlaced i (b ∷ bs) = All (λ e. slot e.item ≡ i) (live b) × IsPlaced (suc i) bs

  pub set-IsPlaced :
      (i j n : ℕ) (bs : List (Bucket T)) (b' : Bucket T)
      → n ≡ i + j
      → All (λ e. slot e.item ≡ n) (live b')
      → IsPlaced i bs
      → IsPlaced i (set bs j b')
  set-IsPlaced i j n [] b' at h p = p
  set-IsPlaced i zero n (b ∷ bs) b' at h p =
      let here : n ≡ i = omega arith in
      (subst (λ m. All (λ e. slot e.item ≡ m) (live b')) here h, p.1)
  set-IsPlaced i (suc j) n (b ∷ bs) b' at h p =
      (p.0, set-IsPlaced (suc i) j n bs b' (omega arith) h p.1)

  pub get-IsPlaced :
      (i j n : ℕ) (bs : List (Bucket T)) (b : Bucket T)
      → n ≡ i + j
      → get_elem? bs j ≡ some b
      → IsPlaced i bs
      → All (λ e. slot e.item ≡ n) (live b)
  get-IsPlaced i j n [] b at h p = cc
  get-IsPlaced i zero n (x ∷ bs) b at h p =
      let here : i ≡ n = omega arith in
      let same : x ≡ b = ground arith in
      subst₂ (λ m y. All (λ e. slot e.item ≡ m) (live y)) here same p.0
  get-IsPlaced i (suc j) n (x ∷ bs) b at h p = get-IsPlaced (suc i) j n bs b (omega arith) h p.1

  has-append : (q : T) (xs ys : List (Entry T)) → has q (xs ++ ys) ≡ (has q xs || has q ys)
  unfolding has
  has-append q [] ys = refl
  has-append q (x ∷ xs) ys = ground (arith, has-append q xs ys)

  has_elsewhere :
      (q : T) (n : ℕ) (es : List (Entry T))
      → All (λ e. slot e.item ≡ n) es
      → slot q ≢ n
      → has q es ≡ false
  unfolding has slot
  has_elsewhere q n [] a h = refl
  has_elsewhere q n (e ∷ es) a h = ground (arith, has_elsewhere q n es a.1 h, key.eq-hash e.item q)

  has-contents_behind :
      (q : T) (i : ℕ) (bs : List (Bucket T))
      → IsPlaced i bs
      → slot q < i
      → has q (contents bs) ≡ false
  unfolding contents has
  has-contents_behind q i [] p h = refl
  has-contents_behind q i (b ∷ bs) p h = ground (
    arith,
    has-append q (live b) (contents bs),
    has_elsewhere q i (live b) p.0 (omega arith),
    has-contents_behind q (suc i) bs p.1 (omega arith),
  )

  append-Distinct :
      (xs ys : List (Entry T))
      → All (λ e. has e.item ys ≡ false) xs
      → Distinct xs
      → Distinct ys
      → Distinct (xs ++ ys)
  append-Distinct [] ys a dx dy = dy
  append-Distinct (x ∷ xs) ys a dx dy =
      (rw (has-append x.item xs ys, dx.0) a.0, append-Distinct xs ys a.1 dx.1 dy)

  All-behind :
      (i : ℕ) (es : List (Entry T)) (bs : List (Bucket T))
      → All (λ e. slot e.item ≡ i) es
      → IsPlaced (suc i) bs
      → All (λ e. has e.item (contents bs) ≡ false) es
  All-behind i [] bs a p = tt
  All-behind i (e ∷ es) bs a p =
      (has-contents_behind e.item (suc i) bs p (omega arith), All-behind i es bs a.1 p)

  -- A key has at most one entry in the whole table.
  pub contents-Distinct :
      (i : ℕ) (bs : List (Bucket T)) → IsPlaced i bs → All IsValid bs → Distinct (contents bs)
  unfolding contents
  contents-Distinct i [] p v = tt
  contents-Distinct i (b ∷ bs) p v =
      append-Distinct (live b) (contents bs) (All-behind i (live b) bs p.0 p.1) v.0.distinct
        (contents-Distinct (suc i) bs p.1 v.1)

  -- A loop over the buckets ends, and sees every live entry once.
  pub collect_buckets-contents :
      (bs : List (Bucket T)) → All IsValid bs → collect_buckets bs ≡ done (contents bs)
  unfolding contents collect_buckets
  collect_buckets-contents [] v = refl
  collect_buckets-contents (b ∷ bs) v = rw (collect-live b v.0, collect_buckets-contents bs v.1)
