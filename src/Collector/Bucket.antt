-- ===== src/Collector/Bucket.antt =====
-- src/collector.rs, lines 14-107: entries, one bucket and its iterator.
pub mod Weight
pub mod Change
pub mod Add
pub mod Iter
use pprof_rs.Prelude.{
  ℕ, zero, suc, ◌+◌, ◌-◌, Bool, true, false, ◌||◌, Option, none, some, List, [], ◌∷◌, ◌++◌, Outcome,
  done, panic, drain, ltb, leb, lts, add64, if◌then◌else◌, get_elem?, set, take, drop, replicate,
}
use pprof_rs.Key.{Key, ◌==◌}

abbrev pub buckets_associativity : ℕ
buckets_associativity = 4

-- `count` is an `isize`.
pub record Entry {ℓ} (T : Type ℓ) : Type ℓ where
  pub item : T
  pub count : ℕ

-- `entries` stands for an array of `buckets_associativity` entries.
pub record Bucket {ℓ} (T : Type ℓ) : Type ℓ where
  pub length : ℕ
  pub entries : List (Entry T)

module _ {ℓ} {T : Type ℓ} (default : T) where
  -- `Entry::default`
  abbrev pub default_entry : Entry T
  default_entry = record { item = default; count = 0 }

  -- `Bucket::default`
  unfoldable pub new : Bucket T
  new = record { length = 0; entries = replicate buckets_associativity default_entry }

module _ {ℓ} {T : Type ℓ} ⦃key : Key T⦄ where
  -- What the first loop of `add` does to the entries that it goes through,
  unfoldable pub bump : T → ℕ → List (Entry T) → List (Entry T)
  bump k count [] = []
  bump k count (ele ∷ es) =
      (if ele.item == k then record ele { count = add64 ele.count count } else ele)
      ∷ bump k count es

  -- and whether it sets `done`.
  unfoldable pub has : T → List (Entry T) → Bool
  has k [] = false
  has k (ele ∷ es) = (ele.item == k) || has k es

module _ {ℓ} {T : Type ℓ} where
  -- The second loop of `add`, from `index` on: the index of the first entry of the least count.
  unfoldable pub scan_min : List (Entry T) → ℕ → ℕ → ℕ → ℕ
  scan_min [] index min_index min_count = min_index
  scan_min (ele ∷ es) index min_index min_count =
      scan_min es (index + 1) (if lts ele.count min_count then index else min_index)
        (if lts ele.count min_count then ele.count else min_count)

  -- The third branch of `add`: the new entry is swapped with the one of the least count.
  unfoldable pub evict : Bucket T → Entry T → Outcome (Bucket T × Option (Entry T))
  evict b new_entry = elim (get_elem? b.entries 0) [
    | none ↦ panic
    | some first ↦
        let min_index = scan_min (take b.length b.entries) 0 0 first.count in
        elim (get_elem? b.entries min_index) [
          | none ↦ panic
          | some old ↦ done (record b { entries = set b.entries min_index new_entry }, some old)
        ]
  ]

module _ {ℓ} {T : Type ℓ} ⦃key : Key T⦄ where
  -- `Bucket::add`. The slice `entries[0..length]` panics where it ends outside the array.
  unfoldable pub add : Bucket T → T → ℕ → Outcome (Bucket T × Option (Entry T))
  add b k count =
      let live = take b.length b.entries in
      let b' = record b { entries = bump k count live ++ drop b.length b.entries } in
      let new_entry : Entry T = record { item = k; count = count } in
      if leb b.length buckets_associativity
      then if has k live
        then done (b', none)
        else if ltb b.length buckets_associativity
        then done
            (record { length = b.length + 1; entries = set b'.entries b.length new_entry }, none)
        else evict b' new_entry
      else panic

-- `BucketIterator` and its `next`.
pub record BucketIterator {ℓ} (T : Type ℓ) : Type ℓ where
  pub related_bucket : Bucket T
  pub index : ℕ

module _ {ℓ} {T : Type ℓ} where
  unfoldable pub iter : Bucket T → BucketIterator T
  iter b = record { related_bucket = b; index = 0 }

  unfoldable pub next : BucketIterator T → Outcome (Option (Entry T × BucketIterator T))
  next it =
      if ltb it.index it.related_bucket.length
      then elim (get_elem? it.related_bucket.entries (it.index + 1 - 1)) [
        | none ↦ panic
        | some ele ↦ done (some (ele, record it { index = it.index + 1 }))
      ]
      else done none

  -- What a loop over `iter` sees.
  unfoldable pub collect : Bucket T → Outcome (List (Entry T))
  unfolding iter
  collect b = drain next (suc b.length) (iter b)
