-- ===== src/Collector/HashCounter.antt =====
-- src/collector.rs, lines 109-140: the table of buckets, indexed by the hash of the key.
pub mod Place
pub mod Add
use pprof_rs.Prelude.{
  ℕ, ◌%◌, ◌^◌, Option, none, some, List, [], ◌∷◌, ◌++◌, Outcome, done, panic, ◌>>=◌, get_elem?, set,
  replicate,
}
use pprof_rs.Key.{Key}
use pprof_rs.Collector.Bucket.{Entry, Bucket}
use pprof_rs.Collector.Bucket

-- `1 << 12`
abbrev pub buckets_count : ℕ
buckets_count = 2 ^ 12

-- `buckets` stands for an array of `buckets_count` buckets.
pub record HashCounter {ℓ} (T : Type ℓ) : Type ℓ where
  pub buckets : List (Bucket T)

-- `HashCounter::default`
unfoldable pub new {ℓ} : {T : Type ℓ} → T → HashCounter T
new default = record { buckets = replicate buckets_count (Bucket.new default) }

module _ {ℓ} {T : Type ℓ} ⦃key : Key T⦄ where
  -- The bucket of a key: `hash_value % BUCKETS`.
  unfoldable pub slot : T → ℕ
  slot k = key.hash k % buckets_count

  unfoldable pub add : HashCounter T → T → ℕ → Outcome (HashCounter T × Option (Entry T))
  add h k count = elim (get_elem? h.buckets (slot k)) [
    | none ↦ panic
    | some b ↦ do
      (b', evicted) ← Bucket.add b k count
      done (record h { buckets = set h.buckets (slot k) b' }, evicted)
  ]

module _ {ℓ} {T : Type ℓ} where
  -- The `flat_map` over the buckets.
  unfoldable pub collect_buckets : List (Bucket T) → Outcome (List (Entry T))
  collect_buckets [] = done []
  collect_buckets (b ∷ bs) = do es ← Bucket.collect b; rest ← collect_buckets bs; done (es ++ rest)

  -- What a loop over `HashCounter::iter` sees.
  unfoldable pub collect : HashCounter T → Outcome (List (Entry T))
  collect h = collect_buckets h.buckets
