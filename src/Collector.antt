-- ===== src/Collector.antt =====
-- src/collector.rs: a counter of equal items in bounded memory. `Bucket` holds four entries and
-- evicts one when a fifth key comes; `HashCounter` is the table of buckets; `TempFdArray` keeps what
-- was evicted, in a buffer that is flushed to a temporary file; `Collector` joins the two.
pub mod Bucket
pub mod HashCounter
pub mod TempFile
pub mod TempFdArray
pub mod Counts
use pprof_rs.Prelude.{ℕ, none, some, List, [], ◌∷◌, ◌++◌, Outcome, done, ◌>>=◌, ok, err}
use pprof_rs.Error.{IoResult}
use pprof_rs.Key.{Key}
use Bucket.{Entry, default_entry}

pub record Collector {ℓ} (File T : Type ℓ) : Type ℓ where
  pub map : HashCounter.HashCounter T
  pub temp_array : TempFdArray.TempFdArray File (Entry T)

module _ {ℓ} {File T : Type ℓ} ⦃key : Key T⦄ (files : TempFile.TempFile File (Entry T))
    (n : ℕ) where
  unfoldable pub new : T → IoResult (Collector File T)
  new default = elim (TempFdArray.new files n (default_entry default)) [
    | err e ↦ err e
    | ok a ↦ ok (record { map = HashCounter.new default; temp_array = a })
  ]

  unfoldable pub add : Collector File T → T → ℕ → Outcome (Collector File T × IoResult (Unit {0}))
  add c k count = do
    (map, evicted) ← HashCounter.add c.map k count
    elim evicted [
      | none ↦ done (record c { map = map }, ok tt)
      | some evict ↦ do
        (temp_array, pushed) ← TempFdArray.push files n c.temp_array evict
        done (record { map = map; temp_array = temp_array }, pushed)
    ]

  -- What a loop over the iterator sees: the table, then the array.
  unfoldable pub try_iter : Collector File T → Outcome (IoResult (List (Entry T)))
  try_iter c = do
    iter ← TempFdArray.try_iter files n c.temp_array
    elim iter [
      | err e ↦ done (err e)
      | ok it ↦ do
        live ← HashCounter.collect c.map
        rest ← TempFdArray.collect it
        done (ok (live ++ rest))
    ]

  -- A history of calls of `add`, whose errors the caller ignores.
  unfoldable pub add_all : Collector File T → List (T × ℕ) → Outcome (Collector File T)
  add_all c [] = done c
  add_all c ((k, count) ∷ calls) = add c k count >>= λ r. add_all r.0 calls
