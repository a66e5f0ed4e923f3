-- ===== src/Tests/Collecting.antt =====
-- The collector's theorems at concrete inputs.
use pprof_rs.Prelude.{
  ℕ, ◌+◌, ◌<◌, ◌≡◌, refl, true, Bool, List, [], ◌∷◌, done, ok, err, Returns, Adds, to_list, arith,
  word, if◌then◌else◌, ◌==◌,
}
use pprof_rs.Key.{Respects}
use pprof_rs.Collector
use pprof_rs.Collector.{Collector}
use pprof_rs.Collector.Bucket.{Entry, Bucket, buckets_associativity, evict, has, scan_min, bump}
use pprof_rs.Collector.Bucket
use pprof_rs.Collector.Bucket.Change.{IsValid, Change, live}
use pprof_rs.Collector.Bucket.Add.{add-Change}
use pprof_rs.Collector.Bucket.Weight.{weigh, Distinct}
use pprof_rs.Collector.HashCounter
use pprof_rs.Collector.HashCounter.Place.{contents}
use pprof_rs.Collector.HashCounter.Add.{add-Adds, collect-contents, new-IsSound}
use pprof_rs.Collector.HashCounter.Add
use pprof_rs.Collector.TempFdArray.{TempFdArray, push, try_iter}
use pprof_rs.Collector.TempFdArray.Push as Spill
use pprof_rs.Collector.TempFdArray.Push.{push-Pushed, push_failed, try_iter-items}
use pprof_rs.Collector.Counts
use pprof_rs.Collector.Counts.{add_all-exact}
use pprof_rs.Tests.Fixtures.{
  number_key, memory, memory_laws, memory_healthy, full_disk, full_disk_laws,
}

abbrev entry : ℕ → ℕ → Entry ℕ
entry k c = record { item = k; count = c }

abbrev full_bucket : Bucket ℕ
full_bucket = record { length = 4; entries = entry 1 5 ∷ entry 2 3 ∷ entry 3 8 ∷ entry 4 3 ∷ [] }

full_bucket-IsValid : IsValid ⦃key = number_key⦄ full_bucket
unfolding has
full_bucket-IsValid = record {
  array = refl;
  fits = omega arith;
  distinct = (refl, (refl, (refl, (refl, tt))));
}

add-Change_example : Returns (Bucket.add ⦃key = number_key⦄ full_bucket 9 1) λ r.
    IsValid ⦃key = number_key⦄ r.0 × Change ⦃key = number_key⦄ 9 1 (live full_bucket) (live r.0) r.1
add-Change_example = add-Change ⦃key = number_key⦄ full_bucket 9 1 full_bucket-IsValid

abbrev is_nine : ℕ → Bool
is_nine k = k == 9

is_nine-Respects : Respects ⦃key = number_key⦄ is_nine
is_nine-Respects a b h = ground arith

abbrev table : HashCounter.HashCounter ℕ
table = HashCounter.new 0

add-Adds_example : Returns (HashCounter.add ⦃key = number_key⦄ table 9 2) λ r.
    Add.IsSound ⦃key = number_key⦄ r.0
    × Adds
        (weigh is_nine (contents r.0.buckets) + weigh is_nine (to_list r.1))
        (weigh is_nine (contents table.buckets))
        (if is_nine 9 then 2 else 0)
add-Adds_example =
    add-Adds ⦃key = number_key⦄ table 9 2 is_nine (new-IsSound ⦃key = number_key⦄ 0).0
      is_nine-Respects

collect-contents_example :
    (HashCounter.collect table ≡ done (contents table.buckets))
    × Distinct ⦃key = number_key⦄ (contents table.buckets)
collect-contents_example =
    collect-contents ⦃key = number_key⦄ table (new-IsSound ⦃key = number_key⦄ 0).0

-- A full buffer of two items, and a file of two.
abbrev spilled : TempFdArray (List ℕ) ℕ
spilled = record { file = 1 ∷ 2 ∷ []; buffer = 3 ∷ 4 ∷ []; buffer_index = 2; flush_n = 1 }

spilled-IsSound : Spill.IsSound memory 2 memory_laws spilled
spilled-IsSound = record { array = refl; fits = omega arith; flushed = refl }

push-Pushed_example :
    Returns
      (push memory 2 spilled 5)
      (Spill.Pushed memory 2 memory_laws memory_healthy (omega arith) 5 spilled)
push-Pushed_example =
    push-Pushed memory 2 memory_laws memory_healthy (omega arith) spilled 5 spilled-IsSound

push_failed_example :
    (a' : TempFdArray (List ℕ) ℕ) × (e' : ℕ) × (push full_disk 2 spilled 5 ≡ done (a', err 28))
    × (try_iter full_disk 2 a' ≡ done (err e'))
push_failed_example =
    push_failed full_disk 2 full_disk_laws spilled 5 28 (omega arith) refl (omega arith)

-- Six keys of one bucket, the first one twice.
abbrev calls : List (ℕ × ℕ)
calls = (9, 1) ∷ (1, 1) ∷ (2, 1) ∷ (3, 1) ∷ (4, 1) ∷ (9, 1) ∷ []

small_calls : Counts.tally (λ _. true) calls < word
unfolding Counts.tally
small_calls = omega arith

add_all-exact_example :
    (start c : Collector (List (Entry ℕ)) ℕ) × (Collector.new ⦃key = number_key⦄ memory 2 0
      ≡ ok start)
    × (Collector.add_all ⦃key = number_key⦄ memory 2 start calls ≡ done c)
    × (Collector.try_iter ⦃key = number_key⦄ memory 2 c
        ≡ done (ok (Counts.entries ⦃key = number_key⦄ memory 2 memory_laws c)))
    × (weigh is_nine (Counts.entries ⦃key = number_key⦄ memory 2 memory_laws c)
        ≡ Counts.tally is_nine calls)
add_all-exact_example =
    add_all-exact ⦃key = number_key⦄ memory 2 memory_laws memory_healthy (omega arith) 0 calls
      is_nine is_nine-Respects small_calls
