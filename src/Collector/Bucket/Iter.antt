-- ===== src/Collector/Bucket/Iter.antt =====
-- src/collector.rs, lines 83-107: a loop over the bucket's iterator.
use pprof_rs.Prelude.{
  ℕ, zero, suc, ◌+◌, ◌-◌, ◌≤◌, ◌<◌, ◌≡◌, some, none, done, lt→ltb, Yields, end, item, drain-Yields,
  get_elem?, get_elem?-some, drop, length, arith, length-take, drop_all, drop_next, get_elem?-take,
}
use pprof_rs.Key.{Key}
use pprof_rs.Collector.Bucket.{Bucket, Entry, BucketIterator, next, collect}
use pprof_rs.Collector.Bucket.Change.{live, IsValid}

module _ {ℓ} {T : Type ℓ} ⦃key : Key T⦄ (b : Bucket T) (valid : IsValid b) where
  abbrev at : ℕ → BucketIterator T
  at i = record { related_bucket = b; index = i }

  length-live : length (live b) ≡ b.length
  length-live = omega (arith, length-take b.length b.entries, valid.array, valid.fits)

  next_lt :
      (i : ℕ)
      → i < b.length
      → (e : Entry T) × (next (at i) ≡ done (some (e, at (suc i))))
        × (get_elem? (live b) i ≡ some e)
  unfolding next
  next_lt i h =
      let (e, found) = get_elem?-some (live b) i (omega (arith, length-live)) in
      let slot : i + 1 - 1 ≡ i = omega arith in
      let up : i + 1 ≡ suc i = omega arith in
      (e, rw (lt→ltb i b.length h, slot, ← get_elem?-take b.length i b.entries h, found, up), found)

  next_ge : (i : ℕ) → b.length ≤ i → next (at i) ≡ done none
  unfolding next
  next_ge i h = ground arith

  next-Yields : (left i : ℕ) → i + left ≡ b.length → Yields next (at i) (drop i (live b))
  next-Yields zero i h =
      rw (drop_all i (live b) (omega (arith, length-live))) (end (next_ge i (omega arith)))
  next-Yields (suc left) i h =
      let (e, run, found) = next_lt i (omega arith) in
      rw (drop_next i (live b) e found) (item run (next-Yields left (suc i) (omega arith)))

  -- A loop over the iterator ends, without a panic, and has seen the live entries.
  pub collect-live : collect b ≡ done (live b)
  unfolding collect
  collect-live =
      drain-Yields next (suc b.length) (next-Yields b.length 0 (omega arith))
        (omega (arith, length-live))
