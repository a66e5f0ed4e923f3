-- ===== src/Heap/Report/Conversion.antt =====
-- src/alloc.rs, lines 337-357: the report of the bytes in use.
use pprof_rs.Prelude.{
  ◌%◌, ◌<◌, ◌≡◌, refl, ap, false, List, [], ◌∷◌, ◌++◌, arith, lts, word, All, Bool-cases, inl, inr,
  max_zero, add64,
}
use pprof_rs.Key.{Key, ◌==◌}
use pprof_rs.Frames.{Frames, Resolver}
use pprof_rs.Frames.Resolved.{frames_eq, resolved_key}
use pprof_rs.Collector.Bucket.{Entry, has}
use pprof_rs.Report.{HashMap, insert, total_samples}
use pprof_rs.Report.Data.{insert_absent, absent-get}
use pprof_rs.Heap.Report.{
  HeapRecord, HeapReport, sum_inuse, insert_inuse, to_inuse_report, total_inuse_bytes,
}

-- No two records have equal frames.
abbrev pub Unequal : List HeapRecord → Type 0
Unequal [] = Unit {0}
Unequal (r ∷ records) = All (λ q. frames_eq r.frames q.frames ≡ false) records × Unequal records

total_samples-append :
    {K : Type 0} (m : HashMap K) (e : Entry K)
    → total_samples (m ++ e ∷ []) ≡ add64 (total_samples m) (max_zero e.count)
unfolding total_samples
total_samples-append [] e = ground arith
total_samples-append (x ∷ m) e = ground (arith, total_samples-append m e)

has-append :
    {K : Type 0} ⦃key : Key K⦄ (k : K) (m : HashMap K) (e : Entry K)
    → has k m ≡ false
    → (e.item == k) ≡ false
    → has k (m ++ e ∷ []) ≡ false
unfolding has
has-append k [] e h n = ground arith
has-append k (x ∷ m) e h n = ground (arith, has-append k m e)

total_samples-lt : {K : Type 0} (m : HashMap K) → total_samples m < word
unfolding total_samples
total_samples-lt [] = omega arith
total_samples-lt (e ∷ m) = omega arith

sum_inuse-lt : (records : List HeapRecord) → sum_inuse records < word
unfolding sum_inuse
sum_inuse-lt [] = omega arith
sum_inuse-lt (r ∷ records) = omega arith

module _ {Frame : Type 0} (env : Resolver Frame) where
  abbrev Absent : HashMap Frames → List HeapRecord → Type 0
  Absent m = All (λ r. has ⦃key = resolved_key env⦄ r.frames m ≡ false)

  abbrev extended : HashMap Frames → HeapRecord → HashMap Frames
  extended m r = m ++ record { item = r.frames; count = r.inuse_bytes } ∷ []

  Absent-extended :
      (m : HashMap Frames) (r : HeapRecord) (records : List HeapRecord)
      → Absent m records
      → All (λ q. frames_eq r.frames q.frames ≡ false) records
      → Absent (extended m r) records
  Absent-extended m r [] a u = tt
  Absent-extended m r (q ∷ records) a u = (
    has-append ⦃key = resolved_key env⦄ q.frames m
        (record { item = r.frames; count = r.inuse_bytes }) a.0 u.0,
    Absent-extended m r records a.1 u.1,
  )

  insert_inuse-total :
      (m : HashMap Frames) (records : List HeapRecord)
      → Absent m records
      → Unequal records
      → total_samples (insert_inuse env m records) ≡ add64 (total_samples m) (sum_inuse records)
  unfolding insert_inuse sum_inuse
  insert_inuse-total m [] a u = omega (arith, total_samples-lt m)
  insert_inuse-total m (r ∷ records) a u = elim (Bool-cases (lts 0 r.inuse_bytes)) [
    | inr none_left ↦
        let zero_part : max_zero r.inuse_bytes % word ≡ 0 = ground arith in
        rw none_left
          (omega (arith, zero_part, insert_inuse-total m records a.1 u.1, sum_inuse-lt records))
    | inl positive ↦
        let new : (insert ⦃key = resolved_key env⦄ r.frames r.inuse_bytes m).0 ≡ extended m r =
          ap (λ p. p.0)
            (insert_absent ⦃key = resolved_key env⦄ r.frames r.inuse_bytes m
              (absent-get ⦃key = resolved_key env⦄ r.frames m a.0)) in
        rw (positive, new)
          (omega (
            arith,
            insert_inuse-total (extended m r) records (Absent-extended m r records a.1 u.0) u.1,
            total_samples-append m (record { item = r.frames; count = r.inuse_bytes }),
          ))
  ]

  empty_total : total_samples {K = Frames} [] ≡ 0
  unfolding total_samples
  empty_total = refl

  none-Absent : (records : List HeapRecord) → Absent [] records
  unfolding has
  none-Absent [] = tt
  none-Absent (r ∷ records) = (refl, none-Absent records)

  -- Where no two records have equal frames, the samples of the report of bytes in use add up to
  -- the bytes in use of the snapshot.
  pub to_inuse_report-total :
      (h : HeapReport)
      → Unequal h.records
      → total_samples (to_inuse_report env h).counts ≡ total_inuse_bytes h
  unfolding to_inuse_report total_inuse_bytes
  to_inuse_report-total h u = omega (
    arith,
    insert_inuse-total [] h.records (none-Absent h.records) u,
    empty_total,
    sum_inuse-lt h.records,
  )
