-- ===== src/Heap/Report/Totals.antt =====
-- src/alloc.rs, lines 326-335 and 532-577: what a snapshot's total comes to.
use pprof_rs.Prelude.{
  ℕ, ◌+◌, ◌<◌, ◌≡◌, refl, ◌∙◌, true, false, List, [], ◌∷◌, arith, half_word, ◌==◌, All, Bool-cases,
  inl, inr, has_key, NodupKeys, number_equality, sum_by, of_value, Dict,
}
use pprof_rs.Frames.{Symbol}
use pprof_rs.Heap.{Shard, CallsiteData, Globals}
use pprof_rs.Heap.Tracked.{held, bytes_of, Owned}
use pprof_rs.Heap.Invariant.{IsSound, Exact}
use pprof_rs.Heap.Report.{sum_inuse, total_inuse_bytes}
use pprof_rs.Heap.Report.Snapshot.{records_of, snapshot}

-- All bytes that the shards hold.
abbrev pub live_bytes : List Shard → ℕ
live_bytes = held (λ b. b.1)

sum_by-add :
    {A : Type 0} (f g : A → ℕ) (xs : List A)
    → sum_by (λ x. f x + g x) xs ≡ sum_by f xs + sum_by g xs
unfolding sum_by
sum_by-add f g [] = refl
sum_by-add f g (x ∷ xs) = omega (arith, sum_by-add f g xs)

sum_by_zero : {A : Type 0} (f : A → ℕ) (xs : List A) → ((x : A) → f x ≡ 0) → sum_by f xs ≡ 0
unfolding sum_by
sum_by_zero f [] h = refl
sum_by_zero f (x ∷ xs) h = omega (arith, h x, sum_by_zero f xs h)

-- The bytes of each call site are parts of the whole.
module _ (sites : Dict ℕ CallsiteData) (distinct : NodupKeys sites) where
  bytes_absent :
      (b : ℕ × ℕ) (some_sites : Dict ℕ CallsiteData)
      → has_key b.0 some_sites ≡ false
      → sum_by (λ c. bytes_of c.0 b) some_sites ≡ 0
  unfolding sum_by has_key
  bytes_absent b [] h = refl
  bytes_absent b ((id, d) ∷ some_sites) h = ground (arith, bytes_absent b some_sites)

  bytes_once :
      (b : ℕ × ℕ) (some_sites : Dict ℕ CallsiteData)
      → NodupKeys some_sites
      → has_key b.0 some_sites ≡ true
      → sum_by (λ c. bytes_of c.0 b) some_sites ≡ b.1
  unfolding sum_by has_key
  bytes_once b [] u h = cc
  bytes_once (j, size) ((id, d) ∷ some_sites) u h = elim (Bool-cases (j == id)) [
    | inl same ↦
        let e : j ≡ id = ground arith in
        let absent : has_key j some_sites ≡ false = rw e u.0 in
        rw same (omega (arith, bytes_absent (j, size) some_sites absent))
    | inr other ↦ ground (arith, bytes_once (j, size) some_sites u.1)
  ]

  shard_parts :
      (shard : Shard)
      → All (λ b. has_key b.1.0 sites ≡ true) shard
      → sum_by (λ c. sum_by (of_value (bytes_of c.0)) shard) sites
        ≡ sum_by (of_value (λ b. b.1)) shard
  unfolding sum_by
  shard_parts [] o = sum_by_zero _ sites (λ c. refl)
  shard_parts ((ptr, b) ∷ shard) o = omega (
    arith,
    sum_by-add (λ c. bytes_of c.0 b) (λ c. sum_by (of_value (bytes_of c.0)) shard) sites,
    bytes_once b sites distinct o.0,
    shard_parts shard o.1,
  )

  held_parts :
      (shards : List Shard)
      → Owned sites shards
      → sum_by (λ c. held (bytes_of c.0) shards) sites ≡ live_bytes shards
  unfolding sum_by
  held_parts [] o = sum_by_zero _ sites (λ c. refl)
  held_parts (shard ∷ shards) o = omega (
    arith,
    sum_by-add (λ c. sum_by (of_value (bytes_of c.0)) shard) (λ c. held (bytes_of c.0) shards)
        sites,
    shard_parts shard o.0,
    held_parts shards o.1,
  )

module _ (resolve : ℕ → List Symbol) (shards : List Shard) where
  sum_inuse-held :
      (now : ℕ → ℕ) (i : ℕ) (sites : Dict ℕ CallsiteData)
      → All (Exact shards) sites
      → sum_by (λ c. held (bytes_of c.0) shards) sites < half_word
      → sum_inuse (records_of resolve now i sites) ≡ sum_by (λ c. held (bytes_of c.0) shards) sites
  unfolding sum_by sum_inuse records_of
  sum_inuse-held now i [] e small = refl
  sum_inuse-held now i ((id, d) ∷ sites) e small =
      ground (arith, e.0.1, sum_inuse-held now (i + 1) sites e.1 (omega arith))

-- The bytes in use of a snapshot of a sound state are the bytes that the shards hold, if these are
-- less than 2 ^ 63, whatever symbols are found.
pub snapshot-held :
    (resolve : ℕ → List Symbol) (now : ℕ → ℕ) (end : ℕ) (g : Globals)
    → IsSound g.heap
    → live_bytes g.heap.shards < half_word
    → total_inuse_bytes (snapshot resolve now end g) ≡ live_bytes g.heap.shards
unfolding total_inuse_bytes
snapshot-held resolve now end g v small =
    let s = g.heap in
    let parts = held_parts s.callsites v.distinct s.shards v.owned in
    sum_inuse-held resolve s.shards now 0 s.callsites v.exact (omega (arith, parts)) ∙ parts
