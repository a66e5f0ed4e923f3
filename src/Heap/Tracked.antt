-- ===== src/Heap/Tracked.antt =====
-- src/alloc.rs, lines 210-276: the blocks that the shards hold, weighed.
use pprof_rs.Prelude.{
  ℕ, ◌+◌, ◌<◌, ◌≡◌, refl, sym, ap, ◌∙◌, true, some, List, [], ◌∷◌, arith, ◌==◌, if◌then◌else◌,
  length, get_elem?, get_elem?-some, set, All, All-set, All-get, lookup, insert, erase, has_key,
  number_equality, sum_by, sum_by-set, sum_by-insert, sum_by-erase, of_value, of_option, All-insert,
  All-erase, Dict,
}
use pprof_rs.Heap.{Shard, num_shards, shard_idx, shard_at, CallsiteData}

-- A sum over all blocks, each weighed by its call site and its size.
abbrev pub held : (ℕ × ℕ → ℕ) → List Shard → ℕ
held g = sum_by (sum_by (of_value g))

abbrev pub objects_of : ℕ → ℕ × ℕ → ℕ
objects_of id (j, size) = if j == id then 1 else 0

abbrev pub bytes_of : ℕ → ℕ × ℕ → ℕ
bytes_of id (j, size) = if j == id then size else 0

-- Every block belongs to a call site that is known.
abbrev pub Owned : Dict ℕ CallsiteData → List Shard → Type 0
Owned sites = All (All (λ b. has_key b.1.0 sites ≡ true))

shard_idx-lt : (ptr : ℕ) → shard_idx ptr < num_shards
unfolding shard_idx
shard_idx-lt ptr = omega arith

shard_at_of :
    (shards : List Shard) (i : ℕ) (shard : Shard)
    → get_elem? shards i ≡ some shard
    → shard_at shards i ≡ shard
shard_at_of shards i shard at = rw (at, shard_at)

module _ (shards : List Shard) (ptr : ℕ) (whole : length shards ≡ num_shards) where
  abbrev pub home : Shard
  home = shard_at shards (shard_idx ptr)

  pub home_is : get_elem? shards (shard_idx ptr) ≡ some home
  home_is =
      let (shard, at) = get_elem?-some shards (shard_idx ptr) (omega (arith, shard_idx-lt ptr)) in
      at ∙ ap some (sym (shard_at_of shards (shard_idx ptr) shard at))

  pub held-insert :
      (g : ℕ × ℕ → ℕ) (v : ℕ × ℕ)
      → held g (set shards (shard_idx ptr) (insert ptr v home)) + of_option g (lookup ptr home)
        ≡ held g shards + g v
  held-insert g v = omega (
    arith,
    sum_by-set (sum_by (of_value g)) shards (shard_idx ptr) home (insert ptr v home) home_is,
    sum_by-insert g ptr v home,
  )

  pub held-erase :
      (g : ℕ × ℕ → ℕ)
      → held g (set shards (shard_idx ptr) (erase ptr home)) + of_option g (lookup ptr home)
        ≡ held g shards
  held-erase g = omega (
    arith,
    sum_by-set (sum_by (of_value g)) shards (shard_idx ptr) home (erase ptr home) home_is,
    sum_by-erase g ptr home,
  )

  pub Owned-insert :
      (sites : Dict ℕ CallsiteData) (v : ℕ × ℕ)
      → has_key v.0 sites ≡ true
      → Owned sites shards
      → Owned sites (set shards (shard_idx ptr) (insert ptr v home))
  Owned-insert sites v known o =
      All-set _ shards (shard_idx ptr) _
        (All-insert _ ptr v home known (All-get _ shards (shard_idx ptr) home home_is o)) o

  pub Owned-erase :
      (sites : Dict ℕ CallsiteData)
      → Owned sites shards
      → Owned sites (set shards (shard_idx ptr) (erase ptr home))
  Owned-erase sites o =
      All-set _ shards (shard_idx ptr) _
        (All-erase _ ptr home (All-get _ shards (shard_idx ptr) home home_is o)) o

-- A weight that is zero at every call site that is known.
module _ (sites : Dict ℕ CallsiteData) (g : ℕ × ℕ → ℕ)
    (light : (v : ℕ × ℕ) → has_key v.0 sites ≡ true → g v ≡ 0) where
  shard_light :
      (shard : Shard) → All (λ b. has_key b.1.0 sites ≡ true) shard → sum_by (of_value g) shard ≡ 0
  unfolding sum_by
  shard_light [] o = refl
  shard_light ((ptr, v) ∷ shard) o = omega (arith, light v o.0, shard_light shard o.1)

  pub held_light : (shards : List Shard) → Owned sites shards → held g shards ≡ 0
  unfolding sum_by
  held_light [] o = refl
  held_light (shard ∷ shards) o = omega (arith, shard_light shard o.0, held_light shards o.1)
