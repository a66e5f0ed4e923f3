-- ===== src/Heap/Refinement/Lookups.antt =====
-- src/alloc.rs, lines 210-276: what a lookup finds after the maps of the heap profiler have changed.
use pprof_rs.Prelude.{
  ℕ, zero, suc, ◌<◌, ◌≡◌, refl, ap, false, Option, none, some, List, [], ◌∷◌, arith, ◌==◌,
  if◌then◌else◌, length, get_elem?-lt, set, All, All-set, All-get, Dict, lookup, insert, erase,
  modify, has_key, NodupKeys, lookup-insert, number_equality, insert-NodupKeys, Bool-cases, inl,
  inr,
}
use pprof_rs.Heap.{Shard, CallsiteData, num_shards, shard_idx, shard_at}
use pprof_rs.Heap.Tracked.{home, home_is}

lookup_unknown : {V : Type 0} (k : ℕ) (d : Dict ℕ V) → has_key k d ≡ false → lookup k d ≡ none
unfolding has_key lookup
lookup_unknown k [] h = refl
lookup_unknown k ((j, v) ∷ d) h = ground (arith, lookup_unknown k d)

pub lookup-erase :
    {V : Type 0} (j k : ℕ) (d : Dict ℕ V)
    → NodupKeys d
    → lookup j (erase k d) ≡ (if j == k then none else lookup j d)
unfolding lookup erase
lookup-erase j k [] u = ground arith
lookup-erase j k ((i, v) ∷ d) u =
    ground (arith, lookup-erase j k d u.1, lookup_unknown j d, lookup_unknown k d, u.0)

pub erase_absent : {V : Type 0} (k : ℕ) (d : Dict ℕ V) → lookup k d ≡ none → erase k d ≡ d
unfolding lookup erase
erase_absent k [] h = refl
erase_absent k ((i, v) ∷ d) h = ground (arith, erase_absent k d)

has_key-erase :
    {V : Type 0} (j k : ℕ) (d : Dict ℕ V) → has_key j d ≡ false → has_key j (erase k d) ≡ false
unfolding has_key erase
has_key-erase j k [] h = refl
has_key-erase j k ((i, v) ∷ d) h = ground (arith, has_key-erase j k d)

pub erase-NodupKeys : {V : Type 0} (k : ℕ) (d : Dict ℕ V) → NodupKeys d → NodupKeys (erase k d)
unfolding erase
erase-NodupKeys k [] u = tt
erase-NodupKeys k ((i, v) ∷ d) u = elim (Bool-cases (k == i)) [
  | inl hit ↦ rw hit u.1
  | inr miss ↦ rw miss (has_key-erase i k d u.0, erase-NodupKeys k d u.1)
]

shard_at-set :
    (shards : List Shard) (i j : ℕ) (shard : Shard)
    → i < length shards
    → shard_at (set shards i shard) j ≡ (if j == i then shard else shard_at shards j)
shard_at-set [] i j shard h = absurd (omega arith)
shard_at-set (x ∷ xs) zero zero shard h = ground arith
shard_at-set (x ∷ xs) zero (suc j) shard h = ground arith
shard_at-set (x ∷ xs) (suc i) zero shard h = ground arith
shard_at-set (x ∷ xs) (suc i) (suc j) shard h = ground (arith, shard_at-set xs i j shard)

-- The stack of a call site
unfoldable pub ips_at : ℕ → Dict ℕ CallsiteData → Option (List ℕ)
ips_at id [] = none
ips_at id ((i, d) ∷ sites) = if id == i then some d.ips else ips_at id sites

pub ips_at-insert :
    (id n : ℕ) (d : CallsiteData) (sites : Dict ℕ CallsiteData)
    → ips_at id (insert n d sites) ≡ (if id == n then some d.ips else ips_at id sites)
unfolding ips_at insert
ips_at-insert id n d [] = refl
ips_at-insert id n d ((i, e) ∷ sites) = ground (arith, ips_at-insert id n d sites)

pub ips_at-modify :
    (id k : ℕ) (f : CallsiteData → CallsiteData) (sites : Dict ℕ CallsiteData)
    → ((d : CallsiteData) → (f d).ips ≡ d.ips)
    → ips_at id (modify k f sites) ≡ ips_at id sites
unfolding ips_at modify
ips_at-modify id k f [] keeps = refl
ips_at-modify id k f ((i, d) ∷ sites) keeps = elim (Bool-cases (k == i)) [
  | inl hit ↦ rw (hit, keeps d, ips_at-modify id k f sites keeps) refl
  | inr miss ↦ rw (miss, ips_at-modify id k f sites keeps) refl
]

-- Blocks in different shards have different addresses.
other_shard : (q ptr : ℕ) → (shard_idx q == shard_idx ptr) ≡ false → (q == ptr) ≡ false
other_shard q ptr miss = elim (Bool-cases (q == ptr)) [
  | inr other ↦ other
  | inl hit ↦
      let same : q ≡ ptr = ground arith in
      let index : shard_idx q ≡ shard_idx ptr = ap shard_idx same in absurd (ground arith)
]

module _ (shards : List Shard) (ptr : ℕ) (whole : length shards ≡ num_shards) where
  in_range : shard_idx ptr < length shards
  in_range = get_elem?-lt (shard_idx ptr) shards (home shards ptr whole) (home_is shards ptr whole)

  home-NodupKeys : All NodupKeys shards → NodupKeys (home shards ptr whole)
  home-NodupKeys distinct =
      All-get NodupKeys shards (shard_idx ptr) (home shards ptr whole) (home_is shards ptr whole)
        distinct

  pub lookup-placed :
      (q : ℕ) (v : ℕ × ℕ)
      → lookup q (
          shard_at
            (set shards (shard_idx ptr) (insert ptr v (home shards ptr whole)))
            (shard_idx q))
        ≡ (if q == ptr then some v else lookup q (shard_at shards (shard_idx q)))
  lookup-placed q v =
      rw
        (shard_at-set shards (shard_idx ptr) (shard_idx q) (insert ptr v (home shards ptr whole))
          in_range)
        (elim (Bool-cases (shard_idx q == shard_idx ptr)) [
          | inl hit ↦
              let same : shard_idx q ≡ shard_idx ptr = ground arith in
              rw (hit, same) (lookup-insert q ptr v (home shards ptr whole))
          | inr miss ↦ rw (miss, other_shard q ptr miss) refl
        ])

  pub lookup-removed :
      (q : ℕ)
      → All NodupKeys shards
      → lookup q
          (shard_at (set shards (shard_idx ptr) (erase ptr (home shards ptr whole))) (shard_idx q))
        ≡ (if q == ptr then none else lookup q (shard_at shards (shard_idx q)))
  lookup-removed q distinct =
      rw
        (shard_at-set shards (shard_idx ptr) (shard_idx q) (erase ptr (home shards ptr whole))
          in_range)
        (elim (Bool-cases (shard_idx q == shard_idx ptr)) [
          | inl hit ↦
              let same : shard_idx q ≡ shard_idx ptr = ground arith in
              rw (hit, same) (lookup-erase q ptr (home shards ptr whole) (home-NodupKeys distinct))
          | inr miss ↦ rw (miss, other_shard q ptr miss) refl
        ])

  pub placed-NodupKeys :
      (v : ℕ × ℕ)
      → All NodupKeys shards
      → All NodupKeys (set shards (shard_idx ptr) (insert ptr v (home shards ptr whole)))
  placed-NodupKeys v distinct =
      All-set NodupKeys shards (shard_idx ptr) _
        (insert-NodupKeys ptr v (home shards ptr whole) (home-NodupKeys distinct)) distinct

  pub removed-NodupKeys :
      All NodupKeys shards
      → All NodupKeys (set shards (shard_idx ptr) (erase ptr (home shards ptr whole)))
  removed-NodupKeys distinct =
      All-set NodupKeys shards (shard_idx ptr) _
        (erase-NodupKeys ptr (home shards ptr whole) (home-NodupKeys distinct)) distinct
