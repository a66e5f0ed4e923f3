-- ===== src/Heap/Invariant.antt =====
-- src/alloc.rs, lines 144-308: what every operation on the heap profiler keeps.
use pprof_rs.Prelude.{
  ℕ, suc, ◌+◌, ◌%◌, ◌<◌, ◌≡◌, refl, ap, ◌∙◌, true, false, Option, none, some, List, [], ◌∷◌, arith,
  word, ◌==◌, if◌then◌else◌, length, length-set, length-replicate, set, All, All-imp, All-replicate,
  Bool-cases, inl, inr, Option-cases, lookup, insert, erase, modify, has_key, NodupKeys,
  number_equality, list_equality, Dict, has_key-insert, has_key-modify, insert-NodupKeys,
  modify-NodupKeys, All-insert, All-modify, lookup-All,
}
use pprof_rs.Heap.{
  Shard, CallsiteData, HeapState, num_shards, shard_idx, shard_at, fresh_data, capture, callsite_of,
  count_alloc, count_dealloc, record_sample, record_dealloc, new, clear, reset_state,
}
use pprof_rs.Heap.Tracked.{
  held, objects_of, bytes_of, Owned, held-insert, held-erase, Owned-insert, Owned-erase, held_light,
  home,
}

abbrev pub IsKnown : Dict ℕ CallsiteData → ℕ → Type 0
IsKnown sites id = has_key id sites ≡ true

-- The counters of a call site count its blocks in the shards.
abbrev pub Exact : List Shard → ℕ × CallsiteData → Type 0
Exact shards (id, d) =
    (d.inuse_objects ≡ held (objects_of id) shards % word)
    × (d.inuse_bytes ≡ held (bytes_of id) shards % word)

pub record IsSound (s : HeapState) : Type 0 where
  pub whole : length s.shards ≡ num_shards
  pub exact : All (Exact s.shards) s.callsites
  pub distinct : NodupKeys s.callsites
  pub below : All (λ c. c.0 < s.next_callsite_id) s.callsites
  pub owned : Owned s.callsites s.shards
  pub mapped : All (λ c. IsKnown s.callsites c.1) s.callsite_map

pub has_key_below : {V : Type 0} (n : ℕ) (d : Dict ℕ V) → All (λ c. c.0 < n) d → has_key n d ≡ false
unfolding has_key
has_key_below n [] a = refl
has_key_below n ((j, v) ∷ d) a = ground (arith, has_key_below n d a.1)

-- A call site that is not known holds nothing.
held_unknown :
    (sites : Dict ℕ CallsiteData) (shards : List Shard) (id : ℕ)
    → Owned sites shards
    → has_key id sites ≡ false
    → (held (objects_of id) shards ≡ 0) × (held (bytes_of id) shards ≡ 0)
held_unknown sites shards id o h = (
  held_light sites (objects_of id) (light 1) shards o,
  held_light sites (bytes_of id) (λ v. light v.1 v) shards o,
)
  where
    light : (n : ℕ) (v : ℕ × ℕ) → has_key v.0 sites ≡ true → (if v.0 == id then n else 0) ≡ 0
    light n (j, size) k = elim (Bool-cases (j == id)) [
      | inl same ↦ absurd (cc (ap (λ i. has_key i sites) (eq_of same)))
      | inr other ↦ rw other
    ]
      where
        eq_of : {i : ℕ} → (i == id) ≡ true → i ≡ id
        eq_of e = ground arith

-- The stack's number is known afterwards, and the state is sound, as long as numbers are left.
pub callsite_of-IsSound :
    (s : HeapState) (ips : List ℕ)
    → IsSound s
    → s.next_callsite_id + 1 < word
    → IsSound (callsite_of s ips).0
      × IsKnown (callsite_of s ips).0.callsites (callsite_of s ips).1
      × ((callsite_of s ips).0.shards ≡ s.shards)
unfolding callsite_of
callsite_of-IsSound s ips v room = elim (Option-cases (lookup ips s.callsite_map)) [
  | inr (id, found) ↦
      rw (found, callsite_of)
        (v, lookup-All (λ c. IsKnown s.callsites c.1) ips id s.callsite_map found v.mapped, refl)
  | inl missing ↦
      let n = s.next_callsite_id in
      let unknown = has_key_below n s.callsites v.below in
      let (objects, bytes) = held_unknown s.callsites s.shards n v.owned unknown in
      let grows : (id : ℕ)
          → IsKnown s.callsites id
          → IsKnown (insert n (fresh_data ips) s.callsites) id =
        (λ id k. rw (has_key-insert id n (fresh_data ips) s.callsites) (ground arith)) in
      rw (missing, callsite_of)
        (
          record {
            whole = v.whole;
            exact =
                All-insert (Exact s.shards) n (fresh_data ips) s.callsites
                  (omega (arith, objects), omega (arith, bytes)) v.exact;
            distinct = insert-NodupKeys n (fresh_data ips) s.callsites v.distinct;
            below =
                All-insert _ n (fresh_data ips) s.callsites (omega arith)
                  (All-imp _ _ (λ c h. omega arith) s.callsites v.below);
            owned = All-imp _ _ (λ shard. All-imp _ _ (λ b. grows b.1.0) shard) s.shards v.owned;
            mapped =
                All-insert _ ips n s.callsite_map
                  (rw (has_key-insert n n (fresh_data ips) s.callsites) (ground arith))
                  (All-imp _ _ (λ c. grows c.1) s.callsite_map v.mapped);
          },
          rw (has_key-insert n n (fresh_data ips) s.callsites) (ground arith),
          refl,
        )
]

module _ (s : HeapState) (id ptr size : ℕ) (v : IsSound s) where
  abbrev home_of : Shard
  home_of = home s.shards ptr v.whole

  -- The block that `record_sample` puts into its shard.
  abbrev placed : List Shard
  placed = set s.shards (shard_idx ptr) (insert ptr (id, size) home_of)

  placed_objects :
      (j : ℕ)
      → lookup ptr home_of ≡ none
      → held (objects_of j) placed ≡ held (objects_of j) s.shards + objects_of j (id, size)
  placed_objects j untracked =
      let e = held-insert s.shards ptr v.whole (objects_of j) (id, size) in
      omega (arith, rw untracked at e)

  placed_bytes :
      (j : ℕ)
      → lookup ptr home_of ≡ none
      → held (bytes_of j) placed ≡ held (bytes_of j) s.shards + bytes_of j (id, size)
  placed_bytes j untracked =
      let e = held-insert s.shards ptr v.whole (bytes_of j) (id, size) in
      omega (arith, rw untracked at e)

  placed-IsSound :
      IsKnown s.callsites id
      → lookup ptr home_of ≡ none
      → IsSound (record s { callsites = modify id (count_alloc size) s.callsites; shards = placed })
  placed-IsSound k untracked = record {
    whole = length-set s.shards (shard_idx ptr) _ ∙ v.whole;
    exact =
        All-modify (Exact s.shards) (Exact placed) id (count_alloc size) s.callsites
          (λ d e. ground (arith, placed_objects id untracked, placed_bytes id untracked))
          (λ j d other e. ground (arith, placed_objects j untracked, placed_bytes j untracked))
          v.exact;
    distinct = modify-NodupKeys id (count_alloc size) s.callsites v.distinct;
    below =
        All-modify (λ c. c.0 < s.next_callsite_id) (λ c. c.0 < s.next_callsite_id) id
          (count_alloc size) s.callsites (λ d h. h) (λ j d o h. h) v.below;
    owned =
        All-imp _ _ (λ shard. All-imp _ _ (λ b. still b.1.0) shard) placed
          (Owned-insert s.shards ptr v.whole s.callsites (id, size) k v.owned);
    mapped = All-imp _ _ (λ c. still c.1) s.callsite_map v.mapped;
  }
    where
      still : (j : ℕ) → IsKnown s.callsites j → IsKnown (modify id (count_alloc size) s.callsites) j
      still j h = has_key-modify j id (count_alloc size) s.callsites ∙ h

  -- The shards without the block of the pointer.
  abbrev freed : List Shard
  freed = set s.shards (shard_idx ptr) (erase ptr home_of)

  freed-IsSound :
      lookup ptr home_of ≡ some (id, size)
      → IsSound
          (record s { callsites = modify id (count_dealloc size) s.callsites; shards = freed })
  freed-IsSound found = record {
    whole = length-set s.shards (shard_idx ptr) _ ∙ v.whole;
    exact =
        All-modify (Exact s.shards) (Exact freed) id (count_dealloc size) s.callsites
          (λ d e. ground (arith, freed_by (objects_of id), freed_by (bytes_of id)))
          (λ j d other e. ground (arith, freed_by (objects_of j), freed_by (bytes_of j))) v.exact;
    distinct = modify-NodupKeys id (count_dealloc size) s.callsites v.distinct;
    below =
        All-modify (λ c. c.0 < s.next_callsite_id) (λ c. c.0 < s.next_callsite_id) id
          (count_dealloc size) s.callsites (λ d h. h) (λ j d o h. h) v.below;
    owned =
        All-imp _ _ (λ shard. All-imp _ _ (λ b. still b.1.0) shard) freed
          (Owned-erase s.shards ptr v.whole s.callsites v.owned);
    mapped = All-imp _ _ (λ c. still c.1) s.callsite_map v.mapped;
  }
    where
      still :
          (j : ℕ) → IsKnown s.callsites j → IsKnown (modify id (count_dealloc size) s.callsites) j
      still j h = has_key-modify j id (count_dealloc size) s.callsites ∙ h

      freed_by : (g : ℕ × ℕ → ℕ) → held g freed + g (id, size) ≡ held g s.shards
      freed_by g = let e = held-erase s.shards ptr v.whole g in rw found at e

  freed_nothing-IsSound : lookup ptr home_of ≡ none → IsSound (record s { shards = freed })
  freed_nothing-IsSound missing = record {
    whole = length-set s.shards (shard_idx ptr) _ ∙ v.whole;
    exact =
        All-imp (Exact s.shards) (Exact freed)
          (λ c e. omega (arith, e, same (objects_of c.0), same (bytes_of c.0))) s.callsites v.exact;
    distinct = v.distinct;
    below = v.below;
    owned = Owned-erase s.shards ptr v.whole s.callsites v.owned;
    mapped = v.mapped;
  }
    where
      same : (g : ℕ × ℕ → ℕ) → held g freed ≡ held g s.shards
      same g = let e = held-erase s.shards ptr v.whole g in omega (arith, rw missing at e)

-- The block that is tracked at a pointer.
abbrev pub tracked : HeapState → ℕ → Option (ℕ × ℕ)
tracked s ptr = lookup ptr (shard_at s.shards (shard_idx ptr))

-- A sample of a pointer that is not tracked keeps the state sound.
pub record_sample-IsSound :
    (s : HeapState) (offered : List ℕ) (ptr size : ℕ)
    → IsSound s
    → tracked s ptr ≡ none
    → s.next_callsite_id + 1 < word
    → IsSound (record_sample s offered ptr size)
unfolding record_sample
record_sample-IsSound s offered ptr size v untracked room =
    let (v', k, same) = callsite_of-IsSound s (capture 0 offered) v room in
    let s' = (callsite_of s (capture 0 offered)).0 in
    placed-IsSound s' (callsite_of s (capture 0 offered)).1 ptr size v' k
      (ap (λ shards. lookup ptr (shard_at shards (shard_idx ptr))) same ∙ untracked)

pub record_dealloc-IsSound : (s : HeapState) (ptr : ℕ) → IsSound s → IsSound (record_dealloc s ptr)
unfolding record_dealloc
record_dealloc-IsSound s ptr v = elim (Option-cases (tracked s ptr)) [
  | inl missing ↦ rw (missing, record_dealloc) (freed_nothing-IsSound s 0 ptr 0 v missing)
  | inr (b, found) ↦ rw (found, record_dealloc) (freed-IsSound s b.0 ptr b.1 v found)
]

abbrev no_blocks : Shard
no_blocks = []

pub new-IsSound : IsSound new
unfolding new
new-IsSound = record {
  whole = length-replicate num_shards no_blocks;
  exact = tt;
  distinct = tt;
  below = tt;
  owned = All-replicate (All (λ b. IsKnown [] b.1.0)) num_shards no_blocks tt;
  mapped = tt;
}

clear_lem :
    (shards : List Shard) → (length (clear shards) ≡ length shards) × Owned [] (clear shards)
unfolding clear
clear_lem [] = (refl, tt)
clear_lem (shard ∷ shards) = let (l, o) = clear_lem shards in (ap suc l, (tt, o))

pub reset_state-IsSound : (s : HeapState) → IsSound s → IsSound (reset_state s)
unfolding reset_state
reset_state-IsSound s v = record {
  whole = (clear_lem s.shards).0 ∙ v.whole;
  exact = tt;
  distinct = tt;
  below = tt;
  owned = (clear_lem s.shards).1;
  mapped = tt;
}
