-- ===== src/Heap/Refinement/Blocks.antt =====
-- src/alloc.rs, lines 73-142 and 210-276: what `record_sample`, `record_dealloc` and `reset` do to the
-- blocks that a state stands for.
use pprof_rs.Prelude.{
  ℕ, zero, suc, ◌+◌, ◌<◌, ◌≡◌, refl, ap, sym, ◌∙◌, Bool, Option, none, some, List, [], ◌∷◌, ◌==◌,
  if◌then◌else◌, word, All, All-replicate, All-imp, Dict, lookup, modify, NodupKeys, set, erase,
  replicate, number_equality, list_equality, Option-cases, Bool-cases, inl, inr,
}
use pprof_rs.Heap.{
  Shard, CallsiteData, HeapState, shard_idx, shard_at, capture, callsite_of, count_alloc,
  count_dealloc, record_sample, record_dealloc, reset_state, clear, new, num_shards,
}
use pprof_rs.Heap.Invariant.{IsSound, tracked, callsite_of-IsSound}
use pprof_rs.Heap.Refinement.Lookups.{
  ips_at, ips_at-modify, lookup-placed, lookup-removed, placed-NodupKeys, removed-NodupKeys,
}
use pprof_rs.Heap.Refinement.Named.{
  with_size, block_of, block_at, IsNamed, tracked_known, block_of_same, callsite_of-IsFound,
}

-- A sample puts its block into the map, and a call of `record_dealloc` takes the block out.
pub record_sample-block_at :
    (s : HeapState) (offered : List ℕ) (ptr size q : ℕ)
    → IsSound s
    → IsNamed s
    → s.next_callsite_id + 1 < word
    → block_at (record_sample s offered ptr size) q
      ≡ (if q == ptr then some (capture 0 offered, size) else block_at s q)
unfolding record_sample block_at
record_sample-block_at s offered ptr size q sound n room =
    let ips = capture 0 offered in
    let s' = (callsite_of s ips).0 in
    let id = (callsite_of s ips).1 in
    let (sound', _, same) = callsite_of-IsSound s ips sound room in
    let found = callsite_of-IsFound s ips sound n in
    let counted : (j : ℕ)
        → ips_at j (modify id (count_alloc size) s'.callsites) ≡ ips_at j s'.callsites =
      λ j. ips_at-modify j id (count_alloc size) s'.callsites (λ d. refl) in
    let sites = modify id (count_alloc size) s'.callsites in
    let at = lookup-placed s'.shards ptr sound'.whole q (id, size) in
    let choose : Bool → Option (ℕ × ℕ) = λ b. if b then some (id, size) else tracked s' q in
    let answer : Bool → Option (List ℕ × ℕ) = λ b. if b then some (ips, size) else block_at s q in
    elim (Bool-cases (q == ptr)) [
      | inl hit ↦
          ap (block_of sites) (at ∙ ap choose hit)
          ∙ ap (with_size size) (counted id ∙ found.has_stack)
          ∙ sym (ap answer hit)
      | inr miss ↦
          ap (block_of sites)
            (at ∙ ap choose miss ∙ ap (λ shards. lookup q (shard_at shards (shard_idx q))) same)
          ∙ block_of_same s.callsites sites (tracked s q)
              (λ v e. counted v.0 ∙ found.keeps v.0 (tracked_known s q v sound e))
          ∙ sym (ap answer miss)
    ]

pub record_sample-IsNamed :
    (s : HeapState) (offered : List ℕ) (ptr size : ℕ)
    → IsSound s
    → IsNamed s
    → s.next_callsite_id + 1 < word
    → IsNamed (record_sample s offered ptr size)
unfolding record_sample
record_sample-IsNamed s offered ptr size sound n room =
    let ips = capture 0 offered in
    let s' = (callsite_of s ips).0 in
    let id = (callsite_of s ips).1 in
    let (sound', _, same) = callsite_of-IsSound s ips sound room in
    let found = callsite_of-IsFound s ips sound n in
    let distinct' : All NodupKeys s'.shards = rw same n.distinct in
    record {
      distinct = placed-NodupKeys s'.shards ptr sound'.whole (id, size) distinct';
      named =
          All-imp (λ c. ips_at c.1 s'.callsites ≡ some c.0)
            (λ c. ips_at c.1 (modify id (count_alloc size) s'.callsites) ≡ some c.0)
            (λ c h. ips_at-modify c.1 id (count_alloc size) s'.callsites (λ d. refl) ∙ h)
            s'.callsite_map found.all_named;
    }

-- The call sites after a block was taken back
abbrev pub paid : HeapState → Option (ℕ × ℕ) → Dict ℕ CallsiteData
paid s none = s.callsites
paid s (some (id, size)) = modify id (count_dealloc size) s.callsites

pub paid_ips :
    (s : HeapState) (o : Option (ℕ × ℕ)) (j : ℕ) → ips_at j (paid s o) ≡ ips_at j s.callsites
paid_ips s none j = refl
paid_ips s (some (id, size)) j = ips_at-modify j id (count_dealloc size) s.callsites (λ d. refl)

pub record_dealloc-paid :
    (s : HeapState) (ptr : ℕ)
    → record_dealloc s ptr ≡ record s {
      shards = set s.shards (shard_idx ptr) (erase ptr (shard_at s.shards (shard_idx ptr)));
      callsites = paid s (tracked s ptr);
    }
unfolding record_dealloc
record_dealloc-paid s ptr = elim (Option-cases (tracked s ptr)) [
  | inl missing ↦ rw (missing, record_dealloc) refl
  | inr ((id, size), found) ↦ rw (found, record_dealloc) refl
]

pub record_dealloc-block_at :
    (s : HeapState) (ptr q : ℕ)
    → IsSound s
    → IsNamed s
    → block_at (record_dealloc s ptr) q ≡ (if q == ptr then none else block_at s q)
unfolding block_at
record_dealloc-block_at s ptr q sound n =
    let sites = paid s (tracked s ptr) in
    let at = lookup-removed s.shards ptr sound.whole q n.distinct in
    let choose : Bool → Option (ℕ × ℕ) = λ b. if b then none else tracked s q in
    let answer : Bool → Option (List ℕ × ℕ) = λ b. if b then none else block_at s q in
    ap (λ s'. block_at s' q) (record_dealloc-paid s ptr) ∙ elim (Bool-cases (q == ptr)) [
      | inl hit ↦ ap (block_of sites) (at ∙ ap choose hit) ∙ sym (ap answer hit)
      | inr miss ↦
          ap (block_of sites) (at ∙ ap choose miss)
          ∙ block_of_same s.callsites sites (tracked s q) (λ v e. paid_ips s (tracked s ptr) v.0)
          ∙ sym (ap answer miss)
    ]

pub record_dealloc-IsNamed :
    (s : HeapState) (ptr : ℕ) → IsSound s → IsNamed s → IsNamed (record_dealloc s ptr)
record_dealloc-IsNamed s ptr sound n = rw (record_dealloc-paid s ptr) (record {
  distinct = removed-NodupKeys s.shards ptr sound.whole n.distinct;
  named =
      All-imp (λ c. ips_at c.1 s.callsites ≡ some c.0)
        (λ c. ips_at c.1 (paid s (tracked s ptr)) ≡ some c.0)
        (λ c h. paid_ips s (tracked s ptr) c.1 ∙ h) s.callsite_map n.named;
})

shard_at-clear : (shards : List Shard) (i : ℕ) → shard_at (clear shards) i ≡ []
unfolding clear
shard_at-clear [] i = refl
shard_at-clear (x ∷ xs) zero = refl
shard_at-clear (x ∷ xs) (suc i) = shard_at-clear xs i

clear-NodupKeys : (shards : List Shard) → All NodupKeys (clear shards)
unfolding clear
clear-NodupKeys [] = tt
clear-NodupKeys (x ∷ xs) = (tt, clear-NodupKeys xs)

pub reset_state-block_at : (s : HeapState) (q : ℕ) → block_at (reset_state s) q ≡ none
unfolding block_at reset_state lookup
reset_state-block_at s q =
    ap (λ shard. block_of [] (lookup q shard)) (shard_at-clear s.shards (shard_idx q))

pub reset_state-IsNamed : (s : HeapState) → IsNamed (reset_state s)
unfolding reset_state
reset_state-IsNamed s = record { distinct = clear-NodupKeys s.shards; named = tt }

pub new-IsNamed : IsNamed new
unfolding new
new-IsNamed = record {
  distinct = All-replicate (λ (shard : Shard). NodupKeys shard) num_shards [] tt;
  named = tt;
}

shard_at-replicate : (n i : ℕ) → shard_at (replicate n []) i ≡ []
shard_at-replicate zero i = refl
shard_at-replicate (suc n) zero = refl
shard_at-replicate (suc n) (suc i) = shard_at-replicate n i

pub new-block_at : (q : ℕ) → block_at new q ≡ none
unfolding block_at new lookup
new-block_at q =
    ap (λ shard. block_of [] (lookup q shard)) (shard_at-replicate num_shards (shard_idx q))
