-- ===== src/Heap/Refinement/Named.antt =====
-- src/alloc.rs, lines 210-240: the blocks that a state stands for, and the numbers of stacks.
use pprof_rs.Prelude.{
  ℕ, ◌≡◌, refl, ap, ◌∙◌, true, false, Option, none, some, List, [], ◌∷◌, arith, ◌==◌, if◌then◌else◌,
  All, All-get, All-imp, All-insert, Dict, lookup, insert, has_key, NodupKeys, lookup-All,
  number_equality, list_equality, Option-cases, Bool-cases, inl, inr,
}
use pprof_rs.Heap.{CallsiteData, HeapState, shard_idx, fresh_data, callsite_of}
use pprof_rs.Heap.Tracked.{home, home_is}
use pprof_rs.Heap.Invariant.{IsSound, tracked, has_key_below}
use pprof_rs.Heap.Refinement.Lookups.{ips_at, ips_at-insert}

abbrev pub with_size : ℕ → Option (List ℕ) → Option (List ℕ × ℕ)
with_size size none = none
with_size size (some ips) = some (ips, size)

abbrev pub block_of : Dict ℕ CallsiteData → Option (ℕ × ℕ) → Option (List ℕ × ℕ)
block_of sites none = none
block_of sites (some (id, size)) = with_size size (ips_at id sites)

-- The stack and the size of the block at an address, if one is tracked there.
unfoldable pub block_at : HeapState → ℕ → Option (List ℕ × ℕ)
block_at s q = block_of s.callsites (tracked s q)

-- Each stack in the map of call sites has a number whose call site has that stack, and no shard
-- has an address twice.
pub record IsNamed (s : HeapState) : Type 0 where
  pub distinct : All NodupKeys s.shards
  pub named : All (λ c. ips_at c.1 s.callsites ≡ some c.0) s.callsite_map

ips_at-known :
    (id : ℕ) (ips : List ℕ) (sites : Dict ℕ CallsiteData)
    → ips_at id sites ≡ some ips
    → has_key id sites ≡ true
unfolding ips_at has_key
ips_at-known id ips [] h = absurd (cc h)
ips_at-known id ips ((i, d) ∷ sites) h = ground (arith, ips_at-known id ips sites)

pub tracked_known :
    (s : HeapState) (q : ℕ) (v : ℕ × ℕ)
    → IsSound s
    → tracked s q ≡ some v
    → has_key v.0 s.callsites ≡ true
tracked_known s q v sound at =
    lookup-All (λ b. has_key b.1.0 s.callsites ≡ true) q v (home s.shards q sound.whole) at
      (All-get _ s.shards (shard_idx q) (home s.shards q sound.whole)
        (home_is s.shards q sound.whole) sound.owned)

-- Blocks of known call sites do not change where the stacks of these do not.
pub block_of_same :
    (sites sites' : Dict ℕ CallsiteData) (o : Option (ℕ × ℕ))
    → ((v : ℕ × ℕ) → o ≡ some v → ips_at v.0 sites' ≡ ips_at v.0 sites)
    → block_of sites' o ≡ block_of sites o
block_of_same sites sites' none h = refl
block_of_same sites sites' (some (id, size)) h = ap (with_size size) (h (id, size) refl)

-- What `callsite_of` leaves: the number has the stack, known numbers keep theirs, and all are named.
pub record IsFound (s : HeapState) (ips : List ℕ) (s' : HeapState) (id : ℕ) : Type 0 where
  pub has_stack : ips_at id s'.callsites ≡ some ips
  pub keeps : (j : ℕ) → has_key j s.callsites ≡ true → ips_at j s'.callsites ≡ ips_at j s.callsites
  pub all_named : All (λ c. ips_at c.1 s'.callsites ≡ some c.0) s'.callsite_map

known_other :
    (s : HeapState) (j : ℕ)
    → IsSound s
    → has_key j s.callsites ≡ true
    → (j == s.next_callsite_id) ≡ false
known_other s j sound known =
    let unknown = has_key_below s.next_callsite_id s.callsites sound.below in
    elim (Bool-cases (j == s.next_callsite_id)) [
      | inr other ↦ other
      | inl hit ↦
          let same : j ≡ s.next_callsite_id = ground arith in
          absurd (cc (ap (λ i. has_key i s.callsites) same, known, unknown))
    ]

same_number : (n : ℕ) → (n == n) ≡ true
same_number n = ground arith

pub callsite_of-IsFound :
    (s : HeapState) (ips : List ℕ)
    → IsSound s
    → IsNamed s
    → IsFound s ips (callsite_of s ips).0 (callsite_of s ips).1
unfolding callsite_of
callsite_of-IsFound s ips sound n = elim (Option-cases (lookup ips s.callsite_map)) [
  | inr (id, found) ↦
      rw (found, callsite_of)
        (record {
          has_stack =
              lookup-All (λ c. ips_at c.1 s.callsites ≡ some c.0) ips id s.callsite_map found
                n.named;
          keeps = λ j known. refl;
          all_named = n.named;
        })
  | inl missing ↦
      let next = s.next_callsite_id in
      let sites = insert next (fresh_data ips) s.callsites in
      let stack : ips_at next sites ≡ some ips =
        ips_at-insert next next (fresh_data ips) s.callsites
        ∙ ap (λ b. if b then some ips else ips_at next s.callsites) (same_number next) in
      let others : (j : ℕ) → has_key j s.callsites ≡ true → ips_at j sites ≡ ips_at j s.callsites =
        λ j known.
          ips_at-insert j next (fresh_data ips) s.callsites
          ∙ ap (λ b. if b then some ips else ips_at j s.callsites) (known_other s j sound known) in
      rw (missing, callsite_of)
        (record {
          has_stack = stack;
          keeps = others;
          all_named =
              All-insert (λ c. ips_at c.1 sites ≡ some c.0) ips next s.callsite_map stack
                (All-imp (λ c. ips_at c.1 s.callsites ≡ some c.0) (λ c. ips_at c.1 sites ≡ some c.0)
                  (λ c h. others c.1 (ips_at-known c.1 c.0 s.callsites h) ∙ h) s.callsite_map
                  n.named);
        })
]
