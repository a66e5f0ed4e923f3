-- ===== src/Heap/Ledger/Stacks.antt =====
-- src/alloc.rs, lines 210-240: no two call sites have the same stack.
use pprof_rs.Prelude.{
  ℕ, ◌≡◌, refl, ap, ◌∙◌, Option, none, some, List, [], ◌∷◌, arith, All, All-imp, All-insert,
  All-modify, Dict, lookup, lookup-insert, insert, modify, number_equality, list_equality, ◌==◌,
  Option-cases, Bool-cases, inl, inr, same_list, same_list_iff,
}
use pprof_rs.Heap.{
  CallsiteData, HeapState, capture, callsite_of, count_alloc, count_dealloc, fresh_data,
  record_sample, record_dealloc,
}
use pprof_rs.Heap.Invariant.{tracked}
use pprof_rs.Heap.Refinement.Lookups.{ips_at}
use pprof_rs.Heap.Refinement.Blocks.{paid, record_dealloc-paid}

-- The map of call sites has each call site under its stack.
abbrev IsListed : Dict (List ℕ) ℕ → ℕ × CallsiteData → Type 0
IsListed map (id, d) = lookup d.ips map ≡ some id

abbrev pub AllListed : HeapState → Type 0
AllListed s = All (IsListed s.callsite_map) s.callsites

pub listed_id :
    (map : Dict (List ℕ) ℕ) (sites : Dict ℕ CallsiteData) (id : ℕ) (ips : List ℕ)
    → All (IsListed map) sites
    → ips_at id sites ≡ some ips
    → lookup ips map ≡ some id
unfolding ips_at
listed_id map [] id ips a h = absurd (cc h)
listed_id map ((i, d) ∷ sites) id ips a h = elim (Bool-cases (id == i)) [
  | inl hit ↦
      let number : id ≡ i = ground arith in
      let stack : some d.ips ≡ some ips = rw hit at h in
      let same : d.ips ≡ ips = cc stack in cc (a.0, number, same)
  | inr miss ↦ listed_id map sites id ips a.1 (rw miss at h)
]

still_listed :
    (map : Dict (List ℕ) ℕ) (ips : List ℕ) (n : ℕ) (c : ℕ × CallsiteData)
    → lookup ips map ≡ none
    → IsListed map c
    → IsListed (insert ips n map) c
still_listed map ips n (id, d) missing listed =
    lookup-insert d.ips ips n map ∙ elim (Bool-cases (same_list d.ips ips)) [
      | inr other ↦ rw other listed
      | inl hit ↦ let same = (same_list_iff d.ips ips).0 hit in absurd (cc (listed, missing, same))
    ]

counted :
    (map : Dict (List ℕ) ℕ) (id : ℕ) (f : CallsiteData → CallsiteData) (sites : Dict ℕ CallsiteData)
    → ((d : CallsiteData) → (f d).ips ≡ d.ips)
    → All (IsListed map) sites
    → All (IsListed map) (modify id f sites)
counted map id f sites keeps a =
    All-modify (IsListed map) (IsListed map) id f sites
      (λ d h. ap (λ ips. lookup ips map) (keeps d) ∙ h) (λ j d other h. h) a

callsite_of-AllListed :
    (s : HeapState) (ips : List ℕ) → AllListed s → AllListed (callsite_of s ips).0
unfolding callsite_of
callsite_of-AllListed s ips a = elim (Option-cases (lookup ips s.callsite_map)) [
  | inr (id, found) ↦ rw (found, callsite_of) a
  | inl missing ↦
      let n = s.next_callsite_id in
      let map = insert ips n s.callsite_map in
      rw (missing, callsite_of)
        (All-insert (IsListed map) n (fresh_data ips) s.callsites
          (lookup-insert ips ips n s.callsite_map ∙ rw ((same_list_iff ips ips).1 refl) refl)
          (All-imp (IsListed s.callsite_map) (IsListed map)
            (λ c h. still_listed s.callsite_map ips n c missing h) s.callsites a))
]

pub record_sample-AllListed :
    (s : HeapState) (offered : List ℕ) (ptr size : ℕ)
    → AllListed s
    → AllListed (record_sample s offered ptr size)
unfolding record_sample
record_sample-AllListed s offered ptr size a =
    let s' = (callsite_of s (capture 0 offered)).0 in
    counted s'.callsite_map (callsite_of s (capture 0 offered)).1 (count_alloc size) s'.callsites
      (λ d. refl) (callsite_of-AllListed s (capture 0 offered) a)

paid-AllListed :
    (s : HeapState) (o : Option (ℕ × ℕ)) → AllListed s → All (IsListed s.callsite_map) (paid s o)
paid-AllListed s none a = a
paid-AllListed s (some (id, size)) a =
    counted s.callsite_map id (count_dealloc size) s.callsites (λ d. refl) a

pub record_dealloc-AllListed :
    (s : HeapState) (ptr : ℕ) → AllListed s → AllListed (record_dealloc s ptr)
record_dealloc-AllListed s ptr a =
    rw (record_dealloc-paid s ptr) (paid-AllListed s (tracked s ptr) a)
