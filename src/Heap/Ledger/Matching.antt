-- ===== src/Heap/Ledger/Matching.antt =====
-- src/alloc.rs, lines 210-276: the state of the heap profiler matches a book of blocks, and keeps to it
-- as blocks are sampled and freed.
use pprof_rs.Prelude.{
  ℕ, ◌+◌, ◌<◌, ◌≡◌, refl, ap, sym, ◌∙◌, true, none, some, List, [], ◌∷◌, take, word, arith,
  Option-cases, Bool-cases, inl, inr, Dict, lookup, lookup-insert, insert, erase, NodupKeys,
  insert-NodupKeys, has_key, number_equality, ◌==◌,
}
use pprof_rs.Frames.{max_depth}
use pprof_rs.Heap.{
  CallsiteData, HeapState, record_sample, record_dealloc, reset_state, new, capture,
}
use pprof_rs.Heap.Invariant.{tracked, new-IsSound, reset_state-IsSound}
use pprof_rs.Heap.Refinement.{Stands, capture_from, sampled-Stands, freed-Stands}
use pprof_rs.Heap.Refinement.Lookups.{ips_at, lookup-erase, erase-NodupKeys}
use pprof_rs.Heap.Refinement.Named.{block_at, block_of, with_size, tracked_known}
use pprof_rs.Heap.Refinement.Blocks.{
  record_dealloc-paid, reset_state-IsNamed, reset_state-block_at, new-IsNamed, new-block_at,
}
use pprof_rs.Heap.Ledger.Weights.{
  Balances, record_sample-Balances, record_dealloc-Balances, reset_state-Balances, new-Balances,
}
use pprof_rs.Heap.Ledger.Stacks.{AllListed, record_sample-AllListed, record_dealloc-AllListed}
use pprof_rs.Heap.Ledger.Noting.{Book}

-- The state holds the blocks of the book, and nothing else.
pub record Matches (s : HeapState) (book : Book) : Type 0 where
  pub stands : Stands s (λ q. lookup q book)
  pub distinct : NodupKeys book
  pub balanced : Balances s book
  pub listed : AllListed s

pub known_stack :
    (id : ℕ) (sites : Dict ℕ CallsiteData)
    → has_key id sites ≡ true
    → (ips : List ℕ) × (ips_at id sites ≡ some ips)
unfolding has_key ips_at
known_stack id [] h = absurd (cc h)
known_stack id ((i, d) ∷ sites) h = elim (Bool-cases (id == i)) [
  | inl hit ↦ (d.ips, rw hit refl)
  | inr miss ↦ let (ips, at) = known_stack id sites (rw miss at h) in (ips, rw miss at)
]

-- An address that is not in the book is not tracked.
untracked :
    (s : HeapState) (book : Book) (ptr : ℕ)
    → Matches s book
    → lookup ptr book ≡ none
    → tracked s ptr ≡ none
unfolding block_at
untracked s book ptr m absent = elim (Option-cases (tracked s ptr)) [
  | inl missing ↦ missing
  | inr (v, found) ↦
      let (ips, at) = known_stack v.0 s.callsites (tracked_known s ptr v m.stands.sound found) in
      let block : block_of s.callsites (tracked s ptr) ≡ some (ips, v.1) =
        ap (block_of s.callsites) found ∙ ap (with_size v.1) at in
      absurd (cc (block, m.stands.agrees ptr, absent))
]

pub sampled-Matches :
    (s : HeapState) (book : Book) (offered : List ℕ) (ptr size : ℕ)
    → lookup ptr book ≡ none
    → s.next_callsite_id + 1 < word
    → Matches s book
    → Matches (record_sample s offered ptr size) (insert ptr (take max_depth offered, size) book)
sampled-Matches s book offered ptr size absent room m =
    let missing = untracked s book ptr m absent in
    let grown = sampled-Stands s (λ q. lookup q book) offered ptr size missing room m.stands in
    let stack : capture 0 offered ≡ take max_depth offered = capture_from 0 offered (omega arith) in
    record {
      stands = record {
        sound = grown.sound;
        named = grown.named;
        agrees =
            λ q. grown.agrees q ∙ sym (lookup-insert q ptr (take max_depth offered, size) book);
      };
      distinct = insert-NodupKeys ptr (take max_depth offered, size) book m.distinct;
      balanced = rw (← stack) (
          record_sample-Balances s book offered ptr size m.stands.sound m.stands.named room missing
            absent m.balanced);
      listed = record_sample-AllListed s offered ptr size m.listed;
    }

pub freed-Matches :
    (s : HeapState) (book : Book) (ptr : ℕ)
    → Matches s book
    → Matches (record_dealloc s ptr) (erase ptr book)
freed-Matches s book ptr m =
    let shrunk = freed-Stands s (λ q. lookup q book) ptr m.stands in
    record {
      stands = record {
        sound = shrunk.sound;
        named = shrunk.named;
        agrees = λ q. shrunk.agrees q ∙ sym (lookup-erase q ptr book m.distinct);
      };
      distinct = erase-NodupKeys ptr book m.distinct;
      balanced = record_dealloc-Balances s book ptr m.stands.sound (m.stands.agrees ptr) m.balanced;
      listed = record_dealloc-AllListed s ptr m.listed;
    }

pub next_after_dealloc :
    (s : HeapState) (ptr : ℕ) → (record_dealloc s ptr).next_callsite_id ≡ s.next_callsite_id
next_after_dealloc s ptr = ap (λ t. t.next_callsite_id) (record_dealloc-paid s ptr)

pub new-Matches : Matches new []
unfolding lookup new
new-Matches = record {
  stands = record { sound = new-IsSound; named = new-IsNamed; agrees = new-block_at };
  distinct = tt;
  balanced = new-Balances;
  listed = tt;
}

pub reset_state-Matches :
    (s : HeapState) (book : Book) → Matches s book → Matches (reset_state s) []
unfolding lookup reset_state
reset_state-Matches s book m = record {
  stands = record {
    sound = reset_state-IsSound s m.stands.sound;
    named = reset_state-IsNamed s;
    agrees = reset_state-block_at s;
  };
  distinct = tt;
  balanced = reset_state-Balances s;
  listed = tt;
}
