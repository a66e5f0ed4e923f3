-- ===== src/Heap/Ledger/Weights.antt =====
-- src/alloc.rs, lines 210-276: the blocks that the shards hold, weighed by their stacks and sizes, and
-- a book of blocks weighed in the same way.
use pprof_rs.Prelude.{
  zero, suc, replicate, ℕ, ◌+◌, ◌<◌, ◌≡◌, refl, ap, ◌∙◌, true, Option, none, some, List, [], ◌∷◌,
  arith, word, All, Dict, lookup, insert, erase, modify, set, sum_by, sum_by-insert, sum_by-erase,
  of_value, of_option, has_key, number_equality, list_equality,
}
use pprof_rs.Heap.{
  Shard, CallsiteData, HeapState, shard_idx, shard_at, capture, callsite_of, count_alloc,
  record_sample, record_dealloc, clear, reset_state, new, num_shards,
}
use pprof_rs.Heap.Tracked.{held, Owned, held-insert, held-erase}
use pprof_rs.Heap.Invariant.{IsSound, tracked, callsite_of-IsSound}
use pprof_rs.Heap.Refinement.Lookups.{ips_at, ips_at-modify}
use pprof_rs.Heap.Refinement.Named.{block_of, block_at, with_size, IsNamed, callsite_of-IsFound}
use pprof_rs.Heap.Refinement.Blocks.{paid, paid_ips, record_dealloc-paid}

-- A block of a shard, weighed by the stack of its call site and its size
abbrev pub weight_of : (List ℕ × ℕ → ℕ) → Dict ℕ CallsiteData → ℕ × ℕ → ℕ
weight_of g sites v = of_option g (block_of sites (some v))

-- Weights that agree on blocks of known call sites.
module _ (sites : Dict ℕ CallsiteData) (f g : ℕ × ℕ → ℕ)
    (same : (v : ℕ × ℕ) → has_key v.0 sites ≡ true → f v ≡ g v) where
  shard_same :
      (shard : Shard)
      → All (λ b. has_key b.1.0 sites ≡ true) shard
      → sum_by (of_value f) shard ≡ sum_by (of_value g) shard
  unfolding sum_by
  shard_same [] o = refl
  shard_same ((ptr, v) ∷ shard) o = omega (arith, same v o.0, shard_same shard o.1)

  pub held_same : (shards : List Shard) → Owned sites shards → held f shards ≡ held g shards
  unfolding sum_by
  held_same [] o = refl
  held_same (shard ∷ shards) o = omega (arith, shard_same shard o.0, held_same shards o.1)

-- The shards and the book weigh the same, whatever the weights.
abbrev pub Balances : HeapState → Dict ℕ (List ℕ × ℕ) → Type 0
Balances s book =
    (g : List ℕ × ℕ → ℕ) → held (weight_of g s.callsites) s.shards ≡ sum_by (of_value g) book

pub record_sample-Balances :
    (s : HeapState) (book : Dict ℕ (List ℕ × ℕ)) (offered : List ℕ) (ptr size : ℕ)
    → IsSound s
    → IsNamed s
    → s.next_callsite_id + 1 < word
    → tracked s ptr ≡ none
    → lookup ptr book ≡ none
    → Balances s book
    → Balances (record_sample s offered ptr size) (insert ptr (capture 0 offered, size) book)
unfolding record_sample
record_sample-Balances s book offered ptr size sound named room untracked absent balanced g =
    let ips = capture 0 offered in
    let s' = (callsite_of s ips).0 in
    let id = (callsite_of s ips).1 in
    let (sound', _, same) = callsite_of-IsSound s ips sound room in
    let found = callsite_of-IsFound s ips sound named in
    let sites = modify id (count_alloc size) s'.callsites in
    let counted : (j : ℕ) → ips_at j sites ≡ ips_at j s'.callsites =
      λ j. ips_at-modify j id (count_alloc size) s'.callsites (λ d. refl) in
    let kept : held (weight_of g sites) s.shards ≡ held (weight_of g s.callsites) s.shards =
      held_same s.callsites (weight_of g sites) (weight_of g s.callsites)
        (λ v known. ap (λ o. of_option g (with_size v.1 o)) (counted v.0 ∙ found.keeps v.0 known))
        s.shards sound.owned in
    let moved : held (weight_of g sites) s'.shards ≡ held (weight_of g sites) s.shards =
      ap (held (weight_of g sites)) same in
    let nothing : of_option (weight_of g sites) (tracked s' ptr) ≡ 0 =
      ap (λ shards. of_option (weight_of g sites) (lookup ptr (shard_at shards (shard_idx ptr))))
        same
      ∙ ap (of_option (weight_of g sites)) untracked in
    let weighs : weight_of g sites (id, size) ≡ g (ips, size) =
      ap (λ o. of_option g (with_size size o)) (counted id ∙ found.has_stack) in
    let unwritten : of_option g (lookup ptr book) ≡ 0 = ap (of_option g) absent in
    omega (
      arith,
      held-insert s'.shards ptr sound'.whole (weight_of g sites) (id, size),
      sum_by-insert g ptr (ips, size) book,
      kept,
      moved,
      nothing,
      weighs,
      unwritten,
      balanced g,
    )

pub record_dealloc-Balances :
    (s : HeapState) (book : Dict ℕ (List ℕ × ℕ)) (ptr : ℕ)
    → IsSound s
    → block_at s ptr ≡ lookup ptr book
    → Balances s book
    → Balances (record_dealloc s ptr) (erase ptr book)
unfolding block_at
record_dealloc-Balances s book ptr sound agrees balanced g =
    let sites = paid s (tracked s ptr) in
    let freed = set s.shards (shard_idx ptr) (erase ptr (shard_at s.shards (shard_idx ptr))) in
    let kept : held (weight_of g sites) s.shards ≡ held (weight_of g s.callsites) s.shards =
      held_same s.callsites (weight_of g sites) (weight_of g s.callsites)
        (λ v known. ap (λ o. of_option g (with_size v.1 o)) (paid_ips s (tracked s ptr) v.0))
        s.shards sound.owned in
    let same_block : of_option (weight_of g sites) (tracked s ptr) ≡ of_option g (lookup ptr book) =
      weighs sites (tracked s ptr)
      ∙ ap (of_option g) (same_blocks (tracked s ptr) (tracked s ptr) ∙ agrees) in
    ap (λ s'. held (weight_of g s'.callsites) s'.shards) (record_dealloc-paid s ptr)
    ∙ omega (
      arith,
      held-erase s.shards ptr sound.whole (weight_of g sites),
      sum_by-erase g ptr book,
      kept,
      same_block,
      balanced g,
    )
  where
    weighs :
        (sites : Dict ℕ CallsiteData) (o : Option (ℕ × ℕ))
        → of_option (weight_of g sites) o ≡ of_option g (block_of sites o)
    weighs sites none = refl
    weighs sites (some v) = refl

    same_blocks : (o p : Option (ℕ × ℕ)) → block_of (paid s o) p ≡ block_of s.callsites p
    same_blocks o none = refl
    same_blocks o (some v) = ap (with_size v.1) (paid_ips s o v.0)

cleared : (f : ℕ × ℕ → ℕ) (shards : List Shard) → held f (clear shards) ≡ 0
unfolding clear sum_by
cleared f [] = refl
cleared f (shard ∷ shards) = omega (arith, cleared f shards)

pub reset_state-Balances : (s : HeapState) → Balances (reset_state s) []
unfolding reset_state sum_by
reset_state-Balances s g = cleared (weight_of g []) s.shards

no_shards : (f : ℕ × ℕ → ℕ) (n : ℕ) → held f (replicate n []) ≡ 0
unfolding sum_by
no_shards f zero = refl
no_shards f (suc n) = omega (arith, no_shards f n)

pub new-Balances : Balances new []
unfolding new sum_by
new-Balances g = no_shards (weight_of g []) num_shards
