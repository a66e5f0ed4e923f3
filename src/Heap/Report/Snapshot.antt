-- ===== src/Heap/Report/Snapshot.antt =====
-- src/alloc.rs, lines 532-577: what a snapshot holds, if the profiler does not notice what it allocates
-- itself.
use pprof_rs.Prelude.{
  zero, none, inl, inr, Bool-cases, lts, set, erase, ◌⊎◌, number_equality, sym, Bool, ◌||◌, ℕ, suc,
  ◌+◌, ◌≡◌, refl, ap, ◌∙◌, true, false, not, ◌&&◌, some, List, [], ◌∷◌, ◌++◌, get_elem?, length,
  arith, ◌==◌, list_equality,
}
use pprof_rs.Frames.{Symbol}
use pprof_rs.Heap.{
  CallsiteData, Globals, Thread, HeapState, Shard, alloc, dealloc, realloc, record_dealloc,
  shard_at, shard_idx, sub64,
}
use pprof_rs.Heap.Invariant.{tracked}
use pprof_rs.Heap.Refinement.Lookups.{erase_absent}
use pprof_rs.Heap.Refinement.Blocks.{paid, record_dealloc-paid}
use pprof_rs.Heap.Report.{
  HeapRecord, HeapReport, OwnCall, allocates, frees, moves, record_of, record_at, own_run, own_step,
  waits, record_loop, heap_report,
}

or_not : (a b : Bool) → b ≡ false → (a || not b) ≡ true
or_not true b h = refl
or_not false b h = rw h refl

and_off : (a b c : Bool) → b ≡ false → (a && b && c) ≡ false
and_off true b c h = rw h refl
and_off false b c h = refl

waits_off : (g : Globals) (t : Thread) (c : OwnCall) → g.is_profiling ≡ false → waits g t c ≡ false
unfolding waits
waits_off g t (allocates offered ptr size) off = ground arith
waits_off g t (frees ptr) off = refl
waits_off g t (moves offered ptr new_ptr new_size) off = ground arith

-- While profiling is off, the allocator's calls leave the profiler alone.
own_step_off :
    (g : Globals) (t : Thread) (c : OwnCall) → g.is_profiling ≡ false → own_step g t c ≡ (g, t)
unfolding own_step alloc dealloc realloc
own_step_off g t (allocates offered ptr size) off = rw (or_not (ptr == 0) g.is_profiling off) refl
own_step_off g t (frees ptr) off = rw (and_off true g.is_profiling (not t.in_alloc) off) refl
own_step_off g t (moves offered ptr new_ptr new_size) off =
    rw (or_not (new_ptr == 0) g.is_profiling off) refl

set_same : (shards : List Shard) (i : ℕ) → set shards i (shard_at shards i) ≡ shards
set_same [] i = refl
set_same (shard ∷ shards) zero = refl
set_same (shard ∷ shards) (suc i) = ap (λ l. shard ∷ l) (set_same shards i)

dealloc_untracked : (s : HeapState) (ptr : ℕ) → tracked s ptr ≡ none → record_dealloc s ptr ≡ s
dealloc_untracked s ptr absent =
    let i = shard_idx ptr in
    let kept : set s.shards i (erase ptr (shard_at s.shards i)) ≡ s.shards =
      ap (set s.shards i) (erase_absent ptr (shard_at s.shards i) absent) ∙ set_same s.shards i in
    record_dealloc-paid s ptr
    ∙ ap
        (λ o. record s {
          shards = set s.shards i (erase ptr (shard_at s.shards i));
          callsites = paid s o;
        })
        absent
    ∙ ap (λ shards. record s { shards = shards }) kept

-- A call of the snapshot that the profiler does not notice: profiling is off, or the call is an
-- allocation that fails or does not use up the thread's bytes, or it frees a block that is not
-- tracked, or it fails to move one.
abbrev pub IsQuiet : Globals → Thread → OwnCall → Type 0
IsQuiet g t (allocates offered ptr size) =
    (g.is_profiling ≡ false) ⊎ (ptr ≡ 0) ⊎ (lts 0 (sub64 t.bytes_left size) ≡ true)
IsQuiet g t (frees ptr) = (g.is_profiling ≡ false) ⊎ (tracked g.heap ptr ≡ none)
IsQuiet g t (moves offered ptr new_ptr new_size) = (g.is_profiling ≡ false) ⊎ (new_ptr ≡ 0)

null : (ptr : ℕ) → ptr ≡ 0 → (ptr == 0) ≡ true
null ptr h = ground arith

-- The thread after the calls
abbrev pub own_end : Globals → Thread → List OwnCall → Thread
own_end g t [] = t
own_end g t (c ∷ calls) = own_end g (own_step g t c).1 calls

abbrev pub AllQuiet : Globals → Thread → List OwnCall → Type 0
AllQuiet g t [] = Unit {0}
AllQuiet g t (c ∷ calls) = IsQuiet g t c × AllQuiet g (own_step g t c).1 calls

quiet_waits : (g : Globals) (t : Thread) (c : OwnCall) → IsQuiet g t c → waits g t c ≡ false
unfolding waits
quiet_waits g t (allocates offered ptr size) (inl off) =
    waits_off g t (allocates offered ptr size) off
quiet_waits g t (allocates offered ptr size) (inr (inl fails)) = rw (null ptr fails) refl
quiet_waits g t (allocates offered ptr size) (inr (inr left)) = ground (arith, left)
quiet_waits g t (frees ptr) h = refl
quiet_waits g t (moves offered ptr new_ptr new_size) (inl off) =
    waits_off g t (moves offered ptr new_ptr new_size) off
quiet_waits g t (moves offered ptr new_ptr new_size) (inr fails) = rw (null new_ptr fails) refl

quiet_step : (g : Globals) (t : Thread) (c : OwnCall) → IsQuiet g t c → (own_step g t c).0 ≡ g
unfolding own_step alloc dealloc realloc
quiet_step g t (allocates offered ptr size) (inl off) =
    ap (λ (r : Globals × Thread). r.0) (own_step_off g t (allocates offered ptr size) off)
quiet_step g t (allocates offered ptr size) (inr (inl fails)) = rw (null ptr fails) refl
quiet_step g t (allocates offered ptr size) (inr (inr left)) =
    elim (Bool-cases (ptr == 0 || not g.is_profiling)) [
      | inl skip ↦ rw skip refl
      | inr on ↦ elim (Bool-cases t.in_alloc) [
        | inl inner ↦ rw (on, inner) refl
        | inr outer ↦ rw (on, outer, left) refl
      ]
    ]
quiet_step g t (frees ptr) (inl off) =
    ap (λ (r : Globals × Thread). r.0) (own_step_off g t (frees ptr) off)
quiet_step g t (frees ptr) (inr absent) = elim (Bool-cases (g.is_profiling && not t.in_alloc)) [
  | inl on ↦ rw on (ap (λ heap. record g { heap = heap }) (dealloc_untracked g.heap ptr absent))
  | inr off ↦ rw off refl
]
quiet_step g t (moves offered ptr new_ptr new_size) (inl off) =
    ap (λ (r : Globals × Thread). r.0) (own_step_off g t (moves offered ptr new_ptr new_size) off)
quiet_step g t (moves offered ptr new_ptr new_size) (inr fails) = rw (null new_ptr fails) refl

own_run_quiet :
    (g : Globals) (t : Thread) (calls : List OwnCall)
    → AllQuiet g t calls
    → own_run g t calls ≡ some (g, own_end g t calls)
unfolding own_run
own_run_quiet g t [] quiet = refl
own_run_quiet g t (c ∷ calls) quiet = rw (quiet_waits g t c quiet.0) (
    ap (λ after. own_run after (own_step g t c).1 calls) (quiet_step g t c quiet.0)
    ∙ own_run_quiet g (own_step g t c).1 calls quiet.1)

element_after :
    {A : Type 0} (before : List A) (x : A) (after : List A)
    → get_elem? (before ++ x ∷ after) (length before) ≡ some x
element_after [] x after = refl
element_after (y ∷ before) x after = element_after before x after

length_snoc : {A : Type 0} (before : List A) (x : A) → length (before ++ x ∷ []) ≡ length before + 1
length_snoc [] x = refl
length_snoc (y ∷ before) x = omega (arith, length_snoc before x)

append_snoc :
    {A : Type 0} (before : List A) (x : A) (after : List A)
    → (before ++ x ∷ []) ++ after ≡ before ++ x ∷ after
append_snoc [] x after = refl
append_snoc (y ∷ before) x after = ap (λ l. y ∷ l) (append_snoc before x after)

-- All calls of the records from `i` on are quiet.
abbrev pub QuietFrom : (ℕ → List OwnCall) → Globals → Thread → ℕ → ℕ → Type 0
QuietFrom own g t i zero = Unit {0}
QuietFrom own g t i (suc left) =
    AllQuiet g t (own i) × QuietFrom own g (own_end g t (own i)) (i + 1) left

off-IsQuiet : (g : Globals) (t : Thread) (c : OwnCall) → g.is_profiling ≡ false → IsQuiet g t c
off-IsQuiet g t (allocates offered ptr size) off = inl off
off-IsQuiet g t (frees ptr) off = inl off
off-IsQuiet g t (moves offered ptr new_ptr new_size) off = inl off

off-AllQuiet :
    (g : Globals) (t : Thread) (calls : List OwnCall) → g.is_profiling ≡ false → AllQuiet g t calls
off-AllQuiet g t [] off = tt
off-AllQuiet g t (c ∷ calls) off =
    (off-IsQuiet g t c off, off-AllQuiet g (own_step g t c).1 calls off)

-- While profiling is off, the profiler notices nothing.
pub off-QuietFrom :
    (own : ℕ → List OwnCall) (g : Globals) (t : Thread) (i left : ℕ)
    → g.is_profiling ≡ false
    → QuietFrom own g t i left
off-QuietFrom own g t i zero off = tt
off-QuietFrom own g t i (suc left) off =
    (off-AllQuiet g t (own i) off, off-QuietFrom own g (own_end g t (own i)) (i + 1) left off)

module _ (resolve : ℕ → List Symbol) (now : ℕ → ℕ) where
  -- A record for each call site, in order
  unfoldable pub records_of : ℕ → List (ℕ × CallsiteData) → List HeapRecord
  records_of i [] = []
  records_of i ((id, d) ∷ sites) = record_of resolve (now i) d ∷ records_of (i + 1) sites

  abbrev pub snapshot : ℕ → Globals → HeapReport
  snapshot end g = record {
    records = records_of 0 g.heap.callsites;
    sample_rate = g.sample_rate;
    timestamp = end;
  }

  loop_step :
      (own : ℕ → List OwnCall) (g : Globals) (t t' t'' : Thread) (i left : ℕ) (c : ℕ × CallsiteData)
      (records : List HeapRecord)
      → own_run g t (own i) ≡ some (g, t')
      → get_elem? g.heap.callsites i ≡ some c
      → record_loop resolve now own (i + 1) left g t' ≡ some ((g, t''), records)
      → record_loop resolve now own i (suc left) g t
        ≡ some ((g, t''), record_of resolve (now i) c.1 ∷ records)
  unfolding record_loop
  loop_step own g t t' t'' i left c records ran here rest =
      rw (ran, rest) (ap (λ o. some ((g, t''), record_at resolve now own i o ++ records)) here)

  record_loop_quiet :
      (own : ℕ → List OwnCall) (g : Globals) (t : Thread) (before sites : List (ℕ × CallsiteData))
      → QuietFrom own g t (length before) (length sites)
      → g.heap.callsites ≡ before ++ sites
      → (t' : Thread) × (record_loop resolve now own (length before) (length sites) g t
          ≡ some ((g, t'), records_of (length before) sites))
  unfolding record_loop records_of
  record_loop_quiet own g t before [] quiet split = (t, refl)
  record_loop_quiet own g t before ((id, d) ∷ sites) quiet split =
      let i = length before in
      let here : get_elem? g.heap.callsites i ≡ some (id, d) =
        ap (λ l. get_elem? l i) split ∙ element_after before (id, d) sites in
      let next = length_snoc before (id, d) in
      let (t', rest) =
        record_loop_quiet own g (own_end g t (own i)) (before ++ (id, d) ∷ []) sites
          (rw next quiet.1) (split ∙ sym (append_snoc before (id, d) sites)) in
      (
        t',
        loop_step own g t (own_end g t (own i)) t' i (length sites) (id, d) _
            (own_run_quiet g t (own i) quiet.0) here (rw next at rest),
      )

  -- If the profiler does not notice what a snapshot allocates itself, the snapshot is what the call
  -- sites hold.
  pub heap_report_quiet :
      (own : ℕ → List OwnCall) (end : ℕ) (g : Globals) (t : Thread)
      → QuietFrom own g t 0 (length g.heap.callsites)
      → (t' : Thread) × (heap_report resolve now own end g t ≡ some ((g, t'), snapshot end g))
  unfolding heap_report
  heap_report_quiet own end g t quiet =
      let (t', ran) = record_loop_quiet own g t [] g.heap.callsites quiet refl in (t', rw ran refl)
