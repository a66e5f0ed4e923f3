-- ===== src/Heap/Report.antt =====
-- src/alloc.rs, lines 309-381 and 532-577: snapshots of the heap profiler, and the reports made of
-- them. `resolve` is `backtrace::resolve`, and `now` the readings of the clock, one for each record.
pub mod Snapshot
pub mod Totals
pub mod Conversion
use pprof_rs.Prelude.{
  ℕ, zero, suc, ◌+◌, ◌-◌, ◌%◌, ◌^◌, Bool, true, false, Option, none, some, List, [], ◌∷◌, lts, not,
  ◌&&◌, ◌++◌, Dict, lookup, get_elem?, length, list_equality, ◌==◌, add64, max_zero, if◌then◌else◌,
  ltb, half_word,
}
use pprof_rs.Prelude.Options.{◌>>=◌}
use pprof_rs.Prelude.Int.{ℤ, pos, negsuc}
use pprof_rs.Timer.{ClockType, ReportTiming}
use pprof_rs.Frames.{Frames, Symbol, Resolver, push_unless_empty}
use pprof_rs.Frames.Resolved.{resolved_key}
use pprof_rs.Heap.{
  CallsiteData, HeapState, Globals, Thread, alloc, dealloc, realloc, capture, sub64,
}
use pprof_rs.Report.{HashMap, insert}
use pprof_rs.Report.Builder.{Report}

pub record HeapRecord : Type 0 where
  pub frames : Frames
  pub alloc_objects : ℕ
  pub alloc_bytes : ℕ
  pub inuse_objects : ℕ
  pub inuse_bytes : ℕ

pub record HeapReport : Type 0 where
  pub records : List HeapRecord
  pub sample_rate : ℕ
  pub timestamp : ℕ

-- What a snapshot calls of the allocator for its own vectors, symbols and names. `IN_ALLOC` is not
-- set then.
pub data OwnCall : Type 0 where
  allocates : (offered : List ℕ) (ptr size : ℕ) → OwnCall
  frees : (ptr : ℕ) → OwnCall
  moves : (offered : List ℕ) (ptr new_ptr new_size : ℕ) → OwnCall

abbrev is_new : Globals → List ℕ → Bool
is_new g offered = elim (lookup (capture 0 offered) g.heap.callsite_map) [
  | none ↦ true
  | some id ↦ false
]

-- `record_sample` takes the lock of `callsites` for writing if the stack is new. The snapshot's
-- thread holds that lock for reading, and so waits forever.
unfoldable pub waits : Globals → Thread → OwnCall → Bool
unfolding capture
waits g t (allocates offered ptr size) =
    not (ptr == 0)
    && g.is_profiling
    && not t.in_alloc
    && not (lts 0 (sub64 t.bytes_left size))
    && is_new g offered
waits g t (frees ptr) = false
waits g t (moves offered ptr new_ptr new_size) =
    not (new_ptr == 0) && g.is_profiling && not t.in_alloc && is_new g offered

unfoldable pub own_step : Globals → Thread → OwnCall → Globals × Thread
unfolding alloc dealloc realloc
own_step g t (allocates offered ptr size) = alloc g t offered ptr size
own_step g t (frees ptr) = dealloc g t ptr
own_step g t (moves offered ptr new_ptr new_size) = realloc g t offered ptr new_ptr new_size

-- The calls in order, or nothing where one waits forever
unfoldable pub own_run : Globals → Thread → List OwnCall → Option (Globals × Thread)
unfolding waits own_step
own_run g t [] = some (g, t)
own_run g t (c ∷ calls) =
    let (g', t') = own_step g t c in
    let rest = own_run g' t' calls in if waits g t c then none else rest

module _ (resolve : ℕ → List Symbol) where
  -- The loop over `data.ips`
  unfoldable pub symbolize : List ℕ → List (List Symbol)
  symbolize [] = []
  symbolize (ip ∷ ips) = push_unless_empty (resolve ip) (symbolize ips)

  abbrev pub record_of : ℕ → CallsiteData → HeapRecord
  record_of now d = record {
    frames = record {
      frames = symbolize d.ips;
      thread_name = [];
      thread_id = 0;
      sample_timestamp = now;
    };
    alloc_objects = d.alloc_objects;
    alloc_bytes = d.alloc_bytes;
    inuse_objects = d.inuse_objects;
    inuse_bytes = d.inuse_bytes;
  }

  module _ (now : ℕ → ℕ) (own : ℕ → List OwnCall) where
    abbrev pub record_at : ℕ → Option (ℕ × CallsiteData) → List HeapRecord
    record_at i none = []
    record_at i (some (id, d)) = record_of (now i) d ∷ []

    -- The loop over the call sites: what the record needs is allocated, then the clock and the
    -- counters are read. While `callsites` is locked, no call site comes or goes.
    unfoldable pub record_loop :
        ℕ → ℕ → Globals → Thread → Option ((Globals × Thread) × List HeapRecord)
    unfolding own_run
    record_loop i zero g t = some ((g, t), [])
    record_loop i (suc left) g t = do
      (g', t') ← own_run g t (own i)
      (after, rest) ← record_loop (i + 1) left g' t'
      some (after, record_at i (get_elem? g'.heap.callsites i) ++ rest)

    -- `heap_report`, or nothing where it waits forever
    unfoldable pub heap_report : ℕ → Globals → Thread → Option ((Globals × Thread) × HeapReport)
    unfolding record_loop
    heap_report end g t = do
      (after, records) ← record_loop 0 (length g.heap.callsites) g t
      some (after, record { records = records; sample_rate = after.0.sample_rate; timestamp = end })

-- The sum of the records' bytes in use, a negative one counted as zero.
unfoldable pub sum_inuse : List HeapRecord → ℕ
sum_inuse [] = 0
sum_inuse (r ∷ records) = add64 (max_zero r.inuse_bytes) (sum_inuse records)

unfoldable pub sum_alloc : List HeapRecord → ℕ
sum_alloc [] = 0
sum_alloc (r ∷ records) = add64 r.alloc_bytes (sum_alloc records)

unfoldable pub total_inuse_bytes : HeapReport → ℕ
unfolding sum_inuse
total_inuse_bytes h = sum_inuse h.records

unfoldable pub total_alloc_bytes : HeapReport → ℕ
unfolding sum_alloc
total_alloc_bytes h = sum_alloc h.records

-- `sample_rate as i32`
abbrev pub as_i32 : ℕ → ℤ
as_i32 n = let low = n % 2 ^ 32 in if ltb low (2 ^ 31) then pos low else negsuc (2 ^ 32 - low - 1)

abbrev pub snapshot_timing : HeapReport → ReportTiming
snapshot_timing h = record {
  frequency = as_i32 h.sample_rate;
  start_time = h.timestamp;
  duration = 0;
  clock_type = ClockType.cpu;
}

module _ {Frame : Type 0} (env : Resolver Frame) where
  -- The loops of `to_inuse_report` and `to_alloc_report`, on a signed and an unsigned count.
  unfoldable pub insert_inuse : HashMap Frames → List HeapRecord → HashMap Frames
  insert_inuse m [] = m
  insert_inuse m (r ∷ records) =
      insert_inuse
        (if lts 0 r.inuse_bytes
          then (insert ⦃key = resolved_key env⦄ r.frames r.inuse_bytes m).0
          else m)
        records

  unfoldable pub insert_alloc : HashMap Frames → List HeapRecord → HashMap Frames
  insert_alloc m [] = m
  insert_alloc m (r ∷ records) =
      insert_alloc
        (if ltb 0 r.alloc_bytes
          then (insert ⦃key = resolved_key env⦄ r.frames r.alloc_bytes m).0
          else m)
        records

  unfoldable pub to_inuse_report : HeapReport → Report Frames
  to_inuse_report h = record {
    counts = insert_inuse [] h.records;
    timing = snapshot_timing h;
    missed_samples = 0;
  }

  unfoldable pub to_alloc_report : HeapReport → Report Frames
  to_alloc_report h = record {
    counts = insert_alloc [] h.records;
    timing = snapshot_timing h;
    missed_samples = 0;
  }
