-- ===== src/Tests/Allocating.antt =====
-- The theorems on the heap profiler, run on a program that allocates two blocks and frees one.
use pprof_rs.Prelude.{
  same_list, map, lookup, insert, erase, modify, ℕ, ◌+◌, ◌<◌, ◌≤◌, ◌≡◌, refl, true, false, none,
  some, inl, inr, length, List, [], ◌∷◌, ◌++◌, sum_by, arith,
}
use pprof_rs.Frames.Resolved.{frames_eq}
use pprof_rs.Frames.{raw_name, Symbol, Frames}
use pprof_rs.Heap.{
  Globals, Thread, alloc, dealloc, record_dealloc, callsite_of, shard_idx, capture, start, stop,
  set_sample_rate, record_sample, new,
}
use pprof_rs.Heap.Ledger.{run-IsCharged, heap_report-total}
use pprof_rs.Heap.Ledger.Noting.{note, note_all, AllPermitted}
use pprof_rs.Heap.Ledger.Charges.{bytes_of_all, IsCharged}
use pprof_rs.Heap.Refinement.{track, track_all, run-block_at}
use pprof_rs.Heap.Refinement.Named.{block_at}
use pprof_rs.Heap.Run.{
  step, Event, allocs, deallocs, starts, stops, sets_rate, run, begin, AllAllowed,
}
use pprof_rs.Heap.Report.Snapshot.{QuietFrom, off-QuietFrom}
use pprof_rs.Heap.Sampling.{Call, IsBlock, size_of, alloc_all, alloc_all_samples}
use pprof_rs.Heap.Report.{
  HeapRecord, HeapReport, OwnCall, allocates, frees, moves, own_step, heap_report,
  total_inuse_bytes, to_inuse_report,
}
use pprof_rs.Heap.Report.Conversion.{Unequal, to_inuse_report-total}
use pprof_rs.Report.{total_samples}
use pprof_rs.Tests.Fixtures.{numbers, symbol_of}

abbrev pub path_a : List ℕ
path_a = 20 ∷ 21 ∷ []

abbrev pub path_b : List ℕ
path_b = 20 ∷ 22 ∷ []

abbrev path_c : List ℕ
path_c = 30 ∷ []

-- Two blocks from two call sites, of which the first is freed.
abbrev program : List Event
program =
    starts
    ∷ sets_rate 100
    ∷ allocs 0 path_a 4096 600
    ∷ allocs 0 path_b 8192 700
    ∷ deallocs 0 4096
    ∷ []

program_allowed : AllAllowed begin program
unfolding step alloc record_sample callsite_of shard_idx capture start set_sample_rate new lookup
    insert modify
program_allowed = (tt, (tt, ((refl, omega arith), ((refl, omega arith), (tt, tt)))))

program_permitted : AllPermitted begin [] program
unfolding step alloc record_sample callsite_of shard_idx capture start set_sample_rate new lookup
    insert modify note
program_permitted = (tt, (tt, ((refl, omega arith), ((refl, omega arith), (inl refl, tt)))))

run-IsCharged_example :
    IsCharged (run begin program).globals.heap.callsites (note_all begin program [])
run-IsCharged_example = run-IsCharged program program_permitted

run-block_at_example :
    block_at (run begin program).globals.heap 8192 ≡ track_all begin program (λ _. none) 8192
run-block_at_example = run-block_at program 8192 program_allowed

-- What that is: the stack of the second allocation, and its size.
program_blocks : track_all begin program (λ _. none) 8192 ≡ some (path_b, 700)
unfolding track_all track step alloc dealloc record_sample record_dealloc callsite_of shard_idx
    capture start set_sample_rate new lookup insert erase modify same_list
program_blocks = refl

abbrev letter : ℕ → List Symbol
letter ip = symbol_of ip ∷ []

-- It ends with 700 bytes in its hands.
program_bytes : bytes_of_all (note_all begin program []) ≡ 700
unfolding note_all note step alloc dealloc record_sample record_dealloc callsite_of shard_idx
    capture start set_sample_rate new lookup insert erase modify sum_by same_list
program_bytes = refl

-- For each record the snapshot allocates a vector of thirty bytes, and frees it.
abbrev small_vector : ℕ → List OwnCall
small_vector i = allocates path_c 12288 30 ∷ frees 12288 ∷ []

small_quiet :
    QuietFrom small_vector
      (run begin program).globals
      ((run begin program).threads 0)
      0
      (length (run begin program).globals.heap.callsites)
unfolding own_step run step alloc dealloc record_sample record_dealloc callsite_of shard_idx capture
    start set_sample_rate new lookup insert erase modify same_list
small_quiet = ((inr (inr refl), (inr refl, tt)), ((inr (inr refl), (inr refl, tt)), tt))

heap_report-total_example :
    (t : Thread) × (report : HeapReport) × (heap_report letter
        (λ i. i)
        small_vector
        9
        (run begin program).globals
        ((run begin program).threads 0)
      ≡ some (((run begin program).globals, t), report))
    × (total_inuse_bytes report ≡ bytes_of_all (note_all begin program []))
heap_report-total_example =
    heap_report-total letter program 0 small_vector (λ i. i) 9 program_permitted small_quiet
      (rw program_bytes (omega arith))

-- A vector of the snapshot is allocated and moved, which the profiler notices unless it is off.
abbrev own_vector : ℕ → List OwnCall
own_vector i = allocates path_c 12288 256 ∷ moves path_c 12288 16384 512 ∷ []

vector_quiet :
    QuietFrom own_vector
      (run begin (program ++ stops ∷ [])).globals
      ((run begin (program ++ stops ∷ [])).threads 0)
      0
      (length (run begin (program ++ stops ∷ [])).globals.heap.callsites)
unfolding run step stop
vector_quiet =
    off-QuietFrom own_vector (run begin (program ++ stops ∷ [])).globals
      ((run begin (program ++ stops ∷ [])).threads 0) 0
      (length (run begin (program ++ stops ∷ [])).globals.heap.callsites) refl

-- While profiling is on, the snapshot with this vector waits forever for its own lock.
snapshot_waits :
    heap_report letter
      (λ i. i)
      own_vector
      9
      (run begin program).globals
      ((run begin program).threads 0)
    ≡ none
unfolding heap_report run step alloc dealloc record_sample record_dealloc callsite_of shard_idx
    capture start set_sample_rate new lookup insert erase modify same_list
snapshot_waits = refl

-- Three blocks of sixty bytes, of which the second makes the thread run out of bytes.
abbrev sixty : Call
sixty = record { offered = path_a; ptr = 4096; size = 60 }

abbrev blocks : List Call
blocks = sixty ∷ sixty ∷ sixty ∷ []

abbrev profiled : Globals
profiled = record { is_profiling = true; sample_rate = 100; heap = new }

abbrev hundred_left : Thread
hundred_left = record { in_alloc = false; bytes_left = 100 }

sixty-IsBlock : IsBlock sixty
sixty-IsBlock = (omega arith, omega arith)

blocks_size : sum_by size_of blocks ≡ 180
unfolding sum_by
blocks_size = refl

alloc_all_samples_example :
    (pre : List Call) × (c : Call) × (post : List Call) × (blocks ≡ pre ++ c ∷ post)
    × (sum_by size_of pre < 100)
    × (100 ≤ sum_by size_of pre + c.size)
    × (alloc_all profiled hundred_left (pre ++ c ∷ []) ≡ (
      record profiled { heap = record_sample new c.offered c.ptr c.size },
      record hundred_left { in_alloc = false; bytes_left = 100 },
    ))
alloc_all_samples_example =
    alloc_all_samples profiled refl hundred_left blocks refl (omega arith) (omega arith)
      (sixty-IsBlock, (sixty-IsBlock, (sixty-IsBlock, tt))) (rw blocks_size (omega arith))

-- Two records of different stacks.
abbrev frames_of : List ℕ → Frames
frames_of ips = record {
  frames = map letter ips;
  thread_name = [];
  thread_id = 0;
  sample_timestamp = 5;
}

abbrev record_of : List ℕ → ℕ → HeapRecord
record_of ips bytes = record {
  frames = frames_of ips;
  alloc_objects = 2;
  alloc_bytes = 900;
  inuse_objects = 1;
  inuse_bytes = bytes;
}

abbrev pub two_records : HeapReport
two_records = record {
  records = record_of path_a 300 ∷ record_of path_b 400 ∷ [];
  sample_rate = 100;
  timestamp = 9;
}

two_records-Unequal : Unequal two_records.records
unfolding frames_eq raw_name
two_records-Unequal = ((refl, tt), (tt, tt))

to_inuse_report-total_example :
    total_samples (to_inuse_report numbers two_records).counts ≡ total_inuse_bytes two_records
to_inuse_report-total_example = to_inuse_report-total numbers two_records two_records-Unequal
