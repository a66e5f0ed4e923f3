-- ===== src/Heap/Run.antt =====
-- src/alloc.rs, lines 146-305: a program under the heap profiler, as a sequence of events.
use pprof_rs.Prelude.{ℕ, ◌+◌, ◌<◌, ◌≡◌, false, none, List, [], ◌∷◌, word, ◌==◌, if◌then◌else◌}
use pprof_rs.Heap.{
  record_dealloc, new, new_thread, default_sample_rate, Globals, Thread, alloc, dealloc, realloc,
  start, stop, reset, set_sample_rate,
}
use pprof_rs.Heap.Invariant.{tracked}

-- The globals, and the cells of each thread.
pub record World : Type 0 where
  pub globals : Globals
  pub threads : ℕ → Thread

-- What the program calls, with the pointers that the inner allocator returns.
pub data Event : Type 0 where
  allocs : (thread : ℕ) (offered : List ℕ) (ptr size : ℕ) → Event
  deallocs : (thread ptr : ℕ) → Event
  reallocs : (thread : ℕ) (offered : List ℕ) (ptr new_ptr new_size : ℕ) → Event
  starts stops resets : Event
  sets_rate : (rate_bytes : ℕ) → Event

abbrev pub at_thread : World → ℕ → Globals × Thread → World
at_thread w thread (g, t) = record {
  globals = g;
  threads = λ i. if i == thread then t else w.threads i;
}

unfoldable pub step : World → Event → World
step w (allocs i offered ptr size) = at_thread w i (alloc w.globals (w.threads i) offered ptr size)
step w (deallocs i ptr) = at_thread w i (dealloc w.globals (w.threads i) ptr)
step w (reallocs i offered ptr new_ptr new_size) =
    at_thread w i (realloc w.globals (w.threads i) offered ptr new_ptr new_size)
step w starts = record w { globals = start w.globals }
step w stops = record w { globals = stop w.globals }
step w resets = record w { globals = reset w.globals }
step w (sets_rate rate_bytes) = record w { globals = set_sample_rate w.globals rate_bytes }

unfoldable pub run : World → List Event → World
run w [] = w
run w (e ∷ es) = run (step w e) es

-- The program's start.
abbrev pub begin : World
begin = record {
  globals = record { is_profiling = false; sample_rate = default_sample_rate; heap = new };
  threads = λ _. new_thread;
}

-- A new block is not tracked already, and numbers are left for its call site.
abbrev pub Allowed : World → Event → Type 0
Allowed w (allocs i offered ptr size) =
    (tracked w.globals.heap ptr ≡ none) × (w.globals.heap.next_callsite_id + 1 < word)
Allowed w (deallocs i ptr) = Unit {0}
Allowed w (reallocs i offered ptr new_ptr new_size) =
    (tracked (record_dealloc w.globals.heap ptr) new_ptr ≡ none)
    × ((record_dealloc w.globals.heap ptr).next_callsite_id + 1 < word)
Allowed w starts = Unit {0}
Allowed w stops = Unit {0}
Allowed w resets = Unit {0}
Allowed w (sets_rate rate_bytes) = Unit {0}

abbrev pub AllAllowed : World → List Event → Type 0
AllAllowed w [] = Unit {0}
AllAllowed w (e ∷ es) = Allowed w e × AllAllowed (step w e) es
