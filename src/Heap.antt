-- ===== src/Heap.antt =====
-- src/alloc.rs, lines 15-308: the heap profiler's state, and what it does when the program allocates.
-- A `HashMap` is a `Dict`. Locks are never poisoned, since nothing panics while one is held. What
-- `record_sample` and `record_dealloc` allocate is passed over, since `IN_ALLOC` is set; it is not in
-- `heap_report` (Heap/Report). Each operation is one step; a call of `try_with` succeeds, since the
-- cells have no destructor.
pub mod Tracked
pub mod Invariant
pub mod Run
pub mod Sampling
pub mod Report
pub mod Refinement
pub mod Ledger
use pprof_rs.Prelude.{
  ℕ, ◌+◌, ◌-◌, ◌*◌, ◌/◌, ◌%◌, ◌^◌, Bool, true, false, not, ◌&&◌, ◌||◌, Option, none, some, List, [],
  ◌∷◌, ltb, lts, add64, word, ◌==◌, if◌then◌else◌, get_elem?, set, replicate, Dict, lookup, insert,
  erase, modify, number_equality, list_equality,
}
use pprof_rs.Frames.{max_depth}

abbrev pub default_sample_rate : ℕ
default_sample_rate = 512 * 1024

abbrev pub num_shards : ℕ
num_shards = 32

-- The pointer's call site and size.
abbrev pub Shard : Type 0
Shard = Dict ℕ (ℕ × ℕ)

-- The counters are words; `inuse_objects` and `inuse_bytes` are signed.
pub record CallsiteData : Type 0 where
  pub ips : List ℕ
  pub alloc_objects : ℕ
  pub alloc_bytes : ℕ
  pub inuse_objects : ℕ
  pub inuse_bytes : ℕ

-- `shards` has `num_shards` entries.
pub record HeapState : Type 0 where
  pub shards : List Shard
  pub callsite_map : Dict (List ℕ) ℕ
  pub callsites : Dict ℕ CallsiteData
  pub next_callsite_id : ℕ

-- `HeapState::new`
unfoldable pub new : HeapState
new = record {
  shards = replicate num_shards [];
  callsite_map = [];
  callsites = [];
  next_callsite_id = 1;
}

-- The loop of `HeapState::reset`
unfoldable pub clear : List Shard → List Shard
clear [] = []
clear (shard ∷ shards) = [] ∷ clear shards

-- `HeapState::reset`
unfoldable pub reset_state : HeapState → HeapState
unfolding clear
reset_state s = record {
  shards = clear s.shards;
  callsite_map = [];
  callsites = [];
  next_callsite_id = 1;
}

-- `(ptr >> 4) % NUM_SHARDS`
unfoldable pub shard_idx : ℕ → ℕ
shard_idx ptr = ptr / 2 ^ 4 % num_shards

abbrev pub shard_at : List Shard → ℕ → Shard
shard_at shards i = elim (get_elem? shards i) [ none ↦ [] | some shard ↦ shard ]

-- `a - b` on words.
abbrev pub sub64 : ℕ → ℕ → ℕ
sub64 a b = (a + (word - b % word)) % word

abbrev pub fresh_data : List ℕ → CallsiteData
fresh_data ips = record {
  ips = ips;
  alloc_objects = 0;
  alloc_bytes = 0;
  inuse_objects = 0;
  inuse_bytes = 0;
}

-- The first block of `record_sample`: the number of the stack, which a new stack gets.
unfoldable pub callsite_of : HeapState → List ℕ → HeapState × ℕ
callsite_of s ips = elim (lookup ips s.callsite_map) [
  | some id ↦ (s, id)
  | none ↦ (
    record s {
      callsite_map = insert ips s.next_callsite_id s.callsite_map;
      callsites = insert s.next_callsite_id (fresh_data ips) s.callsites;
      next_callsite_id = add64 s.next_callsite_id 1;
    },
    s.next_callsite_id,
  )
]

-- The counters' part of `record_sample`
abbrev pub count_alloc : ℕ → CallsiteData → CallsiteData
count_alloc size d = record d {
  alloc_objects = add64 d.alloc_objects 1;
  alloc_bytes = add64 d.alloc_bytes size;
  inuse_objects = add64 d.inuse_objects 1;
  inuse_bytes = add64 d.inuse_bytes size;
}

-- The callback that `record_sample` gives to the unwinder: it takes `max_depth` frames at most.
unfoldable pub capture : ℕ → List ℕ → List ℕ
capture depth [] = []
capture depth (ip ∷ offered) =
    let rest = capture (depth + 1) offered in ip ∷ (if ltb (depth + 1) max_depth then rest else [])

-- `record_sample`, with the frames that the unwinder offers.
unfoldable pub record_sample : HeapState → List ℕ → ℕ → ℕ → HeapState
record_sample s offered ptr size =
    let (found, id) = callsite_of s (capture 0 offered) in
    record found {
      callsites = modify id (count_alloc size) found.callsites;
      shards =
          set found.shards (shard_idx ptr)
            (insert ptr (id, size) (shard_at found.shards (shard_idx ptr)));
    }

-- The counters' part of `record_dealloc`
abbrev pub count_dealloc : ℕ → CallsiteData → CallsiteData
count_dealloc size d = record d {
  inuse_objects = sub64 d.inuse_objects 1;
  inuse_bytes = sub64 d.inuse_bytes size;
}

-- `record_dealloc`; the size in the layout is not used.
unfoldable pub record_dealloc : HeapState → ℕ → HeapState
record_dealloc s ptr =
    let shard = shard_at s.shards (shard_idx ptr) in
    let removed : HeapState = record s {
      shards = set s.shards (shard_idx ptr) (erase ptr shard);
    } in
    elim (lookup ptr shard) [
      | none ↦ removed
      | some (id, size) ↦ record removed { callsites = modify id (count_dealloc size) s.callsites }
    ]

-- The thread-local cells; `bytes_left` is an `isize`.
pub record Thread : Type 0 where
  pub in_alloc : Bool
  pub bytes_left : ℕ

abbrev pub new_thread : Thread
new_thread = record { in_alloc = false; bytes_left = 0 }

-- The statics `IS_PROFILING`, `SAMPLE_RATE` and `HEAP_STATE`.
pub record Globals : Type 0 where
  pub is_profiling : Bool
  pub sample_rate : ℕ
  pub heap : HeapState

-- `AllocProfiler::alloc`, given the pointer that the inner allocator returns (0 where it fails) and
-- the frames of the call.
unfoldable pub alloc : Globals → Thread → List ℕ → ℕ → ℕ → Globals × Thread
alloc g t offered ptr size =
    let remaining = sub64 t.bytes_left size in
    let sampled : Globals × Thread = (
      record g { heap = record_sample g.heap offered ptr size },
      record t { in_alloc = false; bytes_left = g.sample_rate },
    ) in
    if ptr == 0 || not g.is_profiling
    then (g, t)
    else if t.in_alloc
    then (g, t)
    else if not (lts 0 remaining)
    then sampled
    else (g, record t { bytes_left = remaining })

-- `AllocProfiler::dealloc`
unfoldable pub dealloc : Globals → Thread → ℕ → Globals × Thread
dealloc g t ptr =
    if g.is_profiling && not t.in_alloc
    then (record g { heap = record_dealloc g.heap ptr }, record t { in_alloc = false })
    else (g, t)

-- `AllocProfiler::realloc`, given the pointer that the inner allocator returns (0 where it fails).
unfoldable pub realloc : Globals → Thread → List ℕ → ℕ → ℕ → ℕ → Globals × Thread
realloc g t offered ptr new_ptr new_size =
    if new_ptr == 0 || not g.is_profiling then (g, t) else if t.in_alloc then (g, t) else (
      record g { heap = record_sample (record_dealloc g.heap ptr) offered new_ptr new_size },
      record t { in_alloc = false },
    )

unfoldable pub start : Globals → Globals
start g = record g { is_profiling = true }

unfoldable pub stop : Globals → Globals
stop g = record g { is_profiling = false }

unfoldable pub is_active : Globals → Bool
is_active g = g.is_profiling

unfoldable pub reset : Globals → Globals
reset g = record g { heap = reset_state g.heap }

unfoldable pub set_sample_rate : Globals → ℕ → Globals
set_sample_rate g rate_bytes = record g { sample_rate = if rate_bytes == 0 then 1 else rate_bytes }
