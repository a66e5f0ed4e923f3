-- ===== src/Heap/Refinement.antt =====
-- src/alloc.rs, lines 146-305: the state of the heap profiler, seen as a map from the live blocks that
-- were sampled to their stacks and sizes, and its operations as those of such a map.
pub mod Lookups
pub mod Named
pub mod Blocks
use pprof_rs.Prelude.{
  ℕ, suc, ◌+◌, ◌-◌, ltb, take_nil, ◌≡◌, refl, ap, sym, word, ◌<◌, ◌∙◌, Bool, not, ◌&&◌, ◌||◌,
  Option, none, some, List, [], ◌∷◌, lts, ◌==◌, if◌then◌else◌, take, Bool-cases, inl, inr, arith,
}
use pprof_rs.Frames.{max_depth}
use pprof_rs.Heap.{
  HeapState, new, capture, record_sample, record_dealloc, alloc, dealloc, realloc, start, stop,
  reset, reset_state, set_sample_rate, sub64, Globals, Thread,
}
use pprof_rs.Heap.Refinement.Named.{block_at, IsNamed}
use pprof_rs.Heap.Refinement.Blocks.{
  record_sample-block_at, record_sample-IsNamed, record_dealloc-block_at, record_dealloc-IsNamed,
  reset_state-block_at, reset_state-IsNamed, new-IsNamed, new-block_at,
}
use pprof_rs.Heap.Invariant.{
  tracked, reset_state-IsSound, new-IsSound, IsSound, record_sample-IsSound, record_dealloc-IsSound,
}
use pprof_rs.Heap.Run.{
  World, begin, Event, allocs, deallocs, reallocs, starts, stops, resets, sets_rate, step, run,
  AllAllowed, Allowed,
}

-- The live blocks that were sampled, with the stack of the allocation and the size.
abbrev pub Blocks : Type 0
Blocks = ℕ → Option (List ℕ × ℕ)

abbrev pub put : ℕ → List ℕ × ℕ → Blocks → Blocks
put ptr block b q = if q == ptr then some block else b q

abbrev pub remove : ℕ → Blocks → Blocks
remove ptr b q = if q == ptr then none else b q

-- Profiling is on, and the thread is not inside the profiler.
abbrev pub is_watched : Globals → Thread → Bool
is_watched g t = g.is_profiling && not t.in_alloc

-- The allocation uses up the thread's bytes.
abbrev pub is_due : Thread → ℕ → Bool
is_due t size = not (lts 0 (sub64 t.bytes_left size))

-- What an event does to the blocks, given the switches and the thread's cells in the world.
unfoldable pub track : World → Event → Blocks → Blocks
track w (allocs i offered ptr size) b =
    if not (ptr == 0) && is_watched w.globals (w.threads i) && is_due (w.threads i) size
    then put ptr (take max_depth offered, size) b
    else b
track w (deallocs i ptr) b = if is_watched w.globals (w.threads i) then remove ptr b else b
track w (reallocs i offered ptr new_ptr new_size) b =
    if not (new_ptr == 0) && is_watched w.globals (w.threads i)
    then put new_ptr (take max_depth offered, new_size) (remove ptr b)
    else b
track w resets b = λ _. none
track w starts b = b
track w stops b = b
track w (sets_rate rate_bytes) b = b

unfoldable pub track_all : World → List Event → Blocks → Blocks
track_all w [] b = b
track_all w (e ∷ es) b = track_all (step w e) es (track w e b)

-- `capture` takes the first `max_depth` frames.
pub capture_from :
    (depth : ℕ) (offered : List ℕ)
    → depth < max_depth
    → capture depth offered ≡ take (max_depth - depth) offered
unfolding capture
capture_from depth [] h = sym (take_nil (max_depth - depth))
capture_from depth (ip ∷ offered) h =
    let room : max_depth - depth ≡ suc (max_depth - (depth + 1)) = omega arith in
    elim (Bool-cases (ltb (depth + 1) max_depth)) [
      | inl more ↦ rw (more, room, capture_from (depth + 1) offered (ground arith)) refl
      | inr full ↦
          let none_left : max_depth - (depth + 1) ≡ 0 = ground arith in
          rw (full, room, none_left) refl
    ]

pub alloc_heap :
    (g : Globals) (t : Thread) (offered : List ℕ) (ptr size : ℕ)
    → (alloc g t offered ptr size).0.heap ≡ (
        if not (ptr == 0) && is_watched g t && is_due t size
        then record_sample g.heap offered ptr size
        else g.heap)
unfolding alloc
alloc_heap g t offered ptr size = elim (Bool-cases (ptr == 0)) [
  | inl null ↦ rw null refl
  | inr some_ptr ↦ elim (Bool-cases g.is_profiling) [
    | inr off ↦ rw (some_ptr, off) refl
    | inl on ↦ elim (Bool-cases t.in_alloc) [
      | inl inner ↦ rw (some_ptr, on, inner) refl
      | inr outer ↦ elim (Bool-cases (lts 0 (sub64 t.bytes_left size))) [
        | inl left ↦ rw (some_ptr, on, outer, left) refl
        | inr out ↦ rw (some_ptr, on, outer, out) refl
      ]
    ]
  ]
]

pub dealloc_heap :
    (g : Globals) (t : Thread) (ptr : ℕ)
    → (dealloc g t ptr).0.heap ≡ (if is_watched g t then record_dealloc g.heap ptr else g.heap)
unfolding dealloc
dealloc_heap g t ptr = elim (Bool-cases (is_watched g t)) [
  | inl on ↦ rw on refl
  | inr off ↦ rw off refl
]

pub realloc_heap :
    (g : Globals) (t : Thread) (offered : List ℕ) (ptr new_ptr new_size : ℕ)
    → (realloc g t offered ptr new_ptr new_size).0.heap ≡ (
        if not (new_ptr == 0) && is_watched g t
        then record_sample (record_dealloc g.heap ptr) offered new_ptr new_size
        else g.heap)
unfolding realloc
realloc_heap g t offered ptr new_ptr new_size = elim (Bool-cases (new_ptr == 0)) [
  | inl null ↦ rw null refl
  | inr some_ptr ↦ elim (Bool-cases g.is_profiling) [
    | inr off ↦ rw (some_ptr, off) refl
    | inl on ↦ elim (Bool-cases t.in_alloc) [
      | inl inner ↦ rw (some_ptr, on, inner) refl
      | inr outer ↦ rw (some_ptr, on, outer) refl
    ]
  ]
]

-- The heap stands for the blocks, and stays fit for it.
pub record Stands (s : HeapState) (b : Blocks) : Type 0 where
  pub sound : IsSound s
  pub named : IsNamed s
  pub agrees : (q : ℕ) → block_at s q ≡ b q

pub sampled-Stands :
    (s : HeapState) (b : Blocks) (offered : List ℕ) (ptr size : ℕ)
    → tracked s ptr ≡ none
    → s.next_callsite_id + 1 < word
    → Stands s b
    → Stands (record_sample s offered ptr size) (put ptr (take max_depth offered, size) b)
sampled-Stands s b offered ptr size fresh room h = record {
  sound = record_sample-IsSound s offered ptr size h.sound fresh room;
  named = record_sample-IsNamed s offered ptr size h.sound h.named room;
  agrees = λ q.
      record_sample-block_at s offered ptr size q h.sound h.named room
      ∙ ap (λ ips. if q == ptr then some (ips, size) else block_at s q)
          (capture_from 0 offered (omega arith))
      ∙ ap (λ o. if q == ptr then some (take max_depth offered, size) else o) (h.agrees q);
}

pub freed-Stands :
    (s : HeapState) (b : Blocks) (ptr : ℕ)
    → Stands s b
    → Stands (record_dealloc s ptr) (remove ptr b)
freed-Stands s b ptr h = record {
  sound = record_dealloc-IsSound s ptr h.sound;
  named = record_dealloc-IsNamed s ptr h.sound h.named;
  agrees = λ q.
      record_dealloc-block_at s ptr q h.sound h.named
      ∙ ap (λ o. if q == ptr then none else o) (h.agrees q);
}

step-Stands :
    (w : World) (e : Event) (b : Blocks)
    → Allowed w e
    → Stands w.globals.heap b
    → Stands (step w e).globals.heap (track w e b)
unfolding step track start stop reset set_sample_rate
step-Stands w (allocs i offered ptr size) b (fresh, room) h =
    rw (alloc_heap w.globals (w.threads i) offered ptr size)
      (elim (Bool-cases
        (not (ptr == 0) && is_watched w.globals (w.threads i) && is_due (w.threads i) size)) [
          | inl due ↦ rw due (sampled-Stands w.globals.heap b offered ptr size fresh room h)
          | inr not_due ↦ rw not_due h
        ])
step-Stands w (deallocs i ptr) b a h =
    rw (dealloc_heap w.globals (w.threads i) ptr)
      (elim (Bool-cases (is_watched w.globals (w.threads i))) [
        | inl on ↦ rw on (freed-Stands w.globals.heap b ptr h)
        | inr off ↦ rw off h
      ])
step-Stands w (reallocs i offered ptr new_ptr new_size) b (fresh, room) h =
    rw (realloc_heap w.globals (w.threads i) offered ptr new_ptr new_size)
      (elim (Bool-cases (not (new_ptr == 0) && is_watched w.globals (w.threads i))) [
        | inl on ↦ rw on (
            sampled-Stands (record_dealloc w.globals.heap ptr) (remove ptr b) offered new_ptr
              new_size fresh room (freed-Stands w.globals.heap b ptr h))
        | inr off ↦ rw off h
      ])
step-Stands w resets b a h = record {
  sound = reset_state-IsSound w.globals.heap h.sound;
  named = reset_state-IsNamed w.globals.heap;
  agrees = reset_state-block_at w.globals.heap;
}
step-Stands w starts b a h = h
step-Stands w stops b a h = h
step-Stands w (sets_rate rate_bytes) b a h = h

run-Stands :
    (w : World) (es : List Event) (b : Blocks)
    → AllAllowed w es
    → Stands w.globals.heap b
    → Stands (run w es).globals.heap (track_all w es b)
unfolding run track_all
run-Stands w [] b a h = h
run-Stands w (e ∷ es) b a h = run-Stands (step w e) es (track w e b) a.1 (step-Stands w e b a.0 h)

-- After any sequence of events from the program's start in which no new block has the address of
-- a tracked one, and in which call sites do not run out of numbers, the shards and the call sites
-- together hold for each address what a plain map of the sampled live blocks holds: the first
-- `max_depth` frames of the allocation and the size, or nothing.
pub run-block_at :
    (es : List Event) (q : ℕ)
    → AllAllowed begin es
    → block_at (run begin es).globals.heap q ≡ track_all begin es (λ _. none) q
run-block_at es q a =
    (run-Stands begin es (λ _. none) a
        (record { sound = new-IsSound; named = new-IsNamed; agrees = new-block_at })).agrees
      q
