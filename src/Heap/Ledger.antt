-- ===== src/Heap/Ledger.antt =====
-- src/alloc.rs, lines 146-308 and 532-577: the heap profiler against a book of the blocks that the
-- program holds. A block leaves the book when the program frees or moves it, whether the profiler
-- takes notice or not.
pub mod Weights
pub mod Stacks
pub mod Noting
pub mod Matching
pub mod Charges
use pprof_rs.Prelude.{
  length, ℕ, ◌+◌, ◌%◌, ◌<◌, ◌≡◌, refl, ap, sym, ◌∙◌, Bool, true, false, not, ◌&&◌, ◌⊎◌, inl, inr,
  Option, none, some, List, [], ◌∷◌, ◌==◌, ==_iff, if◌then◌else◌, take, word, half_word, arith,
  Bool-cases, All, All-imp, Dict, lookup, insert, erase, NodupKeys, has_key, number_equality,
  sum_by, of_value, of_option, same_list, same_list_iff,
}
use pprof_rs.Frames.{Symbol, max_depth}
use pprof_rs.Heap.{
  Thread, CallsiteData, HeapState, record_sample, record_dealloc, start, stop, reset,
  set_sample_rate,
}
use pprof_rs.Heap.Tracked.{held, objects_of, bytes_of}
use pprof_rs.Heap.Invariant.{Exact, tracked}
use pprof_rs.Heap.Run.{
  World, begin, Event, allocs, deallocs, reallocs, starts, stops, resets, sets_rate, step, run,
}
use pprof_rs.Heap.Refinement.Lookups.{erase_absent}
use pprof_rs.Heap.Refinement.{is_watched, is_due, alloc_heap, dealloc_heap, realloc_heap}
use pprof_rs.Heap.Refinement.Lookups.{ips_at}
use pprof_rs.Heap.Refinement.Named.{block_at, block_of, with_size}
use pprof_rs.Heap.Report.{HeapReport, OwnCall, heap_report, total_inuse_bytes}
use pprof_rs.Heap.Report.Snapshot.{QuietFrom, snapshot, heap_report_quiet}
use pprof_rs.Heap.Report.Totals.{snapshot-held}
use pprof_rs.Heap.Ledger.Weights.{weight_of, held_same}
use pprof_rs.Heap.Ledger.Stacks.{AllListed, listed_id}
use pprof_rs.Heap.Ledger.Noting.{Book, note, note_all, IsPermitted, AllPermitted}
use pprof_rs.Heap.Ledger.Matching.{
  Matches, known_stack, sampled-Matches, freed-Matches, next_after_dealloc, new-Matches,
  reset_state-Matches,
}
use pprof_rs.Heap.Ledger.Charges.{
  bytes_of_all, IsCharged, counters_of, own_stacks, own_entries, site_of,
}

step-Matches :
    (w : World) (e : Event) (book : Book)
    → IsPermitted w book e
    → Matches w.globals.heap book
    → Matches (step w e).globals.heap (note w e book)
unfolding step note start stop reset set_sample_rate
step-Matches w (allocs i offered ptr size) book (absent, room) m =
    rw (alloc_heap w.globals (w.threads i) offered ptr size)
      (elim (Bool-cases
        (not (ptr == 0) && is_watched w.globals (w.threads i) && is_due (w.threads i) size)) [
          | inl due ↦ rw due (sampled-Matches w.globals.heap book offered ptr size absent room m)
          | inr not_due ↦ rw not_due m
        ])
step-Matches w (deallocs i ptr) book seen m =
    rw (dealloc_heap w.globals (w.threads i) ptr)
      (elim (Bool-cases (is_watched w.globals (w.threads i))) [
        | inl on ↦ rw on (freed-Matches w.globals.heap book ptr m)
        | inr off ↦ rw off (elim seen [
          | inl on ↦ absurd (cc (on, off))
          | inr absent ↦ rw (erase_absent ptr book absent) m
        ])
      ])
step-Matches w (reallocs i offered ptr new_ptr new_size) book (seen, absent, room) m =
    rw (realloc_heap w.globals (w.threads i) offered ptr new_ptr new_size)
      (elim (Bool-cases (new_ptr == 0)) [
        | inl null ↦ rw null m
        | inr moved ↦ elim (Bool-cases (is_watched w.globals (w.threads i))) [
          | inl on ↦
              let next = next_after_dealloc w.globals.heap ptr in
              rw (moved, on)
                (sampled-Matches (record_dealloc w.globals.heap ptr) (erase ptr book) offered
                  new_ptr new_size absent (rw next room) (freed-Matches w.globals.heap book ptr m))
          | inr off ↦
              rw (moved, off)
                (elim seen [
                  | inl null ↦ absurd (ground (arith, null, moved))
                  | inr (inl on) ↦ absurd (cc (on, off))
                  | inr (inr unsampled) ↦ rw (erase_absent ptr book unsampled) m
                ])
        ]
      ])
step-Matches w resets book a m = reset_state-Matches w.globals.heap book m
step-Matches w starts book a m = m
step-Matches w stops book a m = m
step-Matches w (sets_rate rate_bytes) book a m = m

run-Matches :
    (w : World) (es : List Event) (book : Book)
    → AllPermitted w book es
    → Matches w.globals.heap book
    → Matches (run w es).globals.heap (note_all w es book)
unfolding run note_all
run-Matches w [] book a m = m
run-Matches w (e ∷ es) book a m =
    run-Matches (step w e) es (note w e book) a.1 (step-Matches w e book a.0 m)

-- From the program's start, after any events in which the allocator returns no address of a
-- sampled block that the program still holds, sampled blocks are freed and moved only while
-- profiling is on for the thread, and call sites do not run out of numbers, the counters of every
-- call site in use are the number and the bytes, modulo the word, of the sampled blocks of its
-- stack that the program still holds; and each of these blocks has a call site of its stack.
pub run-IsCharged :
    (es : List Event)
    → AllPermitted begin [] es
    → IsCharged (run begin es).globals.heap.callsites (note_all begin es [])
unfolding block_at
run-IsCharged es a =
    let s = (run begin es).globals.heap in
    let m = run-Matches begin es [] a new-Matches in
    record {
      counters =
          counters_of s (note_all begin es []) s.callsites m m.stands.sound.exact
            (own_stacks s.callsites m.stands.sound.distinct);
      has_site =
          All-imp _ (λ b. (id : ℕ) × (ips_at id s.callsites ≡ some b.1.0))
            (λ b found. site_of s.callsites (tracked s b.0) b.1 (m.stands.agrees b.0 ∙ found))
            (note_all begin es []) (own_entries (note_all begin es []) m.distinct);
    }

-- From the program's start, after events that meet the conditions of `run-IsCharged`, if the
-- profiler does not notice what the snapshot allocates itself, since profiling is off, or since
-- none of its calls uses up the thread's bytes, frees a tracked block or moves a block, a
-- snapshot returns and leaves the profiler's globals as they were, whatever symbols are found.
-- Its bytes in use are the bytes of the sampled blocks that the program still holds, if these are
-- less than 2 ^ 63.
pub heap_report-total :
    (resolve : ℕ → List Symbol) (es : List Event) (thread : ℕ) (own : ℕ → List OwnCall)
    (now : ℕ → ℕ) (end : ℕ)
    → AllPermitted begin [] es
    → QuietFrom own
        (run begin es).globals
        ((run begin es).threads thread)
        0
        (length (run begin es).globals.heap.callsites)
    → bytes_of_all (note_all begin es []) < half_word
    → (t : Thread) × (report : HeapReport) × (heap_report resolve now own end
          (run begin es).globals
          ((run begin es).threads thread)
        ≡ some (((run begin es).globals, t), report))
      × (total_inuse_bytes report ≡ bytes_of_all (note_all begin es []))
heap_report-total resolve es thread own now end a quiet small =
    let w = run begin es in
    let s = w.globals.heap in
    let m = run-Matches begin es [] a new-Matches in
    let all_held : held (λ v. v.1) s.shards ≡ bytes_of_all (note_all begin es []) =
      held_same s.callsites (λ v. v.1) (weight_of (λ b. b.1) s.callsites)
        (λ v known.
          let (stack, at) = known_stack v.0 s.callsites known in
          sym (ap (λ o. of_option (λ (b : List ℕ × ℕ). b.1) (with_size v.1 o)) at))
        s.shards m.stands.sound.owned
      ∙ m.balanced (λ b. b.1) in
    let (t, ran) = heap_report_quiet resolve now own end w.globals (w.threads thread) quiet in
    (
      t,
      snapshot resolve now end w.globals,
      ran,
      snapshot-held resolve now end w.globals m.stands.sound (omega (arith, all_held, small))
          ∙ all_held,
    )
