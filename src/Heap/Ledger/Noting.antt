-- ===== src/Heap/Ledger/Noting.antt =====
-- src/alloc.rs, lines 146-208: a book of the blocks that a program holds, and what events do to it.
use pprof_rs.Prelude.{
  ℕ, ◌+◌, ◌<◌, ◌≡◌, true, not, ◌&&◌, ◌⊎◌, none, List, [], ◌∷◌, ◌==◌, if◌then◌else◌, take, word,
  Dict, lookup, insert, erase, number_equality,
}
use pprof_rs.Frames.{max_depth}
use pprof_rs.Heap.Run.{
  World, Event, allocs, deallocs, reallocs, starts, stops, resets, sets_rate, step,
}
use pprof_rs.Heap.Refinement.{is_watched, is_due}

-- The blocks that were sampled and are still in the program's hands, by address: the first
-- `max_depth` frames of the allocation, and the size.
abbrev pub Book : Type 0
Book = Dict ℕ (List ℕ × ℕ)

-- What an event does to the book. Whether an allocation is sampled is the profiler's choice, but a
-- block that is freed or moved is gone, whatever the profiler does.
unfoldable pub note : World → Event → Book → Book
note w (allocs i offered ptr size) book =
    if not (ptr == 0) && is_watched w.globals (w.threads i) && is_due (w.threads i) size
    then insert ptr (take max_depth offered, size) book
    else book
note w (deallocs i ptr) book = erase ptr book
note w (reallocs i offered ptr new_ptr new_size) book =
    if new_ptr == 0
    then book
    else if is_watched w.globals (w.threads i)
    then insert new_ptr (take max_depth offered, new_size) (erase ptr book)
    else erase ptr book
note w resets book = []
note w starts book = book
note w stops book = book
note w (sets_rate rate_bytes) book = book

unfoldable pub note_all : World → List Event → Book → Book
note_all w [] book = book
note_all w (e ∷ es) book = note_all (step w e) es (note w e book)

-- The profiler is on for the thread, or the address is not that of a sampled block.
abbrev pub IsSeen : World → ℕ → ℕ → Book → Type 0
IsSeen w thread ptr book =
    (is_watched w.globals (w.threads thread) ≡ true) ⊎ (lookup ptr book ≡ none)

abbrev pub HasRoom : World → Type 0
HasRoom w = w.globals.heap.next_callsite_id + 1 < word

-- The allocator returns no address of a sampled block that the program still holds, a sampled
-- block is freed or moved while the profiler is on, and numbers are left for call sites.
abbrev pub IsPermitted : World → Book → Event → Type 0
IsPermitted w book (allocs i offered ptr size) = (lookup ptr book ≡ none) × HasRoom w
IsPermitted w book (deallocs i ptr) = IsSeen w i ptr book
IsPermitted w book (reallocs i offered ptr new_ptr new_size) =
    ((new_ptr ≡ 0) ⊎ IsSeen w i ptr book) × (lookup new_ptr (erase ptr book) ≡ none) × HasRoom w
IsPermitted w book starts = Unit {0}
IsPermitted w book stops = Unit {0}
IsPermitted w book resets = Unit {0}
IsPermitted w book (sets_rate rate_bytes) = Unit {0}

abbrev pub AllPermitted : World → Book → List Event → Type 0
AllPermitted w book [] = Unit {0}
AllPermitted w book (e ∷ es) = IsPermitted w book e × AllPermitted (step w e) (note w e book) es
