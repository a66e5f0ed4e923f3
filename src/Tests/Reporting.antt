-- ===== src/Tests/Reporting.antt =====
-- The theorems on frames, the handler and the report at concrete inputs.
use pprof_rs.Prelude.{
  ℕ, ◌+◌, ◌/◌, ◌%◌, ◌≤◌, ◌<◌, ◌≡◌, refl, ◌↔◌, All, true, false, Bool, none, some, List, [], ◌∷◌,
  ◌++◌, done, ok, Returns, Adds, length, arith, word, take, leb, ◌==◌,
}
use pprof_rs.Prelude.Int.{pos}
use pprof_rs.Key.{Respects}
use pprof_rs.Timer.{default_timing, interval_timeval}
use pprof_rs.Timer.Interval.{IsPeriod, interval_timeval-IsPeriod}
use pprof_rs.Frames.{
  UnresolvedFrames, Frames, Text, Symbol, convert, symbols_of, any_handler, max_depth, eq, hash,
  default_frames,
}
use pprof_rs.Frames
use pprof_rs.Frames.Eq.{frames_key, SameStack, eq-SameStack}
use pprof_rs.Frames.Convert.{convert_at_handler, resolved}
use pprof_rs.Frames.Resolved.{frames_eq, SameFrames, frames_eq-SameFrames, resolved_key}
use pprof_rs.Collector
use pprof_rs.Collector.Bucket.{Entry}
use pprof_rs.Collector.Bucket.Weight.{weigh, Distinct}
use pprof_rs.Profiler.{
  Profiler, Globals, Tick, is_thread_blocklisted, store_frames, fresh, handle_all,
}
use pprof_rs.Profiler.Blocklist.{is_thread_blocklisted_iff, IsBlocked}
use pprof_rs.Profiler.Sampling
use pprof_rs.Profiler.Recording.{store_frames-take, up_to_blocked, recorded, contended}
use pprof_rs.Profiler.Sampling.{handle_all-Adds}
use pprof_rs.Report.{count_entries, total_samples}
use pprof_rs.Report.Data.{count_entries-weigh}
use pprof_rs.Report.Builder.{Report, build, build_unresolved, make_frames}
use pprof_rs.Report.EndToEnd.{build-exact, build_unresolved-exact, new-empty, Ends}
use pprof_rs.Tests.Fixtures.{
  number_key, memory, memory_laws, memory_healthy, numbers, stack_a, stack_b, handler_frame,
}

eq-SameStack_example : (eq numbers stack_a stack_b ≡ true) ↔ SameStack numbers stack_a stack_b
eq-SameStack_example = eq-SameStack numbers stack_a stack_b

abbrev through_handler : List ℕ
through_handler = 20 ∷ handler_frame ∷ 21 ∷ 5 ∷ 22 ∷ []

convert_at_handler_example :
    convert numbers false ((20 ∷ []) ++ handler_frame ∷ 21 ∷ (5 ∷ 22 ∷ []))
    ≡ resolved numbers (20 ∷ []) ++ convert numbers false (5 ∷ 22 ∷ [])
unfolding any_handler Frames.is_handler Frames.name Frames.raw_name Frames.text_eq symbols_of
convert_at_handler_example =
    convert_at_handler numbers (20 ∷ []) handler_frame 21 (5 ∷ 22 ∷ []) (refl, tt) refl

abbrev frames_a : Frames
frames_a = record {
  frames = (record { name = none; addr = some 3; lineno = none; filename = none } ∷ []) ∷ [];
  thread_name = 109 ∷ [];
  thread_id = 1;
  sample_timestamp = 50;
}

abbrev frames_b : Frames
frames_b = record {
  frames =
      (record { name = some Frames.unknown; addr = none; lineno = some 4; filename = none } ∷ [])
      ∷ [];
  thread_name = 109 ∷ [];
  thread_id = 1;
  sample_timestamp = 50;
}

frames_eq-SameFrames_example : (frames_eq frames_a frames_b ≡ true) ↔ SameFrames frames_a frames_b
frames_eq-SameFrames_example = frames_eq-SameFrames frames_a frames_b

abbrev profiler : Profiler (List (Entry (UnresolvedFrames ℕ))) ℕ
profiler =
    record (fresh (record {
      map = Collector.HashCounter.new (default_frames 0);
      temp_array = record { file = []; buffer = []; buffer_index = 0; flush_n = 0 };
    })) { thread_blocklist = (109 ∷ []) ∷ []; blocklist_segments = (100, 200) ∷ [] }

is_thread_blocklisted_iff_example :
    (is_thread_blocklisted profiler (108 ∷ 109 ∷ []) ≡ true)
    ↔ IsBlocked profiler.thread_blocklist (108 ∷ 109 ∷ [])
is_thread_blocklisted_iff_example = is_thread_blocklisted_iff profiler (108 ∷ 109 ∷ [])

store_frames-take_example :
    store_frames numbers (λ ip. leb 100 ip) 0 (20 ∷ 21 ∷ 150 ∷ 22 ∷ [])
    ≡ take max_depth (up_to_blocked numbers (λ ip. leb 100 ip) (20 ∷ 21 ∷ 150 ∷ 22 ∷ []))
store_frames-take_example = store_frames-take numbers (λ ip. leb 100 ip) (20 ∷ 21 ∷ 150 ∷ 22 ∷ [])

abbrev is_nine : ℕ → Bool
is_nine k = k == 9

is_nine-Respects : Respects ⦃key = number_key⦄ is_nine
is_nine-Respects a b h = ground arith

abbrev entry : ℕ → ℕ → Entry ℕ
entry k c = record { item = k; count = c }

-- The key 9 comes twice, as it does after an eviction, and another is a frequency that left.
abbrev entries : List (Entry ℕ)
entries = entry 9 2 ∷ entry 4 1 ∷ entry 9 3 ∷ entry 5 0 ∷ []

abbrev same : ℕ → ℕ
same k = k

count_entries-weigh_example :
    Returns
      (count_entries ⦃key = number_key⦄ same [] entries)
      λ m. Distinct ⦃key = number_key⦄ m × (weigh is_nine m ≡ weigh is_nine entries)
unfolding weigh
count_entries-weigh_example =
    count_entries-weigh ⦃key = number_key⦄ same entries is_nine is_nine-Respects (omega arith)

interval_timeval-IsPeriod_example :
    IsPeriod (1_000_000 / 99) (interval_timeval (pos 99))
    × ((0 < 1_000_000 / 99) ↔ (99 ≤ 1_000_000))
interval_timeval-IsPeriod_example = interval_timeval-IsPeriod 99 (omega arith)

abbrev Files : Type 0
Files = List (Entry (UnresolvedFrames ℕ))

abbrev tick : Bool → List ℕ → Text → ℕ → Tick ℕ
tick lock_is_free offered thread_name timestamp = record {
  lock_is_free = lock_is_free;
  ucontext = some 20;
  offered = offered;
  thread_id = 1;
  thread_name = thread_name;
  timestamp = timestamp;
}

-- Two signals in one stack, one that meets the lock taken, one in another stack, and one in a thread
-- that is blocklisted.
abbrev ticks : List (Tick ℕ)
ticks =
    tick true (20 ∷ 21 ∷ []) (109 ∷ []) 50
    ∷ tick true (20 ∷ 21 ∷ []) (109 ∷ []) 60
    ∷ tick false (20 ∷ 21 ∷ []) (109 ∷ []) 70
    ∷ tick true (23 ∷ []) (109 ∷ []) 80
    ∷ tick true (20 ∷ 21 ∷ []) (108 ∷ []) 90
    ∷ []

ticks_short : All (λ t. length t.thread_name ≤ Frames.max_thread_name) ticks
ticks_short = (omega arith, (omega arith, (omega arith, (omega arith, (omega arith, tt)))))

abbrev of_thread : UnresolvedFrames ℕ → Bool
of_thread u = u.thread_id == 1

of_thread-Respects : Respects ⦃key = frames_key numbers⦄ of_thread
of_thread-Respects a b h = ground (arith, ((eq-SameStack numbers a b).0 h).0)

abbrev frames_of_thread : Frames → Bool
frames_of_thread f = f.thread_id == 1

frames_of_thread-Respects : Respects ⦃key = resolved_key numbers⦄ frames_of_thread
frames_of_thread-Respects a b h = ground (arith, ((frames_eq-SameFrames a b).0 h).2)

build_unresolved-exact_example :
    (p : Profiler Files ℕ) × (g' : Globals Files ℕ) × (r : Report (UnresolvedFrames ℕ)) × Ends
      numbers memory 2 memory_laws memory_healthy
      (omega arith)
      []
      ((108 ∷ []) ∷ [])
      ticks
      40
      default_timing
      p
      g'
    × (build_unresolved numbers memory 2 g' default_timing ≡ done (ok r))
    × Distinct ⦃key = frames_key numbers⦄ r.counts
    × (weigh of_thread r.counts ≡ recorded numbers of_thread [] ((108 ∷ []) ∷ []) ticks)
    × (total_samples r.counts ≡ recorded numbers (λ _. true) [] ((108 ∷ []) ∷ []) ticks)
    × (r.missed_samples ≡ contended ticks)
build_unresolved-exact_example =
    build_unresolved-exact numbers memory 2 memory_laws memory_healthy (omega arith) []
      ((108 ∷ []) ∷ []) ticks 40 default_timing of_thread of_thread-Respects ticks_short
      (omega arith)

abbrev by_thread : UnresolvedFrames ℕ → Bool
by_thread u = frames_of_thread (make_frames numbers none u)

by_thread-Respects : Respects ⦃key = frames_key numbers⦄ by_thread
unfolding Frames.from
by_thread-Respects a b h = ground (arith, ((eq-SameStack numbers a b).0 h).0)

build-exact_example :
    (p : Profiler Files ℕ) × (g' : Globals Files ℕ) × (r : Report Frames) × Ends numbers memory 2
      memory_laws memory_healthy
      (omega arith)
      []
      ((108 ∷ []) ∷ [])
      ticks
      40
      default_timing
      p
      g'
    × (build numbers memory 2 none g' default_timing ≡ done (ok r))
    × Distinct ⦃key = resolved_key numbers⦄ r.counts
    × (weigh frames_of_thread r.counts ≡ recorded numbers by_thread [] ((108 ∷ []) ∷ []) ticks)
    × (total_samples r.counts ≡ recorded numbers (λ _. true) [] ((108 ∷ []) ∷ []) ticks)
    × (r.missed_samples ≡ contended ticks)
build-exact_example =
    build-exact numbers memory 2 memory_laws memory_healthy (omega arith) [] ((108 ∷ []) ∷ []) ticks
      40 default_timing none frames_of_thread frames_of_thread-Respects by_thread-Respects
      ticks_short (omega arith)

abbrev begun : Profiler Files ℕ
begun = fresh (new-empty numbers memory 2 memory_laws memory_healthy (omega arith) 40).0

abbrev begun_globals : Globals Files ℕ
begun_globals = record { profiler = ok begun; missed_samples = 3 }

handle_all-Adds_example : Returns (handle_all numbers memory 2 begun_globals ticks) λ g'.
    (after : Profiler Files ℕ) × (g'.profiler ≡ ok after)
    × Sampling.IsSound numbers memory 2 memory_laws memory_healthy (omega arith) after
    × Adds
        (Sampling.weight numbers memory 2 memory_laws memory_healthy (omega arith) of_thread after)
        (Sampling.weight numbers memory 2 memory_laws memory_healthy (omega arith) of_thread begun)
        (recorded numbers of_thread [] [] ticks)
    × (g'.missed_samples ≡ (3 + contended ticks) % word)
handle_all-Adds_example =
    handle_all-Adds numbers memory 2 memory_laws memory_healthy (omega arith) begun_globals begun
      ticks of_thread of_thread-Respects refl (omega arith)
      (new-empty numbers memory 2 memory_laws memory_healthy (omega arith) 40).2 ticks_short
