-- ===== src/Tests/Controlling.antt =====
-- The theorems on starting and stopping at a concrete input.
use pprof_rs.Prelude.{ℕ, ◌≡◌, refl, true, false, List, [], ◌∷◌, done, ok, err, arith}
use pprof_rs.Prelude.Int.{pos}
use pprof_rs.Error.{running}
use pprof_rs.Os.{sigprof, IsGivenBack}
use pprof_rs.Timer.{ClockType, Timer}
use pprof_rs.Frames.{UnresolvedFrames, default_frames}
use pprof_rs.Frames.Eq.{frames_key}
use pprof_rs.Collector
use pprof_rs.Collector.{Collector}
use pprof_rs.Collector.Counts
use pprof_rs.Collector.Bucket.{Entry}
use pprof_rs.Profiler.{Profiler, fresh}
use pprof_rs.Profiler.Control.{ProfilerGuardBuilder, our_action, build, drop_guard, signal_of}
use pprof_rs.Profiler.Lifecycle.{build_while_running, build-drop}
use pprof_rs.Tests.Systems.{Signals, disposition, os, returns, os_laws, signals}
use pprof_rs.Tests.Fixtures.{memory, memory_laws, memory_healthy, numbers}

abbrev Files : Type 0
Files = List (Entry (UnresolvedFrames ℕ))

abbrev collected : Collector Files (UnresolvedFrames ℕ)
collected = record {
  map = Collector.HashCounter.new (default_frames 0);
  temp_array = record { file = []; buffer = []; buffer_index = 0; flush_n = 0 };
}

abbrev builder : ProfilerGuardBuilder
builder = record {
  frequency = pos 99;
  clock_type = ClockType.cpu;
  thread_blocklist = [];
  on_stack = true;
  blocklist_segments = (100, 200) ∷ [];
}

abbrev running_profiler : Profiler Files ℕ
running_profiler = record (fresh collected) { running = true }

build_while_running_example :
    build os numbers memory 2 signals
      (record { profiler = ok running_profiler; missed_samples = 4 })
      builder
      10
      20
    ≡ done (
      signals,
      record {
        profiler =
            ok (record running_profiler { on_stack = true; blocklist_segments = (100, 200) ∷ [] });
        missed_samples = 4;
      },
      err running,
    )
build_while_running_example =
    build_while_running os numbers memory 2 signals running_profiler 4 builder 10 20 refl

build-drop_example :
    (s' s'' : Signals) × (p' after : Profiler Files ℕ) × (timer : Timer) × (build os numbers memory
        2 signals
        (record { profiler = ok (fresh collected); missed_samples = 4 })
        builder
        10
        20
      ≡ done (s', record { profiler = ok p'; missed_samples = 0 }, ok timer))
    × (disposition s' sigprof ≡ our_action true)
    × (p'.running ≡ true)
    × (drop_guard os numbers memory 2 s'
          (record {
            profiler = ok (record p' { collected = collected; sample_counter = 7 });
            missed_samples = 1;
          })
          timer
          30
        ≡ (s'', record { profiler = ok after; missed_samples = 1 }))
    × (after.running ≡ false)
    × (Counts.entries ⦃key = frames_key numbers⦄ memory 2 memory_laws after.collected ≡ [])
    × IsGivenBack (disposition signals sigprof) (disposition s'' sigprof)
unfolding signal_of
build-drop_example =
    build-drop os numbers memory 2 os_laws (λ s g a. (disposition s g, returns s g a)) memory_laws
      memory_healthy (omega arith) signals (fresh collected) 4 builder 10 20 30 collected 7 1 refl
      refl
