-- ===== src/Tests/Sessions.antt =====
-- The theorems on sessions from outside, run on a session of three signals and a list of libraries.
use pprof_rs.Prelude.{
  codes, ℕ, ◌≤◌, ◌≡◌, ◌↔◌, refl, true, false, none, some, List, [], ◌∷◌, ◌++◌, All, Any, done,
  Result, ok, Returns, length, arith,
}
use pprof_rs.Prelude.Int.{pos}
use pprof_rs.Error.{Error}
use pprof_rs.Timer.{ClockType}
use pprof_rs.Frames.{UnresolvedFrames, Frames, Text, max_thread_name}
use pprof_rs.Collector.Bucket.{Entry}
use pprof_rs.Profiler.{Profiler, Globals, Tick, fresh, segment_blocklisted}
use pprof_rs.Report.Builder.{Report}
use pprof_rs.Report.EndToEnd.{new-empty}
use pprof_rs.Session.{
  Course, SharedLibrary, default_builder, frequency, profile_with_frequency, blocklist,
}
use pprof_rs.Session.Lifetime.{IsIdle, IsProfiled}
use pprof_rs.Session.Profiles.{
  one_after_another, profile_with_frequency-IsProfiled, profile-profile_wall,
}
use pprof_rs.Pprof.{HashSet}
use pprof_rs.Criterion.{Host, protobuf, new}
use pprof_rs.Criterion.Benchmark.{HostWorks, IsWritten, run_benchmark, run_benchmark-IsWritten}
use pprof_rs.Session.Blocklist.{Blocks, blocklist_iff}
use pprof_rs.Tests.Systems.{Signals, disposition, os, returns, os_laws, signals}
use pprof_rs.Tests.Fixtures.{memory, memory_laws, memory_healthy, numbers}

abbrev Files : Type 0
Files = List (Entry (UnresolvedFrames ℕ))

abbrev tick : ℕ → Tick ℕ
tick thread_id = record {
  lock_is_free = true;
  ucontext = some 5;
  offered = 30 ∷ 31 ∷ [];
  thread_id = thread_id;
  thread_name = codes "main";
  timestamp = 9;
}

abbrev course : Course ℕ
course = record {
  start_time = 10;
  start_instant = 20;
  ticks = tick 1 ∷ tick 1 ∷ record (tick 2) { lock_is_free = false } ∷ [];
  report_instant = 70;
  drop_time = 90;
}

abbrev idle_profiler : Profiler Files ℕ
idle_profiler = fresh (new-empty numbers memory 2 memory_laws memory_healthy (omega arith) 40).0

abbrev idle_globals : Globals Files ℕ
idle_globals = record { profiler = ok idle_profiler; missed_samples = 3 }

globals-IsIdle : IsIdle os numbers memory 2 memory_laws memory_healthy (omega arith) idle_globals
globals-IsIdle = record {
  profiler = idle_profiler;
  is_profiler = refl;
  idle = refl;
  sound = (new-empty numbers memory 2 memory_laws memory_healthy (omega arith) 40).2;
  empty = (new-empty numbers memory 2 memory_laws memory_healthy (omega arith) 40).3;
}

course_short : All (λ (t : Tick ℕ). length t.thread_name ≤ max_thread_name) course.ticks
course_short = (omega arith, (omega arith, (omega arith, tt)))

profile_with_frequency-IsProfiled_example :
    Returns (profile_with_frequency os numbers memory 2 (pos 100) signals idle_globals course) λ r.
      IsProfiled os numbers memory 2 memory_laws memory_healthy
        (omega arith)
        os_laws
        (λ s g a. (disposition s g, returns s g a))
        (frequency default_builder (pos 100))
        signals
        course
        r.0
        r.1
        r.2
profile_with_frequency-IsProfiled_example =
    profile_with_frequency-IsProfiled os numbers memory 2 memory_laws memory_healthy (omega arith)
      os_laws (λ s g a. (disposition s g, returns s g a)) (pos 100) signals idle_globals course refl
      globals-IsIdle course_short (omega arith)

profile-profile_wall_example :
    (s' s'' : Signals) × (g' g'' : Globals Files ℕ) × (r r' : Result Error (Report Frames))
    × (one_after_another os numbers memory 2 memory_laws memory_healthy
          (omega arith)
          os_laws
          (λ s g a. (disposition s g, returns s g a))
          signals
          idle_globals
          course
          course
        ≡ done (s', g', r, s'', g'', r'))
    × IsProfiled os numbers memory 2 memory_laws memory_healthy
        (omega arith)
        os_laws
        (λ s g a. (disposition s g, returns s g a))
        default_builder
        signals
        course
        s'
        g'
        r
    × IsProfiled os numbers memory 2 memory_laws memory_healthy
        (omega arith)
        os_laws
        (λ s g a. (disposition s g, returns s g a))
        (record default_builder { clock_type = ClockType.wall })
        s'
        course
        s''
        g''
        r'
profile-profile_wall_example =
    profile-profile_wall os numbers memory 2 memory_laws memory_healthy (omega arith) os_laws
      (λ s g a. (disposition s g, returns s g a)) signals idle_globals course course globals-IsIdle
      course_short (omega arith) course_short (omega arith)

abbrev libraries : List SharedLibrary
libraries =
    record { name = some (codes "/lib/libc.so.6"); segments = (100, 50) ∷ (200, 8) ∷ [] }
    ∷ record { name = none; segments = (300, 9) ∷ [] }
    ∷ []

abbrev patterns : List (List ℕ)
patterns = codes "pthread" ∷ codes "libc" ∷ []

blocklist_iff_example :
    ((segment_blocklisted (blocklist libraries default_builder patterns).blocklist_segments 120
        ≡ true)
      ↔ Any (Blocks 120 patterns) libraries)
    × (record (blocklist libraries default_builder patterns) { blocklist_segments = [] }
        ≡ default_builder)
blocklist_iff_example = blocklist_iff libraries default_builder patterns 120

-- A file system that keeps a log: the paths of files, and what is written.
abbrev log_host : Host (List Text) Text ℕ
log_host = record {
  create_dir_all = λ d path. (d, ok tt);
  join = λ dir name. dir ++ b'/' ∷ name;
  create = λ d path. (path ∷ d, ok path);
  write_all = λ file d content. (content ∷ d, ok tt);
  default_options = 0;
  from_lines = λ options file d lines. (lines ++ d, none);
  encode = λ profile. ok (b'p' ∷ []);
}

abbrev log_host-HostWorks : HostWorks log_host
log_host-HostWorks = record {
  makes_dirs = λ d path. (d, refl);
  creates = λ d path. (path ∷ d, path, refl);
  writes = λ file d content. (content ∷ d, refl);
  draws = λ options file d lines. (lines ++ d, refl);
  encodes = λ profile. (b'p' ∷ [], refl);
}

abbrev in_order : HashSet
in_order = record { iterate = λ ts. ts; keeps = λ t ts. refl }

run_benchmark-IsWritten_example :
    (d₁ d₂ d' : List Text) × (s' : Signals) × (g' : Globals Files ℕ) × (file : Text)
    × (made : Report Frames) × (run_benchmark os numbers memory 2 log_host in_order [] signals
          idle_globals
          (new (pos 100) protobuf)
          (codes "target")
          course
        ≡ done (d', s', g', new (pos 100) protobuf))
    × (log_host.create_dir_all [] (codes "target") ≡ (d₁, ok tt))
    × (log_host.create d₁ (log_host.join (codes "target") (codes "profile.pb")) ≡ (d₂, ok file))
    × IsWritten numbers log_host in_order 99 protobuf file made d₂ d'
    × IsProfiled os numbers memory 2 memory_laws memory_healthy
        (omega arith)
        os_laws
        (λ s g a. (disposition s g, returns s g a))
        (record default_builder { frequency = pos 100 })
        signals
        course
        s'
        g'
        (ok made)
run_benchmark-IsWritten_example =
    run_benchmark-IsWritten os numbers memory 2 log_host in_order memory_laws memory_healthy
      (omega arith) os_laws (λ s g a. (disposition s g, returns s g a)) [] signals idle_globals
      protobuf 99 (codes "target") course log_host-HostWorks tt globals-IsIdle course_short
      (omega arith)
