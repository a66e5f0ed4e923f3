-- ===== src/Session.antt =====
-- src/lib.rs, lines 144-190, with the builder's setters and the guard's operations (src/profiler.rs,
-- lines 76-253) and the builder of reports (src/report.rs, lines 38-65): sessions from outside.
pub mod Lifetime
pub mod Profiles
pub mod Blocklist
use pprof_rs.Prelude.{
  ℕ, Bool, true, false, ◌||◌, Option, none, some, List, [], ◌∷◌, ◌++◌, map, Outcome, done, ◌>>=◌,
  Result, ok, err, ◌==◌, ◌&&◌, add64, if◌then◌else◌,
}
use pprof_rs.Prelude.Int.{ℤ, pos}
use pprof_rs.Error.{Error}
use pprof_rs.Os.{Os}
use pprof_rs.Timer.{ClockType, Timer, ReportTiming, default_timing, timing}
use pprof_rs.Frames.{UnresolvedFrames, Frames, Resolver, Text}
use pprof_rs.Collector.Bucket.{Entry}
use pprof_rs.Collector.TempFile.{TempFile}
use pprof_rs.Profiler.{Globals, Tick, handle_all}
use pprof_rs.Profiler.Control.{ProfilerGuardBuilder, build, drop_guard}
use pprof_rs.Report.Builder.{Report}
use pprof_rs.Report.Builder

-- `ProfilerGuardBuilder::default`
abbrev pub default_builder : ProfilerGuardBuilder
default_builder = record {
  frequency = pos 99;
  clock_type = ClockType.cpu;
  thread_blocklist = [];
  on_stack = false;
  blocklist_segments = [];
}

-- The setters `frequency`, `clock_type`, `thread_blocklist` and `on_stack`
unfoldable pub frequency : ProfilerGuardBuilder → ℤ → ProfilerGuardBuilder
frequency self hz = record self { frequency = hz }

unfoldable pub clock_type : ProfilerGuardBuilder → ClockType → ProfilerGuardBuilder
clock_type self clock = record self { clock_type = clock }

unfoldable pub thread_blocklist : ProfilerGuardBuilder → List Text → ProfilerGuardBuilder
thread_blocklist self names = record self { thread_blocklist = names }

unfoldable pub on_stack : ProfilerGuardBuilder → Bool → ProfilerGuardBuilder
on_stack self b = record self { on_stack = b }

-- A shared library of the process: its name, if it is valid text, and the address and the length
-- of each segment in memory.
pub record SharedLibrary : Type 0 where
  pub name : Option Text
  pub segments : List (ℕ × ℕ)

unfoldable pub starts_with : Text → Text → Bool
starts_with text [] = true
starts_with [] (c ∷ cs) = false
starts_with (d ∷ ds) (c ∷ cs) = (d == c) && starts_with ds cs

-- `str::contains`
unfoldable pub contains : Text → Text → Bool
contains [] pattern = starts_with [] pattern
contains (c ∷ cs) pattern = starts_with (c ∷ cs) pattern || contains cs pattern

-- The loop over the patterns, from the value of `in_blocklist` so far.
unfoldable pub any_contained : Text → List Text → Bool → Bool
any_contained name [] in_blocklist = in_blocklist
any_contained name (blocked_name ∷ rest) in_blocklist =
    any_contained name rest (if contains name blocked_name then true else in_blocklist)

abbrev pub is_library_blocked : List Text → Option Text → Bool
is_library_blocked patterns none = false
is_library_blocked patterns (some name) = any_contained name patterns false

-- The loop over the segments of a library
unfoldable pub push_segments : List (ℕ × ℕ) → List (ℕ × ℕ) → List (ℕ × ℕ)
push_segments segments [] = segments
push_segments segments ((start, len) ∷ rest) =
    push_segments (segments ++ (start, add64 start len) ∷ []) rest

-- The callback of `TargetSharedLibrary::each`, called for each library
unfoldable pub each_library : List Text → List (ℕ × ℕ) → List SharedLibrary → List (ℕ × ℕ)
each_library patterns segments [] = segments
each_library patterns segments (shlib ∷ shlibs) =
    each_library patterns
      (if is_library_blocked patterns shlib.name
        then push_segments segments shlib.segments
        else segments)
      shlibs

-- `ProfilerGuardBuilder::blocklist`, where these are the libraries of the process.
unfoldable pub blocklist :
    List SharedLibrary → ProfilerGuardBuilder → List Text → ProfilerGuardBuilder
blocklist shlibs self patterns = record self {
  blocklist_segments = each_library patterns [] shlibs;
}

-- `ReportBuilder`, over the globals
pub record ReportBuilder : Type 0 where
  pub frames_post_processor : Option (Frames → Frames)
  pub timing : ReportTiming

-- `ReportBuilder::new`
unfoldable pub new_report : ReportTiming → ReportBuilder
new_report t = record { frames_post_processor = none; timing = t }

-- `ReportBuilder::frames_post_processor`
unfoldable pub frames_post_processor : ReportBuilder → (Frames → Frames) → ReportBuilder
frames_post_processor self processor = record self { frames_post_processor = some processor }

-- `ProfilerGuard::report`, at an instant of the monotonic clock; the guard has its timer until it
-- is dropped.
unfoldable pub report : Option Timer → ℕ → ReportBuilder
report timer instant = new_report (elim timer [ none ↦ default_timing | some t ↦ timing t instant ])

-- `ProfilerGuard::missed_samples`
unfoldable pub missed_samples : {File Frame : Type 0} → Globals File Frame → ℕ
missed_samples g = g.missed_samples

-- What a session meets: the time at its start, on both clocks, the signals that come before the
-- report is built, the instant of the report, and the time at the drop of the guard.
pub record Course (Frame : Type 0) : Type 0 where
  pub start_time : ℕ
  pub start_instant : ℕ
  pub ticks : List (Tick Frame)
  pub report_instant : ℕ
  pub drop_time : ℕ

module _ {S File Frame : Type 0} (os : Os S) (env : Resolver Frame)
    (files : TempFile File (Entry (UnresolvedFrames Frame))) (n : ℕ) where
  -- `ReportBuilder::build`
  unfoldable pub build_report :
      ReportBuilder → Globals File Frame → Outcome (Result Error (Report Frames))
  build_report self g = Builder.build env files n self.frames_post_processor g self.timing

  -- `ProfilerGuard::new` and `ProfilerGuard::with_clock_type`; the guard is its timer.
  unfoldable pub new_guard :
      S → Globals File Frame → ℤ → ℕ → ℕ → Outcome (S × Globals File Frame × Result Error Timer)
  unfolding frequency
  new_guard s g hz now instant = build os env files n s g (frequency default_builder hz) now instant

  unfoldable pub guard_with_clock_type :
      S
      → Globals File Frame
      → ℤ
      → ClockType
      → ℕ
      → ℕ
      → Outcome (S × Globals File Frame × Result Error Timer)
  unfolding frequency clock_type
  guard_with_clock_type s g hz clock now instant =
      build os env files n s g (clock_type (frequency default_builder hz) clock) now instant

  -- What the helpers do once `build` has returned: the signals of the sleep, the report, and the
  -- drop of the guard. An error of `build` is returned by `?`.
  unfoldable pub sleep_and_report :
      Course Frame
      → S × Globals File Frame × Result Error Timer
      → Outcome (S × Globals File Frame × Result Error (Report Frames))
  unfolding report new_report build_report
  sleep_and_report course (s, g, err e) = done (s, g, err e)
  sleep_and_report course (s, g, ok timer) = do
    g' ← handle_all env files n g course.ticks
    r ← build_report (report (some timer) course.report_instant) g'
    let (s', g'') = drop_guard os env files n s g' timer course.drop_time
    done (s', g'', r)

  -- A helper's body, with the builder that it starts from.
  unfoldable pub profile_with :
      ProfilerGuardBuilder
      → S
      → Globals File Frame
      → Course Frame
      → Outcome (S × Globals File Frame × Result Error (Report Frames))
  unfolding sleep_and_report
  profile_with b s g course =
      build os env files n s g b course.start_time course.start_instant >>= sleep_and_report course

  -- `profile_with_frequency`
  unfoldable pub profile_with_frequency :
      ℤ
      → S
      → Globals File Frame
      → Course Frame
      → Outcome (S × Globals File Frame × Result Error (Report Frames))
  unfolding profile_with frequency
  profile_with_frequency hz = profile_with (frequency default_builder hz)

  -- `profile`
  unfoldable pub profile :
      S
      → Globals File Frame
      → Course Frame
      → Outcome (S × Globals File Frame × Result Error (Report Frames))
  unfolding profile_with_frequency
  profile = profile_with_frequency (pos 99)

  -- `profile_wall`
  unfoldable pub profile_wall :
      S
      → Globals File Frame
      → Course Frame
      → Outcome (S × Globals File Frame × Result Error (Report Frames))
  unfolding profile_with frequency clock_type
  profile_wall = profile_with (clock_type (frequency default_builder (pos 99)) ClockType.wall)
