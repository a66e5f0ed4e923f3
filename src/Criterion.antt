-- ===== src/Criterion.antt =====
-- src/criterion.rs: the profiler that the criterion crate calls around a benchmark.
pub mod Benchmark
use pprof_rs.Prelude.{
  codes, ℕ, Option, none, some, List, [], ◌∷◌, Outcome, done, panic, ◌>>=◌, Result, ok, err,
}
use pprof_rs.Prelude.Int.{ℤ}
use pprof_rs.Error.{Errno, IoResult}
use pprof_rs.Os.{Os}
use pprof_rs.Timer.{Timer}
use pprof_rs.Frames.{UnresolvedFrames, Frames, Resolver, Text}
use pprof_rs.Collector.Bucket.{Entry}
use pprof_rs.Collector.TempFile.{TempFile}
use pprof_rs.Profiler.{Globals}
use pprof_rs.Profiler.Control.{drop_guard}
use pprof_rs.Report.Builder.{Report}
use pprof_rs.Report.Folded.{flamegraph_with_options}
use pprof_rs.Proto.{Profile}
use pprof_rs.Pprof.{HashSet}
use pprof_rs.Pprof.Cpu.{pprof}
use pprof_rs.Session.{new_guard, report, build_report}

-- What is called of the file system, on a state, and of other crates. `W` is an open file, `O` the
-- options of a flamegraph.
pub record Host (D W O : Type 0) : Type 0 where
  pub create_dir_all : D → Text → D × IoResult (Unit {0})
  pub join : Text → Text → Text
  pub create : D → Text → D × IoResult W
  pub write_all : W → D → Text → D × IoResult (Unit {0})
  pub default_options : O
  pub from_lines : O → W → D → List Text → D × Option Errno
  pub encode : Profile → Result Errno Text

pub data Output (O : Type 0) : Type 0 where
  flamegraph : Option O → Output O
  protobuf phantom : Output O

-- The guard is its timer.
pub record PProfProfiler (O : Type 0) : Type 0 where
  pub frequency : ℤ
  pub output : Output O
  pub active_profiler : Option Timer

-- `PProfProfiler::new`
unfoldable pub new : {O : Type 0} → ℤ → Output O → PProfProfiler O
new frequency output = record { frequency = frequency; output = output; active_profiler = none }

-- `unwrap`, `expect`, and the closure that panics
abbrev pub unwrap {ℓ κ} : {E : Type ℓ} {A : Type κ} → Result E A → Outcome A
unwrap (ok a) = done a
unwrap (err e) = panic

unfoldable pub filename : {O : Type 0} → Output O → Text
filename (flamegraph options) = codes "flamegraph.svg"
filename protobuf = codes "profile.pb"
filename phantom = []

-- `options.as_mut().unwrap_or(default_options)`
abbrev pub chosen : {D W O : Type 0} → Host D W O → Option O → O
chosen host none = host.default_options
chosen host (some options) = options

module _ {Frame D W O : Type 0} (env : Resolver Frame) (host : Host D W O) (set : HashSet) where
  -- The match on the output, given the report
  unfoldable pub write_output : Output O → W → Report Frames → D → Outcome D
  write_output (flamegraph options) file r d =
      flamegraph_with_options env (host.from_lines (chosen host options) file) r.counts d
  write_output protobuf file r d = do
    profile ← pprof env set r
    content ← unwrap (host.encode profile)
    let (d', written) = host.write_all file d content
    _ ← unwrap written
    done d'
  write_output phantom file r d = panic

module _ {S File Frame : Type 0} (os : Os S) (env : Resolver Frame)
    (files : TempFile File (Entry (UnresolvedFrames Frame))) (n : ℕ) where
  -- `active_profiler = Some(guard)` drops the guard that was there.
  unfoldable pub replace_guard : S → Globals File Frame → Option Timer → ℕ → S × Globals File Frame
  replace_guard s g none now = (s, g)
  replace_guard s g (some old) now = drop_guard os env files n s g old now

  module _ {D W O : Type 0} (host : Host D W O) (set : HashSet) where
    -- `start_profiling`, at the time `now` of both clocks
    unfoldable pub start_profiling :
        S
        → Globals File Frame
        → PProfProfiler O
        → ℕ
        → ℕ
        → Outcome (S × Globals File Frame × PProfProfiler O)
    unfolding replace_guard
    start_profiling s g self now instant = do
      (s', g', built) ← new_guard os env files n s g self.frequency now instant
      guard ← unwrap built
      let (s'', g'') = replace_guard s' g' self.active_profiler now
      done (s'', g'', record self { active_profiler = some guard })

    -- The body of `if let`: the report is written, and the guard is dropped.
    unfoldable pub write_report :
        S
        → Globals File Frame
        → Output O
        → Option Timer
        → W
        → ℕ
        → ℕ
        → D
        → Outcome (D × S × Globals File Frame)
    unfolding write_output
    write_report s g output none file instant later d = done (d, s, g)
    write_report s g output (some guard) file instant later d = do
      built ← build_report os env files n (report (some guard) instant) g
      r ← unwrap built
      d' ← write_output env host set output file r d
      let (s', g') = drop_guard os env files n s g guard later
      done (d', s', g')

    -- `stop_profiling`, at the instant of the report and the time of the drop
    unfoldable pub stop_profiling :
        D
        → S
        → Globals File Frame
        → PProfProfiler O
        → Text
        → ℕ
        → ℕ
        → Outcome (D × S × Globals File Frame × PProfProfiler O)
    unfolding write_report filename
    stop_profiling d s g self benchmark_dir instant later = do
      let (d', made) = host.create_dir_all d benchmark_dir
      _ ← unwrap made
      let (d'', created) = host.create d' (host.join benchmark_dir (filename self.output))
      output_file ← unwrap created
      (d''', s', g') ←
          write_report s g self.output self.active_profiler output_file instant later d''
      done (d''', s', g', record self { active_profiler = none })
