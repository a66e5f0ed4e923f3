-- ===== src/Criterion/Benchmark.antt =====
-- src/criterion.rs, lines 54-115: a benchmark between `start_profiling` and `stop_profiling`.
use pprof_rs.Prelude.{
  codes, ℕ, suc, ◌<◌, ◌≤◌, ◌≡◌, refl, ap, ◌∙◌, ◌⊎◌, inl, inr, none, some, List, [], ◌∷◌, map,
  Outcome, done, ◌>>=◌, Result, ok, Returns, length, All, half_word,
}
use pprof_rs.Prelude.Int.{ℤ, pos}
use pprof_rs.Error.{Error}
use pprof_rs.Os.{Os, OsLaws, Signal, SigAction}
use pprof_rs.Timer.{Timer, timing}
use pprof_rs.Frames.{UnresolvedFrames, Frames, Resolver, Text, max_thread_name}
use pprof_rs.Collector.Bucket.{Entry}
use pprof_rs.Collector.TempFile.{TempFile, FileLaws, NoIoErrors}
use pprof_rs.Profiler.{Globals, handle_all}
use pprof_rs.Profiler.Control.{ProfilerGuardBuilder, drop_guard}
use pprof_rs.Report.Builder.{Report}
use pprof_rs.Report.Builder
use pprof_rs.Report.{HashMap}
use pprof_rs.Report.Folded.{flamegraph_line, flamegraph_with_options}
use pprof_rs.Proto.{Profile}
use pprof_rs.Pprof.{HashSet}
use pprof_rs.Pprof.Cpu.Encoding.{Decodes, pprof-Decodes}
use pprof_rs.Session.{
  Course, default_builder, frequency, new_guard, report, new_report, build_report,
}
use pprof_rs.Session.Lifetime.{IsIdle, IsProfiled, session_of}
use pprof_rs.Criterion.{
  Host, Output, flamegraph, protobuf, phantom, PProfProfiler, new, filename, replace_guard,
  start_profiling, chosen, write_output, write_report, stop_profiling,
}

-- No call of the file system or of the other crates fails.
pub record HostWorks {D W O : Type 0} (host : Host D W O) : Type 0 where
  pub makes_dirs : (d : D) (path : Text) → (d' : D) × (host.create_dir_all d path ≡ (d', ok tt))
  pub creates : (d : D) (path : Text) → (d' : D) × (w : W) × (host.create d path ≡ (d', ok w))
  pub writes : (w : W) (d : D) (t : Text) → (d' : D) × (host.write_all w d t ≡ (d', ok tt))
  pub draws :
      (o : O) (w : W) (d : D) (lines : List Text)
      → (d' : D) × (host.from_lines o w d lines ≡ (d', none))
  pub encodes : (profile : Profile) → (t : Text) × (host.encode profile ≡ ok t)

-- The name of the file that an output belongs in.
abbrev pub file_of : {O : Type 0} → Output O → Text
file_of (flamegraph options) = codes "flamegraph.svg"
file_of protobuf = codes "profile.pb"
file_of phantom = []

file_of-filename : {O : Type 0} (output : Output O) → filename output ≡ file_of output
unfolding filename
file_of-filename (flamegraph options) = refl
file_of-filename protobuf = refl
file_of-filename phantom = refl

-- One of the two outputs that are meant to be used.
abbrev pub IsKnown : {O : Type 0} → Output O → Type 0
IsKnown (flamegraph options) = Unit
IsKnown protobuf = Unit
IsKnown phantom = ⊥

module _ {Frame D W O : Type 0} (env : Resolver Frame) (host : Host D W O) (set : HashSet) where
  -- From `d` to `d'` the file got the output for the report: the flamegraph crate drew a line for
  -- each entry, if there are entries; or the bytes of a profile that is read as the report were
  -- written.
  abbrev pub IsWritten : ℕ → Output O → W → Report Frames → D → D → Type 0
  IsWritten hz (flamegraph options) file r d d' =
      ((r.counts ≡ []) × (d' ≡ d))
      ⊎ (host.from_lines (chosen host options) file d (map (flamegraph_line env) r.counts)
          ≡ (d', none))
  IsWritten hz protobuf file r d d' =
      (profile : Profile) × (content : Text) × Decodes env set r hz profile
      × (host.encode profile ≡ ok content)
      × (host.write_all file d content ≡ (d', ok tt))
  IsWritten hz phantom file r d d' = ⊥

  write_output-IsWritten :
      (output : Output O) (file : W) (r : Report Frames) (d : D) (hz : ℕ)
      → HostWorks host
      → IsKnown output
      → r.timing.frequency ≡ pos (suc hz)
      → Returns (write_output env host set output file r d) (IsWritten hz output file r d)
  unfolding write_output flamegraph_with_options
  write_output-IsWritten (flamegraph options) file r d hz works known positive = drawn r.counts
    where
      drawn :
          (counts : HashMap Frames)
          → Returns
              (flamegraph_with_options env (host.from_lines (chosen host options) file) counts d)
              (λ d'.
                ((counts ≡ []) × (d' ≡ d))
                ⊎ (host.from_lines (chosen host options) file d (map (flamegraph_line env) counts)
                    ≡ (d', none)))
      drawn [] = (d, refl, inl (refl, refl))
      drawn (e ∷ es) =
          let (d', ran) =
            works.draws (chosen host options) file d (map (flamegraph_line env) (e ∷ es)) in
          (d', rw ran (ap (λ t. done t.0) ran), inr ran)
  write_output-IsWritten protobuf file r d hz works known positive =
      let (profile, made, decodes) = pprof-Decodes env set r hz positive in
      let (content, encoded) = works.encodes profile in
      let (d', written) = works.writes file d content in
      (d', rw (made, encoded, written) refl, (profile, content, decodes, encoded, written))
  write_output-IsWritten phantom file r d hz works known positive = absurd known

frequency_of :
    (r r' : Report Frames) (timer : Timer) (instant : ℕ)
    → Path (Result Error (Report Frames)) (ok r) (ok r')
    → r'.timing ≡ timing timer instant
    → r.timing.frequency ≡ timer.frequency
unfolding timing
frequency_of r r' timer instant same timed =
    let equal : r ≡ r' = cc in ap (λ q. q.timing.frequency) equal ∙ ap (λ t. t.frequency) timed

module _ {S File Frame D W O : Type 0} (os : Os S) (env : Resolver Frame)
    (files : TempFile File (Entry (UnresolvedFrames Frame))) (n : ℕ) (host : Host D W O)
    (set : HashSet) where
  -- What criterion does: the directory is that of the benchmark.
  abbrev pub run_benchmark :
      D
      → S
      → Globals File Frame
      → PProfProfiler O
      → Text
      → Course Frame
      → Outcome (D × S × Globals File Frame × PProfProfiler O)
  run_benchmark d s g self benchmark_dir course =
      start_profiling os env files n host set s g self course.start_time course.start_instant
      >>= λ (s', g', self'). handle_all env files n g' course.ticks >>= λ g''.
          stop_profiling os env files n host set d s' g'' self' benchmark_dir course.report_instant
            course.drop_time

  start_run :
      (s opened : S) (g during : Globals File Frame) (self : PProfProfiler O) (now instant : ℕ)
      (timer : Timer)
      → new_guard os env files n s g self.frequency now instant ≡ done (opened, during, ok timer)
      → self.active_profiler ≡ none
      → start_profiling os env files n host set s g self now instant
        ≡ done (opened, during, record self { active_profiler = some timer })
  unfolding start_profiling replace_guard
  start_run s opened g during self now instant timer run inactive = rw (run, inactive) refl

  stop_run :
      (d d₁ d₂ d₃ : D) (s s' : S) (g g' : Globals File Frame) (self : PProfProfiler O) (dir : Text)
      (instant later : ℕ) (timer : Timer) (file : W) (made : Report Frames)
      → self.active_profiler ≡ some timer
      → host.create_dir_all d dir ≡ (d₁, ok tt)
      → host.create d₁ (host.join dir (filename self.output)) ≡ (d₂, ok file)
      → Builder.build env files n none g (timing timer instant) ≡ done (ok made)
      → write_output env host set self.output file made d₂ ≡ done d₃
      → drop_guard os env files n s g timer later ≡ (s', g')
      → stop_profiling os env files n host set d s g self dir instant later
        ≡ done (d₃, s', g', record self { active_profiler = none })
  unfolding stop_profiling write_report report new_report build_report
  stop_run d d₁ d₂ d₃ s s' g g' self dir instant later timer file made active dirs opens built
        written dropped =
      rw (active, dirs, opens, built, written, dropped) refl

  run_steps :
      (d : D) (s opened s' : S) (g during sampled g' : Globals File Frame) (self : PProfProfiler O)
      (dir : Text) (course : Course Frame) (timer : Timer) (d₁ d₂ d₃ : D) (file : W)
      (made : Report Frames)
      → self.active_profiler ≡ none
      → new_guard os env files n s g self.frequency course.start_time course.start_instant
        ≡ done (opened, during, ok timer)
      → handle_all env files n during course.ticks ≡ done sampled
      → host.create_dir_all d dir ≡ (d₁, ok tt)
      → host.create d₁ (host.join dir (filename self.output)) ≡ (d₂, ok file)
      → Builder.build env files n none sampled (timing timer course.report_instant) ≡ done (ok made)
      → write_output env host set self.output file made d₂ ≡ done d₃
      → drop_guard os env files n opened sampled timer course.drop_time ≡ (s', g')
      → run_benchmark d s g self dir course
        ≡ done (d₃, s', g', record self { active_profiler = none })
  run_steps d s opened s' g during sampled g' self dir course timer d₁ d₂ d₃ file made inactive run
        handled dirs opens built written dropped =
      let started =
        start_run s opened g during self course.start_time course.start_instant timer run
          inactive in
      let stopped =
        stop_run d d₁ d₂ d₃ opened s' sampled g' (record self { active_profiler = some timer }) dir
          course.report_instant course.drop_time timer file made refl dirs opens built written
          dropped in
      rw (started, handled) stopped

  module _ (laws : FileLaws files) (healthy : NoIoErrors files laws) (positive : 0 < n)
      (os_laws : OsLaws os)
      (installs : (s : S) (g : Signal) (a : SigAction)
        → (old : SigAction) × ((os.sigaction s g a).1 ≡ ok old)) where
    abbrev pub builder_of : ℤ → ProfilerGuardBuilder
    builder_of hz = record default_builder { frequency = hz }

    -- With a positive frequency, an output that is not the placeholder, an idle profiler, fewer
    -- than 2 ^ 63 signals with thread names of at most `max_thread_name` bytes, and calls that do
    -- not fail, a benchmark between `start_profiling` and `stop_profiling` ends with the
    -- directory of the benchmark created, and in it, as flamegraph.svg or profile.pb, the output
    -- for the exact report of its signals: the lines drawn by the flamegraph crate, if there are
    -- entries, or the bytes of a profile that is read as the report. The profiler is idle again,
    -- and no guard is left.
    pub run_benchmark-IsWritten :
        (d : D) (s : S) (g : Globals File Frame) (output : Output O) (hz : ℕ) (benchmark_dir : Text)
        (course : Course Frame)
        → HostWorks host
        → IsKnown output
        → IsIdle os env files n laws healthy positive g
        → All (λ t. length t.thread_name ≤ max_thread_name) course.ticks
        → length course.ticks < half_word
        → (d₁ d₂ d' : D) × (s' : S) × (g' : Globals File Frame) × (file : W) × (made : Report
            Frames)
          × (run_benchmark d s g (new (pos (suc hz)) output) benchmark_dir course
              ≡ done (d', s', g', new (pos (suc hz)) output))
          × (host.create_dir_all d benchmark_dir ≡ (d₁, ok tt))
          × (host.create d₁ (host.join benchmark_dir (file_of output)) ≡ (d₂, ok file))
          × IsWritten env host set hz output file made d₂ d'
          × IsProfiled os env files n laws healthy positive os_laws installs
              (builder_of (pos (suc hz)))
              s
              course
              s'
              g'
              (ok made)
    unfolding new new_guard frequency
    run_benchmark-IsWritten d s g output hz benchmark_dir course works known before names_fit
          short =
        let (opened, s', during, sampled, g', timer, made, run, handled, built, dropped, profiled) =
          session_of os env files n laws healthy positive os_laws installs
            (builder_of (pos (suc hz))) s g course refl before names_fit short in
        let (d₁, dirs) = works.makes_dirs d benchmark_dir in
        let (d₂, file, opens) = works.creates d₁ (host.join benchmark_dir (filename output)) in
        let (d', written, is_written) =
          write_output-IsWritten env host set output file made d₂ hz works known (
            frequency_of made profiled.made _ course.report_instant profiled.is_made
              profiled.timed) in
        (
          d₁,
          d₂,
          d',
          s',
          g',
          file,
          made,
          run_steps d s opened s' g during sampled g' (new (pos (suc hz)) output) benchmark_dir
              course timer d₁ d₂ d' file made refl run handled dirs opens built written dropped,
          dirs,
          rw (← file_of-filename output) opens,
          is_written,
          profiled,
        )
