-- ===== src/Profiler/Lifecycle.antt =====
-- src/profiler.rs, lines 181-272 and 534-618: a session from `build` to the drop of its guard.
use pprof_rs.Prelude.{ℕ, ◌<◌, ◌≡◌, refl, ap, ◌∙◌, true, false, [], done, ok, err}
use pprof_rs.Error.{running}
use pprof_rs.Os.{Os, OsLaws, Signal, SigAction, IsGivenBack}
use pprof_rs.Timer.{Timer, is_zero, drop_timer}
use pprof_rs.Frames.{UnresolvedFrames, Resolver, default_frames}
use pprof_rs.Frames.Eq.{frames_key}
use pprof_rs.Collector
use pprof_rs.Collector.Counts
use pprof_rs.Collector.Bucket.{Entry}
use pprof_rs.Collector.TempFile.{TempFile, FileLaws, NoIoErrors}
use pprof_rs.Profiler.{Profiler}
use pprof_rs.Profiler.Control.{
  ProfilerGuardBuilder, finish_build, signal_of, our_action, restored, build, drop_guard,
}
use pprof_rs.Profiler.Steps.{
  begun, armed, timer_of, ended, start_running, build_run, drop_run, IsGivenBack-restored,
}

module _ {S File Frame : Type 0} (os : Os S) (env : Resolver Frame)
    (files : TempFile File (Entry (UnresolvedFrames Frame))) (n : ℕ) where
  -- While a profiler runs, `build` fails with `running`, and leaves alone the signals, the timers
  -- and the samples; but the running profiler gets the stack flag and the segments of the new
  -- builder.
  pub build_while_running :
      (s : S) (p : Profiler File Frame) (missed : ℕ) (b : ProfilerGuardBuilder) (now instant : ℕ)
      → p.running ≡ true
      → build os env files n s (record { profiler = ok p; missed_samples = missed }) b now instant
        ≡ done (
          s,
          record {
            profiler =
                ok (record p { on_stack = b.on_stack; blocklist_segments = b.blocklist_segments });
            missed_samples = missed;
          },
          err running,
        )
  unfolding build
  build_while_running s p missed b now instant r = ap (finish_build os env files n b now instant) (
      start_running os s
        (record p { on_stack = b.on_stack; blocklist_segments = b.blocklist_segments }) missed
        b.clock_type b.thread_blocklist r)

  module _ (os_laws : OsLaws os)
      (installs : (s : S) (g : Signal) (a : SigAction)
        → (old : SigAction) × ((os.sigaction s g a).1 ≡ ok old))
      (laws : FileLaws files) (healthy : NoIoErrors files laws) (positive : 0 < n) where
    -- From an idle profiler, with a frequency that is not zero, system calls that succeed and a
    -- file that does not fail, `build` starts a session in which the signal of the clock goes to
    -- the handler and no samples are missed. Whatever is then sampled, dropping the guard leaves
    -- an idle profiler with no entries, and the disposition from before the session, or one that
    -- ignores the signal if that was the default one.
    pub build-drop :
        (s : S) (p : Profiler File Frame) (missed : ℕ) (b : ProfilerGuardBuilder)
        (now instant later : ℕ) (sampled : Collector.Collector File (UnresolvedFrames Frame))
        (sample_counter missed' : ℕ)
        → p.running ≡ false
        → is_zero b.frequency ≡ false
        → (s' s'' : S) × (p' after : Profiler File Frame) × (timer : Timer) × (build os env files n
              s
              (record { profiler = ok p; missed_samples = missed })
              b
              now
              instant
            ≡ done (s', record { profiler = ok p'; missed_samples = 0 }, ok timer))
          × (os_laws.disposition s' (signal_of b.clock_type) ≡ our_action b.on_stack)
          × (p'.running ≡ true)
          × (drop_guard os env files n s'
                (record {
                  profiler =
                      ok (record p' { collected = sampled; sample_counter = sample_counter });
                  missed_samples = missed';
                })
                timer
                later
              ≡ (s'', record { profiler = ok after; missed_samples = missed' }))
          × (after.running ≡ false)
          × (Counts.entries ⦃key = frames_key env⦄ files n laws after.collected ≡ [])
          × IsGivenBack
              (os_laws.disposition s (signal_of b.clock_type))
              (os_laws.disposition s'' (signal_of b.clock_type))
    build-drop s p missed b now instant later sampled sample_counter missed' idle nonzero =
        let sig = signal_of b.clock_type in
        let (old, run) = installs s sig (our_action b.on_stack) in
        let timer = timer_of os env files n b now instant in
        let disarmed = drop_timer os (armed os env files n s b) timer in
        let (last, run') = installs disarmed sig (restored old) in
        let (c, made, v, empty) =
          Counts.new-IsSound ⦃key = frames_key env⦄ files n laws healthy positive
            (default_frames later) in
        let q : Profiler File Frame = record (begun os env files n p b old) {
          collected = sampled;
          sample_counter = sample_counter;
        } in
        (
          armed os env files n s b,
          (os.sigaction disarmed sig (restored old)).0,
          begun os env files n p b old,
          ended os env files n q c,
          timer,
          build_run os env files n s p missed b now instant old idle nonzero run,
          os_laws.setitimer-disposition _ _ _ sig ∙ os_laws.sigaction_sets s sig _ old run,
          refl,
          drop_run os env files n (armed os env files n s b) q missed' later timer old last c refl
              refl run' made,
          refl,
          empty,
          IsGivenBack-restored old (os_laws.disposition s sig) _
              (os_laws.sigaction_old s sig _ old run)
              (os_laws.sigaction_sets disarmed sig _ last run'),
        )
