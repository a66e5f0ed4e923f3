-- ===== src/Session/Profiles.antt =====
-- src/lib.rs, lines 155-190: the helpers' sessions, from an idle profiler to an idle profiler.
use pprof_rs.Prelude.{
  ℕ, ◌<◌, ◌≤◌, ◌≡◌, refl, ap, ◌∙◌, false, none, Outcome, done, ◌>>=◌, Result, ok, Returns, length,
  All, half_word,
}
use pprof_rs.Prelude.Int.{ℤ}
use pprof_rs.Error.{Error}
use pprof_rs.Os.{Os, OsLaws, Signal, SigAction}
use pprof_rs.Timer.{ClockType, Timer, is_zero, timing}
use pprof_rs.Frames.{UnresolvedFrames, Frames, Resolver, max_thread_name}
use pprof_rs.Collector.Bucket.{Entry}
use pprof_rs.Collector.TempFile.{TempFile, FileLaws, NoIoErrors}
use pprof_rs.Profiler.{Globals, handle_all}
use pprof_rs.Profiler.Control.{ProfilerGuardBuilder, drop_guard}
use pprof_rs.Report.Builder.{Report, make_frames}
use pprof_rs.Report.Builder
use pprof_rs.Session.Lifetime.{IsIdle, IsProfiled, session_of}
use pprof_rs.Session.{
  Course, default_builder, frequency, clock_type, report, new_report, build_report,
  sleep_and_report, profile_with, profile_with_frequency, profile, profile_wall,
}

module _ {S File Frame : Type 0} (os : Os S) (env : Resolver Frame)
    (files : TempFile File (Entry (UnresolvedFrames Frame))) (n : ℕ) (laws : FileLaws files)
    (healthy : NoIoErrors files laws) (positive : 0 < n) where
  module _ (os_laws : OsLaws os)
      (installs : (s : S) (g : Signal) (a : SigAction)
        → (old : SigAction) × ((os.sigaction s g a).1 ≡ ok old)) where
    -- The steps after `build`, one after another.
    sleep_steps :
        (course : Course Frame) (s : S) (g g' : Globals File Frame) (timer : Timer)
        (r : Result Error (Report Frames)) (s' : S) (g'' : Globals File Frame)
        → handle_all env files n g course.ticks ≡ done g'
        → Builder.build env files n none g' (timing timer course.report_instant) ≡ done r
        → drop_guard os env files n s g' timer course.drop_time ≡ (s', g'')
        → sleep_and_report os env files n course (s, g, ok timer) ≡ done (s', g'', r)
    unfolding sleep_and_report report new_report build_report
    sleep_steps course s g g' timer r s' g'' handled built dropped =
        rw (handled, built, dropped) refl

    abbrev pub Idle : Globals File Frame → Type 0
    Idle = IsIdle os env files n laws healthy positive

    abbrev pub Profiled :
        ProfilerGuardBuilder
        → S
        → Course Frame
        → S
        → Globals File Frame
        → Result Error (Report Frames)
        → Type 0
    Profiled = IsProfiled os env files n laws healthy positive os_laws installs

    profile_with-IsProfiled :
        (b : ProfilerGuardBuilder) (s : S) (g : Globals File Frame) (course : Course Frame)
        → is_zero b.frequency ≡ false
        → Idle g
        → All (λ t. length t.thread_name ≤ max_thread_name) course.ticks
        → length course.ticks < half_word
        → Returns (profile_with os env files n b s g course) (λ r. Profiled b s course r.0 r.1 r.2)
    unfolding profile_with
    profile_with-IsProfiled b s g course nonzero before names_fit short =
        let (opened, s', during, sampled, g', timer, made, run, handled, built, dropped, profiled) =
          session_of os env files n laws healthy positive os_laws installs b s g course nonzero
            before names_fit short in
        (
          (s', g', ok made),
          ap (λ o. o >>= sleep_and_report os env files n course) run
              ∙ sleep_steps course opened during sampled timer (ok made) s' g' handled built
                  dropped,
          profiled,
        )

    -- With a frequency that is not zero, system calls that succeed and a file that does not fail,
    -- `profile_with_frequency` on an idle profiler, in a session of fewer than 2 ^ 63 signals
    -- with thread names of at most `max_thread_name` bytes, ends in a report. It has one entry
    -- for each stack, and for every set of stacks that respects their equality counts the signals
    -- of the sleep that were recorded with such a stack; its missed samples are those that found
    -- the lock taken, and its timing is that of the session. The profiler is idle again and has
    -- no entries, and the signal has the disposition of before, or is ignored if that was the
    -- default one.
    pub profile_with_frequency-IsProfiled :
        (hz : ℤ) (s : S) (g : Globals File Frame) (course : Course Frame)
        → is_zero hz ≡ false
        → Idle g
        → All (λ t. length t.thread_name ≤ max_thread_name) course.ticks
        → length course.ticks < half_word
        → Returns
            (profile_with_frequency os env files n hz s g course)
            (λ r. Profiled (frequency default_builder hz) s course r.0 r.1 r.2)
    unfolding profile_with_frequency frequency
    profile_with_frequency-IsProfiled hz =
        profile_with-IsProfiled (record default_builder { frequency = hz })

    abbrev pub cpu_builder : ProfilerGuardBuilder
    cpu_builder = default_builder

    abbrev pub wall_builder : ProfilerGuardBuilder
    wall_builder = record default_builder { clock_type = ClockType.wall }

    -- `profile` and then `profile_wall`, on what the first one leaves.
    abbrev pub one_after_another :
        S
        → Globals File Frame
        → Course Frame
        → Course Frame
        → Outcome (
            S
            × Globals File Frame
            × Result Error (Report Frames)
            × S
            × Globals File Frame
            × Result Error (Report Frames))
    one_after_another s g course later = profile os env files n s g course >>= λ (s', g', r).
        profile_wall os env files n s' g' later >>= λ (s'', g'', r'). done (s', g', r, s'', g'', r')

    -- Two sessions in a row, by processor time and then by the wall clock, from an idle profiler
    -- and under the same conditions, do not mix: each report counts the signals of its own
    -- session as above, and after each the profiler is idle.
    pub profile-profile_wall :
        (s : S) (g : Globals File Frame) (course later : Course Frame)
        → Idle g
        → All (λ t. length t.thread_name ≤ max_thread_name) course.ticks
        → length course.ticks < half_word
        → All (λ t. length t.thread_name ≤ max_thread_name) later.ticks
        → length later.ticks < half_word
        → (s' s'' : S) × (g' g'' : Globals File Frame) × (r r' : Result Error (Report Frames))
          × (one_after_another s g course later ≡ done (s', g', r, s'', g'', r'))
          × Profiled cpu_builder s course s' g' r
          × Profiled wall_builder s' later s'' g'' r'
    unfolding profile profile_wall profile_with_frequency frequency clock_type
    profile-profile_wall s g course later before names_fit short names_fit' short' =
        let ((s', g', r), ran, profiled) =
          profile_with-IsProfiled cpu_builder s g course refl before names_fit short in
        let ((s'', g'', r'), ran', profiled') =
          profile_with-IsProfiled wall_builder s' g' later refl profiled.is_idle names_fit'
            short' in
        (s', s'', g', g'', r, r', rw (ran, ran') refl, profiled, profiled')
