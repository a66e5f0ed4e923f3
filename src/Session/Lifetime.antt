-- ===== src/Session/Lifetime.antt =====
-- src/profiler.rs and src/report.rs: a session from `build` to the drop of its guard, with its report.
use pprof_rs.Prelude.{
  ℕ, ◌<◌, ◌≤◌, ◌≡◌, refl, ap, ◌∙◌, true, false, none, some, [], done, Result, ok, length, All,
  half_word,
}
use pprof_rs.Error.{Error}
use pprof_rs.Os.{IsGivenBack, Os, OsLaws, Signal, SigAction}
use pprof_rs.Timer.{Timer, is_zero, timing, drop_timer}
use pprof_rs.Frames.{UnresolvedFrames, Frames, Resolver, max_thread_name, default_frames}
use pprof_rs.Frames.Eq.{frames_key}
use pprof_rs.Frames.Resolved.{resolved_key}
use pprof_rs.Collector
use pprof_rs.Collector.Counts
use pprof_rs.Collector.Bucket.{Entry}
use pprof_rs.Collector.TempFile.{TempFile, FileLaws, NoIoErrors}
use pprof_rs.Profiler.{Profiler, Globals, handle_all}
use pprof_rs.Profiler.Control.{
  ProfilerGuardBuilder, signal_of, our_action, restored, build, drop_guard,
}
use pprof_rs.Profiler.Steps.{
  IsGivenBack-restored, begun, armed, timer_of, ended, build_run, drop_run,
}
use pprof_rs.Profiler.Sampling.{handle_all-Session, Session}
use pprof_rs.Profiler.Sampling
use pprof_rs.Report.Builder.{Report, make_frames}
use pprof_rs.Report.Builder
use pprof_rs.Report.EndToEnd.{Reports, report_of}
use pprof_rs.Session.{Course}

module _ {S File Frame : Type 0} (os : Os S) (env : Resolver Frame)
    (files : TempFile File (Entry (UnresolvedFrames Frame))) (n : ℕ) (laws : FileLaws files)
    (healthy : NoIoErrors files laws) (positive : 0 < n) where
  -- No session is open, and nothing is counted.
  pub record IsIdle (g : Globals File Frame) : Type 0 where
    pub profiler : Profiler File Frame
    pub is_profiler : g.profiler ≡ ok profiler
    pub idle : profiler.running ≡ false
    pub sound : Sampling.IsSound env files n laws healthy positive profiler
    pub empty : Counts.entries ⦃key = frames_key env⦄ files n laws profiler.collected ≡ []

  module _ (os_laws : OsLaws os)
      (installs : (s : S) (g : Signal) (a : SigAction)
        → (old : SigAction) × ((os.sigaction s g a).1 ≡ ok old)) where
    -- What a helper's session comes to: a report of its signals, and an idle profiler, with the
    -- disposition of before given back.
    pub record IsProfiled (b : ProfilerGuardBuilder) (s : S) (course : Course Frame) (s' : S)
        (g' : Globals File Frame) (result : Result Error (Report Frames)) : Type 0 where
      pub made : Report Frames
      pub is_made : result ≡ ok made
      pub reports :
          Reports env files n laws healthy positive
            (resolved_key env)
            (make_frames env none)
            b.blocklist_segments
            b.thread_blocklist
            course.ticks
            made
      pub timed :
          made.timing
          ≡ timing
              (timer_of os env files n b course.start_time course.start_instant)
              course.report_instant
      pub is_idle : IsIdle g'
      pub is_restored :
          IsGivenBack
            (os_laws.disposition s (signal_of b.clock_type))
            (os_laws.disposition s' (signal_of b.clock_type))

    drop_at :
        (s : S) (g : Globals File Frame) (q : Profiler File Frame) (later : ℕ) (timer : Timer)
        (old last : SigAction) (c : Collector.Collector File (UnresolvedFrames Frame))
        → g.profiler ≡ ok q
        → q.running ≡ true
        → q.old_sigaction ≡ some old
        → (os.sigaction (drop_timer os s timer) (signal_of q.clock_type) (restored old)).1 ≡ ok last
        → Collector.new ⦃key = frames_key env⦄ files n (default_frames later) ≡ ok c
        → drop_guard os env files n s g timer later ≡ (
          (os.sigaction (drop_timer os s timer) (signal_of q.clock_type) (restored old)).0,
          record { profiler = ok (ended os env files n q c); missed_samples = g.missed_samples },
        )
    drop_at s g q later timer old last c is r e run made =
        ap
          (λ o.
            drop_guard os env files n s (record { profiler = o; missed_samples = g.missed_samples })
              timer later)
          is
        ∙ drop_run os env files n s q g.missed_samples later timer old last c r e run made

    started_by :
        (b : ProfilerGuardBuilder) (s : S) (g : Globals File Frame) (course : Course Frame)
        (p : Profiler File Frame) (old : SigAction)
        → g.profiler ≡ ok p
        → p.running ≡ false
        → is_zero b.frequency ≡ false
        → (os.sigaction s (signal_of b.clock_type) (our_action b.on_stack)).1 ≡ ok old
        → build os env files n s g b course.start_time course.start_instant
          ≡ done (
            armed os env files n s b,
            record { profiler = ok (begun os env files n p b old); missed_samples = 0 },
            ok (timer_of os env files n b course.start_time course.start_instant),
          )
    started_by b s g course p old is idle nonzero installed =
        ap
          (λ o.
            build os env files n s (record { profiler = o; missed_samples = g.missed_samples }) b
              course.start_time course.start_instant)
          is
        ∙ build_run os env files n s p g.missed_samples b course.start_time course.start_instant old
            idle nonzero installed

    -- The session of a builder from an idle profiler: it opens, takes the signals, can be reported
    -- on, and closes.
    pub session_of :
        (b : ProfilerGuardBuilder) (s : S) (g : Globals File Frame) (course : Course Frame)
        → is_zero b.frequency ≡ false
        → IsIdle g
        → All (λ t. length t.thread_name ≤ max_thread_name) course.ticks
        → length course.ticks < half_word
        → (opened s' : S) × (during sampled g' : Globals File Frame) × (timer : Timer)
          × (made : Report Frames) × (build os env files n s g b course.start_time
                course.start_instant
              ≡ done (opened, during, ok timer))
          × (handle_all env files n during course.ticks ≡ done sampled)
          × (Builder.build env files n none sampled (timing timer course.report_instant)
              ≡ done (ok made))
          × (drop_guard os env files n opened sampled timer course.drop_time ≡ (s', g'))
          × IsProfiled b s course s' g' (ok made)
    unfolding Builder.build
    session_of b s g course nonzero before names_fit short =
        let sig = signal_of b.clock_type in
        let p = before.profiler in
        let (old, installed) = installs s sig (our_action b.on_stack) in
        let q = begun os env files n p b old in
        let during : Globals File Frame = record { profiler = ok q; missed_samples = 0 } in
        let timer = timer_of os env files n b course.start_time course.start_instant in
        let (g', handled, session) =
          handle_all-Session env files n laws healthy positive during q course.ticks refl
            before.sound names_fit in
        let (made, built, timed, reports) =
          report_of env files n laws healthy positive (resolved_key env) (make_frames env none) q
            before.empty course.ticks short during g' refl session
            (timing timer course.report_instant) in
        let disarmed = drop_timer os (armed os env files n s b) timer in
        let after : Profiler File Frame = record session.after { clock_type = b.clock_type } in
        let is_after : g'.profiler ≡ ok after =
          session.is_after
          ∙ ap (λ clock. ok (record session.after { clock_type = clock })) session.same.clock in
        let (last, uninstalled) = installs disarmed sig (restored old) in
        let (c, made_new, v, empty) =
          Counts.new-IsSound ⦃key = frames_key env⦄ files n laws healthy positive
            (default_frames course.drop_time) in
        let dropped =
          drop_at (armed os env files n s b) g' after course.drop_time timer old last c is_after
            session.same.active session.same.replaced uninstalled made_new in
        (
          armed os env files n s b,
          (os.sigaction disarmed sig (restored old)).0,
          during,
          g',
          record g' { profiler = ok (ended os env files n after c) },
          timer,
          made,
          started_by b s g course p old before.is_profiler before.idle nonzero installed,
          handled,
          built,
          dropped,
          record {
            made = made;
            is_made = refl;
            reports = reports;
            timed = timed;
            is_idle = record {
              profiler = ended os env files n after c;
              is_profiler = refl;
              idle = refl;
              sound = v;
              empty = empty;
            };
            is_restored =
                IsGivenBack-restored old (os_laws.disposition s sig) _
                  (os_laws.sigaction_old s sig _ old installed)
                  (os_laws.sigaction_sets disarmed sig _ last uninstalled);
          },
        )
