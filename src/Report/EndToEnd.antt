-- ===== src/Report/EndToEnd.antt =====
-- src/profiler.rs and src/report.rs: from the first signal to the report.
use pprof_rs.Prelude.{
  ℕ, ◌≤◌, ◌<◌, ◌≡◌, refl, ◌∙◌, Bool, true, Option, List, [], ◌∷◌, done, ok, length, All, arith,
  half_word, Adds-exact_from,
}
use pprof_rs.Key.{Key, Respects}
use pprof_rs.Timer.{ReportTiming}
use pprof_rs.Frames.{UnresolvedFrames, Frames, Resolver, Text, max_thread_name, default_frames}
use pprof_rs.Frames.Eq.{frames_key}
use pprof_rs.Frames.Resolved.{resolved_key}
use pprof_rs.Collector.{Collector}
use pprof_rs.Collector.Counts
use pprof_rs.Collector.Bucket.{Entry}
use pprof_rs.Collector.Bucket.Weight.{weigh, Distinct}
use pprof_rs.Collector.TempFile.{TempFile, FileLaws, NoIoErrors}
use pprof_rs.Profiler.{Profiler, Globals, Tick, new, fresh, handle_all}
use pprof_rs.Profiler.Recording.{recorded, contended}
use pprof_rs.Profiler.Sampling.{RespectsStacks, handle_all-Session, Session}
use pprof_rs.Profiler.Sampling
use pprof_rs.Report.{total_samples}
use pprof_rs.Report.Builder.{Report, build_with, build_unresolved, build, make_frames}
use pprof_rs.Report.Data.{count_entries-exact, total_samples-weigh}

recorded-le :
    {Frame : Type 0} (env : Resolver Frame) (test : UnresolvedFrames Frame → Bool)
    (segments : List (ℕ × ℕ)) (names : List Text) (ts : List (Tick Frame))
    → recorded env test segments names ts ≤ length ts
unfolding recorded
recorded-le env test segments names [] = omega arith
recorded-le env test segments names (t ∷ ts) =
    ground (arith, recorded-le env test segments names ts)

contended-le : {Frame : Type 0} (ts : List (Tick Frame)) → contended ts ≤ length ts
unfolding contended
contended-le [] = omega arith
contended-le (t ∷ ts) = ground (arith, contended-le ts)

module _ {Frame File : Type 0} (env : Resolver Frame)
    (files : TempFile File (Entry (UnresolvedFrames Frame))) (n : ℕ) (laws : FileLaws files)
    (healthy : NoIoErrors files laws) (positive : 0 < n) where
  -- A profiler as `start` leaves it, with these blocklists.
  abbrev pub started : Profiler File Frame → List (ℕ × ℕ) → List Text → Profiler File Frame
  started p segments names = record p {
    running = true;
    thread_blocklist = names;
    blocklist_segments = segments;
  }

  pub new-empty :
      (now : ℕ)
      → (c : Collector File (UnresolvedFrames Frame)) × (new env files n now ≡ ok (fresh c))
        × Sampling.IsSound env files n laws healthy positive (fresh c)
        × (Counts.entries ⦃key = frames_key env⦄ files n laws c ≡ [])
  unfolding new
  new-empty now =
      let (c, made, v, empty) =
        Counts.new-IsSound ⦃key = frames_key env⦄ files n laws healthy positive
          (default_frames now) in
      (c, rw (made, new), v, empty)

  module _ {K : Type 0} (key : Key K) (make_key : UnresolvedFrames Frame → K)
      (segments : List (ℕ × ℕ)) (names : List Text) (ts : List (Tick Frame)) where
    -- The report of a session: one entry for each key; for every set of keys, as many samples as
    -- signals were recorded under such a key; and the signals that found the lock taken.
    pub record Reports (r : Report K) : Type 0 where
      pub distinct : Distinct ⦃key = key⦄ r.counts
      pub exact :
          (test : K → Bool)
          → Respects ⦃key = key⦄ test
          → RespectsStacks env files n laws healthy positive (λ u. test (make_key u))
          → weigh test r.counts ≡ recorded env (λ u. test (make_key u)) segments names ts
      pub total : total_samples r.counts ≡ recorded env (λ _. true) segments names ts
      pub missed : r.missed_samples ≡ contended ts

  module _ {K : Type 0} (key : Key K) (make_key : UnresolvedFrames Frame → K) where
    module _ (q : Profiler File Frame)
        (empty : Counts.entries ⦃key = frames_key env⦄ files n laws q.collected ≡ [])
        (ts : List (Tick Frame)) (short : length ts < half_word) (g g' : Globals File Frame)
        (none_missed : g.missed_samples ≡ 0)
        (s : Session env files n laws healthy positive g q ts g') where
      abbrev seen : List (Entry (UnresolvedFrames Frame))
      seen = Counts.entries ⦃key = frames_key env⦄ files n laws s.after.collected

      weigh-seen :
          (test : UnresolvedFrames Frame → Bool)
          → RespectsStacks env files n laws healthy positive test
          → weigh test seen ≡ recorded env test q.blocklist_segments q.thread_blocklist ts
      weigh-seen test r =
          let nothing : weigh test (Counts.entries ⦃key = frames_key env⦄ files n laws q.collected)
              ≡ 0 =
            rw empty (unfold weigh in refl) in
          Adds-exact_from (weigh test seen) _ _ nothing (s.balance test r)
            (omega (arith, recorded-le env test q.blocklist_segments q.thread_blocklist ts))

      pub report_of :
          (timing : ReportTiming)
          → (r : Report K) × (build_with env files n key make_key g' timing ≡ done (ok r))
            × (r.timing ≡ timing)
            × Reports key make_key q.blocklist_segments q.thread_blocklist ts r
      unfolding build_with
      report_of timing =
          let whole = weigh-seen (λ _. true) (λ a b e. refl) in
          let bound = recorded-le env (λ _. true) q.blocklist_segments q.thread_blocklist ts in
          let (m, run, (d, exact)) =
            count_entries-exact ⦃key = key⦄ make_key seen (omega (arith, whole, bound)) in
          let run' =
            Counts.try_iter-entries ⦃key = frames_key env⦄ files n laws healthy positive
              s.after.collected s.sound in
          let total = exact (λ _. true) (λ a b e. refl) ∙ whole in
          (
            record { counts = m; timing = timing; missed_samples = g'.missed_samples },
            rw (s.is_after, run', run),
            refl,
            record {
              distinct = d;
              exact = λ test rk rs. exact test rk ∙ weigh-seen (λ u. test (make_key u)) rs;
              total = total_samples-weigh ⦃key = key⦄ m (omega (arith, total, bound)) ∙ total;
              missed = omega (arith, s.missed (omega arith), contended-le ts, none_missed);
            },
          )

    module _ (segments : List (ℕ × ℕ)) (names : List Text) (ts : List (Tick Frame)) where
      -- Whatever the key is made of, a session from a fresh profiler ends in a report.
      session-Reports :
          (now : ℕ) (timing : ReportTiming)
          → All (λ t. length t.thread_name ≤ max_thread_name) ts
          → length ts < half_word
          → (p : Profiler File Frame) × (g' : Globals File Frame) × (r : Report K) × (new env files
                n now
              ≡ ok p)
            × (handle_all env files n
                  (record { profiler = ok (started p segments names); missed_samples = 0 })
                  ts
                ≡ done g')
            × (build_with env files n key make_key g' timing ≡ done (ok r))
            × Reports key make_key segments names ts r
      session-Reports now timing names_fit short =
          let (c, made, v, empty) = new-empty now in
          let (g', run, s) =
            handle_all-Session env files n laws healthy positive
              (record { profiler = ok (started (fresh c) segments names); missed_samples = 0 })
              (started (fresh c) segments names) ts refl v names_fit in
          let (r, built, _, reports) =
            report_of (started (fresh c) segments names) empty ts short
              (record { profiler = ok (started (fresh c) segments names); missed_samples = 0 }) g'
              refl s timing in
          (fresh c, g', r, made, run, built, reports)

  module _ (segments : List (ℕ × ℕ)) (names : List Text) (ts : List (Tick Frame)) (now : ℕ)
      (timing : ReportTiming) where
    -- The session starts with the profiler, and ends with the globals.
    abbrev pub Ends : Profiler File Frame → Globals File Frame → Type 0
    Ends p g' =
        (new env files n now ≡ ok p)
        × (handle_all env files n
              (record { profiler = ok (started p segments names); missed_samples = 0 }) ts
            ≡ done g')

    -- A session of fewer than 2 ^ 63 signals that starts from a new profiler, with thread names
    -- of at most `max_thread_name` bytes and a file that does not fail, ends in a report without
    -- symbols. For every set of stacks that respects their equality, it counts the signals that
    -- got the lock, were not blocklisted and have such a stack; its keys are distinct; its total
    -- is the number of all recorded signals, and its missed samples are those that found the lock
    -- taken.
    pub build_unresolved-exact :
        (test : UnresolvedFrames Frame → Bool)
        → Respects ⦃key = frames_key env⦄ test
        → All (λ t. length t.thread_name ≤ max_thread_name) ts
        → length ts < half_word
        → (p : Profiler File Frame) × (g' : Globals File Frame) × (r : Report
            (UnresolvedFrames Frame))
          × Ends p g'
          × (build_unresolved env files n g' timing ≡ done (ok r))
          × Distinct ⦃key = frames_key env⦄ r.counts
          × (weigh test r.counts ≡ recorded env test segments names ts)
          × (total_samples r.counts ≡ recorded env (λ _. true) segments names ts)
          × (r.missed_samples ≡ contended ts)
    unfolding build_unresolved
    build_unresolved-exact test respects names_fit short =
        let (p, g', r, made, run, built, reports) =
          session-Reports (frames_key env) (λ item. item) segments names ts now timing names_fit
            short in
        (
          p,
          g',
          r,
          (made, run),
          built,
          reports.distinct,
          reports.exact test respects respects,
          reports.total,
          reports.missed,
        )

    -- A session of fewer than 2 ^ 63 signals that starts from a new profiler, with thread names
    -- of at most `max_thread_name` bytes and a file that does not fail, ends in a report,
    -- whatever the post processor does. For every set of keys that respects the equality of
    -- stacks before and after they are converted, the report counts the signals that got the
    -- lock, were not blocklisted and have such a key; its keys are distinct; its total is the
    -- number of all recorded signals, and its missed samples are those that found the lock taken.
    pub build-exact :
        (frames_post_processor : Option (Frames → Frames)) (test : Frames → Bool)
        → Respects ⦃key = resolved_key env⦄ test
        → Respects ⦃key = frames_key env⦄ (λ u. test (make_frames env frames_post_processor u))
        → All (λ t. length t.thread_name ≤ max_thread_name) ts
        → length ts < half_word
        → (p : Profiler File Frame) × (g' : Globals File Frame) × (r : Report Frames) × Ends p g'
          × (build env files n frames_post_processor g' timing ≡ done (ok r))
          × Distinct ⦃key = resolved_key env⦄ r.counts
          × (weigh test r.counts
              ≡ recorded env
                  (λ u. test (make_frames env frames_post_processor u))
                  segments
                  names
                  ts)
          × (total_samples r.counts ≡ recorded env (λ _. true) segments names ts)
          × (r.missed_samples ≡ contended ts)
    unfolding build
    build-exact post test respects respects' names_fit short =
        let (p, g', r, made, run, built, reports) =
          session-Reports (resolved_key env) (make_frames env post) segments names ts now timing
            names_fit short in
        (
          p,
          g',
          r,
          (made, run),
          built,
          reports.distinct,
          reports.exact test respects respects',
          reports.total,
          reports.missed,
        )
