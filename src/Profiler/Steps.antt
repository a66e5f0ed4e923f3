-- ===== src/Profiler/Steps.antt =====
-- src/profiler.rs, lines 181-272 and 534-618: what the steps of a session come to, where the system
-- calls succeed.
use pprof_rs.Prelude.{
  ℕ, ◌≡◌, refl, ap, ◌∙◌, inl, inr, Bool, true, false, none, some, List, done, ok, err,
  if◌then◌else◌,
}
use pprof_rs.Error.{running}
use pprof_rs.Os.{
  Os, SigAction, IsGivenBack, SigHandler, SaFlag, sig_dfl, sig_ign, perf_signal_handler,
  other_handler,
}
use pprof_rs.Timer.{ClockType, Timer, which, interval_timeval, is_zero, with_clock_type, drop_timer}
use pprof_rs.Frames.{UnresolvedFrames, Resolver, Text, default_frames}
use pprof_rs.Frames.Eq.{frames_key}
use pprof_rs.Collector
use pprof_rs.Collector.Bucket.{Entry}
use pprof_rs.Collector.TempFile.{TempFile}
use pprof_rs.Profiler.{Profiler}
use pprof_rs.Profiler.Control.{
  ProfilerGuardBuilder, finish_start, finish_stop, finish_build, signal_of, our_action, restored,
  register_signal_handler, unregister_signal_handler, start, init, stop, build, drop_guard,
}

if_true : {A : Type 0} {b : Bool} (x y : A) → b ≡ true → (if b then x else y) ≡ x
if_true x y h = rw h

if_false : {A : Type 0} {b : Bool} (x y : A) → b ≡ false → (if b then x else y) ≡ y
if_false x y h = rw h

restored-cases :
    (h : SigHandler) (flags : List SaFlag)
    → IsGivenBack
        (record { handler = h; flags = flags })
        (restored (record { handler = h; flags = flags }))
unfolding restored
restored-cases sig_dfl flags = inr (refl, refl)
restored-cases sig_ign flags = inl ((λ e. cc), refl)
restored-cases perf_signal_handler flags = inl ((λ e. cc), refl)
restored-cases (other_handler n) flags = inl ((λ e. cc), refl)

-- What the drop puts in place of `old` gives it back.
pub IsGivenBack-restored :
    (old before after : SigAction) → old ≡ before → after ≡ restored old → IsGivenBack before after
IsGivenBack-restored old before after same put =
    rw (put, same) (restored-cases before.handler before.flags)

module _ {S File Frame : Type 0} (os : Os S) where
  pub start_running :
      (s : S) (p : Profiler File Frame) (missed : ℕ) (clock_type : ClockType) (names : List Text)
      → p.running ≡ true
      → start os s p missed clock_type names ≡ (s, p, missed, err running)
  unfolding start
  start_running s p missed clock_type names r = if_true _ _ r

  register_run :
      (s : S) (p : Profiler File Frame) (old : SigAction)
      → (os.sigaction s (signal_of p.clock_type) (our_action p.on_stack)).1 ≡ ok old
      → register_signal_handler os s p ≡ (
        (os.sigaction s (signal_of p.clock_type) (our_action p.on_stack)).0,
        record p { old_sigaction = some old },
        ok tt,
      )
  unfolding register_signal_handler
  register_run s p old run = rw (run, register_signal_handler)

  start_idle :
      (s : S) (p : Profiler File Frame) (missed : ℕ) (clock_type : ClockType) (names : List Text)
      (old : SigAction)
      → p.running ≡ false
      → (os.sigaction s (signal_of clock_type) (our_action p.on_stack)).1 ≡ ok old
      → start os s p missed clock_type names ≡ (
        (os.sigaction s (signal_of clock_type) (our_action p.on_stack)).0,
        record p {
          clock_type = clock_type;
          thread_blocklist = names;
          old_sigaction = some old;
          running = true;
        },
        0,
        ok tt,
      )
  unfolding start
  start_idle s p missed clock_type names old idle run =
      if_false _ _ idle
      ∙ ap (finish_start os missed)
          (register_run s (record p { clock_type = clock_type; thread_blocklist = names }) old run)

  unregister_run :
      (s : S) (p : Profiler File Frame) (old last : SigAction)
      → p.old_sigaction ≡ some old
      → (os.sigaction s (signal_of p.clock_type) (restored old)).1 ≡ ok last
      → unregister_signal_handler os s p ≡ (
        (os.sigaction s (signal_of p.clock_type) (restored old)).0,
        record p { old_sigaction = none },
        ok tt,
      )
  unfolding unregister_signal_handler
  unregister_run s p old last e run = rw (e, unregister_signal_handler) (rw run)

module _ {S File Frame : Type 0} (os : Os S) (env : Resolver Frame)
    (files : TempFile File (Entry (UnresolvedFrames Frame))) (n : ℕ) where
  -- The profiler while a session runs, given the disposition that it replaced.
  abbrev pub begun : Profiler File Frame → ProfilerGuardBuilder → SigAction → Profiler File Frame
  begun p b old = record p {
    on_stack = b.on_stack;
    blocklist_segments = b.blocklist_segments;
    clock_type = b.clock_type;
    thread_blocklist = b.thread_blocklist;
    old_sigaction = some old;
    running = true;
  }

  abbrev pub armed : S → ProfilerGuardBuilder → S
  armed s b =
      os.setitimer (os.sigaction s (signal_of b.clock_type) (our_action b.on_stack)).0
        (which b.clock_type)
        (record {
          it_interval = interval_timeval b.frequency;
          it_value = interval_timeval b.frequency;
        })

  abbrev pub timer_of : ProfilerGuardBuilder → ℕ → ℕ → Timer
  timer_of b now instant = record {
    frequency = b.frequency;
    clock_type = b.clock_type;
    start_time = now;
    start_instant = instant;
  }

  pub build_run :
      (s : S) (p : Profiler File Frame) (missed : ℕ) (b : ProfilerGuardBuilder) (now instant : ℕ)
      (old : SigAction)
      → p.running ≡ false
      → is_zero b.frequency ≡ false
      → (os.sigaction s (signal_of b.clock_type) (our_action b.on_stack)).1 ≡ ok old
      → build os env files n s (record { profiler = ok p; missed_samples = missed }) b now instant
        ≡ done (
          armed s b,
          record { profiler = ok (begun p b old); missed_samples = 0 },
          ok (timer_of b now instant),
        )
  unfolding build with_clock_type
  build_run s p missed b now instant old idle nonzero run =
      ap (finish_build os env files n b now instant) (
        start_idle os s
          (record p { on_stack = b.on_stack; blocklist_segments = b.blocklist_segments }) missed
          b.clock_type b.thread_blocklist old idle run)
      ∙ rw nonzero

  -- The profiler after a session.
  abbrev pub ended :
      Profiler File Frame → Collector.Collector File (UnresolvedFrames Frame) → Profiler File Frame
  ended q c = record q { old_sigaction = none; sample_counter = 0; collected = c; running = false }

  init_run :
      (q : Profiler File Frame) (later : ℕ) (c : Collector.Collector File (UnresolvedFrames Frame))
      → Collector.new ⦃key = frames_key env⦄ files n (default_frames later) ≡ ok c
      → init os env files n later q
        ≡ (record q { sample_counter = 0; collected = c; running = false }, ok tt)
  unfolding init
  init_run q later c made = rw (made, init)

  stop_run :
      (s : S) (q : Profiler File Frame) (later : ℕ) (old last : SigAction)
      (c : Collector.Collector File (UnresolvedFrames Frame))
      → q.running ≡ true
      → q.old_sigaction ≡ some old
      → (os.sigaction s (signal_of q.clock_type) (restored old)).1 ≡ ok last
      → Collector.new ⦃key = frames_key env⦄ files n (default_frames later) ≡ ok c
      → stop os env files n s later q
        ≡ ((os.sigaction s (signal_of q.clock_type) (restored old)).0, ended q c, ok tt)
  unfolding stop
  stop_run s q later old last c r e run made =
      if_true _ _ r
      ∙ ap (finish_stop os env files n later) (unregister_run os s q old last e run)
      ∙ ap (λ t. ((os.sigaction s (signal_of q.clock_type) (restored old)).0, t.0, t.1))
          (init_run (record q { old_sigaction = none }) later c made)

  pub drop_run :
      (s : S) (q : Profiler File Frame) (missed later : ℕ) (timer : Timer) (old last : SigAction)
      (c : Collector.Collector File (UnresolvedFrames Frame))
      → q.running ≡ true
      → q.old_sigaction ≡ some old
      → (os.sigaction (drop_timer os s timer) (signal_of q.clock_type) (restored old)).1 ≡ ok last
      → Collector.new ⦃key = frames_key env⦄ files n (default_frames later) ≡ ok c
      → drop_guard os env files n s
          (record { profiler = ok q; missed_samples = missed })
          timer
          later
        ≡ (
          (os.sigaction (drop_timer os s timer) (signal_of q.clock_type) (restored old)).0,
          record { profiler = ok (ended q c); missed_samples = missed },
        )
  unfolding drop_guard
  drop_run s q missed later timer old last c r e run made =
      ap (λ t. (t.0, record { profiler = ok t.1; missed_samples = missed }))
        (stop_run (drop_timer os s timer) q later old last c r e run made)
