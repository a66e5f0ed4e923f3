-- ===== src/Profiler/Control.antt =====
-- src/profiler.rs, lines 175-272 and 534-619: starting and stopping. `PROFILER.write()` waits for the
-- lock, so that these run one after another. Logging is left out.
use pprof_rs.Prelude.{
  ℕ, Bool, true, false, none, some, List, [], ◌∷◌, ◌++◌, Outcome, done, ◌>>=◌, Result, ok, err,
  if◌then◌else◌,
}
use pprof_rs.Prelude.Int.{ℤ}
use pprof_rs.Error.{Error, nix_error, io_error, creating_error, running, not_running}
use pprof_rs.Os.{
  Os, Signal, sigprof, sigalrm, SigAction, sig_dfl, sig_ign, perf_signal_handler, other_handler,
  sa_siginfo, sa_restart, sa_onstack,
}
use pprof_rs.Timer.{ClockType, Timer, with_clock_type, drop_timer}
use pprof_rs.Frames.{UnresolvedFrames, Resolver, Text, default_frames}
use pprof_rs.Frames.Eq.{frames_key}
use pprof_rs.Collector
use pprof_rs.Collector.Bucket.{Entry}
use pprof_rs.Collector.TempFile.{TempFile}
use pprof_rs.Profiler.{Profiler, Globals}

pub record ProfilerGuardBuilder : Type 0 where
  pub frequency : ℤ
  pub clock_type : ClockType
  pub thread_blocklist : List Text
  pub on_stack : Bool
  pub blocklist_segments : List (ℕ × ℕ)

unfoldable pub signal_of : ClockType → Signal
signal_of ClockType.cpu = sigprof
signal_of ClockType.wall = sigalrm

-- What `register_signal_handler` installs.
abbrev pub our_action : Bool → SigAction
our_action on_stack = record {
  handler = perf_signal_handler;
  flags = (sa_siginfo ∷ sa_restart ∷ []) ++ (if on_stack then sa_onstack ∷ [] else []);
}

-- What `unregister_signal_handler` leaves, given what was there before the profiler.
unfoldable pub restored : SigAction → SigAction
restored old = elim old.handler [
  | sig_dfl ↦ record { handler = sig_ign; flags = [] }
  | sig_ign ↦ old
  | perf_signal_handler ↦ old
  | other_handler n ↦ old
]

module _ {S File Frame : Type 0} (os : Os S) where
  unfoldable pub register_signal_handler :
      S → Profiler File Frame → S × Profiler File Frame × Result Error (Unit {0})
  register_signal_handler s p =
      let (s', r) = os.sigaction s (signal_of p.clock_type) (our_action p.on_stack) in
      elim r [
        | err e ↦ (s', p, err (nix_error e))
        | ok old_action ↦ (s', record p { old_sigaction = some old_action }, ok tt)
      ]

  unfoldable pub unregister_signal_handler :
      S → Profiler File Frame → S × Profiler File Frame × Result Error (Unit {0})
  unregister_signal_handler s p = elim p.old_sigaction [
    | none ↦ (s, p, ok tt)
    | some old_action ↦
        let (s', r) = os.sigaction s (signal_of p.clock_type) (restored old_action) in
        let p' = record p { old_sigaction = none } in
        elim r [ err e ↦ (s', p', err (nix_error e)) | ok _ ↦ (s', p', ok tt) ]
  ]

  -- The rest of `start`, from `?` on.
  abbrev pub finish_start :
      ℕ
      → S × Profiler File Frame × Result Error (Unit {0})
      → S × Profiler File Frame × ℕ × Result Error (Unit {0})
  finish_start missed_samples (s, p, err e) = (s, p, missed_samples, err e)
  finish_start missed_samples (s, p, ok _) = (s, record p { running = true }, 0, ok tt)

  -- `Profiler::start`, with `MISSED_SAMPLES`
  unfoldable pub start :
      S
      → Profiler File Frame
      → ℕ
      → ClockType
      → List Text
      → S × Profiler File Frame × ℕ × Result Error (Unit {0})
  start s p missed_samples clock_type thread_blocklist =
      if p.running
      then (s, p, missed_samples, err running)
      else finish_start missed_samples (
          register_signal_handler s
            (record p { clock_type = clock_type; thread_blocklist = thread_blocklist }))

module _ {S File Frame : Type 0} (os : Os S) (env : Resolver Frame)
    (files : TempFile File (Entry (UnresolvedFrames Frame))) (n : ℕ) where
  -- `Profiler::init`; the counter is reset before the collector is made.
  unfoldable pub init : ℕ → Profiler File Frame → Profiler File Frame × Result Error (Unit {0})
  init now p = elim (Collector.new ⦃key = frames_key env⦄ files n (default_frames now)) [
    | err e ↦ (record p { sample_counter = 0 }, err (io_error e))
    | ok c ↦ (record p { sample_counter = 0; collected = c; running = false }, ok tt)
  ]

  -- The rest of `stop`, from the first `?` on.
  abbrev pub finish_stop :
      ℕ
      → S × Profiler File Frame × Result Error (Unit {0})
      → S × Profiler File Frame × Result Error (Unit {0})
  finish_stop now (s, p, err e) = (s, p, err e)
  finish_stop now (s, p, ok _) = let (p', r) = init now p in (s, p', r)

  -- `Profiler::stop`
  unfoldable pub stop :
      S → ℕ → Profiler File Frame → S × Profiler File Frame × Result Error (Unit {0})
  stop s now p =
      if p.running
      then finish_stop now (unregister_signal_handler os s p)
      else (s, p, err not_running)

  -- The rest of `build`: the timer is set if the profiler has started.
  abbrev pub finish_build :
      ProfilerGuardBuilder
      → ℕ
      → ℕ
      → S × Profiler File Frame × ℕ × Result Error (Unit {0})
      → Outcome (S × Globals File Frame × Result Error Timer)
  finish_build b now instant (s, p, missed, err e) =
      done (s, record { profiler = ok p; missed_samples = missed }, err e)
  finish_build b now instant (s, p, missed, ok _) =
      with_clock_type os s b.frequency b.clock_type now instant >>= λ (s', timer).
      done (s', record { profiler = ok p; missed_samples = missed }, ok timer)

  -- `ProfilerGuardBuilder::build`, at the time `now` of both clocks.
  unfoldable pub build :
      S
      → Globals File Frame
      → ProfilerGuardBuilder
      → ℕ
      → ℕ
      → Outcome (S × Globals File Frame × Result Error Timer)
  build s g b now instant = elim g.profiler [
    | err e ↦ done (s, g, err creating_error)
    | ok p ↦ finish_build b now instant (
        start os s (record p { on_stack = b.on_stack; blocklist_segments = b.blocklist_segments })
          g.missed_samples b.clock_type b.thread_blocklist)
  ]

  -- `ProfilerGuard::drop`: the timer first. An error of `stop` is logged.
  unfoldable pub drop_guard : S → Globals File Frame → Timer → ℕ → S × Globals File Frame
  drop_guard s g timer now =
      let s' = drop_timer os s timer in
      elim g.profiler [
        | err e ↦ (s', g)
        | ok p ↦ let (s'', p', r) = stop s' now p in (s'', record g { profiler = ok p' })
      ]
