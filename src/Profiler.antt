-- ===== src/Profiler.antt =====
-- src/profiler.rs: the profiler's state, its blocklists, and the signal handler, for x86_64 Linux
-- with the feature `frame-pointer`.
pub mod Blocklist
pub mod Recording
pub mod Sampling
pub mod Control
pub mod Steps
pub mod Lifecycle
pub mod ThreadName
use pprof_rs.Prelude.{
  ℕ, zero, suc, ◌+◌, ◌%◌, ◌^◌, Bool, true, false, not, ◌&&◌, ◌||◌, Option, none, some, List, [],
  ◌∷◌, ◌++◌, Outcome, done, panic, ◌>>=◌, Result, ok, err, ltb, leb, add64, if◌then◌else◌, length,
  take,
}
use pprof_rs.Error.{Error, io_error, IoResult}
use pprof_rs.Key.{Key}
use pprof_rs.Os.{SigAction}
use pprof_rs.Timer.{ClockType}
use pprof_rs.Frames.{UnresolvedFrames, Resolver, Text, text_eq, max_depth, default_frames}
use pprof_rs.Frames
use pprof_rs.Frames.Eq.{frames_key}
use pprof_rs.Collector.{Collector}
use pprof_rs.Collector
use pprof_rs.Collector.Bucket.{Entry}
use pprof_rs.Collector.TempFile.{TempFile}

-- `sample_counter` is an `i32`.
pub record Profiler (File Frame : Type 0) : Type 0 where
  pub collected : Collector File (UnresolvedFrames Frame)
  pub sample_counter : ℕ
  pub old_sigaction : Option SigAction
  pub running : Bool
  pub clock_type : ClockType
  pub thread_blocklist : List Text
  pub on_stack : Bool
  pub blocklist_segments : List (ℕ × ℕ)

-- The statics `PROFILER` and `MISSED_SAMPLES`. `profiler` is an error if its creation failed.
pub record Globals (File Frame : Type 0) : Type 0 where
  pub profiler : Result Error (Profiler File Frame)
  pub missed_samples : ℕ

-- What the handler meets when a signal arrives: whether `try_write` gets the lock, the instruction
-- pointer in the context (none for a null context), the frames that the unwinder offers, and the
-- interrupted thread.
pub record Tick (Frame : Type 0) : Type 0 where
  pub lock_is_free : Bool
  pub ucontext : Option ℕ
  pub offered : List Frame
  pub thread_id : ℕ
  pub thread_name : Text
  pub timestamp : ℕ

-- `slice::windows`, for a size that is not zero
unfoldable pub windows : ℕ → Text → List Text
windows n [] = []
windows n (c ∷ cs) = if leb n (length (c ∷ cs)) then take n (c ∷ cs) ∷ windows n cs else []

unfoldable pub any_eq : Text → List Text → Bool
any_eq b [] = false
any_eq b (w ∷ ws) = text_eq w b || any_eq b ws

abbrev pub is_empty : Text → Bool
is_empty [] = true
is_empty (c ∷ cs) = false

-- The loop of `is_thread_blocklisted`
unfoldable pub name_blocklisted : List Text → Text → Bool
name_blocklisted [] thread_name = false
name_blocklisted (blocked ∷ rest) thread_name =
    (not (is_empty blocked) && any_eq blocked (windows (length blocked) thread_name))
    || name_blocklisted rest thread_name

-- The loop of `is_blocklisted`
unfoldable pub segment_blocklisted : List (ℕ × ℕ) → ℕ → Bool
segment_blocklisted [] addr = false
segment_blocklisted (libs ∷ rest) addr =
    (ltb libs.0 addr && ltb addr libs.1) || segment_blocklisted rest addr

module _ {File Frame : Type 0} where
  unfoldable pub is_thread_blocklisted : Profiler File Frame → Text → Bool
  is_thread_blocklisted p thread_name = name_blocklisted p.thread_blocklist thread_name

  unfoldable pub is_blocklisted : Profiler File Frame → ℕ → Bool
  is_blocklisted p addr = segment_blocklisted p.blocklist_segments addr

-- The profiler that `Profiler::new` makes of a collector.
abbrev pub fresh :
    {File Frame : Type 0} → Collector File (UnresolvedFrames Frame) → Profiler File Frame
fresh c = record {
  collected = c;
  sample_counter = 0;
  old_sigaction = none;
  running = false;
  clock_type = ClockType.cpu;
  thread_blocklist = [];
  on_stack = false;
  blocklist_segments = [];
}

module _ {Frame : Type 0} (env : Resolver Frame) where
  -- The callback that the handler gives to `trace`: it stops the unwinder at a blocklisted frame,
  -- and when `max_depth` frames are stored.
  unfoldable pub store_frames : (ℕ → Bool) → ℕ → List Frame → List Frame
  store_frames blocked index [] = []
  store_frames blocked index (frame ∷ offered) =
      let rest = store_frames blocked (index + 1) offered in
      if blocked (env.ip frame) then [] else if ltb index max_depth then frame ∷ rest else []

  module _ {File : Type 0} (files : TempFile File (Entry (UnresolvedFrames Frame))) (n : ℕ) where
    -- `Profiler::new`, at the time `now`
    unfoldable pub new : ℕ → Result Error (Profiler File Frame)
    new now = elim (Collector.new ⦃key = frames_key env⦄ files n (default_frames now)) [
      | err e ↦ err (io_error e)
      | ok c ↦ ok (fresh c)
    ]

    -- `Profiler::sample`; an error of the collector is dropped.
    unfoldable pub sample :
        Profiler File Frame → List Frame → Text → ℕ → ℕ → Outcome (Profiler File Frame)
    sample p backtrace thread_name thread_id sample_timestamp = do
      frames ← Frames.new backtrace thread_name thread_id sample_timestamp
      (c, _) ← Collector.add ⦃key = frames_key env⦄ files n p.collected frames 1
      done (record p { collected = c; sample_counter = (p.sample_counter + 1) % 2 ^ 32 })

    -- The handler once it has the lock and a profiler.
    unfoldable pub handle_locked : Profiler File Frame → Tick Frame → Outcome (Profiler File Frame)
    handle_locked p t =
        let outside : Bool = elim t.ucontext [ none ↦ false | some addr ↦ is_blocklisted p addr ] in
        if outside
        then done p
        else if is_thread_blocklisted p t.thread_name
        then done p
        else sample p (store_frames (is_blocklisted p) 0 t.offered) t.thread_name t.thread_id
            t.timestamp

    -- `perf_signal_handler`
    unfoldable pub perf_signal_handler :
        Globals File Frame → Tick Frame → Outcome (Globals File Frame)
    perf_signal_handler g t =
        if t.lock_is_free
        then elim g.profiler [
          | err e ↦ done g
          | ok p ↦ handle_locked p t >>= λ p'. done (record g { profiler = ok p' })
        ]
        else done (record g { missed_samples = add64 g.missed_samples 1 })

    -- The signals of a session, in the order in which they arrive.
    unfoldable pub handle_all :
        Globals File Frame → List (Tick Frame) → Outcome (Globals File Frame)
    handle_all g [] = done g
    handle_all g (t ∷ ts) = perf_signal_handler g t >>= λ g'. handle_all g' ts
