-- ===== src/Profiler/Sampling.antt =====
-- src/profiler.rs, lines 373-480 and 620-632: what the signal handler records.
use pprof_rs.Prelude.{
  ℕ, ◌+◌, ◌%◌, ◌^◌, ◌≤◌, ◌<◌, ◌≡◌, refl, ◌∙◌, inl, inr, Bool, true, false, not, ◌&&◌, none, some,
  List, [], ◌∷◌, done, Returns, ok, le→leb, if◌then◌else◌, length, All, arith, Bool-cases, Adds,
  word, add64, if_or_true, if_or_false,
}
use mathlib.Core.Path.{ap₂}
use pprof_rs.Key.{Respects}
use pprof_rs.Frames.{UnresolvedFrames, Resolver, Text, max_depth, max_thread_name, built}
use pprof_rs.Frames
use pprof_rs.Frames.Eq.{frames_key}
use pprof_rs.Collector.Counts
use pprof_rs.Collector.Bucket.{Entry}
use pprof_rs.Collector.Bucket.Weight.{weigh}
use pprof_rs.Collector.TempFile.{TempFile, FileLaws, NoIoErrors}
use pprof_rs.Profiler.{
  Profiler, Globals, Tick, is_blocklisted, is_thread_blocklisted, store_frames, sample,
  handle_locked, perf_signal_handler, handle_all,
}
use pprof_rs.Profiler.Recording.{recorded, contended, stack_of, is_filtered}

-- The profiler differs in no more than its samples.
pub record SameSettings {File Frame : Type 0} (p p' : Profiler File Frame) : Type 0 where
  pub names : p'.thread_blocklist ≡ p.thread_blocklist
  pub segments : p'.blocklist_segments ≡ p.blocklist_segments
  pub clock : p'.clock_type ≡ p.clock_type
  pub replaced : p'.old_sigaction ≡ p.old_sigaction
  pub active : p'.running ≡ p.running

same_settings : {File Frame : Type 0} (p : Profiler File Frame) → SameSettings p p
same_settings p = record {
  names = refl;
  segments = refl;
  clock = refl;
  replaced = refl;
  active = refl;
}

same_again :
    {File Frame : Type 0} (p q r : Profiler File Frame)
    → SameSettings p q
    → SameSettings q r
    → SameSettings p r
same_again p q r s t = record {
  names = t.names ∙ s.names;
  segments = t.segments ∙ s.segments;
  clock = t.clock ∙ s.clock;
  replaced = t.replaced ∙ s.replaced;
  active = t.active ∙ s.active;
}

module _ {Frame File : Type 0} (env : Resolver Frame)
    (files : TempFile File (Entry (UnresolvedFrames Frame))) (n : ℕ) (laws : FileLaws files)
    (healthy : NoIoErrors files laws) (positive : 0 < n) where
  abbrev pub IsSound : Profiler File Frame → Type 0
  IsSound p = Counts.IsSound ⦃key = frames_key env⦄ files n laws p.collected

  -- The weight of the stacks that pass the test, in the collector.
  abbrev pub weight : (UnresolvedFrames Frame → Bool) → Profiler File Frame → ℕ
  weight test p = weigh test (Counts.entries ⦃key = frames_key env⦄ files n laws p.collected)

  abbrev pub RespectsStacks : (UnresolvedFrames Frame → Bool) → Type 0
  RespectsStacks = Respects ⦃key = frames_key env⦄

  -- What one signal did to the profiler.
  record Handled (p : Profiler File Frame) (t : Tick Frame) (p' : Profiler File Frame)
      : Type 0 where
    sound : IsSound p'
    same : SameSettings p p'
    balance :
        (test : UnresolvedFrames Frame → Bool)
        → RespectsStacks test
        → Adds (weight test p') (weight test p) (
            if not (is_filtered env p.blocklist_segments p.thread_blocklist t)
              && test (stack_of env p.blocklist_segments t)
            then 1
            else 0)

  sample-Handled :
      (p : Profiler File Frame) (t : Tick Frame)
      → IsSound p
      → length t.thread_name ≤ max_thread_name
      → is_filtered env p.blocklist_segments p.thread_blocklist t ≡ false
      → Returns
          (sample env files n p
            (store_frames env (is_blocklisted p) 0 t.offered)
            t.thread_name
            t.thread_id
            t.timestamp)
          (Handled p t)
  unfolding sample Frames.new is_blocklisted
  sample-Handled p t v short kept =
      let (r, run, added) =
        Counts.add-Added ⦃key = frames_key env⦄ files n laws healthy positive p.collected
          (stack_of env p.blocklist_segments t) 1 v in
      (
        record p { collected = r.0; sample_counter = (p.sample_counter + 1) % 2 ^ 32 },
        rw (le→leb (length t.thread_name) max_thread_name short, run),
        record {
          sound = added.sound;
          same = record {
            names = refl;
            segments = refl;
            clock = refl;
            replaced = refl;
            active = refl;
          };
          balance = λ test resp. rw kept (added.balance test resp);
        },
      )

  abbrev in_blocklist : Profiler File Frame → Tick Frame → Bool
  in_blocklist p t = elim t.ucontext [ none ↦ false | some addr ↦ is_blocklisted p addr ]

  handle_locked-Handled :
      (p : Profiler File Frame) (t : Tick Frame)
      → IsSound p
      → length t.thread_name ≤ max_thread_name
      → Returns (handle_locked env files n p t) (Handled p t)
  unfolding handle_locked is_blocklisted is_thread_blocklisted
  handle_locked-Handled p t v short =
      elim (Bool-cases (is_filtered env p.blocklist_segments p.thread_blocklist t)) [
        | inl filtered ↦ (
          p,
          if_or_true (in_blocklist p t) (is_thread_blocklisted p t.thread_name) (done p) _ filtered,
          record {
            sound = v;
            same = same_settings p;
            balance = λ test resp. rw filtered (ground arith);
          },
        )
        | inr kept ↦
            let (p', run, handled) = sample-Handled p t v short kept in
            (
              p',
              if_or_false (in_blocklist p t) (is_thread_blocklisted p t.thread_name) (done p) _ kept
                  ∙ run,
              handled,
            )
      ]

  recorded_same :
      (test : UnresolvedFrames Frame → Bool) (p p' : Profiler File Frame) (ts : List (Tick Frame))
      → SameSettings p p'
      → recorded env test p'.blocklist_segments p'.thread_blocklist ts
        ≡ recorded env test p.blocklist_segments p.thread_blocklist ts
  recorded_same test p p' ts s =
      ap₂ (λ segments names. recorded env test segments names ts) s.segments s.names

  -- What a session of signals did to the globals.
  pub record Session (g : Globals File Frame) (p : Profiler File Frame) (ts : List (Tick Frame))
      (g' : Globals File Frame) : Type 0 where
    pub after : Profiler File Frame
    pub is_after : g'.profiler ≡ ok after
    pub sound : IsSound after
    pub same : SameSettings p after
    pub balance :
        (test : UnresolvedFrames Frame → Bool)
        → RespectsStacks test
        → Adds
            (weight test after)
            (weight test p)
            (recorded env test p.blocklist_segments p.thread_blocklist ts)
    pub missed :
        g.missed_samples < word → g'.missed_samples ≡ (g.missed_samples + contended ts) % word

  Session-start :
      (g : Globals File Frame) (p : Profiler File Frame)
      → g.profiler ≡ ok p
      → IsSound p
      → Session g p [] g
  unfolding recorded contended
  Session-start g p e v = record {
    after = p;
    is_after = e;
    sound = v;
    same = same_settings p;
    balance = λ test r. ground arith;
    missed = λ h. omega arith;
  }

  -- One signal and then a session are a session.
  Session-step :
      (g g' g'' : Globals File Frame) (p p' : Profiler File Frame) (t : Tick Frame)
      (ts : List (Tick Frame))
      → SameSettings p p'
      → ((test : UnresolvedFrames Frame → Bool)
          → RespectsStacks test
          → Adds
              (weight test p')
              (weight test p)
              (recorded env test p.blocklist_segments p.thread_blocklist (t ∷ [])))
      → (g.missed_samples < word
          → g'.missed_samples ≡ (g.missed_samples + contended (t ∷ [])) % word)
      → Session g' p' ts g''
      → Session g p (t ∷ ts) g''
  unfolding recorded contended
  Session-step g g' g'' p p' t ts same adds missed s = record {
    after = s.after;
    is_after = s.is_after;
    sound = s.sound;
    same = same_again p p' s.after same s.same;
    balance =
        λ test r. ground (arith, adds test r, s.balance test r, recorded_same test p p' ts same);
    missed = λ h. omega (arith, missed h, s.missed (omega (arith, missed h)));
  }

  handle_free :
      (g g'' : Globals File Frame) (p p' : Profiler File Frame) (t : Tick Frame)
      (ts : List (Tick Frame))
      → t.lock_is_free ≡ true
      → g.profiler ≡ ok p
      → handle_locked env files n p t ≡ done p'
      → handle_all env files n (record g { profiler = ok p' }) ts ≡ done g''
      → handle_all env files n g (t ∷ ts) ≡ done g''
  unfolding handle_all perf_signal_handler
  handle_free g g'' p p' t ts free e run rest = rw (free, e, run) rest

  pub handle_all-Session :
      (g : Globals File Frame) (p : Profiler File Frame) (ts : List (Tick Frame))
      → g.profiler ≡ ok p
      → IsSound p
      → All (λ t. length t.thread_name ≤ max_thread_name) ts
      → Returns (handle_all env files n g ts) (Session g p ts)
  unfolding handle_all perf_signal_handler recorded contended
  handle_all-Session g p [] e v short = (g, refl, Session-start g p e v)
  handle_all-Session g p (t ∷ ts) e v short = elim (Bool-cases t.lock_is_free) [
    | inr taken ↦
        let g' : Globals File Frame = record g { missed_samples = add64 g.missed_samples 1 } in
        let (g'', run, s) = handle_all-Session g' p ts e v short.1 in
        (
          g'',
          rw taken run,
          Session-step g g' g'' p p t ts (same_settings p) (λ test r. rw taken (ground arith))
              (λ h. rw taken (omega arith)) s,
        )
    | inl free ↦
        let (p', run', h) = handle_locked-Handled p t v short.0 in
        let g' : Globals File Frame = record g { profiler = ok p' } in
        let (g'', run, s) = handle_all-Session g' p' ts refl h.sound short.1 in
        (
          g'',
          handle_free g g'' p p' t ts free e run' run,
          Session-step g g' g'' p p' t ts h.same
              (λ test r. rw free (ground (arith, h.balance test r))) (λ h. rw free (omega arith)) s,
        )
  ]

  -- Signals that find a sound profiler, with thread names of at most `max_thread_name` bytes and
  -- a file that does not fail, do not panic and leave a sound profiler. For every set of stacks
  -- that respects their equality, the collector counts one more for each signal that got the
  -- lock, was not blocklisted and had such a stack, modulo the word; the missed samples grow by
  -- the number of signals that found the lock taken, modulo the word.
  pub handle_all-Adds :
      (g : Globals File Frame) (p : Profiler File Frame) (ts : List (Tick Frame))
      (test : UnresolvedFrames Frame → Bool)
      → RespectsStacks test
      → g.profiler ≡ ok p
      → g.missed_samples < word
      → IsSound p
      → All (λ t. length t.thread_name ≤ max_thread_name) ts
      → Returns (handle_all env files n g ts) λ g'.
        (after : Profiler File Frame) × (g'.profiler ≡ ok after)
        × IsSound after
        × Adds
            (weight test after)
            (weight test p)
            (recorded env test p.blocklist_segments p.thread_blocklist ts)
        × (g'.missed_samples ≡ (g.missed_samples + contended ts) % word)
  handle_all-Adds g p ts test resp e small v short =
      let (g', run, s) = handle_all-Session g p ts e v short in
      (g', run, (s.after, s.is_after, s.sound, s.balance test resp, s.missed small))
