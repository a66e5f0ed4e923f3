-- ===== src/Framehop/Unwinding.antt =====
-- src/backtrace/framehop_unwinder.rs, lines 99-126 and 167-180: a trace ends, reads only what can be
-- read, and gives the callback what the iterator yields.
use pprof_rs.Prelude.{
  ℕ, zero, suc, ◌<◌, ◌≤◌, ◌≡◌, ◌⊎◌, refl, ap, ◌∙◌, Bool, true, false, Option, none, some, done,
  ◌>>=◌, Returns, Bool-cases, Option-cases, inl, inr, arith,
}
use pprof_rs.AddrValidate.{Pipes, PipeOs, PipeLaws}
use pprof_rs.AddrValidate.Validates.{validate-Returns}
use pprof_rs.Framehop.{
  Turn, ask, yields, ended, failed, Unwinder, Registers, align, read_word, read_if_valid,
  read_stack, run_turn, unwind, get_regs_from_context, iter_frames, trace,
}

abbrev is_word : Option ℕ → Bool
is_word none = false
is_word (some word) = true

-- An address can be read if there is a word.
abbrev pub readable : (ℕ → Option ℕ) → ℕ → Bool
readable memory addr = is_word (memory addr)

module _ {I : Type 0} (memory : ℕ → Option ℕ) where
  -- What a turn comes to, if each word that it asks for is the aligned one in memory, or refused.
  pub data Comes : Turn I → Option (ℕ × I) → Type 0 where
    answered :
        {addr : ℕ} {k : Option ℕ → Turn I} {o : Option (ℕ × I)} (word : Option ℕ)
        → (word ≡ none) ⊎ (memory (align addr) ≡ word)
        → Comes (k word) o
        → Comes (ask addr k) o
    a_frame : {ip : ℕ} {iter : I} → Comes (yields ip iter) (some (ip, iter))
    at_end : Comes ended none
    at_error : Comes failed none

  module _ {C : Type 0} (unwinder : Unwinder I) (cb : C → ℕ → C × Bool) where
    -- The callback was given the frames of the turns of the iterator, in order, up to the end or
    -- the first one that it refused.
    pub data Unwinds : I → C → C → Type 0 where
      stops : {iter : I} {c : C} → Comes (unwinder.next iter) none → Unwinds iter c c
      refused :
          {iter : I} {c c' : C} (ip : ℕ) (iter' : I)
          → Comes (unwinder.next iter) (some (ip, iter'))
          → cb c ip ≡ (c', false)
          → Unwinds iter c c'
      taken :
          {iter : I} {c c' end : C} (ip : ℕ) (iter' : I)
          → Comes (unwinder.next iter) (some (ip, iter'))
          → cb c ip ≡ (c', true)
          → Unwinds iter' c' end
          → Unwinds iter c end

module _ {S : Type 0} (os : PipeOs S) (memory : ℕ → Option ℕ)
    (laws : PipeLaws os (readable memory)) where
  -- A word is read, or refused.
  abbrev IsRead : ℕ → S → (Pipes × S) × Option ℕ → Type 0
  IsRead addr s r =
      (laws.signals r.0.1 ≤ laws.signals s) × ((r.1 ≡ none) ⊎ (memory (align addr) ≡ r.1))

  read_valid :
      (ps : Pipes × S) (o : Option ℕ) → is_word o ≡ true → read_word os memory ps o ≡ done (ps, o)
  read_valid ps none h = absurd (cc h)
  read_valid ps (some word) h = refl

  read_stack-IsRead :
      (tries : ℕ) (p : Pipes) (s : S) (addr : ℕ)
      → laws.signals s < tries
      → Returns (read_stack os memory tries (p, s) addr) (IsRead addr s)
  unfolding read_stack
  read_stack-IsRead tries p s addr enough =
      let (r, run, (le, reads)) =
        validate-Returns os (readable memory) laws tries p s (align addr) enough in
      elim (Bool-cases r.1) [
        | inr invalid ↦ (
          (r.0, none),
          ap (λ o. o >>= read_if_valid os memory (align addr))
              (run ∙ ap (λ b. done (r.0, b)) invalid),
          (le, inl refl),
        )
        | inl valid ↦ (
          (r.0, memory (align addr)),
          ap (λ o. o >>= read_if_valid os memory (align addr)) (run ∙ ap (λ b. done (r.0, b)) valid)
              ∙ read_valid r.0 (memory (align addr)) (reads valid),
          (le, inr refl),
        )
      ]

  module _ {I C : Type 0} (unwinder : Unwinder I) (cb : C → ℕ → C × Bool) where
    abbrev IsRun : Turn I → S → (Pipes × S) × Option (ℕ × I) → Type 0
    IsRun turn s r = (laws.signals r.0.1 ≤ laws.signals s) × Comes memory turn r.1

    run_turn-IsRun :
        (tries : ℕ) (p : Pipes) (s : S) (turn : Turn I)
        → laws.signals s < tries
        → Returns (run_turn os memory unwinder cb tries (p, s) turn) (IsRun turn s)
    unfolding run_turn
    run_turn-IsRun tries p s (ask addr k) enough =
        let (r, run, (le, answer)) = read_stack-IsRead tries p s addr enough in
        let (e, ran, (le', comes)) = run_turn-IsRun tries r.0.0 r.0.1 (k r.1) (omega arith) in
        (
          e,
          ap (λ o. o >>= λ (ps', word). run_turn os memory unwinder cb tries ps' (k word)) run
              ∙ ran,
          (omega arith, answered r.1 answer comes),
        )
    run_turn-IsRun tries p s (yields ip iter) enough =
        (((p, s), some (ip, iter)), refl, (omega arith, a_frame))
    run_turn-IsRun tries p s ended enough = (((p, s), none), refl, (omega arith, at_end))
    run_turn-IsRun tries p s failed enough = (((p, s), none), refl, (omega arith, at_error))

    unwind_stops :
        (fuel tries : ℕ) (ps ps' : Pipes × S) (iter : I) (c : C)
        → run_turn os memory unwinder cb tries ps (unwinder.next iter) ≡ done (ps', none)
        → unwind os memory unwinder cb (suc fuel) tries ps iter c ≡ done (ps', c)
    unfolding unwind
    unwind_stops fuel tries ps ps' iter c run = rw (run, unwind) refl

    unwind_refused :
        (fuel tries : ℕ) (ps ps' : Pipes × S) (iter iter' : I) (ip : ℕ) (c : C)
        → run_turn os memory unwinder cb tries ps (unwinder.next iter)
          ≡ done (ps', some (ip, iter'))
        → (cb c ip).1 ≡ false
        → unwind os memory unwinder cb (suc fuel) tries ps iter c ≡ done (ps', (cb c ip).0)
    unfolding unwind
    unwind_refused fuel tries ps ps' iter iter' ip c run no_more = rw (run, no_more, unwind) refl

    unwind_next :
        (fuel tries : ℕ) (ps ps' : Pipes × S) (iter iter' : I) (ip : ℕ) (c : C)
        → run_turn os memory unwinder cb tries ps (unwinder.next iter)
          ≡ done (ps', some (ip, iter'))
        → (cb c ip).1 ≡ true
        → unwind os memory unwinder cb (suc fuel) tries ps iter c
          ≡ unwind os memory unwinder cb fuel tries ps' iter' (cb c ip).0
    unfolding unwind
    unwind_next fuel tries ps ps' iter iter' ip c run again = rw (run, again, unwind) refl

    module _ (room : C → ℕ)
        (uses : (c c' : C) (ip : ℕ) → cb c ip ≡ (c', true) → room c' < room c) where
      unwind-Unwinds :
          (fuel tries : ℕ) (p : Pipes) (s : S) (iter : I) (c : C)
          → laws.signals s < tries
          → room c < fuel
          → Returns
              (unwind os memory unwinder cb fuel tries (p, s) iter c)
              (λ r. Unwinds memory unwinder cb iter c r.1)
      unwind-Unwinds zero tries p s iter c enough more = absurd (omega arith)
      unwind-Unwinds (suc fuel) tries p s iter c enough more =
          let (r, run, (le, comes)) = run_turn-IsRun tries p s (unwinder.next iter) enough in
          elim (Option-cases r.1) [
            | inl e ↦
                let over : Comes memory (unwinder.next iter) none = rw (← e) comes in
                (
                  (r.0, c),
                  unwind_stops fuel tries (p, s) r.0 iter c (run ∙ ap (λ b. done (r.0, b)) e),
                  stops over,
                )
            | inr ((ip, iter'), e) ↦
                let ran = run ∙ ap (λ b. done (r.0, b)) e in
                let frame : Comes memory (unwinder.next iter) (some (ip, iter')) = rw (← e) comes in
                elim (Bool-cases (cb c ip).1) [
                  | inr no_more ↦ (
                    (r.0, (cb c ip).0),
                    unwind_refused fuel tries (p, s) r.0 iter iter' ip c ran no_more,
                    refused ip iter' frame (ap (λ b. ((cb c ip).0, b)) no_more),
                  )
                  | inl again ↦
                      let c' = (cb c ip).0 in
                      let took : cb c ip ≡ (c', true) = ap (λ b. (c', b)) again in
                      let fewer = uses c c' ip took in
                      let (e', onwards, others) =
                        unwind-Unwinds fuel tries r.0.0 r.0.1 iter' c' (omega arith)
                          (omega arith) in
                      (
                        e',
                        unwind_next fuel tries (p, s) r.0 iter iter' ip c ran again ∙ onwards,
                        taken ip iter' frame took others,
                      )
                ]
          ]

      -- Where every frame that the callback accepts uses up some of its room, and signals that
      -- interrupt system calls do not come without end, a trace that gets the lock, in a context
      -- that is not null, ends without a read that faults, given more fuel than there is room and
      -- more tries than there are signals. The callback was given the frames of the iterator from
      -- the program counter on, in order, up to the end, an error, or the first that it refused;
      -- each word that the iterator asked for was the aligned one in memory, or refused.
      pub trace-Unwinds :
          (fuel tries : ℕ) (p : Pipes) (s : S) (regs : Registers) (c : C)
          → laws.signals s < tries
          → room c < fuel
          → Returns
              (trace os memory unwinder cb true fuel tries (p, s) (some regs) c)
              (λ r. Unwinds memory unwinder cb (unwinder.iter_frames regs.rip regs) c r.1)
      unfolding trace iter_frames get_regs_from_context
      trace-Unwinds fuel tries p s regs c enough more =
          unwind-Unwinds fuel tries p s (unwinder.iter_frames regs.rip regs) c enough more
