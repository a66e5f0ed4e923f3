-- ===== src/FramePointer/Walk.antt =====
-- src/backtrace/frame_pointer.rs, lines 99-130: the walk ends, and reads only what can be read.
use pprof_rs.Prelude.{
  ℕ, zero, suc, ◌<◌, ◌≤◌, ◌≡◌, ◌≢◌, refl, ap, ◌∙◌, Bool, true, false, not, ◌&&◌, Option, none, some,
  done, Returns, ltb, ◌==◌, Bool-cases, inl, inr, arith,
}
use pprof_rs.AddrValidate.{Pipes, PipeOs, PipeLaws, validate}
use pprof_rs.AddrValidate.Validates.{validate-Returns}
use pprof_rs.FramePointer.{FramePointerLayout, walk}

abbrev is_mapped : Option FramePointerLayout → Bool
is_mapped none = false
is_mapped (some frame) = true

-- An address can be read if there is something to be read there.
abbrev pub readable : (ℕ → Option FramePointerLayout) → ℕ → Bool
readable memory addr = is_mapped (memory addr)

module _ {S C : Type 0} (os : PipeOs S) (tries : ℕ) (memory : ℕ → Option FramePointerLayout)
    (cb : C → ℕ → C × Bool) where
  -- The callback has been given the return addresses of a chain of frames, none of which is below
  -- the frame before. The chain ends at a frame that is below the one before, at an address that
  -- is not valid, or at a frame that the callback refused, and nowhere else.
  pub data Chain : Pipes × S → ℕ → ℕ → C → (Pipes × S) × C → Type 0 where
    below :
        {ps : Pipes × S} {fp last : ℕ} {c : C} → last ≢ 0 → fp < last → Chain ps fp last c (ps, c)
    invalid :
        {ps ps' : Pipes × S} {fp last : ℕ} {c : C}
        → last ≤ fp
        → validate os tries ps fp ≡ done (ps', false)
        → Chain ps fp last c (ps', c)
    refused :
        {ps ps' : Pipes × S} {fp last : ℕ} {c c' : C} (frame : FramePointerLayout)
        → last ≤ fp
        → validate os tries ps fp ≡ done (ps', true)
        → memory fp ≡ some frame
        → cb c frame.ret ≡ (c', false)
        → Chain ps fp last c (ps', c')
    taken :
        {ps ps' : Pipes × S} {fp last : ℕ} {c c' : C} {end : (Pipes × S) × C}
        (frame : FramePointerLayout)
        → last ≤ fp
        → validate os tries ps fp ≡ done (ps', true)
        → memory fp ≡ some frame
        → cb c frame.ret ≡ (c', true)
        → Chain ps' frame.frame_pointer fp c' end
        → Chain ps fp last c end

module _ {S C : Type 0} (os : PipeOs S) (memory : ℕ → Option FramePointerLayout)
    (cb : C → ℕ → C × Bool) (laws : PipeLaws os (readable memory)) (room : C → ℕ) where
  in_order : (fp last : ℕ) → (not (last == 0) && ltb fp last) ≡ false → last ≤ fp
  in_order fp last h = ground arith

  out_of_order : (fp last : ℕ) → (not (last == 0) && ltb fp last) ≡ true → (last ≢ 0) × (fp < last)
  out_of_order fp last h = ((λ z. ground arith), ground arith)

  mapped_some :
      (o : Option FramePointerLayout) → is_mapped o ≡ true → (f : FramePointerLayout) × (o ≡ some f)
  mapped_some none h = absurd (cc h)
  mapped_some (some f) h = (f, refl)

  walk_next :
      (fuel tries : ℕ) (ps ps' : Pipes × S) (fp last : ℕ) (c : C) (frame : FramePointerLayout)
      → (not (last == 0) && ltb fp last) ≡ false
      → validate os tries ps fp ≡ done (ps', true)
      → memory fp ≡ some frame
      → (cb c frame.ret).1 ≡ true
      → walk os memory cb (suc fuel) tries ps fp last c
        ≡ walk os memory cb fuel tries ps' frame.frame_pointer fp (cb c frame.ret).0
  unfolding walk
  walk_next fuel tries ps ps' fp last c frame up valid there again =
      rw (up, valid, there, again, walk) refl

  walk_refused :
      (fuel tries : ℕ) (ps ps' : Pipes × S) (fp last : ℕ) (c : C) (frame : FramePointerLayout)
      → (not (last == 0) && ltb fp last) ≡ false
      → validate os tries ps fp ≡ done (ps', true)
      → memory fp ≡ some frame
      → (cb c frame.ret).1 ≡ false
      → walk os memory cb (suc fuel) tries ps fp last c ≡ done (ps', (cb c frame.ret).0)
  unfolding walk
  walk_refused fuel tries ps ps' fp last c frame up valid there no_more =
      rw (up, valid, there, no_more, walk) refl

  walk_invalid :
      (fuel tries : ℕ) (ps ps' : Pipes × S) (fp last : ℕ) (c : C)
      → (not (last == 0) && ltb fp last) ≡ false
      → validate os tries ps fp ≡ done (ps', false)
      → walk os memory cb (suc fuel) tries ps fp last c ≡ done (ps', c)
  unfolding walk
  walk_invalid fuel tries ps ps' fp last c up bad = rw (up, bad, walk) refl

  -- Where every frame that the callback accepts uses up some of its room, and signals that
  -- interrupt system calls do not come without end, the walk ends without a read that faults,
  -- given more fuel than there is room and more tries than there are signals. The callback has
  -- then been given the return addresses of a chain of frames in memory, each at a valid address
  -- and not below the one before; the chain ends at the first frame that is below the one before,
  -- that is not valid, or that the callback refused.
  pub walk-Chain :
      (fuel tries : ℕ) (p : Pipes) (s : S) (fp last : ℕ) (c : C)
      → ((c c' : C) (ip : ℕ) → cb c ip ≡ (c', true) → room c' < room c)
      → laws.signals s < tries
      → room c < fuel
      → Returns
          (walk os memory cb fuel tries (p, s) fp last c)
          (Chain os tries memory cb (p, s) fp last c)
  unfolding walk
  walk-Chain zero tries p s fp last c uses enough more = absurd (omega arith)
  walk-Chain (suc fuel) tries p s fp last c uses enough more =
      elim (Bool-cases (not (last == 0) && ltb fp last)) [
        | inl down ↦
            let order = out_of_order fp last down in
            (((p, s), c), rw (down, walk) refl, below order.0 order.1)
        | inr up ↦
            let (r, run, (le, reads)) =
              validate-Returns os (readable memory) laws tries p s fp enough in
            elim (Bool-cases r.1) [
              | inr bad ↦
                  let answer : validate os tries (p, s) fp ≡ done (r.0, false) =
                    run ∙ ap (λ b. done (r.0, b)) bad in
                  (
                    (r.0, c),
                    walk_invalid fuel tries (p, s) r.0 fp last c up answer,
                    invalid (in_order fp last up) answer,
                  )
              | inl valid ↦
                  let answer : validate os tries (p, s) fp ≡ done (r.0, true) =
                    run ∙ ap (λ b. done (r.0, b)) valid in
                  let (frame, there) = mapped_some (memory fp) (reads valid) in
                  elim (Bool-cases (cb c frame.ret).1) [
                    | inr no_more ↦ (
                      (r.0, (cb c frame.ret).0),
                      walk_refused fuel tries (p, s) r.0 fp last c frame up answer there no_more,
                      refused frame (in_order fp last up) answer there
                          (ap (λ b. ((cb c frame.ret).0, b)) no_more),
                    )
                    | inl again ↦
                        let c' = (cb c frame.ret).0 in
                        let took : cb c frame.ret ≡ (c', true) = ap (λ b. (c', b)) again in
                        let fewer = uses c c' frame.ret took in
                        let (e, ran, chain) =
                          walk-Chain fuel tries r.0.0 r.0.1 frame.frame_pointer fp c' uses
                            (omega (arith, le)) (omega (arith, fewer)) in
                        (
                          e,
                          walk_next fuel tries (p, s) r.0 fp last c frame up answer there again
                              ∙ ran,
                          taken frame (in_order fp last up) answer there took chain,
                        )
                  ]
            ]
      ]
