-- ===== src/FramePointer.antt =====
-- src/backtrace/frame_pointer.rs, lines 55-138: the walk along frame pointers. Memory is a parameter:
-- the saved frame pointer and the return address that are read at an address, or nothing, where the
-- read would fault.
pub mod Walk
use pprof_rs.Prelude.{
  ℕ, zero, suc, Bool, true, false, not, ◌&&◌, Option, none, some, Outcome, done, panic, out_of_fuel,
  ◌>>=◌, ltb, ◌==◌,
}
use pprof_rs.AddrValidate.{Pipes, PipeOs, validate}

-- `FramePointerLayout`
pub record FramePointerLayout : Type 0 where
  pub frame_pointer : ℕ
  pub ret : ℕ

module _ {S C : Type 0} (os : PipeOs S) (memory : ℕ → Option FramePointerLayout)
    (cb : C → ℕ → C × Bool) where
  -- The loop; `fuel` bounds its turns, and `tries` the loops of `validate`.
  unfoldable pub walk : ℕ → ℕ → Pipes × S → ℕ → ℕ → C → Outcome ((Pipes × S) × C)
  unfolding validate
  walk zero tries ps frame_pointer last c = out_of_fuel
  walk (suc fuel) tries ps frame_pointer last c = elim (not (last == 0) && ltb frame_pointer last) [
    | true ↦ done (ps, c)
    | false ↦ validate os tries ps frame_pointer >>= λ r. elim r.1 [
      | false ↦ done (r.0, c)
      | true ↦ elim (memory frame_pointer) [
        | none ↦ panic
        | some frame ↦ elim (cb c frame.ret).1 [
          | false ↦ done (r.0, (cb c frame.ret).0)
          | true ↦ walk fuel tries r.0 frame.frame_pointer frame_pointer (cb c frame.ret).0
        ]
      ]
    ]
  ]

  -- `trace`, given the frame pointer of the context, if that is not null.
  unfoldable pub trace : ℕ → ℕ → Pipes × S → Option ℕ → C → Outcome ((Pipes × S) × C)
  unfolding walk
  trace fuel tries ps none c = done (ps, c)
  trace fuel tries ps (some frame_pointer) c = walk fuel tries ps frame_pointer 0 c
