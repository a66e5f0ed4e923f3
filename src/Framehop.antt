-- ===== src/Framehop.antt =====
-- src/backtrace/framehop_unwinder.rs on x86_64 Linux. The framehop crate's iterator is a parameter:
-- what it does in one turn, down to the words of the stack that it asks for. Memory is a parameter as
-- well: the word at an address, or nothing, where the read would fault.
pub mod Unwinding
use pprof_rs.Prelude.{
  ℕ, zero, suc, ◌-◌, ◌%◌, Bool, true, false, Option, none, some, Outcome, done, panic, out_of_fuel,
  ◌>>=◌,
}
use pprof_rs.AddrValidate.{Pipes, PipeOs, validate}

-- One turn of the iterator: it may ask for words, and ends with a frame's address and the iterator
-- after it, with the end of the stack, or with an error.
pub data Turn (I : Type 0) : Type 0 where
  ask : ℕ → (Option ℕ → Turn I) → Turn I
  yields : ℕ → I → Turn I
  ended failed : Turn I

-- The registers that are read from a context, `REG_RIP`, `REG_RSP` and `REG_RBP`
pub record Registers : Type 0 where
  pub rip : ℕ
  pub rsp : ℕ
  pub rbp : ℕ

-- `UnwindRegsNative` and the program counter; a null context has none.
unfoldable pub get_regs_from_context : Option Registers → Option (Registers × ℕ)
get_regs_from_context none = none
get_regs_from_context (some regs) = some (regs, regs.rip)

-- `addr & !0b111`
unfoldable pub align : ℕ → ℕ
align addr = addr - addr % 8

-- `FramehopUnwinder`: a new iterator, and its turns
pub record Unwinder (I : Type 0) : Type 0 where
  pub iter_frames : ℕ → Registers → I
  pub next : I → Turn I

module _ {S : Type 0} (os : PipeOs S) (memory : ℕ → Option ℕ) where
  -- The read of a word that was found valid
  abbrev pub read_word : Pipes × S → Option ℕ → Outcome ((Pipes × S) × Option ℕ)
  read_word ps none = panic
  read_word ps (some word) = done (ps, some word)

  abbrev pub read_if_valid : ℕ → (Pipes × S) × Bool → Outcome ((Pipes × S) × Option ℕ)
  read_if_valid addr (ps, false) = done (ps, none)
  read_if_valid addr (ps, true) = read_word ps (memory addr)

  -- `read_stack`; `tries` bounds the loops of `validate`.
  unfoldable pub read_stack : ℕ → Pipes × S → ℕ → Outcome ((Pipes × S) × Option ℕ)
  unfolding validate align
  read_stack tries ps addr = validate os tries ps (align addr) >>= read_if_valid (align addr)

  module _ {I C : Type 0} (unwinder : Unwinder I) (cb : C → ℕ → C × Bool) where
    -- `iter.next()`; an error ends the loop as the end of the stack does.
    unfoldable pub run_turn : ℕ → Pipes × S → Turn I → Outcome ((Pipes × S) × Option (ℕ × I))
    unfolding read_stack
    run_turn tries ps (ask addr k) =
        read_stack tries ps addr >>= λ (ps', word). run_turn tries ps' (k word)
    run_turn tries ps (yields ip iter) = done (ps, some (ip, iter))
    run_turn tries ps ended = done (ps, none)
    run_turn tries ps failed = done (ps, none)

    -- The loop of `iter_frames`; `fuel` bounds its turns.
    unfoldable pub unwind : ℕ → ℕ → Pipes × S → I → C → Outcome ((Pipes × S) × C)
    unfolding run_turn
    unwind zero tries ps iter c = out_of_fuel
    unwind (suc fuel) tries ps iter c = run_turn tries ps (unwinder.next iter) >>= λ r. elim r.1 [
      | none ↦ done (r.0, c)
      | some frame ↦ elim (cb c frame.0).1 [
        | false ↦ done (r.0, (cb c frame.0).0)
        | true ↦ unwind fuel tries r.0 frame.1 (cb c frame.0).0
      ]
    ]

    -- `FramehopUnwinder::iter_frames`
    unfoldable pub iter_frames :
        ℕ → ℕ → Pipes × S → Option Registers → C → Outcome ((Pipes × S) × C)
    unfolding unwind get_regs_from_context
    iter_frames fuel tries ps ctx c = elim (get_regs_from_context ctx) [
      | none ↦ done (ps, c)
      | some regs ↦ unwind fuel tries ps (unwinder.iter_frames regs.1 regs.0) c
    ]

    -- `Trace::trace`; a lock that is taken leaves the stack out.
    unfoldable pub trace :
        Bool → ℕ → ℕ → Pipes × S → Option Registers → C → Outcome ((Pipes × S) × C)
    unfolding iter_frames
    trace false fuel tries ps ctx c = done (ps, c)
    trace true fuel tries ps ctx c = iter_frames fuel tries ps ctx c
