-- ===== src/AddrValidate.antt =====
-- src/addr_validate.rs, on Linux: whether an address can be read. The calls of `libc` are a parameter;
-- a file descriptor is an integer, since the pipe's are -1 at first.
pub mod Validates
use pprof_rs.Prelude.{
  ℕ, zero, suc, Bool, true, false, ◌<◌, ◌≤◌, ◌≡◌, Outcome, done, out_of_fuel, ◌>>=◌, Result, ok,
  err, ltb, ◌==◌, if◌then◌else◌,
}
use pprof_rs.Prelude.Int.{ℤ, pos, negsuc}
use pprof_rs.Error.{Errno, IoResult}

abbrev pub eintr : Errno
eintr = 4

abbrev pub eagain : Errno
eagain = 11

abbrev pub check_length : ℕ
check_length = 16

-- `Pipes`
pub record Pipes : Type 0 where
  pub read_fd : ℤ
  pub write_fd : ℤ

-- The value of `MEM_VALIDATE_PIPE` at the program's start
abbrev pub no_pipe : Pipes
no_pipe = record { read_fd = negsuc 0; write_fd = negsuc 0 }

-- `read` and `write` are given `check_length` bytes; a result below zero is `errno`.
pub record PipeOs (S : Type 0) : Type 0 where
  pub close : S → ℤ → S
  pub pipe2 : S → S × IoResult (ℤ × ℤ)
  pub read : S → ℤ → S × IoResult ℕ
  pub write : S → ℤ → ℕ → S × IoResult ℕ

-- What is relied on: a write of bytes that cannot be read fails with EFAULT. A call is interrupted
-- only by a signal, of which `signals` are still to come; no call makes more come.
pub record PipeLaws {S : Type 0} (os : PipeOs S) (readable : ℕ → Bool) : Type 0 where
  pub signals : S → ℕ
  pub write-readable :
      (s s' : S) (fd : ℤ) (addr n : ℕ)
      → os.write s fd addr ≡ (s', ok (suc n))
      → readable addr ≡ true
  pub close-signals : (s : S) (fd : ℤ) → signals (os.close s fd) ≤ signals s
  pub pipe2-signals : (s : S) → signals (os.pipe2 s).0 ≤ signals s
  pub read-signals : (s : S) (fd : ℤ) → signals (os.read s fd).0 ≤ signals s
  pub write-signals : (s : S) (fd : ℤ) (addr : ℕ) → signals (os.write s fd addr).0 ≤ signals s
  pub read_interrupted :
      (s s' : S) (fd : ℤ) → os.read s fd ≡ (s', err eintr) → signals s' < signals s
  pub write_interrupted :
      (s s' : S) (fd : ℤ) (addr : ℕ) → os.write s fd addr ≡ (s', err eintr) → signals s' < signals s

abbrev pub is_fd : ℤ → Bool
is_fd (pos n) = true
is_fd (negsuc n) = false

module _ {S : Type 0} (os : PipeOs S) where
  -- `open_pipe`, with `create_pipe`. The old descriptors are closed, whatever they are.
  unfoldable pub open_pipe : Pipes × S → (Pipes × S) × IoResult (Unit {0})
  open_pipe (p, s) =
      let (s', created) = os.pipe2 (os.close (os.close s p.read_fd) p.write_fd) in
      elim created [
        | err e ↦ ((p, s'), err e)
        | ok (read_fd, write_fd) ↦ ((record { read_fd = read_fd; write_fd = write_fd }, s'), ok tt)
      ]

  -- What the loops do with the result of a call: again, or an answer.
  unfoldable pub read_answer : IoResult ℕ → Result (Unit {0}) Bool
  read_answer (ok n) = ok (ltb 0 n)
  read_answer (err e) = if e == eintr then err tt else if e == eagain then ok true else ok false

  unfoldable pub write_answer : IoResult ℕ → Result (Unit {0}) Bool
  write_answer (ok n) = ok (ltb 0 n)
  write_answer (err e) = if e == eintr then err tt else ok false

  -- The loop that empties the pipe
  unfoldable pub read_loop : ℕ → ℤ → S → Outcome (S × Bool)
  unfolding read_answer
  read_loop zero fd s = out_of_fuel
  read_loop (suc fuel) fd s =
      let r = os.read s fd in
      elim (read_answer r.1) [ err _ ↦ read_loop fuel fd r.0 | ok answer ↦ done (r.0, answer) ]

  -- The loop that writes from the address
  unfoldable pub write_loop : ℕ → ℤ → ℕ → S → Outcome (S × Bool)
  unfolding write_answer
  write_loop zero fd addr s = out_of_fuel
  write_loop (suc fuel) fd addr s =
      let r = os.write s fd addr in
      elim (write_answer r.1) [
        | err _ ↦ write_loop fuel fd addr r.0
        | ok answer ↦ done (r.0, answer)
      ]

  -- `valid_read`
  unfoldable pub check_read : ℕ → Pipes × S → Outcome (S × Bool)
  unfolding read_loop
  check_read fuel (p, s) = elim (is_fd p.read_fd) [
    | false ↦ done (s, false)
    | true ↦ read_loop fuel p.read_fd s
  ]

  unfoldable pub finish : ℕ → ℕ → Pipes × S → Outcome ((Pipes × S) × Bool)
  unfolding write_loop
  finish fuel addr (p, s) = write_loop fuel p.write_fd addr s >>= λ r. done ((p, r.0), r.1)

  unfoldable pub after_open :
      ℕ → ℕ → (Pipes × S) × IoResult (Unit {0}) → Outcome ((Pipes × S) × Bool)
  unfolding finish
  after_open fuel addr (ps, err e) = done (ps, false)
  after_open fuel addr (ps, ok _) = finish fuel addr ps

  -- The pipe is opened again if it could not be read from.
  unfoldable pub after_read : ℕ → ℕ → Pipes → S × Bool → Outcome ((Pipes × S) × Bool)
  unfolding open_pipe after_open
  after_read fuel addr p (s, true) = finish fuel addr (p, s)
  after_read fuel addr p (s, false) = after_open fuel addr (open_pipe (p, s))

  -- `validate`
  unfoldable pub validate : ℕ → Pipes × S → ℕ → Outcome ((Pipes × S) × Bool)
  unfolding check_read after_read
  validate fuel (p, s) addr = elim (addr == 0) [
    | true ↦ done ((p, s), false)
    | false ↦ check_read fuel (p, s) >>= after_read fuel addr p
  ]
