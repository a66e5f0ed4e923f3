-- ===== src/AddrValidate/Validates.antt =====
-- src/addr_validate.rs: `validate` ends, and what it says can be read can be read.
use pprof_rs.Prelude.{
  ℕ, zero, suc, Bool, true, false, ◌<◌, ◌≤◌, ◌≡◌, refl, ap, ◌∙◌, Returns, Result, ok, err, ◌==◌,
  ==_iff, Bool-cases, inl, inr, ◌⊎◌, arith,
}
use pprof_rs.Prelude.Int.{ℤ}
use pprof_rs.Error.{Errno, IoResult}
use pprof_rs.AddrValidate.{
  Pipes, PipeOs, PipeLaws, eintr, eagain, is_fd, open_pipe, read_answer, write_answer, read_loop,
  write_loop, check_read, finish, after_open, after_read, validate,
}

answer-cases : (r : Result (Unit {0}) Bool) → (r ≡ err tt) ⊎ ((b : Bool) × (r ≡ ok b))
answer-cases (ok b) = inr (b, refl)
answer-cases (err _) = inl refl

module _ {S : Type 0} (os : PipeOs S) (readable : ℕ → Bool) (laws : PipeLaws os readable) where
  read_answer-again : (r : IoResult ℕ) → read_answer os r ≡ err tt → r ≡ err eintr
  unfolding read_answer
  read_answer-again (ok n) h = absurd (cc h)
  read_answer-again (err e) h = elim (Bool-cases (e == eintr)) [
    | inl same ↦ ap err ((==_iff e eintr).0 same)
    | inr other ↦ elim (Bool-cases (e == eagain)) [
      | inl empty ↦ absurd (cc (rw (other, empty) at h))
      | inr bad ↦ absurd (cc (rw (other, bad) at h))
    ]
  ]

  write_answer-again : (r : IoResult ℕ) → write_answer os r ≡ err tt → r ≡ err eintr
  unfolding write_answer
  write_answer-again (ok n) h = absurd (cc h)
  write_answer-again (err e) h = elim (Bool-cases (e == eintr)) [
    | inl same ↦ ap err ((==_iff e eintr).0 same)
    | inr other ↦ absurd (cc (rw other at h))
  ]

  -- Only a write of some bytes answers yes.
  write_answer-true : (r : IoResult ℕ) → write_answer os r ≡ ok true → (n : ℕ) × (r ≡ ok (suc n))
  unfolding write_answer
  write_answer-true (ok zero) h = absurd (cc h)
  write_answer-true (ok (suc n)) h = (n, refl)
  write_answer-true (err e) h = elim (Bool-cases (e == eintr)) [
    | inl same ↦ absurd (cc (rw same at h))
    | inr other ↦ absurd (cc (rw other at h))
  ]

  read_loop-Returns :
      (fuel : ℕ) (fd : ℤ) (s : S)
      → laws.signals s < fuel
      → Returns (read_loop os fuel fd s) (λ r. laws.signals r.0 ≤ laws.signals s)
  unfolding read_loop
  read_loop-Returns zero fd s h = absurd (omega arith)
  read_loop-Returns (suc fuel) fd s h =
      let s' = (os.read s fd).0 in
      elim (answer-cases (read_answer os (os.read s fd).1)) [
        | inr (b, answered) ↦ ((s', b), rw (answered, read_loop) refl, laws.read-signals s fd)
        | inl again ↦
            let interrupted : os.read s fd ≡ (s', err eintr) =
              ap (λ x. (s', x)) (read_answer-again (os.read s fd).1 again) in
            let fewer = laws.read_interrupted s s' fd interrupted in
            let (r, run, le) = read_loop-Returns fuel fd s' (omega (arith, fewer)) in
            (r, rw (again, read_loop) run, omega (arith, fewer, le))
      ]

  write_loop-Returns :
      (fuel : ℕ) (fd : ℤ) (addr : ℕ) (s : S)
      → laws.signals s < fuel
      → Returns
          (write_loop os fuel fd addr s)
          (λ r. (laws.signals r.0 ≤ laws.signals s) × (r.1 ≡ true → readable addr ≡ true))
  unfolding write_loop
  write_loop-Returns zero fd addr s h = absurd (omega arith)
  write_loop-Returns (suc fuel) fd addr s h =
      let s' = (os.write s fd addr).0 in
      elim (answer-cases (write_answer os (os.write s fd addr).1)) [
        | inr (b, answered) ↦ (
          (s', b),
          rw (answered, write_loop) refl,
          (
            laws.write-signals s fd addr,
            λ yes.
                let (n, wrote) = write_answer-true (os.write s fd addr).1 (answered ∙ ap ok yes) in
                laws.write-readable s s' fd addr n (ap (λ x. (s', x)) wrote),
          ),
        )
        | inl again ↦
            let interrupted : os.write s fd addr ≡ (s', err eintr) =
              ap (λ x. (s', x)) (write_answer-again (os.write s fd addr).1 again) in
            let fewer = laws.write_interrupted s s' fd addr interrupted in
            let (r, run, (le, reads)) = write_loop-Returns fuel fd addr s' (omega (arith, fewer)) in
            (r, rw (again, write_loop) run, (omega (arith, fewer, le), reads))
      ]

  -- The answer is right, and no more signals are to come than before.
  abbrev pub Answers : ℕ → S → (Pipes × S) × Bool → Type 0
  Answers addr s r = (laws.signals r.0.1 ≤ laws.signals s) × (r.1 ≡ true → readable addr ≡ true)

  finish-Returns :
      (fuel addr : ℕ) (p : Pipes) (s : S)
      → laws.signals s < fuel
      → Returns (finish os fuel addr (p, s)) (Answers addr s)
  unfolding finish
  finish-Returns fuel addr p s h =
      let (r, run, (le, reads)) = write_loop-Returns fuel p.write_fd addr s h in
      (((p, r.0), r.1), rw run refl, (le, reads))

  abbrev reopened : Pipes → S → S
  reopened p s = (os.pipe2 (os.close (os.close s p.read_fd) p.write_fd)).0

  reopened-signals : (p : Pipes) (s : S) → laws.signals (reopened p s) ≤ laws.signals s
  reopened-signals p s =
      let first = os.close s p.read_fd in
      omega (
        arith,
        laws.close-signals s p.read_fd,
        laws.close-signals first p.write_fd,
        laws.pipe2-signals (os.close first p.write_fd),
      )

  created-cases : (r : IoResult (ℤ × ℤ)) → ((e : Errno) × (r ≡ err e)) ⊎ ((f : ℤ × ℤ) × (r ≡ ok f))
  created-cases (ok f) = inr (f, refl)
  created-cases (err e) = inl (e, refl)

  open_pipe_failed :
      (p : Pipes) (s : S) (e : Errno)
      → (os.pipe2 (os.close (os.close s p.read_fd) p.write_fd)).1 ≡ err e
      → open_pipe os (p, s) ≡ ((p, reopened p s), err e)
  unfolding open_pipe
  open_pipe_failed p s e failed = rw (failed, open_pipe) refl

  open_pipe_opened :
      (p : Pipes) (s : S) (read_fd write_fd : ℤ)
      → (os.pipe2 (os.close (os.close s p.read_fd) p.write_fd)).1 ≡ ok (read_fd, write_fd)
      → open_pipe os (p, s)
        ≡ ((record { read_fd = read_fd; write_fd = write_fd }, reopened p s), ok tt)
  unfolding open_pipe
  open_pipe_opened p s read_fd write_fd opened = rw (opened, open_pipe) refl

  after_read-Returns :
      (fuel addr : ℕ) (p : Pipes) (s : S) (valid_read : Bool)
      → laws.signals s < fuel
      → Returns (after_read os fuel addr p (s, valid_read)) (Answers addr s)
  unfolding after_read after_open
  after_read-Returns fuel addr p s true h = finish-Returns fuel addr p s h
  after_read-Returns fuel addr p s false h =
      let le = reopened-signals p s in
      elim (created-cases (os.pipe2 (os.close (os.close s p.read_fd) p.write_fd)).1) [
        | inl (e, failed) ↦ (
          ((p, reopened p s), false),
          ap (after_open os fuel addr) (open_pipe_failed p s e failed),
          (le, λ yes. absurd (cc yes)),
        )
        | inr ((read_fd, write_fd), opened) ↦
            let p' : Pipes = record { read_fd = read_fd; write_fd = write_fd } in
            let (r, run, (le', reads)) =
              finish-Returns fuel addr p' (reopened p s) (omega (arith, le)) in
            (
              r,
              ap (after_open os fuel addr) (open_pipe_opened p s read_fd write_fd opened) ∙ run,
              (omega (arith, le, le'), reads),
            )
      ]

  check_read-Returns :
      (fuel : ℕ) (p : Pipes) (s : S)
      → laws.signals s < fuel
      → Returns (check_read os fuel (p, s)) (λ r. laws.signals r.0 ≤ laws.signals s)
  unfolding check_read
  check_read-Returns fuel p s h = elim (Bool-cases (is_fd p.read_fd)) [
    | inl is_open ↦
        let (r, run, le) = read_loop-Returns fuel p.read_fd s h in
        (r, rw (is_open, check_read) run, le)
    | inr closed ↦ ((s, false), rw (closed, check_read) refl, omega arith)
  ]

  pub validate-Returns :
      (fuel : ℕ) (p : Pipes) (s : S) (addr : ℕ)
      → laws.signals s < fuel
      → Returns (validate os fuel (p, s) addr) (Answers addr s)
  unfolding validate
  validate-Returns fuel p s addr h = elim (Bool-cases (addr == 0)) [
    | inl null ↦ (((p, s), false), rw (null, validate) refl, (omega arith, λ yes. absurd (cc yes)))
    | inr some_address ↦
        let (r, run, le) = check_read-Returns fuel p s h in
        let (a, run', (le', reads)) = after_read-Returns fuel addr p r.0 r.1 (omega (arith, le)) in
        (a, rw (some_address, run, validate) run', (omega (arith, le, le'), reads))
  ]
