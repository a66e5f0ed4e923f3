-- ===== src/Tests/Walking.antt =====
-- The theorems on the unwinders, run on two frames and on a stack of two words, with a system that interrupts the
-- first calls.
use pprof_rs.Prelude.{
  ℕ, zero, suc, ◌<◌, ◌≤◌, ◌≡◌, refl, ap, Bool, true, false, Option, none, some, Returns, ok, err,
  arith, ◌==◌, if◌then◌else◌,
}
use pprof_rs.Prelude.Int.{ℤ, pos}
use pprof_rs.Error.{IoResult}
use pprof_rs.AddrValidate.{PipeOs, PipeLaws, no_pipe, eintr, eagain}
use pprof_rs.FramePointer.{FramePointerLayout, walk}
use pprof_rs.Framehop.{Turn, ask, yields, ended, failed, Unwinder, trace}
use pprof_rs.Framehop.Unwinding
use pprof_rs.Framehop.Unwinding.{Unwinds, trace-Unwinds}
use pprof_rs.FramePointer.Walk.{readable, Chain, walk-Chain}

abbrev frame_at : ℕ → ℕ → Option FramePointerLayout
frame_at next ret = some (record { frame_pointer = next; ret = ret })

-- Two frames, the second of which points nowhere.
abbrev two_frames : ℕ → Option FramePointerLayout
two_frames addr =
    if addr == 100 then frame_at 200 11 else if addr == 200 then frame_at 0 12 else none

abbrev written : Bool → IoResult ℕ
written true = ok 16
written false = err 14

-- The state is the number of signals to come, each of which interrupts a call.
abbrev read_pipe : ℕ → ℤ → ℕ × IoResult ℕ
read_pipe zero fd = (0, err eagain)
read_pipe (suc n) fd = (n, err eintr)

-- Which addresses can be read is a parameter.
module _ (can_read : ℕ → Bool) where
  abbrev write_pipe : ℕ → ℤ → ℕ → ℕ × IoResult ℕ
  write_pipe zero fd addr = (0, written (can_read addr))
  write_pipe (suc n) fd addr = (n, err eintr)

  abbrev busy : PipeOs ℕ
  busy = record {
    close = λ s fd. s;
    pipe2 = λ s. (s, ok (pos 5, pos 6));
    read = read_pipe;
    write = write_pipe;
  }

  written_some : (b : Bool) (n : ℕ) → written b ≡ ok (suc n) → b ≡ true
  written_some true n h = refl
  written_some false n h = absurd (cc h)

  write_pipe-readable :
      (s s' : ℕ) (fd : ℤ) (addr n : ℕ)
      → write_pipe s fd addr ≡ (s', ok (suc n))
      → can_read addr ≡ true
  write_pipe-readable zero s' fd addr n h = written_some (can_read addr) n (ap (λ r. r.1) h)
  write_pipe-readable (suc m) s' fd addr n h =
      let refused : err eintr ≡ ok (suc n) = ap (λ r. r.1) h in absurd (cc refused)

  read_pipe_signals : (s : ℕ) (fd : ℤ) → (read_pipe s fd).0 ≤ s
  read_pipe_signals zero fd = omega arith
  read_pipe_signals (suc n) fd = omega arith

  write_pipe_signals : (s : ℕ) (fd : ℤ) (addr : ℕ) → (write_pipe s fd addr).0 ≤ s
  write_pipe_signals zero fd addr = omega arith
  write_pipe_signals (suc n) fd addr = omega arith

  read_pipe_interrupted : (s s' : ℕ) (fd : ℤ) → read_pipe s fd ≡ (s', err eintr) → s' < s
  read_pipe_interrupted zero s' fd h =
      let empty : err eagain ≡ err eintr = ap (λ r. r.1) h in absurd (cc empty)
  read_pipe_interrupted (suc n) s' fd h = let same : n ≡ s' = ap (λ r. r.0) h in omega (arith, same)

  written_uninterrupted : (b : Bool) → written b ≡ err eintr → Unit {0} → (n : ℕ) → n < n
  written_uninterrupted true h _ n = absurd (cc h)
  written_uninterrupted false h _ n = absurd (cc h)

  write_pipe_interrupted :
      (s s' : ℕ) (fd : ℤ) (addr : ℕ) → write_pipe s fd addr ≡ (s', err eintr) → s' < s
  write_pipe_interrupted zero s' fd addr h =
      let never = written_uninterrupted (can_read addr) (ap (λ r. r.1) h) tt 0 in
      absurd (omega (arith, never))
  write_pipe_interrupted (suc n) s' fd addr h =
      let same : n ≡ s' = ap (λ r. r.0) h in omega (arith, same)

  abbrev busy_laws : PipeLaws busy can_read
  busy_laws = record {
    signals = λ s. s;
    write-readable = write_pipe-readable;
    close-signals = λ s fd. omega arith;
    pipe2-signals = λ s. omega arith;
    read-signals = read_pipe_signals;
    write-signals = write_pipe_signals;
    read_interrupted = read_pipe_interrupted;
    write_interrupted = write_pipe_interrupted;
  }

-- A callback with room for some frames.
abbrev take_frame : ℕ → ℕ → ℕ × Bool
take_frame zero ip = (0, false)
take_frame (suc n) ip = (n, true)

take_frame_uses : (c c' ip : ℕ) → take_frame c ip ≡ (c', true) → c' < c
take_frame_uses zero c' ip h = let refused : false ≡ true = ap (λ r. r.1) h in absurd (cc refused)
take_frame_uses (suc n) c' ip h = let same : n ≡ c' = ap (λ r. r.0) h in omega (arith, same)

walk-Chain_example :
    Returns
      (walk (busy (readable two_frames)) two_frames take_frame 9 4 (no_pipe, 3) 100 0 8)
      (Chain (busy (readable two_frames)) 4 two_frames take_frame (no_pipe, 3) 100 0 8)
walk-Chain_example =
    walk-Chain (busy (readable two_frames)) two_frames take_frame (busy_laws (readable two_frames))
      (λ c. c) 9 4 no_pipe 3 100 0 8 take_frame_uses (omega arith) (omega arith)

-- The word at 96 is the address of the caller.
abbrev two_words : ℕ → Option ℕ
two_words addr = if addr == 96 then some 77 else if addr == 104 then some 5 else none

abbrev next_turn : ℕ → Turn ℕ
next_turn zero = ended
next_turn (suc n) = ask 101 λ word. elim word [ none ↦ failed | some ip ↦ yields ip n ]

-- Two turns, each of which reads the word.
abbrev reader : Unwinder ℕ
reader = record { iter_frames = λ pc regs. 2; next = next_turn }

trace-Unwinds_example :
    Returns
      (trace
        (busy (Unwinding.readable two_words))
        two_words
        reader
        take_frame
        true
        9
        4
        (no_pipe, 3)
        (some (record { rip = 33; rsp = 96; rbp = 104 }))
        8)
      (λ r. Unwinds two_words reader take_frame 2 8 r.1)
trace-Unwinds_example =
    trace-Unwinds (busy (Unwinding.readable two_words)) two_words
      (busy_laws (Unwinding.readable two_words)) reader take_frame (λ c. c) take_frame_uses 9 4
      no_pipe 3 (record { rip = 33; rsp = 96; rbp = 104 }) 8 (omega arith) (omega arith)
