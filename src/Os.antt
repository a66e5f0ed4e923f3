-- ===== src/Os.antt =====
-- The parts of `libc` and `nix` that src/timer.rs and src/profiler.rs call, as parameters: the
-- process's signal dispositions and interval timers.
use pprof_rs.Prelude.{ℕ, ◌≡◌, ◌≢◌, List, [], ◌⊎◌, ok, err}
use pprof_rs.Prelude.Int.{ℤ}
use pprof_rs.Error.{Errno, IoResult}

pub data Signal : Type 0 where
  sigprof sigalrm : Signal

pub data SigHandler : Type 0 where
  sig_dfl sig_ign perf_signal_handler : SigHandler
  other_handler : ℕ → SigHandler

pub data SaFlag : Type 0 where
  sa_siginfo sa_restart sa_onstack : SaFlag

pub record SigAction : Type 0 where
  pub handler : SigHandler
  pub flags : List SaFlag

pub data ItimerWhich : Type 0 where
  itimer_real itimer_prof : ItimerWhich

-- src/timer.rs, lines 7-18
pub record Timeval : Type 0 where
  pub tv_sec : ℤ
  pub tv_usec : ℤ

pub record Itimerval : Type 0 where
  pub it_interval : Timeval
  pub it_value : Timeval

pub record Os (S : Type 0) : Type 0 where
  -- The old disposition, or an error number.
  pub sigaction : S → Signal → SigAction → S × IoResult SigAction
  -- Its result is not looked at.
  pub setitimer : S → ItimerWhich → Itimerval → S

-- What should become of a disposition when the profiler goes: one that was not the default is there
-- again, and in place of the default one the signal is ignored.
abbrev pub IsGivenBack : SigAction → SigAction → Type 0
IsGivenBack old new =
    ((old.handler ≢ sig_dfl) × (new ≡ old))
    ⊎ ((old.handler ≡ sig_dfl) × (new ≡ record { handler = sig_ign; flags = [] }))

pub record OsLaws {S : Type 0} (os : Os S) : Type 0 where
  pub disposition : S → Signal → SigAction
  pub sigaction_old :
      (s : S) (g : Signal) (a old : SigAction)
      → (os.sigaction s g a).1 ≡ ok old
      → old ≡ disposition s g
  pub sigaction_sets :
      (s : S) (g : Signal) (a old : SigAction)
      → (os.sigaction s g a).1 ≡ ok old
      → disposition (os.sigaction s g a).0 g ≡ a
  pub sigaction_other :
      (s : S) (g h : Signal) (a : SigAction)
      → g ≢ h
      → disposition (os.sigaction s g a).0 h ≡ disposition s h
  pub sigaction_fails :
      (s : S) (g : Signal) (a : SigAction) (e : Errno)
      → (os.sigaction s g a).1 ≡ err e
      → disposition (os.sigaction s g a).0 g ≡ disposition s g
  pub setitimer-disposition :
      (s : S) (w : ItimerWhich) (v : Itimerval) (g : Signal)
      → disposition (os.setitimer s w v) g ≡ disposition s g
