-- ===== src/Tests/Systems.antt =====
-- A system with the dispositions of two signals, on which sessions are run.
use pprof_rs.Prelude.{ℕ, ◌≡◌, ◌≢◌, refl, [], ok, err}
use pprof_rs.Error.{IoResult}
use pprof_rs.Os.{Os, OsLaws, Signal, sigprof, sigalrm, SigAction, sig_dfl}

-- The dispositions of the two signals.
pub record Signals : Type 0 where
  pub prof : SigAction
  pub alrm : SigAction

abbrev pub disposition : Signals → Signal → SigAction
disposition s sigprof = s.prof
disposition s sigalrm = s.alrm

abbrev sigaction : Signals → Signal → SigAction → Signals × IoResult SigAction
sigaction s sigprof a = (record s { prof = a }, ok s.prof)
sigaction s sigalrm a = (record s { alrm = a }, ok s.alrm)

abbrev pub os : Os Signals
os = record { sigaction = sigaction; setitimer = λ s _ _. s }

pub sets : (s : Signals) (g : Signal) (a : SigAction) → disposition (sigaction s g a).0 g ≡ a
sets s sigprof a = refl
sets s sigalrm a = refl

pub returns :
    (s : Signals) (g : Signal) (a : SigAction) → (sigaction s g a).1 ≡ ok (disposition s g)
returns s sigprof a = refl
returns s sigalrm a = refl

pub others :
    (s : Signals) (g h : Signal) (a : SigAction)
    → g ≢ h
    → disposition (sigaction s g a).0 h ≡ disposition s h
others s sigprof sigprof a d = absurd (d refl)
others s sigprof sigalrm a d = refl
others s sigalrm sigprof a d = refl
others s sigalrm sigalrm a d = absurd (d refl)

pub old_action :
    (s : Signals) (g : Signal) (a old : SigAction)
    → (sigaction s g a).1 ≡ ok old
    → old ≡ disposition s g
old_action s sigprof a old h = cc
old_action s sigalrm a old h = cc

pub never_fails :
    (s : Signals) (g : Signal) (a : SigAction) (e : ℕ)
    → (sigaction s g a).1 ≡ err e
    → disposition (sigaction s g a).0 g ≡ disposition s g
never_fails s sigprof a e h = cc
never_fails s sigalrm a e h = cc

abbrev pub os_laws : OsLaws os
os_laws = record {
  disposition = disposition;
  sigaction_old = old_action;
  sigaction_sets = λ s g a old _. sets s g a;
  sigaction_other = others;
  sigaction_fails = never_fails;
  setitimer-disposition = λ s w v g. refl;
}

abbrev pub signals : Signals
signals = record {
  prof = record { handler = sig_dfl; flags = [] };
  alrm = record { handler = sig_dfl; flags = [] };
}
