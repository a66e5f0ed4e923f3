-- ===== src/Timer/Interval.antt =====
-- src/timer.rs, lines 54-60: the period of the timer.
use pprof_rs.Prelude.{ℕ, ◌+◌, ◌*◌, ◌/◌, ◌%◌, ◌≤◌, ◌<◌, ◌≡◌, refl, ◌↔◌, arith}
use pprof_rs.Prelude.Int.{pos, ◌/ℤ◌, ◌%ℤ◌}
use pprof_rs.Os.{Timeval}
use pprof_rs.Timer.{interval_timeval}

-- A period in microseconds, normalised as `setitimer` demands.
pub record IsPeriod (micros : ℕ) (t : Timeval) : Type 0 where
  pub sec : ℕ
  pub usec : ℕ
  pub is_sec : t.tv_sec ≡ pos sec
  pub is_usec : t.tv_usec ≡ pos usec
  pub normal : usec < 1_000_000
  pub whole : sec * 1_000_000 + usec ≡ micros

-- For a positive frequency of f Hz the period is 10 ^ 6 / f microseconds, rounded down, split
-- into seconds and a number of microseconds below a million. It is not zero just if f is at most
-- 10 ^ 6.
pub interval_timeval-IsPeriod :
    (f : ℕ)
    → 0 < f
    → IsPeriod (1_000_000 / f) (interval_timeval (pos f)) × ((0 < 1_000_000 / f) ↔ (f ≤ 1_000_000))
unfolding interval_timeval ◌/ℤ◌ ◌%ℤ◌
interval_timeval-IsPeriod f h = (
  record {
    sec = 1_000_000 / f / 1_000_000;
    usec = 1_000_000 / f % 1_000_000;
    is_sec = refl;
    is_usec = refl;
    normal = omega arith;
    whole = omega arith;
  },
  (λ armed. grind arith, λ small. grind arith),
)
