-- ===== src/Timer.antt =====
-- src/timer.rs: the interval timer that makes the kernel send the profiling signal.
pub mod Interval
use pprof_rs.Prelude.{ℕ, zero, suc, ◌-◌, Bool, true, false, if◌then◌else◌, Outcome, done, panic}
use pprof_rs.Prelude.Int.{ℤ, pos, negsuc, ◌/ℤ◌, ◌%ℤ◌}
use pprof_rs.Os.{Os, ItimerWhich, itimer_real, itimer_prof, Timeval, Itimerval}

pub data ClockType : Type 0 where
  cpu wall : ClockType

-- Times are numbers of nanoseconds.
pub record Timer : Type 0 where
  pub frequency : ℤ
  pub clock_type : ClockType
  pub start_time : ℕ
  pub start_instant : ℕ

pub record ReportTiming : Type 0 where
  pub frequency : ℤ
  pub start_time : ℕ
  pub duration : ℕ
  pub clock_type : ClockType

-- `ReportTiming::default`
abbrev pub default_timing : ReportTiming
default_timing = record {
  frequency = pos 1;
  start_time = 0;
  duration = 0;
  clock_type = ClockType.cpu;
}

unfoldable pub which : ClockType → ItimerWhich
which ClockType.cpu = itimer_prof
which ClockType.wall = itimer_real

abbrev pub micros : ℤ
micros = pos 1_000_000

abbrev pub is_zero : ℤ → Bool
is_zero (pos zero) = true
is_zero (pos (suc n)) = false
is_zero (negsuc n) = false

-- `interval`, as a `Timeval`
unfoldable pub interval_timeval : ℤ → Timeval
interval_timeval frequency =
    let interval = micros /ℤ frequency in
    record { tv_sec = interval /ℤ micros; tv_usec = interval %ℤ micros }

module _ {S : Type 0} (os : Os S) where
  -- `Timer::with_clock_type`, at the time `now` of both clocks. A division by zero panics.
  unfoldable pub with_clock_type : S → ℤ → ClockType → ℕ → ℕ → Outcome (S × Timer)
  with_clock_type s frequency clock_type now instant =
      let it_interval = interval_timeval frequency in
      if is_zero frequency
      then panic
      else done (
        os.setitimer s (which clock_type)
            (record { it_interval = it_interval; it_value = it_interval }),
        record {
          frequency = frequency;
          clock_type = clock_type;
          start_time = now;
          start_instant = instant;
        },
      )

  -- `Timer::drop`
  unfoldable pub drop_timer : S → Timer → S
  drop_timer s t =
      let it_interval : Timeval = record { tv_sec = pos 0; tv_usec = pos 0 } in
      os.setitimer s (which t.clock_type)
        (record { it_interval = it_interval; it_value = it_interval })

-- `Timer::timing`, at the instant `instant` of the monotonic clock
unfoldable pub timing : Timer → ℕ → ReportTiming
timing t instant = record {
  frequency = t.frequency;
  start_time = t.start_time;
  duration = instant - t.start_instant;
  clock_type = t.clock_type;
}
