-- ===== src/Prelude/Words.antt =====
-- 64-bit words as bit patterns: `usize`, `u64`, and `isize`, `i64` in two's complement.
-- Addition wraps, as it does in a release build.
use Prim.Native.Nat.{ℕ, ◌+◌, ◌%◌, ◌^◌, ◌≤◌, ◌<◌}
use mathlib.Core.Path.{◌≡◌}
use mathlib.Core.Bool.{Bool}
use native.Mathlib.Omega.{arith}
use pprof_rs.Prelude.Tests.{ltb, if◌then◌else◌}

abbrev pub word : ℕ
word = 2 ^ 64

abbrev pub half_word : ℕ
half_word = 2 ^ 63

abbrev pub add64 : ℕ → ℕ → ℕ
add64 a b = (a + b) % word

-- The order of `isize`: a pattern from 2 ^ 63 on is negative.
abbrev pub lts : ℕ → ℕ → Bool
lts a b = ltb ((a + half_word) % word) ((b + half_word) % word)

-- `max(0)` of an `isize`.
abbrev pub max_zero : ℕ → ℕ
max_zero a = if lts a 0 then 0 else a

-- `after` is `before` with `n` added: modulo the word, and with no more than `n` on top.
pub record Adds (after before n : ℕ) : Type 0 where
  pub wraps : after % word ≡ (before + n) % word
  pub at_most : after ≤ before + n

pub Adds-exact_from : (after before n : ℕ) → before ≡ 0 → Adds after before n → n < word → after ≡ n
Adds-exact_from after before n z a h = omega arith
