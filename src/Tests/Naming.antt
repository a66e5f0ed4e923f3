-- ===== src/Tests/Naming.antt =====
-- The theorem on the names of threads, run on a number, and what is left of a power of ten.
use pprof_rs.Prelude.{codes, ℕ, ◌^◌, ◌≡◌, ◌⊎◌, refl, some, done, arith}
use pprof_rs.Profiler.ThreadName.{
  name_of_thread, write_thread_name, write_thread_name_fallback, widen, write_digits, store, c_str,
}
use pprof_rs.Profiler.ThreadName.Digits.{IsWidth, decimal, value}
use pprof_rs.Profiler.ThreadName.Fallback.{zeros, name_of_thread-decimal}

name_of_thread-decimal_example :
    (k : ℕ) × IsWidth 139637976 k
    × (name_of_thread 139637976 2 zeros ≡ done (some (decimal k 139637976)))
    × (((139637976 ≡ 10 ^ k) × (value 0 (decimal k 139637976) ≡ 0))
        ⊎ (value 0 (decimal k 139637976) ≡ 139637976))
name_of_thread-decimal_example = name_of_thread-decimal 139637976 2 (omega arith)

digits_of_139 : name_of_thread 139 0 zeros ≡ done (some (codes "139"))
unfolding name_of_thread write_thread_name write_thread_name_fallback widen write_digits store c_str
digits_of_139 = refl

digits_of_100 : name_of_thread 100 0 zeros ≡ done (some (codes "00"))
unfolding name_of_thread write_thread_name write_thread_name_fallback widen write_digits store c_str
digits_of_100 = refl
