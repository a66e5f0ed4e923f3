-- ===== src/Profiler/ThreadName/Fallback.antt =====
-- src/profiler.rs, lines 274-311: the name of a thread for which the system has none.
use pprof_rs.Prelude.{
  ℕ, zero, suc, ◌+◌, ◌-◌, ◌*◌, ◌%◌, ◌^◌, ◌≤◌, ◌<◌, ◌≡◌, refl, ap, ◌∙◌, ◌⊎◌, inl, inr, not, ◌==◌,
  some, ◌∷◌, ◌++◌, done, ltb, length, replicate, drop, arith, Bool-cases, length-replicate,
}
use native.Mathlib.Nat.{mod-eq_of_lt, mod_self}
use pprof_rs.Frames.{Text, max_thread_name}
use pprof_rs.Profiler.ThreadName.{
  widen, write_thread_name_fallback, write_thread_name, name_of_thread,
}
use pprof_rs.Profiler.ThreadName.Digits.{
  IsWidth, decimal, value, widen-IsWidth, write_digits-decimal, value-decimal, c_str-decimal,
}

write_all_digits :
    (n base k : ℕ) (name : Text)
    → length name ≡ max_thread_name
    → widen (suc max_thread_name) n 1 0 ≡ done (base, k)
    → base ≡ 10 ^ k
    → k ≤ max_thread_name
    → write_thread_name_fallback n name ≡ done (decimal k n ++ drop k name)
unfolding write_thread_name_fallback
write_all_digits n base k name whole ends power small =
    rw (ends, power)
      (write_digits-decimal (suc max_thread_name) n k k 0 name (omega arith) (omega arith)
        (omega arith))

fallback-decimal :
    (n : ℕ) (name : Text)
    → length name ≡ max_thread_name
    → (k : ℕ) × IsWidth n k
      × (write_thread_name_fallback n name ≡ done (decimal k n ++ drop k name))
fallback-decimal n name whole =
    let (r, ends, (power, width)) =
      widen-IsWidth (suc max_thread_name) n 0 (omega arith) (omega arith)
        λ j lt. absurd (omega arith) in
    (r.1, width, write_all_digits n r.0 r.1 name whole ends power width.at_most)

abbrev pub zeros : Text
zeros = replicate max_thread_name 0

drop_zeros : (m k : ℕ) → k < m → drop k (replicate {A = ℕ} m 0) ≡ 0 ∷ replicate (m - k - 1) 0
drop_zeros zero k h = absurd (omega arith)
drop_zeros (suc m) zero h = ap (λ j. 0 ∷ replicate j 0) (omega arith)
drop_zeros (suc m) (suc k) h =
    drop_zeros m k (omega arith) ∙ ap (λ j. 0 ∷ replicate j 0) (omega arith)

-- A number up to 10 ^ 15 has at most fifteen digits.
narrow : (n k : ℕ) → n ≤ 10 ^ 15 → IsWidth n k → (k < max_thread_name) × (n ≤ 10 ^ k)
narrow n k small width = elim (Bool-cases (ltb k max_thread_name)) [
  | inl less ↦ (ground arith, elim width.enough [ inl h ↦ h | inr full ↦ absurd (ground arith) ])
  | inr all ↦
      let long : 15 < k = ground arith in
      let above = width.least 15 long in absurd (omega (arith, above, small))
]

-- What the digits come to: all of the number, or nothing of a power of ten.
read_back :
    (n k : ℕ)
    → n ≤ 10 ^ k
    → ((n ≡ 10 ^ k) × (value 0 (decimal k n) ≡ 0)) ⊎ (value 0 (decimal k n) ≡ n)
read_back n k fits = elim (Bool-cases (ltb n (10 ^ k))) [
  | inl less ↦
      inr
        (value-decimal k n 0 ∙ ap (λ m. 0 * 10 ^ k + m) (mod-eq_of_lt (ground arith)) ∙ omega arith)
  | inr all ↦
      let power : n ≡ 10 ^ k = ground arith in
      inl (
        power,
        value-decimal k n 0
            ∙ ap (λ m. 0 * 10 ^ k + m % 10 ^ k) power
            ∙ ap (λ m. 0 * 10 ^ k + m) (mod_self (10 ^ k))
            ∙ omega arith,
      )
]

fallback_to : (n ret : ℕ) → write_thread_name n ret zeros ≡ write_thread_name_fallback n zeros
unfolding write_thread_name
fallback_to n ret = elim (Bool-cases (not (ret == 0))) [ inl e ↦ rw e refl | inr e ↦ rw e refl ]

read_name :
    (n ret k : ℕ)
    → k < max_thread_name
    → write_thread_name_fallback n zeros ≡ done (decimal k n ++ drop k zeros)
    → name_of_thread n ret zeros ≡ done (some (decimal k n))
unfolding name_of_thread
read_name n ret k less run =
    rw (fallback_to n ret, run, drop_zeros max_thread_name k less)
      (ap done (c_str-decimal k n (replicate (max_thread_name - k - 1) 0)))

-- Where the system leaves no name for a thread whose number is at most 10 ^ 15, the fallback does
-- not run out of rounds or write out of bounds, and the name that the handler reads ends inside
-- the array: it is the last k digits of the number n, for the least k with n <= 10 ^ k. They are
-- its decimal print unless it is a power of ten, of which only zeros are left.
pub name_of_thread-decimal :
    (n ret : ℕ)
    → n ≤ 10 ^ 15
    → (k : ℕ) × IsWidth n k
      × (name_of_thread n ret zeros ≡ done (some (decimal k n)))
      × (((n ≡ 10 ^ k) × (value 0 (decimal k n) ≡ 0)) ⊎ (value 0 (decimal k n) ≡ n))
name_of_thread-decimal n ret small =
    let (k, width, run) = fallback-decimal n zeros (length-replicate {A = ℕ} max_thread_name 0) in
    let (less, fits) = narrow n k small width in
    (k, width, read_name n ret k less run, read_back n k fits)
