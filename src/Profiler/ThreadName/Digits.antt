-- ===== src/Profiler/ThreadName/Digits.antt =====
-- src/profiler.rs, lines 274-301: the digits that `write_thread_name_fallback` writes.
use pprof_rs.Prelude.{
  ℕ, zero, suc, ◌+◌, ◌-◌, ◌*◌, ◌/◌, ◌%◌, ◌^◌, ◌≤◌, ◌<◌, ◌≡◌, refl, ap, sym, ◌∙◌, ◌⊎◌, inl, inr,
  ◌&&◌, some, [], ◌∷◌, ◌++◌, done, Returns, ltb, ◌==◌, length, set, take, drop, take-set_next,
  length-set, arith, true, false, Bool-cases, take-append-drop,
}
use native.Mathlib.Nat.{div-div-eq-div-mul, div-add-mod', mul_comm}
use mathlib.Core.List.{append_assoc}
use pprof_rs.Frames.{Text, max_thread_name}
use pprof_rs.Profiler.ThreadName.{widen, store, to_char, write_digits, c_str}

-- The least number of digits `k` with `n ≤ 10 ^ k`, or `max_thread_name` if that is less.
pub record IsWidth (n k : ℕ) : Type 0 where
  pub at_most : k ≤ max_thread_name
  pub enough : (n ≤ 10 ^ k) ⊎ (k ≡ max_thread_name)
  pub least : (j : ℕ) → j < k → 10 ^ j < n

-- The last `k` decimal digits of `n`
abbrev pub decimal : ℕ → ℕ → Text
decimal zero n = []
decimal (suc k) n = (48 + n / 10 ^ k % 10) ∷ decimal k n

-- The number that digits make.
abbrev pub value : ℕ → Text → ℕ
value n [] = n
value n (c ∷ cs) = value (n * 10 + (c - 48)) cs

next_power : (k : ℕ) → 10 ^ (k + 1) ≡ 10 ^ k * 10
next_power k = let one_more : k + 1 ≡ suc k = omega arith in rw one_more (omega arith)

power_positive : (k : ℕ) → 0 < 10 ^ k
power_positive zero = omega arith
power_positive (suc k) = omega (arith, power_positive k)

below_next :
    (n len : ℕ)
    → ((j : ℕ) → j < len → 10 ^ j < n)
    → 10 ^ len < n
    → (j : ℕ) → j < len + 1
    → 10 ^ j < n
below_next n len least here j lt = elim (Bool-cases (ltb j len)) [
  | inl before ↦ least j (ground arith)
  | inr last ↦ let e : j ≡ len = ground arith in rw e here
]

pub widen-IsWidth :
    (fuel n len : ℕ)
    → len ≤ max_thread_name
    → max_thread_name < fuel + len
    → ((j : ℕ) → j < len → 10 ^ j < n)
    → Returns (widen fuel n (10 ^ len) len) (λ r. (r.0 ≡ 10 ^ r.1) × IsWidth n r.1)
unfolding widen
widen-IsWidth zero n len small more least = absurd (omega arith)
widen-IsWidth (suc fuel) n len small more least =
    elim (Bool-cases (ltb (10 ^ len) n && ltb len max_thread_name)) [
      | inl again ↦
          rw (again, sym (next_power len))
            (widen-IsWidth fuel n (len + 1) (ground arith) (omega arith)
              (below_next n len least (ground arith)))
      | inr ends ↦ (
        (10 ^ len, len),
        rw ends refl,
        (refl, record { at_most = small; enough = ground arith; least = least }),
      )
    ]

drop-set : (n i : ℕ) (name : Text) (c : ℕ) → i < n → drop n (set name i c) ≡ drop n name
drop-set zero i name c h = absurd (omega arith)
drop-set (suc n) i [] c h = refl
drop-set (suc n) zero (x ∷ xs) c h = refl
drop-set (suc n) (suc i) (x ∷ xs) c h = drop-set n i xs c (omega arith)

place :
    (index len : ℕ) (name : Text) (c : ℕ) (ds : Text)
    → index < len
    → len ≤ length name
    → take (index + 1) (set name index c) ++ (ds ++ drop len (set name index c))
      ≡ take index name ++ (c ∷ ds ++ drop len name)
place index len name c ds lt fits =
    let one_more : index + 1 ≡ suc index = omega arith in
    rw (one_more, take-set_next index name c (omega arith), drop-set len index name c lt)
      (append_assoc (take index name) (c ∷ []) (ds ++ drop len name))

char_fits : (d : ℕ) → to_char (48 + d % 10) ≡ 48 + d % 10
char_fits d = ground arith

pub write_digits-decimal :
    (fuel n k len index : ℕ) (name : Text)
    → k < fuel
    → index + k ≡ len
    → len ≤ length name
    → write_digits fuel n (10 ^ k) len index name
      ≡ done (take index name ++ (decimal k n ++ drop len name))
unfolding write_digits store
write_digits-decimal zero n k len index name more e fits = absurd (omega arith)
write_digits-decimal (suc fuel) n zero len index name more e fits =
    let stop : ltb index len ≡ false = ground arith in
    let same : index ≡ len = omega arith in
    rw (stop, same) (ap done (sym (take-append-drop len name)))
write_digits-decimal (suc fuel) n (suc k) len index name more e fits =
    let first_power : 10 ^ suc k / 10 ≡ 10 ^ k = omega arith in
    let goes_on : (ltb index len && ltb 1 (10 ^ suc k)) ≡ true = ground (arith, power_positive k) in
    let inside : ltb index (length name) ≡ true = ground arith in
    let c = 48 + n / 10 ^ k % 10 in
    let rest =
      write_digits-decimal fuel n k len (index + 1) (set name index c) (omega arith) (omega arith)
        (omega (arith, length-set name index c)) in
    rw (goes_on, first_power, char_fits (n / 10 ^ k), store, inside)
      (rest ∙ ap done (place index len name c (decimal k n) (omega arith) fits))

length-decimal : (k n : ℕ) → length (decimal k n) ≡ k
length-decimal zero n = refl
length-decimal (suc k) n = ap suc (length-decimal k n)

split_apart :
    (b q n low whole : ℕ)
    → q * b + low ≡ n
    → q / 10 * (b * 10) + whole ≡ n
    → whole ≡ q % 10 * b + low
split_apart b q n low whole by_b by_ten =
    let q_split : q ≡ 10 * (q / 10) + q % 10 = omega arith in
    let q_times : q * b ≡ (10 * (q / 10) + q % 10) * b = ap (λ m. m * b) q_split in grind arith

-- A digit in front of `k` others
mod-next_power : (b n : ℕ) → n % (10 * b) ≡ n / b % 10 * b + n % b
mod-next_power b n =
    let by_ten : n / b / 10 * (b * 10) + n % (b * 10) ≡ n =
      rw (div-div-eq-div-mul n b 10) (div-add-mod' n (b * 10)) in
    rw (mul_comm 10 b) (split_apart b (n / b) n (n % b) (n % (b * 10)) (div-add-mod' n b) by_ten)

value_step :
    (acc b d low : ℕ) → (acc * 10 + (48 + d - 48)) * b + low ≡ acc * (10 * b) + (d * b + low)
value_step acc b d low = let same : 48 + d - 48 ≡ d = omega arith in rw same (grind arith)

pub value-decimal : (k n acc : ℕ) → value acc (decimal k n) ≡ acc * 10 ^ k + n % 10 ^ k
value-decimal zero n acc = omega arith
value-decimal (suc k) n acc =
    value-decimal k n (acc * 10 + (48 + n / 10 ^ k % 10 - 48))
    ∙ value_step acc (10 ^ k) (n / 10 ^ k % 10) (n % 10 ^ k)
    ∙ ap (λ m. acc * (10 * 10 ^ k) + m) (sym (mod-next_power (10 ^ k) n))
    ∙ ap (λ p. acc * p + n % p) (omega arith)

pub c_str-decimal : (k n : ℕ) (rest : Text) → c_str (decimal k n ++ 0 ∷ rest) ≡ some (decimal k n)
unfolding c_str
c_str-decimal zero n rest = refl
c_str-decimal (suc k) n rest =
    let digit : ((48 + n / 10 ^ k % 10) == 0) ≡ false = ground arith in
    rw (digit, c_str-decimal k n rest) refl
