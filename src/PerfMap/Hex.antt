-- ===== src/PerfMap/Hex.antt =====
-- `usize::from_str_radix(_, 16)` as src/perfmap.rs calls it: it reads a hexadecimal print back.
use pprof_rs.Prelude.{
  ℕ, zero, suc, ◌+◌, ◌*◌, ◌/◌, ◌%◌, ◌^◌, ◌<◌, ◌≡◌, refl, ap, sym, ◌∙◌, Bool, false, true, some, [],
  ◌∷◌, ◌++◌, if◌then◌else◌, ◌==◌, ltb, All, All-append, All-imp, arith, word, Bool-cases, inl, inr,
  lt→leb_false,
}
use mathlib.Core.List.{append_assoc, append-nil}
use pprof_rs.Frames.{Text}
use pprof_rs.PerfMap.{is_whitespace, to_digit, read_digits, from_str_radix}
use pprof_rs.PerfMap.Words.{IsWord}

abbrev digit_char : ℕ → ℕ
digit_char d = if ltb d 10 then 48 + d else 87 + d

-- The last `fuel` digits, without zeros in front.
unfoldable pub digits : ℕ → ℕ → Text
digits zero n = []
digits (suc fuel) n =
    let front = digits fuel (n / 16) in if n == 0 then [] else front ++ digit_char (n % 16) ∷ []

-- `format!("{:x}", n)` of a `usize`, which has at most sixteen digits
unfoldable pub hex : ℕ → Text
hex n = if n == 0 then 48 ∷ [] else digits 16 n

to_digit-digit_char : (d : ℕ) → d < 16 → to_digit (digit_char d) ≡ some d
unfolding to_digit
to_digit-digit_char d h = ground arith

-- A digit is neither white space nor a sign.
abbrev IsPlain : ℕ → Type 0
IsPlain c = (is_whitespace c ≡ false) × ((c == 43) ≡ false)

digit_char-IsPlain : (d : ℕ) → d < 16 → IsPlain (digit_char d)
unfolding is_whitespace
digit_char-IsPlain d h = ground arith

digits-IsPlain : (fuel n : ℕ) → All IsPlain (digits fuel n)
unfolding digits
digits-IsPlain zero n = tt
digits-IsPlain (suc fuel) n = elim (Bool-cases (n == 0)) [
  | inl e ↦ rw e tt
  | inr e ↦ rw e (
      All-append IsPlain (digits fuel (n / 16)) (digit_char (n % 16) ∷ [])
        (digits-IsPlain fuel (n / 16)) (digit_char-IsPlain (n % 16) (omega arith), tt))
]

hex-IsPlain : (n : ℕ) → All IsPlain (hex n)
unfolding hex is_whitespace
hex-IsPlain n = elim (Bool-cases (n == 0)) [
  | inl e ↦ rw e ((refl, refl), tt)
  | inr e ↦ rw e (digits-IsPlain 16 n)
]

abbrev is_empty : Text → Bool
is_empty [] = true
is_empty (c ∷ cs) = false

snoc_nonempty : (t : Text) (c : ℕ) → is_empty (t ++ c ∷ []) ≡ false
snoc_nonempty [] c = refl
snoc_nonempty (d ∷ t) c = refl

digits_nonempty : (fuel n : ℕ) → (n == 0) ≡ false → is_empty (digits (suc fuel) n) ≡ false
unfolding digits
digits_nonempty fuel n e = rw e (snoc_nonempty (digits fuel (n / 16)) (digit_char (n % 16)))

hex_nonempty : (n : ℕ) → is_empty (hex n) ≡ false
unfolding hex
hex_nonempty n = elim (Bool-cases (n == 0)) [
  | inl e ↦ rw e refl
  | inr e ↦ rw e (digits_nonempty 15 n e)
]

plain-IsWord : (t : Text) → is_empty t ≡ false → All IsPlain t → IsWord t
plain-IsWord [] e h = absurd (cc e)
plain-IsWord (c ∷ cs) e h = All-imp IsPlain (λ d. is_whitespace d ≡ false) (λ d p. p.0) (c ∷ cs) h

pub hex-IsWord : (n : ℕ) → IsWord (hex n)
hex-IsWord n = plain-IsWord (hex n) (hex_nonempty n) (hex-IsPlain n)

plain_digits : (t : Text) → is_empty t ≡ false → All IsPlain t → from_str_radix t ≡ read_digits 0 t
unfolding from_str_radix
plain_digits [] e h = absurd (cc e)
plain_digits (c ∷ []) e h = rw h.0.1 refl
plain_digits (c ∷ d ∷ cs) e h = rw h.0.1 refl

read_next :
    (n : ℕ) (rest : Text)
    → n < word
    → read_digits (n / 16) (digit_char (n % 16) ∷ rest) ≡ read_digits n rest
unfolding read_digits
read_next n rest h =
    let whole : n / 16 * 16 + n % 16 ≡ n = omega arith in
    rw (to_digit-digit_char (n % 16) (omega arith), whole, lt→leb_false word n h) refl

read-digits :
    (fuel n : ℕ) (rest : Text)
    → n < 16 ^ fuel
    → n < word
    → read_digits 0 (digits fuel n ++ rest) ≡ read_digits n rest
unfolding digits
read-digits zero n rest h small = ap (λ m. read_digits m rest) (omega arith)
read-digits (suc fuel) n rest h small = elim (Bool-cases (n == 0)) [
  | inl e ↦ rw e (ap (λ m. read_digits m rest) (ground arith))
  | inr e ↦
      rw (e, append_assoc (digits fuel (n / 16)) (digit_char (n % 16) ∷ []) rest)
        (read-digits fuel (n / 16) (digit_char (n % 16) ∷ rest) (omega arith) (omega arith)
          ∙ read_next n rest small)
]

read_zero : read_digits 0 (48 ∷ []) ≡ some 0
unfolding read_digits to_digit
read_zero = refl

read_none : (n : ℕ) → read_digits n [] ≡ some n
unfolding read_digits
read_none n = refl

read-hex : (n : ℕ) → n < word → read_digits 0 (hex n) ≡ some n
unfolding hex
read-hex n h = elim (Bool-cases (n == 0)) [
  | inl e ↦ rw e (read_zero ∙ ap some (ground arith))
  | inr e ↦ rw e (
      ap (read_digits 0) (sym (append-nil (digits 16 n)))
      ∙ read-digits 16 n [] (omega arith) h
      ∙ read_none n)
]

pub from_str_radix-hex : (n : ℕ) → n < word → from_str_radix (hex n) ≡ some n
from_str_radix-hex n h = plain_digits (hex n) (hex_nonempty n) (hex-IsPlain n) ∙ read-hex n h
