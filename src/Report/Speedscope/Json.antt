-- ===== src/Report/Speedscope/Json.antt =====
-- src/report.rs, lines 254-271: `escape_json`, against a reader of JSON strings.
use pprof_rs.Prelude.{
  ℕ, zero, suc, ◌+◌, ◌-◌, ◌*◌, ◌/◌, ◌%◌, ◌<◌, ◌≡◌, refl, ap, ◌∙◌, Option, none, some, ◌&&◌, ◌||◌,
  [], ◌∷◌, ◌++◌, ltb, leb, ltb→lt, if◌then◌else◌, ◌==◌, ==_iff, Bool-cases, inl, inr, arith,
}
use mathlib.Core.List.{append_assoc}
use pprof_rs.Frames.{Text}
use pprof_rs.Report.Speedscope.{hex_digit, unicode_escape, escape_char, escape_json}

-- Where the reader is: between characters, after a backslash, or in `\u` with some digits to come.
data Place : Type 0 where
  plain escape : Place
  hex : ℕ → ℕ → Place

data Action : Type 0 where
  stop fail : Action
  go : Place → Action
  emit : ℕ → Action

hex_value : ℕ → Option ℕ
hex_value c =
    if leb b'0' c && leb c b'9'
    then some (c - b'0')
    else if leb b'a' c && leb c b'f'
    then some (c - b'a' + 10)
    else if leb b'A' c && leb c b'F'
    then some (c - b'A' + 10)
    else none

-- One digit more; after the last the character is there.
abbrev hex_action : ℕ → ℕ → Option ℕ → Action
hex_action n v none = fail
hex_action zero v (some d) = emit (v * 16 + d)
hex_action (suc n) v (some d) = go (hex n (v * 16 + d))

next : Place → ℕ → Action
unfolding hex_value
next plain c =
    if c == b'"'
    then stop
    else if c == b'\\'
    then go escape
    else if ltb c 0x20
    then fail
    else emit c
next escape c =
    if c == b'"' || c == b'\\' || c == b'/'
    then emit c
    else if c == b'n'
    then emit b'\n'
    else if c == b'r'
    then emit b'\r'
    else if c == b't'
    then emit b'\t'
    else if c == b'b'
    then emit 8
    else if c == b'f'
    then emit 12
    else if c == b'u'
    then go (hex 3 0)
    else fail
next (hex n v) c = hex_action n v (hex_value c)

abbrev onto : ℕ → Option (Text × Text) → Option (Text × Text)
onto c none = none
onto c (some (s, rest)) = some (c ∷ s, rest)

-- The string up to its closing quote, and what follows the quote.
unfoldable read : Place → Text → Option (Text × Text)
unfolding next
read at [] = none
read at (c ∷ cs) = elim (next at c) [
  | stop ↦ some ([], cs)
  | fail ↦ none
  | go at' ↦ read at' cs
  | emit ch ↦ onto ch (read plain cs)
]

pub read_string : Text → Option (Text × Text)
read_string = read plain

hex_value-digit : (d : ℕ) → d < 16 → hex_value (hex_digit d) ≡ some d
unfolding hex_value
hex_value-digit d h = ground arith

read-go : (at at' : Place) (c : ℕ) (cs : Text) → next at c ≡ go at' → read at (c ∷ cs) ≡ read at' cs
unfolding read
read-go at at' c cs h = rw (h, read) refl

read-emit :
    (at : Place) (c ch : ℕ) (cs : Text)
    → next at c ≡ emit ch
    → read at (c ∷ cs) ≡ onto ch (read plain cs)
unfolding read
read-emit at c ch cs h = rw (h, read) refl

read-unicode :
    (c : ℕ) (t : Text) → c < 0x20 → read plain (unicode_escape c ++ t) ≡ onto c (read plain t)
unfolding read next
read-unicode c t h =
    let high : hex_value (hex_digit (c / 16)) ≡ some (c / 16) =
      hex_value-digit (c / 16) (omega arith) in
    let low : hex_value (hex_digit (c % 16)) ≡ some (c % 16) =
      hex_value-digit (c % 16) (omega arith) in
    let from_zero : 0 + c / 16 ≡ c / 16 = omega arith in
    let whole : c / 16 * 16 + c % 16 ≡ c = omega arith in
    read-go (hex 1 0) (hex 0 (c / 16)) (hex_digit (c / 16)) (hex_digit (c % 16) ∷ t)
      (ap (hex_action 1 0) high ∙ ap (λ v. go (hex 0 v)) from_zero)
    ∙ read-emit (hex 0 (c / 16)) (hex_digit (c % 16)) c t
        (ap (hex_action 0 (c / 16)) low ∙ ap emit whole)

read-escape_char : (c : ℕ) (t : Text) → read plain (escape_char c ++ t) ≡ onto c (read plain t)
unfolding read next escape_char
read-escape_char c t = elim (Bool-cases (c == 34)) [
  | inl same ↦ rw ((==_iff c 34).0 same) refl
  | inr a ↦ elim (Bool-cases (c == 92)) [
    | inl same ↦ rw ((==_iff c 92).0 same) refl
    | inr b ↦ elim (Bool-cases (c == 10)) [
      | inl same ↦ rw ((==_iff c 10).0 same) refl
      | inr d ↦ elim (Bool-cases (c == 13)) [
        | inl same ↦ rw ((==_iff c 13).0 same) refl
        | inr e ↦ elim (Bool-cases (c == 9)) [
          | inl same ↦ rw ((==_iff c 9).0 same) refl
          | inr f ↦ elim (Bool-cases (ltb c 0x20)) [
            | inl control ↦
                rw (a, b, d, e, f, control, escape_char) (read-unicode c t (ltb→lt c 0x20 control))
            | inr other ↦
                rw (a, b, d, e, f, other, escape_char)
                  (read-emit plain c c t (rw (a, b, other, next) refl))
          ]
        ]
      ]
    ]
  ]
]

-- A reader of JSON strings reads an escaped text as the text itself, stops at the quote that
-- follows it, and leaves the rest.
pub read_string-escape_json :
    (s rest : Text) → read_string (escape_json s ++ b'"' ∷ rest) ≡ some (s, rest)
unfolding read_string read escape_json
read_string-escape_json [] rest = refl
read_string-escape_json (c ∷ s) rest =
    ap read_string (append_assoc (escape_char c) (escape_json s) (b'"' ∷ rest))
    ∙ read-escape_char c _
    ∙ ap (onto c) (read_string-escape_json s rest)
