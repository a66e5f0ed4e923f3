-- ===== src/PerfMap/Loading.antt =====
-- `PerfMap::new` and `PerfMap::find` of src/perfmap.rs: a perf map that is written in its format
-- answers for an address with the first entry that covers it.
use pprof_rs.Prelude.{
  ℕ, ◌+◌, ◌≤◌, ◌<◌, ◌≡◌, refl, ◌&&◌, ◌⊎◌, Option, none, some, List, [], ◌∷◌, ◌++◌, map, ok, ltb,
  leb, All, arith, word, add64, Bool-cases, inl, inr,
}
use pprof_rs.Error.{IoResult}
use pprof_rs.Frames.{Text}
use pprof_rs.PerfMap.{Range, PerfMap, join, read_line, read_lines, new, find_in, find}
use pprof_rs.PerfMap.Words.{IsWord, split-append, split-join}
use pprof_rs.PerfMap.Hex.{hex, hex-IsWord, from_str_radix-hex}

-- A piece of code, with the words of its name.
pub record Entry : Type 0 where
  pub start : ℕ
  pub len : ℕ
  pub words : List Text

-- `<start addr> <len addr> <name>`
abbrev pub line_of : Entry → Text
line_of e = hex e.start ++ 32 ∷ (hex e.len ++ 32 ∷ join e.words)

abbrev pub lines_of : List Entry → List (IoResult Text)
lines_of es = map (λ e. ok (line_of e)) es

-- The code lies in the address space, and its name is made of words.
abbrev pub IsPlain : Entry → Type 0
IsPlain e = (e.start + e.len < word) × All IsWord e.words

abbrev pub Covers : ℕ → Entry → Type 0
Covers addr e = (e.start ≤ addr) × (addr < e.start + e.len)

abbrev pub Misses : ℕ → Entry → Type 0
Misses addr e = (addr < e.start) ⊎ (e.start + e.len ≤ addr)

-- The name of the first entry that covers the address, if there is one.
pub data Answers (addr : ℕ) : List Entry → Option Text → Type 0 where
  nowhere : {es : List Entry} → All (Misses addr) es → Answers addr es none
  first :
      (before : List Entry) (e : Entry) (after : List Entry)
      → All (Misses addr) before
      → Covers addr e
      → Answers addr (before ++ e ∷ after) (some (join e.words))

abbrev range_of : Entry → Range
range_of e = record { start = e.start; end = e.start + e.len; name = join e.words }

no_wrap : (a b : ℕ) → a + b < word → add64 a b ≡ a + b
no_wrap a b h = omega arith

read_line-line_of : (e : Entry) → IsPlain e → read_line (ok (line_of e)) ≡ some (range_of e)
unfolding read_line
read_line-line_of e h =
    rw
      (
        split-append (hex e.start) (hex e.len ++ 32 ∷ join e.words) (hex-IsWord e.start),
        split-append (hex e.len) (join e.words) (hex-IsWord e.len),
        split-join e.words h.1,
        from_str_radix-hex e.start (omega (arith, h.0)),
        from_str_radix-hex e.len (omega (arith, h.0)),
        no_wrap e.start e.len h.0,
      )
      refl

read_lines-lines_of :
    (es : List Entry) → All IsPlain es → read_lines (lines_of es) ≡ some (map range_of es)
unfolding read_lines
read_lines-lines_of [] h = refl
read_lines-lines_of (e ∷ es) h = rw (read_line-line_of e h.0, read_lines-lines_of es h.1) refl

further :
    (addr : ℕ) (e : Entry) (es : List Entry) (o : Option Text)
    → Misses addr e
    → Answers addr es o
    → Answers addr (e ∷ es) o
further addr e es none out (nowhere all) = nowhere (out, all)
further addr e es o out (first before e' after all covers) =
    first (e ∷ before) e' after (out, all) covers

find_in-Answers : (addr : ℕ) (es : List Entry) → Answers addr es (find_in (map range_of es) addr)
unfolding find_in
find_in-Answers addr [] = nowhere tt
find_in-Answers addr (e ∷ es) = elim (Bool-cases (leb e.start addr && ltb addr (e.start + e.len))) [
  | inl inside ↦ rw inside (first [] e es tt (ground arith))
  | inr outside ↦ rw outside (further addr e es _ (ground arith) (find_in-Answers addr es))
]

-- A perf map of entries that lie in the address space, with names made of words, is loaded from
-- its lines. For any address, `find` then gives the name of the first entry that covers it, and
-- nothing if there is none.
pub new-Answers :
    (es : List Entry) (addr : ℕ)
    → All IsPlain es
    → (m : PerfMap) × (new (lines_of es) ≡ some m) × Answers addr es (find m addr)
unfolding new find
new-Answers es addr h = (
  record { ranges = map range_of es },
  rw (read_lines-lines_of es h) refl,
  find_in-Answers addr es,
)
