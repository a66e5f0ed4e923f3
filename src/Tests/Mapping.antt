-- ===== src/Tests/Mapping.antt =====
-- The theorems on perf maps, run on a map of two pieces of code that overlap.
use pprof_rs.Prelude.{
  true, not, ◌&&◌, codes, word, ◌-◌, ◌≡◌, refl, false, none, some, List, [], ◌∷◌, All, ok, arith,
  if◌then◌else◌, ◌==◌,
}
use pprof_rs.Error.{IoResult}
use pprof_rs.Frames.{Text}
use pprof_rs.PerfMap.{
  PerfMap, new, find_symbol, find, read_lines, read_line, split_whitespace, pieces, from_str_radix,
  read_digits, to_digit, join, is_whitespace, resolve_in_perfmap, refresh,
}
use pprof_rs.PerfMap.Loading.{Entry, IsPlain, lines_of, Answers, new-Answers}
use pprof_rs.PerfMap.Refreshing.{
  Step, write, reload, look_up, run, in_use, unused, newest, first_look_up, run-refresh,
}

abbrev two_entries : List Entry
two_entries =
    record { start = 4096; len = 32; words = codes "py::main" ∷ codes "loop" ∷ [] }
    ∷ record { start = 4112; len = 256; words = codes "py::f" ∷ [] }
    ∷ []

two_entries-IsPlain : All IsPlain two_entries
unfolding is_whitespace
two_entries-IsPlain = ground arith

new-Answers_example :
    (m : PerfMap) × (new (lines_of two_entries) ≡ some m) × Answers 4120 two_entries (find m 4120)
new-Answers_example = new-Answers two_entries 4120 two_entries-IsPlain

-- A line that is blank spoils the whole map, and a sum that does not fit wraps.
spoilt_by_blank : new (ok (codes "1000 20 f") ∷ ok [] ∷ []) ≡ none
unfolding new read_lines read_line split_whitespace pieces is_whitespace from_str_radix read_digits
    to_digit
spoilt_by_blank = refl

wrapped :
    new (ok (codes "fffffffffffffff0 20 f g") ∷ [])
    ≡ some (record { ranges = record { start = word - 16; end = 16; name = codes "f g" } ∷ [] })
unfolding new read_lines read_line split_whitespace pieces is_whitespace from_str_radix read_digits
    to_digit join
wrapped = refl

first_look_up_example :
    ((resolve_in_perfmap true false 7 (unused (lines_of two_entries) 5 0) 4100).1
      ≡ (if true && not (0 == 5) then find_symbol (new (lines_of two_entries)) 4100 else none))
    × ((resolve_in_perfmap true false 7 (unused (lines_of two_entries) 5 0) 4100).0.file
        ≡ some (record { lines = []; modified = some 7 }))
first_look_up_example = first_look_up true 7 5 0 (lines_of two_entries) 4100

abbrev half_written : List (IoResult Text)
half_written = ok (codes "1000 20 f") ∷ ok (codes "10") ∷ []

abbrev completed : List Step
completed =
    write (some (record { lines = lines_of two_entries; modified = some 8 }))
    ∷ reload false 9
    ∷ look_up true false 9 4100
    ∷ []

run-refresh_example :
    (run completed (refresh false 8 (in_use half_written 8 7 none))).resolver
    ≡ some (if 7 == 8 then none else newest none (new half_written))
run-refresh_example = run-refresh completed false 8 8 7 half_written none (refl, (tt, (tt, tt)))
