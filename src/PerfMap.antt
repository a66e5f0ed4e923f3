-- ===== src/PerfMap.antt =====
-- src/perfmap.rs, and `resolve_in_perfmap` of src/frames.rs: symbols of code that is made at run
-- time, from the file /tmp/perf-<pid>.map. A `String` is the list of its characters' code points.
pub mod Words
pub mod Hex
pub mod Loading
pub mod Refreshing
use pprof_rs.Prelude.{
  ℕ, ◌+◌, ◌-◌, ◌*◌, ◌/◌, ◌%◌, Bool, true, false, ◌&&◌, ◌||◌, Option, none, some, List, [], ◌∷◌,
  ◌++◌, Result, ok, err, ltb, leb, ◌==◌, if◌then◌else◌, word, add64,
}
use pprof_rs.Prelude.Options.{◌>>=◌}
use pprof_rs.Error.{Error, creating_error, IoResult}
use pprof_rs.Frames.{Text, Symbol}

-- `Result::ok`
abbrev pub succeeded {ℓ κ} : {E : Type ℓ} {A : Type κ} → Result E A → Option A
succeeded (ok a) = some a
succeeded (err e) = none

-- `char::is_whitespace`
unfoldable pub is_whitespace : ℕ → Bool
is_whitespace c =
    (leb 9 c && leb c 13)
    || (c == 32)
    || (c == 133)
    || (c == 160)
    || (c == 5760)
    || (leb 8192 c && leb c 8202)
    || (c == 8232)
    || (c == 8233)
    || (c == 8239)
    || (c == 8287)
    || (c == 12288)

abbrev pub onto_first : ℕ → List Text → List Text
onto_first c [] = []
onto_first c (t ∷ ts) = (c ∷ t) ∷ ts

-- The pieces between white space, empty ones as well.
unfoldable pub pieces : Text → List Text
pieces [] = [] ∷ []
pieces (c ∷ cs) = if is_whitespace c then [] ∷ pieces cs else onto_first c (pieces cs)

abbrev pub drop_empty : List Text → List Text
drop_empty [] = []
drop_empty ([] ∷ ts) = drop_empty ts
drop_empty ((c ∷ cs) ∷ ts) = (c ∷ cs) ∷ drop_empty ts

-- `str::split_whitespace`
unfoldable pub split_whitespace : Text → List Text
split_whitespace t = drop_empty (pieces t)

-- `char::to_digit(16)`
unfoldable pub to_digit : ℕ → Option ℕ
to_digit c =
    if leb 48 c && leb c 57
    then some (c - 48)
    else if leb 97 c && leb c 102
    then some (c - 87)
    else if leb 65 c && leb c 70
    then some (c - 55)
    else none

-- The value of the digits, after those that come to `n`, if it fits into a word.
unfoldable pub read_digits : ℕ → Text → Option ℕ
read_digits n [] = some n
read_digits n (c ∷ cs) =
    to_digit c >>= λ d. if leb word (n * 16 + d) then none else read_digits (n * 16 + d) cs

-- `usize::from_str_radix(src, 16).ok()`: a sign `+` is allowed if digits follow.
unfoldable pub from_str_radix : Text → Option ℕ
from_str_radix [] = none
from_str_radix (c ∷ []) = if c == 43 then none else read_digits 0 (c ∷ [])
from_str_radix (c ∷ d ∷ cs) = if c == 43 then read_digits 0 (d ∷ cs) else read_digits 0 (c ∷ d ∷ cs)

-- `[String]::join(" ")`
unfoldable pub join : List Text → Text
join [] = []
join (t ∷ []) = t
join (t ∷ u ∷ ts) = t ++ 32 ∷ join (u ∷ ts)

pub record Range : Type 0 where
  pub start : ℕ
  pub end : ℕ
  pub name : Text

pub record PerfMap : Type 0 where
  pub ranges : List Range

-- `Iterator::next`
abbrev pub next {ℓ} : {A : Type ℓ} → List A → Option (A × List A)
next [] = none
next (a ∷ rest) = some (a, rest)

-- The body of the loop of `PerfMap::new`. The sum wraps, as in a release build.
unfoldable pub read_line : IoResult Text → Option Range
read_line result = do
  line ← succeeded result
  first ← next (split_whitespace line)
  start ← from_str_radix first.0
  second ← next first.1
  len ← from_str_radix second.0
  some (record { start = start; end = add64 start len; name = join second.1 })

-- The loop
unfoldable pub read_lines : List (IoResult Text) → Option (List Range)
read_lines [] = some []
read_lines (line ∷ lines) = do
  range ← read_line line
  ranges ← read_lines lines
  some (range ∷ ranges)

-- `PerfMap::new`, on what `reader.lines()` yields
unfoldable pub new : List (IoResult Text) → Option PerfMap
new lines = read_lines lines >>= λ ranges. some (record { ranges = ranges })

unfoldable pub find_in : List Range → ℕ → Option Text
find_in [] addr = none
find_in (r ∷ rs) addr = if leb r.start addr && ltb addr r.end then some r.name else find_in rs addr

-- `PerfMap::find`; a `PerfMapSymbol` is its name.
unfoldable pub find : PerfMap → ℕ → Option Text
find self addr = find_in self.ranges addr

-- `char::encode_utf8`
unfoldable pub encode_utf8 : ℕ → Text
encode_utf8 c =
    if ltb c 128
    then c ∷ []
    else if ltb c 2048
    then (192 + c / 64) ∷ (128 + c % 64) ∷ []
    else if ltb c 65536
    then (224 + c / 4096) ∷ (128 + c / 64 % 64) ∷ (128 + c % 64) ∷ []
    else (240 + c / 262144) ∷ (128 + c / 4096 % 64) ∷ (128 + c / 64 % 64) ∷ (128 + c % 64) ∷ []

-- `String::into_bytes`
unfoldable pub into_bytes : Text → Text
into_bytes [] = []
into_bytes (c ∷ cs) = encode_utf8 c ++ into_bytes cs

-- `Symbol::from`
unfoldable pub symbol : Text → Symbol
symbol value = record {
  name = some (into_bytes value);
  addr = none;
  lineno = none;
  filename = none;
}

-- A file at the path: what reading it yields, and the seconds of its last modification, if the
-- system tells them.
pub record PerfFile : Type 0 where
  pub lines : List (IoResult Text)
  pub modified : Option ℕ

-- The file, the static `MTIME`, and the static `RESOLVER`, which is `none` until it is first used.
pub record Statics : Type 0 where
  pub file : Option PerfFile
  pub mtime : ℕ
  pub resolver : Option (Option PerfMap)

-- `touch`, at the second `now`. The system may refuse to open the path.
unfoldable pub touch : Bool → ℕ → Statics → Statics × Result {0, 0} Error Unit
touch refused now s =
    if refused
    then (s, err creating_error)
    else (record s { file = some (record { lines = []; modified = some now }) }, ok tt)

abbrev pub load_unless_seen : Statics → PerfFile → Option ℕ → Statics × Option PerfMap
load_unless_seen s f none = (s, none)
load_unless_seen s f (some secs) =
    if s.mtime == secs then (s, none) else (record s { mtime = secs }, new f.lines)

-- `init_resolver`
unfoldable pub init_resolver : Statics → Statics × Option PerfMap
init_resolver s = elim s.file [ none ↦ (s, none) | some f ↦ load_unless_seen s f f.modified ]

abbrev pub resolved : Statics → Option PerfMap → Statics
resolved s m = record s { resolver = some m }

abbrev pub force_on : Bool → ℕ → Statics → Option (Option PerfMap) → Statics × Option PerfMap
force_on refused now s none =
    let (s', loaded) = init_resolver (touch refused now s).0 in (resolved s' loaded, loaded)
force_on refused now s (some resolver) = (s, resolver)

-- `Lazy`: the first use of `RESOLVER` runs its initialiser, and the others find its value.
unfoldable pub force : Bool → ℕ → Statics → Statics × Option PerfMap
force refused now s = force_on refused now s s.resolver

abbrev pub store : Bool → ℕ → Statics → Option PerfMap → Statics
store refused now s none = s
store refused now s (some m) = resolved (force refused now s).0 (some m)

-- The thread that `get_resolver` spawns
unfoldable pub refresh : Bool → ℕ → Statics → Statics
refresh refused now s = let (s', perf_map) = init_resolver s in store refused now s' perf_map

-- `get_resolver`. The thread that it spawns may be `early` and run before the load of `RESOLVER`;
-- if not, it is a step of its own, at some later time.
unfoldable pub get_resolver : Bool → Bool → ℕ → Statics → Statics × Option PerfMap
get_resolver early refused now s = force refused now (if early then refresh refused now s else s)

abbrev pub find_symbol : Option PerfMap → ℕ → Option Symbol
find_symbol none ip = none
find_symbol (some m) ip = find m ip >>= λ name. some (symbol name)

-- `resolve_in_perfmap`, with the feature `perfmaps`
unfoldable pub resolve_in_perfmap : Bool → Bool → ℕ → Statics → ℕ → Statics × Option Symbol
resolve_in_perfmap early refused now s ip =
    let (s', resolver) = get_resolver early refused now s in (s', find_symbol resolver ip)
