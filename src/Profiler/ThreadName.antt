-- ===== src/Profiler/ThreadName.antt =====
-- src/profiler.rs, lines 274-323 and 463-473: the name of the interrupted thread, or the digits of
-- its number where the system has no name for it.
pub mod Digits
pub mod Fallback
use pprof_rs.Prelude.{
  ℕ, zero, suc, ◌+◌, ◌*◌, ◌/◌, ◌%◌, Bool, not, ◌&&◌, ◌||◌, Option, none, some, List, [], ◌∷◌,
  Outcome, done, panic, out_of_fuel, ◌>>=◌, ltb, ◌==◌, if◌then◌else◌, length, set, get_elem?,
  replicate,
}
use pprof_rs.Frames.{Text, max_thread_name}

-- The first loop of `write_thread_name_fallback`, from `base` and `len`; it ends with these two.
unfoldable pub widen : ℕ → ℕ → ℕ → ℕ → Outcome (ℕ × ℕ)
widen zero current_thread base len = out_of_fuel
widen (suc fuel) current_thread base len =
    let wider = widen fuel current_thread (base * 10) (len + 1) in
    if ltb base current_thread && ltb len max_thread_name then wider else done (base, len)

-- `name[index] = c`
unfoldable pub store : Text → ℕ → ℕ → Outcome Text
store name index c = if ltb index (length name) then done (set name index c) else panic

-- `try_into` for a `c_char`; a number that does not fit is logged, and a zero is written.
abbrev pub to_char : ℕ → ℕ
to_char c = if ltb c 128 then c else 0

-- The second loop
unfoldable pub write_digits : ℕ → ℕ → ℕ → ℕ → ℕ → Text → Outcome Text
write_digits zero current_thread base len index name = out_of_fuel
write_digits (suc fuel) current_thread base len index name =
    let rest = store name index (to_char (48 + current_thread / (base / 10) % 10)) >>= λ name'.
    write_digits fuel current_thread (base / 10) len (index + 1) name' in
    if ltb index len && ltb 1 base then rest else done name

-- `write_thread_name_fallback`. Each loop makes at most `max_thread_name` rounds.
unfoldable pub write_thread_name_fallback : ℕ → Text → Outcome Text
write_thread_name_fallback current_thread name = do
  (base, len) ← widen (suc max_thread_name) current_thread 1 0
  write_digits (suc max_thread_name) current_thread base len 0 name

-- `write_thread_name`, where `pthread_getname_np` returns `ret` and leaves `name` in the array.
unfoldable pub write_thread_name : ℕ → ℕ → Text → Outcome Text
write_thread_name current_thread ret name = elim name [
  | [] ↦ panic
  | c ∷ cs ↦
      if not (ret == 0) || (c == 0)
      then write_thread_name_fallback current_thread (c ∷ cs)
      else done (c ∷ cs)
]

-- `CStr::from_ptr` with `to_bytes`: the bytes before the first zero, of which there must be one.
unfoldable pub c_str : Text → Option Text
c_str [] = none
c_str (c ∷ cs) =
    let rest = c_str cs in
    if c == 0 then some [] else elim rest [ none ↦ none | some t ↦ some (c ∷ t) ]

-- The name that the handler samples with; none stands for a read past the array. The array is of
-- zeros before `pthread_getname_np` gets it.
unfoldable pub name_of_thread : ℕ → ℕ → Text → Outcome (Option Text)
name_of_thread current_thread ret given = do
  name ← write_thread_name current_thread ret given
  done (c_str name)
