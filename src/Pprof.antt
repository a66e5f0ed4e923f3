-- ===== src/Pprof.antt =====
-- src/report.rs, lines 433-555, and src/alloc.rs, lines 395-528: encoding a report in the pprof
-- format. Both encoders intern the strings and the functions in the same way; the order in which a
-- `HashSet` yields its strings is a parameter.
pub mod Strings
pub mod Functions
pub mod Interning
pub mod Cpu
pub mod Heap
use pprof_rs.Prelude.{
  ℕ, suc, ◌+◌, ◌%◌, ◌^◌, Bool, true, false, ◌||◌, Option, none, some, List, [], ◌∷◌, ◌++◌, Outcome,
  done, panic, ◌>>=◌, ◌≡◌, if◌then◌else◌, length, Dict, lookup, insert, list_equality, same_list,
}
use pprof_rs.Frames.{Text, Symbol, Frames, Resolver, thread_name_or_id}
use pprof_rs.Frames
use pprof_rs.Proto.{ValueType, Line, Location, Function}

abbrev pub contains : Text → List Text → Bool
contains t [] = false
contains t (u ∷ ts) = same_list t u || contains t ts

-- The strings that a `HashSet` yields: those that were inserted, in some order.
pub record HashSet : Type 0 where
  pub iterate : List Text → List Text
  pub keeps : (t : Text) (ts : List Text) → contains t ts ≡ contains t (iterate ts)

-- `str_tbl`: the empty string, and then the set.
abbrev pub table_of : HashSet → List Text → List Text
table_of set inserted = [] ∷ set.iterate inserted

-- The loop that fills `strings` from `str_tbl.iter().enumerate()`
unfoldable pub index_strings : ℕ → List Text → Dict Text ℕ → Dict Text ℕ
index_strings index [] strings = strings
index_strings index (name ∷ str_tbl) strings =
    index_strings (index + 1) str_tbl (insert name index strings)

-- `*strings.get(name).unwrap() as i64`
unfoldable pub string_index : Dict Text ℕ → Text → Outcome ℕ
string_index strings name = elim (lookup name strings) [ none ↦ panic | some index ↦ done index ]

-- The variables of the loop that interns functions.
pub record Tables : Type 0 where
  pub loc_tbl : List Location
  pub fn_tbl : List Function
  pub functions : Dict Text ℕ

abbrev pub no_tables : Tables
no_tables = record { loc_tbl = []; fn_tbl = []; functions = [] }

-- A `ValueType` of two strings of the table
unfoldable pub value_type : Dict Text ℕ → Text → Text → Outcome ValueType
unfolding string_index
value_type strings ty unit = do
  ty_index ← string_index strings ty
  unit_index ← string_index strings unit
  done (record { ty = ty_index; unit = unit_index })

module _ {Frame : Type 0} (env : Resolver Frame) where
  -- The strings of a stack, as they are inserted into `dedup_str`.
  unfoldable pub symbol_strings : List Symbol → List Text
  symbol_strings [] = []
  symbol_strings (s ∷ symbols) =
      Frames.name env s ∷ Frames.sys_name env s ∷ Frames.filename env s ∷ symbol_strings symbols

  unfoldable pub frames_strings : List (List Symbol) → List Text
  unfolding symbol_strings
  frames_strings [] = []
  frames_strings (symbols ∷ frames) = symbol_strings symbols ++ frames_strings frames

  unfoldable pub stack_strings : Frames → List Text
  unfolding frames_strings
  stack_strings f = thread_name_or_id env f ∷ frames_strings f.frames

  module _ (strings : Dict Text ℕ) where
    -- A function that is met for the first time, and its location. The wrap of a function's number
    -- at 2 ^ 64 is left out: a vector cannot get that long.
    unfoldable pub new_function : Tables → Symbol → Outcome (Tables × ℕ)
    unfolding string_index
    new_function t s = do
      let function_id = length t.fn_tbl + 1
      name_index ← string_index strings (Frames.name env s)
      sys_index ← string_index strings (Frames.sys_name env s)
      file_index ← string_index strings (Frames.filename env s)
      done (
        record {
          functions = insert (Frames.name env s) function_id t.functions;
          fn_tbl =
              t.fn_tbl
              ++ record {
                id = function_id;
                name = name_index;
                system_name = sys_index;
                filename = file_index;
                start_line = 0;
              }
                ∷ [];
          loc_tbl =
              t.loc_tbl
              ++ record {
                id = function_id;
                mapping_id = 0;
                address = 0;
                line = record { function_id = function_id; line = Frames.lineno s } ∷ [];
                is_folded = false;
              }
                ∷ [];
        },
        function_id,
      )

    -- The body of the loop over a frame's symbols: the location that is pushed.
    unfoldable pub intern_symbol : Tables → Symbol → Outcome (Tables × ℕ)
    intern_symbol t s = elim (lookup (Frames.name env s) t.functions) [
      | some loc_idx ↦ done (t, loc_idx)
      | none ↦ new_function t s
    ]

    unfoldable pub intern_symbols : Tables → List Symbol → Outcome (Tables × List ℕ)
    intern_symbols t [] = done (t, [])
    intern_symbols t (s ∷ symbols) = do
      (t', loc) ← intern_symbol t s
      (t'', locs) ← intern_symbols t' symbols
      done (t'', loc ∷ locs)

    unfoldable pub intern_frames : Tables → List (List Symbol) → Outcome (Tables × List ℕ)
    intern_frames t [] = done (t, [])
    intern_frames t (symbols ∷ frames) = do
      (t', locs) ← intern_symbols t symbols
      (t'', rest) ← intern_frames t' frames
      done (t'', locs ++ rest)
