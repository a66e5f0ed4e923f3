-- ===== src/Pprof/Heap.antt =====
-- src/alloc.rs, lines 380-530: `HeapReport::pprof`.
pub mod Encoding
use pprof_rs.Prelude.{
  codes, ℕ, ◌%◌, Option, none, some, List, [], ◌∷◌, ◌++◌, Outcome, done, ◌>>=◌, Dict, word,
  max_zero,
}
use pprof_rs.Frames.{Text, Resolver}
use pprof_rs.Heap.Report.{HeapRecord, HeapReport}
use pprof_rs.Proto.{ValueType, Sample, Profile, default_profile}
use pprof_rs.Pprof.{
  HashSet, table_of, index_strings, stack_strings, value_type, Tables, no_tables, intern_frames,
}

abbrev pub alloc_objects_text : Text
alloc_objects_text = codes "alloc_objects"

abbrev pub alloc_space_text : Text
alloc_space_text = codes "alloc_space"

abbrev pub inuse_objects_text : Text
inuse_objects_text = codes "inuse_objects"

abbrev pub inuse_space_text : Text
inuse_space_text = codes "inuse_space"

abbrev pub count_text : Text
count_text = codes "count"

abbrev pub bytes_text : Text
bytes_text = codes "bytes"

abbrev pub space_text : Text
space_text = codes "space"

module _ {Frame : Type 0} (env : Resolver Frame) where
  -- The strings of the records
  unfoldable pub record_strings : List HeapRecord → List Text
  unfolding stack_strings
  record_strings [] = []
  record_strings (rec ∷ records) = stack_strings env rec.frames ++ record_strings records

  -- What is inserted into `dedup_str`
  abbrev pub heap_strings : HeapReport → List Text
  heap_strings h =
      record_strings h.records
      ++ alloc_objects_text ∷ alloc_space_text ∷ inuse_objects_text ∷ inuse_space_text ∷ count_text
        ∷ bytes_text ∷ space_text ∷ []

  abbrev pub values_of : HeapRecord → List ℕ
  values_of rec =
      rec.alloc_objects
      ∷ rec.alloc_bytes
      ∷ max_zero rec.inuse_objects
      ∷ max_zero rec.inuse_bytes
      ∷ []

  module _ (strings : Dict Text ℕ) where
    -- The body of the loop over the records
    unfoldable pub encode_record : Tables → HeapRecord → Outcome (Tables × Sample)
    unfolding intern_frames
    encode_record t rec = do
      (t', locs) ← intern_frames env strings t rec.frames.frames
      done (t', record { location_id = locs; value = values_of rec; label = [] })

    unfoldable pub encode_records : Tables → List HeapRecord → Outcome (Tables × List Sample)
    encode_records t [] = done (t, [])
    encode_records t (rec ∷ records) = do
      (t', sample) ← encode_record t rec
      (t'', rest) ← encode_records t' records
      done (t'', sample ∷ rest)

  -- The literal of the profile
  abbrev pub heap_profile_of :
      HeapReport → List Text → Tables → List Sample → List ValueType → ValueType → Profile
  heap_profile_of h str_tbl tables samples sample_types period_type = record default_profile {
    sample_type = sample_types;
    sample = samples;
    string_table = str_tbl;
    function = tables.fn_tbl;
    location = tables.loc_tbl;
    time_nanos = h.timestamp % word;
    period_type = some period_type;
    period = h.sample_rate;
  }

  module _ (set : HashSet) where
    -- `HeapReport::pprof`
    unfoldable pub heap_pprof : HeapReport → Outcome Profile
    unfolding index_strings encode_records value_type
    heap_pprof h = do
      let str_tbl = table_of set (heap_strings h)
      let strings = index_strings 0 str_tbl []
      (tables, samples) ← encode_records strings no_tables h.records
      alloc_objects ← value_type strings alloc_objects_text count_text
      alloc_space ← value_type strings alloc_space_text bytes_text
      inuse_objects ← value_type strings inuse_objects_text count_text
      inuse_space ← value_type strings inuse_space_text bytes_text
      period_type ← value_type strings space_text bytes_text
      done (
          heap_profile_of h str_tbl tables samples
            (alloc_objects ∷ alloc_space ∷ inuse_objects ∷ inuse_space ∷ []) period_type)
