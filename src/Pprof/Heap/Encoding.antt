-- ===== src/Pprof/Heap/Encoding.antt =====
-- src/alloc.rs, lines 396-528: what a reader of a heap profile finds in it.
use pprof_rs.Prelude.{
  ℕ, ◌≡◌, refl, Option, some, List, [], ◌∷◌, Returns, get_elem?, map, Dict, half_word, leb, word,
  ◌%◌, if◌then◌else◌, max_zero, arith,
}
use pprof_rs.Frames.{Text, Resolver}
use pprof_rs.Heap.Report.{HeapRecord, HeapReport}
use pprof_rs.Proto.{Sample, Profile}
use pprof_rs.Pprof.{HashSet, table_of, index_strings, stack_strings, Tables, no_tables}
use pprof_rs.Pprof.Strings.{Indexes, index_strings-Indexes, InTable, InTable-table_of}
use pprof_rs.Pprof.Functions.{location_name}
use pprof_rs.Pprof.Interning.{
  IsSound, no_tables-IsSound, Extends, Extends-map, InTable-append, intern_frames-Returns,
  stack_names, name_in,
}
use pprof_rs.Pprof.Cpu.Encoding.{read_type, both, value_type-Returns}
use pprof_rs.Pprof.Heap.{
  alloc_objects_text, alloc_space_text, inuse_objects_text, inuse_space_text, count_text,
  bytes_text, space_text, record_strings, heap_strings, values_of, encode_record, encode_records,
  heap_profile_of, heap_pprof,
}

-- A sample as a reader sees it: the names of its stack, and its values.
pub record Reading : Type 0 where
  pub stack : List (Option Text)
  pub values : List ℕ

abbrev read_with : (ℕ → Option Text) → Sample → Reading
read_with names s = record { stack = map names s.location_id; values = s.value }

abbrev pub read_sample : Profile → Sample → Reading
read_sample p = read_with (location_name p.string_table p.function p.location)

-- A number in two's complement, or 0 in place of a negative one.
abbrev at_least_zero : ℕ → ℕ
at_least_zero a = if leb half_word (a % word) then 0 else a

max_zero_lem : (a : ℕ) → max_zero a ≡ at_least_zero a
max_zero_lem a = ground arith

-- The number and the bytes that were allocated, and the number and the bytes in use, where
-- negative numbers are written as 0.
abbrev expected_values : HeapRecord → List ℕ
expected_values rec =
    rec.alloc_objects
    ∷ rec.alloc_bytes
    ∷ at_least_zero rec.inuse_objects
    ∷ at_least_zero rec.inuse_bytes
    ∷ []

module _ {Frame : Type 0} (env : Resolver Frame) where
  -- A record, as a reader should see it.
  abbrev pub reading_of : HeapRecord → Reading
  reading_of rec = record {
    stack = map some (stack_names env rec.frames.frames);
    values = expected_values rec;
  }

  expected_values_lem : (rec : HeapRecord) → values_of env rec ≡ expected_values rec
  expected_values_lem rec = rw (max_zero_lem rec.inuse_objects, max_zero_lem rec.inuse_bytes) refl

  module _ (table : List Text) (strings : Dict Text ℕ) (ix : Indexes strings table) where
    -- The tables have grown, and the samples read as the records.
    record Encoded (t : Tables) (rs : List Reading) (r : Tables × List Sample) : Type 0 where
      sound : IsSound table r.0
      extends : Extends table t r.0
      reads : (t' : Tables) → Extends table r.0 t' → map (read_with (name_in table t')) r.1 ≡ rs

    encode_records-Returns :
        (t : Tables) (records : List HeapRecord)
        → IsSound table t
        → InTable table (record_strings env records)
        → Returns (encode_records env strings t records) (Encoded t (map reading_of records))
    unfolding encode_records encode_record record_strings stack_strings
    encode_records-Returns t [] sound h =
        ((t, []), refl, record { sound = sound; extends = λ i u e. e; reads = λ t' x. refl })
    encode_records-Returns t (rec ∷ records) sound h =
        let (ours, others) = InTable-append table (stack_strings env rec.frames) _ h in
        let ((t', locs), run, p) =
          intern_frames-Returns env table strings ix t rec.frames.frames sound ours.1 in
        let ((t'', rest), run', p') = encode_records-Returns t' records p.sound others in
        let sample : Sample = record {
          location_id = locs;
          value = values_of env rec;
          label = [];
        } in
        (
          (t'', sample ∷ rest),
          rw (run, run') refl,
          record {
            sound = p'.sound;
            extends = λ i u x. p'.extends i u (p.extends i u x);
            reads = λ last x.
                let first =
                  Extends-map table t' last locs _ (λ i u y. x i u (p'.extends i u y)) p.spelled in
                let others_read = p'.reads last x in let values = expected_values_lem rec in cc;
          },
        )

module _ {Frame : Type 0} (env : Resolver Frame) (set : HashSet) where
  -- What a reader finds in the profile of a heap report.
  pub record Decodes (h : HeapReport) (p : Profile) : Type 0 where
    pub samples_read : map (read_sample p) p.sample ≡ map (reading_of env) h.records
    pub first_string : get_elem? p.string_table 0 ≡ some []
    pub types_read :
        map (read_type p.string_table) p.sample_type
        ≡ both alloc_objects_text count_text
          ∷ both alloc_space_text bytes_text
          ∷ both inuse_objects_text count_text
          ∷ both inuse_space_text bytes_text
          ∷ []
    pub period_rate : p.period ≡ h.sample_rate

  -- For any order of the set of strings, the encoder of a heap report does not panic. The samples
  -- of the profile, read through its tables, are the records of the report in order, with the
  -- number and the bytes that were allocated and the number and the bytes in use, of which
  -- negative ones are written as 0; the first string is empty, the types are read as they were
  -- meant, and the period is the sample rate.
  pub heap_pprof-Decodes : (h : HeapReport) → Returns (heap_pprof env set h) (Decodes h)
  unfolding heap_pprof
  heap_pprof-Decodes h =
      let table = table_of set (heap_strings env h) in
      let strings = index_strings 0 table [] in
      let ix = index_strings-Indexes table in
      let all_there = InTable-table_of set (heap_strings env h) (heap_strings env h) (λ t h. h) in
      let (stacks, (a, (b, (c, (d, (e, (f, (g, _)))))))) =
        InTable-append table (record_strings env h.records) _ all_there in
      let ((tables, samples), run, encoded) =
        encode_records-Returns env table strings ix no_tables h.records (no_tables-IsSound table)
          stacks in
      let (v1, run1, read1) =
        value_type-Returns table strings alloc_objects_text count_text ix a e in
      let (v2, run2, read2) = value_type-Returns table strings alloc_space_text bytes_text ix b f in
      let (v3, run3, read3) =
        value_type-Returns table strings inuse_objects_text count_text ix c e in
      let (v4, run4, read4) = value_type-Returns table strings inuse_space_text bytes_text ix d f in
      let (v5, run5, read5) = value_type-Returns table strings space_text bytes_text ix g f in
      (
        heap_profile_of env h table tables samples (v1 ∷ v2 ∷ v3 ∷ v4 ∷ []) v5,
        rw (run, run1, run2, run3, run4, run5) refl,
        record {
          samples_read = encoded.reads tables (λ i u x. x);
          first_string = refl;
          types_read = rw (read1, read2, read3, read4) refl;
          period_rate = refl;
        },
      )
