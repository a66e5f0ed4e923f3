-- ===== src/Pprof/Cpu/Encoding.antt =====
-- src/report.rs, lines 433-555: what a reader of the profile finds in it.
use pprof_rs.Prelude.{
  ℕ, suc, ◌*◌, ◌/◌, ◌%◌, ◌<◌, ◌≡◌, refl, ap, ◌∙◌, true, Option, some, List, [], ◌∷◌, done, Returns,
  arith, Bool-cases, lt→ltb, inl, inr, get_elem?, map, Dict, word, half_word, ◌==◌,
}
use native.Mathlib.Nat.{mod-eq_of_lt, div-le_self}
use pprof_rs.Prelude.Int.{pos, ◌/ℤ◌}
use pprof_rs.Frames.{Text, Frames, Resolver, thread_name_or_id}
use pprof_rs.Collector.Bucket.{Entry}
use pprof_rs.Report.{HashMap}
use pprof_rs.Report.Builder.{Report}
use pprof_rs.Proto.{ValueType, Label, Sample, Profile}
use pprof_rs.Pprof.{
  HashSet, table_of, contains, index_strings, stack_strings, value_type, Tables, no_tables,
}
use pprof_rs.Pprof.Strings.{
  Indexes, index_strings-Indexes, InTable, InTable-table_of, string_index-finds,
}
use pprof_rs.Pprof.Functions.{location_name}
use pprof_rs.Pprof.Interning.{
  IsSound, no_tables-IsSound, Extends, Extends-map, InTable-append, intern_frames-Returns,
  stack_names, name_in,
}
use pprof_rs.Pprof.Cpu.{
  profile_of, signed, bits, div_i64, cpu_nanos, key_strings, inserted_strings, encode_entry,
  encode_entries, pprof, samples_text, count_text, cpu_text, nanoseconds_text, thread_text,
  missed_comment,
}

div_i64-positive : (a n : ℕ) → div_i64 a (pos (suc n)) ≡ done (bits (signed a /ℤ pos (suc n)))
unfolding div_i64
div_i64-positive a n = elim (Bool-cases (a == half_word)) [
  | inl same ↦ rw (same, div_i64) refl
  | inr other ↦ rw (other, div_i64) refl
]

abbrev sample_of : List ℕ → ℕ → ℕ → ℕ → ℕ → Sample
sample_of locs count nanos key str = record {
  location_id = locs;
  value = count ∷ nanos ∷ [];
  label = record { key = key; str = str; num = 0; num_unit = 0 } ∷ [];
}

div_exact : (a n : ℕ) → a < half_word → bits (signed a /ℤ pos (suc n)) ≡ a / suc n
unfolding ◌/ℤ◌
div_exact a n h = rw (lt→ltb a half_word h) (mod-eq_of_lt (omega (arith, div-le_self a (suc n))))

-- For a positive frequency, the time of a sample is its count times 10 ^ 9 over the frequency,
-- rounded down, if the product is below 2 ^ 63.
pub cpu_nanos_exact :
    (count n : ℕ)
    → count * 1_000_000_000 < half_word
    → cpu_nanos count (pos (suc n)) ≡ done (count * 1_000_000_000 / suc n)
unfolding cpu_nanos
cpu_nanos_exact count n h =
    let product = count * 1_000_000_000 in
    let small : product % word ≡ product = mod-eq_of_lt (omega arith) in
    rw small (div_i64-positive product n ∙ ap done (div_exact product n h))

-- A sample as a reader of a profile sees it: its stack, its labels, and its first value.
pub record Reading : Type 0 where
  pub stack : List (Option Text)
  pub labels : List (Option Text × Option Text)
  pub count : Option ℕ

module _ (table : List Text) (names : ℕ → Option Text) where
  abbrev pub read_label : Label → Option Text × Option Text
  read_label l = (get_elem? table l.key, get_elem? table l.str)

  abbrev pub read_with : Sample → Reading
  read_with s = record {
    stack = map names s.location_id;
    labels = map read_label s.label;
    count = get_elem? s.value 0;
  }

abbrev pub read_sample : Profile → Sample → Reading
read_sample p = read_with p.string_table (location_name p.string_table p.function p.location)

module _ {Frame : Type 0} (env : Resolver Frame) where
  -- An entry of the report, as a reader should see it.
  abbrev pub reading_of : Entry Frames → Reading
  reading_of e = record {
    stack = map some (stack_names env e.item.frames);
    labels = (some thread_text, some (thread_name_or_id env e.item)) ∷ [];
    count = some e.count;
  }

  module _ (table : List Text) (strings : Dict Text ℕ) (ix : Indexes strings table) (n : ℕ)
      (has_thread : contains thread_text table ≡ true) where
    -- The tables have grown, and the samples read as the entries.
    record Encoded (t : Tables) (rs : List Reading) (r : Tables × List Sample) : Type 0 where
      sound : IsSound table r.0
      extends : Extends table t r.0
      reads :
          (t' : Tables) → Extends table r.0 t' → map (read_with table (name_in table t')) r.1 ≡ rs

    encode_entry-Returns :
        (t : Tables) (e : Entry Frames)
        → IsSound table t
        → InTable table (stack_strings env e.item)
        → Returns
            (encode_entry env strings (pos (suc n)) t e)
            (λ r. Encoded t (reading_of e ∷ []) (r.0, r.1 ∷ []))
    unfolding encode_entry stack_strings cpu_nanos
    encode_entry-Returns t e sound (has_name, has_stack) =
        let ((t', locs), run, p) =
          intern_frames-Returns env table strings ix t e.item.frames sound has_stack in
        let (key, found_key, at_key) = string_index-finds strings table thread_text ix has_thread in
        let (str, found_str, at_str) =
          string_index-finds strings table (thread_name_or_id env e.item) ix has_name in
        let product = e.count * 1_000_000_000 % word in
        let nanos = bits (signed product /ℤ pos (suc n)) in
        (
          (t', sample_of locs e.count nanos key str),
          rw (run, found_key, found_str, div_i64-positive product n) refl,
          record {
            sound = p.sound;
            extends = p.extends;
            reads = λ t'' x. rw (Extends-map table t' t'' locs _ x p.spelled, at_key, at_str) refl;
          },
        )

    encode_entries-Returns :
        (t : Tables) (m : HashMap Frames)
        → IsSound table t
        → InTable table (key_strings env m)
        → Returns (encode_entries env strings (pos (suc n)) t m) (Encoded t (map reading_of m))
    unfolding encode_entries key_strings
    encode_entries-Returns t [] sound h =
        (_, refl, record { sound = sound; extends = λ i u e. e; reads = λ t' x. refl })
    encode_entries-Returns t (e ∷ m) sound h =
        let (ours, others) = InTable-append table (stack_strings env e.item) _ h in
        let ((t', sample), run, p) = encode_entry-Returns t e sound ours in
        let ((t'', rest), run', p') = encode_entries-Returns t' m p.sound others in
        (
          (t'', sample ∷ rest),
          rw (run, run') refl,
          record {
            sound = p'.sound;
            extends = λ i u x. p'.extends i u (p.extends i u x);
            reads = λ last x.
                let first = p.reads last (λ i u y. x i u (p'.extends i u y)) in
                let others_read = p'.reads last x in cc;
          },
        )

abbrev pub read_type : List Text → ValueType → Option Text × Option Text
read_type table v = (get_elem? table v.ty, get_elem? table v.unit)

abbrev pub both : Text → Text → Option Text × Option Text
both ty unit = (some ty, some unit)

-- A pair of strings of the table is encoded as their indices.
pub value_type-Returns :
    (table : List Text) (strings : Dict Text ℕ) (ty unit : Text)
    → Indexes strings table
    → contains ty table ≡ true
    → contains unit table ≡ true
    → Returns (value_type strings ty unit) (λ v. read_type table v ≡ both ty unit)
unfolding value_type
value_type-Returns table strings ty unit ix a b =
    let (i, found, at) = string_index-finds strings table ty ix a in
    let (j, found', at') = string_index-finds strings table unit ix b in
    (record { ty = i; unit = j }, rw (found, found') refl, rw (at, at') refl)

module _ {Frame : Type 0} (env : Resolver Frame) (set : HashSet) where
  -- What a reader finds in the profile of a report.
  pub record Decodes (r : Report Frames) (n : ℕ) (p : Profile) : Type 0 where
    pub samples_read : map (read_sample p) p.sample ≡ map (reading_of env) r.counts
    pub first_string : get_elem? p.string_table 0 ≡ some []
    pub types_read :
        map (read_type p.string_table) p.sample_type
        ≡ both samples_text count_text ∷ both cpu_text nanoseconds_text ∷ []
    pub comment_read :
        map (get_elem? p.string_table) p.comment ≡ some (missed_comment env r.missed_samples) ∷ []
    pub period_exact : p.period ≡ 1_000_000_000 / suc n

  -- For a positive frequency and any order of the set of strings, `pprof` does not panic. The
  -- samples of the profile, read through its tables, are the entries of the report in order: the
  -- names of the stack, the label with the thread, and the count. The first string is empty, the
  -- types and the comment are read as they were meant, and the period is 10 ^ 9 over the
  -- frequency, rounded down.
  pub pprof-Decodes :
      (r : Report Frames) (n : ℕ)
      → r.timing.frequency ≡ pos (suc n)
      → Returns (pprof env set r) (Decodes r n)
  unfolding pprof
  pprof-Decodes r n positive =
      let table = table_of set (inserted_strings env r) in
      let strings = index_strings 0 table [] in
      let ix = index_strings-Indexes table in
      let all_there =
        InTable-table_of set (inserted_strings env r) (inserted_strings env r) (λ t h. h) in
      let (keys, (a, (b, (c, (d, (e, (f, _))))))) =
        InTable-append table (key_strings env r.counts) _ all_there in
      let ((tables, samples), run, encoded) =
        encode_entries-Returns env table strings ix n e no_tables r.counts (no_tables-IsSound table)
          keys in
      let (samples_value, run_samples, reads_samples) =
        value_type-Returns table strings samples_text count_text ix a b in
      let (time_value, run_time, reads_time) =
        value_type-Returns table strings cpu_text nanoseconds_text ix c d in
      let (missed, found_missed, at_missed) =
        string_index-finds strings table (missed_comment env r.missed_samples) ix f in
      let period = div_i64-positive 1_000_000_000 n in
      (
        profile_of env r table tables samples samples_value time_value missed
            (bits (signed 1_000_000_000 /ℤ pos (suc n))),
        rw (positive, run, run_samples, run_time, found_missed) refl,
        record {
          samples_read = encoded.reads tables (λ i u x. x);
          first_string = refl;
          types_read = rw (reads_samples, reads_time) refl;
          comment_read = rw at_missed refl;
          period_exact = div_exact 1_000_000_000 n (omega arith);
        },
      )
