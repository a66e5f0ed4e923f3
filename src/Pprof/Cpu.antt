-- ===== src/Pprof/Cpu.antt =====
-- src/report.rs, lines 421-555: `Report::pprof`. Times are numbers of nanoseconds since the epoch.
pub mod Encoding
use pprof_rs.Prelude.{
  codes, ℕ, zero, suc, ◌+◌, ◌-◌, ◌*◌, ◌%◌, ◌^◌, Bool, true, false, ◌&&◌, Option, none, some, List,
  [], ◌∷◌, ◌++◌, Outcome, done, panic, ◌>>=◌, if◌then◌else◌, Dict, word, half_word, ltb, ◌==◌,
}
use pprof_rs.Prelude.Int.{ℤ, pos, negsuc, ◌/ℤ◌}
use pprof_rs.Timer.{is_zero}
use pprof_rs.Frames.{Text, Frames, Resolver, thread_name_or_id}
use pprof_rs.Collector.Bucket.{Entry}
use pprof_rs.Report.{HashMap}
use pprof_rs.Report.Builder.{Report}
use pprof_rs.Proto.{ValueType, Label, Sample, Profile, default_profile}
use pprof_rs.Pprof.{
  HashSet, table_of, index_strings, string_index, stack_strings, value_type, Tables, no_tables,
  intern_frames,
}

abbrev pub samples_text : Text
samples_text = codes "samples"

abbrev pub count_text : Text
count_text = codes "count"

abbrev pub cpu_text : Text
cpu_text = codes "cpu"

abbrev pub nanoseconds_text : Text
nanoseconds_text = codes "nanoseconds"

abbrev pub thread_text : Text
thread_text = codes "thread"

abbrev pub missed_prefix : Text
missed_prefix = codes "missed samples due to lock contention: "

-- An `i64` as an integer, and back.
abbrev pub signed : ℕ → ℤ
signed a = if ltb a half_word then pos a else negsuc (word - a - 1)

abbrev pub bits : ℤ → ℕ
bits (pos a) = a % word
bits (negsuc a) = word - 1 - a % word

abbrev pub is_minus_one : ℤ → Bool
is_minus_one (pos a) = false
is_minus_one (negsuc zero) = true
is_minus_one (negsuc (suc a)) = false

-- `a / b` of an `i64`: it panics for zero, and where the quotient overflows.
unfoldable pub div_i64 : ℕ → ℤ → Outcome ℕ
div_i64 a b =
    if is_zero b
    then panic
    else if (a == half_word) && is_minus_one b
    then panic
    else done (bits (signed a /ℤ b))

-- `*count as i64 * 1_000_000_000 / self.timing.frequency as i64`; the product wraps.
unfoldable pub cpu_nanos : ℕ → ℤ → Outcome ℕ
unfolding div_i64
cpu_nanos count frequency = div_i64 (count * 1_000_000_000 % word) frequency

module _ {Frame : Type 0} (env : Resolver Frame) where
  -- The strings of the keys
  unfoldable pub key_strings : HashMap Frames → List Text
  unfolding stack_strings
  key_strings [] = []
  key_strings (e ∷ m) = stack_strings env e.item ++ key_strings m

  abbrev pub missed_comment : ℕ → Text
  missed_comment missed_samples = missed_prefix ++ env.show_number missed_samples

  -- What is inserted into `dedup_str`
  abbrev pub inserted_strings : Report Frames → List Text
  inserted_strings r =
      key_strings r.counts
      ++ samples_text
        ∷ count_text
        ∷ cpu_text
        ∷ nanoseconds_text
        ∷ thread_text
        ∷ missed_comment r.missed_samples
        ∷ []

  module _ (strings : Dict Text ℕ) (frequency : ℤ) where
    -- The body of the loop over the report's entries
    unfoldable pub encode_entry : Tables → Entry Frames → Outcome (Tables × Sample)
    unfolding intern_frames string_index cpu_nanos
    encode_entry t e = do
      (t', locs) ← intern_frames env strings t e.item.frames
      key ← string_index strings thread_text
      str ← string_index strings (thread_name_or_id env e.item)
      nanos ← cpu_nanos e.count frequency
      done (
        t',
        record {
          location_id = locs;
          value = e.count ∷ nanos ∷ [];
          label = record { key = key; str = str; num = 0; num_unit = 0 } ∷ [];
        },
      )

    unfoldable pub encode_entries : Tables → HashMap Frames → Outcome (Tables × List Sample)
    encode_entries t [] = done (t, [])
    encode_entries t (e ∷ m) = do
      (t', sample) ← encode_entry t e
      (t'', rest) ← encode_entries t' m
      done (t'', sample ∷ rest)

  -- The literal of the profile
  abbrev pub profile_of :
      Report Frames → List Text → Tables → List Sample → ValueType → ValueType → ℕ → ℕ → Profile
  profile_of r str_tbl tables samples samples_value time_value missed_comment_idx period =
      record default_profile {
        sample_type = samples_value ∷ time_value ∷ [];
        sample = samples;
        string_table = str_tbl;
        function = tables.fn_tbl;
        location = tables.loc_tbl;
        time_nanos = r.timing.start_time % word;
        duration_nanos = r.timing.duration % word;
        period_type = some time_value;
        period = period;
        comment = missed_comment_idx ∷ [];
      }

  module _ (set : HashSet) where
    -- `Report::pprof`
    unfoldable pub pprof : Report Frames → Outcome Profile
    unfolding index_strings encode_entries value_type string_index div_i64
    pprof r = do
      let str_tbl = table_of set (inserted_strings r)
      let strings = index_strings 0 str_tbl []
      (tables, samples) ← encode_entries strings r.timing.frequency no_tables r.counts
      samples_value ← value_type strings samples_text count_text
      time_value ← value_type strings cpu_text nanoseconds_text
      missed_comment_idx ← string_index strings (missed_comment r.missed_samples)
      period ← div_i64 1_000_000_000 r.timing.frequency
      done (profile_of r str_tbl tables samples samples_value time_value missed_comment_idx period)
