-- ===== src/Tests/Exporting.antt =====
-- The theorems on what reports are turned into, run on two stacks.
use pprof_rs.Prelude.{
  ℕ, zero, suc, ◌≡◌, refl, none, some, List, [], ◌∷◌, ◌++◌, map, replicate, All, All-replicate,
  Returns, codes,
}
use pprof_rs.Prelude.Int.{pos}
use pprof_rs.Timer.{ClockType}
use pprof_rs.Frames.{Text, Frames, Resolver, raw_name, name, thread_name_or_id}
use pprof_rs.Collector.Bucket.{Entry}
use pprof_rs.Report.{HashMap}
use pprof_rs.Report.Builder.{Report}
use pprof_rs.Report.Writer.{Writer, vector, write_each, concat}
use pprof_rs.Report.Folded.{write_entry, write_frames, write_symbols, write_folded, flamegraph_line}
use pprof_rs.Report.Folded.Reading.{entry_texts, folded_texts, write_folded-each}
use pprof_rs.Report.Folded.Split.{Free}
use pprof_rs.Report.Folded.RoundTrip.{
  read_folded, IsField, HasFields, folded_of, counted, write_folded-reads,
}
use pprof_rs.Report.Folded.Lines.{flamegraph_line-folded}
use pprof_rs.Report.Speedscope.{escape_json, collect, no_tables}
use pprof_rs.Report.Speedscope.Json.{read_string, read_string-escape_json}
use pprof_rs.Report.Speedscope.Samples.{Holds, collect-Holds}
use pprof_rs.Pprof.{HashSet}
use pprof_rs.Pprof.Interning.{stack_names}
use pprof_rs.Pprof.Cpu.{pprof}
use pprof_rs.Pprof.Cpu.Encoding.{Decodes, pprof-Decodes}
use pprof_rs.Pprof.Heap.{heap_pprof}
use pprof_rs.Pprof.Heap.Encoding.{heap_pprof-Decodes}
use pprof_rs.Pprof.Heap.Encoding
use pprof_rs.Tests.Fixtures.{numbers, symbol_of}
use pprof_rs.Tests.Allocating.{two_records}

-- A set that yields its strings as they were inserted.
abbrev in_order : HashSet
in_order = record { iterate = λ ts. ts; keeps = λ t ts. refl }

-- Numbers are written as that many strokes.
abbrev strokes : Resolver ℕ
strokes = record numbers { show_number = λ n. replicate n b'1' }

abbrev frames_of : List ℕ → Frames
frames_of ips = record {
  frames = map (λ ip. symbol_of ip ∷ []) ips;
  thread_name = codes "main";
  thread_id = 1;
  sample_timestamp = 5;
}

abbrev inner_entry : Entry Frames
inner_entry = record { item = frames_of (b'f' ∷ b'g' ∷ []); count = 3 }

abbrev entries : HashMap Frames
entries = inner_entry ∷ record { item = frames_of (b'g' ∷ []); count = 2 } ∷ []

abbrev report : Report Frames
report = record {
  counts = entries;
  timing = record {
    frequency = pos 99;
    start_time = 7;
    duration = 1000;
    clock_type = ClockType.cpu;
  };
  missed_samples = 2;
}

pprof-Decodes_example : Returns (pprof strokes in_order report) (Decodes strokes in_order report 98)
pprof-Decodes_example = pprof-Decodes strokes in_order report 98 refl

heap_pprof-Decodes_example :
    Returns
      (heap_pprof strokes in_order two_records)
      (Encoding.Decodes strokes in_order two_records)
heap_pprof-Decodes_example = heap_pprof-Decodes strokes in_order two_records

-- A writer with room for some texts.
abbrev bounded : Writer ℕ ℕ
bounded = record { write_fmt = λ w t. elim w [ zero ↦ (0, some 28) | suc n ↦ (n, none) ] }

write_folded-each_example :
    write_folded strokes bounded entries 4 ≡ write_each bounded (folded_texts strokes entries) 4
write_folded-each_example = write_folded-each strokes bounded entries 4

-- The third entry does not fit, and the error is returned.
bounded_fails : write_folded strokes bounded entries 4 ≡ (0, some 28)
unfolding write_folded write_entry write_frames write_symbols
bounded_fails = refl

strokes-Free : (n : ℕ) → Free b' ' (replicate n b'1') × Free b'\n' (replicate n b'1')
strokes-Free n = (All-replicate _ n b'1' refl, All-replicate _ n b'1' refl)

entries-HasFields : All (HasFields strokes) entries
unfolding thread_name_or_id stack_names name raw_name
entries-HasFields =
    let main : IsField (codes "main") =
      ((refl, (refl, (refl, (refl, tt)))), (refl, (refl, (refl, (refl, tt))))) in
    let f : IsField (b'f' ∷ []) = ((refl, tt), (refl, tt)) in
    let g : IsField (b'g' ∷ []) = ((refl, tt), (refl, tt)) in
    ((main, (f, (g, tt))), ((main, (g, tt)), tt))

write_folded-reads_example :
    read_folded (write_folded strokes (vector {E = ℕ}) entries []).0
    ≡ map (folded_of strokes) (counted strokes entries)
write_folded-reads_example = write_folded-reads strokes entries strokes-Free entries-HasFields

flamegraph_line-folded_example :
    flamegraph_line strokes inner_entry ++ b'\n' ∷ [] ≡ concat (entry_texts strokes inner_entry)
flamegraph_line-folded_example = flamegraph_line-folded strokes inner_entry refl

-- A quote, a newline and a control character.
abbrev awkward : Text
awkward = b'a' ∷ b'"' ∷ b'\n' ∷ 31 ∷ []

read_string-escape_json_example :
    read_string (escape_json awkward ++ b'"' ∷ codes ",") ≡ some (awkward, codes ",")
read_string-escape_json_example = read_string-escape_json awkward (codes ",")

awkward_escaped : escape_json awkward ≡ codes "a\\\"\\n\\u001f"
unfolding escape_json
awkward_escaped = refl

collect-Holds_example : Holds strokes entries (collect strokes no_tables entries)
collect-Holds_example = collect-Holds strokes entries
