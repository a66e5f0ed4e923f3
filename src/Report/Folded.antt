-- ===== src/Report/Folded.antt =====
-- src/report.rs, lines 187-205 and 381-414: the folded stacks, as `write_folded` writes them and as
-- `flamegraph_with_options` hands them to the flamegraph crate.
pub mod Reading
pub mod Split
pub mod RoundTrip
pub mod Lines
use pprof_rs.Prelude.{
  ℕ, Option, none, some, Bool, true, false, List, [], ◌∷◌, ◌++◌, lts, if◌then◌else◌, map, Outcome,
  done, panic,
}
use mathlib.Core.List.{reverse}
use pprof_rs.Frames.{Text, Symbol, Frames, Resolver, thread_name_or_id}
use pprof_rs.Frames
use pprof_rs.Collector.Bucket.{Entry}
use pprof_rs.Report.{HashMap}
use pprof_rs.Report.Writer.{Writer, ◌and_then◌}

module _ {Frame : Type 0} (env : Resolver Frame) where
  module _ {W E : Type 0} (writer : Writer W E) where
    -- `for symbol in frame.iter().rev()`, on the reversed list
    unfoldable pub write_symbols : List Symbol → W → W × Option E
    write_symbols [] w = (w, none)
    write_symbols (s ∷ symbols) w =
        writer.write_fmt w (b';' ∷ Frames.name env s) and_then write_symbols symbols

    -- `for frame in key.frames.iter().rev()`, on the reversed list
    unfoldable pub write_frames : List (List Symbol) → W → W × Option E
    write_frames [] w = (w, none)
    write_frames (frame ∷ frames) w = write_symbols (reverse frame) w and_then write_frames frames

    -- The body of the loop; a count that is not positive is passed over.
    unfoldable pub write_entry : Entry Frames → W → W × Option E
    write_entry e w =
        if lts 0 e.count
        then (writer.write_fmt w (thread_name_or_id env e.item)
            and_then write_frames (reverse e.item.frames)
            and_then λ w'. writer.write_fmt w' (b' ' ∷ env.show_number e.count ++ b'\n' ∷ []))
        else (w, none)

    -- `write_folded`
    unfoldable pub write_folded : HashMap Frames → W → W × Option E
    write_folded [] w = (w, none)
    write_folded (e ∷ m) w = write_entry e w and_then write_folded m

-- `String::pop`, whose result is dropped.
abbrev pub pop : Text → Text
pop [] = []
pop (c ∷ []) = []
pop (c ∷ d ∷ cs) = c ∷ pop (d ∷ cs)

module _ {Frame : Type 0} (env : Resolver Frame) where
  -- The loops that extend a line by each name and a semicolon, on reversed lists.
  unfoldable pub push_symbols : Text → List Symbol → Text
  push_symbols line [] = line
  push_symbols line (s ∷ symbols) = push_symbols (line ++ Frames.name env s ++ b';' ∷ []) symbols

  unfoldable pub push_frames : Text → List (List Symbol) → Text
  unfolding push_symbols
  push_frames line [] = line
  push_frames line (frame ∷ frames) = push_frames (push_symbols line (reverse frame)) frames

  -- The line of an entry, whatever its count.
  unfoldable pub flamegraph_line : Entry Frames → Text
  unfolding push_frames
  flamegraph_line e =
      let line = thread_name_or_id env e.item ++ b';' ∷ [] in
      pop (push_frames line (reverse e.item.frames)) ++ b' ' ∷ env.show_number e.count

  -- `flamegraph_with_options`: `from_lines` is the flamegraph crate's, and its error panics.
  unfoldable pub flamegraph_with_options :
      {W E : Type 0} → (W → List Text → W × Option E) → HashMap Frames → W → Outcome W
  unfolding flamegraph_line
  flamegraph_with_options from_lines m w = elim (map flamegraph_line m) [
    | [] ↦ done w
    | line ∷ lines ↦
        let (w', failed) = from_lines w (line ∷ lines) in
        elim failed [ none ↦ done w' | some e ↦ panic ]
  ]
