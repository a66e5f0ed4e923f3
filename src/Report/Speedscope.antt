-- ===== src/Report/Speedscope.antt =====
-- src/report.rs, lines 207-313: `write_speedscope`.
pub mod Json
pub mod Samples
use pprof_rs.Prelude.{
  ℕ, ◌+◌, ◌-◌, ◌/◌, ◌%◌, Option, none, some, Bool, true, false, List, [], ◌∷◌, ◌++◌, lts, ltb,
  add64, codes, if◌then◌else◌, ◌==◌, length, Dict, lookup, insert, list_equality,
}
use mathlib.Core.List.{reverse}
use pprof_rs.Frames.{Text, Symbol, Frames, Resolver, thread_name_or_id}
use pprof_rs.Frames
use pprof_rs.Collector.Bucket.{Entry}
use pprof_rs.Report.{HashMap}
use pprof_rs.Report.Writer.{Writer, ◌and_then◌}

-- `frame_indices` and `frame_names`
pub record Names : Type 0 where
  pub frame_indices : Dict Text ℕ
  pub frame_names : List Text

-- The closure `get_frame_idx`
unfoldable pub get_frame_idx : Names → Text → Names × ℕ
get_frame_idx n frame_name = elim (lookup frame_name n.frame_indices) [
  | some idx ↦ (n, idx)
  | none ↦ (
    record {
      frame_indices = insert frame_name (length n.frame_names) n.frame_indices;
      frame_names = n.frame_names ++ frame_name ∷ [];
    },
    length n.frame_names,
  )
]

-- The variables of the loop over the entries
pub record Tables : Type 0 where
  pub names : Names
  pub samples : List (List ℕ)
  pub weights : List ℕ
  pub total_weight : ℕ

abbrev pub no_tables : Tables
no_tables = record {
  names = record { frame_indices = []; frame_names = [] };
  samples = [];
  weights = [];
  total_weight = 0;
}

module _ {Frame : Type 0} (env : Resolver Frame) where
  -- `sample` is what has been pushed; the lists are those of the reversed iterators.
  unfoldable pub push_symbols : Names × List ℕ → List Symbol → Names × List ℕ
  unfolding get_frame_idx
  push_symbols t [] = t
  push_symbols (n, sample) (s ∷ symbols) =
      let (n', idx) = get_frame_idx n (Frames.name env s) in
      push_symbols (n', sample ++ idx ∷ []) symbols

  unfoldable pub push_frames : Names × List ℕ → List (List Symbol) → Names × List ℕ
  unfolding push_symbols
  push_frames t [] = t
  push_frames t (frame ∷ frames) = push_frames (push_symbols t (reverse frame)) frames

  unfoldable pub sample_of : Names → Frames → Names × List ℕ
  unfolding push_frames get_frame_idx
  sample_of n key =
      let (n', idx) = get_frame_idx n (thread_name_or_id env key) in
      push_frames (n', idx ∷ []) (reverse key.frames)

  -- The body of the loop; a count that is not positive is passed over.
  unfoldable pub step : Tables → Entry Frames → Tables
  unfolding sample_of
  step t e =
      if lts 0 e.count
      then (let (n, sample) = sample_of t.names e.item in
          record {
            names = n;
            samples = t.samples ++ sample ∷ [];
            weights = t.weights ++ e.count ∷ [];
            total_weight = add64 t.total_weight e.count;
          })
      else t

  unfoldable pub collect : Tables → HashMap Frames → Tables
  unfolding step
  collect t [] = t
  collect t (e ∷ m) = collect (step t e) m

-- A digit of `{:x}`
abbrev pub hex_digit : ℕ → ℕ
hex_digit d = if ltb d 10 then b'0' + d else b'a' + (d - 10)

-- `\\u{:04x}` of a character below 0x20
abbrev pub unicode_escape : ℕ → Text
unicode_escape c = b'\\' ∷ b'u' ∷ b'0' ∷ b'0' ∷ hex_digit (c / 16) ∷ hex_digit (c % 16) ∷ []

-- The match of `escape_json`
unfoldable pub escape_char : ℕ → Text
escape_char c =
    if c == b'"'
    then b'\\' ∷ b'"' ∷ []
    else if c == b'\\'
    then b'\\' ∷ b'\\' ∷ []
    else if c == b'\n'
    then b'\\' ∷ b'n' ∷ []
    else if c == b'\r'
    then b'\\' ∷ b'r' ∷ []
    else if c == b'\t'
    then b'\\' ∷ b't' ∷ []
    else if ltb c 0x20
    then unicode_escape c
    else c ∷ []

-- `escape_json`
unfoldable pub escape_json : Text → Text
unfolding escape_char
escape_json [] = []
escape_json (c ∷ s) = escape_char c ++ escape_json s

module _ {W E : Type 0} (writer : Writer W E) where
  -- A loop over `enumerate()`, with a comma before each item but the first.
  unfoldable pub write_items {ℓ} :
      {A : Type ℓ} → (A → W → W × Option E) → ℕ → List A → W → W × Option E
  write_items write_item i [] w = (w, none)
  write_items write_item i (x ∷ xs) w =
      (if ltb 0 i then writer.write_fmt w (b',' ∷ []) else (w, none))
      and_then write_item x
      and_then write_items write_item (i + 1) xs

  module _ {Frame : Type 0} (env : Resolver Frame) where
    abbrev pub write_number : ℕ → W → W × Option E
    write_number n w = writer.write_fmt w (env.show_number n)

    unfoldable pub write_sample : List ℕ → W → W × Option E
    unfolding write_items
    write_sample sample w =
        writer.write_fmt w (b'[' ∷ []) and_then write_items write_number 0 sample and_then λ w'.
        writer.write_fmt w' (b']' ∷ [])

    unfoldable pub write_name : Text → W → W × Option E
    unfolding escape_json
    write_name fname w =
        writer.write_fmt w (codes "{\"name\":\"" ++ escape_json fname ++ codes "\"}")

    unfoldable pub header_text : Text → ℕ → Text
    unfolding escape_json
    header_text name total_weight =
        codes
          "{\"$schema\":\"https://www.speedscope.app/file-format-schema.json\",\"version\":\"0.0.1\",\"exporter\":\"rpprof\",\"name\":\""
        ++ escape_json name
        ++ codes "\",\"activeProfileIndex\":0,\"profiles\":[{\"type\":\"sampled\",\"name\":\""
        ++ escape_json name
        ++ codes "\",\"unit\":\"count\",\"startValue\":0,\"endValue\":"
        ++ env.show_number total_weight
        ++ codes ",\"samples\":["

    -- `write_speedscope`
    unfoldable pub write_speedscope : HashMap Frames → Text → W → W × Option E
    unfolding collect header_text write_items write_sample write_name
    write_speedscope m name w =
        let t = collect env no_tables m in
        writer.write_fmt w (header_text name t.total_weight)
        and_then write_items write_sample 0 t.samples
        and_then (λ w'. writer.write_fmt w' (codes "],\"weights\":["))
        and_then write_items write_number 0 t.weights
        and_then (λ w'. writer.write_fmt w' (codes "]}],\"shared\":{\"frames\":["))
        and_then write_items write_name 0 t.names.frame_names
        and_then λ w'. writer.write_fmt w' (codes "]}}")
