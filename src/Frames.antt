-- ===== src/Frames.antt =====
-- src/frames.rs: stacks as the signal handler stores them (`UnresolvedFrames`) and with symbols
-- (`Frames`). Texts are lists of numbers: bytes where the source has bytes.
pub mod Eq
pub mod Convert
pub mod Resolved
use pprof_rs.Prelude.{
  ℕ, suc, ◌+◌, Bool, true, false, not, ◌&&◌, ◌||◌, Option, none, some, List, [], ◌∷◌, ◌++◌, map,
  Outcome, done, panic, ◌==◌, leb, if◌then◌else◌, length, take, drop, replicate,
}

abbrev pub max_depth : ℕ
max_depth = 128

abbrev pub max_thread_name : ℕ
max_thread_name = 16

abbrev pub Text : Type 0
Text = List ℕ

abbrev pub unknown : Text
unknown = b'U' ∷ b'n' ∷ b'k' ∷ b'n' ∷ b'o' ∷ b'w' ∷ b'n' ∷ []

-- `perf_signal_handler`
abbrev pub handler_name : Text
handler_name =
    b'p' ∷ b'e' ∷ b'r' ∷ b'f' ∷ b'_' ∷ b's' ∷ b'i' ∷ b'g' ∷ b'n' ∷ b'a' ∷ b'l' ∷ b'_' ∷ b'h' ∷ b'a'
    ∷ b'n' ∷ b'd' ∷ b'l' ∷ b'e' ∷ b'r' ∷ []

unfoldable pub text_eq : Text → Text → Bool
text_eq [] [] = true
text_eq [] (b ∷ bs) = false
text_eq (a ∷ as') [] = false
text_eq (a ∷ as') (b ∷ bs) = (a == b) && text_eq as' bs

pub record Symbol : Type 0 where
  pub name : Option Text
  pub addr : Option ℕ
  pub lineno : Option ℕ
  pub filename : Option Text

-- `thread_name` stands for an array of `max_thread_name` bytes.
pub record UnresolvedFrames (Frame : Type 0) : Type 0 where
  pub frames : List Frame
  pub thread_name : Text
  pub thread_name_length : ℕ
  pub thread_id : ℕ
  pub sample_timestamp : ℕ

pub record Frames : Type 0 where
  pub frames : List (List Symbol)
  pub thread_name : Text
  pub thread_id : ℕ
  pub sample_timestamp : ℕ

-- What the source calls of other crates: the unwinder's frames, symbol lookup, demangling, text.
pub record Resolver (Frame : Type 0) : Type 0 where
  pub ip : Frame → ℕ
  pub symbol_address : Frame → ℕ
  pub resolve_symbol : Frame → List Symbol
  pub resolve_in_perfmap : ℕ → Option Symbol
  pub demangle : Text → Text
  pub from_utf8_lossy : Text → Text
  pub show_number : ℕ → Text
  -- `DefaultHasher` over the words that `hash` writes
  pub hasher : List ℕ → ℕ

module _ {Frame : Type 0} where
  -- The name is copied to the front of an array of zeros.
  abbrev pub built : List Frame → Text → ℕ → ℕ → UnresolvedFrames Frame
  built frames tn thread_id sample_timestamp = record {
    frames = frames;
    thread_name = tn ++ drop (length tn) (replicate max_thread_name 0);
    thread_name_length = length tn;
    thread_id = thread_id;
    sample_timestamp = sample_timestamp;
  }

  -- `UnresolvedFrames::new`. The slice `thread_name[0..len]` panics if the name is too long.
  unfoldable pub new : List Frame → Text → ℕ → ℕ → Outcome (UnresolvedFrames Frame)
  new frames tn thread_id sample_timestamp =
      if leb (length tn) max_thread_name
      then done (built frames tn thread_id sample_timestamp)
      else panic

  -- `UnresolvedFrames::default`, at the time `now`
  unfoldable pub default_frames : ℕ → UnresolvedFrames Frame
  default_frames now = record {
    frames = [];
    thread_name = replicate max_thread_name 0;
    thread_name_length = 0;
    thread_id = 0;
    sample_timestamp = now;
  }

module _ {Frame : Type 0} (env : Resolver Frame) where
  -- `zip` and `all`
  unfoldable pub all_same : List Frame → List Frame → Bool
  all_same [] ys = true
  all_same (x ∷ xs) [] = true
  all_same (x ∷ xs) (y ∷ ys) = (env.symbol_address x == env.symbol_address y) && all_same xs ys

  -- `UnresolvedFrames::eq`
  unfoldable pub eq : UnresolvedFrames Frame → UnresolvedFrames Frame → Bool
  eq self other =
      if not (self.thread_id == other.thread_id) || not (length self.frames == length other.frames)
      then false
      else all_same self.frames other.frames

  -- `UnresolvedFrames::hash`
  unfoldable pub hash : UnresolvedFrames Frame → ℕ
  hash self = env.hasher (map env.symbol_address self.frames ++ self.thread_id ∷ [])

-- `Symbol::raw_name`
unfoldable pub raw_name : Symbol → Text
raw_name s = elim s.name [ none ↦ unknown | some n ↦ n ]

-- `Symbol::lineno`
unfoldable pub lineno : Symbol → ℕ
lineno s = elim s.lineno [ none ↦ 0 | some n ↦ n ]

-- `if !symbols.is_empty() { fs.push(symbols); }`
abbrev pub push_unless_empty : List Symbol → List (List Symbol) → List (List Symbol)
push_unless_empty [] fs = fs
push_unless_empty (s ∷ ss) fs = (s ∷ ss) ∷ fs

module _ {Frame : Type 0} (env : Resolver Frame) where
  -- `Symbol::name`, also what `Display` writes
  unfoldable pub name : Symbol → Text
  unfolding raw_name
  name s = env.demangle (env.from_utf8_lossy (raw_name s))

  -- `Symbol::sys_name`
  unfoldable pub sys_name : Symbol → Text
  unfolding raw_name
  sys_name s = env.from_utf8_lossy (raw_name s)

  -- `Symbol::filename`
  unfoldable pub filename : Symbol → Text
  filename s = elim s.filename [ none ↦ unknown | some f ↦ env.from_utf8_lossy f ]

  -- `Frames::thread_name_or_id`
  unfoldable pub thread_name_or_id : Frames → Text
  thread_name_or_id f = elim f.thread_name [ [] ↦ env.show_number f.thread_id | _ ↦ f.thread_name ]

  -- The symbols of a frame, from the perf map or else from the unwinder.
  unfoldable pub symbols_of : Frame → List Symbol
  symbols_of frame = elim (env.resolve_in_perfmap (env.ip frame)) [
    | some symbol ↦ symbol ∷ []
    | none ↦ env.resolve_symbol frame
  ]

  unfoldable pub is_handler : Symbol → Bool
  is_handler s = text_eq (name s) handler_name || text_eq (name s) (b'_' ∷ handler_name)

  unfoldable pub any_handler : List Symbol → Bool
  any_handler [] = false
  any_handler (s ∷ ss) = is_handler s || any_handler ss

  -- The loop of `Frames::from`. `skip` says that the frame before was the signal handler, so that
  -- `frame_iter.next()` passes over this one.
  unfoldable pub convert : Bool → List Frame → List (List Symbol)
  convert skip [] = []
  convert skip (frame ∷ frames) =
      let symbols = symbols_of frame in
      let rest = convert (not skip && any_handler symbols) frames in
      if skip || any_handler symbols then rest else push_unless_empty symbols rest

  -- `Frames::from`
  unfoldable pub from : UnresolvedFrames Frame → Frames
  from u = record {
    frames = convert false u.frames;
    thread_name = env.from_utf8_lossy (take u.thread_name_length u.thread_name);
    thread_id = u.thread_id;
    sample_timestamp = u.sample_timestamp;
  }
