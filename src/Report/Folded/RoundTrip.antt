-- ===== src/Report/Folded/RoundTrip.antt =====
-- src/report.rs, lines 187-205: the folded stacks of a report are read back.
use pprof_rs.Prelude.{
  ℕ, ◌≡◌, refl, sym, ap, ◌∙◌, true, Option, none, some, List, [], ◌∷◌, ◌++◌, lts, if◌then◌else◌,
  map, All, All-append, Bool-cases, inl, inr,
}
use mathlib.Core.List.{reverse, reverse-cons, append-nil, append_assoc}
use pprof_rs.Frames.{Text, Frames, Resolver, thread_name_or_id}
use pprof_rs.Collector.Bucket.{Entry}
use pprof_rs.Report.{HashMap}
use pprof_rs.Report.Writer.{vector, write_each-vector, concat}
use pprof_rs.Report.Folded.{write_folded}
use pprof_rs.Report.Folded.Reading.{after_semicolon, entry_texts, folded_texts, write_folded-each}
use pprof_rs.Report.Folded.Split.{
  Free, split, split-Free, split-append, split_last, split_last-append, drop_last, drop_last-append,
}
use pprof_rs.Pprof.Interning.{stack_names}

-- A line: its stack, from the outermost on, and the text of its count.
pub record Folded : Type 0 where
  pub stack : List Text
  pub count : Text

abbrev fields : Text → Option (Text × Text) → Folded
fields line none = record { stack = split b';' line; count = [] }
fields line (some (stack, count)) = record { stack = split b';' stack; count = count }

unfoldable read_line : Text → Folded
read_line line = fields line (split_last b' ' line)

-- A reader of the format: a line for each stack, and the count after the last space.
pub read_folded : Text → List Folded
read_folded text = map read_line (drop_last (split b'\n' text))

-- The text can stand between separators.
abbrev pub IsField : Text → Type 0
IsField t = Free b';' t × Free b'\n' t

-- `thread;name;name`
joined : Text → List Text → Text
joined thread names = thread ++ concat (map after_semicolon names)

split-joined :
    (thread : Text) (names : List Text)
    → Free b';' thread
    → All IsField names
    → split b';' (joined thread names) ≡ thread ∷ names
unfolding joined
split-joined thread [] h hs = rw append-nil (split-Free b';' thread h)
split-joined thread (n ∷ names) h hs =
    split-append b';' thread _ h ∙ ap (λ r. thread ∷ r) (split-joined n names hs.0.0 hs.1)

joined-Free :
    (thread : Text) (names : List Text)
    → Free b'\n' thread
    → All IsField names
    → Free b'\n' (joined thread names)
unfolding joined
joined-Free thread [] h hs = All-append _ thread [] h tt
joined-Free thread (n ∷ names) h hs =
    All-append _ thread _ h (refl, joined-Free n names hs.0.1 hs.1)

pub concat-append : (ts us : List Text) → concat (ts ++ us) ≡ concat ts ++ concat us
concat-append [] us = refl
concat-append (t ∷ ts) us = rw (concat-append ts us) (sym (append_assoc t (concat ts) (concat us)))

All-reverse : (P : Text → Type 0) (xs : List Text) → All P xs → All P (reverse xs)
All-reverse P [] h = tt
All-reverse P (x ∷ xs) h =
    rw reverse-cons (All-append P (reverse xs) (x ∷ []) (All-reverse P xs h.1) (h.0, tt))

pub line_text :
    (t n end : Text) (ts : List Text)
    → t ++ concat (ts ++ (n ++ end) ∷ []) ≡ ((t ++ concat ts) ++ n) ++ end
line_text t n end ts =
    rw (concat-append ts _, append-nil (n ++ end))
      (sym (append_assoc (t ++ concat ts) n end ∙ append_assoc t (concat ts) (n ++ end)))

module _ {Frame : Type 0} (env : Resolver Frame) where
  -- An entry, as a reader should see it.
  abbrev pub folded_of : Entry Frames → Folded
  folded_of e = record {
    stack = thread_name_or_id env e.item ∷ reverse (stack_names env e.item.frames);
    count = env.show_number e.count;
  }

  -- The entries with a positive count.
  unfoldable pub counted : HashMap Frames → List (Entry Frames)
  counted [] = []
  counted (e ∷ m) = if lts 0 e.count then e ∷ counted m else counted m

  -- The names of a stack can be told apart in a line.
  abbrev pub HasFields : Entry Frames → Type 0
  HasFields e = IsField (thread_name_or_id env e.item) × All IsField (stack_names env e.item.frames)

  module _ (digits : (n : ℕ) → Free b' ' (env.show_number n) × Free b'\n' (env.show_number n)) where
    abbrev line_of : Entry Frames → Text
    line_of e =
        joined (thread_name_or_id env e.item) (reverse (stack_names env e.item.frames))
        ++ b' ' ∷ env.show_number e.count

    read_line-line_of : (e : Entry Frames) → HasFields e → read_line (line_of e) ≡ folded_of e
    unfolding read_line
    read_line-line_of e h =
        rw
          (
            split_last-append b' ' (joined _ _) (env.show_number e.count) (digits e.count).0,
            split-joined (thread_name_or_id env e.item) (reverse (stack_names env e.item.frames))
                h.0.0 (All-reverse IsField _ h.1),
          )
          refl

    -- The text of an entry that counts is its line.
    entry_text :
        (e : Entry Frames)
        → lts 0 e.count ≡ true
        → concat (entry_texts env e) ≡ line_of e ++ b'\n' ∷ []
    unfolding entry_texts joined
    entry_text e h = rw h (
        line_text (thread_name_or_id env e.item) (b' ' ∷ env.show_number e.count) (b'\n' ∷ [])
          (map after_semicolon (reverse (stack_names env e.item.frames))))

    line_of-Free : (e : Entry Frames) → HasFields e → Free b'\n' (line_of e)
    line_of-Free e h =
        All-append _ (joined _ _) _
          (joined-Free (thread_name_or_id env e.item) (reverse (stack_names env e.item.frames))
            h.0.1 (All-reverse IsField _ h.1))
          (refl, (digits e.count).1)

    split-folded :
        (m : HashMap Frames)
        → All HasFields m
        → split b'\n' (concat (folded_texts env m)) ≡ map line_of (counted m) ++ [] ∷ []
    unfolding folded_texts counted split
    split-folded [] h = refl
    split-folded (e ∷ m) h = elim (Bool-cases (lts 0 e.count)) [
      | inr passed ↦ rw (passed, entry_texts) (split-folded m h.1)
      | inl counts ↦
          let joins : concat (entry_texts env e ++ folded_texts env m)
              ≡ line_of e ++ b'\n' ∷ concat (folded_texts env m) =
            concat-append (entry_texts env e) (folded_texts env m)
            ∙ ap (λ t. t ++ concat (folded_texts env m)) (entry_text e counts)
            ∙ append_assoc (line_of e) (b'\n' ∷ []) (concat (folded_texts env m)) in
          let kept : counted (e ∷ m) ≡ e ∷ counted m = rw counts refl in
          ap (split b'\n') joins
          ∙ split-append b'\n' (line_of e) _ (line_of-Free e h.0)
          ∙ ap (λ r. line_of e ∷ r) (split-folded m h.1)
          ∙ sym (ap (λ l. map line_of l ++ [] ∷ []) kept)
    ]

    read_lines :
        (m : HashMap Frames)
        → All HasFields m
        → map read_line (map line_of (counted m)) ≡ map folded_of (counted m)
    unfolding counted
    read_lines [] h = refl
    read_lines (e ∷ m) h = elim (Bool-cases (lts 0 e.count)) [
      | inr passed ↦ rw passed (read_lines m h.1)
      | inl counts ↦ rw counts (rw (read_line-line_of e h.0, read_lines m h.1) refl)
    ]

  -- Where the texts of numbers have no space and no newline, and the thread names and the names
  -- of symbols have no semicolon and no newline, what is written into a vector is read back: a
  -- line for each entry with a positive count, with its thread, its stack from the outermost
  -- frame on, and the text of its count.
  pub write_folded-reads :
      (m : HashMap Frames)
      → ((n : ℕ) → Free b' ' (env.show_number n) × Free b'\n' (env.show_number n))
      → All HasFields m
      → (read_folded (write_folded env (vector {E = ℕ}) m []).0) ≡ map folded_of (counted m)
  unfolding read_folded
  write_folded-reads m digits h =
      let written =
        write_folded-each env (vector {E = ℕ}) m [] ∙ write_each-vector (folded_texts env m) [] in
      ap (λ r. read_folded r.0) written
      ∙ ap (λ ls. map read_line (drop_last ls)) (split-folded digits m h)
      ∙ ap (map read_line) (drop_last-append (map (line_of digits) (counted m)) [])
      ∙ read_lines digits m h
