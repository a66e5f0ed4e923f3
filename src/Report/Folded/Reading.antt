-- ===== src/Report/Folded/Reading.antt =====
-- src/report.rs, lines 187-205: what `write_folded` writes, and a reader of folded stacks.
use pprof_rs.Prelude.{
  ◌≡◌, refl, sym, ap, ◌∙◌, List, [], ◌∷◌, ◌++◌, lts, if◌then◌else◌, map, Bool-cases, inl, inr,
}
use mathlib.Core.List.{reverse, reverse-cons, reverse-append, append-nil, append_assoc, map-append}
use mathlib.Mathlib.Data.List.Basic.{map-reverse_aux}
use pprof_rs.Frames.{Text, Symbol, Frames, Resolver, thread_name_or_id}
use pprof_rs.Collector.Bucket.{Entry}
use pprof_rs.Report.{HashMap}
use pprof_rs.Report.Writer.{
  Writer, ◌and_then◌, and_then_assoc, and_then_cong, and_then_none, write_each, write_each-append,
}
use pprof_rs.Report.Folded.{write_symbols, write_frames, write_entry, write_folded}
use pprof_rs.Pprof.Interning.{symbol_names, stack_names}

abbrev pub after_semicolon : Text → Text
after_semicolon n = b';' ∷ n

module _ {Frame : Type 0} (env : Resolver Frame) where
  -- The names of frames that have been reversed, each reversed in turn.
  unfoldable pub reversed_names : List (List Symbol) → List Text
  reversed_names [] = []
  reversed_names (frame ∷ frames) = symbol_names env (reverse frame) ++ reversed_names frames

  reversed_names-append :
      (xs ys : List (List Symbol))
      → reversed_names (xs ++ ys) ≡ reversed_names xs ++ reversed_names ys
  unfolding reversed_names
  reversed_names-append [] ys = refl
  reversed_names-append (x ∷ xs) ys =
      ap (λ l. symbol_names env (reverse x) ++ l) (reversed_names-append xs ys)
      ∙ sym (append_assoc (symbol_names env (reverse x)) (reversed_names xs) (reversed_names ys))

  -- From the outermost frame to the innermost.
  pub reversed_names-reverse :
      (frames : List (List Symbol))
      → reversed_names (reverse frames) ≡ reverse (stack_names env frames)
  unfolding reversed_names stack_names
  reversed_names-reverse [] = refl
  reversed_names-reverse (f ∷ fs) = rw (reverse-cons f fs) (
      reversed_names-append (reverse fs) (f ∷ [])
      ∙ ap (λ l. l ++ (symbol_names env (reverse f) ++ [])) (reversed_names-reverse fs)
      ∙ ap (λ l. reverse (stack_names env fs) ++ l)
          (append-nil (symbol_names env (reverse f)) ∙ map-reverse_aux _ f [])
      ∙ sym (reverse-append (symbol_names env f) (stack_names env fs)))

  -- The texts of an entry: the thread, the names from the outermost on, and the count.
  unfoldable pub entry_texts : Entry Frames → List Text
  entry_texts e =
      if lts 0 e.count
      then thread_name_or_id env e.item
          ∷ map after_semicolon (reverse (stack_names env e.item.frames))
        ++ (b' ' ∷ env.show_number e.count ++ b'\n' ∷ []) ∷ []
      else []

  unfoldable pub folded_texts : HashMap Frames → List Text
  unfolding entry_texts
  folded_texts [] = []
  folded_texts (e ∷ m) = entry_texts e ++ folded_texts m

  module _ {W E : Type 0} (writer : Writer W E) where
    write_symbols-each :
        (symbols : List Symbol) (w : W)
        → write_symbols env writer symbols w
          ≡ write_each writer (map after_semicolon (symbol_names env symbols)) w
    unfolding write_symbols write_each
    write_symbols-each [] w = refl
    write_symbols-each (s ∷ symbols) w =
        and_then_cong (writer.write_fmt w _) _ _ (write_symbols-each symbols)

    write_frames-each :
        (frames : List (List Symbol)) (w : W)
        → write_frames env writer frames w
          ≡ write_each writer (map after_semicolon (reversed_names frames)) w
    unfolding write_frames write_each reversed_names
    write_frames-each [] w = refl
    write_frames-each (f ∷ fs) w =
        ap (λ r. r and_then write_frames env writer fs) (write_symbols-each (reverse f) w)
        ∙ and_then_cong (write_each writer _ w) _ _ (write_frames-each fs)
        ∙ write_each-append writer _ _ w
        ∙ ap (λ ts. write_each writer ts w)
            (sym (map-append after_semicolon (symbol_names env (reverse f)) (reversed_names fs)))

    write_entry-each :
        (e : Entry Frames) (w : W)
        → write_entry env writer e w ≡ write_each writer (entry_texts e) w
    unfolding write_entry write_each entry_texts
    write_entry-each e w = elim (Bool-cases (lts 0 e.count)) [
      | inr passed ↦ rw passed refl
      | inl counted ↦ rw counted (
          and_then_assoc (writer.write_fmt w _) _ _
          ∙ and_then_cong (writer.write_fmt w _) _ _ (λ v. rest v))
    ]
      where
        number : Text
        number = b' ' ∷ env.show_number e.count ++ b'\n' ∷ []

        last : (v : W) → writer.write_fmt v number ≡ write_each writer (number ∷ []) v
        last v = sym (and_then_none (writer.write_fmt v number))

        rest :
            (v : W)
            → (write_frames env writer (reverse e.item.frames) v and_then λ w'.
                writer.write_fmt w' number)
              ≡ write_each writer
                  (map after_semicolon (reverse (stack_names env e.item.frames)) ++ number ∷ [])
                  v
        rest v =
            ap (λ r. r and_then λ w'. writer.write_fmt w' number)
              (write_frames-each (reverse e.item.frames) v)
            ∙ and_then_cong (write_each writer _ v) _ _ last
            ∙ write_each-append writer _ (number ∷ []) v
            ∙ ap (λ ns. write_each writer (map after_semicolon ns ++ number ∷ []) v)
                (reversed_names-reverse e.item.frames)

    -- For every writer, `write_folded` writes the texts of the report in turn, up to the first
    -- write that fails; that write's error is the result, and nothing is written after it.
    pub write_folded-each :
        (m : HashMap Frames) (w : W)
        → write_folded env writer m w ≡ write_each writer (folded_texts m) w
    unfolding write_folded write_each folded_texts
    write_folded-each [] w = refl
    write_folded-each (e ∷ m) w =
        ap (λ r. r and_then write_folded env writer m) (write_entry-each e w)
        ∙ and_then_cong (write_each writer _ w) _ _ (write_folded-each m)
        ∙ write_each-append writer (entry_texts e) (folded_texts m) w
