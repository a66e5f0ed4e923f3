-- ===== src/Report/Folded/Lines.antt =====
-- src/report.rs, lines 381-414: the lines of the flamegraph are those of the folded stacks.
use pprof_rs.Prelude.{ℕ, ◌≡◌, refl, sym, ap, ◌∙◌, true, List, [], ◌∷◌, ◌++◌, lts, map}
use mathlib.Core.List.{reverse, append-nil, append_assoc, map-append}
use pprof_rs.Frames.{Text, Symbol, Frames, Resolver, thread_name_or_id}
use pprof_rs.Frames
use pprof_rs.Collector.Bucket.{Entry}
use pprof_rs.Report.Writer.{concat}
use pprof_rs.Report.Folded.{pop, push_symbols, push_frames, flamegraph_line}
use pprof_rs.Report.Folded.Reading.{
  after_semicolon, entry_texts, reversed_names, reversed_names-reverse,
}
use pprof_rs.Report.Folded.RoundTrip.{concat-append, line_text}
use pprof_rs.Pprof.Interning.{symbol_names, stack_names}

pop-append : (t : Text) (c : ℕ) → pop (t ++ c ∷ []) ≡ t
pop-append [] c = refl
pop-append (a ∷ []) c = refl
pop-append (a ∷ b ∷ t) c = ap (λ r. a ∷ r) (pop-append (b ∷ t) c)

module _ {Frame : Type 0} (env : Resolver Frame) where
  push_symbols-names :
      (symbols : List Symbol) (line : Text)
      → push_symbols env (line ++ b';' ∷ []) symbols
        ≡ (line ++ concat (map after_semicolon (symbol_names env symbols))) ++ b';' ∷ []
  unfolding push_symbols
  push_symbols-names [] line = rw append-nil refl
  push_symbols-names (s ∷ symbols) line =
      let names = concat (map after_semicolon (symbol_names env symbols)) in
      push_symbols-names symbols ((line ++ b';' ∷ []) ++ Frames.name env s)
      ∙ ap (λ t. t ++ b';' ∷ [])
          (append_assoc (line ++ b';' ∷ []) (Frames.name env s) names
            ∙ append_assoc line (b';' ∷ []) (Frames.name env s ++ names))

  push_frames-names :
      (frames : List (List Symbol)) (line : Text)
      → push_frames env (line ++ b';' ∷ []) frames
        ≡ (line ++ concat (map after_semicolon (reversed_names env frames))) ++ b';' ∷ []
  unfolding push_frames reversed_names
  push_frames-names [] line = rw append-nil refl
  push_frames-names (f ∷ fs) line =
      let ours = map after_semicolon (symbol_names env (reverse f)) in
      let others = map after_semicolon (reversed_names env fs) in
      ap (λ l. push_frames env l fs) (push_symbols-names (reverse f) line)
      ∙ push_frames-names fs (line ++ concat ours)
      ∙ ap (λ t. t ++ b';' ∷ [])
          (append_assoc line (concat ours) (concat others)
            ∙ ap (λ t. line ++ t) (sym (concat-append ours others))
            ∙ ap (λ ts. line ++ concat ts)
                (sym (
                  map-append after_semicolon (symbol_names env (reverse f))
                    (reversed_names env fs))))

  -- With a newline after it, the line of an entry with a positive count is what `write_folded`
  -- writes for it.
  pub flamegraph_line-folded :
      (e : Entry Frames)
      → lts 0 e.count ≡ true
      → flamegraph_line env e ++ b'\n' ∷ [] ≡ concat (entry_texts env e)
  unfolding flamegraph_line entry_texts
  flamegraph_line-folded e h =
      let thread = thread_name_or_id env e.item in
      let number = b' ' ∷ env.show_number e.count in
      let names = map after_semicolon (reverse (stack_names env e.item.frames)) in
      let whole : pop (push_frames env (thread ++ b';' ∷ []) (reverse e.item.frames))
          ≡ thread ++ concat names =
        ap pop (push_frames-names (reverse e.item.frames) thread)
        ∙ pop-append _ b';'
        ∙ ap (λ ns. thread ++ concat (map after_semicolon ns))
            (reversed_names-reverse env e.item.frames) in
      ap (λ t. (t ++ number) ++ b'\n' ∷ []) whole
      ∙ sym (line_text thread number (b'\n' ∷ []) names)
      ∙ rw h refl
