-- ===== src/Report/Speedscope/Samples.antt =====
-- src/report.rs, lines 217-252: the tables that `write_speedscope` makes of a report.
use pprof_rs.Prelude.{
  ℕ, ◌+◌, ◌%◌, ◌<◌, ◌≡◌, refl, sym, ap, ◌∙◌, Option, some, true, false, List, [], ◌∷◌, ◌++◌, map,
  lts, max_zero, word, if◌then◌else◌, length, get_elem?, get_elem?-append_left,
  get_elem?-append_right, get_elem?-lt, Bool-cases, Option-cases, inl, inr, lookup, insert,
  lookup-insert, list_equality, same_list, same_list_iff, spell_imp, spell_each_imp, arith,
}
use mathlib.Core.List.{reverse, append-nil, append_assoc, map-append}
use pprof_rs.Frames.{Text, Symbol, Frames, Resolver, thread_name_or_id}
use pprof_rs.Frames
use pprof_rs.Collector.Bucket.{Entry}
use pprof_rs.Report.{HashMap, total_samples}
use pprof_rs.Report.Folded.Reading.{reversed_names, reversed_names-reverse}
use pprof_rs.Report.Folded.RoundTrip.{counted}
use pprof_rs.Report.Speedscope.{
  Names, get_frame_idx, Tables, no_tables, push_symbols, push_frames, sample_of, step, collect,
}
use pprof_rs.Pprof.Interning.{symbol_names, stack_names}

-- A name that has an index stands there.
abbrev IsSound : Names → Type 0
IsSound n =
    (t : Text) (i : ℕ) → lookup t n.frame_indices ≡ some i → get_elem? n.frame_names i ≡ some t

abbrev Extends : Names → Names → Type 0
Extends n n' =
    (i : ℕ) (t : Text) → get_elem? n.frame_names i ≡ some t → get_elem? n'.frame_names i ≡ some t

-- The index of a name, in names that have grown.
record Indexed (n : Names) (t : Text) (r : Names × ℕ) : Type 0 where
  sound : IsSound r.0
  extends : Extends n r.0
  at : get_elem? r.0.frame_names r.1 ≡ some t

-- A name that is met for the first time
abbrev with_name : Names → Text → Names
with_name n t = record {
  frame_indices = insert t (length n.frame_names) n.frame_indices;
  frame_names = n.frame_names ++ t ∷ [];
}

module _ (n : Names) (t : Text) where
  with_name-Extends : Extends n (with_name n t)
  with_name-Extends i u h =
      get_elem?-append_left i n.frame_names (t ∷ []) (get_elem?-lt i n.frame_names u h) ∙ h

  with_name_at : get_elem? (n.frame_names ++ t ∷ []) (length n.frame_names) ≡ some t
  with_name_at =
      get_elem?-append_right (length n.frame_names) 0 n.frame_names (t ∷ []) (omega arith)

  with_name-IsSound : IsSound n → IsSound (with_name n t)
  with_name-IsSound s u i h = elim (Bool-cases (same_list u t)) [
    | inl same ↦
        let is_new : (if same_list u t
              then some (length n.frame_names)
              else lookup u n.frame_indices)
            ≡ some i =
          sym (lookup-insert u t (length n.frame_names) n.frame_indices) ∙ h in
        let found : some (length n.frame_names) ≡ some i = rw same at is_new in
        let is_name : u ≡ t = (same_list_iff u t).0 same in
        let is_index : length n.frame_names ≡ i = cc in
        rw (← is_index) (with_name_at ∙ ap some (sym is_name))
    | inr other ↦
        let elsewhere : (if same_list u t
              then some (length n.frame_names)
              else lookup u n.frame_indices)
            ≡ some i =
          sym (lookup-insert u t (length n.frame_names) n.frame_indices) ∙ h in
        with_name-Extends i u (s u i (rw other at elsewhere))
  ]

  get_frame_idx-Indexed : IsSound n → Indexed n t (get_frame_idx n t)
  unfolding get_frame_idx
  get_frame_idx-Indexed s = elim (Option-cases (lookup t n.frame_indices)) [
    | inl new ↦
        rw (new, get_frame_idx)
          (record { sound = with_name-IsSound s; extends = with_name-Extends; at = with_name_at })
    | inr (i, known) ↦
        rw (known, get_frame_idx) (record { sound = s; extends = λ j u e. e; at = s t i known })
  ]

abbrev reads : Names → List ℕ → List (Option Text)
reads n = map (get_elem? n.frame_names)

-- A sample that spells some names.
record Spelled (n : Names) (ts : List Text) (r : Names × List ℕ) : Type 0 where
  sound : IsSound r.0
  extends : Extends n r.0
  spells : reads r.0 r.1 ≡ map some ts

reads-append :
    (n n' : Names) (ids : List ℕ) (id : ℕ) (ts : List Text) (t : Text)
    → Extends n n'
    → reads n ids ≡ map some ts
    → get_elem? n'.frame_names id ≡ some t
    → reads n' (ids ++ id ∷ []) ≡ map some (ts ++ t ∷ [])
reads-append n n' ids id ts t x h at =
    map-append (get_elem? n'.frame_names) ids (id ∷ [])
    ∙ rw (spell_imp (get_elem? n.frame_names) (get_elem? n'.frame_names) x ids ts h, at)
        (sym (map-append some ts (t ∷ [])))

module _ {Frame : Type 0} (env : Resolver Frame) where
  push_symbols-Spelled :
      (symbols : List Symbol) (n : Names) (ids : List ℕ) (ts : List Text)
      → IsSound n
      → reads n ids ≡ map some ts
      → Spelled n (ts ++ symbol_names env symbols) (push_symbols env (n, ids) symbols)
  unfolding push_symbols
  push_symbols-Spelled [] n ids ts s h = record {
    sound = s;
    extends = λ i u e. e;
    spells = h ∙ ap (map some) (sym (append-nil ts));
  }
  push_symbols-Spelled (y ∷ symbols) n ids ts s h =
      let name = Frames.name env y in
      let first = get_frame_idx-Indexed n name s in
      let (n', id) = get_frame_idx n name in
      let rest =
        push_symbols-Spelled symbols n' (ids ++ id ∷ []) (ts ++ name ∷ []) first.sound
          (reads-append n n' ids id ts name first.extends h first.at) in
      record {
        sound = rest.sound;
        extends = λ i u e. rest.extends i u (first.extends i u e);
        spells =
            rest.spells ∙ ap (map some) (append_assoc ts (name ∷ []) (symbol_names env symbols));
      }

  push_frames-Spelled :
      (frames : List (List Symbol)) (n : Names) (ids : List ℕ) (ts : List Text)
      → IsSound n
      → reads n ids ≡ map some ts
      → Spelled n (ts ++ reversed_names env frames) (push_frames env (n, ids) frames)
  unfolding push_frames reversed_names
  push_frames-Spelled [] n ids ts s h = record {
    sound = s;
    extends = λ i u e. e;
    spells = h ∙ ap (map some) (sym (append-nil ts));
  }
  push_frames-Spelled (f ∷ frames) n ids ts s h =
      let names = symbol_names env (reverse f) in
      let first = push_symbols-Spelled (reverse f) n ids ts s h in
      let (n', ids') = push_symbols env (n, ids) (reverse f) in
      let rest = push_frames-Spelled frames n' ids' (ts ++ names) first.sound first.spells in
      record {
        sound = rest.sound;
        extends = λ i u e. rest.extends i u (first.extends i u e);
        spells = rest.spells ∙ ap (map some) (append_assoc ts names (reversed_names env frames));
      }

  -- A stack from the outermost frame on, after its thread.
  abbrev pub outward : Frames → List Text
  outward key = thread_name_or_id env key ∷ reverse (stack_names env key.frames)

  sample_of-Spelled :
      (n : Names) (key : Frames) → IsSound n → Spelled n (outward key) (sample_of env n key)
  unfolding sample_of
  sample_of-Spelled n key s =
      let thread = thread_name_or_id env key in
      let first = get_frame_idx-Indexed n thread s in
      let (n', id) = get_frame_idx n thread in
      let rest =
        push_frames-Spelled (reverse key.frames) n' (id ∷ []) (thread ∷ []) first.sound
          (ap (λ o. o ∷ []) first.at) in
      record {
        sound = rest.sound;
        extends = λ i u e. rest.extends i u (first.extends i u e);
        spells =
            rest.spells ∙ ap (λ ts. map some (thread ∷ ts)) (reversed_names-reverse env key.frames);
      }

  abbrev pub stacks_read : Tables → List (List (Option Text))
  stacks_read t = map (reads t.names) t.samples

  -- What has been collected so far: the stacks and the weights of some entries, and their sum.
  record Collected (stacks : List (List Text)) (weights : List ℕ) (total : ℕ) (t : Tables)
      : Type 0 where
    sound : IsSound t.names
    stacks_spelled : stacks_read t ≡ map (map some) stacks
    weights_are : t.weights ≡ weights
    total_is : t.total_weight % word ≡ total % word
    total_word : t.total_weight < word

  abbrev stack_of : Entry Frames → List Text
  stack_of e = outward e.item

  abbrev weight_of : Entry Frames → ℕ
  weight_of e = e.count

  Collected-mod :
      (stacks : List (List Text)) (weights : List ℕ) (total total' : ℕ) (t : Tables)
      → total % word ≡ total' % word
      → Collected stacks weights total t
      → Collected stacks weights total' t
  Collected-mod stacks weights total total' t e c = record {
    sound = c.sound;
    stacks_spelled = c.stacks_spelled;
    weights_are = c.weights_are;
    total_is = c.total_is ∙ e;
    total_word = c.total_word;
  }

  step-Collected :
      (e : Entry Frames) (stacks : List (List Text)) (weights : List ℕ) (total : ℕ) (t : Tables)
      → lts 0 e.count ≡ true
      → Collected stacks weights total t
      → Collected
          (stacks ++ stack_of e ∷ [])
          (weights ++ e.count ∷ [])
          (total + e.count)
          (step env t e)
  unfolding step
  step-Collected e stacks weights total t counts c =
      let (n, sample) = sample_of env t.names e.item in
      let p = sample_of-Spelled t.names e.item c.sound in
      let before : map (reads n) t.samples ≡ map (map some) stacks =
        spell_each_imp (get_elem? t.names.frame_names) (get_elem? n.frame_names) p.extends t.samples
          stacks c.stacks_spelled in
      rw (counts, step)
        (record {
          sound = p.sound;
          stacks_spelled =
              map-append (reads n) t.samples (sample ∷ [])
              ∙ rw (before, p.spells) (sym (map-append (map some) stacks (stack_of e ∷ [])));
          weights_are = rw c.weights_are refl;
          total_is = omega (arith, c.total_is, c.total_word);
          total_word = omega arith;
        })

  passed_zero : (a : ℕ) → lts 0 a ≡ false → max_zero a % word ≡ 0
  passed_zero a h = ground arith

  counted_whole : (a : ℕ) → lts 0 a ≡ true → max_zero a ≡ a
  counted_whole a h = ground arith

  collect-Collected :
      (m : HashMap Frames) (stacks : List (List Text)) (weights : List ℕ) (total : ℕ) (t : Tables)
      → Collected stacks weights total t
      → Collected
          (stacks ++ map stack_of (counted env m))
          (weights ++ map weight_of (counted env m))
          (total + total_samples m)
          (collect env t m)
  unfolding collect counted total_samples
  collect-Collected [] stacks weights total t c =
      rw (append-nil stacks, append-nil weights)
        (Collected-mod stacks weights total (total + 0) t (omega arith) c)
  collect-Collected (e ∷ m) stacks weights total t c = elim (Bool-cases (lts 0 e.count)) [
    | inr passed ↦
        rw (passed, step)
          (Collected-mod _ _ (total + total_samples m) _ _
            (omega (arith, passed_zero e.count passed))
            (collect-Collected m stacks weights total t c))
    | inl counts ↦
        let kept : counted env (e ∷ m) ≡ e ∷ counted env m = rw counts refl in
        let all =
          collect-Collected m (stacks ++ stack_of e ∷ []) (weights ++ e.count ∷ [])
            (total + e.count) (step env t e) (step-Collected e stacks weights total t counts c) in
        rw kept (
          rw
            (
              ← append_assoc stacks (stack_of e ∷ []) (map stack_of (counted env m)),
              ← append_assoc weights (e.count ∷ []) (map weight_of (counted env m)),
            )
            (Collected-mod _ _ (total + e.count + total_samples m) _ _
              (omega (arith, counted_whole e.count counts)) all))
  ]

  no_tables-Collected : Collected [] [] 0 no_tables
  unfolding lookup
  no_tables-Collected = record {
    sound = λ t i h. absurd (cc h);
    stacks_spelled = refl;
    weights_are = refl;
    total_is = refl;
    total_word = omega arith;
  }

  total_samples-word : (m : HashMap Frames) → total_samples m < word
  unfolding total_samples
  total_samples-word [] = omega arith
  total_samples-word (e ∷ m) = omega arith

  -- What the tables of a report hold: for each entry that counts, its stack and its weight; and the sum.
  pub record Holds (m : HashMap Frames) (t : Tables) : Type 0 where
    pub stacks : stacks_read t ≡ map (map some) (map stack_of (counted env m))
    pub weights : t.weights ≡ map weight_of (counted env m)
    pub total : t.total_weight ≡ total_samples m

  -- From empty tables, the samples that are collected, read through the names, are the stacks of
  -- the entries with a positive count, each after its thread and from the outermost frame on; the
  -- weights are the counts; the total weight is `total_samples`.
  pub collect-Holds : (m : HashMap Frames) → Holds m (collect env no_tables m)
  collect-Holds m =
      let c = collect-Collected m [] [] 0 no_tables no_tables-Collected in
      record {
        stacks = c.stacks_spelled;
        weights = c.weights_are;
        total = omega (arith, c.total_is, c.total_word, total_samples-word m);
      }
