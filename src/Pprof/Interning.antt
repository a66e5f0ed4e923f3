-- ===== src/Pprof/Interning.antt =====
-- src/report.rs, lines 473-512, and src/alloc.rs, lines 434-474: the loops that intern the symbols of
-- a stack do not panic, and each location they push is read back as the name of its symbol.
use pprof_rs.Prelude.{
  ℕ, ◌+◌, ◌≤◌, ◌≡◌, refl, sym, ap, ◌∙◌, false, Option, some, List, [], ◌∷◌, ◌++◌, Returns, arith,
  if◌then◌else◌, length, get_elem?, All, All-imp, All-append, map, Bool-cases, Option-cases, inl,
  inr, Dict, lookup, insert, lookup-insert, list_equality, same_list, same_list_iff, length-append,
  spell_imp,
}
use mathlib.Core.List.{map-append}
use pprof_rs.Frames.{Text, Symbol, Resolver}
use pprof_rs.Frames
use pprof_rs.Proto.{Location, Function}
use pprof_rs.Pprof.{
  Tables, no_tables, symbol_strings, frames_strings, new_function, intern_symbol, intern_symbols,
  intern_frames,
}
use pprof_rs.Pprof.Strings.{Indexes, InTable, string_index-finds}
use pprof_rs.Pprof.Functions.{
  location_name, find_function-last, find_location-last, location_name-append,
}

module _ (table : List Text) where
  abbrev pub name_in : Tables → ℕ → Option Text
  name_in t = location_name table t.fn_tbl t.loc_tbl

  -- Numbers go up to the length of the table, and an interned name is the name of its location.
  pub record IsSound (t : Tables) : Type 0 where
    pub fns_numbered : All (λ f. f.id ≤ length t.fn_tbl) t.fn_tbl
    pub locs_numbered : All (λ l. l.id ≤ length t.fn_tbl) t.loc_tbl
    pub named : (n : Text) (id : ℕ) → lookup n t.functions ≡ some id → name_in t id ≡ some n

  -- Locations that are named keep their names.
  abbrev pub Extends : Tables → Tables → Type 0
  Extends t t' = (id : ℕ) (n : Text) → name_in t id ≡ some n → name_in t' id ≡ some n

  pub Extends-map :
      (t t' : Tables) (ids : List ℕ) (ns : List Text)
      → Extends t t'
      → map (name_in t) ids ≡ map some ns
      → map (name_in t') ids ≡ map some ns
  Extends-map t t' ids ns x h = spell_imp (name_in t) (name_in t') x ids ns h

  pub no_tables-IsSound : IsSound no_tables
  unfolding lookup
  no_tables-IsSound = record {
    fns_numbered = tt;
    locs_numbered = tt;
    named = λ n id h. absurd (cc h);
  }

  abbrev function_of : ℕ → ℕ → ℕ → ℕ → Function
  function_of id name system_name filename = record {
    id = id;
    name = name;
    system_name = system_name;
    filename = filename;
    start_line = 0;
  }

  abbrev location_of : ℕ → ℕ → Location
  location_of id lineno = record {
    id = id;
    mapping_id = 0;
    address = 0;
    line = record { function_id = id; line = lineno } ∷ [];
    is_folded = false;
  }

  -- The tables with a function of the next number.
  abbrev grown : Tables → Text → ℕ → ℕ → ℕ → ℕ → Tables
  grown t n i j k lineno =
      let id = length t.fn_tbl + 1 in
      record {
        functions = insert n id t.functions;
        fn_tbl = t.fn_tbl ++ function_of id i j k ∷ [];
        loc_tbl = t.loc_tbl ++ location_of id lineno ∷ [];
      }

  module _ (t : Tables) (n : Text) (i j k lineno : ℕ) where
    grown-Extends : Extends t (grown t n i j k lineno)
    grown-Extends id m h = location_name-append table t.fn_tbl _ t.loc_tbl _ id m h

    grown_name :
        IsSound t
        → get_elem? table i ≡ some n
        → name_in (grown t n i j k lineno) (length t.fn_tbl + 1) ≡ some n
    unfolding location_name
    grown_name s at =
        let f = function_of (length t.fn_tbl + 1) i j k in
        let l = location_of (length t.fn_tbl + 1) lineno in
        rw
          (
            find_location-last l t.loc_tbl (length t.fn_tbl) s.locs_numbered (omega arith),
            find_function-last f t.fn_tbl (length t.fn_tbl) s.fns_numbered (omega arith),
          )
          at

    grown-IsSound : IsSound t → get_elem? table i ≡ some n → IsSound (grown t n i j k lineno)
    grown-IsSound s at = record {
      fns_numbered =
          All-append (λ f. f.id ≤ length t'.fn_tbl) t.fn_tbl _
            (All-imp _ _ (λ f h. omega (arith, longer)) t.fn_tbl s.fns_numbered)
            (omega (arith, longer), tt);
      locs_numbered =
          All-append (λ l. l.id ≤ length t'.fn_tbl) t.loc_tbl _
            (All-imp _ _ (λ l h. omega (arith, longer)) t.loc_tbl s.locs_numbered)
            (omega (arith, longer), tt);
      named = named_in_grown;
    }
      where
        t' : Tables
        t' = grown t n i j k lineno

        longer : length t'.fn_tbl ≡ length t.fn_tbl + 1
        longer = length-append t.fn_tbl _

        named_in_grown :
            (m : Text) (id : ℕ) → lookup m t'.functions ≡ some id → name_in t' id ≡ some m
        named_in_grown m id h = elim (Bool-cases (same_list m n)) [
          | inl same ↦
              let is_new : (if same_list m n
                    then some (length t.fn_tbl + 1)
                    else lookup m t.functions)
                  ≡ some id =
                sym (lookup-insert m n (length t.fn_tbl + 1) t.functions) ∙ h in
              let found : some (length t.fn_tbl + 1) ≡ some id = rw same at is_new in
              let is_name : m ≡ n = (same_list_iff m n).0 same in
              let is_id : length t.fn_tbl + 1 ≡ id = cc in
              rw (← is_id) (grown_name s at ∙ ap some (sym is_name))
          | inr other ↦
              let elsewhere : (if same_list m n
                    then some (length t.fn_tbl + 1)
                    else lookup m t.functions)
                  ≡ some id =
                sym (lookup-insert m n (length t.fn_tbl + 1) t.functions) ∙ h in
              grown-Extends id m (s.named m id (rw other at elsewhere))
        ]

-- The names of a stack's symbols, in order.
module _ {Frame : Type 0} (env : Resolver Frame) where
  abbrev pub symbol_names : List Symbol → List Text
  symbol_names = map (Frames.name env)

  unfoldable pub stack_names : List (List Symbol) → List Text
  stack_names [] = []
  stack_names (symbols ∷ frames) = symbol_names symbols ++ stack_names frames

pub InTable-append :
    (table xs ys : List Text) → InTable table (xs ++ ys) → InTable table xs × InTable table ys
InTable-append table [] ys h = (tt, h)
InTable-append table (x ∷ xs) ys h =
    let (hx, hy) = InTable-append table xs ys h.1 in ((h.0, hx), hy)

-- What interning some names comes to: the tables stay sound, and the locations spell the names.
pub record Interned (table : List Text) (t : Tables) (ns : List Text) (r : Tables × List ℕ)
    : Type 0 where
  pub sound : IsSound table r.0
  pub extends : Extends table t r.0
  pub spelled : map (name_in table r.0) r.1 ≡ map some ns

module _ {Frame : Type 0} (env : Resolver Frame) (table : List Text) (strings : Dict Text ℕ)
    (ix : Indexes strings table) where
  new_function-Returns :
      (t : Tables) (s : Symbol)
      → IsSound table t
      → InTable table (Frames.name env s ∷ Frames.sys_name env s ∷ Frames.filename env s ∷ [])
      → Returns
          (new_function env strings t s)
          (λ r. Interned table t (Frames.name env s ∷ []) (r.0, r.1 ∷ []))
  unfolding new_function
  new_function-Returns t s sound (in_name, (in_sys, (in_file, _))) =
      let n = Frames.name env s in
      let line = Frames.lineno s in
      let (i, found, at) = string_index-finds strings table n ix in_name in
      let (j, found_sys, _) = string_index-finds strings table (Frames.sys_name env s) ix in_sys in
      let (k, found_file, _) =
        string_index-finds strings table (Frames.filename env s) ix in_file in
      (
        (grown table t n i j k line, length t.fn_tbl + 1),
        rw (found, found_sys, found_file),
        record {
          sound = grown-IsSound table t n i j k line sound at;
          extends = grown-Extends table t n i j k line;
          spelled = ap (λ o. o ∷ []) (grown_name table t n i j k line sound at);
        },
      )

  intern_symbol-Returns :
      (t : Tables) (s : Symbol)
      → IsSound table t
      → InTable table (Frames.name env s ∷ Frames.sys_name env s ∷ Frames.filename env s ∷ [])
      → Returns
          (intern_symbol env strings t s)
          (λ r. Interned table t (Frames.name env s ∷ []) (r.0, r.1 ∷ []))
  unfolding intern_symbol
  intern_symbol-Returns t s sound h = elim (Option-cases (lookup (Frames.name env s) t.functions)) [
    | inl new ↦
        let (r, e, p) = new_function-Returns t s sound h in (r, rw (new, intern_symbol) e, p)
    | inr (id, known) ↦ (
      (t, id),
      rw (known, intern_symbol),
      record {
        sound = sound;
        extends = λ i n e. e;
        spelled = ap (λ o. o ∷ []) (sound.named (Frames.name env s) id known);
      },
    )
  ]

  intern_symbols-Returns :
      (t : Tables) (symbols : List Symbol)
      → IsSound table t
      → InTable table (symbol_strings env symbols)
      → Returns (intern_symbols env strings t symbols) (Interned table t (symbol_names env symbols))
  unfolding intern_symbols symbol_strings
  intern_symbols-Returns t [] sound h =
      ((t, []), refl, record { sound = sound; extends = λ i n e. e; spelled = refl })
  intern_symbols-Returns t (s ∷ symbols) sound (a, (b, (c, h))) =
      let ((t', id), e, p) = intern_symbol-Returns t s sound (a, (b, (c, tt))) in
      let ((t'', ids), e', p') = intern_symbols-Returns t' symbols p.sound h in
      (
        (t'', id ∷ ids),
        rw (e, e'),
        record {
          sound = p'.sound;
          extends = λ i n x. p'.extends i n (p.extends i n x);
          spelled =
              let first : map (name_in table t'') (id ∷ []) ≡ map some (Frames.name env s ∷ []) =
                Extends-map table t' t'' (id ∷ []) (Frames.name env s ∷ []) p'.extends p.spelled in
              cc;
        },
      )

  -- The strings of a stack are in the table: interning it returns, and spells its names.
  pub intern_frames-Returns :
      (t : Tables) (frames : List (List Symbol))
      → IsSound table t
      → InTable table (frames_strings env frames)
      → Returns (intern_frames env strings t frames) (Interned table t (stack_names env frames))
  unfolding intern_frames frames_strings stack_names
  intern_frames-Returns t [] sound h =
      ((t, []), refl, record { sound = sound; extends = λ i n e. e; spelled = refl })
  intern_frames-Returns t (symbols ∷ frames) sound h =
      let (ours, others) = InTable-append table (symbol_strings env symbols) _ h in
      let ((t', ids), e, p) = intern_symbols-Returns t symbols sound ours in
      let ((t'', rest), e', p') = intern_frames-Returns t' frames p.sound others in
      (
        (t'', ids ++ rest),
        rw (e, e'),
        record {
          sound = p'.sound;
          extends = λ i n x. p'.extends i n (p.extends i n x);
          spelled =
              let first =
                Extends-map table t' t'' ids (symbol_names env symbols) p'.extends p.spelled in
              map-append _ ids rest
              ∙ rw (first, p'.spelled) (sym (map-append _ (symbol_names env symbols) _));
        },
      )
