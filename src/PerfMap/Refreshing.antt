-- ===== src/PerfMap/Refreshing.antt =====
-- `init_resolver` and `get_resolver` of src/perfmap.rs over time: the file is written by others, calls
-- look addresses up, and the threads that calls spawn load the file again.
use pprof_rs.Prelude.{
  ◌&&◌, not, ℕ, ◌≡◌, refl, ap, Bool, true, false, inl, inr, Option, none, some, List, [], ◌∷◌, All,
  ◌==◌, if◌then◌else◌, Bool-cases, Option-cases, arith,
}
use pprof_rs.Frames.{Text}
use pprof_rs.Error.{IoResult}
use pprof_rs.PerfMap.{
  PerfMap, PerfFile, Statics, new, read_lines, find, find_in, touch, init_resolver, force, force_on,
  refresh, get_resolver, resolve_in_perfmap, find_symbol,
}

-- What happens to the statics and the file. Whether the thread of a call runs before its load,
-- whether the system refuses to open the path for writing, and the second at which a step happens
-- are part of the step.
pub data Step : Type 0 where
  write : Option PerfFile → Step
  reload : Bool → ℕ → Step
  look_up : Bool → Bool → ℕ → ℕ → Step

unfoldable pub step : Step → Statics → Statics
step (write f) s = record s { file = f }
step (reload refused now) s = refresh refused now s
step (look_up early refused now ip) s = (resolve_in_perfmap early refused now s ip).0

unfoldable pub run : List Step → Statics → Statics
run [] s = s
run (e ∷ es) s = run es (step e s)

-- The statics before the first use, where the file holds these lines and is from the second `t`.
abbrev pub unused : List (IoResult Text) → ℕ → ℕ → Statics
unused lines t mtime = record {
  file = some (record { lines = lines; modified = some t });
  mtime = mtime;
  resolver = none;
}

-- The first use of `RESOLVER` empties the file and finds nothing in it.
forced_first :
    (now : ℕ) (s : Statics) (ip : ℕ)
    → s.resolver ≡ none
    → (find_symbol (force false now s).1 ip ≡ none)
      × ((force false now s).0.file ≡ some (record { lines = []; modified = some now }))
unfolding force init_resolver touch new read_lines find find_in
forced_first now s ip h = elim (Bool-cases (s.mtime == now)) [
  | inl e ↦ rw (h, e) (refl, refl)
  | inr e ↦ rw (h, e) (refl, refl)
]

refresh_first :
    (now t mtime : ℕ) (lines : List (IoResult Text))
    → refresh false now (unused lines t mtime) ≡ (
        if mtime == t then unused lines t mtime else elim (new lines) [
          | none ↦ unused lines t t
          | some m ↦ record (force false now (unused lines t t)).0 { resolver = some (some m) }
        ])
unfolding refresh init_resolver
refresh_first now t mtime lines = elim (Bool-cases (mtime == t)) [
  | inl e ↦ rw e refl
  | inr e ↦ elim (Option-cases (new lines)) [
    | inl fails ↦ rw (e, fails) refl
    | inr (m, loads) ↦ rw (e, loads) refl
  ]
]

-- The first call of `resolve_in_perfmap`, where the system lets it open the path, empties the
-- file. If the thread that it spawns runs before its load of `RESOLVER`, and the old file is from
-- another second than `MTIME`, it finds what the map of the old file has for the address; else it
-- finds nothing.
pub first_look_up :
    (early : Bool) (now t mtime : ℕ) (lines : List (IoResult Text)) (ip : ℕ)
    → ((resolve_in_perfmap early false now (unused lines t mtime) ip).1
        ≡ (if early && not (mtime == t) then find_symbol (new lines) ip else none))
      × ((resolve_in_perfmap early false now (unused lines t mtime) ip).0.file
          ≡ some (record { lines = []; modified = some now }))
unfolding resolve_in_perfmap get_resolver find force
first_look_up false now t mtime lines ip = forced_first now (unused lines t mtime) ip refl
first_look_up true now t mtime lines ip = elim (Bool-cases (mtime == t)) [
  | inl e ↦
      rw (refresh_first now t mtime lines, e) (forced_first now (unused lines t mtime) ip refl)
  | inr e ↦ elim (Option-cases (new lines)) [
    | inl fails ↦
        rw (refresh_first now t mtime lines, e, fails) (forced_first now (unused lines t t) ip refl)
    | inr (m, loads) ↦ rw (refresh_first now t mtime lines, e, loads) (stored m)
  ]
]
  where
    stored :
        (m : PerfMap)
        → (find_symbol
              (force false now
                (record (force false now (unused lines t t)).0 { resolver = some (some m) })).1
              ip
            ≡ find_symbol (some m) ip)
          × ((force false now
                (record (force false now (unused lines t t)).0 { resolver = some (some m) })).0.file
              ≡ some (record { lines = []; modified = some now }))
    stored m = (refl, (forced_first now (unused lines t t) ip refl).1)

-- A file, if there is one, was last modified in this second.
abbrev pub IsFrom : ℕ → Option PerfFile → Type 0
IsFrom t none = Unit
IsFrom t (some f) = f.modified ≡ some t

abbrev pub StepIsFrom : ℕ → Step → Type 0
StepIsFrom t (write f) = IsFrom t f
StepIsFrom t (reload refused now) = Unit
StepIsFrom t (look_up early refused now ip) = Unit

-- Nothing new can be loaded from a file of the second `t`.
record IsStale (t : ℕ) (r : Option PerfMap) (s : Statics) : Type 0 where
  looked : s.mtime ≡ t
  forced : s.resolver ≡ some r
  file_from : IsFrom t s.file

same : (n : ℕ) → (n == n) ≡ true
same n = ground arith

unseen_none :
    (t : ℕ) (s : Statics) (o : Option PerfFile)
    → s.file ≡ o
    → s.mtime ≡ t
    → IsFrom t o
    → init_resolver s ≡ (s, none)
unfolding init_resolver
unseen_none t s none e m h = rw e refl
unseen_none t s (some f) e m h = rw (e, h, m, same t) refl

looked_up :
    (t : ℕ) (early refused : Bool) (now : ℕ) (s : Statics) (ip : ℕ) (r : Option PerfMap)
    → IsStale t r s
    → (resolve_in_perfmap early refused now s ip).0 ≡ s
unfolding resolve_in_perfmap get_resolver force refresh
looked_up t true refused now s ip r h =
    rw (unseen_none t s s.file refl h.looked h.file_from)
      (ap (λ o. (force_on refused now s o).0) h.forced)
looked_up t false refused now s ip r h = ap (λ o. (force_on refused now s o).0) h.forced

ap_IsStale : (t : ℕ) (r : Option PerfMap) (s s' : Statics) → s' ≡ s → IsStale t r s → IsStale t r s'
ap_IsStale t r s s' e h = rw e h

step-IsStale :
    (t : ℕ) (r : Option PerfMap) (e : Step) (s : Statics)
    → IsStale t r s
    → StepIsFrom t e
    → IsStale t r (step e s)
unfolding step refresh resolve_in_perfmap get_resolver force
step-IsStale t r (write f) s h from = record {
  looked = h.looked;
  forced = h.forced;
  file_from = from;
}
step-IsStale t r (reload refused now) s h from =
    rw (unseen_none t s s.file refl h.looked h.file_from) h
step-IsStale t r (look_up early refused now ip) s h from =
    ap_IsStale t r s (resolve_in_perfmap early refused now s ip).0
      (looked_up t early refused now s ip r h) h

run-IsStale :
    (t : ℕ) (r : Option PerfMap) (es : List Step) (s : Statics)
    → IsStale t r s
    → All (StepIsFrom t) es
    → IsStale t r (run es s)
unfolding run
run-IsStale t r [] s h from = h
run-IsStale t r (e ∷ es) s h from =
    run-IsStale t r es (step e s) (step-IsStale t r e s h from.0) from.1

-- The statics after the first use, where the file holds these lines and is from the second `t`.
abbrev pub in_use : List (IoResult Text) → ℕ → ℕ → Option PerfMap → Statics
in_use lines t mtime r = record {
  file = some (record { lines = lines; modified = some t });
  mtime = mtime;
  resolver = some r;
}

-- What a reload leaves: a map that loads replaces the old one, else the old one stays.
abbrev pub newest : Option PerfMap → Option PerfMap → Option PerfMap
newest r none = r
newest r (some m) = some m

reloaded :
    (refused : Bool) (now t mtime : ℕ) (lines : List (IoResult Text)) (r : Option PerfMap)
    → refresh refused now (in_use lines t mtime r)
      ≡ in_use lines t t (if mtime == t then r else newest r (new lines))
unfolding refresh init_resolver force
reloaded refused now t mtime lines r = elim (Bool-cases (mtime == t)) [
  | inl e ↦ rw e (ap (λ n. in_use lines t n r) (ground arith))
  | inr e ↦ elim (Option-cases (new lines)) [
    | inl fails ↦ rw (e, fails) refl
    | inr (m, loads) ↦ rw (e, loads) refl
  ]
]

-- A reload at a file of the second `t` replaces the map if the file is from another second than
-- the one looked at last and all its lines are well formed, and else keeps it. Whatever happens
-- after it, the map stays as long as the files that are written are from the second `t`.
pub run-refresh :
    (es : List Step) (refused : Bool) (now t mtime : ℕ) (lines : List (IoResult Text))
    (r : Option PerfMap)
    → All (StepIsFrom t) es
    → (run es (refresh refused now (in_use lines t mtime r))).resolver
      ≡ some (if mtime == t then r else newest r (new lines))
run-refresh es refused now t mtime lines r from =
    rw (reloaded refused now t mtime lines r)
      (run-IsStale t (if mtime == t then r else newest r (new lines)) es
        (in_use lines t t (if mtime == t then r else newest r (new lines)))
        (record { looked = refl; forced = refl; file_from = refl }) from).forced
