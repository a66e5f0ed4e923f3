-- ===== src/Pprof/Strings.antt =====
-- src/report.rs, lines 436-467, and src/alloc.rs, lines 400-427: the string table and its index.
use pprof_rs.Prelude.{
  ℕ, ◌+◌, ◌≡◌, refl, sym, ap, ◌∙◌, Bool, true, false, ◌||◌, Option, none, some, List, [], ◌∷◌, ◌++◌,
  done, arith, if◌then◌else◌, length, get_elem?, get_elem?-append_right, All, Bool-cases,
  Option-cases, inl, inr, Dict, lookup, insert, lookup-insert, list_equality, same_list,
  same_list_iff, length-append,
}
use mathlib.Core.List.{append_assoc}
use pprof_rs.Frames.{Text}
use pprof_rs.Pprof.{HashSet, contains, table_of, index_strings, string_index}

-- Every string of the table is found under an index at which it stands.
abbrev pub Indexes : Dict Text ℕ → List Text → Type 0
Indexes strings table =
    (t : Text)
    → contains t table ≡ true
    → (i : ℕ) × (lookup t strings ≡ some i) × (get_elem? table i ≡ some t)

-- Whatever is found stands in the table.
abbrev Points : Dict Text ℕ → List Text → Type 0
Points strings table = (t : Text) (i : ℕ) → lookup t strings ≡ some i → get_elem? table i ≡ some t

index_strings-Points :
    (table pre ts : List Text) (k : ℕ) (strings : Dict Text ℕ)
    → table ≡ pre ++ ts
    → length pre ≡ k
    → Points strings table
    → Points (index_strings k ts strings) table
unfolding index_strings
index_strings-Points table pre [] k strings e l p = p
index_strings-Points table pre (name ∷ ts) k strings e l p =
    index_strings-Points table (pre ++ name ∷ []) ts (k + 1) (insert name k strings)
      (e ∙ sym (append_assoc pre (name ∷ []) ts)) (omega (arith, length-append pre (name ∷ [])))
      here
  where
    at_k : get_elem? table k ≡ some name
    at_k = rw e (get_elem?-append_right k 0 pre (name ∷ ts) (omega arith))

    here : Points (insert name k strings) table
    here t i h = elim (Bool-cases (same_list t name)) [
      | inl same ↦
          let at_name : (if same_list t name then some k else lookup t strings) ≡ some i =
            sym (lookup-insert t name k strings) ∙ h in
          let found : some k ≡ some i = rw same at at_name in
          let is_name : t ≡ name = (same_list_iff t name).0 same in
          let is_k : k ≡ i = cc in rw (← is_k) (at_k ∙ ap some (sym is_name))
      | inr other ↦
          let elsewhere : (if same_list t name then some k else lookup t strings) ≡ some i =
            sym (lookup-insert t name k strings) ∙ h in
          p t i (rw other at elsewhere)
    ]

abbrev is_found : Option ℕ → Bool
is_found none = false
is_found (some i) = true

index_strings-finds :
    (t : Text) (ts : List Text) (k : ℕ) (strings : Dict Text ℕ)
    → (contains t ts || is_found (lookup t strings)) ≡ true
    → (i : ℕ) × (lookup t (index_strings k ts strings) ≡ some i)
unfolding index_strings
index_strings-finds t [] k strings h = elim (Option-cases (lookup t strings)) [
  | inl missing ↦ absurd (cc (rw missing at h))
  | inr (i, found) ↦ (i, found)
]
index_strings-finds t (name ∷ ts) k strings h =
    index_strings-finds t ts (k + 1) (insert name k strings)
      (ground (arith, lookup-insert t name k strings))

-- The index of a table answers for each of its strings.
pub index_strings-Indexes : (table : List Text) → Indexes (index_strings 0 table []) table
unfolding lookup
index_strings-Indexes table t h =
    let (i, found) = index_strings-finds t table 0 [] (ground arith) in
    (i, found, index_strings-Points table [] table 0 [] refl refl none_found t i found)
  where
    none_found : Points [] table
    none_found u j e = absurd (cc e)

pub contains-append :
    (t : Text) (xs ys : List Text) → contains t (xs ++ ys) ≡ (contains t xs || contains t ys)
contains-append t [] ys = refl
contains-append t (x ∷ xs) ys = ground (arith, contains-append t xs ys)

-- Strings that are all in the table.
abbrev pub InTable : List Text → List Text → Type 0
InTable table = All (λ t. contains t table ≡ true)

pub InTable-table_of :
    (set : HashSet) (inserted ts : List Text)
    → ((t : Text) → contains t ts ≡ true → contains t inserted ≡ true)
    → InTable (table_of set inserted) ts
InTable-table_of set inserted [] h = tt
InTable-table_of set inserted (t ∷ ts) h = (
  ground (arith, set.keeps t inserted, h t (self t ts)),
  InTable-table_of set inserted ts (λ u k. h u (ground arith)),
)
  where
    self : (u : Text) (us : List Text) → contains u (u ∷ us) ≡ true
    self u us = ground (arith, (same_list_iff u u).1 refl)

-- `unwrap` does not panic on a string of the table.
pub string_index-finds :
    (strings : Dict Text ℕ) (table : List Text) (t : Text)
    → Indexes strings table
    → contains t table ≡ true
    → (i : ℕ) × (string_index strings t ≡ done i) × (get_elem? table i ≡ some t)
unfolding string_index
string_index-finds strings table t ix h =
    let (i, found, at) = ix t h in (i, rw (found, string_index), at)
