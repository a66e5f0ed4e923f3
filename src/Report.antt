-- ===== src/Report.antt =====
-- src/report.rs: reports built from the collector's entries. A `HashMap` from keys to counts is the
-- list of its entries, in the order in which it iterates; `get` and `insert` go by the keys' `Eq`.
pub mod Data
pub mod Builder
pub mod EndToEnd
pub mod Writer
pub mod Folded
pub mod Speedscope
use pprof_rs.Prelude.{
  ℕ, ◌+◌, Bool, true, false, Option, none, some, List, [], ◌∷◌, ◌++◌, Outcome, done, panic, ◌>>=◌,
  lts, add64, if◌then◌else◌, max_zero, length, word, ◌%◌,
}
use pprof_rs.Key.{Key, ◌==◌}
use pprof_rs.Collector.Bucket.{Entry, bump}

abbrev pub HashMap {ℓ} : Type ℓ → Type ℓ
HashMap K = List (Entry K)

module _ {ℓ} {K : Type ℓ} ⦃key : Key K⦄ where
  -- `HashMap::get`
  unfoldable pub get : K → HashMap K → Option ℕ
  get k [] = none
  get k (e ∷ m) = if e.item == k then some e.count else get k m

  -- The value of a key that is there is replaced; the key stays.
  unfoldable pub assign : K → ℕ → HashMap K → HashMap K
  assign k v [] = []
  assign k v (e ∷ m) = (if e.item == k then record e { count = v } else e) ∷ assign k v m

  -- `HashMap::insert`, with the value that it replaces.
  unfoldable pub insert : K → ℕ → HashMap K → HashMap K × Option ℕ
  insert k v m = elim (get k m) [
    | some old ↦ (assign k v m, some old)
    | none ↦ (m ++ record { item = k; count = v } ∷ [], none)
  ]

module _ {ℓ κ} {T : Type ℓ} {K : Type κ} ⦃key : Key K⦄ (make_key : T → K) where
  -- The body of the loop over the collector's entries, in `build` and in `build_unresolved`; they
  -- differ in how the key is made of the item. The last branch is `unreachable!()`.
  unfoldable pub count_entry : HashMap K → Entry T → Outcome (HashMap K)
  count_entry m entry =
      let k = make_key entry.item in
      if lts 0 entry.count
      then elim (get k m) [
        | some value ↦ done (assign k (add64 value entry.count) m)
        | none ↦
            let (m', replaced) = insert k entry.count m in
            elim replaced [ none ↦ done m' | some _ ↦ panic ]
      ]
      else done m

  unfoldable pub count_entries : HashMap K → List (Entry T) → Outcome (HashMap K)
  count_entries m [] = done m
  count_entries m (entry ∷ entries) = count_entry m entry >>= λ m'. count_entries m' entries

module _ {ℓ} {K : Type ℓ} where
  -- `total_samples`: the values, a negative one counted as zero, summed as `usize`.
  unfoldable pub total_samples : HashMap K → ℕ
  total_samples [] = 0
  total_samples (e ∷ m) = add64 (max_zero e.count) (total_samples m)

  -- `unique_stacks`
  unfoldable pub unique_stacks : HashMap K → ℕ
  unique_stacks m = length m
