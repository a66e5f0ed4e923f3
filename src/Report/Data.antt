-- ===== src/Report/Data.antt =====
-- src/report.rs, lines 113-140: the map that a report is made of.
use pprof_rs.Prelude.{
  ℕ, ◌<◌, ◌≡◌, refl, sym, ◌∙◌, Bool, true, false, some, none, List, [], ◌∷◌, ◌++◌, Returns, arith,
  Adds, Adds-exact_from, half_word, lts, add64, if◌then◌else◌, Bool-cases, inl, inr, Option-cases,
  All,
}
use pprof_rs.Key.{Key, ◌==◌, Respects}
use pprof_rs.Collector.Bucket.{Entry, bump, has}
use pprof_rs.Collector.Bucket.Change.{append-Distinct}
use pprof_rs.Collector.Bucket.Weight.{
  weigh, weigh-append, weigh_le_all, weigh-bump, bump-Distinct, Distinct, has_congr, bump_absent,
}
use pprof_rs.Report.{HashMap, get, assign, insert, count_entry, count_entries, total_samples}

module _ {ℓ} {K : Type ℓ} ⦃key : Key K⦄ where
  get-none : (k : K) (m : HashMap K) → get k m ≡ none → has k m ≡ false
  unfolding get has
  get-none k [] h = refl
  get-none k (e ∷ m) h = ground (arith, get-none k m)

  has_of_get : (k : K) (v : ℕ) (m : HashMap K) → get k m ≡ some v → has k m ≡ true
  unfolding get has
  has_of_get k v [] h = cc
  has_of_get k v (e ∷ m) h = ground (arith, has_of_get k v m)

  assign_absent : (k : K) (v : ℕ) (m : HashMap K) → has k m ≡ false → assign k v m ≡ m
  unfolding assign has
  assign_absent k v [] h = refl
  assign_absent k v (e ∷ m) h = ground (arith, assign_absent k v m)

  pub weigh_absent : (k : K) (m : HashMap K) → has k m ≡ false → weigh (λ j. j == k) m ≡ 0
  unfolding weigh has
  weigh_absent k [] h = refl
  weigh_absent k (e ∷ m) h = ground (arith, weigh_absent k m)

  pub absent-get : (k : K) (m : HashMap K) → has k m ≡ false → get k m ≡ none
  unfolding get has
  absent-get k [] h = refl
  absent-get k (e ∷ m) h = ground (arith, absent-get k m)

  pub insert_absent :
      (k : K) (v : ℕ) (m : HashMap K)
      → get k m ≡ none
      → insert k v m ≡ (m ++ record { item = k; count = v } ∷ [], none)
  unfolding insert
  insert_absent k v m h = rw (h, insert)

  -- Reading a value and writing the sum back is the collector's own way to add.
  assign-eq-bump :
      (k : K) (v c : ℕ) (m : HashMap K)
      → Distinct m
      → get k m ≡ some v
      → assign k (add64 v c) m ≡ bump k c m
  unfolding get assign bump has
  assign-eq-bump k v c [] d h = cc
  assign-eq-bump k v c (e ∷ m) d h = elim (Bool-cases (e.item == k)) [
    | inr other ↦ rw (other, assign-eq-bump k v c m d.1 (rw other at h))
    | inl same ↦
        let found : e.count ≡ v = (let found : some e.count ≡ some v = rw same at h in cc) in
        let absent : has k m ≡ false = sym (has_congr e.item k m same) ∙ d.0 in
        rw (same, found, assign_absent k (add64 v c) m absent, bump_absent k c m absent)
  ]

module _ {ℓ κ} {T : Type ℓ} {K : Type κ} ⦃key : Key K⦄ (make_key : T → K) where
  -- What counting one entry does to the map.
  record Counted (m : HashMap K) (e : Entry T) (m' : HashMap K) : Type κ where
    distinct : Distinct m'
    balance :
        (p : K → Bool)
        → Respects p
        → Adds (weigh p m') (weigh p m) (if p (make_key e.item) then e.count else 0)

  count_entry-Counted :
      (m : HashMap K) (e : Entry T)
      → Distinct m
      → e.count < half_word
      → Returns (count_entry make_key m e) (Counted m e)
  unfolding count_entry weigh
  count_entry-Counted m e d small =
      let k = make_key e.item in
      elim (Bool-cases (lts 0 e.count)) [
        | inr zero_count ↦
            let none_left : e.count ≡ 0 = ground arith in
            (
              m,
              rw zero_count,
              record { distinct = d; balance = λ p r. rw none_left (ground arith) },
            )
        | inl positive ↦ elim (Option-cases (get k m)) [
          | inl missing ↦
              let absent = get-none k m missing in
              (
                m ++ record { item = k; count = e.count } ∷ [],
                rw (positive, missing, insert_absent k e.count m missing)
                    (rw (insert_absent k e.count m missing)),
                record {
                  distinct = append-Distinct m _ absent d;
                  balance = λ p r.
                      ground (arith, weigh-append p m (record { item = k; count = e.count } ∷ []));
                },
              )
          | inr (v, found) ↦
              let there = has_of_get k v m found in
              (
                bump k e.count m,
                rw (positive, found, assign-eq-bump k v e.count m d found),
                record {
                  distinct = bump-Distinct k e.count m d;
                  balance = λ p r. weigh-bump p k e.count m r d there;
                },
              )
        ]
      ]

  count_entries-Adds :
      (m : HashMap K) (es : List (Entry T))
      → Distinct m
      → All (λ e. e.count < half_word) es
      → Returns (count_entries make_key m es) λ m'.
        Distinct m'
        × ((p : K → Bool)
            → Respects p
            → Adds (weigh p m') (weigh p m) (weigh (λ t. p (make_key t)) es))
  unfolding count_entries weigh
  count_entries-Adds m [] d small = (m, refl, (d, λ p r. ground arith))
  count_entries-Adds m (e ∷ es) d small =
      let (m', run, step) = count_entry-Counted m e d small.0 in
      let (m'', runs, (d', adds)) = count_entries-Adds m' es step.distinct small.1 in
      (m'', rw run runs, (d', λ p r. ground (arith, adds p r, step.balance p r)))

  small_counts :
      (n : ℕ) (es : List (Entry T)) → weigh (λ _. true) es < n → All (λ e. e.count < n) es
  unfolding weigh
  small_counts n [] h = tt
  small_counts n (e ∷ es) h = (omega arith, small_counts n es (omega arith))

  -- The loop does not panic. As long as the counts add up to less than 2 ^ 63, the map has one
  -- entry for each key, and what it counts is what the entries count, for any set of keys.
  pub count_entries-exact :
      (es : List (Entry T))
      → weigh (λ _. true) es < half_word
      → Returns (count_entries make_key [] es) λ m.
        Distinct m × ((p : K → Bool) → Respects p → weigh p m ≡ weigh (λ t. p (make_key t)) es)
  unfolding weigh
  count_entries-exact es small =
      let (m, run, (d, adds)) = count_entries-Adds [] es tt (small_counts half_word es small) in
      (
        m,
        run,
        (
          d,
          λ p r.
              Adds-exact_from _ 0 _ refl (adds p r)
                (omega (arith, weigh_le_all (λ t. p (make_key t)) es)),
        ),
      )

  -- The loop over entries that count less than 2 ^ 63 together, from an empty map, does not panic
  -- and ends with a map of distinct keys. For every set of keys that respects their equality, the
  -- map counts what the entries with such a key count.
  pub count_entries-weigh :
      (es : List (Entry T)) (p : K → Bool)
      → Respects p
      → weigh (λ _. true) es < half_word
      → Returns
          (count_entries make_key [] es)
          λ m. Distinct m × (weigh p m ≡ weigh (λ t. p (make_key t)) es)
  count_entries-weigh es p r small =
      let (m, run, (d, exact)) = count_entries-exact es small in (m, run, (d, exact p r))

module _ {ℓ} {K : Type ℓ} ⦃key : Key K⦄ where
  -- In a map with one entry for each key, the value that a lookup finds is what the map counts
  -- for the key.
  pub get-weigh :
      (q : K) (m : HashMap K) (v : ℕ) → Distinct m → get q m ≡ some v → weigh (λ k. k == q) m ≡ v
  unfolding get weigh has
  get-weigh q [] v d h = cc
  get-weigh q (e ∷ m) v d h =
      ground (arith, get-weigh q m v d.1, weigh_absent q m, has_congr e.item q m)

  -- Where the counts add up to less than 2 ^ 63, `total_samples` is their sum.
  pub total_samples-weigh :
      (m : HashMap K) → weigh (λ _. true) m < half_word → total_samples m ≡ weigh (λ _. true) m
  unfolding total_samples weigh
  total_samples-weigh [] h = refl
  total_samples-weigh (e ∷ m) h = ground (arith, total_samples-weigh m (omega arith))
