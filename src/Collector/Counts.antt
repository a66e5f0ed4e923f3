-- ===== src/Collector/Counts.antt =====
-- src/collector.rs, lines 240-267: what the collector as a whole counts.
use mathlib.Core.List.{Perm, Permᴰ}
use mathlib.Core.Logic.{∥∥₁_elim}
use native.Mathlib.Nat.{ℕ_set}
use pprof_rs.Prelude.{
  ℕ, ◌+◌, ◌≤◌, ◌<◌, ◌≡◌, refl, ◌∙◌, Bool, true, some, none, List, [], ◌∷◌, ◌++◌, done, ok, Returns,
  arith, Adds, Adds-exact_from, word, if◌then◌else◌,
}
use pprof_rs.Error.{IoResult}
use pprof_rs.Key.{Key, Respects}
use pprof_rs.Collector.{Collector, new, add, add_all, try_iter}
use pprof_rs.Collector.Bucket.{Entry, default_entry}
use pprof_rs.Collector.Bucket.Weight.{weigh, weigh-append}
use pprof_rs.Collector.HashCounter
use pprof_rs.Collector.HashCounter.{HashCounter}
use pprof_rs.Collector.HashCounter.Place.{contents}
use pprof_rs.Collector.HashCounter.Add as Table
use pprof_rs.Collector.TempFile.{TempFile, FileLaws, NoIoErrors}
use pprof_rs.Collector.TempFdArray
use pprof_rs.Collector.TempFdArray.{TempFdArray}
use pprof_rs.Collector.TempFdArray.Push as Spill

module _ {ℓ} {T : Type ℓ} where
  weigh-perm_d : (p : T → Bool) {xs ys : List (Entry T)} → Permᴰ xs ys → weigh p xs ≡ weigh p ys
  unfolding weigh
  weigh-perm_d p Permᴰ.nil = refl
  weigh-perm_d p (Permᴰ.cons e r) = rw (e, weigh-perm_d p r)
  weigh-perm_d p (Permᴰ.swap e f) = rw (e, f) (omega arith)
  weigh-perm_d p (Permᴰ.trans r s) = weigh-perm_d p r ∙ weigh-perm_d p s

  weigh-perm : (p : T → Bool) {xs ys : List (Entry T)} → Perm xs ys → weigh p xs ≡ weigh p ys
  weigh-perm p h = ∥∥₁_elim h (ℕ_set _ _) (weigh-perm_d p)

  -- What was asked to be counted of the keys that pass the test.
  unfoldable pub tally : (T → Bool) → List (T × ℕ) → ℕ
  tally p [] = 0
  tally p ((k, count) ∷ calls) = (if p k then count else 0) + tally p calls

module _ {ℓ} {T : Type ℓ} where
  pub tally_le_all : (p : T → Bool) (calls : List (T × ℕ)) → tally p calls ≤ tally (λ _. true) calls
  unfolding tally
  tally_le_all p [] = omega arith
  tally_le_all p ((k, count) ∷ calls) = ground (arith, tally_le_all p calls)

module _ {ℓ} {File T : Type ℓ} ⦃key : Key T⦄ (files : TempFile File (Entry T)) (n : ℕ)
    (laws : FileLaws files) where
  pub record IsSound (c : Collector File T) : Type 0 where
    pub map : Table.IsSound c.map
    pub temp_array : Spill.IsSound files n laws c.temp_array

  -- The table and the array together.
  abbrev pub entries : Collector File T → List (Entry T)
  entries c = contents c.map.buckets ++ Spill.items files n laws c.temp_array

  pub record Added (k : T) (count : ℕ) (c : Collector File T)
      (r : Collector File T × IoResult (Unit {0})) : Type ℓ where
    pub succeeds : r.1 ≡ ok tt
    pub sound : IsSound r.0
    pub balance :
        (p : T → Bool)
        → Respects p
        → Adds (weigh p (entries r.0)) (weigh p (entries c)) (if p k then count else 0)

  module _ (healthy : NoIoErrors files laws) (positive : 0 < n) where
    module _ (c : Collector File T) (k : T) (count : ℕ) (v : IsSound c) where
      add_kept :
          (map : HashCounter T)
          → HashCounter.add c.map k count ≡ done (map, none)
          → Table.Counted k count c.map (map, none)
          → Returns (add files n c k count) (Added k count c)
      unfolding add weigh
      add_kept map run counted =
          let a = Spill.items files n laws c.temp_array in
          (
            (record c { map = map }, ok tt),
            rw run,
            record {
              succeeds = refl;
              sound = record { map = counted.sound; temp_array = v.temp_array };
              balance = λ p r. ground (
                arith,
                counted.balance p r,
                weigh-append p (contents map.buckets) a,
                weigh-append p (contents c.map.buckets) a,
              );
            },
          )

      add_evicted :
          (map : HashCounter T) (out : Entry T)
          (r : TempFdArray File (Entry T) × IoResult (Unit {0}))
          → HashCounter.add c.map k count ≡ done (map, some out)
          → TempFdArray.push files n c.temp_array out ≡ done r
          → Table.Counted k count c.map (map, some out)
          → Spill.Pushed files n laws healthy positive out c.temp_array r
          → Returns (add files n c k count) (Added k count c)
      unfolding add weigh
      add_evicted map out r run run' counted pushed = (
        (record { map = map; temp_array = r.0 }, r.1),
        rw (run, run'),
        record {
          succeeds = pushed.succeeds;
          sound = record { map = counted.sound; temp_array = pushed.sound };
          balance = λ p resp. ground (
            arith,
            counted.balance p resp,
            weigh-append p (contents map.buckets) (Spill.items files n laws r.0),
            weigh-append p (contents c.map.buckets) (Spill.items files n laws c.temp_array),
            weigh-perm p pushed.holds,
          );
        },
      )

      -- `add` does not panic or fail, and changes the weight of its key only.
      pub add-Added : Returns (add files n c k count) (Added k count c)
      add-Added = go (Table.add-Counted c.map k count v.map)
        where
          go :
              Returns (HashCounter.add c.map k count) (Table.Counted k count c.map)
              → Returns (add files n c k count) (Added k count c)
          go ((map, none), run, counted) = add_kept map run counted
          go ((map, some out), run, counted) =
              let (r, run', pushed) =
                Spill.push-Pushed files n laws healthy positive c.temp_array out v.temp_array in
              add_evicted map out r run run' counted pushed

    -- A loop over the collector ends, and sees the entries of the table and of the array.
    pub try_iter-entries :
        (c : Collector File T) → IsSound c → try_iter files n c ≡ done (ok (entries c))
    unfolding try_iter
    try_iter-entries c v =
        let (it, (run, seen)) =
          Spill.try_iter-items files n laws healthy positive c.temp_array v.temp_array in
        rw (run, (Table.collect-contents c.map v.map).0, seen)

    -- A history of calls adds up, modulo the word.
    pub add_all-Adds :
        (c : Collector File T) (calls : List (T × ℕ))
        → IsSound c
        → Returns (add_all files n c calls) λ c'.
          IsSound c'
          × ((p : T → Bool)
              → Respects p
              → Adds (weigh p (entries c')) (weigh p (entries c)) (tally p calls))
    unfolding add_all tally
    add_all-Adds c [] v = (c, refl, (v, λ p r. ground arith))
    add_all-Adds c ((k, count) ∷ calls) v =
        let (r, run, added) = add-Added c k count v in
        let (c', runs, (v', adds)) = add_all-Adds r.0 calls added.sound in
        (c', rw run runs, (v', λ p resp. ground (arith, adds p resp, added.balance p resp)))

    -- A new collector is empty.
    pub new-IsSound :
        (default : T)
        → (c : Collector File T) × (new files n default ≡ ok c) × IsSound c × (entries c ≡ [])
    unfolding new
    new-IsSound default =
        let (a, run, v, empty) =
          Spill.new-IsSound files n laws healthy positive (default_entry default) in
        (
          record { map = HashCounter.new default; temp_array = a },
          rw (run, new),
          record { map = (Table.new-IsSound default).0; temp_array = v },
          rw ((Table.new-IsSound default).1, empty),
        )

    -- With a file that does not fail, a new collector takes any sequence of calls of `add` whose
    -- counts add up to less than a word without a panic, can then be iterated over, and for every
    -- set of keys that respects their equality its entries add up to what was counted for them.
    pub add_all-exact :
        (default : T) (calls : List (T × ℕ)) (p : T → Bool)
        → Respects p
        → tally (λ _. true) calls < word
        → (start c : Collector File T) × (new files n default ≡ ok start)
          × (add_all files n start calls ≡ done c)
          × (try_iter files n c ≡ done (ok (entries c)))
          × (weigh p (entries c) ≡ tally p calls)
    add_all-exact default calls p resp small =
        let (start, made, v, empty) = new-IsSound default in
        let (c, run, (v', adds)) = add_all-Adds start calls v in
        (
          start,
          c,
          made,
          run,
          try_iter-entries c v',
          let zero_before : weigh p (entries start) ≡ 0 = rw empty (unfold weigh in refl) in
              Adds-exact_from _ _ _ zero_before (adds p resp) (omega (arith, tally_le_all p calls)),
        )
