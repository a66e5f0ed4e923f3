-- ===== src/Collector/HashCounter/Add.antt =====
-- src/collector.rs, lines 123-139: what `HashCounter::add` does to a sound table.
use pprof_rs.Prelude.{
  ℕ, zero, suc, ◌+◌, ◌<◌, ◌≡◌, refl, ◌∙◌, Bool, Option, some, [], done, Returns, get_elem?, set,
  All, arith, All-set, All-get, length, length-set, get_elem?-some, to_list, Adds, if◌then◌else◌,
  length-replicate, All-replicate, replicate,
}
use pprof_rs.Key.{Key, Respects}
use pprof_rs.Collector.Bucket.{Entry, Bucket, has}
use pprof_rs.Collector.Bucket
use pprof_rs.Collector.Bucket.Change.{live, IsValid, Change, Change-weigh, Change-All}
use pprof_rs.Collector.Bucket.Add.{add-Change}
use pprof_rs.Collector.Bucket.Weight.{weigh, Distinct}
use pprof_rs.Collector.HashCounter.{HashCounter, slot, buckets_count, new, add, collect}
use pprof_rs.Collector.HashCounter.Place.{
  contents, weigh-contents-set, IsPlaced, set-IsPlaced, get-IsPlaced, contents-Distinct,
  collect_buckets-contents,
}

module _ {ℓ} {T : Type ℓ} ⦃key : Key T⦄ where
  pub record IsSound (h : HashCounter T) : Type 0 where
    pub array : length h.buckets ≡ buckets_count
    pub buckets_valid : All IsValid h.buckets
    pub placed : IsPlaced 0 h.buckets

  slot-lt : (k : T) → slot k < buckets_count
  unfolding slot
  slot-lt k = omega arith

  -- What `add` did to the table, and what it evicted.
  pub record Counted (k : T) (count : ℕ) (h : HashCounter T) (r : HashCounter T × Option (Entry T))
      : Type ℓ where
    pub sound : IsSound r.0
    pub balance :
        (p : T → Bool)
        → Respects p
        → Adds
            (weigh p (contents r.0.buckets) + weigh p (to_list r.1))
            (weigh p (contents h.buckets))
            (if p k then count else 0)

  module _ (h : HashCounter T) (k : T) (count : ℕ) (v : IsSound h) where
    module _ (b b' : Bucket T) (out : Option (Entry T)) (at : get_elem? h.buckets (slot k) ≡ some b)
        (run : Bucket.add b k count ≡ done (b', out)) (valid : IsValid b) (valid' : IsValid b')
        (change : Change k count (live b) (live b') out) where
      abbrev h' : HashCounter T
      h' = record h { buckets = set h.buckets (slot k) b' }

      add_run : add h k count ≡ done (h', out)
      unfolding add
      add_run = rw (at, add) (rw run)

      add-IsSound : IsSound h'
      add-IsSound =
          let here = get-IsPlaced 0 (slot k) (slot k) h.buckets b (omega arith) at v.placed in
          record {
            array = length-set h.buckets (slot k) b' ∙ v.array;
            buckets_valid = All-set IsValid h.buckets (slot k) b' valid' v.buckets_valid;
            placed =
                set-IsPlaced 0 (slot k) (slot k) h.buckets b' (omega arith)
                  (Change-All (λ x. slot x ≡ slot k) refl change here).0 v.placed;
          }

      add-Counted_at : Counted k count h (h', out)
      add-Counted_at = record {
        sound = add-IsSound;
        balance = λ p r. ground (
          arith,
          Change-weigh p r change valid.distinct,
          weigh-contents-set p h.buckets (slot k) b b' at,
        );
      }

    -- `add` does not panic; every count is kept in the table or handed out.
    pub add-Counted : Returns (add h k count) (Counted k count h)
    add-Counted =
        let (b, at) = get_elem?-some h.buckets (slot k) (omega (arith, slot-lt k, v.array)) in
        let valid = All-get IsValid h.buckets (slot k) b at v.buckets_valid in
        let ((b', out), run, (valid', change)) = add-Change b k count valid in
        (
          (h' b b' out at run valid valid' change, out),
          add_run b b' out at run valid valid' change,
          add-Counted_at b b' out at run valid valid' change,
        )

  -- `add` on a sound table does not panic and keeps it sound. For every set of keys that respects
  -- their equality, what the table counts, with what it hands out, grows by `count` if the key is
  -- in the set and else not, modulo the word.
  pub add-Adds :
      (h : HashCounter T) (k : T) (count : ℕ) (p : T → Bool)
      → IsSound h
      → Respects p
      → Returns (add h k count) λ r.
        IsSound r.0
        × Adds
            (weigh p (contents r.0.buckets) + weigh p (to_list r.1))
            (weigh p (contents h.buckets))
            (if p k then count else 0)
  add-Adds h k count p v resp =
      let (r, run, counted) = add-Counted h k count v in
      (r, run, (counted.sound, counted.balance p resp))

  -- A loop over a sound table ends without a panic and sees the live entries of every bucket, no
  -- two of which have equal keys.
  pub collect-contents :
      (h : HashCounter T)
      → IsSound h
      → (collect h ≡ done (contents h.buckets)) × Distinct (contents h.buckets)
  unfolding collect
  collect-contents h v = (
    collect_buckets-contents h.buckets v.buckets_valid,
    contents-Distinct 0 h.buckets v.placed v.buckets_valid,
  )

  new_buckets :
      (default : T) (i n : ℕ)
      → IsPlaced i (replicate n (Bucket.new default))
        × (contents (replicate n (Bucket.new default)) ≡ [])
  unfolding contents Bucket.new
  new_buckets d i zero = (tt, refl)
  new_buckets d i (suc n) = ((tt, (new_buckets d (suc i) n).0), (new_buckets d (suc i) n).1)

  -- A fresh table is sound and empty.
  pub new-IsSound : (default : T) → IsSound (new default) × (contents (new default).buckets ≡ [])
  unfolding new Bucket.new
  new-IsSound d = (
    record {
      array = length-replicate buckets_count (Bucket.new d);
      buckets_valid =
          All-replicate IsValid buckets_count (Bucket.new d)
            (record { array = refl; fits = omega arith; distinct = tt });
      placed = (new_buckets d 0 buckets_count).0;
    },
    (new_buckets d 0 buckets_count).1,
  )
