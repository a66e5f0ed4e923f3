-- ===== src/Collector/Bucket/Add.antt =====
-- src/collector.rs, lines 48-81: what `Bucket::add` does to a valid bucket.
use pprof_rs.Prelude.{
  ℕ, suc, ◌+◌, ◌<◌, ◌≡◌, refl, ◌∙◌, ◌⊎◌, inl, inr, true, false, Option, none, some, List, [], ◌∷◌,
  ◌++◌, done, Returns, ltb, lts, get_elem?, set, take, drop, length, arith, All, Bool-cases,
  length-append, le→leb, ltb→lt, length-drop, take_append, take-append-drop, length-set,
  length-take, take_all, take-set_next, take-set, get_elem?-some,
}
use pprof_rs.Key.{Key}
use pprof_rs.Collector.Bucket.{
  Entry, Bucket, buckets_associativity, bump, has, scan_min, evict, add,
}
use native.Mathlib.Numerals.{add-one}
use pprof_rs.Collector.Bucket.Weight.{length-bump, bump_absent, bump-Distinct}
use pprof_rs.Collector.Bucket.Change.{
  live, IsLeast, IsValid, Change, bumped, appended, replaced, Change-Distinct,
}

module _ {ℓ} {T : Type ℓ} where
  -- The scan ends at the least count seen so far or at that of a later entry.
  pub scan_min-IsLeast :
      (es : List (Entry T)) (index min_index min_count : ℕ)
      → ((scan_min es index min_index min_count ≡ min_index)
          × All (λ e. lts e.count min_count ≡ false) es)
        ⊎ ((j : ℕ) × (old : Entry T) × (scan_min es index min_index min_count ≡ index + j)
            × (get_elem? es j ≡ some old)
            × IsLeast old es
            × (lts old.count min_count ≡ true))
  unfolding scan_min
  scan_min-IsLeast [] index min_index min_count = inl (refl, tt)
  scan_min-IsLeast (e ∷ es) index min_index min_count = elim (Bool-cases (lts e.count min_count)) [
    | inl lower ↦ elim (scan_min-IsLeast es (index + 1) index e.count) [
      | inl (at, least) ↦
          inr (0, e, rw (lower, at) (omega arith), refl, (ground arith, least), lower)
      | inr (j, old, at, found, least, less) ↦
          inr (suc j, old, rw (lower, at) (omega arith), found, (ground arith, least), ground arith)
    ]
    | inr kept ↦ elim (scan_min-IsLeast es (index + 1) min_index min_count) [
      | inl (at, least) ↦ inl (rw (kept, at), (kept, least))
      | inr (j, old, at, found, least, less) ↦
          inr (suc j, old, rw (kept, at) (omega arith), found, (ground arith, least), less)
    ]
  ]

  evict_at :
      (b : Bucket T) (new_entry first old : Entry T) (i : ℕ)
      → take b.length b.entries ≡ b.entries
      → get_elem? b.entries 0 ≡ some first
      → scan_min b.entries 0 0 first.count ≡ i
      → get_elem? b.entries i ≡ some old
      → evict b new_entry ≡ done (record b { entries = set b.entries i new_entry }, some old)
  unfolding evict
  evict_at b new_entry first old i all start at found =
      rw (start, evict) (rw all (rw at (rw (found, all, at))))

  -- `evict` on a full bucket does not panic; the new entry takes the place of one that no entry
  -- undercuts, and that one is handed out.
  pub evict-IsLeast :
      (b : Bucket T) (new_entry : Entry T)
      → length b.entries ≡ buckets_associativity
      → b.length ≡ buckets_associativity
      → (i : ℕ) × (old : Entry T) × (evict b new_entry
          ≡ done (record b { entries = set b.entries i new_entry }, some old))
        × (get_elem? b.entries i ≡ some old)
        × IsLeast old b.entries
  evict-IsLeast b new_entry array full =
      let (first, e) = get_elem?-some b.entries 0 (omega arith) in
      let all = take_all b.length b.entries (omega arith) in
      elim (scan_min-IsLeast b.entries 0 0 first.count) [
        | inl (at, least) ↦ (0, first, evict_at b new_entry first first 0 all e at e, e, least)
        | inr (j, old, at, found, least, less) ↦
            (j, old, evict_at b new_entry first old j all e (omega (arith, at)) found, found, least)
      ]

module _ {ℓ} {T : Type ℓ} ⦃key : Key T⦄ (b : Bucket T) (k : T) (count : ℕ) (valid : IsValid b) where
  abbrev bumped_array : List (Entry T)
  bumped_array = bump k count (live b) ++ drop b.length b.entries

  -- With the key absent the first loop writes nothing.
  bumped_array_absent : has k (live b) ≡ false → bumped_array ≡ b.entries
  bumped_array_absent h = rw (bump_absent k count (live b) h) (take-append-drop b.length b.entries)

  bumped_array-live :
      (take b.length bumped_array ≡ bump k count (live b))
      × (length bumped_array ≡ length b.entries)
  bumped_array-live =
      let cut = length-bump k count (live b) in
      let short = length-take b.length b.entries in
      let rest = length-drop b.length b.entries in
      let whole = length-append (bump k count (live b)) (drop b.length b.entries) in
      (
        take_append b.length _ _ (omega (arith, valid.array, valid.fits)),
        omega (arith, valid.array, valid.fits),
      )

  done-IsValid : has k (live b) ≡ true → IsValid (record b { entries = bumped_array })
  done-IsValid h = record {
    array = bumped_array-live.1 ∙ valid.array;
    fits = valid.fits;
    distinct = rw bumped_array-live.0 (bump-Distinct k count (live b) valid.distinct);
  }

  abbrev Post : Bucket T × Option (Entry T) → Type ℓ
  Post r = IsValid r.0 × Change k count (live b) (live r.0) r.1

  abbrev new_entry : Entry T
  new_entry = record { item = k; count = count }

  -- The second branch: there is room.
  room_Post :
      has k (live b) ≡ false
      → b.length < buckets_associativity
      → Post (record { length = b.length + 1; entries = set b.entries b.length new_entry }, none)
  room_Post h less =
      let ext : take (b.length + 1) (set b.entries b.length new_entry) ≡ live b ++ new_entry ∷ [] =
        rw add-one (take-set_next b.length b.entries new_entry (omega (arith, valid.array))) in
      let room : length (live b) < buckets_associativity =
        omega (arith, length-take b.length b.entries, valid.array) in
      let c : Change k count (live b) _ none = appended h room ext refl in
      (
        record {
          array = length-set b.entries b.length new_entry ∙ valid.array;
          fits = omega arith;
          distinct = Change-Distinct c valid.distinct;
        },
        c,
      )

  -- The third branch: an entry is evicted.
  evicted_Post :
      has k (live b) ≡ false → b.length ≡ buckets_associativity → Returns (evict b new_entry) Post
  evicted_Post h full =
      let (i, old, run, at, least) = evict-IsLeast b new_entry valid.array full in
      let all = take_all b.length b.entries (omega (arith, valid.array)) in
      let b' : Bucket T = record b { entries = set b.entries i new_entry } in
      let all' : live b' ≡ set (live b) i new_entry = take-set b.length i b.entries new_entry in
      let c : Change k count (live b) (live b') (some old) =
        replaced i old h (rw all valid.array) (rw all at) (rw all least) all' refl in
      (
        (b', some old),
        run,
        (
          record {
            array = length-set b.entries i new_entry ∙ valid.array;
            fits = valid.fits;
            distinct = Change-Distinct c valid.distinct;
          },
          c,
        ),
      )

  -- `add` on a valid bucket does not panic and leaves a valid bucket. Its live entries change in
  -- one of three ways: the key's count is raised, the key is appended where there is room, or it
  -- takes the place of an entry of the least count, which is handed out.
  pub add-Change : Returns (add b k count) Post
  unfolding add
  add-Change =
      let sliced = le→leb b.length buckets_associativity valid.fits in
      elim (Bool-cases (has k (live b))) [
        | inl h ↦ (
          (record b { entries = bumped_array }, none),
          rw (sliced, h),
          (done-IsValid h, bumped h bumped_array-live.0 refl),
        )
        | inr h ↦ elim (Bool-cases (ltb b.length buckets_associativity)) [
          | inl less ↦ (
            (record { length = b.length + 1; entries = set b.entries b.length new_entry }, none),
            rw (sliced, h, less, bumped_array_absent h),
            room_Post h (ltb→lt b.length buckets_associativity less),
          )
          | inr full ↦
              let (r, run, post) = evicted_Post h (ground (arith, valid.fits)) in
              (r, rw (sliced, h, full, bumped_array_absent h) run, post)
        ]
      ]
