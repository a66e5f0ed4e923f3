-- ===== src/Collector/TempFdArray/Push.antt =====
-- src/collector.rs, lines 149-211: `push` and `try_iter`, with the file as it is documented.
use pprof_rs.Prelude.{
  ℕ, ◌+◌, ◌*◌, ◌≤◌, ◌<◌, ◌≡◌, refl, ap, ◌∙◌, List, [], ◌∷◌, ◌++◌, done, ok, err, Returns, leb,
  lt→ltb, le→leb, leb→le, leb_false→lt, set, take, replicate, length, arith, length-append,
  length-set, length-replicate, take-set_next, take_all, Bool-cases, inl, inr,
}
use mathlib.Core.List.{Perm, perm_middle, append_assoc, perm_append_comm}
use mathlib.Core.List.Perm
use native.Mathlib.Numerals.{add-one}
use pprof_rs.Error.{IoResult}
use pprof_rs.Collector.TempFile.{TempFile, FileLaws, NoIoErrors}
use pprof_rs.Collector.TempFdArray.{
  TempFdArray, TempFdArrayIterator, new, store, push, try_iter, collect,
}
use pprof_rs.Collector.TempFdArray.Iter.{collect-append}

module _ {ℓ} {File T : Type ℓ} (files : TempFile File T) (n : ℕ) (laws : FileLaws files) where
  open laws use {contents}

  -- The buffer is as long as it should be, and the file holds every flush.
  pub record IsSound (a : TempFdArray File T) : Type 0 where
    pub array : length a.buffer ≡ n
    pub fits : a.buffer_index ≤ n
    pub flushed : length (contents a.file) ≡ n * a.flush_n

  -- What was pushed: the part of the buffer in use, then the file.
  abbrev pub items : TempFdArray File T → List T
  items a = take a.buffer_index a.buffer ++ contents a.file

  abbrev flushed_array : TempFdArray File T → TempFdArray File T
  flushed_array a = record a {
    file = (files.write_all a.file a.buffer).0;
    buffer_index = 0;
    flush_n = a.flush_n + 1;
  }

  -- A sequence whose file is shorter than its flushes cannot be read.
  try_iter_short :
      (a : TempFdArray File T)
      → length (contents a.file) < n * a.flush_n
      → (e : ℕ) × (try_iter files n a ≡ done (err e))
  unfolding try_iter
  try_iter_short a short = go (files.read_exact a.file (n * a.flush_n)) refl
    where
      go :
          (r : IoResult (List T))
          → files.read_exact a.file (n * a.flush_n) ≡ r
          → (e : ℕ) × (try_iter files n a ≡ done (err e))
      go (err e) run = (e, rw (run, try_iter))
      go (ok ts) run =
          absurd (omega (arith, (laws.read_exact-contents a.file (n * a.flush_n) ts run).0))

  -- Where a push to a full buffer fails because the write does, and the file holds less than all
  -- flushes after it, the error is returned, and the array that is left cannot be iterated over.
  pub push_failed :
      (a : TempFdArray File T) (entry : T) (e : ℕ)
      → n ≤ a.buffer_index
      → (files.write_all a.file a.buffer).1 ≡ err e
      → length (contents (files.write_all a.file a.buffer).0) < n * (a.flush_n + 1)
      → (a' : TempFdArray File T) × (e' : ℕ) × (push files n a entry ≡ done (a', err e))
        × (try_iter files n a' ≡ done (err e'))
  unfolding push
  push_failed a entry e full failed short =
      let (e', unreadable) = try_iter_short (flushed_array a) short in
      (flushed_array a, e', rw (le→leb n a.buffer_index full, failed), unreadable)

  module _ (healthy : NoIoErrors files laws) (positive : 0 < n) where
    -- The item is in, as often as before, whatever the order.
    pub record Pushed (entry : T) (a : TempFdArray File T)
        (r : TempFdArray File T × IoResult (Unit {0})) : Type ℓ where
      pub succeeds : r.1 ≡ ok tt
      pub sound : IsSound r.0
      pub holds : Perm (items r.0) (entry ∷ items a)

    store-Pushed :
        (a : TempFdArray File T) (entry : T)
        → IsSound a
        → a.buffer_index < n
        → Returns (store files n a entry) (Pushed entry a)
    unfolding store
    store-Pushed a entry v room =
        let ext : take (a.buffer_index + 1) (set a.buffer a.buffer_index entry)
            ≡ take a.buffer_index a.buffer ++ entry ∷ [] =
          rw add-one (take-set_next a.buffer_index a.buffer entry (omega (arith, v.array))) in
        (
          (
            record a {
              buffer = set a.buffer a.buffer_index entry;
              buffer_index = a.buffer_index + 1;
            },
            ok tt,
          ),
          rw (lt→ltb a.buffer_index n room),
          record {
            succeeds = refl;
            sound = record {
              array = length-set a.buffer a.buffer_index entry ∙ v.array;
              fits = omega arith;
              flushed = v.flushed;
            };
            holds =
                rw (ext, append_assoc)
                  (perm_middle {a = entry} (take a.buffer_index a.buffer) (contents a.file));
          },
        )

    flush-IsSound :
        (a : TempFdArray File T)
        → IsSound a
        → (contents (flushed_array a).file ≡ contents a.file ++ a.buffer)
          × IsSound (flushed_array a)
    flush-IsSound a v =
        let grown = laws.write_all-contents a.file a.buffer (healthy.writes a.file a.buffer) in
        (
          grown,
          record {
            array = v.array;
            fits = omega arith;
            flushed =
                rw grown
                  (omega (arith, length-append (contents a.file) a.buffer, v.array, v.flushed));
          },
        )

    -- With a file that does not fail and a buffer that is not empty in size, `push` on a sound
    -- array neither panics nor fails, leaves a sound array, and what it stores is the new item
    -- with what it stored before, up to order.
    pub push-Pushed :
        (a : TempFdArray File T) (entry : T)
        → IsSound a
        → Returns (push files n a entry) (Pushed entry a)
    unfolding push
    push-Pushed a entry v = elim (Bool-cases (leb n a.buffer_index)) [
      | inr room ↦ rw room (store-Pushed a entry v (leb_false→lt _ _ room))
      | inl full ↦
          let (grown, v') = flush-IsSound a v in
          let (r, run, done') = store-Pushed (flushed_array a) entry v' positive in
          let whole = take_all a.buffer_index a.buffer (omega (arith, v.array, leb→le _ _ full)) in
          let swapped : Perm (contents (flushed_array a).file) (items a) =
            rw (grown, whole) (perm_append_comm (contents a.file) a.buffer) in
          (
            r,
            rw (full, healthy.writes a.file a.buffer) run,
            record {
              succeeds = done'.succeeds;
              sound = done'.sound;
              holds = Perm.trans done'.holds (Perm.cons entry swapped);
            },
          )
    ]

    abbrev Iterates : TempFdArray File T → TempFdArrayIterator T → Type ℓ
    Iterates a it = (try_iter files n a ≡ done (ok it)) × (collect it ≡ done (items a))

    try_iter_at :
        (a : TempFdArray File T) (ts : List T)
        → IsSound a
        → files.read_exact a.file (n * a.flush_n) ≡ ok ts
        → ts ≡ contents a.file
        → Iterates a (record { buffer = take a.buffer_index a.buffer; file_vec = ts; index = 0 })
    unfolding try_iter
    try_iter_at a ts v run whole = (
      rw (run, try_iter) (rw (le→leb a.buffer_index n v.fits)),
      collect-append (take a.buffer_index a.buffer) ts
          ∙ ap (λ rest. done (take a.buffer_index a.buffer ++ rest)) whole,
    )

    -- With a file that does not fail, `try_iter` on a sound array neither panics nor fails, and a
    -- loop over its iterator ends and sees the used part of the buffer and then what the file
    -- holds.
    pub try_iter-items :
        (a : TempFdArray File T) → IsSound a → (it : TempFdArrayIterator T) × Iterates a it
    try_iter-items a v =
        let (ts, run) = healthy.reads a.file (n * a.flush_n) (omega (arith, v.flushed)) in
        let (_, cut) = laws.read_exact-contents a.file (n * a.flush_n) ts run in
        let whole = cut ∙ take_all (n * a.flush_n) (contents a.file) (omega (arith, v.flushed)) in
        (_, try_iter_at a ts v run whole)

    -- A new array is empty.
    pub new-IsSound :
        (default : T)
        → (a : TempFdArray File T) × (new files n default ≡ ok a) × IsSound a × (items a ≡ [])
    unfolding new
    new-IsSound default =
        let (f, made) = healthy.creates in
        let empty = laws.create-contents f made in
        (
          record { file = f; buffer = replicate n default; buffer_index = 0; flush_n = 0 },
          rw made,
          record {
            array = length-replicate n default;
            fits = omega arith;
            flushed = rw empty (omega arith);
          },
          empty,
        )
