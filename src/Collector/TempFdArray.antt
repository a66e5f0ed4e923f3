-- ===== src/Collector/TempFdArray.antt =====
-- src/collector.rs, lines 142-238: a sequence of items in a buffer of fixed size and a temporary
-- file that the full buffer is flushed to. `n` is `BUFFER_LENGTH`, which depends on the size of an
-- entry in memory.
pub mod Push
pub mod Iter
use pprof_rs.Prelude.{
  ℕ, suc, ◌+◌, ◌-◌, ◌*◌, Option, none, some, List, Outcome, done, panic, ◌>>=◌, Result, ok, err,
  drain, ltb, leb, if◌then◌else◌, get_elem?, set, take, replicate, length,
}
use pprof_rs.Error.{IoResult}
use pprof_rs.Collector.TempFile.{TempFile}

-- `buffer` stands for an array of `n` items.
pub record TempFdArray {ℓ} (File T : Type ℓ) : Type ℓ where
  pub file : File
  pub buffer : List T
  pub buffer_index : ℕ
  pub flush_n : ℕ

-- `TempFdArrayIterator`; `file_vec` are the items that were read from the file.
pub record TempFdArrayIterator {ℓ} (T : Type ℓ) : Type ℓ where
  pub buffer : List T
  pub file_vec : List T
  pub index : ℕ

module _ {ℓ} {File T : Type ℓ} (files : TempFile File T) (n : ℕ) where
  -- The array is filled with `default`.
  unfoldable pub new : T → IoResult (TempFdArray File T)
  new default = elim files.create [
    | err e ↦ err e
    | ok f ↦ ok (record { file = f; buffer = replicate n default; buffer_index = 0; flush_n = 0 })
  ]

  -- The counters change before the write, and stay changed when it fails.
  unfoldable pub flush_buffer : TempFdArray File T → TempFdArray File T × IoResult (Unit {0})
  flush_buffer a =
      let (file, written) = files.write_all a.file a.buffer in
      (record a { file = file; buffer_index = 0; flush_n = a.flush_n + 1 }, written)

  -- `self.buffer[self.buffer_index] = entry; self.buffer_index += 1`
  unfoldable pub store : TempFdArray File T → T → Outcome (TempFdArray File T × IoResult (Unit {0}))
  store a entry =
      if ltb a.buffer_index n
      then done (
        record a { buffer = set a.buffer a.buffer_index entry; buffer_index = a.buffer_index + 1 },
        ok tt,
      )
      else panic

  unfoldable pub push : TempFdArray File T → T → Outcome (TempFdArray File T × IoResult (Unit {0}))
  unfolding store flush_buffer
  push a entry =
      if leb n a.buffer_index
      then (let (flushed, written) = flush_buffer a in
          elim written [ err e ↦ done (flushed, err e) | ok _ ↦ store flushed entry ])
      else store a entry

  -- The slice `buffer[0..buffer_index]` panics where it ends outside the array.
  unfoldable pub try_iter : TempFdArray File T → Outcome (IoResult (TempFdArrayIterator T))
  try_iter a = elim (files.read_exact a.file (n * a.flush_n)) [
    | err e ↦ done (err e)
    | ok file_vec ↦
        if leb a.buffer_index n
        then done
            (ok (record { buffer = take a.buffer_index a.buffer; file_vec = file_vec; index = 0 }))
        else panic
  ]

module _ {ℓ} {T : Type ℓ} where
  -- The items of the buffer, then those of the file.
  unfoldable pub next : TempFdArrayIterator T → Outcome (Option (T × TempFdArrayIterator T))
  next it =
      let it' = record it { index = it.index + 1 } in
      if ltb it.index (length it.buffer)
      then elim (get_elem? it.buffer (it'.index - 1)) [
        | none ↦ panic
        | some t ↦ done (some (t, it'))
      ]
      else if ltb (it.index - length it.buffer) (length it.file_vec)
      then elim (get_elem? it.file_vec (it'.index - length it.buffer - 1)) [
        | none ↦ panic
        | some t ↦ done (some (t, it'))
      ]
      else done none

  -- What a loop over the iterator sees.
  unfoldable pub collect : TempFdArrayIterator T → Outcome (List T)
  collect it = drain next (suc (length it.buffer + length it.file_vec)) it
