-- ===== src/Collector/TempFdArray/Iter.antt =====
-- src/collector.rs, lines 213-238: a loop over the iterator of the array.
use pprof_rs.Prelude.{
  ℕ, zero, suc, ◌+◌, ◌-◌, ◌≤◌, ◌≡◌, true, some, none, List, ◌++◌, done, ltb, lt→ltb, Yields, end,
  item, drain-Yields, get_elem?, get_elem?-some, drop, length, arith, drop_all, drop_next,
  length-append, get_elem?-append_left, get_elem?-append_right, Bool-cases, ltb→lt, le→ltb_false,
  ltb_false→le, inl, inr, get_elem?-lt,
}
use pprof_rs.Collector.TempFdArray.{TempFdArrayIterator, next, collect}

module _ {ℓ} {T : Type ℓ} (buffer file_vec : List T) where
  abbrev at : ℕ → TempFdArrayIterator T
  at i = record { buffer = buffer; file_vec = file_vec; index = i }

  next_end : (i : ℕ) → length buffer + length file_vec ≤ i → next (at i) ≡ done none
  unfolding next
  next_end i h = rw (
    le→ltb_false i (length buffer) (omega arith),
    le→ltb_false (i - length buffer) (length file_vec) (omega arith),
  )

  next_item :
      (i : ℕ) (t : T)
      → get_elem? (buffer ++ file_vec) i ≡ some t
      → next (at i) ≡ done (some (t, at (suc i)))
  unfolding next
  next_item i t h =
      let up : i + 1 ≡ suc i = omega arith in
      let within = get_elem?-lt i (buffer ++ file_vec) t h in
      elim (Bool-cases (ltb i (length buffer))) [
        | inl buffered ↦
            let slot : i + 1 - 1 ≡ i = omega arith in
            let same = get_elem?-append_left i buffer file_vec (ltb→lt _ _ buffered) in
            rw (buffered, slot, ← same, h, up)
        | inr behind ↦
            let j = i - length buffer in
            let past = ltb_false→le _ _ behind in
            let slot : i + 1 - length buffer - 1 ≡ j = omega arith in
            let same = get_elem?-append_right i j buffer file_vec (omega arith) in
            let in_file : ltb j (length file_vec) ≡ true =
              lt→ltb j (length file_vec) (omega (arith, length-append buffer file_vec)) in
            rw (behind, in_file, slot, ← same, h, up)
      ]

  next-Yields :
      (left i : ℕ)
      → i + left ≡ length buffer + length file_vec
      → Yields next (at i) (drop i (buffer ++ file_vec))
  next-Yields zero i h =
      rw (drop_all i (buffer ++ file_vec) (omega (arith, length-append buffer file_vec)))
        (end (next_end i (omega arith)))
  next-Yields (suc left) i h =
      let (t, found) =
        get_elem?-some (buffer ++ file_vec) i (omega (arith, length-append buffer file_vec)) in
      rw (drop_next i (buffer ++ file_vec) t found)
        (item (next_item i t found) (next-Yields left (suc i) (omega arith)))

  -- A loop over the iterator ends without a panic, and sees the buffer and then the file.
  pub collect-append : collect (at 0) ≡ done (buffer ++ file_vec)
  unfolding collect
  collect-append =
      drain-Yields next (suc (length buffer + length file_vec))
        (next-Yields (length buffer + length file_vec) 0 (omega arith))
        (omega (arith, length-append buffer file_vec))
