-- ===== src/Heap/Sampling.antt =====
-- src/alloc.rs, lines 146-175: how often a thread's allocations are sampled.
use pprof_rs.Prelude.{
  ℕ, ◌+◌, ◌-◌, ◌≤◌, ◌<◌, ◌≡◌, ◌≢◌, refl, ap, ◌∙◌, true, false, List, [], ◌∷◌, ◌++◌, arith, lts,
  half_word, ◌==◌, inl, inr, sum_by, ◌⊎◌, All,
}
use pprof_rs.Heap.{record_sample, Globals, Thread, alloc, sub64}

-- A call of `alloc`: the frames, the pointer and the size.
pub record Call : Type 0 where
  pub offered : List ℕ
  pub ptr : ℕ
  pub size : ℕ

abbrev pub size_of : Call → ℕ
size_of c = c.size

-- A block that can be allocated: not null, and no larger than an `isize` can tell.
abbrev pub IsBlock : Call → Type 0
IsBlock c = (c.ptr ≢ 0) × (c.size < half_word)

unfoldable pub alloc_all : Globals → Thread → List Call → Globals × Thread
alloc_all g t [] = (g, t)
alloc_all g t (c ∷ calls) = let (g', t') = alloc g t c.offered c.ptr c.size in alloc_all g' t' calls

module _ (g : Globals) (profiling : g.is_profiling ≡ true) where
  -- An allocation that leaves bytes is not sampled,
  alloc_passes :
      (t : Thread) (c : Call)
      → t.in_alloc ≡ false
      → IsBlock c
      → t.bytes_left < half_word
      → c.size < t.bytes_left
      → alloc g t c.offered c.ptr c.size ≡ (g, record t { bytes_left = t.bytes_left - c.size })
  unfolding alloc
  alloc_passes t c outer (block, small) left h =
      let p : (c.ptr == 0) ≡ false = ground arith in
      let r : sub64 t.bytes_left c.size ≡ t.bytes_left - c.size = omega arith in
      let l : lts 0 (t.bytes_left - c.size) ≡ true = ground arith in
      rw (p, profiling, alloc) (rw (outer, alloc) (rw (r, l)))

  -- and one that does not is.
  alloc_sampled :
      (t : Thread) (c : Call)
      → t.in_alloc ≡ false
      → IsBlock c
      → t.bytes_left ≤ c.size
      → alloc g t c.offered c.ptr c.size ≡ (
        record g { heap = record_sample g.heap c.offered c.ptr c.size },
        record t { in_alloc = false; bytes_left = g.sample_rate },
      )
  unfolding alloc
  alloc_sampled t c outer (block, small) h =
      let p : (c.ptr == 0) ≡ false = ground arith in
      let l : lts 0 (sub64 t.bytes_left c.size) ≡ false = ground arith in
      rw (p, profiling, alloc) (rw (outer, alloc) (rw l))

  -- While profiling is on and outside of the profiler's own code, a thread that has some bytes
  -- left, fewer than 2 ^ 63, makes calls whose pointers are not null and whose sizes are below 2
  -- ^ 63. Where the calls use up the bytes left, the first one that does is sampled, those before
  -- it are not, and the count starts again from exactly the sample rate; nothing is random.
  pub alloc_all_samples :
      (t : Thread) (calls : List Call)
      → t.in_alloc ≡ false
      → 0 < t.bytes_left
      → t.bytes_left < half_word
      → All IsBlock calls
      → t.bytes_left ≤ sum_by size_of calls
      → (pre : List Call) × (c : Call) × (post : List Call) × (calls ≡ pre ++ c ∷ post)
        × (sum_by size_of pre < t.bytes_left)
        × (t.bytes_left ≤ sum_by size_of pre + c.size)
        × (alloc_all g t (pre ++ c ∷ []) ≡ (
          record g { heap = record_sample g.heap c.offered c.ptr c.size },
          record t { in_alloc = false; bytes_left = g.sample_rate },
        ))
  unfolding alloc_all sum_by
  alloc_all_samples t [] outer some_left small blocks enough = absurd (omega arith)
  alloc_all_samples t (c ∷ calls) outer some_left small blocks enough =
      elim (below_or c.size t.bytes_left) [
        | inr out ↦
            ([], c, calls, refl, some_left, omega arith, alloc_sampled t c outer blocks.0 out)
        | inl left ↦
            let t' : Thread = record t { bytes_left = t.bytes_left - c.size } in
            let (pre, d, post, e, under, over, ran) =
              alloc_all_samples t' calls outer (omega arith) (omega arith) blocks.1 (omega arith) in
            (
              c ∷ pre,
              d,
              post,
              cc,
              omega arith,
              omega arith,
              ap (λ r. alloc_all r.0 r.1 (pre ++ d ∷ []))
                    (alloc_passes t c outer blocks.0 small left)
                  ∙ ran,
            )
      ]
    where
      below_or : (a b : ℕ) → (a < b) ⊎ (b ≤ a)
      below_or a b = ground arith
