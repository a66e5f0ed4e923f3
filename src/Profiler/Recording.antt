-- ===== src/Profiler/Recording.antt =====
-- src/profiler.rs, lines 373-480: under which stack the signal handler records a signal, if it does.
use pprof_rs.Prelude.{
  ℕ, suc, ◌+◌, ◌-◌, ◌≡◌, sym, take, ltb, take_nil, ltb→lt, ltb_false→le, inl, inr, Bool, false, not,
  ◌&&◌, ◌||◌, none, some, List, [], ◌∷◌, if◌then◌else◌, arith, Bool-cases,
}
use pprof_rs.Frames.{UnresolvedFrames, Resolver, Text, max_depth, built}
use pprof_rs.Profiler.{Tick, store_frames, segment_blocklisted, name_blocklisted}

module _ {Frame : Type 0} (env : Resolver Frame) where
  -- The frames above the first one that is blocklisted.
  pub up_to_blocked : (ℕ → Bool) → List Frame → List Frame
  up_to_blocked blocked [] = []
  up_to_blocked blocked (f ∷ offered) =
      if blocked (env.ip f) then [] else f ∷ up_to_blocked blocked offered

  store_frames_from :
      (blocked : ℕ → Bool) (index : ℕ) (offered : List Frame)
      → store_frames env blocked index offered
        ≡ take (max_depth - index) (up_to_blocked blocked offered)
  unfolding store_frames up_to_blocked
  store_frames_from blocked index [] = sym (take_nil (max_depth - index))
  store_frames_from blocked index (f ∷ offered) = elim (Bool-cases (blocked (env.ip f))) [
    | inl hit ↦ rw hit (sym (take_nil (max_depth - index)))
    | inr miss ↦ elim (Bool-cases (ltb index max_depth)) [
      | inl room ↦
          let left : max_depth - index ≡ suc (max_depth - (index + 1)) =
            omega (arith, ltb→lt index max_depth room) in
          rw (miss, room, left, store_frames_from blocked (index + 1) offered)
      | inr full ↦
          let left : max_depth - index ≡ 0 = omega (arith, ltb_false→le index max_depth full) in
          rw (miss, full, left)
    ]
  ]

  -- The handler stores the first `max_depth` of the frames above the first blocklisted one.
  pub store_frames-take :
      (blocked : ℕ → Bool) (offered : List Frame)
      → store_frames env blocked 0 offered ≡ take max_depth (up_to_blocked blocked offered)
  store_frames-take blocked offered = store_frames_from blocked 0 offered

  -- The stack that a signal is counted under.
  abbrev pub stack_of : List (ℕ × ℕ) → Tick Frame → UnresolvedFrames Frame
  stack_of segments t =
      built (store_frames env (segment_blocklisted segments) 0 t.offered) t.thread_name t.thread_id
        t.timestamp

  -- The interrupted code or the thread is blocklisted.
  abbrev pub is_filtered : List (ℕ × ℕ) → List Text → Tick Frame → Bool
  is_filtered segments names t =
      (elim t.ucontext [ none ↦ false | some addr ↦ segment_blocklisted segments addr ])
      || name_blocklisted names t.thread_name

  -- How many of the signals are recorded with a stack that passes the test.
  unfoldable pub recorded :
      (UnresolvedFrames Frame → Bool) → List (ℕ × ℕ) → List Text → List (Tick Frame) → ℕ
  recorded test segments names [] = 0
  recorded test segments names (t ∷ ts) =
      (if t.lock_is_free && not (is_filtered segments names t) && test (stack_of segments t)
        then 1
        else 0)
      + recorded test segments names ts

-- How many of the signals found the lock taken.
unfoldable pub contended : {Frame : Type 0} → List (Tick Frame) → ℕ
contended [] = 0
contended (t ∷ ts) = (if t.lock_is_free then 0 else 1) + contended ts
