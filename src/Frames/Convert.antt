-- ===== src/Frames/Convert.antt =====
-- src/frames.rs, lines 63-80 and 203-246: `UnresolvedFrames::new` and `Frames::from`.
use pprof_rs.Prelude.{
  ℕ, ◌≡◌, ◌≢◌, refl, ap, Bool, true, false, not, ◌&&◌, ◌||◌, List, [], ◌∷◌, ◌++◌, length, arith,
  Bool-cases, inl, inr, All, done, ◌≤◌, drop, replicate, le→leb, map, if◌then◌else◌, take_append,
}
use pprof_rs.Frames.{
  UnresolvedFrames, Resolver, Symbol, Text, convert, symbols_of, any_handler, push_unless_empty,
  new, from, built, max_thread_name,
}

-- A thread name of at most `max_thread_name` bytes does not make `new` panic; the stack has the
-- frames given, and `from` reads the same name, thread and time back.
pub new-from :
    {Frame : Type 0} (env : Resolver Frame) (frames : List Frame) (tn : Text) (id ts : ℕ)
    → length tn ≤ max_thread_name
    → (u : UnresolvedFrames Frame) × (new frames tn id ts ≡ done u)
      × (u.frames ≡ frames)
      × ((from env u).thread_name ≡ env.from_utf8_lossy tn)
      × ((from env u).thread_id ≡ id)
      × ((from env u).sample_timestamp ≡ ts)
unfolding new from
new-from env frames tn id ts h = (
  built frames tn id ts,
  rw (le→leb (length tn) max_thread_name h),
  refl,
  ap env.from_utf8_lossy
      (take_append (length tn) tn (drop (length tn) (replicate max_thread_name 0)) refl),
  refl,
  refl,
)

push_append :
    (ss : List Symbol) (fs gs : List (List Symbol))
    → push_unless_empty ss (fs ++ gs) ≡ push_unless_empty ss fs ++ gs
push_append [] fs gs = refl
push_append (s ∷ ss) fs gs = refl

abbrev is_empty : List Symbol → Bool
is_empty [] = true
is_empty (s ∷ ss) = false

-- The lists that are not empty, in order.
abbrev with_symbols : List (List Symbol) → List (List Symbol)
with_symbols [] = []
with_symbols (ss ∷ stack) = if is_empty ss then with_symbols stack else ss ∷ with_symbols stack

with_symbols_cons :
    (ss : List Symbol) (stack : List (List Symbol))
    → with_symbols (ss ∷ stack) ≡ push_unless_empty ss (with_symbols stack)
with_symbols_cons [] stack = refl
with_symbols_cons (s ∷ ss) stack = refl

module _ {Frame : Type 0} (env : Resolver Frame) where
  abbrev IsHandler : Frame → Type 0
  IsHandler f = any_handler env (symbols_of env f) ≡ true

  push-All :
      (P : List Symbol → Type 0) (ss : List Symbol) (fs : List (List Symbol))
      → (ss ≢ [] → P ss)
      → All P fs
      → All P (push_unless_empty ss fs)
  push-All P [] fs h a = a
  push-All P (s ∷ ss) fs h a = (h (λ e. cc), a)

  -- No frame of the result is empty or has the signal handler among its symbols.
  pub convert-clean :
      (skip : Bool) (frames : List Frame)
      → All (λ ss. (ss ≢ []) × (any_handler env ss ≡ false)) (convert env skip frames)
  unfolding convert
  convert-clean skip [] = tt
  convert-clean skip (f ∷ frames) = elim (Bool-cases (skip || any_handler env (symbols_of env f))) [
    | inl out ↦ rw out (convert-clean (not skip && any_handler env (symbols_of env f)) frames)
    | inr kept ↦ rw kept (
        push-All _ (symbols_of env f) _ (λ n. (n, ground arith))
          (convert-clean (not skip && any_handler env (symbols_of env f)) frames))
  ]

  -- The symbols of each frame in order, without the frames that have none.
  abbrev pub resolved : List Frame → List (List Symbol)
  resolved frames = with_symbols (map (symbols_of env) frames)

  resolved_cons :
      (f : Frame) (frames : List Frame)
      → resolved (f ∷ frames) ≡ push_unless_empty (symbols_of env f) (resolved frames)
  resolved_cons f frames = with_symbols_cons (symbols_of env f) (map (symbols_of env) frames)

  pub convert-resolved :
      (frames : List Frame)
      → All (λ f. any_handler env (symbols_of env f) ≡ false) frames
      → convert env false frames ≡ resolved frames
  unfolding convert
  convert-resolved [] a = refl
  convert-resolved (f ∷ frames) a =
      rw (resolved_cons f frames, a.0, convert-resolved frames a.1) refl

  -- Where no frame above it has the handler among its symbols, the handler's frame and the one
  -- after it are left out, of the frames above the symbols of each are kept in order, without the
  -- frames that have none, and the rest is converted on its own.
  pub convert_at_handler :
      (above : List Frame) (handler trampoline : Frame) (rest : List Frame)
      → All (λ f. any_handler env (symbols_of env f) ≡ false) above
      → IsHandler handler
      → convert env false (above ++ handler ∷ trampoline ∷ rest)
        ≡ resolved above ++ convert env false rest
  unfolding convert
  convert_at_handler [] handler trampoline rest a h = rw h
  convert_at_handler (f ∷ above) handler trampoline rest a h =
      rw (resolved_cons f above, a.0, convert_at_handler above handler trampoline rest a.1 h)
        (push_append (symbols_of env f) (resolved above) (convert env false rest))
