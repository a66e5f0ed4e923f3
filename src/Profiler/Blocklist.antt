-- ===== src/Profiler/Blocklist.antt =====
-- src/profiler.rs, lines 505-531: what the two blocklists block.
use pprof_rs.Prelude.{
  ℕ, suc, ◌≤◌, ◌<◌, ◌≡◌, ◌≢◌, refl, sym, ap, ◌∙◌, ◌↔◌, inl, inr, true, ◌&&◌, List, [], ◌∷◌, ◌++◌,
  leb, ltb, le→leb, length, take, drop, arith, Any, Bool-cases, take-append-drop, take_append,
  length-append,
}
use pprof_rs.Frames.{Text, text_eq}
use pprof_rs.Profiler.{
  Profiler, windows, any_eq, name_blocklisted, segment_blocklisted, is_thread_blocklisted,
  is_blocklisted,
}

-- `b` stands somewhere in `name`.
abbrev pub Occurs : Text → Text → Type 0
Occurs b name = (pre : Text) × (post : Text) × (name ≡ pre ++ (b ++ post))

text_eq_sound : (a b : Text) → text_eq a b ≡ true → a ≡ b
unfolding text_eq
text_eq_sound [] [] h = refl
text_eq_sound [] (y ∷ b) h = cc
text_eq_sound (x ∷ a) [] h = cc
text_eq_sound (x ∷ a) (y ∷ b) h = ground (arith, text_eq_sound a b)

pub text_eq_refl : (a : Text) → text_eq a a ≡ true
unfolding text_eq
text_eq_refl [] = refl
text_eq_refl (x ∷ a) = ground (arith, text_eq_refl a)

windows_sound : (b name : Text) → any_eq b (windows (length b) name) ≡ true → Occurs b name
unfolding any_eq windows
windows_sound b [] h = cc
windows_sound b (c ∷ name) h = elim (Bool-cases (leb (length b) (length (c ∷ name)))) [
  | inr short ↦ absurd (cc (rw short at h))
  | inl fits ↦ elim (Bool-cases (text_eq (take (length b) (c ∷ name)) b)) [
    | inl same ↦
        let here = text_eq_sound _ b same in
        (
          [],
          drop (length b) (c ∷ name),
          sym (take-append-drop (length b) (c ∷ name))
              ∙ ap (λ t. t ++ drop (length b) (c ∷ name)) here,
        )
    | inr differs ↦
        let later : any_eq b (windows (length b) name) ≡ true = rw (fits, differs) at h in
        let (pre, post, e) = windows_sound b name later in (c ∷ pre, post, ap (λ rest. c ∷ rest) e)
  ]
]

windows_complete :
    (x : ℕ) (b pre post : Text)
    → any_eq (x ∷ b) (windows (suc (length b)) (pre ++ (x ∷ b ++ post))) ≡ true
unfolding any_eq windows
windows_complete x b [] post = rw (
  le→leb (suc (length b)) (suc (length (b ++ post))) (omega (arith, length-append b post)),
  take_append (length b) b post refl,
  text_eq_refl (x ∷ b),
)
windows_complete x b (c ∷ pre) post =
    let fits : suc (length b) ≤ suc (length (pre ++ (x ∷ b ++ post))) =
      omega (arith, length-append pre (x ∷ b ++ post), length-append b post) in
    rw (le→leb (suc (length b)) (suc (length (pre ++ (x ∷ b ++ post)))) fits)
      (ground (arith, windows_complete x b pre post))

-- A thread is left out just if a pattern of the list that is not empty occurs in its name.
abbrev pub IsBlocked : List Text → Text → Type 0
IsBlocked list name = Any (λ b. (b ≢ []) × Occurs b name) list

name_blocklisted_sound :
    (list : List Text) (name : Text) → name_blocklisted list name ≡ true → IsBlocked list name
unfolding name_blocklisted
name_blocklisted_sound [] name h = cc
name_blocklisted_sound ([] ∷ list) name h = inr (name_blocklisted_sound list name h)
name_blocklisted_sound ((x ∷ b) ∷ list) name h =
    elim (Bool-cases (any_eq (x ∷ b) (windows (suc (length b)) name))) [
      | inl hit ↦ inl (λ e. cc, windows_sound (x ∷ b) name hit)
      | inr miss ↦ inr (name_blocklisted_sound list name (rw miss at h))
    ]

name_blocklisted_complete :
    (list : List Text) (name : Text) → IsBlocked list name → name_blocklisted list name ≡ true
unfolding name_blocklisted
name_blocklisted_complete [] name h = absurd h
name_blocklisted_complete ([] ∷ list) name (inl h) = absurd (h.0 refl)
name_blocklisted_complete ([] ∷ list) name (inr h) = name_blocklisted_complete list name h
name_blocklisted_complete ((x ∷ b) ∷ list) name (inl (_, (pre, post, e))) =
    rw (e, windows_complete x b pre post)
name_blocklisted_complete ((x ∷ b) ∷ list) name (inr h) =
    ground (arith, name_blocklisted_complete list name h)

module _ {File Frame : Type 0} (p : Profiler File Frame) where
  -- A thread is blocklisted just if some pattern of the list is not empty and occurs in its name.
  pub is_thread_blocklisted_iff :
      (name : Text) → (is_thread_blocklisted p name ≡ true) ↔ IsBlocked p.thread_blocklist name
  unfolding is_thread_blocklisted
  is_thread_blocklisted_iff name = (
    name_blocklisted_sound p.thread_blocklist name,
    name_blocklisted_complete p.thread_blocklist name,
  )

segments_sound :
    (segs : List (ℕ × ℕ)) (addr : ℕ)
    → segment_blocklisted segs addr ≡ true
    → Any (λ s. (s.0 < addr) × (addr < s.1)) segs
unfolding segment_blocklisted
segments_sound [] addr h = cc
segments_sound (s ∷ segs) addr h = elim (Bool-cases (ltb s.0 addr && ltb addr s.1)) [
  | inl hit ↦ inl (ground arith, ground arith)
  | inr miss ↦ inr (segments_sound segs addr (rw miss at h))
]

segments_complete :
    (segs : List (ℕ × ℕ)) (addr : ℕ)
    → Any (λ s. (s.0 < addr) × (addr < s.1)) segs
    → segment_blocklisted segs addr ≡ true
unfolding segment_blocklisted
segments_complete [] addr h = absurd h
segments_complete (s ∷ segs) addr (inl h) = ground arith
segments_complete (s ∷ segs) addr (inr h) = ground (arith, segments_complete segs addr h)

module _ {File Frame : Type 0} (p : Profiler File Frame) where
  -- An address is blocklisted just if it lies strictly between the ends of some segment.
  pub is_blocklisted_iff :
      (addr : ℕ)
      → (is_blocklisted p addr ≡ true) ↔ Any (λ s. (s.0 < addr) × (addr < s.1)) p.blocklist_segments
  unfolding is_blocklisted
  is_blocklisted_iff addr =
      (segments_sound p.blocklist_segments addr, segments_complete p.blocklist_segments addr)
