-- ===== src/Key.antt =====
-- What `HashMap` and `Collector<T>` ask of a key: `Eq`, and `Hash` with the standard hasher.
-- `Eq` is an equivalence, and need not be the identity: two stacks that differ in their time stamp
-- are equal. Equal values hash alike; that is the contract of `Hash`.
use pprof_rs.Prelude.{ℕ, ◌≡◌, ◌↔◌, ◌∙◌, sym, inl, inr, Bool, true, Bool-cases, arith}

pub record Key {ℓ} (T : Type ℓ) : Type ℓ where
  pub eq : T → T → Bool
  pub hash : T → ℕ
  pub eq_refl : (a : T) → eq a a ≡ true
  pub eq_symm : (a b : T) → eq a b ≡ eq b a
  pub eq_trans : (a b c : T) → eq a b ≡ true → eq b c ≡ true → eq a c ≡ true
  pub eq-hash : (a b : T) → eq a b ≡ true → hash a ≡ hash b

module _ {ℓ} {T : Type ℓ} ⦃key : Key T⦄ where
  infix 50 ◌==◌
  abbrev pub ◌==◌ : T → T → Bool
  a == b = key.eq a b

  -- A question about keys that does not tell equal keys apart.
  abbrev pub Respects : (T → Bool) → Type ℓ
  Respects p = (a b : T) → (a == b) ≡ true → p a ≡ p b

  pub ==_congr : (q : T) → Respects (λ a. a == q)
  ==_congr q a b e = ground (arith, key.eq_symm a b, key.eq_trans a b q, key.eq_trans b a q)

-- A test that decides an equivalence is one.
module _ {ℓ κ} {T : Type ℓ} (eq : T → T → Bool) (Same : T → T → Type κ)
    (decides : (a b : T) → (eq a b ≡ true) ↔ Same a b) where
  pub decides_refl : ((a : T) → Same a a) → (a : T) → eq a a ≡ true
  decides_refl r a = (decides a a).1 (r a)

  pub decides_trans :
      ((a b c : T) → Same a b → Same b c → Same a c)
      → (a b c : T) → eq a b ≡ true
      → eq b c ≡ true
      → eq a c ≡ true
  decides_trans t a b c h k = (decides a c).1 (t a b c ((decides a b).0 h) ((decides b c).0 k))

  pub decides_symm : ((a b : T) → Same a b → Same b a) → (a b : T) → eq a b ≡ eq b a
  decides_symm s a b = elim (Bool-cases (eq a b)) [
    | inl h ↦ h ∙ sym ((decides b a).1 (s a b ((decides a b).0 h)))
    | inr h ↦ elim (Bool-cases (eq b a)) [
      | inl k ↦ (decides a b).1 (s b a ((decides b a).0 k)) ∙ sym k
      | inr k ↦ h ∙ sym k
    ]
  ]
