-- ===== src/Prelude/Maps.antt =====
-- Hash maps as association lists, one entry for each key, and sums over lists.
use Prim.Native.Nat.{ℕ, zero, suc, ◌+◌}
use mathlib.Core.Path.{◌≡◌, refl, sym, subst}
use mathlib.Core.Logic.{◌↔◌, inl, inr}
use mathlib.Core.Bool.{Bool, true, false, ◌&&◌, ◌||◌}
use mathlib.Core.Option.{Option, none, some}
use mathlib.Core.List.{List, [], ◌∷◌, ◌++◌}
use native.Mathlib.Omega.{arith}
use pprof_rs.Prelude.Tests.{◌==◌, ==_iff, if◌then◌else◌, Bool-cases}
use pprof_rs.Prelude.Lists.{get_elem?, set, All}

-- A test that decides equality.
pub record Equality {ℓ} (A : Type ℓ) : Type ℓ where
  pub same : A → A → Bool
  pub same_iff : (a b : A) → (same a b ≡ true) ↔ (a ≡ b)

instance abbrev pub number_equality : Equality ℕ
number_equality = record { same = λ a b. a == b; same_iff = ==_iff }

unfoldable pub same_list : List ℕ → List ℕ → Bool
same_list [] [] = true
same_list [] (y ∷ ys) = false
same_list (x ∷ xs) [] = false
same_list (x ∷ xs) (y ∷ ys) = (x == y) && same_list xs ys

pub same_list_iff : (xs ys : List ℕ) → (same_list xs ys ≡ true) ↔ (xs ≡ ys)
unfolding same_list
same_list_iff [] [] = (λ e. refl, λ e. refl)
same_list_iff [] (y ∷ ys) = (λ e. cc, λ e. cc)
same_list_iff (x ∷ xs) [] = (λ e. cc, λ e. cc)
same_list_iff (x ∷ xs) (y ∷ ys) =
    let (to, back) = same_list_iff xs ys in (λ e. ground (arith, to), λ e. ground (arith, back))

instance abbrev pub list_equality : Equality (List ℕ)
list_equality = record { same = same_list; same_iff = same_list_iff }

abbrev pub Dict {ℓ κ} : Type ℓ → Type κ → Type (ℓ ⊔ κ)
Dict K V = List (K × V)

module _ {ℓ κ} {K : Type ℓ} {V : Type κ} ⦃eq : Equality K⦄ where
  unfoldable pub lookup : K → Dict K V → Option V
  lookup k [] = none
  lookup k ((j, v) ∷ d) = if eq.same k j then some v else lookup k d

  -- The value of a key that is there is replaced.
  unfoldable pub insert : K → V → Dict K V → Dict K V
  insert k v [] = (k, v) ∷ []
  insert k v ((j, w) ∷ d) = if eq.same k j then (j, v) ∷ d else (j, w) ∷ insert k v d

  unfoldable pub erase : K → Dict K V → Dict K V
  erase k [] = []
  erase k ((j, w) ∷ d) = if eq.same k j then d else (j, w) ∷ erase k d

  -- A change through a reference to the value of a key.
  unfoldable pub modify : K → (V → V) → Dict K V → Dict K V
  modify k f [] = []
  modify k f ((j, w) ∷ d) = (j, if eq.same k j then f w else w) ∷ modify k f d

  unfoldable pub has_key : K → Dict K V → Bool
  has_key k [] = false
  has_key k ((j, w) ∷ d) = eq.same k j || has_key k d

  abbrev pub NodupKeys : Dict K V → Type 0
  NodupKeys [] = Unit {0}
  NodupKeys ((k, _) ∷ d) = (has_key k d ≡ false) × NodupKeys d

  -- The law of a map, in `if` form.
  pub lookup-insert :
      (j k : K) (v : V) (d : Dict K V)
      → lookup j (insert k v d) ≡ (if eq.same j k then some v else lookup j d)
  unfolding lookup insert
  lookup-insert j k v [] = refl
  lookup-insert j k v ((i, w) ∷ d) =
      ground (arith, lookup-insert j k v d, eq.same_iff j k, eq.same_iff k i, eq.same_iff j i)

  pub lookup-has_key : (k : K) (v : V) (d : Dict K V) → lookup k d ≡ some v → has_key k d ≡ true
  unfolding lookup has_key
  lookup-has_key k v [] h = cc
  lookup-has_key k v ((j, w) ∷ d) h = ground (arith, lookup-has_key k v d)

  pub has_key-modify : (j k : K) (f : V → V) (d : Dict K V) → has_key j (modify k f d) ≡ has_key j d
  unfolding has_key modify
  has_key-modify j k f [] = refl
  has_key-modify j k f ((i, w) ∷ d) = ground (arith, has_key-modify j k f d)

  pub modify-NodupKeys : (k : K) (f : V → V) (d : Dict K V) → NodupKeys d → NodupKeys (modify k f d)
  unfolding modify
  modify-NodupKeys k f [] u = tt
  modify-NodupKeys k f ((j, w) ∷ d) u =
      ground (arith, has_key-modify j k f d, modify-NodupKeys k f d u.1)

  pub has_key-insert :
      (j k : K) (v : V) (d : Dict K V) → has_key j (insert k v d) ≡ (eq.same j k || has_key j d)
  unfolding has_key insert
  has_key-insert j k v [] = refl
  has_key-insert j k v ((i, w) ∷ d) =
      ground (arith, has_key-insert j k v d, eq.same_iff j k, eq.same_iff k i, eq.same_iff j i)

  pub insert-NodupKeys : (k : K) (v : V) (d : Dict K V) → NodupKeys d → NodupKeys (insert k v d)
  unfolding insert has_key
  insert-NodupKeys k v [] u = (refl, tt)
  insert-NodupKeys k v ((j, w) ∷ d) u =
      ground (
        arith,
        insert-NodupKeys k v d u.1,
        has_key-insert j k v d,
        eq.same_iff j k,
        eq.same_iff k j,
      )

-- Sums over a list.
unfoldable pub sum_by {ℓ} : {A : Type ℓ} → (A → ℕ) → List A → ℕ
sum_by f [] = 0
sum_by f (x ∷ xs) = f x + sum_by f xs

module _ {ℓ} {A : Type ℓ} (f : A → ℕ) where
  pub sum_by-append : (xs ys : List A) → sum_by f (xs ++ ys) ≡ sum_by f xs + sum_by f ys
  unfolding sum_by
  sum_by-append [] ys = omega arith
  sum_by-append (x ∷ xs) ys = omega (arith, sum_by-append xs ys)

  -- What a write puts in and what it takes out balance.
  pub sum_by-set :
      (xs : List A) (i : ℕ) (old v : A)
      → get_elem? xs i ≡ some old
      → sum_by f (set xs i v) + f old ≡ sum_by f xs + f v
  unfolding sum_by
  sum_by-set [] i old v h = cc
  sum_by-set (x ∷ xs) zero old v h = ground arith
  sum_by-set (x ∷ xs) (suc i) old v h = omega (arith, sum_by-set xs i old v h)

-- What a map's values, and the value that a lookup finds, add up to.
abbrev pub of_value {ℓ κ} : {K : Type ℓ} {V : Type κ} → (V → ℕ) → K × V → ℕ
of_value f (k, v) = f v

abbrev pub of_option {κ} : {V : Type κ} → (V → ℕ) → Option V → ℕ
of_option f none = 0
of_option f (some v) = f v

module _ {ℓ κ} {K : Type ℓ} {V : Type κ} ⦃eq : Equality K⦄ (f : V → ℕ) where
  pub sum_by-insert :
      (k : K) (v : V) (d : Dict K V)
      → sum_by (of_value f) (insert k v d) + of_option f (lookup k d) ≡ sum_by (of_value f) d + f v
  unfolding sum_by insert lookup
  sum_by-insert k v [] = omega arith
  sum_by-insert k v ((j, w) ∷ d) = ground (arith, sum_by-insert k v d)

  pub sum_by-erase :
      (k : K) (d : Dict K V)
      → sum_by (of_value f) (erase k d) + of_option f (lookup k d) ≡ sum_by (of_value f) d
  unfolding sum_by erase lookup
  sum_by-erase k [] = omega arith
  sum_by-erase k ((j, w) ∷ d) = ground (arith, sum_by-erase k d)

module _ {ℓ κ} {K : Type ℓ} {V : Type κ} ⦃eq : Equality K⦄ where
  pub All-insert {μ} :
      (P : K × V → Type μ) (k : K) (v : V) (d : Dict K V)
      → P (k, v)
      → All P d
      → All P (insert k v d)
  unfolding insert
  All-insert P k v [] p a = (p, tt)
  All-insert P k v ((j, w) ∷ d) p a = elim (Bool-cases (eq.same k j)) [
    | inl hit ↦ rw hit (rw (← (eq.same_iff k j).0 hit) p, a.1)
    | inr miss ↦ rw miss (a.0, All-insert P k v d p a.1)
  ]

  pub All-erase {μ} : (P : K × V → Type μ) (k : K) (d : Dict K V) → All P d → All P (erase k d)
  unfolding erase
  All-erase P k [] a = tt
  All-erase P k ((j, w) ∷ d) a = elim (Bool-cases (eq.same k j)) [
    | inl hit ↦ rw hit a.1
    | inr miss ↦ rw miss (a.0, All-erase P k d a.1)
  ]

  -- A predicate that is carried along, at the key that is changed and at the others.
  pub All-modify {μ ν} :
      (P : K × V → Type μ) (Q : K × V → Type ν) (k : K) (f : V → V) (d : Dict K V)
      → ((v : V) → P (k, v) → Q (k, f v))
      → ((j : K) (v : V) → eq.same k j ≡ false → P (j, v) → Q (j, v))
      → All P d
      → All Q (modify k f d)
  unfolding modify
  All-modify P Q k f [] here there a = tt
  All-modify P Q k f ((j, w) ∷ d) here there a = elim (Bool-cases (eq.same k j)) [
    | inl hit ↦
        let same : k ≡ j = (eq.same_iff k j).0 hit in
        rw hit (
          subst (λ i. Q (i, f w)) same (here w (subst (λ i. P (i, w)) (sym same) a.0)),
          All-modify P Q k f d here there a.1,
        )
    | inr miss ↦ rw miss (there j w miss a.0, All-modify P Q k f d here there a.1)
  ]

  pub lookup-All {μ} :
      (P : K × V → Type μ) (k : K) (v : V) (d : Dict K V) → lookup k d ≡ some v → All P d → P (k, v)
  unfolding lookup
  lookup-All P k v [] h a = cc
  lookup-All P k v ((j, w) ∷ d) h a = elim (Bool-cases (eq.same k j)) [
    | inl hit ↦
        let same : k ≡ j = (eq.same_iff k j).0 hit in
        let found : some w ≡ some v = rw hit at h in
        let value : w ≡ v = cc in subst (λ u. P (k, u)) value (subst (λ i. P (i, w)) (sym same) a.0)
    | inr miss ↦ lookup-All P k v d (rw miss at h) a.1
  ]
