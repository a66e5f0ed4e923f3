-- ===== src/Heap/Ledger/Charges.antt =====
-- src/alloc.rs, lines 46-71 and 326-335: what the call sites of a state that matches a book are charged
-- with.
use pprof_rs.Prelude.{
  ℕ, ◌%◌, ◌≡◌, refl, ap, sym, ◌∙◌, false, inl, inr, Option, none, some, List, [], ◌∷◌, ◌==◌, ==_iff,
  if◌then◌else◌, word, arith, Bool-cases, All, Dict, lookup, NodupKeys, has_key, number_equality,
  sum_by, of_value, of_option, same_list, same_list_iff,
}
use pprof_rs.Heap.{CallsiteData, HeapState}
use pprof_rs.Heap.Tracked.{held}
use pprof_rs.Heap.Invariant.{Exact}
use pprof_rs.Heap.Refinement.Lookups.{ips_at}
use pprof_rs.Heap.Refinement.Named.{block_of, with_size}
use pprof_rs.Heap.Ledger.Weights.{weight_of, held_same}
use pprof_rs.Heap.Ledger.Stacks.{listed_id}
use pprof_rs.Heap.Ledger.Noting.{Book}
use pprof_rs.Heap.Ledger.Matching.{Matches, known_stack}

-- The blocks of the book with a given stack, and their bytes.
abbrev if_stack : List ℕ → ℕ → List ℕ → ℕ
if_stack ips n stack = if same_list stack ips then n else 0

abbrev pub number_with : List ℕ → Book → ℕ
number_with ips = sum_by (of_value (λ b. if_stack ips 1 b.0))

abbrev pub bytes_with : List ℕ → Book → ℕ
bytes_with ips = sum_by (of_value (λ b. if_stack ips b.1 b.0))

abbrev pub bytes_of_all : Book → ℕ
bytes_of_all = sum_by (of_value (λ b. b.1))

-- Two call sites have the same stack only if they are the same.
same_test :
    (s : HeapState) (book : Book) (id j : ℕ) (ips stack : List ℕ)
    → Matches s book
    → ips_at id s.callsites ≡ some ips
    → ips_at j s.callsites ≡ some stack
    → same_list stack ips ≡ (j == id)
same_test s book id j ips stack m at other = elim (Bool-cases (same_list stack ips)) [
  | inl hit ↦
      let equal : stack ≡ ips = (same_list_iff stack ips).0 hit in
      let first = listed_id s.callsite_map s.callsites id ips m.listed at in
      let second = listed_id s.callsite_map s.callsites j stack m.listed other in
      let number : some j ≡ some id = cc (first, second, equal) in
      let same_number : j ≡ id = cc number in hit ∙ sym ((==_iff j id).1 same_number)
  | inr miss ↦ elim (Bool-cases (j == id)) [
    | inr different ↦ miss ∙ sym different
    | inl hit ↦
        let number = (==_iff j id).0 hit in
        let both : some stack ≡ some ips = sym other ∙ ap (λ i. ips_at i s.callsites) number ∙ at in
        let equal : stack ≡ ips = cc both in absurd (cc ((same_list_iff stack ips).1 equal, miss))
  ]
]

-- What a call site is charged with in the shards is what the book has for its stack.
module _ (s : HeapState) (book : Book) (id : ℕ) (ips : List ℕ) (m : Matches s book)
    (at : ips_at id s.callsites ≡ some ips) where
  charged :
      (amount : ℕ → ℕ)
      → held (λ v. if v.0 == id then amount v.1 else 0) s.shards
        ≡ sum_by (of_value (λ b. if_stack ips (amount b.1) b.0)) book
  charged amount =
      held_same s.callsites _ (weight_of (λ b. if_stack ips (amount b.1) b.0) s.callsites)
        (λ v known.
          let (stack, other) = known_stack v.0 s.callsites known in
          let test = same_test s book id v.0 ips stack m at other in
          let weighs : weight_of (λ b. if_stack ips (amount b.1) b.0) s.callsites v
              ≡ if_stack ips (amount v.1) stack =
            ap (λ o. of_option (λ b. if_stack ips (amount b.1) b.0) (with_size v.1 o)) other in
          sym (weighs ∙ ap (λ t. if t then amount v.1 else 0) test))
        s.shards m.stands.sound.owned
      ∙ m.balanced (λ b. if_stack ips (amount b.1) b.0)

-- Each entry of the map is found under its key.
found_first :
    (i : ℕ) (d : CallsiteData) (sites others : Dict ℕ CallsiteData)
    → has_key i others ≡ false
    → All (λ c. ips_at c.0 sites ≡ some c.1.ips) others
    → All (λ c. ips_at c.0 ((i, d) ∷ sites) ≡ some c.1.ips) others
unfolding ips_at has_key
found_first i d sites [] absent a = tt
found_first i d sites ((j, e) ∷ others) absent a =
    (ground (arith, a.0), found_first i d sites others (ground arith) a.1)

pub own_stacks :
    (sites : Dict ℕ CallsiteData)
    → NodupKeys sites
    → All (λ c. ips_at c.0 sites ≡ some c.1.ips) sites
unfolding ips_at
own_stacks [] u = tt
own_stacks ((i, d) ∷ sites) u =
    (ground arith, found_first i d sites sites u.0 (own_stacks sites u.1))

looked_up_first :
    (ptr : ℕ) (b : List ℕ × ℕ) (book others : Book)
    → has_key ptr others ≡ false
    → All (λ e. lookup e.0 book ≡ some e.1) others
    → All (λ e. lookup e.0 ((ptr, b) ∷ book) ≡ some e.1) others
unfolding lookup has_key
looked_up_first ptr b book [] absent a = tt
looked_up_first ptr b book ((q, c) ∷ others) absent a =
    (ground (arith, a.0), looked_up_first ptr b book others (ground arith) a.1)

pub own_entries : (book : Book) → NodupKeys book → All (λ e. lookup e.0 book ≡ some e.1) book
unfolding lookup
own_entries [] u = tt
own_entries ((ptr, b) ∷ book) u =
    (ground arith, looked_up_first ptr b book book u.0 (own_entries book u.1))

-- The counters of the call sites are those of the book, and each block of the book has a call site.
pub record IsCharged (sites : Dict ℕ CallsiteData) (book : Book) : Type 0 where
  pub counters :
      All
        (λ c.
          (c.1.inuse_objects ≡ number_with c.1.ips book % word)
          × (c.1.inuse_bytes ≡ bytes_with c.1.ips book % word))
        sites
  pub has_site : All (λ b. (id : ℕ) × (ips_at id sites ≡ some b.1.0)) book

pub counters_of :
    (s : HeapState) (book : Book) (sites : Dict ℕ CallsiteData)
    → Matches s book
    → All (Exact s.shards) sites
    → All (λ c. ips_at c.0 s.callsites ≡ some c.1.ips) sites
    → All
        (λ c.
          (c.1.inuse_objects ≡ number_with c.1.ips book % word)
          × (c.1.inuse_bytes ≡ bytes_with c.1.ips book % word))
        sites
counters_of s book [] m e at = tt
counters_of s book ((id, d) ∷ sites) m e at = (
  (
    e.0.0 ∙ ap (λ n. n % word) (charged s book id d.ips m at.0 (λ size. 1)),
    e.0.1 ∙ ap (λ n. n % word) (charged s book id d.ips m at.0 (λ size. size)),
  ),
  counters_of s book sites m e.1 at.1,
)

pub site_of :
    (sites : Dict ℕ CallsiteData) (o : Option (ℕ × ℕ)) (b : List ℕ × ℕ)
    → block_of sites o ≡ some b
    → (id : ℕ) × (ips_at id sites ≡ some b.0)
site_of sites none b h = absurd (cc h)
site_of sites (some (id, size)) b h = stack_of (ips_at id sites) refl
  where
    stack_of : (o : Option (List ℕ)) → ips_at id sites ≡ o → (j : ℕ) × (ips_at j sites ≡ some b.0)
    stack_of none e = absurd (cc (h, e))
    stack_of (some ips) e =
        let block : some (ips, size) ≡ some b = sym (ap (with_size size) e) ∙ h in
        let same : (ips, size) ≡ b = cc block in (id, e ∙ ap (λ (t : List ℕ × ℕ). some t.0) same)
