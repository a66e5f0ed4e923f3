-- ===== src/Tests/Fixtures.antt =====
-- Instances of what the source calls of other crates, on which the theorems are run.
use pprof_rs.Prelude.{
  ℕ, ◌≤◌, ◌≡◌, refl, true, none, some, List, [], ◌∷◌, ◌++◌, ok, err, leb, leb→le, le→leb,
  if◌then◌else◌, take, length, arith, ◌==◌, Bool-cases, inl, inr,
}
use pprof_rs.Error.{IoResult}
use pprof_rs.Key.{Key}
use pprof_rs.Collector.TempFile.{TempFile, FileLaws, NoIoErrors}
use pprof_rs.Frames.{Resolver, Symbol, UnresolvedFrames, Text, built, handler_name}

pub number_refl : (a : ℕ) → (a == a) ≡ true
number_refl a = ground arith

pub number_symm : (a b : ℕ) → (a == b) ≡ (b == a)
number_symm a b = ground arith

pub number_trans : (a b c : ℕ) → (a == b) ≡ true → (b == c) ≡ true → (a == c) ≡ true
number_trans a b c h k = ground arith

-- Numbers as keys, all of which hash to the same word, so that they share a bucket.
abbrev pub number_key : Key ℕ
number_key = record {
  eq = λ a b. a == b;
  hash = λ _. 7;
  eq_refl = number_refl;
  eq_symm = number_symm;
  eq_trans = number_trans;
  eq-hash = λ a b h. refl;
}

abbrev no_space : IoResult (Unit {0})
no_space = err 28

module _ {T : Type 0} where
  abbrev pub read_list : List T → ℕ → IoResult (List T)
  read_list f n = if leb n (length f) then ok (take n f) else err 5

  -- A file in memory.
  abbrev pub memory : TempFile (List T) T
  memory = record { create = ok []; write_all = λ f ts. (f ++ ts, ok tt); read_exact = read_list }

  pub read_list-contents :
      (f : List T) (n : ℕ) (ts : List T) → read_list f n ≡ ok ts → (n ≤ length f) × (ts ≡ take n f)
  read_list-contents f n ts h = elim (Bool-cases (leb n (length f))) [
    | inl fits ↦ let same : ok (take n f) ≡ ok ts = rw fits at h in (leb→le n (length f) fits, cc)
    | inr short ↦ absurd (cc (rw short at h))
  ]

  abbrev empty_file : IoResult (List T)
  empty_file = ok []

  pub created : (f : List T) → empty_file ≡ ok f → f ≡ []
  created f h = cc

  abbrev pub memory_laws : FileLaws memory
  memory_laws = record {
    contents = λ f. f;
    create-contents = created;
    write_all-contents = λ f ts h. refl;
    read_exact-contents = read_list-contents;
  }

  abbrev pub memory_healthy : NoIoErrors memory memory_laws
  memory_healthy = record {
    creates = ([], refl);
    writes = λ f ts. refl;
    reads = λ f n h. (take n f, rw (le→leb n (length f) h));
  }

  -- A file on a full disk.
  abbrev pub full_disk : TempFile (List T) T
  full_disk = record { create = ok []; write_all = λ f ts. (f, err 28); read_exact = read_list }

  pub refused : (f ts : List T) → no_space ≡ ok tt → f ≡ f ++ ts
  refused f ts h = cc

  abbrev pub full_disk_laws : FileLaws full_disk
  full_disk_laws = record {
    contents = λ f. f;
    create-contents = created;
    write_all-contents = refused;
    read_exact-contents = read_list-contents;
  }

-- The frame of the signal handler.
abbrev pub handler_frame : ℕ
handler_frame = 1000

abbrev pub handler_text : Text
handler_text = handler_name

-- A frame is its own address and has one symbol, which is named by a letter.
abbrev pub symbol_of : ℕ → Symbol
symbol_of f = record {
  name = if f == handler_frame then some handler_text else some (f ∷ []);
  addr = some f;
  lineno = none;
  filename = none;
}

-- Frames below ten have no symbols.
abbrev pub numbers : Resolver ℕ
numbers = record {
  ip = λ f. f;
  symbol_address = λ f. f;
  resolve_symbol = λ f. if leb 10 f then symbol_of f ∷ [] else [];
  resolve_in_perfmap = λ _. none;
  demangle = λ t. t;
  from_utf8_lossy = λ t. t;
  show_number = λ n. n ∷ [];
  hasher = λ _. 3;
}

-- Two stacks of one thread that differ in their time only, and one of another thread.
abbrev pub stack_a : UnresolvedFrames ℕ
stack_a = built (20 ∷ 21 ∷ []) (109 ∷ []) 1 50

abbrev pub stack_b : UnresolvedFrames ℕ
stack_b = built (20 ∷ 21 ∷ []) (109 ∷ []) 1 60
