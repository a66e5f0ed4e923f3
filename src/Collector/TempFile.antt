-- ===== src/Collector/TempFile.antt =====
-- What src/collector.rs asks of `tempfile::NamedTempFile` and of the file behind it. Every transfer is
-- a whole number of items, so a file is measured in items.
use pprof_rs.Prelude.{ℕ, ◌≤◌, ◌≡◌, List, [], ◌++◌, length, take, ok}
use pprof_rs.Error.{IoResult}

pub record TempFile {ℓ} (File T : Type ℓ) : Type ℓ where
  -- `NamedTempFile::new`
  pub create : IoResult File
  -- `write_all`, which may write a part before it fails
  pub write_all : File → List T → File × IoResult (Unit {0})
  -- `reopen`, then `read_exact` of so many items from the start, then a seek
  pub read_exact : File → ℕ → IoResult (List T)

-- The documented behaviour of calls that succeed, in terms of what the file holds.
pub record FileLaws {ℓ} {File T : Type ℓ} (files : TempFile File T) : Type ℓ where
  pub contents : File → List T
  pub create-contents : (f : File) → files.create ≡ ok f → contents f ≡ []
  pub write_all-contents :
      (f : File) (ts : List T)
      → (files.write_all f ts).1 ≡ ok tt
      → contents (files.write_all f ts).0 ≡ contents f ++ ts
  pub read_exact-contents :
      (f : File) (n : ℕ) (ts : List T)
      → files.read_exact f n ≡ ok ts
      → (n ≤ length (contents f)) × (ts ≡ take n (contents f))

-- No call fails for a reason of the operating system's.
pub record NoIoErrors {ℓ} {File T : Type ℓ} (files : TempFile File T) (laws : FileLaws files)
    : Type ℓ where
  pub creates : (f : File) × (files.create ≡ ok f)
  pub writes : (f : File) (ts : List T) → (files.write_all f ts).1 ≡ ok tt
  pub reads :
      (f : File) (n : ℕ)
      → n ≤ length (laws.contents f)
      → (ts : List T) × (files.read_exact f n ≡ ok ts)
