-- ===== src/Error.antt =====
-- src/error.rs: the error type of the crate. An operating system error is its number.
use pprof_rs.Prelude.{ℕ, Result}

abbrev pub Errno : Type 0
Errno = ℕ

pub data Error : Type 0 where
  nix_error : Errno → Error
  io_error : Errno → Error
  creating_error running not_running : Error

-- `std::io::Result`
abbrev pub IoResult {ℓ} : Type ℓ → Type ℓ
IoResult A = Result Errno A
