-- ===== src/Result.antt =====
-- src/result.rs: `ZipError` and `ZipResult`. The static texts of the errors are kept as written.
use zip.Prelude.{◌≡◌, refl, ◌⊎◌, inl, inr, String, Option, none, some}

-- `io::Error`, by what the modelled code can meet: `read_exact` at the end of the input, a seek
-- before the start, a `write_all` whose `write` takes nothing, and the errors that the code makes
-- itself.
pub data IoError : Type 0 where
  unexpected_eof : IoError
  invalid_input : IoError
  broken_pipe : String → IoError
  write_zero : IoError
  other : String → IoError

pub data ZipError : Type 0 where
  io : IoError → ZipError
  invalid_archive : String → ZipError
  unsupported_archive : String → ZipError
  file_not_found : ZipError
  invalid_password : ZipError

pub data ZipResult {ℓ} (A : Type ℓ) : Type ℓ where
  ok : A → ZipResult A
  err : ZipError → ZipResult A

-- The operator `?`.
infixl 5 ◌>>=◌
abbrev pub ◌>>=◌ {ℓ κ} : {A : Type ℓ} {B : Type κ} → ZipResult A → (A → ZipResult B) → ZipResult B
ok a >>= f = f a
err e >>= f = err e

-- `Option::ok_or`.
abbrev pub ok_or {ℓ} : {A : Type ℓ} → Option A → ZipError → ZipResult A
ok_or none e = err e
ok_or (some a) e = ok a

-- `Result::ok`.
abbrev pub to_option {ℓ} : {A : Type ℓ} → ZipResult A → Option A
to_option (ok a) = some a
to_option (err e) = none

pub ZipResult-cases {ℓ} :
    {A : Type ℓ} (r : ZipResult A) → ((a : A) × (r ≡ ok a)) ⊎ ((e : ZipError) × (r ≡ err e))
ZipResult-cases (ok a) = inl (a, refl)
ZipResult-cases (err e) = inr (e, refl)
