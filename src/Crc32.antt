-- ===== src/Crc32.antt =====
-- src/crc32.rs: the reader that checks a checksum. `Hasher` of the crate crc32fast is a parameter, and
-- so is the reader inside, a function of its state and of the buffer's length.
pub mod Checked
pub mod Whole
use zip.Prelude.{ℕ, Bool, ◌&&◌, not, ◌==◌, if◌then◌else◌, List, [], ◌∷◌}
use zip.Result.{IoError, other}

-- What the reader uses of the hasher: `Hasher::new`, `update` and `finalize`.
pub record Hashing : Type 1 where
  pub Hasher : Type 0
  pub new_hasher : Hasher
  pub update : Hasher → List ℕ → Hasher
  pub finalize : Hasher → ℕ

-- What a read comes to; a reader may panic.
pub data IoResult (A : Type 0) : Type 0 where
  done : A → IoResult A
  failed : IoError → IoResult A
  panicked : IoResult A

module _ (H : Hashing) (R : Type 0) (inner_read : R → ℕ → IoResult (List ℕ) × R) where
  open H use {Hasher, new_hasher, update, finalize}

  pub record Crc32Reader : Type 0 where
    pub inner : R
    pub hasher : Hasher
    pub check : ℕ
    pub ae2_encrypted : Bool

  abbrev pub new : R → ℕ → Bool → Crc32Reader
  new inner checksum ae2_encrypted = record {
    inner = inner;
    hasher = new_hasher;
    check = checksum;
    ae2_encrypted = ae2_encrypted;
  }

  abbrev pub check_matches : Crc32Reader → Bool
  check_matches r = r.check == finalize r.hasher

  -- What is made of the answer of the inner reader.
  abbrev pub checked : Crc32Reader → Bool → IoResult (List ℕ) × R → IoResult (List ℕ) × Crc32Reader
  checked r invalid_check (done [], inner) = (
    if invalid_check then failed (other "Invalid checksum") else done [],
    record r { inner = inner; hasher = if invalid_check then r.hasher else update r.hasher [] },
  )
  checked r invalid_check (done (b ∷ bs), inner) =
      (done (b ∷ bs), record r { inner = inner; hasher = update r.hasher (b ∷ bs) })
  checked r invalid_check (failed e, inner) = (failed e, record r { inner = inner })
  checked r invalid_check (panicked, inner) = (panicked, record r { inner = inner })

  unfoldable pub read : Crc32Reader → ℕ → IoResult (List ℕ) × Crc32Reader
  read r buf_len =
      let invalid_check = not (buf_len == 0) && not (check_matches r) && not r.ae2_encrypted in
      checked r invalid_check (inner_read r.inner buf_len)
