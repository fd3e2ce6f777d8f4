-- ===== src/Spec/Find.antt =====
-- src/spec.rs: the searches for the end records of an archive, backwards through the file in
-- windows. `FinderRev::rfind_iter` of the crate memchr is a parameter, with `IsFinder` for what its
-- documentation says.
pub mod Signature
pub mod Zip32
pub mod Zip64
use zip.Prelude.{ℕ, ◌+◌, ◌<◌, ◌≡◌, List, length, take, drop, In}

-- The offsets of a needle in a haystack.
abbrev pub Finder : Type 0
Finder = List ℕ → List ℕ → List ℕ

-- The needle stands at that offset.
abbrev pub Occurs : List ℕ → List ℕ → ℕ → Type 0
Occurs needle hay i = take (length needle) (drop i hay) ≡ needle

-- The documentation of `rfind_iter`: it gives non-overlapping occurrences of the substring, so each
-- offset is one, and an occurrence is passed over only if it overlaps one that is given.
pub record IsFinder (rfind_iter : Finder) : Type 0 where
  pub sound : (needle hay : List ℕ) (i : ℕ) → In i (rfind_iter needle hay) → Occurs needle hay i
  pub complete :
      (needle hay : List ℕ) (i : ℕ)
      → 0 < length needle
      → Occurs needle hay i
      → (j : ℕ) × In j (rfind_iter needle hay) × (i < j + length needle) × (j < i + length needle)
