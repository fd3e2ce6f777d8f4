-- ===== src/Write/State.antt =====
-- src/write.rs: the state of `ZipWriter` and the way its methods run. A method
-- is a function of the state that gives its result and the state after it, also after an error; a
-- panic is `none`. The files are what an `IndexMap` documents: entries by name, in the order in
-- which they were inserted.
pub mod Keeps
use zip.Prelude.{ℕ, Bool, Option, none, some, List, [], ◌∷◌, ◌++◌, ◌≡◌, refl, ap}
use zip.Result.{ZipError, ZipResult, ok, err}
use zip.Cursor.{Cursor}
use zip.Compression.{CompressionMethod}
use zip.Types.DateTime.{DateTime}
use zip.Types.File.{ZipFileData, ℤ}
use zip.Aes.{Crypto}
use zip.Crc32.{Hashing}
use zip.Write.Monad.{Writer}
use zip.Write.Generic.{
  Encoders, GenericZipWriter, storer, unencrypted, get_plain, prepare_next_writer,
  SwitchWriterFunction, switch_to, switch_to_non_encrypting,
}

-- The other crates, the clock, and the checksum of some bytes.
pub record Environment : Type 1 where
  pub crypto : Crypto
  pub encoders : Encoders
  pub hashing : Hashing
  pub default_for_write : DateTime
  pub crc32_of : List ℕ → ℕ

-- `last_mut`, and the entries without the last one, for `pop`.
abbrev pub get_last? : List ZipFileData → Option ZipFileData
get_last? [] = none
get_last? (f ∷ []) = some f
get_last? (f ∷ g ∷ files) = get_last? (g ∷ files)

abbrev pub drop_last : List ZipFileData → List ZipFileData
drop_last [] = []
drop_last (f ∷ []) = []
drop_last (f ∷ g ∷ files) = f ∷ drop_last (g ∷ files)

-- The last entry as a mutable reference to it changes it.
abbrev pub map_last : (ZipFileData → ZipFileData) → List ZipFileData → List ZipFileData
map_last change [] = []
map_last change (f ∷ []) = change f ∷ []
map_last change (f ∷ g ∷ files) = f ∷ map_last change (g ∷ files)

pub get_last?-append :
    (files : List ZipFileData) (f : ZipFileData) → get_last? (files ++ f ∷ []) ≡ some f
get_last?-append [] f = refl
get_last?-append (g ∷ []) f = refl
get_last?-append (g ∷ h ∷ files) f = get_last?-append (h ∷ files) f

pub drop_last-append :
    (files : List ZipFileData) (f : ZipFileData) → drop_last (files ++ f ∷ []) ≡ files
drop_last-append [] f = refl
drop_last-append (g ∷ []) f = refl
drop_last-append (g ∷ h ∷ files) f = ap (λ l. g ∷ l) (drop_last-append (h ∷ files) f)

pub map_last-append :
    (change : ZipFileData → ZipFileData) (files : List ZipFileData) (f : ZipFileData)
    → map_last change (files ++ f ∷ []) ≡ files ++ change f ∷ []
map_last-append change [] f = refl
map_last-append change (g ∷ []) f = refl
map_last-append change (g ∷ h ∷ files) f = ap (λ l. g ∷ l) (map_last-append change (h ∷ files) f)

module _ (K : Environment) where
  open K use {crypto, encoders, hashing}

  abbrev pub Inner : Type 0
  Inner = GenericZipWriter crypto encoders

  pub record ZipWriterStats : Type 0 where
    pub hasher : hashing.Hasher
    pub start : ℕ
    pub bytes_written : ℕ

  pub record ZipWriter : Type 0 where
    pub inner : Inner
    pub files : List ZipFileData
    pub stats : ZipWriterStats
    pub writing_to_file : Bool
    pub writing_raw : Bool
    pub comment : List ℕ
    pub flush_on_finish_file : Bool

abbrev pub Action : Environment → Type 0 → Type 0
Action K A = ZipWriter K → Option (ZipResult A × ZipWriter K)

module _ {K : Environment} where
  open K use {crypto, encoders, hashing}

  infixl 5 ◌>>=◌ ◌>>◌
  abbrev pub ◌>>=◌ : {A B : Type 0} → Action K A → (A → Action K B) → Action K B
  ◌>>=◌ m k s = elim (m s) [
    | none ↦ none
    | some (r, s') ↦ elim r [ ok a ↦ k a s' | err e ↦ some (err e, s') ]
  ]

  abbrev pub ◌>>◌ : {A B : Type 0} → Action K A → Action K B → Action K B
  m >> k = m >>= λ _. k

  pub bind_ok :
      {A B : Type 0} (m : Action K A) (k : A → Action K B) (s : ZipWriter K) {a : A}
      {s' : ZipWriter K}
      → m s ≡ some (ok a, s')
      → (m >>= k) s ≡ k a s'
  bind_ok m k s h = rw (h, ◌>>=◌)

  pub bind_err :
      {A B : Type 0} (m : Action K A) (k : A → Action K B) (s : ZipWriter K) {e : ZipError}
      {s' : ZipWriter K}
      → m s ≡ some (err e, s')
      → (m >>= k) s ≡ some (err e, s')
  bind_err m k s h = rw (h, ◌>>=◌)

  abbrev pub pure : {A : Type 0} → A → Action K A
  pure a s = some (ok a, s)

  abbrev pub throw : {A : Type 0} → ZipError → Action K A
  throw e s = some (err e, s)

  abbrev pub lift : {A : Type 0} → ZipResult A → Action K A
  lift r s = some (r, s)

  abbrev pub gets : {A : Type 0} → (ZipWriter K → A) → Action K A
  gets f s = some (ok (f s), s)

  abbrev pub modify : (ZipWriter K → ZipWriter K) → Action K (Unit {0})
  modify f s = some (ok tt, f s)

  -- What is done with the file below, by `get_plain`.
  abbrev pub on_file : {A : Type 0} → Option (ZipResult A × Cursor) → Action K A
  on_file none s = none
  on_file (some (r, c)) s = some (r, record s { inner = storer (unencrypted c) })

  unfoldable pub on_plain : {A : Type 0} → Writer A → Action K A
  unfolding get_plain
  on_plain m s = elim (get_plain crypto encoders s.inner) [ none ↦ none | some c ↦ on_file (m c) s ]

  -- A result that is looked at before it is returned.
  abbrev pub try : {A : Type 0} → Action K A → Action K (ZipResult A)
  try m s = elim (m s) [ none ↦ none | some (r, s') ↦ some (ok r, s') ]

  -- `let _ = …`: the error is dropped, and the state is kept.
  abbrev pub ignore_error : {A : Type 0} → Action K A → Action K (Unit {0})
  ignore_error m s = elim (m s) [ none ↦ none | some (r, s') ↦ some (ok tt, s') ]

  unfoldable pub prepare :
      CompressionMethod → Option ℤ → Option ℕ → Action K (SwitchWriterFunction crypto encoders)
  unfolding prepare_next_writer
  prepare compression level zopfli_buffer_size s =
      some (prepare_next_writer crypto encoders s.inner compression level zopfli_buffer_size, s)

  abbrev with_inner : ZipResult (Unit {0}) × Inner K → Action K (Unit {0})
  with_inner (r, inner) s = some (r, record s { inner = inner })

  unfoldable pub switch : SwitchWriterFunction crypto encoders → Action K (Unit {0})
  unfolding switch_to
  switch make_new_self s = with_inner (switch_to crypto encoders make_new_self s.inner) s

  unfoldable pub switch_to_non_encrypting_writer : Action K (Unit {0})
  unfolding switch_to_non_encrypting
  switch_to_non_encrypting_writer s =
      elim (switch_to_non_encrypting crypto encoders (hashing.finalize s.stats.hasher) s.inner) [
        | none ↦ none
        | some switched ↦ with_inner switched s
      ]
