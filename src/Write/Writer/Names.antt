-- ===== src/Write/Writer/Names.antt =====
-- src/write.rs: the names of the entries, under the changes that the writer makes of them.
pub mod Kept
pub mod Write
pub mod Entry
pub mod Copies
pub mod Reached
use zip.Prelude.{
  ℕ, ◌≡◌, refl, sym, ap, ◌∙◌, subst, Bool, true, false, ◌||◌, ◌&&◌, ◌==◌, Option, none, some, inl,
  inr, ◌⊎◌, Bool-cases, List, [], ◌∷◌, ◌++◌, if◌then◌else◌, arith,
}
use zip.Types.File.{ZipFileData}
use zip.Write.State.{get_last?, drop_last, map_last}
use zip.Write.Writer.Entry.{same_name, contains_key}
use zip.Write.Writer.Copy.{map_named, extend}

-- No two entries have the same name, as an `IndexMap` documents it.
unfoldable pub NamesDistinct : List ZipFileData → Type 0
NamesDistinct [] = Unit
NamesDistinct (f ∷ files) = (contains_key f.file_name files ≡ false) × NamesDistinct files

or_inv : (a b : Bool) → (a || b) ≡ false → (a ≡ false) × (b ≡ false)
or_inv a b h = (ground arith, ground arith)

eq_comm : (a b : ℕ) → (a == b) ≡ (b == a)
eq_comm a b = ground arith

pub same_name_comm : (a b : List ℕ) → same_name a b ≡ same_name b a
same_name_comm [] [] = refl
same_name_comm [] (y ∷ ys) = refl
same_name_comm (x ∷ xs) [] = refl
same_name_comm (x ∷ xs) (y ∷ ys) = λ i. eq_comm x y i && same_name_comm xs ys i

and_inv : (a b : Bool) → (a && b) ≡ true → (a ≡ true) × (b ≡ true)
and_inv a b h = (ground arith, ground arith)

eq_inv : (a b : ℕ) → (a == b) ≡ true → a ≡ b
eq_inv a b h = ground arith

pub same_name-inv : (a b : List ℕ) → same_name a b ≡ true → a ≡ b
same_name-inv [] [] h = refl
same_name-inv [] (y ∷ ys) h = absurd cc
same_name-inv (x ∷ xs) [] h = absurd cc
same_name-inv (x ∷ xs) (y ∷ ys) h =
    let (e, es) = and_inv (x == y) (same_name xs ys) h in
    λ i. eq_inv x y e i ∷ same_name-inv xs ys es i

-- An entry of a new name is inserted.
contains_key-append :
    (name : List ℕ) (files : List ZipFileData) (f : ZipFileData)
    → contains_key name (files ++ f ∷ []) ≡ (contains_key name files || same_name name f.file_name)
contains_key-append name [] f = ground arith
contains_key-append name (g ∷ files) f = rw (contains_key-append name files f) (ground arith)

pub NamesDistinct-append :
    (files : List ZipFileData) (f : ZipFileData)
    → NamesDistinct files
    → contains_key f.file_name files ≡ false
    → NamesDistinct (files ++ f ∷ [])
unfolding NamesDistinct
NamesDistinct-append [] f d h = (refl, tt)
NamesDistinct-append (g ∷ files) f (d, ds) h =
    let (apart, new) =
      or_inv (same_name f.file_name g.file_name) (contains_key f.file_name files) h in
    (
      contains_key-append g.file_name files f
          ∙ rw (d) (same_name_comm g.file_name f.file_name ∙ apart),
      NamesDistinct-append files f ds new,
    )

-- The last entry is taken off.
contains_key-drop_last :
    (name : List ℕ) (files : List ZipFileData)
    → contains_key name files ≡ false
    → contains_key name (drop_last files) ≡ false
contains_key-drop_last name [] h = refl
contains_key-drop_last name (f ∷ []) h = refl
contains_key-drop_last name (f ∷ g ∷ files) h =
    let (apart, new) = or_inv (same_name name f.file_name) (contains_key name (g ∷ files)) h in
    rw (apart) (contains_key-drop_last name (g ∷ files) new)

pub NamesDistinct-drop_last :
    (files : List ZipFileData) → NamesDistinct files → NamesDistinct (drop_last files)
unfolding NamesDistinct
NamesDistinct-drop_last [] d = tt
NamesDistinct-drop_last (f ∷ []) d = tt
NamesDistinct-drop_last (f ∷ g ∷ files) (d, ds) =
    (contains_key-drop_last f.file_name (g ∷ files) d, NamesDistinct-drop_last (g ∷ files) ds)

module _ (change : ZipFileData → ZipFileData) where
  -- The change leaves the last entry its name.
  abbrev pub NameKept : List ZipFileData → Type 0
  NameKept files = (f : ZipFileData) → get_last? files ≡ some f → (change f).file_name ≡ f.file_name

  contains_key-map_last :
      (name : List ℕ) (files : List ZipFileData)
      → NameKept files
      → contains_key name (map_last change files) ≡ contains_key name files
  contains_key-map_last name [] h = refl
  contains_key-map_last name (f ∷ []) h = ap (λ n. same_name name n || false) (h f refl)
  contains_key-map_last name (f ∷ g ∷ files) h =
      ap (λ b. same_name name f.file_name || b) (contains_key-map_last name (g ∷ files) h)

  pub NamesDistinct-map_last :
      (files : List ZipFileData)
      → NameKept files
      → NamesDistinct files
      → NamesDistinct (map_last change files)
  unfolding NamesDistinct
  NamesDistinct-map_last [] h d = tt
  NamesDistinct-map_last (f ∷ []) h d = (refl, tt)
  NamesDistinct-map_last (f ∷ g ∷ files) h (d, ds) =
      (contains_key-map_last f.file_name (g ∷ files) h ∙ d, NamesDistinct-map_last (g ∷ files) h ds)

module _ (name : List ℕ) (g : ZipFileData) (same : same_name name g.file_name ≡ true) where
  contains_key-map_named :
      (n : List ℕ) (files : List ZipFileData)
      → contains_key n (map_named name (λ _. g) files) ≡ contains_key n files
  contains_key-map_named n [] = refl
  contains_key-map_named n (f ∷ files) = elim (Bool-cases (same_name name f.file_name)) [
    | inl e ↦ rw e (
        ap (λ l. same_name n l || contains_key n files)
          (sym (same_name-inv name g.file_name same) ∙ same_name-inv name f.file_name e))
    | inr e ↦ rw e (ap (λ b. same_name n f.file_name || b) (contains_key-map_named n files))
  ]

  pub NamesDistinct-map_named :
      (files : List ZipFileData)
      → NamesDistinct files
      → NamesDistinct (map_named name (λ _. g) files)
  unfolding NamesDistinct
  NamesDistinct-map_named [] d = tt
  NamesDistinct-map_named (f ∷ files) (d, ds) = elim (Bool-cases (same_name name f.file_name)) [
    | inl e ↦ rw e (
      ap (λ l. contains_key l files)
            (sym (same_name-inv name g.file_name same) ∙ same_name-inv name f.file_name e)
          ∙ d,
      ds,
    )
    | inr e ↦ rw e (contains_key-map_named f.file_name files ∙ d, NamesDistinct-map_named files ds)
  ]

same_name_refl : (name : List ℕ) → same_name name name ≡ true
same_name_refl [] = refl
same_name_refl (x ∷ xs) = rw (same_name_refl xs) (ground arith)

pub NamesDistinct-extend :
    (new_files files : List ZipFileData)
    → NamesDistinct files
    → NamesDistinct (extend files new_files)
NamesDistinct-extend [] files d = d
NamesDistinct-extend (f ∷ new_files) files d =
    NamesDistinct-extend new_files _ (elim (Bool-cases (contains_key f.file_name files)) [
      | inl e ↦ rw e (NamesDistinct-map_named f.file_name f (same_name_refl f.file_name) files d)
      | inr e ↦ rw e (NamesDistinct-append files f d e)
    ])
