-- ===== src/Read/Archive/Named.antt =====
-- src/read.rs: `SharedBuilder::build` and the entry that a name finds.
use zip.Prelude.{
  ℕ, suc, ◌≡◌, refl, sym, ap, ◌∙◌, subst, arith, Bool, true, false, inl, inr, Bool-cases,
  if◌then◌else◌, Option, none, some, List, [], ◌∷◌, ◌++◌, get_elem?,
}
use mathlib.Core.Option
use zip.Types.File.{ZipFileData}
use zip.Read.Metadata.{SharedBuilder}
use zip.Read.Archive.{ZipArchive, build, get_index_of, index_for_name}
use zip.Write.Writer.Entry.{same_name, contains_key}
use zip.Write.Writer.Copy.{map_named, extend}
use zip.Write.Writer.Names.{NamesDistinct, NamesDistinct-extend, same_name-inv, same_name_comm}

abbrev pub Found : Type 0
Found = Option ZipFileData

abbrev or_else : Found → Found → Found
or_else none b = b
or_else (some f) b = some f

abbrev only : Bool → ZipFileData → Found
only b f = if b then some f else none

-- The last entry of a name in a directory.
unfoldable pub last_named : List ℕ → List ZipFileData → Found
last_named name [] = none
last_named name (f ∷ files) = or_else (last_named name files) (only (same_name name f.file_name) f)

abbrev pub entry_at : List ZipFileData → Option ℕ → Found
entry_at files none = none
entry_at files (some i) = get_elem? files i

-- The entry that a name finds, by its index.
unfoldable pub named : List ℕ → List ZipFileData → Found
named name files = entry_at files (get_index_of name files)

-- What is found among more entries.
abbrev first : Bool → ZipFileData → Found → Found
first b f others = if b then some f else others

entry_at-suc :
    (f : ZipFileData) (files : List ZipFileData) (i : Option ℕ)
    → entry_at (f ∷ files) (Option.map suc i) ≡ entry_at files i
entry_at-suc f files none = refl
entry_at-suc f files (some i) = refl

named-cons :
    (name : List ℕ) (f : ZipFileData) (files : List ZipFileData)
    → named name (f ∷ files) ≡ first (same_name name f.file_name) f (named name files)
unfolding named get_index_of
named-cons name f files = elim (Bool-cases (same_name name f.file_name)) [
  | inl e ↦ rw e refl
  | inr e ↦ rw e (entry_at-suc f files (get_index_of name files))
]

-- A name that is like two others, which are then alike.
same_name_trans :
    (name k h : List ℕ) → same_name name h ≡ true → same_name k h ≡ false → same_name name k ≡ false
same_name_trans name k h e apart =
    ap (λ n. same_name n k) (same_name-inv name h e) ∙ same_name_comm h k ∙ apart

named_absent :
    (k : List ℕ) (files : List ZipFileData) → contains_key k files ≡ false → named k files ≡ none
unfolding named get_index_of
named_absent k [] h = refl
named_absent k (f ∷ files) h = elim (Bool-cases (same_name k f.file_name)) [
  | inl e ↦ absurd (ground arith)
  | inr e ↦ named-cons k f files ∙ rw e (named_absent k files (ground arith))
]

first-swap :
    (s k : Bool) (f g : ZipFileData) (x : Found)
    → (s ≡ true → k ≡ false)
    → first s f (first k g x) ≡ first k g (first s f x)
first-swap true true f g x h = absurd (cc (h refl))
first-swap true false f g x h = refl
first-swap false k f g x h = refl

first-first :
    (s k : Bool) (f g : ZipFileData) (x : Found) → s ≡ k → first k g x ≡ first k g (first s f x)
first-first s true f g x h = refl
first-first s false f g x h = rw h refl

-- An entry of a new name at the end.
named-append :
    (name : List ℕ) (files : List ZipFileData) (g : ZipFileData)
    → contains_key g.file_name files ≡ false
    → named name (files ++ g ∷ []) ≡ first (same_name name g.file_name) g (named name files)
named-append name [] g h = named-cons name g []
named-append name (f ∷ files) g h =
    named-cons name f (files ++ g ∷ [])
    ∙ ap (first (same_name name f.file_name) f) (named-append name files g (ground arith))
    ∙ first-swap (same_name name f.file_name) (same_name name g.file_name) f g (named name files)
        (λ e. same_name_trans name g.file_name f.file_name e (ground arith))
    ∙ ap (first (same_name name g.file_name) g) (sym (named-cons name f files))

-- An entry in the place of another of its name.
named-map_named :
    (name : List ℕ) (files : List ZipFileData) (g : ZipFileData)
    → contains_key g.file_name files ≡ true
    → named name (map_named g.file_name (λ _. g) files)
      ≡ first (same_name name g.file_name) g (named name files)
named-map_named name [] g h = absurd (cc)
named-map_named name (f ∷ files) g h = elim (Bool-cases (same_name g.file_name f.file_name)) [
  | inl e ↦ rw e (
      named-cons name g files
      ∙ first-first (same_name name f.file_name) (same_name name g.file_name) f g (named name files)
          (ap (same_name name) (sym (same_name-inv g.file_name f.file_name e)))
      ∙ ap (first (same_name name g.file_name) g) (sym (named-cons name f files)))
  | inr e ↦ rw e (
      named-cons name f (map_named g.file_name (λ _. g) files)
      ∙ ap (first (same_name name f.file_name) f) (named-map_named name files g (ground arith))
      ∙ first-swap (same_name name f.file_name) (same_name name g.file_name) f g (named name files)
          (λ s. same_name_trans name g.file_name f.file_name s e)
      ∙ ap (first (same_name name g.file_name) g) (sym (named-cons name f files)))
]

or_else-only :
    (later : Found) (b : Bool) (f : ZipFileData) (x : Found)
    → or_else later (first b f x) ≡ or_else (or_else later (only b f)) x
or_else-only none true f x = refl
or_else-only none false f x = refl
or_else-only (some g) b f x = refl

named-extend :
    (name : List ℕ) (new_files files : List ZipFileData)
    → named name (extend files new_files) ≡ or_else (last_named name new_files) (named name files)
unfolding last_named
named-extend name [] files = refl
named-extend name (f ∷ new_files) files =
    named-extend name new_files (inserted (contains_key f.file_name files))
    ∙ ap (or_else (last_named name new_files)) (elim (Bool-cases (contains_key f.file_name files)) [
      | inl e ↦ ap (λ b. named name (inserted b)) e ∙ named-map_named name files f e
      | inr e ↦ ap (λ b. named name (inserted b)) e ∙ named-append name files f e
    ])
    ∙ or_else-only (last_named name new_files) (same_name name f.file_name) f (named name files)
  where
    inserted : Bool → List ZipFileData
    inserted b = if b then map_named f.file_name (λ _. f) files else files ++ f ∷ []

or_else-none : (x : Found) → or_else x none ≡ x
or_else-none none = refl
or_else-none (some f) = refl

-- Of the entries that were read from a directory, `build` keeps one for each name, and a name finds
-- the last one that has it: no two entries of the archive have the same name, and the entry at
-- `index_for_name`, or that there is none, is that of a search of the directory from its end.
pub build-last_named :
    (shared : SharedBuilder) (a : ZipArchive) (name : List ℕ)
    → a.files ≡ build shared
    → NamesDistinct a.files
      × (entry_at a.files (index_for_name a name) ≡ last_named name shared.files)
unfolding build index_for_name NamesDistinct named last_named
build-last_named shared a name e = (
  subst NamesDistinct (sym e) (NamesDistinct-extend shared.files [] tt),
  ap (named name) e
      ∙ named-extend name shared.files []
      ∙ or_else-none (last_named name shared.files),
)
