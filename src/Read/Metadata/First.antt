-- ===== src/Read/Metadata/First.antt =====
-- src/read.rs: which candidate `get_metadata` takes.
use zip.Prelude.{
  ℕ, ◌≡◌, ◌<◌, ◌↔◌, ◌⊎◌, inl, inr, refl, ap, ◌∙◌, subst, arith, true, false, Bool-cases, Option,
  none, some, List, [], ◌∷◌, ◌++◌, length, All,
}
use zip.Result.{ZipError, ZipResult, ok, err, invalid_archive}
use zip.Spec.Zip32End.{Zip32CentralDirectoryEnd}
use zip.Spec.Find.{Finder}
use zip.Spec.Find.Zip32
use zip.Read.Config.{Config}
use zip.Read.Directory.{CentralDirectoryInfo}
use zip.Read.Metadata.{
  SharedBuilder, Errors, no_errors, Candidate, insert_by_key, sort_by_key, comes_before,
  read_central_header, gather, right_number, add_error, Best, after_candidate, best_result,
  first_error, report, or_error, get_metadata,
}

-- A candidate that is not tried before another: its end record is before the other's in the file, or
-- it is the same and the candidate is not the ZIP64 one of the two.
abbrev pub IsLater : CentralDirectoryInfo → CentralDirectoryInfo → Type 0
IsLater a b =
    (b.cde_position < a.cde_position)
    ⊎ ((b.cde_position ≡ a.cde_position) × ((a.is_zip64 ≡ true) ⊎ (b.is_zip64 ≡ false)))

abbrev pub Follows : CentralDirectoryInfo → List Candidate → Type 0
Follows a [] = Unit
Follows a (y ∷ ys) = IsLater a y.1 × Follows a ys

abbrev pub IsSorted : List Candidate → Type 0
IsSorted [] = Unit
IsSorted (x ∷ xs) = Follows x.1 xs × IsSorted xs

-- What the order of the keys is.
comes_before-IsLater : (a b : CentralDirectoryInfo) → comes_before a b ≡ true → IsLater a b
comes_before-IsLater a b h = ground arith

not_before-IsLater : (a b : CentralDirectoryInfo) → comes_before b a ≡ false → IsLater a b
not_before-IsLater a b h = ground arith

IsLater-trans : (a b c : CentralDirectoryInfo) → IsLater a b → IsLater b c → IsLater a c
IsLater-trans a b c h k = ground arith

Follows-trans :
    (a b : CentralDirectoryInfo) (ys : List Candidate) → IsLater a b → Follows b ys → Follows a ys
Follows-trans a b [] h k = tt
Follows-trans a b (y ∷ ys) h (k, ks) = (IsLater-trans a b y.1 h k, Follows-trans a b ys h ks)

Follows-insert_by_key :
    (a : CentralDirectoryInfo) (x : Candidate) (ys : List Candidate)
    → IsLater a x.1
    → Follows a ys
    → Follows a (insert_by_key x ys)
unfolding insert_by_key
Follows-insert_by_key a x [] h k = (h, tt)
Follows-insert_by_key a x (y ∷ ys) h (k, ks) = elim (Bool-cases (comes_before y.1 x.1)) [
  | inl e ↦ rw e (k, Follows-insert_by_key a x ys h ks)
  | inr e ↦ rw e (h, (k, ks))
]

insert_by_key-IsSorted :
    (x : Candidate) (ys : List Candidate) → IsSorted ys → IsSorted (insert_by_key x ys)
unfolding insert_by_key
insert_by_key-IsSorted x [] h = (tt, tt)
insert_by_key-IsSorted x (y ∷ ys) (h, hs) = elim (Bool-cases (comes_before y.1 x.1)) [
  | inl e ↦ rw e (
    Follows-insert_by_key y.1 x ys (comes_before-IsLater y.1 x.1 e) h,
    insert_by_key-IsSorted x ys hs,
  )
  | inr e ↦
      rw e (let l = not_before-IsLater x.1 y.1 e in ((l, Follows-trans x.1 y.1 ys l h), (h, hs)))
]

-- The candidates are tried in order: the last end record first, and the ZIP64 one first for each end
-- record.
pub sort_by_key-IsSorted : (cs : List Candidate) → IsSorted (sort_by_key cs)
unfolding sort_by_key
sort_by_key-IsSorted [] = tt
sort_by_key-IsSorted (c ∷ cs) = insert_by_key-IsSorted c (sort_by_key cs) (sort_by_key-IsSorted cs)

abbrev IsRight : Candidate → SharedBuilder → Type 0
IsRight c shared =
    (length shared.files ≡ c.0.number_of_files)
    ⊎ ((c.1.is_zip64 ≡ true) × (c.0.number_of_files ≡ 0xffff))

right_number_iff :
    (c : Candidate) (shared : SharedBuilder) → (right_number c shared ≡ true) ↔ IsRight c shared
right_number_iff c shared = (λ h. ground arith, λ h. ground arith)

module _ (crc32 : List ℕ → ℕ) (rfind_iter : Finder) (file : List ℕ) where
  -- A candidate whose directory is read, with as many entries as the end record counts, where that
  -- count says something.
  abbrev pub IsGood : Candidate → SharedBuilder → Type 0
  IsGood c shared =
      (read_central_header crc32 rfind_iter c.1 file ≡ ok shared)
      × ((length shared.files ≡ c.0.number_of_files)
          ⊎ ((c.1.is_zip64 ≡ true) × (c.0.number_of_files ≡ 0xffff)))

  -- The first good candidate of some.
  abbrev pub IsFirst : Zip32CentralDirectoryEnd → SharedBuilder → List Candidate → Type 0
  IsFirst footer shared cs =
      (before : List Candidate) × (info : CentralDirectoryInfo) × (after : List Candidate) × (cs
        ≡ before ++ (footer, info) ∷ after)
      × IsGood (footer, info) shared
      × All (λ c. (s : SharedBuilder) → ¬ IsGood c s) before

  later :
      (c : Candidate) (footer : Zip32CentralDirectoryEnd) (shared : SharedBuilder)
      (cs : List Candidate)
      → ((s : SharedBuilder) → ¬ IsGood c s)
      → IsFirst footer shared cs
      → IsFirst footer shared (c ∷ cs)
  later c footer shared cs bad (before, info, after, e, good, others) =
      (c ∷ before, info, after, ap (λ l. c ∷ l) e, good, (bad, others))

  after_candidate-IsFirst :
      (c : Candidate) (cs : List Candidate) (next : Errors × Errors → Best) (es : Errors × Errors)
      (r : ZipResult SharedBuilder) (footer : Zip32CentralDirectoryEnd) (shared : SharedBuilder)
      → read_central_header crc32 rfind_iter c.1 file ≡ r
      → ((es : Errors × Errors) → (next es).0 ≡ some (footer, shared) → IsFirst footer shared cs)
      → (after_candidate c next es r).0 ≡ some (footer, shared)
      → IsFirst footer shared (c ∷ cs)
  unfolding after_candidate
  after_candidate-IsFirst c cs next es (err e) footer shared read rest h =
      later c footer shared cs (λ s (read', _). absurd (cc)) (rest (add_error c.1 e es) h)
  after_candidate-IsFirst c cs next es (ok s) footer shared read rest h =
      elim (Bool-cases (right_number c s)) [
        | inl y ↦
            let taken = rw y at h in
            let same_footer : c.0 ≡ footer = cc in
            let same : s ≡ shared = cc in
            (
              [],
              c.1,
              cs,
              λ i. (same_footer i, c.1) ∷ cs,
              (
                read ∙ ap ok same,
                subst (λ (f, s). IsRight (f, c.1) s) (λ i. (same_footer i, same i))
                    ((right_number_iff c s).0 y),
              ),
              tt,
            )
        | inr n ↦
            later c footer shared cs
              (λ s' (read', right).
                let same : s ≡ s' = cc in
                absurd (cc (ap (right_number c) same, (right_number_iff c s').1 right)))
              (rest (add_error c.1 (invalid_archive "wrong number of files") es) (rw n at h))
      ]

  best_result-IsFirst :
      (cs : List Candidate) (es : Errors × Errors) (footer : Zip32CentralDirectoryEnd)
      (shared : SharedBuilder)
      → (best_result crc32 rfind_iter file cs es).0 ≡ some (footer, shared)
      → IsFirst footer shared cs
  unfolding best_result
  best_result-IsFirst [] es footer shared h = absurd (cc)
  best_result-IsFirst (c ∷ cs) es footer shared h =
      after_candidate-IsFirst c cs (λ es. best_result crc32 rfind_iter file cs es) es
        (read_central_header crc32 rfind_iter c.1 file) footer shared refl
        (λ es. best_result-IsFirst cs es footer shared) h

report_not_ok :
    (o : Option ZipError) {r : Zip32CentralDirectoryEnd × SharedBuilder}
    → ¬ (report o ≡ some (ok r))
report_not_ok none h = absurd (cc)
report_not_ok (some e) h = absurd (cc)

or_error_ok :
    (b : Best) {r : Zip32CentralDirectoryEnd × SharedBuilder}
    → or_error b ≡ some (ok r)
    → b.0 ≡ some r
or_error_ok (some x, es) h = cc
or_error_ok (none, (a, b)) h = absurd (report_not_ok (first_error a b) h)

-- The candidates that the end records of a file give, in the order of `get_metadata`.
unfoldable pub candidates_of :
    (List ℕ → ℕ) → Finder → Config → List ℕ → List (Zip32CentralDirectoryEnd × ℕ) → List Candidate
candidates_of crc32 rfind_iter config file locations =
    sort_by_key
      (gather crc32 rfind_iter config file locations
        (record { errors_32 = no_errors; errors_64 = no_errors; ok_results = [] })).ok_results

-- Where `get_metadata` succeeds on a file whose end records are `locations`, it gives the first
-- candidate that is good: the directory is read where the candidate says, with as many entries as
-- the end record counts, or the end record counts 0xffff and the candidate is one of ZIP64; and no
-- candidate before it is good. The candidates are in order: the end record that is last in the file
-- comes first, and for each end record ZIP64 comes first.
pub get_metadata-IsFirst :
    (crc32 : List ℕ → ℕ) (rfind_iter : Finder) (config : Config) (file : List ℕ)
    (locations : List (Zip32CentralDirectoryEnd × ℕ)) (footer : Zip32CentralDirectoryEnd)
    (shared : SharedBuilder)
    → Zip32.find_and_parse rfind_iter file ≡ ok locations
    → get_metadata crc32 rfind_iter config file ≡ some (ok (footer, shared))
    → IsSorted (candidates_of crc32 rfind_iter config file locations)
      × IsFirst crc32 rfind_iter file footer shared
          (candidates_of crc32 rfind_iter config file locations)
unfolding get_metadata candidates_of
get_metadata-IsFirst crc32 rfind_iter config file locations footer shared found h =
    let g =
      gather crc32 rfind_iter config file locations
        (record { errors_32 = no_errors; errors_64 = no_errors; ok_results = [] }) in
    (
      sort_by_key-IsSorted g.ok_results,
      best_result-IsFirst crc32 rfind_iter file (sort_by_key g.ok_results)
          (g.errors_32, g.errors_64) footer shared
          (or_error_ok
            (best_result crc32 rfind_iter file (sort_by_key g.ok_results)
              (g.errors_32, g.errors_64))
            (rw (found, get_metadata) at h)),
    )
