-- ===== src/Read/Metadata/Safe.antt =====
-- src/read.rs: `get_metadata` does not panic: where no candidate is good, there is an error to report.
use zip.Prelude.{
  ℕ, suc, ◌+◌, ◌-◌, ltb, lt_wf, ◌≤◌, ◌<◌, ◌≡◌, ◌≢◌, refl, ap, ◌∙◌, arith, Bool-cases, Option, none,
  some, List, [], ◌∷◌, ◌++◌, length, length-append, inl, inr,
}
use zip.Result.{ZipError, ZipResult, ok, err, invalid_archive, ZipResult-cases}
use zip.Spec.Block.{size_of}
use zip.Spec.Records.{zip32_cde_block}
use zip.Spec.Zip32End.{Zip32CentralDirectoryEnd}
use zip.Spec.Find.{Finder}
use zip.Spec.Find.Zip32
use zip.Read.Config.{Config}
use zip.Read.Directory.{CentralDirectoryInfo, get_directory_info_zip32, get_directory_info_zip64}
use zip.Read.Metadata.{
  SharedBuilder, Errors, push_error, sort_result, Candidate, Gathered, gather_32, gather_64,
  gather_results, insert_by_key, sort_by_key, comes_before, no_errors, head, first_error, report,
  Best, after_candidate, read_central_header, gather, right_number, add_error, best_result,
  or_error, get_metadata,
}

abbrev count : Errors → ℕ
count es = length es.invalid_errors + length es.unsupported_errors

abbrev both : Errors × Errors → ℕ
both (a, b) = count a + count b

-- Errors and candidates.
abbrev items : Gathered → ℕ
items g = count g.errors_32 + count g.errors_64 + length g.ok_results

push_error-count : (e : ZipError) (es : Errors) → count (push_error e es) ≡ suc (count es)
unfolding push_error
push_error-count e es =
    ground (
      arith,
      length-append es.invalid_errors (e ∷ []),
      length-append es.unsupported_errors (e ∷ []),
    )

gather_32-items :
    (g : Gathered) (r : ZipResult CentralDirectoryInfo) (footer : Zip32CentralDirectoryEnd)
    → items (gather_32 g r footer) ≡ suc (items g)
unfolding sort_result
gather_32-items g (ok o) footer = omega (arith, length-append g.ok_results ((footer, o) ∷ []))
gather_32-items g (err e) footer = omega (arith, push_error-count e g.errors_32)

gather_64-items :
    (g : Gathered) (rs : List (ZipResult CentralDirectoryInfo)) (footer : Zip32CentralDirectoryEnd)
    → items g ≤ items (gather_64 g rs footer)
unfolding sort_result
gather_64-items g [] footer = omega arith
gather_64-items g (ok o ∷ rs) footer = omega (
  arith,
  length-append g.ok_results ((footer, o) ∷ []),
  gather_64-items (record g { ok_results = g.ok_results ++ (footer, o) ∷ [] }) rs footer,
)
gather_64-items g (err e ∷ rs) footer = omega (
  arith,
  push_error-count e g.errors_64,
  gather_64-items (record g { errors_64 = push_error e g.errors_64 }) rs footer,
)

gather_results-items :
    (g : Gathered) (r : ZipResult (List (ZipResult CentralDirectoryInfo)))
    (footer : Zip32CentralDirectoryEnd)
    → items g ≤ items (gather_results g r footer)
gather_results-items g (ok rs) footer = gather_64-items g rs footer
gather_results-items g (err e) footer = omega (arith, push_error-count e g.errors_64)

insert_by_key-length :
    (x : Candidate) (ys : List Candidate) → length (insert_by_key x ys) ≡ suc (length ys)
unfolding insert_by_key
insert_by_key-length x [] = refl
insert_by_key-length x (y ∷ ys) = elim (Bool-cases (comes_before y.1 x.1)) [
  | inl e ↦ rw e (ap suc (insert_by_key-length x ys))
  | inr e ↦ rw e refl
]

sort_by_key-length : (xs : List Candidate) → length (sort_by_key xs) ≡ length xs
unfolding sort_by_key
sort_by_key-length [] = refl
sort_by_key-length (x ∷ xs) =
    insert_by_key-length x (sort_by_key xs) ∙ ap suc (sort_by_key-length xs)

head-none : (es : List ZipError) → head es ≡ none → length es ≡ 0
head-none [] h = refl
head-none (e ∷ es) h = absurd (cc)

first_error-none : (a b : Errors) → first_error a b ≡ none → both (a, b) ≡ 0
first_error-none a b h = omega (
  arith,
  head-none
      (a.unsupported_errors ++ (b.unsupported_errors ++ (a.invalid_errors ++ b.invalid_errors))) h,
  length-append a.unsupported_errors
      (b.unsupported_errors ++ (a.invalid_errors ++ b.invalid_errors)),
  length-append b.unsupported_errors (a.invalid_errors ++ b.invalid_errors),
  length-append a.invalid_errors b.invalid_errors,
)

add_error-both :
    (info : CentralDirectoryInfo) (e : ZipError) (es : Errors × Errors)
    → both (add_error info e es) ≡ suc (both es)
add_error-both info e (a, b) = elim (Bool-cases info.is_zip64) [
  | inl z ↦ rw z (omega (arith, push_error-count e b))
  | inr z ↦ rw z (omega (arith, push_error-count e a))
]

-- Where a candidate is no good, an error is noted.
after_candidate-none :
    (c : Candidate) (next : Errors × Errors → Best) (n : ℕ) (es : Errors × Errors)
    (r : ZipResult SharedBuilder)
    → ((es : Errors × Errors) → (next es).0 ≡ none → both es + n ≤ both (next es).1)
    → (after_candidate c next es r).0 ≡ none
    → both es + suc n ≤ both (after_candidate c next es r).1
unfolding after_candidate
after_candidate-none c next n es (err e) later h =
    omega (arith, later (add_error c.1 e es) h, add_error-both c.1 e es)
after_candidate-none c next n es (ok shared) later h = elim (Bool-cases (right_number c shared)) [
  | inl y ↦ absurd (cc (rw y at h))
  | inr n ↦ rw n (
      omega (
        arith,
        later (add_error c.1 (invalid_archive "wrong number of files") es) (rw n at h),
        add_error-both c.1 (invalid_archive "wrong number of files") es,
      ))
]

not_empty :
    (found : List (Zip32CentralDirectoryEnd × ℕ)) {out : List (Zip32CentralDirectoryEnd × ℕ)}
    → Zip32.or_not_found found ≡ ok out
    → 0 < length out
not_empty [] h = absurd (cc)
not_empty (r ∷ rs) h = ground arith

or_error-none : (b : Best) → or_error b ≡ none → (b.0 ≡ none) × (both b.1 ≡ 0)
or_error-none (some x, es) h = absurd (cc)
or_error-none (none, (a, b)) h = (refl, first_error-none a b (no_error (first_error a b) h))
  where
    no_error : (o : Option ZipError) → report o ≡ none → o ≡ none
    no_error none h = refl
    no_error (some e) h = absurd (cc)

module _ (crc32 : List ℕ → ℕ) (rfind_iter : Finder) where
  gather-items :
      (config : Config) (file : List ℕ) (ls : List (Zip32CentralDirectoryEnd × ℕ)) (g : Gathered)
      → items g + length ls ≤ items (gather crc32 rfind_iter config file ls g)
  unfolding gather
  gather-items config file [] g = omega arith
  gather-items config file ((footer, p) ∷ ls) g =
      let g' = gather_32 g (get_directory_info_zip32 config file footer p) footer in
      let more = gather_32-items g (get_directory_info_zip32 config file footer p) footer in
      let kept =
        gather_results-items g' (get_directory_info_zip64 rfind_iter config file footer p) footer in
      let rest =
        gather-items config file ls
          (gather_results g' (get_directory_info_zip64 rfind_iter config file footer p) footer) in
      omega arith

  best_result-none :
      (file : List ℕ) (cs : List Candidate) (es : Errors × Errors)
      → (best_result crc32 rfind_iter file cs es).0 ≡ none
      → both es + length cs ≤ both (best_result crc32 rfind_iter file cs es).1
  unfolding best_result
  best_result-none file [] es h = omega arith
  best_result-none file (c ∷ cs) es h =
      after_candidate-none c (λ es. best_result crc32 rfind_iter file cs es) (length cs) es
        (read_central_header crc32 rfind_iter c.1 file) (best_result-none file cs) h

  -- A search that succeeds found something.
  found_some :
      (file : List ℕ) {out : List (Zip32CentralDirectoryEnd × ℕ)}
      → Zip32.find_and_parse rfind_iter file ≡ ok out
      → 0 < length out
  unfolding Zip32.find_and_parse
  found_some file {out} h = elim (Bool-cases (ltb (length file) (size_of zip32_cde_block))) [
    | inl y ↦ absurd (cc (rw y at h))
    | inr n ↦
        elim (ZipResult-cases
          (Zip32.scan rfind_iter file (length file - Zip32.end_window_size) (lt_wf.apply _) [])) [
            | inl (out', e) ↦ not_empty out' (rw (n, e) at h)
            | inr (x, e) ↦ absurd (cc (rw (n, e) at h))
          ]
  ]

-- `get_metadata` does not panic, whatever the file and the configuration are: its `unwrap` of the
-- first error is reached only when there is one.
pub get_metadata_safe :
    (crc32 : List ℕ → ℕ) (rfind_iter : Finder) (config : Config) (file : List ℕ)
    → get_metadata crc32 rfind_iter config file ≢ none
unfolding get_metadata
get_metadata_safe crc32 rfind_iter config file h =
    elim (ZipResult-cases (Zip32.find_and_parse rfind_iter file)) [
      | inr (x, e) ↦ absurd (cc (rw (e, get_metadata) at h))
      | inl (locations, e) ↦
          let g = gather crc32 rfind_iter config file locations nothing in
          let (failed, none_left) =
            or_error-none
              (best_result crc32 rfind_iter file (sort_by_key g.ok_results)
                (g.errors_32, g.errors_64))
              (rw (e, get_metadata) at h) in
          let noted =
            best_result-none crc32 rfind_iter file (sort_by_key g.ok_results)
              (g.errors_32, g.errors_64) failed in
          let gathered = gather-items crc32 rfind_iter config file locations nothing in
          let some_found = found_some crc32 rfind_iter file e in
          let sorted = sort_by_key-length g.ok_results in absurd (omega arith)
    ]
  where
    nothing : Gathered
    nothing = record { errors_32 = no_errors; errors_64 = no_errors; ok_results = [] }
