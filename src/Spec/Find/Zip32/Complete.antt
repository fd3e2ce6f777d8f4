-- ===== src/Spec/Find/Zip32/Complete.antt =====
-- `find_and_parse` of the ZIP32 end record ends, and finds every record of the file.
use native.Mathlib.Nat.{ℕ_set}
use zip.Spec.Records.{zip32_cde_block}
use zip.Prelude.{
  length-take, dec_lt, ℕ, ◌+◌, ◌-◌, ◌≤◌, ◌<◌, ◌≡◌, ◌≢◌, ◌↔◌, refl, ap, ◌∙◌, arith, List, [], ◌∷◌,
  ◌++◌, length, take, drop, length-drop, In, In-append, In-append-left, In-append-right, All, min,
  ◌⊎◌, inl, inr, Acc, dite, dif_pos, dif_neg, lt_wf, ℕ_discrete,
}
use zip.Result.{ok, err, invalid_archive}
use zip.LittleEndian.{to_le_bytes, IsByte}
use zip.Cursor.{read_exact, run_at}
use zip.Spec.Block.{size_of}
use zip.Spec.Zip32End.{Zip32CentralDirectoryEnd}
use zip.Spec.Find.{Finder, IsFinder}
use zip.Spec.Find.Zip32.{
  or_not_found, sig_bytes, parse_found, end_window_size, next_window, next_window-lt, scan,
  find_and_parse,
}
use zip.Spec.Find.Zip32.Window.{Occurs-ParsesAt, ParsesAt, In-window}

abbrev Found : Type 0
Found = Zip32CentralDirectoryEnd × ℕ

-- The end of the window that starts there.
abbrev window_end : List ℕ → ℕ → ℕ
window_end file start = min (start + end_window_size) (length file)

-- The window lies in the file, so it can be read.
read_window :
    (file : List ℕ) (start : ℕ)
    → start ≤ length file
    → run_at file start (read_exact (window_end file start - start))
      ≡ ok (take (window_end file start - start) (drop start file))
unfolding run_at read_exact
read_window file start h = ground (arith, length-drop start file)

-- What the loop adds: the records that begin before the end of its first window.
abbrev Scanned : List ℕ → ℕ → List Found → List Found → Type 0
Scanned file start results out =
    (r : Found) → In r out ↔ (In r results ⊎ (ParsesAt file r × (r.1 + 4 ≤ window_end file start)))

module _ (rfind_iter : Finder) (law : IsFinder rfind_iter) (file : List ℕ)
    (bytes : All IsByte file) where
  abbrev after_window : ℕ → List Found → List Found
  after_window start results =
      results
      ++ parse_found file start
          (rfind_iter sig_bytes (take (window_end file start - start) (drop start file)))

  scan_step :
      (start : ℕ) (smaller : (m : ℕ) → m < start → Acc ◌<◌ m) (results : List Found)
      → start ≤ length file
      → scan rfind_iter file start (Acc.intro start smaller) results
        ≡ dite
            (ℕ_discrete start 0)
            (λ _. ok (after_window start results))
            (λ ne.
              scan rfind_iter file
                (next_window file start)
                (smaller _ (next_window-lt file start ne))
                (after_window start results))
  unfolding scan
  scan_step start smaller results h = rw (read_window file start h, scan) refl

  In-after_window :
      (start : ℕ) (results : List Found) (r : Found)
      → start ≤ length file
      → In r (after_window start results)
        ↔ (In r results ⊎ (ParsesAt file r × (start ≤ r.1) × (r.1 + 4 ≤ window_end file start)))
  In-after_window start results r h = (
    λ i. elim (In-append r results _ i) [
      | inl old ↦ inl old
      | inr new ↦ inr (grind (arith, inside.0 new))
    ],
    λ i. elim i [
      | inl old ↦ In-append-left r results _ old
      | inr (p, lo, hi) ↦ In-append-right r results _ (inside.1 (p, lo, omega arith))
    ],
  )
    where
      inside :
          In r (
            parse_found file start
              (rfind_iter sig_bytes (take (window_end file start - start) (drop start file))))
          ↔ (ParsesAt file r × (start ≤ r.1) × (r.1 + 4 ≤ start + (window_end file start - start)))
      inside =
          In-window rfind_iter law file start (window_end file start - start) r bytes (omega arith)

  -- The next window reaches past the start of this one.
  next_window_end :
      (start : ℕ)
      → start ≤ length file
      → start ≢ 0
      → (p : ℕ) → p < start
      → p + 4 ≤ window_end file start
      → p + 4 ≤ window_end file (next_window file start)
  unfolding next_window
  next_window_end start h ne p lt hi = omega arith

  next_window_below :
      (start p : ℕ)
      → start ≤ length file
      → start ≢ 0
      → p + 4 ≤ window_end file (next_window file start)
      → p + 4 ≤ window_end file start
  unfolding next_window
  next_window_below start p h ne hi = omega arith

  -- The window's records that the records before the next window's end leave out.
  first_window :
      (start : ℕ) (results : List Found)
      → start ≤ length file
      → start ≡ 0
      → Scanned file start results (after_window start results)
  first_window start results h first r =
      let (to, from) = In-after_window start results r h in
      (
        λ i. elim (to i) [ inl old ↦ inl old | inr (p, lo, hi) ↦ inr (p, hi) ],
        λ i. from (elim i [ inl old ↦ inl old | inr (p, hi) ↦ inr (p, omega arith, hi) ]),
      )

  later_window :
      (start : ℕ) (results out : List Found)
      → start ≤ length file
      → start ≢ 0
      → Scanned file (next_window file start) (after_window start results) out
      → Scanned file start results out
  later_window start results out h ne all r =
      let (to, from) = In-after_window start results r h in
      (
        λ i. elim ((all r).0 i) [
          | inl mid ↦ elim (to mid) [ inl old ↦ inl old | inr (p, lo, hi) ↦ inr (p, hi) ]
          | inr (p, hi) ↦ inr (p, next_window_below start r.1 h ne hi)
        ],
        λ i. (all r).1 (elim i [
          | inl old ↦ inl (from (inl old))
          | inr (p, hi) ↦ elim (dec_lt r.1 start) [
            | yes lt ↦ inr (p, next_window_end start h ne r.1 lt hi)
            | no ge ↦ inl (from (inr (p, omega arith, hi)))
          ]
        ]),
      )

  scan_lem :
      (start : ℕ) (w : Acc ◌<◌ start) (results : List Found)
      → start ≤ length file
      → (out : List Found) × (scan rfind_iter file start w results ≡ ok out)
        × Scanned file start results out
  scan_lem start (Acc.intro _ smaller) results h = elim (ℕ_discrete start 0) [
    | yes first ↦ (
      after_window start results,
      scan_step start smaller results h ∙ dif_pos (ℕ_discrete start 0) (ℕ_set start 0) first _ _,
      first_window start results h first,
    )
    | no ne ↦
        let (out, done, all) =
          scan_lem (next_window file start) (smaller _ (next_window-lt file start ne))
            (after_window start results) (omega (arith, next_window-lt file start ne)) in
        (
          out,
          scan_step start smaller results h ∙ dif_neg (ℕ_discrete start 0) ne _ _ ∙ done,
          later_window start results out h ne all,
        )
  ]

  parses_inside : (r : Found) → ParsesAt file r → r.1 + 4 ≤ length file
  unfolding to_le_bytes
  parses_inside (cde, p) h = omega (
    arith,
    ap length (Occurs-ParsesAt file cde p bytes h),
    length-take 4 (drop p file),
    length-drop p file,
  )

  -- The whole search, before the test for an empty result.
  search_all :
      (out : List Found) × (scan rfind_iter file (length file - end_window_size) (lt_wf.apply _) []
        ≡ ok out)
      × ((r : Found) → In r out ↔ ParsesAt file r)
  search_all =
      let (out, done, all) =
        scan_lem (length file - end_window_size) (lt_wf.apply _) [] (omega arith) in
      (
        out,
        done,
        λ r. (
          λ i. elim ((all r).0 i) [ inl none ↦ absurd none | inr (p, hi) ↦ p ],
          λ p. (all r).1 (inr (p, omega (arith, parses_inside r p))),
        ),
      )

  -- With a finder as it is documented, `find_and_parse` ends on every file of 22 bytes or more. Either it gives a list that holds
  -- exactly the records that parse somewhere in the file, each with its position, or no record
  -- parses anywhere in the file and it gives the error.
  pub find_and_parse_all :
      size_of zip32_cde_block ≤ length file
      → ((out : List Found) × (find_and_parse rfind_iter file ≡ ok out)
          × ((r : Found) → In r out ↔ ParsesAt file r))
        ⊎ ((find_and_parse rfind_iter file
              ≡ err (invalid_archive "Could not find central directory end"))
            × ((r : Found) → ¬ ParsesAt file r))
  unfolding find_and_parse
  find_and_parse_all enough =
      let (out, done, all) = search_all in by_result out all (enters ∙ rw done refl)
    where
      enters :
          find_and_parse rfind_iter file
          ≡ elim (scan rfind_iter file (length file - end_window_size) (lt_wf.apply _) []) [
            | ok results ↦ or_not_found results
            | err e ↦ err e
          ]
      enters = ground arith

      by_result :
          (out : List Found)
          → ((r : Found) → In r out ↔ ParsesAt file r)
          → find_and_parse rfind_iter file ≡ or_not_found out
          → ((out : List Found) × (find_and_parse rfind_iter file ≡ ok out)
              × ((r : Found) → In r out ↔ ParsesAt file r))
            ⊎ ((find_and_parse rfind_iter file
                  ≡ err (invalid_archive "Could not find central directory end"))
                × ((r : Found) → ¬ ParsesAt file r))
      by_result [] all e = inr (e, λ r p. (all r).1 p)
      by_result (r ∷ rs) all e = inl (r ∷ rs, e, all)
