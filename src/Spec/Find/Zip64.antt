-- ===== src/Spec/Find/Zip64.antt =====
-- src/spec.rs: `Zip64CentralDirectoryEnd::find_and_parse`, from the upper bound of the search back to
-- its lower bound. The caller orders the two.
use zip.Prelude.{
  ℕ, ◌+◌, ◌-◌, ◌<◌, ◌≤◌, ◌≢◌, arith, List, [], ◌∷◌, ◌++◌, min, max, Acc, dite, lt_wf, ℕ_discrete,
}
use zip.Result.{ZipResult, ok, err, invalid_archive, ◌>>=◌}
use zip.LittleEndian.{to_le_bytes}
use zip.Cursor.{read_exact, run_at}
use zip.Spec.Records.{zip64_central_directory_end_signature}
use zip.Spec.Zip64End.{Zip64CentralDirectoryEnd, parse}
use zip.Spec.Find.{Finder}

abbrev pub end_window_size : ℕ
end_window_size = 2048

abbrev pub sig_bytes : List ℕ
unfolding to_le_bytes
sig_bytes = to_le_bytes 4 zip64_central_directory_end_signature

abbrev pub Found : Type 0
Found = Zip64CentralDirectoryEnd × ℕ

-- The inner loop: each record with its distance from the lower bound; what does not parse ends the
-- search with its error.
unfoldable pub parse_found : List ℕ → ℕ → ℕ → List ℕ → ZipResult (List Found)
parse_found file lower window_start [] = ok []
parse_found file lower window_start (offset ∷ offsets) = do
  let cde_start_pos = window_start + offset
  cde ← run_at file cde_start_pos parse
  rest ← parse_found file lower window_start offsets
  ok ((cde, cde_start_pos - lower) ∷ rest)

abbrev pub or_not_found : List Found → ZipResult (List Found)
or_not_found [] = err (invalid_archive "Could not find ZIP64 central directory end")
or_not_found (r ∷ rs) = ok (r ∷ rs)

module _ (rfind_iter : Finder) (file : List ℕ) (lower upper : ℕ) where
  abbrev pub first_window : ℕ
  first_window = max (upper - end_window_size) lower

  unfoldable pub next_window : ℕ → ℕ
  next_window window_start = max (min (window_start + 4) upper - end_window_size) lower

  pub next_window-lt :
      (window_start : ℕ)
      → lower ≤ window_start
      → window_start ≢ lower
      → next_window window_start < window_start
  unfolding next_window
  next_window-lt window_start le ne = omega arith

  pub next_window-ge : (window_start : ℕ) → lower ≤ next_window window_start
  unfolding next_window
  next_window-ge window_start = omega arith

  unfoldable pub scan :
      (window_start : ℕ)
      → lower ≤ window_start
      → Acc ◌<◌ window_start
      → List Found
      → ZipResult (List Found)
  scan window_start le (Acc.intro _ smaller) results =
      let end = min (window_start + end_window_size) upper in
      dite (ℕ_discrete (end - window_start) 0) (λ _. ok results)
        (λ _. do
          cur_window ← run_at file window_start (read_exact (end - window_start))
          found ← parse_found file lower window_start (rfind_iter sig_bytes cur_window)
          dite (ℕ_discrete window_start lower) (λ _. ok (results ++ found))
              (λ ne.
                scan (next_window window_start) (next_window-ge window_start)
                  (smaller _ (next_window-lt window_start le ne)) (results ++ found)))

  unfoldable pub find_and_parse : ZipResult (List Found)
  unfolding scan lt_wf next_window parse_found ℕ_discrete
  find_and_parse = do
    results ← scan first_window (omega arith) (lt_wf.apply first_window) []
    or_not_found results
