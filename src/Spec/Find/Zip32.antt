-- ===== src/Spec/Find/Zip32.antt =====
-- src/spec.rs: `Zip32CentralDirectoryEnd::find_and_parse`. Each read seeks first, so the file is a
-- list of bytes, and the loop recurs on the start of the window, which falls.
pub mod Window
pub mod Complete
use zip.Prelude.{
  ℕ, ◌+◌, ◌-◌, ◌<◌, ◌≡◌, ◌≢◌, arith, List, [], ◌∷◌, ◌++◌, length, ltb, if◌then◌else◌, min, Acc,
  dite, lt_wf, ℕ_discrete,
}
use zip.Result.{ZipResult, ok, err, invalid_archive}
use zip.LittleEndian.{to_le_bytes}
use zip.Cursor.{read_exact, run_at}
use zip.Spec.Block.{size_of}
use zip.Spec.Records.{zip32_cde_block, central_directory_end_signature}
use zip.Spec.Zip32End.{Zip32CentralDirectoryEnd, parse}
use zip.Spec.Find.{Finder}

abbrev pub end_window_size : ℕ
end_window_size = 512

abbrev pub sig_bytes : List ℕ
unfolding to_le_bytes
sig_bytes = to_le_bytes 4 central_directory_end_signature

-- The start of the next window: the end of this one moves to 4 bytes past its start.
unfoldable pub next_window : List ℕ → ℕ → ℕ
next_window file window_start = min (window_start + 4) (length file) - end_window_size

pub next_window-lt :
    (file : List ℕ) (window_start : ℕ)
    → window_start ≢ 0
    → next_window file window_start < window_start
unfolding next_window
next_window-lt file window_start ne = omega arith

-- `if let Ok(cde) = Self::parse(reader) { results.push(..) }`.
abbrev pub push_ok :
    ℕ
    → ZipResult Zip32CentralDirectoryEnd
    → List (Zip32CentralDirectoryEnd × ℕ)
    → List (Zip32CentralDirectoryEnd × ℕ)
push_ok cde_start_pos (ok cde) rest = (cde, cde_start_pos) ∷ rest
push_ok cde_start_pos (err e) rest = rest

-- The inner loop: parse at each offset of the window, and drop what does not parse.
unfoldable pub parse_found : List ℕ → ℕ → List ℕ → List (Zip32CentralDirectoryEnd × ℕ)
parse_found file window_start [] = []
parse_found file window_start (offset ∷ offsets) =
    let cde_start_pos = window_start + offset in
    push_ok cde_start_pos (run_at file cde_start_pos parse) (parse_found file window_start offsets)

-- `results.is_empty()`.
abbrev pub or_not_found :
    List (Zip32CentralDirectoryEnd × ℕ) → ZipResult (List (Zip32CentralDirectoryEnd × ℕ))
or_not_found [] = err (invalid_archive "Could not find central directory end")
or_not_found (r ∷ rs) = ok (r ∷ rs)

module _ (rfind_iter : Finder) where
  unfoldable pub scan :
      (file : List ℕ) (window_start : ℕ)
      → Acc ◌<◌ window_start
      → List (Zip32CentralDirectoryEnd × ℕ)
      → ZipResult (List (Zip32CentralDirectoryEnd × ℕ))
  scan file window_start (Acc.intro _ smaller) results =
      let end = min (window_start + end_window_size) (length file) in
      elim (run_at file window_start (read_exact (end - window_start))) [
        | ok cur_window ↦
            let results' =
              results ++ parse_found file window_start (rfind_iter sig_bytes cur_window) in
            dite (ℕ_discrete window_start 0) (λ _. ok results')
              (λ ne.
                scan file (next_window file window_start)
                  (smaller _ (next_window-lt file window_start ne)) results')
        | err e ↦ err e
      ]

  unfoldable pub find_and_parse : List ℕ → ZipResult (List (Zip32CentralDirectoryEnd × ℕ))
  unfolding scan lt_wf next_window parse_found ℕ_discrete
  find_and_parse file =
      if ltb (length file) (size_of zip32_cde_block)
      then err (invalid_archive "Invalid zip header")
      else let window_start = length file - end_window_size in
        elim (scan file window_start (lt_wf.apply window_start) []) [
          | ok results ↦ or_not_found results
          | err e ↦ err e
        ]
