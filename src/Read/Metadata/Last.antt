-- ===== src/Read/Metadata/Last.antt =====
-- src/read.rs: `get_metadata` on a file whose last end record is a good one.
use zip.Prelude.{
  ==_refl, ℕ, ◌≤◌, ◌<◌, ◌≡◌, refl, sym, ap, ◌∙◌, subst, arith, inl, inr, some, List, [], ◌∷◌,
  length, All, In,
}
use zip.Result.{ZipResult, ok}
use zip.LittleEndian.{IsByte}
use zip.Cursor.{run_at}
use zip.Spec.Zip32End
use zip.Spec.Block.{size_of}
use zip.Spec.Records.{zip32_cde_block}
use zip.Spec.Zip32End.{Zip32CentralDirectoryEnd}
use zip.Spec.Find.{Finder, IsFinder}
use zip.Spec.Find.Zip32.Window.{ParsesAt}
use zip.Spec.Find.Zip32.Complete.{find_and_parse_all}
use zip.Read.Config.{Config}
use zip.Read.Directory.{CentralDirectoryInfo, get_directory_info_zip32, get_directory_info_zip64}
use zip.Read.Metadata.{
  SharedBuilder, no_errors, Candidate, Gathered, gather_32, sort_by_key, read_central_header,
  gather, after_candidate, best_result, or_error, get_metadata,
}
use zip.Read.Metadata.First.{sort_by_key-IsSorted}
use zip.Read.Metadata.Candidates.{
  Always, Stays, IsBelow, get_directory_info_zip32-Stays, get_directory_info_zip64-Stays,
  sort_by_key-All, In-sort_by_key, head_of_sorted, gather_results-All, gather_32-All,
  gather_results-In, gather_32-In, gather_32-added,
}

module _ (crc32 : List ℕ → ℕ) (rfind_iter : Finder) (config : Config) (file : List ℕ)
    (footer : Zip32CentralDirectoryEnd) (info : CentralDirectoryInfo) where
  abbrev nothing_yet : Gathered
  nothing_yet = record { errors_32 = no_errors; errors_64 = no_errors; ok_results = [] }

  abbrev best : Candidate
  best = (footer, info)

  module _ (directory : get_directory_info_zip32 config file footer info.cde_position ≡ ok info)
      (no_zip64 : (rs : List (ZipResult CentralDirectoryInfo))
        → ¬ (
            get_directory_info_zip64 rfind_iter config file footer info.cde_position ≡ ok rs)) where
    -- The candidates of an end record that is the last one, or before it.
    IsBelow-location :
        (f : Zip32CentralDirectoryEnd) (p : ℕ) (o : CentralDirectoryInfo)
        → p ≤ info.cde_position
        → (p ≡ info.cde_position → f ≡ footer)
        → get_directory_info_zip32 config file f p ≡ ok o
        → IsBelow best (f, o)
    IsBelow-location f p o le same h =
        let stays = get_directory_info_zip32-Stays config file f p o h in
        (
          omega arith,
          λ e.
              let at : p ≡ info.cde_position = omega arith in
              let f_same : f ≡ footer = same at in
              let o_same : ok o ≡ ok info =
                sym h ∙ (λ i. get_directory_info_zip32 config file (f_same i) (at i)) ∙ directory in
              let inner : o ≡ info = cc in λ i. (f_same i, inner i),
        )

    IsBelow-location_64 :
        (f : Zip32CentralDirectoryEnd) (p : ℕ) (rs : List (ZipResult CentralDirectoryInfo))
        → p ≤ info.cde_position
        → (p ≡ info.cde_position → f ≡ footer)
        → get_directory_info_zip64 rfind_iter config file f p ≡ ok rs
        → All (Always (λ o. IsBelow best (f, o))) rs
    IsBelow-location_64 f p rs le same h =
        let earlier : p < info.cde_position =
          omega (arith, λ (e : p ≡ info.cde_position). no_zip64_here e) in
        All-weaken rs (get_directory_info_zip64-Stays rfind_iter config file f p rs h)
      where
        no_zip64_here : ¬ (p ≡ info.cde_position)
        no_zip64_here e =
            no_zip64 rs
              (sym (λ i. get_directory_info_zip64 rfind_iter config file (same e i) (e i)) ∙ h)

        All-weaken :
            (rs : List (ZipResult CentralDirectoryInfo))
            → All (Always (Stays p)) rs
            → All (Always (λ o. IsBelow best (f, o))) rs
        All-weaken [] k = tt
        All-weaken (r ∷ rs) (k, ks) = (
          λ o e. (omega (arith, k o e), λ q. absurd (no_zip64_here (sym (k o e) ∙ q))),
          All-weaken rs ks,
        )

    abbrev IsLocation : Zip32CentralDirectoryEnd × ℕ → Type 0
    IsLocation (f, p) = (p ≤ info.cde_position) × (p ≡ info.cde_position → f ≡ footer)

    gather-IsBelow :
        (locations : List (Zip32CentralDirectoryEnd × ℕ)) (g : Gathered)
        → All IsLocation locations
        → All (IsBelow best) g.ok_results
        → All (IsBelow best) (gather crc32 rfind_iter config file locations g).ok_results
    unfolding gather
    gather-IsBelow [] g ls h = h
    gather-IsBelow ((f, p) ∷ locations) g ((le, same), ls) h = gather-IsBelow locations _ ls (
        gather_results-All (IsBelow best) f
          (gather_32 g (get_directory_info_zip32 config file f p) f)
          (get_directory_info_zip64 rfind_iter config file f p)
          (gather_32-All (IsBelow best) f g (get_directory_info_zip32 config file f p) h
            (λ o e. IsBelow-location f p o le same e))
          (λ rs e. IsBelow-location_64 f p rs le same e))

    gather-keeps :
        (c : Candidate) (locations : List (Zip32CentralDirectoryEnd × ℕ)) (g : Gathered)
        → In c g.ok_results
        → In c (gather crc32 rfind_iter config file locations g).ok_results
    unfolding gather
    gather-keeps c [] g h = h
    gather-keeps c ((f, p) ∷ locations) g h = gather-keeps c locations _ (
        gather_results-In c (gather_32 g (get_directory_info_zip32 config file f p) f)
          (get_directory_info_zip64 rfind_iter config file f p) f
          (gather_32-In c g (get_directory_info_zip32 config file f p) f h))

    gather-In :
        (locations : List (Zip32CentralDirectoryEnd × ℕ)) (g : Gathered)
        → In (footer, info.cde_position) locations
        → In best (gather crc32 rfind_iter config file locations g).ok_results
    unfolding gather
    gather-In [] g h = absurd h
    gather-In ((f, p) ∷ locations) g (inl e) =
        let f_same : footer ≡ f = ap (λ (t : Zip32CentralDirectoryEnd × ℕ). t.0) e in
        let at : info.cde_position ≡ p = ap (λ (t : Zip32CentralDirectoryEnd × ℕ). t.1) e in
        let added : In (f, info)
            (gather_32 g (get_directory_info_zip32 config file f p) f).ok_results =
          gather_32-added g f (get_directory_info_zip32 config file f p) info
            (sym (λ i. get_directory_info_zip32 config file (f_same i) (at i)) ∙ directory) in
        gather-keeps best locations _ (
          gather_results-In best (gather_32 g (get_directory_info_zip32 config file f p) f)
            (get_directory_info_zip64 rfind_iter config file f p) f
            (subst
              (λ t.
                In (t, info) (gather_32 g (get_directory_info_zip32 config file f p) f).ok_results)
              (sym f_same) added))
    gather-In ((f, p) ∷ locations) g (inr h) = gather-In locations _ h

    -- The end record comes first of all candidates.
    comes_first :
        (locations : List (Zip32CentralDirectoryEnd × ℕ))
        → All IsLocation locations
        → In (footer, info.cde_position) locations
        → (others : List Candidate) × (sort_by_key
              (gather crc32 rfind_iter config file locations nothing_yet).ok_results
            ≡ best ∷ others)
    comes_first locations ls there =
        let cs = (gather crc32 rfind_iter config file locations nothing_yet).ok_results in
        head_of_sorted best (sort_by_key cs) (sort_by_key-IsSorted cs)
          (sort_by_key-All (IsBelow best) cs (gather-IsBelow locations nothing_yet ls tt))
          (In-sort_by_key best cs (gather-In locations nothing_yet there))

    -- Where an end record parses that is the last one of a file of 22 bytes or more,
    -- `get_directory_info_zip32` succeeds on it and `get_directory_info_zip64` does not, and its
    -- directory is read with the number of entries that it counts:
    -- with a finder as it is documented, `get_metadata` gives this record and this directory, whatever
    -- end records stand before it.
    pub get_metadata-last :
        (shared : SharedBuilder)
        → IsFinder rfind_iter
        → All IsByte file
        → size_of zip32_cde_block ≤ length file
        → ParsesAt file (footer, info.cde_position)
        → ((r : Zip32CentralDirectoryEnd × ℕ) → ParsesAt file r → r.1 ≤ info.cde_position)
        → read_central_header crc32 rfind_iter info file ≡ ok shared
        → length shared.files ≡ footer.number_of_files
        → get_metadata crc32 rfind_iter config file ≡ some (ok (footer, shared))
    unfolding get_metadata best_result after_candidate
    get_metadata-last shared law bytes enough there last directory_read number =
        elim (find_and_parse_all rfind_iter law file bytes enough) [
          | inl (locations, found, all) ↦
              let (others, first) =
                comes_first locations (are_locations locations (λ r i. (all r).0 i))
                  ((all (footer, info.cde_position)).1 there) in
              rw (found, get_metadata)
                (ap
                    (λ cs. or_error (
                      best_result crc32 rfind_iter file cs (
                        let g = gather crc32 rfind_iter config file locations nothing_yet in
                        (g.errors_32, g.errors_64))))
                    first
                  ∙ rw (directory_read, after_candidate)
                      (rw (number, ==_refl footer.number_of_files) refl))
          | inr (_, none_there) ↦ absurd (none_there (footer, info.cde_position) there)
        ]
      where
        location : (r : Zip32CentralDirectoryEnd × ℕ) → ParsesAt file r → IsLocation r
        location (f, p) h = (
          last (f, p) h,
          λ e.
              let same : ok f ≡ ok footer =
                sym h ∙ ap (λ n. run_at file n Zip32End.parse) e ∙ there in
              cc,
        )

        are_locations :
            (rs : List (Zip32CentralDirectoryEnd × ℕ))
            → ((r : Zip32CentralDirectoryEnd × ℕ) → In r rs → ParsesAt file r)
            → All IsLocation rs
        are_locations [] h = tt
        are_locations (r ∷ rs) h =
            (location r (h r (inl refl)), are_locations rs (λ q i. h q (inr i)))
