-- ===== src/Types/File/Version.antt =====
-- src/types.rs: the version that an entry needs, and the mode that its attributes stand for.
use zip.Prelude.{
  Bool-cases, ℕ_discrete, ◌⊎◌, inl, inr, ℕ, ◌≤◌, ◌≡◌, ◌≢◌, ◌↔◌, refl, arith, Bool, true, false,
  some, ◌&&◌, not, bit_and, bit_or, sym, ◌∙◌, ==_iff, ◌==◌, if◌then◌else◌,
}
use zip.Types.File.{
  ZipFileData, version_needed, compression_version, unix_mode, is_some, dos, s_ifdir, s_ifreg,
  dos_mode,
}

-- The version needed lies from 10 to 63 and covers each feature: the method, ZIP64 with a large file,
-- AES and the old encryption.
pub version_needed_covers :
    (f : ZipFileData)
    → (10 ≤ version_needed f)
      × (version_needed f ≤ 63)
      × (compression_version f.compression_method ≤ version_needed f)
      × ((f.large_file ≡ false) ⊎ (45 ≤ version_needed f))
      × ((is_some f.aes_mode ≡ false) ⊎ (51 ≤ version_needed f))
      × ((f.encrypted ≡ false) ⊎ (20 ≤ version_needed f))
unfolding version_needed
version_needed_covers f = (
  ground arith,
  ground arith,
  ground arith,
  elim (Bool-cases f.large_file) [ inl e ↦ inr (ground arith) | inr e ↦ inl e ],
  elim (Bool-cases (is_some f.aes_mode)) [ inl e ↦ inr (ground arith) | inr e ↦ inl e ],
  elim (Bool-cases f.encrypted) [ inl e ↦ inr (ground arith) | inr e ↦ inl e ],
)

-- The mode of two bits, given as the tests on them.
mode_of : Bool → Bool → ℕ
mode_of directory read_only =
    let mode = if directory then bit_or s_ifdir 0x1fd else bit_or s_ifreg 0x1b4 in
    if read_only then bit_and mode 0x16d else mode

mode_of_bits :
    (directory read_only : Bool)
    → ((bit_and (mode_of directory read_only) s_ifdir == s_ifdir) ≡ directory && not read_only)
      × (read_only ≡ true → bit_and (mode_of directory read_only) 0x92 ≡ 0)
unfolding mode_of
mode_of_bits true true = (refl, λ h. refl)
mode_of_bits true false = (refl, λ h. absurd (cc))
mode_of_bits false true = (refl, λ h. refl)
mode_of_bits false false = (refl, λ h. absurd (cc))

-- On MS-DOS, attributes other than 0 give a mode. It is a directory's exactly if the attributes have
-- the directory bit and not the read-only bit, and with the read-only bit nobody may write.
pub dos_mode_lem :
    (f : ZipFileData)
    → f.system ≡ dos
    → f.external_attributes ≢ 0
    → (mode : ℕ) × (unix_mode f ≡ some mode)
      × ((bit_and mode s_ifdir ≡ s_ifdir) ↔ (
          (bit_and f.external_attributes 0x10 ≡ 0x10)
          × (bit_and f.external_attributes 0x01 ≢ 0x01)))
      × ((bit_and f.external_attributes 0x01 ≢ 0x01) ⊎ (bit_and mode 0x92 ≡ 0))
unfolding unix_mode mode_of
dos_mode_lem f e ne =
    let attributes = f.external_attributes in
    let (directory, read_only) =
      mode_of_bits (0x10 == bit_and attributes 0x10) (0x01 == bit_and attributes 0x01) in
    (
      dos_mode attributes,
      ground arith,
      (
        λ d.
            both (0x10 == bit_and attributes 0x10) (0x01 == bit_and attributes 0x01) refl refl
              (sym directory ∙ (==_iff _ _).1 d),
        λ (d, w). (==_iff _ _).0 (directory ∙ ground arith),
      ),
      elim (ℕ_discrete (bit_and attributes 0x01) 0x01) [
        | yes r ↦ inr (read_only ((==_iff _ _).1 (sym r)))
        | no w ↦ inl w
      ],
    )
  where
    both :
        (p q : Bool)
        → (0x10 == bit_and f.external_attributes 0x10) ≡ p
        → (0x01 == bit_and f.external_attributes 0x01) ≡ q
        → (p && not q) ≡ true
        → (bit_and f.external_attributes 0x10 ≡ 0x10) × (bit_and f.external_attributes 0x01 ≢ 0x01)
    both p q hp hq h = (ground arith, ground arith)
