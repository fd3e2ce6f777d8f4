-- ===== src/Types/File/Zip64/Laws.antt =====
-- src/types.rs: when an entry has a ZIP64 extra field, and what the field holds.
use zip.Prelude.{
  ℕ, ◌+◌, ◌<◌, ◌≤◌, ◌≡◌, ◌↔◌, ◌⊎◌, inl, inr, refl, arith, true, false, Option, none, some, List,
  ◌++◌, length, length-append, min, Option-cases, dec_lt,
}
use zip.LittleEndian.{to_le_bytes, length-to_le_bytes}
use zip.Result.{ok}
use zip.Spec.Records.{zip64_bytes_thr}
use zip.Types.DateTime.{DateTime}
use zip.Types.Headers.{ZipCentralEntryBlock}
use zip.Types.File.{ZipFileData, is_some}
use zip.Types.File.Zip64.{
  Zip64ExtraFieldBlock, size_of_some, bytes_of_some, zip64_extra_field_block, full_size, serialize,
}
use zip.Types.File.Blocks.{block}

-- An entry has no ZIP64 extra field exactly when it is not marked as large, and its two sizes and
-- its header's position are below the threshold.
pub zip64_extra_field_block-none :
    (f : ZipFileData)
    → (zip64_extra_field_block f ≡ none) ↔ (
        (f.large_file ≡ false)
        × (f.uncompressed_size < zip64_bytes_thr)
        × (f.compressed_size < zip64_bytes_thr)
        × (f.header_start < zip64_bytes_thr))
unfolding zip64_extra_field_block
zip64_extra_field_block-none f = (λ e. ground arith, λ h. ground arith)

size_inv :
    (f : ZipFileData) {z : Zip64ExtraFieldBlock}
    → zip64_extra_field_block f ≡ some z
    → z.size
      ≡ size_of_some z.uncompressed_size
        + size_of_some z.compressed_size
        + size_of_some z.header_start
unfolding zip64_extra_field_block
size_inv f e = ground arith

-- The ZIP64 extra field of an entry is as long as `full_size` says, and its size field counts the
-- bytes behind the size.
pub length-serialize :
    (f : ZipFileData) {z : Zip64ExtraFieldBlock}
    → zip64_extra_field_block f ≡ some z
    → (length (serialize z) ≡ full_size z) × (z.size + 4 ≡ length (serialize z)) × (z.size ≤ 24)
unfolding serialize full_size
length-serialize f {z} e = omega (
  arith,
  size_inv f e,
  length-append (to_le_bytes 2 z.magic) (to_le_bytes 2 z.size ++ (numbers z)),
  length-append (to_le_bytes 2 z.size) (numbers z),
  length-append (bytes_of_some z.uncompressed_size)
      (bytes_of_some z.compressed_size ++ bytes_of_some z.header_start),
  length-append (bytes_of_some z.compressed_size) (bytes_of_some z.header_start),
  length-to_le_bytes 2 z.magic,
  length-to_le_bytes 2 z.size,
  number z.uncompressed_size,
  number z.compressed_size,
  number z.header_start,
)
  where
    numbers : Zip64ExtraFieldBlock → List ℕ
    numbers z =
        bytes_of_some z.uncompressed_size
        ++ (bytes_of_some z.compressed_size ++ bytes_of_some z.header_start)

    number : (o : Option ℕ) → (length (bytes_of_some o) ≡ size_of_some o) × (size_of_some o ≤ 8)
    number none = (refl, omega arith)
    number (some v) = (length-to_le_bytes 8 v, omega arith)

-- The number in a header, for the one that the entry has.
abbrev pub Recoverable : ZipFileData → (Zip64ExtraFieldBlock → Option ℕ) → ℕ → ℕ → Type 0
Recoverable f field written number =
    ((written ≡ number) × (number < zip64_bytes_thr))
    ⊎ ((written ≡ zip64_bytes_thr)
        × ((z : Zip64ExtraFieldBlock) × (zip64_extra_field_block f ≡ some z)
            × (is_some (field z) ≡ true)))

written :
    (default_for_write : DateTime) (f : ZipFileData) (n : ℕ) {b : ZipCentralEntryBlock}
    → block default_for_write f n ≡ some (ok b)
    → (b.compressed_size ≡ min f.compressed_size zip64_bytes_thr)
      × (b.uncompressed_size ≡ min f.uncompressed_size zip64_bytes_thr)
      × (b.offset ≡ min f.header_start zip64_bytes_thr)
unfolding block
written default_for_write f n e = (ground arith, ground arith, ground arith)

fields_present :
    (f : ZipFileData) {z : Zip64ExtraFieldBlock}
    → zip64_extra_field_block f ≡ some z
    → (zip64_bytes_thr ≤ f.compressed_size → is_some z.compressed_size ≡ true)
      × (zip64_bytes_thr ≤ f.uncompressed_size → is_some z.uncompressed_size ≡ true)
      × (zip64_bytes_thr ≤ f.header_start → is_some z.header_start ≡ true)
unfolding zip64_extra_field_block
fields_present f e = (λ h. ground arith, λ h. ground arith, λ h. ground arith)

recover :
    (f : ZipFileData) (field : Zip64ExtraFieldBlock → Option ℕ) (number : ℕ) {w : ℕ}
    → w ≡ min number zip64_bytes_thr
    → (zip64_bytes_thr ≤ number
        → (f.compressed_size < zip64_bytes_thr
            → f.uncompressed_size < zip64_bytes_thr
            → f.header_start < zip64_bytes_thr
            → ⊥)
          × ((z : Zip64ExtraFieldBlock)
              → zip64_extra_field_block f ≡ some z
              → is_some (field z) ≡ true))
    → Recoverable f field w number
recover f field number e present = elim (dec_lt number zip64_bytes_thr) [
  | yes small ↦ inl (omega arith, small)
  | no large ↦ inr (
    omega arith,
    elim (Option-cases (zip64_extra_field_block f)) [
      | inl absent ↦
          let (l, u, c, h) = (zip64_extra_field_block-none f).0 absent in
          absurd ((present (omega arith)).0 c u h)
      | inr (z, there) ↦ (z, there, (present (omega arith)).1 z there)
    ],
  )
]

-- A size or a position in the central header is the entry's own, or it is the threshold and the
-- entry has a ZIP64 extra field that holds a number for it.
pub central_sizes :
    (default_for_write : DateTime) (f : ZipFileData) (n : ℕ) {b : ZipCentralEntryBlock}
    → block default_for_write f n ≡ some (ok b)
    → Recoverable f (λ z. z.compressed_size) b.compressed_size f.compressed_size
      × Recoverable f (λ z. z.uncompressed_size) b.uncompressed_size f.uncompressed_size
      × Recoverable f (λ z. z.header_start) b.offset f.header_start
central_sizes default_for_write f n e =
    let (c, u, o) = written default_for_write f n e in
    (
      recover f (λ z. z.compressed_size) f.compressed_size c
          (λ large. (λ c u o. omega arith, λ z h. (fields_present f h).0 large)),
      recover f (λ z. z.uncompressed_size) f.uncompressed_size u
          (λ large. (λ c u o. omega arith, λ z h. (fields_present f h).1 large)),
      recover f (λ z. z.header_start) f.header_start o
          (λ large. (λ c u o. omega arith, λ z h. (fields_present f h).2 large)),
    )
