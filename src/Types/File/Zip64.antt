-- ===== src/Types/File/Zip64.antt =====
-- src/types.rs: the ZIP64 extra field of an entry, `Zip64ExtraFieldBlock`.
pub mod Laws
use zip.Prelude.{
  ℕ, ◌+◌, ◌<◌, ◌≤◌, ◌≡◌, refl, arith, Bool, ◌||◌, leb, ◌==◌, if◌then◌else◌, Option, none, some,
  List, [], ◌++◌, length,
}
use zip.LittleEndian.{to_le_bytes}
use zip.Spec.Records.{zip64_bytes_thr}
use zip.Types.File.{ZipFileData}

-- `ExtraFieldMagic::ZIP64_EXTRA_FIELD_TAG`.
abbrev pub zip64_extra_field_tag : ℕ
zip64_extra_field_tag = 0x0001

pub record Zip64ExtraFieldBlock : Type 0 where
  pub magic : ℕ
  pub size : ℕ
  pub uncompressed_size : Option ℕ
  pub compressed_size : Option ℕ
  pub header_start : Option ℕ

-- What each optional number adds to the size.
abbrev pub size_of_some : Option ℕ → ℕ
size_of_some none = 0
size_of_some (some v) = 8

unfoldable pub zip64_extra_field_block : ZipFileData → Option Zip64ExtraFieldBlock
zip64_extra_field_block f =
    let uncompressed_size =
      if leb zip64_bytes_thr f.uncompressed_size || f.large_file
      then some zip64_bytes_thr
      else none in
    let compressed_size =
      if leb zip64_bytes_thr f.compressed_size || f.large_file
      then some zip64_bytes_thr
      else none in
    let header_start = if leb zip64_bytes_thr f.header_start then some zip64_bytes_thr else none in
    let size =
      size_of_some uncompressed_size + size_of_some compressed_size + size_of_some header_start in
    if size == 0
    then none
    else some (record {
      magic = zip64_extra_field_tag;
      size = size;
      uncompressed_size = uncompressed_size;
      compressed_size = compressed_size;
      header_start = header_start;
    })

-- `full_size`, for a block whose size is not 0, as its assertion wants.
unfoldable pub full_size : Zip64ExtraFieldBlock → ℕ
full_size b = b.size + 2 + 2

abbrev pub bytes_of_some : Option ℕ → List ℕ
bytes_of_some none = []
bytes_of_some (some v) = to_le_bytes 8 v

unfoldable pub serialize : Zip64ExtraFieldBlock → List ℕ
serialize b =
    to_le_bytes 2 b.magic
    ++ (to_le_bytes 2 b.size
        ++ (bytes_of_some b.uncompressed_size
            ++ (bytes_of_some b.compressed_size ++ bytes_of_some b.header_start)))
