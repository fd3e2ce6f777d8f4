-- ===== src/Read/Stream/Visit/Files.antt =====
-- src/read/stream.rs: the entries that `visit` passes to the visitor.
use zip.Prelude.{
  ℕ, zero, suc, ◌+◌, ◌<◌, ◌≡◌, refl, ap, ◌∙◌, sym, arith, none, some, List, [], ◌∷◌, ◌++◌, length,
  take, take-append_length, drop, append_assoc, length-append,
}
use zip.Result.{ZipResult, ok, err, ◌>>=◌}
use zip.LittleEndian.{from_le_bytes, to_le_bytes}
use zip.Cursor.{
  Cursor, advance, remaining, remaining-advance, read_exact, read_exact-append, bind_ok,
}
use zip.Spec.Block.{encode, encode_fields}
use zip.Spec.Block.Laws.{length-encode}
use zip.Spec.Records.{central_directory_header_signature}
use zip.Types.DateTime.{DateTime}
use zip.Types.Headers.{ZipCentralEntryBlock, zip_central_entry_block, zip_local_entry_block}
use zip.Types.File.{ZipFileData}
use zip.Compression.{CompressionMethod}
use zip.Types.File.Blocks.Readable.{local_header}
use zip.Read.Stream.{read_zipfile_from_stream}
use zip.Read.Stream.Local.{
  IsStreamable, as_streamed, local_header-valid, read_zipfile_from_stream_lem,
}
use zip.Read.Stream.Visit.{ZipStreamVisitor, after_file, drain, visit_files, visited}

-- The start of a central header, which a local header would fill.
abbrev start_of : ZipCentralEntryBlock → List ℕ
start_of b = take 30 (encode zip_central_entry_block b)

parts :
    (b : ZipCentralEntryBlock)
    → (encode zip_central_entry_block b ≡ start_of b ++ drop 30 (encode zip_central_entry_block b))
      × (length (start_of b) ≡ 30)
      × (from_le_bytes (take 4 (start_of b)) ≡ from_le_bytes (to_le_bytes 4 b.magic))
unfolding encode encode_fields to_le_bytes
parts b = (refl, refl, refl)

-- Where a central header stands, no entry is read, and 30 bytes of the header are taken.
pub read_zipfile_from_stream-central :
    (crc32 : List ℕ → ℕ) (b : ZipCentralEntryBlock) (c : Cursor) (rest : List ℕ)
    → b.magic ≡ central_directory_header_signature
    → remaining c ≡ encode zip_central_entry_block b ++ rest
    → read_zipfile_from_stream crc32 c ≡ ok (none, advance 30 c)
unfolding read_zipfile_from_stream to_le_bytes from_le_bytes
read_zipfile_from_stream-central crc32 b c rest signed stands =
    bind_ok (read_exact 30) _ c (
      read_exact-append c (start_of b) (drop 30 (encode zip_central_entry_block b) ++ rest) 30
        (sym (parts b).1)
        (stands
          ∙ ap (λ l. l ++ rest) (parts b).0
          ∙ append_assoc (start_of b) (drop 30 (encode zip_central_entry_block b)) rest))
    ∙ rw ((parts b).2, signed) refl

drain_whole :
    (m : CompressionMethod) (taken whole : ℕ)
    → (m ≡ CompressionMethod.lzma → taken ≡ whole)
    → drain m taken whole ≡ whole
drain_whole CompressionMethod.lzma taken whole h = h refl
drain_whole CompressionMethod.stored taken whole h = refl
drain_whole CompressionMethod.deflated taken whole h = refl
drain_whole CompressionMethod.deflate64 taken whole h = refl
drain_whole CompressionMethod.bzip2 taken whole h = refl
drain_whole CompressionMethod.aes taken whole h = refl
drain_whole CompressionMethod.zstd taken whole h = refl
drain_whole (CompressionMethod.unsupported v) taken whole h = refl

-- Entries with their contents, as they stand one behind the other.
module _ (default_for_write : DateTime) where
  unfoldable pub streamed_bytes : List (ZipFileData × List ℕ) → List ℕ
  streamed_bytes [] = []
  streamed_bytes ((f, content) ∷ fs) =
      encode zip_local_entry_block (local_header default_for_write f)
      ++ (f.file_name_raw ++ (content ++ streamed_bytes fs))

  abbrev pub AreStreamable : List (ZipFileData × List ℕ) → Type 0
  AreStreamable [] = Unit {0}
  AreStreamable ((f, content) ∷ fs) =
      IsStreamable default_for_write f × (length content ≡ f.compressed_size) × AreStreamable fs

  -- The visitor at these entries in their order, until it fails.
  abbrev pub visit_all :
      {S : Type 0} → ZipStreamVisitor S → S → List (ZipFileData × List ℕ) → ZipResult S
  visit_all v s [] = ok s
  visit_all v s ((f, content) ∷ fs) =
      v.visit_file s (as_streamed default_for_write f, content) >>= λ s'. visit_all v s' fs

  module _ (crc32 : List ℕ → ℕ) {S : Type 0} (v : ZipStreamVisitor S) where
    -- Of an LZMA entry all bytes are taken.
    abbrev pub AllTaken : List (ZipFileData × List ℕ) → Type 0
    AllTaken [] = Unit {0}
    AllTaken ((f, content) ∷ fs) =
        ((s : S)
          → f.compression_method ≡ CompressionMethod.lzma
          → v.lzma_taken s (as_streamed default_for_write f, content) ≡ length content)
        × AllTaken fs

    one_file :
        (fuel : ℕ) (f : ZipFileData) (content : List ℕ) (s : S) (c : Cursor) (rest : List ℕ)
        → IsStreamable default_for_write f
        → length content ≡ f.compressed_size
        → (f.compression_method ≡ CompressionMethod.lzma
            → v.lzma_taken s (as_streamed default_for_write f, content) ≡ length content)
        → remaining c
          ≡ encode zip_local_entry_block (local_header default_for_write f)
            ++ (f.file_name_raw ++ (content ++ rest))
        → visit_files crc32 v (suc fuel) s c
          ≡ after_file
              (λ s c. visit_files crc32 v fuel s c)
              (length content)
              (advance (30 + length f.file_name_raw) c)
              (v.visit_file s (as_streamed default_for_write f, content))
    unfolding visit_files
    one_file fuel f content s c rest h sized taken stands =
        ap (visited v (λ s c. visit_files crc32 v fuel s c) s) (
          read_zipfile_from_stream_lem default_for_write f h crc32 c (content ++ rest) stands
          ∙ ap
              (λ l. ok (
                some (as_streamed default_for_write f, l),
                advance (30 + length f.file_name_raw) c,
              ))
              whole)
        ∙ ap
            (λ n.
              after_file (λ s c. visit_files crc32 v fuel s c) n
                (advance (30 + length f.file_name_raw) c)
                (v.visit_file s (as_streamed default_for_write f, content)))
            (drain_whole f.compression_method
              (v.lzma_taken s (as_streamed default_for_write f, content)) (length content) taken)
      where
        whole : take f.compressed_size (content ++ rest) ≡ content
        whole = rw (← sized) (take-append_length content rest)

    length-header :
        (f : ZipFileData)
        → IsStreamable default_for_write f
        → length (encode zip_local_entry_block (local_header default_for_write f)) ≡ 30
    unfolding zip.Spec.Block.size_of
    length-header f h =
        length-encode zip_local_entry_block (local_header default_for_write f)
          (local_header-valid default_for_write f h)

    length-streamed :
        (f : ZipFileData) (content : List ℕ) (fs : List (ZipFileData × List ℕ))
        → IsStreamable default_for_write f
        → length (streamed_bytes ((f, content) ∷ fs))
          ≡ 30 + (length f.file_name_raw + (length content + length (streamed_bytes fs)))
    unfolding streamed_bytes
    length-streamed f content fs h =
        length-append (encode zip_local_entry_block (local_header default_for_write f))
          (f.file_name_raw ++ (content ++ streamed_bytes fs))
        ∙ rw
            (
              length-header f h,
              length-append f.file_name_raw (content ++ streamed_bytes fs),
              length-append content (streamed_bytes fs),
            )
            refl

    behind_file :
        (f : ZipFileData) (content : List ℕ) (c : Cursor) (rest : List ℕ)
        → IsStreamable default_for_write f
        → remaining c
          ≡ encode zip_local_entry_block (local_header default_for_write f)
            ++ (f.file_name_raw ++ (content ++ rest))
        → remaining (advance (length content) (advance (30 + length f.file_name_raw) c)) ≡ rest
    behind_file f content c rest h stands =
        remaining-advance (advance (30 + length f.file_name_raw) c) content rest _ refl (
          remaining-advance c (header ++ f.file_name_raw) (content ++ rest) _
            (sym (
              length-append header f.file_name_raw
              ∙ ap (λ n. n + length f.file_name_raw) (length-header f h)))
            (stands ∙ sym (append_assoc header f.file_name_raw (content ++ rest))))
      where
        header : List ℕ
        header = encode zip_local_entry_block (local_header default_for_write f)

    next_file :
        (next_rounds : S → Cursor → ZipResult (S × Cursor))
        → (taken : ℕ) (c : Cursor) (fs : List (ZipFileData × List ℕ))
        → (k : S → ZipResult (S × Cursor))
        → ((s : S) → next_rounds s (advance taken c) ≡ visit_all v s fs >>= k)
        → (r : ZipResult S) → after_file next_rounds taken c r ≡ (r >>= λ s. visit_all v s fs) >>= k
    next_file next_rounds taken c fs k h (ok s) = h s
    next_file next_rounds taken c fs k h (err e) = refl

    -- Where entries that their local headers hold in full stand one behind the other, each with its
    -- content, and a central header stands behind them, and of each LZMA entry all bytes are taken
    -- when it is dropped, as they are if they decode: the first loop of `visit`, with more rounds than
    -- entries, passes to the visitor each entry and its content in order, until the visitor fails; it
    -- ends 30 bytes behind the start of the central header.
    pub visit_files_lem :
        (b : ZipCentralEntryBlock) (rest : List ℕ)
        → b.magic ≡ central_directory_header_signature
        → (fs : List (ZipFileData × List ℕ)) (fuel : ℕ) (s : S) (c : Cursor) → AreStreamable fs
        → AllTaken fs
        → length fs < fuel
        → remaining c ≡ streamed_bytes fs ++ (encode zip_central_entry_block b ++ rest)
        → visit_files crc32 v fuel s c
          ≡ visit_all v s fs >>= λ s'. ok (s', advance (length (streamed_bytes fs) + 30) c)
    unfolding streamed_bytes visit_files
    visit_files_lem b rest signed fs zero s c h all more stands = absurd (omega arith)
    visit_files_lem b rest signed [] (suc fuel) s c h all more stands =
        ap (visited v (λ s c. visit_files crc32 v fuel s c) s)
          (read_zipfile_from_stream-central crc32 b c rest signed stands)
    visit_files_lem b rest signed ((f, content) ∷ fs) (suc fuel) s c (h, sized, hs) (all, alls) more
          stands =
        one_file fuel f content s c behind h sized (all s) at
        ∙ next_file (λ s c. visit_files crc32 v fuel s c) (length content)
            (advance (30 + length f.file_name_raw) c) fs _
            (λ s'.
              visit_files_lem b rest signed fs fuel s' _ hs alls (omega arith)
                (behind_file f content c behind h at)
              ∙ ap (λ n. visit_all v s' fs >>= λ t. ok (t, record c { pos = n })) end)
            (v.visit_file s (as_streamed default_for_write f, content))
      where
        behind : List ℕ
        behind = streamed_bytes fs ++ (encode zip_central_entry_block b ++ rest)

        at :
            remaining c
            ≡ encode zip_local_entry_block (local_header default_for_write f)
              ++ (f.file_name_raw ++ (content ++ behind))
        at = stands ∙ simp (append_assoc)

        end :
            c.pos
              + (30 + length f.file_name_raw)
              + length content
              + (length (streamed_bytes fs) + 30)
            ≡ c.pos + (length (streamed_bytes ((f, content) ∷ fs)) + 30)
        end = omega (arith, length-streamed f content fs h)
