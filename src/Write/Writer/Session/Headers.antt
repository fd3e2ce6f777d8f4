-- ===== src/Write/Writer/Session/Headers.antt =====
-- src/write.rs and src/read.rs: the central header and the local header of an entry that is stored.
use native.Mathlib.Nat.{add-zero}
use zip.Prelude.{
  ℕ, ◌+◌, ◌^◌, ◌≤◌, ◌<◌, ◌≡◌, refl, sym, ap, ◌∙◌, arith, true, none, inl, inr, not, Bool-cases,
  if◌then◌else◌, List, ◌++◌, length, take, drop, append_assoc, length-append, drop-drop,
  drop-append_length, take-append_length,
}
use zip.Compression.{parse_from_u16, serialize_to_u16}
use zip.Spec.Block.{encode}
use zip.Spec.Block.Laws.{IsBlock}
use zip.Spec.Records.{zip64_bytes_thr}
use zip.Types.DateTime.{DateTime, is_valid}
use zip.Types.Utf8.{is_valid_utf8, all_ascii}
use zip.Types.File.{ZipFileData}
use zip.Types.File.Zip64.{zip64_extra_field_block}
use zip.Types.File.Blocks.Readable.{InRange, local_header, local_header-IsBlock}
use zip.Types.Headers.{ZipLocalEntryBlock, zip_local_entry_block}
use zip.Read.Header.Central.{IsPlain}
use zip.Read.Header.Located.{content_start}
use zip.Read.Header.Directory.{IsListable}
use zip.Write.Options.{normalize_options}
use zip.Write.State.{Environment}
use zip.Write.Writer.Entry.{new_file}
use zip.Write.Writer.Stored.{stored_file, stored_header, inserted}
use zip.Write.Writer.Stored.Entry.{length-local}
use zip.Write.Writer.Session.{Item, item_bytes, length-item_bytes}

-- What the writer needs of an entry for the reader to find it: its name is UTF-8 shorter than 64 KiB.
pub record IsItem (x : Item) : Type 0 where
  pub short : length x.name < 2 ^ 16
  pub utf8 : is_valid_utf8 x.name ≡ true

valid_or :
    (a b : DateTime) → is_valid b ≡ true → is_valid (if not (is_valid a) then b else a) ≡ true
valid_or a b h = elim (Bool-cases (is_valid a)) [ inl e ↦ rw e e | inr e ↦ rw e h ]

module _ (K : Environment) where
  open K use {hashing, default_for_write}

  module _ (x : Item) (start : ℕ) where
    abbrev pub file_of : ZipFileData
    file_of = stored_file K x.name x.time x.permissions x.content start

    abbrev pub header_of : ZipLocalEntryBlock
    header_of = stored_header K x.name x.time x.permissions x.content start

    abbrev first_of : ZipFileData
    first_of = inserted default_for_write x.name x.time x.permissions start

    pub no_zip64 :
        start < zip64_bytes_thr
        → length x.content < zip64_bytes_thr
        → (zip64_extra_field_block first_of ≡ none) × (zip64_extra_field_block file_of ≡ none)
    unfolding new_file normalize_options zip64_extra_field_block
    no_zip64 low small = (ground arith, ground arith)

    pub lengths_of :
        start < zip64_bytes_thr
        → (header_of.file_name_length ≡ length x.name) × (header_of.extra_field_length ≡ 0)
    unfolding local_header new_file normalize_options zip64_extra_field_block
    lengths_of low = (refl, ground arith)

    module _ (valid : is_valid default_for_write ≡ true)
        (word : (h : hashing.Hasher) → hashing.finalize h < 2 ^ 32) where
      first-InRange : InRange default_for_write first_of
      unfolding new_file normalize_options serialize_to_u16
      first-InRange = record {
        crc32 = omega arith;
        method = omega arith;
        moment = valid_or x.time default_for_write valid;
        attributes = omega arith;
        made_by = omega arith;
      }

      in_range : InRange default_for_write file_of
      in_range = record {
        crc32 = word _;
        method = first-InRange.method;
        moment = first-InRange.moment;
        attributes = first-InRange.attributes;
        made_by = first-InRange.made_by;
      }

      module _ (v : IsItem x) (fits : start + length (item_bytes K x start) < zip64_bytes_thr) where
        pub plain : IsPlain default_for_write file_of
        unfolding new_file normalize_options is_valid_utf8 all_ascii parse_from_u16 serialize_to_u16
        plain = record {
          in_range = in_range;
          text = record { name = v.utf8; comment = refl; marked = inl refl };
          method = refl;
          not_aes = λ e. absurd cc;
          no_zip64 = (no_zip64 (omega arith) (omega (arith, length-item_bytes K x start))).1;
          no_extra = refl;
          no_central_extra = refl;
        }

        pub header_valid : IsBlock zip_local_entry_block header_of
        unfolding new_file normalize_options
        header_valid =
            let base = local_header-IsBlock default_for_write first_of first-InRange v.short (
              rw ((no_zip64 (omega arith) (omega (arith, length-item_bytes K x start))).0)
                (omega arith)) in
            ground (
              arith,
              base,
              word (hashing.update hashing.new_hasher x.content),
              length-item_bytes K x start,
            )

        module _ (limit : ℕ) (file rest : List ℕ)
            (stands : drop start file ≡ item_bytes K x start ++ rest)
            (le : start + length (item_bytes K x start) ≤ limit) where
          found : content_start (start + 0) header_of ≡ start + 30 + length x.name
          found = let (name, extra) = lengths_of (omega arith) in omega (arith, name, extra)

          -- The entry is listed, with the header that stands in the file.
          pub listable : IsListable default_for_write 0 limit file (file_of, header_of)
          unfolding new_file normalize_options local_header
          listable = record {
            plain = plain;
            short = record { name = v.short; comment = omega arith; extra = omega arith };
            local = record {
              behind = (x.name ++ x.content) ++ rest;
              valid = header_valid;
              signed = refl;
              stands =
                  ap (λ n. drop n file) (add-zero start)
                  ∙ stands
                  ∙ append_assoc (encode zip_local_entry_block header_of) (x.name ++ x.content)
                      rest;
              content = omega (arith, found, length-item_bytes K x start);
              in_u64 = omega (arith, found, length-item_bytes K x start);
            };
          }

          -- The content stands where it is found.
          pub content_found :
              take (length x.content) (drop (content_start (start + 0) header_of) file) ≡ x.content
          content_found =
              ap (λ n. take (length x.content) (drop n file)) (found ∙ regrouped)
              ∙ ap (take (length x.content)) (sym (drop-drop start (length header) file))
              ∙ ap (λ l. take (length x.content) (drop (length header) l)) (stands ∙ parts)
              ∙ ap (take (length x.content)) (drop-append_length header (x.content ++ rest))
              ∙ take-append_length x.content rest
            where
              header : List ℕ
              header = encode zip_local_entry_block header_of ++ x.name

              regrouped : start + 30 + length x.name ≡ start + length header
              regrouped = omega (
                arith,
                length-append (encode zip_local_entry_block header_of) x.name,
                length-local header_of,
              )

              parts : item_bytes K x start ++ rest ≡ header ++ (x.content ++ rest)
              parts = simp (append_assoc)
