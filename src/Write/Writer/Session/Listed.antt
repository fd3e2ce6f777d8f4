-- ===== src/Write/Writer/Session/Listed.antt =====
-- src/write.rs and src/read.rs: an entry of a session among those that the directory lists.
use zip.Prelude.{
  ℕ, zero, suc, ◌+◌, ◌<◌, ◌≡◌, refl, ap, ◌∙◌, subst, arith, false, none, some, List, [], ◌∷◌, ◌++◌,
  length, drop, All, get_elem?, append_assoc, length-append,
}
use zip.Spec.Records.{zip64_bytes_thr}
use zip.Compression.{CompressionMethod}
use zip.Types.File.{ZipFileData}
use zip.Aes.Frame.{same_bytes_refl}
use zip.Read.Header.Located.{central_bytes, content_start, as_located}
use zip.Read.Header.Directory.{as_listed}
use zip.Read.Archive.Named.{last_named}
use zip.Write.State.{Environment}
use zip.Write.Options.{normalize_options}
use zip.Write.Writer.Entry.{new_file, same_name}
use zip.Write.Writer.Names.{same_name_comm}
use zip.Write.Writer.Session.{Item, item_bytes, IsDistinct, content_bytes, placed}
use zip.Write.Writer.Session.Headers.{file_of, header_of, lengths_of}
use zip.Write.Writer.Session.ReadBack.{next_stands}
use zip.Write.Writer.Session.Places.{item_content}

module _ (K : Environment) where
  open K use {hashing, default_for_write}

  abbrev listed : List Item → ℕ → ℕ → List ZipFileData
  listed xs start central = as_listed default_for_write 0 central (placed K xs start)

  -- The last listed entry of a name: it is not encrypted and stored, and its content stands in the
  -- file.
  pub record IsListed (file : List ℕ) (files : List ZipFileData) (x : Item) : Type 0 where
    pub entry : ZipFileData
    pub start : ℕ
    pub rest : List ℕ
    pub named : last_named x.name files ≡ some entry
    pub located : entry.data_start ≡ some start
    pub content : drop start file ≡ x.content ++ rest
    pub plain : entry.encrypted ≡ false
    pub not_aes : entry.aes_mode ≡ none
    pub method : entry.compression_method ≡ CompressionMethod.stored
    pub size : entry.compressed_size ≡ length x.content
    pub checksum : entry.crc32 ≡ hashing.finalize (hashing.update hashing.new_hasher x.content)

  not_listed :
      (x : Item) (xs : List Item) (start central : ℕ)
      → All (λ y. same_name y.name x.name ≡ false) xs
      → last_named x.name (listed xs start central) ≡ none
  unfolding placed as_listed last_named new_file
  not_listed x [] start central h = refl
  not_listed x (y ∷ ys) start central (h, hs) =
      rw
        (
          not_listed x ys (start + length (item_bytes K y start))
              (central + length (central_bytes default_for_write (file_of K y start))) hs,
          same_name_comm x.name y.name ∙ h,
        )
        refl

  item-IsListed :
      (x : Item) (xs : List Item) (start central : ℕ) (file rest : List ℕ)
      → All (λ y. same_name y.name x.name ≡ false) xs
      → start < zip64_bytes_thr
      → drop start file ≡ item_bytes K x start ++ rest
      → IsListed file (listed (x ∷ xs) start central) x
  unfolding placed as_listed last_named new_file normalize_options
  item-IsListed x xs start central file rest apart low stands = record {
    entry = as_located default_for_write (file_of K x start) 0 central (header_of K x start);
    start = content_start (start + 0) (header_of K x start);
    rest = rest;
    named =
        rw
          (
            not_listed x xs (start + length (item_bytes K x start))
                (central + length (central_bytes default_for_write (file_of K x start))) apart,
            same_bytes_refl x.name,
          )
          refl;
    located = refl;
    content =
        let (name, extra) = lengths_of K x start low in
        ap (λ n. drop n file) (omega (arith, name, extra))
        ∙ item_content K x start file rest stands;
    plain = refl;
    not_aes = refl;
    method = refl;
    size = refl;
    checksum = refl;
  }

  pub entry-IsListed :
      (xs : List Item) (start central : ℕ) (file rest : List ℕ) (x : Item) (i : ℕ)
      → IsDistinct xs
      → drop start file ≡ content_bytes K xs start ++ rest
      → start + length (content_bytes K xs start) < zip64_bytes_thr
      → get_elem? xs i ≡ some x
      → IsListed file (listed xs start central) x
  unfolding content_bytes placed as_listed last_named IsDistinct
  entry-IsListed [] start central file rest x i distinct stands fits e = absurd (cc)
  entry-IsListed (y ∷ ys) start central file rest x zero (apart, _) stands fits e =
      subst (IsListed file (listed (y ∷ ys) start central)) same (
        item-IsListed y ys start central file
          (content_bytes K ys (start + length (item_bytes K y start)) ++ rest) apart (omega arith)
          (stands ∙ append_assoc (item_bytes K y start) _ rest))
    where
      same : y ≡ x
      same = cc
  entry-IsListed (y ∷ ys) start central file rest x (suc i) (_, distinct) stands fits e =
      let next = start + length (item_bytes K y start) in
      let l =
        entry-IsListed ys next
          (central + length (central_bytes default_for_write (file_of K y start))) file rest x i
          distinct (next_stands K y ys start file rest stands)
          (omega (arith, length-append (item_bytes K y start) (content_bytes K ys next))) e in
      record {
        entry = l.entry;
        start = l.start;
        rest = l.rest;
        named = rw (l.named) refl;
        located = l.located;
        content = l.content;
        plain = l.plain;
        not_aes = l.not_aes;
        method = l.method;
        size = l.size;
        checksum = l.checksum;
      }
