-- ===== src/Write/Writer/Session/ReadBack.antt =====
-- src/write.rs and src/read.rs: reading the bytes that `ZipWriter` leaves for stored entries.
use zip.Prelude.{
  ℕ, ◌+◌, ◌^◌, ◌≤◌, ◌<◌, ◌≡◌, refl, sym, ap, ◌∙◌, arith, true, Option, none, some, List, [], ◌∷◌,
  ◌++◌, length, map, take, drop, All, append_assoc, length-append, drop-drop, drop-append_length,
}
use zip.Spec.Records.{zip64_bytes_thr}
use zip.Types.DateTime.{is_valid}
use zip.Types.File.{ZipFileData}
use zip.Read.Header.Located.{central_bytes}
use zip.Read.Header.Directory.{IsListable, as_listed}
use zip.Write.State.{Environment}
use zip.Write.Writer.Entry.{new_file}
use zip.Write.Writer.Stored.{stored_file}
use zip.Write.Writer.Session.{Item, item_bytes, content_bytes, placed}
use zip.Write.Writer.Session.Headers.{IsItem, listable, content_found}

-- Where the content starts that was found, and the content of an entry that is stored.
abbrev start_of : Option ℕ → ℕ
start_of none = 0
start_of (some start) = start

unfoldable pub stored_content : List ℕ → ZipFileData → List ℕ
stored_content file f = take f.compressed_size (drop (start_of f.data_start) file)

-- Where the next central header stands.
abbrev behind_header : (K : Environment) → Item → ℕ → ℕ → ℕ
behind_header K x start central =
    central
    + length (
        central_bytes K.default_for_write
          (stored_file K x.name x.time x.permissions x.content start))

module _ (K : Environment) where
  open K use {hashing, default_for_write}

  grown :
      (x : Item) (xs : List Item) (start : ℕ)
      → length (content_bytes K (x ∷ xs) start)
        ≡ length (item_bytes K x start)
          + length (content_bytes K xs (start + length (item_bytes K x start)))
  unfolding content_bytes
  grown x xs start = length-append (item_bytes K x start) _

  pub next_stands :
      (x : Item) (xs : List Item) (start : ℕ) (file rest : List ℕ)
      → drop start file
        ≡ (item_bytes K x start ++ content_bytes K xs (start + length (item_bytes K x start)))
          ++ rest
      → drop (start + length (item_bytes K x start)) file
        ≡ content_bytes K xs (start + length (item_bytes K x start)) ++ rest
  next_stands x xs start file rest stands =
      sym (drop-drop start (length (item_bytes K x start)) file)
      ∙ ap (drop (length (item_bytes K x start)))
          (stands ∙ append_assoc (item_bytes K x start) _ rest)
      ∙ drop-append_length (item_bytes K x start) _

  module _ (valid : is_valid default_for_write ≡ true)
      (word : (h : hashing.Hasher) → hashing.finalize h < 2 ^ 32) (limit : ℕ) (file rest : List ℕ)
      (small : limit < zip64_bytes_thr) where
    pub All-IsListable :
        (xs : List Item) (start : ℕ)
        → All IsItem xs
        → drop start file ≡ content_bytes K xs start ++ rest
        → start + length (content_bytes K xs start) ≤ limit
        → All (IsListable default_for_write 0 limit file) (placed K xs start)
    unfolding content_bytes placed
    All-IsListable [] start v stands le = tt
    All-IsListable (x ∷ xs) start (v, vs) stands le = (
      listable K x start valid word v (omega (arith, grown x xs start)) limit file
          (content_bytes K xs next ++ rest)
          (stands ∙ append_assoc (item_bytes K x start) (content_bytes K xs next) rest)
          (omega (arith, grown x xs start)),
      All-IsListable xs next vs (next_stands x xs start file rest stands)
          (omega (arith, grown x xs start)),
    )
      where
        next : ℕ
        next = start + length (item_bytes K x start)

    pub contents :
        (xs : List Item) (start central : ℕ)
        → All IsItem xs
        → drop start file ≡ content_bytes K xs start ++ rest
        → start + length (content_bytes K xs start) ≤ limit
        → map (stored_content file) (as_listed default_for_write 0 central (placed K xs start))
          ≡ map (λ x. x.content) xs
    unfolding content_bytes placed as_listed stored_content new_file
    contents [] start central v stands le = refl
    contents (x ∷ xs) start central (v, vs) stands le = λ i.
        content_found K x start valid word v (omega (arith, grown x xs start)) limit file
          (content_bytes K xs next ++ rest)
          (stands ∙ append_assoc (item_bytes K x start) (content_bytes K xs next) rest)
          (omega (arith, grown x xs start)) i
        ∷ contents xs next (behind_header K x start central) vs
            (next_stands x xs start file rest stands) (omega (arith, grown x xs start)) i
      where
        next : ℕ
        next = start + length (item_bytes K x start)

  pub names :
      (xs : List Item) (start central : ℕ)
      → map (λ f. f.file_name) (as_listed default_for_write 0 central (placed K xs start))
        ≡ map (λ x. x.name) xs
  unfolding placed as_listed new_file
  names [] start central = refl
  names (x ∷ xs) start central = λ i.
      x.name ∷ names xs (start + length (item_bytes K x start)) (behind_header K x start central) i
