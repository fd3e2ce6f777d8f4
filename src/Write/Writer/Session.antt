-- ===== src/Write/Writer/Session.antt =====
-- src/write.rs: a whole archive of entries that are stored: `start_file`, `write_all` and
-- `finish_file` for each of them.
pub mod Headers
pub mod ReadBack
pub mod Archive
pub mod Places
pub mod Readable
pub mod Listed
pub mod Bytes
pub mod Reopened
pub mod Opened
use zip.Prelude.{
  ℕ, ◌+◌, ◌^◌, ◌≤◌, ◌<◌, ◌≡◌, refl, sym, ap, ◌∙◌, arith, Bool, true, false, Option, none, some,
  List, [], ◌∷◌, ◌++◌, length, map, All, append-nil, append_assoc, length-append, ◌||◌, lt→ltb,
}
use zip.Result.{ok}
use zip.Cursor.{Cursor, wrote}
use zip.Cursor.Write.{wrote-append, wrote-nil, overwrite_reaches}
use zip.Spec.Block.{encode}
use zip.Spec.Records.{zip64_bytes_thr}
use zip.Types.DateTime.{DateTime}
use zip.Types.File.{ZipFileData}
use zip.Types.Headers.{ZipLocalEntryBlock, zip_local_entry_block}
use zip.Crc32.Checked.{IsHashing}
use zip.Read.Header.Directory.{Placed}
use zip.Write.State.{Environment, ZipWriterStats, Action, ◌>>=◌, ◌>>◌, pure, bind_ok}
use zip.Write.Writer.Entry.{contains_key, same_name, new_file}
use zip.Write.Writer.Stored.{idle, stored_file, stored_header, stored_bytes}
use zip.Write.Writer.Stored.Entry.{store, store_lem, length-local}

-- An entry that is to be stored.
pub record Item : Type 0 where
  pub name : List ℕ
  pub time : DateTime
  pub permissions : Option ℕ
  pub content : List ℕ

-- No two have the same name.
unfoldable pub IsDistinct : List Item → Type 0
IsDistinct [] = Unit
IsDistinct (x ∷ xs) = All (λ y. same_name y.name x.name ≡ false) xs × IsDistinct xs

module _ (K : Environment) where
  open K use {hashing}

  unfoldable pub save : List Item → Action K (Unit {0})
  save [] = pure tt
  save (x ∷ xs) = do store K x.name x.time x.permissions x.content; save xs

  abbrev pub item_bytes : Item → ℕ → List ℕ
  item_bytes x start = stored_bytes K x.name x.time x.permissions x.content start

  -- What stands in the file from a place on.
  unfoldable pub content_bytes : List Item → ℕ → List ℕ
  content_bytes [] start = []
  content_bytes (x ∷ xs) start =
      item_bytes x start ++ content_bytes xs (start + length (item_bytes x start))

  -- The entries with their local headers.
  unfoldable pub placed : List Item → ℕ → List Placed
  placed [] start = []
  placed (x ∷ xs) start =
      (
        stored_file K x.name x.time x.permissions x.content start,
        stored_header K x.name x.time x.permissions x.content start,
      )
      ∷ placed xs (start + length (item_bytes x start))

  abbrev pub files_of : List Item → ℕ → List ZipFileData
  files_of xs start = map (λ e. e.0) (placed xs start)

  unfoldable pub stats_behind : List Item → ℕ → ZipWriterStats K → ZipWriterStats K
  stats_behind [] start stats = stats
  stats_behind (x ∷ xs) start stats =
      stats_behind xs (start + length (item_bytes x start)) (record {
        hasher = hashing.update hashing.new_hasher x.content;
        start = start + 30 + length x.name;
        bytes_written = length x.content;
      })

  unfoldable pub raw_behind : List Item → Bool → Bool
  raw_behind [] raw = raw
  raw_behind (x ∷ xs) raw = false

  pub length-item_bytes :
      (x : Item) (start : ℕ) → length (item_bytes x start) ≡ 30 + length x.name + length x.content
  length-item_bytes x start = omega (
    arith,
    length-append
        (encode zip_local_entry_block (stored_header K x.name x.time x.permissions x.content start))
        (x.name ++ x.content),
    length-append x.name x.content,
    length-local (stored_header K x.name x.time x.permissions x.content start),
  )

  or_inv : (a b : Bool) → (a || b) ≡ false → (a ≡ false) × (b ≡ false)
  or_inv a b h = (ground arith, ground arith)

  -- A new name, of which no entry is there, nor the one that is inserted.
  still_new :
      (name : List ℕ) (files : List ZipFileData) (f : ZipFileData)
      → contains_key name files ≡ false
      → same_name name f.file_name ≡ false
      → contains_key name (files ++ f ∷ []) ≡ false
  still_new name [] f h e = rw e refl
  still_new name (g ∷ files) f h e =
      let (other, others) = or_inv (same_name name g.file_name) (contains_key name files) h in
      rw (other, still_new name files f others e) refl

  stay_new :
      (xs : List Item) (files : List ZipFileData) (f : ZipFileData)
      → All (λ x. contains_key x.name files ≡ false) xs
      → All (λ x. same_name x.name f.file_name ≡ false) xs
      → All (λ x. contains_key x.name (files ++ f ∷ []) ≡ false) xs
  stay_new [] files f h e = tt
  stay_new (x ∷ xs) files f (h, hs) (e, es) =
      (still_new x.name files f h e, stay_new xs files f hs es)

  module _ (H : IsHashing hashing) where
    pub save_lem :
        (xs : List Item) (c : Cursor) (files : List ZipFileData) (stats : ZipWriterStats K)
        (raw flush : Bool) (comment : List ℕ)
        → All (λ x. contains_key x.name files ≡ false) xs
        → IsDistinct xs
        → All (λ x. length x.name < 2 ^ 16) xs
        → c.pos ≤ length c.bytes
        → c.pos + length (content_bytes xs c.pos) < zip64_bytes_thr
        → save xs (idle K c files stats raw comment flush)
          ≡ some (
            ok tt,
            idle K
                (wrote (content_bytes xs c.pos) c)
                (files ++ files_of xs c.pos)
                (stats_behind xs c.pos stats)
                (raw_behind xs raw)
                comment
                flush,
          )
    unfolding save content_bytes placed stats_behind raw_behind IsDistinct new_file
    save_lem [] c files stats raw flush comment new distinct short inside fits = λ i. some (
      ok tt,
      idle K (sym (wrote-nil c inside) i) (sym (append-nil files) i) stats raw comment flush,
    )
    save_lem (x ∷ xs) c files stats raw flush comment (new, news) (apart, distinct) (short, shorts)
          inside fits =
        bind_ok (store K x.name x.time x.permissions x.content) _
          (idle K c files stats raw comment flush)
          (store_lem K x.name x.time x.permissions x.content c H files stats raw flush comment new
            short inside (omega (arith, grown, length-item_bytes x c.pos)))
        ∙ save_lem xs c₁ (files ++ f ∷ []) _ false flush comment (stay_new xs files f news apart)
            distinct shorts (overwrite_reaches _ _ _) (omega (arith, grown))
        ∙ (λ i. some (
          ok tt,
          idle K (wrote-append (item_bytes x c.pos) (content_bytes xs c₁.pos) c i)
              (append_assoc files (f ∷ []) (files_of xs c₁.pos) i)
              (stats_behind (x ∷ xs) c.pos stats) (kept xs i) comment flush,
        ))
      where
        c₁ : Cursor
        c₁ = wrote (item_bytes x c.pos) c

        f : ZipFileData
        f = stored_file K x.name x.time x.permissions x.content c.pos

        kept : (xs : List Item) → raw_behind xs false ≡ false
        kept [] = refl
        kept (x ∷ xs) = refl

        grown :
            length (content_bytes (x ∷ xs) c.pos)
            ≡ length (item_bytes x c.pos) + length (content_bytes xs c₁.pos)
        grown = length-append (item_bytes x c.pos) (content_bytes xs c₁.pos)
