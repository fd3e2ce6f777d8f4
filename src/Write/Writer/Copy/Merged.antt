-- ===== src/Write/Writer/Copy/Merged.antt =====
-- src/read.rs: where `merge_contents` puts the entries that it moves.
use zip.Prelude.{
  ℕ, zero, suc, ◌+◌, ◌-◌, ◌^◌, ◌≤◌, ◌<◌, ◌≡◌, refl, sym, ap, ◌∙◌, arith, some, none, List, [], ◌∷◌,
  ◌++◌, map, length, take, drop, All, append_assoc, drop-drop, lt→ltb, Option, drop-take,
  length-append,
}
use zip.Result.{ok}
use zip.Cursor.{Cursor, wrote}
use zip.Cursor.Write.{drop-overwrite}
use zip.Spec.Block.{encode, size_of}
use zip.Spec.Block.Laws.{length-encode}
use zip.Types.Headers.{ZipLocalEntryBlock, zip_local_entry_block}
use zip.Types.File.{ZipFileData}
use zip.Read.Header.Located.{HasLocal}
use zip.Read.Header.Directory.{Placed}
use zip.Write.Writer.Copy.{
  ZipArchive, checked_add, checked_data_start, shift_file, cons_result, shift_files, copy_contents,
  merge_files, merge_contents,
}

-- What stands at a place of a list stands there in a longer one, and in a prefix that holds it.
stands_append :
    (k : ℕ) (xs ys rest zs : List ℕ)
    → 0 < length ys
    → drop k xs ≡ ys ++ rest
    → drop k (xs ++ zs) ≡ ys ++ (rest ++ zs)
stands_append zero xs ys rest zs some_ys h = ap (λ l. l ++ zs) h ∙ append_assoc ys rest zs
stands_append (suc k) [] ys rest zs some_ys h =
    absurd (omega (arith, ap length h, length-append ys rest))
stands_append (suc k) (x ∷ xs) ys rest zs some_ys h = stands_append k xs ys rest zs some_ys h

take_append :
    (n : ℕ) (ys rest : List ℕ)
    → length ys ≤ n
    → take n (ys ++ rest) ≡ ys ++ take (n - length ys) rest
take_append n [] rest h = ap (λ m. take m rest) (omega arith)
take_append zero (y ∷ ys) rest h = absurd (omega arith)
take_append (suc n) (y ∷ ys) rest h =
    ap (λ l. y ∷ l)
      (take_append n ys rest (omega arith) ∙ ap (λ m. ys ++ take m rest) (omega arith))

-- A place moved by some bytes, if there is one.
abbrev pub moved_start : ℕ → Option ℕ → Option ℕ
moved_start by none = none
moved_start by (some start) = some (start + by)

abbrev pub moved : ℕ → ZipFileData → ZipFileData
moved by f = record f {
  header_start = f.header_start + by;
  data_start = moved_start by f.data_start;
}

abbrev StartFits : ℕ → Option ℕ → Type 0
StartFits by none = Unit
StartFits by (some start) = start + by < 2 ^ 64

abbrev pub Fits : ℕ → ZipFileData → Type 0
Fits by f = (f.header_start + by < 2 ^ 64) × StartFits by f.data_start

shift_file-moved :
    (by : ℕ) (f : ZipFileData) (start : Option ℕ)
    → f.header_start + by < 2 ^ 64
    → StartFits by start
    → shift_file f (checked_add f.header_start by) (checked_data_start start by)
      ≡ ok (record f { header_start = f.header_start + by; data_start = moved_start by start })
shift_file-moved by f none h t = rw (lt→ltb (f.header_start + by) (2 ^ 64) h) refl
shift_file-moved by f (some start) h t =
    rw (lt→ltb (f.header_start + by) (2 ^ 64) h, lt→ltb (start + by) (2 ^ 64) t) refl

shift_files-moved :
    (by : ℕ) (files : List ZipFileData)
    → All (Fits by) files
    → shift_files by files ≡ ok (map (moved by) files)
unfolding shift_files
shift_files-moved by [] h = refl
shift_files-moved by (f ∷ files) ((h, t), hs) =
    ap (λ r. cons_result r (shift_files by files)) (shift_file-moved by f f.data_start h t)
    ∙ ap (cons_result (ok (moved by f))) (shift_files-moved by files hs)

module _ (source : ZipArchive) (c : Cursor) where
  abbrev after : Cursor
  after = wrote (take source.dir_start source.bytes) c

  HasLocal-moved :
      (start : ℕ) (b : ZipLocalEntryBlock)
      → HasLocal start source.dir_start source.bytes b
      → source.dir_start + c.pos < 2 ^ 64
      → HasLocal (start + c.pos) (source.dir_start + c.pos) after.bytes b
  HasLocal-moved start b h near = record {
    behind = take (source.dir_start - start - length header) h.behind ++ rest;
    valid = h.valid;
    signed = h.signed;
    stands =
        ap (λ n. drop n after.bytes) (omega arith)
        ∙ sym (drop-drop c.pos start after.bytes)
        ∙ ap (drop start) (drop-overwrite c.pos (take source.dir_start source.bytes) c.bytes)
        ∙ stands_append start (take source.dir_start source.bytes) header
            (take (source.dir_start - start - length header) h.behind) rest (omega (arith, thirty))
            (drop-take start source.dir_start source.bytes
              ∙ ap (take (source.dir_start - start)) h.stands
              ∙ take_append (source.dir_start - start) header h.behind
                  (omega (arith, thirty, h.content)));
    content = omega (arith, h.content);
    in_u64 = omega (arith, h.content, near);
  }
    where
      header : List ℕ
      header = encode zip_local_entry_block b

      rest : List ℕ
      rest = drop (length (take source.dir_start source.bytes)) (drop c.pos c.bytes)

      thirty : length header ≡ 30
      thirty = unfold size_of in length-encode zip_local_entry_block b h.valid

  abbrev Local : Placed → Type 0
  Local e = HasLocal e.0.header_start source.dir_start source.bytes e.1

  abbrev Moved : Placed → Type 0
  Moved e = HasLocal (e.0.header_start + c.pos) (source.dir_start + c.pos) after.bytes e.1

  All-Moved : (es : List Placed) → source.dir_start + c.pos < 2 ^ 64 → All Local es → All Moved es
  All-Moved [] near h = tt
  All-Moved (e ∷ es) near (h, hs) =
      (HasLocal-moved e.0.header_start e.1 h near, All-Moved es near hs)

  -- `merge_contents` of an archive with entries, at any place, succeeds: it gives its entries, each moved by
  -- this place, and the local header that stood where an entry said, with its content before the
  -- directory, stands in the file where the moved entry says. The places stay within a `u64`.
  pub merge_contents-HasLocal :
      (e : Placed) (es : List Placed)
      → source.files ≡ map (λ e. e.0) (e ∷ es)
      → All (λ e. HasLocal e.0.header_start source.dir_start source.bytes e.1) (e ∷ es)
      → All (Fits c.pos) (map (λ e. e.0) (e ∷ es))
      → source.dir_start + c.pos < 2 ^ 64
      → (c' : Cursor) × (merge_contents source c
          ≡ some (ok (map (moved c.pos) (map (λ e. e.0) (e ∷ es))), c'))
        × All
            (λ e. HasLocal (e.0.header_start + c.pos) (source.dir_start + c.pos) c'.bytes e.1)
            (e ∷ es)
  unfolding merge_contents
  merge_contents-HasLocal e es same h fits near = (
    after,
    ap (λ l. merge_files l source c) same
        ∙ ap (λ r. copy_contents source r c)
            (shift_files-moved c.pos (map (λ e. e.0) (e ∷ es)) fits),
    All-Moved (e ∷ es) near h,
  )
