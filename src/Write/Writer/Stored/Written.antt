-- ===== src/Write/Writer/Stored/Written.antt =====
-- src/write.rs: `write_all` of the content of an entry that is stored.
use native.Mathlib.Nat.{zero-add}
use zip.Prelude.{
  ℕ, zero, suc, ◌≤◌, ◌≡◌, refl, sym, ap, ◌∙◌, arith, Bool, false, some, List, [], ◌∷◌, length, take,
  drop, ge→ltb, ◌==◌,
}
use zip.Result.{ok}
use zip.Cursor.{Cursor, wrote}
use zip.Cursor.Write.{wrote-nil}
use zip.Spec.Records.{zip64_bytes_thr}
use zip.Types.File.{ZipFileData}
use zip.Crc32.Checked.{IsHashing}
use zip.Write.Generic.{storer, unencrypted}
use zip.Write.State.{Environment, ZipWriter, bind_ok}
use zip.Write.Writer.{check_limit, beyond_limit, slice_to, write, write_rounds, write_all}
use zip.Write.Writer.Stored.{opened, filled}

module _ (K : Environment) where
  open K use {hashing, default_for_write}

  write_rounds-nil : (fuel : ℕ) (s : ZipWriter K) → write_rounds fuel [] s ≡ some (ok tt, s)
  unfolding write_rounds
  write_rounds-nil zero s = refl
  write_rounds-nil (suc fuel) s = refl

  taken_all : (xs : List ℕ) → take (length xs) xs ≡ xs
  taken_all [] = refl
  taken_all (x ∷ xs) = ap (λ l. x ∷ l) (taken_all xs)

  dropped_all : (xs : List ℕ) → drop (length xs) xs ≡ []
  dropped_all [] = refl
  dropped_all (x ∷ xs) = dropped_all xs

  pub suc-ne-zero : (n : ℕ) → (suc n == 0) ≡ false
  suc-ne-zero n = ground arith

  pub sliced :
      (buf : List ℕ) (s : ZipWriter K) → slice_to {K = K} (length buf) buf s ≡ some (ok buf, s)
  sliced buf s = rw (ge→ltb (length buf) (length buf) (λ l. omega arith), taken_all buf) refl

  under_limit :
      (count : ℕ) (s : ZipWriter K)
      → s.stats.bytes_written ≤ zip64_bytes_thr
      → check_limit count s ≡ some (ok count, s)
  unfolding check_limit
  under_limit count s small =
      ap (λ b. beyond_limit b count s)
        (ge→ltb zip64_bytes_thr s.stats.bytes_written (λ l. omega arith))

  written_once :
      (c : Cursor) (files : List ZipFileData) (start : ℕ) (comment : List ℕ) (flush : Bool) (b : ℕ)
      (bs : List ℕ)
      → length (b ∷ bs) ≤ zip64_bytes_thr
      → write (b ∷ bs) (opened K c files start comment flush)
        ≡ some (ok (length (b ∷ bs)), filled K c files start comment flush (b ∷ bs))
  unfolding write
  written_once c files start comment flush b bs small = rw (suc-ne-zero (length bs)) (
      bind_ok (slice_to (suc (length bs)) (b ∷ bs)) _
        (record (opened K c files start comment flush) {
          inner = storer (unencrypted (wrote (b ∷ bs) c));
        })
        (sliced (b ∷ bs) _)
      ∙ ap
          (λ n.
            check_limit (suc (length bs)) (record (filled K c files start comment flush (b ∷ bs)) {
              stats = record {
                hasher = hashing.update hashing.new_hasher (b ∷ bs);
                start = start;
                bytes_written = n;
              };
            }))
          (zero-add (suc (length bs)))
      ∙ under_limit (suc (length bs)) (filled K c files start comment flush (b ∷ bs)) small)

  module _ (H : IsHashing hashing) where
    pub written :
        (c : Cursor) (files : List ZipFileData) (start : ℕ) (comment : List ℕ) (flush : Bool)
        (content : List ℕ)
        → c.pos ≤ length c.bytes
        → length content ≤ zip64_bytes_thr
        → write_all content (opened K c files start comment flush)
          ≡ some (ok tt, filled K c files start comment flush content)
    unfolding write_all
    written c files start comment flush [] inside small = λ i. some (
      ok tt,
      record (opened K (sym (wrote-nil c inside) i) files start comment flush) {
        stats = record {
          hasher = sym (H.nothing hashing.new_hasher) i;
          start = start;
          bytes_written = 0;
        };
      },
    )
    written c files start comment flush (b ∷ bs) inside small =
        bind_ok (write (b ∷ bs)) _ (opened K c files start comment flush)
          (written_once c files start comment flush b bs small)
        ∙ rw (dropped_all bs) (write_rounds-nil (length bs) _)
