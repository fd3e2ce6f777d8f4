-- ===== src/Write/Writer/Names/Write.antt =====
-- src/write.rs: the names of the entries under `write` and `write_all`.
use zip.Prelude.{
  ℕ, zero, suc, refl, Bool, true, false, not, ltb, ◌==◌, if◌then◌else◌, Option, none, some, List,
  [], ◌∷◌, length, take, drop,
}
use zip.Result.{ZipResult, ok, err, io, other, broken_pipe, write_zero}
use zip.Types.File.{ZipFileData}
use zip.Spec.Records.{zip64_bytes_thr}
use zip.Write.Generic.{write_inner}
use zip.Write.State.{Environment, Action, throw, gets, modify, ignore_error, get_last?, Inner}
use zip.Write.State.Keeps.{
  Keeps, Any, Keeps->>=, Keeps->>, Keeps-pure, Keeps-throw, Keeps-gets, Keeps-if,
  Keeps-ignore_error, Keeps-at,
}
use zip.Write.Writer.{
  abort_file, is_large, unless_large, beyond_limit, check_limit, slice_to, after_write,
  update_stats, write, write_rounds, write_all,
}
use zip.Write.Writer.Names.{NamesDistinct}
use zip.Write.Writer.Names.Kept.{abort_file-Keeps, Keeps-beside}

module _ {K : Environment} where
  open K use {crypto, encoders, hashing, default_for_write, crc32_of}

  -- The names are kept distinct, whatever the result is.
  abbrev pub Kept : {A : Type 0} → Action K A → Type 0
  Kept m = Keeps NamesDistinct Any m

  is_large-Kept : (o : Option ZipFileData) → Kept (is_large o)
  is_large-Kept none = record { holds = λ s d. tt }
  is_large-Kept (some f) = record { holds = λ s d. (d, tt) }

  unless_large-Kept : (b : Bool) (count : ℕ) → Kept (unless_large b count)
  unless_large-Kept true count = Keeps-pure NamesDistinct Any count tt
  unless_large-Kept false count =
      Keeps->> NamesDistinct (ignore_error abort_file) _
        (Keeps-ignore_error NamesDistinct abort_file abort_file-Keeps)
        (Keeps-throw NamesDistinct Any (io (other "Large file option has not been set")))

  beyond_limit-Kept : (b : Bool) (count : ℕ) → Kept (beyond_limit b count)
  beyond_limit-Kept false count = Keeps-pure NamesDistinct Any count tt
  beyond_limit-Kept true count =
      Keeps->>= NamesDistinct (gets (λ s. get_last? s.files)) _
        (Keeps-gets NamesDistinct (λ s. get_last? s.files))
        (λ last _.
          Keeps->>= NamesDistinct (is_large last) _ (is_large-Kept last)
            (λ large _. unless_large-Kept large count))

  check_limit-Kept : (count : ℕ) → Kept (check_limit count)
  unfolding check_limit
  check_limit-Kept count =
      Keeps-at NamesDistinct (λ s. beyond_limit (ltb zip64_bytes_thr s.stats.bytes_written) count)
        (λ s. beyond_limit-Kept _ count)

  slice_to-Kept : (count : ℕ) (buf : List ℕ) → Kept (slice_to count buf)
  slice_to-Kept count buf =
      Keeps-if NamesDistinct (ltb (length buf) count) {m = λ s. none}
        {k = λ s. some (ok (take count buf), s)} (record { holds = λ s d. tt })
        (Keeps-pure NamesDistinct Any (take count buf) tt)

  after_write-Kept : (buf : List ℕ) (o : Option (ZipResult ℕ × Inner K)) → Kept (after_write buf o)
  after_write-Kept buf none =
      Keeps-throw NamesDistinct Any (io (broken_pipe "write(): ZipWriter was already closed"))
  after_write-Kept buf (some (err e, inner)) =
      Keeps->> NamesDistinct (modify (λ s. record s { inner = inner })) _
        (Keeps-beside NamesDistinct _ (λ s. refl)) (Keeps-throw NamesDistinct Any e)
  after_write-Kept buf (some (ok count, inner)) =
      Keeps->> NamesDistinct (modify (λ s. record s { inner = inner })) _
        (Keeps-beside NamesDistinct _ (λ s. refl))
        (Keeps->>= NamesDistinct (slice_to count buf) _ (slice_to-Kept count buf) (λ taken _.
          Keeps->> NamesDistinct (modify (λ s. record s { stats = update_stats taken s.stats })) _
            (Keeps-beside NamesDistinct _ (λ s. refl)) (check_limit-Kept count)))

  pub write-Kept : (buf : List ℕ) → Kept (write buf)
  unfolding write
  write-Kept buf =
      Keeps-at NamesDistinct
        (λ t s.
          if not t.writing_to_file
          then some (err (io (other "No file has been started")), s)
          else if length buf == 0
          then some (ok 0, s)
          else after_write buf (write_inner crypto encoders t.inner buf) s)
        (λ t.
          Keeps-if NamesDistinct (not t.writing_to_file)
            (Keeps-throw NamesDistinct Any (io (other "No file has been started")))
            (Keeps-if NamesDistinct (length buf == 0) (Keeps-pure NamesDistinct Any 0 tt)
              (after_write-Kept buf _)))

  write_rounds-Kept : (fuel : ℕ) (buf : List ℕ) → Kept (write_rounds fuel buf)
  unfolding write_rounds
  write_rounds-Kept zero buf = Keeps-pure NamesDistinct Any tt tt
  write_rounds-Kept (suc fuel) [] = Keeps-pure NamesDistinct Any tt tt
  write_rounds-Kept (suc fuel) (b ∷ buf) =
      Keeps->>= NamesDistinct (write (b ∷ buf)) _ (write-Kept (b ∷ buf)) (λ count _.
        elim count
          as (λ count. Kept (elim count as (λ _. Action K (Unit {0})) [
            | zero ↦ throw (io write_zero)
            | suc n ↦ write_rounds fuel (drop n buf)
          ])) [
            | zero ↦ Keeps-throw NamesDistinct Any (io write_zero)
            | suc n ↦ write_rounds-Kept fuel (drop n buf)
          ])

  pub write_all-Kept : (buf : List ℕ) → Kept (write_all buf)
  unfolding write_all
  write_all-Kept buf = write_rounds-Kept (length buf) buf
