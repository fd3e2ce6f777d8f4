-- ===== src/Tests/ExtraFields.antt =====
-- src/extra_fields: runs of the two readers.
use zip.Prelude.{ℕ, ◌≡◌, refl, arith, inl, none, some, List, [], ◌∷◌, ◌++◌, length}
use zip.Result.{ok}
use zip.LittleEndian.{to_le_bytes}
use zip.Cursor.{Cursor, advance, run_at}
use zip.Types.File.{ExtendedTimestamp}
use zip.Types.ExtraFields.{extended_timestamp_from}
use zip.Types.ExtraFields.Readers.{extended_timestamp_from_lem}

abbrev two_times : ExtendedTimestamp
two_times = record { mod_time = some 0x1234; ac_time = none; cr_time = some 7 }

-- A field of 5 bytes holds the modification time, whatever its flags say.
lone_access_time :
    run_at (2 ∷ 9 ∷ 0 ∷ 0 ∷ 0 ∷ []) 0 (extended_timestamp_from 5)
    ≡ ok (record { mod_time = some 9; ac_time = none; cr_time = none })
unfolding run_at extended_timestamp_from zip.Cursor.read_exact zip.Cursor.read_le
    zip.LittleEndian.from_le_bytes
lone_access_time = refl

abbrev times_bytes : List ℕ
times_bytes = (5 ∷ []) ++ (to_le_bytes 4 0x1234 ++ ([] ++ to_le_bytes 4 7))

extended_timestamp_from_lem_example :
    extended_timestamp_from 9 (record { bytes = times_bytes ++ (3 ∷ []); pos = 0 })
    ≡ ok (
      two_times,
      advance (length times_bytes) (record { bytes = times_bytes ++ (3 ∷ []); pos = 0 }),
    )
extended_timestamp_from_lem_example =
    extended_timestamp_from_lem two_times (record { bytes = times_bytes ++ (3 ∷ []); pos = 0 })
      (3 ∷ []) (omega arith) tt (omega arith) (inl refl) refl
