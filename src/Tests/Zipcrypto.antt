-- ===== src/Tests/Zipcrypto.antt =====
-- src/zipcrypto.rs: runs of the cipher.
use zip.Prelude.{ℕ, ◌≡◌, arith, List, [], ◌∷◌, get_or}
use zip.Result.{ok}
use zip.Cursor.{Cursor}
use zip.Zipcrypto.{derive, pkzip_crc32, finish, start_writer}
use zip.Zipcrypto.Table.{crctable}
use zip.Zipcrypto.RoundTrip.{
  crctable_steps, crc_steps, open_and_read-finish, write_chunks, open_and_read,
}

abbrev password : List ℕ
password = 115 ∷ 101 ∷ 99 ∷ []

abbrev at_start : Cursor
at_start = record { bytes = []; pos = 0 }

crctable_steps_example : get_or crctable 255 0 ≡ crc_steps 8 255
crctable_steps_example = crctable_steps 255 (omega arith)

open_and_read-finish_example :
    (c' : Cursor) × (finish
        (write_chunks (start_writer (derive password)) ((1 ∷ 2 ∷ []) ∷ (3 ∷ []) ∷ []))
        0xdeadbeef
        at_start
      ≡ ok (tt, c'))
    × (open_and_read password (pkzip_crc32 0xdeadbeef) 3 (record c' { pos = 0 })
        ≡ ok (1 ∷ 2 ∷ 3 ∷ [], c'))
open_and_read-finish_example =
    open_and_read-finish password ((1 ∷ 2 ∷ []) ∷ (3 ∷ []) ∷ []) 0xdeadbeef at_start
