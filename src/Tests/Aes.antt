-- ===== src/Tests/Aes.antt =====
-- src/aes.rs: a run with stand-ins for the crates.
use zip.Prelude.{
  ℕ, ◌+◌, ◌%◌, ◌≤◌, ◌≡◌, refl, ◌∙◌, arith, List, [], ◌∷◌, ◌++◌, map, length, length-map, replicate,
  length-replicate, append-nil, append_assoc,
}
use zip.Result.{ok}
use zip.Cursor.{Cursor}
use zip.Types.File.{aes128, salt_length, key_length}
use zip.Aes.{Crypto, IsCrypto, same_bytes, new_writer, finish, AesReaderValid}
use zip.Aes.Frame.{same_bytes_refl}
use zip.Aes.Writer.{concat, frame_bytes, write_pieces}
use zip.Aes.RoundTrip.{read_frame, reads-write_pieces}

abbrev pub crypto : Crypto
crypto = record {
  derive = λ password salt n. replicate n 7;
  encrypt_block = λ mode key block. map (λ b. (b + 1) % 256) block;
  Mac = List ℕ;
  new_from_slice = λ key. key;
  update = λ m xs. m ++ xs;
  finalize = λ m. replicate 20 (length m % 256);
  constant_time_eq = same_bytes;
}

pub crypto-IsCrypto : IsCrypto crypto
crypto-IsCrypto = record {
  length-derive = λ password salt n. length-replicate n 7;
  length-encrypt_block = λ mode key block h. length-map block (λ b. (b + 1) % 256) ∙ h;
  update-append = λ m xs ys. append_assoc m xs ys;
  update-nil = λ m. append-nil m;
  length-finalize = λ m. length-replicate 20 (length m % 256);
  constant_time_eq_refl = same_bytes_refl;
}

abbrev salt : List ℕ
salt = replicate 8 3

abbrev pieces : List (List ℕ)
pieces = (1 ∷ 2 ∷ []) ∷ (3 ∷ []) ∷ []

abbrev empty : Cursor
empty = record { bytes = []; pos = 0 }

size : length (frame_bytes crypto crypto-IsCrypto aes128 (5 ∷ []) salt (concat pieces)) ≡ 23
unfolding concat zip.AesCtr.Stream.applied key_length
size = refl

three : length (concat pieces) ≤ 4
unfolding concat
three = omega arith

eight : length salt ≡ salt_length aes128
unfolding salt_length key_length
eight = refl

reads-write_pieces_example :
    (r : AesReaderValid crypto) × (c : Cursor) × (read_frame crypto aes128
        (length (frame_bytes crypto crypto-IsCrypto aes128 (5 ∷ []) salt (concat pieces)))
        (5 ∷ [])
        (2 ∷ 2 ∷ [])
        (record (finish crypto (
          write_pieces crypto crypto-IsCrypto aes128
            (5 ∷ [])
            salt
            pieces
            (new_writer crypto empty aes128 (5 ∷ []) salt))) { pos = 0 })
      ≡ ok ((concat pieces, r), c))
reads-write_pieces_example =
    reads-write_pieces crypto crypto-IsCrypto aes128 (5 ∷ []) salt pieces (2 ∷ 2 ∷ []) empty eight
      (omega (arith, size)) three
