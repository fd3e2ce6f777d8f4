-- ===== src/AesCtr.antt =====
-- src/aes_ctr.rs: the counter mode of the AES encryption of ZIP. The block cipher of the crate aes is
-- a parameter. The loop over the target has its length for fuel, since each round takes a byte at
-- least. The counter wraps, as in a release build.
pub mod Stream
use zip.Prelude.{
  ℕ, zero, suc, ◌+◌, ◌-◌, ◌^◌, ◌%◌, min, List, [], ◌∷◌, ◌++◌, length, take, drop, replicate,
  bit_xor, ◌==◌, if◌then◌else◌,
}
use zip.LittleEndian.{to_le_bytes}

abbrev pub aes_block_size : ℕ
aes_block_size = 16

-- `cipher` is the parameter `encrypt_block`.
pub record AesCtrZipKeyStream : Type 0 where
  pub counter : ℕ
  pub buffer : List ℕ
  pub pos : ℕ

abbrev pub new : AesCtrZipKeyStream
new = record { counter = 1; buffer = replicate aes_block_size 0; pos = aes_block_size }

-- `xor`, for slices of one length, as its assertion wants.
unfoldable pub xor : List ℕ → List ℕ → List ℕ
xor [] src = []
xor (lhs ∷ dest) [] = lhs ∷ dest
xor (lhs ∷ dest) (rhs ∷ src) = bit_xor lhs rhs ∷ xor dest src

module _ (encrypt_block : List ℕ → List ℕ) where
  unfoldable pub refill : AesCtrZipKeyStream → AesCtrZipKeyStream
  refill s =
      if s.pos == aes_block_size
      then record {
        counter = (s.counter + 1) % 2 ^ 128;
        buffer = encrypt_block (to_le_bytes 16 s.counter);
        pos = 0;
      }
      else s

  -- The loop, for at most as many rounds as the fuel.
  unfoldable pub crypt_loop : ℕ → AesCtrZipKeyStream → List ℕ → List ℕ × AesCtrZipKeyStream
  unfolding refill xor
  crypt_loop zero s target = ([], s)
  crypt_loop (suc fuel) s [] = ([], s)
  crypt_loop (suc fuel) s (b ∷ target) =
      let r = refill s in
      let target_len = min (suc (length target)) (aes_block_size - r.pos) in
      let done = xor (take target_len (b ∷ target)) (take target_len (drop r.pos r.buffer)) in
      let (rest, s') =
        crypt_loop fuel (record r { pos = r.pos + target_len }) (drop target_len (b ∷ target)) in
      (done ++ rest, s')

  unfoldable pub crypt_in_place : AesCtrZipKeyStream → List ℕ → List ℕ × AesCtrZipKeyStream
  unfolding crypt_loop
  crypt_in_place s target = crypt_loop (length target) s target
