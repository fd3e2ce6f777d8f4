-- ===== src/Tests/Crc32.antt =====
-- src/crc32.rs: runs with a hasher that keeps the bytes and counts them, over a reader that is a list.
use zip.Prelude.{
  ℕ, ◌≡◌, ◌⊎◌, refl, arith, List, [], ◌∷◌, ◌++◌, length, take, drop, append-nil, append_assoc, true,
  false,
}
use zip.Crc32.{Hashing, IoResult, done, Crc32Reader, new, read}
use zip.Crc32.Checked.{IsHashing, start, then_read, end_is_checked}

abbrev counting : Hashing
counting = record {
  Hasher = List ℕ;
  new_hasher = [];
  update = λ h bs. h ++ bs;
  finalize = λ h. length h;
}

counting-IsHashing : IsHashing counting
counting-IsHashing = record {
  nothing = λ h. append-nil h;
  goes_on = λ h xs ys. append_assoc h xs ys;
}

abbrev slice_read : List ℕ → ℕ → IoResult (List ℕ) × List ℕ
slice_read bytes n = (done (take n bytes), drop n bytes)

abbrev at_start : Crc32Reader counting (List ℕ) slice_read
at_start = new counting (List ℕ) slice_read (1 ∷ 2 ∷ 3 ∷ []) 3 false

abbrev at_end : Crc32Reader counting (List ℕ) slice_read
at_end = record { inner = []; hasher = 1 ∷ 2 ∷ 3 ∷ []; check = 3; ae2_encrypted = false }

one_read : read counting (List ℕ) slice_read at_start 5 ≡ (done (1 ∷ 2 ∷ 3 ∷ []), at_end)
unfolding read
one_read = refl

no_more : read counting (List ℕ) slice_read at_end 5 ≡ (done [], at_end)
unfolding read
no_more = refl

end_is_checked_example : (false ≡ true) ⊎ (length {A = ℕ} (1 ∷ 2 ∷ 3 ∷ []) ≡ 3)
end_is_checked_example =
    end_is_checked counting (List ℕ) slice_read counting-IsHashing (1 ∷ 2 ∷ 3 ∷ []) 3 false
      {s = at_end} {t = at_end} 5 (then_read 5 start one_read) (omega arith) no_more
