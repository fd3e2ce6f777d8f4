-- ===== src/Tests/AesCtr.antt =====
-- src/aes_ctr.rs: runs with a cipher that adds one to each byte.
use zip.Prelude.{ℕ, ◌+◌, ◌%◌, ◌≡◌, ◌∙◌, List, map, length, length-map, replicate}
use zip.AesCtr.{crypt_in_place, new}
use zip.AesCtr.Stream.{UsedIn, new_used, applied, crypt_in_place_lem}

abbrev add_one : List ℕ → List ℕ
add_one bs = map (λ b. (b + 1) % 256) bs

add_one-length : (bs : List ℕ) → length bs ≡ 16 → length (add_one bs) ≡ 16
add_one-length bs h = length-map bs (λ b. (b + 1) % 256) ∙ h

abbrev text : List ℕ
text = replicate 20 7

crypt_in_place_lem_example :
    ((crypt_in_place add_one new text).0 ≡ applied add_one 0 text)
    × ((q : ℕ) × UsedIn add_one (crypt_in_place add_one new text).1 20 q)
crypt_in_place_lem_example =
    crypt_in_place_lem add_one add_one-length new text 0 0 (new_used add_one add_one-length)
