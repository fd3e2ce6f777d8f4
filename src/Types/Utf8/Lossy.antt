-- ===== src/Types/Utf8/Lossy.antt =====
-- `String::from_utf8_lossy`: each longest part that begins a character but is not one gives U+FFFD.
use zip.Prelude.{
  ℕ, zero, suc, ◌≡◌, refl, sym, ap, ◌∙◌, arith, true, ◌&&◌, List, [], ◌∷◌, ◌++◌, append_assoc, leb,
  if◌then◌else◌,
}
use zip.Types.Utf8.{Lead, follow, invalid, lead_of, valid_after, is_valid_utf8}

-- Between characters, or in one whose bytes so far are held: the next one has bounds, and more follow.
pub data Pending : Type 0 where
  ready : Pending
  inside : ℕ → ℕ → ℕ → List ℕ → Pending

abbrev pub replacement : List ℕ
replacement = 0xef ∷ 0xbf ∷ 0xbd ∷ []

abbrev pub begin : Lead → ℕ → List ℕ × Pending
begin invalid b = (replacement, ready)
begin (follow zero lo hi) b = (b ∷ [], ready)
begin (follow (suc n) lo hi) b = ([], inside n lo hi (b ∷ []))

abbrev pub next : ℕ → List ℕ → List ℕ × Pending
next zero held = (held, ready)
next (suc n) held = ([], inside n 0x80 0xbf held)

abbrev pub step : Pending → ℕ → List ℕ × Pending
step ready b = begin (lead_of b) b
step (inside n lo hi held) b =
    if leb lo b && leb b hi
    then next n (held ++ b ∷ [])
    else (replacement ++ (begin (lead_of b) b).0, (begin (lead_of b) b).1)

unfoldable pub lossy_after : Pending → List ℕ → List ℕ
lossy_after ready [] = []
lossy_after (inside n lo hi held) [] = replacement
lossy_after p (b ∷ bs) = let (out, p') = step p b in out ++ lossy_after p' bs

unfoldable pub from_utf8_lossy : List ℕ → List ℕ
unfolding lossy_after
from_utf8_lossy bs = lossy_after ready bs

-- The bytes of valid text pass: what is held in a character, and between characters.
abbrev Held : List ℕ → Type 0
Held bs =
    (n lo hi : ℕ) (held : List ℕ)
    → valid_after (follow (suc n) lo hi) bs ≡ true
    → lossy_after (inside n lo hi held) bs ≡ held ++ bs

abbrev Passed : List ℕ → Type 0
Passed bs = valid_after (follow 0 0x80 0xbf) bs ≡ true → lossy_after ready bs ≡ bs

in_character : (b : ℕ) (bs : List ℕ) → Held bs → Passed bs → Held (b ∷ bs)
unfolding lossy_after valid_after
in_character b bs more done zero lo hi held h =
    let (inner, rest) : ((leb lo b && leb b hi) ≡ true)
        × (valid_after (follow 0 0x80 0xbf) bs ≡ true) =
      (ground arith, ground arith) in
    rw inner (ap (λ l. (held ++ b ∷ []) ++ l) (done rest) ∙ append_assoc held (b ∷ []) bs)
in_character b bs more done (suc n) lo hi held h =
    let (inner, rest) : ((leb lo b && leb b hi) ≡ true)
        × (valid_after (follow (suc n) 0x80 0xbf) bs ≡ true) =
      (ground arith, ground arith) in
    rw inner (more n 0x80 0xbf (held ++ b ∷ []) rest ∙ append_assoc held (b ∷ []) bs)

no_bounds :
    (lo hi : ℕ) (bs : List ℕ)
    → valid_after (follow 0 lo hi) bs ≡ valid_after (follow 0 0x80 0xbf) bs
unfolding valid_after
no_bounds lo hi [] = refl
no_bounds lo hi (b ∷ bs) = refl

with_lead :
    (l : Lead) (b : ℕ) (bs : List ℕ)
    → Held bs
    → Passed bs
    → valid_after l bs ≡ true
    → (begin l b).0 ++ lossy_after (begin l b).1 bs ≡ b ∷ bs
unfolding lossy_after valid_after
with_lead invalid b bs more done h = absurd (cc)
with_lead (follow zero lo hi) b bs more done h =
    ap (λ l. b ∷ l) (done (sym (no_bounds lo hi bs) ∙ h))
with_lead (follow (suc n) lo hi) b bs more done h = more n lo hi (b ∷ []) h

lossy-valid : (bs : List ℕ) → Held bs × Passed bs
unfolding lossy_after valid_after
lossy-valid [] = (λ n lo hi held h. absurd (cc), λ h. refl)
lossy-valid (b ∷ bs) =
    let (more, done) = lossy-valid bs in
    (in_character b bs more done, λ h. with_lead (lead_of b) b bs more done h)

-- Text that is valid UTF-8 is kept.
pub from_utf8_lossy_valid : (bs : List ℕ) → is_valid_utf8 bs ≡ true → from_utf8_lossy bs ≡ bs
unfolding from_utf8_lossy is_valid_utf8
from_utf8_lossy_valid bs h = (lossy-valid bs).1 h
