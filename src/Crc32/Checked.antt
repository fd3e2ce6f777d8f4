-- ===== src/Crc32/Checked.antt =====
-- src/crc32.rs: the end of the data is reported only if its checksum matches.
use zip.Prelude.{
  ℕ, ◌≡◌, ◌≢◌, ◌⊎◌, inl, inr, refl, sym, ap, ◌∙◌, arith, Bool, true, false, ◌&&◌, not, ◌==◌, List,
  [], ◌∷◌, ◌++◌, Bool-cases,
}
use zip.Crc32.{Hashing, IoResult, done, failed, panicked, Crc32Reader, new, read, checked}

-- The documentation of `update`: it goes on with the bytes behind those it was given before.
pub record IsHashing (H : Hashing) : Type 0 where
  pub nothing : (h : H.Hasher) → H.update h [] ≡ h
  pub goes_on :
      (h : H.Hasher) (xs ys : List ℕ) → H.update (H.update h xs) ys ≡ H.update h (xs ++ ys)

module _ (H : Hashing) (R : Type 0) (inner_read : R → ℕ → IoResult (List ℕ) × R) where
  -- Reads one after the other, each into a buffer of its length: all bytes, if no read fails.
  pub data ReadAll (r : Crc32Reader H R inner_read)
      : List ℕ → Crc32Reader H R inner_read → Type 0 where
    start : ReadAll r [] r
    then_read :
        {bytes more : List ℕ} {s t : Crc32Reader H R inner_read} (buf_len : ℕ)
        → ReadAll r bytes s
        → read H R inner_read s buf_len ≡ (done more, t)
        → ReadAll r (bytes ++ more) t

  open H use {Hasher, new_hasher, update, finalize}

  abbrev Reader : Type 0
  Reader = Crc32Reader H R inner_read

  abbrev bytes_of : IoResult (List ℕ) × Reader → List ℕ
  bytes_of (done bs, r) = bs
  bytes_of (failed e, r) = []
  bytes_of (panicked, r) = []

  -- What a successful read leaves; it gives no bytes only if the check does not fail.
  checked_inv :
      (nothing : (h : Hasher) → update h [] ≡ h) (r : Reader) (bad : Bool)
      (a : IoResult (List ℕ) × R) (more : List ℕ) (t : Reader)
      → checked H R inner_read r bad a ≡ (done more, t)
      → (t.hasher ≡ update r.hasher more)
        × (t.check ≡ r.check)
        × (t.ae2_encrypted ≡ r.ae2_encrypted)
        × (more ≡ [] → bad ≡ false)
  checked_inv nothing r true (done [], inner) more t e = absurd (cc)
  checked_inv nothing r false (done [], inner) more t e = (
    sym (ap (λ p. p.1.hasher) e) ∙ ap (update r.hasher) (ap bytes_of e),
    sym (ap (λ p. p.1.check) e),
    sym (ap (λ p. p.1.ae2_encrypted) e),
    λ h. refl,
  )
  checked_inv nothing r bad (done (b ∷ bs), inner) more t e = (
    sym (ap (λ p. p.1.hasher) e) ∙ ap (update r.hasher) (ap bytes_of e),
    sym (ap (λ p. p.1.check) e),
    sym (ap (λ p. p.1.ae2_encrypted) e),
    λ h. absurd (ne (ap bytes_of e ∙ h)),
  )
    where
      ne : (b ∷ bs) ≡ [] → ⊥
      ne h = cc
  checked_inv nothing r bad (failed x, inner) more t e = absurd (cc)
  checked_inv nothing r bad (panicked, inner) more t e = absurd (cc)

  module _ (law : IsHashing H) (inner : R) (checksum : ℕ) (ae2_encrypted : Bool) where
    abbrev reader : Reader
    reader = new H R inner_read inner checksum ae2_encrypted

    -- The state after a number of reads: everything they gave has gone into the checksum.
    read_so_far :
        {bytes : List ℕ} {s : Reader}
        → ReadAll reader bytes s
        → (s.hasher ≡ update new_hasher bytes)
          × (s.check ≡ checksum)
          × (s.ae2_encrypted ≡ ae2_encrypted)
    unfolding read
    read_so_far start = (sym (law.nothing new_hasher), refl, refl)
    read_so_far (then_read {bytes = bytes} {more = more} {s = s} {t = t} n before now) =
        let (hash, check, ae2) = read_so_far before in
        let (hash', check', ae2', _) =
          checked_inv law.nothing s _ (inner_read s.inner n) more t now in
        (
          hash' ∙ ap (λ h. update h more) hash ∙ law.goes_on new_hasher bytes more,
          check' ∙ check,
          ae2' ∙ ae2,
        )

    -- With a hasher as it is documented, a reader that gives no bytes for a buffer that is not empty, after reads that gave some bytes
    -- in all, has seen that their checksum is the expected one, unless the data is AE-2 encrypted.
    pub end_is_checked :
        {bytes : List ℕ} {s t : Reader} (n : ℕ)
        → ReadAll reader bytes s
        → n ≢ 0
        → read H R inner_read s n ≡ (done [], t)
        → (ae2_encrypted ≡ true) ⊎ (finalize (update new_hasher bytes) ≡ checksum)
    unfolding read
    end_is_checked {bytes} {s} {t} n before ne e =
        let (hash, check, ae2) = read_so_far before in
        let (_, _, _, good) = checked_inv law.nothing s _ (inner_read s.inner n) [] t e in
        conclude (good refl) hash check ae2
      where
        conclude :
            (not (n == 0) && not (s.check == finalize s.hasher) && not s.ae2_encrypted) ≡ false
            → s.hasher ≡ update new_hasher bytes
            → s.check ≡ checksum
            → s.ae2_encrypted ≡ ae2_encrypted
            → (ae2_encrypted ≡ true) ⊎ (finalize (update new_hasher bytes) ≡ checksum)
        conclude good hash check ae2 = elim (Bool-cases s.ae2_encrypted) [
          | inl e ↦ inl (sym ae2 ∙ e)
          | inr e ↦
              let matches : s.check ≡ finalize s.hasher = ground arith in
              inr (ap finalize (sym hash) ∙ sym matches ∙ check)
        ]
