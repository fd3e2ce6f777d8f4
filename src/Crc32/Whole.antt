-- ===== src/Crc32/Whole.antt =====
-- src/crc32.rs: a reader that gives a text part by part, behind the test of the text's checksum.
use zip.Prelude.{
  ℕ, ◌≡◌, ◌⊎◌, inl, inr, refl, sym, ap, ◌∙◌, arith, Bool, true, false, ◌&&◌, not, ◌==◌, List, [],
  ◌∷◌, ◌++◌, append_assoc, append-nil,
}
use zip.Crc32.{Hashing, IoResult, done, Crc32Reader, read, checked}
use zip.Crc32.Checked.{IsHashing}

-- One read of a text that is still to come: some part of it, and nothing only at its end or into an
-- empty buffer. `P` says what is still to come.
pub record Part {R : Type 0} (read_one : R → ℕ → IoResult (List ℕ) × R) (P : R → List ℕ → Type 0)
    (r : R) (text : List ℕ) (n : ℕ) : Type 0 where
  pub given : List ℕ
  pub rest : List ℕ
  pub after : R
  pub reads : read_one r n ≡ (done given, after)
  pub parts : text ≡ given ++ rest
  pub goes_on : P after rest
  pub ends : given ≡ [] → (n ≡ 0) ⊎ (text ≡ [])

abbrev pub Yields : {R : Type 0} → (R → ℕ → IoResult (List ℕ) × R) → (R → List ℕ → Type 0) → Type 0
Yields {R} read_one P = (r : R) (text : List ℕ) (n : ℕ) → P r text → Part read_one P r text n

module _ (H : Hashing) (R : Type 0) (inner_read : R → ℕ → IoResult (List ℕ) × R)
    (P : R → List ℕ → Type 0) where
  -- The rest of a text whose checksum is the expected one, unless the data is AE-2 encrypted.
  pub record IsChecked (r : Crc32Reader H R inner_read) (text : List ℕ) : Type 0 where
    pub seen : List ℕ
    pub inner : P r.inner text
    pub hashed : r.hasher ≡ H.update H.new_hasher seen
    pub expected :
        (r.ae2_encrypted ≡ true) ⊎ (r.check ≡ H.finalize (H.update H.new_hasher (seen ++ text)))

  abbrev invalid : Crc32Reader H R inner_read → ℕ → Bool
  invalid r n = not (n == 0) && not (r.check == H.finalize r.hasher) && not r.ae2_encrypted

  at_end :
      (r : Crc32Reader H R inner_read) (text : List ℕ) (n : ℕ)
      → IsChecked r text
      → (n ≡ 0) ⊎ (text ≡ [])
      → invalid r n ≡ false
  at_end r text n c (inl e) = rw e refl
  at_end r text n c (inr e) = elim c.expected [
    | inl ae2 ↦ ground arith
    | inr right ↦
        let matches : r.check ≡ H.finalize r.hasher =
          right
          ∙ ap (λ l. H.finalize (H.update H.new_hasher (c.seen ++ l))) e
          ∙ ap (λ l. H.finalize (H.update H.new_hasher l)) (append-nil c.seen)
          ∙ ap H.finalize (sym c.hashed) in
        ground arith
  ]

  passes :
      (r : Crc32Reader H R inner_read) (given : List ℕ) (after : R) (bad : Bool)
      → IsHashing H
      → (given ≡ [] → bad ≡ false)
      → checked H R inner_read r bad (done given, after)
        ≡ (done given, record r { inner = after; hasher = H.update r.hasher given })
  passes r [] after bad law good = rw (good refl) refl
  passes r (b ∷ bs) after bad law good = refl

  -- Where the inner reader yields a text, so does the one that checks it.
  pub Yields-read : IsHashing H → Yields inner_read P → Yields (read H R inner_read) IsChecked
  unfolding read
  Yields-read law inner_yields r text n c =
      let p = inner_yields r.inner text n c.inner in
      record {
        given = p.given;
        rest = p.rest;
        after = record r { inner = p.after; hasher = H.update r.hasher p.given };
        reads =
            ap (checked H R inner_read r (invalid r n)) p.reads
            ∙ passes r p.given p.after (invalid r n) law (λ e. at_end r text n c (p.ends e));
        parts = p.parts;
        goes_on = record {
          seen = c.seen ++ p.given;
          inner = p.goes_on;
          hashed = ap (λ h. H.update h p.given) c.hashed ∙ law.goes_on H.new_hasher c.seen p.given;
          expected = elim c.expected [
            | inl ae2 ↦ inl ae2
            | inr right ↦ inr (
                right
                ∙ ap (λ l. H.finalize (H.update H.new_hasher l))
                    (ap (λ l. c.seen ++ l) p.parts ∙ sym (append_assoc c.seen p.given p.rest)))
          ];
        };
        ends = p.ends;
      }
