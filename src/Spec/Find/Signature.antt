-- ===== src/Spec/Find/Signature.antt =====
-- A signature whose first byte is not repeated cannot overlap itself, so `rfind_iter` gives every
-- place where it stands.
use zip.Prelude.{
  ℕ, zero, suc, ◌+◌, ◌-◌, ◌<◌, ◌≡◌, ◌≢◌, refl, sym, ap, ◌∙◌, subst, arith, List, [], ◌∷◌, take,
  drop, drop-drop, In, dec_lt,
}
use zip.Spec.Find.{Finder, Occurs, IsFinder}

module _ (a b c d : ℕ) (ab : a ≢ b) (ac : a ≢ c) (ad : a ≢ d) where
  abbrev signature : List ℕ
  signature = a ∷ b ∷ c ∷ d ∷ []

  no_overlap :
      (l : List ℕ) (n : ℕ) → take 4 l ≡ signature → take 4 (drop n l) ≡ signature → n < 4 → n ≡ 0
  no_overlap l zero e f h = refl
  no_overlap (x₁ ∷ x₂ ∷ l) (suc zero) e f h = absurd (ab (cc))
  no_overlap (x₁ ∷ x₂ ∷ x₃ ∷ l) (suc (suc zero)) e f h = absurd (ac (cc))
  no_overlap (x₁ ∷ x₂ ∷ x₃ ∷ x₄ ∷ l) (suc (suc (suc zero))) e f h = absurd (ad (cc))
  no_overlap [] (suc zero) e f h = absurd (cc)
  no_overlap (x₁ ∷ []) (suc zero) e f h = absurd (cc)
  no_overlap [] (suc (suc zero)) e f h = absurd (cc)
  no_overlap (x₁ ∷ []) (suc (suc zero)) e f h = absurd (cc)
  no_overlap (x₁ ∷ x₂ ∷ []) (suc (suc zero)) e f h = absurd (cc)
  no_overlap [] (suc (suc (suc zero))) e f h = absurd (cc)
  no_overlap (x₁ ∷ []) (suc (suc (suc zero))) e f h = absurd (cc)
  no_overlap (x₁ ∷ x₂ ∷ []) (suc (suc (suc zero))) e f h = absurd (cc)
  no_overlap (x₁ ∷ x₂ ∷ x₃ ∷ []) (suc (suc (suc zero))) e f h = absurd (cc)
  no_overlap l (suc (suc (suc (suc n)))) e f h = absurd (omega arith)

  same_place :
      (hay : List ℕ) (i n : ℕ)
      → Occurs signature hay i
      → Occurs signature hay (i + n)
      → n < 4
      → n ≡ 0
  same_place hay i n e f h = no_overlap (drop i hay) n e (ap (take 4) (drop-drop i n hay) ∙ f) h

  one_place :
      (hay : List ℕ) (i j : ℕ)
      → Occurs signature hay i
      → Occurs signature hay j
      → i < j + 4
      → j < i + 4
      → i ≡ j
  one_place hay i j e f p q = elim (dec_lt i j) [
    | yes lt ↦
        let far : i + (j - i) ≡ j = omega arith in
        omega (
          arith,
          same_place hay i (j - i) e (subst (Occurs signature hay) (sym far) f) (omega arith),
        )
    | no ge ↦
        let far : j + (i - j) ≡ i = omega arith in
        omega (
          arith,
          same_place hay j (i - j) f (subst (Occurs signature hay) (sym far) e) (omega arith),
        )
  ]

  -- Exactly the places where the signature stands are found.
  pub rfind_all :
      (rfind_iter : Finder)
      → IsFinder rfind_iter
      → (hay : List ℕ) (i : ℕ) → Occurs signature hay i
      → In i (rfind_iter signature hay)
  rfind_all rfind_iter law hay i e =
      let (j, given, p, q) = law.complete signature hay i (omega arith) e in
      let there = law.sound signature hay j given in
      subst (λ k. In k (rfind_iter signature hay)) (sym (one_place hay i j e there p q)) given
