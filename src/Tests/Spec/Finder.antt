-- ===== src/Tests/Spec/Finder.antt =====
-- A finder that goes through all offsets, for the parameter that stands for `rfind_iter`.
use zip.Prelude.{
  ℕ, zero, suc, ◌+◌, ◌<◌, ◌≡◌, refl, ap, ◌∙◌, arith, List, [], ◌∷◌, length, take, In, inl, inr,
  Bool, true, false, ◌&&◌, ◌==◌, ==_iff, ==_refl, if◌then◌else◌, subst, Bool-cases,
}
use zip.Spec.Find.{Finder, Occurs, IsFinder}

same : List ℕ → List ℕ → Bool
same [] [] = true
same [] (y ∷ ys) = false
same (x ∷ xs) [] = false
same (x ∷ xs) (y ∷ ys) = x == y && same xs ys

same_refl : (xs : List ℕ) → same xs xs ≡ true
unfolding same
same_refl [] = refl
same_refl (x ∷ xs) = rw (==_refl x, same_refl xs) refl

same_sound : (xs ys : List ℕ) → same xs ys ≡ true → xs ≡ ys
unfolding same
same_sound [] [] e = refl
same_sound [] (y ∷ ys) e = absurd (cc)
same_sound (x ∷ xs) [] e = absurd (cc)
same_sound (x ∷ xs) (y ∷ ys) e = elim (Bool-cases (x == y)) [
  | inl eq ↦ λ i. (==_iff x y).0 eq i ∷ same_sound xs ys (rw eq at e) i
  | inr ne ↦ absurd (ground arith)
]

offsets_from : List ℕ → ℕ → List ℕ → List ℕ
offsets_from needle k [] = []
offsets_from needle k (h ∷ hs) =
    let rest = offsets_from needle (suc k) hs in
    if same (take (length needle) (h ∷ hs)) needle then k ∷ rest else rest

unfoldable pub every_offset : Finder
unfolding offsets_from same
every_offset needle hay = offsets_from needle 0 hay

one_later :
    (needle : List ℕ) (k x : ℕ) (hs : List ℕ) (i : ℕ)
    → (j : ℕ) × (i ≡ suc k + j) × Occurs needle hs j
    → (j : ℕ) × (i ≡ k + j) × Occurs needle (x ∷ hs) j
one_later needle k x hs i (j, e, o) = (suc j, omega arith, o)

offsets_sound :
    (needle : List ℕ) (k : ℕ) (hay : List ℕ) (i : ℕ)
    → In i (offsets_from needle k hay)
    → (j : ℕ) × (i ≡ k + j) × Occurs needle hay j
unfolding offsets_from
offsets_sound needle k [] i h = absurd h
offsets_sound needle k (x ∷ hs) i h =
    elim (Bool-cases (same (take (length needle) (x ∷ hs)) needle)) [
      | inl e ↦ elim (rw e at h) [
        | inl here ↦ (0, omega arith, same_sound _ needle e)
        | inr there ↦ one_later needle k x hs i (offsets_sound needle (suc k) hs i there)
      ]
      | inr ne ↦ one_later needle k x hs i (offsets_sound needle (suc k) hs i (rw ne at h))
    ]

offsets_complete :
    (needle : List ℕ) (k : ℕ) (hay : List ℕ) (i : ℕ)
    → 0 < length needle
    → Occurs needle hay i
    → In (k + i) (offsets_from needle k hay)
unfolding offsets_from
offsets_complete [] k hay i pos o = absurd (omega arith)
offsets_complete (n ∷ ns) k [] zero pos o = absurd (cc)
offsets_complete (n ∷ ns) k [] (suc i) pos o = absurd (cc)
offsets_complete (n ∷ ns) k (h ∷ hs) zero pos o =
    rw (ap (λ t. same t (n ∷ ns)) o ∙ same_refl (n ∷ ns)) (inl (omega arith))
offsets_complete (n ∷ ns) k (h ∷ hs) (suc i) pos o =
    keeps (same (take (length (n ∷ ns)) (h ∷ hs)) (n ∷ ns))
      (subst (λ t. In t rest) there (offsets_complete (n ∷ ns) (suc k) hs i pos o))
  where
    rest : List ℕ
    rest = offsets_from (n ∷ ns) (suc k) hs

    there : suc k + i ≡ k + suc i
    there = omega arith

    keeps : (b : Bool) → In (k + suc i) rest → In (k + suc i) (if b then k ∷ rest else rest)
    keeps true r = inr r
    keeps false r = r

pub every_offset-IsFinder : IsFinder every_offset
unfolding every_offset
every_offset-IsFinder = record {
  sound = λ needle hay i h.
      let (j, e, o) = offsets_sound needle 0 hay i h in
      subst (Occurs needle hay) (same_place i j e) o;
  complete = λ needle hay i pos o. (
    i,
    subst (λ t. In t (offsets_from needle 0 hay)) (zero_plus i)
        (offsets_complete needle 0 hay i pos o),
    omega arith,
    omega arith,
  );
}
  where
    same_place : (i j : ℕ) → i ≡ 0 + j → j ≡ i
    same_place i j e = omega arith

    zero_plus : (i : ℕ) → 0 + i ≡ i
    zero_plus i = omega arith
