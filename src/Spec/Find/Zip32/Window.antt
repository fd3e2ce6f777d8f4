-- ===== src/Spec/Find/Zip32/Window.antt =====
-- One window of the search: the records found in it are those that stand in it.
use zip.Prelude.{
  ℕ, ◌+◌, ◌-◌, ◌≤◌, ◌≡◌, ◌↔◌, refl, sym, ap, ◌∙◌, subst, arith, List, [], ◌∷◌, length, take, drop,
  drop-drop, take-take, drop-take, length-take, length-drop, In, All, All-take, All-drop, inl, inr,
}
use zip.Result.{ZipError, ZipResult, ok, err, ZipResult-cases}
use zip.LittleEndian.{IsByte, to_le_bytes}
use zip.Cursor.{Cursor, run_at, bind_inv}
use zip.Spec.Block
use zip.Spec.Block.{encode, encode_fields, size_of}
use zip.Spec.Block.Laws.{parse_inv, interpret_inv, length-encode}
use zip.Spec.Records.{Zip32CdeBlock, zip32_cde_block}
use zip.Spec.Zip32End.{Zip32CentralDirectoryEnd, parse}
use zip.Spec.Find.{Finder, Occurs, IsFinder}
use zip.Spec.Find.Signature.{rfind_all}
use zip.Spec.Find.Zip32.{push_ok, sig_bytes, parse_found}

-- A record that parses at a position of the file.
abbrev pub ParsesAt : List ℕ → Zip32CentralDirectoryEnd × ℕ → Type 0
ParsesAt file (cde, p) = run_at file p parse ≡ ok cde

-- An encoded block begins with its magic value.
take-encode : (b : Zip32CdeBlock) → take 4 (encode zip32_cde_block b) ≡ to_le_bytes 4 b.magic
unfolding encode encode_fields to_le_bytes
take-encode b = refl

-- Where a record parses, the signature stands.
pub Occurs-ParsesAt :
    (file : List ℕ) (cde : Zip32CentralDirectoryEnd) (p : ℕ)
    → All IsByte file
    → ParsesAt file (cde, p)
    → Occurs sig_bytes file p
unfolding parse run_at size_of to_le_bytes
Occurs-ParsesAt file cde p bytes h = elim (ZipResult-cases (parse c)) [
  | inl ((e, c'), done) ↦
      let (b, c₁, block, _) = bind_inv (Block.parse zip32_cde_block) _ c e c' done in
      begins b c₁ block
  | inr (x, e) ↦ absurd (cc)
]
  where
    c : Cursor
    c = record { bytes = file; pos = p }

    begins :
        (b : Zip32CdeBlock) (c₁ : Cursor)
        → Block.parse zip32_cde_block c ≡ ok (b, c₁)
        → Occurs sig_bytes file p
    begins b c₁ block =
        let (read, _) = parse_inv zip32_cde_block c b c₁ block in
        let (bs, _, m) =
          interpret_inv zip32_cde_block (take 22 (drop p file)) b
            (All-take IsByte 22 _ (All-drop IsByte p file bytes)) read in
        sym (take-take 4 22 (drop p file) (omega arith))
        ∙ ap (take 4) (sym bs)
        ∙ take-encode b
        ∙ ap (to_le_bytes 4) m

-- A record that parses has its 22 bytes in the file.
pub ParsesAt-room :
    (file : List ℕ) (cde : Zip32CentralDirectoryEnd) (p : ℕ)
    → All IsByte file
    → ParsesAt file (cde, p)
    → p + 22 ≤ length file
unfolding parse run_at size_of
ParsesAt-room file cde p bytes h = elim (ZipResult-cases (parse c)) [
  | inl ((e, c'), done) ↦
      let (b, c₁, block, _) = bind_inv (Block.parse zip32_cde_block) _ c e c' done in
      fits b c₁ block
  | inr (x, e) ↦ absurd (cc)
]
  where
    c : Cursor
    c = record { bytes = file; pos = p }

    fits :
        (b : Zip32CdeBlock) (c₁ : Cursor)
        → Block.parse zip32_cde_block c ≡ ok (b, c₁)
        → p + 22 ≤ length file
    fits b c₁ block =
        let (read, _) = parse_inv zip32_cde_block c b c₁ block in
        let (bs, valid, _) =
          interpret_inv zip32_cde_block (take 22 (drop p file)) b
            (All-take IsByte 22 _ (All-drop IsByte p file bytes)) read in
        omega (
          arith,
          ap length bs,
          length-encode zip32_cde_block b valid,
          length-take 22 (drop p file),
          length-drop p file,
        )

-- What is pushed for the offsets: the records that parse there.
pub In-parse_found :
    (file : List ℕ) (window_start : ℕ) (offsets : List ℕ) (r : Zip32CentralDirectoryEnd × ℕ)
    → In r (parse_found file window_start offsets)
    → ParsesAt file r × ((offset : ℕ) × In offset offsets × (r.1 ≡ window_start + offset))
unfolding parse_found
In-parse_found file window_start [] r h = absurd h
In-parse_found file window_start (offset ∷ offsets) r h =
    elim (ZipResult-cases (run_at file (window_start + offset) parse)) [
      | inl (cde, e) ↦ elim (pushed cde e) [
        | inl q ↦ (
          subst (ParsesAt file) (sym q) e,
          (offset, inl refl, ap (λ (t : Zip32CentralDirectoryEnd × ℕ). t.1) q),
        )
        | inr q ↦ later (In-parse_found file window_start offsets r q)
      ]
      | inr (x, e) ↦ later (In-parse_found file window_start offsets r (passed x e))
    ]
  where
    others : List (Zip32CentralDirectoryEnd × ℕ)
    others = parse_found file window_start offsets

    pushed :
        (cde : Zip32CentralDirectoryEnd)
        → run_at file (window_start + offset) parse ≡ ok cde
        → In r ((cde, window_start + offset) ∷ others)
    pushed cde e = subst (λ t. In r (push_ok (window_start + offset) t others)) e h

    passed : (x : ZipError) → run_at file (window_start + offset) parse ≡ err x → In r others
    passed x e = subst (λ t. In r (push_ok (window_start + offset) t others)) e h

    later :
        ParsesAt file r × ((o : ℕ) × In o offsets × (r.1 ≡ window_start + o))
        → ParsesAt file r × ((o : ℕ) × In o (offset ∷ offsets) × (r.1 ≡ window_start + o))
    later (p, (o, i, q)) = (p, (o, inr i, q))

pub parse_found-In :
    (file : List ℕ) (window_start : ℕ) (offsets : List ℕ) (cde : Zip32CentralDirectoryEnd)
    (offset : ℕ)
    → In offset offsets
    → ParsesAt file (cde, window_start + offset)
    → In (cde, window_start + offset) (parse_found file window_start offsets)
unfolding parse_found
parse_found-In file window_start [] cde offset h p = absurd h
parse_found-In file window_start (o ∷ offsets) cde offset (inl e) p =
    subst (λ t. In (cde, window_start + offset) (push_ok (window_start + o) t others))
      (sym (rw e at p)) (inl (λ i. (cde, window_start + e i)))
  where
    others : List (Zip32CentralDirectoryEnd × ℕ)
    others = parse_found file window_start offsets
parse_found-In file window_start (o ∷ offsets) cde offset (inr h) p =
    grows (run_at file (window_start + o) parse)
      (parse_found-In file window_start offsets cde offset h p)
  where
    grows :
        (t : ZipResult Zip32CentralDirectoryEnd)
        → In (cde, window_start + offset) (parse_found file window_start offsets)
        → In
            (cde, window_start + offset)
            (push_ok (window_start + o) t (parse_found file window_start offsets))
    grows (ok x) i = inr i
    grows (err x) i = i

-- A signature in the window is one in the file, and the other way round.
Occurs-window :
    (file needle : List ℕ) (start size offset : ℕ)
    → offset + length needle ≤ size
    → take (length needle) (drop offset (take size (drop start file)))
      ≡ take (length needle) (drop (start + offset) file)
Occurs-window file needle start size offset fits =
    ap (take (length needle)) (drop-take offset size (drop start file))
    ∙ take-take (length needle) (size - offset) (drop offset (drop start file)) (omega arith)
    ∙ ap (take (length needle)) (drop-drop start offset file)

-- The records pushed for a window are those that parse inside it.
pub In-window :
    (rfind_iter : Finder)
    → IsFinder rfind_iter
    → (file : List ℕ) (start size : ℕ) (r : Zip32CentralDirectoryEnd × ℕ) → All IsByte file
    → (start + size ≤ length file)
    → In r (parse_found file start (rfind_iter sig_bytes (take size (drop start file))))
      ↔ (ParsesAt file r × (start ≤ r.1) × (r.1 + 4 ≤ start + size))
unfolding to_le_bytes
In-window rfind_iter law file start size (cde, p) bytes fits = (to, from)
  where
    window : List ℕ
    window = take size (drop start file)

    to :
        In (cde, p) (parse_found file start (rfind_iter sig_bytes window))
        → ParsesAt file (cde, p) × (start ≤ p) × (p + 4 ≤ start + size)
    to h =
        let (parses, (offset, given, e)) =
          In-parse_found file start (rfind_iter sig_bytes window) (cde, p) h in
        let stands = ap length (law.sound sig_bytes window offset given) in
        let room : offset + 4 ≤ size = omega (
          arith,
          length-take 4 (drop offset window),
          length-drop offset window,
          length-take size (drop start file),
        ) in
        (parses, omega arith, omega arith)

    from :
        ParsesAt file (cde, p) × (start ≤ p) × (p + 4 ≤ start + size)
        → In (cde, p) (parse_found file start (rfind_iter sig_bytes window))
    from (parses, lo, hi) =
        let place : start + (p - start) ≡ p = omega arith in
        let stands : Occurs sig_bytes window (p - start) =
          Occurs-window file sig_bytes start size (p - start) (omega arith)
          ∙ ap (λ k. take 4 (drop k file)) place
          ∙ Occurs-ParsesAt file cde p bytes parses in
        let given : In (p - start) (rfind_iter sig_bytes window) =
          rfind_all 0x50 0x4b 0x05 0x06 (omega arith) (omega arith) (omega arith) rfind_iter law
            window (p - start) stands in
        subst (λ k. In (cde, k) (parse_found file start (rfind_iter sig_bytes window))) place
          (parse_found-In file start (rfind_iter sig_bytes window) cde (p - start) given
            (subst (λ k. ParsesAt file (cde, k)) (sym place) parses))
