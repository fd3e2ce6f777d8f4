-- ===== src/Spec/Block.antt =====
-- src/spec.rs: the trait `FixedSizeBlock`. A packed struct is its fields, each of a width in bytes,
-- one after the other; `from_le` and `to_le` make each of them little-endian. An implementation of
-- the trait is a value of `FixedSizeBlock`.
pub mod Laws
use zip.Prelude.{
  get_or, ℕ, zero, suc, ◌+◌, ◌*◌, ◌^◌, ◌≤◌, ◌<◌, ◌≡◌, refl, sym, ap, ◌∙◌, arith, List, [], ◌∷◌,
  ◌++◌, length, take, drop, ◌==◌, if◌then◌else◌, not, All, length-take, length-drop, length-append,
  take-append_length, drop-append_length, take-append-drop, All-take, All-drop, All-append,
  Bool-cases, inl, inr, ==_refl, ==_iff, append-nil,
}
use zip.Result.{ZipResult, ok, err, ZipError, invalid_archive}
use zip.LittleEndian.{
  IsByte, to_le_bytes, from_le_bytes, length-to_le_bytes, to_le_bytes-IsByte,
  from_le_bytes-to_le_bytes, to_le_bytes-from_le_bytes, from_le_bytes-lt,
}
use zip.Cursor.{
  Cursor, Io, ◌>>=◌, lift, read_exact, remaining, write_all, advance, read_exact-append,
  remaining-advance,
}

-- The bytes of fields of the given widths.
unfoldable pub encode_fields : List ℕ → List ℕ → List ℕ
encode_fields [] vs = []
encode_fields (w ∷ ws) [] = []
encode_fields (w ∷ ws) (v ∷ vs) = to_le_bytes w v ++ encode_fields ws vs

unfoldable pub decode_fields : List ℕ → List ℕ → List ℕ
decode_fields [] bs = []
decode_fields (w ∷ ws) bs = from_le_bytes (take w bs) ∷ decode_fields ws (drop w bs)

abbrev pub sum : List ℕ → ℕ
sum [] = 0
sum (w ∷ ws) = w + sum ws

-- Each value fits its width, and there are as many of the ones as of the others.
abbrev pub Fits : List ℕ → List ℕ → Type 0
Fits [] [] = Unit
Fits [] (v ∷ vs) = ⊥
Fits (w ∷ ws) [] = ⊥
Fits (w ∷ ws) (v ∷ vs) = (v < 256 ^ w) × Fits ws vs

pub length-encode_fields : (ws vs : List ℕ) → Fits ws vs → length (encode_fields ws vs) ≡ sum ws
unfolding encode_fields
length-encode_fields [] vs h = refl
length-encode_fields (w ∷ ws) [] h = absurd h
length-encode_fields (w ∷ ws) (v ∷ vs) (hv, h) = omega (
  arith,
  length-append (to_le_bytes w v) (encode_fields ws vs),
  length-to_le_bytes w v,
  length-encode_fields ws vs h,
)

pub encode_fields-IsByte : (ws vs : List ℕ) → All IsByte (encode_fields ws vs)
unfolding encode_fields
encode_fields-IsByte [] vs = tt
encode_fields-IsByte (w ∷ ws) [] = tt
encode_fields-IsByte (w ∷ ws) (v ∷ vs) =
    All-append IsByte (to_le_bytes w v) _ (to_le_bytes-IsByte w v) (encode_fields-IsByte ws vs)

pub decode_fields-encode_fields :
    (ws vs : List ℕ) → Fits ws vs → decode_fields ws (encode_fields ws vs) ≡ vs
unfolding encode_fields decode_fields
decode_fields-encode_fields [] [] h = refl
decode_fields-encode_fields [] (v ∷ vs) h = absurd h
decode_fields-encode_fields (w ∷ ws) [] h = absurd h
decode_fields-encode_fields (w ∷ ws) (v ∷ vs) (hv, h) =
    rw (first, others, from_le_bytes-to_le_bytes w v hv, decode_fields-encode_fields ws vs h) refl
  where
    first : take w (to_le_bytes w v ++ encode_fields ws vs) ≡ to_le_bytes w v
    first =
        rw (length-to_le_bytes w v) at (take-append_length (to_le_bytes w v) (encode_fields ws vs))

    others : drop w (to_le_bytes w v ++ encode_fields ws vs) ≡ encode_fields ws vs
    others =
        rw (length-to_le_bytes w v) at (drop-append_length (to_le_bytes w v) (encode_fields ws vs))

pub decode_fields-Fits :
    (ws bs : List ℕ) → All IsByte bs → sum ws ≤ length bs → Fits ws (decode_fields ws bs)
unfolding decode_fields
decode_fields-Fits [] bs h e = tt
decode_fields-Fits (w ∷ ws) bs h e = (
  rw taken at (from_le_bytes-lt (take w bs) (All-take IsByte w bs h)),
  decode_fields-Fits ws (drop w bs) (All-drop IsByte w bs h) (omega (arith, length-drop w bs)),
)
  where
    taken : length (take w bs) ≡ w
    taken = omega (arith, length-take w bs)

pub encode_fields-decode_fields :
    (ws bs : List ℕ)
    → All IsByte bs
    → length bs ≡ sum ws
    → encode_fields ws (decode_fields ws bs) ≡ bs
unfolding encode_fields decode_fields
encode_fields-decode_fields [] [] h e = refl
encode_fields-decode_fields [] (b ∷ bs) h e = absurd (omega arith)
encode_fields-decode_fields (w ∷ ws) bs h e =
    ap (λ l. l ++ encode_fields ws (decode_fields ws (drop w bs))) first
    ∙ ap (λ l. take w bs ++ l)
        (encode_fields-decode_fields ws (drop w bs) (All-drop IsByte w bs h)
          (omega (arith, length-drop w bs)))
    ∙ take-append-drop w bs
  where
    first : to_le_bytes w (from_le_bytes (take w bs)) ≡ take w bs
    first =
        ap (λ k. to_le_bytes k (from_le_bytes (take w bs))) (omega (arith, length-take w bs))
        ∙ to_le_bytes-from_le_bytes (take w bs) (All-take IsByte w bs h)

-- A list read element by element.
abbrev pub tabulate : ℕ → (ℕ → ℕ) → List ℕ
tabulate zero f = []
tabulate (suc n) f = f 0 ∷ tabulate n (λ i. f (suc i))

tabulate_all : (vs : List ℕ) → tabulate (length vs) (λ i. get_or vs i 0) ≡ vs
tabulate_all [] = refl
tabulate_all (v ∷ vs) = ap (λ l. v ∷ l) (tabulate_all vs)

pub tabulate-get_or : (vs : List ℕ) {n : ℕ} → length vs ≡ n → tabulate n (λ i. get_or vs i 0) ≡ vs
tabulate-get_or vs e = ap (λ n. tabulate n (λ i. get_or vs i 0)) (sym e) ∙ tabulate_all vs

-- A struct that implements the trait. `widths` is its layout in memory, and `fields` and
-- `of_fields` go between a value and the list of its fields.
pub record FixedSizeBlock : Type 1 where
  pub Block : Type 0
  pub widths : List ℕ
  pub magic_literal : ℕ
  pub wrong_magic_error : ZipError
  pub magic : Block → ℕ
  pub fields : Block → List ℕ
  pub of_fields : List ℕ → Block
  pub of_fields-fields : (b : Block) → of_fields (fields b) ≡ b
  pub fields-of_fields : (vs : List ℕ) → length vs ≡ length widths → fields (of_fields vs) ≡ vs

module _ (F : FixedSizeBlock) where
  open F use {Block, widths, magic_literal, wrong_magic_error, magic, fields, of_fields}

  -- `mem::size_of::<Self>()` of a packed struct.
  unfoldable pub size_of : ℕ
  size_of = sum widths

  unfoldable pub interpret : List ℕ → ZipResult Block
  unfolding size_of
  interpret bytes =
      if not (length bytes == size_of)
      then err (invalid_archive "Block is wrong size")
      else let block = of_fields (decode_fields widths bytes) in
        if not (magic block == magic_literal) then err wrong_magic_error else ok block

  unfoldable pub encode : Block → List ℕ
  encode b = encode_fields widths (fields b)

  unfoldable pub parse : Io Block
  parse = do block ← read_exact size_of; lift (interpret block)

  unfoldable pub write : Block → Io (Unit {0})
  write b = write_all (encode b)
