-- ===== src/Spec/Block/Laws.antt =====
-- src/spec.rs: `interpret`, `encode` and `parse` of every `FixedSizeBlock` are inverse to each other.
use zip.Prelude.{
  ◌↔◌, subst, suc, ℕ, ◌≡◌, refl, sym, ap, ◌∙◌, arith, List, [], ◌∷◌, ◌++◌, length, take, drop, All,
  ==_refl,
}
use zip.Result.{ok}
use zip.LittleEndian.{IsByte}
use zip.Cursor.{
  bind_ok, bind_inv, Cursor, lift, read_exact, remaining, advance, read_exact-append,
  read_exact_inv,
}
use zip.Cursor.Codec.{Reads, Writes, Writes-write_all}
use zip.Spec.Block.{
  write, FixedSizeBlock, Fits, encode_fields, decode_fields, sum, size_of, interpret, encode, parse,
  length-encode_fields, decode_fields-encode_fields, decode_fields-Fits,
  encode_fields-decode_fields, encode_fields-IsByte,
}

-- A value of the struct: its fields have the widths of their types.
abbrev pub IsBlock : (F : FixedSizeBlock) → F.Block → Type 0
IsBlock F b = Fits F.widths (F.fields b)

pub length-decode_fields : (ws bs : List ℕ) → length (decode_fields ws bs) ≡ length ws
unfolding decode_fields
length-decode_fields [] bs = refl
length-decode_fields (w ∷ ws) bs = ap suc (length-decode_fields ws (drop w bs))

module _ (F : FixedSizeBlock) where
  open F use {Block, widths, magic_literal, wrong_magic_error, magic, fields, of_fields}

  pub length-encode : (b : Block) → IsBlock F b → length (encode F b) ≡ size_of F
  unfolding encode size_of
  length-encode b h = length-encode_fields widths (fields b) h

  pub encode-IsByte : (b : Block) → All IsByte (encode F b)
  unfolding encode
  encode-IsByte b = encode_fields-IsByte widths (fields b)

  pub interpret-encode :
      (b : Block) → IsBlock F b → magic b ≡ magic_literal → interpret F (encode F b) ≡ ok b
  unfolding interpret
  interpret-encode b h m =
      rw (length-encode b h, ==_refl, decoded, F.of_fields-fields b, m, ==_refl) refl
    where
      decoded : decode_fields widths (encode F b) ≡ fields b
      decoded = unfold encode in decode_fields-encode_fields widths (fields b) h

  -- What a successful `interpret` did.
  interpret_cases :
      (bytes : List ℕ) (b : Block)
      → interpret F bytes ≡ ok b
      → (length bytes ≡ size_of F)
        × (b ≡ of_fields (decode_fields widths bytes))
        × (magic b ≡ magic_literal)
  unfolding interpret
  interpret_cases bytes b e = ground arith

  pub interpret_inv :
      (bytes : List ℕ) (b : Block)
      → All IsByte bytes
      → interpret F bytes ≡ ok b
      → (encode F b ≡ bytes) × IsBlock F b × (magic b ≡ magic_literal)
  interpret_inv bytes b h e =
      let (size, value, m) = interpret_cases bytes b e in
      let read : fields b ≡ decode_fields widths bytes =
        ap fields value
        ∙ F.fields-of_fields (decode_fields widths bytes) (length-decode_fields widths bytes) in
      let size' : length bytes ≡ sum widths = unfold size_of in size in
      (
        unfold encode in
            (ap (encode_fields widths) read ∙ encode_fields-decode_fields widths bytes h size'),
        rw read (decode_fields-Fits widths bytes h (omega arith)),
        m,
      )

  -- Bytes are read as a block exactly when they are what the block is written as, its fields have
  -- the widths of their types and its first field is the magic value.
  pub interpret_iff :
      (bytes : List ℕ) (b : Block)
      → All IsByte bytes
      → (interpret F bytes ≡ ok b)
        ↔ ((encode F b ≡ bytes) × IsBlock F b × (magic b ≡ magic_literal))
  interpret_iff bytes b h = (
    interpret_inv bytes b h,
    λ (e, w, m). subst (λ bs. interpret F bs ≡ ok b) e (interpret-encode b w m),
  )

  -- `parse` at a place where a well-formed block stands gives it and goes past it.
  pub parse-encode :
      (b : Block) (c : Cursor) (rest : List ℕ)
      → IsBlock F b
      → magic b ≡ magic_literal
      → remaining c ≡ encode F b ++ rest
      → parse F c ≡ ok (b, advance (size_of F) c)
  unfolding parse
  parse-encode b c rest h m e =
      bind_ok (read_exact (size_of F)) (λ block. lift (interpret F block)) c found
      ∙ rw (interpret-encode b h m) refl
    where
      found : read_exact (size_of F) c ≡ ok (encode F b, advance (size_of F) c)
      found = read_exact-append c (encode F b) rest (size_of F) (sym (length-encode b h)) e

  -- What a successful `parse` found there.
  pub parse_inv :
      (c : Cursor) (b : Block) (c' : Cursor)
      → parse F c ≡ ok (b, c')
      → (interpret F (take (size_of F) (remaining c)) ≡ ok b) × (c' ≡ advance (size_of F) c)
  unfolding parse
  parse_inv c b c' e =
      let (block, c₁, got, rest) =
        bind_inv (read_exact (size_of F)) (λ block. lift (interpret F block)) c b c' e in
      let (taken, moved, _) = read_exact_inv (size_of F) c got in
      ground (arith, ap (interpret F) taken, rest, moved)

  pub Reads-parse :
      (b : Block) → IsBlock F b → magic b ≡ magic_literal → Reads (parse F) (encode F b) b
  Reads-parse b h m c rest e =
      parse-encode b c rest h m e ∙ ap (λ n. ok (b, advance n c)) (sym (length-encode b h))

  pub Writes-write : (b : Block) → Writes (write F b) (encode F b)
  unfolding write
  Writes-write b = Writes-write_all (encode F b)
