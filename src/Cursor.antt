-- ===== src/Cursor.antt =====
-- `std::io` over an in-memory file, `Cursor<Vec<u8>>`: a position in a list of bytes. An operation is a
-- function of the cursor that gives its result with the cursor after it, or an error; what a failed
-- one leaves of the position is not observed, since the code seeks before it reads again.
pub mod Write
pub mod Codec
pub mod Forward
use zip.Prelude.{
  zero, suc, [], ◌∷◌, refl, drop-nil, append_assoc, inl, inr, ℕ, ◌+◌, ◌≡◌, sym, ap, ◌∙◌, arith,
  List, ◌++◌, length, take, drop, leb, if◌then◌else◌, length-take, drop-drop, length-append,
  take-append_length, drop-append_length,
}
use zip.Result.{ZipResult-cases, ZipResult, ok, err, ZipError, io, unexpected_eof}
use zip.LittleEndian.{from_le_bytes}

pub record Cursor : Type 0 where
  pub bytes : List ℕ
  pub pos : ℕ

abbrev pub Io : Type 0 → Type 0
Io A = Cursor → ZipResult (A × Cursor)

infixl 5 ◌>>=◌ ◌>>◌
abbrev pub ◌>>=◌ : {A B : Type 0} → Io A → (A → Io B) → Io B
◌>>=◌ m f c = elim (m c) [ ok (a, c') ↦ f a c' | err e ↦ err e ]

abbrev pub ◌>>◌ : {A B : Type 0} → Io A → Io B → Io B
m >> k = m >>= λ _. k

abbrev pub pure : {A : Type 0} → A → Io A
pure a c = ok (a, c)

abbrev pub throw : {A : Type 0} → ZipError → Io A
throw e c = err e

abbrev pub lift : {A : Type 0} → ZipResult A → Io A
lift r c = elim r [ ok a ↦ ok (a, c) | err e ↦ err e ]

-- What is left to read.
abbrev pub remaining : Cursor → List ℕ
remaining c = drop c.pos c.bytes

abbrev pub advance : ℕ → Cursor → Cursor
advance n c = record c { pos = c.pos + n }

-- `seek(SeekFrom::Start(p))` and `stream_position`.
abbrev pub seek_start : ℕ → Io (Unit {0})
seek_start p c = ok (tt, record c { pos = p })

abbrev pub stream_position : Io ℕ
stream_position c = ok (c.pos, c)

unfoldable pub read_exact : ℕ → Io (List ℕ)
read_exact n c =
    if leb n (length (remaining c))
    then ok (take n (remaining c), advance n c)
    else err (io unexpected_eof)

-- `read_u16_le` and its kin, at a width in bytes.
unfoldable pub read_le : ℕ → Io ℕ
read_le w = do bs ← read_exact w; pure (from_le_bytes bs)

-- Bytes written from a position on; what lies between the end of the file and the position is zero.
unfoldable pub overwrite : ℕ → List ℕ → List ℕ → List ℕ
overwrite zero [] bytes = bytes
overwrite zero (x ∷ xs) bytes = x ∷ overwrite zero xs (drop 1 bytes)
overwrite (suc p) xs [] = 0 ∷ overwrite p xs []
overwrite (suc p) xs (b ∷ bs) = b ∷ overwrite p xs bs

abbrev pub wrote : List ℕ → Cursor → Cursor
wrote xs c = record { bytes = overwrite c.pos xs c.bytes; pos = c.pos + length xs }

unfoldable pub write_all : List ℕ → Io (Unit {0})
write_all xs c = ok (tt, wrote xs c)

-- A read gets the bytes that stand at the position.
pub read_exact-append :
    (c : Cursor) (xs rest : List ℕ) (n : ℕ)
    → n ≡ length xs
    → remaining c ≡ xs ++ rest
    → read_exact n c ≡ ok (xs, advance n c)
unfolding read_exact
read_exact-append c xs rest n e h =
    rw (h, e) (ground (arith, length-append xs rest, take-append_length xs rest))

pub remaining-advance :
    (c : Cursor) (xs rest : List ℕ) (n : ℕ)
    → n ≡ length xs
    → remaining c ≡ xs ++ rest
    → remaining (advance n c) ≡ rest
remaining-advance c xs rest n e h =
    sym (drop-drop c.pos n c.bytes)
    ∙ ap (drop n) h
    ∙ ap (λ k. drop k (xs ++ rest)) e
    ∙ drop-append_length xs rest

-- A successful read splits what was left.
pub read_exact_inv :
    (n : ℕ) (c : Cursor) {xs : List ℕ} {c' : Cursor}
    → read_exact n c ≡ ok (xs, c')
    → (xs ≡ take n (remaining c)) × (c' ≡ advance n c) × (length xs ≡ n)
unfolding read_exact
read_exact_inv n c h = ground (arith, length-take n (remaining c))

-- A step that succeeds hands its result on; and the other way round.
module _ {A B : Type 0} where
  pub bind_ok :
      (m : Io A) (f : A → Io B) (c : Cursor) {a : A} {c' : Cursor}
      → m c ≡ ok (a, c')
      → (m >>= f) c ≡ f a c'
  bind_ok m f c h = rw (h, ◌>>=◌)

  pub bind_err :
      (m : Io A) (f : A → Io B) (c : Cursor) {e : ZipError} → m c ≡ err e → (m >>= f) c ≡ err e
  bind_err m f c h = rw (h, ◌>>=◌)

  pub bind_inv :
      (m : Io A) (f : A → Io B) (c : Cursor) (b : B) (c'' : Cursor)
      → (m >>= f) c ≡ ok (b, c'')
      → (a : A) × (c' : Cursor) × (m c ≡ ok (a, c')) × (f a c' ≡ ok (b, c''))
  bind_inv m f c b c'' h = elim (ZipResult-cases (m c)) [
    | inl ((a, c'), e) ↦ (a, c', e, sym (bind_ok m f c e) ∙ h)
    | inr (x, e) ↦ absurd (cc (bind_err m f c e))
  ]

-- A seek to `p` and then `m`, for code that seeks again before its next read.
unfoldable pub run_at : {A : Type 0} → List ℕ → ℕ → Io A → ZipResult A
run_at file p m = elim (m (record { bytes = file; pos = p })) [ ok (a, _) ↦ ok a | err e ↦ err e ]

pub run_at-ok :
    {A : Type 0} (file : List ℕ) (p : ℕ) (m : Io A) {a : A} {c : Cursor}
    → m (record { bytes = file; pos = p }) ≡ ok (a, c)
    → run_at file p m ≡ ok a
unfolding run_at
run_at-ok file p m h = rw (h, run_at) refl

run_at-err :
    {A : Type 0} (file : List ℕ) (p : ℕ) (m : Io A) {x : ZipError}
    → m (record { bytes = file; pos = p }) ≡ err x
    → run_at file p m ≡ err x
unfolding run_at
run_at-err file p m h = rw (h, run_at) refl

pub run_at-inv :
    {A : Type 0} (file : List ℕ) (p : ℕ) (m : Io A) {a : A}
    → run_at file p m ≡ ok a
    → (c : Cursor) × (m (record { bytes = file; pos = p }) ≡ ok (a, c))
run_at-inv file p m {a} h = elim (ZipResult-cases (m (record { bytes = file; pos = p }))) [
  | inl ((b, c), e) ↦ (c, e ∙ ap (λ r. lift r c) (sym (run_at-ok file p m e) ∙ h))
  | inr (x, e) ↦ absurd (cc (run_at-err file p m e))
]

-- `read` into a buffer of `n` bytes: what is left, up to that many.
unfoldable pub read : ℕ → Io (List ℕ)
read n c = ok (take n (remaining c), advance (length (take n (remaining c))) c)
