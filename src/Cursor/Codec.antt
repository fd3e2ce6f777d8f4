-- ===== src/Cursor/Codec.antt =====
-- Operations on a file by the bytes that they read or write. `Reads m xs a`: wherever `xs` stands,
-- `m` gives `a` and goes to the end of `xs`. `Writes m xs`: `m` writes `xs` at the position.
use zip.Prelude.{
  take-append_length, ℕ, ◌+◌, ◌^◌, ◌<◌, ◌≡◌, refl, sym, ap, ◌∙◌, arith, List, [], ◌++◌, length,
  drop, append_assoc, length-append,
}
use zip.Result.{ZipResult, ok}
use zip.LittleEndian.{to_le_bytes, from_le_bytes, length-to_le_bytes, from_le_bytes-to_le_bytes}
use zip.Cursor.{
  Cursor, Io, ◌>>=◌, ◌>>◌, pure, lift, read, read_exact, read_le, remaining, advance, wrote,
  write_all, bind_ok, read_exact-append, remaining-advance,
}
use zip.Cursor.Write.{drop-overwrite, wrote-append}

abbrev pub Reads : {A : Type 0} → Io A → List ℕ → A → Type 0
Reads m xs a =
    (c : Cursor) (rest : List ℕ) → remaining c ≡ xs ++ rest → m c ≡ ok (a, advance (length xs) c)

abbrev pub Writes : Io (Unit {0}) → List ℕ → Type 0
Writes m xs = (c : Cursor) → m c ≡ ok (tt, wrote xs c)

pub Reads-pure : {A : Type 0} (a : A) → Reads (pure a) [] a
Reads-pure a c rest h = λ i. ok (a, record c { pos = same i })
  where
    same : c.pos ≡ c.pos + 0
    same = omega arith

pub Reads->>= :
    {A B : Type 0} (m : Io A) (f : A → Io B) (xs ys : List ℕ) {a : A} {b : B}
    → Reads m xs a
    → Reads (f a) ys b
    → Reads (m >>= f) (xs ++ ys) b
Reads->>= m f xs ys {a} {b} first second c rest h =
    bind_ok m f c (first c (ys ++ rest) stands)
    ∙ second (advance (length xs) c) rest
        (remaining-advance c xs (ys ++ rest) (length xs) refl stands)
    ∙ λ i. ok (b, record c { pos = end i })
  where
    stands : remaining c ≡ xs ++ (ys ++ rest)
    stands = h ∙ append_assoc xs ys rest

    end : c.pos + length xs + length ys ≡ c.pos + length (xs ++ ys)
    end = omega (arith, length-append xs ys)

-- Where nothing is left to read.
pub Reads-last :
    {A B : Type 0} (m : Io A) (f : A → B) (xs : List ℕ) {a : A}
    → Reads m xs a
    → Reads (m >>= λ x. pure (f x)) xs (f a)
Reads-last m f xs {a} first c rest h = bind_ok m (λ x. pure (f x)) c (first c rest h)

-- Where what follows does not move.
pub Reads-then :
    {A B : Type 0} (m : Io A) (f : A → Io B) (xs : List ℕ) {a : A} {b : B}
    → Reads m xs a
    → ((c : Cursor) → f a c ≡ ok (b, c))
    → Reads (m >>= f) xs b
Reads-then m f xs first stays c rest h =
    bind_ok m f c (first c rest h) ∙ stays (advance (length xs) c)

-- A read whose bytes are then checked.
pub Reads-lift :
    {A B : Type 0} (m : Io A) (f : A → ZipResult B) (xs : List ℕ) {a : A} {b : B}
    → Reads m xs a
    → f a ≡ ok b
    → Reads (m >>= λ x. lift (f x)) xs b
Reads-lift m f xs {a} {b} first checked c rest h =
    bind_ok m (λ x. lift (f x)) c (first c rest h)
    ∙ ap (λ r. lift r (advance (length xs) c)) checked

pub Reads-read : (xs : List ℕ) (n : ℕ) → length xs ≡ n → Reads (read n) xs xs
unfolding read
Reads-read xs n e c rest h =
    rw (h, ← e) (ap (λ l. ok (l, advance (length l) c)) (take-append_length xs rest))

pub Reads-read_exact : (xs : List ℕ) (n : ℕ) → length xs ≡ n → Reads (read_exact n) xs xs
Reads-read_exact xs n e c rest h =
    ap (λ k. read_exact k c) (sym e) ∙ read_exact-append c xs rest (length xs) refl h

pub Reads-read_le : (w n : ℕ) → n < 256 ^ w → Reads (read_le w) (to_le_bytes w n) n
unfolding read_le
Reads-read_le w n h c rest stands =
    Reads-last (read_exact w) from_le_bytes (to_le_bytes w n)
      (Reads-read_exact (to_le_bytes w n) w (length-to_le_bytes w n)) c rest stands
    ∙ ap (λ v. ok (v, advance (length (to_le_bytes w n)) c)) (from_le_bytes-to_le_bytes w n h)

pub Writes-write_all : (xs : List ℕ) → Writes (write_all xs) xs
unfolding write_all
Writes-write_all xs c = refl

pub Writes->> :
    (m k : Io (Unit {0})) (xs ys : List ℕ) → Writes m xs → Writes k ys → Writes (m >> k) (xs ++ ys)
Writes->> m k xs ys first second c =
    bind_ok m (λ _. k) c (first c)
    ∙ second (wrote xs c)
    ∙ ap (λ d. ok (tt, d)) (wrote-append xs ys c)

-- What `m` writes, `k` reads back from where it began.
pub write_then_read :
    {A : Type 0} (m : Io (Unit {0})) (k : Io A) (xs : List ℕ) {a : A} (c : Cursor)
    → Writes m xs
    → Reads k xs a
    → (c' : Cursor) × (m c ≡ ok (tt, c')) × (k (record c' { pos = c.pos }) ≡ ok (a, c'))
write_then_read m k xs c writes reads = (
  wrote xs c,
  writes c,
  reads (record (wrote xs c) { pos = c.pos }) (drop (length xs) (remaining c))
      (drop-overwrite c.pos xs c.bytes),
)
