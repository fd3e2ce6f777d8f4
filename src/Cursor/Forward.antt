-- ===== src/Cursor/Forward.antt =====
-- Operations on a file that do not go back. `Forward n m`: where `m` succeeds, it has gone at least
-- `n` bytes ahead.
use zip.Prelude.{ℕ, ◌+◌, ◌≤◌, ◌≡◌, arith, Bool, true, false, if◌then◌else◌}
use zip.LittleEndian.{from_le_bytes}
use zip.Result.{ZipResult, ok, err, ZipError}
use zip.Cursor.{Cursor, Io, ◌>>=◌, pure, throw, lift, read_exact, read_le, read_exact_inv, bind_inv}

abbrev pub Forward : {A : Type 0} → ℕ → Io A → Type 0
Forward {A} n m = (c : Cursor) (a : A) (c' : Cursor) → m c ≡ ok (a, c') → c.pos + n ≤ c'.pos

pub Forward-pure : {A : Type 0} (a : A) → Forward 0 (pure a)
Forward-pure a c b c' e = ground arith

pub Forward-throw : {A : Type 0} (e : ZipError) → Forward {A = A} 0 (throw e)
Forward-throw e c b c' h = absurd (cc)

pub Forward-lift : {A : Type 0} (r : ZipResult A) → Forward 0 (lift r)
Forward-lift (ok a) = Forward-pure a
Forward-lift (err e) = Forward-throw e

pub Forward-if :
    {A : Type 0} (n : ℕ) (b : Bool) {m k : Io A}
    → Forward n m
    → Forward n k
    → Forward n (if b then m else k)
Forward-if n true first second = first
Forward-if n false first second = second

pub Forward->>= :
    {A B : Type 0} (n k : ℕ) {m : Io A} {f : A → Io B}
    → Forward n m
    → ((a : A) → Forward k (f a))
    → Forward (n + k) (m >>= f)
Forward->>= n k {m} {f} first second c b c'' h =
    let (a, c', e, e') = bind_inv m f c b c'' h in
    let le = first c a c' e in let le' = second a c' b c'' e' in omega arith

pub Forward-read_exact : (n : ℕ) → Forward n (read_exact n)
Forward-read_exact n c a c' e = let (_, at, _) = read_exact_inv n c e in ground (arith, at)

pub Forward-read_le : (w : ℕ) → Forward w (read_le w)
unfolding read_le
Forward-read_le w c a c' e =
    let le =
      Forward->>= w 0 (Forward-read_exact w) (λ bs. Forward-pure (from_le_bytes bs)) c a c' e in
    omega arith

pub Forward-then :
    {A B : Type 0} (n : ℕ) (m : Io A) {f : A → Io B}
    → Forward n m
    → ((a : A) → Forward 0 (f a))
    → Forward 0 (m >>= f)
Forward-then n m {f} first second c b c'' h =
    let le = Forward->>= n 0 {m = m} {f = f} first second c b c'' h in omega arith
