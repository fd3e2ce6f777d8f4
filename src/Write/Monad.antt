-- ===== src/Write/Monad.antt =====
-- How the code of src/write.rs runs on its file: a panic is `none`; what was written stays written
-- after an error. The file is in memory, so that its own operations do not fail.
use zip.Prelude.{ℕ, ◌≡◌, ◌∙◌, ap, List, ◌++◌, length, Option, none, some}
use zip.Result.{ZipError, ZipResult, ok, err}
use zip.Cursor.{Cursor, wrote}
use zip.Cursor.Write.{wrote-append}

abbrev pub Writer : Type 0 → Type 0
Writer A = Cursor → Option (ZipResult A × Cursor)

infixl 5 ◌>>=◌ ◌>>◌
abbrev pub ◌>>=◌ : {A B : Type 0} → Writer A → (A → Writer B) → Writer B
◌>>=◌ m k c = elim (m c) [
  | none ↦ none
  | some (r, c') ↦ elim r [ ok a ↦ k a c' | err e ↦ some (err e, c') ]
]

abbrev pub ◌>>◌ : {A B : Type 0} → Writer A → Writer B → Writer B
m >> k = m >>= λ _. k

abbrev pub pure : {A : Type 0} → A → Writer A
pure a c = some (ok a, c)

abbrev pub throw : {A : Type 0} → ZipError → Writer A
throw e c = some (err e, c)

-- `unwrap`, and a fallible step whose panic is a `none`.
abbrev pub unwrap : {A : Type 0} → Option A → Writer A
unwrap none c = none
unwrap (some a) c = some (ok a, c)

abbrev pub attempt : {A : Type 0} → Option (ZipResult A) → Writer A
attempt none c = none
attempt (some r) c = some (r, c)

abbrev pub write_bytes : List ℕ → Writer (Unit {0})
write_bytes xs c = some (ok tt, wrote xs c)

-- `seek` from the start, `stream_position`, and the place that `seek` gives at the end.
abbrev pub seek_start : ℕ → Writer (Unit {0})
seek_start p c = some (ok tt, record c { pos = p })

abbrev pub stream_position : Writer ℕ
stream_position c = some (ok c.pos, c)

abbrev pub seek_end : Writer ℕ
seek_end c = some (ok (length c.bytes), record c { pos = length c.bytes })

module _ {A B : Type 0} (m : Writer A) (k : A → Writer B) (c : Cursor) where
  pub bind_ok : {a : A} {c' : Cursor} → m c ≡ some (ok a, c') → (m >>= k) c ≡ k a c'
  bind_ok h = rw (h, ◌>>=◌)

-- `m` writes `xs` at the position, and gives `a`.
abbrev pub Writes : {A : Type 0} → Writer A → List ℕ → A → Type 0
Writes m xs a = (c : Cursor) → m c ≡ some (ok a, wrote xs c)

pub Writes->>= :
    {A B : Type 0} (m : Writer A) (k : A → Writer B) (xs ys : List ℕ) {a : A} {b : B}
    → Writes m xs a
    → Writes (k a) ys b
    → Writes (m >>= k) (xs ++ ys) b
Writes->>= m k xs ys {a} {b} first second c =
    bind_ok m k c (first c) ∙ second (wrote xs c) ∙ ap (λ d. some (ok b, d)) (wrote-append xs ys c)
