-- ===== src/Read/ExtraField/Progress.antt =====
-- src/read.rs: the loop of `parse_extra_field` comes to its end. `Advances k m`: where `m` succeeds,
-- it has gone at least `k` bytes ahead.
use zip.Prelude.{
  ℕ, zero, suc, ◌+◌, ◌-◌, ◌≤◌, ◌≡◌, refl, sym, ap, ◌∙◌, arith, Bool, true, false, ltb, ge→ltb, not,
  ◌==◌, if◌then◌else◌, Option, some, List, length, take, drop, ◌++◌, inl, inr, Bool-cases,
}
use zip.Result.{ZipResult, ok, err, ZipError, ZipResult-cases}
use zip.Cursor.{Cursor, Io, read_le}
use zip.Cursor.Forward.{Forward, Forward-read_exact, Forward-read_le}
use zip.Types.File.{ZipFileData}
use zip.Types.ExtraFields.Forward.{
  Forward-extended_timestamp_from, Forward-unicode_extra_field_from,
}
use zip.Read.ExtraField.{
  Parser, ◌>>=◌, ◌>>◌, pure, fail, gets, modify, reading, from_result, take_u64, leftover,
  zip64_field, aes_field, timestamp_field, comment_field, path_field, other_field, field_of_kind,
  after_field, stripped, parse_extra_bytes, parse_extra_field, parse_single_extra_field,
  parse_fields,
}

record Advances {A : Type 0} (n : ℕ) (m : Parser A) : Type 0 where
  ahead :
      (f : ZipFileData) (c : Cursor) (a : A) (c' : Cursor)
      → (m f c).0 ≡ ok (a, c')
      → c.pos + n ≤ c'.pos

module _ {A B : Type 0} where
  bind_ok :
      (m : Parser A) (k : A → Parser B) (f : ZipFileData) (c : Cursor) {a : A} {c' : Cursor}
      → (m f c).0 ≡ ok (a, c')
      → ((m >>= k) f c).0 ≡ (k a (m f c).1 c').0
  unfolding ◌>>=◌
  bind_ok m k f c h = rw (h, ◌>>=◌)

  bind_err :
      (m : Parser A) (k : A → Parser B) (f : ZipFileData) (c : Cursor) {e : ZipError}
      → (m f c).0 ≡ err e
      → ((m >>= k) f c).0 ≡ err e
  unfolding ◌>>=◌
  bind_err m k f c h = rw (h, ◌>>=◌)

  bind_inv :
      (m : Parser A) (k : A → Parser B) (f : ZipFileData) (c : Cursor) (b : B) (c'' : Cursor)
      → ((m >>= k) f c).0 ≡ ok (b, c'')
      → (a : A) × (c' : Cursor) × ((m f c).0 ≡ ok (a, c')) × ((k a (m f c).1 c').0 ≡ ok (b, c''))
  bind_inv m k f c b c'' h = elim (ZipResult-cases (m f c).0) [
    | inl ((a, c'), e) ↦ (a, c', e, sym (bind_ok m k f c e) ∙ h)
    | inr (x, e) ↦ absurd (cc (bind_err m k f c e))
  ]

  Advances->>= :
      (j n : ℕ) (m : Parser A) (k : A → Parser B)
      → Advances j m
      → ((a : A) → Advances n (k a))
      → Advances (j + n) (m >>= k)
  Advances->>= j n m k first second = record {
    ahead = λ f c b c'' h.
        let (a, c', e, e') = bind_inv m k f c b c'' h in
        let le = first.ahead f c a c' e in
        let le' = (second a).ahead (m f c).1 c' b c'' e' in omega arith;
  }

  -- The usual case, in which nothing is known of what follows but that it does not go back.
  Advances-then :
      {m : Parser A} {k : A → Parser B}
      → Advances 0 m
      → ((a : A) → Advances 0 (k a))
      → Advances 0 (m >>= k)
  Advances-then {m} {k} first second = Advances->>= 0 0 m k first second

  Advances-reading :
      (n : ℕ) {m : Io A} {k : A → Parser B}
      → Forward n m
      → ((a : A) → Advances 0 (k a))
      → Advances 0 (reading m >>= k)
  unfolding reading
  Advances-reading n {m} {k} first second = record {
    ahead = λ f c b c'' h.
        let (a, c', e, e') = bind_inv (reading m) k f c b c'' h in
        let le = first c a c' e in let le' = (second a).ahead f c' b c'' e' in omega arith;
  }

Advances-gets : {A : Type 0} (g : ZipFileData → A) → Advances 0 (gets g)
unfolding gets
Advances-gets g = record { ahead = λ f c a c' e. ground arith }

Advances-modify : (g : ZipFileData → ZipFileData) → Advances 0 (modify g)
unfolding modify
Advances-modify g = record { ahead = λ f c a c' e. ground arith }

Advances-pure : {A : Type 0} (a : A) → Advances 0 (pure a)
unfolding pure
Advances-pure a = record { ahead = λ f c b c' e. ground arith }

Advances-fail : {A : Type 0} (e : ZipError) → Advances {A = A} 0 (fail e)
unfolding fail
Advances-fail e = record { ahead = λ f c a c' h. absurd (cc) }

Advances-from_result : {A : Type 0} (r : ZipResult A) → Advances 0 (from_result r)
unfolding from_result
Advances-from_result (ok a) = record { ahead = λ f c b c' e. ground arith }
Advances-from_result (err e) = record { ahead = λ f c a c' h. absurd (cc) }

Advances-if :
    {A : Type 0} (b : Bool) {m k : Parser A}
    → Advances 0 m
    → Advances 0 k
    → Advances 0 (if b then m else k)
Advances-if true first second = first
Advances-if false first second = second

Advances-take_u64 :
    (len : ℕ) (number : ZipFileData → ℕ) (before : ZipFileData → ZipFileData)
    (put : ℕ → ZipFileData → ZipFileData)
    → Advances 0 (take_u64 len number before put)
unfolding take_u64
Advances-take_u64 len number before put = Advances-then (Advances-gets _) (λ present.
    elim present
      as (λ p. Advances 0 (elim p as (λ x. Parser ℕ) [
        | true ↦ modify before >> ◌>>=◌ (reading (read_le 8)) (λ v. modify (put v) >> pure 8)
        | false ↦ pure 0
      ])) [
        | true ↦ Advances-then (Advances-modify before) (λ _.
            Advances-reading 8 (Forward-read_le 8)
              (λ v. Advances-then (Advances-modify (put v)) (λ _. Advances-pure 8)))
        | false ↦ Advances-pure 0
      ])

Advances-zip64_field : (len : ℕ) → Advances 0 (zip64_field len)
unfolding zip64_field
Advances-zip64_field len = Advances-then (Advances-take_u64 len _ _ _) (λ a.
    Advances-then (Advances-take_u64 len _ _ _) (λ b.
      Advances-then (Advances-take_u64 len _ _ _) (λ c.
        Advances-then (Advances-from_result (leftover len (a + b + c)))
          (λ n. Advances-reading n (Forward-read_exact n) (λ _. Advances-pure true)))))

Advances-aes_field : (len at : ℕ) → Advances 0 (aes_field len at)
unfolding aes_field
Advances-aes_field len at = Advances-if (not (len == 7)) (Advances-fail _) (
    Advances-reading 2 (Forward-read_le 2) (λ version.
      Advances-reading 2 (Forward-read_le 2) (λ vendor_id.
        Advances-reading 1 (Forward-read_exact 1) (λ out.
          Advances-reading 2 (Forward-read_le 2) (λ method.
            Advances-then (Advances-from_result _) (λ _.
              Advances-then (Advances-from_result _) (λ v.
                Advances-then (Advances-from_result _)
                  (λ mode. Advances-then (Advances-modify _) (λ _. Advances-pure false)))))))))

Advances-timestamp_field : (len : ℕ) → Advances 0 (timestamp_field len)
unfolding timestamp_field
Advances-timestamp_field len =
    Advances-reading 0 (Forward-extended_timestamp_from len)
      (λ t. Advances-then (Advances-modify _) (λ _. Advances-pure false))

Advances-other_field : (len : ℕ) → Advances 0 (other_field len)
unfolding other_field
Advances-other_field len = Advances-reading len (Forward-read_exact len) (λ _. Advances-pure false)

read_le-Advances : (w : ℕ) → Advances w (reading (read_le w))
unfolding reading
read_le-Advances w = record { ahead = λ f c a c' h. Forward-read_le w c a c' h }

after_field-same :
    (extra_field processed : List ℕ) (old_position : ℕ)
    (next next' : List ℕ → Parser (Option (List ℕ))) (r : ZipResult (Bool × Cursor))
    (f : ZipFileData)
    → ((p : List ℕ) (remove : Bool) (c : Cursor) → r ≡ ok (remove, c) → next p f c ≡ next' p f c)
    → after_field extra_field old_position next processed (r, f)
      ≡ after_field extra_field old_position next' processed (r, f)
unfolding after_field
after_field-same ef p at next next' (err e) f h = refl
after_field-same ef p at next next' (ok (false, c)) f h = h p false c refl
after_field-same ef p at next next' (ok (true, c)) f h =
    elim (Bool-cases (length ef - (c.pos - at) == 0)) [
      | inl y ↦ rw (y) (refl)
      | inr n ↦ rw (n) (h (take at ef ++ drop c.pos ef) true c refl)
    ]

module _ (crc32 : List ℕ → ℕ) where
  Advances-comment_field : (len : ℕ) → Advances 0 (comment_field crc32 len)
  unfolding comment_field
  Advances-comment_field len = Advances-reading 0 (Forward-unicode_extra_field_from len) (λ field.
      Advances-then (Advances-gets _) (λ raw. Advances-then (Advances-from_result _) (λ content.
        Advances-then (Advances-from_result _)
          (λ text. Advances-then (Advances-modify _) (λ _. Advances-pure false)))))

  Advances-path_field : (len : ℕ) → Advances 0 (path_field crc32 len)
  unfolding path_field
  Advances-path_field len = Advances-reading 0 (Forward-unicode_extra_field_from len) (λ field.
      Advances-then (Advances-gets _) (λ raw. Advances-then (Advances-from_result _) (λ content.
        Advances-then (Advances-modify _) (λ _.
          Advances-then (Advances-from_result _)
            (λ text. Advances-then (Advances-modify _) (λ _. Advances-pure false))))))

  Advances-field_of_kind :
      (kind len at : ℕ) (disallow : Bool) → Advances 0 (field_of_kind crc32 kind len at disallow)
  unfolding field_of_kind
  Advances-field_of_kind kind len at disallow =
      Advances-if (kind == 0x0001)
        (Advances-if disallow (Advances-fail _) (Advances-zip64_field len))
        (Advances-if (kind == 0x9901) (Advances-aes_field len at) (
          Advances-if (kind == 0x5455) (Advances-timestamp_field len) (
            Advances-if (kind == 0x6375) (Advances-comment_field len)
              (Advances-if (kind == 0x7075) (Advances-path_field len) (Advances-other_field len)))))

  -- A field takes four bytes at least.
  pub parse_single_extra_field_ahead :
      (at : ℕ) (disallow : Bool) (f : ZipFileData) (c : Cursor) (r : Bool) (c' : Cursor)
      → (parse_single_extra_field crc32 at disallow f c).0 ≡ ok (r, c')
      → c.pos + 4 ≤ c'.pos
  unfolding parse_single_extra_field
  parse_single_extra_field_ahead at disallow =
      (Advances->>= 2 2 (reading (read_le 2)) _ (read_le-Advances 2) (λ kind.
        Advances->>= 2 0 (reading (read_le 2)) _ (read_le-Advances 2)
          (λ len. Advances-field_of_kind kind len at disallow))).ahead

  -- At the end of the field the loop is over, whatever fuel is left.
  parse_fields_end :
      (n : ℕ) (extra_field processed : List ℕ) (f : ZipFileData) (c : Cursor)
      → length extra_field ≤ c.pos
      → parse_fields crc32 n extra_field processed f c ≡ (ok (some processed, c), f)
  unfolding parse_fields
  parse_fields_end zero ef p f c h = refl
  parse_fields_end (suc n) ef p f c h = rw (ge→ltb c.pos (length ef) (λ l. omega arith)) (refl)

  parse_fields-fuel :
      (n m : ℕ) (extra_field processed : List ℕ) (f : ZipFileData) (c : Cursor)
      → length extra_field ≤ c.pos + n
      → length extra_field ≤ c.pos + m
      → parse_fields crc32 n extra_field processed f c
        ≡ parse_fields crc32 m extra_field processed f c
  unfolding parse_fields
  parse_fields-fuel zero m ef p f c hn hm = sym (parse_fields_end m ef p f c (omega arith))
  parse_fields-fuel (suc n) zero ef p f c hn hm = parse_fields_end (suc n) ef p f c (omega arith)
  parse_fields-fuel (suc n) (suc m) ef p f c hn hm = elim (Bool-cases (ltb c.pos (length ef))) [
    | inr e ↦ rw (e) (refl)
    | inl e ↦ rw (e) (
        after_field-same ef p c.pos (λ p f c. parse_fields crc32 n ef p f c)
          (λ p f c. parse_fields crc32 m ef p f c)
          (parse_single_extra_field crc32 c.pos false f c).0
          (parse_single_extra_field crc32 c.pos false f c).1
          (λ p' remove c' r.
            let ahead = parse_single_extra_field_ahead c.pos false f c remove c' r in
            parse_fields-fuel n m ef p' (parse_single_extra_field crc32 c.pos false f c).1 c'
              (omega arith) (omega arith)))
  ]

-- The loop of `parse_extra_field` comes to its end: with any fuel that is the length of the extra
-- field at least, `parse_fields` gives the result and the entry that `parse_extra_field` gives, for
-- any checksum and any entry that has an extra field.
pub parse_fields-parse_extra_field :
    (crc32 : List ℕ → ℕ) (f : ZipFileData) (n : ℕ) (extra_field : List ℕ)
    → f.extra_field ≡ some extra_field
    → length extra_field ≤ n
    → parse_extra_field crc32 f
      ≡ stripped
          (parse_fields crc32 n extra_field extra_field f (record { bytes = extra_field; pos = 0 }))
unfolding parse_extra_field
parse_fields-parse_extra_field crc32 f n extra_field h le =
    ap (parse_extra_bytes crc32 f) h
    ∙ ap stripped (
        parse_fields-fuel crc32 (length extra_field) n extra_field extra_field f
          (record { bytes = extra_field; pos = 0 }) (omega arith) (omega arith))
