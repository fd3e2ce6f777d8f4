-- ===== src/Types/ExtraFields/Readers.antt =====
-- src/extra_fields: the two fields are read from the bytes that the format gives them.
use zip.Prelude.{
  ℕ, ◌+◌, ◌*◌, ◌^◌, ◌<◌, ◌≡◌, ◌⊎◌, inl, inr, refl, sym, subst, arith, Bool, true, Option, none,
  some, List, [], ◌∷◌, ◌++◌, length,
}
use zip.Result.{ok}
use zip.LittleEndian.{to_le_bytes}
use zip.Cursor.{Cursor, remaining, advance, Io, ◌>>=◌, pure, lift, read_exact, read_le}
use zip.Cursor.Codec.{Reads, Reads-pure, Reads->>=, Reads-last, Reads-read_exact, Reads-read_le}
use zip.Types.File.{ExtendedTimestamp, is_some}
use zip.Types.ExtraFields.{
  read_if, timestamps, extended_timestamp_from, UnicodeExtraField, unicode_extra_field_from,
  content_len,
}

-- A time as it lies in the field, and whether it has 4 bytes.
abbrev pub time_bytes : Option ℕ → List ℕ
time_bytes none = []
time_bytes (some n) = to_le_bytes 4 n

abbrev pub bit_of : Option ℕ → ℕ
bit_of none = 0
bit_of (some n) = 1

abbrev pub IsU32 : Option ℕ → Type 0
IsU32 none = Unit
IsU32 (some n) = n < 256 ^ 4

-- The flags of the times that are there.
abbrev pub flags_of : ExtendedTimestamp → ℕ
flags_of t = bit_of t.mod_time + 2 * bit_of t.ac_time + 4 * bit_of t.cr_time

abbrev pub len_of : ExtendedTimestamp → ℕ
len_of t = 1 + 4 * (bit_of t.mod_time + bit_of t.ac_time + bit_of t.cr_time)

abbrev pub field_bytes : ExtendedTimestamp → List ℕ
field_bytes t =
    (flags_of t ∷ []) ++ (time_bytes t.mod_time ++ (time_bytes t.ac_time ++ time_bytes t.cr_time))

Reads-read_if : (o : Option ℕ) → IsU32 o → Reads (read_if (is_some o)) (time_bytes o) o
Reads-read_if none h = Reads-pure none
Reads-read_if (some n) h = Reads-last (read_le 4) some (to_le_bytes 4 n) (Reads-read_le 4 n h)

-- The three reads, without the tests of the flags.
three : Bool → Bool → Bool → Io ExtendedTimestamp
three m a c = do
  mod_time ← read_if m
  ac_time ← read_if a
  cr_time ← read_if c
  pure (record { mod_time = mod_time; ac_time = ac_time; cr_time = cr_time })

timestamps-three :
    (m a c : Option ℕ)
    → (is_some m ≡ true) ⊎ (is_some a ≡ is_some c)
    → timestamps
        (flags_of (record { mod_time = m; ac_time = a; cr_time = c }))
        (len_of (record { mod_time = m; ac_time = a; cr_time = c }))
      ≡ three (is_some m) (is_some a) (is_some c)
unfolding timestamps three
timestamps-three none none none h = refl
timestamps-three none none (some z) (inl h) = absurd (cc)
timestamps-three none none (some z) (inr h) = absurd (cc)
timestamps-three none (some y) none (inl h) = absurd (cc)
timestamps-three none (some y) none (inr h) = absurd (cc)
timestamps-three none (some y) (some z) h = refl
timestamps-three (some x) none none h = refl
timestamps-three (some x) none (some z) h = refl
timestamps-three (some x) (some y) none h = refl
timestamps-three (some x) (some y) (some z) h = refl

-- A field of the form that the format gives, wherever it stands, one byte of flags and the times that they name, is read
-- as those times, if it has the modification time or the other two are both there or both missing.
pub extended_timestamp_from_lem :
    (t : ExtendedTimestamp) (c : Cursor) (rest : List ℕ)
    → IsU32 t.mod_time
    → IsU32 t.ac_time
    → IsU32 t.cr_time
    → (is_some t.mod_time ≡ true) ⊎ (is_some t.ac_time ≡ is_some t.cr_time)
    → remaining c ≡ field_bytes t ++ rest
    → extended_timestamp_from (len_of t) c ≡ ok (t, advance (length (field_bytes t)) c)
unfolding extended_timestamp_from three
extended_timestamp_from_lem t c rest hm ha hc form stands =
    Reads->>= (read_exact 1) _ (flags_of t ∷ []) _ (Reads-read_exact (flags_of t ∷ []) 1 refl)
      (subst
        (λ m. Reads m (time_bytes t.mod_time ++ (time_bytes t.ac_time ++ time_bytes t.cr_time)) t)
        (sym (timestamps-three t.mod_time t.ac_time t.cr_time form))
        (Reads->>= (read_if (is_some t.mod_time)) _ (time_bytes t.mod_time) _
          (Reads-read_if t.mod_time hm)
          (Reads->>= (read_if (is_some t.ac_time)) _ (time_bytes t.ac_time) _
            (Reads-read_if t.ac_time ha)
            (Reads-last (read_if (is_some t.cr_time)) _ (time_bytes t.cr_time)
              (Reads-read_if t.cr_time hc)))))
      c rest stands

-- A Unicode field of the form that the format gives, wherever it stands, a version byte, a checksum and the text, is read
-- as that checksum and that text.
pub unicode_extra_field_from_lem :
    (version : ℕ) (u : UnicodeExtraField) (c : Cursor) (rest : List ℕ)
    → u.crc32 < 256 ^ 4
    → remaining c ≡ ((version ∷ []) ++ (to_le_bytes 4 u.crc32 ++ u.content)) ++ rest
    → unicode_extra_field_from (5 + length u.content) c
      ≡ ok (u, advance (length ((version ∷ []) ++ (to_le_bytes 4 u.crc32 ++ u.content))) c)
unfolding unicode_extra_field_from
unicode_extra_field_from_lem version u c rest h stands =
    Reads->>= (read_exact 1) _ (version ∷ []) _ (Reads-read_exact (version ∷ []) 1 refl)
      (Reads->>= (read_le 4) _ (to_le_bytes 4 u.crc32) u.content (Reads-read_le 4 u.crc32 h) (
        subst (λ r. Reads (lift r >>= text) u.content u) (sym (has_text (length u.content)))
          (Reads-last (read_exact (length u.content)) with_text u.content
            (Reads-read_exact u.content (length u.content) refl))))
      c rest stands
  where
    with_text : List ℕ → UnicodeExtraField
    with_text content = record { crc32 = u.crc32; content = content }

    text : ℕ → Io UnicodeExtraField
    text n = do content ← read_exact n; pure (with_text content)

    has_text : (n : ℕ) → content_len (5 + n) ≡ ok n
    has_text n = ground arith
