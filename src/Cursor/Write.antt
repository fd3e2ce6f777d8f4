-- ===== src/Cursor/Write.antt =====
-- What `write_all` leaves in the file.
use native.Mathlib.Nat.{zero-add}
use zip.Prelude.{
  ℕ, zero, suc, ◌+◌, ◌-◌, ◌≤◌, ◌≡◌, refl, sym, ap, ◌∙◌, arith, List, [], ◌∷◌, ◌++◌, length, drop,
  drop-nil, length-append, drop-append_length,
}
use zip.Result.{ok}
use zip.Cursor.{Cursor, ◌>>◌, overwrite, wrote, write_all}

zero-overwrite : (xs bytes : List ℕ) → overwrite zero xs bytes ≡ xs ++ drop (length xs) bytes
unfolding overwrite
zero-overwrite [] bytes = refl
zero-overwrite (x ∷ xs) [] =
    ap (λ l. x ∷ l) (zero-overwrite xs [] ∙ ap (λ l. xs ++ l) (sym (drop-nil (length xs))))
zero-overwrite (x ∷ xs) (b ∷ bytes) = ap (λ l. x ∷ l) (zero-overwrite xs bytes)

drop-overwrite-zero :
    (p : ℕ) (xs bytes : List ℕ) → drop p (overwrite p xs bytes) ≡ overwrite zero xs (drop p bytes)
unfolding overwrite
drop-overwrite-zero zero xs bytes = refl
drop-overwrite-zero (suc p) xs [] =
    drop-overwrite-zero p xs [] ∙ ap (λ l. overwrite zero xs l) (sym (drop-nil p))
drop-overwrite-zero (suc p) xs (b ∷ bytes) = drop-overwrite-zero p xs bytes

-- Where bytes were written they stand, with what stood behind them.
pub drop-overwrite :
    (p : ℕ) (xs bytes : List ℕ)
    → drop p (overwrite p xs bytes) ≡ xs ++ drop (length xs) (drop p bytes)
drop-overwrite p xs bytes = drop-overwrite-zero p xs bytes ∙ zero-overwrite xs (drop p bytes)

shift_suc : (p n : ℕ) → suc p + n ≡ suc (p + n)
shift_suc p n = omega arith

overwrite_next :
    (xs ys bytes : List ℕ)
    → overwrite (length xs) ys (overwrite zero xs bytes) ≡ overwrite zero (xs ++ ys) bytes
unfolding overwrite
overwrite_next [] ys bytes = refl
overwrite_next (x ∷ xs) ys bytes = ap (λ l. x ∷ l) (overwrite_next xs ys (drop 1 bytes))

overwrite-append :
    (p : ℕ) (xs ys bytes : List ℕ)
    → overwrite (p + length xs) ys (overwrite p xs bytes) ≡ overwrite p (xs ++ ys) bytes
unfolding overwrite
overwrite-append zero xs ys bytes =
    ap (λ n. overwrite n ys (overwrite zero xs bytes)) (zero-add (length xs))
    ∙ overwrite_next xs ys bytes
overwrite-append (suc p) xs ys [] =
    ap (λ n. overwrite n ys (0 ∷ overwrite p xs [])) (shift_suc p (length xs))
    ∙ ap (λ l. 0 ∷ l) (overwrite-append p xs ys [])
overwrite-append (suc p) xs ys (b ∷ bytes) =
    ap (λ n. overwrite n ys (b ∷ overwrite p xs bytes)) (shift_suc p (length xs))
    ∙ ap (λ l. b ∷ l) (overwrite-append p xs ys bytes)

pub wrote-append : (xs ys : List ℕ) (c : Cursor) → wrote ys (wrote xs c) ≡ wrote (xs ++ ys) c
wrote-append xs ys c =
    λ i. record { bytes = overwrite-append c.pos xs ys c.bytes i; pos = same_end i }
  where
    same_end : c.pos + length xs + length ys ≡ c.pos + length (xs ++ ys)
    same_end = omega (arith, length-append xs ys)

-- Two writes in a row are one write.
pub write_all-append :
    (xs ys : List ℕ) (c : Cursor) → (write_all xs >> write_all ys) c ≡ write_all (xs ++ ys) c
unfolding write_all
write_all-append xs ys c = ap (λ d. ok (tt, d)) (wrote-append xs ys c)

-- At the end of the file, a write appends.
pub overwrite_end : (bytes xs : List ℕ) → overwrite (length bytes) xs bytes ≡ bytes ++ xs
unfolding overwrite
overwrite_end [] [] = refl
overwrite_end [] (x ∷ xs) = ap (λ l. x ∷ l) (overwrite_end [] xs)
overwrite_end (b ∷ bytes) xs = ap (λ l. b ∷ l) (overwrite_end bytes xs)

-- With no bytes nothing is written, at a place in the file.
overwrite-nil : (p : ℕ) (bytes : List ℕ) → p ≤ length bytes → overwrite p [] bytes ≡ bytes
unfolding overwrite
overwrite-nil zero bytes h = refl
overwrite-nil (suc p) [] h = absurd (omega arith)
overwrite-nil (suc p) (b ∷ bytes) h = ap (λ l. b ∷ l) (overwrite-nil p bytes (omega arith))

pub wrote-nil : (c : Cursor) → c.pos ≤ length c.bytes → wrote [] c ≡ c
wrote-nil c h = λ i. record { bytes = overwrite-nil c.pos c.bytes h i; pos = same i }
  where
    same : c.pos + 0 ≡ c.pos
    same = omega arith

drop-overwrite_behind :
    (k p : ℕ) (xs bytes : List ℕ)
    → drop k (overwrite (k + p) xs bytes) ≡ overwrite p xs (drop k bytes)
unfolding overwrite
drop-overwrite_behind zero p xs bytes = ap (λ n. overwrite n xs bytes) (zero-add p)
drop-overwrite_behind (suc k) p xs [] =
    ap (λ n. drop (suc k) (overwrite n xs [])) (shift_suc k p)
    ∙ drop-overwrite_behind k p xs []
    ∙ ap (λ l. overwrite p xs l) (sym (drop-nil k))
drop-overwrite_behind (suc k) p xs (b ∷ bytes) =
    ap (λ n. drop (suc k) (overwrite n xs (b ∷ bytes))) (shift_suc k p)
    ∙ drop-overwrite_behind k p xs bytes

overwrite_after :
    (q : ℕ) (xs ys rest : List ℕ)
    → overwrite (length ys + q) xs (ys ++ rest) ≡ ys ++ overwrite q xs rest
unfolding overwrite
overwrite_after q xs [] rest = ap (λ n. overwrite n xs rest) (zero-add q)
overwrite_after q xs (y ∷ ys) rest =
    ap (λ n. overwrite n xs (y ∷ (ys ++ rest))) (shift_suc (length ys) q)
    ∙ ap (λ l. y ∷ l) (overwrite_after q xs ys rest)

-- What stands before the place of a write stays there.
pub drop-overwrite_before :
    (k p : ℕ) (xs ys rest bytes : List ℕ)
    → k + length ys ≤ p
    → drop k bytes ≡ ys ++ rest
    → drop k (overwrite p xs bytes) ≡ ys ++ overwrite (p - (k + length ys)) xs rest
drop-overwrite_before k p xs ys rest bytes le stands =
    ap (λ n. drop k (overwrite n xs bytes)) split
    ∙ drop-overwrite_behind k (length ys + (p - (k + length ys))) xs bytes
    ∙ ap (λ l. overwrite (length ys + (p - (k + length ys))) xs l) stands
    ∙ overwrite_after (p - (k + length ys)) xs ys rest
  where
    split : p ≡ k + (length ys + (p - (k + length ys)))
    split = omega arith

-- As many bytes as stood there are replaced, and the others stay.
pub overwrite_same :
    (k : ℕ) (ps xs ys rest bytes : List ℕ)
    → length xs ≡ length ys
    → drop k bytes ≡ ps ++ (ys ++ rest)
    → drop k (overwrite (k + length ps) xs bytes) ≡ ps ++ (xs ++ rest)
overwrite_same k ps xs ys rest bytes same stands =
    drop-overwrite_behind k (length ps) xs bytes
    ∙ ap (overwrite (length ps) xs) stands
    ∙ ap (λ n. overwrite n xs (ps ++ (ys ++ rest))) (sym (add-zero (length ps)))
    ∙ overwrite_after zero xs ps (ys ++ rest)
    ∙ ap (λ l. ps ++ l)
        (zero-overwrite xs (ys ++ rest)
          ∙ ap (λ n. xs ++ drop n (ys ++ rest)) same
          ∙ ap (λ l. xs ++ l) (drop-append_length ys rest))
  where
    add-zero : (n : ℕ) → n + zero ≡ n
    add-zero n = omega arith

overwrite_twice_here :
    (ps xs ys rest bytes : List ℕ)
    → length xs ≡ length ys
    → overwrite (length ps) xs (overwrite zero (ps ++ (ys ++ rest)) bytes)
      ≡ overwrite zero (ps ++ (xs ++ rest)) bytes
unfolding overwrite
overwrite_twice_here [] [] [] rest bytes h = overwrite_next [] [] _
overwrite_twice_here [] [] (y ∷ ys) rest bytes h = absurd (omega arith)
overwrite_twice_here [] (x ∷ xs) [] rest bytes h = absurd (omega arith)
overwrite_twice_here [] (x ∷ xs) (y ∷ ys) rest bytes h =
    ap (λ l. x ∷ l) (overwrite_twice_here [] xs ys rest (drop 1 bytes) (omega arith))
overwrite_twice_here (p ∷ ps) xs ys rest bytes h =
    ap (λ l. p ∷ l) (overwrite_twice_here ps xs ys rest (drop 1 bytes) h)

-- What is written over a part of what was just written might have been written at once.
pub overwrite_twice :
    (p : ℕ) (ps xs ys rest bytes : List ℕ)
    → length xs ≡ length ys
    → overwrite (p + length ps) xs (overwrite p (ps ++ (ys ++ rest)) bytes)
      ≡ overwrite p (ps ++ (xs ++ rest)) bytes
unfolding overwrite
overwrite_twice zero ps xs ys rest bytes h =
    ap (λ n. overwrite n xs (overwrite zero (ps ++ (ys ++ rest)) bytes)) (zero-add (length ps))
    ∙ overwrite_twice_here ps xs ys rest bytes h
overwrite_twice (suc p) ps xs ys rest [] h =
    ap (λ n. overwrite n xs (0 ∷ overwrite p (ps ++ (ys ++ rest)) [])) (shift_suc p (length ps))
    ∙ ap (λ l. 0 ∷ l) (overwrite_twice p ps xs ys rest [] h)
overwrite_twice (suc p) ps xs ys rest (b ∷ bytes) h =
    ap (λ n. overwrite n xs (b ∷ overwrite p (ps ++ (ys ++ rest)) bytes)) (shift_suc p (length ps))
    ∙ ap (λ l. b ∷ l) (overwrite_twice p ps xs ys rest bytes h)

-- A place in the file stays in it, and so does the end of what was written.
pub overwrite_reaches : (p : ℕ) (xs bytes : List ℕ) → p + length xs ≤ length (overwrite p xs bytes)
unfolding overwrite
overwrite_reaches zero [] bytes = omega arith
overwrite_reaches zero (x ∷ xs) bytes = omega (arith, overwrite_reaches zero xs (drop 1 bytes))
overwrite_reaches (suc p) xs [] = omega (arith, overwrite_reaches p xs [])
overwrite_reaches (suc p) xs (b ∷ bytes) = omega (arith, overwrite_reaches p xs bytes)
