-- ===== src/AesCtr/Stream.antt =====
-- src/aes_ctr.rs: the loop gives each byte the next byte of one key stream, however the target is cut.
use zip.Prelude.{
  ℕ, zero, suc, ◌+◌, ◌-◌, ◌*◌, ◌/◌, ◌^◌, ◌%◌, ◌≤◌, ◌<◌, ◌≡◌, inl, inr, refl, sym, ap, ◌∙◌, subst,
  arith, min, List, [], ◌∷◌, ◌++◌, length, take, drop, length-drop, length-take, take-append-drop,
  bit_xor, get_or, ◌==◌, false, ◌≢◌, Bool-cases, ==_iff,
}
use zip.Bits.{bit_xor_comm, bit_xor_self_inverse}
use zip.LittleEndian.{to_le_bytes, length-to_le_bytes}
use zip.AesCtr.{AesCtrZipKeyStream, new, xor, refill, crypt_loop, crypt_in_place}

module _ (encrypt_block : List ℕ → List ℕ) where
  -- The block that the counter's value makes, and byte `k` of the key stream: blocks 1, 2, 3, ...
  abbrev block_at : ℕ → List ℕ
  block_at counter = encrypt_block (to_le_bytes 16 (counter % 2 ^ 128))

  abbrev pub key_byte : ℕ → ℕ
  key_byte k = get_or (block_at (k / 16 + 1)) (k % 16) 0

  -- The specification: the bytes from place `k` of the key stream on are applied.
  unfoldable pub applied : ℕ → List ℕ → List ℕ
  applied k [] = []
  applied k (b ∷ bs) = bit_xor b (key_byte k) ∷ applied (suc k) bs

  pub applied-append :
      (k : ℕ) (xs ys : List ℕ) → applied k (xs ++ ys) ≡ applied k xs ++ applied (k + length xs) ys
  unfolding applied
  applied-append k [] ys = ap (λ n. applied n ys) (omega arith)
  applied-append k (x ∷ xs) ys =
      ap (λ l. bit_xor x (key_byte k) ∷ l)
        (applied-append (suc k) xs ys ∙ ap (λ n. applied (suc k) xs ++ applied n ys) (omega arith))

  pub length-applied : (k : ℕ) (xs : List ℕ) → length (applied k xs) ≡ length xs
  unfolding applied
  length-applied k [] = refl
  length-applied k (x ∷ xs) = ap suc (length-applied (suc k) xs)

  pub applied_twice : (k : ℕ) (xs : List ℕ) → applied k (applied k xs) ≡ xs
  unfolding applied
  applied_twice k [] = refl
  applied_twice k (x ∷ xs) = rw (applied_twice (suc k) xs) (
      ap (λ b. b ∷ xs)
        (bit_xor_comm (bit_xor x (key_byte k)) (key_byte k)
          ∙ ap (bit_xor (key_byte k)) (bit_xor_comm x (key_byte k))
          ∙ bit_xor_self_inverse (key_byte k) x))

  -- `k` bytes of the stream are used up, and `q` blocks made.
  pub record UsedIn (s : AesCtrZipKeyStream) (k q : ℕ) : Type 0 where
    pub place : k + 16 ≡ q * 16 + s.pos
    pub pos : s.pos ≤ 16
    pub counter : s.counter ≡ (q + 1) % 2 ^ 128
    pub buffer : s.pos < 16 → s.buffer ≡ block_at q

  refilled :
      (s : AesCtrZipKeyStream) (k q : ℕ)
      → UsedIn s k q
      → (q' : ℕ) × UsedIn (refill encrypt_block s) k q' × ((refill encrypt_block s).pos < 16)
  unfolding refill
  refilled s k q u = elim (Bool-cases (s.pos == 16)) [
    | inl e ↦ rw e (
      q + 1,
      record {
        place = omega (arith, (==_iff s.pos 16).0 e, u.place);
        pos = omega arith;
        counter = omega (arith, u.counter);
        buffer = λ h. ap (λ n. encrypt_block (to_le_bytes 16 n)) u.counter;
      },
      omega arith,
    )
    | inr e ↦ rw e (q, u, omega (arith, u.pos, (==_iff s.pos 16).1, rest e))
  ]
    where
      rest : (s.pos == 16) ≡ false → s.pos ≢ 16
      rest e h = absurd (ground arith)

  drop_from :
      (pos : ℕ) (l : List ℕ) → pos < length l → drop pos l ≡ get_or l pos 0 ∷ drop (suc pos) l
  drop_from pos [] h = absurd (omega arith)
  drop_from zero (x ∷ l) h = refl
  drop_from (suc pos) (x ∷ l) h = drop_from pos l (omega arith)

  -- A piece of the target against a piece of block `q`.
  xor_piece :
      (q k pos n : ℕ) (bs : List ℕ)
      → length (block_at q) ≡ 16
      → k + 16 ≡ q * 16 + pos
      → pos + n ≤ 16
      → n ≤ length bs
      → xor (take n bs) (take n (drop pos (block_at q))) ≡ applied k (take n bs)
  unfolding xor applied
  xor_piece q k pos zero bs l at fits short = refl
  xor_piece q k pos (suc n) [] l at fits short = absurd (omega arith)
  xor_piece q k pos (suc n) (b ∷ bs) l at fits short =
      ap (λ t. xor (b ∷ take n bs) (take (suc n) t)) (drop_from pos (block_at q) (omega arith))
      ∙ λ i.
          bit_xor b (byte i)
          ∷ xor_piece q (suc k) (suc pos) n bs l (omega arith) (omega arith) (omega arith) i
    where
      block : k / 16 + 1 ≡ q
      block = omega arith

      place : k % 16 ≡ pos
      place = omega arith

      byte : get_or (block_at q) pos 0 ≡ key_byte k
      byte = λ i. get_or (block_at (sym block i)) (sym place i) 0

  module _ (law : (bs : List ℕ) → length bs ≡ 16 → length (encrypt_block bs) ≡ 16) where
    length-block_at : (q : ℕ) → length (block_at q) ≡ 16
    length-block_at q = law _ (length-to_le_bytes 16 (q % 2 ^ 128))

    crypt_loop_lem :
        (fuel : ℕ) (s : AesCtrZipKeyStream) (target : List ℕ) (k q : ℕ)
        → UsedIn s k q
        → length target ≤ fuel
        → ((crypt_loop encrypt_block fuel s target).0 ≡ applied k target)
          × ((q' : ℕ) × UsedIn (crypt_loop encrypt_block fuel s target).1 (k + length target) q')
    unfolding crypt_loop applied
    crypt_loop_lem zero s [] k q u h = (refl, (q, subst (λ n. UsedIn s n q) (omega arith) u))
    crypt_loop_lem zero s (b ∷ target) k q u h = absurd (omega arith)
    crypt_loop_lem (suc fuel) s [] k q u h = (refl, (q, subst (λ n. UsedIn s n q) (omega arith) u))
    crypt_loop_lem (suc fuel) s (b ∷ target) k q u h =
        let (q', r, room) = refilled s k q u in
        let t = b ∷ target in
        let s' = refill encrypt_block s in
        let n = min (length t) (16 - s'.pos) in
        let next = record s' { pos = s'.pos + n } in
        let moved : UsedIn next (k + n) q' = record {
          place = omega (arith, r.place);
          pos = omega arith;
          counter = r.counter;
          buffer = λ h. r.buffer room;
        } in
        let (same, (q'', used)) =
          crypt_loop_lem fuel next (drop n t) (k + n) q' moved (omega (arith, length-drop n t)) in
        let piece : xor (take n t) (take n (drop s'.pos s'.buffer)) ≡ applied k (take n t) =
          ap (λ l. xor (take n t) (take n (drop s'.pos l))) (r.buffer room)
          ∙ xor_piece q' k s'.pos n t (length-block_at q') r.place (omega arith) (omega arith) in
        let whole : applied k (take n t) ++ applied (k + n) (drop n t) ≡ applied k t =
          ap (λ m. applied k (take n t) ++ applied (k + m) (drop n t))
            (omega (arith, length-take n t))
          ∙ sym (applied-append k (take n t) (drop n t))
          ∙ ap (applied k) (take-append-drop n t) in
        (
          (λ i. piece i ++ same i) ∙ whole,
          (
            q'',
            subst (λ m. UsedIn (crypt_loop encrypt_block (suc fuel) s t).1 m q'')
                (omega (arith, length-drop n t)) used,
          ),
        )

    -- With a cipher that gives 16 bytes for 16, from any place of the key stream, the bytes of a
    -- target of any length are each combined with the next byte of the stream, and the state stands
    -- behind them.
    pub crypt_in_place_lem :
        (s : AesCtrZipKeyStream) (target : List ℕ) (k q : ℕ)
        → UsedIn s k q
        → ((crypt_in_place encrypt_block s target).0 ≡ applied k target)
          × ((q' : ℕ) × UsedIn (crypt_in_place encrypt_block s target).1 (k + length target) q')
    unfolding crypt_in_place
    crypt_in_place_lem s target k q u = crypt_loop_lem (length target) s target k q u (omega arith)

    pub new_used : UsedIn new 0 0
    new_used = record {
      place = refl;
      pos = omega arith;
      counter = refl;
      buffer = λ h. absurd (omega arith);
    }

    -- With a cipher that gives 16 bytes for 16, a target is crypted in two pieces as it is in one,
    -- from any place of the key stream.
    pub crypt_in_place-append :
        (s : AesCtrZipKeyStream) (xs ys : List ℕ) (k q : ℕ)
        → UsedIn s k q
        → (crypt_in_place encrypt_block s (xs ++ ys)).0
          ≡ (crypt_in_place encrypt_block s xs).0
            ++ (crypt_in_place encrypt_block (crypt_in_place encrypt_block s xs).1 ys).0
    crypt_in_place-append s xs ys k q u =
        let (one, (q', after)) = crypt_in_place_lem s xs k q u in
        let (two, _) = crypt_in_place_lem _ ys (k + length xs) q' after in
        (crypt_in_place_lem s (xs ++ ys) k q u).0 ∙ applied-append k xs ys ∙ λ i.
        sym one i ++ sym two i

    -- With a cipher that gives 16 bytes for 16, a new stream with the same key undoes what a new
    -- stream did.
    pub crypt_in_place_twice :
        (text : List ℕ)
        → (crypt_in_place encrypt_block new (crypt_in_place encrypt_block new text).0).0 ≡ text
    crypt_in_place_twice text =
        let (once, _) = crypt_in_place_lem new text 0 0 new_used in
        (crypt_in_place_lem new _ 0 0 new_used).0 ∙ ap (applied 0) once ∙ applied_twice 0 text
