-- ===== src/Read/Content/Whole.antt =====
-- src/read.rs: the content of an entry, read part by part through its decryption and the test of its
-- checksum.
use zip.Prelude.{
  ℕ, ◌≤◌, ◌≡◌, ◌≢◌, ◌⊎◌, inl, inr, refl, sym, ap, ◌∙◌, arith, Option, none, some, List, [], ◌∷◌,
  ◌++◌, length, All, length-append,
}
use zip.Result.{ZipResult, ok, err}
use zip.Crc32.{IoResult, done, Crc32Reader}
use zip.Crc32
use zip.Crc32.Checked.{IsHashing}
use zip.Crc32.Whole.{Part, Yields, IsChecked, Yields-read}
use zip.Read.Content.{
  Crates, ZipFileReader, ZipFile, read_from, read_file, get_reader, and_kind, read_ready,
  with_reader,
}

module _ (K : Crates) where
  open K use {crypto, hashing}

  abbrev pub Outcome : Type 0
  Outcome = Option (ZipResult (List ℕ) × ZipFile K)

  abbrev pub and_more : List ℕ → Outcome → Outcome
  and_more bytes none = none
  and_more bytes (some (ok more, f)) = some (ok (bytes ++ more), f)
  and_more bytes (some (err e, f)) = some (err e, f)

  abbrev pub and_then : Outcome → (ZipFile K → Outcome) → Outcome
  and_then none later = none
  and_then (some (ok bytes, f)) later = and_more bytes (later f)
  and_then (some (err e, f)) later = some (err e, f)

  -- One read after another, into buffers of some lengths, until one fails: all that they give.
  unfoldable pub reads : List ℕ → ZipFile K → Outcome
  reads [] f = some (ok [], f)
  reads (n ∷ ns) f = and_then (read_file K f n) (λ f'. reads ns f')

  -- The readers of one kind, behind the test of the checksum.
  module _ {R : Type 0} (inner_read : R → ℕ → IoResult (List ℕ) × R)
      (kind : Crc32Reader hashing R inner_read → ZipFileReader K)
      (of_kind : (r : Crc32Reader hashing R inner_read) (n : ℕ)
        → read_from K (kind r) n ≡ some (and_kind K kind (Crc32.read hashing R inner_read r n)))
      (there : (f : ZipFile K) (r : Crc32Reader hashing R inner_read)
        → get_reader K (record f { reader = kind r }) ≡ some (ok tt, record f { reader = kind r }))
      (P : R → List ℕ → Type 0) (law : IsHashing hashing) (yields : Yields inner_read P) where
    one :
        (f : ZipFile K) (r : Crc32Reader hashing R inner_read) (text : List ℕ) (n : ℕ)
        (p : Part (Crc32.read hashing R inner_read) (IsChecked hashing R inner_read P) r text n)
        → read_file K (record f { reader = kind r }) n
          ≡ some (ok p.given, record f { reader = kind p.after })
    unfolding read_file
    one f r text n p =
        ap (λ g. read_ready K g n) (there f r)
        ∙ ap (λ g. with_reader K g (record f { reader = kind r }))
            (of_kind r n ∙ ap (λ x. some (and_kind K kind x)) p.reads)

    pub reads_kind :
        (ns : List ℕ) (f : ZipFile K) (r : Crc32Reader hashing R inner_read) (text : List ℕ)
        → IsChecked hashing R inner_read P r text
        → All (λ n. n ≢ 0) ns
        → length text ≤ length ns
        → (f' : ZipFile K) × (reads ns (record f { reader = kind r }) ≡ some (ok text, f'))
    unfolding reads
    reads_kind [] f r [] c nonzero enough = (record f { reader = kind r }, refl)
    reads_kind [] f r (b ∷ bs) c nonzero enough = absurd (omega arith)
    reads_kind (n ∷ ns) f r text c (nonzero, others) enough =
        let p = Yields-read hashing R inner_read P law yields r text n c in
        let (f', later) =
          reads_kind ns f p.after p.rest p.goes_on others (shorter p.given p.rest p.parts p.ends) in
        (
          f',
          ap (λ o. and_then o (λ g. reads ns g)) (one f r text n p)
              ∙ ap (and_more p.given) later
              ∙ ap (λ l. some (ok l, f')) (sym p.parts),
        )
      where
        shorter :
            (given rest : List ℕ)
            → text ≡ given ++ rest
            → (given ≡ [] → (n ≡ 0) ⊎ (text ≡ []))
            → length rest ≤ length ns
        shorter [] rest parts ends = elim (ends refl) [
          | inl e ↦ absurd (nonzero e)
          | inr e ↦ omega (arith, ap length parts, ap length e)
        ]
        shorter (b ∷ bs) rest parts ends =
            omega (arith, ap length parts, length-append (b ∷ bs) rest)
