-- ===== src/Write/Writer/Session/Places.antt =====
-- src/write.rs and src/read.rs: where an entry of a session stands among the others and in the file.
use zip.Prelude.{
  ℕ, zero, suc, ◌+◌, ◌≡◌, refl, sym, ap, ◌∙◌, subst, arith, true, false, Option, some, List, [],
  ◌∷◌, ◌++◌, length, drop, All, get_elem?, append_assoc, length-append, drop-drop,
  drop-append_length, if◌then◌else◌,
}
use mathlib.Core.Option
use zip.Spec.Block.{encode}
use zip.Types.File.{ZipFileData}
use zip.Types.Headers.{zip_local_entry_block}
use zip.Aes.Frame.{same_bytes_refl}
use zip.Read.Archive.{get_index_of}
use zip.Write.State.{Environment}
use zip.Write.Writer.Entry.{new_file, same_name}
use zip.Write.Writer.Stored.{stored_file, stored_header}
use zip.Write.Writer.Stored.Entry.{length-local}
use zip.Write.Writer.Session.{Item, item_bytes, IsDistinct, content_bytes, placed, files_of}
use zip.Write.Writer.Session.ReadBack.{next_stands}

All-get {ℓ} :
    {A : Type ℓ} (P : A → Type 0) (xs : List A) (i : ℕ) {x : A}
    → All P xs
    → get_elem? xs i ≡ some x
    → P x
All-get P [] i h e = absurd (cc)
All-get P (y ∷ ys) zero (h, hs) e = subst P (cc) h
All-get P (y ∷ ys) (suc i) (h, hs) e = All-get P ys i hs e

-- An entry of the session: its place among the others, and where its content stands in the file.
pub record Stands (K : Environment) (file : List ℕ) (files : List ZipFileData) (x : Item) (i : ℕ)
    : Type 0 where
  pub start : ℕ
  pub rest : List ℕ
  pub there : get_elem? files i ≡ some (stored_file K x.name x.time x.permissions x.content start)
  pub content : drop (start + 30 + length x.name) file ≡ x.content ++ rest

module _ (K : Environment) where
  open K use {hashing, default_for_write}

  pub item_content :
      (x : Item) (start : ℕ) (file rest : List ℕ)
      → drop start file ≡ item_bytes K x start ++ rest
      → drop (start + 30 + length x.name) file ≡ x.content ++ rest
  item_content x start file rest stands =
      ap (λ n. drop n file) regrouped
      ∙ sym (drop-drop start (length header) file)
      ∙ ap (drop (length header)) (stands ∙ parts)
      ∙ drop-append_length header (x.content ++ rest)
    where
      header : List ℕ
      header =
          encode zip_local_entry_block (stored_header K x.name x.time x.permissions x.content start)
          ++ x.name

      regrouped : start + 30 + length x.name ≡ start + length header
      regrouped = omega (
        arith,
        length-append
            (encode zip_local_entry_block
              (stored_header K x.name x.time x.permissions x.content start))
            x.name,
        length-local (stored_header K x.name x.time x.permissions x.content start),
      )

      parts : item_bytes K x start ++ rest ≡ header ++ (x.content ++ rest)
      parts = simp (append_assoc)

  pub entry-Stands :
      (xs : List Item) (start : ℕ) (file rest : List ℕ) (x : Item) (i : ℕ)
      → drop start file ≡ content_bytes K xs start ++ rest
      → get_elem? xs i ≡ some x
      → Stands K file (files_of K xs start) x i
  unfolding content_bytes placed
  entry-Stands [] start file rest x i stands e = absurd (cc)
  entry-Stands (y ∷ ys) start file rest x zero stands e =
      subst (λ x. Stands K file (files_of K (y ∷ ys) start) x 0) same
        (record {
          start = start;
          rest = content_bytes K ys (start + length (item_bytes K y start)) ++ rest;
          there = refl;
          content =
              item_content y start file
                (content_bytes K ys (start + length (item_bytes K y start)) ++ rest)
                (stands ∙ append_assoc (item_bytes K y start) _ rest);
        })
    where
      same : y ≡ x
      same = cc
  entry-Stands (y ∷ ys) start file rest x (suc i) stands e =
      let next = start + length (item_bytes K y start) in
      let s = entry-Stands ys next file rest x i (next_stands K y ys start file rest stands) e in
      record { start = s.start; rest = s.rest; there = s.there; content = s.content }

  -- The index of an entry, where the names are distinct.
  pub index_of_item :
      (xs : List Item) (start : ℕ) (x : Item) (i : ℕ)
      → IsDistinct xs
      → get_elem? xs i ≡ some x
      → get_index_of x.name (files_of K xs start) ≡ some i
  unfolding placed get_index_of IsDistinct new_file
  index_of_item [] start x i distinct e = absurd (cc)
  index_of_item (y ∷ ys) start x zero distinct e =
      ap (λ b. if b then some 0 else later)
        (subst (λ x. same_name x.name y.name ≡ true) same (same_bytes_refl y.name))
    where
      same : y ≡ x
      same = cc

      later : Option ℕ
      later =
          Option.map suc
            (get_index_of x.name (files_of K ys (start + length (item_bytes K y start))))
  index_of_item (y ∷ ys) start x (suc i) (apart, distinct) e =
      let next = start + length (item_bytes K y start) in
      ap (λ b. if b then some 0 else Option.map suc (get_index_of x.name (files_of K ys next)))
        (All-get (λ z. same_name z.name y.name ≡ false) ys i apart e)
      ∙ ap (Option.map suc) (index_of_item ys next x i distinct e)
