-- ===== src/Read/Metadata/Candidates.antt =====
-- src/read.rs: the candidates that `get_metadata` gathers from the end records, and their order.
use zip.Prelude.{
  ℕ, ◌≤◌, ◌≡◌, refl, sym, ap, subst, arith, Bool, true, false, Bool-cases, if◌then◌else◌, inl, inr,
  List, [], ◌∷◌, ◌++◌, map, All, All-append, In, In-append-left, In-append-right,
}
use zip.Result.{ZipError, ZipResult, ok, err, invalid_archive, ok_or, ◌>>=◌}
use zip.Spec.Zip32End.{Zip32CentralDirectoryEnd}
use zip.Spec.Zip64End.{Zip64CentralDirectoryEnd}
use zip.Spec.Find.{Finder}
use zip.Spec.Find.Zip64
use zip.Read.Config.{Config}
use zip.Read.Directory.{
  CentralDirectoryInfo, get_directory_info_zip32, get_directory_info_zip64, directory_info_of,
  checked_add, checked_sub, archive_offset_64, locator_at, zip64_cde_len, order_lower_upper_bounds,
}
use zip.Read.Metadata.{
  Candidate, Gathered, gather_32, gather_64, gather_results, sort_result, push_error, insert_by_key,
  sort_by_key, comes_before,
}
use zip.Read.Metadata.First.{IsLater, Follows, IsSorted}

-- What is true of a result where there is one.
abbrev pub Always : {A : Type 0} → (A → Type 0) → ZipResult A → Type 0
Always {A = A} P r = (a : A) → r ≡ ok a → P a

module _ {A : Type 0} (P : A → Type 0) where
  Always-err : (e : ZipError) → Always P (err e)
  Always-err e a h = absurd (cc)

  Always-ok : (x : A) → P x → Always P (ok x)
  Always-ok x h a e = subst P (cc) h

  Always-if :
      (b : Bool) (e : ZipError) (r : ZipResult A) → Always P r → Always P (if b then err e else r)
  Always-if true e r h = Always-err e
  Always-if false e r h = h

  Always->>= :
      {B : Type 0} (r : ZipResult B) (f : B → ZipResult A)
      → ((b : B) → Always P (f b))
      → Always P (r >>= f)
  Always->>= (ok b) f h = h b
  Always->>= (err e) f h = Always-err e

-- The candidates keep the place of their end record.
abbrev pub Stays : ℕ → CentralDirectoryInfo → Type 0
Stays p o = o.cde_position ≡ p

pub get_directory_info_zip32-Stays :
    (config : Config) (file : List ℕ) (footer : Zip32CentralDirectoryEnd) (p : ℕ)
    → Always (Stays p) (get_directory_info_zip32 config file footer p)
unfolding get_directory_info_zip32
get_directory_info_zip32-Stays config file footer p =
    Always->>= (Stays p) _ _ (λ n. Always-ok (Stays p) _ refl)

directory_info_of-Stays :
    (config : Config) (file : List ℕ) (p upper : ℕ) (found : Zip64CentralDirectoryEnd × ℕ)
    → Always (Stays p) (directory_info_of config file p upper found)
unfolding directory_info_of
directory_info_of-Stays config file p upper (footer64, archive_offset) =
    Always->>= (Stays p)
      (ok_or
        (checked_add footer64.central_directory_offset
          (archive_offset_64 config.archive_offset file footer64 archive_offset))
        (invalid_archive "Invalid central directory size or offset"))
      _ (λ start o h. ground arith)

map-Stays :
    (config : Config) (file : List ℕ) (p upper : ℕ) (found : List (Zip64CentralDirectoryEnd × ℕ))
    → All (Always (Stays p)) (map (directory_info_of config file p upper) found)
map-Stays config file p upper [] = tt
map-Stays config file p upper (f ∷ found) =
    (directory_info_of-Stays config file p upper f, map-Stays config file p upper found)

pub get_directory_info_zip64-Stays :
    (rfind_iter : Finder) (config : Config) (file : List ℕ) (footer : Zip32CentralDirectoryEnd)
    (p : ℕ)
    → Always (All (Always (Stays p))) (get_directory_info_zip64 rfind_iter config file footer p)
unfolding get_directory_info_zip64
get_directory_info_zip64-Stays rfind_iter config file footer p =
    let All_stay = All (Always (Stays p)) in
    Always->>= All_stay (locator_at file footer) _ (λ locator64.
      Always->>= All_stay
        (ok_or (checked_sub p zip64_cde_len)
          (invalid_archive "File cannot contain ZIP64 central directory end"))
        _
        (λ upper.
          let bounds = order_lower_upper_bounds locator64.end_of_central_directory_offset upper in
          Always->>= All_stay (Zip64.find_and_parse rfind_iter file bounds.0 bounds.1) _
            (λ found. Always-ok All_stay _ (map-Stays config file p upper found))))

module _ (P : Candidate → Type 0) where
  insert_by_key-All :
      (x : Candidate) (ys : List Candidate) → P x → All P ys → All P (insert_by_key x ys)
  unfolding insert_by_key
  insert_by_key-All x [] h hs = (h, tt)
  insert_by_key-All x (y ∷ ys) h (k, ks) = elim (Bool-cases (comes_before y.1 x.1)) [
    | inl e ↦ rw e (k, insert_by_key-All x ys h ks)
    | inr e ↦ rw e (h, (k, ks))
  ]

  pub sort_by_key-All : (cs : List Candidate) → All P cs → All P (sort_by_key cs)
  unfolding sort_by_key
  sort_by_key-All [] h = tt
  sort_by_key-All (c ∷ cs) (h, hs) = insert_by_key-All c (sort_by_key cs) h (sort_by_key-All cs hs)

In-insert_by_key_self : (x : Candidate) (ys : List Candidate) → In x (insert_by_key x ys)
unfolding insert_by_key
In-insert_by_key_self x [] = inl refl
In-insert_by_key_self x (y ∷ ys) = elim (Bool-cases (comes_before y.1 x.1)) [
  | inl e ↦ rw e (inr (In-insert_by_key_self x ys))
  | inr e ↦ rw e (inl refl)
]

In-insert_by_key : (c x : Candidate) (ys : List Candidate) → In c ys → In c (insert_by_key x ys)
unfolding insert_by_key
In-insert_by_key c x [] h = absurd h
In-insert_by_key c x (y ∷ ys) h = elim (Bool-cases (comes_before y.1 x.1)) [
  | inl e ↦ rw e (elim h [ inl q ↦ inl q | inr q ↦ inr (In-insert_by_key c x ys q) ])
  | inr e ↦ rw e (inr h)
]

pub In-sort_by_key : (c : Candidate) (cs : List Candidate) → In c cs → In c (sort_by_key cs)
unfolding sort_by_key
In-sort_by_key c [] h = absurd h
In-sort_by_key c (x ∷ cs) (inl e) =
    subst (λ x. In c (insert_by_key x (sort_by_key cs))) e
      (In-insert_by_key_self c (sort_by_key cs))
In-sort_by_key c (x ∷ cs) (inr h) = In-insert_by_key c x (sort_by_key cs) (In-sort_by_key c cs h)

In-Follows :
    (a : CentralDirectoryInfo) (c : Candidate) (ys : List Candidate)
    → Follows a ys
    → In c ys
    → IsLater a c.1
In-Follows a c [] h i = absurd i
In-Follows a c (y ∷ ys) (h, hs) (inl e) = subst (λ (y : Candidate). IsLater a y.1) (sym e) h
In-Follows a c (y ∷ ys) (h, hs) (inr i) = In-Follows a c ys hs i

-- A candidate that is before all others of its end record, with no end record behind.
module _ (best : Candidate) where
  abbrev pub IsBelow : Candidate → Type 0
  IsBelow c =
      (c.1.cde_position ≤ best.1.cde_position) × (c.1.cde_position ≡ best.1.cde_position → c ≡ best)

  pub head_of_sorted :
      (cs : List Candidate)
      → IsSorted cs
      → All IsBelow cs
      → In best cs
      → (others : List Candidate) × (cs ≡ best ∷ others)
  head_of_sorted [] sorted below i = absurd i
  head_of_sorted (c ∷ cs) (first, _) ((le, same), _) (inl e) = (cs, ap (λ c. c ∷ cs) (sym e))
  head_of_sorted (c ∷ cs) (first, _) ((le, same), _) (inr i) =
      (cs, ap (λ c. c ∷ cs) (same (ground (arith, In-Follows c.1 best cs first i))))

module _ (P : Candidate → Type 0) (footer : Zip32CentralDirectoryEnd) where
  abbrev Good : CentralDirectoryInfo → Type 0
  Good o = P (footer, o)

  pub gather_32-All :
      (g : Gathered) (r : ZipResult CentralDirectoryInfo)
      → All P g.ok_results
      → Always Good r
      → All P (gather_32 g r footer).ok_results
  unfolding sort_result
  gather_32-All g (ok o) h k = All-append P g.ok_results ((footer, o) ∷ []) h (k o refl, tt)
  gather_32-All g (err e) h k = h

  gather_64-All :
      (g : Gathered) (rs : List (ZipResult CentralDirectoryInfo))
      → All P g.ok_results
      → All (Always Good) rs
      → All P (gather_64 g rs footer).ok_results
  unfolding sort_result
  gather_64-All g [] h k = h
  gather_64-All g (ok o ∷ rs) h (k, ks) =
      gather_64-All (record g { ok_results = g.ok_results ++ (footer, o) ∷ [] }) rs
        (All-append P g.ok_results ((footer, o) ∷ []) h (k o refl, tt)) ks
  gather_64-All g (err e ∷ rs) h (k, ks) =
      gather_64-All (record g { errors_64 = push_error e g.errors_64 }) rs h ks

  pub gather_results-All :
      (g : Gathered) (r : ZipResult (List (ZipResult CentralDirectoryInfo)))
      → All P g.ok_results
      → Always (All (Always Good)) r
      → All P (gather_results g r footer).ok_results
  gather_results-All g (ok rs) h k = gather_64-All g rs h (k rs refl)
  gather_results-All g (err e) h k = h

-- Candidates are added, and none is lost.
pub gather_32-In :
    (c : Candidate) (g : Gathered) (r : ZipResult CentralDirectoryInfo)
    (footer : Zip32CentralDirectoryEnd)
    → In c g.ok_results
    → In c (gather_32 g r footer).ok_results
unfolding sort_result
gather_32-In c g (ok o) footer h = In-append-left c g.ok_results _ h
gather_32-In c g (err e) footer h = h

gather_64-In :
    (c : Candidate) (g : Gathered) (rs : List (ZipResult CentralDirectoryInfo))
    (footer : Zip32CentralDirectoryEnd)
    → In c g.ok_results
    → In c (gather_64 g rs footer).ok_results
unfolding sort_result
gather_64-In c g [] footer h = h
gather_64-In c g (ok o ∷ rs) footer h =
    gather_64-In c (record g { ok_results = g.ok_results ++ (footer, o) ∷ [] }) rs footer
      (In-append-left c g.ok_results _ h)
gather_64-In c g (err e ∷ rs) footer h =
    gather_64-In c (record g { errors_64 = push_error e g.errors_64 }) rs footer h

pub gather_results-In :
    (c : Candidate) (g : Gathered) (r : ZipResult (List (ZipResult CentralDirectoryInfo)))
    (footer : Zip32CentralDirectoryEnd)
    → In c g.ok_results
    → In c (gather_results g r footer).ok_results
gather_results-In c g (ok rs) footer h = gather_64-In c g rs footer h
gather_results-In c g (err e) footer h = h

pub gather_32-added :
    (g : Gathered) (footer : Zip32CentralDirectoryEnd) (r : ZipResult CentralDirectoryInfo)
    (o : CentralDirectoryInfo)
    → r ≡ ok o
    → In (footer, o) (gather_32 g r footer).ok_results
unfolding sort_result
gather_32-added g footer r o e =
    subst (λ r. In (footer, o) (gather_32 g r footer).ok_results) (sym e)
      (In-append-right (footer, o) g.ok_results _ (inl refl))
