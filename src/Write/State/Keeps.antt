-- ===== src/Write/State/Keeps.antt =====
-- src/write.rs: what the methods keep of the entries. `Keeps P R m`: where `P` holds of the entries, it
-- holds of them after `m`, also after an error, and `R` holds of the result.
use zip.Prelude.{ℕ, Bool, true, false, Option, none, some, List, if◌then◌else◌}
use zip.Result.{ZipResult, ZipError, ok, err}
use zip.Cursor.{Cursor}
use zip.Compression.{CompressionMethod}
use zip.Types.File.{ZipFileData, ℤ}
use zip.Write.Monad.{Writer}
use zip.Write.Monad as File
use zip.Write.Generic.{get_plain, SwitchWriterFunction, switch_to, switch_to_non_encrypting}
use zip.Write.State.{
  Environment, ZipWriter, Action, ◌>>=◌, ◌>>◌, pure, throw, lift, gets, modify, on_file, on_plain,
  try, ignore_error, prepare, with_inner, switch, switch_to_non_encrypting_writer, Inner,
}

-- Any result.
abbrev pub Any : {A : Type 0} → A → Type 0
Any a = Unit

-- What a writer gives, where it does not fail.
abbrev pub Yields : {A : Type 0} → (A → Type 0) → Option (ZipResult A × Cursor) → Type 0
Yields R none = Unit
Yields R (some (ok a, c)) = R a
Yields R (some (err e, c)) = Unit

pub record Gives {A : Type 0} (R : A → Type 0) (m : Writer A) : Type 0 where
  pub gives : (c : Cursor) → Yields R (m c)

module _ {A B : Type 0} {R : B → Type 0} where
  pub Gives->>= :
      (m : Writer A) (k : A → Writer B) → ((a : A) → Gives R (k a)) → Gives R (File.◌>>=◌ m k)
  Gives->>= m k second = record { gives = λ c. go (m c) }
    where
      go :
          (o : Option (ZipResult A × Cursor))
          → Yields R (elim o as (λ _. Option (ZipResult B × Cursor)) [
            | none ↦ none
            | some (r, c') ↦ elim r as (λ _. Option (ZipResult B × Cursor)) [
              | ok a ↦ k a c'
              | err e ↦ some (err e, c')
            ]
          ])
      go none = tt
      go (some (ok a, c')) = (second a).gives c'
      go (some (err e, c')) = tt

module _ {K : Environment} (P : List ZipFileData → Type 0) where
  open K use {crypto, encoders, hashing}

  abbrev pub Holds : {A : Type 0} → (A → Type 0) → Option (ZipResult A × ZipWriter K) → Type 0
  Holds R none = Unit
  Holds R (some (ok a, s)) = P s.files × R a
  Holds R (some (err e, s)) = P s.files

  pub record Keeps {A : Type 0} (R : A → Type 0) (m : Action K A) : Type 0 where
    pub holds : (s : ZipWriter K) → P s.files → Holds R (m s)

  module _ {A B : Type 0} {R : A → Type 0} {R' : B → Type 0} where
    pub Keeps->>= :
        (m : Action K A) (k : A → Action K B)
        → Keeps R m
        → ((a : A) → R a → Keeps R' (k a))
        → Keeps R' (m >>= k)
    Keeps->>= m k first second = record { holds = λ s p. go (m s) (first.holds s p) }
      where
        go :
            (o : Option (ZipResult A × ZipWriter K))
            → Holds R o
            → Holds R' (elim o as (λ _. Option (ZipResult B × ZipWriter K)) [
              | none ↦ none
              | some (r, s') ↦ elim r as (λ _. Option (ZipResult B × ZipWriter K)) [
                | ok a ↦ k a s'
                | err e ↦ some (err e, s')
              ]
            ])
        go none h = tt
        go (some (ok a, s')) (h, r) = (second a r).holds s' h
        go (some (err e, s')) h = h

  pub Keeps->> :
      {A B : Type 0} {R' : B → Type 0} (m : Action K A) (k : Action K B)
      → Keeps Any m
      → Keeps R' k
      → Keeps R' (m >> k)
  Keeps->> m k first second = Keeps->>= m (λ _. k) first (λ _ _. second)

  -- A method that looks at the state first.
  pub Keeps-at :
      {A : Type 0} {R : A → Type 0} (m : ZipWriter K → Action K A)
      → ((s : ZipWriter K) → Keeps R (m s))
      → Keeps R (λ s. m s s)
  Keeps-at m h = record { holds = λ s p. (h s).holds s p }

  pub Keeps-pure : {A : Type 0} (R : A → Type 0) (a : A) → R a → Keeps R (pure a)
  Keeps-pure R a r = record { holds = λ s p. (p, r) }

  pub Keeps-throw : {A : Type 0} (R : A → Type 0) (e : ZipError) → Keeps R (throw e)
  Keeps-throw R e = record { holds = λ s p. p }

  pub Keeps-lift : {A : Type 0} (r : ZipResult A) → Keeps Any (lift r)
  Keeps-lift (ok a) = record { holds = λ s p. (p, tt) }
  Keeps-lift (err e) = record { holds = λ s p. p }

  pub Keeps-gets : {A : Type 0} (f : ZipWriter K → A) → Keeps Any (gets f)
  Keeps-gets f = record { holds = λ s p. (p, tt) }

  pub Keeps-modify :
      (f : ZipWriter K → ZipWriter K)
      → ((s : ZipWriter K) → P s.files → P (f s).files)
      → Keeps Any (modify f)
  Keeps-modify f h = record { holds = λ s p. (h s p, tt) }

  Holds-on_file :
      {A : Type 0} (R : A → Type 0) (o : Option (ZipResult A × Cursor)) (s : ZipWriter K)
      → P s.files
      → Yields R o
      → Holds R (on_file o s)
  Holds-on_file R none s p y = tt
  Holds-on_file R (some (ok a, c)) s p y = (p, y)
  Holds-on_file R (some (err e, c)) s p y = p

  pub Keeps-on_plain-Gives :
      {A : Type 0} (R : A → Type 0) (m : Writer A) → Gives R m → Keeps R (on_plain m)
  unfolding on_plain
  Keeps-on_plain-Gives {A} R m g = record {
    holds = λ s p. go s p (get_plain crypto encoders s.inner);
  }
    where
      go :
          (s : ZipWriter K)
          → P s.files
          → (o : Option Cursor)
          → Holds R (elim o as (λ _. Option (ZipResult A × ZipWriter K)) [
            | none ↦ none
            | some c ↦ on_file (m c) s
          ])
      go s p none = tt
      go s p (some c) = Holds-on_file R (m c) s p (g.gives c)

  pub Keeps-on_plain : {A : Type 0} (m : Writer A) → Keeps Any (on_plain m)
  Keeps-on_plain m = Keeps-on_plain-Gives Any m (record { gives = λ c. any_yield (m c) })
    where
      any_yield : {A : Type 0} (o : Option (ZipResult A × Cursor)) → Yields Any o
      any_yield none = tt
      any_yield (some (ok a, c)) = tt
      any_yield (some (err e, c)) = tt

  pub Keeps-if :
      {A : Type 0} {R : A → Type 0} (b : Bool) {m k : Action K A}
      → Keeps R m
      → Keeps R k
      → Keeps R (λ s. if b then m s else k s)
  Keeps-if true first second = record { holds = first.holds }
  Keeps-if false first second = record { holds = second.holds }

  pub Keeps-try : {A : Type 0} (m : Action K A) → Keeps Any m → Keeps Any (try m)
  Keeps-try {A} m h = record { holds = λ s p. go (m s) (h.holds s p) }
    where
      go :
          (o : Option (ZipResult A × ZipWriter K))
          → Holds Any o
          → Holds Any (elim o as (λ _. Option (ZipResult (ZipResult A) × ZipWriter K)) [
            | none ↦ none
            | some (r, s') ↦ some (ok r, s')
          ])
      go none h = tt
      go (some (ok a, s')) (h, r) = (h, tt)
      go (some (err e, s')) h = (h, tt)

  pub Keeps-ignore_error : {A : Type 0} (m : Action K A) → Keeps Any m → Keeps Any (ignore_error m)
  Keeps-ignore_error {A} m h = record { holds = λ s p. go (m s) (h.holds s p) }
    where
      go :
          (o : Option (ZipResult A × ZipWriter K))
          → Holds Any o
          → Holds Any (elim o as (λ _. Option (ZipResult (Unit {0}) × ZipWriter K)) [
            | none ↦ none
            | some (r, s') ↦ some (ok tt, s')
          ])
      go none h = tt
      go (some (ok a, s')) (h, r) = (h, tt)
      go (some (err e, s')) h = (h, tt)

  Holds-with_inner :
      (r : ZipResult (Unit {0}) × Inner K) (s : ZipWriter K)
      → P s.files
      → Holds Any (with_inner r s)
  Holds-with_inner (ok a, inner) s p = (p, tt)
  Holds-with_inner (err e, inner) s p = p

  pub Keeps-prepare :
      (compression : CompressionMethod) (level : Option ℤ) (size : Option ℕ)
      → Keeps Any (prepare compression level size)
  unfolding prepare
  Keeps-prepare compression level size = record { holds = λ s p. (Keeps-lift _).holds s p }

  pub Keeps-switch : (f : SwitchWriterFunction crypto encoders) → Keeps Any (switch f)
  unfolding switch
  Keeps-switch f = record {
    holds = λ s p. Holds-with_inner (switch_to crypto encoders f s.inner) s p;
  }

  pub Keeps-switch_to_non_encrypting_writer : Keeps Any switch_to_non_encrypting_writer
  unfolding switch_to_non_encrypting_writer
  Keeps-switch_to_non_encrypting_writer = record {
    holds = λ s p.
        go s p (switch_to_non_encrypting crypto encoders (hashing.finalize s.stats.hasher) s.inner);
  }
    where
      go :
          (s : ZipWriter K)
          → P s.files
          → (o : Option (ZipResult (Unit {0}) × Inner K))
          → Holds Any (elim o as (λ _. Option (ZipResult (Unit {0}) × ZipWriter K)) [
            | none ↦ none
            | some switched ↦ with_inner switched s
          ])
      go s p none = tt
      go s p (some switched) = Holds-with_inner switched s p

-- What holds before a method may say more, and what holds behind it less.
module _ {K : Environment} (P P' : List ZipFileData → Type 0)
    (weaker : (files : List ZipFileData) → P' files → P files) where
  pub Holds-weaker :
      {A : Type 0} (R : A → Type 0) (o : Option (ZipResult A × ZipWriter K))
      → Holds P' R o
      → Holds P R o
  Holds-weaker R none h = tt
  Holds-weaker R (some (ok a, s)) (h, r) = (weaker s.files h, r)
  Holds-weaker R (some (err e, s)) h = weaker s.files h
