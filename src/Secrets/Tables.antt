-- ===== src/Secrets/Tables.antt =====
-- What the SQL statements of secrets/engine.ts do to the row that a key finds.
use gatehouse.Common.{
  ℕ, ◌==◌, ◌≡◌, inl, inr, refl, Text, text_eq, text_eq_iff, Bool, true, false, ◌&&◌, Option, none,
  some, List, [], ◌∷◌, ◌++◌, if◌then◌else◌, select, update_where, first, arith, Bool-cases,
}
use gatehouse.Secrets.Vault.{SecretRow, VersionRow, has_path, find_secret, find_version}
use gatehouse.Secrets.Engine.{archive, overwrite, upsert}
use gatehouse.Lease.State.{sql_datetime}

module _ {ℓ} {A : Type ℓ} (q : A → Bool) where
  -- An update that keeps what the key reads changes the row that is found, if the update is for it.
  pub first-update_where :
      (p : A → Bool) (f : A → A) (xs : List A)
      → ((x : A) → q (f x) ≡ q x)
      → first q (update_where p f xs)
        ≡ elim (first q xs) [ none ↦ none | some x ↦ some (if p x then f x else x) ]
  unfolding first update_where
  first-update_where p f [] keeps = refl
  first-update_where p f (x ∷ xs) keeps = ground (arith, keeps x, first-update_where p f xs keeps)

  pub first-select :
      (p : A → Bool) (xs : List A)
      → ((x : A) → q x ≡ true → p x ≡ true)
      → first q (select p xs) ≡ first q xs
  unfolding first select
  first-select p [] keeps = refl
  first-select p (x ∷ xs) keeps = ground (arith, keeps x, first-select p xs keeps)

  pub first-select-none :
      (p : A → Bool) (xs : List A)
      → ((x : A) → q x ≡ true → p x ≡ false)
      → first q (select p xs) ≡ none
  unfolding first select
  first-select-none p [] drops = refl
  first-select-none p (x ∷ xs) drops = ground (arith, drops x, first-select-none p xs drops)

  pub first-append :
      (xs : List A) (y : A)
      → first q (xs ++ y ∷ [])
        ≡ elim (first q xs) [ some x ↦ some x | none ↦ if q y then some y else none ]
  unfolding first
  first-append [] y = refl
  first-append (x ∷ xs) y = ground (arith, first-append xs y)

  -- The row that is found passes the test.
  pub first-hit : (xs : List A) (x : A) → first q xs ≡ some x → q x ≡ true
  unfolding first
  first-hit [] x h = absurd (ground arith)
  first-hit (y ∷ ys) x h = elim (Bool-cases (q y)) [
    | inl hit ↦ ground arith
    | inr miss ↦ first-hit ys x (ground arith)
  ]

pub find_secret-path :
    (path : Text) (rows : List SecretRow) (row : SecretRow)
    → find_secret path rows ≡ some row
    → row.path ≡ path
unfolding find_secret
find_secret-path path rows row h =
    (text_eq_iff row.path path).0 (first-hit (has_path path) rows row h)

abbrev pub upserted : SecretRow → Option SecretRow → SecretRow
upserted row none = row
upserted row (some old) = overwrite row old

pub sealed-upserted :
    (row : SecretRow) (o : Option SecretRow) → (upserted row o).sealed ≡ row.sealed
sealed-upserted row none = refl
sealed-upserted row (some old) = refl

pub find_secret-upsert :
    (q : Text) (row : SecretRow) (rows : List SecretRow)
    → find_secret q (upsert row rows) ≡ (
        if text_eq row.path q
        then some (upserted row (find_secret row.path rows))
        else find_secret q rows)
unfolding find_secret upsert first
find_secret-upsert q row [] = refl
find_secret-upsert q row (old ∷ rows) = ground (
  arith,
  text_eq_iff row.path q,
  text_eq_iff old.path q,
  text_eq_iff old.path row.path,
  find_secret-upsert q row rows,
)

abbrev pub archived_row : ℕ → SecretRow → VersionRow
archived_row now row = record {
  path = row.path;
  version = row.version;
  sealed = row.sealed;
  metadata = row.metadata;
  archived_at = sql_datetime now;
}

find_version-append :
    (q : Text) (n : ℕ) (row : VersionRow) (rows : List VersionRow)
    → find_version row.path row.version rows ≡ none
    → find_version q n (rows ++ row ∷ [])
      ≡ (if text_eq row.path q && row.version == n then some row else find_version q n rows)
unfolding find_version first
find_version-append q n row [] new = refl
find_version-append q n row (old ∷ rows) new = ground (
  arith,
  text_eq_iff row.path q,
  text_eq_iff old.path q,
  text_eq_iff old.path row.path,
  find_version-append q n row rows,
)

pub find_version-archive :
    (q : Text) (n now : ℕ) (row : SecretRow) (rows : List VersionRow)
    → find_version row.path row.version rows ≡ none
    → find_version q n (archive now row rows) ≡ (
        if text_eq row.path q && row.version == n
        then some (archived_row now row)
        else find_version q n rows)
unfolding archive find_version text_eq
find_version-archive q n now row rows new =
    rw (archive, new) (find_version-append q n (archived_row now row) rows new)
