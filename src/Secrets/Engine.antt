-- ===== src/Secrets/Engine.antt =====
-- The operations of `SecretsEngine` in secrets/engine.ts. A transaction is one change of the tables;
-- what is random is an argument, and so is the time.
use gatehouse.Common.{
  ℕ, ◌+◌, Text, text_eq, Bool, true, false, not, Option, none, some, List, [], ◌∷◌, ◌++◌,
  if◌then◌else◌, select, update_where,
}
use gatehouse.Common.Dict.{Dict}
use gatehouse.Common.Exec.{Outcome, done, thrown}
use gatehouse.Common.Utf8.{Bytes}
use gatehouse.Lease.State.{Lease, sql_datetime}
use gatehouse.Secrets.Vault.{
  Crypto, Sealed, SecretRow, VersionRow, Vault, VaultError, Draw, StoredSecret, derive_key,
  has_path, find_secret, find_version, seal_value, get_version, get_meta,
}
use gatehouse.Common.{codes}

unfoldable pub new_vault : Crypto → Bytes → List SecretRow → List VersionRow → Vault
new_vault c master secrets versions = record {
  kek = derive_key c master (codes "gatehouse-kek");
  secrets = secrets;
  versions = versions;
}

-- `INSERT OR IGNORE`: a version that is there stays as it is.
unfoldable pub archive : ℕ → SecretRow → List VersionRow → List VersionRow
archive now row versions = elim (find_version row.path row.version versions) [
  | some old ↦ versions
  | none ↦
      versions
      ++ record {
        path = row.path;
        version = row.version;
        sealed = row.sealed;
        metadata = row.metadata;
        archived_at = sql_datetime now;
      }
        ∷ []
]

-- `ON CONFLICT(path) DO UPDATE`: the times of creation and of the last access stay.
abbrev pub overwrite : SecretRow → SecretRow → SecretRow
overwrite row old = record row {
  path = old.path;
  created_at = old.created_at;
  last_accessed_at = old.last_accessed_at;
}

unfoldable pub upsert : SecretRow → List SecretRow → List SecretRow
upsert row [] = row ∷ []
upsert row (old ∷ rows) =
    if text_eq old.path row.path then overwrite row old ∷ rows else old ∷ upsert row rows

abbrev pub next_version : Option SecretRow → ℕ
next_version none = 1
next_version (some old) = old.version + 1

abbrev pub archive_existing : ℕ → Option SecretRow → List VersionRow → List VersionRow
archive_existing now none versions = versions
archive_existing now (some old) versions = archive now old versions

abbrev pub new_row : ℕ → Text → Sealed → Dict Text → ℕ → SecretRow
new_row now path sealed metadata version = record {
  path = path;
  sealed = sealed;
  metadata = metadata;
  version = version;
  created_at = sql_datetime now;
  updated_at = sql_datetime now;
  last_accessed_at = none;
}

unfoldable pub put_row : Crypto → ℕ → Draw → Text → Text → Dict Text → Vault → Vault
put_row c now draw path value metadata s =
    let existing = find_secret path s.secrets in
    let sealed = seal_value c s.kek draw value in
    record s {
      secrets = upsert (new_row now path sealed metadata (next_version existing)) s.secrets;
      versions = archive_existing now existing s.versions;
    }

unfoldable pub put :
    Crypto → ℕ → Draw → Text → Text → Dict Text → Vault → Option StoredSecret × Vault
put c now draw path value metadata s =
    let s' = put_row c now draw path value metadata s in (get_meta path s', s')

abbrev pub relabel : ℕ → Dict Text → ℕ → SecretRow → SecretRow
relabel now metadata version row = record row {
  metadata = metadata;
  version = version;
  updated_at = sql_datetime now;
}

unfoldable pub set_metadata : ℕ → Text → Dict Text → Vault → Option StoredSecret × Vault
set_metadata now path metadata s = elim (find_secret path s.secrets) [
  | none ↦ (none, s)
  | some existing ↦
      let s' : Vault = record s {
        secrets =
            update_where (has_path path) (relabel now metadata (existing.version + 1)) s.secrets;
        versions = archive now existing s.versions;
      } in
      (get_meta path s', s')
]

unfoldable pub mark_accessed : ℕ → Text → Vault → Vault
mark_accessed now path s = record s {
  secrets =
      update_where (has_path path)
        (λ row. record row { last_accessed_at = some (sql_datetime now) }) s.secrets;
}

abbrev pub is_some {ℓ} : {A : Type ℓ} → Option A → Bool
is_some none = false
is_some (some a) = true

-- The leases of the path go with it. The number of rows that the last statement deletes is that of
-- the secrets.
unfoldable pub delete : Text → Vault → List Lease → Bool × Vault × List Lease
delete path s leases = (
  is_some (find_secret path s.secrets),
  record s {
    versions = select (λ v. not (text_eq v.path path)) s.versions;
    secrets = select (λ r. not (has_path path r)) s.secrets;
  },
  select (λ l. not (text_eq l.secret_path path)) leases,
)

abbrev pub metadata_of : Option VersionRow → Dict Text
metadata_of none = []
metadata_of (some row) = row.metadata

unfoldable pub rollback :
    Crypto → ℕ → Draw → Text → ℕ → Vault → Outcome VaultError (Option StoredSecret) × Vault
rollback c now draw path target s = elim (get_version c path target s) [
  | thrown e ↦ (thrown e, s)
  | done none ↦ (done none, s)
  | done (some value) ↦
      let archived = find_version path target s.versions in
      let (meta, s') = put c now draw path value (metadata_of archived) s in (done meta, s')
]
