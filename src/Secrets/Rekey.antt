-- ===== src/Secrets/Rekey.antt =====
-- `rotateKEK` in secrets/engine.ts: the data keys of all rows move from the old key to the new one,
-- or none does. The loop, which the source has once for each table, takes the table as an argument.
use gatehouse.Common.{ℕ, suc, codes, Bool, none, some, List, [], ◌∷◌, update_where}
use gatehouse.Common.Exec.{Outcome, done, thrown}
use gatehouse.Common.Utf8.{Bytes}
use gatehouse.Lease.State.{sql_datetime}
use gatehouse.Secrets.Vault.{
  Crypto, Sealed, SecretRow, VersionRow, Vault, VaultError, rotation_failed,
  archived_rotation_failed, derive_key, has_path, is_version, open_dek,
}

abbrev pub rewrap : Crypto → Bytes → Bytes → Bytes → Sealed → Sealed
rewrap c new_kek nonce dek x = record x {
  encrypted_dek = c.seal dek nonce new_kek;
  dek_nonce = nonce;
}

-- The columns of a table that the rotation reads and writes: the key of its `WHERE`, the encrypted
-- columns, what the `UPDATE` sets, and the error for a row that does not open.
pub record Table (A : Type 0) : Type 0 where
  pub same_key : A → A → Bool
  pub sealed : A → Sealed
  pub write : Sealed → A → A
  pub failure : VaultError

abbrev pub secrets_table : ℕ → Table SecretRow
secrets_table now = record {
  same_key = λ row. has_path row.path;
  sealed = λ row. row.sealed;
  write = λ x row. record row { sealed = x; updated_at = sql_datetime now };
  failure = rotation_failed;
}

abbrev pub versions_table : Table VersionRow
versions_table = record {
  same_key = λ row. is_version row.path row.version;
  sealed = λ row. row.sealed;
  write = λ x row. record row { sealed = x };
  failure = archived_rotation_failed;
}

abbrev pub change : {A : Type 0} → Table A → Crypto → Bytes → Bytes → Bytes → A → A
change t c new_kek nonce dek r = t.write (rewrap c new_kek nonce dek (t.sealed r)) r

-- The loop over the rows that were read, and the number of its rounds. `nonces n` is the nonce that
-- is drawn in round `n`.
unfoldable pub rewrap_rows :
    {A : Type 0}
    → Table A
    → Crypto
    → Bytes
    → Bytes
    → (ℕ → Bytes)
    → List A
    → List A
    → ℕ
    → Outcome VaultError (List A × ℕ)
rewrap_rows t c kek new_kek nonces [] table n = done (table, n)
rewrap_rows t c kek new_kek nonces (row ∷ rows) table n = elim (open_dek c kek (t.sealed row)) [
  | none ↦ thrown t.failure
  | some dek ↦
      let written = update_where (t.same_key row) (change t c new_kek (nonces n) dek) table in
      rewrap_rows t c kek new_kek nonces rows written (suc n)
]

-- A throw inside the transaction leaves the tables and the key as they were.
unfoldable pub rotate_kek : Crypto → ℕ → (ℕ → Bytes) → Bytes → Vault → Outcome VaultError ℕ × Vault
rotate_kek c now nonces new_master s =
    let new_kek = derive_key c new_master (codes "gatehouse-kek") in
    elim (rewrap_rows (secrets_table now) c s.kek new_kek nonces s.secrets s.secrets 0) [
      | thrown e ↦ (thrown e, s)
      | done (secrets, count) ↦
          elim (rewrap_rows versions_table c s.kek new_kek nonces s.versions s.versions count) [
            | thrown e ↦ (thrown e, s)
            | done (versions, all) ↦
                (done count, record s { kek = new_kek; secrets = secrets; versions = versions })
          ]
    ]
