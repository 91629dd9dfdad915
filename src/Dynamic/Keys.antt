-- ===== src/Dynamic/Keys.antt =====
-- The start of the manager in dynamic/manager.ts, the change of its key, and `validateConfig`.
use gatehouse.Common.{
  ℕ, ◌+◌, suc, leb, Text, text_eq, codes, Bool, Option, none, some, List, [], ◌∷◌, if◌then◌else◌,
  update_where, take, drop, length,
}
use gatehouse.Common.Dict.{Dict, get}
use gatehouse.Common.Exec.{Outcome, done, thrown}
use gatehouse.Common.Utf8.{Bytes}
use gatehouse.Lease.State.{sql_datetime}
use gatehouse.Secrets.Vault.{Crypto, derive_key}
use gatehouse.Dynamic.Sealing.{
  Json, ManagerError, ConfigRow, State, DynamicConfig, Provider, Providers, encrypt_config,
  decrypt_config, get_config, nonce_length,
}

-- The configurations move to the new key; the credentials of the leases stay as they are.
unfoldable pub reseal_configs :
    Json
    → Crypto
    → Bytes
    → Bytes
    → ℕ
    → (ℕ → Bytes)
    → List ConfigRow
    → List ConfigRow
    → ℕ
    → Outcome ManagerError (List ConfigRow × ℕ)
reseal_configs json c key new_key now nonces [] table n = done (table, n)
reseal_configs json c key new_key now nonces (row ∷ rows) table n =
    elim (decrypt_config json c key row.config) [
      | thrown e ↦ thrown e
      | done config ↦
          let sealed = encrypt_config json c new_key (nonces n) config in
          let change : ConfigRow → ConfigRow =
            λ r. record r { config = sealed; updated_at = sql_datetime now } in
          let written = update_where (λ r. text_eq r.path row.path) change table in
          reseal_configs json c key new_key now nonces rows written (suc n)
    ]

unfoldable pub rotate_config_key :
    Json → Crypto → ℕ → (ℕ → Bytes) → Bytes → State → Outcome ManagerError ℕ × State
rotate_config_key json c now nonces new_master s =
    let new_key = derive_key c new_master (codes "gatehouse-dynamic-config") in
    elim (reseal_configs json c s.config_key new_key now nonces s.configs s.configs 0) [
      | thrown e ↦ (thrown e, s)
      | done (configs, count) ↦ (done count, record s { config_key = new_key; configs = configs })
    ]

-- A row that is no box under the key, but the text of an object: it was stored before encryption.
-- `plain` decodes such a text, and answers `none` for all other bytes.
abbrev pub legacy_config :
    Crypto → Bytes → (Bytes → Option (Dict Text)) → Bytes → Option (Dict Text)
legacy_config c key plain bytes =
    if leb (length bytes) (nonce_length + 16)
    then none
    else elim (c.open_box (drop nonce_length bytes) (take nonce_length bytes) key) [
      | some opened ↦ none
      | none ↦ plain bytes
    ]

unfoldable pub migrate_rows :
    Json
    → Crypto
    → Bytes
    → ℕ
    → (ℕ → Bytes)
    → (Bytes → Option (Dict Text))
    → List ConfigRow
    → List ConfigRow
    → ℕ
    → List ConfigRow
migrate_rows json c key now nonces plain [] table n = table
migrate_rows json c key now nonces plain (row ∷ rows) table n =
    elim (legacy_config c key plain row.config) [
      | none ↦ migrate_rows json c key now nonces plain rows table n
      | some config ↦
          let sealed = encrypt_config json c key (nonces n) config in
          let change : ConfigRow → ConfigRow =
            λ r. record r { config = sealed; updated_at = sql_datetime now } in
          let written = update_where (λ r. text_eq r.path row.path) change table in
          migrate_rows json c key now nonces plain rows written (suc n)
    ]

-- The start of a manager on the tables that are there.
unfoldable pub new_manager :
    Json → Crypto → ℕ → (ℕ → Bytes) → (Bytes → Option (Dict Text)) → Bytes → State → State
new_manager json c now nonces plain master s =
    let key = derive_key c master (codes "gatehouse-dynamic-config") in
    record s {
      config_key = key;
      configs = migrate_rows json c key now nonces plain s.configs s.configs 0;
    }

pub data Validation : Type 0 where
  config_not_found provider_not_registered : Validation
  answered : Bool → Validation

abbrev pub validate_by : DynamicConfig → Option Provider → Validation
validate_by config none = provider_not_registered
validate_by config (some p) = answered (p.validate config.config)

unfoldable pub validate_config :
    Json → Crypto → Providers → Text → State → Outcome ManagerError Validation
validate_config json c providers path s = elim (get_config json c path s) [
  | thrown e ↦ thrown e
  | done none ↦ done config_not_found
  | done (some config) ↦ done (validate_by config (get config.provider_type providers))
]
