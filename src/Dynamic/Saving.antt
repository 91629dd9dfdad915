-- ===== src/Dynamic/Saving.antt =====
-- `saveConfig` of dynamic/manager.ts.
use gatehouse.Common.{
  ℕ, Text, text_eq, Bool, true, false, Option, none, some, List, [], ◌∷◌, if◌then◌else◌, select,
}
use gatehouse.Common.Dict.{Dict, get}
use gatehouse.Common.Exec.{Outcome, thrown}
use gatehouse.Common.Utf8.{Bytes}
use gatehouse.Lease.State.{sql_datetime}
use gatehouse.Secrets.Vault.{Crypto}
use gatehouse.Dynamic.Sealing.{
  Json, ManagerError, unknown_provider, missing_keys, ConfigRow, State, DynamicConfig, Provider,
  Providers, encrypt_config, get_config,
}

-- `!config[k]`
abbrev pub is_missing : Dict Text → Text → Bool
is_missing config key = elim (get key config) [
  | none ↦ true
  | some value ↦ elim value [ [] ↦ true | c ∷ cs ↦ false ]
]

-- `ON CONFLICT(path) DO UPDATE`
unfoldable pub upsert : ConfigRow → List ConfigRow → List ConfigRow
upsert row [] = row ∷ []
upsert row (old ∷ rows) =
    if text_eq old.path row.path
    then record row { path = old.path; created_at = old.created_at } ∷ rows
    else old ∷ upsert row rows

abbrev pub write_config : Json → Crypto → ℕ → Bytes → Text → Text → Dict Text → State → State
write_config json c now nonce path provider_type config s =
    let row : ConfigRow = record {
      path = path;
      provider_type = provider_type;
      config = encrypt_config json c s.config_key nonce config;
      created_at = sql_datetime now;
      updated_at = sql_datetime now;
    } in
    record s { configs = upsert row s.configs }

abbrev pub save_with :
    Json
    → Crypto
    → ℕ
    → Bytes
    → Text
    → Text
    → Dict Text
    → Option Provider
    → State
    → Outcome ManagerError (Option DynamicConfig) × State
save_with json c now nonce path provider_type config none s = (thrown unknown_provider, s)
save_with json c now nonce path provider_type config (some p) s =
    elim (select (is_missing config) p.required_config) [
      | k ∷ ks ↦ (thrown missing_keys, s)
      | [] ↦
          let s' = write_config json c now nonce path provider_type (p.normalize_config config) s in
          (get_config json c path s', s')
    ]

unfoldable pub save_config :
    Json
    → Crypto
    → Providers
    → ℕ
    → Bytes
    → Text
    → Text
    → Dict Text
    → State
    → Outcome ManagerError (Option DynamicConfig) × State
save_config json c providers now nonce path provider_type config s =
    save_with json c now nonce path provider_type config (get provider_type providers) s
