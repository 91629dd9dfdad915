-- ===== src/Dynamic/Minting.antt =====
-- `checkout` of dynamic/manager.ts, and the entries the manager logs.
use gatehouse.Common.{
  ℕ, ◌+◌, ◌*◌, Text, String, text_eq, Bool, true, false, Option, none, some, List, [], ◌∷◌, ◌++◌,
  first,
}
use gatehouse.Common.Dict.{get}
use gatehouse.Common.Exec.{Outcome, done, thrown}
use gatehouse.Common.Utf8.{Bytes}
use gatehouse.Audit.{AuditEntry, Action, MetaValue, log, dynamic_checkout}
use gatehouse.Lease.State.{sql_datetime}
use gatehouse.Secrets.Vault.{Crypto}
use gatehouse.Dynamic.Sealing.{
  Json, ManagerError, unknown_provider, provider_failed, constraint_failed, LeaseRow, State,
  DynamicConfig, DynamicLease, Created, Provider, Providers, encrypt_config, get_config, get_lease,
}

abbrev pub entry :
    Text → Action → Option Text → Option Text → List (String × MetaValue) → Bool → AuditEntry
entry identity action path id metadata success = record {
  identity = identity;
  action = action;
  path = path;
  lease_id = id;
  source_ip = none;
  metadata = metadata;
  success = success;
}

abbrev pub audited : AuditEntry → State → State
audited e s = record s { audit = log e s.audit }

-- The row and the log of a credential that a provider has made.
abbrev pub store_lease :
    Json
    → Crypto
    → ℕ
    → Bytes
    → Text
    → Text
    → ℕ
    → DynamicConfig
    → Created
    → State
    → Outcome ManagerError (Option DynamicLease) × State
store_lease json c now nonce id identity ttl config made s =
    let row : LeaseRow = record {
      id = id;
      path = config.path;
      identity = identity;
      credential = encrypt_config json c s.config_key nonce made.credential;
      revocation_handle = made.revocation_handle;
      provider_type = config.provider_type;
      ttl_seconds = ttl;
      created_at = sql_datetime now;
      expires_at = sql_datetime (now + ttl * 1000);
      revoked = false;
    } in
    let s' =
      audited
        (entry identity dynamic_checkout (some config.path) (some id)
          (("provider", MetaValue.text config.provider_type) ∷ ("ttl", MetaValue.number ttl) ∷ [])
          true)
        (record s { leases = s.leases ++ row ∷ [] }) in
    elim (first (λ r. text_eq r.id id) s.leases) [
      | some old ↦ (thrown constraint_failed, s)
      | none ↦ (get_lease json c id s', s')
    ]

abbrev pub checkout_made :
    Json
    → Crypto
    → ℕ
    → Bytes
    → Text
    → Text
    → ℕ
    → DynamicConfig
    → Outcome Text Created
    → State
    → Outcome ManagerError (Option DynamicLease) × State
checkout_made json c now nonce id identity ttl config (thrown message) s =
    (thrown provider_failed, s)
checkout_made json c now nonce id identity ttl config (done made) s =
    store_lease json c now nonce id identity ttl config made s

abbrev pub checkout_by :
    Json
    → Crypto
    → ℕ
    → Bytes
    → Text
    → Text
    → ℕ
    → DynamicConfig
    → Option Provider
    → State
    → Outcome ManagerError (Option DynamicLease) × State
checkout_by json c now nonce id identity ttl config none s = (thrown unknown_provider, s)
checkout_by json c now nonce id identity ttl config (some p) s =
    checkout_made json c now nonce id identity ttl config (p.create config.config identity ttl) s

unfoldable pub checkout :
    Json
    → Crypto
    → Providers
    → ℕ
    → Bytes
    → Text
    → Text
    → Text
    → ℕ
    → State
    → Outcome ManagerError (Option DynamicLease) × State
checkout json c providers now nonce id path identity ttl s = elim (get_config json c path s) [
  | thrown e ↦ (thrown e, s)
  | done none ↦ (done none, s)
  | done (some config) ↦
      checkout_by json c now nonce id identity ttl config (get config.provider_type providers) s
]
