-- ===== src/Dynamic/Manager.antt =====
-- How `DynamicSecretsManager` in dynamic/manager.ts ends leases: revocation, reaping and the
-- removal of a configuration. While a method waits for a provider nothing else changes the tables.
use gatehouse.Common.{
  ℕ, zero, suc, ltb, leb, Text, text_eq, codes, Bool, true, false, not, ◌&&◌, Option, none, some,
  List, [], ◌∷◌, select, update_where, sort_by,
}
use gatehouse.Common.Dict.{get}
use gatehouse.Common.Exec.{Outcome, done, thrown}
use gatehouse.Common.Utf8.{Bytes}
use gatehouse.Audit.{MetaValue, dynamic_revoke_error, dynamic_revoke, dynamic_reap}
use gatehouse.Lease.State.{sql_datetime}
use gatehouse.Secrets.Vault.{Crypto}
use gatehouse.Dynamic.Sealing.{
  Json, ManagerError, ConfigRow, LeaseRow, State, DynamicConfig, DynamicLease, Provider, Providers,
  decrypt_config, find_config, get_config, with_credential, get_lease,
}
use gatehouse.Dynamic.Minting.{entry, audited}

-- The provider's failure is logged, and nothing else comes of it.
abbrev pub report : Text → DynamicLease → Outcome Text (Unit {0}) → State → State
report identity l (done ok) s = s
report identity l (thrown message) s =
    audited
      (entry identity dynamic_revoke_error (some l.path) (some l.lease_id)
        (("error", MetaValue.text message) ∷ []) false)
      s

abbrev pub revoke_by : Text → DynamicLease → DynamicConfig → Option Provider → State → State
revoke_by identity l config none s = s
revoke_by identity l config (some p) s =
    report identity l (p.revoke config.config l.revocation_handle) s

abbrev pub revoke_at_provider :
    Providers → Text → DynamicLease → Option DynamicConfig → State → State
revoke_at_provider providers identity l none s = s
revoke_at_provider providers identity l (some config) s =
    revoke_by identity l config (get l.provider_type providers) s

abbrev pub scrub_row : LeaseRow → LeaseRow
scrub_row r = record r { revoked = true; credential = codes "{}" }

abbrev pub scrub : Text → State → State
scrub id s = record s { leases = update_where (λ r. text_eq r.id id) scrub_row s.leases }

abbrev pub revoke_found :
    Providers
    → Text
    → DynamicLease
    → Outcome ManagerError (Option DynamicConfig)
    → State
    → Outcome ManagerError Bool × State
revoke_found providers identity l (thrown e) s = (thrown e, s)
revoke_found providers identity l (done config) s = (
  done true,
  audited
      (entry identity dynamic_revoke (some l.path) (some l.lease_id)
        (("provider", MetaValue.text l.provider_type) ∷ []) true)
      (scrub l.lease_id (revoke_at_provider providers identity l config s)),
)

abbrev pub revoke_read :
    Json
    → Crypto
    → Providers
    → Text
    → Outcome ManagerError (Option DynamicLease)
    → State
    → Outcome ManagerError Bool × State
revoke_read json c providers identity (thrown e) s = (thrown e, s)
revoke_read json c providers identity (done none) s = (done false, s)
revoke_read json c providers identity (done (some l)) s =
    revoke_found providers identity l (get_config json c l.path s) s

unfoldable pub revoke_lease :
    Json → Crypto → Providers → Text → Text → State → Outcome ManagerError Bool × State
revoke_lease json c providers id identity s =
    revoke_read json c providers identity (get_lease json c id s) s

abbrev pub is_expired : ℕ → LeaseRow → Bool
is_expired now r = not r.revoked && leb r.expires_at (sql_datetime now)

abbrev pub reaper : Text
reaper = codes "system:reaper"

abbrev pub counted : Outcome ManagerError Bool → ℕ → ℕ
counted (done b) n = suc n
counted (thrown e) n = n

-- A lease that cannot be revoked is passed over.
unfoldable pub revoke_each :
    Json → Crypto → Providers → Text → List LeaseRow → State → ℕ → ℕ × State
revoke_each json c providers identity [] s n = (n, s)
revoke_each json c providers identity (row ∷ rows) s n =
    let (result, s') = revoke_lease json c providers row.id identity s in
    revoke_each json c providers identity rows s' (counted result n)

abbrev pub report_reaped : ℕ → State → State
report_reaped zero s = s
report_reaped (suc n) s =
    audited
      (entry reaper dynamic_reap none none (("expired_count", MetaValue.number (suc n)) ∷ []) true)
      s

unfoldable pub reap_expired : Json → Crypto → Providers → ℕ → State → ℕ × State
reap_expired json c providers now s =
    let (count, s') = revoke_each json c providers reaper (select (is_expired now) s.leases) s 0 in
    (count, report_reaped count s')

-- `if (path)`: an empty path stands for all.
abbrev pub is_active_at : ℕ → Text → LeaseRow → Bool
is_active_at now [] r = not r.revoked && ltb (sql_datetime now) r.expires_at
is_active_at now (c ∷ cs) r =
    not r.revoked && ltb (sql_datetime now) r.expires_at && text_eq r.path (c ∷ cs)

abbrev pub created_later : LeaseRow → LeaseRow → Bool
created_later y x = leb x.created_at y.created_at

unfoldable pub active_rows : ℕ → Text → List LeaseRow → List LeaseRow
active_rows now path rows = sort_by created_later (select (is_active_at now path) rows)

-- One credential that does not open makes the list throw.
unfoldable pub read_all :
    Json → Crypto → Bytes → List LeaseRow → Outcome ManagerError (List DynamicLease)
read_all json c key [] = done []
read_all json c key (r ∷ rs) =
    let rest = read_all json c key rs in
    elim (decrypt_config json c key r.credential) [
      | thrown e ↦ thrown e
      | done credential ↦ elim rest [
        | thrown e ↦ thrown e
        | done leases ↦ done (with_credential r credential ∷ leases)
      ]
    ]

unfoldable pub list_active_leases :
    Json → Crypto → ℕ → Text → State → Outcome ManagerError (List DynamicLease)
list_active_leases json c now path s = read_all json c s.config_key (active_rows now path s.leases)

abbrev pub has_config : Option ConfigRow → Bool
has_config none = false
has_config (some r) = true

abbrev pub drop_path : Text → State → State
drop_path path s = record s {
  leases = select (λ r. not (text_eq r.path path)) s.leases;
  configs = select (λ r. not (text_eq r.path path)) s.configs;
}

-- A failure to list the leases is the method's; one to revoke a lease is ignored.
unfoldable pub delete_config :
    Json → Crypto → Providers → ℕ → Text → State → Outcome ManagerError Bool × State
delete_config json c providers now path s = elim (list_active_leases json c now path s) [
  | thrown e ↦ (thrown e, s)
  | done leases ↦
      let rows = active_rows now path s.leases in
      let (count, s') = revoke_each json c providers (codes "system:config-delete") rows s 0 in
      (done (has_config (find_config path s'.configs)), drop_path path s')
]
