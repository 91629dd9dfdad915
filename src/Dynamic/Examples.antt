-- ===== src/Dynamic/Examples.antt =====
-- Runs of dynamic/grants.ts and dynamic/manager.ts.
use gatehouse.Common.{
  ℕ, zero, suc, ◌≡◌, ◌≢◌, refl, ap, ◌∙◌, arith, some, none, false, ◌++◌, replicate, select, first,
  update_where, Text, codes, text_eq, true, List, [], ◌∷◌, All, trim, trim_start, is_space,
  split_on, filter_nonempty,
}
use gatehouse.Dynamic.Grants.{
  upper, upper_case, tokens_of, tokens, not_allowed, is_member, check_tokens, validate_against,
  validate_postgres_grants, postgresql_privileges, validate_against-All,
}
use gatehouse.Common.Dict.{Dict, get}
use gatehouse.Common.Exec.{done, thrown}
use gatehouse.Common.Utf8.{Bytes}
use gatehouse.Secrets.Vault.{derive_key}
use gatehouse.Secrets.Examples.{plain_crypto, plain_crypto-Opens}
use gatehouse.Dynamic.Sealing.{
  Json, ReadsBack, HasTag, LeaseRow, State, DynamicConfig, Provider, Providers, decrypt_failed,
  encrypt_config, decrypt_config, find_config, find_live, get_config, with_credential, get_lease,
}
use gatehouse.Dynamic.Saving.{is_missing, upsert, save_config}
use gatehouse.Dynamic.Minting.{checkout}
use gatehouse.Dynamic.Manager.{revoke_lease, reap_expired}
use gatehouse.Dynamic.Keys.{reseal_configs, rotate_config_key}
use gatehouse.Dynamic.Revoking.{Readable, rows_after, revoke_lease-Scrubs}
use gatehouse.Dynamic.Reaping.{reap_expired-closes}
use gatehouse.Dynamic.Configs.{save_config-reads}

abbrev two : List Text
two = codes "SELECT" ∷ codes "ALL PRIVILEGES" ∷ []

two_accepted :
    validate_against (codes "select, all privileges ,") postgresql_privileges ≡ tokens two
unfolding validate_against check_tokens is_member tokens_of upper_case upper trim trim_start
    is_space split_on filter_nonempty text_eq
two_accepted = refl

injection_refused :
    validate_postgres_grants (codes "SELECT; DROP") ≡ not_allowed (codes "SELECT; DROP")
unfolding validate_postgres_grants validate_against check_tokens is_member tokens_of upper_case
    upper trim trim_start is_space split_on filter_nonempty text_eq
injection_refused = refl

validate_against-All_example : All (λ t. is_member t postgresql_privileges ≡ true) two × (two ≢ [])
validate_against-All_example =
    validate_against-All (codes "select, all privileges ,") postgresql_privileges two two_accepted

-- A dictionary as numbers: each character one up, and a zero after each text.
abbrev text_bytes : Text → Bytes → Bytes
text_bytes [] rest = 0 ∷ rest
text_bytes (x ∷ xs) rest = suc x ∷ text_bytes xs rest

abbrev to_bytes : Dict Text → Bytes
to_bytes [] = []
to_bytes ((k, v) ∷ d) = text_bytes k (text_bytes v (to_bytes d))

abbrev push : ℕ → List Text → List Text
push c [] = []
push c (t ∷ ts) = (c ∷ t) ∷ ts

abbrev texts : Bytes → List Text
texts [] = []
texts (zero ∷ bs) = [] ∷ texts bs
texts (suc c ∷ bs) = push c (texts bs)

abbrev pairs : List Text → Dict Text
pairs [] = []
pairs (k ∷ []) = []
pairs (k ∷ v ∷ ts) = (k, v) ∷ pairs ts

abbrev plain_json : Json
plain_json = record { to_bytes = to_bytes; of_bytes = λ bytes. some (pairs (texts bytes)) }

texts-text_bytes : (t : Text) (rest : Bytes) → texts (text_bytes t rest) ≡ t ∷ texts rest
texts-text_bytes [] rest = refl
texts-text_bytes (x ∷ xs) rest = ap (push x) (texts-text_bytes xs rest)

pairs-to_bytes : (d : Dict Text) → pairs (texts (to_bytes d)) ≡ d
pairs-to_bytes [] = refl
pairs-to_bytes ((k, v) ∷ d) =
    ap pairs (
      texts-text_bytes k (text_bytes v (to_bytes d))
      ∙ ap (λ ts. k ∷ ts) (texts-text_bytes v (to_bytes d)))
    ∙ ap (λ e. (k, v) ∷ e) (pairs-to_bytes d)

plain_json-ReadsBack : ReadsBack plain_json
plain_json-ReadsBack d = ap some (pairs-to_bytes d)

plain_crypto-HasTag : HasTag plain_crypto
plain_crypto-HasTag message nonce key = omega arith

-- A database that makes a user and fails to drop it.
abbrev failing : Provider
failing = record {
  required_config = codes "host" ∷ [];
  normalize_config = λ config. config;
  create = λ config identity ttl.
      done
        (record { credential = (codes "user", codes "u1") ∷ []; revocation_handle = codes "u1" });
  revoke = λ config handle. thrown (codes "connection refused");
  validate = λ config. true;
}

abbrev providers : Providers
providers = (codes "postgresql", failing) ∷ []

abbrev nonce : Bytes
nonce = replicate 24 9

abbrev config : Dict Text
config = (codes "host", codes "db") ∷ []

abbrev empty : State
empty = record { config_key = 5 ∷ []; configs = []; leases = []; audit = [] }

abbrev saved_state : State
saved_state =
    (save_config plain_json plain_crypto providers 0 nonce (codes "pg") (codes "postgresql") config
      empty).1

abbrev leased : State
leased =
    (checkout plain_json plain_crypto providers 1000 nonce (codes "dlease-1") (codes "pg")
      (codes "agent") 60 saved_state).1

provider_there : get (codes "postgresql") providers ≡ some failing
unfolding get text_eq
provider_there = refl

config_complete : select (is_missing config) failing.required_config ≡ []
unfolding select get text_eq
config_complete = refl

save_config-reads_example :
    let (result, t) =
      save_config plain_json plain_crypto providers 0 nonce
        (codes "pg")
        (codes "postgresql")
        config
        empty in
    (saved : DynamicConfig) × (result ≡ done (some saved))
    × (get_config plain_json plain_crypto (codes "pg") t ≡ done (some saved))
    × (saved.config ≡ failing.normalize_config config)
save_config-reads_example =
    save_config-reads plain_json plain_crypto providers 0 nonce (codes "pg") (codes "postgresql")
      config failing empty plain_crypto-Opens plain_crypto-HasTag plain_json-ReadsBack refl
      provider_there config_complete

abbrev lease_row : LeaseRow
lease_row = record {
  id = codes "dlease-1";
  path = codes "pg";
  identity = codes "agent";
  credential = nonce ++ (0 ∷ nonce ++ 5 ∷ []) ++ to_bytes ((codes "user", codes "u1") ∷ []);
  revocation_handle = codes "u1";
  provider_type = codes "postgresql";
  ttl_seconds = 60;
  created_at = 1000;
  expires_at = 61000;
  revoked = false;
}

lease_there : find_live (codes "dlease-1") leased.leases ≡ some lease_row
unfolding checkout save_config get_config find_config get_lease find_live upsert select first get
    text_eq encrypt_config decrypt_config
lease_there = refl

lease-Readable : Readable plain_json plain_crypto (codes "dlease-1") leased
unfolding checkout save_config get_config find_config get_lease find_live upsert select first get
    text_eq encrypt_config decrypt_config
lease-Readable = (
  with_credential lease_row ((codes "user", codes "u1") ∷ []),
  some (record {
    path = codes "pg";
    provider_type = codes "postgresql";
    config = config;
    created_at = 0;
    updated_at = 0;
  }),
  refl,
  refl,
)

reap_expired-closes_example :
    find_live
      (codes "dlease-1")
      (reap_expired plain_json plain_crypto providers 70000 leased).1.leases
    ≡ none
reap_expired-closes_example =
    reap_expired-closes plain_json plain_crypto providers 70000 (codes "dlease-1") leased lease_row
      lease_there refl lease-Readable

revoke_lease-Scrubs_example :
    let (result, t) =
      revoke_lease plain_json plain_crypto providers (codes "dlease-1") (codes "agent") leased in
    t.leases ≡ rows_after (codes "dlease-1") result leased.leases
revoke_lease-Scrubs_example =
    revoke_lease-Scrubs plain_json plain_crypto providers (codes "dlease-1") (codes "agent") leased

-- After the key has changed, the credential of an open lease does not open.
rotated_away :
    get_lease plain_json plain_crypto
      (codes "dlease-1")
      (rotate_config_key plain_json plain_crypto 2000 (λ n. nonce) (6 ∷ []) leased).1
    ≡ thrown decrypt_failed
unfolding checkout save_config get_config find_config get_lease find_live upsert select first get
    text_eq encrypt_config decrypt_config rotate_config_key reseal_configs update_where derive_key
rotated_away = refl
