-- ===== src/Dynamic/Sealing.antt =====
-- The tables of dynamic/manager.ts and what it encrypts. A provider is code of its own: its answers
-- are a parameter of each call. `JSON.stringify` before `TextEncoder`, and `TextDecoder` before
-- `JSON.parse`, are the two functions of a record.
use gatehouse.Common.{
  ℕ, ◌≡◌, ◌<◌, leb, Text, text_eq, Bool, not, ◌&&◌, Option, none, some, List, ◌++◌, if◌then◌else◌,
  take, drop, length, first,
}
use gatehouse.Common.Dict.{Dict}
use gatehouse.Common.Exec.{Outcome, done, thrown}
use gatehouse.Common.Utf8.{Bytes}
use gatehouse.Audit.{AuditEntry}
use gatehouse.Secrets.Vault.{Crypto}

pub record Json : Type 0 where
  pub to_bytes : Dict Text → Bytes
  pub of_bytes : Bytes → Option (Dict Text)

-- What was written is read back.
abbrev pub ReadsBack : Json → Type 0
ReadsBack json = (d : Dict Text) → json.of_bytes (json.to_bytes d) ≡ some d

-- A box is not empty: it holds an authentication tag.
abbrev pub HasTag : Crypto → Type 0
HasTag c = (message nonce key : Bytes) → 0 < length (c.seal message nonce key)

abbrev pub nonce_length : ℕ
nonce_length = 24

pub data ManagerError : Type 0 where
  blob_too_short decrypt_failed not_json : ManagerError
  unknown_provider missing_keys provider_failed constraint_failed : ManagerError

pub record ConfigRow : Type 0 where
  pub path : Text
  pub provider_type : Text
  pub config : Bytes
  pub created_at : ℕ
  pub updated_at : ℕ

pub record LeaseRow : Type 0 where
  pub id : Text
  pub path : Text
  pub identity : Text
  pub credential : Bytes
  pub revocation_handle : Text
  pub provider_type : Text
  pub ttl_seconds : ℕ
  pub created_at : ℕ
  pub expires_at : ℕ
  pub revoked : Bool

pub record State : Type 0 where
  pub config_key : Bytes
  pub configs : List ConfigRow
  pub leases : List LeaseRow
  pub audit : List AuditEntry

pub record DynamicConfig : Type 0 where
  pub path : Text
  pub provider_type : Text
  pub config : Dict Text
  pub created_at : ℕ
  pub updated_at : ℕ

pub record DynamicLease : Type 0 where
  pub lease_id : Text
  pub path : Text
  pub identity : Text
  pub credential : Dict Text
  pub revocation_handle : Text
  pub provider_type : Text
  pub ttl_seconds : ℕ
  pub created_at : ℕ
  pub expires_at : ℕ

pub record Created : Type 0 where
  pub credential : Dict Text
  pub revocation_handle : Text

-- What a provider answers: the keys it asks for, its reading of a configuration, and its calls of
-- the outside, which may fail with a message.
pub record Provider : Type 0 where
  pub required_config : List Text
  pub normalize_config : Dict Text → Dict Text
  pub create : Dict Text → Text → ℕ → Outcome Text Created
  pub revoke : Dict Text → Text → Outcome Text (Unit {0})
  pub validate : Dict Text → Bool

abbrev pub Providers : Type 0
Providers = Dict Provider

unfoldable pub encrypt_config : Json → Crypto → Bytes → Bytes → Dict Text → Bytes
encrypt_config json c key nonce config = nonce ++ c.seal (json.to_bytes config) nonce key

abbrev pub parsed : Json → Option Bytes → Outcome ManagerError (Dict Text)
parsed json none = thrown decrypt_failed
parsed json (some plaintext) = elim (json.of_bytes plaintext) [
  | none ↦ thrown not_json
  | some config ↦ done config
]

unfoldable pub decrypt_config : Json → Crypto → Bytes → Bytes → Outcome ManagerError (Dict Text)
decrypt_config json c key bytes =
    if leb (length bytes) nonce_length
    then thrown blob_too_short
    else parsed json (c.open_box (drop nonce_length bytes) (take nonce_length bytes) key)

unfoldable pub find_config : Text → List ConfigRow → Option ConfigRow
find_config path rows = first (λ r. text_eq r.path path) rows

abbrev pub is_live_id : Text → LeaseRow → Bool
is_live_id id r = text_eq r.id id && not r.revoked

unfoldable pub find_live : Text → List LeaseRow → Option LeaseRow
find_live id rows = first (is_live_id id) rows

abbrev pub with_config :
    ConfigRow → Outcome ManagerError (Dict Text) → Outcome ManagerError (Option DynamicConfig)
with_config r (thrown e) = thrown e
with_config r (done config) = done (
    some (record {
      path = r.path;
      provider_type = r.provider_type;
      config = config;
      created_at = r.created_at;
      updated_at = r.updated_at;
    }))

abbrev pub read_config :
    Json → Crypto → Bytes → Option ConfigRow → Outcome ManagerError (Option DynamicConfig)
read_config json c key none = done none
read_config json c key (some r) = with_config r (decrypt_config json c key r.config)

unfoldable pub get_config :
    Json → Crypto → Text → State → Outcome ManagerError (Option DynamicConfig)
get_config json c path s = read_config json c s.config_key (find_config path s.configs)

abbrev pub with_credential : LeaseRow → Dict Text → DynamicLease
with_credential r credential = record {
  lease_id = r.id;
  path = r.path;
  identity = r.identity;
  credential = credential;
  revocation_handle = r.revocation_handle;
  provider_type = r.provider_type;
  ttl_seconds = r.ttl_seconds;
  created_at = r.created_at;
  expires_at = r.expires_at;
}

abbrev pub opened_lease :
    LeaseRow → Outcome ManagerError (Dict Text) → Outcome ManagerError (Option DynamicLease)
opened_lease r (thrown e) = thrown e
opened_lease r (done credential) = done (some (with_credential r credential))

abbrev pub read_lease :
    Json → Crypto → Bytes → Option LeaseRow → Outcome ManagerError (Option DynamicLease)
read_lease json c key none = done none
read_lease json c key (some r) = opened_lease r (decrypt_config json c key r.credential)

unfoldable pub get_lease : Json → Crypto → Text → State → Outcome ManagerError (Option DynamicLease)
get_lease json c id s = read_lease json c s.config_key (find_live id s.leases)
