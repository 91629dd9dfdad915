-- ===== src/Rotate/Tokens.antt =====
-- The tables behind api/rotate.ts, who may create a link, and its creation and fetching. The origin
-- that a link starts with, and the text of the instructions, are left out. A column that holds JSON
-- is the value that its text stands for.
use gatehouse.Common.{
  ℕ, ltb, Text, text_eq, codes, Bool, true, false, ◌&&◌, ◌||◌, Option, none, some, List, [], ◌∷◌,
  String, if◌then◌else◌, first, drop, starts_with,
}
use gatehouse.Common.Dict.{Dict}
use gatehouse.Common.Int.{ℤ, pos, negsuc}
use gatehouse.Audit.{AuditEntry, Action, MetaValue, log}
use gatehouse.Lease.State.{sql_datetime}
use gatehouse.Rotate.Hits.{Entry}

abbrev pub default_ttl : ℕ
default_ttl = 900

abbrev pub min_ttl : ℕ
min_ttl = 60

abbrev pub max_ttl : ℕ
max_ttl = 3600

pub record Token : Type 0 where
  pub id : Text
  pub token_hash : Text
  pub role_id : Text
  pub created_by : Text
  pub label : Option Text
  pub expires_at : ℕ
  pub consumed_at : Option ℕ
  pub creator_ip : Text
  pub consumer_ip : Option Text

pub record Role : Type 0 where
  pub role_id : Text
  pub secret_hash : Text
  pub display_name : Text
  pub policies : List Text
  pub suspended : Bool
  pub ip_allowlist : List Text
  pub last_used : Option ℕ

pub record State : Type 0 where
  pub tokens : List Token
  pub roles : List Role
  pub audit : List AuditEntry
  pub created : Dict Entry
  pub exchanged : Dict Entry

-- The claims of a token that `jwtVerify` accepts.
pub record Payload : Type 0 where
  pub purpose : Option Text
  pub policies : List Text
  pub sub : Option Text

-- Hashing, the check of a session token, and the root token of the environment.
pub record Library : Type 0 where
  pub sha256 : Text → Text
  pub jwt_verify : Text → Option Payload
  pub root_token : Option Text

-- `Number(body.ttl_seconds)`, or that there is none.
pub data Ttl : Type 0 where
  absent not_finite : Ttl
  seconds : ℤ → Ttl

pub record Body : Type 0 where
  pub role_id : Text
  pub ttl_seconds : Ttl
  pub label : Text

-- With the statuses 200, 200, 429, 403, 400, 400, 404, 400, 410 and 500.
pub data Response : Type 0 where
  link : Text → Text → ℕ → Text → List Text → Response
  instructions : Text → Text → Text → Response
  rate_limited : ℕ → Response
  admin_required invalid_json role_required role_not_found ttl_out_of_range gone failed : Response

unfoldable pub hash_token : Library → Text → Text
hash_token lib token = lib.sha256 token

abbrev is_root : Option Text → Text → Bool
is_root none token = false
is_root (some []) token = false
is_root (some (c ∷ s)) token = text_eq token (c ∷ s)

abbrev or_admin : Option Text → Text
or_admin none = codes "admin"
or_admin (some []) = codes "admin"
or_admin (some (c ∷ s)) = c ∷ s

unfoldable pub contains : Text → List Text → Bool
contains x [] = false
contains x (y ∷ ys) = text_eq y x || contains x ys

abbrev is_pending_totp : Option Text → Bool
is_pending_totp none = false
is_pending_totp (some purpose) = text_eq purpose (codes "totp-pending")

unfoldable pub identity_of : Payload → Option Text
unfolding contains
identity_of payload =
    if is_pending_totp payload.purpose
    then none
    else if contains (codes "admin") payload.policies
    then some (or_admin payload.sub)
    else none

-- The identity of a caller who is an administrator.
unfoldable pub require_admin_identity : Library → Option Text → Option Text
unfolding identity_of
require_admin_identity lib none = none
require_admin_identity lib (some header) =
    if starts_with (codes "Bearer ") header
    then (let token = drop 7 header in
        if is_root lib.root_token token
        then some (codes "root")
        else elim (lib.jwt_verify token) [ none ↦ none | some payload ↦ identity_of payload ])
    else none

unfoldable pub find_role : Text → List Role → Option Role
find_role id roles = first (λ r. text_eq r.role_id id) roles

abbrev pub has_hash : Text → Token → Bool
has_hash hash t = text_eq t.token_hash hash

abbrev pub is_unused : Token → Bool
is_unused t = elim t.consumed_at [ none ↦ true | some at ↦ false ]

-- A link that is not consumed and not over.
abbrev pub is_live : ℕ → Text → Token → Bool
is_live now hash t = has_hash hash t && is_unused t && ltb (sql_datetime now) t.expires_at

unfoldable pub find_live : ℕ → Text → List Token → Option Token
find_live now hash tokens = first (is_live now hash) tokens

-- The ttl of a link, or `none` where it is out of range.
unfoldable pub ttl_of : Ttl → Option ℕ
ttl_of absent = some default_ttl
ttl_of not_finite = none
ttl_of (seconds (negsuc n)) = none
ttl_of (seconds (pos n)) = if ltb n min_ttl || ltb max_ttl n then none else some n

abbrev pub entry : Text → Action → Option Text → List (String × MetaValue) → Bool → AuditEntry
entry identity action ip metadata success = record {
  identity = identity;
  action = action;
  path = none;
  lease_id = none;
  source_ip = ip;
  metadata = metadata;
  success = success;
}

abbrev pub audited : AuditEntry → State → State
audited e s = record s { audit = log e s.audit }
