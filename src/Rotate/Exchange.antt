-- ===== src/Rotate/Exchange.antt =====
-- The exchange of a link in api/rotate.ts. The handler waits for the hash of the new secret between
-- its checks and its transaction, and other requests run meanwhile: these are two steps here.
use gatehouse.Common.{
  ℕ, ◌==◌, Text, text_eq, codes, Bool, true, false, ◌&&◌, Option, none, some, List, [], ◌∷◌, ◌++◌,
  if◌then◌else◌, update_where, count_where,
}
use gatehouse.Address.Cidr.{ip_matches_allowlist}
use gatehouse.Audit.{AuditEntry, MetaValue, rotate_token_exchange}
use gatehouse.Lease.State.{sql_datetime}
use gatehouse.Rotate.Hits.{Hit, ok, retry_after, hit, exchange_max}
use gatehouse.Rotate.Tokens.{
  Token, Role, State, Library, hash_token, find_role, is_unused, is_live, find_live, entry, audited,
}

-- What the checks of the handler leave for its transaction.
pub record Pending : Type 0 where
  pub ip : Text
  pub token_hash : Text
  pub token : Token
  pub display_name : Option Text

-- With the statuses 200, 429, 410, 403 and 403; `goes_on` is the handler that waits.
pub data Answer : Type 0 where
  exchanged : Text → Text → Option Text → Answer
  rate_limited : ℕ → Answer
  gone ip_not_permitted role_suspended : Answer
  goes_on : Pending → Answer

-- The columns of the role, null where the join finds none. A name in a text is then `null`.
abbrev name_of : Option Role → Option Text
name_of none = none
name_of (some role) = some role.display_name

abbrev pub is_suspended : Option Role → Bool
is_suspended none = false
is_suspended (some role) = role.suspended

abbrev pub allowlist_of : Option Role → List Text
allowlist_of none = []
allowlist_of (some role) = role.ip_allowlist

abbrev role_identity : Option Text → Text
role_identity none = codes "approle:null"
role_identity (some name) = codes "approle:" ++ name

-- `allowlist.length > 0 && !ipMatchesAllowlist(ip, allowlist)`
unfoldable pub is_refused : Text → List Text → Bool
is_refused ip [] = false
is_refused ip (x ∷ xs) = if ip_matches_allowlist ip (x ∷ xs) then false else true

abbrev failure_entry : Text → Token → Option Text → Text → AuditEntry
failure_entry ip t name reason =
    entry (role_identity name) rotate_token_exchange (some ip)
      (("token_id", MetaValue.text t.id)
        ∷ ("role_id", MetaValue.text t.role_id)
        ∷ ("reason", MetaValue.text reason)
        ∷ [])
      false

abbrev pub consume : ℕ → Text → Token → Token
consume now ip t = record t { consumed_at = some (sql_datetime now); consumer_ip = some ip }

unfoldable pub check_row : ℕ → Text → Text → Token → State → Answer × State
check_row now ip hash t s =
    let role = find_role t.role_id s.roles in
    if is_refused ip (allowlist_of role)
    then (ip_not_permitted, audited (failure_entry ip t (name_of role) (codes "ip_not_allowed")) s)
    else if is_suspended role
    then (
      role_suspended,
      audited (failure_entry ip t (name_of role) (codes "role_suspended")) (record s {
        tokens = update_where (λ x. text_eq x.id t.id && is_unused x) (consume now ip) s.tokens;
      }),
    )
    else (
      goes_on (record { ip = ip; token_hash = hash; token = t; display_name = name_of role }),
      s,
    )

abbrev pub start_row : ℕ → Text → Text → Option Token → State → Answer × State
start_row now ip hash none s = (gone, s)
start_row now ip hash (some t) s = check_row now ip hash t s

abbrev pub start_after : Library → ℕ → Text → Text → Hit → State → Answer × State
start_after lib now ip token (retry_after n) s = (rate_limited n, s)
start_after lib now ip token ok s =
    let hash = hash_token lib token in start_row now ip hash (find_live now hash s.tokens) s

-- From the request to the wait.
unfoldable pub start_exchange : Library → ℕ → Text → Text → State → Answer × State
start_exchange lib now ip token s =
    let (answer, counters) = hit now ip exchange_max s.exchanged in
    start_after lib now ip token answer (record s { exchanged = counters })

abbrev pub with_secret : ℕ → Text → Role → Role
with_secret now secret_hash role = record role {
  secret_hash = secret_hash;
  last_used = some (sql_datetime now);
}

-- The transaction: it goes through if it consumes exactly one row.
unfoldable pub commit : ℕ → Pending → Text → State → Bool × State
commit now p secret_hash s =
    if count_where (is_live now p.token_hash) s.tokens == 1
    then (
      true,
      record s {
        tokens = update_where (is_live now p.token_hash) (consume now p.ip) s.tokens;
        roles =
            update_where (λ r. text_eq r.role_id p.token.role_id) (with_secret now secret_hash)
              s.roles;
      },
    )
    else (
      false,
      record s { tokens = update_where (is_live now p.token_hash) (consume now p.ip) s.tokens },
    )

-- From the hash of the new secret to the answer.
unfoldable pub finish_exchange : ℕ → Pending → Text → Text → State → Answer × State
finish_exchange now p secret_id secret_hash s =
    let (consumed, s') = commit now p secret_hash s in
    if consumed
    then (
      exchanged p.token.role_id secret_id p.display_name,
      audited
          (entry (role_identity p.display_name) rotate_token_exchange (some p.ip)
            (("token_id", MetaValue.text p.token.id)
              ∷ ("role_id", MetaValue.text p.token.role_id)
              ∷ ("rotated", MetaValue.text (codes "true"))
              ∷ [])
            true)
          s',
    )
    else (gone, s')
