-- ===== src/Gates/Enforce.antt =====
-- `enforceProxyGates` of api/proxyGates.ts. The handler is synchronous, so one `now` stands for the
-- times at which it reads the clock; the identifiers that the leases it mints get are a list. The
-- texts of the responses and `request_id` are left out.
use gatehouse.Common.{
  ℕ, ◌+◌, ◌-◌, ◌*◌, ◌^◌, Text, String, codes, trim, trim_start, split_on, filter_nonempty, is_digit,
  Bool, false, ◌&&◌, Option, none, some, List, [], ◌∷◌, ◌++◌, ltb, ◌==◌, if◌then◌else◌,
}
use gatehouse.Common.Dict.{Dict}
use gatehouse.Common.Dict
use gatehouse.Common.Exec.{pure, gets, modify, ◌>>=◌, ◌>>◌}
use gatehouse.Audit.{AuditEntry, MetaValue, Action}
use gatehouse.RateLimit.Limiter.{
  AppRoleLimits, LimitKind, RateLimiter, Refusal, RateLimitDecision, check_approle, check_secret,
}
use gatehouse.Lease.State.{Secrets, audited, find_active_approved_lease}
use gatehouse.Lease.Manager.{Manager, requires_approval}
use gatehouse.Lease.Decisions.{auto_approve}
use gatehouse.Address.Cidr.{ip_matches_allowlist}
use gatehouse.Address.Source.{map_text}

pub data AuthSource : Type 0 where
  root user approle : AuthSource

-- `role_limits` is the row of `app_roles` with that role_id.
pub record GatesContext : Type 0 where
  pub source : AuthSource
  pub role_id : Option Text
  pub identity : Text
  pub source_ip : Text
  pub secret_paths : List Text
  pub role_limits : Text → Option AppRoleLimits
  pub rate_limiter : RateLimiter
  pub secrets : Secrets

pub record RateBlock : Type 0 where
  pub retry_after : ℕ
  pub limit_kind : LimitKind

-- `rate_blocked` has status 429, `approval_blocked` has 403.
pub data GatesResult : Type 0 where
  gates_allowed : Text → Dict Text → GatesResult
  rate_blocked : RateBlock → GatesResult
  approval_blocked : List Text → GatesResult

-- `ctx.auth.source === "approle" && ctx.auth.role_id`, and the empty text for everybody else.
unfoldable pub gate_role : AuthSource → Option Text → Text
gate_role approle (some role_id) = role_id
gate_role _ _ = []

unfoldable pub limits_of : (Text → Option AppRoleLimits) → Text → Option AppRoleLimits
limits_of role_limits [] = none
limits_of role_limits (c ∷ s) = role_limits (c ∷ s)

-- `paths.join(",")`
unfoldable pub join : List Text → Text
join [] = []
join (p ∷ []) = p
join (p ∷ q ∷ ps) = p ++ b',' ∷ join (q ∷ ps)

abbrev kind_text : LimitKind → Text
kind_text LimitKind.approle_minute = codes "approle_minute"
kind_text LimitKind.approle_hour = codes "approle_hour"
kind_text LimitKind.approle_day = codes "approle_day"
kind_text LimitKind.secret_minute = codes "secret_minute"

unfoldable pub blocked_entry : Text → Text → Action → Text → List (String × MetaValue) → AuditEntry
blocked_entry identity source_ip action path metadata = record {
  identity = identity;
  action = action;
  path = some path;
  lease_id = none;
  source_ip = some source_ip;
  metadata = metadata;
  success = false;
}

abbrev at_least_one : ℕ → ℕ
at_least_one n = if n == 0 then 1 else n

unfoldable pub rate_refused : GatesContext → Text → Refusal → Manager GatesResult
unfolding blocked_entry
rate_refused ctx path d = do
  modify (
      audited (
        blocked_entry ctx.identity ctx.source_ip Action.proxy_blocked_rate_limit path (
          ("limit_kind", MetaValue.text (kind_text d.limit_kind))
          ∷ ("limit", MetaValue.number d.limit)
          ∷ ("current", MetaValue.number d.current)
          ∷ [])))
  pure (
      rate_blocked
        (record { retry_after = at_least_one d.retry_after_seconds; limit_kind = d.limit_kind }))

unfoldable pub approle_gate : ℕ → GatesContext → Option Refusal
unfolding gate_role limits_of
approle_gate now ctx =
    let role_id = gate_role ctx.source ctx.role_id in
    elim (limits_of ctx.role_limits role_id) [
      | none ↦ none
      | some limits ↦ elim (check_approle ctx.rate_limiter now role_id limits) [
        | RateLimitDecision.allowed ↦ none
        | RateLimitDecision.refused d ↦ some d
      ]
    ]

-- The digits that `parseInt(raw, 10)` reads after `acc`; `none` while there is none.
unfoldable pub leading_number : Option ℕ → Text → Option ℕ
leading_number acc [] = acc
leading_number acc (c ∷ s) =
    let rest =
      leading_number (elim acc [ none ↦ some (c - b'0') | some n ↦ some (n * 10 + (c - b'0')) ])
        s in
    if is_digit c then rest else acc

abbrev signed_number : Text → Option ℕ
unfolding leading_number
signed_number [] = none
signed_number (c ∷ s) =
    if c == b'+'
    then leading_number none s
    else if c == b'-'
    then none
    else leading_number none (c ∷ s)

-- A finite `parseInt(raw, 10)` above 0: a number from 2^1024 - 2^970 on is read as infinite.
unfoldable pub positive_int : Text → Option ℕ
unfolding signed_number
positive_int raw = elim (signed_number (trim_start raw)) [
  | none ↦ none
  | some n ↦ if ltb 0 n && ltb n (2 ^ 1024 - 2 ^ 970) then some n else none
]

abbrev pub value_at : String → Option (Dict Text) → Option Text
value_at key none = none
value_at key (some metadata) = Dict.get (codes key) metadata

unfoldable pub secret_limit : Option (Dict Text) → Option ℕ
unfolding positive_int
secret_limit meta = elim (value_at "rate_limit_per_minute" meta) [
  | none ↦ none
  | some raw ↦ positive_int raw
]

unfoldable pub secret_refusal : ℕ → GatesContext → Text → Option Refusal
secret_refusal now ctx p = elim (secret_limit (ctx.secrets.get_meta p)) [
  | none ↦ none
  | some per_minute ↦ elim (check_secret ctx.rate_limiter now p per_minute) [
    | RateLimitDecision.allowed ↦ none
    | RateLimitDecision.refused d ↦ some d
  ]
]

-- The first path that is over its limit.
unfoldable pub secrets_gate : ℕ → GatesContext → List Text → Option (Text × Refusal)
unfolding secret_refusal
secrets_gate now ctx [] = none
secrets_gate now ctx (p ∷ ps) = elim (secret_refusal now ctx p) [
  | some d ↦ some (p, d)
  | none ↦ secrets_gate now ctx ps
]

abbrev pub nonempty_value : Option Text → Option Text
nonempty_value (some (c ∷ s)) = some (c ∷ s)
nonempty_value _ = none

-- `allowlistRaw` is there and not empty, and its networks hold the caller's address.
unfoldable pub is_auto_approved : Text → Option (Dict Text) → Bool
is_auto_approved source_ip meta = elim (nonempty_value (value_at "auto_approve_from_ip" meta)) [
  | none ↦ false
  | some raw ↦ ip_matches_allowlist source_ip (filter_nonempty (map_text trim (split_on b',' raw)))
]

unfoldable pub auto_ttl : Option (Dict Text) → ℕ
unfolding positive_int
auto_ttl meta = elim (nonempty_value (value_at "auto_approve_ttl_seconds" meta)) [
  | none ↦ 300
  | some raw ↦ elim (positive_int raw) [ none ↦ 300 | some n ↦ n ]
]

-- The lease that covers one path that wants approval, if there is one.
unfoldable pub approval_of : ℕ → Text → GatesContext → Text → Manager (Option Text)
approval_of now uuid ctx p = do
  existing ← gets (λ s. find_active_approved_lease now ctx.identity p s.leases)
  elim existing [
    | some l ↦ pure (some l.id)
    | none ↦
        if is_auto_approved ctx.source_ip (ctx.secrets.get_meta p)
        then (do
          l ←
              auto_approve ctx.secrets now uuid p ctx.identity (auto_ttl (ctx.secrets.get_meta p))
                (codes "system:auto_approve_from_ip") (codes "Auto-approved from " ++ ctx.source_ip)
          pure (some l.id))
        else pure none
  ]

-- The identifier for the next lease.
abbrev pub next_uuid : List Text → Text
next_uuid [] = []
next_uuid (u ∷ us) = u

abbrev pub rest_uuids : List Text → List Text
rest_uuids [] = []
rest_uuids (u ∷ us) = us

-- The third gate: `leaseIds` and `blockedByApproval` after the paths. Each path has a uuid of its own.
unfoldable pub approval_gate :
    ℕ
    → List Text
    → GatesContext
    → List Text
    → Dict Text
    → List Text
    → Manager (Dict Text × List Text)
approval_gate now uuids ctx [] lease_ids blocked = pure (lease_ids, blocked)
approval_gate now uuids ctx (p ∷ ps) lease_ids blocked =
    if requires_approval (ctx.secrets.get_meta p)
    then (do
      found ← approval_of now (next_uuid uuids) ctx p
      elim found [
        | some id ↦ approval_gate now (rest_uuids uuids) ctx ps (Dict.set p id lease_ids) blocked
        | none ↦ approval_gate now (rest_uuids uuids) ctx ps lease_ids (blocked ++ p ∷ [])
      ])
    else approval_gate now (rest_uuids uuids) ctx ps lease_ids blocked

unfoldable pub settle : GatesContext → Dict Text × List Text → Manager GatesResult
unfolding blocked_entry
settle ctx (lease_ids, []) = pure (gates_allowed (gate_role ctx.source ctx.role_id) lease_ids)
settle ctx (lease_ids, p ∷ ps) = do
  modify (
      audited (
        blocked_entry ctx.identity ctx.source_ip Action.proxy_blocked_approval (join (p ∷ ps))
          (("requires_approval", MetaValue.text (join (p ∷ ps))) ∷ [])))
  pure (approval_blocked (p ∷ ps))

unfoldable pub enforce_proxy_gates : ℕ → List Text → GatesContext → Manager GatesResult
enforce_proxy_gates now uuids ctx = elim (approle_gate now ctx) [
  | some d ↦ rate_refused ctx (join ctx.secret_paths) d
  | none ↦ elim (secrets_gate now ctx ctx.secret_paths) [
    | some (p, d) ↦ rate_refused ctx p d
    | none ↦ do outcome ← approval_gate now uuids ctx ctx.secret_paths [] []; settle ctx outcome
  ]
]
