-- ===== src/Api/Leases.antt =====
-- The handlers of api/lease.ts, for a caller that the middleware has read, on a server without
-- dynamic secrets. A body that is not JSON is one without fields, and a body that is JSON is an
-- object; its numbers are whole.
use gatehouse.Common.{
  ℕ, ◌-◌, ◌==◌, ltb, leb, Text, text_eq, codes, Bool, not, ◌&&◌, ◌||◌, Option, none, some, List, [],
  if◌then◌else◌, take, length, starts_with,
}
use mathlib.Core.List.{reverse}
use gatehouse.Common.Dict.{Dict}
use gatehouse.Common.Int.{ℤ, pos, negsuc}
use gatehouse.Common.Exec.{Outcome, done, thrown}
use gatehouse.Lease.State.{
  Lease, LeaseError, State, Secrets, justification_length, ttl_range, decryption_failed,
  is_approved, get_lease,
}
use gatehouse.Lease.Manager.{request_access}
use gatehouse.Lease.Decisions.{undecided, approve, deny, renew}
use gatehouse.Policy.Engine.{Engine, Capability, admin, lease, proxy, check}
use gatehouse.Secrets.Vault.{Crypto, Vault, VaultError, StoredSecret}
use gatehouse.Secrets.Vault
use gatehouse.Settings.Routes.{Caller}

pub record App : Type 0 where
  pub engine : Engine
  pub leases : State
  pub vault : Vault

-- What a request carries beside its path: the time, two fresh identifiers, and the caller.
pub record Context : Type 0 where
  pub now : ℕ
  pub checkout_id : Text
  pub approval_id : Text
  pub caller : Caller

-- A field `ttl` that is falsy, that is a number, or that is something else.
pub data TtlField : Type 0 where
  missing other : TtlField
  number : ℤ → TtlField

pub record Body : Type 0 where
  pub ttl : TtlField
  pub justification : Option Text
  pub request_ttl : Option ℤ
  pub reason : Option Text

-- With the statuses 200, 200, 202 (or 200 for a request that was there), 404, 404, 403, 403, 409,
-- 400, 400 and 500, and 200 for the lists and for a revocation.
pub data Response : Type 0 where
  shown : Lease → Response
  checked_out : Lease → Text → Response
  requested : Lease → Bool → Response
  lease_not_found secret_not_found forbidden needs_approval conflict invalid_ttl : Response
  refused : LeaseError → Response
  failed : LeaseError → Response
  listed : List Lease → Response
  revoked : Response

-- The secrets engine as leases see it.
abbrev metadata_of : Option StoredSecret → Option (Dict Text)
metadata_of none = none
metadata_of (some meta) = some meta.metadata

abbrev value_of : Outcome VaultError (Option Text) → Outcome LeaseError (Option Text)
value_of (done v) = done v
value_of (thrown e) = thrown decryption_failed

abbrev pub as_secrets : Crypto → Vault → Secrets
as_secrets c vault = record {
  get_meta = λ path. metadata_of (Vault.get_meta path vault);
  get = λ path. value_of (Vault.get c path vault);
}

unfoldable pub ends_with : Text → Text → Bool
ends_with suffix path = starts_with (reverse suffix) (reverse path)

-- `path.slice(0, -suffix.length)`
unfoldable pub without : Text → Text → Text
without suffix path = take (length path - length suffix) path

abbrev pub is_lease_id : Text → Bool
is_lease_id id = starts_with (codes "lease-") id

abbrev pub checked : Context → Text → Capability → App → Bool × App
checked ctx path capability app =
    let (allowed, engine) = check app.engine ctx.caller.policies path capability in
    (allowed, record app { engine = engine })

abbrev pub with_leases : App → State → App
with_leases app s = record app { leases = s }

abbrev pub or_empty : Option Text → Text
or_empty none = []
or_empty (some t) = t

abbrev pub decided : Option Lease → Response
decided none = conflict
decided (some l) = shown l

-- The last steps of both decisions, for the lease that was found.
abbrev pub decide_on : (State → Option Lease × State) → Option Lease → App → Response × App
decide_on decision none app = (lease_not_found, app)
decide_on decision (some l) app =
    let (result, s) = decision app.leases in
    if undecided l then (decided result, with_leases app s) else (conflict, app)

abbrev pub decide : (State → Option Lease × State) → Context → Text → App → Response × App
decide decision ctx id app =
    let (is_admin, app') = checked ctx (codes "*") admin app in
    if is_lease_id id
    then (if is_admin
        then decide_on decision (get_lease id app.leases.leases) app'
        else (forbidden, app'))
    else (lease_not_found, app)

unfoldable pub post_approve : Context → Text → App → Response × App
post_approve ctx id app = decide (approve ctx.now id ctx.caller.identity) ctx id app

unfoldable pub post_deny : Context → Text → Body → App → Response × App
post_deny ctx id body app =
    decide (deny ctx.now id ctx.caller.identity (or_empty body.reason)) ctx id app

-- `body.ttl || default`, where it is a number from 10 to 86400.
unfoldable pub ttl_from : ℕ → TtlField → Option ℕ
ttl_from default missing = if leb 10 default && leb default 86400 then some default else none
ttl_from default other = none
ttl_from default (number (negsuc n)) = none
ttl_from default (number (pos n)) =
    let ttl = if n == 0 then default else n in
    if leb 10 ttl && leb ttl 86400 then some ttl else none

-- A renewal of a lease that is there, of the caller or for an administrator.
unfoldable pub renew_lease : Context → Text → Body → Lease → Bool → App → Response × App
renew_lease ctx id body l is_admin app =
    if not (text_eq l.identity ctx.caller.identity) && not is_admin
    then (forbidden, app)
    else if not (is_approved l.status)
    then (conflict, app)
    else elim (ttl_from (if l.ttl_seconds == 0 then 300 else l.ttl_seconds) body.ttl) [
      | none ↦ (invalid_ttl, app)
      | some ttl ↦
          let (result, s) = renew ctx.now id ttl ctx.caller.identity app.leases in
          (decided result, with_leases app s)
    ]

-- Whether the lease was there for more than a second. The source reads the SQL time as one of the
-- server's own zone; this is a server whose zone is UTC.
abbrev pub is_dedup : ℕ → Lease → Bool
is_dedup now l = ltb 1000 (now - l.created_at)

abbrev pub request_result : ℕ → Outcome LeaseError Lease → Response
request_result now (done l) = requested l (is_dedup now l)
request_result now (thrown justification_length) = refused justification_length
request_result now (thrown ttl_range) = refused ttl_range
request_result now (thrown e) = failed e

abbrev pub request_seconds : TtlField → ℤ
request_seconds missing = pos 300
request_seconds other = pos 300
request_seconds (number z) = z

abbrev pub request_window : Option ℤ → ℤ
request_window none = pos 3600
request_window (some z) = z

abbrev pub request_for : Crypto → Context → Text → Body → Option StoredSecret → App → Response × App
request_for c ctx path body none app = (secret_not_found, app)
request_for c ctx path body (some meta) app =
    let (result, s) =
      request_access (as_secrets c app.vault) ctx.now ctx.checkout_id path ctx.caller.identity
        (request_seconds body.ttl) (or_empty body.justification) (request_window body.request_ttl)
        app.leases in
    (request_result ctx.now result, with_leases app s)

unfoldable pub post_request : Crypto → Context → Text → Body → App → Response × App
post_request c ctx path body app =
    let (can_proxy, app1) = checked ctx path proxy app in
    let (can_lease, app2) = checked ctx path lease app1 in
    if can_proxy || can_lease
    then request_for c ctx path body (Vault.get_meta path app2.vault) app2
    else (forbidden, app2)
