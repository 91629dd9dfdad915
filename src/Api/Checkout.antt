-- ===== src/Api/Checkout.antt =====
-- The checkout of a secret in api/lease.ts, the dispatch of a POST by its suffix, and the other
-- handlers of that router.
use gatehouse.Common.{
  ℕ, Text, text_eq, codes, Bool, true, false, not, ◌&&◌, ◌||◌, Option, none, some, ◌++◌,
  if◌then◌else◌, starts_with,
}
use gatehouse.Common.Exec.{Outcome, done, thrown}
use gatehouse.Gates.Enforce.{is_auto_approved, auto_ttl}
use gatehouse.Lease.State.{
  Lease, LeaseError, State, get_lease, has_active_approved_lease, list_pending, list_active,
}
use gatehouse.Lease.Manager.{requires_approval, checkout}
use gatehouse.Lease.Decisions.{auto_approve, revoke}
use gatehouse.Policy.Engine.{admin, lease}
use gatehouse.Secrets.Vault.{Crypto}
use gatehouse.Secrets.Engine.{mark_accessed}
use gatehouse.Api.Leases.{
  App, Context, Body, Response, shown, checked_out, lease_not_found, secret_not_found, forbidden,
  needs_approval, invalid_ttl, failed, listed, revoked, as_secrets, ends_with, without, is_lease_id,
  checked, with_leases, or_empty, post_approve, post_deny, ttl_from, renew_lease, post_request,
}

-- After the checkout of the manager: the time of the access is written for a value that is given.
abbrev pub give :
    Context → Text → App → Outcome LeaseError (Option (Lease × Text)) × State → Response × App
give ctx path app (thrown e, s) = (failed e, with_leases app s)
give ctx path app (done none, s) = (secret_not_found, with_leases app s)
give ctx path app (done (some (l, value)), s) =
    (checked_out l value, record app { leases = s; vault = mark_accessed ctx.now path app.vault })

abbrev pub take_out : Crypto → Context → Text → ℕ → App → Response × App
take_out c ctx path ttl app = give ctx path app (
    checkout (as_secrets c app.vault) ctx.now ctx.checkout_id path ctx.caller.identity ttl
      app.leases)

abbrev pub after_minting :
    Crypto → Context → Text → ℕ → App → Outcome LeaseError Lease × State → Response × App
after_minting c ctx path ttl app (thrown e, s) = (failed e, with_leases app s)
after_minting c ctx path ttl app (done l, s) = take_out c ctx path ttl (with_leases app s)

-- A secret that wants approval is given under an open lease, or to an address that is approved
-- without a human.
unfoldable pub gated : Crypto → Context → Text → ℕ → App → Response × App
gated c ctx path ttl app =
    let secrets = as_secrets c app.vault in
    let meta = secrets.get_meta path in
    let ip = or_empty ctx.caller.source_ip in
    if requires_approval meta
      && not (has_active_approved_lease ctx.now ctx.caller.identity path app.leases.leases)
    then (if is_auto_approved ip meta
        then after_minting c ctx path ttl app (
            auto_approve secrets ctx.now ctx.approval_id path ctx.caller.identity (auto_ttl meta)
              (codes "system:auto_approve_from_ip") (codes "Auto-approved from " ++ ip) app.leases)
        else (needs_approval, app))
    else take_out c ctx path ttl app

abbrev pub with_ttl : Crypto → Context → Text → Option ℕ → App → Response × App
with_ttl c ctx path none app = (invalid_ttl, app)
with_ttl c ctx path (some ttl) app = gated c ctx path ttl app

unfoldable pub post_checkout : Crypto → Context → Text → Body → App → Response × App
post_checkout c ctx path body app =
    let (allowed, app') = checked ctx path lease app in
    if allowed then with_ttl c ctx path (ttl_from 300 body.ttl) app' else (forbidden, app')

-- A path that ends in `/renew` and names no lease may be that of a secret.
abbrev pub renew_found : Crypto → Context → Text → Text → Body → Option Lease → App → Response × App
renew_found c ctx path id body none app =
    if is_lease_id id then (lease_not_found, app) else post_checkout c ctx path body app
renew_found c ctx path id body (some l) app =
    let (is_admin, app') = checked ctx (codes "*") admin app in
    renew_lease ctx id body l is_admin app'

unfoldable pub post_renew : Crypto → Context → Text → Body → App → Response × App
post_renew c ctx path body app =
    let id = without (codes "/renew") path in
    renew_found c ctx path id body (get_lease id app.leases.leases) app

unfoldable pub post : Crypto → Context → Text → Body → App → Response × App
post c ctx path body app =
    if ends_with (codes "/approve") path
    then post_approve ctx (without (codes "/approve") path) app
    else if ends_with (codes "/deny") path
    then post_deny ctx (without (codes "/deny") path) body app
    else if ends_with (codes "/renew") path
    then post_renew c ctx path body app
    else if ends_with (codes "/request") path
    then post_request c ctx (without (codes "/request") path) body app
    else post_checkout c ctx path body app

abbrev pub filter_for : Bool → Text → Option Text
filter_for true identity = none
filter_for false identity = some identity

unfoldable pub get_pending : Context → App → Response × App
get_pending ctx app =
    let (is_admin, app') = checked ctx (codes "*") admin app in
    (
      listed (list_pending ctx.now (filter_for is_admin ctx.caller.identity) app.leases.leases),
      app',
    )

unfoldable pub get_active : Context → App → Response × App
get_active ctx app =
    let (is_admin, app') = checked ctx (codes "*") admin app in
    (listed (list_active ctx.now (filter_for is_admin ctx.caller.identity) app.leases.leases), app')

abbrev pub owns : Context → Lease → Bool → Bool
owns ctx l is_admin = text_eq l.identity ctx.caller.identity || is_admin

abbrev pub show : Context → Option Lease → App → Response × App
show ctx none app = (lease_not_found, app)
show ctx (some l) app =
    let (is_admin, app') = checked ctx (codes "*") admin app in
    if owns ctx l is_admin then (shown l, app') else (forbidden, app')

unfoldable pub get_one : Context → Text → App → Response × App
get_one ctx id app = show ctx (get_lease id app.leases.leases) app

abbrev pub revoke_found : Context → Text → Bool → Option Lease → App → Response × App
revoke_found ctx id is_admin none app = (lease_not_found, app)
revoke_found ctx id is_admin (some l) app =
    if owns ctx l is_admin
    then (revoked, with_leases app (revoke id ctx.caller.identity app.leases).1)
    else (forbidden, app)

-- There are no dynamic leases here.
unfoldable pub delete : Context → Text → App → Response × App
delete ctx id app =
    let (is_admin, app') = checked ctx (codes "*") admin app in
    if starts_with (codes "dlease-") id
    then (lease_not_found, app')
    else revoke_found ctx id is_admin (get_lease id app.leases.leases) app'
