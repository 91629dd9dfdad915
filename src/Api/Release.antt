-- ===== src/Api/Release.antt =====
-- A value leaves the server by api/lease.ts only to a caller who may have it.
use gatehouse.Common.{
  ℕ, ◌≡◌, inl, inr, refl, Text, codes, ◌==◌, Bool, true, false, Option, none, some, if◌then◌else◌,
  arith, Option-cases,
}
use gatehouse.Common.Exec.{Outcome}
use gatehouse.Lease.State.{Lease, LeaseError, State, get_lease}
use gatehouse.Lease.Decisions.{renew}
use gatehouse.Policy.Engine.{admin, lease, proxy}
use gatehouse.Policy.Check.{IsCoherent, Grants}
use gatehouse.Secrets.Vault.{Crypto, Vault, VaultError, StoredSecret}
use gatehouse.Secrets.Vault
use gatehouse.Api.Leases.{
  App, Context, Body, Response, checked_out, lease_not_found, ttl_from, is_lease_id, ends_with,
  without, decided, decide_on, decide, renew_lease, request_result, request_for, checked,
  post_request, post_approve, post_deny,
}
use gatehouse.Api.Values.{MayHave, post_checkout-MayHave}
use gatehouse.Api.Checkout.{renew_found, post_renew, post_checkout, post}

-- The response gives a value.
abbrev gives : Response → Bool
gives (checked_out l v) = true
gives _ = false

gives-decided : (o : Option Lease) → gives (decided o) ≡ false
gives-decided none = refl
gives-decided (some l) = refl

gives-decide_on :
    (f : State → Option Lease × State) (o : Option Lease) (app : App)
    → gives (decide_on f o app).0 ≡ false
gives-decide_on f none app = refl
gives-decide_on f (some l) app = ground (arith, gives-decided (f app.leases).0)

gives-decide :
    (f : State → Option Lease × State) (ctx : Context) (id : Text) (app : App)
    → gives (decide f ctx id app).0 ≡ false
gives-decide f ctx id app =
    let app' = (checked ctx (codes "*") admin app).1 in
    ground (arith, gives-decide_on f (get_lease id app.leases.leases) app')

gives-renew_lease :
    (ctx : Context) (id : Text) (body : Body) (l : Lease) (b : Bool) (app : App)
    → gives (renew_lease ctx id body l b app).0 ≡ false
unfolding renew_lease
gives-renew_lease ctx id body l b app =
    let default = if l.ttl_seconds == 0 then 300 else l.ttl_seconds in
    elim (Option-cases (ttl_from default body.ttl)) [
      | inl e ↦ ground arith
      | inr (ttl, e) ↦
          ground (arith, gives-decided (renew ctx.now id ttl ctx.caller.identity app.leases).0)
    ]

gives-request_result :
    (now : ℕ) (r : Outcome LeaseError Lease) → gives (request_result now r) ≡ false
gives-request_result now r = ground arith

gives-request_for :
    (c : Crypto) (ctx : Context) (path : Text) (body : Body) (o : Option StoredSecret) (app : App)
    → gives (request_for c ctx path body o app).0 ≡ false
gives-request_for c ctx path body none app = refl
gives-request_for c ctx path body (some meta) app = gives-request_result ctx.now _

gives-post_request :
    (c : Crypto) (ctx : Context) (path : Text) (body : Body) (app : App)
    → gives (post_request c ctx path body app).0 ≡ false
unfolding post_request
gives-post_request c ctx path body app =
    let app2 = (checked ctx path lease (checked ctx path proxy app).1).1 in
    ground (arith, gives-request_for c ctx path body (Vault.get_meta path app2.vault) app2)

module _ (c : Crypto) (ctx : Context) (path : Text) (app : App) (l : Lease) (v : Text) where
  -- If the response gives the value, the caller may have it.
  abbrev Released : Response × App → Type 0
  Released r =
      r.0 ≡ checked_out l v
      → Grants app.engine ctx.caller.policies path lease × MayHave c ctx path app r.1.leases v

  Released-if :
      (b : Bool) (x y : Response × App) → Released x → Released y → Released (if b then x else y)
  Released-if true x y h k = h
  Released-if false x y h k = k

  Released-other : (r : Response × App) → gives r.0 ≡ false → Released r
  Released-other r no_value e = absurd (ground (arith, e))

  Released-renew :
      (body : Body) (id : Text) (o : Option Lease)
      → IsCoherent app.engine.pattern_cache
      → Released (renew_found c ctx path id body o app)
  Released-renew body id (some m) coherent =
      Released-other (renew_found c ctx path id body (some m) app)
        (gives-renew_lease ctx id body m _ _)
  Released-renew body id none coherent =
      Released-if (is_lease_id id) (lease_not_found, app) (post_checkout c ctx path body app)
        (Released-other (lease_not_found, app) refl)
        (post_checkout-MayHave c ctx path l v body app coherent)

-- With a coherent cache of patterns, when a post is answered with a value, some rule of the caller's
-- policies grants `lease` on the path, the value is the one that the secrets engine holds at the
-- path, and if the secret wants approval the caller has an open approved lease for it afterwards.
pub post-MayHave :
    (c : Crypto) (ctx : Context) (path : Text) (body : Body) (app : App) (l : Lease) (v : Text)
    → IsCoherent app.engine.pattern_cache
    → (post c ctx path body app).0 ≡ checked_out l v
    → Grants app.engine ctx.caller.policies path lease
      × MayHave c ctx path app (post c ctx path body app).1.leases v
unfolding post post_approve post_deny post_renew
post-MayHave c ctx path body app l v coherent =
    let id = without (codes "/renew") path in
    let other = Released-other c ctx path app l v in
    let either = Released-if c ctx path app l v in
    either (ends_with (codes "/approve") path) _ _
      (other (post_approve ctx (without (codes "/approve") path) app)
        (gives-decide _ ctx (without (codes "/approve") path) app))
      (either (ends_with (codes "/deny") path) _ _
        (other (post_deny ctx (without (codes "/deny") path) body app)
          (gives-decide _ ctx (without (codes "/deny") path) app))
        (either (ends_with (codes "/renew") path) _ _
          (Released-renew c ctx path app l v body id (get_lease id app.leases.leases) coherent)
          (either (ends_with (codes "/request") path) _ _
            (other (post_request c ctx (without (codes "/request") path) body app)
              (gives-post_request c ctx (without (codes "/request") path) body app))
            (post_checkout-MayHave c ctx path l v body app coherent))))
