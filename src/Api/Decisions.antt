-- ===== src/Api/Decisions.antt =====
-- Requests are decided on by api/lease.ts only for an administrator.
use gatehouse.Common.{◌≡◌, ◌⊎◌, inl, inr, refl, Text, codes, true, ◌||◌, Option, arith, Bool-cases}
use gatehouse.Lease.State.{Lease, State}
use gatehouse.Policy.Engine.{admin, check}
use gatehouse.Policy.Check.{IsCoherent, Grants, check-iff-Grants}
use gatehouse.Secrets.Vault.{Crypto}
use gatehouse.Api.Leases.{
  App, Context, Body, ends_with, decide, post_approve, post_deny, is_lease_id,
}
use gatehouse.Api.Checkout.{post}

decide-NeedsAdmin :
    (f : State → Option Lease × State) (ctx : Context) (id : Text) (app : App)
    → IsCoherent app.engine.pattern_cache
    → ((decide f ctx id app).1.leases ≡ app.leases)
      ⊎ Grants app.engine ctx.caller.policies (codes "*") admin
decide-NeedsAdmin f ctx id app coherent =
    let gate = check app.engine ctx.caller.policies (codes "*") admin in
    elim (Bool-cases gate.0) [
      | inl allowed ↦
          inr (
            (check-iff-Grants app.engine ctx.caller.policies (codes "*") admin coherent).0.0
              allowed)
      | inr denied ↦ elim (Bool-cases (is_lease_id id)) [
        | inl a ↦ inl (rw a (rw denied refl))
        | inr a ↦ inl (rw a refl)
      ]
    ]

-- With a coherent cache of patterns, a post to a path that ends in `/approve` or `/deny` leaves the
-- leases, their log and their events as they were, unless some rule of the caller's policies grants
-- `admin` on `*`.
pub post-NeedsAdmin :
    (c : Crypto) (ctx : Context) (path : Text) (body : Body) (app : App)
    → IsCoherent app.engine.pattern_cache
    → ends_with (codes "/approve") path || ends_with (codes "/deny") path ≡ true
    → ((post c ctx path body app).1.leases ≡ app.leases)
      ⊎ Grants app.engine ctx.caller.policies (codes "*") admin
unfolding post post_approve post_deny
post-NeedsAdmin c ctx path body app coherent suffix =
    elim (Bool-cases (ends_with (codes "/approve") path)) [
      | inl a ↦ rw a (decide-NeedsAdmin _ ctx _ app coherent)
      | inr a ↦ elim (Bool-cases (ends_with (codes "/deny") path)) [
        | inl b ↦ rw a (rw b (decide-NeedsAdmin _ ctx _ app coherent))
        | inr b ↦ absurd (ground (arith, a, b, suffix))
      ]
    ]
