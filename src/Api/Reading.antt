-- ===== src/Api/Reading.antt =====
-- Values are read and written by api/secrets.ts only with the capability for it.
use gatehouse.Common.{
  ℕ, ◌≡◌, ◌⊎◌, inl, inr, ◌≢◌, refl, sym, subst, ◌∙◌, Text, codes, String, true, Option, none, some,
  List, [], ◌∷◌, if◌then◌else◌, arith, Bool-cases,
}
use gatehouse.Common.Exec.{Outcome, done, thrown}
use gatehouse.Audit.{Action, MetaValue, secret_write, secret_metadata_update, secret_delete}
use gatehouse.Lease.State.{audited}
use gatehouse.Policy.Engine.{Capability, check}
use gatehouse.Policy.Engine
use gatehouse.Policy.Check.{IsCoherent, Grants, check-iff-Grants}
use gatehouse.Secrets.Vault.{Crypto, VaultError, Draw, StoredSecret}
use gatehouse.Secrets.Vault
use gatehouse.Api.Leases.{App, Context, checked, ends_with, without}
use gatehouse.Api.Secrets.{
  Response, value_shown, is_valid_path, Asked, value, versions, version, metadata, asked_of, needed,
  checked_any, revealed, shown_metadata, answer, get_asked, get,
}
use gatehouse.Api.Writes.{
  Body, guarded, post_rollback, post_value, post, patch_body, patch, delete_path, delete,
}

-- The value that the engine holds at a path, now or in a version.
abbrev pub Holds : Crypto → App → Text → Text → Type 0
Holds c app path v =
    (Vault.get c path app.vault ≡ done (some v))
    ⊎ (n : ℕ) × (Vault.get_version c path n app.vault ≡ done (some v))

revealed-done :
    (ctx : Context) (path : Text) (meta : List (String × MetaValue))
    (o : Outcome VaultError (Option Text)) (app : App) (v : Text)
    → (revealed ctx path meta o app).0 ≡ value_shown v
    → o ≡ done (some v)
revealed-done ctx path meta (thrown e) app v h = absurd (cc h)
revealed-done ctx path meta (done none) app v h = absurd (cc h)
revealed-done ctx path meta (done (some w)) app v h = ground (arith, h)

shown_metadata-none :
    (ctx : Context) (path : Text) (o : Option StoredSecret) (app : App) (v : Text)
    → (shown_metadata ctx path o app).0 ≢ value_shown v
shown_metadata-none ctx path none app v h = cc h
shown_metadata-none ctx path (some meta) app v h = cc h

checked_any-vault :
    (ctx : Context) (path : Text) (caps : List Capability) (app : App)
    → (checked_any ctx path caps app).1.vault ≡ app.vault
unfolding checked_any
checked_any-vault ctx path [] app = refl
checked_any-vault ctx path (cap ∷ caps) app =
    ground (arith, checked_any-vault ctx path caps (checked ctx path cap app).1)

checked_any-one :
    (ctx : Context) (path : Text) (cap : Capability) (app : App)
    → (checked_any ctx path (cap ∷ []) app).0 ≡ (check app.engine ctx.caller.policies path cap).0
unfolding checked_any
checked_any-one ctx path cap app = ground arith

-- A response that is not a refusal is the answer to what was asked.
asked-answers :
    (c : Crypto) (ctx : Context) (path : Text) (asked : Asked) (app : App) (v : Text)
    → (get_asked c ctx path asked app).0 ≡ value_shown v
    → let (allowed, app') = checked_any ctx path (needed asked) app in
      (allowed ≡ true) × ((answer c ctx path asked app').0 ≡ value_shown v)
asked-answers c ctx path asked app v h =
    elim (Bool-cases (checked_any ctx path (needed asked) app).0) [
      | inl a ↦ (a, ground (arith, a, h))
      | inr a ↦ absurd (ground (arith, a, h))
    ]

answer-Holds :
    (c : Crypto) (ctx : Context) (path : Text) (asked : Asked) (app : App) (v : Text)
    → (answer c ctx path asked app).0 ≡ value_shown v
    → (needed asked ≡ Engine.read ∷ []) × Holds c app path v
answer-Holds c ctx path value app v h = (refl, inl (revealed-done ctx path [] _ app v h))
answer-Holds c ctx path versions app v h = absurd (ground (arith, h))
answer-Holds c ctx path (version n) app v h = (refl, inr (n, revealed-done ctx path _ _ app v h))
answer-Holds c ctx path metadata app v h =
    absurd (shown_metadata-none ctx path (Vault.get_meta path app.vault) app v h)

asked-NeedsRead :
    (c : Crypto) (ctx : Context) (path : Text) (asked : Asked) (app : App) (v : Text)
    → IsCoherent app.engine.pattern_cache
    → (get_asked c ctx path asked app).0 ≡ value_shown v
    → Grants app.engine ctx.caller.policies path Engine.read × Holds c app path v
asked-NeedsRead c ctx path asked app v coherent h =
    let (allowed, answered) = asked-answers c ctx path asked app v h in
    let app' = (checked_any ctx path (needed asked) app).1 in
    let (read_only, holds) = answer-Holds c ctx path asked app' v answered in
    let granted : (checked_any ctx path (Engine.read ∷ []) app).0 ≡ true =
      subst (λ caps. (checked_any ctx path caps app).0 ≡ true) read_only allowed in
    (
      (check-iff-Grants app.engine ctx.caller.policies path Engine.read coherent).0.0
          (sym (checked_any-one ctx path Engine.read app) ∙ granted),
      subst (λ s. Holds c (record app { vault = s }) path v)
          (checked_any-vault ctx path (needed asked) app) holds,
    )

-- With a coherent cache of patterns, when a GET is answered with a value, its path is valid, some rule
-- of the caller's policies grants `read` on that path, and the value is the one that the secrets
-- engine holds there, now or in a version.
pub get-NeedsRead :
    (c : Crypto) (ctx : Context) (raw v : Text) (app : App)
    → IsCoherent app.engine.pattern_cache
    → (get c ctx raw app).0 ≡ value_shown v
    → let path = (asked_of raw).0 in
      (is_valid_path path ≡ true)
      × Grants app.engine ctx.caller.policies path Engine.read
      × Holds c app path v
unfolding get
get-NeedsRead c ctx raw v app coherent h =
    let (path, asked) = asked_of raw in
    elim (Bool-cases (is_valid_path path)) [
      | inr a ↦ absurd (ground (arith, a, h))
      | inl a ↦
          let (granted, holds) =
            asked-NeedsRead c ctx path asked app v coherent (ground (arith, a, h)) in
          (a, granted, holds)
    ]

-- The secrets, their versions and the leases are as they were.
abbrev pub SameData : App → App → Type 0
SameData after before = (after.vault ≡ before.vault) × (after.leases.leases ≡ before.leases.leases)

guarded-NeedsGrant :
    (ctx : Context) (path : Text) (cap : Capability) (action : Action) (k : App → Response × App)
    (app : App)
    → IsCoherent app.engine.pattern_cache
    → SameData (guarded ctx path cap action k app).1 app
      ⊎ Grants app.engine ctx.caller.policies path cap
unfolding audited
guarded-NeedsGrant ctx path cap action k app coherent =
    let gate = check app.engine ctx.caller.policies path cap in
    elim (Bool-cases gate.0) [
      | inl a ↦ inr ((check-iff-Grants app.engine ctx.caller.policies path cap coherent).0.0 a)
      | inr a ↦ elim (Bool-cases (is_valid_path path)) [
        | inl b ↦ inl (rw b (rw a (refl, refl)))
        | inr b ↦ inl (rw b (refl, refl))
      ]
    ]

-- With a coherent cache of patterns, a POST, a PATCH or a DELETE leaves the secrets, their versions
-- and the leases as they were, unless some rule of the caller's policies grants on the path `write`,
-- and for a DELETE `delete`. A POST to a path that ends in `/rollback` is about the path before it.
pub changes-NeedGrant :
    (c : Crypto) (ctx : Context) (draw : Draw) (path : Text) (body : Option Body) (app : App)
    → IsCoherent app.engine.pattern_cache
    → let rolls = ends_with (codes "/rollback") path in
      let target = if rolls then without (codes "/rollback") path else path in
      (SameData (post c ctx draw path body app).1 app
        ⊎ Grants app.engine ctx.caller.policies target Engine.write)
      × (SameData (patch ctx path body app).1 app
          ⊎ Grants app.engine ctx.caller.policies path Engine.write)
      × (SameData (delete ctx path app).1 app
          ⊎ Grants app.engine ctx.caller.policies path Engine.delete)
unfolding post patch delete
changes-NeedGrant c ctx draw path body app coherent = (
  elim (Bool-cases (ends_with (codes "/rollback") path)) [
    | inl a ↦
        let target = without (codes "/rollback") path in
        rw a (
          guarded-NeedsGrant ctx target Engine.write secret_write
            (post_rollback c ctx draw target body) app coherent)
    | inr a ↦ rw a (
        guarded-NeedsGrant ctx path Engine.write secret_write (post_value c ctx draw path body) app
          coherent)
  ],
  guarded-NeedsGrant ctx path Engine.write secret_metadata_update (patch_body ctx path body) app
      coherent,
  guarded-NeedsGrant ctx path Engine.delete secret_delete (delete_path ctx path) app coherent,
)
