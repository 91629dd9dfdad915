-- ===== src/Api/Values.antt =====
-- What the checkout of api/lease.ts gives, and under which lease.
use gatehouse.Common.{
  ℕ, ◌≡◌, ◌≢◌, ◌⊎◌, inl, inr, refl, sym, ◌∙◌, ap, subst, Text, codes, true, false, not, ◌&&◌,
  Option, none, some, ◌++◌, arith, Bool-cases, Option-cases,
}
use gatehouse.Common.Exec.{Outcome, done, thrown}
use gatehouse.Lease.State.{
  Lease, LeaseError, State, Secrets, audited, has_active_approved_lease, find_active_approved_lease,
}
use gatehouse.Lease.Manager.{
  requires_approval, checkout, checkout_gated, checkout_plain, new_lease, lease_id,
}
use gatehouse.Lease.Inserts.{insert_lease-cases}
use gatehouse.Gates.Enforce.{is_auto_approved, auto_ttl}
use gatehouse.Lease.Decisions.{auto_approve}
use gatehouse.Policy.Engine.{lease, check}
use gatehouse.Policy.Check.{IsCoherent, Grants, check-iff-Grants}
use gatehouse.Secrets.Vault.{Crypto, Vault, VaultError, StoredSecret}
use gatehouse.Secrets.Vault
use gatehouse.Api.Leases.{
  App, Context, Body, Response, checked_out, needs_approval, as_secrets, or_empty, with_leases,
  ttl_from,
}
use gatehouse.Api.Checkout.{give, take_out, after_minting, gated, with_ttl, post_checkout}

answers :
    (r : Outcome LeaseError (Option Text))
    → ((e : LeaseError) × (r ≡ thrown e)) ⊎ (r ≡ done none) ⊎ ((v : Text) × (r ≡ done (some v)))
answers (thrown e) = inl (e, refl)
answers (done none) = inr (inl refl)
answers (done (some v)) = inr (inr (v, refl))

vault_answers :
    (r : Outcome VaultError (Option Text))
    → ((e : VaultError) × (r ≡ thrown e)) ⊎ ((o : Option Text) × (r ≡ done o))
vault_answers (thrown e) = inl (e, refl)
vault_answers (done o) = inr (o, refl)

module _ (secrets : Secrets) (now : ℕ) (uuid path identity : Text) (ttl : ℕ) (s s' : State)
    (l : Lease) (v : Text) where
  plain-value :
      checkout_plain secrets now uuid path identity ttl s ≡ (done (some (l, v)), s')
      → secrets.get path ≡ done (some v)
  unfolding checkout_plain
  plain-value e = elim (answers (secrets.get path)) [
    | inl (err, f) ↦ absurd (ground (arith, e))
    | inr (inl f) ↦ absurd (ground (arith, e))
    | inr (inr (w, f)) ↦
        elim (insert_lease-cases secrets (new_lease (lease_id uuid) path identity ttl now) s) [
          | inl g ↦ absurd (ground (arith, e, g))
          | inr (g, h) ↦ ground (arith, e, h)
        ]
  ]

  gated-run :
      (m : Lease) (w : Text)
      → find_active_approved_lease now identity path s.leases ≡ some m
      → secrets.get path ≡ done (some w)
      → ((checkout_gated secrets now path identity s).0 ≡ done (some (m, w)))
        × ((checkout_gated secrets now path identity s).1.leases ≡ s.leases)
  unfolding checkout_gated audited
  gated-run m w found f = rw (found, f, checkout_gated) (refl, refl)

  has_active-found :
      (m : Lease)
      → find_active_approved_lease now identity path s.leases ≡ some m
      → has_active_approved_lease now identity path s.leases ≡ true
  unfolding has_active_approved_lease
  has_active-found m found = rw (found, has_active_approved_lease) refl

  gated-value :
      checkout_gated secrets now path identity s ≡ (done (some (l, v)), s')
      → (secrets.get path ≡ done (some v))
        × (has_active_approved_lease now identity path s'.leases ≡ true)
  unfolding checkout_gated
  gated-value e = elim (Option-cases (find_active_approved_lease now identity path s.leases)) [
    | inl f ↦ absurd (ground (arith, e))
    | inr (m, found) ↦ elim (answers (secrets.get path)) [
      | inl (err, f) ↦ absurd (ground (arith, e))
      | inr (inl f) ↦ absurd (ground (arith, e))
      | inr (inr (w, f)) ↦
          let (answer, same) = gated-run m w found f in
          let leases =
            ap (has_active_approved_lease now identity path)
              (sym (ap (λ r. r.1.leases) e) ∙ same) in
          (ground (arith, ap (λ r. r.0) e, answer), leases ∙ has_active-found m found)
    ]
  ]

  checkout-value :
      checkout secrets now uuid path identity ttl s ≡ (done (some (l, v)), s')
      → (secrets.get path ≡ done (some v))
        × ((requires_approval (secrets.get_meta path) ≡ false)
            ⊎ (has_active_approved_lease now identity path s'.leases ≡ true))
  unfolding checkout
  checkout-value e = elim (Bool-cases (requires_approval (secrets.get_meta path))) [
    | inl a ↦ let (value, there) = gated-value (ground (arith, e, a)) in (value, inr there)
    | inr a ↦ (plain-value (ground (arith, e, a)), inl a)
  ]

-- What a caller who is given a value has, and what is given: the value at the path, and a lease that
-- is open if the secret wants approval.
abbrev pub MayHave : Crypto → Context → Text → App → State → Text → Type 0
MayHave c ctx path app s v =
    (Vault.get c path app.vault ≡ done (some v))
    × ((requires_approval ((as_secrets c app.vault).get_meta path) ≡ false)
        ⊎ (has_active_approved_lease ctx.now ctx.caller.identity path s.leases ≡ true))

value_of-done :
    (c : Crypto) (path v : Text) (s : Vault.Vault)
    → (as_secrets c s).get path ≡ done (some v)
    → Vault.get c path s ≡ done (some v)
value_of-done c path v s h = elim (vault_answers (Vault.get c path s)) [
  | inl (err, f) ↦ absurd (ground (arith, h))
  | inr (o, f) ↦ ground (arith, h)
]

-- The answer of the manager, when the response gives a value.
checkout_answers :
    (r : Outcome LeaseError (Option (Lease × Text)) × State)
    → ((l : Lease) × (v : Text) × (s : State) × (r ≡ (done (some (l, v)), s)))
      ⊎ ((ctx : Context) (path : Text) (app : App) (l : Lease) (v : Text)
          → (give ctx path app r).0 ≢ checked_out l v)
checkout_answers (done (some (l, v)), s) = inl (l, v, s, refl)
checkout_answers (done none, s) = inr (λ ctx path app l v e. cc e)
checkout_answers (thrown err, s) = inr (λ ctx path app l v e. cc e)

minting_answers :
    (r : Outcome LeaseError Lease × State)
    → ((err : LeaseError) × (s : State) × (r ≡ (thrown err, s)))
      ⊎ ((l : Lease) × (s : State) × (r ≡ (done l, s)))
minting_answers (thrown err, s) = inl (err, s, refl)
minting_answers (done l, s) = inr (l, s, refl)

module _ (c : Crypto) (ctx : Context) (path : Text) (l : Lease) (v : Text) where
  take_out-MayHave :
      (ttl : ℕ) (app : App)
      → (take_out c ctx path ttl app).0 ≡ checked_out l v
      → MayHave c ctx path app (take_out c ctx path ttl app).1.leases v
  take_out-MayHave ttl app e =
      let secrets = as_secrets c app.vault in
      let ran = checkout secrets ctx.now ctx.checkout_id path ctx.caller.identity ttl app.leases in
      elim (checkout_answers ran) [
        | inr never ↦ absurd (never ctx path app l v e)
        | inl (m, w, s, f) ↦
            let (value, may) =
              checkout-value secrets ctx.now ctx.checkout_id path ctx.caller.identity ttl app.leases
                s m w f in
            let same : w ≡ v = ground (arith, e, f) in
            let after : (take_out c ctx path ttl app).1.leases ≡ s =
              ap (λ r. (give ctx path app r).1.leases) f in
            subst (λ t. MayHave c ctx path app t v) (sym after)
              (subst (λ t. MayHave c ctx path app s t) same
                (value_of-done c path w app.vault value, may))
      ]

  -- A response that is another one.
  along :
      (app : App) (x r : Response × App)
      → x ≡ r
      → (r.0 ≡ checked_out l v → MayHave c ctx path app r.1.leases v)
      → x.0 ≡ checked_out l v
      → MayHave c ctx path app x.1.leases v
  along app x r same h =
      subst (λ y. y.0 ≡ checked_out l v → MayHave c ctx path app y.1.leases v) (sym same) h

  minted-MayHave :
      (ttl : ℕ) (app : App) (r : Outcome LeaseError Lease × State)
      → (after_minting c ctx path ttl app r).0 ≡ checked_out l v
      → MayHave c ctx path app (after_minting c ctx path ttl app r).1.leases v
  minted-MayHave ttl app (thrown err, s) e = absurd (cc e)
  minted-MayHave ttl app (done m, s) e = take_out-MayHave ttl (with_leases app s) e

  gated-MayHave :
      (ttl : ℕ) (app : App)
      → (gated c ctx path ttl app).0 ≡ checked_out l v
      → MayHave c ctx path app (gated c ctx path ttl app).1.leases v
  unfolding gated
  gated-MayHave ttl app =
      let meta = (as_secrets c app.vault).get_meta path in
      let ip = or_empty ctx.caller.source_ip in
      let wants =
        requires_approval meta
        && not (has_active_approved_lease ctx.now ctx.caller.identity path app.leases.leases) in
      let minted =
        auto_approve (as_secrets c app.vault) ctx.now ctx.approval_id path ctx.caller.identity
          (auto_ttl meta) (codes "system:auto_approve_from_ip") (codes "Auto-approved from " ++ ip)
          app.leases in
      elim (Bool-cases wants) [
        | inr a ↦
            along app (gated c ctx path ttl app) (take_out c ctx path ttl app) (rw (a, gated) refl)
              (take_out-MayHave ttl app)
        | inl a ↦ elim (Bool-cases (is_auto_approved ip meta)) [
          | inr b ↦
              along app (gated c ctx path ttl app) (needs_approval, app) (rw (a, gated) (rw b refl))
                (λ e. absurd (cc e))
          | inl b ↦
              along app (gated c ctx path ttl app) (after_minting c ctx path ttl app minted)
                (rw (a, gated) (rw b refl)) (minted-MayHave ttl app minted)
        ]
      ]

  with_ttl-MayHave :
      (ttl : Option ℕ) (app : App)
      → (with_ttl c ctx path ttl app).0 ≡ checked_out l v
      → MayHave c ctx path app (with_ttl c ctx path ttl app).1.leases v
  with_ttl-MayHave none app e = absurd (cc e)
  with_ttl-MayHave (some ttl) app e = gated-MayHave ttl app e

  pub post_checkout-MayHave :
      (body : Body) (app : App)
      → IsCoherent app.engine.pattern_cache
      → (post_checkout c ctx path body app).0 ≡ checked_out l v
      → Grants app.engine ctx.caller.policies path lease
        × MayHave c ctx path app (post_checkout c ctx path body app).1.leases v
  unfolding post_checkout
  post_checkout-MayHave body app coherent e =
      let gate = check app.engine ctx.caller.policies path lease in
      elim (Bool-cases gate.0) [
        | inr denied ↦ absurd (ground (arith, denied, e))
        | inl allowed ↦ (
          (check-iff-Grants app.engine ctx.caller.policies path lease coherent).0.0 allowed,
          along app (post_checkout c ctx path body app)
              (with_ttl c ctx path (ttl_from 300 body.ttl) (record app { engine = gate.1 }))
              (rw (allowed, post_checkout) refl)
              (with_ttl-MayHave (ttl_from 300 body.ttl) (record app { engine = gate.1 })) e,
        )
      ]
