-- ===== src/Gates/Approval.antt =====
-- api/proxyGates.ts: the lease that the approval gate finds or mints for one path.
use gatehouse.Common.{
  ℕ, ◌<◌, ◌≡◌, ◌⊎◌, inl, inr, refl, sym, ◌∙◌, Text, text_eq_refl, text_eq_iff, codes, take, true,
  ◌&&◌, Option, none, some, List, [], ◌∷◌, ◌++◌, Any, arith, Bool-cases, Option-cases,
}
use gatehouse.Common.Dict.{Dict}
use gatehouse.Common.Exec.{Outcome, done, thrown, pure, ◌>>=◌}
use gatehouse.Lease.State.{
  Lease, LeaseError, Secrets, State, get_lease, is_for, is_open, audited,
  find_active_approved_lease,
}
use gatehouse.Lease.Manager.{Manager, new_lease, lease_id, justification_max}
use gatehouse.Lease.Decisions.{auto_approve}
use gatehouse.Lease.Rows.{UniqueIds, get_lease-cons, get_lease-append}
use gatehouse.Lease.Life.{Operation, auto_approves}
use gatehouse.Lease.Inserts.{Adds, insert_lease-cases, auto_approve-Adds}
use gatehouse.Lease.Finding.{find_active_approved_lease-IsLongest, IsLongest}
use gatehouse.Gates.Enforce.{
  GatesContext, approval_of, is_auto_approved, auto_ttl, positive_int, nonempty_value, value_at,
}

-- The lease is in the table, for this identity and path, and open at that time.
abbrev pub Covers : ℕ → Text → Text → Text → List Lease → Type 0
Covers now identity path id leases =
    (l : Lease) × (get_lease id leases ≡ some l)
    × (is_for identity path l ≡ true)
    × (is_open now l ≡ true)

get_lease-found :
    (l : Lease) (ls : List Lease) → UniqueIds ls → Any (λ x. x ≡ l) ls → get_lease l.id ls ≡ some l
get_lease-found l [] u there = absurd there
get_lease-found l (x ∷ ls) u (inl e) =
    ground (arith, e, get_lease-cons l.id x ls, text_eq_refl l.id)
get_lease-found l (x ∷ ls) u (inr there) =
    let rest = get_lease-found l ls u.1 there in
    ground (arith, rest, u.0, get_lease-cons l.id x ls, text_eq_iff x.id l.id)

found-Covers :
    (now : ℕ) (identity path : Text) (ls : List Lease) (o : Option Lease) (l : Lease)
    → UniqueIds ls
    → IsLongest (λ x. is_for identity path x && is_open now x) ls o
    → o ≡ some l
    → Covers now identity path l.id ls
found-Covers now identity path ls none l u best e = absurd (cc e)
found-Covers now identity path ls (some m) l u (there, passes, most) e =
    let same : m ≡ l = cc e in
    (
      l,
      rw (← same) (get_lease-found m ls u there),
      rw (← same) (ground (arith, passes)),
      rw (← same) (ground (arith, passes)),
    )

pub Adds-grows :
    {now : ℕ} {op : Operation} {uuid : Text} {ls ms : List Lease} (id : Text) (l : Lease)
    → Adds now op uuid ls ms
    → get_lease id ls ≡ some l
    → get_lease id ms ≡ some l
Adds-grows id l (inl e) found = rw e found
Adds-grows {uuid = uuid} {ls = ls} id l (inr (x, i, live, new, e)) found =
    rw e (ground (arith, found, get_lease-append id ls x))

positive_int-positive : (raw : Text) (n : ℕ) → positive_int raw ≡ some n → 0 < n
unfolding positive_int
positive_int-positive raw n e = ground (arith, e)

auto_ttl-positive : (meta : Option (Dict Text)) → 0 < auto_ttl meta
unfolding auto_ttl
auto_ttl-positive meta =
    elim (Option-cases (nonempty_value (value_at "auto_approve_ttl_seconds" meta))) [
      | inl e ↦ rw (e, auto_ttl) (omega arith)
      | inr (raw, e) ↦ elim (Option-cases (positive_int raw)) [
        | inl e' ↦ rw (e, auto_ttl) (rw e' (omega arith))
        | inr (n, e') ↦ rw (e, auto_ttl) (rw e' (positive_int-positive raw n e'))
      ]
    ]

module _ (secrets : Secrets) (now : ℕ) (uuid path identity : Text) (s : State) where
  -- The row that an approval without a request inserts.
  abbrev approved_row : ℕ → Text → Text → Lease
  approved_row ttl by why = record (new_lease (lease_id uuid) path identity ttl now) {
    justification = some (take justification_max why);
    approved_by = some by;
    approved_at = some now;
  }

  auto_approve-made :
      (ttl : ℕ) (by why : Text) (l : Lease) (s' : State)
      → auto_approve secrets now uuid path identity ttl by why s ≡ (done l, s')
      → (l ≡ approved_row ttl by why) × (get_lease l.id s'.leases ≡ some l)
  unfolding auto_approve audited
  auto_approve-made ttl by why l s' made =
      elim (insert_lease-cases secrets (approved_row ttl by why) s) [
        | inl e ↦ absurd (ground (arith, e, made))
        | inr (new, e) ↦ ground (
          arith,
          e,
          made,
          new,
          text_eq_refl (lease_id uuid),
          get_lease-append (lease_id uuid) s.leases (approved_row ttl by why),
        )
      ]

  auto_approve-Covers :
      (ttl : ℕ) (by why : Text) (l : Lease) (s' : State)
      → 0 < ttl
      → auto_approve secrets now uuid path identity ttl by why s ≡ (done l, s')
      → Covers now identity path l.id s'.leases
  auto_approve-Covers ttl by why l s' positive made =
      let (row, there) = auto_approve-made ttl by why l s' made in
      (
        l,
        there,
        ground (arith, row, text_eq_refl path, text_eq_refl identity),
        ground (arith, row, positive),
      )

abbrev id_of : Outcome LeaseError Lease × State → Outcome LeaseError (Option Text) × State
id_of (done l, s') = (done (some l.id), s')
id_of (thrown e, s') = (thrown e, s')

pure_id-bind :
    (m : Manager Lease) (s : State) (r : Outcome LeaseError Lease × State)
    → m s ≡ r
    → (m >>= (λ l. pure (some l.id))) s ≡ id_of r
pure_id-bind m s (done l, s') e = rw e refl
pure_id-bind m s (thrown x, s') e = rw e refl

id_of-leases : (r : Outcome LeaseError Lease × State) → (id_of r).1.leases ≡ r.1.leases
id_of-leases (done l, s') = refl
id_of-leases (thrown e, s') = refl

id_of-done :
    (r : Outcome LeaseError Lease × State) (id : Text) (s' : State)
    → id_of r ≡ (done (some id), s')
    → (l : Lease) × (r ≡ (done l, s')) × (l.id ≡ id)
id_of-done (done l, s1) id s' e = (l, ground (arith, e), ground (arith, e))
id_of-done (thrown x, s1) id s' e = absurd (ground (arith, e))

module _ (now : ℕ) (uuid : Text) (ctx : GatesContext) (p : Text) (s : State) where
  abbrev found_open : Option Lease
  found_open = find_active_approved_lease now ctx.identity p s.leases

  -- The call that mints a lease.
  abbrev minted : Outcome LeaseError Lease × State
  minted =
      auto_approve ctx.secrets now uuid p ctx.identity (auto_ttl (ctx.secrets.get_meta p))
        (codes "system:auto_approve_from_ip") (codes "Auto-approved from " ++ ctx.source_ip) s

  approval_of-cases :
      ((l : Lease) × (found_open ≡ some l) × (approval_of now uuid ctx p s ≡ (done (some l.id), s)))
      ⊎ (approval_of now uuid ctx p s ≡ (done none, s))
      ⊎ (approval_of now uuid ctx p s ≡ id_of minted)
  unfolding approval_of
  approval_of-cases = elim (Option-cases found_open) [
    | inr (l, e) ↦ inl (l, e, rw (e, approval_of) refl)
    | inl e ↦ elim (Bool-cases (is_auto_approved ctx.source_ip (ctx.secrets.get_meta p))) [
      | inr denied ↦ inr (inl (rw (e, approval_of) (rw denied refl)))
      | inl allowed ↦ inr (
          inr (
            rw (e, approval_of)
              (rw allowed (
                pure_id-bind
                  (auto_approve ctx.secrets now uuid p ctx.identity
                    (auto_ttl (ctx.secrets.get_meta p)) (codes "system:auto_approve_from_ip")
                    (codes "Auto-approved from " ++ ctx.source_ip))
                  s minted refl))))
    ]
  ]

  abbrev pub minting : Operation
  minting =
      auto_approves uuid p ctx.identity (auto_ttl (ctx.secrets.get_meta p))
        (codes "system:auto_approve_from_ip") (codes "Auto-approved from " ++ ctx.source_ip)

  pub approval_of-Adds :
      Adds now minting (lease_id uuid) s.leases (approval_of now uuid ctx p s).1.leases
  approval_of-Adds = elim approval_of-cases [
    | inl (l, window, e) ↦ rw e (inl refl)
    | inr (inl e) ↦ rw e (inl refl)
    | inr (inr e) ↦
        rw (e, id_of-leases minted)
          (auto_approve-Adds ctx.secrets now uuid p ctx.identity s
            (auto_ttl (ctx.secrets.get_meta p)) (codes "system:auto_approve_from_ip")
            (codes "Auto-approved from " ++ ctx.source_ip))
  ]

  pub approval_of-Covers :
      (id : Text) (s' : State)
      → UniqueIds s.leases
      → approval_of now uuid ctx p s ≡ (done (some id), s')
      → Covers now ctx.identity p id s'.leases
  approval_of-Covers id s' u found = elim approval_of-cases [
    | inl (l, window, e) ↦
        (let same : (l.id ≡ id) × (s ≡ s') = ground (arith, e, found) in
          rw (← same.0, ← same.1)
            (found-Covers now ctx.identity p s.leases found_open l u
              (find_active_approved_lease-IsLongest now ctx.identity p s.leases) window))
    | inr (inl e) ↦ absurd (ground (arith, e, found))
    | inr (inr e) ↦
        (let (l, made, same) = id_of-done minted id s' (sym e ∙ found) in
          rw (← same) (
            auto_approve-Covers ctx.secrets now uuid p ctx.identity s
              (auto_ttl (ctx.secrets.get_meta p)) (codes "system:auto_approve_from_ip")
              (codes "Auto-approved from " ++ ctx.source_ip) l s'
              (auto_ttl-positive (ctx.secrets.get_meta p)) made))
  ]
