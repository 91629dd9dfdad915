-- ===== src/Lease/Inserts.antt =====
-- The methods of the manager that add a lease: each adds one row at most.
use gatehouse.Common.{
  ℕ, ap, ◌+◌, ◌*◌, ◌≤◌, ◌≡◌, ◌⊎◌, inl, inr, refl, Text, ◌&&◌, ◌||◌, Option, none, some, List, [],
  ◌∷◌, ◌++◌, length, trim, ltb, first, arith, Bool-cases, Option-cases,
}
use gatehouse.Common.Int.{ℤ, pos, negsuc}
use gatehouse.Common.Exec.{Outcome, done, thrown, ◌>>=◌}
use gatehouse.Lease.State.{
  pending, LeaseError, constraint_failed, is_for, is_waiting, Lease, State, Secrets, get_lease,
  emit, audited,
}
use gatehouse.Lease.Manager.{
  justification_min, justification_max, valid_ttl, clamp_request_ttl, Manager, lease_id, new_lease,
  requires_approval, insert_lease, checkout_gated, checkout_plain, checkout, create_request,
  request_or_reuse, request_access,
}
use gatehouse.Lease.Decisions.{auto_approve}
use gatehouse.Lease.Life.{Operation, NewRow, taken, pre_approved, asked, insert, Reach, here, next}

-- Either the table is as it was, or one row has been added.
abbrev pub Adds : ℕ → Operation → Text → List Lease → List Lease → Type 0
Adds now op id ls ms =
    (ms ≡ ls)
    ⊎ (l : Lease) × (l.id ≡ id) × NewRow now op l × (get_lease id ls ≡ none) × (ms ≡ ls ++ l ∷ [])

pub Adds-Reach :
    {now : ℕ} {op : Operation} {id : Text} {ls ms : List Lease}
    → Adds now op id ls ms
    → Reach now op ls ms
Adds-Reach (inl e) = rw e here
Adds-Reach {now} {op} {id} {ls} {ms} (inr (l, i, live, new, e)) =
    rw e (next here (insert l ls (rw i new) live))

-- An INSERT either fails and changes nothing, or adds the row under an identifier that was free.
pub insert_lease-cases :
    (secrets : Secrets) (l : Lease) (s : State)
    → (insert_lease secrets l s ≡ (thrown constraint_failed, s))
      ⊎ (get_lease l.id s.leases ≡ none)
        × (insert_lease secrets l s ≡ (done tt, record s { leases = s.leases ++ l ∷ [] }))
unfolding insert_lease
insert_lease-cases secrets l s = elim (Option-cases (get_lease l.id s.leases)) [
  | inl new ↦ elim (Option-cases (secrets.get_meta l.secret_path)) [
    | inl absent ↦ inl (rw (new, insert_lease) (rw absent))
    | inr (m, there) ↦ inr (new, rw (new, insert_lease) (rw there))
  ]
  | inr (x, old) ↦ inl (rw (old, insert_lease))
]

valid_ttl-range : (z : ℤ) (n : ℕ) → valid_ttl z ≡ some n → (z ≡ pos n) × (10 ≤ n) × (n ≤ 86400)
unfolding valid_ttl
valid_ttl-range (pos m) n e = ground (arith, e)
valid_ttl-range (negsuc m) n e = absurd (cc e)

clamp-least : (z : ℤ) → 60 ≤ clamp_request_ttl z
unfolding clamp_request_ttl
clamp-least z = ground arith

clamp-most : (z : ℤ) → clamp_request_ttl z ≤ 86400
unfolding clamp_request_ttl
clamp-most z = ground arith

module _ (secrets : Secrets) (now : ℕ) (uuid path identity : Text) (s : State) where
  insert_then :
      {A : Type 0} {op : Operation} (l : Lease) (k : Unit {0} → Manager A)
      → l.id ≡ lease_id uuid
      → NewRow now op l
      → ((s' : State) → (k tt s').1.leases ≡ s'.leases)
      → Adds now op (lease_id uuid) s.leases ((insert_lease secrets l >>= k) s).1.leases
  insert_then l k i live quiet = elim (insert_lease-cases secrets l s) [
    | inl e ↦ inl (ground (arith, e))
    | inr (new, e) ↦ inr (
      l,
      i,
      live,
      rw (← i) new,
      ground (arith, e, quiet (record s { leases = s.leases ++ l ∷ [] })),
    )
  ]

  checkout_plain_value :
      (ttl : ℕ) (o : Outcome LeaseError (Option Text))
      → secrets.get path ≡ o
      → Adds now
          (Operation.checks_out uuid path identity ttl)
          (lease_id uuid)
          s.leases
          (checkout_plain secrets now uuid path identity ttl s).1.leases
  unfolding checkout_plain audited
  checkout_plain_value ttl (thrown x) e = inl (ground (arith, e))
  checkout_plain_value ttl (done none) e = inl (ground (arith, e))
  checkout_plain_value ttl (done (some v)) e =
      rw (e, checkout_plain)
        (insert_then (new_lease (lease_id uuid) path identity ttl now) _ refl
          (taken uuid path identity ttl refl) (λ s'. refl))

  checkout_gated-leases : (checkout_gated secrets now path identity s).1.leases ≡ s.leases
  unfolding checkout_gated audited
  checkout_gated-leases = ground arith

  pub checkout-Adds :
      (ttl : ℕ)
      → Adds now
          (Operation.checks_out uuid path identity ttl)
          (lease_id uuid)
          s.leases
          (checkout secrets now uuid path identity ttl s).1.leases
  unfolding checkout
  checkout-Adds ttl = elim (Bool-cases (requires_approval (secrets.get_meta path))) [
    | inl gated ↦ rw (gated, checkout) (inl checkout_gated-leases)
    | inr plain ↦ rw (plain, checkout) (checkout_plain_value ttl (secrets.get path) refl)
  ]

  -- The row that a request inserts.
  abbrev request_row : ℕ → Text → ℕ → Lease
  request_row ttl why wait = record (new_lease (lease_id uuid) path identity ttl now) {
    status = pending;
    justification = some why;
    request_expires_at = some (now + wait * 1000);
  }

  create_request-Adds :
      {op : Operation} (ttl : ℕ) (j : Text) (t : ℕ)
      → NewRow now op (request_row ttl j t)
      → Adds now op
          (lease_id uuid)
          s.leases
          (create_request secrets now uuid path identity ttl j t s).1.leases
  unfolding create_request audited emit
  create_request-Adds ttl j t row = insert_then _ _ refl row (λ s'. ground arith)

  request_or_reuse-Adds :
      {op : Operation} (ttl : ℕ) (j : Text) (t : ℕ)
      → NewRow now op (request_row ttl j t)
      → Adds now op
          (lease_id uuid)
          s.leases
          (request_or_reuse secrets now uuid path identity ttl j t s).1.leases
  unfolding request_or_reuse
  request_or_reuse-Adds ttl j t row =
      elim (Option-cases (first (λ l. is_for identity path l && is_waiting now l) s.leases)) [
        | inl none_yet ↦ rw (none_yet, request_or_reuse) (create_request-Adds ttl j t row)
        | inr (l, earlier) ↦ rw (earlier, request_or_reuse) (inl refl)
      ]

  asked_row :
      (ttl : ℤ) (why : Text) (request_ttl : ℤ) (n : ℕ)
      → valid_ttl ttl ≡ some n
      → NewRow now
          (Operation.requests uuid path identity ttl why request_ttl)
          (request_row n (trim why) (clamp_request_ttl request_ttl))
  asked_row ttl why request_ttl n e =
      let (same, least, most) = valid_ttl-range ttl n e in
      asked uuid path identity why n request_ttl (clamp_request_ttl request_ttl)
        (ap (λ z. Operation.requests uuid path identity z why request_ttl) same) (least, most)
        (clamp-least request_ttl, clamp-most request_ttl)

  pub request_access-Adds :
      (ttl : ℤ) (j : Text) (t : ℤ)
      → Adds now
          (Operation.requests uuid path identity ttl j t)
          (lease_id uuid)
          s.leases
          (request_access secrets now uuid path identity ttl j t s).1.leases
  unfolding request_access
  request_access-Adds ttl j t =
      let size = length (trim j) in
      elim (Bool-cases (ltb size justification_min || ltb justification_max size)) [
        | inl bad ↦ rw (bad, request_access) (inl refl)
        | inr good ↦ elim (Option-cases (valid_ttl ttl)) [
          | inl e ↦ rw (good, request_access) (rw e (inl refl))
          | inr (n, e) ↦
              rw (good, request_access)
                (rw e
                  (request_or_reuse-Adds n (trim j) (clamp_request_ttl t) (asked_row ttl j t n e)))
        ]
      ]

  pub auto_approve-Adds :
      (ttl : ℕ) (by reason : Text)
      → Adds now
          (Operation.auto_approves uuid path identity ttl by reason)
          (lease_id uuid)
          s.leases
          (auto_approve secrets now uuid path identity ttl by reason s).1.leases
  unfolding auto_approve audited
  auto_approve-Adds ttl by reason =
      insert_then _ _ refl (pre_approved uuid path identity by reason ttl refl) (λ s'. ground arith)
