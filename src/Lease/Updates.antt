-- ===== src/Lease/Updates.antt =====
-- The methods of the manager that change or delete leases do so by the steps of a lease's life.
use gatehouse.Common.{
  ℕ, ◌≡◌, inl, inr, refl, ap, first, sym, subst, Text, text_eq, text_eq_iff, Bool, true, none, some,
  List, [], ◌∷◌, update_where, arith, Bool-cases, Option-cases, &&-left,
}
use gatehouse.Lease.State.{
  LeaseStatus, pending, approved, denied, expired, is_pending, is_approved, Lease, State, has_id,
  get_lease, emit, audited,
}
use gatehouse.Lease.Decisions.{
  pending_row, live_row, undecided, approve_row, renewable, renew_row, decided, approve, deny,
  renew,
}
use gatehouse.Lease.Life.{
  Operation, RowStep, same, opens, refuses, prolongs, RowSteps, nil, keep, change, Reach, here,
  next,
}
use gatehouse.Lease.Rows.{UniqueIds, get_lease-cons}

-- Where the test holds, the change is a step.
abbrev pub StepsWhere : ℕ → Operation → (Lease → Bool) → (Lease → Lease) → List Lease → Type 0
StepsWhere now op p f [] = Unit {0}
StepsWhere now op p f (l ∷ ls) = (p l ≡ true → RowStep now op l (f l)) × StepsWhere now op p f ls

pub update_where-RowSteps :
    {now : ℕ} {op : Operation} (p : Lease → Bool) (f : Lease → Lease) (ls : List Lease)
    → StepsWhere now op p f ls
    → RowSteps now op ls (update_where p f ls)
unfolding update_where
update_where-RowSteps p f [] h = nil
update_where-RowSteps p f (l ∷ ls) h = elim (Bool-cases (p l)) [
  | inl yes_row ↦ rw yes_row (keep (h.0 yes_row) (update_where-RowSteps p f ls h.1))
  | inr no_row ↦ rw no_row (keep (same l) (update_where-RowSteps p f ls h.1))
]

pub StepsWhere-all :
    {now : ℕ} {op : Operation} (p : Lease → Bool) (f : Lease → Lease) (ls : List Lease)
    → ((l : Lease) → p l ≡ true → RowStep now op l (f l))
    → StepsWhere now op p f ls
StepsWhere-all p f [] h = tt
StepsWhere-all p f (l ∷ ls) h = (h l, StepsWhere-all p f ls h)

-- The rows with the identifier of a lease that was found are that lease.
abbrev OnlyIs : Text → Lease → List Lease → Type 0
OnlyIs id e [] = Unit {0}
OnlyIs id e (l ∷ ls) = (has_id id l ≡ true → l ≡ e) × OnlyIs id e ls

absent-OnlyIs : (id : Text) (e : Lease) (ls : List Lease) → get_lease id ls ≡ none → OnlyIs id e ls
absent-OnlyIs id e [] h = tt
absent-OnlyIs id e (l ∷ ls) h = (
  λ hit. absurd (ground (arith, get_lease-cons id l ls)),
  absent-OnlyIs id e ls (ground (arith, get_lease-cons id l ls)),
)

found-OnlyIs :
    (id : Text) (e : Lease) (ls : List Lease)
    → UniqueIds ls
    → get_lease id ls ≡ some e
    → OnlyIs id e ls
found-OnlyIs id e [] u h = tt
found-OnlyIs id e (l ∷ ls) u h = elim (Bool-cases (text_eq l.id id)) [
  | inl hit ↦ (
    λ _. ground (arith, get_lease-cons id l ls),
    absent-OnlyIs id e ls (ground (arith, u.0, text_eq_iff l.id id)),
  )
  | inr miss ↦ (
    λ hit. absurd (cc (hit, miss)),
    found-OnlyIs id e ls u.1 (ground (arith, get_lease-cons id l ls)),
  )
]

OnlyIs-StepsWhere :
    {now : ℕ} {op : Operation} (id : Text) (e : Lease) (p : Lease → Bool) (f : Lease → Lease)
    (ls : List Lease)
    → OnlyIs id e ls
    → ((l : Lease) → p l ≡ true → has_id id l ≡ true)
    → RowStep now op e (f e)
    → StepsWhere now op p f ls
OnlyIs-StepsWhere id e p f [] only at st = tt
OnlyIs-StepsWhere {now} {op} id e p f (l ∷ ls) only at st = (
  λ h. subst (λ x. RowStep now op x (f x)) (sym (only.0 (at l h))) st,
  OnlyIs-StepsWhere id e p f ls only.1 at st,
)

pub pending_request : (status : LeaseStatus) → is_pending status ≡ true → status ≡ pending
pending_request pending h = refl
pending_request approved h = cc
pending_request denied h = cc
pending_request expired h = cc

pub approved_lease : (status : LeaseStatus) → is_approved status ≡ true → status ≡ approved
approved_lease approved h = refl
approved_lease pending h = cc
approved_lease denied h = cc
approved_lease expired h = cc

undecided-pending : (l : Lease) → undecided l ≡ true → l.status ≡ pending
undecided-pending l h = pending_request l.status (ground arith)

pub get_lease-id :
    (id : Text) (ls : List Lease) (l : Lease) → get_lease id ls ≡ some l → has_id id l ≡ true
get_lease-id id [] l found = absurd (unfold get_lease first in cc found)
get_lease-id id (x ∷ ls) l found = ground (arith, get_lease-cons id x ls, get_lease-id id ls l)

-- An update of the rows of one identifier, after the lease was read and its guard passed.
update_found :
    {now : ℕ} {op : Operation} (id : Text) (e : Lease) (p : Lease → Bool) (f : Lease → Lease)
    (ls : List Lease)
    → UniqueIds ls
    → get_lease id ls ≡ some e
    → ((l : Lease) → p l ≡ true → has_id id l ≡ true)
    → RowStep now op e (f e)
    → Reach now op ls (update_where p f ls)
update_found id e p f ls u found at st = next here (
    change (
      update_where-RowSteps p f ls
        (OnlyIs-StepsWhere id e p f ls (found-OnlyIs id e ls u found) at st)))

pub update_all :
    {now : ℕ} {op : Operation} (p : Lease → Bool) (f : Lease → Lease) (ls : List Lease)
    → ((l : Lease) → p l ≡ true → RowStep now op l (f l))
    → Reach now op ls (update_where p f ls)
update_all p f ls h = next here (change (update_where-RowSteps p f ls (StepsWhere-all p f ls h)))

module _ (now : ℕ) (id : Text) (s : State) (u : UniqueIds s.leases) where
  found_id : {e : Lease} → get_lease id s.leases ≡ some e → id ≡ e.id
  found_id {e} found = sym ((text_eq_iff e.id id).0 (get_lease-id id s.leases e found))

  pub approve-Reach :
      (approver : Text)
      → Reach now (Operation.approves id approver) s.leases (approve now id approver s).1.leases
  unfolding approve decided emit audited
  approve-Reach approver = elim (Option-cases (get_lease id s.leases)) [
    | inl absent ↦ rw (absent, approve) here
    | inr (e, found) ↦ elim (Bool-cases (undecided e)) [
      | inl open_request ↦
          rw (found, approve)
            (rw open_request (
              update_found id e (pending_row id) (approve_row now approver e.ttl_seconds) s.leases u
                found (λ l. &&-left _ _)
                (opens e approver (ap (λ k. Operation.approves k approver) (found_id found))
                  (undecided-pending e open_request) (ground arith))))
      | inr over ↦ rw (found, approve) (rw over here)
    ]
  ]

  pub deny-Reach :
      (approver reason : Text)
      → Reach now
          (Operation.denies id approver reason)
          s.leases
          (deny now id approver reason s).1.leases
  unfolding deny decided emit audited
  deny-Reach approver reason = elim (Option-cases (get_lease id s.leases)) [
    | inl absent ↦ rw (absent, deny) here
    | inr (e, found) ↦ elim (Bool-cases (undecided e)) [
      | inl open_request ↦
          rw (found, deny)
            (rw open_request (
              update_found id e (pending_row id) _ s.leases u found (λ l. &&-left _ _)
                (refuses e approver reason
                  (ap (λ k. Operation.denies k approver reason) (found_id found))
                  (undecided-pending e open_request) (ground arith))))
      | inr over ↦ rw (found, deny) (rw over here)
    ]
  ]

  pub renew-Reach :
      (ttl : ℕ) (identity : Text)
      → Reach now (Operation.renews id ttl identity) s.leases (renew now id ttl identity s).1.leases
  unfolding renew audited
  renew-Reach ttl identity = elim (Option-cases (get_lease id s.leases)) [
    | inl absent ↦ rw (absent, renew) here
    | inr (e, found) ↦ elim (Bool-cases (renewable now e)) [
      | inl ok_lease ↦
          rw (found, renew)
            (rw ok_lease (
              update_found id e (live_row id) (renew_row now ttl) s.leases u found
                (λ l. &&-left _ _)
                (prolongs e ttl identity
                  (ap (λ k. Operation.renews k ttl identity) (found_id found))
                  (approved_lease e.status (ground arith)) (ground arith) (ground arith))))
      | inr over ↦ rw (found, renew) (rw over here)
    ]
  ]
