-- ===== src/Lease/Approval.antt =====
-- lease/manager.ts: `approve` on all its branches.
use gatehouse.Common.{
  ℕ, ◌+◌, ◌*◌, Bool, ◌≡◌, inl, inr, refl, Text, text_eq, text_eq_iff, true, false, ◌&&◌, none, some,
  List, [], ◌∷◌, if◌then◌else◌, update_where, arith, Bool-cases,
}
use gatehouse.Lease.State.{
  Lease, State, pending, approved, denied, expired, get_lease, emit, audited,
}
use gatehouse.Lease.Decisions.{approve, approve_row, pending_row, undecided, decided}
use gatehouse.Lease.Rows.{get_lease-cons}
use gatehouse.Lease.History.{get-update_where}
use gatehouse.Lease.Updates.{get_lease-id}

-- What a request becomes that `approver` grants: a window of its own length from now.
abbrev pub granted : ℕ → Text → Lease → Lease
granted now approver l = record l {
  status = approved;
  approved_by = some approver;
  approved_at = some now;
  expires_at = now + l.ttl_seconds * 1000;
}

-- A request without a decision.
abbrev pub is_undecided : Lease → Bool
is_undecided l = elim l.status [
  | pending ↦ elim l.revoked [ true ↦ false | false ↦ true ]
  | approved ↦ false
  | denied ↦ false
  | expired ↦ false
]

other_rows :
    (id other : Text) (f : Lease → Lease) (ls : List Lease)
    → ((x : Lease) → (f x).id ≡ x.id)
    → text_eq other id ≡ false
    → get_lease other (update_where (pending_row id) f ls) ≡ get_lease other ls
unfolding update_where
other_rows id other f [] keeps ne = refl
other_rows id other f (x ∷ ls) keeps ne = ground (
  arith,
  keeps x,
  get_lease-cons other x ls,
  get_lease-cons other (if pending_row id x then f x else x) (update_where (pending_row id) f ls),
  other_rows id other f ls keeps,
  text_eq_iff x.id id,
  text_eq_iff x.id other,
  text_eq_iff other id,
  text_eq_iff id id,
)

approve-here :
    (now : ℕ) (id approver : Text) (s : State) (l : Lease)
    → get_lease id s.leases ≡ some l
    → undecided l ≡ true
    → get_lease id (update_where (pending_row id) (approve_row now approver l.ttl_seconds) s.leases)
      ≡ some (approve_row now approver l.ttl_seconds l)
approve-here now id approver s l found waiting = ground (
  arith,
  get_lease-id id s.leases l,
  get-update_where id (pending_row id) (approve_row now approver l.ttl_seconds) s.leases l
      (λ x. refl),
)

-- Approving a lease that is there: one that is pending and not revoked becomes approved, by this
-- approver, with a window of its `ttl_seconds` from now, and is answered; any other one is left as
-- it is and the answer is none. The leases with other identifiers are as they were.
pub approve-Decides :
    (now : ℕ) (id other approver : Text) (s : State) (l : Lease)
    → get_lease id s.leases ≡ some l
    → ((approve now id approver s).0
        ≡ (if is_undecided l then some (granted now approver l) else none))
      × (get_lease other (approve now id approver s).1.leases ≡ (
          if text_eq other id && is_undecided l
          then some (granted now approver l)
          else get_lease other s.leases))
unfolding approve decided emit audited
approve-Decides now id other approver s l found = elim (Bool-cases (undecided l)) [
  | inl waiting ↦
      let here = approve-here now id approver s l found waiting in
      (
        ground arith,
        elim (Bool-cases (text_eq other id)) [
          | inl hit ↦ ground (arith, text_eq_iff other id)
          | inr miss ↦ ground (
            arith,
            other_rows id other (approve_row now approver l.ttl_seconds) s.leases (λ x. refl) miss,
          )
        ],
      )
  | inr settled ↦ (ground arith, ground arith)
]
