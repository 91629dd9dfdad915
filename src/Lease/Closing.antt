-- ===== src/Lease/Closing.antt =====
-- lease/manager.ts: a lease that `revoke` or `deny` closed stays closed, whatever is called later.
use gatehouse.Common.{
  ℕ, ◌≡◌, inl, inr, refl, Text, true, false, some, List, [], ◌∷◌, ◌==◌, count_where, first, take,
  arith, Bool-cases,
}
use gatehouse.Lease.State.{Lease, State, get_lease, is_pending, emit, audited}
use gatehouse.Lease.Decisions.{
  deny, deny_row, pending_row, revoke, live_row, revoke_row, undecided, decided,
}
use gatehouse.Lease.Rows.{UniqueIds, UniqueIds-Reach, Reach-is_dead, get_lease-cons}
use gatehouse.Lease.Updates.{deny-Reach, get_lease-id}
use gatehouse.Lease.Sweeps.{revoke-Reach}
use gatehouse.Lease.History.{Call, run, IsClosedForGood, closed_for_good, get-update_where}

count-live_row :
    (id : Text) (ls : List Lease) (l : Lease)
    → get_lease id ls ≡ some l
    → l.revoked ≡ false
    → (count_where (live_row id) ls == 0) ≡ false
unfolding count_where
count-live_row id [] l found live = absurd (unfold get_lease first in cc found)
count-live_row id (x ∷ ls) l found live =
    ground (arith, get_lease-cons id x ls, count-live_row id ls l)

revoked_row :
    (id who : Text) (s : State) (l : Lease)
    → get_lease id s.leases ≡ some l
    → l.revoked ≡ false
    → ((revoke id who s).0 ≡ true) × (get_lease id (revoke id who s).1.leases ≡ some (revoke_row l))
unfolding revoke emit audited
revoked_row id who s l found live = ground (
  arith,
  count-live_row id s.leases l,
  get_lease-id id s.leases l,
  get-update_where id (live_row id) revoke_row s.leases l (λ x. refl),
)

denied_row :
    (now : ℕ) (id who reason : Text) (s : State) (l : Lease)
    → get_lease id s.leases ≡ some l
    → undecided l ≡ true
    → get_lease id (deny now id who reason s).1.leases ≡ some (deny_row now who (take 500 reason) l)
unfolding deny decided emit audited
denied_row now id who reason s l found u = ground (
  arith,
  get_lease-id id s.leases l,
  get-update_where id (pending_row id) (deny_row now who (take 500 reason)) s.leases l (λ x. refl),
)

-- Revoking a lease that is no longer pending, in a table whose identifiers are unique: whatever
-- methods run afterwards, at any times, the lease is still in the table and gives no access at
-- any time.
pub revoke-IsClosedForGood :
    (calls : List Call) (s : State) (id who : Text) (l : Lease)
    → UniqueIds s.leases
    → get_lease id s.leases ≡ some l
    → is_pending l.status ≡ false
    → IsClosedForGood id (run calls (revoke id who s).1).leases
revoke-IsClosedForGood calls s id who l u found decided =
    let r = revoke-Reach {now = 0} id who s in
    elim (Bool-cases l.revoked) [
      | inl already ↦
          (let (m, there, d) = Reach-is_dead id l r u found (ground arith) in
            closed_for_good calls _ id m (UniqueIds-Reach r u) there d)
      | inr live ↦
          closed_for_good calls _ id (revoke_row l) (UniqueIds-Reach r u)
            (revoked_row id who s l found live).1 (ground arith)
    ]

-- Denying a request that is pending and not revoked, in a table whose identifiers are unique:
-- whatever methods run afterwards, at any times, the lease is still in the table and gives no
-- access at any time.
pub deny-IsClosedForGood :
    (calls : List Call) (now : ℕ) (s : State) (id who reason : Text) (l : Lease)
    → UniqueIds s.leases
    → get_lease id s.leases ≡ some l
    → undecided l ≡ true
    → IsClosedForGood id (run calls (deny now id who reason s).1).leases
deny-IsClosedForGood calls now s id who reason l u found waiting =
    closed_for_good calls _ id (deny_row now who (take 500 reason) l)
      (UniqueIds-Reach (deny-Reach now id s u who reason) u)
      (denied_row now id who reason s l found waiting) (ground arith)
