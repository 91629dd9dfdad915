-- ===== src/Lease/History.antt =====
-- Any run of the manager's methods, at any times, and what becomes of a lease that was closed.
use gatehouse.Common.{
  ℕ, refl, ◌≡◌, Text, Bool, true, false, some, List, [], ◌∷◌, if◌then◌else◌, update_where, first,
  arith,
}
use gatehouse.Lease.State.{Lease, State, Secrets, get_lease, is_open}
use gatehouse.Lease.Manager.{checkout, request_access}
use gatehouse.Lease.Decisions.{
  approve, deny, auto_approve, renew, revoke, revoke_by_path, delete_pending_for_identity,
  reap_expired,
}
use gatehouse.Lease.Life.{
  Operation, checks_out, requests, approves, denies, auto_approves, renews, revokes, revokes_path,
  deletes_pending, reaps, Reach,
}
use gatehouse.Lease.Rows.{UniqueIds, UniqueIds-Reach, is_dead, Reach-is_dead, get_lease-cons}
use gatehouse.Lease.Inserts.{Adds-Reach, checkout-Adds, request_access-Adds, auto_approve-Adds}
use gatehouse.Lease.Updates.{approve-Reach, deny-Reach, renew-Reach}
use gatehouse.Lease.Sweeps.{
  revoke-Reach, revoke_by_path-Reach, delete_pending-Reach, reap_expired-Reach,
}

-- The secrets may change between the calls, so each call comes with its view of them and its time.
pub record Call : Type 0 where
  pub secrets : Secrets
  pub now : ℕ
  pub operation : Operation

unfoldable pub perform : Secrets → ℕ → Operation → State → State
perform secrets now (checks_out uuid path who ttl) s = (checkout secrets now uuid path who ttl s).1
perform secrets now (requests uuid path who ttl why request_ttl) s =
    (request_access secrets now uuid path who ttl why request_ttl s).1
perform secrets now (approves id approver) s = (approve now id approver s).1
perform secrets now (denies id approver reason) s = (deny now id approver reason s).1
perform secrets now (auto_approves uuid path who ttl approver why) s =
    (auto_approve secrets now uuid path who ttl approver why s).1
perform secrets now (renews id ttl who) s = (renew now id ttl who s).1
perform secrets now (revokes id who) s = (revoke id who s).1
perform secrets now (revokes_path path who) s = (revoke_by_path path who s).1
perform secrets now (deletes_pending who) s = (delete_pending_for_identity who s).1
perform secrets now reaps s = (reap_expired now s).1

unfoldable pub run : List Call → State → State
run [] s = s
run (c ∷ cs) s = run cs (perform c.secrets c.now c.operation s)

perform-Reach :
    (secrets : Secrets) (now : ℕ) (op : Operation) (s : State)
    → UniqueIds s.leases
    → Reach now op s.leases (perform secrets now op s).leases
unfolding perform
perform-Reach secrets now (checks_out uuid path who ttl) s u =
    Adds-Reach (checkout-Adds secrets now uuid path who s ttl)
perform-Reach secrets now (requests uuid path who ttl why request_ttl) s u =
    Adds-Reach (request_access-Adds secrets now uuid path who s ttl why request_ttl)
perform-Reach secrets now (approves id approver) s u = approve-Reach now id s u approver
perform-Reach secrets now (denies id approver reason) s u = deny-Reach now id s u approver reason
perform-Reach secrets now (auto_approves uuid path who ttl approver why) s u =
    Adds-Reach (auto_approve-Adds secrets now uuid path who s ttl approver why)
perform-Reach secrets now (renews id ttl who) s u = renew-Reach now id s u ttl who
perform-Reach secrets now (revokes id who) s u = revoke-Reach id who s
perform-Reach secrets now (revokes_path path who) s u = revoke_by_path-Reach path who s
perform-Reach secrets now (deletes_pending who) s u = delete_pending-Reach who s
perform-Reach secrets now reaps s u = reap_expired-Reach now s u

-- Each call takes the table to the next one.
abbrev pub Trace : List Call → List Lease → List Lease → Type 0
Trace [] ls ms = ms ≡ ls
Trace (c ∷ cs) ls ns = (ms : List Lease) × Reach c.now c.operation ls ms × Trace cs ms ns

-- From a table whose identifiers are unique, whatever is called, they stay unique and each call
-- changes the table only by steps that are its own. A checkout or an approval without a request
-- adds at most an approved row that opens for the ttl of the call, under the free identifier that
-- it is given; a request adds at most a pending row, with no approver, that waits for a minute to a
-- day. `approve` changes only the row with its identifier, if it is pending and not revoked: for
-- the row's ttl from the time of the call, by its approver. `deny` denies such a row. `renew`
-- changes only its row, if it is approved, not revoked and not over: for the new ttl from that
-- time. Only revocations of a row's identifier or path revoke it, and the reaper once it is over.
-- The reaper expires a pending row once its time for an answer has passed, and pending rows are
-- deleted only for their identity. Each step leaves all other fields of the row as they were.
pub run-Reach :
    (calls : List Call) (s : State)
    → UniqueIds s.leases
    → Trace calls s.leases (run calls s).leases × UniqueIds (run calls s).leases
unfolding run
run-Reach [] s u = (refl, u)
run-Reach (c ∷ cs) s u =
    let step = perform-Reach c.secrets c.now c.operation s u in
    let (r, u') = run-Reach cs _ (UniqueIds-Reach step u) in ((_, step, r), u')

is_dead-closed : (l : Lease) (t : ℕ) → is_dead l ≡ true → is_open t l ≡ false
is_dead-closed l t d = ground arith

-- The lease is still there, and gives no access at any time.
abbrev pub IsClosedForGood : Text → List Lease → Type 0
IsClosedForGood id ls = (m : Lease) × (get_lease id ls ≡ some m) × ((t : ℕ) → is_open t m ≡ false)

pub closed_for_good :
    (calls : List Call) (s : State) (id : Text) (l : Lease)
    → UniqueIds s.leases
    → get_lease id s.leases ≡ some l
    → is_dead l ≡ true
    → IsClosedForGood id (run calls s).leases
unfolding run
closed_for_good [] s id l u found dead = (l, found, λ t. is_dead-closed l t dead)
closed_for_good (c ∷ cs) s id l u found dead =
    let step = perform-Reach c.secrets c.now c.operation s u in
    let (m, there, d) = Reach-is_dead id l step u found dead in
    closed_for_good cs (perform c.secrets c.now c.operation s) id m (UniqueIds-Reach step u) there d

-- A row that an update of the rows of one identifier reaches.
pub get-update_where :
    (id : Text) (p : Lease → Bool) (f : Lease → Lease) (ls : List Lease) (l : Lease)
    → ((x : Lease) → (f x).id ≡ x.id)
    → get_lease id ls ≡ some l
    → get_lease id (update_where p f ls) ≡ some (if p l then f l else l)
unfolding update_where
get-update_where id p f [] l keeps found = absurd (unfold get_lease first in cc found)
get-update_where id p f (x ∷ ls) l keeps found = ground (
  arith,
  keeps x,
  get_lease-cons id x ls,
  get_lease-cons id (if p x then f x else x) (update_where p f ls),
  get-update_where id p f ls l keeps,
)
