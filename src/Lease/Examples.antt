-- ===== src/Lease/Examples.antt =====
-- Runs of lease/manager.ts on a table with two leases.
use gatehouse.Common.{
  ◌≡◌, refl, Text, codes, text_eq, true, false, ◌&&◌, none, some, List, [], ◌∷◌, All, arith,
  if◌then◌else◌, first, trim, trim_start, is_space,
}
use gatehouse.Common.Int.{pos}
use gatehouse.Common.Exec.{done}
use gatehouse.Lease.State.{
  Lease, State, Secrets, pending, get_lease, is_for, is_open, find_active_approved_lease,
}
use gatehouse.Lease.Manager.{
  new_lease, request_access, request_or_reuse, valid_ttl, clamp_request_ttl,
}
use gatehouse.Lease.Decisions.{approve, deny, revoke, reap_expired}
use gatehouse.Lease.Life.{approves, reaps, renews}
use gatehouse.Lease.Rows.{UniqueIds}
use gatehouse.Lease.History.{Call, Trace, run, run-Reach, IsClosedForGood}
use gatehouse.Lease.Closing.{revoke-IsClosedForGood, deny-IsClosedForGood}
use gatehouse.Lease.Finding.{IsLongest, find_active_approved_lease-IsLongest}
use gatehouse.Lease.Approval.{granted, is_undecided, approve-Decides}
use gatehouse.Lease.Reaping.{is_overdue, reap_expired-Sweeps}
use gatehouse.Lease.Requests.{is_well_formed, request_access-IsReused}

abbrev pub agent : Text
agent = codes "agent"

abbrev pub path : Text
path = codes "db/prod"

-- Every path has a secret that wants approval.
abbrev pub gated_secrets : Secrets
gated_secrets = record {
  get_meta = λ p. some ((codes "requires_approval", codes "true") ∷ []);
  get = λ p. done (some (codes "value"));
}

abbrev pub open_lease : Lease
open_lease = new_lease (codes "lease-1") path agent 60 0

abbrev waiting_lease : Lease
waiting_lease = record (new_lease (codes "lease-2") path agent 60 0) {
  status = pending;
  justification = some (codes "to repair it");
  request_expires_at = some 600000;
}

abbrev pub two_leases : State
two_leases = record {
  leases = open_lease ∷ waiting_lease ∷ [];
  audit = [];
  events = some [];
  webhooks = [];
}

pub two_leases-UniqueIds : UniqueIds two_leases.leases
unfolding get_lease first text_eq
two_leases-UniqueIds = (refl, (refl, tt))

open_there : get_lease (codes "lease-1") two_leases.leases ≡ some open_lease
unfolding get_lease first text_eq
open_there = refl

waiting_there : get_lease (codes "lease-2") two_leases.leases ≡ some waiting_lease
unfolding get_lease first text_eq
waiting_there = refl

abbrev calls : List Call
calls =
    record {
      secrets = gated_secrets;
      now = 1000;
      operation = approves (codes "lease-2") (codes "admin");
    }
    ∷ record { secrets = gated_secrets; now = 2000; operation = renews (codes "lease-1") 120 agent }
    ∷ record { secrets = gated_secrets; now = 900000; operation = reaps }
    ∷ []

run-Reach_example :
    Trace calls two_leases.leases (run calls two_leases).leases
    × UniqueIds (run calls two_leases).leases
run-Reach_example = run-Reach calls two_leases two_leases-UniqueIds

revoke-IsClosedForGood_example :
    IsClosedForGood
      (codes "lease-1")
      (run calls (revoke (codes "lease-1") (codes "admin") two_leases).1).leases
revoke-IsClosedForGood_example =
    revoke-IsClosedForGood calls two_leases (codes "lease-1") (codes "admin") open_lease
      two_leases-UniqueIds open_there refl

deny-IsClosedForGood_example :
    IsClosedForGood
      (codes "lease-2")
      (run calls (deny 500 (codes "lease-2") (codes "admin") (codes "no") two_leases).1).leases
deny-IsClosedForGood_example =
    deny-IsClosedForGood calls 500 two_leases (codes "lease-2") (codes "admin") (codes "no")
      waiting_lease two_leases-UniqueIds waiting_there refl

find_active_approved_lease-IsLongest_example :
    IsLongest
      (λ l. is_for agent path l && is_open 1000 l)
      two_leases.leases
      (find_active_approved_lease 1000 agent path two_leases.leases)
find_active_approved_lease-IsLongest_example =
    find_active_approved_lease-IsLongest 1000 agent path two_leases.leases

approve-Decides_example :
    ((approve 500 (codes "lease-2") (codes "admin") two_leases).0 ≡ (
      if is_undecided waiting_lease
      then some (granted 500 (codes "admin") waiting_lease)
      else none))
    × (get_lease
          (codes "lease-1")
          (approve 500 (codes "lease-2") (codes "admin") two_leases).1.leases
        ≡ (if text_eq (codes "lease-1") (codes "lease-2") && is_undecided waiting_lease
            then some (granted 500 (codes "admin") waiting_lease)
            else get_lease (codes "lease-1") two_leases.leases))
approve-Decides_example =
    approve-Decides 500 (codes "lease-2") (codes "lease-1") (codes "admin") two_leases waiting_lease
      waiting_there

reap_expired-Sweeps_example :
    All (λ l. is_overdue 700000 l ≡ false) (reap_expired 700000 two_leases).1.leases
    × (find_active_approved_lease 700000 agent path (reap_expired 700000 two_leases).1.leases
        ≡ find_active_approved_lease 700000 agent path two_leases.leases)
reap_expired-Sweeps_example = reap_expired-Sweeps 700000 two_leases agent path two_leases-UniqueIds

abbrev why : Text
why = codes "to repair the table"

abbrev asked : State
asked =
    (request_access gated_secrets 1000 (codes "3") path agent (pos 60) why (pos 600) two_leases).1

asked_twice :
    request_access gated_secrets 1000 (codes "3") path agent (pos 60) why (pos 600) two_leases
    ≡ (done waiting_lease, asked)
unfolding request_access request_or_reuse trim trim_start is_space valid_ttl clamp_request_ttl first
    text_eq
asked_twice = refl

accepted : is_well_formed why (pos 90) ≡ true
unfolding is_well_formed trim trim_start is_space valid_ttl
accepted = refl

request_access-IsReused_example :
    request_access gated_secrets 2000 (codes "4") path agent (pos 90) why (pos 600) asked
    ≡ (done waiting_lease, asked)
request_access-IsReused_example =
    request_access-IsReused gated_secrets gated_secrets 1000 2000 (codes "3") (codes "4") path agent
      why why (pos 60) (pos 90) (pos 600) (pos 600) two_leases asked waiting_lease (omega arith)
      asked_twice refl accepted
