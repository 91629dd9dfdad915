-- ===== src/Lease/Decisions.antt =====
-- The methods of lease/manager.ts that change a lease which is there: approval, denial, renewal,
-- revocation, deletion and the reaper; and the approval without a request.
use gatehouse.Common.{
  ℕ, ◌+◌, ◌*◌, Text, String, text_eq, codes, take, length, Bool, true, false, not, ◌&&◌, ◌||◌,
  Option, none, some, List, [], ◌∷◌, leb, ◌==◌, if◌then◌else◌, select, update_where, count_where,
}
use gatehouse.Common.Exec.{◌>>◌, modify}
use gatehouse.Audit.{AuditEntry, MetaValue, Action}
use gatehouse.Lease.State.{
  LeaseStatus, approved, denied, expired, Lease, lease_status_changed, State, Secrets, is_pending,
  is_approved, not_after, has_id, get_lease, emit, audited, sql_datetime,
}
use gatehouse.Lease.Manager.{
  Manager, entry, insert_lease, new_lease, reread, lease_id, justification_max,
  audit_justification_max,
}

-- The rows of `WHERE id = ? AND status = 'pending'`.
abbrev pub pending_row : Text → Lease → Bool
pending_row id l = has_id id l && is_pending l.status

abbrev pub live_row : Text → Lease → Bool
live_row id l = has_id id l && not l.revoked

abbrev pub set_leases : List Lease → State → State
set_leases leases s = record s { leases = leases }

-- A decision is written twice in the log, for the one who decides and for the one who asked.
unfoldable pub decided :
    Action → LeaseStatus → Text → Text → Lease → List (String × MetaValue) → State → State
unfolding entry
decided action status id approver existing detail s =
    emit (lease_status_changed id status existing.identity (some approver)) (
      audited
        (entry existing.identity action existing.secret_path id
          (("approved_by", MetaValue.text approver) ∷ detail))
        (audited
          (entry approver action existing.secret_path id
            (("agent_identity", MetaValue.text existing.identity) ∷ detail))
          s))

-- A lease that can be decided on: `status !== "pending" || revoked` turns the caller away.
abbrev pub undecided : Lease → Bool
undecided l = is_pending l.status && not l.revoked

abbrev pub approve_row : ℕ → Text → ℕ → Lease → Lease
approve_row now approver ttl l = record l {
  status = approved;
  approved_by = some approver;
  approved_at = some now;
  expires_at = now + ttl * 1000;
}

unfoldable pub approve : ℕ → Text → Text → State → Option Lease × State
approve now id approver s = elim (get_lease id s.leases) [
  | none ↦ (none, s)
  | some existing ↦
      if undecided existing
      then (let leases =
            update_where (pending_row id) (approve_row now approver existing.ttl_seconds)
              s.leases in
          (
            get_lease id leases,
            decided Action.lease_approved approved id approver existing
                (("ttl", MetaValue.number existing.ttl_seconds) ∷ []) (set_leases leases s),
          ))
      else (none, s)
]

abbrev pub deny_row : ℕ → Text → Text → Lease → Lease
deny_row now approver reason l = record l {
  status = denied;
  denied_reason = some reason;
  approved_by = some approver;
  approved_at = some (sql_datetime now);
}

unfoldable pub deny : ℕ → Text → Text → Text → State → Option Lease × State
deny now id approver reason s = elim (get_lease id s.leases) [
  | none ↦ (none, s)
  | some existing ↦
      if undecided existing
      then (let r = take 500 reason in
          let leases = update_where (pending_row id) (deny_row now approver r) s.leases in
          (
            get_lease id leases,
            decided Action.lease_denied denied id approver existing
                (("reason", MetaValue.text (take audit_justification_max r)) ∷ [])
                (set_leases leases s),
          ))
      else (none, s)
]

unfoldable pub auto_approve : Secrets → ℕ → Text → Text → Text → ℕ → Text → Text → Manager Lease
unfolding entry
auto_approve secrets now uuid path identity ttl approved_by justification = do
  let id = lease_id uuid
  insert_lease secrets (record (new_lease id path identity ttl now) {
    justification = some (take justification_max justification);
    approved_by = some approved_by;
    approved_at = some now;
  })
  modify (
      audited (
        entry identity Action.lease_auto_approved path id
          (("approved_by", MetaValue.text approved_by) ∷ ("ttl", MetaValue.number ttl) ∷ [])))
  reread id

-- What `renew` asks of the lease.
abbrev pub renewable : ℕ → Lease → Bool
renewable now l = not l.revoked && is_approved l.status && not (leb l.expires_at now)

abbrev pub renew_row : ℕ → ℕ → Lease → Lease
renew_row now ttl l = record l { ttl_seconds = ttl; expires_at = now + ttl * 1000 }

unfoldable pub renew : ℕ → Text → ℕ → Text → State → Option Lease × State
unfolding entry
renew now id ttl identity s = elim (get_lease id s.leases) [
  | none ↦ (none, s)
  | some existing ↦
      if renewable now existing
      then (
        some (renew_row now ttl existing),
        audited
            (entry identity Action.lease_renew existing.secret_path id
              (("ttl", MetaValue.number ttl) ∷ []))
            (set_leases (update_where (live_row id) (renew_row now ttl) s.leases) s),
      )
      else (none, s)
]

abbrev pub revoke_row : Lease → Lease
revoke_row l = record l { revoked = true }

-- `lease` is read again after the update, for the event.
abbrev pub announce_revoked : Text → Option Lease → State → State
announce_revoked id none s = s
announce_revoked id (some l) s = emit (lease_status_changed id l.status l.identity none) s

abbrev revoke_entry : Text → Text → AuditEntry
revoke_entry identity id = record {
  identity = identity;
  action = Action.lease_revoke;
  path = none;
  lease_id = some id;
  source_ip = none;
  metadata = [];
  success = true;
}

unfoldable pub revoke : Text → Text → State → Bool × State
revoke id identity s =
    let leases = update_where (live_row id) revoke_row s.leases in
    if count_where (live_row id) s.leases == 0 then (false, s) else (
      true,
      announce_revoked id (get_lease id leases)
          (audited (revoke_entry identity id) (set_leases leases s)),
    )

abbrev counted_entry : Text → Action → Option Text → String → ℕ → AuditEntry
counted_entry identity action path key n = record {
  identity = identity;
  action = action;
  path = path;
  lease_id = none;
  source_ip = none;
  metadata = (key, MetaValue.number n) ∷ [];
  success = true;
}

abbrev pub live_at_path : Text → Lease → Bool
live_at_path path l = text_eq l.secret_path path && not l.revoked

unfoldable pub revoke_by_path : Text → Text → State → ℕ × State
revoke_by_path path identity s =
    let changes = count_where (live_at_path path) s.leases in
    let s' = set_leases (update_where (live_at_path path) revoke_row s.leases) s in
    (
      changes,
      if changes == 0
          then s'
          else audited (counted_entry identity Action.lease_revoke_all (some path) "count" changes)
              s',
    )

abbrev pub pending_of : Text → Lease → Bool
pending_of identity l = text_eq l.identity identity && is_pending l.status

unfoldable pub delete_pending_for_identity : Text → State → ℕ × State
delete_pending_for_identity identity s = (
  count_where (pending_of identity) s.leases,
  set_leases (select (λ l. not (pending_of identity l)) s.leases) s,
)

-- The two sets of rows that the reaper changes.
abbrev pub run_out : ℕ → Lease → Bool
run_out now l = not l.revoked && is_approved l.status && leb l.expires_at now

abbrev pub unanswered : ℕ → Lease → Bool
unanswered now l = not l.revoked && is_pending l.status && not_after now l.request_expires_at

abbrev pub expire_row : Lease → Lease
expire_row l = record l { status = expired; revoked = true }

-- `id IN (…)`
unfoldable pub has_some_id : List Lease → Lease → Bool
has_some_id [] l = false
has_some_id (r ∷ rs) l = text_eq l.id r.id || has_some_id rs l

abbrev pub reaper : Text
reaper = codes "system:reaper"

unfoldable pub report_expired : List Lease → State → State
unfolding entry
report_expired [] s = s
report_expired (r ∷ rs) s = report_expired rs (
    emit (lease_status_changed r.id expired r.identity none) (
      audited
        (entry reaper Action.lease_request_expired r.secret_path r.id
          (("agent_identity", MetaValue.text r.identity) ∷ []))
        s))

-- The table after the reaper: first the leases that ran out, then the requests without an answer.
unfoldable pub reaped : ℕ → List Lease → List Lease
reaped now leases =
    let swept = update_where (run_out now) revoke_row leases in
    update_where (has_some_id (select (unanswered now) swept)) expire_row swept

unfoldable pub reap_expired : ℕ → State → ℕ × State
reap_expired now s =
    let changes = count_where (run_out now) s.leases in
    let requests = select (unanswered now) (update_where (run_out now) revoke_row s.leases) in
    let s' = report_expired requests (set_leases (reaped now s.leases) s) in
    (
      changes + length requests,
      if changes == 0
          then s'
          else audited (counted_entry reaper Action.lease_reap none "expired_count" changes) s',
    )
