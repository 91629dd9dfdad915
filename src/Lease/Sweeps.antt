-- ===== src/Lease/Sweeps.antt =====
-- Revocation, deletion and the reaper change the table by the steps of a lease's life.
use gatehouse.Common.{
  ℕ, ◌≡◌, inl, inr, refl, ap, sym, subst, Text, text_eq_iff, Bool, true, false, not, Option, none,
  some, List, [], ◌∷◌, ◌==◌, select, update_where, count_where, arith, Bool-cases,
}
use gatehouse.Lease.State.{pending, Lease, State, get_lease, emit, audited}
use gatehouse.Lease.Decisions.{
  live_row, revoke_row, live_at_path, pending_of, run_out, unanswered, expire_row, has_some_id,
  reaped, report_expired, revoke, revoke_by_path, delete_pending_for_identity, reap_expired,
  announce_revoked,
}
use gatehouse.Lease.Life.{
  Operation, RowStep, same, closes, by_id, by_path, by_time, lapses, RowSteps, nil, keep, drop,
  change, Reach, here, next,
}
use gatehouse.Lease.Rows.{UniqueIds, UniqueIds-RowSteps, get_lease-cons}
use gatehouse.Lease.Updates.{
  pending_request, approved_lease, StepsWhere, StepsWhere-all, update_where-RowSteps, update_all,
}

announce_revoked-leases :
    (id : Text) (o : Option Lease) (s : State) → (announce_revoked id o s).leases ≡ s.leases
unfolding emit
announce_revoked-leases id none s = refl
announce_revoked-leases id (some l) s = refl

pub revoke-Reach :
    {now : ℕ} (id identity : Text) (s : State)
    → Reach now (Operation.revokes id identity) s.leases (revoke id identity s).1.leases
unfolding revoke audited
revoke-Reach id identity s = elim (Bool-cases (count_where (live_row id) s.leases == 0)) [
  | inl nothing ↦ rw (nothing, revoke) here
  | inr some_row ↦
      rw (some_row, revoke)
        (rw announce_revoked-leases (
          update_all (live_row id) revoke_row s.leases (λ l h.
            closes l
              (by_id identity (
                ap (λ k. Operation.revokes k identity)
                  (sym ((text_eq_iff l.id id).0 (ground arith)))))
              (ground arith))))
]

pub revoke_by_path-Reach :
    {now : ℕ} (path identity : Text) (s : State)
    → Reach now
        (Operation.revokes_path path identity)
        s.leases
        (revoke_by_path path identity s).1.leases
unfolding revoke_by_path audited
revoke_by_path-Reach path identity s =
    let swept = update_all (live_at_path path) revoke_row s.leases (λ l h.
      closes l
        (by_path identity (
          ap (λ k. Operation.revokes_path k identity)
            (sym ((text_eq_iff l.secret_path path).0 (ground arith)))))
        (ground arith)) in
    elim (Bool-cases (count_where (live_at_path path) s.leases == 0)) [
      | inl nothing ↦ rw (nothing, revoke_by_path) swept
      | inr some_row ↦ rw (some_row, revoke_by_path) swept
    ]

select-RowSteps :
    {now : ℕ} {op : Operation} (p : Lease → Bool) (ls : List Lease)
    → ((l : Lease)
        → p l ≡ false
        → (op ≡ Operation.deletes_pending l.identity) × (l.status ≡ pending))
    → RowSteps now op ls (select p ls)
unfolding select
select-RowSteps p [] h = nil
select-RowSteps p (l ∷ ls) h = elim (Bool-cases (p l)) [
  | inl stays ↦ rw stays (keep (same l) (select-RowSteps p ls h))
  | inr goes ↦ rw goes (drop l (h l goes).0 (h l goes).1 (select-RowSteps p ls h))
]

pub delete_pending-Reach :
    {now : ℕ} (identity : Text) (s : State)
    → Reach now
        (Operation.deletes_pending identity)
        s.leases
        (delete_pending_for_identity identity s).1.leases
unfolding delete_pending_for_identity
delete_pending-Reach identity s = next here (
    change (
      select-RowSteps (λ l. not (pending_of identity l)) s.leases
        (λ l h. (
          ap Operation.deletes_pending (sym ((text_eq_iff l.identity identity).0 (ground arith))),
          pending_request l.status (ground arith),
        ))))

-- No selected row has the identifier of a row that is not in the table.
pub has_some_id-absent :
    (p : Lease → Bool) (x : Lease) (ls : List Lease)
    → get_lease x.id ls ≡ none
    → has_some_id (select p ls) x ≡ false
unfolding select has_some_id
has_some_id-absent p x [] h = refl
has_some_id-absent p x (l ∷ ls) h = ground (
  arith,
  has_some_id-absent p x ls,
  get_lease-cons x.id l ls,
  text_eq_iff l.id x.id,
  text_eq_iff x.id l.id,
)

StepsWhere-cons :
    (now : ℕ) (op : Operation) (l : Lease) (rs : List Lease) (f : Lease → Lease) (ls : List Lease)
    → get_lease l.id ls ≡ none
    → StepsWhere now op (has_some_id rs) f ls
    → StepsWhere now op (has_some_id (l ∷ rs)) f ls
unfolding has_some_id
StepsWhere-cons now op l rs f [] h st = tt
StepsWhere-cons now op l rs f (m ∷ ls) h st = (
  λ e. st.0 (ground (arith, get_lease-cons l.id m ls)),
  StepsWhere-cons now op l rs f ls (ground (arith, get_lease-cons l.id m ls)) st.1,
)

pub select_hit :
    (p : Lease → Bool) (l : Lease) (ls : List Lease)
    → p l ≡ true
    → l ∷ select p ls ≡ select p (l ∷ ls)
unfolding select
select_hit p l ls h = rw h

pub select_miss :
    (p : Lease → Bool) (l : Lease) (ls : List Lease) → p l ≡ false → select p ls ≡ select p (l ∷ ls)
unfolding select
select_miss p l ls h = rw h

-- `UPDATE … WHERE id IN (…)` of the selected rows reaches these rows and no others.
selected-StepsWhere :
    {now : ℕ} {op : Operation} (p : Lease → Bool) (f : Lease → Lease) (ls : List Lease)
    → UniqueIds ls
    → ((l : Lease) → p l ≡ true → RowStep now op l (f l))
    → StepsWhere now op (has_some_id (select p ls)) f ls
selected-StepsWhere p f [] u h = tt
selected-StepsWhere {now} {op} p f (l ∷ ls) u h =
    let rest = selected-StepsWhere p f ls u.1 h in
    elim (Bool-cases (p l)) [
      | inl taken ↦ (
        λ _. h l taken,
        subst (λ rs. StepsWhere now op (has_some_id rs) f ls) (select_hit p l ls taken)
            (StepsWhere-cons now op l (select p ls) f ls u.0 rest),
      )
      | inr left ↦
          let other = select_miss p l ls left in
          (
            λ e. absurd (cc (e, other, has_some_id-absent p l ls u.0)),
            subst (λ rs. StepsWhere now op (has_some_id rs) f ls) other rest,
          )
    ]

unanswered-limit :
    (now : ℕ) (l : Lease) (o : Option ℕ)
    → l.request_expires_at ≡ o
    → unanswered now l ≡ true
    → RowStep now Operation.reaps l (expire_row l)
unanswered-limit now l none e h = absurd (ground (arith, e, h))
unanswered-limit now l (some limit) e h =
    lapses l limit refl (pending_request l.status (ground arith)) (ground arith) e
      (ground (arith, e, h))

unanswered-expires :
    (now : ℕ) (l : Lease) → unanswered now l ≡ true → RowStep now Operation.reaps l (expire_row l)
unanswered-expires now l h = unanswered-limit now l l.request_expires_at refl h

reaped-Reach :
    (now : ℕ) (ls : List Lease) → UniqueIds ls → Reach now Operation.reaps ls (reaped now ls)
unfolding reaped
reaped-Reach now ls u =
    let first_sweep = update_where-RowSteps (run_out now) revoke_row ls (
      StepsWhere-all (run_out now) revoke_row ls (λ l h.
        closes l (by_time refl (approved_lease l.status (ground arith)) (ground arith))
          (ground arith))) in
    let swept = update_where (run_out now) revoke_row ls in
    next (next here (change first_sweep)) (
      change (
        update_where-RowSteps (has_some_id (select (unanswered now) swept)) expire_row swept (
          selected-StepsWhere (unanswered now) expire_row swept (UniqueIds-RowSteps first_sweep u)
            (unanswered-expires now))))

report_expired-leases : (rs : List Lease) (s : State) → (report_expired rs s).leases ≡ s.leases
unfolding report_expired emit audited
report_expired-leases [] s = refl
report_expired-leases (r ∷ rs) s = report_expired-leases rs _

-- What the reaper leaves in the table.
pub leases-reap_expired :
    (now : ℕ) (s : State) → (reap_expired now s).1.leases ≡ reaped now s.leases
unfolding reap_expired audited
leases-reap_expired now s = elim (Bool-cases (count_where (run_out now) s.leases == 0)) [
  | inl nothing ↦ rw (nothing, reap_expired) (report_expired-leases _ _)
  | inr some_row ↦ rw (some_row, reap_expired) (report_expired-leases _ _)
]

pub reap_expired-Reach :
    (now : ℕ) (s : State)
    → UniqueIds s.leases
    → Reach now Operation.reaps s.leases (reap_expired now s).1.leases
reap_expired-Reach now s u = rw leases-reap_expired (reaped-Reach now s.leases u)
