-- ===== src/Lease/Reaping.antt =====
-- lease/manager.ts: what `reapExpired` does to the table, and that nobody sees it lose a live window.
use gatehouse.Common.{
  ℕ, leb, ◌≡◌, inl, inr, refl, subst, ◌∙◌, Text, text_eq_iff, text_eq_refl, Bool, true, false, ◌&&◌,
  not, ◌&&◌, ◌||◌, none, List, [], ◌∷◌, All, if◌then◌else◌, select, update_where, arith, Bool-cases,
}
use gatehouse.Lease.State.{
  is_pending, is_approved, not_after, Lease, State, get_lease, is_for, is_open,
  find_active_approved_lease,
}
use gatehouse.Lease.Decisions.{
  revoke_row, run_out, unanswered, expire_row, has_some_id, reaped, reap_expired,
}
use gatehouse.Lease.Rows.{UniqueIds, get_lease-cons}
use gatehouse.Lease.Sweeps.{has_some_id-absent, select_hit, select_miss, leases-reap_expired}

abbrev Agree : (Lease → Bool) → (Lease → Bool) → List Lease → Type 0
Agree p q ls = All (λ x. q x ≡ p x) ls

Agree-taken :
    (p : Lease → Bool) (rs : List Lease) (l : Lease) (ls : List Lease)
    → get_lease l.id ls ≡ none
    → Agree p (has_some_id rs) ls
    → Agree p (has_some_id (l ∷ rs)) ls
unfolding has_some_id
Agree-taken p rs l [] new all = tt
Agree-taken p rs l (x ∷ ls) new (a, all) = (
  ground (arith, get_lease-cons l.id x ls, text_eq_iff x.id l.id, text_eq_refl l.id),
  Agree-taken p rs l ls (ground (arith, get_lease-cons l.id x ls)) all,
)

-- `id IN (…)` of the selected rows holds exactly of these.
selected-Agree :
    (p : Lease → Bool) (ls : List Lease) → UniqueIds ls → Agree p (has_some_id (select p ls)) ls
selected-Agree p [] u = tt
selected-Agree p (l ∷ ls) u =
    let rest = selected-Agree p ls u.1 in
    elim (Bool-cases (p l)) [
      | inl taken ↦
          subst (λ rs. Agree p (has_some_id rs) (l ∷ ls)) (select_hit p l ls taken)
            (
              unfold has_some_id in rw (text_eq_refl, taken) refl,
              Agree-taken p (select p ls) l ls u.0 rest,
            )
      | inr left ↦
          subst (λ rs. Agree p (has_some_id rs) (l ∷ ls)) (select_miss p l ls left)
            (rw (has_some_id-absent p l ls u.0, left) refl, rest)
    ]

update_where-Agree :
    (p q : Lease → Bool) (f : Lease → Lease) (ls : List Lease)
    → Agree p q ls
    → update_where q f ls ≡ update_where p f ls
unfolding update_where
update_where-Agree p q f [] all = refl
update_where-Agree p q f (x ∷ ls) (a, all) = rw (a, update_where-Agree p q f ls all) refl

absent-update_where :
    (p : Lease → Bool) (id : Text) (ls : List Lease)
    → get_lease id ls ≡ none
    → get_lease id (update_where p revoke_row ls) ≡ none
unfolding update_where
absent-update_where p id [] h = h
absent-update_where p id (x ∷ ls) h = ground (
  arith,
  get_lease-cons id x ls,
  absent-update_where p id ls,
  get_lease-cons id (if p x then revoke_row x else x) (update_where p revoke_row ls),
)

UniqueIds-update_where :
    (p : Lease → Bool) (ls : List Lease) → UniqueIds ls → UniqueIds (update_where p revoke_row ls)
unfolding update_where
UniqueIds-update_where p [] u = tt
UniqueIds-update_where p (l ∷ ls) u = elim (Bool-cases (p l)) [
  | inl hit ↦ rw hit (absent-update_where p l.id ls u.0, UniqueIds-update_where p ls u.1)
  | inr miss ↦ rw miss (absent-update_where p l.id ls u.0, UniqueIds-update_where p ls u.1)
]

abbrev swept : ℕ → List Lease → List Lease
swept now ls = update_where (unanswered now) expire_row (update_where (run_out now) revoke_row ls)

reaped-swept : (now : ℕ) (ls : List Lease) → UniqueIds ls → reaped now ls ≡ swept now ls
unfolding reaped
reaped-swept now ls u =
    update_where-Agree (unanswered now) _ expire_row _
      (selected-Agree (unanswered now) _ (UniqueIds-update_where (run_out now) ls u))

abbrev pub is_overdue : ℕ → Lease → Bool
is_overdue now l =
    not l.revoked
    && (is_approved l.status && leb l.expires_at now
        || is_pending l.status && not_after now l.request_expires_at)

nothing_overdue : (now : ℕ) (ls : List Lease) → All (λ l. is_overdue now l ≡ false) (swept now ls)
unfolding update_where
nothing_overdue now [] = tt
nothing_overdue now (l ∷ ls) = (ground arith, nothing_overdue now ls)

select-update_where :
    (q p : Lease → Bool) (f : Lease → Lease) (ls : List Lease)
    → ((x : Lease) → p x ≡ true → (q x ≡ false) × (q (f x) ≡ false))
    → select q (update_where p f ls) ≡ select q ls
unfolding select update_where
select-update_where q p f [] h = refl
select-update_where q p f (x ∷ ls) h = ground (arith, h x, select-update_where q p f ls h)

select-swept :
    (now : ℕ) (identity path : Text) (ls : List Lease)
    → select (λ l. is_for identity path l && is_open now l) (swept now ls)
      ≡ select (λ l. is_for identity path l && is_open now l) ls
select-swept now identity path ls =
    let q : Lease → Bool = λ l. is_for identity path l && is_open now l in
    select-update_where q (unanswered now) expire_row (update_where (run_out now) revoke_row ls)
      (λ x h. (ground arith, ground arith))
    ∙ select-update_where q (run_out now) revoke_row ls (λ x h. (ground arith, ground arith))

-- In a table whose identifiers are unique, after the reaper ran, no row that is not revoked is an
-- approved lease whose end has come or a request whose time for an answer has passed; and whoever asks at that time for the
-- access window of an identity and a path gets the same answer as before it ran.
pub reap_expired-Sweeps :
    (now : ℕ) (s : State) (identity path : Text)
    → UniqueIds s.leases
    → All (λ l. is_overdue now l ≡ false) (reap_expired now s).1.leases
      × (find_active_approved_lease now identity path (reap_expired now s).1.leases
          ≡ find_active_approved_lease now identity path s.leases)
unfolding find_active_approved_lease
reap_expired-Sweeps now s identity path u =
    let e = leases-reap_expired now s ∙ reaped-swept now s.leases u in
    (
      rw e (nothing_overdue now s.leases),
      ground (arith, e, select-swept now identity path s.leases),
    )
