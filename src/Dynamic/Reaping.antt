-- ===== src/Dynamic/Reaping.antt =====
-- The reaper of dynamic/manager.ts closes what is over, whatever the providers answer.
use gatehouse.Common.{
  ℕ, zero, suc, ◌≡◌, inl, inr, refl, sym, ◌∙◌, ap, subst, Text, text_eq_iff, true, none, some, List,
  [], ◌∷◌, Any, select, first, arith,
}
use gatehouse.Secrets.Vault.{Crypto}
use gatehouse.Dynamic.Sealing.{Json, LeaseRow, State, Providers, find_live, get_config, get_lease}
use gatehouse.Dynamic.Manager.{
  revoke_lease, is_expired, revoke_each, counted, reaper, report_reaped, reap_expired,
}
use gatehouse.Dynamic.Revoking.{
  Readable, revoke_lease-Revoked, revoke_lease-closes, revoke_lease-other,
}

module _ (json : Json) (c : Crypto) (providers : Providers) (identity : Text) where
  stays-closed :
      (id : Text) (rows : List LeaseRow) (s : State) (n : ℕ)
      → find_live id s.leases ≡ none
      → find_live id (revoke_each json c providers identity rows s n).1.leases ≡ none
  unfolding revoke_each
  stays-closed id [] s n h = h
  stays-closed id (row ∷ rows) s n h =
      let (result, s') = revoke_lease json c providers row.id identity s in
      stays-closed id rows s' (counted result n)
        (elim (revoke_lease-other json c providers identity id row.id s) [
          | inl e ↦ e
          | inr e ↦ e ∙ h
        ])

  still-Readable :
      (id : Text) (t s : State)
      → Readable json c id s
      → (t.configs ≡ s.configs) × (t.config_key ≡ s.config_key)
      → find_live id t.leases ≡ find_live id s.leases
      → Readable json c id t
  unfolding get_lease get_config
  still-Readable id t s (l, config, there, opened) (configs, key) same =
      (l, config, rw (same, key) there, rw (configs, key) opened)

  -- Each lease of the list that can be read is closed in the end, whatever happens to the others.
  revoke_each-closes :
      (id : Text) (rows : List LeaseRow) (s : State) (n : ℕ)
      → Any (λ r. r.id ≡ id) rows
      → Readable json c id s
      → find_live id (revoke_each json c providers identity rows s n).1.leases ≡ none
  unfolding revoke_each
  revoke_each-closes id [] s n there readable = absurd there
  revoke_each-closes id (row ∷ rows) s n (inl same) readable =
      let (result, s') = revoke_lease json c providers row.id identity s in
      stays-closed id rows s' (counted result n) (
        subst (λ k. find_live id (revoke_lease json c providers k identity s).1.leases ≡ none)
          (sym same) (revoke_lease-closes json c providers identity id s readable))
  revoke_each-closes id (row ∷ rows) s n (inr later) readable =
      let (result, s') = revoke_lease json c providers row.id identity s in
      let (configs, key, either) = revoke_lease-Revoked json c providers identity row.id s in
      elim (revoke_lease-other json c providers identity id row.id s) [
        | inl e ↦ stays-closed id rows s' (counted result n) e
        | inr e ↦
            revoke_each-closes id rows s' (counted result n) later
              (still-Readable id s' s readable (configs, key) e)
      ]

expired-listed :
    (now : ℕ) (id : Text) (rows : List LeaseRow) (r : LeaseRow)
    → find_live id rows ≡ some r
    → is_expired now r ≡ true
    → Any (λ x. x.id ≡ id) (select (is_expired now) rows)
unfolding find_live first select
expired-listed now id [] r there over = absurd (cc there)
expired-listed now id (x ∷ xs) r there over =
    ground (arith, text_eq_iff x.id id, expired-listed now id xs r)

report_reaped-leases : (n : ℕ) (s : State) → (report_reaped n s).leases ≡ s.leases
report_reaped-leases zero s = refl
report_reaped-leases (suc n) s = refl

-- After the reaper no lease that was over is open, whatever the providers answer and whichever other
-- leases it fails on, if the lease's own credential and the configuration of its path can be
-- decrypted.
pub reap_expired-closes :
    (json : Json) (c : Crypto) (providers : Providers) (now : ℕ) (id : Text) (s : State)
    (r : LeaseRow)
    → find_live id s.leases ≡ some r
    → is_expired now r ≡ true
    → Readable json c id s
    → find_live id (reap_expired json c providers now s).1.leases ≡ none
unfolding reap_expired
reap_expired-closes json c providers now id s r there over readable =
    let rows = select (is_expired now) s.leases in
    let (count, s') = revoke_each json c providers reaper rows s 0 in
    ap (find_live id) (report_reaped-leases count s')
    ∙ revoke_each-closes json c providers reaper id rows s 0
        (expired-listed now id s.leases r there over) readable
