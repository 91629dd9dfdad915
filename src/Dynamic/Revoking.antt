-- ===== src/Dynamic/Revoking.antt =====
-- A revocation in dynamic/manager.ts, whatever the provider answers.
use gatehouse.Common.{
  ◌≡◌, ◌⊎◌, inl, inr, refl, sym, ◌∙◌, ap, subst, Text, text_eq, text_eq_iff, Bool, true, false,
  Option, none, some, List, [], ◌∷◌, if◌then◌else◌, update_where, first, map, arith, Bool-cases,
  Option-cases,
}
use gatehouse.Common.Dict.{Dict, get}
use gatehouse.Common.Exec.{Outcome, done, thrown}
use gatehouse.Secrets.Vault.{Crypto}
use gatehouse.Secrets.Tables.{first-hit}
use gatehouse.Dynamic.Sealing.{
  Json, ManagerError, LeaseRow, State, DynamicConfig, DynamicLease, Provider, Providers,
  decrypt_config, is_live_id, find_live, get_config, get_lease, read_lease, opened_lease,
}
use gatehouse.Dynamic.Manager.{
  report, revoke_by, revoke_at_provider, scrub_row, revoke_found, revoke_lease,
}

-- A scrub closes one lease and leaves the others.
find_live-scrub :
    (id other : Text) (rows : List LeaseRow)
    → find_live id (update_where (λ r. text_eq r.id other) scrub_row rows)
      ≡ (if text_eq other id then none else find_live id rows)
unfolding find_live first update_where
find_live-scrub id other [] = ground arith
find_live-scrub id other (r ∷ rows) = ground (
  arith,
  text_eq_iff r.id other,
  text_eq_iff r.id id,
  text_eq_iff other id,
  find_live-scrub id other rows,
)

-- A call of a provider changes only the log.
module _ (providers : Providers) (identity : Text) (l : DynamicLease) where
  abbrev SameTables : State → State → Type 0
  SameTables t s = (t.leases ≡ s.leases) × (t.configs ≡ s.configs) × (t.config_key ≡ s.config_key)

  report-SameTables :
      (r : Outcome Text (Unit {0})) (s : State) → SameTables (report identity l r s) s
  report-SameTables (done ok) s = (refl, refl, refl)
  report-SameTables (thrown message) s = (refl, refl, refl)

  revoke_by-SameTables :
      (config : DynamicConfig) (p : Option Provider) (s : State)
      → SameTables (revoke_by identity l config p s) s
  revoke_by-SameTables config none s = (refl, refl, refl)
  revoke_by-SameTables config (some p) s = report-SameTables _ s

  revoke_at_provider-SameTables :
      (config : Option DynamicConfig) (s : State)
      → SameTables (revoke_at_provider providers identity l config s) s
  revoke_at_provider-SameTables none s = (refl, refl, refl)
  revoke_at_provider-SameTables (some config) s =
      revoke_by-SameTables config (get l.provider_type providers) s

-- The configurations and the key stay, and the leases stay or one of them is scrubbed.
abbrev Revoked : Text → State → State → Type 0
Revoked id t s =
    (t.configs ≡ s.configs)
    × (t.config_key ≡ s.config_key)
    × ((t.leases ≡ s.leases) ⊎ (t.leases ≡ update_where (λ r. text_eq r.id id) scrub_row s.leases))

revoke_found-Revoked :
    (providers : Providers) (identity : Text) (l : DynamicLease)
    (config : Outcome ManagerError (Option DynamicConfig)) (s : State)
    → Revoked l.lease_id (revoke_found providers identity l config s).1 s
revoke_found-Revoked providers identity l (thrown e) s = (refl, refl, inl refl)
revoke_found-Revoked providers identity l (done config) s =
    let (leases, configs, key) = revoke_at_provider-SameTables providers identity l config s in
    (configs, key, inr (ap (update_where (λ r. text_eq r.id l.lease_id) scrub_row) leases))

opened_lease-id :
    (r : LeaseRow) (x : Outcome ManagerError (Dict Text)) (l : DynamicLease)
    → opened_lease r x ≡ done (some l)
    → l.lease_id ≡ r.id
opened_lease-id r (thrown e) l h = absurd (cc h)
opened_lease-id r (done credential) l h = ground (arith, h)

get_lease-id :
    (json : Json) (c : Crypto) (id : Text) (s : State) (l : DynamicLease)
    → get_lease json c id s ≡ done (some l)
    → l.lease_id ≡ id
unfolding get_lease
get_lease-id json c id s l h = elim (Option-cases (find_live id s.leases)) [
  | inl e ↦ absurd (ground (arith, h, e))
  | inr (r, e) ↦
      let hit : is_live_id id r ≡ true =
        unfold find_live in first-hit (is_live_id id) s.leases r e in
      let opened : opened_lease r (decrypt_config json c s.config_key r.credential)
          ≡ done (some l) =
        sym (ap (read_lease json c s.config_key) e) ∙ h in
      opened_lease-id r (decrypt_config json c s.config_key r.credential) l opened
      ∙ (text_eq_iff r.id id).0 (ground (arith, hit))
]

lease_answers :
    (r : Outcome ManagerError (Option DynamicLease))
    → ((e : ManagerError) × (r ≡ thrown e))
      ⊎ (r ≡ done none)
      ⊎ ((l : DynamicLease) × (r ≡ done (some l)))
lease_answers (thrown e) = inl (e, refl)
lease_answers (done none) = inr (inl refl)
lease_answers (done (some l)) = inr (inr (l, refl))

-- The lease is open, and its credential and its configuration can be decrypted.
abbrev pub Readable : Json → Crypto → Text → State → Type 0
Readable json c id s =
    (l : DynamicLease) × (config : Option DynamicConfig) × (get_lease json c id s ≡ done (some l))
    × (get_config json c l.path s ≡ done config)

module _ (json : Json) (c : Crypto) (providers : Providers) (identity : Text) where
  pub revoke_lease-Revoked :
      (id : Text) (s : State) → Revoked id (revoke_lease json c providers id identity s).1 s
  unfolding revoke_lease
  revoke_lease-Revoked id s = elim (lease_answers (get_lease json c id s)) [
    | inl (e, h) ↦ rw (h, revoke_lease) (refl, refl, inl refl)
    | inr (inl h) ↦ rw (h, revoke_lease) (refl, refl, inl refl)
    | inr (inr (l, h)) ↦
        rw (h, revoke_lease)
          (subst
            (λ k. Revoked k (revoke_found providers identity l (get_config json c l.path s) s).1 s)
            (get_lease-id json c id s l h)
            (revoke_found-Revoked providers identity l (get_config json c l.path s) s))
  ]

  pub revoke_lease-closes :
      (id : Text) (s : State)
      → Readable json c id s
      → find_live id (revoke_lease json c providers id identity s).1.leases ≡ none
  unfolding revoke_lease
  revoke_lease-closes id s (l, config, there, opened) =
      let same = get_lease-id json c id s l there in
      rw (there, revoke_lease)
        (rw opened (
          find_live-scrub id l.lease_id (revoke_at_provider providers identity l config s).leases
          ∙ ground (arith, same, text_eq_iff l.lease_id id)))

  -- Another revocation leaves the lease as it was, or closes it.
  pub revoke_lease-other :
      (id other : Text) (s : State)
      → let t = (revoke_lease json c providers other identity s).1 in
        (find_live id t.leases ≡ none) ⊎ (find_live id t.leases ≡ find_live id s.leases)
  revoke_lease-other id other s = elim (revoke_lease-Revoked other s).2 [
    | inl e ↦ inr (ap (find_live id) e)
    | inr e ↦ elim (Bool-cases (text_eq other id)) [
      | inl a ↦ inl (ap (find_live id) e ∙ find_live-scrub id other s.leases ∙ rw a refl)
      | inr a ↦ inr (ap (find_live id) e ∙ find_live-scrub id other s.leases ∙ rw a refl)
    ]
  ]

-- A row of a lease that has been revoked: the text of an empty object is in place of its credential.
abbrev pub closed_row : LeaseRow → LeaseRow
closed_row r = record r { revoked = true; credential = 123 ∷ 125 ∷ [] }

-- The rows after a revocation with a result.
abbrev pub rows_after : Text → Outcome ManagerError Bool → List LeaseRow → List LeaseRow
rows_after id (done true) rows = map (λ r. if text_eq r.id id then closed_row r else r) rows
rows_after id (done false) rows = rows
rows_after id (thrown e) rows = rows

scrub_row-map :
    (id : Text) (rows : List LeaseRow)
    → update_where (λ r. text_eq r.id id) scrub_row rows ≡ rows_after id (done true) rows
unfolding update_where
scrub_row-map id [] = refl
scrub_row-map id (r ∷ rows) =
    ap (◌∷◌ (if text_eq r.id id then closed_row r else r)) (scrub_row-map id rows)

revoke_found-rows :
    (providers : Providers) (identity : Text) (l : DynamicLease)
    (config : Outcome ManagerError (Option DynamicConfig)) (s : State)
    → let (result, t) = revoke_found providers identity l config s in
      t.leases ≡ rows_after l.lease_id result s.leases
revoke_found-rows providers identity l (thrown e) s = refl
revoke_found-rows providers identity l (done config) s =
    ap (update_where (λ r. text_eq r.id l.lease_id) scrub_row)
      (revoke_at_provider-SameTables providers identity l config s).0
    ∙ scrub_row-map l.lease_id s.leases

-- A revocation that answers `true` leaves every row of the lease revoked, with `{}` in place of its
-- credential and all else as it was, and every other row as it was, also when the provider fails;
-- one that throws or answers `false` changes no row.
pub revoke_lease-Scrubs :
    (json : Json) (c : Crypto) (providers : Providers) (id identity : Text) (s : State)
    → let (result, t) = revoke_lease json c providers id identity s in
      t.leases ≡ rows_after id result s.leases
unfolding revoke_lease
revoke_lease-Scrubs json c providers id identity s = elim (lease_answers (get_lease json c id s)) [
  | inl (e, h) ↦ rw (h, revoke_lease) refl
  | inr (inl h) ↦ rw (h, revoke_lease) refl
  | inr (inr (l, h)) ↦
      let config = get_config json c l.path s in
      rw (h, revoke_lease)
        (subst
          (λ k.
            (revoke_found providers identity l config s).1.leases
            ≡ rows_after k (revoke_found providers identity l config s).0 s.leases)
          (get_lease-id json c id s l h) (revoke_found-rows providers identity l config s))
]
