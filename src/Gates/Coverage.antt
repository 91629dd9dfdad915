-- ===== src/Gates/Coverage.antt =====
-- api/proxyGates.ts: a call that the gates let through has a lease for every secret that wants one.
use gatehouse.Common.{
  ℕ, ◌≡◌, ◌⊎◌, ◌≢◌, inl, inr, refl, sym, ◌∙◌, Text, text_eq, text_eq_iff, true, false, Option, none,
  some, List, [], ◌∷◌, ◌++◌, Any, arith, Bool-cases, Option-cases,
}
use gatehouse.Common.Dict.{Dict}
use gatehouse.Common.Dict
use gatehouse.Common.Exec.{Outcome, done, thrown, ◌>>=◌}
use gatehouse.Lease.State.{LeaseError, State, audited}
use gatehouse.Lease.Manager.{requires_approval}
use gatehouse.Lease.Rows.{UniqueIds, UniqueIds-Reach}
use gatehouse.Lease.Inserts.{Adds-Reach}
use gatehouse.Gates.Enforce.{
  GatesContext, gates_allowed, approval_of, approval_gate, approle_gate, secrets_gate, rate_refused,
  settle, join, enforce_proxy_gates, next_uuid, rest_uuids,
}
use gatehouse.RateLimit.Limiter.{Refusal}
use gatehouse.Gates.Approval.{Covers, Adds-grows, approval_of-Adds, approval_of-Covers}

module _ (now : ℕ) (ctx : GatesContext) (q : Text) where
  -- The path is mapped to a lease that covers it.
  abbrev pub HasLease : Dict Text → State → Type 0
  HasLease ids s = (id : Text) × (Dict.get q ids ≡ some id) × Covers now ctx.identity q id s.leases

  approval_of-HasLease :
      (uuid p : Text) (ids : Dict Text) (s : State)
      → HasLease ids s
      → HasLease ids (approval_of now uuid ctx p s).1
  approval_of-HasLease uuid p ids s (id, mapped, (l, there, mine, window)) =
      (id, mapped, (l, Adds-grows id l (approval_of-Adds now uuid ctx p s) there, mine, window))

  approval_of-UniqueIds :
      (uuid p : Text) (s : State)
      → UniqueIds s.leases
      → UniqueIds (approval_of now uuid ctx p s).1.leases
  approval_of-UniqueIds uuid p s u =
      UniqueIds-Reach (Adds-Reach (approval_of-Adds now uuid ctx p s)) u

  set-HasLease :
      (p id : Text) (ids : Dict Text) (s : State)
      → Covers now ctx.identity p id s.leases
      → HasLease ids s ⊎ (p ≡ q)
      → HasLease (Dict.set p id ids) s
  set-HasLease p id ids s covered (inr e) =
      (id, ground (arith, e, Dict.get-set p q id ids, text_eq_iff p q), rw (← e) covered)
  set-HasLease p id ids s covered (inl (old, mapped, rest)) = elim (Bool-cases (text_eq p q)) [
    | inl hit ↦
        (id, ground (arith, hit, Dict.get-set p q id ids), rw (← ((text_eq_iff p q).0 hit)) covered)
    | inr miss ↦ (old, ground (arith, miss, mapped, Dict.get-set p q id ids), rest)
  ]

  -- How the gate goes on after a path that wants approval.
  abbrev go_on :
      List Text
      → List Text
      → Text
      → Dict Text
      → List Text
      → Outcome LeaseError (Option Text) × State
      → Outcome LeaseError (Dict Text × List Text) × State
  go_on uuids ps p ids blocked (thrown e, s) = (thrown e, s)
  go_on uuids ps p ids blocked (done none, s) =
      approval_gate now uuids ctx ps ids (blocked ++ p ∷ []) s
  go_on uuids ps p ids blocked (done (some id), s) =
      approval_gate now uuids ctx ps (Dict.set p id ids) blocked s

  gate_step :
      (uuids ps : List Text) (p : Text) (ids : Dict Text) (blocked : List Text) (s : State)
      (r : Outcome LeaseError (Option Text) × State)
      → requires_approval (ctx.secrets.get_meta p) ≡ true
      → approval_of now (next_uuid uuids) ctx p s ≡ r
      → approval_gate now uuids ctx (p ∷ ps) ids blocked s
        ≡ go_on (rest_uuids uuids) ps p ids blocked r
  unfolding approval_gate
  gate_step uuids ps p ids blocked s (thrown e, s') gated found = rw (gated, found) refl
  gate_step uuids ps p ids blocked s (done none, s') gated found = rw (gated, found) refl
  gate_step uuids ps p ids blocked s (done (some id), s') gated found = rw (gated, found) refl

  answers :
      (r : Outcome LeaseError (Option Text) × State)
      → ((e : LeaseError) × (s : State) × (r ≡ (thrown e, s)))
        ⊎ ((s : State) × (r ≡ (done none, s)))
        ⊎ ((id : Text) × (s : State) × (r ≡ (done (some id), s)))
  answers (thrown e, s) = inl (e, s, refl)
  answers (done none, s) = inr (inl (s, refl))
  answers (done (some id), s) = inr (inr (id, s, refl))

  skip_step :
      (uuids ps : List Text) (p : Text) (ids : Dict Text) (blocked : List Text) (s : State)
      → requires_approval (ctx.secrets.get_meta p) ≡ false
      → approval_gate now uuids ctx (p ∷ ps) ids blocked s
        ≡ approval_gate now (rest_uuids uuids) ctx ps ids blocked s
  unfolding approval_gate
  skip_step uuids ps p ids blocked s plain = rw plain refl

  -- Once a path is blocked, the list of the blocked ones does not get empty.
  stays_blocked :
      (ps uuids : List Text) (ids ids' : Dict Text) (b : Text) (bs : List Text) (s s' : State)
      → approval_gate now uuids ctx ps ids (b ∷ bs) s ≢ (done (ids', []), s')
  stays_blocked [] uuids ids ids' b bs s s' e = unfold approval_gate in absurd (ground (arith, e))
  stays_blocked (p ∷ ps) uuids ids ids' b bs s s' e =
      elim (Bool-cases (requires_approval (ctx.secrets.get_meta p))) [
        | inr plain ↦
            stays_blocked ps (rest_uuids uuids) ids ids' b bs s s'
              (sym (skip_step uuids ps p ids (b ∷ bs) s plain) ∙ e)
        | inl gated ↦ elim (answers (approval_of now (next_uuid uuids) ctx p s)) [
          | inl (x, s1, r) ↦
              absurd (ground (arith, gate_step uuids ps p ids (b ∷ bs) s _ gated r, e))
          | inr (inl (s1, r)) ↦
              stays_blocked ps (rest_uuids uuids) ids ids' b (bs ++ p ∷ []) s1 s'
                (sym (gate_step uuids ps p ids (b ∷ bs) s _ gated r) ∙ e)
          | inr (inr (id, s1, r)) ↦
              stays_blocked ps (rest_uuids uuids) (Dict.set p id ids) ids' b bs s1 s'
                (sym (gate_step uuids ps p ids (b ∷ bs) s _ gated r) ∙ e)
        ]
      ]

  abbrev Awaits : List Text → Dict Text → State → Type 0
  Awaits ps ids s =
      HasLease ids s ⊎ Any (λ x. x ≡ q) ps × (requires_approval (ctx.secrets.get_meta q) ≡ true)

  Awaits-skip :
      (p : Text) (ps : List Text) (ids : Dict Text) (s : State)
      → requires_approval (ctx.secrets.get_meta p) ≡ false
      → Awaits (p ∷ ps) ids s
      → Awaits ps ids s
  Awaits-skip p ps ids s plain (inl h) = inl h
  Awaits-skip p ps ids s plain (inr (inl e, gated)) = absurd (cc (e, gated, plain))
  Awaits-skip p ps ids s plain (inr (inr later, gated)) = inr (later, gated)

  Awaits-set :
      (uuid p id : Text) (ps : List Text) (ids : Dict Text) (s s1 : State)
      → UniqueIds s.leases
      → approval_of now uuid ctx p s ≡ (done (some id), s1)
      → Awaits (p ∷ ps) ids s
      → Awaits ps (Dict.set p id ids) s1
  Awaits-set uuid p id ps ids s s1 u r (inl h) =
      let same : (approval_of now uuid ctx p s).1 ≡ s1 = ground (arith, r) in
      inl (
        set-HasLease p id ids s1 (approval_of-Covers now uuid ctx p s id s1 u r)
          (inl (rw (← same) (approval_of-HasLease uuid p ids s h))))
  Awaits-set uuid p id ps ids s s1 u r (inr (inl e, gated)) =
      inl (set-HasLease p id ids s1 (approval_of-Covers now uuid ctx p s id s1 u r) (inr e))
  Awaits-set uuid p id ps ids s s1 u r (inr (inr later, gated)) = inr (later, gated)

  approval_gate-HasLease :
      (ps uuids : List Text) (ids ids' : Dict Text) (s s' : State)
      → UniqueIds s.leases
      → approval_gate now uuids ctx ps ids [] s ≡ (done (ids', []), s')
      → Awaits ps ids s
      → HasLease ids' s'
  approval_gate-HasLease [] uuids ids ids' s s' u e (inl h) =
      unfold approval_gate in
      let same : (ids ≡ ids') × (s ≡ s') = ground (arith, e) in rw (← same.0, ← same.1) h
  approval_gate-HasLease [] uuids ids ids' s s' u e (inr (nowhere, gated)) = absurd nowhere
  approval_gate-HasLease (p ∷ ps) uuids ids ids' s s' u e h =
      elim (Bool-cases (requires_approval (ctx.secrets.get_meta p))) [
        | inr plain ↦
            approval_gate-HasLease ps (rest_uuids uuids) ids ids' s s' u
              (sym (skip_step uuids ps p ids [] s plain) ∙ e) (Awaits-skip p ps ids s plain h)
        | inl gated ↦ elim (answers (approval_of now (next_uuid uuids) ctx p s)) [
          | inl (x, s1, r) ↦ absurd (ground (arith, gate_step uuids ps p ids [] s _ gated r, e))
          | inr (inl (s1, r)) ↦ absurd (
              stays_blocked ps (rest_uuids uuids) ids ids' p [] s1 s'
                (sym (gate_step uuids ps p ids [] s _ gated r) ∙ e))
          | inr (inr (id, s1, r)) ↦
              let same : (approval_of now (next_uuid uuids) ctx p s).1 ≡ s1 = ground (arith, r) in
              approval_gate-HasLease ps (rest_uuids uuids) (Dict.set p id ids) ids' s1 s'
                (rw (← same) (approval_of-UniqueIds (next_uuid uuids) p s u))
                (sym (gate_step uuids ps p ids [] s _ gated r) ∙ e)
                (Awaits-set (next_uuid uuids) p id ps ids s s1 u r h)
        ]
      ]

-- The end of the handler, after the rate gates let the call through.
settle-allowed :
    (now : ℕ) (uuids : List Text) (ctx : GatesContext) (role_id : Text) (ids : Dict Text)
    (s s' : State) (r : Outcome LeaseError (Dict Text × List Text) × State)
    → approval_gate now uuids ctx ctx.secret_paths [] [] s ≡ r
    → (approval_gate now uuids ctx ctx.secret_paths [] [] >>= settle ctx) s
      ≡ (done (gates_allowed role_id ids), s')
    → r ≡ (done (ids, []), s')
unfolding settle audited
settle-allowed now uuids ctx role_id ids s s' (thrown x, s1) r e = absurd (ground (arith, r, e))
settle-allowed now uuids ctx role_id ids s s' (done (ids1, []), s1) r e = ground (arith, r, e)
settle-allowed now uuids ctx role_id ids s s' (done (ids1, p ∷ ps), s1) r e =
    absurd (ground (arith, r, e))

rate_refused-blocks :
    (ctx : GatesContext) (p role_id : Text) (d : Refusal) (ids : Dict Text) (s s' : State)
    → rate_refused ctx p d s ≢ (done (gates_allowed role_id ids), s')
unfolding rate_refused
rate_refused-blocks ctx p role_id d ids s s' e = ground (arith, e)

allowed-approval_gate :
    (now : ℕ) (uuids : List Text) (ctx : GatesContext) (role_id : Text) (ids : Dict Text)
    (s s' : State)
    → enforce_proxy_gates now uuids ctx s ≡ (done (gates_allowed role_id ids), s')
    → approval_gate now uuids ctx ctx.secret_paths [] [] s ≡ (done (ids, []), s')
unfolding enforce_proxy_gates
allowed-approval_gate now uuids ctx role_id ids s s' e =
    elim (Option-cases (approle_gate now ctx)) [
      | inr (d, g) ↦ absurd (
          rate_refused-blocks ctx (join ctx.secret_paths) role_id d ids s s' (ground (arith, g, e)))
      | inl g1 ↦ elim (Option-cases (secrets_gate now ctx ctx.secret_paths)) [
        | inr ((p, d), g) ↦
            absurd (rate_refused-blocks ctx p role_id d ids s s' (ground (arith, g1, g, e)))
        | inl g2 ↦ settle-allowed now uuids ctx role_id ids s s' _ refl (ground (arith, g1, g2, e))
      ]
    ]

-- When the gates let a call through, over a table whose identifiers are unique, every path of
-- the call whose secret wants approval is mapped to a lease that is in the table afterwards, for
-- the caller and that path, approved, not revoked and not over.
pub enforce_proxy_gates-HasLease :
    (now : ℕ) (uuids : List Text) (ctx : GatesContext) (q role_id : Text) (ids : Dict Text)
    (s s' : State)
    → UniqueIds s.leases
    → enforce_proxy_gates now uuids ctx s ≡ (done (gates_allowed role_id ids), s')
    → Any (λ p. p ≡ q) ctx.secret_paths
    → requires_approval (ctx.secrets.get_meta q) ≡ true
    → HasLease now ctx q ids s'
enforce_proxy_gates-HasLease now uuids ctx q role_id ids s s' u e there gated =
    approval_gate-HasLease now ctx q ctx.secret_paths uuids [] ids s s' u
      (allowed-approval_gate now uuids ctx role_id ids s s' e) (inr (there, gated))
