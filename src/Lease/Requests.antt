-- ===== src/Lease/Requests.antt =====
-- lease/manager.ts: `requestAccess` keeps one open request for an identity and a path.
use gatehouse.Common.{
  ℕ, ◌+◌, ◌*◌, ◌≤◌, ◌≡◌, inl, inr, Text, text_eq_refl, Bool, true, false, not, ◌&&◌, ◌||◌, none,
  some, List, [], ◌∷◌, ◌++◌, trim, length, ltb, first, arith, Bool-cases, Option-cases,
}
use gatehouse.Common.Int.{ℤ}
use gatehouse.Common.Exec.{done}
use gatehouse.Lease.State.{
  Lease, State, Secrets, is_for, is_waiting, pending, after_now, emit, audited,
}
use gatehouse.Lease.Manager.{
  justification_min, justification_max, valid_ttl, clamp_request_ttl, lease_id, new_lease, announce,
  create_request, request_or_reuse, request_access,
}
use gatehouse.Lease.Inserts.{insert_lease-cases}
use gatehouse.Lease.Rows.{get_lease-append}

abbrev waits_for : ℕ → Text → Text → Lease → Bool
waits_for now identity path l = is_for identity path l && is_waiting now l

-- The tests of a call that lead to an answer: a justification and a ttl that are accepted.
unfoldable pub is_well_formed : Text → ℤ → Bool
is_well_formed why ttl =
    not (ltb (length (trim why)) justification_min || ltb justification_max (length (trim why)))
    && elim (valid_ttl ttl) [ none ↦ false | some seconds ↦ true ]

first_later :
    (now later : ℕ) (identity path : Text) (ls : List Lease) (l : Lease)
    → now ≤ later
    → first (waits_for now identity path) ls ≡ some l
    → after_now later l.request_expires_at ≡ true
    → first (waits_for later identity path) ls ≡ some l
unfolding first
first_later now later identity path [] l le h w = h
first_later now later identity path (x ∷ ls) l le h w =
    ground (arith, first_later now later identity path ls l le)

first-none_later :
    (now later : ℕ) (identity path : Text) (ls : List Lease) (l : Lease)
    → now ≤ later
    → first (waits_for now identity path) ls ≡ none
    → waits_for later identity path l ≡ true
    → first (waits_for later identity path) (ls ++ l ∷ []) ≡ some l
unfolding first
first-none_later now later identity path [] l le h w = ground arith
first-none_later now later identity path (x ∷ ls) l le h w =
    ground (arith, first-none_later now later identity path ls l le)

module _ (secrets : Secrets) (now later : ℕ) (uuid path identity : Text) (s : State) where
  -- The row that a new request inserts.
  abbrev request_row : ℕ → Text → ℕ → Lease
  request_row ttl why request_ttl = record (new_lease (lease_id uuid) path identity ttl now) {
    status = pending;
    justification = some why;
    request_expires_at = some (now + request_ttl * 1000);
  }

  create_request-made :
      (ttl : ℕ) (why : Text) (request_ttl : ℕ) (l : Lease) (s' : State)
      → create_request secrets now uuid path identity ttl why request_ttl s ≡ (done l, s')
      → (l ≡ request_row ttl why request_ttl) × (s'.leases ≡ s.leases ++ l ∷ [])
  unfolding create_request announce audited emit
  create_request-made ttl why request_ttl l s' made =
      elim (insert_lease-cases secrets (request_row ttl why request_ttl) s) [
        | inl e ↦ absurd (ground (arith, e, made))
        | inr (new, e) ↦ ground (
          arith,
          e,
          made,
          new,
          text_eq_refl (lease_id uuid),
          get_lease-append (lease_id uuid) s.leases (request_row ttl why request_ttl),
        )
      ]

  create_request-Waits :
      (ttl : ℕ) (why : Text) (request_ttl : ℕ) (l : Lease) (s' : State)
      → now ≤ later
      → first (waits_for now identity path) s.leases ≡ none
      → create_request secrets now uuid path identity ttl why request_ttl s ≡ (done l, s')
      → after_now later l.request_expires_at ≡ true
      → first (waits_for later identity path) s'.leases ≡ some l
  create_request-Waits ttl why request_ttl l s' le fresh made w =
      let (row, e) = create_request-made ttl why request_ttl l s' made in
      rw e (
        first-none_later now later identity path s.leases l le fresh
          (ground (arith, row, text_eq_refl path, text_eq_refl identity)))

  request_or_reuse-Waits :
      (ttl : ℕ) (why : Text) (request_ttl : ℕ) (l : Lease) (s' : State)
      → now ≤ later
      → request_or_reuse secrets now uuid path identity ttl why request_ttl s ≡ (done l, s')
      → after_now later l.request_expires_at ≡ true
      → first (waits_for later identity path) s'.leases ≡ some l
  unfolding request_or_reuse
  request_or_reuse-Waits ttl why request_ttl l s' le made w =
      elim (Option-cases (first (waits_for now identity path) s.leases)) [
        | inl fresh ↦
            create_request-Waits ttl why request_ttl l s' le fresh (ground (arith, made, fresh)) w
        | inr (x, earlier) ↦
            ground (arith, made, earlier, first_later now later identity path s.leases l le)
      ]

  request_access-Waits :
      (ttl : ℤ) (why : Text) (request_ttl : ℤ) (l : Lease) (s' : State)
      → now ≤ later
      → request_access secrets now uuid path identity ttl why request_ttl s ≡ (done l, s')
      → after_now later l.request_expires_at ≡ true
      → first (waits_for later identity path) s'.leases ≡ some l
  unfolding request_access
  request_access-Waits ttl why request_ttl l s' le made w =
      let size = length (trim why) in
      elim (Bool-cases (ltb size justification_min || ltb justification_max size)) [
        | inl bad ↦ absurd (ground (arith, made, bad))
        | inr good ↦ elim (Option-cases (valid_ttl ttl)) [
          | inl e ↦ absurd (ground (arith, made, good, e))
          | inr (n, e) ↦
              request_or_reuse-Waits n (trim why) (clamp_request_ttl request_ttl) l s' le
                (ground (arith, made, good, e)) w
        ]
      ]

reuses :
    (secrets : Secrets) (now : ℕ) (uuid path identity why : Text) (ttl request_ttl : ℤ) (s : State)
    (l : Lease)
    → is_well_formed why ttl ≡ true
    → first (waits_for now identity path) s.leases ≡ some l
    → request_access secrets now uuid path identity ttl why request_ttl s ≡ (done l, s)
unfolding request_access request_or_reuse is_well_formed
reuses secrets now uuid path identity why ttl request_ttl s l ok waits = ground (arith, waits, ok)

-- Once a call got an open request for an identity and a path, a later call for the same two with a
-- justification and a ttl that are accepted, before that request expires, answers the same lease and
-- changes nothing: no second row, no log entry, no event and no webhook.
pub request_access-IsReused :
    (first_try second_try : Secrets) (now later : ℕ) (uuid uuid' path identity why why' : Text)
    (ttl ttl' request_ttl request_ttl' : ℤ) (s s' : State) (l : Lease)
    → now ≤ later
    → request_access first_try now uuid path identity ttl why request_ttl s ≡ (done l, s')
    → after_now later l.request_expires_at ≡ true
    → is_well_formed why' ttl' ≡ true
    → request_access second_try later uuid' path identity ttl' why' request_ttl' s' ≡ (done l, s')
request_access-IsReused first_try second_try now later uuid uuid' path identity why why' ttl ttl'
      request_ttl request_ttl' s s' l le made w ok =
    reuses second_try later uuid' path identity why' ttl' request_ttl' s' l ok (
      request_access-Waits first_try now later uuid path identity s ttl why request_ttl l s' le made
        w)
