-- ===== src/Lease/Manager.antt =====
-- The methods of `LeaseManager` in lease/manager.ts. Each method reads the clock once, as `now`; the
-- identifier that `uuid` makes is an argument, and so is what the secrets engine answers.
use gatehouse.Common.{
  ℕ, ◌+◌, ◌-◌, ◌*◌, ◌%◌, ◌^◌, min, max, Text, String, text_eq, codes, trim, length, take, Bool,
  true, false, ◌&&◌, ◌||◌, Option, none, some, List, [], ◌∷◌, ◌++◌, ltb, leb, if◌then◌else◌, first,
}
use gatehouse.Common.Int.{ℤ, pos, negsuc}
use gatehouse.Common.Dict.{Dict}
use gatehouse.Common.Dict
use gatehouse.Common.Exec.{done, thrown, Exec, pure, throw, gets, modify, ◌>>=◌, ◌>>◌}
use gatehouse.Audit.{AuditEntry, MetaValue, Action}
use gatehouse.Lease.State.{
  pending, approved, Lease, lease_request_created, WebhookCall, State, LeaseError,
  justification_length, ttl_range, constraint_failed, lease_vanished, Secrets, is_for, is_waiting,
  get_lease, find_active_approved_lease, emit, audited, sql_datetime,
}

abbrev pub justification_min : ℕ
justification_min = 10

abbrev pub justification_max : ℕ
justification_max = 2000

abbrev pub request_ttl_min : ℕ
request_ttl_min = 60

abbrev pub request_ttl_max : ℕ
request_ttl_max = 86400

abbrev pub audit_justification_max : ℕ
audit_justification_max = 200

-- The ellipsis is one code unit.
unfoldable pub truncate : Text → ℕ → Text
truncate s bound = if leb (length s) bound then s else take (bound - 1) s ++ 8230 ∷ []

abbrev pub lease_id : Text → Text
lease_id uuid = codes "lease-" ++ uuid

abbrev pub Manager : Type 0 → Type 0
Manager A = Exec State LeaseError A

-- `meta?.metadata?.requires_approval === "true"`
unfoldable pub requires_approval : Option (Dict Text) → Bool
requires_approval none = false
requires_approval (some metadata) = elim (Dict.get (codes "requires_approval") metadata) [
  | none ↦ false
  | some v ↦ text_eq v (codes "true")
]

unfoldable pub entry : Text → Action → Text → Text → List (String × MetaValue) → AuditEntry
entry identity action path id metadata = record {
  identity = identity;
  action = action;
  path = some path;
  lease_id = some id;
  source_ip = none;
  metadata = metadata;
  success = true;
}

-- An INSERT fails on an identifier that is taken, and on a path with no secret.
unfoldable pub insert_lease : Secrets → Lease → Manager (Unit {0})
insert_lease secrets l s = elim (get_lease l.id s.leases) [
  | some old ↦ (thrown constraint_failed, s)
  | none ↦ elim (secrets.get_meta l.secret_path) [
    | none ↦ (thrown constraint_failed, s)
    | some metadata ↦ (done tt, record s { leases = s.leases ++ l ∷ [] })
  ]
]

abbrev pub new_lease : Text → Text → Text → ℕ → ℕ → Lease
new_lease id path identity ttl now = record {
  id = id;
  secret_path = path;
  identity = identity;
  ttl_seconds = ttl;
  created_at = sql_datetime now;
  expires_at = now + ttl * 1000;
  revoked = false;
  status = approved;
  justification = none;
  approved_by = none;
  approved_at = none;
  denied_reason = none;
  request_expires_at = none;
}

-- The value of a secret under an approved window, or of one that needs none.
abbrev pub value_of : Secrets → Text → Manager (Option Text)
value_of secrets path s = (secrets.get path, s)

unfoldable pub checkout_gated : Secrets → ℕ → Text → Text → Manager (Option (Lease × Text))
unfolding entry
checkout_gated secrets now path identity = do
  found ← gets (λ s. find_active_approved_lease now identity path s.leases)
  elim found [
    | none ↦ pure none
    | some existing ↦ do
      value ← value_of secrets path
      elim value [
        | none ↦ pure none
        | some v ↦ do
          modify (audited (entry identity Action.lease_access path existing.id []))
          pure (some (existing, v))
      ]
  ]

unfoldable pub checkout_plain :
    Secrets → ℕ → Text → Text → Text → ℕ → Manager (Option (Lease × Text))
unfolding entry
checkout_plain secrets now uuid path identity ttl = do
  value ← value_of secrets path
  elim value [
    | none ↦ pure none
    | some v ↦ do
      let id = lease_id uuid
      let l = new_lease id path identity ttl now
      insert_lease secrets l
      modify (
          audited
            (entry identity Action.lease_checkout path id (("ttl", MetaValue.number ttl) ∷ [])))
      pure (some (record l { created_at = now }, v))
  ]

unfoldable pub checkout : Secrets → ℕ → Text → Text → Text → ℕ → Manager (Option (Lease × Text))
checkout secrets now uuid path identity ttl =
    if requires_approval (secrets.get_meta path)
    then checkout_gated secrets now path identity
    else checkout_plain secrets now uuid path identity ttl

-- `Math.max(60, Math.min(86400, n | 0))`, where `| 0` keeps 32 bits and reads them as signed.
unfoldable pub clamp_request_ttl : ℤ → ℕ
clamp_request_ttl z =
    let bits : ℕ = elim z [ pos n ↦ n % 2 ^ 32 | negsuc n ↦ 2 ^ 32 - 1 - n % 2 ^ 32 ] in
    if ltb bits (2 ^ 31) then max request_ttl_min (min request_ttl_max bits) else request_ttl_min

-- The whole number of seconds of an accepted `ttl`.
unfoldable pub valid_ttl : ℤ → Option ℕ
valid_ttl (pos n) = if leb 10 n && leb n request_ttl_max then some n else none
valid_ttl (negsuc n) = none

abbrev pub text_or_empty : Option Text → Text
text_or_empty none = []
text_or_empty (some t) = t

unfoldable pub webhook_call : Lease → WebhookCall
webhook_call l = record {
  lease_id = l.id;
  identity = l.identity;
  secret_path = l.secret_path;
  justification = text_or_empty l.justification;
  ttl_seconds = l.ttl_seconds;
  request_expires_at = l.request_expires_at;
}

unfoldable pub announce : Lease → State → State
unfolding webhook_call
announce l s =
    let s' = emit (lease_request_created l) s in
    record s' { webhooks = s'.webhooks ++ webhook_call l ∷ [] }

abbrev pub reread : Text → Manager Lease
reread id s = elim (get_lease id s.leases) [
  | none ↦ (thrown lease_vanished, s)
  | some l ↦ (done l, s)
]

unfoldable pub create_request : Secrets → ℕ → Text → Text → Text → ℕ → Text → ℕ → Manager Lease
unfolding entry announce
create_request secrets now uuid path identity ttl justification request_ttl = do
  let id = lease_id uuid
  insert_lease secrets (record (new_lease id path identity ttl now) {
    status = pending;
    justification = some justification;
    request_expires_at = some (now + request_ttl * 1000);
  })
  modify (
      audited (
        entry identity Action.lease_request_created path id (
          ("ttl", MetaValue.number ttl)
          ∷ ("request_ttl", MetaValue.number request_ttl)
          ∷ ("justification", MetaValue.text (truncate justification audit_justification_max))
          ∷ [])))
  l ← reread id
  modify (announce l)
  pure l

-- An earlier request of the same identity for the same path wins.
unfoldable pub request_or_reuse : Secrets → ℕ → Text → Text → Text → ℕ → Text → ℕ → Manager Lease
request_or_reuse secrets now uuid path identity ttl justification request_ttl = do
  earlier ← gets (λ s. first (λ l. is_for identity path l && is_waiting now l) s.leases)
  elim earlier [
    | some l ↦ pure l
    | none ↦ create_request secrets now uuid path identity ttl justification request_ttl
  ]

unfoldable pub request_access : Secrets → ℕ → Text → Text → Text → ℤ → Text → ℤ → Manager Lease
request_access secrets now uuid path identity ttl justification request_ttl =
    let trimmed = trim justification in
    if ltb (length trimmed) justification_min || ltb justification_max (length trimmed)
    then throw justification_length
    else elim (valid_ttl ttl) [
      | none ↦ throw ttl_range
      | some seconds ↦
          request_or_reuse secrets now uuid path identity seconds trimmed
            (clamp_request_ttl request_ttl)
    ]
