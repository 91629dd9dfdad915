-- ===== src/Lease/State.antt =====
-- The data of lease/manager.ts. The columns of the `leases` table are the fields of `Lease`: the
-- database keeps `status` from being null, and `revoked` is 0 or 1. An ISO time is its instant in
-- milliseconds: up to the year 9999 the texts compare as the instants do.
use gatehouse.Common.{
  ℕ, ◌*◌, ◌/◌, Text, text_eq, Bool, true, false, not, ◌&&◌, Option, none, some, List, [], ◌∷◌, ◌++◌,
  ltb, leb, select, first, sort_by, head?,
}
use gatehouse.Common.Dict.{Dict}
use gatehouse.Common.Exec.{Outcome}
use gatehouse.Audit.{AuditEntry, log}

pub data LeaseStatus : Type 0 where
  pending approved denied expired : LeaseStatus

pub record Lease : Type 0 where
  pub id : Text
  pub secret_path : Text
  pub identity : Text
  pub ttl_seconds : ℕ
  pub created_at : ℕ
  pub expires_at : ℕ
  pub revoked : Bool
  pub status : LeaseStatus
  pub justification : Option Text
  pub approved_by : Option Text
  pub approved_at : Option ℕ
  pub denied_reason : Option Text
  pub request_expires_at : Option ℕ

-- The events of the bus that leases cause.
pub data Event : Type 0 where
  lease_request_created : Lease → Event
  lease_status_changed : Text → LeaseStatus → Text → Option Text → Event

-- The payload handed to `sendLeaseRequestWebhook`, without the server's own address.
pub record WebhookCall : Type 0 where
  pub lease_id : Text
  pub identity : Text
  pub secret_path : Text
  pub justification : Text
  pub ttl_seconds : ℕ
  pub request_expires_at : Option ℕ

-- `events` is `none` while no bus is attached.
pub record State : Type 0 where
  pub leases : List Lease
  pub audit : List AuditEntry
  pub events : Option (List Event)
  pub webhooks : List WebhookCall

pub data LeaseError : Type 0 where
  justification_length ttl_range : LeaseError
  constraint_failed lease_vanished decryption_failed : LeaseError

-- What leases need of the secrets engine: the metadata of a path, and its value. Both are `none` for
-- a path with no secret, and the value may fail to decrypt.
pub record Secrets : Type 0 where
  pub get_meta : Text → Option (Dict Text)
  pub get : Text → Outcome LeaseError (Option Text)

abbrev pub is_pending : LeaseStatus → Bool
is_pending pending = true
is_pending _ = false

abbrev pub is_approved : LeaseStatus → Bool
is_approved approved = true
is_approved _ = false

-- `request_expires_at > now`, false on null, and `request_expires_at <= now`, false on null.
abbrev pub after_now : ℕ → Option ℕ → Bool
after_now now none = false
after_now now (some t) = ltb now t

abbrev pub not_after : ℕ → Option ℕ → Bool
not_after now none = false
not_after now (some t) = leb t now

abbrev pub has_id : Text → Lease → Bool
has_id id l = text_eq l.id id

abbrev pub is_for : Text → Text → Lease → Bool
is_for identity path l = text_eq l.identity identity && text_eq l.secret_path path

-- An access window: an approved lease that is neither revoked nor over.
abbrev pub is_open : ℕ → Lease → Bool
is_open now l = is_approved l.status && not l.revoked && ltb now l.expires_at

-- A request that waits for a decision.
abbrev pub is_waiting : ℕ → Lease → Bool
is_waiting now l = is_pending l.status && not l.revoked && after_now now l.request_expires_at

abbrev pub expires_later : Lease → Lease → Bool
expires_later y x = leb x.expires_at y.expires_at

abbrev pub expires_sooner : Lease → Lease → Bool
expires_sooner y x = leb y.expires_at x.expires_at

abbrev pub created_later : Lease → Lease → Bool
created_later y x = leb x.created_at y.created_at

unfoldable pub get_lease : Text → List Lease → Option Lease
get_lease id leases = first (has_id id) leases

unfoldable pub find_active_approved_lease : ℕ → Text → Text → List Lease → Option Lease
find_active_approved_lease now identity path leases =
    head? (sort_by expires_later (select (λ l. is_for identity path l && is_open now l) leases))

unfoldable pub has_active_approved_lease : ℕ → Text → Text → List Lease → Bool
has_active_approved_lease now identity path leases =
    elim (find_active_approved_lease now identity path leases) [ none ↦ false | some l ↦ true ]

-- The filter of the list queries: no identity, or an empty one, lists everybody's.
abbrev pub of_identity : Option Text → Lease → Bool
of_identity none l = true
of_identity (some []) l = true
of_identity (some (c ∷ s)) l = text_eq l.identity (c ∷ s)

unfoldable pub list_pending : ℕ → Option Text → List Lease → List Lease
list_pending now identity leases =
    sort_by created_later (select (λ l. is_waiting now l && of_identity identity l) leases)

unfoldable pub list_active : ℕ → Option Text → List Lease → List Lease
list_active now identity leases =
    sort_by expires_sooner (select (λ l. is_open now l && of_identity identity l) leases)

unfoldable pub emit : Event → State → State
emit event s = record s {
  events = elim s.events [ none ↦ none | some events ↦ some (events ++ event ∷ []) ];
}

unfoldable pub audited : AuditEntry → State → State
audited entry s = record s { audit = log entry s.audit }

-- SQLite's `datetime('now')`: whole seconds.
abbrev pub sql_datetime : ℕ → ℕ
sql_datetime now = now / 1000 * 1000
