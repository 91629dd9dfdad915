-- ===== src/Settings/ProxyLimits.antt =====
-- settings/proxyLimits.ts. The stored text is what `JSON.parse` makes of it, and the table's
-- `updated_at` is left out.
use gatehouse.Common.{ℕ, Text, true, Option, none, some, List, [], ◌∷◌, ◌++◌, ltb, if◌then◌else◌}
use gatehouse.Common.Int.{ℤ, pos, negsuc}
use gatehouse.Audit.{AuditEntry, MetaValue, Action, log}

pub record ProxyLimits : Type 0 where
  pub max_timeout_ms : ℕ
  pub max_body_bytes : ℕ

abbrev pub default_proxy_limits : ProxyLimits
default_proxy_limits = record { max_timeout_ms = 120000; max_body_bytes = 10485760 }

abbrev pub hard_ceiling : ProxyLimits
hard_ceiling = record { max_timeout_ms = 1800000; max_body_bytes = 104857600 }

abbrev pub hard_floor : ProxyLimits
hard_floor = record { max_timeout_ms = 1000; max_body_bytes = 1024 }

-- A field of the candidate: a whole number, or anything else, or missing.
pub data Field : Type 0 where
  whole : ℤ → Field
  not_whole : Field

pub data Input : Type 0 where
  not_object : Input
  object : Field → Field → Input

pub data LimitError : Type 0 where
  body_not_object : LimitError
  timeout_not_integer timeout_too_small timeout_too_large : LimitError
  bytes_not_integer bytes_too_small bytes_too_large : LimitError

pub data ValidationResult : Type 0 where
  ok : ProxyLimits → ValidationResult
  not_ok : List LimitError → ValidationResult

-- The error of a field, with the names of the three errors it can have.
unfoldable pub field_errors : LimitError → LimitError → LimitError → ℕ → ℕ → Field → List LimitError
field_errors not_integer too_small too_large floor ceiling not_whole = not_integer ∷ []
field_errors not_integer too_small too_large floor ceiling (whole (negsuc n)) = too_small ∷ []
field_errors not_integer too_small too_large floor ceiling (whole (pos n)) =
    if ltb n floor then too_small ∷ [] else if ltb ceiling n then too_large ∷ [] else []

abbrev number_of : Field → ℕ
number_of (whole (pos n)) = n
number_of (whole (negsuc n)) = 0
number_of not_whole = 0

unfoldable pub validate_proxy_limits : Input → ValidationResult
unfolding field_errors
validate_proxy_limits not_object = not_ok (body_not_object ∷ [])
validate_proxy_limits (object t b) =
    let errors =
      field_errors timeout_not_integer timeout_too_small timeout_too_large hard_floor.max_timeout_ms
        hard_ceiling.max_timeout_ms t
      ++ field_errors bytes_not_integer bytes_too_small bytes_too_large hard_floor.max_body_bytes
          hard_ceiling.max_body_bytes b in
    elim errors [
      | [] ↦ ok (record { max_timeout_ms = number_of t; max_body_bytes = number_of b })
      | e ∷ es ↦ not_ok (e ∷ es)
    ]

-- The row of the table: a text that is no JSON, or a value.
pub data Stored : Type 0 where
  malformed : Stored
  stored : Input → Stored

pub record State : Type 0 where
  pub cached_limits : Option ProxyLimits
  pub row : Option Stored
  pub audit : List AuditEntry

-- What a read of the table answers.
unfoldable pub read_row : Option Stored → ProxyLimits
read_row none = default_proxy_limits
read_row (some malformed) = default_proxy_limits
read_row (some (stored input)) = elim (validate_proxy_limits input) [
  | ok limits ↦ limits
  | not_ok errors ↦ default_proxy_limits
]

unfoldable pub get_proxy_limits : State → ProxyLimits × State
get_proxy_limits s = elim s.cached_limits [
  | some limits ↦ (limits, s)
  | none ↦ (read_row s.row, record s { cached_limits = some (read_row s.row) })
]

pub data SetResult : Type 0 where
  updated : ProxyLimits → ProxyLimits → SetResult
  refused : List LimitError → SetResult

-- `JSON.stringify(next)`, as it is read again.
abbrev pub written : ProxyLimits → Stored
written limits =
    stored (object (whole (pos limits.max_timeout_ms)) (whole (pos limits.max_body_bytes)))

unfoldable pub update_entry : Text → Option Text → ProxyLimits → ProxyLimits → AuditEntry
update_entry identity source_ip previous next = record {
  identity = identity;
  action = Action.settings_proxy_limits_update;
  path = none;
  lease_id = none;
  source_ip = source_ip;
  metadata =
      ("old_max_timeout_ms", MetaValue.number previous.max_timeout_ms)
      ∷ ("new_max_timeout_ms", MetaValue.number next.max_timeout_ms)
      ∷ ("old_max_body_bytes", MetaValue.number previous.max_body_bytes)
      ∷ ("new_max_body_bytes", MetaValue.number next.max_body_bytes)
      ∷ [];
  success = true;
}

unfoldable pub set_proxy_limits : Text → Option Text → Input → State → SetResult × State
unfolding update_entry
set_proxy_limits identity source_ip input s = elim (validate_proxy_limits input) [
  | not_ok errors ↦ (refused errors, s)
  | ok next ↦
      let previous = (get_proxy_limits s).0 in
      (
        updated previous next,
        record s {
          cached_limits = none;
          row = some (written next);
          audit = log (update_entry identity source_ip previous next) s.audit;
        },
      )
]
