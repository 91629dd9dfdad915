-- ===== src/Audit.antt =====
-- audit/logger.ts: the rows that `AuditLog.log` adds. Their number and time, the copy on the console
-- and the one for the event stream are left out.
use gatehouse.Common.{ℕ, Text, String, Bool, Option, none, some, List, [], ◌∷◌, ◌++◌}

pub data Action : Type 0 where
  lease_access lease_checkout lease_request_created lease_approved lease_denied : Action
  lease_auto_approved lease_renew lease_revoke lease_revoke_all : Action
  lease_request_expired lease_reap : Action
  proxy_blocked_rate_limit proxy_blocked_approval : Action
  settings_proxy_limits_update : Action
  secret_reveal_value secret_read_metadata secret_write secret_rollback : Action
  secret_metadata_update secret_delete : Action
  dynamic_checkout dynamic_revoke_error dynamic_revoke dynamic_reap : Action
  rotate_token_create rotate_token_fetch rotate_token_exchange : Action

-- A metadata value: a text, or the decimal text of a number.
pub data MetaValue : Type 0 where
  text : Text → MetaValue
  number : ℕ → MetaValue

pub record AuditEntry : Type 0 where
  pub identity : Text
  pub action : Action
  pub path : Option Text
  pub lease_id : Option Text
  pub source_ip : Option Text
  pub metadata : List (String × MetaValue)
  pub success : Bool

-- `value || null`: an empty text is stored as no value.
unfoldable pub or_null : Option Text → Option Text
or_null none = none
or_null (some []) = none
or_null (some (c ∷ s)) = some (c ∷ s)

-- The table, oldest row first.
unfoldable pub log : AuditEntry → List AuditEntry → List AuditEntry
unfolding or_null
log entry rows =
    rows
    ++ record entry {
      path = or_null entry.path;
      lease_id = or_null entry.lease_id;
      source_ip = or_null entry.source_ip;
    }
      ∷ []
