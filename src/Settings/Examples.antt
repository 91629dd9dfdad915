-- ===== src/Settings/Examples.antt =====
-- Runs of settings/proxyLimits.ts at concrete settings.
use gatehouse.Common.{◌≡◌, inl, refl, true, codes, none, some, List, [], ◌∷◌}
use gatehouse.Common.Int.{pos}
use gatehouse.Settings.ProxyLimits.{
  State, Input, object, whole, not_whole, get_proxy_limits, set_proxy_limits, validate_proxy_limits,
  field_errors, read_row, refused, timeout_too_small, bytes_not_integer,
}
use gatehouse.Common.{text_eq}
use gatehouse.Common.Dict.{get}
use gatehouse.Policy.Engine.{
  admin, admin_rules, check, check_names, check_rules, some_path, match_path, has_capability,
}
use gatehouse.Policy.Check.{Grants}
use gatehouse.Policy.Reachable.{empty-IsCoherent}
use gatehouse.Settings.Routes.{
  Caller, App, saved, admin_gate, sanitized, handle_post_proxy_limits, handle_post-IsGuarded,
}
use gatehouse.Settings.ProxyLimits.{ProxyLimits}
use gatehouse.Settings.Cache.{
  Operation, reads, resets, writes, perform_all, after, last_written, perform_all-InForce, in_range,
}

abbrev fresh : State
fresh = record { cached_limits = none; row = none; audit = [] }

abbrev five_seconds : Input
five_seconds = object (whole (pos 5000)) (whole (pos 4096))

abbrev session : List Operation
session =
    reads
    ∷ writes (codes "admin") none five_seconds
    ∷ writes (codes "admin") none (object (whole (pos 10)) not_whole)
    ∷ reads
    ∷ resets
    ∷ []

refused_write :
    (set_proxy_limits (codes "admin") none (object (whole (pos 10)) not_whole) fresh).0
    ≡ refused (timeout_too_small ∷ bytes_not_integer ∷ [])
unfolding set_proxy_limits validate_proxy_limits field_errors
refused_write = refl

session_writes :
    last_written session (read_row fresh.row)
    ≡ (record { max_timeout_ms = 5000; max_body_bytes = 4096 })
unfolding last_written after validate_proxy_limits field_errors read_row
session_writes = refl

perform_all-InForce_example :
    ((get_proxy_limits (perform_all session fresh)).0 ≡ last_written session (read_row fresh.row))
    × (in_range (get_proxy_limits (perform_all session fresh)).0 ≡ true)
perform_all-InForce_example = perform_all-InForce session fresh (inl refl)

abbrev administrator : Caller
administrator = record { policies = codes "admin" ∷ []; identity = codes "root"; source_ip = none }

abbrev app : App
app = record {
  engine = record {
    policies = (codes "admin", admin_rules) ∷ [];
    sources = [];
    pattern_cache = [];
    db = none;
  };
  settings = fresh;
}

abbrev five_second_limits : ProxyLimits
five_second_limits = record { max_timeout_ms = 5000; max_body_bytes = 4096 }

post_saved :
    (handle_post_proxy_limits administrator (some five_seconds) app).0 ≡ saved five_second_limits
unfolding handle_post_proxy_limits admin_gate sanitized set_proxy_limits validate_proxy_limits
    field_errors check check_names check_rules some_path match_path has_capability get text_eq
post_saved = refl

handle_post-IsGuarded_example :
    Grants app.engine administrator.policies (codes "*") admin
    × (in_range five_second_limits ≡ true)
    × ((get_proxy_limits
          (handle_post_proxy_limits administrator (some five_seconds) app).1.settings).0
        ≡ five_second_limits)
handle_post-IsGuarded_example =
    handle_post-IsGuarded administrator (some five_seconds) app five_second_limits empty-IsCoherent
      post_saved
