-- ===== src/RateLimit/Examples.antt =====
-- Runs of rateLimits/ on a short history of calls.
use gatehouse.Common.{
  ℕ, ◌<◌, ◌/◌, ◌≡◌, ◌≢◌, ◌↔◌, ◌⊎◌, refl, Text, codes, text_eq, none, some, List, [], ◌∷◌, arith,
  trim, trim_start, is_space, digits_value,
}
use gatehouse.Common.Dict.{get, set}
use gatehouse.RateLimit.Limiter.{
  AppRoleLimits, LimitKind, Refusal, allowed, refused, minute_ms, check_approle, check_secret,
  check_axes, check_axis, live_count, record_call, record_approle, record_paths, tally,
  tally_approle, tally_secret, retry_after_for,
}
use gatehouse.RateLimit.History.{Call, replay, Chronological, Until, uses_in}
use gatehouse.RateLimit.Enforcement.{
  HasCallsLeft, Checked, KeepsLimits, check_approle-replay, check_secret-replay,
  Checked-KeepsLimits,
}
use gatehouse.RateLimit.Retry.{IsAccurate, check_approle-IsAccurate}
use gatehouse.RateLimit.Validation.{
  RawInput, text, whole, missing, valid, coerce_text, coerce_optional_int, validate_axis,
  validate_app_role_limits, IsInRange, body_of, validate-IsInRange,
}

abbrev role : Text
role = codes "ci"

abbrev key : Text
key = codes "keys/openai"

abbrev two_a_minute : AppRoleLimits
two_a_minute = record { per_minute = some 2; per_hour = none; per_day = some 100 }

-- The newest call first.
abbrev history : List Call
history =
    record { time = 61000; role_id = role; paths = key ∷ [] }
    ∷ record { time = 60500; role_id = role; paths = key ∷ [] }
    ∷ []

named : role ≢ []
named e = absurd (cc e)

in_order : Chronological history
in_order = ((omega arith, tt), (tt, tt))

Until-now : Until 62000 history
Until-now = (omega arith, (omega arith, tt))

all-Checked : Checked (λ r. two_a_minute) history
unfolding Checked replay check_approle check_axes check_axis live_count record_call record_approle
    record_paths tally tally_approle tally_secret get set text_eq
all-Checked = (named, refl, (named, refl, tt))

check_approle-replay_example :
    (check_approle (replay history) 62000 role two_a_minute ≡ allowed)
    ↔ HasCallsLeft 62000 role two_a_minute history
check_approle-replay_example =
    check_approle-replay 62000 role two_a_minute history named in_order Until-now

check_secret-replay_example :
    (check_secret (replay history) 62000 key 3 ≡ allowed)
    ↔ ((◌≡◌ {A = ℕ} 3 0) ⊎ (uses_in (62000 / minute_ms) key history < 3))
check_secret-replay_example = check_secret-replay 62000 key 3 history in_order Until-now

Checked-KeepsLimits_example : KeepsLimits (λ r. two_a_minute) history
Checked-KeepsLimits_example = Checked-KeepsLimits (λ r. two_a_minute) history in_order all-Checked

abbrev role_refusal : Refusal
role_refusal = record {
  limit_kind = LimitKind.approle_minute;
  retry_after_seconds = 58;
  current = 2;
  limit = 2;
}

refused_at_limit : check_approle (replay history) 62000 role two_a_minute ≡ refused role_refusal
unfolding replay check_approle check_axes check_axis live_count record_call record_approle
    record_paths tally tally_approle tally_secret get set text_eq retry_after_for
refused_at_limit = refl

check_approle-IsAccurate_example : IsAccurate 62000 role_refusal
check_approle-IsAccurate_example =
    check_approle-IsAccurate (replay history) 62000 role two_a_minute role_refusal refused_at_limit

abbrev secret_refusal : Refusal
secret_refusal = record {
  limit_kind = LimitKind.secret_minute;
  retry_after_seconds = 58;
  current = 2;
  limit = 1;
}

secret_refused : check_secret (replay history) 62000 key 1 ≡ refused secret_refusal
unfolding replay check_secret live_count record_call record_approle record_paths tally tally_approle
    tally_secret get set text_eq retry_after_for
secret_refused = refl

abbrev body : RawInput
body = record { per_minute = text (codes " 60 "); per_hour = whole 500; per_day = missing }

abbrev body_limits : AppRoleLimits
body_limits = record { per_minute = some 60; per_hour = some 500; per_day = none }

body_valid : validate_app_role_limits body ≡ valid body_limits
unfolding validate_app_role_limits validate_axis coerce_optional_int coerce_text trim trim_start
    is_space digits_value text_eq
body_valid = refl

validate-IsInRange_example :
    IsInRange body_limits × (validate_app_role_limits (body_of body_limits) ≡ valid body_limits)
validate-IsInRange_example = validate-IsInRange body body_limits body_valid
