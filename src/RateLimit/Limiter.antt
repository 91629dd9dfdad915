-- ===== src/RateLimit/Limiter.antt =====
-- rateLimits/limiter.ts: fixed-window counters for each AppRole and for each secret. `now` is
-- `Date.now()`, in milliseconds; the text of a refusal is left out, since it repeats its fields.
use gatehouse.Common.{
  ℕ, ◌+◌, ◌-◌, ◌*◌, ◌/◌, max, Text, text_eq, Bool, true, false, Option, none, some, List, [], ◌∷◌,
  leb, ◌==◌, if◌then◌else◌,
}
use gatehouse.Common.Dict.{Dict, get, set}

abbrev pub minute_ms : ℕ
minute_ms = 60000

abbrev pub hour_ms : ℕ
hour_ms = 3600000

abbrev pub day_ms : ℕ
day_ms = 86400000

-- `none` is `null`: no limit on that axis.
pub record AppRoleLimits : Type 0 where
  pub per_minute : Option ℕ
  pub per_hour : Option ℕ
  pub per_day : Option ℕ

pub data LimitKind : Type 0 where
  approle_minute approle_hour approle_day secret_minute : LimitKind

-- The fields that a decision has when it refuses.
pub record Refusal : Type 0 where
  pub limit_kind : LimitKind
  pub retry_after_seconds : ℕ
  pub current : ℕ
  pub limit : ℕ

pub data RateLimitDecision : Type 0 where
  allowed : RateLimitDecision
  refused : Refusal → RateLimitDecision

pub record WindowCounter : Type 0 where
  pub epoch : ℕ
  pub count : ℕ

pub record ApproleCounters : Type 0 where
  pub minute : WindowCounter
  pub hour : WindowCounter
  pub day : WindowCounter

pub record SecretCounters : Type 0 where
  pub minute : WindowCounter

pub record RateLimiter : Type 0 where
  pub approles : Dict ApproleCounters
  pub secrets : Dict SecretCounters

abbrev pub init : RateLimiter
init = record { approles = []; secrets = [] }

abbrev pub fresh_counter : ℕ → WindowCounter
fresh_counter epoch = record { epoch = epoch; count = 0 }

-- The epoch ends after `now`, so the truncated `-` is exact; `(n + 999) / 1000` is the ceiling.
unfoldable pub retry_after_for : ℕ → ℕ → ℕ → ℕ
retry_after_for epoch window_ms now = max 1 (((epoch + 1) * window_ms - now + 999) / 1000)

unfoldable pub live_count : Option WindowCounter → ℕ → ℕ
live_count none epoch = 0
live_count (some c) epoch = if c.epoch == epoch then c.count else 0

pub record Axis : Type 0 where
  pub limit : Option ℕ
  pub window_ms : ℕ
  pub current : Option WindowCounter
  pub kind : LimitKind

unfoldable pub check_axis : ℕ → Axis → Option Refusal
unfolding live_count
check_axis now axis = elim axis.limit [
  | none ↦ none
  | some limit ↦
      let epoch = now / axis.window_ms in
      let live = live_count axis.current epoch in
      if leb limit live
      then some (record {
        limit_kind = axis.kind;
        retry_after_seconds = retry_after_for epoch axis.window_ms now;
        current = live;
        limit = limit;
      })
      else none
]

-- The loop over the axes: the first one that is used up decides.
unfoldable pub check_axes : ℕ → List Axis → RateLimitDecision
check_axes now [] = allowed
check_axes now (axis ∷ axes) = elim (check_axis now axis) [
  | some r ↦ refused r
  | none ↦ check_axes now axes
]

abbrev pub minute_of : Option ApproleCounters → Option WindowCounter
minute_of none = none
minute_of (some c) = some c.minute

abbrev pub hour_of : Option ApproleCounters → Option WindowCounter
hour_of none = none
hour_of (some c) = some c.hour

abbrev pub day_of : Option ApproleCounters → Option WindowCounter
day_of none = none
day_of (some c) = some c.day

abbrev pub secret_minute_of : Option SecretCounters → Option WindowCounter
secret_minute_of none = none
secret_minute_of (some c) = some c.minute

abbrev pub approle_axes : Option ApproleCounters → AppRoleLimits → List Axis
approle_axes counters limits =
    record {
      limit = limits.per_minute;
      window_ms = minute_ms;
      current = minute_of counters;
      kind = approle_minute;
    }
    ∷ record {
      limit = limits.per_hour;
      window_ms = hour_ms;
      current = hour_of counters;
      kind = approle_hour;
    }
    ∷ record {
      limit = limits.per_day;
      window_ms = day_ms;
      current = day_of counters;
      kind = approle_day;
    }
    ∷ []

abbrev pub unlimited : Option ℕ → Option ℕ → Option ℕ → Bool
unlimited none none none = true
unlimited _ _ _ = false

unfoldable pub check_approle : RateLimiter → ℕ → Text → AppRoleLimits → RateLimitDecision
check_approle s now role_id limits =
    if unlimited limits.per_minute limits.per_hour limits.per_day
    then allowed
    else check_axes now (approle_axes (get role_id s.approles) limits)

-- `per_minute` is 0 for the calls with `null` or a number below 1, which mean "no limit".
unfoldable pub check_secret : RateLimiter → ℕ → Text → ℕ → RateLimitDecision
unfolding live_count
check_secret s now path per_minute =
    let epoch = now / minute_ms in
    let live = live_count (secret_minute_of (get path s.secrets)) epoch in
    if per_minute == 0
    then allowed
    else if leb per_minute live
    then refused (record {
      limit_kind = secret_minute;
      retry_after_seconds = retry_after_for epoch minute_ms now;
      current = live;
      limit = per_minute;
    })
    else allowed

-- Roll the counter over if its epoch has passed, then count the call.
unfoldable pub tally : ℕ → WindowCounter → WindowCounter
tally epoch c =
    let live = if c.epoch == epoch then c else fresh_counter epoch in
    record live { count = live.count + 1 }

unfoldable pub tally_approle : ℕ → Option ApproleCounters → ApproleCounters
unfolding tally
tally_approle now none = record {
  minute = tally (now / minute_ms) (fresh_counter (now / minute_ms));
  hour = tally (now / hour_ms) (fresh_counter (now / hour_ms));
  day = tally (now / day_ms) (fresh_counter (now / day_ms));
}
tally_approle now (some c) = record {
  minute = tally (now / minute_ms) c.minute;
  hour = tally (now / hour_ms) c.hour;
  day = tally (now / day_ms) c.day;
}

unfoldable pub tally_secret : ℕ → Option SecretCounters → SecretCounters
unfolding tally
tally_secret now none = record {
  minute = tally (now / minute_ms) (fresh_counter (now / minute_ms));
}
tally_secret now (some c) = record { minute = tally (now / minute_ms) c.minute }

unfoldable pub record_paths : ℕ → List Text → Dict SecretCounters → Dict SecretCounters
unfolding tally_secret
record_paths now [] secrets = secrets
record_paths now (path ∷ paths) secrets =
    record_paths now paths (set path (tally_secret now (get path secrets)) secrets)

-- An empty `role_id` stands for the root token or a user: no AppRole counter.
unfoldable pub record_approle : ℕ → Text → Dict ApproleCounters → Dict ApproleCounters
unfolding tally_approle
record_approle now role_id approles =
    if text_eq role_id []
    then approles
    else set role_id (tally_approle now (get role_id approles)) approles

unfoldable pub record_call : RateLimiter → ℕ → Text → List Text → RateLimiter
unfolding record_approle record_paths
record_call s now role_id paths = record {
  approles = record_approle now role_id s.approles;
  secrets = record_paths now paths s.secrets;
}
