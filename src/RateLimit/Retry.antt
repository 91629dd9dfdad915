-- ===== src/RateLimit/Retry.antt =====
-- What a refusal tells the caller: the limit that was reached, and when to try again.
use gatehouse.Common.{
  ℕ, ◌+◌, ◌-◌, ◌*◌, ◌/◌, ◌≤◌, ◌<◌, ◌≡◌, refl, Text, some, List, [], ◌∷◌, arith, inl, inr,
  Option-cases,
}
use gatehouse.Common.Dict.{get}
use gatehouse.RateLimit.Limiter.{
  minute_ms, hour_ms, day_ms, AppRoleLimits, LimitKind, approle_minute, approle_hour, approle_day,
  secret_minute, Refusal, refused, RateLimiter, Axis, approle_axes, retry_after_for, check_axis,
  check_axes, check_approle, check_secret,
}
use gatehouse.RateLimit.Enforcement.{check_approle-check_axes}

abbrev pub window_of : LimitKind → ℕ
window_of approle_minute = minute_ms
window_of approle_hour = hour_ms
window_of approle_day = day_ms
window_of secret_minute = minute_ms

-- The wait is at least a second, and the least number of seconds after which the window has ended.
pub record IsWait (now w t : ℕ) : Type 0 where
  pub positive : 1 ≤ t
  pub ended : now / w < (now + t * 1000) / w
  pub least : (now + (t - 1) * 1000) / w ≡ now / w

abbrev pub IsAccurate : ℕ → Refusal → Type 0
IsAccurate now r = (r.limit ≤ r.current) × IsWait now (window_of r.limit_kind) r.retry_after_seconds

minute-IsWait : (now : ℕ) → IsWait now minute_ms (retry_after_for (now / minute_ms) minute_ms now)
unfolding retry_after_for
minute-IsWait now = record { positive = omega arith; ended = omega arith; least = omega arith }

hour-IsWait : (now : ℕ) → IsWait now hour_ms (retry_after_for (now / hour_ms) hour_ms now)
unfolding retry_after_for
hour-IsWait now = record { positive = omega arith; ended = omega arith; least = omega arith }

day-IsWait : (now : ℕ) → IsWait now day_ms (retry_after_for (now / day_ms) day_ms now)
unfolding retry_after_for
day-IsWait now = record { positive = omega arith; ended = omega arith; least = omega arith }

kind-IsWait :
    (now : ℕ) (k : LimitKind)
    → IsWait now (window_of k) (retry_after_for (now / window_of k) (window_of k) now)
kind-IsWait now approle_minute = minute-IsWait now
kind-IsWait now approle_hour = hour-IsWait now
kind-IsWait now approle_day = day-IsWait now
kind-IsWait now secret_minute = minute-IsWait now

-- A refusal of an axis whose window is that of its kind.
abbrev RefusedAt : ℕ → Refusal → Type 0
RefusedAt now r =
    (r.limit ≤ r.current)
    × (r.retry_after_seconds
        ≡ retry_after_for (now / window_of r.limit_kind) (window_of r.limit_kind) now)

RefusedAt-IsAccurate : (now : ℕ) (r : Refusal) → RefusedAt now r → IsAccurate now r
RefusedAt-IsAccurate now r (full, wait) = (full, rw wait (kind-IsWait now r.limit_kind))

check_axis-RefusedAt :
    (now : ℕ) (axis : Axis) (r : Refusal)
    → axis.window_ms ≡ window_of axis.kind
    → check_axis now axis ≡ some r
    → RefusedAt now r
unfolding check_axis
check_axis-RefusedAt now axis r w e = ground arith

abbrev HasWindows : List Axis → Type 0
HasWindows [] = Unit {0}
HasWindows (axis ∷ axes) = (axis.window_ms ≡ window_of axis.kind) × HasWindows axes

check_axes-RefusedAt :
    (now : ℕ) (axes : List Axis) (r : Refusal)
    → HasWindows axes
    → check_axes now axes ≡ refused r
    → RefusedAt now r
unfolding check_axes
check_axes-RefusedAt now [] r w e = cc
check_axes-RefusedAt now (axis ∷ axes) r w e = elim (Option-cases (check_axis now axis)) [
  | inl open_axis ↦ check_axes-RefusedAt now axes r w.1 (ground arith)
  | inr (r', full) ↦ check_axis-RefusedAt now axis r w.0 (ground arith)
]

-- A refused AppRole is at the limit that the refusal names, and the seconds to wait are the least
-- number, at least one, after which the window of that limit has ended.
pub check_approle-IsAccurate :
    (s : RateLimiter) (now : ℕ) (role : Text) (limits : AppRoleLimits) (r : Refusal)
    → check_approle s now role limits ≡ refused r
    → IsAccurate now r
check_approle-IsAccurate s now role limits r e = RefusedAt-IsAccurate now r (
    check_axes-RefusedAt now (approle_axes (get role s.approles) limits) r
      (refl, (refl, (refl, tt))) (rw check_approle-check_axes at e))

-- A refused secret is at the limit that the refusal names, and the seconds to wait are the least
-- number, at least one, after which the minute has ended.
check_secret-IsAccurate :
    (s : RateLimiter) (now : ℕ) (path : Text) (per_minute : ℕ) (r : Refusal)
    → check_secret s now path per_minute ≡ refused r
    → IsAccurate now r
unfolding check_secret
check_secret-IsAccurate s now path per_minute r e = RefusedAt-IsAccurate now r (ground arith)
