-- ===== src/RateLimit/Enforcement.antt =====
-- What the checks promise: the decision against the history, the bound that a caller which checks
-- before it records keeps, and the time after which a refused caller may try again.
use gatehouse.Common.{
  ℕ, suc, ◌/◌, ◌≤◌, ◌<◌, ◌≡◌, ◌≢◌, ◌↔◌, ◌⊎◌, inl, inr, refl, sym, subst, Text, text_eq_iff, true,
  Option, none, some, List, [], ◌∷◌, arith,
}
use gatehouse.Common.Dict.{get}
use gatehouse.RateLimit.Limiter.{
  unlimited, minute_ms, hour_ms, day_ms, AppRoleLimits, allowed, RateLimiter, ApproleCounters, Axis,
  approle_axes, live_count, check_axis, check_axes, check_approle, check_secret,
}
use gatehouse.RateLimit.History.{
  Call, replay, Until, Chronological, calls_in, uses_in, usage, minute-usage, hour-usage, day-usage,
}
use gatehouse.RateLimit.Secrets.{uses-replay}

-- `null` is never reached; a number is reached by as many calls.
abbrev pub IsUnder : ℕ → Option ℕ → Type 0
IsUnder n none = Unit {0}
IsUnder n (some limit) = n < limit

-- The role has calls left on each axis that has a limit.
pub record HasCallsLeft (now : ℕ) (role : Text) (limits : AppRoleLimits) (h : List Call)
    : Type 0 where
  pub minute : IsUnder (usage now role h).minute limits.per_minute
  pub hour : IsUnder (usage now role h).hour limits.per_hour
  pub day : IsUnder (usage now role h).day limits.per_day

axis-IsUnder :
    (now : ℕ) (axis : Axis) (limit : Option ℕ)
    → axis.limit ≡ limit
    → (check_axis now axis ≡ none) ↔ IsUnder (live_count axis.current (now / axis.window_ms)) limit
unfolding check_axis
axis-IsUnder now axis none e = ground arith
axis-IsUnder now axis (some n) e = ground arith

abbrev AllUnder : ℕ → List Axis → Type 0
AllUnder now [] = Unit {0}
AllUnder now (axis ∷ axes) =
    IsUnder (live_count axis.current (now / axis.window_ms)) axis.limit × AllUnder now axes

check_axes-AllUnder :
    (now : ℕ) (axes : List Axis) → (check_axes now axes ≡ allowed) ↔ AllUnder now axes
unfolding check_axes
check_axes-AllUnder now [] = (λ _. tt, λ _. refl)
check_axes-AllUnder now (axis ∷ axes) =
    let under = axis-IsUnder now axis axis.limit refl in
    let rest = check_axes-AllUnder now axes in
    (
      λ e. (under.0 (ground arith), rest.0 (ground arith)),
      λ h. let open_axis = under.1 h.0 in let open_rest = rest.1 h.1 in ground arith,
    )

unlimited-check_axes :
    (now : ℕ) (c : Option ApproleCounters) (limits : AppRoleLimits)
    → unlimited limits.per_minute limits.per_hour limits.per_day ≡ true
    → check_axes now (approle_axes c limits) ≡ allowed
unfolding check_axes check_axis
unlimited-check_axes now c limits e = ground arith

-- The early return for a role without limits changes no decision.
pub check_approle-check_axes :
    (s : RateLimiter) (now : ℕ) (role : Text) (limits : AppRoleLimits)
    → check_approle s now role limits ≡ check_axes now (approle_axes (get role s.approles) limits)
unfolding check_approle
check_approle-check_axes s now role limits =
    ground (arith, unlimited-check_axes now (get role s.approles) limits)

-- After calls recorded in the order of their times, none later than now, a role whose name is
-- not empty is let through exactly when its calls in the current minute, hour and day are all
-- below the limits that are set.
pub check_approle-replay :
    (now : ℕ) (role : Text) (limits : AppRoleLimits) (h : List Call)
    → role ≢ []
    → Chronological h
    → Until now h
    → (check_approle (replay h) now role limits ≡ allowed) ↔ HasCallsLeft now role limits h
check_approle-replay now role limits h named chron u =
    let at_once = check_axes-AllUnder now (approle_axes (get role (replay h).approles) limits) in
    rw check_approle-check_axes (
      (
        λ e.
            let under = at_once.0 e in
            record {
              minute = rw (minute-usage now role h named chron u) at under.0;
              hour = rw (hour-usage now role h named chron u) at under.1.0;
              day = rw (day-usage now role h named chron u) at under.1.1.0;
            },
        λ left. at_once.1 (
            rw
              (
                minute-usage now role h named chron u,
                hour-usage now role h named chron u,
                day-usage now role h named chron u,
              )
              (left.minute, (left.hour, (left.day, tt)))),
      ))

-- After calls recorded in the order of their times, none later than now, a secret is let through
-- exactly when it has no limit or its uses in the current minute are fewer.
pub check_secret-replay :
    (now : ℕ) (path : Text) (per_minute : ℕ) (h : List Call)
    → Chronological h
    → Until now h
    → (check_secret (replay h) now path per_minute ≡ allowed)
      ↔ ((per_minute ≡ 0) ⊎ (uses_in (now / minute_ms) path h < per_minute))
unfolding check_secret
check_secret-replay now path per_minute h chron u =
    let uses = uses-replay path h now chron u in (λ e. ground arith, λ f. ground arith)

-- Every call of the history was let through by the check at its time.
unfoldable pub Checked : (Text → AppRoleLimits) → List Call → Type 0
Checked limits [] = Unit {0}
Checked limits (c ∷ older) =
    (c.role_id ≢ [])
    × (check_approle (replay older) c.time c.role_id (limits c.role_id) ≡ allowed)
    × Checked limits older

abbrev pub AtMost : ℕ → Option ℕ → Type 0
AtMost n none = Unit {0}
AtMost n (some limit) = n ≤ limit

AtMost-of_same : {m n : ℕ} (limit : Option ℕ) → m ≡ n → AtMost m limit → AtMost n limit
AtMost-of_same none e a = tt
AtMost-of_same (some l) e a = omega arith

AtMost-suc : {m n : ℕ} (limit : Option ℕ) → n ≡ suc m → IsUnder m limit → AtMost n limit
AtMost-suc none e a = tt
AtMost-suc (some l) e a = omega arith

AtMost-zero : (limit : Option ℕ) → AtMost 0 limit
AtMost-zero none = tt
AtMost-zero (some l) = omega arith

-- The newest call either leaves the number of a window alone, or is of that role and window.
calls_in-cons :
    (w e : ℕ) (role : Text) (c : Call) (h : List Call)
    → (calls_in w e role (c ∷ h) ≡ calls_in w e role h)
      ⊎ (c.role_id ≡ role) × (calls_in w e role (c ∷ h) ≡ suc (calls_in w (c.time / w) c.role_id h))
unfolding calls_in
calls_in-cons w e role c h = ground (arith, text_eq_iff c.role_id role)

calls_in-AtMost :
    (limits : Text → Option ℕ) (w e : ℕ) (role : Text) (c : Call) (h : List Call)
    → IsUnder (calls_in w (c.time / w) c.role_id h) (limits c.role_id)
    → AtMost (calls_in w e role h) (limits role)
    → AtMost (calls_in w e role (c ∷ h)) (limits role)
calls_in-AtMost limits w e role c h under old = elim (calls_in-cons w e role c h) [
  | inl same ↦ AtMost-of_same (limits role) (sym same) old
  | inr (r, more) ↦
      AtMost-suc (limits role) more
        (subst (λ x. IsUnder (calls_in w (c.time / w) c.role_id h) (limits x)) r under)
]

-- If every call was let through, then in every minute, hour and day of the clock no role has more
-- calls than its limit there.
pub record KeepsLimits (limits : Text → AppRoleLimits) (h : List Call) : Type 0 where
  pub minute : (e : ℕ) (role : Text) → AtMost (calls_in minute_ms e role h) (limits role).per_minute
  pub hour : (e : ℕ) (role : Text) → AtMost (calls_in hour_ms e role h) (limits role).per_hour
  pub day : (e : ℕ) (role : Text) → AtMost (calls_in day_ms e role h) (limits role).per_day

-- When calls of named roles were recorded in the order of their times, and each was let through
-- by the check at its time, no role has more calls in any minute, hour or day of the clock, fixed
-- windows that begin at whole multiples of their length, than its limit allows.
pub Checked-KeepsLimits :
    (limits : Text → AppRoleLimits) (h : List Call)
    → Chronological h
    → Checked limits h
    → KeepsLimits limits h
unfolding Checked
Checked-KeepsLimits limits [] chron g = record {
  minute = λ e role. unfold calls_in in AtMost-zero (limits role).per_minute;
  hour = λ e role. unfold calls_in in AtMost-zero (limits role).per_hour;
  day = λ e role. unfold calls_in in AtMost-zero (limits role).per_day;
}
Checked-KeepsLimits limits (c ∷ h) chron (named, passed, g) =
    let older = Checked-KeepsLimits limits h chron.1 g in
    let left =
      (check_approle-replay c.time c.role_id (limits c.role_id) h named chron.1 chron.0).0 passed in
    record {
      minute = λ e role.
          calls_in-AtMost (λ r. (limits r).per_minute) minute_ms e role c h
            (unfold usage in left.minute) (older.minute e role);
      hour = λ e role.
          calls_in-AtMost (λ r. (limits r).per_hour) hour_ms e role c h (unfold usage in left.hour)
            (older.hour e role);
      day = λ e role.
          calls_in-AtMost (λ r. (limits r).per_day) day_ms e role c h (unfold usage in left.day)
            (older.day e role);
    }
