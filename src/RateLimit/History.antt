-- ===== src/RateLimit/History.antt =====
-- The limiter against a history of the calls that it was told of, newest first: the counters are
-- exactly the numbers of calls in the current windows.
use gatehouse.Common.{
  ℕ, suc, ◌+◌, ◌/◌, ◌≤◌, ◌<◌, ◌≡◌, ◌≢◌, refl, Text, text_eq, text_eq_iff, Bool, ◌&&◌, Option, none,
  some, List, [], ◌∷◌, ◌==◌, if◌then◌else◌, arith,
}
use gatehouse.Common.Dict.{Dict, get, get-set}
use gatehouse.RateLimit.Limiter.{
  minute_ms, hour_ms, day_ms, WindowCounter, ApproleCounters, RateLimiter, init, live_count,
  minute_of, hour_of, day_of, tally, tally_approle, record_approle, record_call,
}

pub record Call : Type 0 where
  pub time : ℕ
  pub role_id : Text
  pub paths : List Text

unfoldable pub replay : List Call → RateLimiter
replay [] = init
replay (c ∷ older) = record_call (replay older) c.time c.role_id c.paths

-- No call is later than `now`.
abbrev pub Until : ℕ → List Call → Type 0
Until now [] = Unit {0}
Until now (c ∷ older) = (c.time ≤ now) × Until now older

abbrev pub Chronological : List Call → Type 0
Chronological [] = Unit {0}
Chronological (c ∷ older) = Until c.time older × Chronological older

-- The calls of a role in one epoch of the windows of length `w`.
unfoldable pub calls_in : ℕ → ℕ → Text → List Call → ℕ
calls_in w epoch role [] = 0
calls_in w epoch role (c ∷ older) =
    let rest = calls_in w epoch role older in
    if text_eq c.role_id role && (c.time / w == epoch) then suc rest else rest

unfoldable pub occurrences : Text → List Text → ℕ
occurrences p [] = 0
occurrences p (q ∷ qs) = let rest = occurrences p qs in if text_eq q p then suc rest else rest

-- The uses of a secret in one minute: a call counts once for each mention of the path.
unfoldable pub uses_in : ℕ → Text → List Call → ℕ
uses_in epoch p [] = 0
uses_in epoch p (c ∷ older) =
    let rest = uses_in epoch p older in
    if c.time / minute_ms == epoch then occurrences p c.paths + rest else rest

Until-mono : {a b : ℕ} (h : List Call) → a ≤ b → Until a h → Until b h
Until-mono [] le u = tt
Until-mono (c ∷ h) le u = (omega arith, Until-mono h le u.1)

live-tally :
    (e e' : ℕ) (c : WindowCounter)
    → live_count (some (tally e c)) e' ≡ (if e == e' then suc (live_count (some c) e) else 0)
unfolding live_count tally
live-tally e e' c = ground arith

-- A counter after a call in epoch `e`, read at the epoch `e'`; `hit` says that the call was counted.
abbrev Counted : Bool → ℕ → Option WindowCounter → Option WindowCounter → Type 0
Counted hit e before after =
    (e' : ℕ)
    → live_count after e'
      ≡ (if hit then (if e == e' then suc (live_count before e) else 0) else live_count before e')

get-record_approle :
    (now : ℕ) (role r : Text) (m : Dict ApproleCounters)
    → r ≢ []
    → get r (record_approle now role m)
      ≡ (if text_eq role r then some (tally_approle now (get r m)) else get r m)
unfolding record_approle
get-record_approle now role r m named = ground (
  arith,
  text_eq_iff role [],
  text_eq_iff role r,
  get-set role r (tally_approle now (get role m)) m,
)

module _ (now : ℕ) (role r : Text) (m : Dict ApproleCounters) (named : r ≢ []) where
  minute-record_approle :
      Counted
        (text_eq role r)
        (now / minute_ms)
        (minute_of (get r m))
        (minute_of (get r (record_approle now role m)))
  unfolding tally_approle live_count
  minute-record_approle e' = ground (arith, get-record_approle now role r m named)

  hour-record_approle :
      Counted
        (text_eq role r)
        (now / hour_ms)
        (hour_of (get r m))
        (hour_of (get r (record_approle now role m)))
  unfolding tally_approle live_count
  hour-record_approle e' = ground (arith, get-record_approle now role r m named)

  day-record_approle :
      Counted
        (text_eq role r)
        (now / day_ms)
        (day_of (get r m))
        (day_of (get r (record_approle now role m)))
  unfolding tally_approle live_count
  day-record_approle e' = ground (arith, get-record_approle now role r m named)

-- No call of the history lies in a later epoch.
pub calls_in_later :
    (w e t : ℕ) (role : Text) (h : List Call)
    → Until t h
    → ((a b : ℕ) → a ≤ b → a / w ≤ b / w)
    → t / w < e
    → calls_in w e role h ≡ 0
unfolding calls_in
calls_in_later w e t role [] u mono lt = refl
calls_in_later w e t role (c ∷ h) u mono lt =
    ground (arith, calls_in_later w e t role h u.1 mono lt, mono c.time t)

-- The counters that a field `view` shows, against the history.
module _ (w : ℕ) (role : Text) (mono : (a b : ℕ) → a ≤ b → a / w ≤ b / w)
    (view : Dict ApproleCounters → Option WindowCounter) (at_start : view [] ≡ none)
    (step : (now : ℕ) (r : Text) (m : Dict ApproleCounters)
      → Counted (text_eq r role) (now / w) (view m) (view (record_approle now r m))) where
  live-replay :
      (h : List Call) (now e : ℕ)
      → Chronological h
      → Until now h
      → now / w ≤ e
      → live_count (view (replay h).approles) e ≡ calls_in w e role h
  unfolding replay calls_in record_call
  live-replay [] now e chron u le = rw at_start (unfold live_count in refl)
  live-replay (c ∷ h) now e chron u le = ground (
    arith,
    step c.time c.role_id (replay h).approles e,
    mono c.time now,
    live-replay h c.time e chron.1 chron.0,
    live-replay h c.time (c.time / w) chron.1 chron.0,
    calls_in_later w e c.time role h chron.0 mono,
  )

-- The numbers of a role's calls in the windows that hold `now`.
pub record Usage : Type 0 where
  pub minute : ℕ
  pub hour : ℕ
  pub day : ℕ

unfoldable pub usage : ℕ → Text → List Call → Usage
usage now role h = record {
  minute = calls_in minute_ms (now / minute_ms) role h;
  hour = calls_in hour_ms (now / hour_ms) role h;
  day = calls_in day_ms (now / day_ms) role h;
}

pub minute_mono : (a b : ℕ) → a ≤ b → a / minute_ms ≤ b / minute_ms
minute_mono a b le = omega arith

pub hour_mono : (a b : ℕ) → a ≤ b → a / hour_ms ≤ b / hour_ms
hour_mono a b le = omega arith

pub day_mono : (a b : ℕ) → a ≤ b → a / day_ms ≤ b / day_ms
day_mono a b le = omega arith

module _ (now : ℕ) (role : Text) (h : List Call) (named : role ≢ []) (chron : Chronological h)
    (u : Until now h) where
  abbrev counters : Option ApproleCounters
  counters = get role (replay h).approles

  pub minute-usage : live_count (minute_of counters) (now / minute_ms) ≡ (usage now role h).minute
  unfolding usage
  minute-usage =
      live-replay minute_ms role minute_mono (λ m. minute_of (get role m)) (unfold get in refl)
        (λ t r m. minute-record_approle t r role m named) h now (now / minute_ms) chron u
        (omega arith)

  pub hour-usage : live_count (hour_of counters) (now / hour_ms) ≡ (usage now role h).hour
  unfolding usage
  hour-usage =
      live-replay hour_ms role hour_mono (λ m. hour_of (get role m)) (unfold get in refl)
        (λ t r m. hour-record_approle t r role m named) h now (now / hour_ms) chron u (omega arith)

  pub day-usage : live_count (day_of counters) (now / day_ms) ≡ (usage now role h).day
  unfolding usage
  day-usage =
      live-replay day_ms role day_mono (λ m. day_of (get role m)) (unfold get in refl)
        (λ t r m. day-record_approle t r role m named) h now (now / day_ms) chron u (omega arith)
