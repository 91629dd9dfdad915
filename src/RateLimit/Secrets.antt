-- ===== src/RateLimit/Secrets.antt =====
-- The counters of the secrets against the history.
use gatehouse.Common.{
  ℕ, suc, ◌+◌, ◌/◌, ◌≤◌, ◌<◌, ◌≡◌, refl, Text, text_eq, text_eq_iff, List, [], ◌∷◌, ◌==◌,
  if◌then◌else◌, arith,
}
use gatehouse.Common.Dict.{Dict, get, set, get-set}
use gatehouse.RateLimit.Limiter.{
  minute_ms, SecretCounters, live_count, secret_minute_of, tally_secret, record_paths, record_call,
}
use gatehouse.RateLimit.History.{
  Call, replay, Until, Chronological, occurrences, uses_in, minute_mono,
}

abbrev live : Text → Dict SecretCounters → ℕ → ℕ
live p m e = live_count (secret_minute_of (get p m)) e

abbrev once : ℕ → Text → Dict SecretCounters → Dict SecretCounters
once now q m = set q (tally_secret now (get q m)) m

-- One mention of the path `q`, read at the path `p`.
live-once :
    (now e : ℕ) (p q : Text) (m : Dict SecretCounters)
    → live p (once now q m) e
      ≡ (if text_eq q p then (if now / minute_ms == e then suc (live p m e) else 0) else live p m e)
unfolding tally_secret live_count
live-once now e p q m = ground (arith, text_eq_iff q p, get-set q p (tally_secret now (get q m)) m)

-- In the epoch of the call the mentions add up.
live-record_paths :
    (now : ℕ) (p : Text) (qs : List Text) (m : Dict SecretCounters)
    → live p (record_paths now qs m) (now / minute_ms)
      ≡ occurrences p qs + live p m (now / minute_ms)
unfolding record_paths occurrences
live-record_paths now p [] m = omega arith
live-record_paths now p (q ∷ qs) m =
    ground (arith, live-record_paths now p qs (once now q m), live-once now (now / minute_ms) p q m)

-- In a later epoch nothing is live after a mention, and nothing changes without one.
later-record_paths :
    (now e : ℕ) (p : Text) (qs : List Text) (m : Dict SecretCounters)
    → now / minute_ms < e
    → live p m e ≡ 0
    → live p (record_paths now qs m) e ≡ 0
unfolding record_paths
later-record_paths now e p [] m lt z = z
later-record_paths now e p (q ∷ qs) m lt z =
    later-record_paths now e p qs (once now q m) lt (ground (arith, live-once now e p q m))

uses_in_later :
    (e t : ℕ) (p : Text) (h : List Call) → Until t h → t / minute_ms < e → uses_in e p h ≡ 0
unfolding uses_in
uses_in_later e t p [] u lt = refl
uses_in_later e t p (c ∷ h) u lt =
    ground (arith, uses_in_later e t p h u.1 lt, minute_mono c.time t)

live-replay :
    (p : Text) (h : List Call) (now e : ℕ)
    → Chronological h
    → Until now h
    → now / minute_ms ≤ e
    → live p (replay h).secrets e ≡ uses_in e p h
unfolding replay uses_in record_call
live-replay p [] now e chron u le = unfold get live_count in refl
live-replay p (c ∷ h) now e chron u le = ground (
  arith,
  minute_mono c.time now,
  live-replay p h c.time e chron.1 chron.0,
  live-record_paths c.time p c.paths (replay h).secrets,
  later-record_paths c.time e p c.paths (replay h).secrets,
  uses_in_later e c.time p h chron.0,
)

pub uses-replay :
    (p : Text) (h : List Call) (now : ℕ)
    → Chronological h
    → Until now h
    → live_count (secret_minute_of (get p (replay h).secrets)) (now / minute_ms)
      ≡ uses_in (now / minute_ms) p h
uses-replay p h now chron u = live-replay p h now (now / minute_ms) chron u (omega arith)
