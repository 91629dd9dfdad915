-- ===== src/Rotate/Hits.antt =====
-- The counters of calls by address in api/rotate.ts.
use gatehouse.Common.{ℕ, ◌+◌, ◌-◌, ◌/◌, max, ltb, Text, none, some, if◌then◌else◌, [], ◌∷◌}
use gatehouse.Common.Dict.{Dict, get, set}

abbrev pub create_max : ℕ
create_max = 5

abbrev pub exchange_max : ℕ
exchange_max = 10

abbrev pub window_ms : ℕ
window_ms = 60000

pub record Entry : Type 0 where
  pub count : ℕ
  pub reset_at : ℕ

-- Let through, or refused for some seconds.
pub data Hit : Type 0 where
  ok : Hit
  retry_after : ℕ → Hit

abbrev opened : ℕ → Entry
opened now = record { count = 1; reset_at = now + window_ms }

abbrev pub ceil_seconds : ℕ → ℕ
ceil_seconds ms = (ms + 999) / 1000

unfoldable pub hit : ℕ → Text → ℕ → Dict Entry → Hit × Dict Entry
hit now ip max_count counters = elim (get ip counters) [
  | none ↦ (ok, set ip (opened now) counters)
  | some entry ↦ if ltb entry.reset_at now then (ok, set ip (opened now) counters) else (
    if ltb max_count (entry.count + 1)
        then retry_after (max 1 (ceil_seconds (entry.reset_at - now)))
        else ok,
    set ip (record entry { count = entry.count + 1 }) counters,
  )
]

-- The sweep that a timer runs on both counters.
unfoldable pub sweep : ℕ → Dict Entry → Dict Entry
sweep now [] = []
sweep now ((ip, entry) ∷ rest) =
    let kept = sweep now rest in if ltb entry.reset_at now then kept else (ip, entry) ∷ kept
