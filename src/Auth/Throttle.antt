-- ===== src/Auth/Throttle.antt =====
-- internal/auth/throttle.go: the sliding window of failures for each key. An instant is a number;
-- `ev.Before(now.Add(-window))` is written `ev + window < now`, which is the same where `now` is
-- smaller than the window. Each operation reads the clock twice, so it takes two instants.
pub mod Window
mod Tests
use system_wrangler_backend.Prelude.{
  ℕ, ◌+◌, ◌-◌, Bool, true, false, Option, none, some, List, [], ◌∷◌, ◌++◌, String, ltb,
  if◌then◌else◌, length, string_eq,
}
use system_wrangler_backend.Prelude.Maps.{Map, lookup, insert, delete}

pub record Throttle : Type 0 where
  pub window : ℕ
  pub max : ℕ
  pub events : Map String (List ℕ)

-- The result of `Check`: reading `t.events[key][0]` of an empty list panics.
pub data Answer : Type 0 where
  wait : ℕ → Answer
  panic : Answer

-- `t.events[key]`; a missing key reads as no events.
events_of : Option (List ℕ) → List ℕ
events_of none = []
events_of (some ev) = ev

pub events_at : Throttle → String → List ℕ
unfolding events_of
events_at t key = events_of (lookup key t.events)

-- The loop of `prune` over the events of the key.
drop_stale : ℕ → ℕ → List ℕ → List ℕ
drop_stale window now [] = []
drop_stale window now (e ∷ ev) =
    let rest = drop_stale window now ev in if ltb (e + window) now then rest else e ∷ ev

-- The end of `prune`: a key with no events is deleted.
store_events : String → List ℕ → Throttle → Throttle
store_events key [] t = record t { events = delete key t.events }
store_events key (e ∷ ev) t = record t { events = insert key (e ∷ ev) t.events }

pub prune : ℕ → String → Throttle → Throttle
prune now key t = store_events key (drop_stale t.window now (events_at t key)) t

-- `oldest.Add(t.window).Sub(t.now())`, 0 where that is negative.
check_oldest : ℕ → ℕ → List ℕ → Answer
check_oldest window now [] = panic
check_oldest window now (oldest ∷ ev) = wait (oldest + window - now)

pub check : ℕ → ℕ → String → Throttle → Throttle × Answer
check now now' key t =
    let t' = prune now key t in
    if ltb (length (events_at t' key)) t'.max
    then (t', wait 0)
    else (t', check_oldest t'.window now' (events_at t' key))

pub add_event : ℕ → ℕ → String → Throttle → Throttle
add_event now now' key t =
    let t' = prune now key t in
    record t' { events = insert key (events_at t' key ++ now' ∷ []) t'.events }

-- A nil `*Throttle` never throttles and records nothing.
pub check_nil : ℕ → ℕ → String → Option Throttle → Option Throttle × Answer
check_nil now now' key none = (none, wait 0)
check_nil now now' key (some t) = let (t', a) = check now now' key t in (some t', a)

pub record_nil : ℕ → ℕ → String → Option Throttle → Option Throttle
record_nil now now' key none = none
record_nil now now' key (some t) = some (add_event now now' key t)
