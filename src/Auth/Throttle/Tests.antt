-- ===== src/Auth/Throttle/Tests.antt =====
-- internal/auth/throttle.go: runs, and the theorems at concrete inputs.
use system_wrangler_backend.Prelude.{
  ℕ, ◌+◌, ◌-◌, ◌≤◌, ◌<◌, ◌≡◌, refl, List, [], ◌∷◌, String, arith, length, string_eq,
}
use system_wrangler_backend.Auth.Throttle.{
  Throttle, wait, panic, check, check_oldest, prune, events_at, events_of, store_events, drop_stale,
}
use system_wrangler_backend.Auth.Throttle.Window.{Ordered}
use system_wrangler_backend.Auth.Throttle.Window.Limits.{check_bounded, check-lets_in, fresh}
use system_wrangler_backend.Prelude.Maps.{lookup, insert, delete}

abbrev ip : String
ip = "10.0.0.7"

abbrev sprayed : Throttle
sprayed = record { window = 60; max = 2; events = (ip, 10 ∷ 40 ∷ 50 ∷ []) ∷ [] }

abbrev idle : Throttle
idle = record { window = 60; max = 2; events = [] }

throttled : (check 80 80 ip sprayed).1 ≡ wait 20
unfolding check check_oldest prune events_at events_of store_events drop_stale lookup insert
throttled = refl

-- With a limit of 0 a key without events panics.
panics_at_zero : (check 80 80 ip (record idle { max = 0 })).1 ≡ panic
unfolding check check_oldest prune events_at events_of store_events drop_stale lookup delete
panics_at_zero = refl

sprayed-Ordered : Ordered 60 (events_at sprayed ip)
unfolding events_at events_of lookup
sprayed-Ordered = omega arith

check_bounded_example : (w : ℕ) × ((check 80 80 ip sprayed).1 ≡ wait w) × (w ≤ 60)
check_bounded_example =
    check_bounded 80 80 60 ip sprayed (omega arith) (omega arith) sprayed-Ordered

check-lets_in_example :
    (length (fresh 80 ip sprayed) < 2 → (check 80 80 ip sprayed).1 ≡ wait 0)
    × ((oldest : ℕ) (rest : List ℕ)
        → fresh 80 ip sprayed ≡ oldest ∷ rest
        → 2 ≤ length (fresh 80 ip sprayed)
        → (check 80 80 ip sprayed).1 ≡ wait (oldest + 60 - 80))
check-lets_in_example = check-lets_in 80 80 60 ip sprayed sprayed-Ordered
