-- ===== src/Systems/Probe/Tests.antt =====
-- internal/systems: runs, and the theorems at concrete inputs.
use mathlib.Core.Option
use system_wrangler_backend.Prelude.{
  ℕ, ◌+◌, ◌≡◌, refl, Bool, true, false, none, some, List, [], ◌∷◌, map, leb, if◌then◌else◌, Bytes,
  codes, bytes_eq, ◌==◌,
}
use system_wrangler_backend.Prelude.Maps.{lookup}
use system_wrangler_backend.Systems.{System, SystemInput, reachable, unreachable, probed}
use system_wrangler_backend.Systems.Memory.{Fleet, fresh}
use system_wrangler_backend.Systems.Probe.{Reading, reading, tick, threshold, probe_run}
use system_wrangler_backend.Systems.Probe.Status.{AllAnswered, calm_run, streak_status}
use system_wrangler_backend.Systems.Probe.Cycle.{systems_of, lookup-tick}

abbrev web : Bytes
web = codes "web"

abbrev db : Bytes
db = codes "db"

abbrev input : SystemInput
input = record { name = codes " web "; hostname = codes "web.local" }

abbrev miss : Reading
miss = record { id = web; answered = false; at = 7 }

abbrev answer : Reading
answer = record { id = web; answered = true; at = 8 }

abbrev up : System
up = record (fresh web 1 input) { status = reachable }

abbrev fleet : Fleet
fleet = (web, up) ∷ []

third_miss : (probe_run 3 2 (miss ∷ miss ∷ miss ∷ []) up).status ≡ unreachable
unfolding probe_run probed fresh
third_miss = refl

streak_status_example :
    (AllAnswered 3 2 false (miss ∷ miss ∷ miss ∷ [])
      → (probe_run 3 2 (miss ∷ miss ∷ miss ∷ []) up).status
        ≡ (if leb 3 (up.consecutive_failures + 3) then unreachable else reachable))
    × (AllAnswered 3 2 true (miss ∷ miss ∷ miss ∷ [])
        → (probe_run 3 2 (miss ∷ miss ∷ miss ∷ []) up).status
          ≡ (if leb 2 (up.consecutive_successes + 3) then reachable else reachable))
streak_status_example = streak_status 3 2 miss (miss ∷ miss ∷ []) up

calm_run_example : (probe_run 3 2 (miss ∷ miss ∷ answer ∷ miss ∷ []) up).status ≡ reachable
unfolding fresh
calm_run_example = calm_run 3 2 (miss ∷ miss ∷ answer ∷ miss ∷ []) up refl refl

-- Only the host of `db` answers.
abbrev answers : Bytes → Bool
answers hostname = hostname == codes "db.local"

abbrev clock : Bytes → ℕ
clock id = 7

abbrev listed : List System
listed = up ∷ fresh db 1 (record { name = db; hostname = codes "db.local" }) ∷ []

lookup-tick_example :
    lookup web (tick answers clock (some 3) none (some listed) fleet).0
    ≡ Option.map
        (probe_run
          (threshold (some 3))
          (threshold none)
          (map (reading answers clock) (systems_of web (some listed))))
        (lookup web fleet)
lookup-tick_example = lookup-tick answers clock (some 3) none (some listed) web fleet
