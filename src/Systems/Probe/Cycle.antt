-- ===== src/Systems/Probe/Cycle.antt =====
-- internal/systems/probe.go: a cycle over the fleet.
use mathlib.Core.Option
use system_wrangler_backend.Prelude.{
  ℕ, ◌≡◌, refl, ap, ◌∙◌, Bool, Option, none, some, List, [], ◌∷◌, arith, if◌then◌else◌, Bytes,
  bytes_eq, ◌==◌, keep, map,
}
use system_wrangler_backend.Prelude.Maps.{lookup}
use system_wrangler_backend.Systems.{System, probed}
use system_wrangler_backend.Systems.Memory.{Fleet, update_probe}
use system_wrangler_backend.Systems.Memory.Laws.{lookup-update_probe}
use system_wrangler_backend.Systems.Probe.{Reading, reading, cycle_from, tick, threshold, probe_run}

-- The readings of one system, in their order.
abbrev pub readings_of : Bytes → List Reading → List Reading
readings_of j ps = keep (λ p. p.id == j) ps

module _ (f s : ℕ) where
  cycle_step :
      (p : Reading) (ps : List Reading) (j : Bytes) (o : Option System)
      → Option.map
          (probe_run f s (readings_of j ps))
          (if p.id == j then Option.map (probed p.answered p.at f s) o else o)
        ≡ Option.map (probe_run f s (readings_of j (p ∷ ps))) o
  unfolding probe_run
  cycle_step p ps j none = ground arith
  cycle_step p ps j (some h) = ground arith

  nothing : (o : Option System) → o ≡ Option.map (probe_run f s []) o
  unfolding probe_run
  nothing none = refl
  nothing (some h) = refl

  lookup-cycle_from :
      (ps : List Reading) (j : Bytes) (fleet : Fleet) (n : ℕ)
      → lookup j (cycle_from f s ps (fleet, n)).0
        ≡ Option.map (probe_run f s (readings_of j ps)) (lookup j fleet)
  unfolding cycle_from
  lookup-cycle_from [] j fleet n = nothing (lookup j fleet)
  lookup-cycle_from (p ∷ ps) j fleet n =
      lookup-cycle_from ps j (update_probe p.id p.answered p.at f s fleet).0 _
      ∙ rw (lookup-update_probe p.id p.answered p.at f s j fleet)
          (cycle_step p ps j (lookup j fleet))

abbrev pub systems_of : Bytes → Option (List System) → List System
systems_of j none = []
systems_of j (some listed) = keep (λ h. h.id == j) listed

readings_of-map :
    (answers : Bytes → Bool) (clock : Bytes → ℕ) (j : Bytes) (listed : List System)
    → readings_of j (map (reading answers clock) listed)
      ≡ map (reading answers clock) (keep (λ h. h.id == j) listed)
readings_of-map answers clock j [] = refl
readings_of-map answers clock j (h ∷ rest) = ground (arith, readings_of-map answers clock j rest)

-- After a cycle the system of each id is the one that the probes of the listed systems with that id, one for
-- each and in their order, make of it, whatever the answers of other systems are; where the systems
-- cannot be listed, that is the one it was.
pub lookup-tick :
    (answers : Bytes → Bool) (clock : Bytes → ℕ) (fail_threshold succ_threshold : Option ℕ)
    (listed : Option (List System)) (j : Bytes) (fleet : Fleet)
    → lookup j (tick answers clock fail_threshold succ_threshold listed fleet).0
      ≡ Option.map
          (probe_run
            (threshold fail_threshold)
            (threshold succ_threshold)
            (map (reading answers clock) (systems_of j listed)))
          (lookup j fleet)
unfolding tick
lookup-tick answers clock fail_threshold succ_threshold none j fleet =
    nothing (threshold fail_threshold) (threshold succ_threshold) (lookup j fleet)
lookup-tick answers clock fail_threshold succ_threshold (some listed) j fleet =
    let f = threshold fail_threshold in
    let s = threshold succ_threshold in
    lookup-cycle_from f s (map (reading answers clock) listed) j fleet 0
    ∙ ap (λ ps. Option.map (probe_run f s ps) (lookup j fleet))
        (readings_of-map answers clock j listed)
