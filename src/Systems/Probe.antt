-- ===== src/Systems/Probe.antt =====
-- internal/systems/probe.go: the thresholds and the cycle. The goroutines of a cycle take the lock of the
-- store one after the other, in any order: a cycle takes the systems that the store lists in the order
-- in which their probes come to it, and the network and the clock, which say how a host answers and
-- when. A cycle that is cancelled in the middle, log lines and the timer are left out.
pub mod Status
pub mod Cycle
mod Tests
use system_wrangler_backend.Prelude.{
  ℕ, zero, suc, ◌+◌, Bool, true, false, Option, none, some, List, [], ◌∷◌, map, ltb, if◌then◌else◌,
  Bytes,
}
use system_wrangler_backend.Systems.{System, probed}
use system_wrangler_backend.Systems.Memory.{Fleet, Result, ok, fail, update_probe}

-- `failThreshold` and `succThreshold`; none is a nil function, and numbers below 0 read as 0.
pub threshold : Option ℕ → ℕ
threshold none = 1
threshold (some n) = if ltb 0 n then n else 1

pub record Reading : Type 0 where
  pub id : Bytes
  pub answered : Bool
  pub at : ℕ

-- A failed update is logged; a change of the status is counted.
count_change : Result Bool → ℕ → ℕ
count_change (ok true) n = n + 1
count_change (ok false) n = n
count_change (fail e) n = n

pub cycle_from : ℕ → ℕ → List Reading → Fleet × ℕ → Fleet × ℕ
unfolding count_change
cycle_from fail_threshold succ_threshold [] state = state
cycle_from fail_threshold succ_threshold (p ∷ ps) (fleet, changes) =
    let (fleet', r) = update_probe p.id p.answered p.at fail_threshold succ_threshold fleet in
    cycle_from fail_threshold succ_threshold ps (fleet', count_change r changes)

-- The probe of one listed system.
abbrev pub reading : (Bytes → Bool) → (Bytes → ℕ) → System → Reading
reading answers clock h = record { id = h.id; answered = answers h.hostname; at = clock h.id }

-- `Tick`, with the answer of `List`, none where it is an error, and the thresholds that it reads at its
-- start; the result says whether `OnChange` is called.
pub tick :
    (Bytes → Bool) → (Bytes → ℕ) → Option ℕ → Option ℕ → Option (List System) → Fleet → Fleet × Bool
unfolding cycle_from threshold
tick answers clock fail_threshold succ_threshold none fleet = (fleet, false)
tick answers clock fail_threshold succ_threshold (some listed) fleet =
    let (fleet', changes) =
      cycle_from (threshold fail_threshold) (threshold succ_threshold)
        (map (reading answers clock) listed) (fleet, 0) in
    (fleet', ltb 0 changes)

-- The probes of one system, one after the other, under thresholds that stay as they are.
pub probe_run : ℕ → ℕ → List Reading → System → System
probe_run fail_threshold succ_threshold [] h = h
probe_run fail_threshold succ_threshold (p ∷ ps) h =
    probe_run fail_threshold succ_threshold ps
      (probed p.answered p.at fail_threshold succ_threshold h)
