-- ===== src/Updaters/Gate/Tests.antt =====
-- internal/updaters/gate.go: runs, and the theorems at concrete inputs.
use system_wrangler_backend.Prelude.{
  ◌≤◌, ◌≡◌, ◌⊎◌, refl, true, some, [], ◌∷◌, length, if◌then◌else◌, ◌==◌, nat_eq,
}
use system_wrangler_backend.Updaters.Gate.{
  Gate, limit, acquire, release, release_locked, hand_off, dequeue,
}
use system_wrangler_backend.Updaters.Gate.Runs.{
  World, start, arrived, handed, arrive, give_back, Reach, ReachUnder, Reach-IsCounted, fixed_limit,
}

abbrev busy : Gate
busy = record { active = 2; waiters = 7 ∷ 8 ∷ 9 ∷ [] }

handed_in_order : release (λ _. some 3) busy ≡ (record { active = 3; waiters = 9 ∷ [] }, 7 ∷ 8 ∷ [])
unfolding release release_locked hand_off limit
handed_in_order = refl

-- The limit is raised after the first hand-over.
handed_two :
    release (λ n. if n == 0 then some 2 else some 3) busy
    ≡ (record { active = 3; waiters = 9 ∷ [] }, 7 ∷ 8 ∷ [])
unfolding release release_locked hand_off limit
handed_two = refl

-- After the limit has been raised, a newcomer gets a slot while others wait in the queue.
newcomer_overtakes : (acquire (some 3) 10 busy).1 ≡ true
unfolding acquire limit
newcomer_overtakes = refl

abbrev two_came : World
two_came = arrived (some 1) 6 (arrived (some 1) 5 start)

abbrev first_left : World
first_left = handed (release (λ _. some 1) two_came.gate) []

first_holds : dequeue 5 two_came.holders ≡ some []
unfolding dequeue acquire limit
first_holds = refl

Reach-IsCounted_example : first_left.gate.active ≡ length first_left.holders
Reach-IsCounted_example = Reach-IsCounted (
    Reach.next (λ _. some 1)
      (Reach.next (λ _. some 1) (Reach.next (λ _. some 1) Reach.here (arrive start 5)) (arrive _ 6))
      (give_back two_came 5 [] first_holds))

fixed_limit_example :
    (first_left.gate.active ≤ limit (some 1))
    × ((first_left.gate.waiters ≡ []) ⊎ (limit (some 1) ≤ first_left.gate.active))
    × ((acquire (some 1) 7 first_left.gate).1 ≡ true → first_left.gate.waiters ≡ [])
fixed_limit_example = fixed_limit 7 (
    ReachUnder.next
      (ReachUnder.next (ReachUnder.next ReachUnder.here (arrive start 5)) (arrive _ 6))
      (give_back two_came 5 [] first_holds))
