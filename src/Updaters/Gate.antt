-- ===== src/Updaters/Gate.antt =====
-- internal/updaters/gate.go: the FIFO concurrency limiter. Each operation runs under the mutex and
-- is one function; a waiter's channel is a number, and closing it is the list of channels that an
-- operation returns. `Limit` is read anew by each admission decision: an arrival takes the value
-- that it reads, and a release the sequence of values that its loop reads, one before each hand-over.
-- `none` is a nil `Limit`, and the numbers below 1 that it may return are all read as 0 here.
pub mod Handoff
pub mod Runs
mod Tests
use system_wrangler_backend.Prelude.{
  ℕ, zero, suc, ◌+◌, ◌-◌, Bool, true, false, Option, none, some, List, [], ◌∷◌, ◌++◌, ltb,
  if◌then◌else◌, ◌==◌, nat_eq, length,
}

pub record Gate : Type 0 where
  pub active : ℕ
  pub waiters : List ℕ

abbrev pub default_limit : ℕ
default_limit = 4

unfoldable pub limit : Option ℕ → ℕ
limit none = default_limit
limit (some n) = if ltb n 1 then default_limit else n

-- The first part of `Acquire`: true if the caller has its slot at once.
pub acquire : Option ℕ → ℕ → Gate → Gate × Bool
acquire l ch g =
    if ltb g.active (limit l)
    then (record g { active = g.active + 1 }, true)
    else (record g { waiters = g.waiters ++ ch ∷ [] }, false)

-- The loop of `releaseLocked` over the waiters that are left, from its pass `n` on, with the
-- channels that it closes.
hand_off : (ℕ → Option ℕ) → ℕ → ℕ → List ℕ → Gate × List ℕ
hand_off reads n active [] = (record { active = active; waiters = [] }, [])
hand_off reads n active (next ∷ rest) =
    let r = hand_off reads (n + 1) (active + 1) rest in
    if ltb active (limit (reads n))
    then (r.0, next ∷ r.1)
    else (record { active = active; waiters = next ∷ rest }, [])

pub release_locked : (ℕ → Option ℕ) → Gate → Gate × List ℕ
release_locked reads g =
    hand_off reads 0 (if ltb 0 g.active then g.active - 1 else g.active) g.waiters

pub release : (ℕ → Option ℕ) → Gate → Gate × List ℕ
release reads g = release_locked reads g

-- The loop that dequeues the caller: `none` if it is not in the queue.
pub dequeue : ℕ → List ℕ → Option (List ℕ)
dequeue ch [] = none
dequeue ch (w ∷ ws) =
    let rest = dequeue ch ws in
    if w == ch then some ws else elim rest [ none ↦ none | some r ↦ some (w ∷ r) ]

-- The part of `Acquire` behind `<-ctx.Done()`.
pub cancel : (ℕ → Option ℕ) → ℕ → Gate → Gate × List ℕ
cancel reads ch g = elim (dequeue ch g.waiters) [
  | some ws ↦ (record g { waiters = ws }, [])
  | none ↦ release_locked reads g
]

pub active_count : Gate → ℕ
active_count g = g.active

pub waiting_count : Gate → ℕ
waiting_count g = length g.waiters
