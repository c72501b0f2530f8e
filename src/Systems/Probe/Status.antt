-- ===== src/Systems/Probe/Status.antt =====
-- internal/systems: when a system is declared reachable or unreachable.
use system_wrangler_backend.Prelude.{
  ℕ, ◌+◌, ◌≤◌, ◌<◌, ◌≡◌, ◌≢◌, ◌⊎◌, ◌∙◌, Bool, true, false, ◌&&◌, ◌||◌, List, [], ◌∷◌, arith, ltb,
  leb, if◌then◌else◌, length, Bytes, All,
}
use system_wrangler_backend.Systems.Memory.{fresh}
use system_wrangler_backend.Systems.{SystemInput, System, reachable, unreachable, probed}
use system_wrangler_backend.Systems.Probe.{Reading, probe_run}

module _ (f s : ℕ) where
  -- All the readings have this answer.
  abbrev pub AllAnswered : Bool → List Reading → Type 0
  AllAnswered b ps = All (λ (p : Reading). p.answered ≡ b) ps

  module _ (p : Reading) (h : System) where
    one_down :
        p.answered ≡ false
        → (probed p.answered p.at f s h).status
          ≡ (if leb f (h.consecutive_failures + 1) then unreachable else h.status)
    unfolding probed
    one_down e = ground arith

    one_more_down :
        p.answered ≡ false
        → (probed p.answered p.at f s h).consecutive_failures ≡ h.consecutive_failures + 1
    unfolding probed
    one_more_down e = ground arith

    one_up :
        p.answered ≡ true
        → (probed p.answered p.at f s h).status
          ≡ (if leb s (h.consecutive_successes + 1) then reachable else h.status)
    unfolding probed
    one_up e = ground arith

    one_more_up :
        p.answered ≡ true
        → (probed p.answered p.at f s h).consecutive_successes ≡ h.consecutive_successes + 1
    unfolding probed
    one_more_up e = ground arith

    stays_up :
        h.status ≡ reachable
        → p.answered || ltb (h.consecutive_failures + 1) f ≡ true
        → ((probed p.answered p.at f s h).status ≡ reachable)
          × ((probed p.answered p.at f s h).consecutive_failures
              ≡ (if p.answered then 0 else h.consecutive_failures + 1))
    unfolding probed
    stays_up r c = (ground arith, ground arith)

  down_run :
      (p : Reading) (ps : List Reading) (h : System)
      → AllAnswered false (p ∷ ps)
      → (probe_run f s (p ∷ ps) h).status
        ≡ (if leb f (h.consecutive_failures + length (p ∷ ps)) then unreachable else h.status)
  unfolding probe_run
  down_run p [] h a = one_down p h a.0 ∙ ground arith
  down_run p (q ∷ ps) h a =
      down_run q ps (probed p.answered p.at f s h) a.1
      ∙ ground (arith, one_down p h a.0, one_more_down p h a.0)

  up_run :
      (p : Reading) (ps : List Reading) (h : System)
      → AllAnswered true (p ∷ ps)
      → (probe_run f s (p ∷ ps) h).status
        ≡ (if leb s (h.consecutive_successes + length (p ∷ ps)) then reachable else h.status)
  unfolding probe_run
  up_run p [] h a = one_up p h a.0 ∙ ground arith
  up_run p (q ∷ ps) h a =
      up_run q ps (probed p.answered p.at f s h) a.1
      ∙ ground (arith, one_up p h a.0, one_more_up p h a.0)

  -- Every streak of misses is shorter than the threshold, where `n` misses came before.
  abbrev pub calm : ℕ → List Reading → Bool
  calm n [] = true
  calm n (p ∷ ps) =
      let k = if p.answered then 0 else n + 1 in (p.answered || ltb (n + 1) f) && calm k ps

  -- A reachable system stays reachable through any readings in which each streak of misses, the one that
  -- has begun included, is shorter than the threshold.
  pub calm_run :
      (ps : List Reading) (h : System)
      → h.status ≡ reachable
      → calm h.consecutive_failures ps ≡ true
      → (probe_run f s ps h).status ≡ reachable
  unfolding probe_run
  calm_run [] h r c = r
  calm_run (p ∷ ps) h r c =
      let (still, streak) = stays_up p h r (ground arith) in
      calm_run ps (probed p.answered p.at f s h) still (rw streak (ground arith))

  -- What holds between two probes of a system while the thresholds stay as they are.
  pub record IsSteady (h : System) : Type 0 where
    pub one_streak : (h.consecutive_failures ≡ 0) ⊎ (h.consecutive_successes ≡ 0)
    pub not_yet_down : h.status ≢ unreachable → h.consecutive_failures < f
    pub not_yet_up : h.status ≢ reachable → h.consecutive_successes < s

  probed-IsSteady :
      (p : Reading) (h : System)
      → 1 ≤ f
      → 1 ≤ s
      → IsSteady h
      → IsSteady (probed p.answered p.at f s h)
  unfolding probed
  probed-IsSteady p h a b i = ground arith

  run-IsSteady :
      (ps : List Reading) (h : System) → 1 ≤ f → 1 ≤ s → IsSteady h → IsSteady (probe_run f s ps h)
  unfolding probe_run
  run-IsSteady [] h a b i = i
  run-IsSteady (p ∷ ps) h a b i =
      run-IsSteady ps (probed p.answered p.at f s h) a b (probed-IsSteady p h a b i)

  -- A streak of equal answers moves the status exactly when the streak, with what came before it, is as
  -- long as the threshold for that answer; until then the status stays as it was.
  pub streak_status :
      (p : Reading) (ps : List Reading) (h : System)
      → (AllAnswered false (p ∷ ps)
          → (probe_run f s (p ∷ ps) h).status
            ≡ (if leb f (h.consecutive_failures + length (p ∷ ps)) then unreachable else h.status))
        × (AllAnswered true (p ∷ ps)
            → (probe_run f s (p ∷ ps) h).status
              ≡ (if leb s (h.consecutive_successes + length (p ∷ ps)) then reachable else h.status))
  streak_status p ps h = (down_run p ps h, up_run p ps h)

-- A system that was created and then probed in any way, under positive thresholds that stay as they are:
-- it counts misses or answers but not both, fewer misses than the threshold unless it is unreachable,
-- and fewer answers than the threshold unless it is reachable.
pub probed_fresh-IsSteady :
    (f s : ℕ) (id : Bytes) (now : ℕ) (r : SystemInput) (ps : List Reading)
    → 1 ≤ f
    → 1 ≤ s
    → IsSteady f s (probe_run f s ps (fresh id now r))
probed_fresh-IsSteady f s id now r ps a b =
    run-IsSteady f s ps (fresh id now r) a b (unfold fresh in ground arith)
