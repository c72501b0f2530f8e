-- ===== src/Updaters/Gate/Handoff.antt =====
-- internal/updaters/gate.go, `releaseLocked`: who gets the slot that is given back.
use system_wrangler_backend.Prelude.{
  ℕ, ◌+◌, ◌-◌, ◌≤◌, ◌≡◌, ◌⊎◌, inl, refl, Option, List, [], ◌∷◌, ◌++◌, arith, ltb, max,
  if◌then◌else◌, length,
}
use system_wrangler_backend.Updaters.Gate.{Gate, limit, hand_off, release_locked}

-- Whatever limits the passes read.
module _ (reads : ℕ → Option ℕ) where
  hand_off-fifo :
      (n a : ℕ) (ws : List ℕ) → (hand_off reads n a ws).1 ++ (hand_off reads n a ws).0.waiters ≡ ws
  unfolding hand_off
  hand_off-fifo n a [] = refl
  hand_off-fifo n a (w ∷ ws) = ground (arith, hand_off-fifo (n + 1) (a + 1) ws)

  hand_off-active :
      (n a : ℕ) (ws : List ℕ)
      → (hand_off reads n a ws).0.active ≡ a + length (hand_off reads n a ws).1
  unfolding hand_off
  hand_off-active n a [] = omega arith
  hand_off-active n a (w ∷ ws) = ground (arith, hand_off-active (n + 1) (a + 1) ws)

  -- A release closes the channels of the first waiters, in their order, and keeps the others
  -- queued; each of them takes a slot.
  pub release-hands_off :
      (g : Gate)
      → ((release_locked reads g).1 ++ (release_locked reads g).0.waiters ≡ g.waiters)
        × ((release_locked reads g).0.active ≡ g.active - 1 + length (release_locked reads g).1)
  unfolding release_locked
  release-hands_off g =
      let a = if ltb 0 g.active then g.active - 1 else g.active in
      (hand_off-fifo 0 a g.waiters, ground (arith, hand_off-active 0 a g.waiters))

-- Where every pass reads the same limit.
module _ (l : Option ℕ) where
  hand_off-bound : (n a : ℕ) (ws : List ℕ) → (hand_off (λ _. l) n a ws).0.active ≤ max a (limit l)
  unfolding hand_off
  hand_off-bound n a [] = omega arith
  hand_off-bound n a (w ∷ ws) = ground (arith, hand_off-bound (n + 1) (a + 1) ws)

  hand_off-full :
      (n a : ℕ) (ws : List ℕ)
      → ((hand_off (λ _. l) n a ws).0.waiters ≡ [])
        ⊎ (limit l ≤ (hand_off (λ _. l) n a ws).0.active)
  unfolding hand_off
  hand_off-full n a [] = inl refl
  hand_off-full n a (w ∷ ws) = ground (arith, hand_off-full (n + 1) (a + 1) ws)

  -- No slot is handed out beyond the limit, and a slot stays free only if nobody is left to wait
  -- for it.
  pub release-fills :
      (g : Gate)
      → ((release_locked (λ _. l) g).0.active ≤ max (g.active - 1) (limit l))
        × (((release_locked (λ _. l) g).0.waiters ≡ [])
            ⊎ (limit l ≤ (release_locked (λ _. l) g).0.active))
  unfolding release_locked
  release-fills g =
      let a = if ltb 0 g.active then g.active - 1 else g.active in
      (ground (arith, hand_off-bound 0 a g.waiters), hand_off-full 0 a g.waiters)
