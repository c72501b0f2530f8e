-- ===== src/Schedules/Fanout/Tally.antt =====
-- internal/schedules/fanout.go: the counts of a sweep, and its calls.
use system_wrangler_backend.Prelude.{
  ℕ, ◌≡◌, ◌+◌, refl, sym, ap, subst, true, none, List, [], ◌∷◌, map, length, All, arith,
  if◌then◌else◌, Bytes, inl, inr, Bool-cases, Option-cases,
}
use system_wrangler_backend.Schedules.Fanout.{
  FanOutAction, FanOutResult, Call, run_updater, World, skip, index_by_id, targets, run_all, sweep,
  fan_out_to, fan_out_over, fan_out_on_system,
}

-- The number of runs that fail.
failures : (w : World) → Bytes → FanOutAction → List Bytes → ℕ
failures w id action [] = 0
failures w id action (u ∷ us) =
    let rest = failures w id action us in if w.run action id u then rest else rest + 1

module _ (w : World) (id : Bytes) (action : FanOutAction) where
  run_all-counts :
      (us : List Bytes) (out : FanOutResult)
      → ((run_all w id action us out).0.failed ≡ out.failed + failures w id action us)
        × ((run_all w id action us out).0.succeeded + failures w id action us
            ≡ out.succeeded + length us)
        × ((run_all w id action us out).0.attempted ≡ out.attempted)
        × ((run_all w id action us out).0.skipped ≡ out.skipped)
        × ((run_all w id action us out).1 ≡ map (λ u. run_updater action id u) us)
  unfolding run_all failures
  run_all-counts [] out = (omega arith, omega arith, refl, refl, refl)
  run_all-counts (u ∷ us) out = elim (Bool-cases (w.run action id u)) [
    | inl e ↦
        let (a, b, c, d, f) = run_all-counts us (record out { succeeded = out.succeeded + 1 }) in
        rw e (a, omega (arith, b), c, d, ap (λ cs. run_updater action id u ∷ cs) f)
    | inr e ↦
        let (a, b, c, d, f) = run_all-counts us (record out { failed = out.failed + 1 }) in
        rw e (omega (arith, a), omega (arith, b), c, d, ap (λ cs. run_updater action id u ∷ cs) f)
  ]

  -- Every call runs an updater of the system with the action, and well if the result counts no failure.
  abbrev pub AreRuns : FanOutResult → List Call → Type 0
  AreRuns r calls =
      All
        (λ c.
          (u : Bytes) × (c ≡ run_updater action id u) × (r.failed ≡ 0 → w.run action id u ≡ true))
        calls

  no_failures :
      (us : List Bytes) (n : ℕ)
      → (n ≡ 0 → failures w id action us ≡ 0)
      → All
          (λ c. (u : Bytes) × (c ≡ run_updater action id u) × (n ≡ 0 → w.run action id u ≡ true))
          (map (λ u. run_updater action id u) us)
  unfolding failures
  no_failures [] n h = tt
  no_failures (u ∷ us) n h =
      ((u, refl, λ e. ground (arith, h e)), no_failures us n (λ e. ground (arith, h e)))

  abbrev IsTallied : FanOutResult × List Call → Type 0
  IsTallied (r, calls) = (r.succeeded + r.failed ≡ r.attempted) × AreRuns r calls

  sweep-IsTallied : (us : List Bytes) → IsTallied (sweep w id action us)
  unfolding sweep skip
  sweep-IsTallied [] = (refl, tt)
  sweep-IsTallied (u ∷ us) =
      let start : FanOutResult = record {
        attempted = length (u ∷ us);
        succeeded = 0;
        failed = 0;
        skipped = none;
      } in
      let (a, b, c, _, f) = run_all-counts (u ∷ us) start in
      (
        omega (arith, a, b, c),
        subst (AreRuns (run_all w id action (u ∷ us) start).0) (sym f)
            (no_failures (u ∷ us) _ (λ e. omega (arith, a, e))),
      )

  -- The numbers of the runs that succeeded and that failed add up to the number attempted, every call runs
  -- an updater on the system with the action, and where no failure is counted every run ends well.
  pub fan_out_on_system-tallied :
      ((fan_out_on_system w id action).0.succeeded + (fan_out_on_system w id action).0.failed
        ≡ (fan_out_on_system w id action).0.attempted)
      × AreRuns (fan_out_on_system w id action).0 (fan_out_on_system w id action).1
  unfolding fan_out_on_system fan_out_over fan_out_to skip
  fan_out_on_system-tallied = elim (Option-cases (w.all action)) [
    | inl e ↦ rw e (refl, tt)
    | inr (defs, e) ↦ elim (Option-cases (w.availability_for action id)) [
      | inl e' ↦ rw (e, e') (refl, tt)
      | inr (avail, e') ↦ rw (e, e') (sweep-IsTallied (targets action (index_by_id avail []) defs))
    ]
  ]
