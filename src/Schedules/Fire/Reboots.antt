-- ===== src/Schedules/Fire/Reboots.antt =====
-- internal/schedules/orchestrator.go and reboot.go: when a system is rebooted.
use system_wrangler_backend.Prelude.{
  ◌≡◌, refl, sym, subst, Bool, true, false, ◌&&◌, List, [], ◌∷◌, ◌++◌, All, In, arith, Bytes, inl,
  inr, ◌⊎◌, Bool-cases, false≢true,
}
use system_wrangler_backend.Schedules.Entry.{Schedule}
use system_wrangler_backend.Schedules.Fanout.{
  FanOutAction, fan_out_check, fan_out_apply, FanOutResult, Call, run_updater, reboot, clear_flag,
  World, fan_out_on_system, is_fine, reboot_if_required,
}
use system_wrangler_backend.Schedules.Fanout.Tally.{AreRuns, fan_out_on_system-tallied}
use system_wrangler_backend.Schedules.Fire.{sweep_if, reboot_host, then_host, host}

All-append : (P : Call → Type 0) (xs ys : List Call) → All P xs → All P ys → All P (xs ++ ys)
All-append P [] ys h k = k
All-append P (x ∷ xs) ys (p, h) k = (p, All-append P xs ys h k)

All-imp : (P Q : Call → Type 0) (xs : List Call) → ((c : Call) → P c → Q c) → All P xs → All Q xs
All-imp P Q [] f h = tt
All-imp P Q (x ∷ xs) f (p, h) = (f x p, All-imp P Q xs f h)

All-In : (P : Call → Type 0) (xs : List Call) (c : Call) → All P xs → In c xs → P c
All-In P [] c h i = absurd i
All-In P (x ∷ xs) c (p, h) (inl e) = subst P e p
All-In P (x ∷ xs) c (p, h) (inr i) = All-In P xs c h i

fine_result : (w : World) (id : Bytes) (r : FanOutResult) → is_fine w id r ≡ true → r.failed ≡ 0
unfolding is_fine
fine_result w id r h = ground arith

reboot_not_run : (x id u : Bytes) (a : FanOutAction) → reboot x ≡ run_updater a id u → ⊥
reboot_not_run x id u a h = cc

reboot_not_clear : (x id : Bytes) → reboot x ≡ clear_flag id → ⊥
reboot_not_clear x id h = cc

run_not_clear : (y u id : Bytes) (a : FanOutAction) → run_updater a y u ≡ clear_flag id → ⊥
run_not_clear y u id a h = cc

module _ (w : World) (sch : Schedule) (can_reboot : Bool) (id : Bytes) where
  abbrev IsRun : Call → Type 0
  IsRun c = (action : FanOutAction) × (u : Bytes) × (c ≡ run_updater action id u)

  abbrev IsGoodRun : Call → Type 0
  IsGoodRun c =
      (action : FanOutAction) × (u : Bytes) × (c ≡ run_updater action id u)
      × (w.run action id u ≡ true)

  abbrev IsDueReboot : Call → Type 0
  IsDueReboot c =
      ((c ≡ reboot id) ⊎ (c ≡ clear_flag id))
      × (sch.reboot_after_apply ≡ true)
      × (sch.run_apply ≡ true)
      × (w.is_reboot_required id ≡ true)

  -- Sweeps: only runs, and good ones if all is well.
  abbrev IsOrderly : Bool × List Call → Type 0
  IsOrderly m = All IsRun m.1 × (m.0 ≡ true → All IsGoodRun m.1)

  sweep-IsOrderly :
      (wanted : Bool) (action : FanOutAction)
      → IsOrderly (sweep_if w sch can_reboot wanted action id)
  unfolding sweep_if
  sweep-IsOrderly false action = (tt, λ _. tt)
  sweep-IsOrderly true action =
      let (r, calls) = fan_out_on_system w id action in
      let runs : AreRuns w id action r calls = (fan_out_on_system-tallied w id action).1 in
      (
        All-imp _ IsRun calls (λ c (u, e, _). (action, u, e)) runs,
        λ fine.
            All-imp _ IsGoodRun calls
              (λ c (u, e, good). (action, u, e, good (fine_result w id r fine))) runs,
      )

  then-IsOrderly :
      (m n : Bool × List Call)
      → IsOrderly m
      → IsOrderly n
      → IsOrderly (then_host w sch can_reboot m n)
  unfolding then_host
  then-IsOrderly (true, xs) (b, ys) (h, g) (h', g') =
      (All-append IsRun xs ys h h', λ e. All-append IsGoodRun xs ys (g refl) (g' e))
  then-IsOrderly (false, xs) n (h, g) k = (h, λ e. absurd (false≢true e))

  reboot-IsDueReboot : All IsDueReboot (reboot_host w sch can_reboot id).1
  unfolding reboot_host reboot_if_required
  reboot-IsDueReboot = elim (Bool-cases (sch.reboot_after_apply && sch.run_apply && can_reboot)) [
    | inr e ↦ rw e tt
    | inl e ↦ elim (Bool-cases (w.is_found id)) [
      | inr f ↦ rw (e, f) tt
      | inl f ↦ elim (Bool-cases (w.is_reboot_required id)) [
        | inr q ↦ rw (e, f, q) tt
        | inl q ↦
            let after : sch.reboot_after_apply ≡ true = ground (arith, e) in
            let applied : sch.run_apply ≡ true = ground (arith, e) in
            elim (Bool-cases (w.reboots id)) [
              | inr g ↦ rw (e, f, q, g) ((inl refl, after, applied, q), tt)
              | inl g ↦
                  rw (e, f, q, g)
                    ((inl refl, after, applied, q), ((inr refl, after, applied, q), tt))
            ]
      ]
    ]
  ]

  -- Only runs, or good runs and calls of a reboot.
  abbrev IsCareful : List Call → Type 0
  IsCareful calls = All IsRun calls ⊎ All (λ c. IsGoodRun c ⊎ IsDueReboot c) calls

  then-IsCareful :
      (m n : Bool × List Call)
      → IsOrderly m
      → All IsDueReboot n.1
      → IsCareful (then_host w sch can_reboot m n).1
  unfolding then_host
  then-IsCareful (true, xs) (b, ys) (h, g) k = inr (
      All-append _ xs ys (All-imp IsGoodRun _ xs (λ c p. inl p) (g refl))
        (All-imp IsDueReboot _ ys (λ c p. inr p) k))
  then-IsCareful (false, xs) n (h, g) k = inl h

  host-IsCareful : IsCareful (host w sch can_reboot id).1
  unfolding host
  host-IsCareful =
      then-IsCareful _ _
        (then-IsOrderly _ _ (sweep-IsOrderly sch.run_check fan_out_check)
          (sweep-IsOrderly sch.run_apply fan_out_apply))
        reboot-IsDueReboot

  of_reboot :
      (x : Bytes)
      → IsGoodRun (reboot x) ⊎ IsDueReboot (reboot x)
      → IsDueReboot (reboot x) × (x ≡ id)
  of_reboot x (inl (a, u, e, _)) = absurd (reboot_not_run x id u a e)
  of_reboot x (inr (inl e, a, b, c)) = ((inl e, a, b, c), cc)
  of_reboot x (inr (inr e, a, b, c)) = absurd (reboot_not_clear x id e)

  of_run :
      (a : FanOutAction) (y u : Bytes)
      → IsGoodRun (run_updater a y u) ⊎ IsDueReboot (run_updater a y u)
      → w.run a y u ≡ true
  of_run a y u (inl (b, v, e, good)) =
      let same : run_updater b id v ≡ run_updater a y u = sym e in
      let same_a : b ≡ a = cc in
      let same_y : id ≡ y = cc in let same_u : v ≡ u = cc in rw (← same_a, ← same_y, ← same_u) good
  of_run a y u (inr (inl e, _, _, _)) = absurd (reboot_not_run id y u a (sym e))
  of_run a y u (inr (inr e, _, _, _)) = absurd (run_not_clear y u id a e)

  -- The work on a system reboots only that system, only where the schedule asks for a reboot behind an
  -- apply and the flag of the system is set, and only where each updater that the work has run ended well.
  pub host-reboots :
      (x : Bytes)
      → In (reboot x) (host w sch can_reboot id).1
      → (x ≡ id)
        × (sch.reboot_after_apply ≡ true)
        × (sch.run_apply ≡ true)
        × (w.is_reboot_required id ≡ true)
        × ((a : FanOutAction) (y u : Bytes)
            → In (run_updater a y u) (host w sch can_reboot id).1
            → w.run a y u ≡ true)
  host-reboots x i = elim host-IsCareful [
    | inl runs ↦
        let (a, u, e) = All-In IsRun _ (reboot x) runs i in absurd (reboot_not_run x id u a e)
    | inr careful ↦
        let ((_, after, applied, required), same) = of_reboot x (All-In _ _ (reboot x) careful i) in
        (
          same,
          after,
          applied,
          required,
          λ a y u j. of_run a y u (All-In _ _ (run_updater a y u) careful j),
        )
  ]
