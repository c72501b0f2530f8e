-- ===== src/Alerts/Evaluate/Stopped.antt =====
-- internal/alerts/evaluator.go: a pass over a rule that a failed call of the store ends early.
use system_wrangler_backend.Prelude.{
  ℕ, ◌≡◌, refl, Bool, true, false, none, some, ◌∷◌, arith, Bytes, bytes_eq,
}
use system_wrangler_backend.Prelude.Maps.{Map, lookup, insert}
use system_wrangler_backend.Alerts.{Instance, firing}
use system_wrangler_backend.Alerts.Evaluate.{
  Call, load, put, reconcile_rule, breach_loop, update_for, begins,
}

module _ {V : Type 0} (rule_id : Bytes) (for_seconds now : ℕ) (fails : Call → Bool) where
  begins_firing :
      (a : Bytes) (v : V)
      → for_seconds ≡ 0
      → (begins rule_id for_seconds now a v).row.state ≡ firing
  unfolding begins
  begins_firing a v zero_for = ground arith

  -- The pass of a rule without a delay, when the put of the second breaching system fails.
  pub stopped :
      (a b : Bytes) (v w : V) (rest : Map Bytes V) (rows : Map Bytes (Instance V))
      → for_seconds ≡ 0
      → lookup a rows ≡ none
      → fails load ≡ false
      → fails (put a) ≡ false
      → fails (put b) ≡ true
      → (inst : Instance V) × (inst.state ≡ firing)
        × ((reconcile_rule rule_id for_seconds now fails (some ((a, v) ∷ (b, w) ∷ rest)) rows).rows
            ≡ insert a inst rows)
        × ((reconcile_rule rule_id for_seconds now fails
              (some ((a, v) ∷ (b, w) ∷ rest))
              rows).failed
            ≡ true)
  unfolding reconcile_rule breach_loop update_for
  stopped a b v w rest rows zero_for absent loads puts fails_then =
      rw (loads, puts, fails_then, absent)
        ((begins rule_id for_seconds now a v).row, begins_firing a v zero_for, refl, refl)
