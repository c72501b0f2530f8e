-- ===== src/Alerts/Once.antt =====
-- internal/alerts/evaluator.go: `evaluateRule` and `EvaluateOnce`. Parameters: the clock reading, the
-- answer of `targeting.Resolve` for a rule, the querier, and which calls of the store fail.
pub mod Others
pub mod Lost
use system_wrangler_backend.Prelude.{
  ℕ, Bool, true, false, ◌||◌, Option, none, some, List, [], ◌∷◌, ◌++◌, if◌then◌else◌, Bytes,
  bytes_eq,
}
use system_wrangler_backend.Prelude.Maps.{Map, lookup, insert}
use system_wrangler_backend.Systems.{System}
use system_wrangler_backend.Alerts.{Floats, Rule, Instance, Transition}
use system_wrangler_backend.Alerts.Breaching.{breaching_systems}
use system_wrangler_backend.Alerts.Evaluate.{Call, Pass, reconcile_rule}

abbrev pub Rows : Type 0 → Type 0
Rows V = Map Bytes (Map Bytes (Instance V))

-- `InstancesForRule`
unfoldable pub rows_or_empty :
    {V : Type 0} → Option (Map Bytes (Instance V)) → Map Bytes (Instance V)
rows_or_empty none = []
rows_or_empty (some rows) = rows

-- The rows, and what `EvaluateOnce` has gathered for the sink and the hub.
pub record Gathered (V : Type 0) : Type 0 where
  pub store : Rows V
  pub transitions : List (Transition V)
  pub changed : Bool

-- What one turn of the loop over the rules makes of a pass: its rows are stored as they are, and a
-- failed pass adds nothing else.
pub gather : {V : Type 0} → Rule V → Pass V → Gathered V → Gathered V
gather r pass g =
    let stored = record g { store = insert r.id pass.rows g.store } in
    if pass.failed then stored else record stored {
      transitions = g.transitions ++ pass.transitions;
      changed = g.changed || pass.changed;
    }

module _ {V : Type 0} (f : Floats V) (now : ℕ) (resolve : Rule V → Option (List System))
    (querier : Option (Bytes → Option (Map Bytes V))) (fails : Bytes → Call → Bool) where
  pub evaluate_rule : Rule V → Map Bytes (Instance V) → Pass V
  evaluate_rule r rows =
      reconcile_rule r.id r.for_seconds now (fails r.id) (breaching_systems f querier (resolve r) r)
        rows

  unfoldable pub evaluate_rules : List (Rule V) → Gathered V → Gathered V
  unfolding evaluate_rule gather rows_or_empty
  evaluate_rules [] g = g
  evaluate_rules (r ∷ rest) g =
      evaluate_rules rest (gather r (evaluate_rule r (rows_or_empty (lookup r.id g.store))) g)

  -- `EvaluateOnce`, with the enabled rules: none where they could not be listed. The transitions are
  -- those that the sink is given, and the last field says whether the hub is nudged.
  pub evaluate_once : Option (List (Rule V)) → Rows V → Gathered V
  unfolding evaluate_rules
  evaluate_once none store = record { store = store; transitions = []; changed = false }
  evaluate_once (some rules) store =
      evaluate_rules rules (record { store = store; transitions = []; changed = false })
