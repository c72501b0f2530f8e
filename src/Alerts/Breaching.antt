-- ===== src/Alerts/Breaching.antt =====
-- internal/alerts/evaluator.go: which systems breach a rule.
use system_wrangler_backend.Prelude.{
  ◌&&◌, Option, none, some, List, [], ◌∷◌, any, if◌then◌else◌, Bytes, bytes_eq, ◌==◌,
}
use system_wrangler_backend.Prelude.Maps.{Map, insert}
use system_wrangler_backend.Systems.{System, unreachable, status_eq}
use system_wrangler_backend.Alerts.{
  Floats, Comparator, breaches, ConditionKind, kind_metric, kind_promql, kind_unreachable,
  kind_other, Rule,
}
use system_wrangler_backend.Alerts.Catalog.{metric_expr}

-- `breachingSystems`, with the answer of `targeting.Resolve` and the querier, if there is one.
module _ {V : Type 0} (f : Floats V) where
  -- `breaching[s.ID] = 1` for the systems that are unreachable.
  pub unreachable_systems : List System → Map Bytes V → Map Bytes V
  unreachable_systems [] found = found
  unreachable_systems (s ∷ rest) found =
      unreachable_systems rest
        (if status_eq s.status unreachable then insert s.id f.one found else found)

  pub breaching_values : List System → Comparator → V → Map Bytes V → Map Bytes V → Map Bytes V
  breaching_values candidates c threshold [] found = found
  breaching_values candidates c threshold ((sys, v) ∷ rest) found =
      breaching_values candidates c threshold rest (
        if any (λ s. s.id == sys) candidates && breaches f c v threshold
        then insert sys v found
        else found)

  query_values :
      Option (Bytes → Option (Map Bytes V)) → Bytes → List System → Rule V → Option (Map Bytes V)
  unfolding breaching_values
  query_values none expr candidates r = some []
  query_values (some querier) expr candidates r = elim (querier expr) [
    | none ↦ none
    | some values ↦ some (breaching_values candidates r.comparator r.threshold values [])
  ]

  by_condition :
      Option (Bytes → Option (Map Bytes V))
      → List System
      → Rule V
      → ConditionKind
      → Option (Map Bytes V)
  unfolding query_values unreachable_systems
  by_condition querier candidates r kind_unreachable = some (unreachable_systems candidates [])
  by_condition querier candidates r kind_metric =
      query_values querier (metric_expr r.metric) candidates r
  by_condition querier candidates r kind_promql = query_values querier r.expr candidates r
  by_condition querier candidates r (kind_other _) = none

  unfoldable pub breaching_systems :
      Option (Bytes → Option (Map Bytes V)) → Option (List System) → Rule V → Option (Map Bytes V)
  unfolding by_condition
  breaching_systems querier none r = none
  breaching_systems querier (some candidates) r = by_condition querier candidates r r.condition_kind
