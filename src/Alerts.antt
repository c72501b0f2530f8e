-- ===== src/Alerts.antt =====
-- internal/alerts: alert rules, and the live state of each pair of a rule and a system. Values of metrics
-- are a parameter, with the comparisons of package math's floats; instants are nanoseconds.
pub mod Catalog
pub mod Breaching
pub mod Evaluate
pub mod Once
mod Tests
use system_wrangler_backend.Prelude.{ℕ, ◌*◌, Bool, true, false, Option, none, some, Bytes}

pub data Comparator : Type 0 where
  greater_than greater_than_equal less_than less_than_equal : Comparator
  other : Bytes → Comparator

-- What the rules need of `float64`: the four comparisons, and 1.
pub record Floats (V : Type 0) : Type 0 where
  pub gt : V → V → Bool
  pub ge : V → V → Bool
  pub lt : V → V → Bool
  pub le : V → V → Bool
  pub one : V

pub breaches : {V : Type 0} → Floats V → Comparator → V → V → Bool
breaches f greater_than value threshold = f.gt value threshold
breaches f greater_than_equal value threshold = f.ge value threshold
breaches f less_than value threshold = f.lt value threshold
breaches f less_than_equal value threshold = f.le value threshold
breaches f (other c) value threshold = false

pub data ConditionKind : Type 0 where
  kind_metric kind_promql kind_unreachable : ConditionKind
  kind_other : Bytes → ConditionKind

-- The fields of a rule that its evaluation reads; a rule that was validated is for 0 seconds or more.
pub record Rule (V : Type 0) : Type 0 where
  pub id : Bytes
  pub condition_kind : ConditionKind
  pub metric : Bytes
  pub expr : Bytes
  pub comparator : Comparator
  pub threshold : V
  pub for_seconds : ℕ

pub data State : Type 0 where
  pending firing : State

-- One row of the live state; its rule and its system are the key of its row.
pub record Instance (V : Type 0) : Type 0 where
  pub rule_id : Bytes
  pub system_id : Bytes
  pub state : State
  pub value : V
  pub first_breach_at : ℕ
  pub fired_at : Option ℕ
  pub last_eval_at : ℕ

pub data TransitionKind : Type 0 where
  fired resolved : TransitionKind

-- A transition names its rule by the id.
pub record Transition (V : Type 0) : Type 0 where
  pub rule_id : Bytes
  pub system_id : Bytes
  pub value : V
  pub kind : TransitionKind
  pub at : ℕ

abbrev pub second : ℕ
second = 1_000_000_000
