-- ===== src/Alerts/Evaluate.antt =====
-- internal/alerts/evaluator.go. A map is the list of its entries in the order in which a loop meets them.
-- The rows of one rule are a map from the system id, which with the rule id is their key, so they are
-- `byID` at once; the store maps each rule id to its rows. Which calls of the store fail is a parameter.
pub mod Reconciled
pub mod Stopped
pub mod Machine
pub mod Rows
use system_wrangler_backend.Prelude.{
  ℕ, zero, suc, ◌+◌, ◌*◌, Bool, true, false, ◌&&◌, ◌||◌, not, Option, none, some, List, [], ◌∷◌,
  ◌++◌, leb, any, if◌then◌else◌, Bytes, bytes_eq, ◌==◌, nat_beq,
}
use system_wrangler_backend.Prelude.Maps.{Map, lookup, insert, delete}
use system_wrangler_backend.Alerts.{
  Floats, breaches, ConditionKind, kind_metric, kind_promql, kind_unreachable, kind_other, Rule,
  State, pending, firing, Instance, TransitionKind, fired, resolved, Transition, second,
}

-- The calls of the store about one rule.
pub data Call : Type 0 where
  load : Call
  put delete_row : Bytes → Call

-- What a pass over one rule has done so far.
pub record Pass (V : Type 0) : Type 0 where
  pub rows : Map Bytes (Instance V)
  pub transitions : List (Transition V)
  pub changed : Bool
  pub failed : Bool

-- What the first loop makes of one breaching system: the row that it puts, the transition that it
-- adds before the call, and whether it marks the set as changed before and after the call.
pub record Update (V : Type 0) : Type 0 where
  pub row : Instance V
  pub emitted : List (Transition V)
  pub marks_before : Bool
  pub marks_after : Bool

-- `inst.State == StatePending && now.Sub(inst.FirstBreachAt) >= forDur`
unfoldable pub is_due : ℕ → ℕ → State → ℕ → Bool
is_due for_seconds now pending first = leb (first + for_seconds * second) now
is_due for_seconds now firing first = false

pub is_firing : State → Bool
is_firing pending = false
is_firing firing = true

unfoldable pub has : {V : Type 0} → Option V → Bool
has none = false
has (some _) = true

module _ {V : Type 0} (rule_id : Bytes) (for_seconds now : ℕ) where
  abbrev pub transition : TransitionKind → Bytes → V → Transition V
  transition kind sys value = record {
    rule_id = rule_id;
    system_id = sys;
    value = value;
    kind = kind;
    at = now;
  }

  pub begins : Bytes → V → Update V
  begins sys value =
      let inst : Instance V = record {
        rule_id = rule_id;
        system_id = sys;
        state = pending;
        value = value;
        first_breach_at = now;
        fired_at = none;
        last_eval_at = now;
      } in
      if nat_beq for_seconds 0
      then record {
        row = record inst { state = firing; fired_at = some now };
        emitted = transition fired sys value ∷ [];
        marks_before = false;
        marks_after = true;
      }
      else record { row = inst; emitted = []; marks_before = false; marks_after = true }

  pub goes_on : Bytes → V → Instance V → Update V
  goes_on sys value old =
      let inst = record old { value = value; last_eval_at = now } in
      if is_due for_seconds now old.state old.first_breach_at
      then record {
        row = record inst { state = firing; fired_at = some now };
        emitted = transition fired sys value ∷ [];
        marks_before = true;
        marks_after = false;
      }
      else record { row = inst; emitted = []; marks_before = false; marks_after = false }

  pub update_for : Bytes → V → Option (Instance V) → Update V
  unfolding begins goes_on
  update_for sys value none = begins sys value
  update_for sys value (some old) = goes_on sys value old

  -- What the second loop adds for a row that it has deleted.
  pub cleared : Bytes → Instance V → List (Transition V)
  cleared sys inst = if is_firing inst.state then transition resolved sys inst.value ∷ [] else []

  module _ (fails : Call → Bool) where
    unfoldable pub breach_loop : Map Bytes (Instance V) → Map Bytes V → Pass V → Pass V
    unfolding update_for
    breach_loop old [] done = done
    breach_loop old ((sys, value) ∷ rest) done =
        let u = update_for sys value (lookup sys old) in
        let before : Pass V = record done {
          transitions = done.transitions ++ u.emitted;
          changed = done.changed || u.marks_before;
        } in
        let after : Pass V = record before {
          rows = insert sys u.row before.rows;
          changed = before.changed || u.marks_after;
        } in
        if fails (put sys) then record before { failed = true } else breach_loop old rest after

    unfoldable pub resolve_loop : Map Bytes V → Map Bytes (Instance V) → Pass V → Pass V
    unfolding has cleared
    resolve_loop breaching [] done = done
    resolve_loop breaching ((sys, inst) ∷ rest) done =
        let after : Pass V = record done {
          rows = delete sys done.rows;
          changed = true;
          transitions = done.transitions ++ cleared sys inst;
        } in
        let stop : Pass V = record done { failed = true } in
        if has (lookup sys breaching)
        then resolve_loop breaching rest done
        else if fails (delete_row sys)
        then stop
        else resolve_loop breaching rest after

    -- `evaluateRule`, with the breaching systems: none where they could not be found.
    unfoldable pub reconcile_rule : Option (Map Bytes V) → Map Bytes (Instance V) → Pass V
    unfolding breach_loop resolve_loop
    reconcile_rule none rows = record {
      rows = rows;
      transitions = [];
      changed = false;
      failed = true;
    }
    reconcile_rule (some breaching) rows =
        let start : Pass V = record {
          rows = rows;
          transitions = [];
          changed = false;
          failed = false;
        } in
        let first = breach_loop rows breaching start in
        if fails load
        then record start { failed = true }
        else if first.failed
        then first
        else resolve_loop breaching rows first
