-- ===== src/Alerts/Evaluate/Machine.antt =====
-- internal/alerts/evaluator.go: the machine of one pair of a rule and a system, and that a pass over a rule
-- moves the pair of each system through it.
use system_wrangler_backend.Prelude.{
  ℕ, ◌+◌, ◌*◌, ◌≡◌, refl, ◌∙◌, Bool, true, false, Option, none, some, List, [], ◌∷◌, ◌++◌, arith,
  leb, if◌then◌else◌, Bytes, bytes_eq, bytes_beq_iff, nat_beq, beq_self,
}
use system_wrangler_backend.Prelude.Maps.{Map, lookup, Distinct}
use system_wrangler_backend.Alerts.{
  State, pending, firing, Instance, TransitionKind, fired, resolved, second,
}
use system_wrangler_backend.Alerts.Evaluate.{
  Call, update_for, cleared, is_firing, is_due, reconcile_rule, begins, goes_on, has,
}
use system_wrangler_backend.Alerts.Evaluate.Reconciled.{news}
use system_wrangler_backend.Alerts.Evaluate.Reconciled.Loops.{
  put_over, put_news, drop_unless, clear_news, lookup-reconcile_rule, news-reconcile_rule,
}

-- Nothing is wrong; the condition holds since an instant; the alert is out.
pub data Alert : Type 0 where
  quiet live : Alert
  waiting : ℕ → Alert

alert_of_state : State → ℕ → Alert
alert_of_state pending first = waiting first
alert_of_state firing first = live

unfoldable pub alert_of : {V : Type 0} → Option (Instance V) → Alert
unfolding alert_of_state
alert_of none = quiet
alert_of (some inst) = alert_of_state inst.state inst.first_breach_at

-- The machine: whether the system breaches the rule now, and the alert before.
unfoldable pub next_alert : ℕ → ℕ → Bool → Alert → Alert
next_alert for_seconds now false a = quiet
next_alert for_seconds now true quiet = if nat_beq for_seconds 0 then live else waiting now
next_alert for_seconds now true (waiting since) =
    if leb (since + for_seconds * second) now then live else waiting since
next_alert for_seconds now true live = live

-- What is to be announced when an alert changes.
unfoldable pub announced : Alert → Alert → List TransitionKind
announced live live = []
announced live _ = resolved ∷ []
announced _ live = fired ∷ []
announced _ _ = []

module _ {V : Type 0} (rule_id : Bytes) (for_seconds now : ℕ) where
  alert_of_row :
      (j : Bytes) (b : Option V) (o : Option (Instance V))
      → alert_of
          (drop_unless rule_id for_seconds now b o (put_over rule_id for_seconds now j b o o))
        ≡ next_alert for_seconds now (has b) (alert_of o)
  unfolding drop_unless put_over alert_of next_alert update_for begins goes_on has is_due
      alert_of_state
  alert_of_row j none none = refl
  alert_of_row j none (some inst) = refl
  alert_of_row j (some v) none = ground arith
  alert_of_row j (some v) (some inst) = ground arith

  news_of_row :
      (j : Bytes) (b : Option V) (o : Option (Instance V))
      → put_news rule_id for_seconds now j b o ++ clear_news rule_id for_seconds now j b o
        ≡ announced (alert_of o) (next_alert for_seconds now (has b) (alert_of o))
  unfolding put_news clear_news cleared alert_of next_alert update_for begins goes_on has announced
      news is_due is_firing alert_of_state
  news_of_row j none none = refl
  news_of_row j none (some inst) = ground (arith, beq_self j, bytes_beq_iff j j)
  news_of_row j (some v) none = ground (arith, beq_self j, bytes_beq_iff j j)
  news_of_row j (some v) (some inst) = ground (arith, beq_self j, bytes_beq_iff j j)

  module _ (fails : Call → Bool) (breaching : Map Bytes V) (rows : Map Bytes (Instance V))
      (j : Bytes) (works : (c : Call) → fails c ≡ false) (d : Distinct breaching) where
    pub alert_of-reconcile_rule :
        alert_of
          (lookup j (reconcile_rule rule_id for_seconds now fails (some breaching) rows).rows)
        ≡ next_alert for_seconds now (has (lookup j breaching)) (alert_of (lookup j rows))
    alert_of-reconcile_rule =
        rw (lookup-reconcile_rule rule_id for_seconds now fails works breaching rows d j)
          (alert_of_row j (lookup j breaching) (lookup j rows))

    pub news-announced :
        Distinct rows
        → news j (reconcile_rule rule_id for_seconds now fails (some breaching) rows).transitions
          ≡ announced (alert_of (lookup j rows)) (
              alert_of (
                lookup j (reconcile_rule rule_id for_seconds now fails (some breaching) rows).rows))
    news-announced h = rw alert_of-reconcile_rule (
        news-reconcile_rule rule_id for_seconds now fails works breaching rows d j h
        ∙ news_of_row j (lookup j breaching) (lookup j rows))
