-- ===== src/Alerts/Tests.antt =====
-- internal/alerts: runs, and the theorems at concrete inputs.
use system_wrangler_backend.Prelude.{
  ℕ, ◌*◌, ◌==◌, ◌≡◌, refl, Bool, true, false, none, some, [], ◌∷◌, Bytes, codes, bytes_eq, ltb, leb,
}
use system_wrangler_backend.Prelude.Eq.{bytes_beq}
use system_wrangler_backend.Prelude.Maps.{Map, lookup, insert}
use system_wrangler_backend.Systems.{System, unreachable}
use system_wrangler_backend.Alerts.{
  Floats, greater_than, kind_unreachable, Rule, pending, Instance, fired, second,
}
use system_wrangler_backend.Alerts.Breaching.{breaching_systems}
use system_wrangler_backend.Alerts.Catalog.{is_metric}
use system_wrangler_backend.Alerts.Evaluate.{
  Call, load, put, delete_row, reconcile_rule, has, is_due,
}
use system_wrangler_backend.Alerts.Evaluate.Reconciled.{news}
use system_wrangler_backend.Alerts.Evaluate.Machine.{
  alert_of, next_alert, announced, alert_of-reconcile_rule, news-announced,
}
use system_wrangler_backend.Alerts.Once.{evaluate_once, rows_or_empty}
use system_wrangler_backend.Alerts.Once.Lost.{Passes, IsLost, evaluate_once-IsLost}

abbrev web : Bytes
web = codes "web"

abbrev db : Bytes
db = codes "db"

abbrev down : Bytes
down = codes "down"

abbrev percents : Floats ℕ
percents = record { gt = λ a b. ltb b a; ge = λ a b. leb b a; lt = ltb; le = leb; one = 1 }

abbrev machine : Bytes → System
machine id = record {
  id = id;
  name = id;
  hostname = id;
  created_at = 0;
  status = unreachable;
  last_seen = none;
  group_id = none;
  is_windows = false;
  os_family = [];
  os_distribution = [];
  virtualization = [];
  reboot_required_at = none;
  consecutive_failures = 3;
  consecutive_successes = 0;
}

abbrev rule : Rule ℕ
rule = record {
  id = down;
  condition_kind = kind_unreachable;
  metric = [];
  expr = [];
  comparator = greater_than;
  threshold = 0;
  for_seconds = 0;
}

abbrev waiting_row : Instance ℕ
waiting_row = record {
  rule_id = down;
  system_id = web;
  state = pending;
  value = 91;
  first_breach_at = 0;
  fired_at = none;
  last_eval_at = 0;
}

abbrev row_of_web : Map Bytes (Instance ℕ)
row_of_web = (web, waiting_row) ∷ []

abbrev web_breaches : Map Bytes ℕ
web_breaches = (web, 95) ∷ []

abbrev all_well : Call → Bool
all_well c = false

-- The put of the second system fails.
abbrev second_put : Bytes → Call → Bool
second_put r load = false
second_put r (put id) = id == db
second_put r (delete_row id) = false

cpu-is_metric : is_metric (codes "cpu_busy_pct") ≡ true
unfolding is_metric lookup bytes_beq
cpu-is_metric = refl

fires_after_a_minute :
    news web
      (reconcile_rule down 60 (60 * second) all_well (some web_breaches) row_of_web).transitions
    ≡ fired ∷ []
unfolding news reconcile_rule lookup bytes_beq is_due
fires_after_a_minute = refl

alert_of-reconcile_rule_example :
    alert_of (
      lookup web
        (reconcile_rule down 60 (60 * second) all_well (some web_breaches) row_of_web).rows)
    ≡ next_alert 60 (60 * second) (has (lookup web web_breaches)) (alert_of (lookup web row_of_web))
unfolding lookup
alert_of-reconcile_rule_example =
    alert_of-reconcile_rule down 60 (60 * second) all_well web_breaches row_of_web web (λ c. refl)
      (refl, tt)

news-announced_example :
    news web
      (reconcile_rule down 60 (60 * second) all_well (some web_breaches) row_of_web).transitions
    ≡ announced (alert_of (lookup web row_of_web)) (
        alert_of (
          lookup web
            (reconcile_rule down 60 (60 * second) all_well (some web_breaches) row_of_web).rows))
unfolding lookup
news-announced_example =
    news-announced down 60 (60 * second) all_well web_breaches row_of_web web (λ c. refl) (refl, tt)
      (refl, tt)

abbrev other_rule : Rule ℕ
other_rule = record rule { id = codes "cpu" }

-- The first system goes on breaching.
abbrev two_passes : Passes ℕ
two_passes = (10, web_breaches) ∷ (20, web_breaches) ∷ []

evaluate_once-IsLost_example :
    IsLost down web two_passes
      (evaluate_once percents 5
        (λ r. some (machine web ∷ machine db ∷ []))
        none
        second_put
        (some (other_rule ∷ rule ∷ other_rule ∷ []))
        [])
      (evaluate_once percents 5
        (λ r. some (machine web ∷ machine db ∷ []))
        none
        second_put
        (some (other_rule ∷ other_rule ∷ []))
        [])
unfolding breaching_systems lookup insert rows_or_empty bytes_beq has
evaluate_once-IsLost_example =
    evaluate_once-IsLost percents 5 (λ r. some (machine web ∷ machine db ∷ [])) none second_put
      (other_rule ∷ []) rule (other_rule ∷ []) [] web db 1 1 [] two_passes (refl, tt) (refl, tt)
      refl refl refl tt refl refl refl (((refl, tt), refl), (((refl, tt), refl), tt))
