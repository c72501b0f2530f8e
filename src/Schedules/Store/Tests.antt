-- ===== src/Schedules/Store/Tests.antt =====
-- internal/schedules/sqlite_store.go: runs, and the theorems at concrete inputs.
use system_wrangler_backend.Prelude.{
  ℕ, ◌≡◌, ◌↔◌, ◌*◌, ◌-◌, refl, sym, ap, ◌<◌, subst, true, false, Option, none, some, List, [], ◌∷◌,
  map, In, inl, Bytes, codes,
}
use system_wrangler_backend.Prelude.Eq.{bytes_beq}
use system_wrangler_backend.Prelude.Maps.{lookup}
use system_wrangler_backend.Prelude.Strings.{trim_space, split, fields, cut_at, to_lower, atoi}
use system_wrangler_backend.Schedules.Calendar.{date_of, weekday_of, next_month}
use system_wrangler_backend.Schedules.Cron.{
  parse_cron, five_fields, parse_field, parse_field_starred, parse_terms, parse_term, parse_step,
  parse_range, parse_atom, stamp, is_seven,
}
use system_wrangler_backend.Schedules.Cron.Next.{Zone, next, day_of, hour_of, minute_of}
use system_wrangler_backend.Schedules.Cron.Next.Least.{steady}
use system_wrangler_backend.Schedules.Entry.{
  global, Schedule, ScheduleInput, ok, validate, trimmed, or_utc, validate_trimmed, validate_target,
}
use system_wrangler_backend.Schedules.Store.{
  Db, second, first, by_next, runs_before, compute_next, due, missed_before, advance_missed,
  reconcile_missed, insert_by_next, create,
}
use system_wrangler_backend.Schedules.Store.Rows.{IsKeyed}
use system_wrangler_backend.Schedules.Store.Reconciled.{reconciled, reconcile_missed-reconciled}
use system_wrangler_backend.Schedules.Store.Due.{IsDue}
use system_wrangler_backend.Schedules.Ticker.{positive_or, resolve_grace, reconciled_or, tick}
use system_wrangler_backend.Schedules.Ticker.Late.{tick-late}
use system_wrangler_backend.Schedules.Store.Scheduled.{
  IsTable, Reachable, new, next as then, created,
}
use system_wrangler_backend.Schedules.Store.Scheduled.Kept.{Reachable-IsTable}

abbrev zones : Bytes → Option Zone
zones name = some steady

abbrev row : Bytes → ℕ → Schedule
row id minute = record {
  id = id;
  name = codes "patch";
  cron_expr = codes "0 * * * *";
  timezone = codes "UTC";
  run_check = true;
  run_apply = false;
  reboot_after_apply = false;
  target_kind = global;
  target_value = [];
  enabled = true;
  next_run_at = some (minute * 60 * second);
  last_run_at = none;
  last_status = none;
  created_at = 0;
  updated_at = 0;
}

-- Ten past two: the first row was missed, the second is due within the grace of a quarter of an hour.
abbrev now : ℕ
now = 130 * 60 * second

abbrev db : Db
db = record { schedules = row (codes "a") 60 ∷ row (codes "b") 120 ∷ []; runs = [] }

abbrev db_after : Db
db_after = record { schedules = row (codes "a") 180 ∷ row (codes "b") 120 ∷ []; runs = [] }

db-IsKeyed : IsKeyed db.schedules
unfolding first bytes_beq
db-IsKeyed = (refl, (refl, tt))

reconciled_now :
    reconcile_missed zones now (15 * 60 * second) db ≡ ok (row (codes "a") 60 ∷ [], db_after)
unfolding reconcile_missed missed_before by_next insert_by_next runs_before advance_missed
    compute_next next date_of weekday_of next_month day_of hour_of minute_of parse_cron five_fields
    parse_field parse_field_starred parse_terms parse_term parse_step parse_range parse_atom stamp
    is_seven trim_space split fields cut_at to_lower atoi bytes_beq lookup
reconciled_now = refl

reconcile_missed-reconciled_example :
    (db_after.runs ≡ db.runs)
    × (db_after.schedules ≡ map (reconciled zones now (now - 15 * 60 * second)) db.schedules)
reconcile_missed-reconciled_example =
    reconcile_missed-reconciled zones now (15 * 60 * second) db db-IsKeyed (row (codes "a") 60 ∷ [])
      db_after reconciled_now

tick-late_example :
    (In (row (codes "b") 120) (tick zones (some (15 * 60 * second)) 0 now db).0
      ↔ IsDue zones now (resolve_grace (some (15 * 60 * second)) 0) db (row (codes "b") 120))
    × (0 < resolve_grace (some (15 * 60 * second)) 0)
unfolding resolve_grace positive_or
tick-late_example =
    tick-late zones (some (15 * 60 * second)) 0 now db db_after (row (codes "a") 60 ∷ []) db-IsKeyed
      reconciled_now (row (codes "b") 120)

due-now : In (row (codes "b") 120) (due now db_after)
unfolding due by_next insert_by_next runs_before
due-now = inl refl

-- The second row is fired.
ticked : In (row (codes "b") 120) (tick zones (some (15 * 60 * second)) 0 now db).0
unfolding tick reconciled_or resolve_grace positive_or
ticked =
    subst (λ d. In (row (codes "b") 120) (due now d)) (sym (ap (reconciled_or db) reconciled_now))
      due-now

abbrev no_lists : Bytes → Option (List Bytes)
no_lists text = none

abbrev given : ScheduleInput
given = record {
  name = codes " patch";
  cron_expr = codes "0 * * * *";
  timezone = [];
  run_check = true;
  run_apply = false;
  reboot_after_apply = false;
  target_kind = global;
  target_value = [];
  enabled = true;
}

abbrev made : Schedule
made = row (codes "a") 60

created_one :
    create zones no_lists (codes "a") given (codes "admin") 0 (record { schedules = []; runs = [] })
    ≡ ok (made, record { schedules = made ∷ []; runs = [] })
unfolding create first validate validate_trimmed trimmed or_utc validate_target compute_next next
    date_of weekday_of next_month day_of hour_of minute_of parse_cron five_fields parse_field
    parse_field_starred parse_terms parse_term parse_step parse_range parse_atom stamp is_seven
    trim_space split fields cut_at to_lower atoi bytes_beq lookup
created_one = refl

made-Reachable : Reachable zones no_lists (record { schedules = made ∷ []; runs = [] })
made-Reachable = then _ _ new (created (codes "a") (codes "admin") given 0 made _ _ created_one)

Reachable-IsTable_example : IsTable zones (record { schedules = made ∷ []; runs = [] })
Reachable-IsTable_example =
    Reachable-IsTable zones no_lists (record { schedules = made ∷ []; runs = [] }) made-Reachable
