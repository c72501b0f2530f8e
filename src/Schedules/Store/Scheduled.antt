-- ===== src/Schedules/Store/Scheduled.antt =====
-- internal/schedules/sqlite_store.go: what the rows of the schedules have in common, whatever the calls.
pub mod Tables
pub mod Kept
use system_wrangler_backend.Prelude.{
  ℕ, ◌≡◌, refl, Bool, true, false, ◌&&◌, ◌||◌, not, Option, none, some, List, [], ◌∷◌, All, arith,
  if◌then◌else◌, Bytes,
}
use system_wrangler_backend.Schedules.Cron.{CronSchedule, parse_cron}
use system_wrangler_backend.Schedules.Cron.Next.{Zone}
use system_wrangler_backend.Schedules.Entry.{
  RunStatus, Schedule, ScheduleInput, ScheduleRun, Result, ok, fail, ◌>>=◌, or_err, refuse_if,
  invalid, validate, validate_trimmed, validate_target, trimmed, or_utc,
}
use system_wrangler_backend.Schedules.Store.{
  Db, first, has_id, next_if, compute_next, create, update, set_enabled, delete, record_run_start,
  record_run_finish, reconcile_missed,
}
use system_wrangler_backend.Schedules.Entry.Valid.{IsRunnable, bind-ok}
use system_wrangler_backend.Schedules.Store.Rows.{IsKeyed}

module _ (load_location : Bytes → Option Zone) where
  -- A next time is set exactly while the schedule is enabled.
  abbrev pub IsArmed : Bool → Option ℕ → Type 0
  IsArmed enabled upcoming =
      (enabled ≡ true → (n : ℕ) × (upcoming ≡ some n)) × (enabled ≡ false → upcoming ≡ none)

  abbrev pub IsEntry : Schedule → Type 0
  IsEntry s =
      IsRunnable load_location s.cron_expr s.timezone s.run_check s.run_apply s.reboot_after_apply
      × IsArmed s.enabled s.next_run_at

  abbrev pub IsTable : Db → Type 0
  IsTable db = IsKeyed db.schedules × All IsEntry db.schedules

  pub next_if-IsArmed :
      (enabled : Bool) (expr tz : Bytes) (now : ℕ) (upcoming : Option ℕ)
      → next_if load_location enabled expr tz now ≡ ok upcoming
      → IsArmed enabled upcoming
  unfolding next_if
  next_if-IsArmed true expr tz now upcoming h =
      let (n, _, e) = bind-ok (compute_next load_location expr tz now) _ upcoming h in
      ((λ _. (n, cc)), (λ no. cc))
  next_if-IsArmed false expr tz now upcoming h = ((λ no. cc), (λ _. cc))

  module _ (unmarshal : Bytes → Option (List Bytes)) where
    -- One call of the store that gives no error.
    pub data Step : Db → Db → Type 0 where
      created :
          (new_id by : Bytes) (given : ScheduleInput) (now : ℕ) (sch : Schedule) (db db' : Db)
          → create load_location unmarshal new_id given by now db ≡ ok (sch, db')
          → Step db db'
      updated :
          (id : Bytes) (given : ScheduleInput) (now : ℕ) (db db' : Db)
          → update load_location unmarshal id given now db ≡ ok db'
          → Step db db'
      enabled_set :
          (id : Bytes) (enabled : Bool) (now : ℕ) (db db' : Db)
          → set_enabled load_location id enabled now db ≡ ok db'
          → Step db db'
      deleted : (id : Bytes) (db db' : Db) → delete id db ≡ ok db' → Step db db'
      run_started :
          (new_id id : Bytes) (now : ℕ) (db : Db) → Step db (record_run_start new_id id now db).1
      run_finished :
          (run_id : Bytes) (status : RunStatus) (attempted succeeded failed now : ℕ) (db db' : Db)
          → record_run_finish load_location run_id status attempted succeeded failed now db ≡ ok db'
          → Step db db'
      missed_reconciled :
          (now grace : ℕ) (missed : List Schedule) (db db' : Db)
          → reconcile_missed load_location now grace db ≡ ok (missed, db')
          → Step db db'

    -- The tables that some calls, one after the other, make of empty ones.
    pub data Reachable : Db → Type 0 where
      new : Reachable (record { schedules = []; runs = [] })
      next : (db db' : Db) → Reachable db → Step db db' → Reachable db'
