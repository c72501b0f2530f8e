-- ===== src/Schedules/Store.antt =====
-- internal/schedules/sqlite_store.go: the operations of the store on its two tables. A table is the list of its
-- rows in the order in which they were inserted; ids and the clock are arguments, and the statements of the
-- database do what they say. An operation that fails leaves the tables as they were.
pub mod Rows
pub mod Reconciled
pub mod Due
pub mod Finished
pub mod Scheduled
mod Tests
use system_wrangler_backend.Prelude.{
  ℕ, ◌-◌, ◌*◌, ◌/◌, Bool, true, false, ◌&&◌, Option, none, some, List, [], ◌∷◌, ◌++◌, map, keep,
  ltb, leb, if◌then◌else◌, Bytes, bytes_eq, ◌==◌,
}
use system_wrangler_backend.Schedules.Cron.{parse_cron}
use system_wrangler_backend.Schedules.Cron.Next.{Zone, next}
use system_wrangler_backend.Schedules.Entry.{
  RunStatus, running, Schedule, ScheduleInput, ScheduleRun, not_found, invalid, gave_up, Result, ok,
  ◌>>=◌, or_err, refuse_if, refuse_found, validate,
}

pub record Db : Type 0 where
  pub schedules : List Schedule
  pub runs : List ScheduleRun

abbrev pub second : ℕ
second = 1_000_000_000

-- `WHERE id = ?`, for a query of one row and for an update.
unfoldable pub first : {A : Type 0} → (A → Bool) → List A → Option A
first p [] = none
first p (x ∷ xs) = let rest = first p xs in if p x then some x else rest

abbrev pub update_where : {A : Type 0} → (A → Bool) → (A → A) → List A → List A
update_where p f xs = map (λ x. if p x then f x else x) xs

abbrev pub has_id : Bytes → Schedule → Bool
has_id id sch = sch.id == id

-- `ORDER BY next_run_at, id`
next_or_zero : Schedule → ℕ
next_or_zero sch = elim sch.next_run_at [ none ↦ 0 | some n ↦ n ]

bytes_leb : Bytes → Bytes → Bool
bytes_leb [] ys = true
bytes_leb (x ∷ xs) [] = false
bytes_leb (x ∷ xs) (y ∷ ys) =
    let rest = bytes_leb xs ys in if ltb x y then true else if ltb y x then false else rest

is_sorted : Schedule → Schedule → Bool
unfolding next_or_zero bytes_leb
is_sorted s x =
    if ltb (next_or_zero s) (next_or_zero x)
    then true
    else if ltb (next_or_zero x) (next_or_zero s)
    then false
    else bytes_leb s.id x.id

insert_by_next : Schedule → List Schedule → List Schedule
unfolding is_sorted
insert_by_next sch [] = sch ∷ []
insert_by_next sch (x ∷ xs) =
    let rest = insert_by_next sch xs in if is_sorted sch x then sch ∷ x ∷ xs else x ∷ rest

unfoldable pub by_next : List Schedule → List Schedule
unfolding insert_by_next
by_next [] = []
by_next (x ∷ xs) = insert_by_next x (by_next xs)

-- `enabled = 1 AND next_run_at IS NOT NULL AND next_run_at` before a bound.
pub runs_before : (ℕ → Bool) → Schedule → Bool
runs_before before sch = elim sch.next_run_at [ none ↦ false | some n ↦ sch.enabled && before n ]

pub get : Bytes → Db → Result Schedule
unfolding first
get id db = or_err not_found (first (has_id id) db.schedules)

-- `Due`
pub due : ℕ → Db → List Schedule
unfolding by_next runs_before
due now db = by_next (keep (runs_before (λ n. leb n now)) db.schedules)

pub missed_before : ℕ → Db → List Schedule
unfolding by_next runs_before
missed_before cutoff db = by_next (keep (runs_before (λ n. ltb n cutoff)) db.schedules)

unfoldable pub record_run_start : Bytes → Bytes → ℕ → Db → ScheduleRun × Db
record_run_start new_id schedule_id now db =
    let run : ScheduleRun = record {
      id = new_id;
      schedule_id = schedule_id;
      started_at = now;
      finished_at = none;
      status = running;
      targets_attempted = 0;
      targets_succeeded = 0;
      targets_failed = 0;
    } in
    (run, record db { runs = db.runs ++ run ∷ [] })

unfoldable pub finish_run : RunStatus → ℕ → ℕ → ℕ → ℕ → ScheduleRun → ScheduleRun
finish_run status now attempted succeeded failed run = record run {
  status = status;
  finished_at = some now;
  targets_attempted = attempted;
  targets_succeeded = succeeded;
  targets_failed = failed;
}

pub delete : Bytes → Db → Result Db
unfolding get
delete id db = do
  _ ← get id db
  ok (record {
    runs = keep (λ r. if r.schedule_id == id then false else true) db.runs;
    schedules = keep (λ s. if s.id == id then false else true) db.schedules;
  })

unfoldable pub after_run : RunStatus → ℕ → Option ℕ → Schedule → Schedule
after_run status now upcoming s = record s {
  last_run_at = some now;
  last_status = some status;
  next_run_at = upcoming;
}

module _ (load_location : Bytes → Option Zone) where
  -- The search counts whole minutes.
  pub compute_next : Bytes → Bytes → ℕ → Result ℕ
  compute_next expr tz after = do
    c ← or_err invalid (parse_cron expr)
    loc ← or_err invalid (load_location tz)
    t ← or_err gave_up (next loc c (after / second))
    ok (t * 60 * second)

  -- `var nextPtr *time.Time; if enabled { ... }`
  unfoldable pub next_if : Bool → Bytes → Bytes → ℕ → Result (Option ℕ)
  unfolding compute_next
  next_if enabled expr tz now =
      if enabled then (compute_next expr tz now >>= λ n. ok (some n)) else ok none

  -- The loop of `ReconcileMissed` over the missed rows.
  pub advance_missed : ℕ → List Schedule → List Schedule → Result (List Schedule)
  unfolding compute_next
  advance_missed now [] rows = ok rows
  advance_missed now (sch ∷ missed) rows = do
    n ← compute_next sch.cron_expr sch.timezone now
    advance_missed now missed
        (update_where (has_id sch.id) (λ s. record s { next_run_at = some n }) rows)

  -- `cutoff` is `now` less the grace, which is not before the origin.
  pub reconcile_missed : ℕ → ℕ → Db → Result (List Schedule × Db)
  unfolding missed_before advance_missed
  reconcile_missed now grace db =
      let missed = missed_before (now - grace) db in
      do rows ← advance_missed now missed db.schedules; ok (missed, record db { schedules = rows })

  -- A run whose schedule is gone gives the error of the query.
  pub record_run_finish : Bytes → RunStatus → ℕ → ℕ → ℕ → ℕ → Db → Result Db
  unfolding first next_if finish_run after_run
  record_run_finish run_id status attempted succeeded failed now db = do
    run ← or_err not_found (first (λ r. r.id == run_id) db.runs)
    parent ← or_err not_found (first (has_id run.schedule_id) db.schedules)
    upcoming ← next_if parent.enabled parent.cron_expr parent.timezone now
    ok (record {
      runs =
          update_where (λ r. r.id == run_id) (finish_run status now attempted succeeded failed)
            db.runs;
      schedules =
          update_where (has_id run.schedule_id) (after_run status now upcoming) db.schedules;
    })

  pub set_enabled : Bytes → Bool → ℕ → Db → Result Db
  unfolding get next_if
  set_enabled id enabled now db = do
    current ← get id db
    upcoming ← next_if enabled current.cron_expr current.timezone now
    ok (record db {
      schedules =
          update_where (has_id id)
            (λ s. record s { enabled = enabled; next_run_at = upcoming; updated_at = now })
            db.schedules;
    })

  module _ (unmarshal : Bytes → Option (List Bytes)) where
    pub create : Bytes → ScheduleInput → Bytes → ℕ → Db → Result (Schedule × Db)
    unfolding compute_next first
    create new_id given created_by now db = do
      input ← validate unmarshal load_location given
      _ ← refuse_if (created_by == [])
      n ← compute_next input.cron_expr input.timezone now
      _ ← refuse_found (first (has_id new_id) db.schedules)
      let sch : Schedule = record {
        id = new_id;
        name = input.name;
        cron_expr = input.cron_expr;
        timezone = input.timezone;
        run_check = input.run_check;
        run_apply = input.run_apply;
        reboot_after_apply = input.reboot_after_apply;
        target_kind = input.target_kind;
        target_value = input.target_value;
        enabled = input.enabled;
        next_run_at = if input.enabled then some n else none;
        last_run_at = none;
        last_status = none;
        created_at = now;
        updated_at = now;
      }
      ok (sch, record db { schedules = db.schedules ++ sch ∷ [] })

    -- `UPDATE schedules SET ... WHERE id = ?` of `Update`.
    replaced : ScheduleInput → Option ℕ → ℕ → Schedule → Schedule
    replaced input upcoming now s = record s {
      name = input.name;
      cron_expr = input.cron_expr;
      timezone = input.timezone;
      run_check = input.run_check;
      run_apply = input.run_apply;
      reboot_after_apply = input.reboot_after_apply;
      target_kind = input.target_kind;
      target_value = input.target_value;
      enabled = input.enabled;
      next_run_at = upcoming;
      updated_at = now;
    }

    pub update : Bytes → ScheduleInput → ℕ → Db → Result Db
    unfolding next_if replaced get
    update id given now db = do
      input ← validate unmarshal load_location given
      upcoming ← next_if input.enabled input.cron_expr input.timezone now
      _ ← get id db
      ok (record db {
        schedules = update_where (has_id id) (replaced input upcoming now) db.schedules;
      })
