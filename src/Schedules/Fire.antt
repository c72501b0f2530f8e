-- ===== src/Schedules/Fire.antt =====
-- internal/schedules/orchestrator.go: `Fire`. The goroutines of the systems are a list in the order in which they
-- end; messages, audit events and log lines are left out.
pub mod Reboots
pub mod Finished
mod Tests
use system_wrangler_backend.Prelude.{
  ℕ, ◌+◌, Bool, true, false, ◌&&◌, not, Option, none, some, List, [], ◌∷◌, ◌++◌, length, nat_beq,
  if◌then◌else◌, Bytes,
}
use system_wrangler_backend.Systems.{System}
use system_wrangler_backend.Targeting
use system_wrangler_backend.Targeting.{Outcome, Stores, resolve}
use system_wrangler_backend.Schedules.Cron.Next.{Zone}
use system_wrangler_backend.Schedules.Entry.{
  TargetKind, global, group, systems, selector, other, RunStatus, success, partial, failed,
  Schedule, ScheduleRun, Result, ok, fail,
}
use system_wrangler_backend.Schedules.Store.{Db, record_run_start, record_run_finish}
use system_wrangler_backend.Schedules.Fanout.{
  World, Call, FanOutAction, fan_out_check, fan_out_apply, fan_out_on_system, reboot_if_required,
  is_fine,
}

unfoldable pub final_status : ℕ → ℕ → ℕ → RunStatus
final_status attempted succeeded failures =
    if nat_beq attempted 0
    then success
    else if nat_beq failures 0
    then success
    else if nat_beq succeeded 0
    then failed
    else partial

module _ (w : World) (sch : Schedule) (can_reboot : Bool) where
  unfoldable pub sweep_if : Bool → FanOutAction → Bytes → Bool × List Call
  sweep_if wanted action id =
      if wanted
      then (let (r, calls) = fan_out_on_system w id action in (is_fine w id r, calls))
      else (true, [])

  unfoldable pub reboot_host : Bytes → Bool × List Call
  reboot_host id =
      if sch.reboot_after_apply && sch.run_apply && can_reboot
      then (let (is_error, calls) = reboot_if_required w id in (not is_error, calls))
      else (true, [])

  -- `hostOK`, with one step after another while it holds.
  unfoldable pub then_host : Bool × List Call → Bool × List Call → Bool × List Call
  then_host (host_ok, calls) (host_ok', calls') =
      if host_ok then (host_ok', calls ++ calls') else (false, calls)

  -- The body of the goroutine.
  unfoldable pub host : Bytes → Bool × List Call
  unfolding sweep_if reboot_host then_host
  host id =
      then_host
        (then_host (sweep_if sch.run_check fan_out_check id)
          (sweep_if sch.run_apply fan_out_apply id))
        (reboot_host id)

  -- The numbers of the systems that succeeded and that failed.
  unfoldable pub tally : List System → ℕ × ℕ
  unfolding host
  tally [] = (0, 0)
  tally (s ∷ rest) =
      let (succeeded, failures) = tally rest in
      if (host s.id).0 then (succeeded + 1, failures) else (succeeded, failures + 1)

-- `targets.go` repeats the resolver of package targeting.
kind_of : TargetKind → Targeting.Kind
kind_of global = Targeting.global
kind_of group = Targeting.group
kind_of systems = Targeting.systems
kind_of selector = Targeting.selector
kind_of (other k) = Targeting.other k

unfoldable pub resolve_targets :
    (Bytes → Option (List Bytes)) → Schedule → Stores → Outcome (List System)
unfolding kind_of
resolve_targets unmarshal sch stores =
    resolve unmarshal (kind_of sch.target_kind) sch.target_value stores

-- An error of `RecordRunFinish` is logged.
unfoldable pub or_kept : Db → Result Db → Db
or_kept db (ok db') = db'
or_kept db (fail e) = db

module _ (load_location : Bytes → Option Zone) (w : World) (can_reboot : Bool) where
  unfoldable pub finish : Bytes → RunStatus → ℕ → ℕ → ℕ → ℕ → Db → Db
  unfolding or_kept
  finish run_id status attempted succeeded failures now db =
      or_kept db (record_run_finish load_location run_id status attempted succeeded failures now db)

  -- The part behind the start of the run; a panic ends the program.
  unfoldable pub fire_on : Schedule → Bytes → Outcome (List System) → ℕ → Db → Option Db
  unfolding finish tally final_status
  fire_on sch run_id (Outcome.fail e) now db = some (finish run_id failed 0 0 0 now db)
  fire_on sch run_id (Outcome.ok targets) now db =
      let (succeeded, failures) = tally w sch can_reboot targets in
      let attempted = length targets in
      some (
        finish run_id (final_status attempted succeeded failures) attempted succeeded failures now
          db)
  fire_on sch run_id Outcome.panic now db = none
  fire_on sch run_id Outcome.out_of_fuel now db = none

  -- `is_locked` says if another fire of the schedule is on its way; the run starts at `start` and ends at
  -- `end`, and `meanwhile` is what other callers of the store make of the tables in between.
  pub fire : Bool → Schedule → Bytes → Outcome (List System) → ℕ → ℕ → (Db → Db) → Db → Option Db
  unfolding fire_on
  fire is_locked sch new_id targets start end meanwhile db =
      if is_locked
      then some db
      else fire_on sch new_id targets end (meanwhile (record_run_start new_id sch.id start db).1)
