-- ===== src/Schedules/Fire/Tests.antt =====
-- internal/schedules/orchestrator.go: runs, and the theorems at concrete inputs.
use system_wrangler_backend.Prelude.{
  ◌≡◌, ◌≢◌, ◌↔◌, ◌+◌, ◌<◌, refl, true, false, Option, none, some, List, [], ◌∷◌, In, All, inl, inr,
  Bytes, codes, ◌==◌, bytes_eq,
}
use system_wrangler_backend.Prelude.Eq.{bytes_beq}
use system_wrangler_backend.Prelude.Maps.{lookup, insert}
use system_wrangler_backend.Systems.{System}
use system_wrangler_backend.Targeting.{Outcome, placeholder}
use system_wrangler_backend.Schedules.Cron.Next.{Zone}
use system_wrangler_backend.Schedules.Cron.Next.Least.{steady}
use system_wrangler_backend.Schedules.Entry.{global, Schedule, ok, running, success, failed}
use system_wrangler_backend.Schedules.Store.{Db, first, has_id, next_if}
use system_wrangler_backend.Schedules.Fanout.{
  World, FanOutAction, fan_out_apply, run_updater, reboot, fan_out_on_system, is_fine,
  reboot_if_required,
}
use system_wrangler_backend.Schedules.Fanout.Tally.{AreRuns, fan_out_on_system-tallied}
use system_wrangler_backend.Schedules.Fire.{
  host, sweep_if, reboot_host, then_host, tally, final_status, fire,
}
use system_wrangler_backend.Schedules.Fire.Reboots.{host-reboots}
use system_wrangler_backend.Schedules.Fire.Finished.{
  OkHost, BadHost, final_status-tally, last_run, fire-last_run,
}

-- One updater, which fails on the system b.
abbrev world : World
world = record {
  all = λ action. some (record { id = codes "apt"; check_only = false } ∷ []);
  availability_for = λ action id. some (record { updater_id = codes "apt"; enabled = true } ∷ []);
  run = λ action id u. id == codes "a";
  is_found = λ id. true;
  is_reboot_required = λ id. true;
  reboots = λ id. true;
  clears = λ id. true;
}

abbrev nightly : Schedule
nightly = record {
  id = codes "s";
  name = codes "patch";
  cron_expr = codes "0 5 * * *";
  timezone = codes "UTC";
  run_check = false;
  run_apply = true;
  reboot_after_apply = true;
  target_kind = global;
  target_value = [];
  enabled = false;
  next_run_at = none;
  last_run_at = none;
  last_status = none;
  created_at = 0;
  updated_at = 0;
}

fan_out_on_system-tallied_example :
    ((fan_out_on_system world (codes "b") fan_out_apply).0.succeeded
        + (fan_out_on_system world (codes "b") fan_out_apply).0.failed
      ≡ (fan_out_on_system world (codes "b") fan_out_apply).0.attempted)
    × AreRuns world
        (codes "b")
        fan_out_apply
        (fan_out_on_system world (codes "b") fan_out_apply).0
        (fan_out_on_system world (codes "b") fan_out_apply).1
fan_out_on_system-tallied_example = fan_out_on_system-tallied world (codes "b") fan_out_apply

rebooted : In (reboot (codes "a")) (host world nightly true (codes "a")).1
unfolding host sweep_if reboot_host then_host fan_out_on_system is_fine reboot_if_required lookup
    insert bytes_beq
rebooted = inr (inl refl)

host-reboots_example :
    (codes "a" ≡ codes "a")
    × (nightly.reboot_after_apply ≡ true)
    × (nightly.run_apply ≡ true)
    × (world.is_reboot_required (codes "a") ≡ true)
    × ((a : FanOutAction) (y u : Bytes)
        → In (run_updater a y u) (host world nightly true (codes "a")).1
        → world.run a y u ≡ true)
host-reboots_example = host-reboots world nightly true (codes "a") (codes "a") rebooted

abbrev both : List System
both = placeholder (codes "a") ∷ placeholder (codes "b") ∷ []

final_status-tally_example :
    let status =
      final_status 2 (tally world nightly true both).0 (tally world nightly true both).1 in
    ((status ≡ success) ↔ All (OkHost world nightly true) both)
    × ((status ≡ failed) ↔ ((0 < 2) × All (BadHost world nightly true) both))
    × (status ≢ running)
final_status-tally_example = final_status-tally world nightly true both

abbrev zones : Bytes → Option Zone
zones name = some steady

abbrev db : Db
db = record { schedules = nightly ∷ []; runs = [] }

no_run : first (λ r. r.id == codes "r") db.runs ≡ none
unfolding first
no_run = refl

-- Another call renames the schedule while it runs.
abbrev renamed : Schedule
renamed = record nightly { name = codes "weekly"; updated_at = 8 }

abbrev meanwhile : Db → Db
meanwhile d = record d { schedules = renamed ∷ [] }

there : first (has_id (codes "s")) (renamed ∷ []) ≡ some renamed
unfolding first bytes_beq
there = refl

unarmed : next_if zones false (codes "0 5 * * *") (codes "UTC") 9 ≡ ok none
unfolding next_if
unarmed = refl

fire-last_run_example :
    (db' : Db) × (fire zones world true false nightly (codes "r") (Outcome.ok both) 8 9 meanwhile db
      ≡ some db')
    × (first (λ r. r.id == codes "r") db'.runs
        ≡ some (last_run zones world nightly true (codes "r") both 8 9 meanwhile db renamed none))
    × (first (has_id (codes "s")) db'.schedules
        ≡ some (record renamed {
          last_run_at = some 9;
          last_status =
              some (
                final_status 2 (tally world nightly true both).0 (tally world nightly true both).1);
          next_run_at = none;
        }))
fire-last_run_example =
    fire-last_run zones world nightly true (codes "r") both 8 9 meanwhile db renamed none no_run
      refl there unarmed
