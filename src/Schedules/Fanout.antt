-- ===== src/Schedules/Fanout.antt =====
-- internal/schedules/fanout.go and reboot.go: the work on one system. What the registry, the stores and the
-- runners answer is a parameter; the calls that change something are a list, in their order. Playbook files
-- are left out.
pub mod Tally
use system_wrangler_backend.Prelude.{
  ℕ, ◌+◌, Bool, true, false, ◌&&◌, ◌||◌, not, Option, none, some, List, [], ◌∷◌, ◌++◌, map, keep,
  length, ltb, if◌then◌else◌, Bytes, bytes_eq,
}
use system_wrangler_backend.Prelude.Maps.{Map, lookup, insert}

pub data FanOutAction : Type 0 where
  fan_out_check fan_out_apply : FanOutAction

-- The fields of `updaters.Definition` and `updaters.Availability` that are read here.
pub record Definition : Type 0 where
  pub id : Bytes
  pub check_only : Bool

pub record Availability : Type 0 where
  pub updater_id : Bytes
  pub enabled : Bool

pub data Reason : Type 0 where
  list_updaters availability no_updaters : Reason

-- A result without the id of the system and the action; a skipped one has a reason.
pub record FanOutResult : Type 0 where
  pub attempted : ℕ
  pub succeeded : ℕ
  pub failed : ℕ
  pub skipped : Option Reason

pub data Call : Type 0 where
  run_updater : FanOutAction → Bytes → Bytes → Call
  reboot clear_flag : Bytes → Call

-- The answers; a run is true where it gives no error and its status is success. The last four are about a
-- reboot: if the system is found, if its flag is set, if its playbook ends well, and if its flag is cleared.
pub record World : Type 0 where
  pub all : FanOutAction → Option (List Definition)
  pub availability_for : FanOutAction → Bytes → Option (List Availability)
  pub run : FanOutAction → Bytes → Bytes → Bool
  pub is_found : Bytes → Bool
  pub is_reboot_required : Bytes → Bool
  pub reboots : Bytes → Bool
  pub clears : Bytes → Bool

pub skip : Reason → FanOutResult
skip reason = record { attempted = 0; succeeded = 0; failed = 0; skipped = some reason }

index_by_id : List Availability → Map Bytes Availability → Map Bytes Availability
index_by_id [] by_id = by_id
index_by_id (a ∷ rest) by_id = index_by_id rest (insert a.updater_id a by_id)

is_enabled : Option Availability → Bool
is_enabled none = false
is_enabled (some a) = a.enabled

applies : FanOutAction → Definition → Bool
applies fan_out_check d = true
applies fan_out_apply d = not d.check_only

-- The loop that picks the updaters.
targets : FanOutAction → Map Bytes Availability → List Definition → List Bytes
unfolding is_enabled applies
targets action by_id defs =
    map (λ d. d.id) (keep (λ d. is_enabled (lookup d.id by_id) && applies action d) defs)

module _ (w : World) (system_id : Bytes) where
  -- The loop that runs them, one after the other.
  unfoldable pub run_all : FanOutAction → List Bytes → FanOutResult → FanOutResult × List Call
  run_all action [] out = (out, [])
  run_all action (id ∷ rest) out =
      let (out', calls) = run_all action rest (
        if w.run action system_id id
        then record out { succeeded = out.succeeded + 1 }
        else record out { failed = out.failed + 1 }) in
      (out', run_updater action system_id id ∷ calls)

  unfoldable pub sweep : FanOutAction → List Bytes → FanOutResult × List Call
  unfolding skip run_all
  sweep action [] = (skip no_updaters, [])
  sweep action (id ∷ rest) =
      run_all action (id ∷ rest)
        (record { attempted = length (id ∷ rest); succeeded = 0; failed = 0; skipped = none })

  fan_out_to :
      FanOutAction → List Definition → Option (List Availability) → FanOutResult × List Call
  unfolding sweep targets index_by_id skip
  fan_out_to action defs none = (skip availability, [])
  fan_out_to action defs (some avail) = sweep action (targets action (index_by_id avail []) defs)

  fan_out_over : FanOutAction → Option (List Definition) → FanOutResult × List Call
  unfolding fan_out_to skip
  fan_out_over action none = (skip list_updaters, [])
  fan_out_over action (some defs) = fan_out_to action defs (w.availability_for action system_id)

  unfoldable pub fan_out_on_system : FanOutAction → FanOutResult × List Call
  unfolding fan_out_over
  fan_out_on_system action = fan_out_over action (w.all action)

  -- If there is an error, and the calls.
  unfoldable pub reboot_if_required : Bool × List Call
  reboot_if_required =
      if not (w.is_found system_id)
      then (true, [])
      else if not (w.is_reboot_required system_id)
      then (false, [])
      else if not (w.reboots system_id)
      then (true, reboot system_id ∷ [])
      else (not (w.clears system_id), reboot system_id ∷ clear_flag system_id ∷ [])

  is_no_updaters : Option Reason → Bool
  is_no_updaters (some list_updaters) = false
  is_no_updaters (some availability) = false
  is_no_updaters _ = true

  -- `r.Failed > 0 || (r.Skipped && r.Reason != "no enabled updaters for this action")`, negated.
  unfoldable pub is_fine : FanOutResult → Bool
  unfolding is_no_updaters
  is_fine r = not (ltb 0 r.failed) && is_no_updaters r.skipped
