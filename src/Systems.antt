-- ===== src/Systems.antt =====
-- internal/systems: the fleet. Texts are lists of bytes, instants are numbers, and the fields that only
-- the handlers fill in are left out of a system.
pub mod Memory
pub mod Probe
use system_wrangler_backend.Prelude.{
  ℕ, zero, suc, ◌+◌, Bool, true, false, ◌&&◌, not, Option, none, some, List, [], ◌∷◌, ltb, leb,
  if◌then◌else◌, length, Bytes,
}
use system_wrangler_backend.Prelude.Strings.{trim_space}

abbrev pub max_field_len : ℕ
max_field_len = 255

-- `ErrNotFound`, `ErrInvalid`.
pub data Error : Type 0 where
  not_found invalid : Error

pub data Status : Type 0 where
  unprobed reachable unreachable : Status

pub record System : Type 0 where
  pub id : Bytes
  pub name : Bytes
  pub hostname : Bytes
  pub created_at : ℕ
  pub status : Status
  pub last_seen : Option ℕ
  pub group_id : Option Bytes
  pub is_windows : Bool
  pub os_family : Bytes
  pub os_distribution : Bytes
  pub virtualization : Bytes
  pub reboot_required_at : Option ℕ
  pub consecutive_failures : ℕ
  pub consecutive_successes : ℕ

-- `h.Status == StatusReachable` and its like.
abbrev pub status_eq : Status → Status → Bool
status_eq unprobed unprobed = true
status_eq reachable reachable = true
status_eq unreachable unreachable = true
status_eq _ _ = false

-- A probe that was answered at `now`, and one that was not.
pub seen : ℕ → ℕ → System → System
seen succ_threshold now h =
    let successes = h.consecutive_successes + 1 in
    let up = leb succ_threshold successes && not (status_eq h.status reachable) in
    record h {
      consecutive_successes = successes;
      consecutive_failures = 0;
      last_seen = some now;
      status = if up then reachable else h.status;
    }

pub missed : ℕ → System → System
missed fail_threshold h =
    let failures = h.consecutive_failures + 1 in
    let down = leb fail_threshold failures && not (status_eq h.status unreachable) in
    record h {
      consecutive_failures = failures;
      consecutive_successes = 0;
      status = if down then unreachable else h.status;
    }

-- The state machine of `UpdateProbe`, for the system that it has found.
pub probed : Bool → ℕ → ℕ → ℕ → System → System
unfolding seen missed
probed true now fail_threshold succ_threshold h = seen succ_threshold now h
probed false now fail_threshold succ_threshold h = missed fail_threshold h

pub record SystemInput : Type 0 where
  pub name : Bytes
  pub hostname : Bytes

is_empty : Bytes → Bool
is_empty [] = true
is_empty (_ ∷ _) = false

-- `SystemInput.Validate`: true where the input is usable.
unfoldable pub validate : SystemInput → Bool
unfolding is_empty
validate r =
    let name = trim_space r.name in
    let host = trim_space r.hostname in
    if is_empty name
    then false
    else if ltb max_field_len (length name)
    then false
    else if is_empty host
    then false
    else not (ltb max_field_len (length host))
