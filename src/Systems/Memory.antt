-- ===== src/Systems/Memory.antt =====
-- internal/systems/store.go: the store in memory, a map from ids. New ids and clock readings are
-- arguments.
pub mod Laws
use system_wrangler_backend.Prelude.{
  ℕ, Bool, true, false, not, Option, none, some, List, [], ◌∷◌, if◌then◌else◌, Bytes, bytes_eq,
  ◌==◌, map,
}
use system_wrangler_backend.Prelude.Maps.{Map, lookup, insert, delete}
use system_wrangler_backend.Prelude.Strings.{trim_space}
use system_wrangler_backend.Systems.{
  Error, not_found, invalid, Status, unprobed, status_eq, System, SystemInput, validate, probed,
}

pub data Result {ℓ} (A : Type ℓ) : Type ℓ where
  ok : A → Result A
  fail : Error → Result A

abbrev pub Fleet : Type 0
Fleet = Map Bytes System

unfoldable pub fresh : Bytes → ℕ → SystemInput → System
fresh id now r = record {
  id = id;
  name = trim_space r.name;
  hostname = trim_space r.hostname;
  created_at = now;
  status = unprobed;
  last_seen = none;
  group_id = none;
  is_windows = false;
  os_family = [];
  os_distribution = [];
  virtualization = [];
  reboot_required_at = none;
  consecutive_failures = 0;
  consecutive_successes = 0;
}

pub create : Bytes → ℕ → SystemInput → Fleet → Fleet × Result System
unfolding fresh
create id now r fleet =
    if validate r
    then (insert id (fresh id now r) fleet, ok (fresh id now r))
    else (fleet, fail invalid)

found : Option System → Result System
found none = fail not_found
found (some h) = ok h

pub get : Bytes → Fleet → Result System
unfolding found
get id fleet = found (lookup id fleet)

-- The setters: `h, found := s.systems[id]`, a change of `h`, and `s.systems[id] = h`.
change : Bytes → (System → System) → Option System → Fleet → Fleet × Result (Unit {0})
change id f none fleet = (fleet, fail not_found)
change id f (some h) fleet = (insert id (f h) fleet, ok tt)

pub modify : Bytes → (System → System) → Fleet → Fleet × Result (Unit {0})
unfolding change
modify id f fleet = change id f (lookup id fleet) fleet

-- `UpdateProbe`; the result says whether the status has changed.
update_found : Bytes → Bool → ℕ → ℕ → ℕ → Option System → Fleet → Fleet × Result Bool
update_found id answered now fail_threshold succ_threshold none fleet = (fleet, fail not_found)
update_found id answered now fail_threshold succ_threshold (some h) fleet =
    let h' = probed answered now fail_threshold succ_threshold h in
    (insert id h' fleet, ok (not (status_eq h.status h'.status)))

pub update_probe : Bytes → Bool → ℕ → ℕ → ℕ → Fleet → Fleet × Result Bool
unfolding update_found
update_probe id answered now fail_threshold succ_threshold fleet =
    update_found id answered now fail_threshold succ_threshold (lookup id fleet) fleet

remove : Bytes → Option System → Fleet → Fleet × Result (Unit {0})
remove id none fleet = (fleet, fail not_found)
remove id (some h) fleet = (delete id fleet, ok tt)

pub delete_system : Bytes → Fleet → Fleet × Result (Unit {0})
unfolding remove
delete_system id fleet = remove id (lookup id fleet) fleet

pub set_group : Bytes → Option Bytes → Fleet → Fleet × Result (Unit {0})
unfolding modify
set_group id group fleet = modify id (λ h. record h { group_id = group }) fleet

pub set_platform : Bytes → Bool → Fleet → Fleet × Result (Unit {0})
unfolding modify
set_platform id windows fleet = modify id (λ h. record h { is_windows = windows }) fleet

pub set_platform_info : Bytes → Bytes → Bytes → Bytes → Fleet → Fleet × Result (Unit {0})
unfolding modify
set_platform_info id family distribution virtual fleet =
    modify id
      (λ h. record h {
        os_family = family;
        os_distribution = distribution;
        virtualization = virtual;
      })
      fleet

pub set_reboot_required : Bytes → ℕ → Fleet → Fleet × Result (Unit {0})
unfolding modify
set_reboot_required id at fleet = modify id (λ h. record h { reboot_required_at = some at }) fleet

pub clear_reboot_required : Bytes → Fleet → Fleet × Result (Unit {0})
unfolding modify
clear_reboot_required id fleet = modify id (λ h. record h { reboot_required_at = none }) fleet

in_group : Bytes → Option Bytes → Bool
in_group group none = false
in_group group (some g) = g == group

ungroup : Bytes → System → System
unfolding in_group
ungroup group h = if in_group group h.group_id then record h { group_id = none } else h

-- `ClearGroup`: the loop writes each system of the group back under its own id.
pub clear_group : Bytes → Fleet → Fleet
unfolding ungroup
clear_group group [] = []
clear_group group ((id, h) ∷ fleet) = (id, ungroup group h) ∷ clear_group group fleet
