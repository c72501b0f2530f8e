-- ===== src/Targeting.antt =====
-- internal/targeting/targeting.go: targets, a kind with a value, and the systems they point at. Parameters:
-- `json.Unmarshal` into a list of texts, and the stores' answers. An error keeps its sentinel.
pub mod Resolved
mod Tests
use system_wrangler_backend.Prelude.{
  Bool, true, false, Option, none, some, List, [], ◌∷◌, map, any, keep, if◌then◌else◌, Bytes,
  bytes_eq, ◌==◌,
}
use system_wrangler_backend.Prelude.Maps.{Map, lookup}
use system_wrangler_backend.Prelude.Strings.{trim_space}
use system_wrangler_backend.Labels
use system_wrangler_backend.Labels.{Label}
use system_wrangler_backend.Labels.Parse.{Selector, parse_selector}
use system_wrangler_backend.Labels.Match.{matches}
use system_wrangler_backend.Systems.{System, unreachable}

pub data Kind : Type 0 where
  global group systems selector : Kind
  other : Bytes → Kind

-- `ErrInvalid`, and any error that does not wrap it.
pub data Error : Type 0 where
  invalid failed : Error

-- A call may also panic; `out_of_fuel` belongs to the model only.
pub data Outcome (A : Type 0) : Type 0 where
  ok : A → Outcome A
  fail : Error → Outcome A
  panic out_of_fuel : Outcome A

infixl 5 ◌>>=◌
abbrev pub ◌>>=◌ : {A B : Type 0} → Outcome A → (A → Outcome B) → Outcome B
ok a >>= f = f a
fail e >>= f = fail e
panic >>= f = panic
out_of_fuel >>= f = out_of_fuel

-- `if err != nil { return …, e }` behind a call of package labels, and behind one of a store.
abbrev pub or_fail : {A : Type 0} → Error → Labels.Result A → Outcome A
or_fail e (Labels.Result.ok a) = ok a
or_fail e (Labels.Result.fail _) = fail e
or_fail e Labels.Result.panic = panic
or_fail e Labels.Result.out_of_fuel = out_of_fuel

abbrev pub or_failed : {A : Type 0} → Error → Option A → Outcome A
or_failed e none = fail e
or_failed e (some a) = ok a

is_empty : {A : Type 0} → List A → Bool
is_empty [] = true
is_empty (_ ∷ _) = false

-- What the resolver asks of the stores.
pub record Stores : Type 0 where
  pub list : Option (List System)
  pub get : Bytes → Option System
  pub for_systems : List Bytes → Option (Map Bytes (List Label))

-- `s.GroupID != nil && *s.GroupID == value`
pub in_group : Bytes → Option Bytes → Bool
in_group value none = false
in_group value (some g) = g == value

-- A pinned id that is not found stands for a system that is unreachable.
pub placeholder : Bytes → System
placeholder id = record {
  id = id;
  name = id;
  hostname = [];
  created_at = 0;
  status = unreachable;
  last_seen = none;
  group_id = none;
  is_windows = false;
  os_family = [];
  os_distribution = [];
  virtualization = [];
  reboot_required_at = none;
  consecutive_failures = 0;
  consecutive_successes = 0;
}

pub pinned : Bytes → Option System → System
pinned id none = placeholder id
pinned id (some s) = s

pub labels_or_empty : Option (List Label) → List Label
labels_or_empty none = []
labels_or_empty (some ls) = ls

-- The loop over all systems for a selector.
pub select : Selector → Map Bytes (List Label) → List System → Outcome (List System)
unfolding labels_or_empty
select sel by_id [] = ok []
select sel by_id (s ∷ rest) =
    let others = select sel by_id rest in
    or_fail failed (matches sel (labels_or_empty (lookup s.id by_id))) >>= λ b.
    others >>= λ out. ok (if b then s ∷ out else out)

module _ (unmarshal : Bytes → Option (List Bytes)) where
  pub validate_value : Kind → Bytes → Outcome (Unit {0})
  unfolding is_empty
  validate_value global value = if is_empty value then ok tt else fail invalid
  validate_value group value = if is_empty value then fail invalid else ok tt
  validate_value systems value = do
    ids ← or_failed invalid (unmarshal value)
    if is_empty ids
        then fail invalid
        else if any (λ id. is_empty (trim_space id)) ids
        then fail invalid
        else ok tt
  validate_value selector value =
      if is_empty value
      then fail invalid
      else do sel ← or_fail invalid (parse_selector value); ok tt
  validate_value (other _) value = fail invalid

  pub resolve : Kind → Bytes → Stores → Outcome (List System)
  unfolding in_group pinned select
  resolve global value stores = or_failed failed stores.list
  resolve group value stores = do
    all ← or_failed failed stores.list
    ok (keep (λ s. in_group value s.group_id) all)
  resolve systems value stores = do
    ids ← or_failed failed (unmarshal value)
    ok (map (λ id. pinned id (stores.get id)) ids)
  resolve selector value stores = do
    sel ← or_fail failed (parse_selector value)
    all ← or_failed failed stores.list
    by_id ← or_failed failed (stores.for_systems (map (λ s. s.id) all))
    select sel by_id all
  resolve (other _) value stores = fail invalid
