-- ===== src/Rbac.antt =====
-- internal/rbac/rbac.go: role assignments, and the scope that a request's user resolves to.
pub mod Resolve
pub mod Permissions
pub mod Store
mod Tests
use system_wrangler_backend.Prelude.{
  ℕ, String, Bool, true, false, ◌&&◌, ◌||◌, Option, none, some, List, [], ◌∷◌, ltb, if◌then◌else◌,
}
use system_wrangler_backend.Prelude.Maps.{Map, lookup, insert}
use system_wrangler_backend.Prelude.{string_eq}

-- `type Role string`: the three known values, the zero value "" and any other string.
pub data Role : Type 0 where
  unset admin operator auditor : Role
  other : String → Role

unfoldable pub is_valid : Role → Bool
is_valid admin = true
is_valid operator = true
is_valid auditor = true
is_valid _ = false

unfoldable pub rank : Role → ℕ
rank admin = 3
rank operator = 2
rank auditor = 1
rank unset = 0
rank (other _) = 0

-- `r == RoleAdmin`, `r == RoleOperator`, `r == RoleAuditor` and `r != ""`
abbrev pub is_admin : Role → Bool
is_admin admin = true
is_admin _ = false

abbrev pub is_operator : Role → Bool
is_operator operator = true
is_operator _ = false

abbrev pub is_auditor : Role → Bool
is_auditor auditor = true
is_auditor _ = false

abbrev pub is_set : Role → Bool
is_set unset = false
is_set _ = true

pub record Assignment : Type 0 where
  pub user_id : String
  pub group_id : Option String
  pub role : Role

pub record Scope : Type 0 where
  pub user_id : String
  pub roles : List Assignment
  pub global : Role
  pub group_role : Map String Role

-- The body of the loop of `NewScope`: a global row, and a row of the group `g`.
raise_global : Role → Scope → Scope
raise_global r s = if ltb (rank s.global) (rank r) then record s { global = r } else s

raise_group : String → Role → Option Role → Scope → Scope
raise_group g r none s = record s { group_role = insert g r s.group_role }
raise_group g r (some cur) s =
    if ltb (rank cur) (rank r) then record s { group_role = insert g r s.group_role } else s

add_row : Option String → Role → Scope → Scope
add_row none r s = raise_global r s
add_row (some g) r s = raise_group g r (lookup g s.group_role) s

add_rows : List Assignment → Scope → Scope
add_rows [] s = s
add_rows (a ∷ rows) s = add_rows rows (add_row a.group_id a.role s)

abbrev blank : String → List Assignment → Scope
blank user_id rows = record { user_id = user_id; roles = rows; global = unset; group_role = [] }

pub new_scope : String → List Assignment → Scope
unfolding add_rows add_row raise_global raise_group rank lookup insert
new_scope user_id rows = add_rows rows (blank user_id rows)

pub has_any_role : Scope → Bool
has_any_role s = is_set s.global || elim (s.group_role) [ [] ↦ false | _ ∷ _ ↦ true ]

pub is_global_admin : Scope → Bool
is_global_admin s = is_admin s.global

pub is_global_operator : Scope → Bool
is_global_operator s = is_admin s.global || is_operator s.global

pub is_global_auditor : Scope → Bool
is_global_auditor s = is_set s.global

-- A read of a missing key gives the zero value.
or_unset : Option Role → Role
or_unset none = unset
or_unset (some r) = r

pub role_on_group : Scope → String → Role
unfolding or_unset
role_on_group s g = or_unset (lookup g s.group_role)

is_present : Option Role → Bool
is_present none = false
is_present (some _) = true

pub can_read_group : Scope → String → Bool
unfolding is_present is_global_auditor
can_read_group s g = if is_global_auditor s then true else is_present (lookup g s.group_role)

pub can_operate_group : Scope → String → Bool
unfolding is_global_operator role_on_group
can_operate_group s g =
    if is_global_operator s
    then true
    else is_admin (role_on_group s g) || is_operator (role_on_group s g)

pub can_admin_group : Scope → String → Bool
unfolding is_global_admin role_on_group
can_admin_group s g = is_global_admin s || is_admin (role_on_group s g)

pub can_read_system : Scope → Option String → Bool
unfolding is_present is_global_auditor
can_read_system s none = is_global_auditor s
can_read_system s (some g) =
    if is_global_auditor s then true else is_present (lookup g s.group_role)

pub can_create_system : Scope → Bool
unfolding is_global_admin
can_create_system s = is_global_admin s

pub can_delete_system : Scope → Option String → Bool
unfolding is_global_admin role_on_group
can_delete_system s none = is_global_admin s
can_delete_system s (some g) = if is_global_admin s then true else is_admin (role_on_group s g)

pub can_edit_system : Scope → Option String → Bool
unfolding is_global_operator role_on_group
can_edit_system s none = is_global_operator s
can_edit_system s (some g) =
    if is_global_operator s
    then true
    else is_admin (role_on_group s g) || is_operator (role_on_group s g)

pub can_move_system : Scope → Option String → Option String → Bool
unfolding is_global_admin can_admin_group
can_move_system s none to = is_global_admin s
can_move_system s (some from) none = is_global_admin s
can_move_system s (some from) (some to) =
    if is_global_admin s then true else can_admin_group s from && can_admin_group s to

pub can_manage_groups : Scope → Bool
unfolding is_global_admin
can_manage_groups s = is_global_admin s

pub can_manage_users : Scope → Bool
unfolding is_global_admin
can_manage_users s = is_global_admin s

pub can_grant_on_group : Scope → String → Role → Bool
unfolding is_valid is_global_admin role_on_group
can_grant_on_group s g r =
    if is_valid r
    then (if is_global_admin s
        then true
        else if is_admin (role_on_group s g)
        then is_operator r || is_auditor r
        else false)
    else false

pub can_grant_global : Scope → Bool
unfolding is_global_admin
can_grant_global s = is_global_admin s
