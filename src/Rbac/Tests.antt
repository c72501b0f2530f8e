-- ===== src/Rbac/Tests.antt =====
-- internal/rbac: runs, and the theorems at concrete inputs.
use mathlib.Core.List.{reverse_perm}
use system_wrangler_backend.Prelude.{
  String, ◌≡◌, ◌≢◌, refl, true, false, some, List, [], ◌∷◌, string_eq, reverse,
}
use system_wrangler_backend.Rbac.{
  admin, operator, auditor, Assignment, Scope, new_scope, can_read_group, can_operate_group,
  can_admin_group, can_grant_on_group, is_global_admin,
}
use system_wrangler_backend.Rbac.Resolve.{sees, holds, decisions-new_scope, decisions-perm}
use system_wrangler_backend.Rbac.Permissions.{row, grant_is_confined}

abbrev rows : List Assignment
rows =
    record { user_id = "ann"; group_id = some "web"; role = auditor }
    ∷ record { user_id = "ann"; group_id = some "web"; role = admin }
    ∷ record { user_id = "ann"; group_id = some "db"; role = operator }
    ∷ []

abbrev ann : Scope
ann = new_scope "ann" rows

ann_admins_web : can_admin_group ann "web" ≡ true
unfolding can_admin_group new_scope
ann_admins_web = refl

ann_operates_db : can_operate_group ann "db" ≡ true
unfolding can_operate_group new_scope
ann_operates_db = refl

decisions-new_scope_example :
    (can_read_group ann "db" ≡ sees "db" rows)
    × (can_operate_group ann "db" ≡ holds 2 "db" rows)
    × (can_admin_group ann "db" ≡ holds 3 "db" rows)
decisions-new_scope_example = decisions-new_scope "ann" rows "db"

decisions-perm_example :
    (can_read_group (new_scope "ann" (reverse rows)) "db" ≡ can_read_group ann "db")
    × (can_operate_group (new_scope "ann" (reverse rows)) "db" ≡ can_operate_group ann "db")
    × (can_admin_group (new_scope "ann" (reverse rows)) "db" ≡ can_admin_group ann "db")
decisions-perm_example = decisions-perm "ann" "db" (reverse_perm rows)

grant_allowed : can_grant_on_group ann "web" operator ≡ true
unfolding can_grant_on_group new_scope
grant_allowed = refl

not_global : is_global_admin ann ≡ false
unfolding is_global_admin new_scope
not_global = refl

grant_is_confined_example :
    (can_admin_group (new_scope "bob" (row "bob" "web" operator ∷ [])) "db"
      ≡ can_admin_group (new_scope "bob" []) "db")
    × (◌≢◌ {A = String} "web" "db"
        → (can_read_group (new_scope "bob" (row "bob" "web" operator ∷ [])) "db"
            ≡ can_read_group (new_scope "bob" []) "db")
          × (can_operate_group (new_scope "bob" (row "bob" "web" operator ∷ [])) "db"
              ≡ can_operate_group (new_scope "bob" []) "db"))
grant_is_confined_example =
    grant_is_confined ann "web" operator "bob" [] "db" grant_allowed not_global
