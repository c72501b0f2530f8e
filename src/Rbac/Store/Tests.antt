-- ===== src/Rbac/Store/Tests.antt =====
-- internal/rbac/store.go: runs, and the theorems at concrete inputs.
use system_wrangler_backend.Prelude.{
  ◌<◌, ◌≡◌, refl, Bool, true, false, ◌&&◌, none, some, [], ◌∷◌, List, arith, nat_beq, if◌then◌else◌,
}
use system_wrangler_backend.Rbac.{admin, auditor, Assignment, is_valid}
use system_wrangler_backend.Rbac.Store.{
  last_global_admin, not_found, Call, done, err, Table, is_global_admin_row, count_global_admins,
  grant, revoke, selects, same_key,
}
use system_wrangler_backend.Rbac.Store.Invariant.{
  revoke-keeps_admin, revoke-grant, Request, granting, revoking, serve, serve-keeps_admin,
}

abbrev root : Assignment
root = record { user_id = "root"; group_id = none; role = admin }

abbrev bob : Assignment
bob = record { user_id = "bob"; group_id = some "web"; role = auditor }

abbrev table : Table
table = root ∷ []

abbrev never : Call → Bool
never c = false

abbrev always : Assignment → Bool
always a = true

last_admin_stays : revoke never root table ≡ (err last_global_admin, table)
unfolding revoke is_valid selects count_global_admins
last_admin_stays = refl

revoke_missing : revoke never bob table ≡ (err not_found, table)
unfolding revoke is_valid selects
revoke_missing = refl

granted : (grant always never bob table).0 ≡ done
unfolding grant is_valid same_key
granted = refl

revoke-keeps_admin_example : 0 < count_global_admins (revoke never root table).1
unfolding count_global_admins
revoke-keeps_admin_example = revoke-keeps_admin never root table (omega arith)

revoke-grant_example : revoke never bob (grant always never bob table).1 ≡ (
    if is_global_admin_row bob && nat_beq (count_global_admins table) 0
    then (err last_global_admin, bob ∷ table)
    else (done, table))
revoke-grant_example = revoke-grant always never bob table (λ c. refl) granted

abbrev script : List Request
script = granting bob ∷ revoking root ∷ revoking bob ∷ []

serve-keeps_admin_example : 0 < count_global_admins (serve always (λ n. never) script table)
unfolding count_global_admins
serve-keeps_admin_example = serve-keeps_admin always (λ n. never) script table (omega arith)
