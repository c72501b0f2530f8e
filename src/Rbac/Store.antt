-- ===== src/Rbac/Store.antt =====
-- internal/rbac/store.go: the table `user_roles` behind `Grant` and `Revoke`. A table is the list
-- of its rows, in no order that a caller may rely on; SQL statements are filters and counts. Which
-- foreign keys hold and which database calls fail are parameters: SQLite is not part of the program.
pub mod Invariant
mod Tests
use system_wrangler_backend.Prelude.{
  ℕ, ◌+◌, String, Bool, true, false, ◌&&◌, not, Option, none, some, List, [], ◌∷◌, if◌then◌else◌,
  any, keep, length, ◌==◌, string_eq, nat_beq,
}
use system_wrangler_backend.Rbac.{
  Role, unset, admin, operator, auditor, other, Assignment, is_valid, is_admin,
}

pub data Error : Type 0 where
  invalid not_found duplicate last_global_admin failed : Error

pub data Outcome : Type 0 where
  done : Outcome
  err : Error → Outcome

-- The calls of the database driver that may fail.
pub data Call : Type 0 where
  exec rows_affected begin count commit : Call

abbrev pub Table : Type 0
Table = List Assignment

role_beq : Role → Role → Bool
role_beq unset unset = true
role_beq admin admin = true
role_beq operator operator = true
role_beq auditor auditor = true
role_beq (other s) (other t) = s == t
role_beq _ _ = false

abbrev coalesce : Option String → String
coalesce none = ""
coalesce (some g) = g

-- The unique index on (user_id, COALESCE(group_id, ''), role).
pub same_key : Assignment → Assignment → Bool
unfolding role_beq
same_key a b =
    a.user_id == b.user_id && coalesce a.group_id == coalesce b.group_id && role_beq a.role b.role

same_group : Option String → Option String → Bool
same_group none none = true
same_group (some g) (some j) = g == j
same_group _ _ = false

-- `WHERE user_id = ? AND group_id = ? AND role = ?`, with `group_id IS NULL` for a global row.
pub selects : Assignment → Assignment → Bool
unfolding role_beq same_group
selects a b = a.user_id == b.user_id && same_group a.group_id b.group_id && role_beq a.role b.role

abbrev is_global : Option String → Bool
is_global none = true
is_global (some _) = false

pub is_global_admin_row : Assignment → Bool
is_global_admin_row a = is_global a.group_id && is_admin a.role

unfoldable pub count_global_admins : Table → ℕ
unfolding is_global_admin_row
count_global_admins rows = length (keep is_global_admin_row rows)

abbrev without : Assignment → Table → Table
without a rows = keep (λ b. not (selects a b)) rows

module _ (fk : Assignment → Bool) (fails : Call → Bool) where
  pub grant : Assignment → Table → Outcome × Table
  grant a rows =
      if not (is_valid a.role)
      then (err invalid, rows)
      else if a.user_id == ""
      then (err invalid, rows)
      else if fails exec
      then (err failed, rows)
      else if any (same_key a) rows
      then (err duplicate, rows)
      else if fk a
      then (done, a ∷ rows)
      else (err failed, rows)

module _ (fails : Call → Bool) where
  -- One `DELETE` and `rowsAffectedToErr`, outside a transaction. The rows are gone also where only
  -- the count of the affected rows cannot be read.
  delete_row : Assignment → Table → Outcome × Table
  delete_row a rows =
      if fails exec
      then (err failed, rows)
      else if fails rows_affected
      then (err failed, without a rows)
      else if any (selects a) rows
      then (done, without a rows)
      else (err not_found, rows)

  -- `EnsureGlobalAdminRemains` on the rows that a transaction would leave.
  pub ensure_global_admin_remains : Table → Outcome
  ensure_global_admin_remains rows =
      if fails count
      then err failed
      else if nat_beq (count_global_admins rows) 0
      then err last_global_admin
      else done

  -- The transaction of the global administrator's row: an early return rolls it back.
  revoke_admin : Assignment → Table → Outcome × Table
  unfolding ensure_global_admin_remains
  revoke_admin a rows =
      if fails begin
      then (err failed, rows)
      else if fails exec
      then (err failed, rows)
      else if fails rows_affected
      then (err failed, rows)
      else if not (any (selects a) rows)
      then (err not_found, rows)
      else elim (ensure_global_admin_remains (without a rows)) [
        | err e ↦ (err e, rows)
        | done ↦ if fails commit then (err failed, rows) else (done, without a rows)
      ]

  pub revoke : Assignment → Table → Outcome × Table
  unfolding delete_row revoke_admin
  revoke a rows =
      if not (is_valid a.role)
      then (err invalid, rows)
      else if is_global a.group_id && is_admin a.role
      then revoke_admin a rows
      else delete_row a rows
