-- ===== src/Rbac/Permissions.antt =====
-- internal/rbac/rbac.go: how the permissions of a scope relate, and what a grant can change.
use system_wrangler_backend.Prelude.{
  ◌≤◌, String, ◌≡◌, ◌≢◌, true, false, ◌&&◌, Option, none, some, List, ◌∷◌, arith, string_eq, eq_iff,
  Option-cases, inl, inr, sym, ◌∙◌,
}
use system_wrangler_backend.Prelude.Maps.{lookup}
use system_wrangler_backend.Rbac.{
  Role, rank, Assignment, Scope, is_admin, new_scope, is_valid, is_global_admin, can_read_group,
  can_operate_group, can_admin_group, can_read_system, can_edit_system, can_delete_system,
  can_move_system, can_grant_on_group,
}
use system_wrangler_backend.Rbac.Resolve.{holds, sees, decisions-new_scope}

module _ (s : Scope) where
  -- On every group, administering implies operating, and operating implies reading.
  pub group_hierarchy :
      (g : String)
      → (can_admin_group s g ≡ true → can_operate_group s g ≡ true)
        × (can_operate_group s g ≡ true → can_read_group s g ≡ true)
  unfolding can_admin_group can_operate_group can_read_group
  group_hierarchy g = elim (Option-cases (lookup g s.group_role)) [
    | inl e ↦ rw e (ground arith, ground arith)
    | inr (r, e) ↦ rw e (ground arith, ground arith)
  ]

  -- A system may be deleted only where it may be edited, and edited only where it may be read,
  -- grouped or not.
  pub system_hierarchy :
      (k : Option String)
      → (can_delete_system s k ≡ true → can_edit_system s k ≡ true)
        × (can_edit_system s k ≡ true → can_read_system s k ≡ true)
  unfolding can_delete_system can_edit_system can_read_system
  system_hierarchy none = (ground arith, ground arith)
  system_hierarchy (some g) = elim (Option-cases (lookup g s.group_role)) [
    | inl e ↦ rw e (ground arith, ground arith)
    | inr (r, e) ↦ rw e (ground arith, ground arith)
  ]

  -- A system may be moved exactly when it may be deleted from both places, ungrouped included.
  pub move-eq-delete_both :
      (from to : Option String)
      → can_move_system s from to ≡ (can_delete_system s from && can_delete_system s to)
  unfolding can_move_system can_delete_system
  move-eq-delete_both none none = ground arith
  move-eq-delete_both none (some t) = ground arith
  move-eq-delete_both (some f) none = ground arith
  move-eq-delete_both (some f) (some t) = ground arith

  -- Who may grant a role on a group administers the group, the role is a known one, and only a
  -- global administrator grants `admin`.
  pub grant_needs_admin :
      (g : String) (r : Role)
      → can_grant_on_group s g r ≡ true
      → (can_admin_group s g ≡ true)
        × (is_valid r ≡ true)
        × (is_admin r ≡ true → is_global_admin s ≡ true)
  unfolding can_grant_on_group can_admin_group
  grant_needs_admin g r h = (ground arith, ground arith, ground arith)

  grant_rank :
      (g : String) (r : Role)
      → can_grant_on_group s g r ≡ true
      → is_global_admin s ≡ false
      → rank r ≤ 2
  unfolding can_grant_on_group rank
  grant_rank g r h n = ground arith

abbrev pub row : String → String → Role → Assignment
row v g r = record { user_id = v; group_id = some g; role = r }

module _ (v g j : String) (r : Role) (rows : List Assignment) where
  holds-row_low : rank r ≤ 2 → holds 3 j (row v g r ∷ rows) ≡ holds 3 j rows
  unfolding holds
  holds-row_low low = ground arith

  row_elsewhere :
      g ≢ j
      → (sees j (row v g r ∷ rows) ≡ sees j rows) × (holds 2 j (row v g r ∷ rows) ≡ holds 2 j rows)
  unfolding holds sees
  row_elsewhere ne = (ground (arith, eq_iff g j), ground (arith, eq_iff g j))

-- What somebody who is no global administrator grants on a group makes nobody an administrator of
-- any group, and on the other groups changes nothing.
pub grant_is_confined :
    (s : Scope) (g : String) (r : Role) (v : String) (rows : List Assignment) (j : String)
    → can_grant_on_group s g r ≡ true
    → is_global_admin s ≡ false
    → (can_admin_group (new_scope v (row v g r ∷ rows)) j ≡ can_admin_group (new_scope v rows) j)
      × (g ≢ j
          → (can_read_group (new_scope v (row v g r ∷ rows)) j
              ≡ can_read_group (new_scope v rows) j)
            × (can_operate_group (new_scope v (row v g r ∷ rows)) j
                ≡ can_operate_group (new_scope v rows) j))
grant_is_confined s g r v rows j h n =
    let (r₀, o₀, a₀) = decisions-new_scope v rows j in
    let (r₁, o₁, a₁) = decisions-new_scope v (row v g r ∷ rows) j in
    (
      a₁ ∙ holds-row_low v g j r rows (grant_rank s g r h n) ∙ sym a₀,
      λ ne. (
        r₁ ∙ (row_elsewhere v g j r rows ne).0 ∙ sym r₀,
        o₁ ∙ (row_elsewhere v g j r rows ne).1 ∙ sym o₀,
      ),
    )
