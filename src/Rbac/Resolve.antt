-- ===== src/Rbac/Resolve.antt =====
-- internal/rbac/rbac.go, `NewScope`: what a resolved scope says of the rows that it was made from.
use system_wrangler_backend.Prelude.{
  ℕ, String, ◌≡◌, refl, sym, ◌∙◌, Bool, true, false, ◌&&◌, ◌||◌, Option, none, some, List, [], ◌∷◌,
  arith, leb, if◌then◌else◌, any, string_eq, ◌==◌, suc, eq_iff, max, inl, inr, Option-cases,
}
use mathlib.Core.List.{Perm}
use system_wrangler_backend.Prelude.Lists.{any-perm}
use system_wrangler_backend.Prelude.Maps.{lookup, lookup-insert}
use system_wrangler_backend.Rbac.{
  Role, rank, Assignment, Scope, is_admin, is_operator, is_set, is_present, raise_global,
  raise_group, add_row, add_rows, new_scope, blank, role_on_group, can_read_group,
  can_operate_group, can_admin_group,
}

-- The row is global, or a row of the group.
abbrev pub covers : String → Option String → Bool
covers g none = true
covers g (some j) = j == g

abbrev on_group : String → Option String → Bool
on_group g none = false
on_group g (some j) = j == g

-- The highest rank among the global rows, and among the rows of a group.
top_global : List Assignment → ℕ
top_global [] = 0
top_global (a ∷ rows) =
    max (elim (a.group_id) [ none ↦ rank a.role | some _ ↦ 0 ]) (top_global rows)

top_on : String → List Assignment → ℕ
top_on g [] = 0
top_on g (a ∷ rows) = max (if on_group g a.group_id then rank a.role else 0) (top_on g rows)

rank-global-add_row :
    (k : Option String) (r : Role) (s : Scope)
    → rank (add_row k r s).global ≡ max (elim k [ none ↦ rank r | some _ ↦ 0 ]) (rank s.global)
unfolding add_row raise_global raise_group
rank-global-add_row none r s = ground arith
rank-global-add_row (some g) r s = elim (Option-cases (lookup g s.group_role)) [
  | inl e ↦ rw e (ground arith)
  | inr (c, e) ↦ rw e (ground arith)
]

rank-global-add_rows :
    (rows : List Assignment) (s : Scope)
    → rank (add_rows rows s).global ≡ max (top_global rows) (rank s.global)
unfolding add_rows top_global
rank-global-add_rows [] s = omega arith
rank-global-add_rows (a ∷ rows) s = omega (
  arith,
  rank-global-add_rows rows (add_row a.group_id a.role s),
  rank-global-add_row a.group_id a.role s,
)

rank-role_on_group-raise_group :
    (g j : String) (r : Role) (s : Scope)
    → rank (role_on_group (raise_group j r (lookup j s.group_role) s) g)
      ≡ max (if j == g then rank r else 0) (rank (role_on_group s g))
unfolding raise_group role_on_group rank
rank-role_on_group-raise_group g j r s = elim (Option-cases (lookup j s.group_role)) [
  | inl e ↦ rw e (ground (arith, lookup-insert j g r s.group_role, eq_iff j g))
  | inr (c, e) ↦ rw e (ground (arith, lookup-insert j g r s.group_role, eq_iff j g))
]

rank-role_on_group-add_row :
    (g : String) (k : Option String) (r : Role) (s : Scope)
    → rank (role_on_group (add_row k r s) g)
      ≡ max (if on_group g k then rank r else 0) (rank (role_on_group s g))
unfolding add_row
rank-role_on_group-add_row g none r s = unfold raise_global role_on_group in ground arith
rank-role_on_group-add_row g (some j) r s = rank-role_on_group-raise_group g j r s

rank-role_on_group-add_rows :
    (g : String) (rows : List Assignment) (s : Scope)
    → rank (role_on_group (add_rows rows s) g) ≡ max (top_on g rows) (rank (role_on_group s g))
unfolding add_rows top_on
rank-role_on_group-add_rows g [] s = omega arith
rank-role_on_group-add_rows g (a ∷ rows) s = omega (
  arith,
  rank-role_on_group-add_rows g rows (add_row a.group_id a.role s),
  rank-role_on_group-add_row g a.group_id a.role s,
)

is_present-add_row :
    (g : String) (k : Option String) (r : Role) (s : Scope)
    → is_present (lookup g (add_row k r s).group_role)
      ≡ (on_group g k || is_present (lookup g s.group_role))
unfolding add_row raise_global raise_group is_present
is_present-add_row g none r s = ground arith
is_present-add_row g (some j) r s = elim (Option-cases (lookup j s.group_role)) [
  | inl e ↦ rw e (ground (arith, lookup-insert j g r s.group_role, eq_iff j g))
  | inr (c, e) ↦ rw e (ground (arith, lookup-insert j g r s.group_role, eq_iff j g))
]

is_present-add_rows :
    (g : String) (rows : List Assignment) (s : Scope)
    → is_present (lookup g (add_rows rows s).group_role)
      ≡ (any (λ a. on_group g a.group_id) rows || is_present (lookup g s.group_role))
unfolding add_rows
is_present-add_rows g [] s = ground arith
is_present-add_rows g (a ∷ rows) s = ground (
  arith,
  is_present-add_rows g rows (add_row a.group_id a.role s),
  is_present-add_row g a.group_id a.role s,
)

-- Some row that covers the group has a role of rank `n` or higher.
unfoldable pub holds : ℕ → String → List Assignment → Bool
holds n g rows = any (λ a. covers g a.group_id && leb n (rank a.role)) rows

-- Some global row has a known role, or some row of the group has any role.
unfoldable pub sees : String → List Assignment → Bool
sees g rows = any (λ a. elim (a.group_id) [ none ↦ leb 1 (rank a.role) | some j ↦ j == g ]) rows

holds_lem :
    (n : ℕ) (g : String) (rows : List Assignment)
    → holds (suc n) g rows ≡ leb (suc n) (max (top_global rows) (top_on g rows))
unfolding holds top_global top_on
holds_lem n g [] = ground arith
holds_lem n g (a ∷ rows) = ground (arith, holds_lem n g rows)

sees_lem :
    (g : String) (rows : List Assignment)
    → sees g rows ≡ (leb 1 (top_global rows) || any (λ a. on_group g a.group_id) rows)
unfolding sees top_global
sees_lem g [] = ground arith
sees_lem g (a ∷ rows) = ground (arith, sees_lem g rows)

module _ (u : String) (rows : List Assignment) (g : String) where
  rank-global : rank (new_scope u rows).global ≡ top_global rows
  unfolding new_scope rank
  rank-global = rank-global-add_rows rows _ ∙ omega arith

  rank-role_on_group : rank (role_on_group (new_scope u rows) g) ≡ top_on g rows
  unfolding new_scope role_on_group rank lookup
  rank-role_on_group = rank-role_on_group-add_rows g rows _ ∙ omega arith

  is_present-new_scope :
      is_present (lookup g (new_scope u rows).group_role) ≡ any (λ a. on_group g a.group_id) rows
  unfolding new_scope is_present lookup
  is_present-new_scope = ground (arith, is_present-add_rows g rows (blank u rows))

is_admin-rank : (r : Role) → is_admin r ≡ leb 3 (rank r)
unfolding rank
is_admin-rank r = ground arith

can_operate-rank : (r : Role) → (is_admin r || is_operator r) ≡ leb 2 (rank r)
unfolding rank
can_operate-rank r = ground arith

-- The resolved global role is unset, or has a rank: an unknown role is never taken.
abbrev IsKnown : Role → Type 0
IsKnown r = is_set r ≡ leb 1 (rank r)

IsKnown-add_row :
    (k : Option String) (r : Role) (s : Scope) → IsKnown s.global → IsKnown (add_row k r s).global
unfolding add_row raise_global raise_group rank
IsKnown-add_row none r s h = ground arith
IsKnown-add_row (some g) r s h = elim (Option-cases (lookup g s.group_role)) [
  | inl e ↦ rw e h
  | inr (c, e) ↦ rw e (ground arith)
]

IsKnown-add_rows :
    (rows : List Assignment) (s : Scope) → IsKnown s.global → IsKnown (add_rows rows s).global
unfolding add_rows
IsKnown-add_rows [] s h = h
IsKnown-add_rows (a ∷ rows) s h =
    IsKnown-add_rows rows (add_row a.group_id a.role s) (IsKnown-add_row a.group_id a.role s h)

IsKnown-new_scope : (u : String) (rows : List Assignment) → IsKnown (new_scope u rows).global
unfolding new_scope rank
IsKnown-new_scope u rows = IsKnown-add_rows rows _ refl

module _ (u : String) (rows : List Assignment) (g : String) where
  -- What a resolved scope allows on a group follows from the rows alone: an operator needs a
  -- covering row of rank 2, an administrator one of rank 3, and a reader a known global role or any
  -- row of the group.
  pub decisions-new_scope :
      (can_read_group (new_scope u rows) g ≡ sees g rows)
      × (can_operate_group (new_scope u rows) g ≡ holds 2 g rows)
      × (can_admin_group (new_scope u rows) g ≡ holds 3 g rows)
  unfolding can_read_group can_operate_group can_admin_group
  decisions-new_scope =
      let s = new_scope u rows in
      let top = rank-global u rows g in
      let top_group = rank-role_on_group u rows g in
      (
        rw sees_lem (ground (arith, IsKnown-new_scope u rows, top, is_present-new_scope u rows g)),
        rw holds_lem (
            ground (
              arith,
              can_operate-rank s.global,
              can_operate-rank (role_on_group s g),
              top,
              top_group,
            )),
        rw holds_lem (
            ground
              (arith, is_admin-rank s.global, is_admin-rank (role_on_group s g), top, top_group)),
      )

-- The order in which the rows come does not change what a scope allows on a group.
pub decisions-perm :
    (u : String) {rows rows' : List Assignment} (g : String)
    → Perm rows rows'
    → (can_read_group (new_scope u rows) g ≡ can_read_group (new_scope u rows') g)
      × (can_operate_group (new_scope u rows) g ≡ can_operate_group (new_scope u rows') g)
      × (can_admin_group (new_scope u rows) g ≡ can_admin_group (new_scope u rows') g)
decisions-perm u {rows} {rows'} g p =
    let (r, o, a) = decisions-new_scope u rows g in
    let (r', o', a') = decisions-new_scope u rows' g in
    unfold sees holds in
    (r ∙ any-perm _ p ∙ sym r', o ∙ any-perm _ p ∙ sym o', a ∙ any-perm _ p ∙ sym a')
