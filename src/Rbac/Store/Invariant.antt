-- ===== src/Rbac/Store/Invariant.antt =====
-- internal/rbac/store.go: a global administrator always remains, and keys stay unique.
use system_wrangler_backend.Prelude.{
  ◌⊎◌, ℕ, ◌≤◌, ◌<◌, String, ◌≡◌, refl, Bool, true, false, ◌&&◌, Option, none, some, List, [], ◌∷◌,
  arith, inl, inr, Bool-cases, if◌then◌else◌, string_eq, eq_iff, any, length, nat_beq,
}
use system_wrangler_backend.Rbac.{Role, admin, other, Assignment}
use system_wrangler_backend.Rbac.Store.{
  Error, last_global_admin, done, err, Call, rows_affected, exec, begin, count, commit, Table,
  role_beq, same_key, same_group, selects, is_global_admin_row, count_global_admins, without,
  coalesce, grant, revoke,
}

role_beq→eq : (r q : Role) → role_beq r q ≡ true → r ≡ q
unfolding role_beq
role_beq→eq (other s) (other t) h = ground (arith, eq_iff s t)
role_beq→eq r q h = ground arith

role_beq_self : (r : Role) → role_beq r r ≡ true
unfolding role_beq
role_beq_self (other s) = (eq_iff s s).1 refl
role_beq_self admin = refl
role_beq_self _ = refl

same_group→eq : (k l : Option String) → same_group k l ≡ true → k ≡ l
unfolding same_group
same_group→eq none none h = refl
same_group→eq none (some l) h = ground arith
same_group→eq (some k) none h = ground arith
same_group→eq (some k) (some l) h = ground (arith, eq_iff k l)

same_group_self : (k : Option String) → same_group k k ≡ true
unfolding same_group
same_group_self none = refl
same_group_self (some g) = (eq_iff g g).1 refl

selects-is_global_admin_row :
    (a b : Assignment) → selects a b ≡ true → is_global_admin_row b ≡ is_global_admin_row a
unfolding is_global_admin_row
selects-is_global_admin_row a b h =
    unfold selects in ground (arith, role_beq→eq a.role b.role, same_group→eq a.group_id b.group_id)

selects-same_key : (a b : Assignment) → same_key a b ≡ false → selects a b ≡ false
unfolding selects same_key
selects-same_key a b h =
    ground (
      arith,
      same_group→eq a.group_id b.group_id,
      eq_iff (coalesce a.group_id) (coalesce b.group_id),
    )

selects_self : (a : Assignment) → selects a a ≡ true
unfolding selects
selects_self a =
    ground (arith, eq_iff a.user_id a.user_id, role_beq_self a.role, same_group_self a.group_id)

-- Rows that the deletion of `a` does not take are counted as before.
count-without :
    (a : Assignment) (rows : Table)
    → is_global_admin_row a ≡ false
    → count_global_admins (without a rows) ≡ count_global_admins rows
unfolding count_global_admins
count-without a [] h = refl
count-without a (b ∷ rows) h =
    ground (arith, count-without a rows h, selects-is_global_admin_row a b)

module _ (fk : Assignment → Bool) (fails : Call → Bool) where
  grant-admins :
      (a : Assignment) (rows : Table)
      → count_global_admins rows ≤ count_global_admins (grant fk fails a rows).1
  unfolding grant count_global_admins
  grant-admins a rows = ground arith

module _ (fails : Call → Bool) where
  -- Whatever the outcome, a revocation from a table with a global administrator leaves one.
  pub revoke-keeps_admin :
      (a : Assignment) (rows : Table)
      → 0 < count_global_admins rows
      → 0 < count_global_admins (revoke fails a rows).1
  unfolding revoke is_global_admin_row
  revoke-keeps_admin a rows h = ground (arith, count-without a rows)

  -- A revocation that reports an error has changed nothing, provided that the driver can tell the
  -- number of rows that a statement took.
  pub revoke_error_changes_nothing :
      (a : Assignment) (rows : Table) (e : Error)
      → fails rows_affected ≡ false
      → (revoke fails a rows).0 ≡ err e
      → (revoke fails a rows).1 ≡ rows
  unfolding revoke
  revoke_error_changes_nothing a rows e ok h = ground arith

-- The unique index: no two rows have the same key.
abbrev pub IsUnique : Table → Type 0
IsUnique [] = Unit {0}
IsUnique (a ∷ rows) = (any (same_key a) rows ≡ false) × IsUnique rows

any-without :
    (a b : Assignment) (rows : Table)
    → any (same_key b) rows ≡ false
    → any (same_key b) (without a rows) ≡ false
any-without a b [] h = refl
any-without a b (c ∷ rows) h = ground (arith, any-without a b rows)

without-IsUnique : (a : Assignment) (rows : Table) → IsUnique rows → IsUnique (without a rows)
without-IsUnique a [] u = tt
without-IsUnique a (b ∷ rows) u = elim (Bool-cases (selects a b)) [
  | inl e ↦ rw e (without-IsUnique a rows u.1)
  | inr e ↦ rw e (any-without a b rows u.0, without-IsUnique a rows u.1)
]

-- Nothing is taken from a table that has no row of the same key.
without-fresh :
    (a : Assignment) (rows : Table) → any (same_key a) rows ≡ false → without a rows ≡ rows
without-fresh a [] h = refl
without-fresh a (b ∷ rows) h = ground (arith, without-fresh a rows, selects-same_key a b)

grant-table :
    (fk : Assignment → Bool) (fails : Call → Bool) (a : Assignment) (rows : Table)
    → ((grant fk fails a rows).1 ≡ rows)
      ⊎ ((any (same_key a) rows ≡ false) × ((grant fk fails a rows).1 ≡ a ∷ rows))
unfolding grant
grant-table fk fails a rows = ground arith

revoke-table :
    (fails : Call → Bool) (a : Assignment) (rows : Table)
    → ((revoke fails a rows).1 ≡ rows) ⊎ ((revoke fails a rows).1 ≡ without a rows)
unfolding revoke
revoke-table fails a rows = ground arith

module _ (fk : Assignment → Bool) (fails : Call → Bool) (a : Assignment) (rows : Table) where
  -- Neither a grant nor a revocation puts two rows of one key into the table.
  pub store-IsUnique :
      IsUnique rows → IsUnique (grant fk fails a rows).1 × IsUnique (revoke fails a rows).1
  store-IsUnique u = (
    elim (grant-table fk fails a rows) [ inl e ↦ rw e u | inr (fresh, e) ↦ rw e (fresh, u) ],
    elim (revoke-table fails a rows) [ inl e ↦ rw e u | inr e ↦ rw e (without-IsUnique a rows u) ],
  )

  -- Where no database call fails, a revocation takes back what a grant has put in, and a grant of
  -- the first global administrator cannot be taken back.
  pub revoke-grant :
      ((c : Call) → fails c ≡ false)
      → (grant fk fails a rows).0 ≡ done
      → revoke fails a (grant fk fails a rows).1 ≡ (
          if is_global_admin_row a && nat_beq (count_global_admins rows) 0
          then (err last_global_admin, a ∷ rows)
          else (done, rows))
  unfolding grant revoke is_global_admin_row
  revoke-grant calls h = ground (
    arith,
    calls exec,
    calls rows_affected,
    calls begin,
    calls count,
    calls commit,
    without-fresh a rows,
    selects_self a,
  )

-- What a client of the store asks for.
pub data Request : Type 0 where
  granting revoking : Assignment → Request

module _ (fk : Assignment → Bool) (fails : ℕ → Call → Bool) where
  -- The requests in their order; `fails n` says which calls fail while `n` requests are left.
  pub serve : List Request → Table → Table
  serve [] rows = rows
  serve (granting a ∷ rest) rows = serve rest (grant fk (fails (length rest)) a rows).1
  serve (revoking a ∷ rest) rows = serve rest (revoke (fails (length rest)) a rows).1

  -- Once there is a global administrator, no sequence of grants and revocations, failing or not,
  -- removes the last one.
  pub serve-keeps_admin :
      (requests : List Request) (rows : Table)
      → 0 < count_global_admins rows
      → 0 < count_global_admins (serve requests rows)
  unfolding serve
  serve-keeps_admin [] rows h = h
  serve-keeps_admin (granting a ∷ rest) rows h =
      serve-keeps_admin rest _ (omega (arith, grant-admins fk (fails (length rest)) a rows))
  serve-keeps_admin (revoking a ∷ rest) rows h =
      serve-keeps_admin rest _ (revoke-keeps_admin (fails (length rest)) a rows h)
