-- ===== src/Credentials/Fields.antt =====
-- internal/credentials/resolve.go: which slot each field comes from.
use system_wrangler_backend.Prelude.{
  ◌≡◌, refl, ◌∙◌, Bool, true, false, not, Option, none, some, List, [], ◌∷◌, ◌++◌, ◌&&◌,
  if◌then◌else◌, arith, Bytes, Bool-cases, Option-cases, inl, inr,
}
use system_wrangler_backend.Prelude.Maybe.{none_not_some, transport_some}
use system_wrangler_backend.Credentials.{
  ScopeKind, global, group, system, Slot, Resolved, blank, Answer, found, not_found, broken,
  Outcome, ok, no_credentials, incomplete_flow, is_empty, has_key, merge_user, merge_key, walk,
  finish, build_scope_chain, resolve,
}

-- The first slot that has a field.
abbrev pub first : (Slot → Bool) → List Slot → Option Slot
first p [] = none
first p (s ∷ rest) = let later = first p rest in if p s then some s else later

abbrev pub is_absent : Bytes → Bool
is_absent [] = true
is_absent (_ ∷ _) = false

abbrev pub has_user : Slot → Bool
has_user s = not (is_absent s.ansible_user)

abbrev pub holds_key : Slot → Bool
holds_key s = not (is_absent s.public_key) && not (is_absent s.private_key.ciphertext)

-- The slots that are asked, the most specific one first: that of the system, that of its group if it
-- has one, and the global one in any case.
abbrev pub group_part : Option Bytes → List (ScopeKind × Bytes)
group_part none = []
group_part (some []) = []
group_part (some (x ∷ xs)) = (group, x ∷ xs) ∷ []

abbrev pub way : Bytes → Option Bytes → List (ScopeKind × Bytes)
way id system_group = (system, id) ∷ group_part system_group ++ (global, []) ∷ []

build_scope_chain-way :
    (id : Bytes) (system_group : Option Bytes)
    → build_scope_chain id system_group ≡ way id system_group
unfolding build_scope_chain
build_scope_chain-way id none = refl
build_scope_chain-way id (some []) = refl
build_scope_chain-way id (some (x ∷ xs)) = refl

add_slot : Answer → Option (List Slot) → Option (List Slot)
add_slot (found s) none = none
add_slot (found s) (some later) = some (s ∷ later)
add_slot not_found later = later
add_slot broken later = none

-- The slots that the scopes hold: none where a read fails.
module _ (get_by_scope : ScopeKind → Bytes → Answer) where
  unfoldable pub slots_of : List (ScopeKind × Bytes) → Option (List Slot)
  unfolding add_slot
  slots_of [] = some []
  slots_of ((k, id) ∷ rest) = add_slot (get_by_scope k id) (slots_of rest)

merge_all : List Slot → Resolved → Resolved
merge_all [] r = r
merge_all (s ∷ rest) r = merge_all rest (merge_key s (merge_user s r))

-- The outcome, from the slot of the user and the slot of the key.
unfoldable pub verdict : Option Slot → Option Slot → Outcome
verdict none none = no_credentials
verdict (some u) none = incomplete_flow
verdict none (some k) = incomplete_flow
verdict (some u) (some k) = ok (record {
  ansible_user = u.ansible_user;
  user_source = u.scope_kind;
  public_key = k.public_key;
  private_key = k.private_key;
  key_source = k.scope_kind;
  key_origin = k.origin;
})

fill_user : Option Slot → Resolved → Resolved
fill_user none r = r
fill_user (some u) r = record r { ansible_user = u.ansible_user; user_source = u.scope_kind }

fill_key : Option Slot → Resolved → Resolved
fill_key none r = r
fill_key (some k) r = record r {
  public_key = k.public_key;
  private_key = k.private_key;
  key_source = k.scope_kind;
  key_origin = k.origin;
}

merge_step :
    (s : Slot) (r : Resolved) (user key : Option Slot)
    → let merged = merge_key s (merge_user s r) in
      fill_key
        (if is_empty merged.public_key then key else none)
        (fill_user (if is_empty merged.ansible_user then user else none) merged)
      ≡ fill_key (if is_empty r.public_key then if has_key s then some s else key else none) (
          fill_user
            (if is_empty r.ansible_user then if has_user s then some s else user else none)
            r)
unfolding fill_key fill_user merge_user merge_key
merge_step s r user key = ground arith

nothing_left :
    (r : Resolved) (b c : Bool)
    → r ≡ fill_key (if b then none else none) (fill_user (if c then none else none) r)
unfolding fill_key fill_user
nothing_left r true true = refl
nothing_left r true false = refl
nothing_left r false true = refl
nothing_left r false false = refl

merge_all-filled :
    (slots : List Slot) (r : Resolved)
    → merge_all slots r
      ≡ fill_key
          (if is_empty r.public_key then first has_key slots else none)
          (fill_user (if is_empty r.ansible_user then first has_user slots else none) r)
unfolding merge_all
merge_all-filled [] r = nothing_left r (is_empty r.public_key) (is_empty r.ansible_user)
merge_all-filled (s ∷ rest) r =
    merge_all-filled rest (merge_key s (merge_user s r))
    ∙ merge_step s r (first has_user rest) (first has_key rest)

module _ (get_by_scope : ScopeKind → Bytes → Answer) where
  walk_cons :
      (k : ScopeKind) (id : Bytes) (rest : List (ScopeKind × Bytes)) (slots : List Slot)
      (r : Resolved)
      → ((later : List Slot) (r' : Resolved)
          → slots_of get_by_scope rest ≡ some later
          → walk get_by_scope rest r' ≡ some (merge_all later r'))
      → slots_of get_by_scope ((k, id) ∷ rest) ≡ some slots
      → (a : Answer) → get_by_scope k id ≡ a
      → walk get_by_scope ((k, id) ∷ rest) r ≡ some (merge_all slots r)
  unfolding walk merge_all slots_of
  walk_cons k id rest slots r ih h (found s) e = elim (Option-cases (slots_of get_by_scope rest)) [
    | inl e' ↦ absurd (none_not_some (rw (e, e') at h))
    | inr (later, e') ↦
        rw (e, walk)
          (transport_some
            (λ x. walk get_by_scope rest (merge_key s (merge_user s r)) ≡ some (merge_all x r))
            (s ∷ later) slots (rw (e, e') at h) (ih later _ e'))
  ]
  walk_cons k id rest slots r ih h not_found e = rw (e, walk) (ih slots r (rw e at h))
  walk_cons k id rest slots r ih h broken e = absurd (none_not_some (rw e at h))

  walk-merge_all :
      (scopes : List (ScopeKind × Bytes)) (slots : List Slot) (r : Resolved)
      → slots_of get_by_scope scopes ≡ some slots
      → walk get_by_scope scopes r ≡ some (merge_all slots r)
  unfolding walk merge_all slots_of
  walk-merge_all [] slots r h = transport_some (λ x. some r ≡ some (merge_all x r)) [] slots h refl
  walk-merge_all ((k, id) ∷ rest) slots r h =
      walk_cons k id rest slots r (λ later r' e. walk-merge_all rest later r' e) h
        (get_by_scope k id) refl

is_empty-not : (b : Bytes) → not (is_empty b) ≡ true → is_empty b ≡ false
is_empty-not b h = ground arith

first-holds : (p : Slot → Bool) (slots : List Slot) (s : Slot) → first p slots ≡ some s → p s ≡ true
first-holds p [] s h = cc
first-holds p (x ∷ rest) s h = elim (Bool-cases (p x)) [
  | inl e ↦ transport_some (λ y. p y ≡ true) x s (rw e at h) e
  | inr e ↦ first-holds p rest s (rw e at h)
]

finish-verdict :
    (get_by_scope : ScopeKind → Bytes → Answer) (user key : Option Slot)
    → ((u : Slot) → user ≡ some u → has_user u ≡ true)
    → ((k : Slot) → key ≡ some k → has_key k ≡ true)
    → finish get_by_scope (some (fill_key key (fill_user user blank))) ≡ verdict user key
unfolding finish fill_key fill_user verdict
finish-verdict get none none hu hk = refl
finish-verdict get (some u) none hu hk = let a = hu u refl in ground (arith, a)
finish-verdict get none (some k) hu hk = let b = hk k refl in ground (arith, b)
finish-verdict get (some u) (some k) hu hk =
    let a = hu u refl in let b = hk k refl in ground (arith, a, b)

-- Where no read of the store fails, each field of a resolved credential comes from the first slot that has
-- the field among that of the system, that of its group if the system has one, and, for every system, the
-- global one, whatever the other field does; one missing field is an incomplete flow, and two are no
-- credentials.
pub resolve-verdict :
    (get_by_scope : ScopeKind → Bytes → Answer) (id : Bytes) (system_group : Option Bytes)
    (slots : List Slot)
    → is_empty id ≡ false
    → slots_of get_by_scope (way id system_group) ≡ some slots
    → resolve get_by_scope id system_group ≡ verdict (first has_user slots) (first holds_key slots)
unfolding resolve
resolve-verdict get id system_group slots named read =
    rw
      (
        named,
        build_scope_chain-way id system_group,
        walk-merge_all get (way id system_group) slots blank read,
        merge_all-filled slots blank,
      )
      (finish-verdict get (first has_user slots) (first has_key slots) (first-holds has_user slots)
        (first-holds has_key slots))
