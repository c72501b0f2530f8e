-- ===== src/Credentials.antt =====
-- internal/credentials: the slots of credentials.go, and the walk of resolve.go from a system over its
-- group to the global slot. The store is a parameter. The id and the times of a slot are left out.
pub mod Fields
mod Tests
use system_wrangler_backend.Prelude.{
  ℕ, Bool, true, false, ◌&&◌, ◌||◌, not, Option, none, some, List, [], ◌∷◌, if◌then◌else◌, Bytes,
}

pub data ScopeKind : Type 0 where
  global group system : ScopeKind
  other : Bytes → ScopeKind

-- The empty text is `unset`.
pub data Origin : Type 0 where
  unset sw_generated user_supplied : Origin
  unknown : Bytes → Origin

pub record Sealed : Type 0 where
  pub ciphertext : Bytes
  pub nonce : Bytes
  pub version : ℕ

pub record Slot : Type 0 where
  pub scope_kind : ScopeKind
  pub scope_id : Bytes
  pub ansible_user : Bytes
  pub public_key : Bytes
  pub private_key : Sealed
  pub origin : Origin

-- `s == ""`, and `len(s.Ciphertext) == 0`
abbrev pub is_empty : Bytes → Bool
is_empty [] = true
is_empty (_ ∷ _) = false

abbrev pub is_zero : Sealed → Bool
is_zero s = is_empty s.ciphertext

abbrev pub has_key : Slot → Bool
has_key s = not (is_empty s.public_key) && not (is_zero s.private_key)

is_scope : ScopeKind → Bytes → Bool
is_scope global id = is_empty id
is_scope group id = not (is_empty id)
is_scope system id = not (is_empty id)
is_scope (other _) id = false

is_known : Origin → Bool
is_known sw_generated = true
is_known user_supplied = true
is_known _ = false

is_unset : Origin → Bool
is_unset unset = true
is_unset _ = false

-- `Slot.Validate`: true where it returns no error.
pub validate : Slot → Bool
unfolding is_scope is_known is_unset
validate s =
    if not (is_scope s.scope_kind s.scope_id)
    then false
    else if is_empty s.ansible_user && not (has_key s)
    then false
    else if not (is_empty s.public_key) && is_zero s.private_key
        || is_empty s.public_key && not (is_zero s.private_key)
    then false
    else if has_key s && not (is_known s.origin)
    then false
    else has_key s || is_unset s.origin

pub record Resolved : Type 0 where
  pub ansible_user : Bytes
  pub user_source : ScopeKind
  pub public_key : Bytes
  pub private_key : Sealed
  pub key_source : ScopeKind
  pub key_origin : Origin

abbrev pub blank : Resolved
blank = record {
  ansible_user = [];
  user_source = other [];
  public_key = [];
  private_key = record { ciphertext = []; nonce = []; version = 0 };
  key_source = other [];
  key_origin = unset;
}

-- What `GetByScope` answers: a slot, `ErrNotFound`, or another error.
pub data Answer : Type 0 where
  found : Slot → Answer
  not_found broken : Answer

pub data Outcome : Type 0 where
  ok : Resolved → Outcome
  missing_id store_failed no_credentials incomplete_flow : Outcome

-- The body of the loop over the scopes.
pub merge_user : Slot → Resolved → Resolved
merge_user s r =
    if is_empty r.ansible_user && not (is_empty s.ansible_user)
    then record r { ansible_user = s.ansible_user; user_source = s.scope_kind }
    else r

pub merge_key : Slot → Resolved → Resolved
merge_key s r =
    if is_empty r.public_key && has_key s
    then record r {
      public_key = s.public_key;
      private_key = s.private_key;
      key_origin = s.origin;
      key_source = s.scope_kind;
    }
    else r

-- `buildScopeChain`; none is a nil group id.
pub build_scope_chain : Bytes → Option Bytes → List (ScopeKind × Bytes)
build_scope_chain id none = (system, id) ∷ (global, []) ∷ []
build_scope_chain id (some g) =
    if is_empty g
    then (system, id) ∷ (global, []) ∷ []
    else (system, id) ∷ (group, g) ∷ (global, []) ∷ []

module _ (get_by_scope : ScopeKind → Bytes → Answer) where
  -- The loop over the scopes: none where a read fails.
  pub walk : List (ScopeKind × Bytes) → Resolved → Option Resolved
  unfolding merge_user merge_key
  walk [] r = some r
  walk ((k, id) ∷ rest) r = elim (get_by_scope k id) [
    | found s ↦ walk rest (merge_key s (merge_user s r))
    | not_found ↦ walk rest r
    | broken ↦ none
  ]

  finish : Option Resolved → Outcome
  finish none = store_failed
  finish (some r) =
      if is_empty r.ansible_user && is_empty r.public_key
      then no_credentials
      else if is_empty r.ansible_user || is_empty r.public_key
      then incomplete_flow
      else ok r

  pub resolve : Bytes → Option Bytes → Outcome
  unfolding walk finish build_scope_chain
  resolve id system_group =
      if is_empty id then missing_id else finish (walk (build_scope_chain id system_group) blank)
