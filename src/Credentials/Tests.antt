-- ===== src/Credentials/Tests.antt =====
-- internal/credentials: runs, and the theorems at concrete inputs.
use system_wrangler_backend.Prelude.{◌≡◌, refl, true, some, [], ◌∷◌, Bytes, codes}
use system_wrangler_backend.Credentials.{
  ScopeKind, global, group, system, other, unset, sw_generated, Slot, Answer, found, not_found,
  validate, resolve,
}
use system_wrangler_backend.Credentials.Fields.{
  first, has_user, holds_key, slots_of, verdict, resolve-verdict,
}

abbrev group_slot : Slot
group_slot = record {
  scope_kind = group;
  scope_id = codes "db";
  ansible_user = codes "deploy";
  public_key = [];
  private_key = record { ciphertext = []; nonce = []; version = 0 };
  origin = unset;
}

abbrev global_slot : Slot
global_slot = record {
  scope_kind = global;
  scope_id = [];
  ansible_user = codes "root";
  public_key = codes "ssh-ed25519 AAAA";
  private_key = record { ciphertext = 7 ∷ []; nonce = 1 ∷ []; version = 1 };
  origin = sw_generated;
}

abbrev store : ScopeKind → Bytes → Answer
store global id = found global_slot
store group id = found group_slot
store system id = not_found
store (other k) id = not_found

global_slot_valid : validate global_slot ≡ true
unfolding validate
global_slot_valid = refl

user_of_group_key_of_global :
    resolve store (codes "web") (some (codes "db")) ≡ verdict (some group_slot) (some global_slot)
unfolding resolve verdict
user_of_group_key_of_global = refl

resolve-verdict_example :
    resolve store (codes "web") (some (codes "db"))
    ≡ verdict
        (first has_user (group_slot ∷ global_slot ∷ []))
        (first holds_key (group_slot ∷ global_slot ∷ []))
unfolding slots_of
resolve-verdict_example =
    resolve-verdict store (codes "web") (some (codes "db")) (group_slot ∷ global_slot ∷ []) refl
      refl
