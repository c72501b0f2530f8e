-- ===== src/Notifications/Flush.antt =====
-- internal/notifications/flusher.go: `FlushPending`, on the rows that `ListPending` of sqlite_store.go gives,
-- oldest first. A flush starts sends, and leaves rows. Log lines and the ticker are left out.
pub mod Groups
pub mod Episode
pub mod Plain
pub mod Owed
pub mod Left
mod Tests
use system_wrangler_backend.Prelude.{
  ℕ, Bool, true, false, ◌&&◌, not, Option, none, some, List, [], ◌∷◌, ◌++◌, map, any, keep,
  if◌then◌else◌, Bytes, bytes_eq, pair_eq, ◌==◌,
}
use system_wrangler_backend.Prelude.Eq.{Eq}
use system_wrangler_backend.Prelude.Maps.{Map, lookup, insert}
use system_wrangler_backend.Prelude.Cache.{cached}
use system_wrangler_backend.Alerts.{TransitionKind, fired, resolved}
use system_wrangler_backend.Notifications.Quiet.{Policy, default_policy, Clock, in_quiet_hours}
use system_wrangler_backend.Notifications.Routing.{Channel}
use system_wrangler_backend.Notifications.Dispatch.{
  Transition, Pending, Action, Store, or_else, user_channels_of, Caches, no_caches, fan_out,
  routed_targets,
}

-- The user, the rule and the system of a group.
abbrev pub Key : Type 0
Key = Bytes × (Bytes × Bytes)

instance abbrev pub key_eq : Eq Key
key_eq = pair_eq ⦃d = bytes_eq⦄ ⦃e = pair_eq ⦃d = bytes_eq⦄ ⦃e = bytes_eq⦄⦄

abbrev pub key_of : Pending → Key
key_of p = (p.user_id, (p.transition.rule_id, p.transition.system_id))

-- The groups with their order.
abbrev pub Groups : Type 0
Groups = Map Key (List Pending)

abbrev pub add_to : Pending → Groups → Groups
add_to p groups = insert (key_of p) (or_else (lookup (key_of p) groups) [] ++ p ∷ []) groups

unfoldable pub group_from : Groups → List Pending → Groups
group_from groups [] = groups
group_from groups (p ∷ ps) = group_from (add_to p groups) ps

unfoldable pub is_fired : Pending → Bool
is_fired p = elim p.transition.kind [ fired ↦ true | resolved ↦ false ]

unfoldable pub collapses : List Pending → Bool
unfolding is_fired
collapses items = any is_fired items && any (λ p. not (is_fired p)) items

unfoldable pub last_of : Pending → List Pending → Pending
last_of p [] = p
last_of p (q ∷ rest) = last_of q rest

-- The rows that stay; `DELETE ... WHERE id IN`.
unfoldable pub delete_pending : List Bytes → List Pending → List Pending
delete_pending ids rows = keep (λ p. not (any (λ i. i == p.id) ids)) rows

-- The variables of a flush. The channels of the shared path are read when a group first needs them.
pub record Progress : Type 0 where
  pub caches : Caches
  pub enabled : Option (List Channel)
  pub processed : List Bytes
  pub sends : List Action

abbrev pub start : Progress
start = record { caches = no_caches; enabled = none; processed = []; sends = [] }

-- What the reads give behind their error paths.
abbrev pub governing_of : Store → Bytes → Policy
governing_of st uid =
    or_else (if uid == [] then st.get_policy else st.get_user_policy uid) default_policy

abbrev pub enabled_of : Store → List Channel
enabled_of st = or_else st.list_enabled []

module _ (load_location : Bytes → Option Clock) (utc : Clock) (now : ℕ) (st : Store) where
  abbrev pub still_quiet : Bytes → Bool
  still_quiet uid = in_quiet_hours load_location utc (governing_of st uid) now

  unfoldable pub to_shared : Transition → Progress → Progress
  to_shared tr s =
      let enabled = or_else s.enabled (enabled_of st) in
      let (targets, caches) = routed_targets load_location utc now st tr.rule_id enabled s.caches in
      record s { caches = caches; enabled = some enabled; sends = s.sends ++ fan_out targets tr [] }

  unfoldable pub to_user : Bytes → Transition → Progress → Progress
  to_user uid tr s =
      let (cs, channels) = cached (user_channels_of st) uid s.caches.channels in
      record s {
        caches = record s.caches { channels = channels };
        sends = s.sends ++ fan_out cs tr uid;
      }

  unfoldable pub release : Bytes → Transition → Progress → Progress
  unfolding to_shared to_user
  release uid tr s = if uid == [] then to_shared tr s else to_user uid tr s

  unfoldable pub mark : List Pending → Progress → Progress
  mark items s = record s { processed = s.processed ++ map (λ p. p.id) items }

  -- The end of the body of the loop; a group has an item.
  unfoldable pub send_last : Bytes → List Pending → Progress → Progress
  unfolding release
  send_last uid [] s = s
  send_last uid (p ∷ rest) s =
      if collapses (p ∷ rest) then s else release uid (last_of p rest).transition s

  -- The body of the loop over the groups.
  unfoldable pub flush_group : Key → List Pending → Progress → Progress
  unfolding mark send_last
  flush_group k items s =
      let (pol, policies) = cached (governing_of st) k.0 s.caches.policies in
      let s' : Progress = record s { caches = record s.caches { policies = policies } } in
      if in_quiet_hours load_location utc pol now then s' else send_last k.0 items (mark items s')

  unfoldable pub flush_groups : Groups → Progress → Progress
  unfolding flush_group
  flush_groups [] s = s
  flush_groups ((k, items) ∷ rest) s = flush_groups rest (flush_group k items s)

  -- The sends, and the rows behind a flush; `deletes` says if `DeletePending` succeeds.
  pub flush_pending : Bool → List Pending → List Action × List Pending
  unfolding flush_groups
  flush_pending deletes rows =
      let s = flush_groups (group_from [] rows) start in
      (s.sends, if deletes then delete_pending s.processed rows else rows)
