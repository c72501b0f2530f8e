-- ===== src/Notifications/Flush/Plain.antt =====
-- internal/notifications/flusher.go: a flush without its caches.
use system_wrangler_backend.Prelude.{
  ℕ, ◌≡◌, refl, sym, ◌∙◌, Bool, ◌&&◌, Option, none, some, List, [], ◌∷◌, ◌++◌, map, append-nil,
  append_assoc, concat_map, if◌then◌else◌, Bytes, bytes_eq, ◌==◌, Bool-cases, inl, inr, ◌⊎◌,
}
use system_wrangler_backend.Prelude.Cache.{cached, IsFaithful, empty-IsFaithful, cached-load}
use system_wrangler_backend.Notifications.Quiet.{Clock, in_quiet_hours}
use system_wrangler_backend.Notifications.Routing.{Channel}
use system_wrangler_backend.Notifications.Dispatch.{
  Transition, Pending, Action, send, Store, or_else, routing_of, user_channels_of, fan_out,
  routed_targets,
}
use system_wrangler_backend.Notifications.Flush.{
  Key, key_eq, Groups, collapses, last_of, Progress, start, governing_of, enabled_of, still_quiet,
  to_shared, to_user, release, mark, send_last, flush_group, flush_groups,
}
use system_wrangler_backend.Notifications.Flush.Episode.{
  final, tells_fired, tells_resolved, final-last_of, collapses-tells,
}
use system_wrangler_backend.Notifications.Expected.{
  routes, targets_for-routes, routing_for, owner_policy, all_channels, own_channels,
}

abbrev pub ids : List Pending → List Bytes
ids items = map (λ p. p.id) items

module _ (load_location : Bytes → Option Clock) (utc : Clock) (now : ℕ) (st : Store) where
  -- Where a transition of an owner goes: the channels its rule routes to, or those of the user.
  unfoldable pub channels_for : Bytes → Transition → List Channel
  channels_for uid tr =
      if uid == []
      then routes (routing_for st tr.rule_id) (all_channels st)
      else own_channels st uid

  -- What is sent for the items of an owner who is no longer quiet.
  of_final : Bytes → Bool → Option Pending → List Action
  unfolding channels_for
  of_final uid both none = []
  of_final uid both (some p) =
      if both then [] else map (λ c. send c p.transition uid) (channels_for uid p.transition)

  unfoldable pub episode : Bytes → List Pending → List Action
  unfolding of_final
  episode uid items = of_final uid (tells_fired items && tells_resolved items) (final items)

  -- The policy of an owner holds its rows back.
  abbrev pub waits : Bytes → Bool
  waits uid = in_quiet_hours load_location utc (owner_policy st uid) now

  unfoldable pub owed : Key → List Pending → List Action
  unfolding episode
  owed k items = if waits k.0 then [] else episode k.0 items

  pub episode-nil : (uid : Bytes) → episode uid [] ≡ []
  unfolding episode of_final
  episode-nil uid = refl

  pub episode-cons :
      (uid : Bytes) (p : Pending) (rest : List Pending)
      → let tr = (last_of p rest).transition in
        episode uid (p ∷ rest)
        ≡ (if collapses (p ∷ rest) then [] else fan_out (channels_for uid tr) tr uid)
  unfolding episode of_final
  episode-cons uid p rest = rw (collapses-tells (p ∷ rest), final-last_of p rest) refl

  -- The rows of a group that a flush has done with.
  unfoldable pub done : Key → List Pending → List Bytes
  done k items = if waits k.0 then [] else ids items

  abbrev IsPlain : Progress → Type 0
  IsPlain s =
      IsFaithful (routing_of st) s.caches.routings
      × IsFaithful (governing_of st) s.caches.policies
      × IsFaithful (user_channels_of st) s.caches.channels
      × ((s.enabled ≡ none) ⊎ (s.enabled ≡ some (enabled_of st)))

  -- A step from `s` to `s'` that adds the given sends and ids.
  abbrev Adds : List Action → List Bytes → Progress → Progress → Type 0
  Adds acts done_ids s s' =
      (s'.sends ≡ s.sends ++ acts) × (s'.processed ≡ s.processed ++ done_ids) × IsPlain s'

  enabled-plain : (s : Progress) → IsPlain s → or_else s.enabled (enabled_of st) ≡ enabled_of st
  enabled-plain s (r, p, u, inl e) = rw e refl
  enabled-plain s (r, p, u, inr e) = rw e refl

  to_shared-Adds :
      (tr : Transition) (s : Progress)
      → IsPlain s
      → Adds
          (fan_out (routes (routing_for st tr.rule_id) (all_channels st)) tr [])
          []
          s
          (to_shared load_location utc now st tr s)
  unfolding to_shared routed_targets
  to_shared-Adds tr s h =
      let (r, p, u, e) = h in
      let (hit, f) = cached-load (routing_of st) tr.rule_id s.caches.routings r in
      rw (enabled-plain s h, hit, targets_for-routes (routing_for st tr.rule_id) (all_channels st))
        (refl, sym (append-nil _), (f, p, u, inr refl))

  to_user-Adds :
      (uid : Bytes) (tr : Transition) (s : Progress)
      → IsPlain s
      → Adds
          (fan_out (user_channels_of st uid) tr uid)
          []
          s
          (to_user load_location utc now st uid tr s)
  unfolding to_user
  to_user-Adds uid tr s (r, p, u, e) =
      let (hit, f) = cached-load (user_channels_of st) uid s.caches.channels u in
      rw hit (refl, sym (append-nil _), (r, p, f, e))

  release-Adds :
      (uid : Bytes) (tr : Transition) (s : Progress)
      → IsPlain s
      → Adds (fan_out (channels_for uid tr) tr uid) [] s (release load_location utc now st uid tr s)
  unfolding release channels_for
  release-Adds uid tr s h = elim (Bool-cases (uid == [])) [
    | inl e ↦
        let same : uid ≡ [] = (bytes_eq.test_iff uid []).0 e in rw (e, same) (to_shared-Adds tr s h)
    | inr e ↦ rw e (to_user-Adds uid tr s h)
  ]

  nothing-Adds : (s : Progress) → IsPlain s → Adds [] [] s s
  nothing-Adds s h = (sym (append-nil _), sym (append-nil _), h)

  send_cons :
      (uid : Bytes) (p : Pending) (rest : List Pending) (s : Progress)
      → IsPlain s
      → let tr = (last_of p rest).transition in
        Adds
          (if collapses (p ∷ rest) then [] else fan_out (channels_for uid tr) tr uid)
          []
          s
          (send_last load_location utc now st uid (p ∷ rest) s)
  unfolding send_last
  send_cons uid p rest s h = elim (Bool-cases (collapses (p ∷ rest))) [
    | inl e ↦ rw e (nothing-Adds s h)
    | inr e ↦ rw e (release-Adds uid (last_of p rest).transition s h)
  ]

  send_last-Adds :
      (uid : Bytes) (items : List Pending) (s : Progress)
      → IsPlain s
      → Adds (episode uid items) [] s (send_last load_location utc now st uid items s)
  unfolding send_last episode of_final
  send_last-Adds uid [] s h = nothing-Adds s h
  send_last-Adds uid (p ∷ rest) s h = rw (episode-cons uid p rest) (send_cons uid p rest s h)

  after_mark :
      (acts : List Action) (items : List Pending) (s s' : Progress)
      → Adds acts [] (mark load_location utc now st items s) s'
      → Adds acts (ids items) s s'
  unfolding mark
  after_mark acts items s s' (a, b, h) = (a, b ∙ append-nil _, h)

  flush_group-Adds :
      (k : Key) (items : List Pending) (s : Progress)
      → IsPlain s
      → Adds (owed k items) (done k items) s (flush_group load_location utc now st k items s)
  unfolding flush_group owed done
  flush_group-Adds k items s (r, p, u, e) =
      let (hit, f) = cached-load (governing_of st) k.0 s.caches.policies p in
      let s' : Progress = record s {
        caches = record s.caches { policies = (cached (governing_of st) k.0 s.caches.policies).1 };
      } in
      elim (Bool-cases (still_quiet load_location utc now st k.0)) [
        | inl q ↦ rw (hit, q) (nothing-Adds s' (r, f, u, e))
        | inr q ↦
            rw (hit, q)
              (after_mark (episode k.0 items) items s' _
                (send_last-Adds k.0 items (mark load_location utc now st items s') (r, f, u, e)))
      ]

  pub flush_groups-Adds :
      (groups : Groups) (s : Progress)
      → IsPlain s
      → Adds
          (concat_map (λ (k, items). owed k items) groups)
          (concat_map (λ (k, items). done k items) groups)
          s
          (flush_groups load_location utc now st groups s)
  unfolding flush_groups
  flush_groups-Adds [] s h = nothing-Adds s h
  flush_groups-Adds ((k, items) ∷ rest) s h =
      let (a, b, h') = flush_group-Adds k items s h in
      let (a', b', h'') = flush_groups-Adds rest _ h' in
      (
        a' ∙ rw (a, append_assoc s.sends (owed k items) _) refl,
        b' ∙ rw (b, append_assoc s.processed (done k items) _) refl,
        h'',
      )

  pub start-IsPlain : IsPlain start
  start-IsPlain = (
    empty-IsFaithful (routing_of st),
    empty-IsFaithful (governing_of st),
    empty-IsFaithful (user_channels_of st),
    inl refl,
  )
