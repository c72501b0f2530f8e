-- ===== src/Notifications/Dispatch/Plain.antt =====
-- internal/notifications/dispatcher.go: `Emit` against the policy it carries out, without its caches.
use system_wrangler_backend.Prelude.{
  ℕ, ◌≡◌, refl, Bool, true, false, Option, none, some, List, [], ◌∷◌, ◌++◌, map, concat_map,
  if◌then◌else◌, Bytes, bytes_eq,
}
use system_wrangler_backend.Prelude.Cache.{cached, IsFaithful, empty-IsFaithful, cached-load}
use system_wrangler_backend.Notifications.Modes.{
  DeliveryMode, dashboard, quiet, always, other, mode_for-IsMode, IsMode,
}
use system_wrangler_backend.Notifications.Quiet.{Policy, default_policy, Clock, in_quiet_hours}
use system_wrangler_backend.Notifications.Routing.{Channel}
use system_wrangler_backend.Notifications.Dispatch.{
  Transition, suppressed, deferred, Action, send, record_status, enqueue_pending, Store, or_else,
  routing_of, user_policy_of, user_channels_of, Caches, no_caches, fan_out, is_quiet, enqueue,
  routed_targets, shared_now, shared, user_now, by_user_mode, personal, for_user_cached, for_policy,
  then_do, emit_one, subscribers_of, dispatch_personal, emit_loop, emit_to, emit,
}
use system_wrangler_backend.Notifications.Expected.{
  routes, targets_for-routes, wanted_mode, mode_for-wanted_mode, routing_for, global_policy,
  user_policy, own_channels, asked, listeners,
}

-- What a policy wants of a transition.
pub data Verdict : Type 0 where
  suppress defer deliver : Verdict

of_mode : DeliveryMode → Bool → Verdict
of_mode dashboard is_quiet_now = suppress
of_mode quiet is_quiet_now = if is_quiet_now then defer else deliver
of_mode always is_quiet_now = deliver
of_mode (other _) is_quiet_now = deliver

module _ (load_location : Bytes → Option Clock) (utc : Clock) (now : ℕ) (st : Store) where
  unfoldable pub verdict : Policy → Transition → Verdict
  unfolding of_mode
  verdict p tr = of_mode (wanted_mode p tr.severity) (in_quiet_hours load_location utc p now)

  -- A verdict, carried out for the channels of one owner.
  unfoldable pub carry_out : Verdict → List Channel → Transition → Bytes → List Action
  carry_out suppress cs tr uid = record_status tr suppressed uid ∷ []
  carry_out defer cs tr uid =
      if st.accepts tr uid then enqueue_pending tr uid ∷ record_status tr deferred uid ∷ [] else []
  carry_out deliver cs tr uid = map (λ c. send c tr uid) cs

  -- What each user's own policy wants, for the channels of that user.
  pub for_user : Transition → Bytes → List Action
  for_user tr uid = carry_out (verdict (user_policy st uid) tr) (own_channels st uid) tr uid

  -- What becomes of one transition.
  pub for_transition : List Channel → Transition → List Action
  for_transition enabled tr =
      carry_out (verdict (global_policy st) tr) (routes (routing_for st tr.rule_id) enabled) tr []
      ++ concat_map (for_user tr) (listeners st tr)

  abbrev IsPlain : Caches → Type 0
  IsPlain c =
      IsFaithful (routing_of st) c.routings
      × IsFaithful (user_policy_of st) c.policies
      × IsFaithful (user_channels_of st) c.channels

  -- A step that does the given actions and keeps the caches true.
  abbrev Does : List Action → List Action × Caches → Type 0
  Does acts m = (m.0 ≡ acts) × IsPlain m.1

  shared_now-Does :
      (tr : Transition) (enabled : List Channel) (c : Caches)
      → IsPlain c
      → Does
          (fan_out (routes (routing_for st tr.rule_id) enabled) tr [])
          (shared_now load_location utc now st tr enabled c)
  unfolding shared_now routed_targets
  shared_now-Does tr enabled c (r, p, u) =
      let (e, f) = cached-load (routing_of st) tr.rule_id c.routings r in
      (rw (e, targets_for-routes (routing_for st tr.rule_id) enabled) refl, (f, p, u))

  shared-Does :
      (m : DeliveryMode) (q : Bool) (tr : Transition) (enabled : List Channel) (c : Caches)
      → IsMode m
      → IsPlain c
      → Does
          (carry_out (of_mode m q) (routes (routing_for st tr.rule_id) enabled) tr [])
          (shared load_location utc now st m q tr enabled c)
  unfolding shared carry_out of_mode enqueue
  shared-Does dashboard q tr enabled c m h = (refl, h)
  shared-Does quiet true tr enabled c m h = (refl, h)
  shared-Does quiet false tr enabled c m h = shared_now-Does tr enabled c h
  shared-Does always q tr enabled c m h = shared_now-Does tr enabled c h
  shared-Does (other _) q tr enabled c m h = absurd m

  user_now-Does :
      (uid : Bytes) (tr : Transition) (c : Caches)
      → IsPlain c
      → Does (fan_out (user_channels_of st uid) tr uid) (user_now load_location utc now st uid tr c)
  unfolding user_now
  user_now-Does uid tr c (r, p, u) =
      let (e, f) = cached-load (user_channels_of st) uid c.channels u in (rw e refl, (r, p, f))

  by_user_mode-Does :
      (m : DeliveryMode) (q : Bool) (uid : Bytes) (tr : Transition) (c : Caches)
      → IsPlain c
      → Does
          (carry_out (of_mode m q) (user_channels_of st uid) tr uid)
          (by_user_mode load_location utc now st m q uid tr c)
  unfolding by_user_mode carry_out of_mode enqueue
  by_user_mode-Does dashboard q uid tr c h = (refl, h)
  by_user_mode-Does quiet true uid tr c h = (refl, h)
  by_user_mode-Does quiet false uid tr c h = user_now-Does uid tr c h
  by_user_mode-Does always q uid tr c h = user_now-Does uid tr c h
  by_user_mode-Does (other _) q uid tr c h = user_now-Does uid tr c h

  then_do-Does :
      (acts more : List Action) (m : List Action × Caches) (f : Caches → List Action × Caches)
      → Does acts m
      → ((c : Caches) → IsPlain c → Does more (f c))
      → Does (acts ++ more) (then_do m f)
  unfolding then_do
  then_do-Does acts more (done, c) f (e, h) next = let (e', h') = next c h in (rw (e, e') refl, h')

  for_user_cached-Does :
      (uid : Bytes) (tr : Transition) (c : Caches)
      → IsPlain c
      → Does (for_user tr uid) (for_user_cached load_location utc now st uid tr c)
  unfolding for_user_cached for_policy for_user verdict
  for_user_cached-Does uid tr c (r, p, u) =
      let (e, f) = cached-load (user_policy_of st) uid c.policies p in
      rw (e, mode_for-wanted_mode (user_policy st uid) tr.severity)
        (by_user_mode-Does (wanted_mode (user_policy st uid) tr.severity)
          (is_quiet load_location utc now st (user_policy_of st uid)) uid tr
          (record c { policies = (cached (user_policy_of st) uid c.policies).1 }) (r, f, u))

  personal-Does :
      (users : List Bytes) (tr : Transition) (c : Caches)
      → IsPlain c
      → Does (concat_map (for_user tr) users) (personal load_location utc now st users tr c)
  unfolding personal
  personal-Does [] tr c h = (refl, h)
  personal-Does (uid ∷ users) tr c h =
      then_do-Does _ _ (for_user_cached load_location utc now st uid tr c) _
        (for_user_cached-Does uid tr c h) (λ c' h'. personal-Does users tr c' h')

  subscribers_of-listeners :
      (subscribers : Option (Bytes → Bytes → Option (List Bytes))) (tr : Transition)
      → subscribers_of load_location utc now st subscribers tr ≡ asked subscribers tr
  unfolding subscribers_of
  subscribers_of-listeners none tr = refl
  subscribers_of-listeners (some resolve) tr = refl

  emit_one-Does :
      (enabled : List Channel) (tr : Transition) (c : Caches)
      → IsPlain c
      → Does
          (for_transition enabled tr)
          (emit_one load_location utc now st (global_policy st) enabled tr c)
  unfolding emit_one for_transition verdict dispatch_personal
  emit_one-Does enabled tr c h =
      let mode = mode_for-wanted_mode (global_policy st) tr.severity in
      let known = mode_for-IsMode (global_policy st).severities tr.severity in
      rw (mode, subscribers_of-listeners st.subscribers tr)
        (then_do-Does _ _ (shared load_location utc now st _ _ tr enabled c) _
          (shared-Does _ _ tr enabled c (rw mode at known) h)
          (λ c' h'. personal-Does (listeners st tr) tr c' h'))

  emit_loop-Does :
      (enabled : List Channel) (trs : List Transition) (c : Caches)
      → IsPlain c
      → Does
          (concat_map (for_transition enabled) trs)
          (emit_loop load_location utc now st (or_else st.get_policy default_policy) enabled trs c)
  unfolding emit_loop
  emit_loop-Does enabled [] c h = (refl, h)
  emit_loop-Does enabled (tr ∷ trs) c h =
      then_do-Does _ _ (emit_one load_location utc now st _ enabled tr c) _
        (emit_one-Does enabled tr c h) (λ c' h'. emit_loop-Does enabled trs c' h')

  pub emit-for_transition :
      (enabled : List Channel) (trs : List Transition)
      → st.list_enabled ≡ some enabled
      → emit load_location utc now st trs ≡ concat_map (for_transition enabled) trs
  unfolding emit emit_to
  emit-for_transition enabled trs listed =
      simp listed
        (emit_loop-Does enabled trs no_caches (
          empty-IsFaithful (routing_of st),
          empty-IsFaithful (user_policy_of st),
          empty-IsFaithful (user_channels_of st),
        )).0
