-- ===== src/Notifications/Dispatch.antt =====
-- internal/notifications/dispatcher.go: `Emit`. The store is what it answers during one batch; the goroutines
-- that send are the list of the sends they make, in the order in which they are started. The texts of a
-- message, times and log lines are left out.
pub mod Plain
mod Tests
use system_wrangler_backend.Prelude.{
  ℕ, Bool, true, false, Option, none, some, List, [], ◌∷◌, ◌++◌, map, if◌then◌else◌, Bytes,
  bytes_eq,
}
use system_wrangler_backend.Prelude.Maps.{Map}
use system_wrangler_backend.Prelude.Cache.{cached}
use system_wrangler_backend.Alerts.{TransitionKind}
use system_wrangler_backend.Notifications.Modes.{
  DeliveryMode, dashboard, quiet, always, other, mode_for,
}
use system_wrangler_backend.Notifications.Quiet.{Policy, default_policy, Clock, in_quiet_hours}
use system_wrangler_backend.Notifications.Routing.{
  RouteMode, all, Routing, Channel, index_by_id, targets_for,
}

-- A transition with what its rule says.
pub record Transition : Type 0 where
  pub rule_id : Bytes
  pub rule_name : Bytes
  pub severity : Bytes
  pub system_id : Bytes
  pub kind : TransitionKind

-- `PendingDelivery`; `user_id` is empty for a shared one.
pub record Pending : Type 0 where
  pub id : Bytes
  pub transition : Transition
  pub user_id : Bytes

-- The rows without a channel, of the delivery log.
pub data DeliveryStatus : Type 0 where
  suppressed deferred : DeliveryStatus

-- What a batch does: a send is started, a row is logged, a transition is queued for the user.
pub data Action : Type 0 where
  send : Channel → Transition → Bytes → Action
  record_status : Transition → DeliveryStatus → Bytes → Action
  enqueue_pending : Transition → Bytes → Action

-- What the store and the resolver of subscribers answer; none is an error, or no resolver. The last field
-- says which transitions the store takes into the queue.
pub record Store : Type 0 where
  pub list_enabled : Option (List Channel)
  pub get_policy : Option Policy
  pub get_routing : Bytes → Option Routing
  pub get_user_policy : Bytes → Option Policy
  pub list_enabled_user_channels : Bytes → Option (List Channel)
  pub subscribers : Option (Bytes → Bytes → Option (List Bytes))
  pub accepts : Transition → Bytes → Bool

abbrev pub or_else : {A : Type 0} → Option A → A → A
or_else none d = d
or_else (some a) d = a

-- What a load gives behind its error path.
abbrev pub routing_of : Store → Bytes → Routing
routing_of st id = or_else (st.get_routing id) (record { mode = all; channel_ids = [] })

abbrev pub user_policy_of : Store → Bytes → Policy
user_policy_of st uid = or_else (st.get_user_policy uid) default_policy

abbrev pub user_channels_of : Store → Bytes → List Channel
user_channels_of st uid = or_else (st.list_enabled_user_channels uid) []

-- The caches of one batch.
pub record Caches : Type 0 where
  pub routings : Map Bytes Routing
  pub policies : Map Bytes Policy
  pub channels : Map Bytes (List Channel)

abbrev pub no_caches : Caches
no_caches = record { routings = []; policies = []; channels = [] }

abbrev pub fan_out : List Channel → Transition → Bytes → List Action
fan_out cs tr uid = map (λ c. send c tr uid) cs

-- One piece of code after another, on the caches of a batch.
pub then_do : List Action × Caches → (Caches → List Action × Caches) → List Action × Caches
then_do (acts, c) f = let (more, c') = f c in (acts ++ more, c')

module _ (load_location : Bytes → Option Clock) (utc : Clock) (now : ℕ) (st : Store) where
  abbrev pub is_quiet : Policy → Bool
  is_quiet p = in_quiet_hours load_location utc p now

  pub enqueue : Transition → Bytes → List Action
  enqueue tr uid =
      if st.accepts tr uid then enqueue_pending tr uid ∷ record_status tr deferred uid ∷ [] else []

  unfoldable pub routed_targets : Bytes → List Channel → Caches → List Channel × Caches
  routed_targets rule enabled c =
      let (r, routings) = cached (routing_of st) rule c.routings in
      (targets_for r enabled (index_by_id enabled []), record c { routings = routings })

  pub shared_now : Transition → List Channel → Caches → List Action × Caches
  unfolding routed_targets
  shared_now tr enabled c =
      let (targets, c') = routed_targets tr.rule_id enabled c in (fan_out targets tr [], c')

  -- The shared path of the loop in `Emit`.
  shared : DeliveryMode → Bool → Transition → List Channel → Caches → List Action × Caches
  unfolding shared_now enqueue
  shared dashboard is_quiet_now tr enabled c = (record_status tr suppressed [] ∷ [], c)
  shared quiet is_quiet_now tr enabled c =
      if is_quiet_now then (enqueue tr [], c) else shared_now tr enabled c
  shared always is_quiet_now tr enabled c = shared_now tr enabled c
  shared (other _) is_quiet_now tr enabled c = ([], c)

  user_now : Bytes → Transition → Caches → List Action × Caches
  user_now uid tr c =
      let (cs, channels) = cached (user_channels_of st) uid c.channels in
      (fan_out cs tr uid, record c { channels = channels })

  by_user_mode : DeliveryMode → Bool → Bytes → Transition → Caches → List Action × Caches
  unfolding user_now enqueue
  by_user_mode dashboard is_quiet_now uid tr c = (record_status tr suppressed uid ∷ [], c)
  by_user_mode quiet is_quiet_now uid tr c =
      if is_quiet_now then (enqueue tr uid, c) else user_now uid tr c
  by_user_mode always is_quiet_now uid tr c = user_now uid tr c
  by_user_mode (other _) is_quiet_now uid tr c = user_now uid tr c

  for_policy : Policy → Bytes → Transition → Caches → List Action × Caches
  unfolding by_user_mode
  for_policy pol uid tr c =
      by_user_mode (mode_for pol.severities tr.severity) (is_quiet pol) uid tr c

  -- The body of the loop over the users in `dispatchPersonal`.
  for_user_cached : Bytes → Transition → Caches → List Action × Caches
  unfolding for_policy
  for_user_cached uid tr c =
      let (pol, policies) = cached (user_policy_of st) uid c.policies in
      for_policy pol uid tr (record c { policies = policies })

  pub personal : List Bytes → Transition → Caches → List Action × Caches
  unfolding for_user_cached then_do
  personal [] tr c = ([], c)
  personal (uid ∷ users) tr c = then_do (for_user_cached uid tr c) (λ c'. personal users tr c')

  subscribers_of : Option (Bytes → Bytes → Option (List Bytes)) → Transition → List Bytes
  subscribers_of none tr = []
  subscribers_of (some resolve) tr = or_else (resolve tr.system_id tr.severity) []

  pub dispatch_personal : Transition → Caches → List Action × Caches
  unfolding personal subscribers_of
  dispatch_personal tr c = personal (subscribers_of st.subscribers tr) tr c

  -- The body of the loop over the transitions.
  emit_one : Policy → List Channel → Transition → Caches → List Action × Caches
  unfolding shared dispatch_personal then_do
  emit_one policy enabled tr c =
      then_do (shared (mode_for policy.severities tr.severity) (is_quiet policy) tr enabled c)
        (λ c'. dispatch_personal tr c')

  emit_loop : Policy → List Channel → List Transition → Caches → List Action × Caches
  unfolding emit_one then_do
  emit_loop policy enabled [] c = ([], c)
  emit_loop policy enabled (tr ∷ trs) c =
      then_do (emit_one policy enabled tr c) (λ c'. emit_loop policy enabled trs c')

  emit_to : Option (List Channel) → List Transition → List Action
  unfolding emit_loop
  emit_to none trs = []
  emit_to (some enabled) trs =
      (emit_loop (or_else st.get_policy default_policy) enabled trs no_caches).0

  pub emit : List Transition → List Action
  unfolding emit_to
  emit trs = emit_to st.list_enabled trs
