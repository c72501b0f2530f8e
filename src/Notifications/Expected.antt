-- ===== src/Notifications/Expected.antt =====
-- internal/notifications: what its documents promise of a delivery, written without its code: the channels
-- of a routing, the mode of a severity, and the policy of an owner. The lemmas compare the code with these.
use system_wrangler_backend.Prelude.{
  ◌≡◌, refl, ◌∙◌, Bool, true, false, Option, none, some, List, [], ◌∷◌, if◌then◌else◌, Bytes, codes,
  bytes_eq, ◌==◌,
}
use system_wrangler_backend.Prelude.Maps.{Map, lookup, insert, lookup-insert}
use system_wrangler_backend.Notifications.Modes.{
  DeliveryMode, dashboard, quiet, always, built_in, known_or, default_severities, mode_for,
}
use system_wrangler_backend.Notifications.Quiet.{Policy, default_policy}
use system_wrangler_backend.Notifications.Routing.{
  RouteMode, unset, all, selected, Routing, Channel, index_by_id, selected_targets, targets_for,
  present, by_mode,
}
use system_wrangler_backend.Notifications.Dispatch.{Transition, Store}

abbrev prefer : {A : Type 0} → Option A → Option A → Option A
prefer none b = b
prefer (some a) b = some a

-- The channel with an id; the last one, where there are several.
abbrev pub channel_with : Bytes → List Channel → Option Channel
channel_with id [] = none
channel_with id (c ∷ cs) = prefer (channel_with id cs) (if c.id == id then some c else none)

abbrev join : {A : Type 0} → Option A → List A → List A
join none rest = rest
join (some a) rest = a ∷ rest

-- The enabled channels among the listed ids, in the order of the list.
abbrev pub chosen : List Bytes → List Channel → List Channel
chosen [] enabled = []
chosen (id ∷ ids) enabled = join (channel_with id enabled) (chosen ids enabled)

-- A routing selects its listed channels, or is for all of them.
abbrev by_route : RouteMode → List Channel → List Channel → List Channel
by_route selected listed enabled = listed
by_route all listed enabled = enabled
by_route unset listed enabled = enabled
by_route (RouteMode.other _) listed enabled = enabled

abbrev pub routes : Routing → List Channel → List Channel
routes r enabled = by_route r.mode (chosen r.channel_ids enabled) enabled

prefer-if :
    {A : Type 0} (o p : Option A) (a : A) (b : Bool)
    → prefer o (if b then some a else p) ≡ prefer (prefer o (if b then some a else none)) p
prefer-if none p a true = refl
prefer-if none p a false = refl
prefer-if (some x) p a b = refl

lookup-index_by_id :
    (id : Bytes) (cs : List Channel) (by_id : Map Bytes Channel)
    → lookup id (index_by_id cs by_id) ≡ prefer (channel_with id cs) (lookup id by_id)
unfolding index_by_id
lookup-index_by_id id [] by_id = refl
lookup-index_by_id id (c ∷ cs) by_id =
    lookup-index_by_id id cs (insert c.id c by_id)
    ∙ rw (lookup-insert c.id id c by_id)
        (prefer-if (channel_with id cs) (lookup id by_id) c (c.id == id))

join-present : (o : Option Channel) (rest : List Channel) → present o rest ≡ join o rest
unfolding present
join-present none rest = refl
join-present (some c) rest = refl

prefer-none : {A : Type 0} (o : Option A) → prefer o none ≡ o
prefer-none none = refl
prefer-none (some a) = refl

selected_targets-chosen :
    (ids : List Bytes) (enabled : List Channel)
    → selected_targets ids (index_by_id enabled []) ≡ chosen ids enabled
unfolding selected_targets lookup
selected_targets-chosen [] enabled = refl
selected_targets-chosen (id ∷ ids) enabled =
    join-present (lookup id (index_by_id enabled []))
      (selected_targets ids (index_by_id enabled []))
    ∙ rw
        (
          lookup-index_by_id id enabled [],
          prefer-none (channel_with id enabled),
          selected_targets-chosen ids enabled,
        )
        refl

by_mode-by_route :
    (m : RouteMode) (ids : List Bytes) (enabled : List Channel)
    → by_mode m ids enabled (index_by_id enabled []) ≡ by_route m (chosen ids enabled) enabled
unfolding by_mode
by_mode-by_route selected ids enabled = selected_targets-chosen ids enabled
by_mode-by_route all ids enabled = refl
by_mode-by_route unset ids enabled = refl
by_mode-by_route (RouteMode.other _) ids enabled = refl

pub targets_for-routes :
    (r : Routing) (enabled : List Channel)
    → targets_for r enabled (index_by_id enabled []) ≡ routes r enabled
unfolding targets_for
targets_for-routes r enabled = by_mode-by_route r.mode r.channel_ids enabled

-- What is usual for a severity: `info` stays on the dashboard, `critical` is sent at any time, and all
-- others wait for the end of the quiet hours.
abbrev usual : Bytes → DeliveryMode
usual severity =
    if codes "info" == severity
    then dashboard
    else if codes "warning" == severity
    then quiet
    else if codes "critical" == severity
    then always
    else quiet

-- The mode that the policy names for a severity, and where it names none of the three, what is usual.
abbrev named_or : Option DeliveryMode → DeliveryMode → DeliveryMode
named_or none d = d
named_or (some dashboard) d = dashboard
named_or (some quiet) d = quiet
named_or (some always) d = always
named_or (some (DeliveryMode.other _)) d = d

abbrev pub wanted_mode : Policy → Bytes → DeliveryMode
wanted_mode p severity = named_or (lookup severity p.severities) (usual severity)

built_in-usual :
    (i w c : Bool)
    → built_in
        (if i then some dashboard else if w then some quiet else if c then some always else none)
      ≡ (if i then dashboard else if w then quiet else if c then always else quiet)
unfolding built_in
built_in-usual true w c = refl
built_in-usual false true c = refl
built_in-usual false false true = refl
built_in-usual false false false = refl

known_or-named_or : (o : Option DeliveryMode) (d : DeliveryMode) → known_or o d ≡ named_or o d
unfolding known_or
known_or-named_or none d = refl
known_or-named_or (some dashboard) d = refl
known_or-named_or (some quiet) d = refl
known_or-named_or (some always) d = refl
known_or-named_or (some (DeliveryMode.other _)) d = refl

pub mode_for-wanted_mode :
    (p : Policy) (severity : Bytes) → mode_for p.severities severity ≡ wanted_mode p severity
unfolding mode_for lookup
mode_for-wanted_mode p severity =
    known_or-named_or (lookup severity p.severities) (built_in (lookup severity default_severities))
    ∙ rw
        (built_in-usual (codes "info" == severity) (codes "warning" == severity)
          (codes "critical" == severity))
        refl

abbrev pub given_or : {A : Type 0} → Option A → A → A
given_or none d = d
given_or (some a) d = a

-- The routing of a rule: all channels where it cannot be read.
abbrev pub routing_for : Store → Bytes → Routing
routing_for st rule = given_or (st.get_routing rule) (record { mode = all; channel_ids = [] })

-- The policy of an owner, the global one for no user: the default one where it cannot be read.
abbrev pub owner_policy : Store → Bytes → Policy
owner_policy st uid =
    given_or (if uid == [] then st.get_policy else st.get_user_policy uid) default_policy

abbrev pub global_policy : Store → Policy
global_policy st = given_or st.get_policy default_policy

abbrev pub user_policy : Store → Bytes → Policy
user_policy st uid = given_or (st.get_user_policy uid) default_policy

-- The enabled channels, and those of a user: none where they cannot be read.
abbrev pub all_channels : Store → List Channel
all_channels st = given_or st.list_enabled []

abbrev pub own_channels : Store → Bytes → List Channel
own_channels st uid = given_or (st.list_enabled_user_channels uid) []

-- The subscribers of a transition: none without a resolver, or where it fails.
abbrev pub asked : Option (Bytes → Bytes → Option (List Bytes)) → Transition → List Bytes
asked none tr = []
asked (some resolve) tr = given_or (resolve tr.system_id tr.severity) []

abbrev pub listeners : Store → Transition → List Bytes
listeners st tr = asked st.subscribers tr
