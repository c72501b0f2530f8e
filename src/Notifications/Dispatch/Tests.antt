-- ===== src/Notifications/Dispatch/Tests.antt =====
-- internal/notifications/dispatcher.go: runs, and the theorem at a concrete input.
use system_wrangler_backend.Prelude.{
  ◌≡◌, refl, true, Option, none, some, [], ◌∷◌, concat_map, Bytes, codes,
}
use system_wrangler_backend.Alerts.{fired}
use system_wrangler_backend.Notifications.Quiet.{Clock}
use system_wrangler_backend.Notifications.Routing.{selected, Channel}
use system_wrangler_backend.Notifications.Dispatch.{Transition, Store, emit}
use system_wrangler_backend.Notifications.Dispatch.Plain.{for_transition, emit-for_transition}

abbrev mail : Channel
mail = record { id = codes "c1"; name = codes "mail"; kind = codes "email" }

abbrev chat : Channel
chat = record { id = codes "c2"; name = codes "chat"; kind = codes "slack" }

abbrev phone : Channel
phone = record { id = codes "p1"; name = codes "phone"; kind = codes "webhook" }

abbrev critical : Transition
critical = record {
  rule_id = codes "r1";
  rule_name = codes "disk";
  severity = codes "critical";
  system_id = codes "s1";
  kind = fired;
}

abbrev store : Store
store = record {
  list_enabled = some (mail ∷ chat ∷ []);
  get_policy = none;
  get_routing = λ id. some (record { mode = selected; channel_ids = codes "c2" ∷ [] });
  get_user_policy = λ uid. none;
  list_enabled_user_channels = λ uid. some (phone ∷ []);
  subscribers = some (λ system severity. some (codes "u1" ∷ []));
  accepts = λ tr uid. true;
}

abbrev no_zones : Bytes → Option Clock
no_zones name = none

abbrev noon : Clock
noon t = (1, 720)

emit-for_transition_example :
    emit no_zones noon 0 store (critical ∷ critical ∷ [])
    ≡ concat_map
        (for_transition no_zones noon 0 store (mail ∷ chat ∷ []))
        (critical ∷ critical ∷ [])
emit-for_transition_example =
    emit-for_transition no_zones noon 0 store (mail ∷ chat ∷ []) (critical ∷ critical ∷ []) refl
