-- ===== src/Notifications/Flush/Tests.antt =====
-- internal/notifications/flusher.go: runs, and the theorems at concrete inputs.
use system_wrangler_backend.Prelude.{
  ◌≡◌, refl, sym, ◌∙◌, inr, true, none, some, Option, List, [], ◌∷◌, inl, keep, Bytes, codes,
}
use system_wrangler_backend.Alerts.{TransitionKind, fired, resolved}
use system_wrangler_backend.Notifications.Quiet.{Clock}
use system_wrangler_backend.Notifications.Routing.{all, Channel}
use system_wrangler_backend.Notifications.Dispatch.{Transition, Pending, Store}
use system_wrangler_backend.Notifications.Flush.{collapses, flush_pending}
use system_wrangler_backend.Notifications.Flush.Groups.{rows_of}
use system_wrangler_backend.Notifications.Flush.Owed.{about, flush_pending-owed}
use system_wrangler_backend.Notifications.Flush.Plain.{owed, waits}
use system_wrangler_backend.Notifications.Flush.Left.{IdsUnique, flush_pending-left}

abbrev mail : Channel
mail = record { id = codes "c1"; name = codes "mail"; kind = codes "email" }

abbrev change : TransitionKind → Transition
change kind = record {
  rule_id = codes "r1";
  rule_name = codes "disk";
  severity = codes "warning";
  system_id = codes "s1";
  kind = kind;
}

abbrev row : Bytes → TransitionKind → Pending
row id kind = record { id = id; transition = change kind; user_id = [] }

-- It fired, resolved, and fired once more.
abbrev again : List Pending
again = row (codes "a") fired ∷ row (codes "b") resolved ∷ row (codes "c") fired ∷ []

-- A group whose last transition is a firing is dropped too.
collapses-again : collapses again ≡ true
unfolding collapses
collapses-again = refl

abbrev one : List Pending
one = row (codes "a") fired ∷ []

abbrev store : Store
store = record {
  list_enabled = some (mail ∷ []);
  get_policy = none;
  get_routing = λ id. some (record { mode = all; channel_ids = [] });
  get_user_policy = λ uid. none;
  list_enabled_user_channels = λ uid. none;
  subscribers = none;
  accepts = λ tr uid. true;
}

abbrev no_zones : Bytes → Option Clock
no_zones name = none

abbrev noon : Clock
noon t = (1, 720)

flush_pending-owed_example :
    about ([], (codes "r1", codes "s1")) (flush_pending no_zones noon 0 store true again).0
    ≡ owed no_zones noon 0 store
        ([], (codes "r1", codes "s1"))
        (rows_of ([], (codes "r1", codes "s1")) again)
flush_pending-owed_example =
    flush_pending-owed no_zones noon 0 store true again ([], (codes "r1", codes "s1"))

one-IdsUnique : IdsUnique one
one-IdsUnique p q (inl e) (inl e') same = sym e ∙ e'
one-IdsUnique p q (inl e) (inr i) same = absurd i
one-IdsUnique p q (inr i) at same = absurd i

flush_pending-left_example :
    (flush_pending no_zones noon 0 store true one).1
    ≡ keep (λ p. waits no_zones noon 0 store p.user_id) one
flush_pending-left_example = flush_pending-left no_zones noon 0 store true one one-IdsUnique
