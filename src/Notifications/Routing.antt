-- ===== src/Notifications/Routing.antt =====
-- internal/notifications/routing.go, and the resolution of a routing in dispatcher.go.
use system_wrangler_backend.Prelude.{
  Option, none, some, List, [], ◌∷◌, ◌++◌, any, if◌then◌else◌, Bytes, bytes_eq, ◌==◌,
}
use system_wrangler_backend.Prelude.Maps.{Map, lookup, insert}
use system_wrangler_backend.Prelude.Strings.{trim_space}

pub data RouteMode : Type 0 where
  unset all selected : RouteMode
  other : Bytes → RouteMode

pub record Routing : Type 0 where
  pub mode : RouteMode
  pub channel_ids : List Bytes

-- The loop of `dedupe`; the set of the ids seen has the ids that are out.
dedupe_from : List Bytes → List Bytes → List Bytes
dedupe_from out [] = out
dedupe_from out (id ∷ ids) =
    let trimmed = trim_space id in
    dedupe_from
      (if trimmed == []
        then out
        else if any (λ x. x == trimmed) out
        then out
        else out ++ trimmed ∷ [])
      ids

pub dedupe : List Bytes → List Bytes
unfolding dedupe_from
dedupe ids = dedupe_from [] ids

default_mode : RouteMode → RouteMode
default_mode unset = all
default_mode m = m

validated : RouteMode → List Bytes → Option Routing
validated all ids = some (record { mode = all; channel_ids = [] })
validated selected ids = some (record { mode = selected; channel_ids = dedupe ids })
validated _ ids = none

-- `RoutingInput.Validate`: the canonical form of a valid input.
pub validate : Routing → Option Routing
unfolding default_mode validated dedupe
validate r = validated (default_mode r.mode) r.channel_ids

-- The fields that the dispatcher needs of a channel; the others go to the sender as they are.
pub record Channel : Type 0 where
  pub id : Bytes
  pub name : Bytes
  pub kind : Bytes

unfoldable pub index_by_id : List Channel → Map Bytes Channel → Map Bytes Channel
index_by_id [] by_id = by_id
index_by_id (c ∷ cs) by_id = index_by_id cs (insert c.id c by_id)

unfoldable pub present : Option Channel → List Channel → List Channel
present none rest = rest
present (some c) rest = c ∷ rest

unfoldable pub selected_targets : List Bytes → Map Bytes Channel → List Channel
unfolding present
selected_targets [] by_id = []
selected_targets (id ∷ ids) by_id = present (lookup id by_id) (selected_targets ids by_id)

unfoldable pub by_mode : RouteMode → List Bytes → List Channel → Map Bytes Channel → List Channel
by_mode selected ids enabled by_id = selected_targets ids by_id
by_mode _ ids enabled by_id = enabled

unfoldable pub targets_for : Routing → List Channel → Map Bytes Channel → List Channel
unfolding by_mode selected_targets
targets_for routing enabled by_id = by_mode routing.mode routing.channel_ids enabled by_id
