-- ===== src/Events/Tests.antt =====
-- internal/events/hub.go: runs, and the theorems at concrete inputs.
use system_wrangler_backend.Prelude.{◌≡◌, refl, true, false, some, List, [], ◌∷◌, ◌++◌, All, codes}
use system_wrangler_backend.Events.{
  Hub, new_hub, Op, subscribe, close, unsubscribe, broadcast, run, step, unregister, send, receive,
  each, nth, with_subscribers, close_channel, behind_first,
}
use system_wrangler_backend.Events.Runs.{IsHub, IsShut, run-IsHub, run-close}

-- Two subscribe, one leaves twice, and an event goes to the other.
abbrev calls : List Op
calls = subscribe ∷ subscribe ∷ unsubscribe 0 ∷ unsubscribe 0 ∷ broadcast (codes "systems") ∷ []

after_calls :
    run calls new_hub
    ≡ some (record {
      subscribers =
          (record { buffer = codes "systems" ∷ []; is_open = true; is_registered = true })
          ∷ (record { buffer = []; is_open = false; is_registered = false })
          ∷ [];
      closed = false;
    })
unfolding run step unregister send receive each nth with_subscribers close_channel behind_first
after_calls = refl

run-IsHub_example : (h : Hub) × (run calls new_hub ≡ some h) × IsHub h
run-IsHub_example = run-IsHub calls

run-close_example :
    (h : Hub) × (run (calls ++ close ∷ subscribe ∷ []) new_hub ≡ some h) × All IsShut h.subscribers
run-close_example = run-close calls (subscribe ∷ [])
