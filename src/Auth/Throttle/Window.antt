-- ===== src/Auth/Throttle/Window.antt =====
-- internal/auth/throttle.go: which events count, who is let in, and how long the others wait.
pub mod Limits
use system_wrangler_backend.Prelude.{
  ℕ, ◌+◌, ◌-◌, ◌≤◌, ◌<◌, ◌≡◌, refl, ◌∙◌, List, [], ◌∷◌, ◌++◌, arith, sym, lt→ltb, String, ltb, leb,
  if◌then◌else◌, length, string_eq, eq_iff, keep, All, ◌==◌, Bool-cases, inl, inr,
}
use system_wrangler_backend.Prelude.Maps.{insert, lookup-insert, lookup-delete}
use system_wrangler_backend.Auth.Throttle.{
  Throttle, Answer, wait, events_of, events_at, drop_stale, store_events, prune, check_oldest,
  check, add_event,
}

-- The events of a key come in the order of time, none of them after `now`.
abbrev pub Ordered : ℕ → List ℕ → Type 0
Ordered now [] = Unit
Ordered now (e ∷ ev) = (e ≤ now) × All (λ x. e ≤ x) ev × Ordered now ev

keep-fresh :
    (window now e : ℕ) (ev : List ℕ)
    → now ≤ e + window
    → All (λ x. e ≤ x) ev
    → keep (λ x. leb now (x + window)) ev ≡ ev
keep-fresh window now e [] h a = refl
keep-fresh window now e (x ∷ ev) h a = ground (arith, keep-fresh window now e ev h a.1)

drop_stale-keep :
    (window now last : ℕ) (ev : List ℕ)
    → Ordered last ev
    → drop_stale window now ev ≡ keep (λ x. leb now (x + window)) ev
unfolding drop_stale
drop_stale-keep window now last [] o = refl
drop_stale-keep window now last (e ∷ ev) (le, after, o) =
    ground (arith, drop_stale-keep window now last ev o, keep-fresh window now e ev)

events_at-store_events :
    (key j : String) (ev : List ℕ) (t : Throttle)
    → events_at (store_events key ev t) j ≡ (if key == j then ev else events_at t j)
unfolding events_at store_events
events_at-store_events key j [] t = ground (arith, lookup-delete key j t.events, eq_iff key j)
events_at-store_events key j (e ∷ ev) t =
    ground (arith, lookup-insert key j (e ∷ ev) t.events, eq_iff key j)

-- Pruning a key keeps exactly its events of the window, whose two ends count, and leaves the other
-- keys alone.
pub events-prune :
    (now last : ℕ) (key j : String) (t : Throttle)
    → Ordered last (events_at t key)
    → events_at (prune now key t) j
      ≡ (if key == j then keep (λ x. leb now (x + t.window)) (events_at t key) else events_at t j)
unfolding prune
events-prune now last key j t o =
    rw (events_at-store_events key j, drop_stale-keep t.window now last (events_at t key) o) refl

Ordered-All : (last : ℕ) (ev : List ℕ) → Ordered last ev → All (λ x. x ≤ last) ev
Ordered-All last [] o = tt
Ordered-All last (e ∷ ev) o = (o.0, Ordered-All last ev o.2)

-- The list starts with an event of the window, if it has any.
abbrev HeadFresh : ℕ → ℕ → List ℕ → Type 0
HeadFresh window now [] = Unit
HeadFresh window now (e ∷ ev) = now ≤ e + window

drop_stale-HeadFresh :
    (window now : ℕ) (ev : List ℕ) → HeadFresh window now (drop_stale window now ev)
unfolding drop_stale
drop_stale-HeadFresh window now [] = tt
drop_stale-HeadFresh window now (e ∷ ev) = elim (Bool-cases (ltb (e + window) now)) [
  | inl h ↦ rw h (drop_stale-HeadFresh window now ev)
  | inr h ↦ rw h (ground arith)
]

drop_stale_id :
    (window now : ℕ) (ev : List ℕ) → HeadFresh window now ev → drop_stale window now ev ≡ ev
unfolding drop_stale
drop_stale_id window now [] h = refl
drop_stale_id window now (e ∷ ev) h = ground arith

-- `Check` in terms of the events that are left of the key.
answer : ℕ → ℕ → ℕ → List ℕ → Answer
answer window max now ev = if ltb (length ev) max then wait 0 else check_oldest window now ev

events_at-prune :
    (now : ℕ) (key : String) (t : Throttle)
    → events_at (prune now key t) key ≡ drop_stale t.window now (events_at t key)
unfolding prune
events_at-prune now key t = events_at-store_events key key _ t ∙ rw ((eq_iff key key).1 refl) refl

settings-store_events :
    (key : String) (ev : List ℕ) (t : Throttle)
    → ((store_events key ev t).window ≡ t.window) × ((store_events key ev t).max ≡ t.max)
unfolding store_events
settings-store_events key [] t = (refl, refl)
settings-store_events key (e ∷ ev) t = (refl, refl)

settings-prune :
    (now : ℕ) (key : String) (t : Throttle)
    → ((prune now key t).window ≡ t.window) × ((prune now key t).max ≡ t.max)
unfolding prune
settings-prune now key t = settings-store_events key (drop_stale t.window now (events_at t key)) t

module _ (now now' : ℕ) (key : String) (t : Throttle) where
  check-answer :
      (check now now' key t).1
      ≡ answer t.window t.max now' (drop_stale t.window now (events_at t key))
  unfolding check answer
  check-answer = ground (arith, events_at-prune now key t, settings-prune now key t)

  check-events : events_at (check now now' key t).0 key ≡ drop_stale t.window now (events_at t key)
  unfolding check
  check-events = ground (arith, events_at-prune now key t)

  check-settings :
      ((check now now' key t).0.window ≡ t.window) × ((check now now' key t).0.max ≡ t.max)
  unfolding check
  check-settings = ground (arith, settings-prune now key t)

answer-countdown :
    (window max now d w : ℕ) (ev : List ℕ)
    → HeadFresh window now ev
    → answer window max now ev ≡ wait w
    → d ≤ w
    → answer window max (now + d) (drop_stale window (now + d) ev) ≡ wait (w - d)
unfolding answer check_oldest drop_stale
answer-countdown window max now d w [] h e le = ground arith
answer-countdown window max now d w (x ∷ ev) h e le = ground arith

-- Who is told at `now` to wait for `w` is told, when `d` of it has passed and nothing was recorded
-- in between, to wait for `w - d`; when all of it has passed, it is let in.
pub check-countdown :
    (now d w : ℕ) (key : String) (t : Throttle)
    → (check now now key t).1 ≡ wait w
    → d ≤ w
    → (check (now + d) (now + d) key (check now now key t).0).1 ≡ wait (w - d)
check-countdown now d w key t h le =
    let (same_window, same_max) = check-settings now now key t in
    rw
      (
        check-answer (now + d) (now + d) key (check now now key t).0,
        check-events now now key t,
        same_window,
        same_max,
      )
      (answer-countdown t.window t.max now d w _ (drop_stale-HeadFresh t.window now _)
        (sym (check-answer now now key t) ∙ h) le)
