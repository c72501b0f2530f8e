-- ===== src/Auth/Throttle/Window/Limits.antt =====
-- internal/auth/throttle.go: how long a key waits, and the order of its recorded events.
use system_wrangler_backend.Prelude.{
  ℕ, ◌+◌, ◌-◌, ◌≤◌, ◌<◌, ◌≡◌, refl, ◌∙◌, List, [], ◌∷◌, ◌++◌, arith, lt→ltb, String, ltb, leb,
  if◌then◌else◌, length, string_eq, eq_iff, keep, All, ◌==◌, Bool-cases, inl, inr,
}
use system_wrangler_backend.Prelude.Maps.{insert, lookup-insert}
use system_wrangler_backend.Auth.Throttle.{
  Throttle, wait, events_of, events_at, drop_stale, prune, check_oldest, check, add_event,
}
use system_wrangler_backend.Auth.Throttle.Window.{
  Ordered, Ordered-All, answer, check-answer, drop_stale-keep, events_at-prune,
  events_at-store_events,
}

oldest_bounded :
    (window now last : ℕ) (ev : List ℕ)
    → Ordered last ev
    → All (λ x. x ≤ last) (drop_stale window now ev)
unfolding drop_stale
oldest_bounded window now last [] o = tt
oldest_bounded window now last (e ∷ ev) o = elim (Bool-cases (ltb (e + window) now)) [
  | inl h ↦ rw h (oldest_bounded window now last ev o.2)
  | inr h ↦ rw h (o.0, Ordered-All last ev o.2)
]

answer_bounded :
    (window max last now : ℕ) (ev : List ℕ)
    → 0 < max
    → last ≤ now
    → All (λ x. x ≤ last) ev
    → (w : ℕ) × (answer window max now ev ≡ wait w) × (w ≤ window)
unfolding answer check_oldest
answer_bounded window max last now [] pos le a = (0, ground arith, omega arith)
answer_bounded window max last now (x ∷ ev) pos le a =
    elim (Bool-cases (ltb (length (x ∷ ev)) max)) [
      | inl h ↦ (0, rw h refl, omega arith)
      | inr h ↦ (x + window - now, rw h refl, omega arith)
    ]

-- With a positive limit and events in the order of time, `Check` never panics, and asks nobody to
-- wait for longer than the window.
pub check_bounded :
    (now now' last : ℕ) (key : String) (t : Throttle)
    → 0 < t.max
    → last ≤ now'
    → Ordered last (events_at t key)
    → (w : ℕ) × ((check now now' key t).1 ≡ wait w) × (w ≤ t.window)
check_bounded now now' last key t pos le o =
    let (w, e, b) =
      answer_bounded t.window t.max last now' (drop_stale t.window now (events_at t key)) pos le
        (oldest_bounded t.window now last (events_at t key) o) in
    (w, check-answer now now' key t ∙ e, b)

-- The events of a key that lie in the window which ends at `now`, both ends included.
abbrev pub fresh : ℕ → String → Throttle → List ℕ
fresh now key t = keep (λ x. leb now (x + t.window)) (events_at t key)

-- A key with fewer failures in the window than the limit is let in; any other waits until the
-- oldest of them has left the window.
pub check-lets_in :
    (now now' last : ℕ) (key : String) (t : Throttle)
    → Ordered last (events_at t key)
    → (length (fresh now key t) < t.max → (check now now' key t).1 ≡ wait 0)
      × ((oldest : ℕ) (rest : List ℕ)
          → fresh now key t ≡ oldest ∷ rest
          → t.max ≤ length (fresh now key t)
          → (check now now' key t).1 ≡ wait (oldest + t.window - now'))
unfolding answer check_oldest
check-lets_in now now' last key t o =
    let e : (check now now' key t).1 ≡ answer t.window t.max now' (fresh now key t) =
      check-answer now now' key t
      ∙ rw (drop_stale-keep t.window now last (events_at t key) o) refl in
    (
      λ few. e ∙ rw (lt→ltb _ _ few) refl,
      λ oldest rest f many. e ∙ waits oldest rest (fresh now key t) f many,
    )
  where
    waits :
        (oldest : ℕ) (rest ev : List ℕ)
        → ev ≡ oldest ∷ rest
        → t.max ≤ length ev
        → answer t.window t.max now' ev ≡ wait (oldest + t.window - now')
    waits oldest rest [] f many = cc
    waits oldest rest (x ∷ ev) f many = ground arith

All-drop_stale :
    (P : ℕ → Type 0) (window now : ℕ) (ev : List ℕ) → All P ev → All P (drop_stale window now ev)
unfolding drop_stale
All-drop_stale P window now [] a = tt
All-drop_stale P window now (e ∷ ev) a = elim (Bool-cases (ltb (e + window) now)) [
  | inl h ↦ rw h (All-drop_stale P window now ev a.1)
  | inr h ↦ rw h a
]

Ordered-drop_stale :
    (window now last : ℕ) (ev : List ℕ) → Ordered last ev → Ordered last (drop_stale window now ev)
unfolding drop_stale
Ordered-drop_stale window now last [] o = tt
Ordered-drop_stale window now last (e ∷ ev) o = elim (Bool-cases (ltb (e + window) now)) [
  | inl h ↦ rw h (Ordered-drop_stale window now last ev o.2)
  | inr h ↦ rw h o
]

All-snoc :
    (e now : ℕ) (ev : List ℕ) → All (λ x. e ≤ x) ev → e ≤ now → All (λ x. e ≤ x) (ev ++ now ∷ [])
All-snoc e now [] a le = (le, tt)
All-snoc e now (x ∷ ev) a le = (a.0, All-snoc e now ev a.1 le)

Ordered-snoc :
    (last now : ℕ) (ev : List ℕ) → last ≤ now → Ordered last ev → Ordered now (ev ++ now ∷ [])
Ordered-snoc last now [] le o = (omega arith, tt, tt)
Ordered-snoc last now (e ∷ ev) le o =
    (omega arith, All-snoc e now ev o.1 (omega arith), Ordered-snoc last now ev le o.2)

Ordered-later : (last now : ℕ) (ev : List ℕ) → last ≤ now → Ordered last ev → Ordered now ev
Ordered-later last now [] le o = tt
Ordered-later last now (e ∷ ev) le o = (omega arith, o.1, Ordered-later last now ev le o.2)

events_at-insert :
    (key j : String) (new : List ℕ) (u : Throttle)
    → events_at (record u { events = insert key new u.events }) j
      ≡ (if key == j then new else events_at u j)
unfolding events_at events_of
events_at-insert key j new u = ground (arith, lookup-insert key j new u.events, eq_iff key j)

events_at-pruned :
    (now : ℕ) (key j : String) (t : Throttle)
    → events_at (prune now key t) j
      ≡ (if key == j then drop_stale t.window now (events_at t key) else events_at t j)
unfolding prune
events_at-pruned now key j t = events_at-store_events key j _ t

events_at-add_event :
    (now now' : ℕ) (key j : String) (t : Throttle)
    → events_at (add_event now now' key t) j
      ≡ (if key == j then drop_stale t.window now (events_at t key) ++ now' ∷ [] else events_at t j)
unfolding add_event
events_at-add_event now now' key j t =
    events_at-insert key j _ (prune now key t)
    ∙ ground (arith, events_at-prune now key t, events_at-pruned now key j t)

-- Under a clock that does not go back, `Record` keeps the events of every key in the order of time.
pub add_event-Ordered :
    (now now' last : ℕ) (key j : String) (t : Throttle)
    → last ≤ now'
    → Ordered last (events_at t key)
    → Ordered last (events_at t j)
    → Ordered now' (events_at (add_event now now' key t) j)
add_event-Ordered now now' last key j t le o oj =
    rw (events_at-add_event now now' key j t) (elim (Bool-cases (key == j)) [
      | inl e ↦ rw e (Ordered-snoc last now' _ le (Ordered-drop_stale t.window now last _ o))
      | inr e ↦ rw e (Ordered-later last now' _ le oj)
    ])
