-- ===== src/Notifications/Flush/Episode.antt =====
-- internal/notifications/flusher.go: what a group of deferred rows comes to, written without its code.
use system_wrangler_backend.Prelude.{
  ◌≡◌, refl, ap, Bool, true, false, ◌&&◌, not, Option, none, some, List, [], ◌∷◌, any,
  if◌then◌else◌,
}
use system_wrangler_backend.Alerts.{TransitionKind, fired, resolved}
use system_wrangler_backend.Notifications.Dispatch.{Pending}
use system_wrangler_backend.Notifications.Flush.{is_fired, collapses, last_of}

-- The last row.
abbrev later_or : Pending → Option Pending → Option Pending
later_or p none = some p
later_or p (some q) = some q

abbrev pub final : List Pending → Option Pending
final [] = none
final (p ∷ rest) = later_or p (final rest)

-- Whether one of the rows says that the alert fired, and whether one says that it resolved.
abbrev or_fired : TransitionKind → Bool → Bool
or_fired fired rest = true
or_fired resolved rest = rest

abbrev or_resolved : TransitionKind → Bool → Bool
or_resolved fired rest = rest
or_resolved resolved rest = true

abbrev pub tells_fired : List Pending → Bool
tells_fired [] = false
tells_fired (p ∷ rest) = or_fired p.transition.kind (tells_fired rest)

abbrev pub tells_resolved : List Pending → Bool
tells_resolved [] = false
tells_resolved (p ∷ rest) = or_resolved p.transition.kind (tells_resolved rest)

pub final-last_of : (p : Pending) (rest : List Pending) → final (p ∷ rest) ≡ some (last_of p rest)
unfolding last_of
final-last_of p [] = refl
final-last_of p (q ∷ rest) = ap (later_or p) (final-last_of q rest)

any_fired : (items : List Pending) → any is_fired items ≡ tells_fired items
unfolding is_fired
any_fired [] = refl
any_fired (p ∷ rest) =
    elim (p.transition.kind)
      as (λ k.
        (if (elim k [ fired ↦ true | resolved ↦ false ]) then true else any is_fired rest)
        ≡ or_fired k (tells_fired rest)) [ fired ↦ refl | resolved ↦ any_fired rest ]

any_resolved : (items : List Pending) → any (λ p. not (is_fired p)) items ≡ tells_resolved items
unfolding is_fired
any_resolved [] = refl
any_resolved (p ∷ rest) =
    elim (p.transition.kind)
      as (λ k.
        (if not (elim k [ fired ↦ true | resolved ↦ false ])
          then true
          else any (λ q. not (is_fired q)) rest)
        ≡ or_resolved k (tells_resolved rest)) [ fired ↦ any_resolved rest | resolved ↦ refl ]

pub collapses-tells :
    (items : List Pending) → collapses items ≡ tells_fired items && tells_resolved items
unfolding collapses
collapses-tells items = rw (any_fired items, any_resolved items) refl
