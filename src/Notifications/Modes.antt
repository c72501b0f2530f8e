-- ===== src/Notifications/Modes.antt =====
-- internal/notifications/policy.go: how the transitions of a severity reach the channels.
use system_wrangler_backend.Prelude.{
  ◌≡◌, refl, false≢true, Bool, true, false, Option, none, some, [], ◌∷◌, Bytes, codes, bytes_eq,
  ◌==◌, if◌then◌else◌,
}
use system_wrangler_backend.Prelude.Maps.{Map, lookup}

-- A mode that the policy names; `other` is none of the three.
pub data DeliveryMode : Type 0 where
  dashboard quiet always : DeliveryMode
  other : Bytes → DeliveryMode

unfoldable pub is_valid : DeliveryMode → Bool
is_valid (other _) = false
is_valid _ = true

abbrev pub default_severities : Map Bytes DeliveryMode
default_severities =
    (codes "info", dashboard) ∷ (codes "warning", quiet) ∷ (codes "critical", always) ∷ []

unfoldable pub built_in : Option DeliveryMode → DeliveryMode
built_in none = quiet
built_in (some m) = m

unfoldable pub known_or : Option DeliveryMode → DeliveryMode → DeliveryMode
known_or none m = m
known_or (some (other _)) m = m
known_or (some dashboard) m = dashboard
known_or (some quiet) m = quiet
known_or (some always) m = always

-- `ModeFor`
unfoldable pub mode_for : Map Bytes DeliveryMode → Bytes → DeliveryMode
unfolding known_or built_in
mode_for severities severity =
    known_or (lookup severity severities) (built_in (lookup severity default_severities))

-- One of the three modes.
abbrev pub IsMode : DeliveryMode → Type 0
IsMode (other _) = ⊥
IsMode _ = Unit

known_or-IsMode : (o : Option DeliveryMode) (m : DeliveryMode) → IsMode m → IsMode (known_or o m)
unfolding known_or
known_or-IsMode none m h = h
known_or-IsMode (some (other _)) m h = h
known_or-IsMode (some dashboard) m h = tt
known_or-IsMode (some quiet) m h = tt
known_or-IsMode (some always) m h = tt

one_of :
    (i w c : Bool)
    → IsMode (
        built_in
          (if i then some dashboard else if w then some quiet else if c then some always else none))
unfolding built_in
one_of true w c = tt
one_of false true c = tt
one_of false false true = tt
one_of false false false = tt

built_in-IsMode : (severity : Bytes) → IsMode (built_in (lookup severity default_severities))
unfolding lookup
built_in-IsMode severity =
    one_of (codes "info" == severity) (codes "warning" == severity) (codes "critical" == severity)

pub mode_for-IsMode :
    (severities : Map Bytes DeliveryMode) (severity : Bytes) → IsMode (mode_for severities severity)
unfolding mode_for
mode_for-IsMode severities severity = known_or-IsMode _ _ (built_in-IsMode severity)

known_mode : (m d : DeliveryMode) → is_valid m ≡ true → known_or (some m) d ≡ m
unfolding known_or is_valid
known_mode dashboard d h = refl
known_mode quiet d h = refl
known_mode always d h = refl
known_mode (other s) d h = absurd (false≢true h)

pub mode_for-known :
    (severities : Map Bytes DeliveryMode) (severity : Bytes) (m : DeliveryMode)
    → lookup severity severities ≡ some m
    → is_valid m ≡ true
    → mode_for severities severity ≡ m
unfolding mode_for
mode_for-known severities severity m h v = rw h (known_mode m _ v)
