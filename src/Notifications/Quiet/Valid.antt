-- ===== src/Notifications/Quiet/Valid.antt =====
-- internal/notifications/policy.go: `Validate`, and what it assures to `ModeFor` and to the quiet hours.
use system_wrangler_backend.Prelude.{
  ℕ, ◌≡◌, ◌≢◌, ◌<◌, refl, subst, Bool, true, false, ◌&&◌, not, Option, none, some, List, [], ◌∷◌,
  All, arith, ltb, any, nat_beq, if◌then◌else◌, Bytes, codes, bytes_eq, ◌==◌, Bool-cases, inl, inr,
  false≢true,
}
use system_wrangler_backend.Prelude.Maybe.{none_not_some}
use system_wrangler_backend.Prelude.Maps.{Map, lookup}
use system_wrangler_backend.Prelude.Strings.{trim_space}
use system_wrangler_backend.Notifications.Modes.{
  DeliveryMode, is_valid, default_severities, mode_for, mode_for-known,
}
use system_wrangler_backend.Notifications.Quiet.{QuietWindow, Policy, Clock, parse_hhmm}

has_default : Option DeliveryMode → Bool
has_default none = false
has_default (some _) = true

-- The loop over the severities.
unfoldable pub valid_severities : Map Bytes DeliveryMode → Bool
unfolding has_default
valid_severities [] = true
valid_severities ((sev, mode) ∷ rest) =
    has_default (lookup sev default_severities) && is_valid mode && valid_severities rest

-- Weekdays below Sunday are no numbers here.
times_differ : Option ℕ → Option ℕ → Bool
times_differ (some start) (some end) = not (nat_beq start end)
times_differ _ _ = false

valid_window : QuietWindow → Bool
unfolding times_differ
valid_window w =
    times_differ (parse_hhmm w.start) (parse_hhmm w.end) && not (any (λ d. ltb 6 d) w.days)

-- The loop over the windows.
unfoldable pub valid_windows : List QuietWindow → Bool
unfolding valid_window
valid_windows [] = true
valid_windows (w ∷ rest) = valid_window w && valid_windows rest

-- An empty time zone becomes UTC.
zone_or_utc : Bytes → Bytes
zone_or_utc tz = if trim_space tz == [] then codes "UTC" else tz

is_zone : Option Clock → Bool
is_zone none = false
is_zone (some _) = true

unfoldable pub validate : (Bytes → Option Clock) → Policy → Option Policy
unfolding valid_severities valid_windows zone_or_utc is_zone
validate load_location p =
    let tz = zone_or_utc p.timezone in
    if is_zone (load_location tz) && valid_severities p.severities && valid_windows p.windows
    then some (record p { timezone = tz })
    else none

-- A window whose times are read and differ, on days of the week.
pub record IsWindow (w : QuietWindow) : Type 0 where
  start : ℕ
  end : ℕ
  starts : parse_hhmm w.start ≡ some start
  ends : parse_hhmm w.end ≡ some end
  unlike : start ≢ end
  on_days : All (λ d. d < 7) w.days

days-bound : (days : List ℕ) → any (λ d. ltb 6 d) days ≡ false → All (λ d. d < 7) days
days-bound [] h = tt
days-bound (d ∷ rest) h =
    let low : d < 7 = ground (arith, h) in (low, days-bound rest (ground (arith, h)))

times_differ-parts :
    (s e : Option ℕ) → times_differ s e ≡ true → (a b : ℕ) × (s ≡ some a) × (e ≡ some b) × (a ≢ b)
unfolding times_differ
times_differ-parts (some a) (some b) h = (a, b, refl, refl, ground (arith, h))
times_differ-parts (some a) none h = absurd (false≢true h)
times_differ-parts none e h = absurd (false≢true h)

and_parts : (a b : Bool) → a && b ≡ true → (a ≡ true) × (b ≡ true)
and_parts a b h = ground arith

valid_window-IsWindow : (w : QuietWindow) → valid_window w ≡ true → IsWindow w
unfolding valid_window
valid_window-IsWindow w h =
    let (times, days) = and_parts (times_differ (parse_hhmm w.start) (parse_hhmm w.end)) _ h in
    let (a, b, s, e, ne) = times_differ-parts (parse_hhmm w.start) (parse_hhmm w.end) times in
    record {
      start = a;
      end = b;
      starts = s;
      ends = e;
      unlike = ne;
      on_days = days-bound w.days (ground (arith, days));
    }

valid_windows-IsWindow : (ws : List QuietWindow) → valid_windows ws ≡ true → All IsWindow ws
unfolding valid_windows
valid_windows-IsWindow [] h = tt
valid_windows-IsWindow (w ∷ rest) h =
    let (one, more) = and_parts (valid_window w) (valid_windows rest) h in
    (valid_window-IsWindow w one, valid_windows-IsWindow rest more)

lookup-is_valid :
    (sevs : Map Bytes DeliveryMode) (sev : Bytes) (m : DeliveryMode)
    → valid_severities sevs ≡ true
    → lookup sev sevs ≡ some m
    → is_valid m ≡ true
unfolding valid_severities lookup
lookup-is_valid [] sev m h e = absurd (none_not_some e)
lookup-is_valid ((s, mode) ∷ rest) sev m h e = elim (Bool-cases (s == sev)) [
  | inl t ↦ let same : mode ≡ m = ground (arith, t, e) in rw (← same) (ground (arith, h))
  | inr t ↦ lookup-is_valid rest sev m (ground (arith, h)) (rw t at e)
]

zone-found : (o : Option Clock) → is_zone o ≡ true → (clock : Clock) × (o ≡ some clock)
unfolding is_zone
zone-found none h = absurd (false≢true h)
zone-found (some clock) h = (clock, refl)

-- What a policy is to have.
pub record IsPolicy (load_location : Bytes → Option Clock) (p : Policy) : Type 0 where
  clock : Clock
  zone : load_location p.timezone ≡ some clock
  windows : All IsWindow p.windows
  modes :
      (sev : Bytes) (m : DeliveryMode)
      → lookup sev p.severities ≡ some m
      → mode_for p.severities sev ≡ m

checked :
    (load_location : Bytes → Option Clock) (p : Policy)
    → is_zone (load_location p.timezone) && valid_severities p.severities && valid_windows p.windows
      ≡ true
    → IsPolicy load_location p
checked load_location p h =
    let (first_two, windows) = and_parts _ (valid_windows p.windows) h in
    let (zone, sevs) =
      and_parts (is_zone (load_location p.timezone)) (valid_severities p.severities) first_two in
    let (clock, found) = zone-found (load_location p.timezone) zone in
    record {
      clock = clock;
      zone = found;
      windows = valid_windows-IsWindow p.windows windows;
      modes = λ sev m e.
          mode_for-known p.severities sev m e (lookup-is_valid p.severities sev m sevs e);
    }

-- The policy that a validation returns has a time zone that can be loaded, each of its windows has two
-- different valid times and days of the week, and each severity that it names is delivered by the mode
-- that it gives.
pub validate-IsPolicy :
    (load_location : Bytes → Option Clock) (p valid : Policy)
    → validate load_location p ≡ some valid
    → IsPolicy load_location valid
unfolding validate
validate-IsPolicy load_location p valid h =
    let tz = zone_or_utc p.timezone in
    elim (Bool-cases
      (is_zone (load_location tz) && valid_severities p.severities && valid_windows p.windows)) [
        | inl e ↦
            let same : some (record p { timezone = tz }) ≡ some valid = rw e at h in
            let same_policy : record p { timezone = tz } ≡ valid = cc in
            subst (IsPolicy load_location) same_policy
              (checked load_location (record p { timezone = tz }) e)
        | inr e ↦ absurd (none_not_some (rw e at h))
      ]
