-- ===== src/Notifications/Quiet.antt =====
-- internal/notifications/policy.go: the delivery policy with its quiet hours. Parameters: the zone database,
-- which gives the weekday and the minute of the day of an instant, and those of UTC. Weekdays count from
-- Sunday, 0.
pub mod Covered
pub mod Valid
mod Tests
use system_wrangler_backend.Prelude.{
  ℕ, ◌+◌, ◌*◌, ◌%◌, Bool, true, false, ◌&&◌, ◌||◌, not, Option, none, some, List, [], ◌∷◌, ltb, leb,
  any, if◌then◌else◌, Bytes, codes, ◌==◌, nat_eq, nat_beq,
}
use system_wrangler_backend.Prelude.Maps.{Map}
use system_wrangler_backend.Prelude.Strings.{cut_at, ℤ, pos, negsuc, atoi}
use system_wrangler_backend.Notifications.Modes.{DeliveryMode, default_severities}

pub record QuietWindow : Type 0 where
  pub days : List ℕ
  pub start : Bytes
  pub end : Bytes

-- The hours and the minutes that were read.
pub in_range : ℕ → ℕ → Option ℕ
in_range hh mm =
    if ltb 59 mm || ltb 24 hh || nat_beq hh 24 && not (nat_beq mm 0)
    then none
    else some (hh * 60 + mm)

minutes_of : Option ℤ → Option ℤ → Option ℕ
minutes_of (some (pos hh)) (some (pos mm)) = in_range hh mm
minutes_of _ _ = none

of_parts : Option (Bytes × Bytes) → Option ℕ
unfolding minutes_of
of_parts none = none
of_parts (some (h, m)) = minutes_of (atoi h) (atoi m)

pub parse_hhmm : Bytes → Option ℕ
unfolding of_parts
parse_hhmm s = of_parts (cut_at b':' s)

pub day_covered : List ℕ → ℕ → Bool
day_covered [] d = true
day_covered (x ∷ xs) d = any (λ y. y == d) (x ∷ xs)

pub prev_day : ℕ → ℕ
prev_day d = (d + 6) % 7

-- The body of the loop over the windows, behind the parsed times.
pub in_span : List ℕ → ℕ → ℕ → ℕ → ℕ → Bool
unfolding prev_day
in_span days start end day minute =
    if nat_beq start end
    then false
    else if ltb start end
    then day_covered days day && leb start minute && ltb minute end
    else day_covered days day && leb start minute
      || day_covered days (prev_day day) && ltb minute end

in_times : List ℕ → Option ℕ → Option ℕ → ℕ → ℕ → Bool
in_times days (some start) (some end) day minute = in_span days start end day minute
in_times days _ _ day minute = false

pub in_window : ℕ → ℕ → QuietWindow → Bool
unfolding in_times in_span
in_window day minute w = in_times w.days (parse_hhmm w.start) (parse_hhmm w.end) day minute

pub record Policy : Type 0 where
  pub timezone : Bytes
  pub windows : List QuietWindow
  pub severities : Map Bytes DeliveryMode

abbrev pub Clock : Type 0
Clock = ℕ → ℕ × ℕ

abbrev pub or_utc : Option Clock → Clock → Clock
or_utc none utc = utc
or_utc (some clock) utc = clock

pub in_quiet_hours : (Bytes → Option Clock) → Clock → Policy → ℕ → Bool
unfolding in_window
in_quiet_hours load_location utc p t =
    let (day, minute) = or_utc (load_location p.timezone) utc t in
    any (in_window day minute) p.windows

pub default_policy : Policy
default_policy = record { timezone = codes "UTC"; windows = []; severities = default_severities }
