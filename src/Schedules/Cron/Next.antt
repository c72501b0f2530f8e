-- ===== src/Schedules/Cron/Next.antt =====
-- internal/schedules/cron.go: `Next`. An instant is a number of seconds, or of whole minutes where the
-- code has truncated it, both counted from one origin. A time zone is a parameter: what a clock on the
-- wall shows at an instant, in minutes from January 1, 1970, and which instant `time.Date` picks for
-- what the clock shows.
pub mod Least
pub mod Enough
pub mod Repeated
mod Tests
use system_wrangler_backend.Prelude.{
  ℕ, zero, suc, ◌+◌, ◌*◌, ◌/◌, ◌%◌, Bool, true, false, ◌&&◌, ◌||◌, Option, none, some,
  if◌then◌else◌,
}
use system_wrangler_backend.Schedules.Calendar.{Date, date_of, weekday_of, next_month}
use system_wrangler_backend.Schedules.Cron.{CronSchedule, Mask}

pub record Zone : Type 0 where
  pub wall : ℕ → ℕ
  pub date : ℕ → ℕ

-- The fields of what the clock shows.
unfoldable pub day_of : ℕ → ℕ
day_of w = w / 1440

unfoldable pub hour_of : ℕ → ℕ
hour_of w = w / 60 % 24

unfoldable pub minute_of : ℕ → ℕ
minute_of w = w % 60

-- Go's `switch` of `matchesDay` over the two flags.
day_rule : Bool → Bool → Bool → Bool → Bool
day_rule true true dom dow = true
day_rule true false dom dow = dow
day_rule false true dom dow = dom
day_rule false false dom dow = dom || dow

pub matches_day : CronSchedule → ℕ → Bool
unfolding day_rule day_of
matches_day c w =
    day_rule c.dom_starred c.dow_starred (c.doms (date_of (day_of w)).dom)
      (c.dows (weekday_of (day_of w)))

pub start_of_next_month : Zone → ℕ → ℕ
unfolding day_of
start_of_next_month z t = z.date (next_month (day_of (z.wall t)) * 1440)

-- `time.Date(y, m, d, 0, …).AddDate(0, 0, 1)`
pub start_of_next_day : Zone → ℕ → ℕ
unfolding day_of
start_of_next_day z t = z.date (z.wall (z.date (day_of (z.wall t) * 1440)) + 1440)

pub start_of_next_hour : Zone → ℕ → ℕ
start_of_next_hour z t = z.date (z.wall t / 60 * 60) + 60

-- One round of the loop: where it goes on, or none if it returns.
pub advance : Zone → CronSchedule → ℕ → Option ℕ
unfolding day_of hour_of minute_of
advance z c t =
    let w = z.wall t in
    if c.months (date_of (day_of w)).month
    then (if matches_day c w
        then (if c.hours (hour_of w)
            then (if c.minutes (minute_of w) then none else some (t + 1))
            else some (start_of_next_hour z t))
        else some (start_of_next_day z t))
    else some (start_of_next_month z t)

pub next_loop : ℕ → Zone → CronSchedule → ℕ → Option ℕ
next_loop zero z c t = none
next_loop (suc f) z c t = elim (advance z c t) [ none ↦ some t | some t' ↦ next_loop f z c t' ]

-- `4*366*24`
abbrev pub max_rounds : ℕ
max_rounds = 35136

unfoldable pub next : Zone → CronSchedule → ℕ → Option ℕ
unfolding next_loop advance matches_day start_of_next_month start_of_next_day start_of_next_hour
next z c after = next_loop max_rounds z c ((after + 60) / 60)
