-- ===== src/Schedules/Cron/Next/Repeated.antt =====
-- internal/schedules/cron.go: `Next` on the day on which clocks are turned back, in a time zone for
-- which `time.Date` picks the first of the two instants at which the clock shows the same.
use system_wrangler_backend.Prelude.{
  ℕ, zero, suc, ◌+◌, ◌*◌, ◌/◌, ◌≡◌, ◌∙◌, true, false, none, some, refl,
}
use system_wrangler_backend.Schedules.Calendar.{date_of}
use system_wrangler_backend.Schedules.Cron.{CronSchedule}
use system_wrangler_backend.Schedules.Cron.Next.{
  Zone, day_of, hour_of, matches_day, start_of_next_hour, advance, next_loop, next, max_rounds,
}
use system_wrangler_backend.Schedules.Cron.Next.Least.{next_loop-go}

-- At `t` the second of two hours begins that the clock shows alike, and `time.Date` picks the first.
abbrev pub IsRepeated : Zone → ℕ → Type 0
IsRepeated z t = z.date (z.wall t / 60 * 60) + 60 ≡ t

-- On a day of the schedule whose repeated hour is none of its hours, the search that has come to the
-- second of the two hours never leaves it, and gives up after all of its rounds.
next_loop-repeated :
    (z : Zone) (c : CronSchedule) (t f : ℕ)
    → IsRepeated z t
    → c.months (date_of (day_of (z.wall t))).month ≡ true
    → matches_day c (z.wall t) ≡ true
    → c.hours (hour_of (z.wall t)) ≡ false
    → next_loop f z c t ≡ none
next_loop-repeated z c t zero r m d h = unfold next_loop in refl
next_loop-repeated z c t (suc f) r m d h =
    next_loop-go f z c t t (stays z c t r m d h) ∙ next_loop-repeated z c t f r m d h
  where
    stays :
        (z : Zone) (c : CronSchedule) (t : ℕ)
        → IsRepeated z t
        → c.months (date_of (day_of (z.wall t))).month ≡ true
        → matches_day c (z.wall t) ≡ true
        → c.hours (hour_of (z.wall t)) ≡ false
        → advance z c t ≡ some t
    stays z c t r m d h = unfold advance start_of_next_hour in rw (m, d, h) (rw r refl)

-- The search comes from one minute to the other in so many rounds.
abbrev pub Reaches : Zone → CronSchedule → ℕ → ℕ → ℕ → Type 0
Reaches z c zero s t = s ≡ t
Reaches z c (suc k) s t = (s' : ℕ) × (advance z c s ≡ some s') × Reaches z c k s' t

next_loop-Reaches :
    (z : Zone) (c : CronSchedule) (k s t f : ℕ)
    → Reaches z c k s t
    → ((g : ℕ) → next_loop g z c t ≡ none)
    → next_loop f z c s ≡ none
next_loop-Reaches z c zero s t f e n = rw e (n f)
next_loop-Reaches z c (suc k) s t zero e n = unfold next_loop in refl
next_loop-Reaches z c (suc k) s t (suc f) (s', e, later) n =
    next_loop-go f z c s s' e ∙ next_loop-Reaches z c k s' t f later n

-- `Next` fails if its search comes, in any number of rounds, to the second of two hours that the clock
-- shows alike and of which `time.Date` picks the first, where the schedule fires on that day but not in
-- that hour.
pub next-repeated :
    (z : Zone) (c : CronSchedule) (after k t : ℕ)
    → Reaches z c k ((after + 60) / 60) t
    → IsRepeated z t
    → c.months (date_of (day_of (z.wall t))).month ≡ true
    → matches_day c (z.wall t) ≡ true
    → c.hours (hour_of (z.wall t)) ≡ false
    → next z c after ≡ none
unfolding next
next-repeated z c after k t e r m d h =
    next_loop-Reaches z c k ((after + 60) / 60) t max_rounds e
      (λ f. next_loop-repeated z c t f r m d h)
