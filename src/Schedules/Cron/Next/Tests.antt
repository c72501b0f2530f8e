-- ===== src/Schedules/Cron/Next/Tests.antt =====
-- internal/schedules/cron.go: runs, and the theorems at concrete inputs.
use system_wrangler_backend.Prelude.{
  ℕ, ◌+◌, ◌-◌, ◌*◌, ◌≤◌, ◌<◌, ◌≡◌, refl, true, false, Option, none, some, arith, if◌then◌else◌, ltb,
  codes, Bytes, [],
}
use system_wrangler_backend.Prelude.Eq.{bytes_beq}
use system_wrangler_backend.Prelude.Maps.{lookup}
use system_wrangler_backend.Prelude.Strings.{trim_space, split, fields, cut_at, to_lower, atoi}
use system_wrangler_backend.Schedules.Calendar.{date_of, weekday_of, next_month}
use system_wrangler_backend.Schedules.Cron.{
  CronSchedule, blank, parse_cron, five_fields, parse_field, parse_field_starred, parse_terms,
  parse_term, parse_step, parse_range, parse_atom, stamp, is_seven,
}
use system_wrangler_backend.Schedules.Cron.Valid.{IsSchedule, parse_cron-IsSchedule}
use system_wrangler_backend.Schedules.Cron.Next.{
  Zone, next, next_loop, day_of, hour_of, minute_of, matches_day, advance, day_rule,
  start_of_next_hour,
}
use system_wrangler_backend.Schedules.Cron.Next.Least.{steady, fires, next_least}
use system_wrangler_backend.Schedules.Cron.Next.Enough.{next-finds}
use system_wrangler_backend.Schedules.Cron.Next.Repeated.{next-repeated, IsRepeated}

abbrev empty : CronSchedule
empty = record {
  expr = [];
  minutes = blank;
  hours = blank;
  doms = blank;
  months = blank;
  dows = blank;
  dom_starred = false;
  dow_starred = false;
}

parsed : Option CronSchedule → CronSchedule
parsed none = empty
parsed (some c) = c

abbrev text : Bytes
text = codes " */30 5-7 1 Feb-mar 7 "

-- Half past, between 5 and 8, on Sundays and first days of February and March.
spring : CronSchedule
unfolding parsed parse_cron five_fields parse_field parse_field_starred parse_terms parse_term
    parse_step parse_range parse_atom stamp is_seven trim_space split fields cut_at to_lower atoi
    bytes_beq lookup
spring = parsed (parse_cron text)

parse_text : parse_cron text ≡ some spring
unfolding spring
parse_text = refl

parse_backwards : parse_cron (codes "5-4 * * * *") ≡ none
unfolding spring
parse_backwards = refl

parse_four : parse_cron (codes "5 4 * *") ≡ none
unfolding spring
parse_four = refl

-- Sunday, February 1, 1970, 5:00.
spring-next : next steady spring 0 ≡ some (31 * 1440 + 300)
unfolding spring next date_of weekday_of next_month day_of hour_of minute_of
spring-next = refl

parse_cron-IsSchedule_example : (spring.expr ≡ trim_space text) × IsSchedule spring
parse_cron-IsSchedule_example = parse_cron-IsSchedule text spring parse_text

next_least_example :
    (0 < (31 * 1440 + 300) * 60)
    × (fires spring (31 * 1440 + 300) ≡ true)
    × ((u : ℕ) → 0 < u * 60 → u < 31 * 1440 + 300 → fires spring u ≡ false)
next_least_example = next_least spring 0 (31 * 1440 + 300) spring-next

-- The same Sunday, 7:30.
spring-fires : fires spring (31 * 1440 + 450) ≡ true
unfolding spring fires matches_day day_rule date_of weekday_of day_of hour_of minute_of
spring-fires = refl

next-finds_example : (r : ℕ) × (next steady spring 0 ≡ some r) × (r ≤ 31 * 1440 + 450)
next-finds_example = next-finds spring 0 (31 * 1440 + 450) spring-fires (omega arith) (omega arith)

-- At two o'clock on the first day clocks are turned back to one o'clock, and the first of two
-- instants is picked, as it is in the time zones of America.
abbrev turned_back : Zone
turned_back = record {
  wall = λ t. if ltb t 120 then t else t - 60;
  date = λ w. if ltb w 120 then w else w + 60;
}

-- Every day at five o'clock.
daily : CronSchedule
unfolding spring
daily = parsed (parse_cron (codes "0 5 * * *"))

-- At midnight of the day the search does not come past the repeated hour.
daily_stuck : next_loop 40 turned_back daily 1 ≡ none
unfolding daily next date_of weekday_of next_month day_of hour_of minute_of
daily_stuck = refl

daily-IsRepeated : IsRepeated turned_back 120
daily-IsRepeated = refl

first_round : advance turned_back daily 1 ≡ some 60
unfolding daily advance matches_day date_of weekday_of day_of hour_of start_of_next_hour
first_round = refl

second_round : advance turned_back daily 60 ≡ some 120
unfolding daily advance matches_day date_of weekday_of day_of hour_of start_of_next_hour
second_round = refl

next-repeated_example : next turned_back daily 0 ≡ none
unfolding daily date_of weekday_of day_of hour_of matches_day day_rule
next-repeated_example =
    next-repeated turned_back daily 0 2 120 (60, first_round, (120, second_round, refl))
      daily-IsRepeated refl refl refl
