-- ===== src/Schedules/Cron/Next/Least.antt =====
-- internal/schedules/cron.go: what `Next` returns in a time zone of constant offset. There the origin
-- of the instants can be put where the clock shows the beginning of 1970, so that the clock shows the
-- instant itself.
use system_wrangler_backend.Prelude.{
  ℕ, zero, suc, ◌+◌, ◌*◌, ◌/◌, ◌≤◌, ◌<◌, ◌≡◌, ◌⊎◌, sym, refl, Bool, true, false, ◌&&◌, none, some,
  arith, ◌∙◌, Option-cases, inl, inr,
}
use native.Mathlib.Decide.{dec_lt}
use system_wrangler_backend.Schedules.Calendar.{date_of, next_month-same, next_month-later}
use system_wrangler_backend.Schedules.Cron.{CronSchedule}
use system_wrangler_backend.Schedules.Cron.Next.{
  Zone, day_of, hour_of, minute_of, matches_day, start_of_next_month, start_of_next_day,
  start_of_next_hour, advance, next_loop, next, max_rounds,
}

abbrev pub steady : Zone
steady = record { wall = λ t. t; date = λ w. w }

-- The schedule fires at a minute that the clock shows.
unfoldable pub fires : CronSchedule → ℕ → Bool
fires c w =
    c.months (date_of (day_of w)).month
    && matches_day c w
    && c.hours (hour_of w)
    && c.minutes (minute_of w)

-- The month, the day and the hour are those of the schedule.
unfoldable pub in_hour : CronSchedule → ℕ → Bool
in_hour c w = c.months (date_of (day_of w)).month && matches_day c w && c.hours (hour_of w)

module _ (f : ℕ) (z : Zone) (c : CronSchedule) (t : ℕ) where
  pub next_loop-stop : advance z c t ≡ none → next_loop (suc f) z c t ≡ some t
  unfolding next_loop
  next_loop-stop e = rw (e, next_loop) refl

  pub next_loop-go :
      (t' : ℕ) → advance z c t ≡ some t' → next_loop (suc f) z c t ≡ next_loop f z c t'
  unfolding next_loop
  next_loop-go t' e = rw (e, next_loop) refl

module _ (c : CronSchedule) where
  next_month-skips :
      (t u : ℕ)
      → c.months (date_of (day_of t)).month ≡ false
      → t ≤ u
      → u < start_of_next_month steady t
      → fires c u ≡ false
  unfolding fires start_of_next_month day_of
  next_month-skips t u h le lt =
      rw (next_month-same (t / 1440) (u / 1440) (omega arith) (omega arith)) (rw h refl)

  next_day-skips :
      (t u : ℕ)
      → matches_day c t ≡ false
      → t ≤ u
      → u < start_of_next_day steady t
      → fires c u ≡ false
  unfolding fires start_of_next_day matches_day day_of
  next_day-skips t u h le lt = let e : u / 1440 ≡ t / 1440 = omega arith in rw e (ground arith)

  next_hour-skips :
      (t u : ℕ)
      → c.hours (hour_of t) ≡ false
      → t ≤ u
      → u < start_of_next_hour steady t
      → fires c u ≡ false
  unfolding fires start_of_next_hour hour_of
  next_hour-skips t u h le lt = let e : u / 60 ≡ t / 60 = omega arith in rw e (ground arith)

  pub advance-cases :
      (z : Zone) (t t' : ℕ)
      → advance z c t ≡ some t'
      → ((c.months (date_of (day_of (z.wall t))).month ≡ false) × (t' ≡ start_of_next_month z t))
        ⊎ ((matches_day c (z.wall t) ≡ false) × (t' ≡ start_of_next_day z t))
        ⊎ ((c.hours (hour_of (z.wall t)) ≡ false) × (t' ≡ start_of_next_hour z t))
        ⊎ ((c.minutes (minute_of (z.wall t)) ≡ false)
            × (t' ≡ t + 1)
            × (in_hour c (z.wall t) ≡ true))
  unfolding advance in_hour
  advance-cases z t t' h = ground arith

  pub next_month-advances : (t : ℕ) → t < start_of_next_month steady t
  unfolding start_of_next_month day_of
  next_month-advances t = omega (arith, next_month-later (t / 1440))

  next_day-advances : (t : ℕ) → t < start_of_next_day steady t
  unfolding start_of_next_day day_of
  next_day-advances t = omega arith

  next_hour-advances : (t : ℕ) → t < start_of_next_hour steady t
  unfolding start_of_next_hour
  next_hour-advances t = omega arith

  minute-skips : (t u : ℕ) → c.minutes (minute_of t) ≡ false → t ≤ u → u < t + 1 → fires c u ≡ false
  unfolding fires
  minute-skips t u h le lt = let e : u ≡ t = omega arith in rw e (ground arith)

  -- A round that goes on from `t` goes on at a later minute, and skips none that the schedule
  -- fires at.
  pub advance-skips :
      (t t' : ℕ)
      → advance steady c t ≡ some t'
      → (t < t') × ((u : ℕ) → t ≤ u → u < t' → fires c u ≡ false)
  advance-skips t t' h = elim (advance-cases steady t t' h) [
    | inl (m, e) ↦ rw e (next_month-advances t, λ u. next_month-skips t u m)
    | inr (inl (d, e)) ↦ rw e (next_day-advances t, λ u. next_day-skips t u d)
    | inr (inr (inl (o, e))) ↦ rw e (next_hour-advances t, λ u. next_hour-skips t u o)
    | inr (inr (inr (m, e, _))) ↦ rw e (omega arith, λ u. minute-skips t u m)
  ]

  advance-none : (t : ℕ) → advance steady c t ≡ none → fires c t ≡ true
  unfolding advance fires
  advance-none t h = ground arith

  next_loop-least :
      (f t r : ℕ)
      → next_loop f steady c t ≡ some r
      → (t ≤ r) × (fires c r ≡ true) × ((u : ℕ) → t ≤ u → u < r → fires c u ≡ false)
  next_loop-least zero t r h = unfold next_loop in cc
  next_loop-least (suc f) t r h = elim (Option-cases (advance steady c t)) [
    | inl e ↦
        let same : r ≡ t = cc (next_loop-stop f steady c t e) in
        rw same (omega arith, advance-none t e, λ u le lt. absurd (omega arith))
    | inr (t', e) ↦
        let (later, skips) = advance-skips t t' e in
        let (le, fire, least) = next_loop-least f t' r (sym (next_loop-go f steady c t t' e) ∙ h) in
        (
          omega arith,
          fire,
          λ u from to. elim (dec_lt u t') [
            | yes before ↦ skips u from before
            | no after ↦ least u (omega arith) to
          ],
        )
  ]

-- In a time zone of constant offset, `Next` returns a whole minute after the given instant at which the
-- schedule fires, and the schedule fires at no whole minute between the two.
pub next_least :
    (c : CronSchedule) (after r : ℕ)
    → next steady c after ≡ some r
    → (after < r * 60) × (fires c r ≡ true) × ((u : ℕ) → after < u * 60 → u < r → fires c u ≡ false)
next_least c after r h =
    let (le, fire, least) = next_loop-least c max_rounds ((after + 60) / 60) r (unfold next in h) in
    (omega arith, fire, λ u from to. least u (omega arith) to)
