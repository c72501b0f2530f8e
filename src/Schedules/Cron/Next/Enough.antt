-- ===== src/Schedules/Cron/Next/Enough.antt =====
-- internal/schedules/cron.go: the rounds of `Next` are enough, in a time zone of constant offset.
use system_wrangler_backend.Prelude.{
  ℕ, zero, suc, ◌+◌, ◌-◌, ◌*◌, ◌/◌, ◌%◌, ◌≤◌, ◌<◌, ◌≡◌, ◌≢◌, ◌⊎◌, refl, ◌∙◌, true, false, none,
  some, arith, Option-cases, inl, inr, Bool-cases,
}
use native.Mathlib.Decide.{dec_lt, ℕ_discrete}
use system_wrangler_backend.Schedules.Calendar.{next_month-later}
use system_wrangler_backend.Schedules.Cron.{CronSchedule}
use system_wrangler_backend.Schedules.Cron.Next.{
  day_of, hour_of, minute_of, matches_day, start_of_next_month, start_of_next_day,
  start_of_next_hour, advance, next_loop, next, max_rounds,
}
use system_wrangler_backend.Schedules.Cron.Next.Least.{
  steady, fires, in_hour, advance-cases, advance-skips, next_loop-stop, next_loop-go, next_least,
}

module _ (c : CronSchedule) where
  abbrev Found : ℕ → ℕ → Type 0
  Found f t = (r : ℕ) × (next_loop f steady c t ≡ some r)

  in_hour-next : (t : ℕ) → (t + 1) / 60 ≡ t / 60 → in_hour c (t + 1) ≡ in_hour c t
  unfolding in_hour day_of hour_of matches_day
  in_hour-next t e = let d : (t + 1) / 1440 ≡ t / 1440 = omega arith in rw (e, d) refl

  -- A round either goes to the next minute of an hour of the schedule, or to the start of a later hour.
  advance-shape :
      (t t' : ℕ)
      → advance steady c t ≡ some t'
      → ((in_hour c t ≡ true) × (t' ≡ t + 1) × (c.minutes (minute_of t) ≡ false))
        ⊎ ((t' % 60 ≡ 0) × (t / 60 < t' / 60))
  unfolding start_of_next_month start_of_next_day start_of_next_hour day_of
  advance-shape t t' h = elim (advance-cases c steady t t' h) [
    | inl (m, e) ↦ inr (rw e (omega arith, omega (arith, next_month-later (t / 1440))))
    | inr (inl (d, e)) ↦ inr (rw e (omega arith, omega arith))
    | inr (inr (inl (o, e))) ↦ inr (rw e (omega arith, omega arith))
    | inr (inr (inr (m, e, i))) ↦ inl (i, e, m)
  ]

  advance-on :
      (t : ℕ) → in_hour c t ≡ true → c.minutes (minute_of t) ≡ true → advance steady c t ≡ none
  unfolding advance in_hour
  advance-on t i on = ground arith

  advance-off :
      (t : ℕ)
      → in_hour c t ≡ true
      → c.minutes (minute_of t) ≡ false
      → advance steady c t ≡ some (t + 1)
  unfolding advance in_hour
  advance-off t i off = ground arith

  other_minute : (t m : ℕ) → c.minutes (minute_of t) ≡ false → c.minutes m ≡ true → t % 60 ≢ m
  unfolding minute_of
  other_minute t m off on e = cc

  go-found : (f t t' : ℕ) → advance steady c t ≡ some t' → Found f t' → Found (suc f) t
  go-found f t t' e (r, g) = (r, next_loop-go f steady c t t' e ∙ g)

  -- From an hour of the schedule on, up to a minute of it.
  found_in_hour :
      (f t m : ℕ)
      → in_hour c t ≡ true
      → c.minutes m ≡ true
      → m < 60
      → t % 60 ≤ m
      → m - t % 60 < f
      → Found f t
  found_in_hour zero t m i o lt le b = absurd (omega arith)
  found_in_hour (suc f) t m i o lt le b = elim (Bool-cases (c.minutes (minute_of t))) [
    | inl on ↦ (t, next_loop-stop f steady c t (advance-on t i on))
    | inr off ↦
        let ahead : t % 60 ≢ m = other_minute t m off o in
        go-found f t (t + 1) (advance-off t i off) (
          found_in_hour f (t + 1) m (in_hour-next t (omega arith) ∙ i) o lt (omega arith)
            (omega arith))
  ]

  module _ (u : ℕ) (fire : fires c u ≡ true) where
    minute_fires : c.minutes (u % 60) ≡ true
    minute_fires = unfold fires minute_of in ground arith

    advance-le : (t t' : ℕ) → advance steady c t ≡ some t' → t ≤ u → t' ≤ u
    advance-le t t' e le = elim (dec_lt u t') [
      | yes h ↦ cc ((advance-skips c t t' e).1 u le h)
      | no h ↦ omega arith
    ]

    found_from_start : (f t : ℕ) → t % 60 ≡ 0 → t ≤ u → u / 60 - t / 60 + 60 ≤ f → Found f t
    found_from_start zero t s le b = absurd (omega arith)
    found_from_start (suc f) t s le b = elim (Option-cases (advance steady c t)) [
      | inl e ↦ (t, next_loop-stop f steady c t e)
      | inr (t', e) ↦ elim (advance-shape t t' e) [
        | inl (i, _, _) ↦
            found_in_hour (suc f) t (u % 60) i minute_fires (omega arith) (omega arith)
              (omega arith)
        | inr (s', later) ↦
            go-found f t t' e (
              found_from_start f t' s' (advance-le t t' e le) (omega (arith, advance-le t t' e le)))
      ]
    ]

    found : (f t : ℕ) → t ≤ u → 60 - t % 60 + (u / 60 - t / 60 + 60) ≤ f → Found f t
    found zero t le b = absurd (omega arith)
    found (suc f) t le b = elim (Option-cases (advance steady c t)) [
      | inl e ↦ (t, next_loop-stop f steady c t e)
      | inr (t', e) ↦ elim (advance-shape t t' e) [
        | inl (i, same, _) ↦ go-found f t t' e (elim (ℕ_discrete ((t + 1) % 60) 0) [
          | yes s ↦
              rw same
                (found_from_start f (t + 1) s (omega (arith, advance-le t t' e le)) (omega arith))
          | no s ↦ rw same (found f (t + 1) (omega (arith, advance-le t t' e le)) (omega arith))
        ])
        | inr (s', later) ↦
            go-found f t t' e (
              found_from_start f t' s' (advance-le t t' e le) (omega (arith, advance-le t t' e le)))
      ]
    ]

-- In a time zone of constant offset, if the schedule fires at some whole minute later than the given
-- instant by at most 1459 days, then `Next` does not give up, and returns that minute or an earlier one.
pub next-finds :
    (c : CronSchedule) (after u : ℕ)
    → fires c u ≡ true
    → after < u * 60
    → u * 60 ≤ after + 1459 * 86400
    → (r : ℕ) × (next steady c after ≡ some r) × (r ≤ u)
next-finds c after u fire later soon =
    let (r, e) = found c u fire max_rounds ((after + 60) / 60) (omega arith) (omega arith) in
    let e' : next steady c after ≡ some r = unfold next in e in (r, e', earlier r e')
  where
    earlier : (r : ℕ) → next steady c after ≡ some r → r ≤ u
    earlier r e = elim (dec_lt u r) [
      | yes h ↦ cc ((next_least c after r e).2 u later h)
      | no h ↦ omega arith
    ]
