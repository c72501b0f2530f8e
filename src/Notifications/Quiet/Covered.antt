-- ===== src/Notifications/Quiet/Covered.antt =====
-- internal/notifications/policy.go: the quiet hours as spans of the week.
use system_wrangler_backend.Prelude.{
  ℕ, ◌+◌, ◌*◌, ◌≤◌, ◌<◌, ◌≡◌, ◌≢◌, ◌↔◌, ◌⊎◌, refl, true, Option, none, some, List, arith, ltb, In,
  any-In, In-any, if◌then◌else◌, Bytes, inl, inr, Option-cases,
}
use system_wrangler_backend.Prelude.Maybe.{none_not_some}
use system_wrangler_backend.Prelude.Strings.{cut_at, ℤ, pos, negsuc, atoi}
use system_wrangler_backend.Notifications.Quiet.{
  QuietWindow, in_range, minutes_of, of_parts, parse_hhmm, day_covered, prev_day, in_span, in_times,
  in_window, Policy, Clock, or_utc, in_quiet_hours,
}

abbrev pub day_minutes : ℕ
day_minutes = 1440

abbrev pub week_minutes : ℕ
week_minutes = 10080

-- A window that starts on the day `d` ends on the same day or, where its end is not later than its start
-- on the clock, on the day after; the minute is counted from Sunday 0:00, also in the week after.
abbrev pub end_of : ℕ → ℕ → ℕ
end_of start end = if ltb start end then end else end + day_minutes

abbrev pub Spans : ℕ → ℕ → ℕ → ℕ → Type 0
Spans d start end minute =
    (d * day_minutes + start ≤ minute) × (minute < d * day_minutes + end_of start end)

pub record Covers (day minute : ℕ) (w : QuietWindow) : Type 0 where
  start : ℕ
  end : ℕ
  d : ℕ
  starts : parse_hhmm w.start ≡ some start
  ends : parse_hhmm w.end ≡ some end
  differ : start ≢ end
  on_week : d < 7
  on_day : day_covered w.days d ≡ true
  spans :
      Spans d start end (day * day_minutes + minute)
      ⊎ Spans d start end (day * day_minutes + minute + week_minutes)

in_range-bound : (hh mm n : ℕ) → in_range hh mm ≡ some n → n ≤ day_minutes
unfolding in_range
in_range-bound hh mm n h = ground arith

minutes_of-bound : (h m : Option ℤ) (n : ℕ) → minutes_of h m ≡ some n → n ≤ day_minutes
unfolding minutes_of
minutes_of-bound (some (pos hh)) (some (pos mm)) n h = in_range-bound hh mm n h
minutes_of-bound (some (pos hh)) (some (negsuc mm)) n h = cc
minutes_of-bound (some (pos hh)) none n h = cc
minutes_of-bound (some (negsuc hh)) m n h = cc
minutes_of-bound none m n h = cc

parse_hhmm-bound : (s : Bytes) (n : ℕ) → parse_hhmm s ≡ some n → n ≤ day_minutes
unfolding parse_hhmm of_parts
parse_hhmm-bound s n h = elim (Option-cases (cut_at b':' s)) [
  | inl e ↦ absurd (none_not_some (rw e at h))
  | inr (parts, e) ↦ minutes_of-bound (atoi parts.0) (atoi parts.1) n (rw e at h)
]

prev_day-before : (d : ℕ) → d < 7 → ((1 ≤ d) × (prev_day d + 1 ≡ d)) ⊎ ((d ≡ 0) × (prev_day d ≡ 6))
unfolding prev_day
prev_day-before d h = omega arith

prev_day-week : (d : ℕ) → prev_day d < 7
unfolding prev_day
prev_day-week d = omega arith

module _ (days : List ℕ) (start end day minute : ℕ) where
  -- The two ways of being in a window: its evening, and the morning behind it.
  abbrev Evening : Type 0
  Evening = (day_covered days day ≡ true) × (start ≤ minute) × (start < end → minute < end)

  abbrev Morning : Type 0
  Morning = (end < start) × (day_covered days (prev_day day) ≡ true) × (minute < end)

  in_span-parts : in_span days start end day minute ≡ true → (start ≢ end) × (Evening ⊎ Morning)
  unfolding in_span
  in_span-parts h = ground arith

  parts-in_span : start ≢ end → Evening ⊎ Morning → in_span days start end day minute ≡ true
  unfolding in_span
  parts-in_span ne (inl h) = ground arith
  parts-in_span ne (inr h) = ground arith

  module _ (on_week : day < 7) (on_day : minute < day_minutes) (start_bound : start ≤ day_minutes)
      (end_bound : end ≤ day_minutes) where
    evening-Spans : start ≢ end → Evening → Spans day start end (day * day_minutes + minute)
    evening-Spans ne h = ground arith

    morning-Spans :
        Morning
        → Spans (prev_day day) start end (day * day_minutes + minute)
          ⊎ Spans (prev_day day) start end (day * day_minutes + minute + week_minutes)
    morning-Spans h = let before = prev_day-before day on_week in ground (arith, before)

    Spans-day :
        (d : ℕ)
        → d < 7
        → start ≢ end
        → Spans d start end (day * day_minutes + minute)
          ⊎ Spans d start end (day * day_minutes + minute + week_minutes)
        → ((d ≡ day) × (start ≤ minute) × (start < end → minute < end))
          ⊎ ((end < start) × (d ≡ prev_day day) × (minute < end))
    Spans-day d dw ne sp = let before = prev_day-before day on_week in ground (arith, before)

    Spans-parts :
        (d : ℕ)
        → d < 7
        → start ≢ end
        → day_covered days d ≡ true
        → Spans d start end (day * day_minutes + minute)
          ⊎ Spans d start end (day * day_minutes + minute + week_minutes)
        → Evening ⊎ Morning
    Spans-parts d dw ne c sp = elim (Spans-day d dw ne sp) [
      | inl (same, begun, more) ↦ inl (rw (← same) c, begun, more)
      | inr (later, same, before) ↦ inr (later, rw (← same) c, before)
    ]

-- The clock reads a weekday and a minute of the day.
abbrev pub IsClock : Clock → Type 0
IsClock clock = (t : ℕ) → ((clock t).0 < 7) × ((clock t).1 < day_minutes)

module _ (day minute : ℕ) (on_week : day < 7) (on_day : minute < day_minutes) where
  parts-Covers :
      (w : QuietWindow) (a b : ℕ)
      → parse_hhmm w.start ≡ some a
      → parse_hhmm w.end ≡ some b
      → a ≢ b
      → Evening w.days a b day minute ⊎ Morning w.days a b day minute
      → Covers day minute w
  parts-Covers w a b ea eb ne (inl h) = record {
    start = a;
    end = b;
    d = day;
    starts = ea;
    ends = eb;
    differ = ne;
    on_week = on_week;
    on_day = h.0;
    spans = inl (
        evening-Spans w.days a b day minute on_week on_day (parse_hhmm-bound w.start a ea)
          (parse_hhmm-bound w.end b eb) ne h);
  }
  parts-Covers w a b ea eb ne (inr h) = record {
    start = a;
    end = b;
    d = prev_day day;
    starts = ea;
    ends = eb;
    differ = ne;
    on_week = prev_day-week day;
    on_day = h.1;
    spans =
        morning-Spans w.days a b day minute on_week on_day (parse_hhmm-bound w.start a ea)
          (parse_hhmm-bound w.end b eb) h;
  }

  times-Covers :
      (w : QuietWindow) (s e : Option ℕ)
      → parse_hhmm w.start ≡ s
      → parse_hhmm w.end ≡ e
      → in_times w.days s e day minute ≡ true
      → Covers day minute w
  unfolding in_times
  times-Covers w (some a) (some b) ea eb h =
      let (ne, parts) = in_span-parts w.days a b day minute h in parts-Covers w a b ea eb ne parts
  times-Covers w (some a) none ea eb h = cc
  times-Covers w none e ea eb h = cc

  in_window-Covers : (w : QuietWindow) → in_window day minute w ≡ true → Covers day minute w
  unfolding in_window
  in_window-Covers w h = times-Covers w (parse_hhmm w.start) (parse_hhmm w.end) refl refl h

  Covers-in_window : (w : QuietWindow) → Covers day minute w → in_window day minute w ≡ true
  unfolding in_window in_times
  Covers-in_window w c =
      rw (c.starts, c.ends)
        (parts-in_span w.days c.start c.end day minute c.differ (
          Spans-parts w.days c.start c.end day minute on_week on_day
            (parse_hhmm-bound w.start c.start c.starts) (parse_hhmm-bound w.end c.end c.ends) c.d
            c.on_week c.differ c.on_day c.spans))

-- An instant is in the quiet hours exactly when, in the zone of the policy, or in UTC where that is
-- unknown, one of the windows with two different valid times covers it: the instant lies within the
-- window begun on some covered weekday, which reaches into the next day where its end is the earlier time.
pub in_quiet_hours-Covers :
    (load_location : Bytes → Option Clock) (utc : Clock) (p : Policy) (t : ℕ)
    → IsClock (or_utc (load_location p.timezone) utc)
    → (in_quiet_hours load_location utc p t ≡ true) ↔ (
        (w : QuietWindow) × In w p.windows
        × Covers
            (or_utc (load_location p.timezone) utc t).0
            (or_utc (load_location p.timezone) utc t).1
            w)
unfolding in_quiet_hours
in_quiet_hours-Covers load_location utc p t sane =
    let now = or_utc (load_location p.timezone) utc t in
    (
      (λ h.
          let (w, i, y) = any-In (in_window now.0 now.1) p.windows h in
          (w, i, in_window-Covers now.0 now.1 (sane t).0 (sane t).1 w y)),
      (λ (w, i, c).
          In-any (in_window now.0 now.1) p.windows w i
            (Covers-in_window now.0 now.1 (sane t).0 (sane t).1 w c)),
    )
