-- ===== src/Schedules/Calendar.antt =====
-- The Gregorian calendar, as package time has it: days are counted from Thursday, January 1, 1970.
use system_wrangler_backend.Prelude.{
  ℕ, zero, suc, ◌+◌, ◌-◌, ◌%◌, ◌≤◌, ◌<◌, ◌≡◌, refl, Bool, ◌&&◌, ◌||◌, not, arith, ltb,
  if◌then◌else◌, nat_beq, lt→ltb, ap, ◌∙◌,
}
use native.Mathlib.Nat.{add-zero, add-suc}

pub record Date : Type 0 where
  pub year : ℕ
  pub month : ℕ
  pub dom : ℕ

is_leap : ℕ → Bool
is_leap y = nat_beq (y % 4) 0 && (not (nat_beq (y % 100) 0) || nat_beq (y % 400) 0)

unfoldable pub days_in : ℕ → ℕ → ℕ
unfolding is_leap
days_in y m =
    if nat_beq m 2
    then (if is_leap y then 29 else 28)
    else if nat_beq m 4 || nat_beq m 6 || nat_beq m 9 || nat_beq m 11
    then 30
    else 31

-- `m++; if m > 12 { m = 1; y++ }`, at its first day.
first_of_next : Date → Date
first_of_next d =
    if ltb d.month 12
    then record { year = d.year; month = d.month + 1; dom = 1 }
    else record { year = d.year + 1; month = 1; dom = 1 }

tomorrow : Date → Date
tomorrow d =
    if ltb d.dom (days_in d.year d.month) then record d { dom = d.dom + 1 } else first_of_next d

unfoldable pub date_of : ℕ → Date
unfolding tomorrow days_in first_of_next
date_of zero = record { year = 1970; month = 1; dom = 1 }
date_of (suc n) = tomorrow (date_of n)

-- Sunday is 0.
unfoldable pub weekday_of : ℕ → ℕ
weekday_of n = (n + 4) % 7

-- The day of `time.Date(y, m, 1, …)` for the month after that of the day `n`.
unfoldable pub next_month : ℕ → ℕ
next_month n = let d = date_of n in n + (days_in d.year d.month + 1 - d.dom)

record IsDate (d : Date) : Type 0 where
  dom_from : 1 ≤ d.dom
  dom_to : d.dom ≤ days_in d.year d.month
  month_from : 1 ≤ d.month
  month_to : d.month ≤ 12

days_in-bounds : (y m : ℕ) → (28 ≤ days_in y m) × (days_in y m ≤ 31)
unfolding days_in
days_in-bounds y m = ground arith

tomorrow-IsDate : (d : Date) → IsDate d → IsDate (tomorrow d)
unfolding tomorrow first_of_next
tomorrow-IsDate d i =
    ground (arith, days_in-bounds d.year (d.month + 1), days_in-bounds (d.year + 1) 1)

date_of-IsDate : (n : ℕ) → IsDate (date_of n)
unfolding date_of
date_of-IsDate zero = unfold days_in in ground arith
date_of-IsDate (suc n) = tomorrow-IsDate (date_of n) (date_of-IsDate n)

-- The fields of a date lie in the ranges of a cron expression.
pub date_of_bounds :
    (n : ℕ)
    → (1 ≤ (date_of n).month)
      × ((date_of n).month ≤ 12)
      × (1 ≤ (date_of n).dom)
      × ((date_of n).dom ≤ 31)
date_of_bounds n =
    let i = date_of-IsDate n in
    (
      i.month_from,
      i.month_to,
      i.dom_from,
      omega (arith, i.dom_to, days_in-bounds (date_of n).year (date_of n).month),
    )

tomorrow-same_month :
    (d : Date) → d.dom < days_in d.year d.month → tomorrow d ≡ record d { dom = d.dom + 1 }
unfolding tomorrow
tomorrow-same_month d h = rw (lt→ltb _ _ h)

date_of-later :
    (k n : ℕ)
    → (date_of n).dom + k ≤ days_in (date_of n).year (date_of n).month
    → date_of (n + k) ≡ record (date_of n) { dom = (date_of n).dom + k }
unfolding date_of
date_of-later zero n h = rw add-zero (rw add-zero refl)
date_of-later (suc k) n h =
    let d = date_of n in
    rw add-suc (
      ap tomorrow (date_of-later k n (omega arith))
      ∙ tomorrow-same_month (record d { dom = d.dom + k }) (omega arith)
      ∙ ap (λ x. record d { dom = x }) (omega arith))

pub next_month-later : (n : ℕ) → n < next_month n
unfolding next_month
next_month-later n = omega (arith, (date_of-IsDate n).dom_to)

-- The days up to the first of the next month lie in the same month.
pub next_month-same : (n m : ℕ) → n ≤ m → m < next_month n → (date_of m).month ≡ (date_of n).month
unfolding next_month
next_month-same n m le lt =
    let e : m ≡ n + (m - n) = omega arith in
    rw e (ap (λ d. d.month) (date_of-later (m - n) n (omega arith)))
