-- ===== src/Schedules/Cron/Valid.antt =====
-- internal/schedules/cron.go: what `ParseCron` promises of a schedule that it returns.
use system_wrangler_backend.Prelude.{
  ℕ, ◌≤◌, ◌≡◌, refl, none, some, List, [], ◌∷◌, arith, Bytes, All, bytes_eq, ◌==◌, Bool-cases, inl,
  inr,
}
use system_wrangler_backend.Prelude.Maps.{Map, lookup}
use system_wrangler_backend.Prelude.Maybe.{bind-some, transport_some}
use system_wrangler_backend.Prelude.Strings.{to_lower, trim_space, fields}
use system_wrangler_backend.Schedules.Cron.{
  CronSchedule, Mask, Names, month_names, dow_names, has_names, name_value, is_seven,
  parse_field_starred, parse_field, five_fields, parse_cron,
}
use system_wrangler_backend.Schedules.Cron.Stamp.{InRange, HasBit}
use system_wrangler_backend.Schedules.Cron.Parsed.{IsField, field-HasBit}

-- A mask with some bit, all of whose bits lie in the range.
abbrev pub IsMask : ℕ → ℕ → Mask → Type 0
IsMask min_val max_val mask = InRange min_val max_val mask × HasBit mask

pub record IsSchedule (c : CronSchedule) : Type 0 where
  pub minutes_ok : IsMask 0 59 c.minutes
  pub hours_ok : IsMask 0 23 c.hours
  pub doms_ok : IsMask 1 31 c.doms
  pub months_ok : IsMask 1 12 c.months
  pub dows_ok : IsMask 0 6 c.dows

lookup-All :
    (P : ℕ → Type 0) (k : Bytes) (v : ℕ) (m : Map Bytes ℕ)
    → All (λ (e : Bytes × ℕ). P e.1) m
    → lookup k m ≡ some v
    → P v
unfolding lookup
lookup-All P k v [] a h = cc
lookup-All P k v ((j, w) ∷ m) a h = elim (Bool-cases (j == k)) [
  | inl e ↦ let same : w ≡ v = ground arith in rw (← same) a.0
  | inr e ↦ lookup-All P k v m a.1 (rw e at h)
]

plain : (max_val : ℕ) → IsField 0 max_val none
unfolding name_value is_seven has_names
plain max_val = record { ordered = omega arith; named = λ s v h. cc; sunday = λ h. refl }

plain_dom : IsField 1 31 none
unfolding name_value is_seven has_names
plain_dom = record { ordered = omega arith; named = λ s v h. cc; sunday = λ h. cc }

month-IsField : IsField 1 12 (some month_names)
unfolding name_value is_seven has_names
month-IsField = record {
  ordered = omega arith;
  named = λ s v h. lookup-All (λ x. (1 ≤ x) × (x ≤ 12)) (to_lower s) v month_names (omega arith) h;
  sunday = λ h. cc;
}

dow-IsField : IsField 0 6 (some dow_names)
unfolding name_value
dow-IsField = record {
  ordered = omega arith;
  named = λ s v h. lookup-All (λ x. (0 ≤ x) × (x ≤ 6)) (to_lower s) v dow_names (omega arith) h;
  sunday = λ h. refl;
}

parse_field-IsMask :
    (expr : Bytes) (min_val max_val : ℕ) (names : Names) (len : ℕ) (mask : Mask)
    → IsField min_val max_val names
    → parse_field expr min_val max_val names len ≡ some mask
    → IsMask min_val max_val mask
unfolding parse_field
parse_field-IsMask expr min_val max_val names len mask field h =
    let ((m, b), e, h₁) = bind-some (parse_field_starred expr min_val max_val names len) _ mask h in
    let same : m ≡ mask = cc (h₁) in
    rw (← same) (field-HasBit min_val max_val names field len expr m b e)

five_fields-IsSchedule :
    (expr : Bytes) (parts : List Bytes) (c : CronSchedule)
    → five_fields expr parts ≡ some c
    → (c.expr ≡ expr) × IsSchedule c
unfolding five_fields
five_fields-IsSchedule expr (minute ∷ hour ∷ dom ∷ month ∷ dow ∷ []) c h =
    let (minutes, e₁, h₁) = bind-some (parse_field minute 0 59 none 60) _ c h in
    let (hours, e₂, h₂) = bind-some (parse_field hour 0 23 none 24) _ c h₁ in
    let ((doms, ds), e₃, h₃) = bind-some (parse_field_starred dom 1 31 none 32) _ c h₂ in
    let (months, e₄, h₄) = bind-some (parse_field month 1 12 (some month_names) 13) _ c h₃ in
    let ((dows, ws), e₅, h₅) = bind-some (parse_field_starred dow 0 6 (some dow_names) 7) _ c h₄ in
    transport_some (λ d. (d.expr ≡ expr) × IsSchedule d) _ c h₅
      (
        refl,
        record {
          minutes_ok = parse_field-IsMask minute 0 59 none 60 minutes (plain 59) e₁;
          hours_ok = parse_field-IsMask hour 0 23 none 24 hours (plain 23) e₂;
          doms_ok = field-HasBit 1 31 none plain_dom 32 dom doms ds e₃;
          months_ok = parse_field-IsMask month 1 12 (some month_names) 13 months month-IsField e₄;
          dows_ok = field-HasBit 0 6 (some dow_names) dow-IsField 7 dow dows ws e₅;
        },
      )
five_fields-IsSchedule expr _ c h = cc

-- `ParseCron` returns a schedule only if each of its five fields allows some value, and all the values
-- that it allows lie in the range of the field; the expression is kept without the space round it.
pub parse_cron-IsSchedule :
    (expr : Bytes) (c : CronSchedule)
    → parse_cron expr ≡ some c
    → (c.expr ≡ trim_space expr) × IsSchedule c
unfolding parse_cron
parse_cron-IsSchedule expr c h =
    five_fields-IsSchedule (trim_space expr) (fields (trim_space expr)) c h
