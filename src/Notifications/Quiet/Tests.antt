-- ===== src/Notifications/Quiet/Tests.antt =====
-- internal/notifications/policy.go: runs, and the theorem at a concrete input.
use system_wrangler_backend.Prelude.{
  ◌≡◌, ◌↔◌, refl, true, Option, none, some, [], ◌∷◌, In, Bytes, bytes_eq, ◌==◌, if◌then◌else◌,
  codes, arith,
}
use system_wrangler_backend.Prelude.Strings.{cut_at, atoi, trim_space}
use system_wrangler_backend.Notifications.Quiet.{
  QuietWindow, Policy, Clock, parse_hhmm, in_range, day_covered, in_quiet_hours,
}
use system_wrangler_backend.Prelude.Eq.{bytes_beq}
use system_wrangler_backend.Prelude.Maps.{lookup}
use system_wrangler_backend.Notifications.Modes.{default_severities, is_valid}
use system_wrangler_backend.Notifications.Quiet.Valid.{
  validate, valid_severities, valid_windows, IsPolicy, validate-IsPolicy,
}
use system_wrangler_backend.Notifications.Quiet.Covered.{Covers, in_quiet_hours-Covers}

-- Friday night.
abbrev night : QuietWindow
night = record { days = 5 ∷ []; start = codes "22:00"; end = codes "08:00" }

abbrev policy : Policy
policy = record { timezone = codes "UTC"; windows = night ∷ []; severities = [] }

-- Saturday, 1:00.
abbrev saturday : Clock
saturday t = (6, 60)

abbrev no_zones : Bytes → Option Clock
no_zones name = none

end_of_day : parse_hhmm (codes "24:00") ≡ some 1440
unfolding parse_hhmm cut_at atoi in_range
end_of_day = refl

quiet_on_saturday : in_quiet_hours no_zones saturday policy 0 ≡ true
unfolding in_quiet_hours parse_hhmm cut_at atoi in_range day_covered
quiet_on_saturday = refl

in_quiet_hours-Covers_example :
    (in_quiet_hours no_zones saturday policy 0 ≡ true)
    ↔ ((w : QuietWindow) × In w policy.windows × Covers 6 60 w)
in_quiet_hours-Covers_example =
    in_quiet_hours-Covers no_zones saturday policy 0 (λ t. (omega arith, omega arith))

abbrev one_zone : Bytes → Option Clock
one_zone name = if name == codes "UTC" then some saturday else none

abbrev unnamed : Policy
unnamed = record { timezone = codes " "; windows = night ∷ []; severities = default_severities }

validated_unnamed : validate one_zone unnamed ≡ some (record unnamed { timezone = codes "UTC" })
unfolding validate is_valid valid_severities valid_windows parse_hhmm cut_at atoi in_range
    trim_space bytes_beq lookup
validated_unnamed = refl

validate-IsPolicy_example : IsPolicy one_zone (record unnamed { timezone = codes "UTC" })
validate-IsPolicy_example =
    validate-IsPolicy one_zone unnamed (record unnamed { timezone = codes "UTC" }) validated_unnamed
