-- ===== src/Labels/Parse/Tests.antt =====
-- internal/labels/selector.go: runs, and the theorems at concrete inputs.
use system_wrangler_backend.Prelude.{◌≡◌, refl, some, [], ◌∷◌, All, ◌↔◌, ◌<◌, ◌⊎◌, none, arith}
use system_wrangler_backend.Prelude.Eq.{bytes_beq}
use system_wrangler_backend.Prelude.Text.{codes}
use system_wrangler_backend.Labels.{
  ok, fail, panic, invalid, validate_key, validate_value, validate_segment, validate_parts,
  check_bytes, is_segment_byte, cut_slash,
}
use system_wrangler_backend.Labels.Tokens.{tokenize}
use system_wrangler_backend.Labels.Valid.{IsSegment, validate_value_iff}
use system_wrangler_backend.Labels.Parse.{Selector, op_in, op_not_has, op_eq, parse_selector}
use system_wrangler_backend.Labels.Parse.Print.{ValidKey, ValidValue, IsRequirement}
use system_wrangler_backend.Labels.Parse.Print.Roundtrip.{
  print_selector, parse_selector-print_selector,
}
use system_wrangler_backend.Labels.Parse.Sound.{Post}
use system_wrangler_backend.Labels.Parse.Sound.Requirements.{parse_selector-Post}
use system_wrangler_backend.Labels.Parse.Panic.{broken_off, parse_selector-broken_off}

env_valid : ValidKey (codes "env")
unfolding validate_key validate_parts validate_segment check_bytes is_segment_byte cut_slash
env_valid = refl

prod_valid : ValidValue (codes "prod")
unfolding validate_value validate_segment check_bytes is_segment_byte
prod_valid = refl

abbrev sample : Selector
sample =
    record { op = op_in; key = codes "env"; values = [] ∷ codes "prod" ∷ [] }
    ∷ record { op = op_not_has; key = codes "env"; values = [] }
    ∷ record { op = op_eq; key = codes "env"; values = codes "prod" ∷ [] }
    ∷ []

empty_valid : ValidValue []
unfolding validate_value
empty_valid = refl

prod_nonempty : 0 < 4
prod_nonempty = omega arith

sample-IsRequirement : All IsRequirement sample
sample-IsRequirement = (
  record { valid_key = env_valid; has_values = (empty_valid, (prod_valid, prod_nonempty)) },
  (
    record { valid_key = env_valid; has_values = refl },
    (record { valid_key = env_valid; has_values = (codes "prod", refl, prod_valid) }, tt),
  ),
)

parse_sample : parse_selector (codes "env in (,prod),!env,env=prod") ≡ ok sample
unfolding parse_selector tokenize bytes_beq validate_key validate_value validate_parts
    validate_segment check_bytes is_segment_byte cut_slash
parse_sample = refl

parse_empty_list : parse_selector (codes "env in ()") ≡ fail invalid
unfolding parse_selector tokenize bytes_beq validate_key validate_parts validate_segment check_bytes
    is_segment_byte cut_slash
parse_empty_list = refl

-- The last value of a list cannot be the empty text.
parse_empty_last : parse_selector (codes "env in (prod,)") ≡ fail invalid
unfolding parse_selector tokenize bytes_beq validate_key validate_value validate_parts
    validate_segment check_bytes is_segment_byte cut_slash
parse_empty_last = refl

parse_panics : parse_selector (codes "env in (prod,") ≡ panic
unfolding parse_selector tokenize bytes_beq validate_key validate_value validate_parts
    validate_segment check_bytes is_segment_byte cut_slash
parse_panics = refl

parse_selector-print_selector_example : parse_selector (print_selector sample) ≡ ok sample
parse_selector-print_selector_example = parse_selector-print_selector sample sample-IsRequirement

parse_selector-Post_example : Post (All IsRequirement) (parse_selector (codes "env in (,prod)"))
parse_selector-Post_example = parse_selector-Post (codes "env in (,prod)")

parse_selector-broken_off_example :
    parse_selector (broken_off (codes "env") (codes "prod" ∷ [])) ≡ panic
parse_selector-broken_off_example =
    parse_selector-broken_off (codes "env") (codes "prod") [] env_valid (prod_valid, tt)

validate_value_iff_example :
    (validate_value none ≡ ok tt)
    × ((validate_value (some (codes "prod")) ≡ ok tt)
        ↔ ((codes "prod" ≡ []) ⊎ IsSegment (codes "prod")))
validate_value_iff_example = validate_value_iff (codes "prod")
