-- ===== src/Labels/Match/Tests.antt =====
-- internal/labels/selector.go: runs, and the theorems at concrete inputs.
use system_wrangler_backend.Prelude.{◌≡◌, refl, none, List, [], ◌∷◌, true}
use system_wrangler_backend.Prelude.Eq.{bytes_beq}
use system_wrangler_backend.Prelude.Text.{codes}
use system_wrangler_backend.Labels.{
  Label, ok, validate_key, validate_value, validate_segment, validate_parts, check_bytes,
  is_segment_byte, cut_slash,
}
use system_wrangler_backend.Labels.Tokens.{tokenize}
use system_wrangler_backend.Labels.Parse.{Selector, op_not_eq, parse_selector}
use system_wrangler_backend.Labels.Match.{matches, index_labels}
use system_wrangler_backend.Labels.Match.Laws.{meets_all, matches-parsed}

abbrev pub not_prod : Selector
not_prod = record { op = op_not_eq; key = codes "env"; values = codes "prod" ∷ [] } ∷ []

abbrev bare_tag : List Label
bare_tag = record { key = codes "env"; value = none } ∷ []

pub not_prod_parsed : parse_selector (codes "env!=prod") ≡ ok not_prod
unfolding parse_selector tokenize bytes_beq validate_key validate_value validate_parts
    validate_segment check_bytes is_segment_byte cut_slash
not_prod_parsed = refl

bare_tag_differs : matches not_prod bare_tag ≡ ok true
unfolding matches bytes_beq
bare_tag_differs = refl

matches-parsed_example :
    matches not_prod bare_tag ≡ ok (meets_all not_prod (index_labels bare_tag []))
matches-parsed_example = matches-parsed (codes "env!=prod") not_prod bare_tag not_prod_parsed
