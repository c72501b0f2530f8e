-- ===== src/Labels/Match/Laws.antt =====
-- internal/labels/selector.go: what the match of a parsed selector amounts to.
use system_wrangler_backend.Prelude.{
  ◌≡◌, refl, Bool, true, false, not, ◌&&◌, Option, none, some, List, [], ◌∷◌, arith, All, any, ◌==◌,
  bytes_eq,
}
use system_wrangler_backend.Prelude.Text.{Bytes}
use system_wrangler_backend.Prelude.Maps.{lookup}
use system_wrangler_backend.Labels.{Label, ok}
use system_wrangler_backend.Labels.Parse.{
  Op, op_has, op_not_has, op_eq, op_not_eq, op_in, op_not_in, Selector, parse_selector,
}
use system_wrangler_backend.Labels.Parse.Print.{HasValues, IsRequirement}
use system_wrangler_backend.Labels.Parse.Sound.Requirements.{parse_selector-Post}
use system_wrangler_backend.Labels.Match.{
  op_matches, Index, requirement_matches, index_labels, all_match, matches,
}

-- What a requirement asks of the value at its key, as documented beside the operators: a bare tag
-- has a key and no value, so it equals nothing and differs from everything.
is_there : Option (Option Bytes) → Bool
is_there none = false
is_there (some _) = true

is_one_of : List Bytes → Option (Option Bytes) → Bool
is_one_of vs none = false
is_one_of vs (some none) = false
is_one_of vs (some (some v)) = any (λ w. v == w) vs

unfoldable pub meets : Op → List Bytes → Option (Option Bytes) → Bool
unfolding is_there is_one_of
meets op_has vs v = is_there v
meets op_not_has vs v = not (is_there v)
meets op_eq vs v = is_one_of vs v
meets op_not_eq vs v = not (is_one_of vs v)
meets op_in vs v = is_one_of vs v
meets op_not_in vs v = not (is_one_of vs v)

op_matches-meets :
    (o : Op) (vs : List Bytes) (v : Option (Option Bytes))
    → HasValues o vs
    → op_matches o vs v ≡ ok (meets o vs v)
unfolding op_matches meets
op_matches-meets op_has vs none h = refl
op_matches-meets op_has vs (some v) h = refl
op_matches-meets op_not_has vs none h = refl
op_matches-meets op_not_has vs (some v) h = refl
op_matches-meets op_eq vs none h = refl
op_matches-meets op_eq vs (some none) h = refl
op_matches-meets op_eq vs (some (some v)) (w, e, valid) = rw e (ground arith)
op_matches-meets op_not_eq vs none h = refl
op_matches-meets op_not_eq vs (some none) h = refl
op_matches-meets op_not_eq vs (some (some v)) (w, e, valid) = rw e (ground arith)
op_matches-meets op_in vs none h = refl
op_matches-meets op_in vs (some none) h = refl
op_matches-meets op_in vs (some (some v)) h = refl
op_matches-meets op_not_in vs none h = refl
op_matches-meets op_not_in vs (some none) h = refl
op_matches-meets op_not_in vs (some (some v)) h = refl

-- All requirements are met by the labels, of which the last with a key counts.
unfoldable pub meets_all : Selector → Index → Bool
meets_all [] by_key = true
meets_all (r ∷ sel) by_key = meets r.op r.values (lookup r.key by_key) && meets_all sel by_key

all_match-meets_all :
    (sel : Selector) (by_key : Index)
    → All IsRequirement sel
    → all_match sel by_key ≡ ok (meets_all sel by_key)
unfolding all_match meets_all requirement_matches
all_match-meets_all [] by_key a = refl
all_match-meets_all (r ∷ sel) by_key a =
    rw (op_matches-meets r.op r.values (lookup r.key by_key) a.0.has_values)
      (ground (arith, all_match-meets_all sel by_key a.1))

parsed-IsRequirement :
    (s : Bytes) (sel : Selector) → parse_selector s ≡ ok sel → All IsRequirement sel
parsed-IsRequirement s sel h = rw h at (parse_selector-Post s)

-- A parsed selector matches any labels with no panic, exactly when each of its requirements is met:
-- absence and inequality hold of an absent key, and inequality of a bare tag.
pub matches-parsed :
    (s : Bytes) (sel : Selector) (labels : List Label)
    → parse_selector s ≡ ok sel
    → matches sel labels ≡ ok (meets_all sel (index_labels labels []))
unfolding matches
matches-parsed s sel labels h =
    all_match-meets_all sel (index_labels labels []) (parsed-IsRequirement s sel h)
