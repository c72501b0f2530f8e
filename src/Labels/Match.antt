-- ===== src/Labels/Match.antt =====
-- internal/labels/selector.go: `Matches`.
pub mod Laws
pub mod Tests
use system_wrangler_backend.Prelude.{
  ℕ, Bool, true, false, not, Option, none, some, List, [], ◌∷◌, if◌then◌else◌, Bytes, ◌==◌,
  bytes_eq, any,
}
use system_wrangler_backend.Prelude.Maps.{Map, lookup, insert}
use system_wrangler_backend.Labels.{Label, Result, ok, panic, ◌>>=◌}
use system_wrangler_backend.Labels.Parse.{
  Op, op_has, op_not_has, op_eq, op_not_eq, op_in, op_not_in, Requirement, Selector,
}

-- `r.Values[0]`
first_value : List Bytes → Result Bytes
first_value [] = panic
first_value (v ∷ vs) = ok v

-- The `switch` of `matches`, on `byKey[r.Key]`: absent, a bare tag, or a value.
unfoldable pub op_matches : Op → List Bytes → Option (Option Bytes) → Result Bool
unfolding first_value
op_matches op_has vs none = ok false
op_matches op_has vs (some v) = ok true
op_matches op_not_has vs none = ok true
op_matches op_not_has vs (some v) = ok false
op_matches op_eq vs (some (some v)) = do w ← first_value vs; ok (v == w)
op_matches op_eq vs _ = ok false
op_matches op_not_eq vs (some (some v)) = do w ← first_value vs; ok (not (v == w))
op_matches op_not_eq vs _ = ok true
op_matches op_in vs (some (some v)) = ok (any (λ w. v == w) vs)
op_matches op_in vs _ = ok false
op_matches op_not_in vs (some (some v)) = ok (not (any (λ w. v == w) vs))
op_matches op_not_in vs _ = ok true

abbrev pub Index : Type 0
Index = Map Bytes (Option Bytes)

unfoldable pub requirement_matches : Requirement → Index → Result Bool
requirement_matches r by_key = op_matches r.op r.values (lookup r.key by_key)

-- The loop that builds `byKey`: of two labels with one key the later counts.
unfoldable pub index_labels : List Label → Index → Index
index_labels [] by_key = by_key
index_labels (l ∷ ls) by_key = index_labels ls (insert l.key l.value by_key)

unfoldable pub all_match : Selector → Index → Result Bool
all_match [] by_key = ok true
all_match (r ∷ sel) by_key = do
  let rest = all_match sel by_key
  b ← requirement_matches r by_key
  if b then rest else ok false

unfoldable pub matches : Selector → List Label → Result Bool
unfolding all_match requirement_matches op_matches index_labels insert lookup
matches sel labels = all_match sel (index_labels labels [])
