-- ===== src/Labels/Parse/Panic.antt =====
-- internal/labels/selector.go: texts on which the parser reads past its last token and panics.
use system_wrangler_backend.Prelude.{
  ℕ, zero, suc, ◌+◌, ◌<◌, ◌≡◌, ◌∙◌, refl, List, [], ◌∷◌, ◌++◌, arith, length, length-append, All,
  bytes_eq,
}
use system_wrangler_backend.Prelude.Eq.{bytes_beq}
use system_wrangler_backend.Prelude.Text.{Bytes, codes}
use system_wrangler_backend.Labels.{panic}
use system_wrangler_backend.Labels.Tokens.{ident, comma, lparen}
use system_wrangler_backend.Labels.Tokens.Spell.{spell, IsToken, tokenize-spell}
use system_wrangler_backend.Labels.Parse.{
  Tokens, expect_comma, expect_lparen, parse_list_value, after_value, value_round, value_loop,
  in_parens, parse_value_list, after_key, parse_requirement, selector_loop, parse_selector,
}
use system_wrangler_backend.Labels.Parse.Print.{
  ValidKey, ValidValue, value_tokens, parse_tokens-cons, in_parens-tokens,
}
use system_wrangler_backend.Labels.Parse.Print.Roundtrip.{
  IsToken-key, value_tokens-IsToken, word-IsToken, All-append,
}

-- Values with a comma behind each, and nothing after the last comma.
pub open_list : List Bytes → Tokens
open_list [] = []
open_list (v ∷ vs) = value_tokens v ++ comma ∷ open_list vs

value_loop-open_list :
    (f : ℕ) (out vs : List Bytes)
    → length (open_list vs) < f
    → All ValidValue vs
    → value_loop f out (open_list vs) ≡ panic
unfolding value_loop value_round parse_list_value after_value expect_comma open_list value_tokens
value_loop-open_list zero out vs h a = absurd (omega arith)
value_loop-open_list (suc f) out [] h a = refl
value_loop-open_list (suc f) out ([] ∷ vs) h a =
    rw a.0 (value_loop-open_list f (out ++ [] ∷ []) vs (omega arith) a.1)
value_loop-open_list (suc f) out ((c ∷ v) ∷ vs) h a =
    rw a.0 (value_loop-open_list f (out ++ (c ∷ v) ∷ []) vs (omega arith) a.1)

open_list-nonempty : (v : Bytes) (vs : List Bytes) → 0 < length (open_list (v ∷ vs))
unfolding open_list
open_list-nonempty v vs = omega (arith, length-append (value_tokens v) (comma ∷ open_list vs))

in_parens-open_list :
    (v : Bytes) (vs : List Bytes) → All ValidValue (v ∷ vs) → in_parens (open_list (v ∷ vs)) ≡ panic
in_parens-open_list v vs a =
    in_parens-tokens (open_list (v ∷ vs)) (open_list-nonempty v vs)
    ∙ value_loop-open_list _ [] (v ∷ vs) (omega arith) a

open_list-IsToken : (vs : List Bytes) → All ValidValue vs → All IsToken (open_list vs)
unfolding open_list
open_list-IsToken [] a = tt
open_list-IsToken (v ∷ vs) a =
    All-append (value_tokens v) _ (value_tokens-IsToken v a.0) (tt, open_list-IsToken vs a.1)

abbrev broken_tokens : Bytes → List Bytes → Tokens
broken_tokens k vs = ident k ∷ ident (codes "in") ∷ lparen ∷ open_list vs

-- `key in ( v1 , v2 ,` and nothing more.
pub broken_off : Bytes → List Bytes → Bytes
broken_off k vs = spell (broken_tokens k vs)

selector_loop-broken_off :
    (f : ℕ) (k v : Bytes) (vs : List Bytes)
    → 0 < f
    → ValidKey k
    → All ValidValue (v ∷ vs)
    → selector_loop f (broken_tokens k (v ∷ vs)) ≡ panic
unfolding selector_loop parse_requirement after_key bytes_beq parse_value_list expect_lparen
selector_loop-broken_off zero k v vs n h a = absurd (omega arith)
selector_loop-broken_off (suc f) k v vs n h a = rw (h, in_parens-open_list v vs a)

-- On a value list of one value or more that breaks off behind a comma, `ParseSelector` does not
-- return an error: it panics.
pub parse_selector-broken_off :
    (k v : Bytes) (vs : List Bytes)
    → ValidKey k
    → All ValidValue (v ∷ vs)
    → parse_selector (broken_off k (v ∷ vs)) ≡ panic
unfolding parse_selector broken_off
parse_selector-broken_off k v vs h a =
    let ts = broken_tokens k (v ∷ vs) in
    rw (tokenize-spell ts (IsToken-key k h, (word-IsToken.0, (tt, open_list-IsToken (v ∷ vs) a)))) (
      parse_tokens-cons ts (omega arith)
      ∙ selector_loop-broken_off (length ts + 1) k v vs (omega arith) h a)
