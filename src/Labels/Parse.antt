-- ===== src/Labels/Parse.antt =====
-- internal/labels/selector.go: the parser. Its position is the list of the tokens that are left.
pub mod Print
pub mod Sound
pub mod Panic
mod Tests
use system_wrangler_backend.Prelude.{
  ℕ, zero, suc, ◌+◌, Bool, true, false, some, List, [], ◌∷◌, ◌++◌, if◌then◌else◌, length, Bytes,
  codes, ◌==◌, bytes_eq, bytes_beq,
}
use system_wrangler_backend.Labels.{
  Result, ok, fail, panic, out_of_fuel, invalid, ◌>>=◌, ◌>>◌, validate_key, validate_value,
}
use system_wrangler_backend.Labels.Tokens.{
  Token, ident, eq, not_eq, bang, comma, lparen, rparen, tokenize,
}

pub data Op : Type 0 where
  op_has op_not_has op_eq op_not_eq op_in op_not_in : Op

pub record Requirement : Type 0 where
  pub op : Op
  pub key : Bytes
  pub values : List Bytes

abbrev pub Selector : Type 0
Selector = List Requirement

abbrev pub Tokens : Type 0
Tokens = List Token

-- `p.expect(tokComma)` and `p.expect(tokLParen)`: `eof` fails like a token of another kind.
expect_comma : Tokens → Result Tokens
expect_comma (comma ∷ ts) = ok ts
expect_comma _ = fail invalid

expect_lparen : Tokens → Result Tokens
expect_lparen (lparen ∷ ts) = ok ts
expect_lparen _ = fail invalid

pub parse_value : Tokens → Result (Bytes × Tokens)
parse_value [] = do validate_value (some []); ok ([], [])
parse_value (comma ∷ ts) = do validate_value (some []); ok ([], comma ∷ ts)
parse_value (ident v ∷ ts) = do validate_value (some v); ok (v, ts)
parse_value _ = fail invalid

-- `p.peek()` past the end panics.
parse_list_value : Tokens → Result (Bytes × Tokens)
parse_list_value [] = panic
parse_list_value (comma ∷ ts) = do validate_value (some []); ok ([], comma ∷ ts)
parse_list_value (rparen ∷ ts) = do validate_value (some []); ok ([], rparen ∷ ts)
parse_list_value (ident v ∷ ts) = do validate_value (some v); ok (v, ts)
parse_list_value _ = fail invalid

-- The loop of `parseValueList`; `more` is its next round, and `out` what it has so far.
abbrev pub Round : Type 0
Round = List Bytes → Tokens → Result (List Bytes × Tokens)

after_value : Round → Round
after_value more out [] = fail invalid
after_value more out (rparen ∷ ts) = ok (out, ts)
after_value more out (t ∷ ts) = do ts' ← expect_comma (t ∷ ts); more out ts'

value_round : Round → Round
value_round more out [] = panic
value_round more out (rparen ∷ ts) = fail invalid
value_round more out (t ∷ ts) = do
  (v, ts') ← parse_list_value (t ∷ ts)
  after_value more (out ++ v ∷ []) ts'

pub value_loop : ℕ → Round
value_loop zero out ts = out_of_fuel
value_loop (suc f) out ts = value_round (value_loop f) out ts

pub in_parens : Tokens → Result (List Bytes × Tokens)
in_parens [] = fail invalid
in_parens (t ∷ ts) = value_loop (length (t ∷ ts) + 1) [] (t ∷ ts)

pub parse_value_list : Tokens → Result (List Bytes × Tokens)
unfolding in_parens
parse_value_list ts = do ts' ← expect_lparen ts; in_parens ts'

abbrev requirement : Op → Bytes → List Bytes → Tokens → Result (Requirement × Tokens)
requirement o k vs ts = ok (record { op = o; key = k; values = vs }, ts)

-- What follows a key.
after_key : Bytes → Tokens → Result (Requirement × Tokens)
after_key key [] = requirement op_has key [] []
after_key key (comma ∷ ts) = requirement op_has key [] (comma ∷ ts)
after_key key (eq ∷ ts) = do (v, ts') ← parse_value ts; requirement op_eq key (v ∷ []) ts'
after_key key (not_eq ∷ ts) = do (v, ts') ← parse_value ts; requirement op_not_eq key (v ∷ []) ts'
after_key key (ident word ∷ ts) =
    if word == codes "in"
    then (do (vs, ts') ← parse_value_list ts; requirement op_in key vs ts')
    else if word == codes "notin"
    then (do (vs, ts') ← parse_value_list ts; requirement op_not_in key vs ts')
    else fail invalid
after_key key _ = fail invalid

pub parse_requirement : Tokens → Result (Requirement × Tokens)
unfolding after_key
parse_requirement (bang ∷ ident key ∷ ts) = do
  validate_key key true
  requirement op_not_has key [] ts
parse_requirement (ident key ∷ ts) = do validate_key key true; after_key key ts
parse_requirement _ = fail invalid

-- The end of a round of `ParseSelector`: `p.eof()`, or a comma and the next round.
next_requirement : Requirement → (Tokens → Result Selector) → Tokens → Result Selector
next_requirement r more [] = ok (r ∷ [])
next_requirement r more (t ∷ ts) = do ts' ← expect_comma (t ∷ ts); rest ← more ts'; ok (r ∷ rest)

pub selector_loop : ℕ → Tokens → Result Selector
selector_loop zero ts = out_of_fuel
selector_loop (suc f) ts = do
  (r, ts') ← parse_requirement ts
  next_requirement r (selector_loop f) ts'

pub parse_tokens : Tokens → Result Selector
parse_tokens [] = ok []
parse_tokens (t ∷ ts) = selector_loop (length (t ∷ ts) + 1) (t ∷ ts)

-- Each round takes a token at least.
unfoldable pub parse_selector : Bytes → Result Selector
unfolding parse_tokens selector_loop parse_requirement after_key parse_value parse_value_list
    value_loop parse_list_value expect_comma expect_lparen next_requirement value_round after_value
parse_selector s = do ts ← tokenize s; parse_tokens ts
