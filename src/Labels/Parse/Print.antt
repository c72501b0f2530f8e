-- ===== src/Labels/Parse/Print.antt =====
-- internal/labels/selector.go: every well-formed selector is the parse of a text that spells it.
pub mod Roundtrip
use system_wrangler_backend.Prelude.{
  ℕ, zero, suc, ◌+◌, ◌<◌, ◌≡◌, inl, inr, refl, ◌∙◌, true, some, List, [], ◌∷◌, ◌++◌, arith, length,
  length-append, All, bytes_eq, append_assoc, append-nil,
}
use system_wrangler_backend.Prelude.Eq.{bytes_beq}
use system_wrangler_backend.Prelude.Text.{Bytes, codes}
use system_wrangler_backend.Labels.{ok, validate_key, validate_value}
use system_wrangler_backend.Labels.Tokens.{
  ident, eq, not_eq, bang, comma, lparen, rparen, is_ident_byte,
}
use system_wrangler_backend.Labels.Tokens.Spell.{spell, IsToken, tokenize-spell}
use system_wrangler_backend.Labels.Valid.{
  validate_key_iff, validate_value_iff, IsKey-AllIdent, IsSegment-AllIdent, IsKey-length,
}
use system_wrangler_backend.Labels.Parse.{
  Op, op_has, op_not_has, op_eq, op_not_eq, op_in, op_not_in, Requirement, Selector, Tokens,
  expect_comma, expect_lparen, parse_value, parse_list_value, after_value, value_round, value_loop,
  in_parens, parse_value_list, after_key, parse_requirement, next_requirement, selector_loop,
  parse_tokens, parse_selector,
}

-- What the validation accepts.
abbrev pub ValidKey : Bytes → Type 0
ValidKey k = validate_key k true ≡ ok tt

abbrev pub ValidValue : Bytes → Type 0
ValidValue v = validate_value (some v) ≡ ok tt

-- The values of a list: one at least, and the last is not the empty text.
abbrev pub IsValueList : List Bytes → Type 0
IsValueList [] = ⊥
IsValueList (v ∷ []) = ValidValue v × (0 < length v)
IsValueList (v ∷ w ∷ vs) = ValidValue v × IsValueList (w ∷ vs)

-- As many values as the operator takes.
abbrev pub HasValues : Op → List Bytes → Type 0
HasValues op_has vs = vs ≡ []
HasValues op_not_has vs = vs ≡ []
HasValues op_eq vs = (v : Bytes) × (vs ≡ v ∷ []) × ValidValue v
HasValues op_not_eq vs = (v : Bytes) × (vs ≡ v ∷ []) × ValidValue v
HasValues op_in vs = IsValueList vs
HasValues op_not_in vs = IsValueList vs

pub record IsRequirement (r : Requirement) : Type 0 where
  pub valid_key : ValidKey r.key
  pub has_values : HasValues r.op r.values

-- The tokens that spell a selector.
unfoldable pub value_tokens : Bytes → Tokens
value_tokens [] = []
value_tokens (c ∷ v) = ident (c ∷ v) ∷ []

list_tokens : List Bytes → Tokens
list_tokens [] = rparen ∷ []
list_tokens (v ∷ []) = value_tokens v ++ rparen ∷ []
list_tokens (v ∷ w ∷ vs) = value_tokens v ++ comma ∷ list_tokens (w ∷ vs)

first_tokens : List Bytes → Tokens
first_tokens [] = []
first_tokens (v ∷ vs) = value_tokens v

op_tokens : Op → Bytes → List Bytes → Tokens
op_tokens op_has k vs = ident k ∷ []
op_tokens op_not_has k vs = bang ∷ ident k ∷ []
op_tokens op_eq k vs = ident k ∷ eq ∷ first_tokens vs
op_tokens op_not_eq k vs = ident k ∷ not_eq ∷ first_tokens vs
op_tokens op_in k vs = ident k ∷ ident (codes "in") ∷ lparen ∷ list_tokens vs
op_tokens op_not_in k vs = ident k ∷ ident (codes "notin") ∷ lparen ∷ list_tokens vs

pub selector_tokens : Selector → Tokens
selector_tokens [] = []
selector_tokens (r ∷ []) = op_tokens r.op r.key r.values
selector_tokens (r ∷ q ∷ sel) = op_tokens r.op r.key r.values ++ comma ∷ selector_tokens (q ∷ sel)

-- What may follow a requirement: nothing, or a comma.
abbrev IsEnd : Tokens → Type 0
IsEnd [] = Unit
IsEnd (comma ∷ ts) = Unit
IsEnd _ = ⊥

parse_value-tokens :
    (v : Bytes) (rest : Tokens)
    → ValidValue v
    → IsEnd rest
    → parse_value (value_tokens v ++ rest) ≡ ok (v, rest)
unfolding parse_value value_tokens
parse_value-tokens [] [] h e = rw h
parse_value-tokens [] (comma ∷ ts) h e = rw h
parse_value-tokens [] (_ ∷ ts) h e = absurd e
parse_value-tokens (c ∷ v) rest h e = rw h

value_loop-tokens :
    (f : ℕ) (out vs : List Bytes) (rest : Tokens)
    → length (list_tokens vs) < f
    → IsValueList vs
    → value_loop f out (list_tokens vs ++ rest) ≡ ok (out ++ vs, rest)
unfolding value_loop value_round after_value parse_list_value expect_comma list_tokens value_tokens
value_loop-tokens zero out vs rest h i = absurd (omega arith)
value_loop-tokens (suc f) out [] rest h i = absurd i
value_loop-tokens (suc f) out ([] ∷ []) rest h i = absurd (omega arith)
value_loop-tokens (suc f) out ((c ∷ v) ∷ []) rest h i = rw i.0
value_loop-tokens (suc f) out ([] ∷ w ∷ vs) rest h i = rw i.0 (
    value_loop-tokens f (out ++ [] ∷ []) (w ∷ vs) rest (omega arith) i.1
    ∙ rw (append_assoc out) refl)
value_loop-tokens (suc f) out ((c ∷ v) ∷ w ∷ vs) rest h i = rw i.0 (
    value_loop-tokens f (out ++ (c ∷ v) ∷ []) (w ∷ vs) rest (omega arith) i.1
    ∙ rw (append_assoc out) refl)

length-list_tokens : (vs : List Bytes) → 0 < length (list_tokens vs)
unfolding list_tokens value_tokens
length-list_tokens [] = omega arith
length-list_tokens ([] ∷ []) = omega arith
length-list_tokens ((c ∷ v) ∷ []) = omega arith
length-list_tokens ([] ∷ w ∷ vs) = omega arith
length-list_tokens ((c ∷ v) ∷ w ∷ vs) = omega arith

pub in_parens-tokens :
    (ts : Tokens) → 0 < length ts → in_parens ts ≡ value_loop (length ts + 1) [] ts
unfolding in_parens
in_parens-tokens [] h = absurd (omega arith)
in_parens-tokens (t ∷ ts) h = refl

parse_value_list-tokens :
    (vs : List Bytes) (rest : Tokens)
    → IsValueList vs
    → parse_value_list (lparen ∷ list_tokens vs ++ rest) ≡ ok (vs, rest)
unfolding parse_value_list expect_lparen
parse_value_list-tokens vs rest i =
    let n = length-append (list_tokens vs) rest in
    in_parens-tokens (list_tokens vs ++ rest) (omega (arith, n, length-list_tokens vs))
    ∙ value_loop-tokens _ [] vs rest (omega (arith, n)) i

after_key-end :
    (k : Bytes) (rest : Tokens)
    → IsEnd rest
    → after_key k rest ≡ ok (record { op = op_has; key = k; values = [] }, rest)
unfolding after_key
after_key-end k [] e = refl
after_key-end k (comma ∷ ts) e = refl
after_key-end k (_ ∷ ts) e = absurd e

parse_requirement-tokens :
    (o : Op) (k : Bytes) (vs : List Bytes) (rest : Tokens)
    → ValidKey k
    → HasValues o vs
    → IsEnd rest
    → parse_requirement (op_tokens o k vs ++ rest)
      ≡ ok (record { op = o; key = k; values = vs }, rest)
unfolding parse_requirement op_tokens after_key first_tokens bytes_beq
parse_requirement-tokens op_has k vs rest h i e = rw (h, i) (after_key-end k rest e)
parse_requirement-tokens op_not_has k vs rest h i e = rw (h, i)
parse_requirement-tokens op_eq k vs rest h (v, i, j) e = rw (h, i, parse_value-tokens v rest j e)
parse_requirement-tokens op_not_eq k vs rest h (v, i, j) e =
    rw (h, i, parse_value-tokens v rest j e)
parse_requirement-tokens op_in k vs rest h i e = rw (h, parse_value_list-tokens vs rest i)
parse_requirement-tokens op_not_in k vs rest h i e = rw (h, parse_value_list-tokens vs rest i)

op_tokens-nonempty : (o : Op) (k : Bytes) (vs : List Bytes) → 0 < length (op_tokens o k vs)
unfolding op_tokens
op_tokens-nonempty op_has k vs = omega arith
op_tokens-nonempty _ k vs = omega arith

selector_loop-tokens :
    (f : ℕ) (r : Requirement) (sel : Selector)
    → length (selector_tokens (r ∷ sel)) < f
    → All IsRequirement (r ∷ sel)
    → selector_loop f (selector_tokens (r ∷ sel)) ≡ ok (r ∷ sel)
unfolding selector_loop selector_tokens next_requirement expect_comma
selector_loop-tokens zero r sel h a = absurd (omega arith)
selector_loop-tokens (suc f) r [] h a =
    rw (← append-nil (op_tokens r.op r.key r.values))
      (rw (parse_requirement-tokens r.op r.key r.values [] a.0.valid_key a.0.has_values tt))
selector_loop-tokens (suc f) r (q ∷ sel) h a =
    let n = length-append (op_tokens r.op r.key r.values) (comma ∷ selector_tokens (q ∷ sel)) in
    rw
      (parse_requirement-tokens r.op r.key r.values (comma ∷ selector_tokens (q ∷ sel))
        a.0.valid_key a.0.has_values tt)
      (rw (selector_loop-tokens f q sel (omega (arith, n)) a.1))

pub parse_tokens-cons :
    (ts : Tokens) → 0 < length ts → parse_tokens ts ≡ selector_loop (length ts + 1) ts
unfolding parse_tokens
parse_tokens-cons [] h = absurd (omega arith)
parse_tokens-cons (t ∷ ts) h = refl

selector_tokens-nonempty :
    (r : Requirement) (sel : Selector) → 0 < length (selector_tokens (r ∷ sel))
unfolding selector_tokens
selector_tokens-nonempty r [] = op_tokens-nonempty r.op r.key r.values
selector_tokens-nonempty r (q ∷ sel) = omega (
  arith,
  length-append (op_tokens r.op r.key r.values) (comma ∷ selector_tokens (q ∷ sel)),
  op_tokens-nonempty r.op r.key r.values,
)

parse_tokens-tokens :
    (sel : Selector) → All IsRequirement sel → parse_tokens (selector_tokens sel) ≡ ok sel
parse_tokens-tokens [] a = unfold parse_tokens selector_tokens in refl
parse_tokens-tokens (r ∷ sel) a =
    parse_tokens-cons _ (selector_tokens-nonempty r sel)
    ∙ selector_loop-tokens _ r sel (omega arith) a
