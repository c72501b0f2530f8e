-- ===== src/Labels/Parse/Print/Roundtrip.antt =====
-- internal/labels/selector.go: selectors spelled out as text.
use system_wrangler_backend.Prelude.{◌≡◌, inl, inr, refl, List, [], ◌∷◌, ◌++◌, arith, All, bytes_eq}
use system_wrangler_backend.Prelude.Text.{Bytes, codes}
use system_wrangler_backend.Labels.{ok}
use system_wrangler_backend.Labels.Tokens.{ident, rparen, is_ident_byte}
use system_wrangler_backend.Labels.Tokens.Spell.{spell, IsToken, tokenize-spell}
use system_wrangler_backend.Labels.Valid.{
  validate_key_iff, validate_value_iff, IsKey-AllIdent, IsSegment-AllIdent, IsKey-length,
}
use system_wrangler_backend.Labels.Parse.{
  Op, op_has, op_not_has, op_eq, op_not_eq, op_in, op_not_in, Selector, Tokens, parse_selector,
}
use system_wrangler_backend.Labels.Parse.Print.{
  HasValues, IsRequirement, IsValueList, ValidKey, ValidValue, first_tokens, list_tokens, op_tokens,
  parse_tokens-tokens, selector_tokens, value_tokens,
}

-- The spelling of a selector: its tokens with blanks between them.
pub print_selector : Selector → Bytes
print_selector sel = spell (selector_tokens sel)

pub IsToken-key : (k : Bytes) → ValidKey k → IsToken (ident k)
IsToken-key k h = let i = (validate_key_iff k).0.0 h in ((IsKey-length i).0, IsKey-AllIdent k i)

pub All-append : (ts us : Tokens) → All IsToken ts → All IsToken us → All IsToken (ts ++ us)
All-append [] us a b = b
All-append (t ∷ ts) us a b = (a.0, All-append ts us a.1 b)

pub value_tokens-IsToken : (v : Bytes) → ValidValue v → All IsToken (value_tokens v)
unfolding value_tokens
value_tokens-IsToken [] h = tt
value_tokens-IsToken (c ∷ v) h = elim ((validate_value_iff (c ∷ v)).1.0 h) [
  | inl e ↦ cc
  | inr i ↦ ((i.nonempty, IsSegment-AllIdent (c ∷ v) i), tt)
]

list_tokens-IsToken : (vs : List Bytes) → IsValueList vs → All IsToken (list_tokens vs)
unfolding list_tokens
list_tokens-IsToken [] i = absurd i
list_tokens-IsToken (v ∷ []) i =
    All-append (value_tokens v) (rparen ∷ []) (value_tokens-IsToken v i.0) (tt, tt)
list_tokens-IsToken (v ∷ w ∷ vs) i =
    All-append (value_tokens v) _ (value_tokens-IsToken v i.0)
      (tt, list_tokens-IsToken (w ∷ vs) i.1)

pub word-IsToken : (IsToken (ident (codes "in"))) × (IsToken (ident (codes "notin")))
unfolding is_ident_byte
word-IsToken =
    ((omega arith, (refl, (refl, tt))), (omega arith, (refl, (refl, (refl, (refl, (refl, tt)))))))

op_tokens-IsToken :
    (o : Op) (k : Bytes) (vs : List Bytes)
    → ValidKey k
    → HasValues o vs
    → All IsToken (op_tokens o k vs)
unfolding op_tokens first_tokens
op_tokens-IsToken op_has k vs h i = (IsToken-key k h, tt)
op_tokens-IsToken op_not_has k vs h i = (tt, (IsToken-key k h, tt))
op_tokens-IsToken op_eq k vs h (v, i, j) = rw i (IsToken-key k h, (tt, value_tokens-IsToken v j))
op_tokens-IsToken op_not_eq k vs h (v, i, j) =
    rw i (IsToken-key k h, (tt, value_tokens-IsToken v j))
op_tokens-IsToken op_in k vs h i =
    (IsToken-key k h, (word-IsToken.0, (tt, list_tokens-IsToken vs i)))
op_tokens-IsToken op_not_in k vs h i =
    (IsToken-key k h, (word-IsToken.1, (tt, list_tokens-IsToken vs i)))

selector_tokens-IsToken :
    (sel : Selector) → All IsRequirement sel → All IsToken (selector_tokens sel)
unfolding selector_tokens
selector_tokens-IsToken [] a = tt
selector_tokens-IsToken (r ∷ []) a =
    op_tokens-IsToken r.op r.key r.values a.0.valid_key a.0.has_values
selector_tokens-IsToken (r ∷ q ∷ sel) a =
    All-append (op_tokens r.op r.key r.values) _
      (op_tokens-IsToken r.op r.key r.values a.0.valid_key a.0.has_values)
      (tt, selector_tokens-IsToken (q ∷ sel) a.1)

-- Every well-formed selector, the empty one included, is what `ParseSelector` returns for its
-- spelling.
pub parse_selector-print_selector :
    (sel : Selector) → All IsRequirement sel → parse_selector (print_selector sel) ≡ ok sel
unfolding parse_selector print_selector
parse_selector-print_selector sel a =
    rw (tokenize-spell (selector_tokens sel) (selector_tokens-IsToken sel a))
      (parse_tokens-tokens sel a)
