-- ===== src/Labels/Tokens.antt =====
-- internal/labels/selector.go: the tokenizer.
pub mod Spell
use system_wrangler_backend.Prelude.{
  ℕ, zero, suc, ◌+◌, Bool, true, false, ◌||◌, List, [], ◌∷◌, if◌then◌else◌, length, Bytes, between,
  ◌==◌, nat_eq,
}
use system_wrangler_backend.Labels.{Result, ok, fail, out_of_fuel, invalid, ◌>>=◌}

-- The text of a `token` is used for identifiers alone.
pub data Token : Type 0 where
  ident : Bytes → Token
  eq not_eq bang comma lparen rparen : Token

unfoldable pub is_ident_byte : ℕ → Bool
is_ident_byte c =
    between b'a' b'z' c
    || between b'A' b'Z' c
    || between b'0' b'9' c
    || c == b'.'
    || c == b'_'
    || c == b'-'
    || c == b'/'

is_blank : ℕ → Bool
is_blank c = c == b' ' || c == 9 || c == 10 || c == 13

-- The inner loop over the bytes of an identifier: `s[i:j]` and `s[j:]`.
ident_span : Bytes → Bytes × Bytes
ident_span [] = ([], [])
ident_span (c ∷ s) =
    let (word, rest) = ident_span s in if is_ident_byte c then (c ∷ word, rest) else ([], c ∷ s)

starts_eq : Bytes → Bool
starts_eq [] = false
starts_eq (c ∷ s) = c == b'='

drop_one : Bytes → Bytes
drop_one [] = []
drop_one (c ∷ s) = s

abbrev emit : Token → Result (List Token) → Result (List Token)
emit t r = r >>= λ ts. ok (t ∷ ts)

-- The loop of `tokenize` from the byte at `i` on.
token_loop : ℕ → Bytes → Result (List Token)
token_loop zero s = out_of_fuel
token_loop (suc f) [] = ok []
token_loop (suc f) (c ∷ s) =
    let rest = token_loop f s in
    let after_eq = token_loop f (drop_one s) in
    let word = (ident_span (c ∷ s)).0 in
    let after_word = token_loop f (ident_span (c ∷ s)).1 in
    if is_blank c
    then rest
    else if c == b','
    then emit comma rest
    else if c == b'('
    then emit lparen rest
    else if c == b')'
    then emit rparen rest
    else if c == b'='
    then emit eq rest
    else if c == b'!'
    then (if starts_eq s then emit not_eq after_eq else emit bang rest)
    else if is_ident_byte c
    then emit (ident word) after_word
    else fail invalid

-- Each round takes a byte at least.
unfoldable pub tokenize : Bytes → Result (List Token)
unfolding token_loop is_ident_byte is_blank ident_span starts_eq drop_one
tokenize s = token_loop (length s + 1) s
