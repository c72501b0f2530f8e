-- ===== src/Labels/Parse/Sound/Requirements.antt =====
-- internal/labels/selector.go: that the parser ends, and what the requirements that it returns are like.
use system_wrangler_backend.Prelude.{
  ℕ, zero, suc, ◌+◌, ◌<◌, ◌≢◌, refl, true, List, [], ◌∷◌, arith, length, All, bytes_eq, Bool-cases,
  inl, inr, ◌==◌,
}
use system_wrangler_backend.Prelude.Text.{Bytes, codes}
use system_wrangler_backend.Labels.{Result, ok, fail, panic, out_of_fuel, ◌>>=◌, validate_key}
use system_wrangler_backend.Labels.Tokens.{ident, eq, not_eq, bang, comma, lparen, tokenize}
use system_wrangler_backend.Labels.Tokens.Spell.{
  tokenize-total, IsToken, OfTokens, tokenize-IsToken,
}
use system_wrangler_backend.Labels.Parse.{
  Op, op_eq, op_not_eq, op_in, op_not_in, Requirement, Selector, Tokens, expect_comma,
  expect_lparen, parse_value, in_parens, parse_value_list, after_key, parse_requirement,
  next_requirement, selector_loop, parse_tokens, parse_selector, requirement,
}
use system_wrangler_backend.Labels.Parse.Print.{
  ValidKey, ValidValue, IsValueList, HasValues, IsRequirement,
}
use system_wrangler_backend.Labels.Parse.Sound.{
  Post, Post-bind, Post-map, Post-self, Rest, Values, parse_value-Post, validate_key-total,
  value_loop-Post,
}

abbrev IsParsedList : ℕ → List Bytes × Tokens → Type 0
IsParsedList n (vs, ts) = IsValueList vs × Rest n ts

Values-nil :
    (n : ℕ) (r : Result (List Bytes × Tokens)) → Post (Values [] n) r → Post (IsParsedList n) r
Values-nil n (ok (vs, ts)) (ws, e, i, rest) = (rw e i, rest)
Values-nil n (fail e) p = tt
Values-nil n panic p = tt
Values-nil n out_of_fuel p = absurd p

in_parens-Post : (ts : Tokens) → All IsToken ts → Post (IsParsedList (length ts)) (in_parens ts)
unfolding in_parens
in_parens-Post [] a = tt
in_parens-Post (t ∷ ts) a =
    Values-nil _ _ (value_loop-Post (length (t ∷ ts) + 1) [] (t ∷ ts) (omega arith) a)

parse_value_list-Post :
    (ts : Tokens) → All IsToken ts → Post (IsParsedList (length ts)) (parse_value_list ts)
unfolding parse_value_list expect_lparen
parse_value_list-Post [] a = tt
parse_value_list-Post (lparen ∷ ts) a =
    Post-map _ _ (in_parens ts) (λ x p. (p.0, (omega arith, p.1.1))) (in_parens-Post ts a.1)
parse_value_list-Post (_ ∷ ts) a = tt

abbrev IsFound : ℕ → Requirement × Tokens → Type 0
IsFound n (r, ts) = IsRequirement r × Rest n ts

-- One value behind a key and an operator that takes one.
one_value-Post :
    (o : Op) (k : Bytes) (ts : Tokens)
    → ValidKey k
    → ((v : Bytes) → ValidValue v → HasValues o (v ∷ []))
    → All IsToken ts
    → Post (IsFound (suc (length ts))) (do (v, ts') ← parse_value ts; requirement o k (v ∷ []) ts')
one_value-Post o k ts h has a =
    Post-bind _ _ (parse_value ts) _ (parse_value-Post ts a)
      λ x p. (record { valid_key = h; has_values = has x.0 p.0 }, (omega arith, p.1.1))

list-Post :
    (o : Op) (k : Bytes) (ts : Tokens)
    → ValidKey k
    → ((vs : List Bytes) → IsValueList vs → HasValues o vs)
    → All IsToken ts
    → Post (IsFound (suc (length ts))) (do (vs, ts') ← parse_value_list ts; requirement o k vs ts')
list-Post o k ts h has a =
    Post-bind _ _ (parse_value_list ts) _ (parse_value_list-Post ts a)
      λ x p. (record { valid_key = h; has_values = has x.0 p.0 }, (omega arith, p.1.1))

after_key-Post :
    (k : Bytes) (ts : Tokens)
    → ValidKey k
    → All IsToken ts
    → Post (IsFound (length ts)) (after_key k ts)
unfolding after_key
after_key-Post k [] h a = (record { valid_key = h; has_values = refl }, (omega arith, tt))
after_key-Post k (comma ∷ ts) h a = (record { valid_key = h; has_values = refl }, (omega arith, a))
after_key-Post k (eq ∷ ts) h a = one_value-Post op_eq k ts h (λ v e. (v, refl, e)) a.1
after_key-Post k (not_eq ∷ ts) h a = one_value-Post op_not_eq k ts h (λ v e. (v, refl, e)) a.1
after_key-Post k (ident word ∷ ts) h a = elim (Bool-cases (word == codes "in")) [
  | inl e ↦ rw e (list-Post op_in k ts h (λ vs i. i) a.1)
  | inr e ↦ elim (Bool-cases (word == codes "notin")) [
    | inl e' ↦ rw (e, e') (list-Post op_not_in k ts h (λ vs i. i) a.1)
    | inr e' ↦ rw (e, e') tt
  ]
]
after_key-Post k (_ ∷ ts) h a = tt

-- A requirement takes a token at least.
abbrev IsFoundBelow : ℕ → Requirement × Tokens → Type 0
IsFoundBelow n (r, ts) = IsRequirement r × (length ts < n) × All IsToken ts

parse_requirement-Post :
    (ts : Tokens) → All IsToken ts → Post (IsFoundBelow (length ts)) (parse_requirement ts)
unfolding parse_requirement
parse_requirement-Post [] a = tt
parse_requirement-Post (bang ∷ []) a = tt
parse_requirement-Post (bang ∷ ident key ∷ ts) a =
    Post-bind _ _ (validate_key key true) _
      (Post-self (validate_key key true) (validate_key-total key true))
      λ u h. (record { valid_key = h; has_values = refl }, omega arith, a.1.1)
parse_requirement-Post (bang ∷ _ ∷ ts) a = tt
parse_requirement-Post (ident key ∷ ts) a =
    Post-bind _ _ (validate_key key true) _
      (Post-self (validate_key key true) (validate_key-total key true))
      λ u h.
        Post-map _ _ (after_key key ts) (λ x p. (p.0, omega arith, p.1.1))
          (after_key-Post key ts h a.1)
parse_requirement-Post (_ ∷ ts) a = tt

cons_Post :
    (r : Requirement) (m : Result Selector)
    → IsRequirement r
    → Post (All IsRequirement) m
    → Post (All IsRequirement) (do rest ← m; ok (r ∷ rest))
cons_Post r m h p = Post-bind _ _ m _ p (λ rest q. (h, q))

next_requirement-Post :
    (r : Requirement) (more : Tokens → Result Selector) (ts : Tokens)
    → IsRequirement r
    → ((ts' : Tokens)
        → length ts' < length ts
        → All IsToken ts'
        → Post (All IsRequirement) (more ts'))
    → All IsToken ts
    → Post (All IsRequirement) (next_requirement r more ts)
unfolding next_requirement expect_comma
next_requirement-Post r more [] h ih a = (h, tt)
next_requirement-Post r more (comma ∷ ts) h ih a = cons_Post r (more ts) h (ih ts (omega arith) a.1)
next_requirement-Post r more (_ ∷ ts) h ih a = tt

selector_loop-Post :
    (f : ℕ) (ts : Tokens)
    → length ts < f
    → All IsToken ts
    → Post (All IsRequirement) (selector_loop f ts)
unfolding selector_loop
selector_loop-Post zero ts h a = absurd (omega arith)
selector_loop-Post (suc f) ts h a =
    Post-bind _ _ (parse_requirement ts) _ (parse_requirement-Post ts a) λ x p.
      next_requirement-Post x.0 (selector_loop f) x.1 p.0
        (λ ts' lt a'. selector_loop-Post f ts' (omega arith) a') p.2

parse_tokens-Post : (ts : Tokens) → All IsToken ts → Post (All IsRequirement) (parse_tokens ts)
unfolding parse_tokens
parse_tokens-Post [] a = tt
parse_tokens-Post (t ∷ ts) a = selector_loop-Post (length (t ∷ ts) + 1) (t ∷ ts) (omega arith) a

OfTokens-Post : (r : Result Tokens) → r ≢ out_of_fuel → OfTokens r → Post (All IsToken) r
OfTokens-Post (ok ts) h a = a
OfTokens-Post (fail e) h a = tt
OfTokens-Post panic h a = tt
OfTokens-Post out_of_fuel h a = absurd (h refl)

-- `ParseSelector` ends on every text, and each requirement that it returns has a valid key and as
-- many valid values as its operator takes; the last value of a list is never empty.
pub parse_selector-Post : (s : Bytes) → Post (All IsRequirement) (parse_selector s)
unfolding parse_selector
parse_selector-Post s =
    Post-bind _ _ (tokenize s) _
      (OfTokens-Post (tokenize s) (tokenize-total s) (tokenize-IsToken s)) parse_tokens-Post
