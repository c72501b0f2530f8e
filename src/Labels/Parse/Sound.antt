-- ===== src/Labels/Parse/Sound.antt =====
-- internal/labels/selector.go: the parser ends, and what a parse that succeeds has found.
pub mod Requirements
use system_wrangler_backend.Prelude.{
  ℕ, zero, suc, ◌+◌, ◌≤◌, ◌<◌, ◌≡◌, ◌≢◌, refl, ◌∙◌, Bool, true, none, some, Option, List, [], ◌∷◌,
  ◌++◌, arith, length, All, bytes_eq, append_assoc, Bool-cases, inl, inr, ◌==◌,
}
use system_wrangler_backend.Prelude.Text.{Bytes, codes}
use system_wrangler_backend.Labels.{
  Result, ok, fail, panic, out_of_fuel, ◌>>=◌, ◌>>◌, validate_key, validate_value, validate_segment,
  validate_parts, check_bytes, cut_slash,
}
use system_wrangler_backend.Labels.Tokens.{ident, eq, not_eq, bang, comma, lparen, rparen, tokenize}
use system_wrangler_backend.Labels.Tokens.Spell.{
  tokenize-total, IsToken, OfTokens, tokenize-IsToken,
}
use system_wrangler_backend.Labels.Parse.{
  Op, op_eq, op_not_eq, op_in, op_not_in, Requirement, Selector, Tokens, expect_comma,
  expect_lparen, parse_value, parse_list_value, after_value, value_round, value_loop, in_parens,
  parse_value_list, after_key, parse_requirement, next_requirement, selector_loop, parse_tokens,
  parse_selector, requirement,
}
use system_wrangler_backend.Labels.Parse.Print.{
  ValidKey, ValidValue, IsValueList, HasValues, IsRequirement,
}

-- The run ended; if it succeeded, its result is as `P` says.
abbrev pub Post : {A : Type 0} → (A → Type 0) → Result A → Type 0
Post P (ok a) = P a
Post P (fail e) = Unit
Post P panic = Unit
Post P out_of_fuel = ⊥

module _ {A B : Type 0} (P : A → Type 0) (Q : B → Type 0) where
  Post-bind :
      (m : Result A) (f : A → Result B)
      → Post P m
      → ((a : A) → P a → Post Q (f a))
      → Post Q (m >>= f)
  Post-bind (ok a) f h k = k a h
  Post-bind (fail e) f h k = tt
  Post-bind panic f h k = tt
  Post-bind out_of_fuel f h k = absurd h

Post-map :
    {A : Type 0} (P Q : A → Type 0) (r : Result A) → ((a : A) → P a → Q a) → Post P r → Post Q r
Post-map P Q (ok a) f h = f a h
Post-map P Q (fail e) f h = tt
Post-map P Q panic f h = tt
Post-map P Q out_of_fuel f h = absurd h

check_bytes-total : (s : Bytes) → check_bytes s ≢ out_of_fuel
unfolding check_bytes
check_bytes-total [] = ground arith
check_bytes-total (c ∷ s) = ground (arith, check_bytes-total s)

validate_segment-total : (s : Bytes) → validate_segment s ≢ out_of_fuel
unfolding validate_segment
validate_segment-total [] = ground arith
validate_segment-total (c ∷ s) = ground (arith, check_bytes-total (c ∷ s))

validate_parts-total :
    (s : Bytes) (b : Bool) (p : Bytes) (n : Option Bytes) → validate_parts s b p n ≢ out_of_fuel
unfolding validate_parts
validate_parts-total s b p none = ground (arith, validate_segment-total p)
validate_parts-total s b p (some n) =
    ground (arith, validate_segment-total p, validate_segment-total n)

validate_key-total : (s : Bytes) (b : Bool) → validate_key s b ≢ out_of_fuel
unfolding validate_key
validate_key-total [] b = ground arith
validate_key-total (c ∷ s) b =
    ground (arith, validate_parts-total (c ∷ s) b (cut_slash (c ∷ s)).0 (cut_slash (c ∷ s)).1)

validate_value-total : (o : Option Bytes) → validate_value o ≢ out_of_fuel
unfolding validate_value
validate_value-total none = ground arith
validate_value-total (some []) = ground arith
validate_value-total (some (c ∷ s)) = ground (arith, validate_segment-total (c ∷ s))

Post-self : (r : Result (Unit {0})) → r ≢ out_of_fuel → Post (λ u. r ≡ ok tt) r
Post-self (ok tt) h = refl
Post-self (fail e) h = tt
Post-self panic h = tt
Post-self out_of_fuel h = absurd (h refl)

-- What is left of the tokens: `n` at most.
abbrev Rest : ℕ → Tokens → Type 0
Rest n ts = (length ts ≤ n) × All IsToken ts

abbrev IsParsed : ℕ → Bytes × Tokens → Type 0
IsParsed n (v, ts) = ValidValue v × Rest n ts

value-Post :
    (n : ℕ) (v : Bytes) (ts : Tokens)
    → Rest n ts
    → Post (IsParsed n) (do validate_value (some v); ok (v, ts))
value-Post n v ts h =
    Post-bind (λ u. ValidValue v) (IsParsed n) (validate_value (some v)) (λ u. ok (v, ts))
      (Post-self (validate_value (some v)) (validate_value-total (some v))) (λ u valid. (valid, h))

parse_value-Post : (ts : Tokens) → All IsToken ts → Post (IsParsed (length ts)) (parse_value ts)
unfolding parse_value
parse_value-Post [] a = value-Post 0 [] [] (omega arith, tt)
parse_value-Post (comma ∷ ts) a = value-Post _ [] (comma ∷ ts) (omega arith, a)
parse_value-Post (ident v ∷ ts) a = value-Post _ v ts (omega arith, a.1)
parse_value-Post (_ ∷ ts) a = tt

IsValueList-cons :
    (v : Bytes) (ws : List Bytes) → ValidValue v → IsValueList ws → IsValueList (v ∷ ws)
IsValueList-cons v [] h i = absurd i
IsValueList-cons v (w ∷ ws) h i = (h, i)

-- The values that a loop adds to `out`, and what is left.
abbrev Values : List Bytes → ℕ → List Bytes × Tokens → Type 0
Values out n (vs, ts) = (ws : List Bytes) × (vs ≡ out ++ ws) × IsValueList ws × Rest n ts

Values-cons :
    (out : List Bytes) (v : Bytes) (n m : ℕ) (r : Result (List Bytes × Tokens))
    → ValidValue v
    → n ≤ m
    → Post (Values (out ++ v ∷ []) n) r
    → Post (Values out m) r
Values-cons out v n m (ok (vs, ts)) h le (ws, e, i, rest) =
    (v ∷ ws, e ∙ append_assoc out (v ∷ []) ws, IsValueList-cons v ws h i, (omega arith, rest.1))
Values-cons out v n m (fail e) h le p = tt
Values-cons out v n m panic h le p = tt
Values-cons out v n m out_of_fuel h le p = absurd p

-- A value that passes its check, and what is done with it.
module _ {A : Type 0} (Q : A → Type 0) (v : Bytes) (ts : Tokens)
    (k : Bytes × Tokens → Result A) where
  checked_Post :
      (r : Result (Unit {0}))
      → r ≢ out_of_fuel
      → (r ≡ ok tt → Post Q (k (v, ts)))
      → Post Q ((r >> ok (v, ts)) >>= k)
  checked_Post (ok tt) h p = p refl
  checked_Post (fail e) h p = tt
  checked_Post panic h p = tt
  checked_Post out_of_fuel h p = absurd (h refl)

  value_checked_Post :
      (ValidValue v → Post Q (k (v, ts))) → Post Q ((validate_value (some v) >> ok (v, ts)) >>= k)
  value_checked_Post = checked_Post (validate_value (some v)) (validate_value-total (some v))

value_loop-Post :
    (f : ℕ) (out : List Bytes) (ts : Tokens)
    → length ts < f
    → All IsToken ts
    → Post (Values out (length ts)) (value_loop f out ts)
unfolding value_loop value_round parse_list_value after_value expect_comma
value_loop-Post zero out ts h a = absurd (omega arith)
value_loop-Post (suc f) out [] h a = tt
value_loop-Post (suc f) out (rparen ∷ ts) h a = tt
value_loop-Post (suc f) out (comma ∷ ts) h a = value_checked_Post _ [] (comma ∷ ts) _ λ e.
    Values-cons out [] (length ts) _ _ e (omega arith)
      (value_loop-Post f (out ++ [] ∷ []) ts (omega arith) a.1)
value_loop-Post (suc f) out (ident v ∷ []) h a = value_checked_Post _ v [] _ λ e. tt
value_loop-Post (suc f) out (ident v ∷ rparen ∷ ts) h a =
    value_checked_Post _ v (rparen ∷ ts) _ λ e. (v ∷ [], refl, (e, a.0.0), (omega arith, a.1.1))
value_loop-Post (suc f) out (ident v ∷ comma ∷ ts) h a = value_checked_Post _ v (comma ∷ ts) _ λ e.
    Values-cons out v (length ts) _ _ e (omega arith)
      (value_loop-Post f (out ++ v ∷ []) ts (omega arith) a.1.1)
value_loop-Post (suc f) out (ident v ∷ t ∷ ts) h a = value_checked_Post _ v (t ∷ ts) _ λ e. tt
value_loop-Post (suc f) out (_ ∷ ts) h a = tt
