-- ===== src/Labels/Tokens/Spell.antt =====
-- internal/labels/selector.go: the tokenizer ends on every text, and reads back what is spelled.
use system_wrangler_backend.Prelude.{
  Bool-cases, inl, inr, ℕ, zero, suc, ◌+◌, ◌≤◌, ◌<◌, ◌≡◌, ◌≢◌, refl, Bool, true, false, List, [],
  ◌∷◌, ◌++◌, arith, if◌then◌else◌, length, length-append, All, ◌==◌, nat_eq, append_assoc,
}
use system_wrangler_backend.Prelude.Text.{Bytes, codes}
use system_wrangler_backend.Labels.{Result, ok, fail, panic, out_of_fuel}
use system_wrangler_backend.Labels.Tokens.{
  Token, ident, eq, not_eq, bang, comma, lparen, rparen, is_ident_byte, is_blank, ident_span,
  starts_eq, drop_one, emit, token_loop, tokenize,
}

abbrev AllIdent : Bytes → Type 0
AllIdent s = All (λ c. is_ident_byte c ≡ true) s

-- The text of a token, with a blank behind it.
pub spell_one : Token → Bytes
spell_one (ident w) = w ++ codes " "
spell_one eq = codes "= "
spell_one not_eq = codes "!= "
spell_one bang = codes "! "
spell_one comma = codes ", "
spell_one lparen = codes "( "
spell_one rparen = codes ") "

pub spell : List Token → Bytes
spell [] = []
spell (t ∷ ts) = spell_one t ++ spell ts

-- An identifier's text is not empty and has only bytes of identifiers.
abbrev pub IsToken : Token → Type 0
IsToken (ident w) = (0 < length w) × AllIdent w
IsToken _ = Unit

length-drop_one : (s : Bytes) → length (drop_one s) ≤ length s
unfolding drop_one
length-drop_one [] = omega arith
length-drop_one (c ∷ s) = omega arith

length-ident_span : (s : Bytes) → length (ident_span s).1 ≤ length s
unfolding ident_span
length-ident_span [] = omega arith
length-ident_span (c ∷ s) = ground (arith, length-ident_span s)

length-ident_span_cons :
    (c : ℕ) (s : Bytes) → is_ident_byte c ≡ true → length (ident_span (c ∷ s)).1 ≤ length s
unfolding ident_span
length-ident_span_cons c s h = ground (arith, length-ident_span s)

token_loop-total : (f : ℕ) (s : Bytes) → length s < f → token_loop f s ≢ out_of_fuel
unfolding token_loop
token_loop-total zero s h = absurd (omega arith)
token_loop-total (suc f) [] h = ground arith
token_loop-total (suc f) (c ∷ s) h = ground (
  arith,
  token_loop-total f s,
  token_loop-total f (drop_one s),
  length-drop_one s,
  token_loop-total f (ident_span (c ∷ s)).1,
  length-ident_span_cons c s,
)

-- The tokenizer ends on every text.
pub tokenize-total : (s : Bytes) → tokenize s ≢ out_of_fuel
unfolding tokenize
tokenize-total s = token_loop-total (length s + 1) s (omega arith)

ident_span-word : (w rest : Bytes) → AllIdent w → ident_span (w ++ b' ' ∷ rest) ≡ (w, b' ' ∷ rest)
unfolding ident_span
ident_span-word [] rest a = unfold is_ident_byte in refl
ident_span-word (c ∷ w) rest a = ground (arith, ident_span-word w rest a.1)

ident_not_special :
    (c : ℕ)
    → is_ident_byte c ≡ true
    → (is_blank c ≡ false)
      × ((c == b',') ≡ false)
      × ((c == b'(') ≡ false)
      × ((c == b')') ≡ false)
      × ((c == b'=') ≡ false)
      × ((c == b'!') ≡ false)
unfolding is_ident_byte is_blank
ident_not_special c h =
    (ground arith, ground arith, ground arith, ground arith, ground arith, ground arith)

token_loop-blank : (f : ℕ) (s : Bytes) → token_loop (suc f) (b' ' ∷ s) ≡ token_loop f s
unfolding token_loop is_blank
token_loop-blank f s = refl

token_loop-word :
    (f c : ℕ) (w rest : Bytes)
    → AllIdent (c ∷ w)
    → token_loop (suc f) ((c ∷ w) ++ b' ' ∷ rest)
      ≡ emit (ident (c ∷ w)) (token_loop f (b' ' ∷ rest))
unfolding token_loop
token_loop-word f c w rest a =
    let (b, co, l, r, e, x) = ident_not_special c a.0 in
    rw (b, co, l, r, e, x, a.0, ident_span-word (c ∷ w) rest a) refl

-- A token that is spelled takes two rounds at most, and the tokenizer gives it back.
token_loop-spell_one :
    (f : ℕ) (t : Token) (s : Bytes)
    → IsToken t
    → token_loop (suc (suc f)) (spell_one t ++ s) ≡ emit t (token_loop f s)
unfolding spell_one
token_loop-spell_one f (ident []) s a = absurd (omega arith)
token_loop-spell_one f (ident (c ∷ w)) s a =
    rw (append_assoc w, token_loop-word (suc f) c w s a.1, token_loop-blank f s) refl
token_loop-spell_one f eq s a = unfold token_loop is_blank in refl
token_loop-spell_one f not_eq s a = unfold token_loop is_blank starts_eq drop_one in refl
token_loop-spell_one f bang s a = unfold token_loop is_blank starts_eq drop_one in refl
token_loop-spell_one f comma s a = unfold token_loop is_blank in refl
token_loop-spell_one f lparen s a = unfold token_loop is_blank in refl
token_loop-spell_one f rparen s a = unfold token_loop is_blank in refl

length-spell_one : (t : Token) → IsToken t → 2 ≤ length (spell_one t)
unfolding spell_one
length-spell_one (ident w) a = omega (arith, length-append w (codes " "))
length-spell_one eq a = omega arith
length-spell_one _ a = omega arith

token_loop-spell :
    (f : ℕ) (ts : List Token)
    → length (spell ts) < f
    → All IsToken ts
    → token_loop f (spell ts) ≡ ok ts
unfolding spell
token_loop-spell zero ts h a = absurd (omega arith)
token_loop-spell (suc f) [] h a = unfold token_loop in refl
token_loop-spell (suc zero) (t ∷ ts) h a =
    absurd (omega (arith, length-append (spell_one t) (spell ts), length-spell_one t a.0))
token_loop-spell (suc (suc f)) (t ∷ ts) h a = rw (token_loop-spell_one f t (spell ts) a.0) (
    rw
      (token_loop-spell f ts
        (omega (arith, length-append (spell_one t) (spell ts), length-spell_one t a.0)) a.1)
      refl)

-- Any tokens that are spelled out, with a blank behind each, are read back.
pub tokenize-spell : (ts : List Token) → All IsToken ts → tokenize (spell ts) ≡ ok ts
unfolding tokenize
tokenize-spell ts a = token_loop-spell (length (spell ts) + 1) ts (omega arith) a

ident_span-AllIdent : (s : Bytes) → AllIdent (ident_span s).0
unfolding ident_span
ident_span-AllIdent [] = tt
ident_span-AllIdent (c ∷ s) = elim (Bool-cases (is_ident_byte c)) [
  | inl e ↦ rw e (e, ident_span-AllIdent s)
  | inr e ↦ rw e tt
]

ident_span-nonempty :
    (c : ℕ) (s : Bytes) → is_ident_byte c ≡ true → 0 < length (ident_span (c ∷ s)).0
unfolding ident_span
ident_span-nonempty c s h = rw h (omega arith)

-- What holds of the tokens of a run that succeeds.
abbrev pub OfTokens : Result (List Token) → Type 0
OfTokens (ok ts) = All IsToken ts
OfTokens _ = Unit

OfTokens-emit : (t : Token) (r : Result (List Token)) → IsToken t → OfTokens r → OfTokens (emit t r)
OfTokens-emit t (ok us) a b = (a, b)
OfTokens-emit t (fail e) a b = tt
OfTokens-emit t panic a b = tt
OfTokens-emit t out_of_fuel a b = tt

OfTokens-if :
    (b : Bool) (x y : Result (List Token))
    → (b ≡ true → OfTokens x)
    → (b ≡ false → OfTokens y)
    → OfTokens (if b then x else y)
OfTokens-if true x y h k = h refl
OfTokens-if false x y h k = k refl

token_loop-IsToken : (f : ℕ) (s : Bytes) → OfTokens (token_loop f s)
unfolding token_loop
token_loop-IsToken zero s = tt
token_loop-IsToken (suc f) [] = tt
token_loop-IsToken (suc f) (c ∷ s) =
    let rest = token_loop-IsToken f s in
    OfTokens-if (is_blank c) _ _ (λ e. rest)
      λ e.
        OfTokens-if (c == b',') _ _ (λ e. OfTokens-emit comma _ tt rest)
          λ e.
            OfTokens-if (c == b'(') _ _ (λ e. OfTokens-emit lparen _ tt rest)
              λ e.
                OfTokens-if (c == b')') _ _ (λ e. OfTokens-emit rparen _ tt rest)
                  λ e.
                    OfTokens-if (c == b'=') _ _ (λ e. OfTokens-emit eq _ tt rest)
                      λ e.
                        OfTokens-if (c == b'!') _ _
                          (λ e.
                            OfTokens-if (starts_eq s) _ _
                              (λ e. OfTokens-emit not_eq _ tt (token_loop-IsToken f (drop_one s)))
                              (λ e. OfTokens-emit bang _ tt rest))
                          λ e.
                            OfTokens-if (is_ident_byte c) _ _
                              (λ e.
                                OfTokens-emit (ident (ident_span (c ∷ s)).0) _
                                  (ident_span-nonempty c s e, ident_span-AllIdent (c ∷ s))
                                  (token_loop-IsToken f (ident_span (c ∷ s)).1))
                              (λ e. tt)

-- The text of every identifier that the tokenizer finds is one byte or more, all of them bytes of
-- identifiers.
pub tokenize-IsToken : (s : Bytes) → OfTokens (tokenize s)
unfolding tokenize
tokenize-IsToken s = token_loop-IsToken (length s + 1) s
