-- ===== src/Labels/Valid.antt =====
-- internal/labels/label.go: what the validation of keys and values accepts.
use system_wrangler_backend.Prelude.{
  ◌≤◌, ◌<◌, ◌≡◌, ◌↔◌, ◌⊎◌, inl, inr, refl, true, false, none, some, [], ◌∷◌, ◌++◌, arith, length,
  length-append, ◌==◌, nat_eq, All, Option-cases,
}
use system_wrangler_backend.Prelude.Text.{Bytes}
use system_wrangler_backend.Labels.Tokens.{is_ident_byte}
use system_wrangler_backend.Labels.{
  ok, max_segment_len, is_segment_byte, check_bytes, validate_segment, cut_slash, validate_parts,
  validate_key, validate_value,
}

abbrev pub AllSegment : Bytes → Type 0
AllSegment s = All (λ c. is_segment_byte c ≡ true) s

-- A segment: one to 63 bytes of the allowed set.
pub record IsSegment (s : Bytes) : Type 0 where
  pub nonempty : 0 < length s
  pub short : length s ≤ max_segment_len
  pub bytes : AllSegment s

check_bytes_iff : (s : Bytes) → (check_bytes s ≡ ok tt) ↔ AllSegment s
unfolding check_bytes
check_bytes_iff [] = (λ e. tt, λ a. refl)
check_bytes_iff (c ∷ s) =
    (λ e. ground (arith, (check_bytes_iff s).0), λ a. ground (arith, (check_bytes_iff s).1 a.1))

pub validate_segment_iff : (s : Bytes) → (validate_segment s ≡ ok tt) ↔ IsSegment s
unfolding validate_segment
validate_segment_iff [] = (λ e. cc, λ i. absurd (omega (arith, i.nonempty)))
validate_segment_iff (c ∷ s) = (
  λ e. record {
    nonempty = omega arith;
    short = ground arith;
    bytes = (check_bytes_iff (c ∷ s)).0 (ground arith);
  },
  λ i. ground (arith, (check_bytes_iff (c ∷ s)).1 i.bytes),
)

abbrev pub AllPlain : Bytes → Type 0
AllPlain s = All (λ c. (c == b'/') ≡ false) s

AllSegment→AllPlain : (s : Bytes) → AllSegment s → AllPlain s
AllSegment→AllPlain [] a = tt
AllSegment→AllPlain (c ∷ s) a = (unfold is_segment_byte in ground arith, AllSegment→AllPlain s a.1)

cut_slash-plain : (s : Bytes) → AllPlain s → cut_slash s ≡ (s, none)
unfolding cut_slash
cut_slash-plain [] a = refl
cut_slash-plain (c ∷ s) a = ground (arith, cut_slash-plain s a.1)

cut_slash-append : (s t : Bytes) → AllPlain s → cut_slash (s ++ b'/' ∷ t) ≡ (s, some t)
unfolding cut_slash
cut_slash-append [] t a = refl
cut_slash-append (c ∷ s) t a = ground (arith, cut_slash-append s t a.1)

-- What `strings.Cut` returns puts the text together again.
cut_slash-none : (s : Bytes) → (cut_slash s).1 ≡ none → (cut_slash s).0 ≡ s
unfolding cut_slash
cut_slash-none [] h = refl
cut_slash-none (c ∷ s) h = ground (arith, cut_slash-none s)

cut_slash-some : (s t : Bytes) → (cut_slash s).1 ≡ some t → s ≡ (cut_slash s).0 ++ b'/' ∷ t
unfolding cut_slash
cut_slash-some [] t h = ground arith
cut_slash-some (c ∷ s) t h = ground (arith, cut_slash-some s t)

-- A key is a segment, or two segments with a slash between them.
pub data IsKey : Bytes → Type 0 where
  bare : {s : Bytes} → IsSegment s → IsKey s
  prefixed : {s p n : Bytes} → IsSegment p → IsSegment n → s ≡ p ++ b'/' ∷ n → IsKey s

pub IsKey-length : {s : Bytes} → IsKey s → (0 < length s) × (length s ≤ 127)
IsKey-length (bare i) = (i.nonempty, omega (arith, i.short))
IsKey-length (prefixed {p = p} {n = n} i j e) = rw e (
  omega (arith, length-append p (b'/' ∷ n), i.short, j.short),
  omega (arith, length-append p (b'/' ∷ n), i.short, j.short),
)

validate_parts→IsKey :
    (s : Bytes) → validate_parts s true (cut_slash s).0 (cut_slash s).1 ≡ ok tt → IsKey s
unfolding validate_parts
validate_parts→IsKey s h = elim (Option-cases (cut_slash s).1) [
  | inl e ↦ bare ((validate_segment_iff s).0 (ground (arith, cut_slash-none s e)))
  | inr (t, e) ↦
      prefixed ((validate_segment_iff (cut_slash s).0).0 (ground arith))
        ((validate_segment_iff t).0 (ground arith)) (cut_slash-some s t e)
]

IsKey→validate_parts :
    (s : Bytes) → IsKey s → validate_parts s true (cut_slash s).0 (cut_slash s).1 ≡ ok tt
unfolding validate_parts
IsKey→validate_parts s (bare i) =
    rw (cut_slash-plain s (AllSegment→AllPlain s i.bytes)) ((validate_segment_iff s).1 i)
IsKey→validate_parts s (prefixed {p = p} {n = n} i j e) =
    rw (e, cut_slash-append p n (AllSegment→AllPlain p i.bytes))
      (rw ((validate_segment_iff p).1 i) ((validate_segment_iff n).1 j))

-- With the reserved prefix allowed, `ValidateKey` accepts exactly the keys of that grammar; none of
-- them is longer than 127 bytes, so the limit of 253 bytes refuses nothing that the segments' own
-- limits let through.
pub validate_key_iff :
    (s : Bytes) → ((validate_key s true ≡ ok tt) ↔ IsKey s) × (IsKey s → length s ≤ 127)
unfolding validate_key
validate_key_iff [] =
    ((λ e. cc, λ k. absurd (omega (arith, IsKey-length k))), λ k. (IsKey-length k).1)
validate_key_iff (c ∷ s) = (
  (
    λ e. validate_parts→IsKey (c ∷ s) (ground arith),
    λ k. ground (arith, IsKey→validate_parts (c ∷ s) k, IsKey-length k),
  ),
  λ k. (IsKey-length k).1,
)

-- A label's value is empty, or a segment; a bare tag has none.
pub validate_value_iff :
    (s : Bytes)
    → (validate_value none ≡ ok tt) × ((validate_value (some s) ≡ ok tt) ↔ ((s ≡ []) ⊎ IsSegment s))
unfolding validate_value
validate_value_iff [] = (refl, (λ e. inl refl, λ k. refl))
validate_value_iff (c ∷ s) = (
  refl,
  (
    λ e. inr ((validate_segment_iff (c ∷ s)).0 (ground arith)),
    λ k. elim k [
      | inl e ↦ cc
      | inr i ↦ ground (arith, (validate_segment_iff (c ∷ s)).1 i, i.short)
    ],
  ),
)

-- A byte of a valid key or value is one that the tokenizer takes into an identifier.
abbrev pub AllIdent : Bytes → Type 0
AllIdent s = All (λ c. is_ident_byte c ≡ true) s

AllSegment→AllIdent : (s : Bytes) → AllSegment s → AllIdent s
AllSegment→AllIdent [] a = tt
AllSegment→AllIdent (c ∷ s) a =
    (unfold is_segment_byte is_ident_byte in ground arith, AllSegment→AllIdent s a.1)

AllIdent-append : (s t : Bytes) → AllIdent s → AllIdent t → AllIdent (s ++ t)
AllIdent-append [] t a b = b
AllIdent-append (c ∷ s) t a b = (a.0, AllIdent-append s t a.1 b)

pub IsKey-AllIdent : (s : Bytes) → IsKey s → AllIdent s
IsKey-AllIdent s (bare i) = AllSegment→AllIdent s i.bytes
IsKey-AllIdent s (prefixed {p = p} {n = n} i j e) = rw e (
    AllIdent-append p (b'/' ∷ n) (AllSegment→AllIdent p i.bytes)
      (unfold is_ident_byte in refl, AllSegment→AllIdent n j.bytes))

pub IsSegment-AllIdent : (s : Bytes) → IsSegment s → AllIdent s
IsSegment-AllIdent s i = AllSegment→AllIdent s i.bytes
