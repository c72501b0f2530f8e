-- ===== src/Labels.antt =====
-- internal/labels/label.go: labels, and the validation of their keys and values. Texts are lists
-- of bytes. An error keeps its sentinel and drops its message.
pub mod Tokens
pub mod Parse
pub mod Match
pub mod Valid
use system_wrangler_backend.Prelude.{
  ℕ, ◌≡◌, Bool, true, false, ◌&&◌, ◌||◌, not, Option, none, some, List, [], ◌∷◌, arith, ltb,
  if◌then◌else◌, length, Bytes, codes, between, ◌==◌, nat_eq,
}

-- `ErrInvalid`, `ErrReserved`, `ErrNotFound`.
pub data Error : Type 0 where
  invalid reserved not_found : Error

-- A Go call may also panic; `out_of_fuel` belongs to the model only.
pub data Result {ℓ} (A : Type ℓ) : Type ℓ where
  ok : A → Result A
  fail : Error → Result A
  panic : Result A
  out_of_fuel : Result A

infixl 5 ◌>>=◌ ◌>>◌
abbrev pub ◌>>=◌ {ℓ κ} : {A : Type ℓ} {B : Type κ} → Result A → (A → Result B) → Result B
ok a >>= f = f a
fail e >>= f = fail e
panic >>= f = panic
out_of_fuel >>= f = out_of_fuel

abbrev pub ◌>>◌ {ℓ} : {B : Type ℓ} → Result (Unit {0}) → Result B → Result B
m >> k = m >>= λ _. k

pub record Label : Type 0 where
  pub key : Bytes
  pub value : Option Bytes

abbrev reserved_prefix : Bytes
reserved_prefix = codes "system-wrangler.io/"

abbrev pub max_segment_len : ℕ
max_segment_len = 63

abbrev pub max_key_len : ℕ
max_key_len = 253

abbrev pub max_value_len : ℕ
max_value_len = 63

-- The `switch` of `validateSegment`.
unfoldable pub is_segment_byte : ℕ → Bool
is_segment_byte c =
    between b'a' b'z' c
    || between b'A' b'Z' c
    || between b'0' b'9' c
    || c == b'.'
    || c == b'_'
    || c == b'-'

-- The loop of `validateSegment`.
check_bytes : Bytes → Result (Unit {0})
check_bytes [] = ok tt
check_bytes (c ∷ s) = let rest = check_bytes s in if is_segment_byte c then rest else fail invalid

pub validate_segment : Bytes → Result (Unit {0})
validate_segment [] = fail invalid
validate_segment (c ∷ s) =
    if ltb max_segment_len (length (c ∷ s)) then fail invalid else check_bytes (c ∷ s)

-- `strings.Cut(key, "/")`: what stands before the first slash, and what follows it if there is one.
pub cut_slash : Bytes → Bytes × Option Bytes
cut_slash [] = ([], none)
cut_slash (c ∷ s) =
    let (before, after) = cut_slash s in if c == b'/' then ([], some s) else (c ∷ before, after)

-- `strings.HasPrefix(s, prefix)`
pub has_prefix : Bytes → Bytes → Bool
has_prefix s [] = true
has_prefix [] (p ∷ ps) = false
has_prefix (c ∷ s) (p ∷ ps) = c == p && has_prefix s ps

-- The part of `ValidateKey` after `strings.Cut`, which gave the two arguments at the end.
validate_parts : Bytes → Bool → Bytes → Option Bytes → Result (Unit {0})
validate_parts key allow_reserved prefix none = validate_segment prefix
validate_parts key allow_reserved prefix (some name) =
    if not allow_reserved && has_prefix key reserved_prefix
    then fail reserved
    else (do validate_segment prefix; validate_segment name)

pub validate_key : Bytes → Bool → Result (Unit {0})
validate_key [] allow_reserved = fail invalid
validate_key (c ∷ s) allow_reserved =
    let (prefix, name) = cut_slash (c ∷ s) in
    if ltb max_key_len (length (c ∷ s))
    then fail invalid
    else validate_parts (c ∷ s) allow_reserved prefix name

pub validate_value : Option Bytes → Result (Unit {0})
validate_value none = ok tt
validate_value (some []) = ok tt
validate_value (some (c ∷ s)) =
    if ltb max_value_len (length (c ∷ s)) then fail invalid else validate_segment (c ∷ s)
