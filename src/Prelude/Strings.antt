-- ===== src/Prelude/Strings.antt =====
-- Go's packages strings and strconv, as far as the program uses them on texts of ASCII bytes.
use Prim.Native.Nat.{ℕ, zero, suc, ◌+◌, ◌-◌, ◌*◌}
use mathlib.Core.Bool.{Bool, true, false, ◌||◌}
use mathlib.Core.Option.{Option, none, some}
use mathlib.Core.List.{List, [], ◌∷◌, ◌++◌}
use system_wrangler_backend.Prelude.Tests.{leb, nat_beq, if◌then◌else◌}
use system_wrangler_backend.Prelude.Text.{Bytes, between}

-- `unicode.IsSpace` on ASCII.
unfoldable pub is_space : ℕ → Bool
is_space c = nat_beq c b' ' || between 9 13 c

unfoldable pub trim_left : Bytes → Bytes
unfolding is_space
trim_left [] = []
trim_left (c ∷ s) = let rest = trim_left s in if is_space c then rest else c ∷ s

trimmed : Bool → ℕ → Bytes → Bytes
trimmed true c [] = []
trimmed true c (d ∷ s) = c ∷ d ∷ s
trimmed false c s = c ∷ s

unfoldable pub trim_right : Bytes → Bytes
unfolding is_space trimmed
trim_right [] = []
trim_right (c ∷ s) = trimmed (is_space c) c (trim_right s)

-- `strings.TrimSpace(s)`
unfoldable pub trim_space : Bytes → Bytes
unfolding trim_left trim_right
trim_space s = trim_right (trim_left s)

abbrev extend : ℕ → List Bytes → List Bytes
extend c [] = (c ∷ []) ∷ []
extend c (p ∷ ps) = (c ∷ p) ∷ ps

-- `strings.Split(s, sep)` for a separator of one byte: one part at least.
unfoldable pub split : ℕ → Bytes → List Bytes
split sep [] = [] ∷ []
split sep (c ∷ s) = let rest = split sep s in if nat_beq c sep then [] ∷ rest else extend c rest

abbrev flush : Bytes → List Bytes → List Bytes
flush [] ps = ps
flush (c ∷ w) ps = (c ∷ w) ∷ ps

-- `strings.Fields(s)`; `word` holds the bytes of the field that has begun.
fields_from : Bytes → Bytes → List Bytes
fields_from word [] = flush word []
fields_from word (c ∷ s) =
    let between_fields = flush word (fields_from [] s) in
    let in_field = fields_from (word ++ c ∷ []) s in if is_space c then between_fields else in_field

unfoldable pub fields : Bytes → List Bytes
unfolding fields_from is_space
fields s = fields_from [] s

-- `strings.Index(s, sep)` and the two slices beside it; none where it is -1.
unfoldable pub cut_at : ℕ → Bytes → Option (Bytes × Bytes)
cut_at sep [] = none
cut_at sep (c ∷ s) =
    let rest : Option (Bytes × Bytes) = elim (cut_at sep s) [
      | none ↦ none
      | some (before, after) ↦ some (c ∷ before, after)
    ] in
    if nat_beq c sep then some ([], s) else rest

-- `strings.ToLower(s)`
unfoldable pub to_lower : Bytes → Bytes
to_lower [] = []
to_lower (c ∷ s) = (if between b'A' b'Z' c then c + 32 else c) ∷ to_lower s

-- Whole numbers, for what `strconv.Atoi` returns.
pub data ℤ : Type 0 where
  pos negsuc : ℕ → ℤ

-- The digits of a number, read after `acc`.
digits_from : ℕ → Bytes → Option ℕ
digits_from acc [] = some acc
digits_from acc (c ∷ s) =
    let rest = digits_from (acc * 10 + (c - b'0')) s in if between b'0' b'9' c then rest else none

unsigned : Bytes → Option ℕ
unsigned [] = none
unsigned (c ∷ s) = digits_from 0 (c ∷ s)

abbrev pub max_int : ℕ
max_int = 9_223_372_036_854_775_807

as_pos : Option ℕ → Option ℤ
as_pos none = none
as_pos (some n) = if leb n max_int then some (pos n) else none

as_neg : Option ℕ → Option ℤ
as_neg none = none
as_neg (some zero) = some (pos zero)
as_neg (some (suc n)) = if leb n max_int then some (negsuc n) else none

signed : ℕ → Bytes → Option ℤ
signed c s =
    if nat_beq c b'-'
    then as_neg (unsigned s)
    else if nat_beq c b'+'
    then as_pos (unsigned s)
    else as_pos (unsigned (c ∷ s))

-- `strconv.Atoi(s)` for an int of 64 bits; none is an error.
unfoldable pub atoi : Bytes → Option ℤ
unfolding signed as_pos as_neg unsigned digits_from
atoi [] = none
atoi (c ∷ s) = signed c s
