-- ===== src/Schedules/Cron.antt =====
-- internal/schedules/cron.go: `ParseCron`. Every failure is `ErrInvalidCron`, whose text is dropped.
-- A mask is a function on its indices; the parser tests each index against the length of the array
-- before it writes there.
pub mod Next
pub mod Stamp
pub mod Parsed
pub mod Valid
use system_wrangler_backend.Prelude.{
  ℕ, zero, suc, ◌+◌, ◌-◌, Bool, true, false, ◌&&◌, ◌||◌, not, Option, none, some, List, [], ◌∷◌,
  ltb, leb, if◌then◌else◌, Bytes, codes, bytes_eq, ◌==◌, nat_beq,
}
use system_wrangler_backend.Prelude.Maps.{Map, lookup}
use system_wrangler_backend.Prelude.Maybe.{◌>>=◌, ◌>>◌, require}
use system_wrangler_backend.Prelude.Strings.{
  ℤ, pos, negsuc, trim_space, split, fields, cut_at, to_lower, atoi, max_int,
}

abbrev pub Mask : Type 0
Mask = ℕ → Bool

pub record CronSchedule : Type 0 where
  pub expr : Bytes
  pub minutes : Mask
  pub hours : Mask
  pub doms : Mask
  pub months : Mask
  pub dows : Mask
  pub dom_starred : Bool
  pub dow_starred : Bool

-- `map[string]int`, or nil.
abbrev pub Names : Type 0
Names = Option (Map Bytes ℕ)

abbrev pub month_names : Map Bytes ℕ
month_names =
    (codes "jan", 1)
    ∷ (codes "feb", 2)
    ∷ (codes "mar", 3)
    ∷ (codes "apr", 4)
    ∷ (codes "may", 5)
    ∷ (codes "jun", 6)
    ∷ (codes "jul", 7)
    ∷ (codes "aug", 8)
    ∷ (codes "sep", 9)
    ∷ (codes "oct", 10)
    ∷ (codes "nov", 11)
    ∷ (codes "dec", 12)
    ∷ []

abbrev pub dow_names : Map Bytes ℕ
dow_names =
    (codes "sun", 0)
    ∷ (codes "mon", 1)
    ∷ (codes "tue", 2)
    ∷ (codes "wed", 3)
    ∷ (codes "thu", 4)
    ∷ (codes "fri", 5)
    ∷ (codes "sat", 6)
    ∷ []

pub has_names : Names → Bool
has_names none = false
has_names (some _) = true

pub name_value : Names → Bytes → Option ℕ
name_value none s = none
name_value (some m) s = lookup (to_lower s) m

-- `maxVal == 6 && names != nil && v == 7`
unfoldable pub is_seven : ℕ → Names → ℕ → Bool
unfolding has_names
is_seven max_val names v = nat_beq max_val 6 && has_names names && nat_beq v 7

number_atom : ℕ → ℕ → Names → Option ℤ → Option ℕ
unfolding is_seven
number_atom min_val max_val names none = none
number_atom min_val max_val names (some (negsuc n)) = none
number_atom min_val max_val names (some (pos v)) =
    if is_seven max_val names v
    then some v
    else if ltb v min_val || ltb max_val v
    then none
    else some v

or_number : Option ℕ → Option ℕ → Option ℕ
or_number (some v) n = some v
or_number none n = n

unfoldable pub parse_atom : Bytes → ℕ → ℕ → Names → Option ℕ
unfolding name_value number_atom or_number
parse_atom s min_val max_val names =
    or_number (name_value names (trim_space s))
      (number_atom min_val max_val names (atoi (trim_space s)))

positive : Option ℤ → Option ℕ
positive (some (pos (suc n))) = some (suc n)
positive _ = none

step_of : Bytes → Option (Bytes × Bytes) → Option (ℕ × Bytes)
step_of part none = some (1, part)
step_of part (some (before, after)) = do n ← positive (atoi after); some (n, before)

-- The step, and what stands before the slash.
unfoldable pub parse_step : Bytes → Option (ℕ × Bytes)
unfolding positive step_of
parse_step part = step_of part (cut_at b'/' part)

pub record Range : Type 0 where
  pub star : Bool
  pub lo : ℕ
  pub hi : ℕ

atoms_of : Bytes → ℕ → ℕ → Names → Option (Bytes × Bytes) → Option Range
atoms_of range_part min_val max_val names (some (from, to)) = do
  a ← parse_atom from min_val max_val names
  b ← parse_atom to min_val max_val names
  require (not (ltb b a))
  some (record { star = false; lo = a; hi = b })
atoms_of range_part min_val max_val names none = do
  n ← parse_atom range_part min_val max_val names
  some (record { star = false; lo = n; hi = n })

unfoldable pub parse_range : Bytes → ℕ → ℕ → Names → Option Range
unfolding atoms_of
parse_range range_part min_val max_val names =
    if range_part == b'*' ∷ []
    then some (record { star = true; lo = min_val; hi = max_val })
    else atoms_of range_part min_val max_val names (cut_at b'-' range_part)

-- `mask[idx] = true`
abbrev pub mark : ℕ → Mask → Mask
mark idx mask i = nat_beq idx i || mask i

-- The stamping loop from `v` on. A sum past the largest int is a negative index in the next round,
-- which is refused there. `hi - lo + 2` rounds are enough.
unfoldable pub stamp : ℕ → ℕ → Names → ℕ → ℕ → ℕ → ℕ → Mask → Option Mask
unfolding is_seven
stamp zero max_val names len v hi step mask = none
stamp (suc f) max_val names len v hi step mask =
    let idx = if is_seven max_val names v then 0 else v in
    let rest = stamp f max_val names len (v + step) hi step (mark idx mask) in
    if ltb hi v
    then some mask
    else if leb len idx
    then none
    else if ltb max_int (v + step)
    then none
    else rest

-- One term of a field, as the loop treats it.
unfoldable pub parse_term : ℕ → ℕ → Names → ℕ → Bytes → Mask × Bool → Option (Mask × Bool)
parse_term min_val max_val names len [] state = none
parse_term min_val max_val names len (c ∷ part) (mask, starred) = do
  (step, range_part) ← parse_step (c ∷ part)
  r ← parse_range range_part min_val max_val names
  mask' ← stamp (r.hi - r.lo + 2) max_val names len r.lo r.hi step mask
  some (mask', starred || r.star)

unfoldable pub parse_terms : ℕ → ℕ → Names → ℕ → List Bytes → Mask × Bool → Option (Mask × Bool)
unfolding parse_term
parse_terms min_val max_val names len [] state = some state
parse_terms min_val max_val names len (part ∷ parts) state = do
  state' ← parse_term min_val max_val names len (trim_space part) state
  parse_terms min_val max_val names len parts state'

abbrev blank : Mask
blank i = false

unfoldable pub parse_field_starred : Bytes → ℕ → ℕ → Names → ℕ → Option (Mask × Bool)
unfolding parse_terms
parse_field_starred expr min_val max_val names len =
    parse_terms min_val max_val names len (split b',' expr) (blank, false)

unfoldable pub parse_field : Bytes → ℕ → ℕ → Names → ℕ → Option Mask
unfolding parse_field_starred
parse_field expr min_val max_val names len = do
  (mask, starred) ← parse_field_starred expr min_val max_val names len
  some mask

unfoldable pub five_fields : Bytes → List Bytes → Option CronSchedule
unfolding parse_field
five_fields expr (minute ∷ hour ∷ dom ∷ month ∷ dow ∷ []) = do
  minutes ← parse_field minute 0 59 none 60
  hours ← parse_field hour 0 23 none 24
  (doms, dom_starred) ← parse_field_starred dom 1 31 none 32
  months ← parse_field month 1 12 (some month_names) 13
  (dows, dow_starred) ← parse_field_starred dow 0 6 (some dow_names) 7
  some (record {
    expr = expr;
    minutes = minutes;
    hours = hours;
    doms = doms;
    months = months;
    dows = dows;
    dom_starred = dom_starred;
    dow_starred = dow_starred;
  })
five_fields expr _ = none

unfoldable pub parse_cron : Bytes → Option CronSchedule
unfolding five_fields
parse_cron expr = five_fields (trim_space expr) (fields (trim_space expr))
