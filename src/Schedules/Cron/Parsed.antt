-- ===== src/Schedules/Cron/Parsed.antt =====
-- internal/schedules/cron.go: what a parsed expression holds.
use system_wrangler_backend.Prelude.{
  ℕ, ◌+◌, ◌-◌, ◌≤◌, ◌≡◌, refl, Bool, true, false, not, Option, none, some, List, [], ◌∷◌, arith,
  ltb, Bytes, bytes_eq, ◌==◌, nat_beq, inl, inr, Option-cases, Bool-cases,
}
use native.Mathlib.Nat.{le_refl}
use system_wrangler_backend.Prelude.Maybe.{bind-some, require, require-some}
use system_wrangler_backend.Prelude.Strings.{ℤ, pos, negsuc, split, trim_space, atoi, cut_at}
use system_wrangler_backend.Schedules.Cron.{
  Mask, Names, name_value, is_seven, number_atom, or_number, parse_atom, Range, atoms_of,
  parse_range, stamp, parse_step, parse_term, parse_terms, blank, parse_field_starred,
}
use system_wrangler_backend.Schedules.Cron.Stamp.{Fits, InRange, HasBit, stamp-some, stamp-InRange}

-- The values of a name lie in the field's range, and so does 0 where 7 stands for it.
pub record IsField (min_val max_val : ℕ) (names : Names) : Type 0 where
  pub ordered : min_val ≤ max_val
  pub named : (s : Bytes) (v : ℕ) → name_value names s ≡ some v → (min_val ≤ v) × (v ≤ max_val)
  pub sunday : is_seven max_val names 7 ≡ true → min_val ≡ 0

split-cons : (sep : ℕ) (s : Bytes) → (p : Bytes) × (ps : List Bytes) × (split sep s ≡ p ∷ ps)
unfolding split
split-cons sep [] = ([], [], refl)
split-cons sep (c ∷ s) =
    let (p, ps, e) = split-cons sep s in
    elim (Bool-cases (nat_beq c sep)) [
      | inl h ↦ ([], split sep s, rw h refl)
      | inr h ↦ (c ∷ p, ps, rw (h, e) refl)
    ]

in_order : (a b : ℕ) → not (ltb b a) ≡ true → a ≤ b
in_order a b h = ground arith

module _ (min_val max_val : ℕ) (names : Names) where
  number_atom-Fits :
      (z : Option ℤ) (v : ℕ)
      → number_atom min_val max_val names z ≡ some v
      → (is_seven max_val names 7 ≡ true → min_val ≡ 0)
      → Fits min_val max_val names v
  unfolding number_atom is_seven
  number_atom-Fits none v h s = cc
  number_atom-Fits (some (negsuc n)) v h s = cc
  number_atom-Fits (some (pos n)) v h s = ground arith

  module _ (field : IsField min_val max_val names) where
    parse_atom-Fits :
        (s : Bytes) (v : ℕ)
        → parse_atom s min_val max_val names ≡ some v
        → Fits min_val max_val names v
    unfolding parse_atom or_number
    parse_atom-Fits s v h = elim (Option-cases (name_value names (trim_space s))) [
      | inl e ↦ number_atom-Fits (atoi (trim_space s)) v (ground arith) field.sunday
      | inr (w, e) ↦ named_fits w (field.named (trim_space s) w e) (ground arith)
    ]
      where
        named_fits : (w : ℕ) → (min_val ≤ w) × (w ≤ max_val) → w ≡ v → Fits min_val max_val names v
        named_fits w (a, b) e = (omega arith, inl (omega arith))

    abbrev RangeFits : Range → Type 0
    RangeFits r = (min_val ≤ r.lo) × (r.lo ≤ r.hi) × Fits min_val max_val names r.hi

    starred-Fits :
        (r : Range)
        → some (record { star = true; lo = min_val; hi = max_val }) ≡ some r
        → RangeFits r
    starred-Fits r h =
        let e : record { star = true; lo = min_val; hi = max_val } ≡ r = cc in
        rw (← e) (le_refl min_val, field.ordered, (field.ordered, inl (le_refl max_val)))

    atoms_of-Fits :
        (s : Bytes) (cut : Option (Bytes × Bytes)) (r : Range)
        → atoms_of s min_val max_val names cut ≡ some r
        → RangeFits r
    unfolding atoms_of
    atoms_of-Fits s none r h =
        let (n, e, h₁) = bind-some (parse_atom s min_val max_val names) _ r h in
        let same : record { star = false; lo = n; hi = n } ≡ r = cc (h₁) in
        let fits = parse_atom-Fits s n e in rw (← same) (fits.0, le_refl n, fits)
    atoms_of-Fits s (some (from, to)) r h =
        let (a, e₁, h₁) = bind-some (parse_atom from min_val max_val names) _ r h in
        let (b, e₂, h₂) = bind-some (parse_atom to min_val max_val names) _ r h₁ in
        let (u, e₃, h₃) = bind-some (require (not (ltb b a))) _ r h₂ in
        let same : record { star = false; lo = a; hi = b } ≡ r = cc (h₃) in
        let le : a ≤ b = in_order a b (require-some _ u e₃) in
        rw (← same) ((parse_atom-Fits from a e₁).0, le, parse_atom-Fits to b e₂)

    parse_range-Fits :
        (s : Bytes) (r : Range) → parse_range s min_val max_val names ≡ some r → RangeFits r
    unfolding parse_range
    parse_range-Fits s r h = elim (Bool-cases (s == b'*' ∷ [])) [
      | inl e ↦ starred-Fits r (rw e at h)
      | inr e ↦ atoms_of-Fits s (cut_at b'-' s) r (rw e at h)
    ]

    -- A term keeps the mask in the range, and sets some bit.
    parse_term-HasBit :
        (len : ℕ) (part : Bytes) (mask mask' : Mask) (star star' : Bool)
        → parse_term min_val max_val names len part (mask, star) ≡ some (mask', star')
        → InRange min_val max_val mask
        → InRange min_val max_val mask' × HasBit mask'
    unfolding parse_term
    parse_term-HasBit len [] mask mask' star star' h r = cc
    parse_term-HasBit len (c ∷ part) mask mask' star star' h r =
        let ((step, range_part), e₁, h₁) = bind-some (parse_step (c ∷ part)) _ (mask', star') h in
        let (range, e₂, h₂) =
          bind-some (parse_range range_part min_val max_val names) _ (mask', star') h₁ in
        let (m, e₃, h₃) =
          bind-some (stamp (range.hi - range.lo + 2) max_val names len range.lo range.hi step mask)
            _ (mask', star') h₂ in
        let (lo, le, hi) = parse_range-Fits range_part range e₂ in
        let same : m ≡ mask' = cc (h₃) in
        rw (← same) (
          stamp-InRange max_val names len range.hi step min_val field.sunday hi _ range.lo mask m lo
              e₃ r,
          stamp-some max_val names len range.hi step _ range.lo mask m e₃ le,
        )

    parse_terms-HasBit :
        (len : ℕ) (parts : List Bytes) (mask mask' : Mask) (star star' : Bool)
        → parse_terms min_val max_val names len parts (mask, star) ≡ some (mask', star')
        → InRange min_val max_val mask × HasBit mask
        → InRange min_val max_val mask' × HasBit mask'
    unfolding parse_terms
    parse_terms-HasBit len [] mask mask' star star' h p =
        let same : mask ≡ mask' = cc in rw (← same) p
    parse_terms-HasBit len (part ∷ parts) mask mask' star star' h p =
        let ((m, b), e, h₁) =
          bind-some (parse_term min_val max_val names len (trim_space part) (mask, star)) _ _ h in
        parse_terms-HasBit len parts m mask' b star' h₁
          (parse_term-HasBit len (trim_space part) mask m star b e p.0)

    pub field-HasBit :
        (len : ℕ) (expr : Bytes) (mask : Mask) (star : Bool)
        → parse_field_starred expr min_val max_val names len ≡ some (mask, star)
        → InRange min_val max_val mask × HasBit mask
    unfolding parse_field_starred parse_terms
    field-HasBit len expr mask star h =
        let (p, ps, cut) = split-cons b',' expr in
        let h' = rw cut at h in
        let ((m, b), e, h₁) =
          bind-some (parse_term min_val max_val names len (trim_space p) (blank, false)) _ _ h' in
        parse_terms-HasBit len ps m mask b star h₁
          (parse_term-HasBit len (trim_space p) blank m false b e (λ i set. cc))
