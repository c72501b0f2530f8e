-- ===== src/Schedules/Cron/Stamp.antt =====
-- internal/schedules/cron.go: the stamping loop of a term.
use system_wrangler_backend.Prelude.{
  ℕ, zero, suc, ◌+◌, ◌*◌, ◌≤◌, ◌<◌, ◌≡◌, ◌⊎◌, ◌↔◌, true, some, arith, if◌then◌else◌, inl, inr,
  lt→ltb,
}
use native.Mathlib.Decide.{dec_lt}
use system_wrangler_backend.Schedules.Cron.{Mask, Names, is_seven, mark, stamp}

-- A value that a term may begin or end with.
abbrev pub Fits : ℕ → ℕ → Names → ℕ → Type 0
Fits min_val max_val names v = (min_val ≤ v) × ((v ≤ max_val) ⊎ (is_seven max_val names v ≡ true))

-- Every bit of the mask lies in the range.
abbrev pub InRange : ℕ → ℕ → Mask → Type 0
InRange min_val max_val mask = (i : ℕ) → mask i ≡ true → (min_val ≤ i) × (i ≤ max_val)

abbrev pub HasBit : Mask → Type 0
HasBit mask = (i : ℕ) × (mask i ≡ true)

abbrev pub index_at : ℕ → Names → ℕ → ℕ
index_at max_val names v = if is_seven max_val names v then 0 else v

module _ (max_val : ℕ) (names : Names) (len hi step : ℕ) where
  stamp-cases :
      (f v : ℕ) (mask mask' : Mask)
      → stamp (suc f) max_val names len v hi step mask ≡ some mask'
      → ((hi < v) × (mask ≡ mask'))
        ⊎ ((v ≤ hi)
            × (stamp f max_val names len (v + step) hi step (mark (index_at max_val names v) mask)
                ≡ some mask'))
  unfolding stamp
  stamp-cases f v mask mask' h = ground arith

  pub stamp-keeps :
      (f v : ℕ) (mask mask' : Mask) (i : ℕ)
      → stamp f max_val names len v hi step mask ≡ some mask'
      → mask i ≡ true
      → mask' i ≡ true
  stamp-keeps zero v mask mask' i h b = unfold stamp in cc
  stamp-keeps (suc f) v mask mask' i h b = elim (stamp-cases f v mask mask' h) [
    | inl (_, e) ↦ rw (← e) b
    | inr (_, e) ↦ stamp-keeps f (v + step) _ mask' i e (ground arith)
  ]

  pub stamp-some :
      (f v : ℕ) (mask mask' : Mask)
      → stamp f max_val names len v hi step mask ≡ some mask'
      → v ≤ hi
      → HasBit mask'
  stamp-some zero v mask mask' h le = unfold stamp in cc
  stamp-some (suc f) v mask mask' h le = elim (stamp-cases f v mask mask' h) [
    | inl (lt, e) ↦ absurd (omega arith)
    | inr (_, e) ↦ (index_at max_val names v, stamp-keeps f (v + step) _ mask' _ e (ground arith))
  ]

  mark-InRange :
      (min_val : ℕ)
      → (is_seven max_val names 7 ≡ true → min_val ≡ 0)
      → Fits min_val max_val names hi
      → (v : ℕ) (mask : Mask) → min_val ≤ v
      → v ≤ hi
      → InRange min_val max_val mask
      → InRange min_val max_val (mark (index_at max_val names v) mask)
  unfolding is_seven
  mark-InRange min_val sunday fits v mask from to r i b = ground (arith, r i)

  pub stamp-InRange :
      (min_val : ℕ)
      → (is_seven max_val names 7 ≡ true → min_val ≡ 0)
      → Fits min_val max_val names hi
      → (f v : ℕ) (mask mask' : Mask) → min_val ≤ v
      → stamp f max_val names len v hi step mask ≡ some mask'
      → InRange min_val max_val mask
      → InRange min_val max_val mask'
  stamp-InRange min_val sunday fits zero v mask mask' le h r = unfold stamp in cc
  stamp-InRange min_val sunday fits (suc f) v mask mask' le h r =
      elim (stamp-cases f v mask mask' h) [
        | inl (_, e) ↦ rw (← e) r
        | inr (to, e) ↦
            stamp-InRange min_val sunday fits f (v + step) _ mask' (omega arith) e
              (mark-InRange min_val sunday fits v mask le to r)
      ]

  -- What the loop stamps from `v` on: every `step`-th value up to `hi`.
  abbrev pub Stamped : ℕ → ℕ → Type 0
  Stamped v i = (k : ℕ) × (v + k * step ≤ hi) × (index_at max_val names (v + k * step) ≡ i)

  later-Stamped : (v i : ℕ) → Stamped (v + step) i → Stamped v i
  later-Stamped v i (k, le, e) =
      let same : v + step + k * step ≡ v + suc k * step = omega arith in
      (suc k, rw (← same) le, rw (← same) e)

  split-Stamped : (v i : ℕ) → Stamped v i → (index_at max_val names v ≡ i) ⊎ Stamped (v + step) i
  split-Stamped v i (zero, le, e) =
      let same : v + zero * step ≡ v = omega arith in inl (rw same at e)
  split-Stamped v i (suc k, le, e) =
      let same : v + suc k * step ≡ v + step + k * step = omega arith in
      inr (k, rw same at le, rw same at e)

  mark-cases : (a i : ℕ) (mask : Mask) → mark a mask i ≡ true → (mask i ≡ true) ⊎ (a ≡ i)
  mark-cases a i mask h = ground arith

  now_or_before :
      (v i : ℕ) (mask : Mask)
      → v ≤ hi
      → (mask i ≡ true) ⊎ (index_at max_val names v ≡ i)
      → (mask i ≡ true) ⊎ Stamped v i
  now_or_before v i mask le (inl b) = inl b
  now_or_before v i mask le (inr e) =
      let same : v ≡ v + 0 * step = omega arith in inr (0, rw (← same) le, rw (← same) e)

  pub stamp_iff :
      (f v : ℕ) (mask mask' : Mask) (i : ℕ)
      → stamp f max_val names len v hi step mask ≡ some mask'
      → (mask' i ≡ true) ↔ ((mask i ≡ true) ⊎ Stamped v i)
  stamp_iff zero v mask mask' i h = unfold stamp in cc
  stamp_iff (suc f) v mask mask' i h = elim (stamp-cases f v mask mask' h) [
    | inl (lt, e) ↦
        rw (← e) (λ b. inl b, λ c. elim c [ inl b ↦ b | inr (k, le, _) ↦ absurd (omega arith) ])
    | inr (le, e) ↦
        let ih = stamp_iff f (v + step) _ mask' i e in
        (
          λ b. elim (ih.0 b) [
            | inl marked ↦
                now_or_before v i mask le (mark-cases (index_at max_val names v) i mask marked)
            | inr later ↦ inr (later-Stamped v i later)
          ],
          λ c. ih.1 (elim c [
            | inl b ↦ inl (ground arith)
            | inr now ↦ elim (split-Stamped v i now) [
              | inl same ↦ inl (ground arith)
              | inr later ↦ inr later
            ]
          ]),
        )
  ]

  -- More rounds than `hi - v + 1` change nothing.
  pub stamp-enough :
      (f g v : ℕ) (mask : Mask)
      → 1 ≤ step
      → (1 ≤ f) × (hi + 2 ≤ v + f)
      → (1 ≤ g) × (hi + 2 ≤ v + g)
      → stamp f max_val names len v hi step mask ≡ stamp g max_val names len v hi step mask
  unfolding stamp
  stamp-enough zero g v mask s e e' = absurd (omega arith)
  stamp-enough (suc f) zero v mask s e e' = absurd (omega arith)
  stamp-enough (suc f) (suc g) v mask s e e' = elim (dec_lt hi v) [
    | yes h ↦ rw (lt→ltb _ _ h)
    | no h ↦ ground (
      arith,
      stamp-enough f g (v + step) (mark (index_at max_val names v) mask) s (omega arith)
          (omega arith),
    )
  ]
