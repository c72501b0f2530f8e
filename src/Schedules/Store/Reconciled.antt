-- ===== src/Schedules/Store/Reconciled.antt =====
-- internal/schedules/sqlite_store.go: the rows behind `ReconcileMissed`, and what is due then.
use system_wrangler_backend.Prelude.{
  ℕ, ◌≡◌, ◌-◌, refl, sym, ap, ◌∙◌, Bool, true, false, Option, some, List, [], ◌∷◌, map, arith, keep,
  ltb, any, In, any-In, In-any, if◌then◌else◌, Bytes, bytes_eq, ◌==◌, Bool-cases, inl, inr,
  beq_self, false≢true,
}
use system_wrangler_backend.Schedules.Cron.Next.{Zone}
use system_wrangler_backend.Schedules.Entry.{Schedule, Result, ok, fail, ◌>>=◌}
use system_wrangler_backend.Schedules.Entry.Valid.{bind-ok}
use system_wrangler_backend.Schedules.Store.{
  Db, update_where, has_id, runs_before, compute_next, advance_missed, missed_before,
  reconcile_missed,
}
use system_wrangler_backend.Schedules.Store.Rows.{
  IsKeyed, same_row, map_cong, keep-In, In-keep, keep-holds, by_next-In, In-by_next,
}

-- A row with the next time that was computed for it.
unfoldable pub moved : Result ℕ → Schedule → Schedule
moved (ok n) s = record s { next_run_at = some n }
moved (fail e) s = s

moved_twice : (r : Result ℕ) (s : Schedule) → moved r (moved r s) ≡ moved r s
unfolding moved
moved_twice (ok n) s = refl
moved_twice (fail e) s = refl

pub moved-id : (r : Result ℕ) (s : Schedule) → (moved r s).id ≡ s.id
unfolding moved
moved-id (ok n) s = refl
moved-id (fail e) s = refl

map-map :
    {A B C : Type 0} (f : A → B) (g : B → C) (xs : List A)
    → map g (map f xs) ≡ map (λ x. g (f x)) xs
map-map f g [] = refl
map-map f g (x ∷ xs) = rw (map-map f g xs) refl

map-same : {A : Type 0} (xs : List A) → xs ≡ map (λ x. x) xs
map-same [] = refl
map-same (x ∷ xs) = rw (← map-same xs) refl

module _ (load_location : Bytes → Option Zone) (now : ℕ) where
  abbrev upcoming : Schedule → Result ℕ
  upcoming s = compute_next load_location s.cron_expr s.timezone now

  -- What is to become of a row: one that was to run before the cutoff gets its next time from now on.
  unfoldable pub reconciled : ℕ → Schedule → Schedule
  reconciled cutoff s = if runs_before (λ n. ltb n cutoff) s then moved (upcoming s) s else s

  touched : List Schedule → Schedule → Schedule
  touched [] s = s
  touched (x ∷ xs) s = touched xs (if s.id == x.id then moved (upcoming x) s else s)

  advance_one :
      (x : Schedule) (xs rows rows' : List Schedule) (r : Result ℕ)
      → upcoming x ≡ r
      → ((some_rows : List Schedule)
          → advance_missed load_location now xs some_rows ≡ ok rows'
          → rows' ≡ map (touched xs) some_rows)
      → (r >>= λ n.
          advance_missed load_location now xs
            (update_where (has_id x.id) (λ s. record s { next_run_at = some n }) rows))
        ≡ ok rows'
      → rows' ≡ map (touched (x ∷ xs)) rows
  unfolding touched moved
  advance_one x xs rows rows' (ok n) e ih h =
      ih _ h ∙ map-map _ (touched xs) rows ∙ rw (touched, e) refl
  advance_one x xs rows rows' (fail err) e ih h = cc

  advance_missed-touched :
      (missed rows rows' : List Schedule)
      → advance_missed load_location now missed rows ≡ ok rows'
      → rows' ≡ map (touched missed) rows
  unfolding advance_missed touched
  advance_missed-touched [] rows rows' h = let same : rows ≡ rows' = cc in sym same ∙ map-same rows
  advance_missed-touched (x ∷ xs) rows rows' h =
      advance_one x xs rows rows' (upcoming x) refl
        (λ some_rows. advance_missed-touched xs some_rows rows') h

  -- Where the only row with its id that is on the list is the row itself.
  abbrev IsAlone : List Schedule → Schedule → Type 0
  IsAlone missed s = (x : Schedule) → In x missed → x.id ≡ s.id → x ≡ s

  touched-moved :
      (missed : List Schedule) (s : Schedule)
      → IsAlone missed s
      → touched missed (moved (upcoming s) s) ≡ moved (upcoming s) s
  unfolding touched moved
  touched-moved [] s h = refl
  touched-moved (x ∷ xs) s h = elim (Bool-cases (s.id == x.id)) [
    | inl e ↦
        let same : x ≡ s = h x (inl refl) (sym ((bytes_eq.test_iff s.id x.id).0 e)) in
        rw (moved-id (upcoming s) s, e, same, moved_twice (upcoming s) s)
          (touched-moved xs s (λ y i. h y (inr i)))
    | inr e ↦ rw (moved-id (upcoming s) s, e) (touched-moved xs s (λ y i. h y (inr i)))
  ]

  touched-any :
      (missed : List Schedule) (s : Schedule)
      → IsAlone missed s
      → touched missed s ≡ (if any (has_id s.id) missed then moved (upcoming s) s else s)
  unfolding touched
  touched-any [] s h = refl
  touched-any (x ∷ xs) s h = elim (Bool-cases (s.id == x.id)) [
    | inl e ↦
        let same : x ≡ s = h x (inl refl) (sym ((bytes_eq.test_iff s.id x.id).0 e)) in
        rw (same, beq_self s.id) (touched-moved xs s (λ y i. h y (inr i)))
    | inr e ↦
        let flipped : (x.id == s.id) ≡ false =
          ground (arith, bytes_eq.test_iff s.id x.id, bytes_eq.test_iff x.id s.id, e) in
        rw (e, flipped) (touched-any xs s (λ y i. h y (inr i)))
  ]

  pub advance_missed-computes :
      (missed rows rows' : List Schedule)
      → advance_missed load_location now missed rows ≡ ok rows'
      → (x : Schedule) → In x missed
      → (n : ℕ) × (upcoming x ≡ ok n)
  unfolding advance_missed
  advance_missed-computes [] rows rows' h x i = absurd i
  advance_missed-computes (y ∷ ys) rows rows' h x (inl same) =
      let (n, e, h') = bind-ok (upcoming y) _ rows' h in (n, rw (← same) e)
  advance_missed-computes (y ∷ ys) rows rows' h x (inr i) =
      let (n, e, h') = bind-ok (upcoming y) _ rows' h in advance_missed-computes ys _ rows' h' x i

module _ (load_location : Bytes → Option Zone) (now grace : ℕ) (db : Db)
    (keyed : IsKeyed db.schedules) where
  abbrev was_missed : Schedule → Bool
  was_missed s = runs_before (λ n. ltb n (now - grace)) s

  missed-In :
      (x : Schedule)
      → In x (missed_before (now - grace) db)
      → In x db.schedules × (was_missed x ≡ true)
  unfolding missed_before
  missed-In x i =
      let kept : In x (keep was_missed db.schedules) = In-by_next _ x i in
      (In-keep was_missed db.schedules x kept, keep-holds was_missed db.schedules x kept)

  pub In-missed :
      (x : Schedule)
      → In x db.schedules
      → was_missed x ≡ true
      → In x (missed_before (now - grace) db)
  unfolding missed_before
  In-missed x i h = by_next-In _ x (keep-In was_missed db.schedules x i h)

  missed-IsAlone :
      (s : Schedule)
      → In s db.schedules
      → IsAlone load_location now (missed_before (now - grace) db) s
  missed-IsAlone s at x i e = same_row db.schedules x s keyed (missed-In x i).0 at e

  any-missed :
      (s : Schedule)
      → In s db.schedules
      → any (has_id s.id) (missed_before (now - grace) db) ≡ was_missed s
  any-missed s at = elim (Bool-cases (was_missed s)) [
    | inl e ↦ rw e (In-any (has_id s.id) _ s (In-missed s at e) (beq_self s.id))
    | inr e ↦ elim (Bool-cases (any (has_id s.id) (missed_before (now - grace) db))) [
      | inl t ↦
          let (x, i, h) = any-In (has_id s.id) _ t in
          let same : x ≡ s = missed-IsAlone s at x i ((bytes_eq.test_iff x.id s.id).0 h) in
          absurd (false≢true (sym e ∙ ap was_missed (sym same) ∙ (missed-In x i).1))
      | inr f ↦ rw (e, f) refl
    ]
  ]

  -- Where ids are unique and the reconciliation gives no error, it keeps the runs, gives each enabled
  -- schedule whose next time was before the cutoff, the grace before now, the next time computed from now
  -- on, and keeps every other schedule as it was.
  pub reconcile_missed-reconciled :
      (missed : List Schedule) (db' : Db)
      → reconcile_missed load_location now grace db ≡ ok (missed, db')
      → (db'.runs ≡ db.runs)
        × (db'.schedules ≡ map (reconciled load_location now (now - grace)) db.schedules)
  unfolding reconcile_missed reconciled
  reconcile_missed-reconciled missed db' h =
      let (rows, e, h') =
        bind-ok (advance_missed load_location now (missed_before (now - grace) db) db.schedules) _
          (missed, db') h in
      let same_rows : rows ≡ db'.schedules = cc in
      let same_runs : db.runs ≡ db'.runs = cc in
      (
        sym same_runs,
        sym same_rows
            ∙ advance_missed-touched load_location now (missed_before (now - grace) db) db.schedules
                rows e
            ∙ map_cong _ _ db.schedules (λ s at.
              touched-any load_location now (missed_before (now - grace) db) s (missed-IsAlone s at)
              ∙ rw (any-missed s at) refl),
      )
