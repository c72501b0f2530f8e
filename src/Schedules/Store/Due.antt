-- ===== src/Schedules/Store/Due.antt =====
-- internal/schedules/sqlite_store.go: what is due behind `ReconcileMissed`, as in `tick` of ticker.go.
use system_wrangler_backend.Prelude.{
  ℕ, ◌≡◌, ◌≤◌, ◌<◌, ◌-◌, ◌⊎◌, ◌↔◌, refl, sym, ap, ◌∙◌, Bool, true, false, ◌&&◌, Option, some, List,
  [], ◌∷◌, map, arith, keep, ltb, leb, leb→le, subst, In, Bytes, Bool-cases, Option-cases, inl, inr,
  false≢true,
}
use system_wrangler_backend.Schedules.Cron.Next.{Zone}
use system_wrangler_backend.Schedules.Entry.{Schedule, ok}
use system_wrangler_backend.Schedules.Entry.Valid.{bind-ok}
use system_wrangler_backend.Schedules.Store.{
  Db, runs_before, compute_next, due, advance_missed, missed_before, reconcile_missed,
}
use system_wrangler_backend.Schedules.Store.Rows.{
  IsKeyed, In-map, In-keep, keep-In, keep-holds, In-by_next, by_next-In,
}
use system_wrangler_backend.Schedules.Store.Reconciled.{
  moved, reconciled, advance_missed-computes, In-missed, reconcile_missed-reconciled,
}

-- An enabled schedule whose next time is before the cutoff.
abbrev pub IsOverdue : ℕ → Schedule → Type 0
IsOverdue cutoff r = (r.enabled ≡ true) × ((m : ℕ) × (r.next_run_at ≡ some m) × (m < cutoff))

-- An enabled schedule whose next time `n` has come, which is as it was before and not later than the grace
-- allows, or else was overdue and has just got the next time `n` that is computed from now on.
abbrev pub IsDue : (Bytes → Option Zone) → ℕ → ℕ → Db → Schedule → Type 0
IsDue load_location now grace db s =
    (s.enabled ≡ true)
    × ((n : ℕ) × (s.next_run_at ≡ some n)
        × (n ≤ now)
        × ((In s db.schedules × (now - grace ≤ n))
            ⊎ ((r : Schedule) × In r db.schedules
                × IsOverdue (now - grace) r
                × (compute_next load_location r.cron_expr r.timezone now ≡ ok n)
                × (record r { next_run_at = some n } ≡ s))))

pub runs_before-time :
    (before : ℕ → Bool) (s : Schedule)
    → runs_before before s ≡ true
    → (n : ℕ) × (s.next_run_at ≡ some n) × (before n ≡ true) × (s.enabled ≡ true)
unfolding runs_before
runs_before-time before s h = elim (Option-cases s.next_run_at) [
  | inl e ↦ absurd (false≢true (rw e at h))
  | inr (n, e) ↦
      let both : s.enabled && before n ≡ true = rw e at h in
      (n, e, ground (arith, both), ground (arith, both))
]

not_before :
    (before : ℕ → Bool) (s : Schedule) (n : ℕ)
    → runs_before before s ≡ false
    → s.next_run_at ≡ some n
    → s.enabled ≡ true
    → before n ≡ false
unfolding runs_before
not_before before s n h e on =
    let both : s.enabled && before n ≡ false = rw e at h in ground (arith, both)

runs_before-holds :
    (before : ℕ → Bool) (s : Schedule) (n : ℕ) (b : Bool)
    → s.next_run_at ≡ some n
    → s.enabled ≡ true
    → before n ≡ b
    → runs_before before s ≡ b
unfolding runs_before
runs_before-holds before s n b e on h = rw (e, on, h) refl

In-mapped : {A B : Type 0} (f : A → B) (xs : List A) (x : A) → In x xs → In (f x) (map f xs)
In-mapped f (y ∷ ys) x (inl e) = inl (ap f e)
In-mapped f (y ∷ ys) x (inr i) = inr (In-mapped f ys x i)
In-mapped f [] x i = absurd i

overdue :
    (cutoff : ℕ) (r : Schedule) → runs_before (λ n. ltb n cutoff) r ≡ true → IsOverdue cutoff r
overdue cutoff r h =
    let (m, e, before, on) = runs_before-time (λ n. ltb n cutoff) r h in
    (on, (m, e, ground (arith, before)))

module _ (load_location : Bytes → Option Zone) (now grace : ℕ) (db : Db)
    (keyed : IsKeyed db.schedules) (missed : List Schedule) (db' : Db)
    (done : reconcile_missed load_location now grace db ≡ ok (missed, db')) where
  abbrev was_missed : Schedule → Bool
  was_missed r = runs_before (λ n. ltb n (now - grace)) r

  moved_row :
      (r s : Schedule) (n : ℕ)
      → In r db.schedules
      → was_missed r ≡ true
      → reconciled load_location now (now - grace) r ≡ s
      → s.next_run_at ≡ some n
      → (compute_next load_location r.cron_expr r.timezone now ≡ ok n)
        × (record r { next_run_at = some n } ≡ s)
  unfolding reconciled reconcile_missed moved
  moved_row r s n at h e e' =
      let (rows, done', _) =
        bind-ok (advance_missed load_location now (missed_before (now - grace) db) db.schedules) _
          (missed, db') done in
      let (m, c) =
        advance_missed-computes load_location now _ db.schedules rows done' r
          (In-missed load_location now grace db keyed r at h) in
      let same : record r { next_run_at = some m } ≡ s = rw (h, c) at e in
      let times : some m ≡ some n = ap (λ x. x.next_run_at) same ∙ e' in
      let one : m ≡ n = cc in (rw (← one) c, rw (← one) same)

  kept_row :
      (r s : Schedule)
      → was_missed r ≡ false
      → reconciled load_location now (now - grace) r ≡ s
      → r ≡ s
  unfolding reconciled
  kept_row r s h e = rw h at e

  due-IsDue : (s : Schedule) → In s (due now db') → IsDue load_location now grace db s
  unfolding due
  due-IsDue s i =
      let kept = In-by_next (keep (runs_before (λ n. leb n now)) db'.schedules) s i in
      let (n, e, before, on) = runs_before-time _ s (keep-holds _ db'.schedules s kept) in
      let (_, rows) =
        reconcile_missed-reconciled load_location now grace db keyed missed db' done in
      let (r, at, from) =
        In-map (reconciled load_location now (now - grace)) db.schedules s
          (subst (In s) rows (In-keep _ db'.schedules s kept)) in
      elim (Bool-cases (was_missed r)) [
        | inl h ↦
            let (c, same) = moved_row r s n at h from e in
            (on, (n, e, leb→le n now before, inr (r, at, overdue (now - grace) r h, c, same)))
        | inr h ↦
            let same : r ≡ s = kept_row r s h from in
            let in_time = not_before (λ m. ltb m (now - grace)) s n (rw (← same) h) e on in
            let there = subst (λ x. In x db.schedules) same at in
            (on, (n, e, leb→le n now before, inl (there, ground (arith, in_time))))
      ]

  row_due :
      (r s : Schedule) (n : ℕ)
      → In r db.schedules
      → reconciled load_location now (now - grace) r ≡ s
      → s.next_run_at ≡ some n
      → s.enabled ≡ true
      → n ≤ now
      → In s (due now db')
  unfolding due
  row_due r s n at from e on le =
      let (_, rows) =
        reconcile_missed-reconciled load_location now grace db keyed missed db' done in
      let there = In-mapped (reconciled load_location now (now - grace)) db.schedules r at in
      by_next-In _ s (
        keep-In _ db'.schedules s
          (subst (In s) (sym rows) (
            subst (λ x. In x (map (reconciled load_location now (now - grace)) db.schedules)) from
              there))
          (runs_before-holds (λ m. leb m now) s n true e on (ground (arith, le))))

  IsDue-due : (s : Schedule) → IsDue load_location now grace db s → In s (due now db')
  unfolding reconciled moved
  IsDue-due s (on, (n, e, le, inl (at, in_time))) =
      let kept =
        runs_before-holds (λ m. ltb m (now - grace)) s n false e on (ground (arith, in_time)) in
      row_due s s n at (rw kept refl) e on le
  IsDue-due s (on, (n, e, le, inr (r, at, (r_on, (m, e', lt)), c, same))) =
      let was =
        runs_before-holds (λ i. ltb i (now - grace)) r m true e' r_on (ground (arith, lt)) in
      row_due r s n at (rw (was, c) same) e on le

  -- Where ids are unique and the reconciliation gives no error, a row is due behind it exactly if `IsDue`.
  pub due-reconciled : (s : Schedule) → In s (due now db') ↔ IsDue load_location now grace db s
  due-reconciled s = (due-IsDue s, IsDue-due s)
