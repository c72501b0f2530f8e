-- ===== src/Schedules/Store/Finished.antt =====
-- internal/schedules/sqlite_store.go: the rows that the start and the end of a run leave.
use system_wrangler_backend.Prelude.{
  ℕ, ◌≡◌, refl, sym, Bool, true, Option, none, some, List, [], ◌∷◌, ◌++◌, arith, Bytes, bytes_eq,
  ◌==◌, inl, inr, Bool-cases, beq_self,
}
use system_wrangler_backend.Prelude.Maybe.{none_not_some}
use system_wrangler_backend.Schedules.Cron.Next.{Zone}
use system_wrangler_backend.Schedules.Entry.{RunStatus, Schedule, ScheduleRun, ok}
use system_wrangler_backend.Schedules.Store.{
  Db, first, update_where, has_id, record_run_start, record_run_finish, finish_run, after_run,
  next_if,
}

first-append :
    {A : Type 0} (p : A → Bool) (xs : List A) (x : A)
    → first p xs ≡ none
    → p x ≡ true
    → first p (xs ++ x ∷ []) ≡ some x
unfolding first
first-append p [] x h e = rw e refl
first-append p (y ∷ ys) x h e = elim (Bool-cases (p y)) [
  | inl t ↦ absurd (none_not_some (sym (rw t at h)))
  | inr t ↦ rw t (first-append p ys x (rw t at h) e)
]

pub first-update :
    {A : Type 0} (p : A → Bool) (f : A → A) (xs : List A) (x : A)
    → first p xs ≡ some x
    → p (f x) ≡ true
    → first p (update_where p f xs) ≡ some (f x)
unfolding first
first-update p f [] x h e = absurd (none_not_some h)
first-update p f (y ∷ ys) x h e = elim (Bool-cases (p y)) [
  | inl t ↦
      let same : y ≡ x = ground (arith, h, t) in
      let px : p x ≡ true = rw (← same) t in rw (same, px, e) refl
  | inr t ↦ rw (t, t) (first-update p f ys x (rw t at h) e)
]

pub record_run_start-first :
    (new_id id : Bytes) (now : ℕ) (db : Db)
    → first (λ r. r.id == new_id) db.runs ≡ none
    → first (λ r. r.id == new_id) (record_run_start new_id id now db).1.runs
      ≡ some (record_run_start new_id id now db).0
unfolding record_run_start
record_run_start-first new_id id now db h = first-append _ db.runs _ h (beq_self new_id)

first-holds : {A : Type 0} (p : A → Bool) (xs : List A) (x : A) → first p xs ≡ some x → p x ≡ true
unfolding first
first-holds p [] x h = absurd (none_not_some h)
first-holds p (y ∷ ys) x h = elim (Bool-cases (p y)) [
  | inl t ↦ let same : y ≡ x = ground (arith, h, t) in rw (← same) t
  | inr t ↦ first-holds p ys x (rw t at h)
]

module _ (load_location : Bytes → Option Zone) where
  pub record_run_finish-recorded :
      (run_id : Bytes) (status : RunStatus) (attempted succeeded failed now : ℕ) (db : Db)
      (run : ScheduleRun) (parent : Schedule) (upcoming : Option ℕ)
      → first (λ r. r.id == run_id) db.runs ≡ some run
      → first (has_id run.schedule_id) db.schedules ≡ some parent
      → next_if load_location parent.enabled parent.cron_expr parent.timezone now ≡ ok upcoming
      → (db' : Db) × (record_run_finish load_location run_id status attempted succeeded failed now
            db
          ≡ ok db')
        × (first (λ r. r.id == run_id) db'.runs
            ≡ some (finish_run status now attempted succeeded failed run))
        × (first (has_id run.schedule_id) db'.schedules
            ≡ some (after_run status now upcoming parent))
  unfolding record_run_finish finish_run after_run
  record_run_finish-recorded run_id status attempted succeeded failed now db run parent upcoming
        there at computed =
      (
        (record {
          runs =
              update_where (λ r. r.id == run_id) (finish_run status now attempted succeeded failed)
                db.runs;
          schedules =
              update_where (has_id run.schedule_id) (after_run status now upcoming) db.schedules;
        }),
        rw (there, at, computed) refl,
        first-update (λ r. r.id == run_id) (finish_run status now attempted succeeded failed)
            db.runs run there (first-holds (λ r. r.id == run_id) db.runs run there),
        first-update (has_id run.schedule_id) (after_run status now upcoming) db.schedules parent at
            (first-holds (has_id run.schedule_id) db.schedules parent at),
      )
