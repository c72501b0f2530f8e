-- ===== src/Schedules/Store/Scheduled/Kept.antt =====
-- internal/schedules/sqlite_store.go: every call keeps the tables in order.
use system_wrangler_backend.Prelude.{
  ℕ, ◌≡◌, ◌-◌, refl, sym, ◌∙◌, subst, Bool, true, false, Option, none, some, List, [], All,
  if◌then◌else◌, Bytes, bytes_eq, ◌==◌, ltb, Bool-cases, inl, inr, false≢true,
}
use system_wrangler_backend.Schedules.Cron.Next.{Zone}
use system_wrangler_backend.Schedules.Entry.{
  RunStatus, Schedule, ScheduleInput, ScheduleRun, not_found, Result, ok, fail, or_err, refuse_if,
  refuse_found, validate,
}
use system_wrangler_backend.Schedules.Entry.Valid.{validate-IsRunnable, bind-ok, or_err-ok, ok_inj}
use system_wrangler_backend.Schedules.Store.{
  Db, first, update_where, has_id, get, next_if, compute_next, create, replaced, update,
  set_enabled, delete, record_run_start, record_run_finish, finish_run, after_run, reconcile_missed,
  runs_before,
}
use system_wrangler_backend.Schedules.Store.Rows.{IsKeyed}
use system_wrangler_backend.Schedules.Store.Reconciled.{
  reconcile_missed-reconciled, reconciled, moved, moved-id,
}
use system_wrangler_backend.Schedules.Store.Due.{runs_before-time}
use system_wrangler_backend.Schedules.Store.Scheduled.{
  IsArmed, IsEntry, IsTable, next_if-IsArmed, Step, created, updated, enabled_set, deleted,
  run_started, run_finished, missed_reconciled, Reachable, new, next,
}
use system_wrangler_backend.Schedules.Store.Scheduled.Tables.{
  map-IsKeyed, map-All, All-first, update-All, update-keeps, append-IsKeyed, append-All,
  keep-IsKeyed, keep-All,
}

module _ (load_location : Bytes → Option Zone) (unmarshal : Bytes → Option (List Bytes)) where
  -- An update of the row that an id finds, which keeps the id and leaves an entry.
  updated-IsTable :
      (id : Bytes) (f : Schedule → Schedule) (runs : List ScheduleRun) (s : Schedule) (db : Db)
      → IsTable load_location db
      → first (has_id id) db.schedules ≡ some s
      → ((x : Schedule) → (f x).id ≡ x.id)
      → IsEntry load_location (f s)
      → IsTable load_location
          (record { schedules = update_where (has_id id) f db.schedules; runs = runs })
  updated-IsTable id f runs s db (k, a) found keeps p = (
    map-IsKeyed _ db.schedules (λ x. update-keeps id f x keeps) k,
    update-All (IsEntry load_location) id f db.schedules s k found a p,
  )

  get-first :
      (id : Bytes) (db : Db) (s : Schedule)
      → get id db ≡ ok s
      → first (has_id id) db.schedules ≡ some s
  unfolding get
  get-first id db s h = or_err-ok not_found _ s h

  set_enabled-IsTable :
      (id : Bytes) (enabled : Bool) (now : ℕ) (db db' : Db)
      → IsTable load_location db
      → set_enabled load_location id enabled now db ≡ ok db'
      → IsTable load_location db'
  unfolding set_enabled
  set_enabled-IsTable id enabled now db db' t h =
      let (s, e, h1) = bind-ok (get id db) _ db' h in
      let (up, e', h2) =
        bind-ok (next_if load_location enabled s.cron_expr s.timezone now) _ db' h1 in
      let found = get-first id db s e in
      let (run, _) = (All-first (IsEntry load_location) id db.schedules s found t.1).0 in
      subst (IsTable load_location) (ok_inj _ _ h2) (
        updated-IsTable id _ db.runs s db t found (λ x. refl)
          (run, next_if-IsArmed load_location enabled s.cron_expr s.timezone now up e'))

  update-IsTable :
      (id : Bytes) (given : ScheduleInput) (now : ℕ) (db db' : Db)
      → IsTable load_location db
      → update load_location unmarshal id given now db ≡ ok db'
      → IsTable load_location db'
  unfolding update replaced
  update-IsTable id given now db db' t h =
      let (i, e, h1) = bind-ok (validate unmarshal load_location given) _ db' h in
      let (up, e', h2) =
        bind-ok (next_if load_location i.enabled i.cron_expr i.timezone now) _ db' h1 in
      let (s, e'', h3) = bind-ok (get id db) _ db' h2 in
      subst (IsTable load_location) (ok_inj _ _ h3) (
        updated-IsTable id (replaced load_location unmarshal i up now) db.runs s db t
          (get-first id db s e'') (λ x. refl)
          (
            validate-IsRunnable load_location unmarshal given i e,
            next_if-IsArmed load_location i.enabled i.cron_expr i.timezone now up e',
          ))

  record_run_finish-IsTable :
      (run_id : Bytes) (status : RunStatus) (attempted succeeded failed now : ℕ) (db db' : Db)
      → IsTable load_location db
      → record_run_finish load_location run_id status attempted succeeded failed now db ≡ ok db'
      → IsTable load_location db'
  unfolding record_run_finish finish_run after_run
  record_run_finish-IsTable run_id status attempted succeeded failed now db db' t h =
      let (run, e, h1) = bind-ok (or_err not_found (first (λ r. r.id == run_id) db.runs)) _ db' h in
      let (s, e', h2) =
        bind-ok (or_err not_found (first (has_id run.schedule_id) db.schedules)) _ db' h1 in
      let (up, e'', h3) =
        bind-ok (next_if load_location s.enabled s.cron_expr s.timezone now) _ db' h2 in
      let found = or_err-ok not_found _ s e' in
      let (runnable, _) =
        (All-first (IsEntry load_location) run.schedule_id db.schedules s found t.1).0 in
      subst (IsTable load_location) (ok_inj _ _ h3) (
        updated-IsTable run.schedule_id _
          (update_where (λ r. r.id == run_id) (finish_run status now attempted succeeded failed)
            db.runs)
          s db t found (λ x. refl)
          (runnable, next_if-IsArmed load_location s.enabled s.cron_expr s.timezone now up e''))

  set_if :
      (enabled : Bool) (n : ℕ) → IsArmed load_location enabled (if enabled then some n else none)
  set_if true n = ((λ _. (n, refl)), (λ off. absurd (false≢true (sym off))))
  set_if false n = ((λ on. absurd (false≢true on)), (λ _. refl))

  refuse_found-none : (o : Option Schedule) → refuse_found o ≡ ok tt → o ≡ none
  refuse_found-none none h = refl
  refuse_found-none (some x) h = cc

  create-IsTable :
      (new_id by : Bytes) (given : ScheduleInput) (now : ℕ) (sch : Schedule) (db db' : Db)
      → IsTable load_location db
      → create load_location unmarshal new_id given by now db ≡ ok (sch, db')
      → IsTable load_location db'
  unfolding create
  create-IsTable new_id by given now sch db db' (k, a) h =
      let (i, e, h1) = bind-ok (validate unmarshal load_location given) _ (sch, db') h in
      let (_, _, h2) = bind-ok (refuse_if (by == [])) _ (sch, db') h1 in
      let (n, _, h3) =
        bind-ok (compute_next load_location i.cron_expr i.timezone now) _ (sch, db') h2 in
      let (_, unused, h4) =
        bind-ok (refuse_found (first (has_id new_id) db.schedules)) _ (sch, db') h3 in
      let fresh = refuse_found-none (first (has_id new_id) db.schedules) unused in
      subst (λ m. IsTable load_location m.1) (ok_inj _ _ h4)
        (
          append-IsKeyed db.schedules _ fresh k,
          append-All (IsEntry load_location) db.schedules _ a
              (validate-IsRunnable load_location unmarshal given i e, set_if i.enabled n),
        )

  delete-IsTable :
      (id : Bytes) (db db' : Db)
      → IsTable load_location db
      → delete id db ≡ ok db'
      → IsTable load_location db'
  unfolding delete
  delete-IsTable id db db' (k, a) h =
      let (_, _, h1) = bind-ok (get id db) _ db' h in
      subst (IsTable load_location) (ok_inj _ _ h1)
        (keep-IsKeyed _ db.schedules k, keep-All (IsEntry load_location) _ db.schedules a)

  moved-IsEntry :
      (r : Result ℕ) (s : Schedule)
      → s.enabled ≡ true
      → IsEntry load_location s
      → IsEntry load_location (moved r s)
  unfolding moved
  moved-IsEntry (ok n) s on (run, _) =
      (run, ((λ _. (n, refl)), (λ off. absurd (false≢true (sym off ∙ on)))))
  moved-IsEntry (fail e) s on h = h

  reconciled-IsEntry :
      (now cutoff : ℕ) (s : Schedule)
      → IsEntry load_location s
      → IsEntry load_location (reconciled load_location now cutoff s)
  unfolding reconciled
  reconciled-IsEntry now cutoff s h = elim (Bool-cases (runs_before (λ n. ltb n cutoff) s)) [
    | inl e ↦
        let (_, _, _, on) = runs_before-time _ s e in
        rw e (moved-IsEntry (compute_next load_location s.cron_expr s.timezone now) s on h)
    | inr e ↦ rw e h
  ]

  reconciled-id :
      (now cutoff : ℕ) (s : Schedule) → (reconciled load_location now cutoff s).id ≡ s.id
  unfolding reconciled
  reconciled-id now cutoff s = elim (Bool-cases (runs_before (λ n. ltb n cutoff) s)) [
    | inl e ↦ rw e (moved-id (compute_next load_location s.cron_expr s.timezone now) s)
    | inr e ↦ rw e refl
  ]

  reconcile_missed-IsTable :
      (now grace : ℕ) (missed : List Schedule) (db db' : Db)
      → IsTable load_location db
      → reconcile_missed load_location now grace db ≡ ok (missed, db')
      → IsTable load_location db'
  reconcile_missed-IsTable now grace missed db db' (k, a) h =
      let (_, rows) = reconcile_missed-reconciled load_location now grace db k missed db' h in
      subst (λ xs. IsKeyed xs × All (IsEntry load_location) xs) (sym rows)
        (
          map-IsKeyed _ db.schedules (reconciled-id now (now - grace)) k,
          map-All (IsEntry load_location) _ db.schedules (reconciled-IsEntry now (now - grace)) a,
        )

  Step-IsTable :
      (db db' : Db)
      → IsTable load_location db
      → Step load_location unmarshal db db'
      → IsTable load_location db'
  unfolding record_run_start
  Step-IsTable _ _ t (created new_id by given now sch db db' h) =
      create-IsTable new_id by given now sch db db' t h
  Step-IsTable _ _ t (updated id given now db db' h) = update-IsTable id given now db db' t h
  Step-IsTable _ _ t (enabled_set id enabled now db db' h) =
      set_enabled-IsTable id enabled now db db' t h
  Step-IsTable _ _ t (deleted id db db' h) = delete-IsTable id db db' t h
  Step-IsTable _ _ t (run_started new_id id now db) = t
  Step-IsTable _ _ t (run_finished run_id status attempted succeeded failed now db db' h) =
      record_run_finish-IsTable run_id status attempted succeeded failed now db db' t h
  Step-IsTable _ _ t (missed_reconciled now grace missed db db' h) =
      reconcile_missed-IsTable now grace missed db db' t h

  -- After any calls of the store, ids are unique, and each schedule has a cron expression that is read, a
  -- time zone that can be loaded, checks or applies, reboots only where it applies, and has a next time
  -- exactly while it is enabled.
  pub Reachable-IsTable :
      (db : Db) → Reachable load_location unmarshal db → IsTable load_location db
  Reachable-IsTable _ new = (tt, tt)
  Reachable-IsTable _ (next db0 db h s) = Step-IsTable db0 db (Reachable-IsTable db0 h) s
