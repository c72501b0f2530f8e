-- ===== src/Schedules/Fire/Finished.antt =====
-- internal/schedules/orchestrator.go: the status of a run, and the tables behind `Fire`.
use system_wrangler_backend.Prelude.{
  ℕ, ◌≡◌, ◌≢◌, ◌↔◌, ◌+◌, ◌<◌, refl, sym, ap, ◌∙◌, Bool, true, false, Option, none, some, List, [],
  ◌∷◌, length, All, arith, Bytes, bytes_eq, ◌==◌, inl, inr, Bool-cases, false≢true,
}
use system_wrangler_backend.Systems.{System}
use system_wrangler_backend.Targeting.{Outcome}
use system_wrangler_backend.Schedules.Cron.Next.{Zone}
use system_wrangler_backend.Schedules.Entry.{
  RunStatus, running, success, failed, Schedule, ScheduleRun, ok,
}
use system_wrangler_backend.Schedules.Store.{
  Db, first, has_id, record_run_start, record_run_finish, finish_run, after_run, next_if,
}
use system_wrangler_backend.Schedules.Store.Finished.{
  record_run_start-first, record_run_finish-recorded,
}
use system_wrangler_backend.Schedules.Fanout.{World}
use system_wrangler_backend.Schedules.Fire.{
  final_status, host, tally, or_kept, finish, fire_on, fire,
}

not_suc : (n : ℕ) → n + 1 ≡ 0 → ⊥
not_suc n h = ground arith

success_counts : (n s f : ℕ) → s + f ≡ n → (final_status n s f ≡ success) ↔ (f ≡ 0)
unfolding final_status
success_counts n s f h = ground arith

failed_counts : (n s f : ℕ) → s + f ≡ n → (final_status n s f ≡ failed) ↔ ((0 < n) × (s ≡ 0))
unfolding final_status
failed_counts n s f h = ground arith

not_running : (n s f : ℕ) → final_status n s f ≢ running
unfolding final_status
not_running n s f h = ground arith

module _ (w : World) (sch : Schedule) (can_reboot : Bool) where
  abbrev pub OkHost : System → Type 0
  OkHost s = (host w sch can_reboot s.id).0 ≡ true

  abbrev pub BadHost : System → Type 0
  BadHost s = (host w sch can_reboot s.id).0 ≡ false

  pub tally-length :
      (xs : List System) → (tally w sch can_reboot xs).0 + (tally w sch can_reboot xs).1 ≡ length xs
  unfolding tally
  tally-length [] = refl
  tally-length (s ∷ rest) = elim (Bool-cases (host w sch can_reboot s.id).0) [
    | inl e ↦ rw e (omega (arith, tally-length rest))
    | inr e ↦ rw e (omega (arith, tally-length rest))
  ]

  tally-ok : (xs : List System) → ((tally w sch can_reboot xs).1 ≡ 0) ↔ All OkHost xs
  unfolding tally
  tally-ok [] = ((λ _. tt), (λ _. refl))
  tally-ok (s ∷ rest) = elim (Bool-cases (host w sch can_reboot s.id).0) [
    | inl e ↦ rw e ((λ h. (refl, (tally-ok rest).0 h)), (λ (_, h). (tally-ok rest).1 h))
    | inr e ↦ rw e ((λ h. absurd (not_suc _ h)), (λ (bad, h). absurd (false≢true bad)))
  ]

  tally-bad : (xs : List System) → ((tally w sch can_reboot xs).0 ≡ 0) ↔ All BadHost xs
  unfolding tally
  tally-bad [] = ((λ _. tt), (λ _. refl))
  tally-bad (s ∷ rest) = elim (Bool-cases (host w sch can_reboot s.id).0) [
    | inl e ↦ rw e ((λ h. absurd (not_suc _ h)), (λ (good, h). absurd (false≢true (sym good))))
    | inr e ↦ rw e ((λ h. (refl, (tally-bad rest).0 h)), (λ (_, h). (tally-bad rest).1 h))
  ]

  -- The status that the counts of the systems give is success exactly where the work on every system went
  -- well, and failed exactly where there are systems and it went well on none; it is never running.
  pub final_status-tally :
      (xs : List System)
      → let status =
          final_status (length xs) (tally w sch can_reboot xs).0 (tally w sch can_reboot xs).1 in
        ((status ≡ success) ↔ All OkHost xs)
        × ((status ≡ failed) ↔ ((0 < length xs) × All BadHost xs))
        × (status ≢ running)
  final_status-tally xs =
      let sum = tally-length xs in
      let (a, b) = success_counts (length xs) _ _ sum in
      let (c, d) = failed_counts (length xs) _ _ sum in
      (
        ((λ h. (tally-ok xs).0 (a h)), (λ h. b ((tally-ok xs).1 h))),
        ((λ h. ((c h).0, (tally-bad xs).0 (c h).1)), (λ (more, h). d (more, (tally-bad xs).1 h))),
        not_running (length xs) _ _,
      )

finish-ok :
    (load_location : Bytes → Option Zone) (w : World) (can_reboot : Bool) (run_id : Bytes)
    (status : RunStatus) (attempted succeeded failures now : ℕ) (db db' : Db)
    → record_run_finish load_location run_id status attempted succeeded failures now db ≡ ok db'
    → finish load_location w can_reboot run_id status attempted succeeded failures now db ≡ db'
unfolding finish or_kept
finish-ok load_location w can_reboot run_id status attempted succeeded failures now db db' h =
    ap (or_kept db) h

module _ (load_location : Bytes → Option Zone) (w : World) (sch : Schedule) (can_reboot : Bool)
    (new_id : Bytes) (xs : List System) (start end : ℕ) (meanwhile : Db → Db) (db : Db)
    (parent : Schedule) (upcoming : Option ℕ) where
  abbrev pub begun : Db
  begun = (record_run_start new_id sch.id start db).1

  abbrev status : RunStatus
  status = final_status (length xs) (tally w sch can_reboot xs).0 (tally w sch can_reboot xs).1

  abbrev pub last_run : ScheduleRun
  last_run = record {
    id = new_id;
    schedule_id = sch.id;
    started_at = start;
    finished_at = some end;
    status = status;
    targets_attempted = length xs;
    targets_succeeded = (tally w sch can_reboot xs).0;
    targets_failed = (tally w sch can_reboot xs).1;
  }

  -- Where no other fire of the schedule is on its way, the id of the run is new, and whatever the other
  -- callers of the store do meanwhile, the row of the run is left alone, the schedule is still there and
  -- its next time can be computed, a fire on systems that are resolved ends, and leaves the run finished
  -- with its counts and their status, and the schedule as the others left it but for that status, the end
  -- of the run as its last time, and the next time.
  pub fire-last_run :
      first (λ r. r.id == new_id) db.runs ≡ none
      → first (λ r. r.id == new_id) (meanwhile begun).runs ≡ first (λ r. r.id == new_id) begun.runs
      → first (has_id sch.id) (meanwhile begun).schedules ≡ some parent
      → next_if load_location parent.enabled parent.cron_expr parent.timezone end ≡ ok upcoming
      → (db' : Db) × (fire load_location w can_reboot false sch new_id
            (Outcome.ok xs)
            start
            end
            meanwhile
            db
          ≡ some db')
        × (first (λ r. r.id == new_id) db'.runs ≡ some last_run)
        × (first (has_id sch.id) db'.schedules
            ≡ some (record parent {
              last_run_at = some end;
              last_status = some status;
              next_run_at = upcoming;
            }))
  unfolding fire fire_on record_run_start finish_run after_run
  fire-last_run fresh alone there computed =
      let (run, _) = record_run_start new_id sch.id start db in
      let (db', e, r, s) =
        record_run_finish-recorded load_location new_id status (length xs)
          (tally w sch can_reboot xs).0 (tally w sch can_reboot xs).1 end (meanwhile begun) run
          parent upcoming (alone ∙ record_run_start-first new_id sch.id start db fresh) there
          computed in
      (
        db',
        ap some (
            finish-ok load_location w can_reboot new_id status (length xs)
              (tally w sch can_reboot xs).0 (tally w sch can_reboot xs).1 end (meanwhile begun) db'
              e),
        r,
        s,
      )
