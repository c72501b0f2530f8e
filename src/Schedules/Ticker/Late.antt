-- ===== src/Schedules/Ticker/Late.antt =====
-- internal/schedules/ticker.go: which schedules a tick fires.
use system_wrangler_backend.Prelude.{
  ℕ, ◌≡◌, ◌<◌, ◌↔◌, sym, ap, subst, Option, none, some, List, In, arith, Bytes,
}
use system_wrangler_backend.Schedules.Cron.Next.{Zone}
use system_wrangler_backend.Schedules.Entry.{Schedule, ok}
use system_wrangler_backend.Schedules.Store.{Db, due, reconcile_missed}
use system_wrangler_backend.Schedules.Store.Rows.{IsKeyed}
use system_wrangler_backend.Schedules.Store.Due.{IsDue, due-reconciled}
use system_wrangler_backend.Schedules.Ticker.{positive_or, resolve_grace, reconciled_or, tick}

grace_positive : (live : Option ℕ) (misfire_grace : ℕ) → 0 < resolve_grace live misfire_grace
unfolding resolve_grace positive_or
grace_positive none misfire_grace = ground arith
grace_positive (some live) misfire_grace = ground arith

module _ (load_location : Bytes → Option Zone) where
  -- Where ids are unique and the reconciliation gives no error, a tick fires exactly the enabled schedules
  -- whose next time is not later than now, and which are either rows of the table as they were whose next
  -- time is not earlier than now less the grace, or were overdue by more than the grace and have got that
  -- next time, computed from now on; the grace is positive whatever the settings are.
  pub tick-late :
      (live : Option ℕ) (misfire_grace now : ℕ) (db db' : Db) (missed : List Schedule)
      → IsKeyed db.schedules
      → reconcile_missed load_location now (resolve_grace live misfire_grace) db ≡ ok (missed, db')
      → (s : Schedule)
      → (In s (tick load_location live misfire_grace now db).0
          ↔ IsDue load_location now (resolve_grace live misfire_grace) db s)
        × (0 < resolve_grace live misfire_grace)
  unfolding tick reconciled_or
  tick-late live misfire_grace now db db' missed keyed done s =
      let same = ap (reconciled_or db) done in
      let here =
        due-reconciled load_location now (resolve_grace live misfire_grace) db keyed missed db' done
          s in
      (
        (
          (λ i. here.0 (subst (λ d. In s (due now d)) same i)),
          (λ h. subst (λ d. In s (due now d)) (sym same) (here.1 h)),
        ),
        grace_positive live misfire_grace,
      )
