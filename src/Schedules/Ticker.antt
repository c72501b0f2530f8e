-- ===== src/Schedules/Ticker.antt =====
-- internal/schedules/ticker.go: what a tick does to the store, and the schedules that it fires, each in a goroutine
-- of its own. Log lines and the timer are left out.
pub mod Late
use system_wrangler_backend.Prelude.{
  ℕ, ◌*◌, Bool, true, false, Option, none, some, List, [], ltb, if◌then◌else◌, Bytes,
}
use system_wrangler_backend.Schedules.Cron.Next.{Zone}
use system_wrangler_backend.Schedules.Entry.{Schedule, Result, ok, fail}
use system_wrangler_backend.Schedules.Store.{Db, second, due, reconcile_missed}

abbrev pub default_misfire_grace : ℕ
default_misfire_grace = 120 * second

unfoldable pub positive_or : ℕ → ℕ → ℕ
positive_or g fallback = if ltb 0 g then g else fallback

-- `live` is what `GraceFn` gives, if it is set.
unfoldable pub resolve_grace : Option ℕ → ℕ → ℕ
unfolding positive_or
resolve_grace none misfire_grace = positive_or misfire_grace default_misfire_grace
resolve_grace (some live) misfire_grace =
    positive_or live (positive_or misfire_grace default_misfire_grace)

-- An error of the reconciliation is logged.
unfoldable pub reconciled_or : Db → Result (List Schedule × Db) → Db
reconciled_or db (ok (missed, db')) = db'
reconciled_or db (fail e) = db

unfoldable pub tick : (Bytes → Option Zone) → Option ℕ → ℕ → ℕ → Db → List Schedule × Db
unfolding resolve_grace reconciled_or
tick load_location live misfire_grace now db =
    let db' =
      reconciled_or db (reconcile_missed load_location now (resolve_grace live misfire_grace) db) in
    (due now db', db')
