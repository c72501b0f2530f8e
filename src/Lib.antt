-- ===== src/Lib.antt =====
-- System Wrangler backend: the core of the server, which keeps an inventory of systems, watches them,
-- updates their packages, and lets users act on them by role.
--
-- The program is one Go server. Package router sends a request through auth and rbac to the handler of
-- a feature; the features share the inventory (internal/systems), the labels and the targets; the
-- goroutines of the schedules, the probe and the alerts run beside the requests. A request, or a
-- schedule that cron finds due, becomes a run of an updater, which waits at the gate for a free slot.
-- The probe changes the status of systems; the alert evaluator reads that status and the metrics of
-- the systems that a rule's target resolves to, and hands transitions to the notifications. Changes ring the
-- hub of the events, which wakes the clients that listen.
--
-- Parts, files and correspondence (Go on the left of each arrow):
-- - Rbac, Rbac/{Permissions, Resolve}: internal/rbac/rbac.go. NewScope -> new_scope, CanReadGroup ->
--   can_read_group, and so on for every predicate. Rbac/Store: internal/rbac/store.go, Grant -> grant,
--   Revoke -> revoke, EnsureGlobalAdminRemains -> ensure_global_admin_remains, over a list of rows.
-- - Labels: internal/labels/label.go, ValidateKey -> validate_key, ValidateValue -> validate_value.
--   Labels/{Tokens, Parse, Match}: internal/labels/selector.go, tokenize -> tokenize, ParseSelector ->
--   parse_selector, Matches -> matches. Reading past the last token is the result `panic`.
-- - Targeting: internal/targeting/targeting.go, ValidateValue -> validate_value, Resolve -> resolve.
-- - Updaters/Gate: internal/updaters/gate.go. The lock makes each call atomic, so a run is a sequence
--   of Acquire, cancellation and Release on a record with the queue; every admission decision reads the
--   limit anew, so a release takes the sequence of limits that its loop reads.
-- - Auth/Throttle: internal/auth/throttle.go, NewThrottle, Check and Record on a map from keys to
--   instants.
-- - Schedules/Cron: internal/schedules/cron.go, ParseCron -> parse_cron, Next -> next, over
--   Schedules/Calendar, the civil calendar that package time documents.
-- - Systems: internal/systems/system.go; Systems/Memory: the MemStore of internal/systems/store.go;
--   Systems/Probe: Tick of internal/systems/probe.go.
-- - Alerts: internal/alerts/alert.go; Alerts/Catalog: internal/alerts/catalog.go; Alerts/{Breaching,
--   Evaluate, Once}: internal/alerts/evaluator.go, breachingSystems -> breaching_systems, evaluateRule
--   -> reconcile_rule and evaluate_rule, EvaluateOnce -> evaluate_once.
-- - Credentials: internal/credentials/credentials.go, Validate -> validate, and resolve.go, Resolve ->
--   resolve, whose loop over the scopes is walk.
-- - Schedules/Entry: internal/schedules/schedule.go, Validate -> validate; Schedules/Store:
--   internal/schedules/sqlite_store.go, Create -> create, ReconcileMissed -> reconcile_missed,
--   RecordRunFinish -> record_run_finish and so on, over two lists of rows; Schedules/Fanout:
--   internal/schedules/fanout.go and reboot.go; Schedules/Fire: internal/schedules/orchestrator.go,
--   Fire -> fire, with the resolver of targets.go; Schedules/Ticker: internal/schedules/ticker.go,
--   tick -> tick.
-- - Notifications/{Modes, Quiet}: internal/notifications/policy.go, ModeFor -> mode_for,
--   InQuietHours -> in_quiet_hours, Validate -> validate; Notifications/Routing: internal/notifications/routing.go;
--   Notifications/Dispatch: internal/notifications/dispatcher.go, Emit -> emit; Notifications/Flush:
--   internal/notifications/flusher.go, FlushPending -> flush_pending. Notifications/Expected and
--   Notifications/Flush/Episode say what a delivery is to be without using that code.
-- - Events: internal/events/hub.go, Subscribe, Unsubscribe, Close and Broadcast -> step.
-- - Prelude: Go's ==, maps (association lists), strings and errors, shared by all.
--
-- Conventions. Texts are lists of bytes or native strings and are ASCII where the code trims or splits
-- them. An error keeps its sentinel and drops its message. Instants are numbers, in nanoseconds or
-- seconds as each file says, so clocks before the epoch are out of scope; Go's int is unbounded here,
-- except that strconv.Atoi refuses what 64 bits do not hold. Goroutines that share a lock are
-- sequences of their critical sections. A time zone is a pair of functions, the wall clock and the
-- instant of a date.
--
-- Parameters, with their documented behaviour as hypotheses where a result needs it: which calls of
-- SQLite and of the alert store fail, what the other stores answer, the JSON decoder, the PromQL
-- querier, the network probe, what other callers make of the schedules while a run is on its way, the
-- runners of updaters and of playbooks, the zone database.
--
-- Fuel. The tokenizer and the parser of selectors are given one round more than there are bytes or
-- tokens, which is enough because each round consumes one. The loop that stamps a cron range is given
-- two rounds more than the two ends differ, and it advances in each. Next is given the 35136 rounds of
-- the source's own bound; where they are spent, it fails as the source does.
--
-- Not modelled: the HTTP handlers, the SQL stores but those of the roles, the schedules and the queue
-- of notifications, the Ansible runs and playbooks, sessions and the ways to sign in, the sealing of
-- secrets, the senders of notifications, exporters, settings and the web client. They are input and output, SQL text or cryptography for the
-- most part.
pub mod Prelude
pub mod Rbac
pub mod Labels
pub mod Updaters
pub mod Auth
pub mod Schedules
pub mod Systems
pub mod Alerts
pub mod Targeting
pub mod Credentials
pub mod Notifications
pub mod Events
