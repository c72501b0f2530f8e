-- ===== src/Alerts/Once/Lost.antt =====
-- internal/alerts/evaluator.go: what becomes of a transition when a later call of the store fails.
use system_wrangler_backend.Prelude.{
  ℕ, ◌≡◌, refl, ap, ◌∙◌, Bool, true, false, Option, none, some, List, [], ◌∷◌, ◌++◌, All, Bytes,
  bytes_eq, beq_self,
}
use system_wrangler_backend.Prelude.Maps.{
  Map, lookup, insert, lookup-insert, Distinct, insert-Distinct,
}
use system_wrangler_backend.Systems.{System}
use system_wrangler_backend.Alerts.{Floats, Rule, Instance, TransitionKind, firing}
use system_wrangler_backend.Alerts.Breaching.{breaching_systems}
use system_wrangler_backend.Alerts.Evaluate.{Call, load, put, Pass, reconcile_rule, has}
use system_wrangler_backend.Alerts.Evaluate.Reconciled.{news}
use system_wrangler_backend.Alerts.Evaluate.Stopped.{stopped}
use system_wrangler_backend.Alerts.Evaluate.Machine.{
  alert_of, live, announced, next_alert, alert_of-reconcile_rule, news-announced,
}
use system_wrangler_backend.Alerts.Evaluate.Rows.{reconcile_rule-Distinct}
use system_wrangler_backend.Alerts.Once.{
  Rows, rows_or_empty, Gathered, evaluate_rule, gather, evaluate_rules, evaluate_once,
}
use system_wrangler_backend.Alerts.Once.Others.{
  IsApart, failed-Agrees, evaluate_rules-append, others_keep, others-Agrees,
}

-- Passes over one rule without a delay in which the store works, each with its instant and the systems
-- that breach then.
abbrev pub Passes : Type 0 → Type 0
Passes V = List (ℕ × Map Bytes V)

abbrev pub IsBreaching : {V : Type 0} → Bytes → Passes V → Type 0
IsBreaching a passes = All (λ (now, b). Distinct b × (has (lookup a b) ≡ true)) passes

module _ {V : Type 0} (rule_id a : Bytes) where
  pass_over : ℕ → Map Bytes V → Map Bytes (Instance V) → Pass V
  pass_over now breaching rows = reconcile_rule rule_id 0 now (λ _. false) (some breaching) rows

  -- What they say of a system, one after the other.
  unfoldable pub said : Passes V → Map Bytes (Instance V) → List TransitionKind
  unfolding pass_over
  said [] rows = []
  said ((now, breaching) ∷ rest) rows =
      let pass = pass_over now breaching rows in news a pass.transitions ++ said rest pass.rows

  still_live :
      (now : ℕ) (breaching : Map Bytes V) (rows : Map Bytes (Instance V))
      → Distinct breaching
      → has (lookup a breaching) ≡ true
      → alert_of (lookup a rows) ≡ live
      → alert_of (lookup a (pass_over now breaching rows).rows) ≡ live
  unfolding pass_over next_alert
  still_live now breaching rows d h out =
      alert_of-reconcile_rule rule_id 0 now (λ _. false) breaching rows a (λ c. refl) d
      ∙ rw (h, out) refl

  says_nothing :
      (now : ℕ) (breaching : Map Bytes V) (rows : Map Bytes (Instance V))
      → Distinct breaching
      → has (lookup a breaching) ≡ true
      → alert_of (lookup a rows) ≡ live
      → Distinct rows
      → news a (pass_over now breaching rows).transitions ≡ []
  unfolding announced
  says_nothing now breaching rows d h out d' =
      let after = still_live now breaching rows d h out in
      unfold pass_over in
      (news-announced rule_id 0 now (λ _. false) breaching rows a (λ c. refl) d d'
        ∙ rw (out, after) refl)

  pub said_nothing :
      (passes : Passes V) (rows : Map Bytes (Instance V))
      → IsBreaching a passes
      → alert_of (lookup a rows) ≡ live
      → Distinct rows
      → said passes rows ≡ []
  unfolding said
  said_nothing [] rows h out d = refl
  said_nothing ((now, breaching) ∷ rest) rows ((d', h), hs) out d =
      let next = (pass_over now breaching rows).rows in
      let kept : Distinct next =
        unfold pass_over in reconcile_rule-Distinct rule_id 0 now (λ _. false) breaching rows d in
      rw (says_nothing now breaching rows d' h out d)
        (said_nothing rest next hs (still_live now breaching rows d' h out) kept)

-- The row of `a` is live, the sink and the hub get what they get of a tick without the rule, and later
-- passes say nothing of `a`.
abbrev pub IsLost : {V : Type 0} → Bytes → Bytes → Passes V → Gathered V → Gathered V → Type 0
IsLost rule_id a later g without =
    let rows = rows_or_empty (lookup rule_id g.store) in
    (alert_of (lookup a rows) ≡ live)
    × (g.transitions ≡ without.transitions)
    × (g.changed ≡ without.changed)
    × (said rule_id a later rows ≡ [])

live_row :
    {V : Type 0} (a : Bytes) (inst : Instance V) (rows : Map Bytes (Instance V))
    → inst.state ≡ firing
    → alert_of (lookup a (insert a inst rows)) ≡ live
unfolding alert_of
live_row a inst rows e = rw (lookup-insert a a inst rows, beq_self a) (rw e refl)

module _ {V : Type 0} (f : Floats V) (now : ℕ) (resolve : Rule V → Option (List System))
    (querier : Option (Bytes → Option (Map Bytes V))) (fails : Bytes → Call → Bool) where
  stored_rows :
      (r : Rule V) (pass : Pass V) (g : Gathered V) (after : List (Rule V))
      → IsApart r.id after
      → pass.failed ≡ true
      → rows_or_empty
          (lookup r.id (evaluate_rules f now resolve querier fails after (gather r pass g)).store)
        ≡ pass.rows
  unfolding rows_or_empty gather
  stored_rows r pass g after apart failed =
      ap rows_or_empty (others_keep f now resolve querier fails r.id after (gather r pass g) apart)
      ∙ rw (failed, lookup-insert r.id r.id pass.rows g.store, beq_self r.id) refl

  stopped-IsLost :
      (r : Rule V) (pass : Pass V) (g : Gathered V) (after : List (Rule V)) (a : Bytes)
      (inst : Instance V) (rows : Map Bytes (Instance V)) (later : Passes V)
      → IsApart r.id after
      → Distinct rows
      → (inst.state ≡ firing) × (pass.rows ≡ insert a inst rows) × (pass.failed ≡ true)
      → IsBreaching a later
      → IsLost r.id a later
          (evaluate_rules f now resolve querier fails after (gather r pass g))
          (evaluate_rules f now resolve querier fails after g)
  stopped-IsLost r pass g after a inst rows later apart d (e, same, failed) hs =
      let kept = stored_rows r pass g after apart failed ∙ same in
      let (_, transitions, changed) =
        others-Agrees f now resolve querier fails r.id after (gather r pass g) g apart
          (failed-Agrees r.id r pass g refl failed) in
      let out = live_row a inst rows e in
      (
        rw kept out,
        transitions,
        changed,
        rw kept (said_nothing r.id a later _ hs out (insert-Distinct a inst rows d)),
      )

  -- When a rule without a delay has two new breaching systems, and the store takes the row of the first and
  -- fails at that of the second, a tick over that rule and any others leaves the alert of the first live
  -- and gives the sink and the hub exactly what it gives them if the rule is left out; and no sequence of
  -- later passes over the rule in which the store works announces the first while it breaches.
  pub evaluate_once-IsLost :
      (before : List (Rule V)) (r : Rule V) (after : List (Rule V)) (store : Rows V) (a b : Bytes)
      (v w : V) (rest : Map Bytes V) (later : Passes V)
      → IsApart r.id before
      → IsApart r.id after
      → r.for_seconds ≡ 0
      → breaching_systems f querier (resolve r) r ≡ some ((a, v) ∷ (b, w) ∷ rest)
      → lookup a (rows_or_empty (lookup r.id store)) ≡ none
      → Distinct (rows_or_empty (lookup r.id store))
      → fails r.id load ≡ false
      → fails r.id (put a) ≡ false
      → fails r.id (put b) ≡ true
      → IsBreaching a later
      → IsLost r.id a later
          (evaluate_once f now resolve querier fails (some (before ++ r ∷ after)) store)
          (evaluate_once f now resolve querier fails (some (before ++ after)) store)
  unfolding evaluate_once evaluate_rules evaluate_rule
  evaluate_once-IsLost before r after store a b v w rest later first last zero_for breach absent d
        loads puts fails_then hs =
      let g0 : Gathered V = record { store = store; transitions = []; changed = false } in
      let g = evaluate_rules f now resolve querier fails before g0 in
      let rows = rows_or_empty (lookup r.id store) in
      let same = ap rows_or_empty (others_keep f now resolve querier fails r.id before g0 first) in
      let (inst, fires, row, failed) =
        stopped r.id r.for_seconds now (fails r.id) a b v w rest rows zero_for absent loads puts
          fails_then in
      rw
        (
          evaluate_rules-append f now resolve querier fails before (r ∷ after) g0,
          evaluate_rules-append f now resolve querier fails before after g0,
          evaluate_rules,
          same,
          breach,
        )
        (stopped-IsLost r _ g after a inst rows later last d (fires, row, failed) hs)
