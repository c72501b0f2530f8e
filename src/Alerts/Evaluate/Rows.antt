-- ===== src/Alerts/Evaluate/Rows.antt =====
-- internal/alerts/evaluator.go: a pass over a rule keeps one row for each system.
use system_wrangler_backend.Prelude.{
  ℕ, ◌≡◌, refl, Bool, true, false, Option, none, some, [], ◌∷◌, Bytes, bytes_eq, ◌==◌, Bool-cases,
  inl, inr, if◌then◌else◌,
}
use system_wrangler_backend.Prelude.Maps.{
  Map, lookup, delete, lookup-delete, Distinct, insert-Distinct,
}
use system_wrangler_backend.Alerts.{Instance}
use system_wrangler_backend.Alerts.Evaluate.{
  Call, load, put, delete_row, Pass, breach_loop, resolve_loop, reconcile_rule, has,
}

none_if : {A : Type 0} (b : Bool) (o : Option A) → o ≡ none → (if b then none else o) ≡ none
none_if true o h = refl
none_if false o h = h

delete-Distinct : {V : Type 0} (k : Bytes) (m : Map Bytes V) → Distinct m → Distinct (delete k m)
unfolding delete
delete-Distinct k [] d = tt
delete-Distinct k ((j, v) ∷ rest) (fresh, d) = elim (Bool-cases (j == k)) [
  | inl e ↦ rw e (delete-Distinct k rest d)
  | inr e ↦ rw e (
    rw (lookup-delete k j rest) (none_if (k == j) (lookup j rest) fresh),
    delete-Distinct k rest d,
  )
]

module _ {V : Type 0} (rule_id : Bytes) (for_seconds now : ℕ) (fails : Call → Bool) where
  breach_loop-Distinct :
      (old : Map Bytes (Instance V)) (breaching : Map Bytes V) (done : Pass V)
      → Distinct done.rows
      → Distinct (breach_loop rule_id for_seconds now fails old breaching done).rows
  unfolding breach_loop
  breach_loop-Distinct old [] done d = d
  breach_loop-Distinct old ((sys, v) ∷ rest) done d = elim (Bool-cases (fails (put sys))) [
    | inl e ↦ rw e d
    | inr e ↦ rw e (breach_loop-Distinct old rest _ (insert-Distinct sys _ done.rows d))
  ]

  resolve_loop-Distinct :
      (breaching : Map Bytes V) (rows : Map Bytes (Instance V)) (done : Pass V)
      → Distinct done.rows
      → Distinct (resolve_loop rule_id for_seconds now fails breaching rows done).rows
  unfolding resolve_loop
  resolve_loop-Distinct breaching [] done d = d
  resolve_loop-Distinct breaching ((sys, inst) ∷ rest) done d =
      elim (Bool-cases (has (lookup sys breaching))) [
        | inl e ↦ rw e (resolve_loop-Distinct breaching rest done d)
        | inr e ↦ elim (Bool-cases (fails (delete_row sys))) [
          | inl e' ↦ rw (e, e') d
          | inr e' ↦
              rw (e, e') (resolve_loop-Distinct breaching rest _ (delete-Distinct sys done.rows d))
        ]
      ]

  pub reconcile_rule-Distinct :
      (breaching : Map Bytes V) (rows : Map Bytes (Instance V))
      → Distinct rows
      → Distinct (reconcile_rule rule_id for_seconds now fails (some breaching) rows).rows
  unfolding reconcile_rule
  reconcile_rule-Distinct breaching rows d =
      let start : Pass V = record {
        rows = rows;
        transitions = [];
        changed = false;
        failed = false;
      } in
      let first = breach_loop rule_id for_seconds now fails rows breaching start in
      let d' = breach_loop-Distinct rows breaching start d in
      elim (Bool-cases (fails load)) [
        | inl e ↦ rw e d
        | inr e ↦ elim (Bool-cases first.failed) [
          | inl e' ↦ rw (e, e') d'
          | inr e' ↦ rw (e, e') (resolve_loop-Distinct breaching rows first d')
        ]
      ]
