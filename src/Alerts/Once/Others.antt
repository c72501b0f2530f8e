-- ===== src/Alerts/Once/Others.antt =====
-- internal/alerts/evaluator.go: a tick over several rules, seen from one of them.
use system_wrangler_backend.Prelude.{
  ℕ, ◌≡◌, refl, ap, ◌∙◌, Bool, true, false, Option, List, [], ◌∷◌, ◌++◌, All, Bytes, bytes_eq, ◌==◌,
  Bool-cases, inl, inr, arith,
}
use system_wrangler_backend.Prelude.Maps.{Map, lookup, insert, lookup-insert}
use system_wrangler_backend.Systems.{System}
use system_wrangler_backend.Alerts.{Floats, Rule, Instance}
use system_wrangler_backend.Alerts.Evaluate.{Call, Pass}
use system_wrangler_backend.Alerts.Once.{
  Rows, rows_or_empty, Gathered, evaluate_rule, gather, evaluate_rules,
}

-- The rules have other ids.
abbrev pub IsApart : {V : Type 0} → Bytes → List (Rule V) → Type 0
IsApart id rules = All (λ q. (q.id == id) ≡ false) rules

-- The same for every rule but one, and for the sink and the hub.
abbrev pub Agrees : {V : Type 0} → Bytes → Gathered V → Gathered V → Type 0
Agrees id g h =
    ((j : Bytes) → (j == id) ≡ false → lookup j g.store ≡ lookup j h.store)
    × (g.transitions ≡ h.transitions)
    × (g.changed ≡ h.changed)

module _ {V : Type 0} (id : Bytes) where
  stored_agree :
      (k : Bytes) (rows : Map Bytes (Instance V)) (s t : Rows V)
      → ((j : Bytes) → (j == id) ≡ false → lookup j s ≡ lookup j t)
      → (j : Bytes) → (j == id) ≡ false
      → lookup j (insert k rows s) ≡ lookup j (insert k rows t)
  stored_agree k rows s t h j e =
      rw (lookup-insert k j rows s, lookup-insert k j rows t, h j e) refl

  gather-Agrees :
      (q : Rule V) (pass pass' : Pass V) (g h : Gathered V)
      → pass ≡ pass'
      → Agrees id g h
      → Agrees id (gather q pass g) (gather q pass' h)
  unfolding gather
  gather-Agrees q pass pass' g h same (s, t, c) = rw same (elim (Bool-cases pass'.failed) [
    | inl e ↦ rw e (stored_agree q.id pass'.rows g.store h.store s, t, c)
    | inr e ↦ rw e (stored_agree q.id pass'.rows g.store h.store s, rw t refl, rw c refl)
  ])

  -- A failed pass over the rule itself leaves the others, the sink and the hub as they were.
  pub failed-Agrees :
      (r : Rule V) (pass : Pass V) (g : Gathered V)
      → r.id ≡ id
      → pass.failed ≡ true
      → Agrees id (gather r pass g) g
  unfolding gather
  failed-Agrees r pass g same failed = rw failed (
    (λ j e.
        let flipped : (r.id == j) ≡ false =
          ground (arith, bytes_eq.test_iff r.id j, bytes_eq.test_iff j id, same, e) in
        rw (lookup-insert r.id j pass.rows g.store, flipped) refl),
    refl,
    refl,
  )

  kept_row :
      (q : Rule V) (pass : Pass V) (g : Gathered V)
      → (q.id == id) ≡ false
      → lookup id (gather q pass g).store ≡ lookup id g.store
  unfolding gather
  kept_row q pass g apart = elim (Bool-cases pass.failed) [
    | inl e ↦ rw (e, lookup-insert q.id id pass.rows g.store, apart) refl
    | inr e ↦ rw (e, lookup-insert q.id id pass.rows g.store, apart) refl
  ]

module _ {V : Type 0} (f : Floats V) (now : ℕ) (resolve : Rule V → Option (List System))
    (querier : Option (Bytes → Option (Map Bytes V))) (fails : Bytes → Call → Bool) where
  pub evaluate_rules-append :
      (xs ys : List (Rule V)) (g : Gathered V)
      → evaluate_rules f now resolve querier fails (xs ++ ys) g
        ≡ evaluate_rules f now resolve querier fails ys
            (evaluate_rules f now resolve querier fails xs g)
  unfolding evaluate_rules
  evaluate_rules-append [] ys g = refl
  evaluate_rules-append (x ∷ xs) ys g = evaluate_rules-append xs ys _

  -- The rules of other ids leave the rows of a rule.
  pub others_keep :
      (id : Bytes) (rules : List (Rule V)) (g : Gathered V)
      → IsApart id rules
      → lookup id (evaluate_rules f now resolve querier fails rules g).store ≡ lookup id g.store
  unfolding evaluate_rules
  others_keep id [] g h = refl
  others_keep id (q ∷ rest) g (apart, h) = others_keep id rest _ h ∙ kept_row id q _ g apart

  -- They do the same, whatever the rows of that rule are.
  pub others-Agrees :
      (id : Bytes) (rules : List (Rule V)) (g h : Gathered V)
      → IsApart id rules
      → Agrees id g h
      → Agrees id
          (evaluate_rules f now resolve querier fails rules g)
          (evaluate_rules f now resolve querier fails rules h)
  unfolding evaluate_rules
  others-Agrees id [] g h apart a = a
  others-Agrees id (q ∷ rest) g h (apart, others) a = others-Agrees id rest _ _ others (
      gather-Agrees id q _ _ g h
        (ap (λ o. evaluate_rule f now resolve querier fails q (rows_or_empty o)) (a.0 q.id apart))
        a)
