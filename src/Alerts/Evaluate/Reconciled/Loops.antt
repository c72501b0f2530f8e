-- ===== src/Alerts/Evaluate/Reconciled/Loops.antt =====
-- internal/alerts/evaluator.go: the two loops of a pass over a rule, for each system.
use system_wrangler_backend.Prelude.{
  ℕ, ◌≡◌, refl, sym, ap, ◌∙◌, Bool, true, false, Option, none, some, List, [], ◌∷◌, ◌++◌,
  append-nil, arith, if◌then◌else◌, Bytes, bytes_eq, bytes_beq_iff, ◌==◌, Bool-cases, Option-cases,
  inl, inr,
}
use system_wrangler_backend.Prelude.Maps.{
  Map, lookup, insert, lookup-insert, lookup-delete, Distinct, same_key,
}
use system_wrangler_backend.Alerts.{Instance, TransitionKind}
use system_wrangler_backend.Alerts.Evaluate.{
  Call, load, put, delete_row, Pass, update_for, cleared, breach_loop, resolve_loop, reconcile_rule,
  begins, goes_on, has,
}
use system_wrangler_backend.Alerts.Evaluate.Reconciled.{joined, news}

module _ {V : Type 0} (rule_id : Bytes) (for_seconds now : ℕ) where
  unfoldable pub put_over :
      Bytes → Option V → Option (Instance V) → Option (Instance V) → Option (Instance V)
  put_over j none old current = current
  put_over j (some v) old current = some ((update_for rule_id for_seconds now j v old).row)

  unfoldable pub put_news : Bytes → Option V → Option (Instance V) → List TransitionKind
  put_news j none old = []
  put_news j (some v) old = news j (update_for rule_id for_seconds now j v old).emitted

  put_step :
      (sys j : Bytes) (value : V) (rest : Map Bytes V) (old current : Map Bytes (Instance V))
      → lookup sys rest ≡ none
      → put_over j (lookup j rest) (lookup j old) (
          lookup j (
            insert sys (update_for rule_id for_seconds now sys value (lookup sys old)).row current))
        ≡ put_over j
            (if sys == j then some value else lookup j rest)
            (lookup j old)
            (lookup j current)
  unfolding put_over
  put_step sys j value rest old current fresh = elim (Bool-cases (sys == j)) [
    | inl e ↦
        let same : sys ≡ j = (bytes_beq_iff sys j).0 e in
        rw (lookup-insert sys j _ current, e, ← same, fresh) refl
    | inr e ↦ rw (lookup-insert sys j _ current, e) refl
  ]

  emitted_other :
      (sys j : Bytes) (value : V) (old : Option (Instance V))
      → (sys == j) ≡ false
      → news j (update_for rule_id for_seconds now sys value old).emitted ≡ []
  unfolding update_for begins goes_on news
  emitted_other sys j value none e = ground arith
  emitted_other sys j value (some old) e = ground arith

  cleared_other :
      (sys j : Bytes) (inst : Instance V)
      → (sys == j) ≡ false
      → news j (cleared rule_id for_seconds now sys inst) ≡ []
  unfolding cleared news
  cleared_other sys j inst e = ground arith

  news_step :
      (sys j : Bytes) (value : V) (rest : Map Bytes V) (old : Map Bytes (Instance V))
      → lookup sys rest ≡ none
      → news j (update_for rule_id for_seconds now sys value (lookup sys old)).emitted
          ++ put_news j (lookup j rest) (lookup j old)
        ≡ put_news j (if sys == j then some value else lookup j rest) (lookup j old)
  unfolding put_news
  news_step sys j value rest old fresh = elim (Bool-cases (sys == j)) [
    | inl e ↦ let same : sys ≡ j = (bytes_beq_iff sys j).0 e in rw (e, ← same, fresh) (append-nil _)
    | inr e ↦ rw (e, emitted_other sys j value (lookup sys old) e) refl
  ]

  unfoldable pub drop_unless :
      Option V → Option (Instance V) → Option (Instance V) → Option (Instance V)
  drop_unless (some v) old current = current
  drop_unless none none current = current
  drop_unless none (some inst) current = none

  unfoldable pub clear_news : Bytes → Option V → Option (Instance V) → List TransitionKind
  clear_news j (some v) old = []
  clear_news j none none = []
  clear_news j none (some inst) = news j (cleared rule_id for_seconds now j inst)

  kept_without : (b : Option V) (c : Option (Instance V)) → c ≡ drop_unless b none c
  unfolding drop_unless
  kept_without none c = refl
  kept_without (some v) c = refl

  drop_kept :
      (c : Bool) (b : Option V) (v : V) (inst : Instance V) (o current : Option (Instance V))
      → (c ≡ true → b ≡ some v)
      → drop_unless b o current ≡ drop_unless b (if c then some inst else o) current
  unfolding drop_unless
  drop_kept c b v inst o current h = ground arith

  drop_deleted :
      (c : Bool) (b : Option V) (inst : Instance V) (o current : Option (Instance V))
      → (c ≡ true → b ≡ none)
      → drop_unless b o (if c then none else current)
        ≡ drop_unless b (if c then some inst else o) current
  unfolding drop_unless
  drop_deleted c b inst o current h = ground arith

  clear_nothing :
      (j : Bytes) (b : Option V) (ks : List TransitionKind) → ks ≡ ks ++ clear_news j b none
  unfolding clear_news
  clear_nothing j none ks = sym (append-nil ks)
  clear_nothing j (some v) ks = sym (append-nil ks)

  clear_kept :
      (j : Bytes) (c : Bool) (b : Option V) (v : V) (inst : Instance V) (o : Option (Instance V))
      → (c ≡ true → b ≡ some v)
      → clear_news j b o ≡ clear_news j b (if c then some inst else o)
  unfolding clear_news
  clear_kept j c b v inst o h = ground arith

  clear_step :
      (sys j : Bytes) (breaching : Map Bytes V) (inst : Instance V) (rest : Map Bytes (Instance V))
      → lookup sys rest ≡ none
      → lookup sys breaching ≡ none
      → news j (cleared rule_id for_seconds now sys inst)
          ++ clear_news j (lookup j breaching) (lookup j rest)
        ≡ clear_news j (lookup j breaching) (if sys == j then some inst else lookup j rest)
  unfolding clear_news
  clear_step sys j breaching inst rest fresh absent = elim (Bool-cases (sys == j)) [
    | inl e ↦
        let same : sys ≡ j = (bytes_beq_iff sys j).0 e in
        rw (e, ← same, fresh, absent) (append-nil _)
    | inr e ↦ rw (e, cleared_other sys j inst e) refl
  ]

  module _ (fails : Call → Bool) (works : (c : Call) → fails c ≡ false) where
    lookup-breach_loop :
        (old : Map Bytes (Instance V)) (breaching : Map Bytes V) (done : Pass V) (j : Bytes)
        → Distinct breaching
        → lookup j (breach_loop rule_id for_seconds now fails old breaching done).rows
          ≡ put_over j (lookup j breaching) (lookup j old) (lookup j done.rows)
    unfolding breach_loop put_over lookup
    lookup-breach_loop old [] done j h = refl
    lookup-breach_loop old ((sys, value) ∷ rest) done j (fresh, h) =
        rw (works (put sys))
          (lookup-breach_loop old rest _ j h ∙ put_step sys j value rest old done.rows fresh)

    news-breach_loop :
        (old : Map Bytes (Instance V)) (breaching : Map Bytes V) (done : Pass V) (j : Bytes)
        → Distinct breaching
        → news j (breach_loop rule_id for_seconds now fails old breaching done).transitions
          ≡ news j done.transitions ++ put_news j (lookup j breaching) (lookup j old)
    unfolding breach_loop put_news lookup
    news-breach_loop old [] done j h = sym (append-nil _)
    news-breach_loop old ((sys, value) ∷ rest) done j (fresh, h) = rw (works (put sys)) (
        news-breach_loop old rest _ j h
        ∙ joined j done.transitions _ _ _ (news_step sys j value rest old fresh))

    failed-breach_loop :
        (old : Map Bytes (Instance V)) (breaching : Map Bytes V) (done : Pass V)
        → (breach_loop rule_id for_seconds now fails old breaching done).failed ≡ done.failed
    unfolding breach_loop
    failed-breach_loop old [] done = refl
    failed-breach_loop old ((sys, value) ∷ rest) done =
        rw (works (put sys)) (failed-breach_loop old rest _)

    lookup-resolve_loop :
        (breaching : Map Bytes V) (old : Map Bytes (Instance V)) (done : Pass V) (j : Bytes)
        → lookup j (resolve_loop rule_id for_seconds now fails breaching old done).rows
          ≡ drop_unless (lookup j breaching) (lookup j old) (lookup j done.rows)
    unfolding resolve_loop has lookup
    lookup-resolve_loop breaching [] done j = kept_without (lookup j breaching) _
    lookup-resolve_loop breaching ((sys, inst) ∷ rest) done j =
        elim (Option-cases (lookup sys breaching)) [
          | inl e ↦
              rw (e, works (delete_row sys))
                (lookup-resolve_loop breaching rest _ j
                  ∙ rw (lookup-delete sys j done.rows)
                      (drop_deleted (sys == j) _ inst _ _ (same_key sys j breaching none e)))
          | inr (v, e) ↦ rw e (
              lookup-resolve_loop breaching rest done j
              ∙ drop_kept (sys == j) _ v inst _ _ (same_key sys j breaching (some v) e))
        ]

    news-resolve_loop :
        (breaching : Map Bytes V) (old : Map Bytes (Instance V)) (done : Pass V) (j : Bytes)
        → Distinct old
        → news j (resolve_loop rule_id for_seconds now fails breaching old done).transitions
          ≡ news j done.transitions ++ clear_news j (lookup j breaching) (lookup j old)
    unfolding resolve_loop has lookup
    news-resolve_loop breaching [] done j h = clear_nothing j (lookup j breaching) _
    news-resolve_loop breaching ((sys, inst) ∷ rest) done j (fresh, h) =
        elim (Option-cases (lookup sys breaching)) [
          | inl e ↦
              rw (e, works (delete_row sys))
                (news-resolve_loop breaching rest _ j h
                  ∙ joined j done.transitions _ _ _ (clear_step sys j breaching inst rest fresh e))
          | inr (v, e) ↦ rw e (
              news-resolve_loop breaching rest done j h
              ∙ ap (λ ks. news j done.transitions ++ ks)
                  (clear_kept j (sys == j) _ v inst _ (same_key sys j breaching (some v) e)))
        ]

    module _ (breaching : Map Bytes V) (rows : Map Bytes (Instance V))
        (d : Distinct breaching) where
      pub lookup-reconcile_rule :
          (j : Bytes)
          → lookup j (reconcile_rule rule_id for_seconds now fails (some breaching) rows).rows
            ≡ drop_unless
                (lookup j breaching)
                (lookup j rows)
                (put_over j (lookup j breaching) (lookup j rows) (lookup j rows))
      unfolding reconcile_rule
      lookup-reconcile_rule j =
          rw (works load, failed-breach_loop rows breaching _)
            (lookup-resolve_loop breaching rows _ j
              ∙ rw (lookup-breach_loop rows breaching _ j d) refl)

      pub news-reconcile_rule :
          (j : Bytes)
          → Distinct rows
          → news j (reconcile_rule rule_id for_seconds now fails (some breaching) rows).transitions
            ≡ put_news j (lookup j breaching) (lookup j rows)
              ++ clear_news j (lookup j breaching) (lookup j rows)
      unfolding reconcile_rule news
      news-reconcile_rule j h =
          rw (works load, failed-breach_loop rows breaching _)
            (news-resolve_loop breaching rows _ j h
              ∙ rw (news-breach_loop rows breaching _ j d) refl)
