-- ===== src/Alerts/Evaluate/Reconciled.antt =====
-- internal/alerts/evaluator.go: one pass over a rule, for each system, against a description of what it is
-- to do with the row of that system.
pub mod Loops
use system_wrangler_backend.Prelude.{
  ℕ, ◌≡◌, refl, sym, ap, ◌∙◌, Bool, true, false, Option, none, some, List, [], ◌∷◌, ◌++◌,
  append-nil, append_assoc, arith, if◌then◌else◌, Bytes, bytes_eq, bytes_beq_iff, ◌==◌, Bool-cases,
  Option-cases, inl, inr,
}
use system_wrangler_backend.Prelude.Maps.{Map, lookup, insert, lookup-insert, lookup-delete}
use system_wrangler_backend.Alerts.{Instance, TransitionKind, Transition}
use system_wrangler_backend.Alerts.Evaluate.{
  Call, load, put, delete_row, Pass, update_for, cleared, breach_loop, resolve_loop, reconcile_rule,
  begins, goes_on, has,
}

-- The kinds of the transitions of one system, in their order.
unfoldable pub news : {V : Type 0} → Bytes → List (Transition V) → List TransitionKind
news j [] = []
news j (t ∷ ts) = let rest = news j ts in if t.system_id == j then t.kind ∷ rest else rest

news-append :
    {V : Type 0} (j : Bytes) (xs ys : List (Transition V))
    → news j (xs ++ ys) ≡ news j xs ++ news j ys
unfolding news
news-append j [] ys = refl
news-append j (x ∷ xs) ys = ground (arith, news-append j xs ys)

joined :
    {V : Type 0} (j : Bytes) (xs ys : List (Transition V)) (ks ls : List TransitionKind)
    → news j ys ++ ks ≡ ls
    → news j (xs ++ ys) ++ ks ≡ news j xs ++ ls
joined j xs ys ks ls h = rw (news-append j xs ys, append_assoc (news j xs) (news j ys) ks, h) refl
