-- ===== src/Notifications/Flush/Left.antt =====
-- internal/notifications/flusher.go: the rows that a flush leaves.
use system_wrangler_backend.Prelude.{
  ℕ, ◌≡◌, refl, ap, sym, ◌∙◌, Bool, true, false, ◌&&◌, ◌||◌, not, Option, List, [], ◌∷◌, ◌++◌,
  concat_map, arith, keep, any, In, any-In, In-any, if◌then◌else◌, Bytes, bytes_eq, ◌==◌,
  Bool-cases, inl, inr, beq_self, false≢true,
}
use system_wrangler_backend.Prelude.Maps.{lookup, insert}
use system_wrangler_backend.Notifications.Quiet.{Clock}
use system_wrangler_backend.Notifications.Dispatch.{Pending, Store, or_else}
use system_wrangler_backend.Notifications.Flush.{
  Key, key_eq, key_of, Groups, add_to, group_from, start, flush_pending, delete_pending,
}
use system_wrangler_backend.Notifications.Flush.Plain.{
  ids, waits, done, start-IsPlain, flush_groups-Adds,
}

keep-cong :
    {A : Type 0} (f g : A → Bool) (xs : List A)
    → ((x : A) → In x xs → f x ≡ g x)
    → keep f xs ≡ keep g xs
keep-cong f g [] h = refl
keep-cong f g (x ∷ xs) h = rw (h x (inl refl), keep-cong f g xs (λ y i. h y (inr i))) refl

any-append : {A : Type 0} (f : A → Bool) (xs ys : List A) → any f (xs ++ ys) ≡ any f xs || any f ys
any-append f [] ys = refl
any-append f (x ∷ xs) ys = ground (arith, any-append f xs ys)

or_inner : (a b c d : Bool) → a ≡ b || d → a || c ≡ (b || c) || d
or_inner a b c d h = ground arith

or_outer : (a b c d : Bool) → b ≡ c || d → a || b ≡ (a || c) || d
or_outer a b c d h = ground arith

or_middle : (a b c d : Bool) → a ≡ b || c → a || d ≡ b || (if c then true else d)
or_middle a b c d h = ground arith

and_parts : (a b : Bool) → a && b ≡ true → (a ≡ true) × (b ≡ true)
and_parts a b h = ground arith

not-true : (a : Bool) → not a ≡ true → a ≡ false
not-true a h = ground arith

not-not : (a : Bool) → not (not a) ≡ a
not-not a = ground arith

-- The rows have different ids: the primary key of their table.
abbrev pub IdsUnique : List Pending → Type 0
IdsUnique rows = (p q : Pending) → In p rows → In q rows → p.id ≡ q.id → p ≡ q

module _ (load_location : Bytes → Option Clock) (utc : Clock) (now : ℕ) (st : Store)
    (i : Bytes) where
  quiet_for : Bytes → Bool
  quiet_for uid = waits load_location utc now st uid

  released : Pending → Bool
  released p = not (quiet_for p.user_id) && p.id == i

  in_group : Key → List Pending → Bool
  in_group k items = not (quiet_for k.0) && any (λ p. p.id == i) items

  touches : Groups → Bool
  unfolding in_group
  touches [] = false
  touches ((k, items) ∷ rest) = in_group k items || touches rest

  any-ids : (items : List Pending) → any (λ j. j == i) (ids items) ≡ any (λ p. p.id == i) items
  any-ids [] = refl
  any-ids (p ∷ ps) = ground (arith, any-ids ps)

  any-done :
      (k : Key) (items : List Pending)
      → any (λ j. j == i) (done load_location utc now st k items) ≡ in_group k items
  unfolding done in_group quiet_for
  any-done k items = ground (arith, any-ids items)

  any-concat :
      (groups : Groups)
      → any (λ j. j == i) (concat_map (λ (k, items). done load_location utc now st k items) groups)
        ≡ touches groups
  unfolding touches
  any-concat [] = refl
  any-concat ((k, items) ∷ rest) =
      rw
        (
          any-append (λ j. j == i) (done load_location utc now st k items) _,
          any-done k items,
          any-concat rest,
        )
        refl

  in_group-snoc :
      (k : Key) (items : List Pending) (p : Pending)
      → in_group k (items ++ p ∷ []) ≡ in_group k items || (not (quiet_for k.0) && p.id == i)
  unfolding in_group
  in_group-snoc k items p = ground (arith, any-append (λ q. q.id == i) items (p ∷ []))

  touches-insert :
      (p : Pending) (items : List Pending) (groups : Groups)
      → items ≡ or_else (lookup (key_of p) groups) [] ++ p ∷ []
      → touches (insert (key_of p) items groups) ≡ touches groups || released p
  unfolding touches insert lookup released
  touches-insert p items [] h = rw h (ground (arith, in_group-snoc (key_of p) [] p))
  touches-insert p items ((j, old) ∷ rest) h = elim (Bool-cases (j == key_of p)) [
    | inl e ↦
        let same : j ≡ key_of p = (key_eq.test_iff j (key_of p)).0 e in
        let added : items ≡ old ++ p ∷ [] = rw e at h in
        rw (e, same, added) (or_inner _ _ _ _ (in_group-snoc (key_of p) old p))
    | inr e ↦ rw e (or_outer _ _ _ _ (touches-insert p items rest (rw e at h)))
  ]

  touches-group_from :
      (rows : List Pending) (groups : Groups)
      → touches (group_from groups rows) ≡ touches groups || any released rows
  unfolding group_from
  touches-group_from [] groups = ground arith
  touches-group_from (p ∷ rest) groups =
      touches-group_from rest (add_to p groups) ∙ or_middle _ _ _ _ (touches-insert p _ groups refl)

  released_alone :
      (rows : List Pending) (p : Pending)
      → IdsUnique rows
      → In p rows
      → p.id ≡ i
      → any released rows ≡ not (quiet_for p.user_id)
  unfolding released
  released_alone rows p u at e = elim (Bool-cases (quiet_for p.user_id)) [
    | inl q ↦ elim (Bool-cases (any released rows)) [
      | inl t ↦
          let (p', at', t') = any-In released rows t in
          let (loud, named) = and_parts (not (quiet_for p'.user_id)) _ t' in
          let same : p' ≡ p = u p' p at' at ((bytes_eq.test_iff p'.id i).0 named ∙ sym e) in
          absurd
            (false≢true (sym (not-true _ (rw (ap (λ x. quiet_for x.user_id) same) at loud)) ∙ q))
      | inr f ↦ rw (f, q) refl
    ]
    | inr q ↦ rw q (In-any released rows p at (rw (q, e) (beq_self i)))
  ]

module _ (load_location : Bytes → Option Clock) (utc : Clock) (now : ℕ) (st : Store) where
  -- Where the rows are deleted, a flush leaves exactly the rows, in their order, whose owner's policy, the
  -- global one for a shared row, is still in its quiet hours; where that fails, it leaves every row.
  pub flush_pending-left :
      (deletes : Bool) (rows : List Pending)
      → IdsUnique rows
      → (flush_pending load_location utc now st deletes rows).1
        ≡ (if deletes then keep (λ p. waits load_location utc now st p.user_id) rows else rows)
  unfolding flush_pending delete_pending touches quiet_for
  flush_pending-left false rows u = refl
  flush_pending-left true rows u = keep-cong _ _ rows (λ p at.
      ap not (
        ap (any (λ i. i == p.id))
          (flush_groups-Adds load_location utc now st (group_from [] rows) start
            (start-IsPlain load_location utc now st)).1
        ∙ any-concat load_location utc now st p.id (group_from [] rows)
        ∙ touches-group_from load_location utc now st p.id rows []
        ∙ released_alone load_location utc now st p.id rows p u at refl)
      ∙ not-not _)
