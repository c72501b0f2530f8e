-- ===== src/Notifications/Flush/Owed.antt =====
-- internal/notifications/flusher.go: what a flush sends about one key.
use system_wrangler_backend.Prelude.{
  ℕ, ◌≡◌, refl, ap, sym, ◌∙◌, Bool, Option, List, [], ◌∷◌, ◌++◌, append-nil, concat_map, arith, All,
  if◌then◌else◌, Bytes, bytes_eq, ◌==◌, Bool-cases, inl, inr,
}
use system_wrangler_backend.Prelude.Maps.{lookup, Distinct}
use system_wrangler_backend.Notifications.Quiet.{Clock}
use system_wrangler_backend.Notifications.Routing.{Channel}
use system_wrangler_backend.Notifications.Dispatch.{
  Transition, Pending, Action, send, record_status, enqueue_pending, Store, fan_out,
}
use system_wrangler_backend.Notifications.Flush.{
  Key, key_eq, key_of, Groups, group_from, collapses, last_of, start, flush_pending,
}
use system_wrangler_backend.Notifications.Flush.Groups.{
  items_of, rows_of, items-group_from, group_from-Distinct, IsKeyed, group_from-IsKeyed,
}
use system_wrangler_backend.Notifications.Flush.Plain.{
  channels_for, episode, episode-nil, episode-cons, owed, start-IsPlain, flush_groups-Adds,
}

-- The sends of a key.
unfoldable pub about : Key → List Action → List Action
about k [] = []
about k (send c tr uid ∷ acts) =
    let rest = about k acts in
    if (uid, (tr.rule_id, tr.system_id)) == k then send c tr uid ∷ rest else rest
about k (record_status _ _ _ ∷ acts) = about k acts
about k (enqueue_pending _ _ ∷ acts) = about k acts

about-append : (k : Key) (xs ys : List Action) → about k (xs ++ ys) ≡ about k xs ++ about k ys
unfolding about
about-append k [] ys = refl
about-append k (send c tr uid ∷ xs) ys = ground (arith, about-append k xs ys)
about-append k (record_status _ _ _ ∷ xs) ys = about-append k xs ys
about-append k (enqueue_pending _ _ ∷ xs) ys = about-append k xs ys

about-fan_out :
    (k : Key) (cs : List Channel) (tr : Transition) (uid : Bytes)
    → about k (fan_out cs tr uid)
      ≡ (if (uid, (tr.rule_id, tr.system_id)) == k then fan_out cs tr uid else [])
unfolding about
about-fan_out k [] tr uid = ground arith
about-fan_out k (c ∷ cs) tr uid = ground (arith, about-fan_out k cs tr uid)

module _ (load_location : Bytes → Option Clock) (utc : Clock) (now : ℕ) (st : Store) where
  last-keyed :
      (j : Key) (p : Pending) (rest : List Pending)
      → key_of p ≡ j
      → All (λ q. key_of q ≡ j) rest
      → key_of (last_of p rest) ≡ j
  unfolding last_of
  last-keyed j p [] e h = e
  last-keyed j p (q ∷ rest) e (e', h) = last-keyed j q rest e' h

  about-episode :
      (k j : Key) (items : List Pending)
      → All (λ p. key_of p ≡ j) items
      → about k (episode load_location utc now st j.0 items)
        ≡ (if j == k then episode load_location utc now st j.0 items else [])
  unfolding about
  about-episode k j [] h = rw (episode-nil load_location utc now st j.0) (ground arith)
  about-episode k j (p ∷ rest) (e, h) =
      rw (episode-cons load_location utc now st j.0 p rest)
        (elim (Bool-cases (collapses (p ∷ rest))) [
          | inl c ↦ rw c (ground arith)
          | inr c ↦
              let tr = (last_of p rest).transition in
              let same : (j.0, (tr.rule_id, tr.system_id)) ≡ j =
                sym (ap (λ i. (i.0, (tr.rule_id, tr.system_id))) (last-keyed j p rest e h))
                ∙ last-keyed j p rest e h in
              rw c (
                rw (about-fan_out k (channels_for load_location utc now st j.0 tr) tr j.0, same)
                  refl)
        ])

  about-owed :
      (k j : Key) (items : List Pending)
      → All (λ p. key_of p ≡ j) items
      → about k (owed load_location utc now st j items)
        ≡ (if j == k then owed load_location utc now st j items else [])
  unfolding owed about
  about-owed k j items h = ground (arith, about-episode k j items h)

  owed_nothing : (k : Key) → owed load_location utc now st k [] ≡ []
  unfolding owed
  owed_nothing k = rw (episode-nil load_location utc now st k.0) (ground arith)

  about-groups :
      (k : Key) (groups : Groups)
      → Distinct groups
      → IsKeyed groups
      → about k (concat_map (λ (j, items). owed load_location utc now st j items) groups)
        ≡ owed load_location utc now st k (items_of k groups)
  unfolding lookup about
  about-groups k [] d h = sym (owed_nothing k)
  about-groups k ((j, items) ∷ rest) (fresh, d) (h, hs) =
      about-append k (owed load_location utc now st j items) _ ∙ elim (Bool-cases (j == k)) [
        | inl e ↦
            let same : j ≡ k = (key_eq.test_iff j k).0 e in
            rw (about-owed k j items h, e, about-groups k rest d hs, ← same, fresh, owed_nothing j)
              (append-nil (owed load_location utc now st j items))
        | inr e ↦ rw (about-owed k j items h, e, about-groups k rest d hs) refl
      ]

  pub flush_pending-owed :
      (deletes : Bool) (rows : List Pending) (k : Key)
      → about k (flush_pending load_location utc now st deletes rows).0
        ≡ owed load_location utc now st k (rows_of k rows)
  unfolding flush_pending lookup
  flush_pending-owed deletes rows k =
      ap (about k)
        (flush_groups-Adds load_location utc now st (group_from [] rows) start
          (start-IsPlain load_location utc now st)).0
      ∙ about-groups k (group_from [] rows) (group_from-Distinct rows [] tt)
          (group_from-IsKeyed rows [] tt)
      ∙ ap (owed load_location utc now st k) (items-group_from k rows [])
