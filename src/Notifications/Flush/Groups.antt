-- ===== src/Notifications/Flush/Groups.antt =====
-- internal/notifications/flusher.go: the groups of the rows.
use system_wrangler_backend.Prelude.{
  ◌≡◌, refl, ◌∙◌, List, [], ◌∷◌, ◌++◌, append-nil, append_assoc, keep, All, if◌then◌else◌, bytes_eq,
  ◌==◌, Bool-cases, inl, inr,
}
use system_wrangler_backend.Prelude.Maps.{lookup, insert, lookup-insert, Distinct, insert-Distinct}
use system_wrangler_backend.Notifications.Dispatch.{Pending, or_else}
use system_wrangler_backend.Notifications.Flush.{Key, key_eq, key_of, Groups, add_to, group_from}

-- The items of a group, and the rows of a key.
abbrev pub items_of : Key → Groups → List Pending
items_of k groups = or_else (lookup k groups) []

abbrev pub rows_of : Key → List Pending → List Pending
rows_of k rows = keep (λ p. key_of p == k) rows

items-add_to :
    (k : Key) (p : Pending) (groups : Groups)
    → items_of k (add_to p groups)
      ≡ (if key_of p == k then items_of k groups ++ p ∷ [] else items_of k groups)
items-add_to k p groups = elim (Bool-cases (key_of p == k)) [
  | inl e ↦
      let same : key_of p ≡ k = (key_eq.test_iff (key_of p) k).0 e in
      rw (lookup-insert (key_of p) k _ groups, e, ← same) refl
  | inr e ↦ rw (lookup-insert (key_of p) k _ groups, e) refl
]

pub items-group_from :
    (k : Key) (rows : List Pending) (groups : Groups)
    → items_of k (group_from groups rows) ≡ items_of k groups ++ rows_of k rows
unfolding group_from
items-group_from k [] groups = rw (append-nil (items_of k groups)) refl
items-group_from k (p ∷ rest) groups =
    items-group_from k rest (add_to p groups) ∙ elim (Bool-cases (key_of p == k)) [
      | inl e ↦
          rw
            (items-add_to k p groups, e, append_assoc (items_of k groups) (p ∷ []) (rows_of k rest))
            refl
      | inr e ↦ rw (items-add_to k p groups, e) refl
    ]

pub group_from-Distinct :
    (rows : List Pending) (groups : Groups) → Distinct groups → Distinct (group_from groups rows)
unfolding group_from
group_from-Distinct [] groups h = h
group_from-Distinct (p ∷ rest) groups h =
    group_from-Distinct rest (add_to p groups) (insert-Distinct (key_of p) _ groups h)

abbrev pub IsKeyed : Groups → Type 0
IsKeyed groups = All (λ (k, items). All (λ p. key_of p ≡ k) items) groups

All-snoc :
    (k : Key) (p : Pending) (items : List Pending)
    → All (λ q. key_of q ≡ k) items
    → key_of p ≡ k
    → All (λ q. key_of q ≡ k) (items ++ p ∷ [])
All-snoc k p [] h e = (e, tt)
All-snoc k p (q ∷ rest) (e', h) e = (e', All-snoc k p rest h e)

items-keyed :
    (k : Key) (groups : Groups) → IsKeyed groups → All (λ p. key_of p ≡ k) (items_of k groups)
unfolding lookup
items-keyed k [] h = tt
items-keyed k ((j, items) ∷ rest) (h, hs) = elim (Bool-cases (j == k)) [
  | inl e ↦ let same : j ≡ k = (key_eq.test_iff j k).0 e in rw (e, ← same) h
  | inr e ↦ rw e (items-keyed k rest hs)
]

insert-IsKeyed :
    (k : Key) (items : List Pending) (groups : Groups)
    → All (λ p. key_of p ≡ k) items
    → IsKeyed groups
    → IsKeyed (insert k items groups)
unfolding insert
insert-IsKeyed k items [] h hs = (h, tt)
insert-IsKeyed k items ((j, old) ∷ rest) h (h', hs) = elim (Bool-cases (j == k)) [
  | inl e ↦ rw e (h, hs)
  | inr e ↦ rw e (h', insert-IsKeyed k items rest h hs)
]

pub group_from-IsKeyed :
    (rows : List Pending) (groups : Groups) → IsKeyed groups → IsKeyed (group_from groups rows)
unfolding group_from
group_from-IsKeyed [] groups h = h
group_from-IsKeyed (p ∷ rest) groups h = group_from-IsKeyed rest (add_to p groups) (
    insert-IsKeyed (key_of p) _ groups
      (All-snoc (key_of p) p _ (items-keyed (key_of p) groups h) refl) h)
