-- ===== src/Schedules/Store/Scheduled/Tables.antt =====
-- internal/schedules/sqlite_store.go: changes of the rows of a table.
use system_wrangler_backend.Prelude.{
  ◌≡◌, refl, sym, subst, Bool, false, none, some, List, [], ◌∷◌, ◌++◌, map, All, arith, keep,
  if◌then◌else◌, Bytes, bytes_eq, ◌==◌, Bool-cases, inl, inr,
}
use system_wrangler_backend.Prelude.Maybe.{none_not_some}
use system_wrangler_backend.Schedules.Entry.{Schedule}
use system_wrangler_backend.Schedules.Store.{first, update_where, has_id}
use system_wrangler_backend.Schedules.Store.Rows.{IsKeyed}

pub first-map :
    (g : Schedule → Schedule) (id : Bytes) (rows : List Schedule)
    → ((s : Schedule) → (g s).id ≡ s.id)
    → first (has_id id) rows ≡ none
    → first (has_id id) (map g rows) ≡ none
unfolding first
first-map g id [] k h = h
first-map g id (s ∷ rest) k h = elim (Bool-cases (s.id == id)) [
  | inl e ↦ absurd (none_not_some (sym (rw e at h)))
  | inr e ↦ rw (k s, e) (first-map g id rest k (rw e at h))
]

pub map-IsKeyed :
    (g : Schedule → Schedule) (rows : List Schedule)
    → ((s : Schedule) → (g s).id ≡ s.id)
    → IsKeyed rows
    → IsKeyed (map g rows)
map-IsKeyed g [] k h = tt
map-IsKeyed g (s ∷ rest) k (fresh, h) =
    (rw (k s) (first-map g s.id rest k fresh), map-IsKeyed g rest k h)

pub map-All :
    (P : Schedule → Type 0) (g : Schedule → Schedule) (rows : List Schedule)
    → ((s : Schedule) → P s → P (g s))
    → All P rows
    → All P (map g rows)
map-All P g [] k h = tt
map-All P g (s ∷ rest) k (p, h) = (k s p, map-All P g rest k h)

pub All-first :
    (P : Schedule → Type 0) (id : Bytes) (rows : List Schedule) (s : Schedule)
    → first (has_id id) rows ≡ some s
    → All P rows
    → P s × (s.id ≡ id)
unfolding first
All-first P id [] s h a = absurd (none_not_some h)
All-first P id (r ∷ rest) s h (p, a) = elim (Bool-cases (r.id == id)) [
  | inl e ↦
      let same : r ≡ s = ground (arith, h, e) in
      subst (λ x. P x × (x.id ≡ id)) same (p, (bytes_eq.test_iff r.id id).0 e)
  | inr e ↦ All-first P id rest s (rw e at h) a
]

pub untouched :
    (id : Bytes) (f : Schedule → Schedule) (rows : List Schedule)
    → first (has_id id) rows ≡ none
    → update_where (has_id id) f rows ≡ rows
unfolding first
untouched id f [] h = refl
untouched id f (r ∷ rest) h = elim (Bool-cases (r.id == id)) [
  | inl e ↦ absurd (none_not_some (sym (rw e at h)))
  | inr e ↦ rw (e, untouched id f rest (rw e at h)) refl
]

-- An update of the row with an id needs the property for that row only.
pub update-All :
    (P : Schedule → Type 0) (id : Bytes) (f : Schedule → Schedule) (rows : List Schedule)
    (s : Schedule)
    → IsKeyed rows
    → first (has_id id) rows ≡ some s
    → All P rows
    → P (f s)
    → All P (update_where (has_id id) f rows)
unfolding first
update-All P id f [] s k h a p = tt
update-All P id f (r ∷ rest) s (fresh, k) h (q, a) p = elim (Bool-cases (r.id == id)) [
  | inl e ↦
      let same : r ≡ s = ground (arith, h, e) in
      let alone : first (has_id id) rest ≡ none =
        subst (λ i. first (has_id i) rest ≡ none) ((bytes_eq.test_iff r.id id).0 e) fresh in
      rw (e, untouched id f rest alone) (subst (λ x. P (f x)) (sym same) p, a)
  | inr e ↦ rw e (q, update-All P id f rest s k (rw e at h) a p)
]

pub update-keeps :
    (id : Bytes) (f : Schedule → Schedule) (s : Schedule)
    → ((x : Schedule) → (f x).id ≡ x.id)
    → (if has_id id s then f s else s).id ≡ s.id
update-keeps id f s k = elim (Bool-cases (has_id id s)) [ inl e ↦ rw e (k s) | inr e ↦ rw e refl ]

pub first-append :
    (id : Bytes) (rows : List Schedule) (s : Schedule)
    → first (has_id id) rows ≡ none
    → (s.id == id) ≡ false
    → first (has_id id) (rows ++ s ∷ []) ≡ none
unfolding first
first-append id [] s h e = rw e refl
first-append id (r ∷ rest) s h e = elim (Bool-cases (r.id == id)) [
  | inl t ↦ absurd (none_not_some (sym (rw t at h)))
  | inr t ↦ rw t (first-append id rest s (rw t at h) e)
]

pub append-IsKeyed :
    (rows : List Schedule) (s : Schedule)
    → first (has_id s.id) rows ≡ none
    → IsKeyed rows
    → IsKeyed (rows ++ s ∷ [])
unfolding first
append-IsKeyed [] s h k = (refl, tt)
append-IsKeyed (r ∷ rest) s h (fresh, k) = elim (Bool-cases (r.id == s.id)) [
  | inl e ↦ absurd (none_not_some (sym (rw e at h)))
  | inr e ↦
      let flipped : (s.id == r.id) ≡ false =
        ground (arith, bytes_eq.test_iff s.id r.id, bytes_eq.test_iff r.id s.id, e) in
      (first-append r.id rest s fresh flipped, append-IsKeyed rest s (rw e at h) k)
]

pub append-All :
    (P : Schedule → Type 0) (rows : List Schedule) (s : Schedule)
    → All P rows
    → P s
    → All P (rows ++ s ∷ [])
append-All P [] s a p = (p, tt)
append-All P (r ∷ rest) s (q, a) p = (q, append-All P rest s a p)

pub first-keep :
    (p : Schedule → Bool) (id : Bytes) (rows : List Schedule)
    → first (has_id id) rows ≡ none
    → first (has_id id) (keep p rows) ≡ none
unfolding first
first-keep p id [] h = h
first-keep p id (r ∷ rest) h = ground (arith, first-keep p id rest, h)

pub keep-IsKeyed :
    (p : Schedule → Bool) (rows : List Schedule) → IsKeyed rows → IsKeyed (keep p rows)
keep-IsKeyed p [] k = tt
keep-IsKeyed p (r ∷ rest) (fresh, k) = elim (Bool-cases (p r)) [
  | inl e ↦ rw e (first-keep p r.id rest fresh, keep-IsKeyed p rest k)
  | inr e ↦ rw e (keep-IsKeyed p rest k)
]

pub keep-All :
    (P : Schedule → Type 0) (p : Schedule → Bool) (rows : List Schedule)
    → All P rows
    → All P (keep p rows)
keep-All P p [] a = tt
keep-All P p (r ∷ rest) (q, a) = elim (Bool-cases (p r)) [
  | inl e ↦ rw e (q, keep-All P p rest a)
  | inr e ↦ rw e (keep-All P p rest a)
]
