-- ===== src/Schedules/Store/Rows.antt =====
-- internal/schedules/sqlite_store.go: the rows of a table with a primary key.
use system_wrangler_backend.Prelude.{
  ◌≡◌, refl, sym, ap, ◌∙◌, Bool, true, false, none, List, [], ◌∷◌, map, arith, keep, In, bytes_eq,
  Bool-cases, inl, inr, false≢true,
}
use system_wrangler_backend.Schedules.Entry.{Schedule}
use system_wrangler_backend.Schedules.Store.{first, has_id, by_next, insert_by_next, is_sorted}

-- No two rows have the same id.
abbrev pub IsKeyed : List Schedule → Type 0
IsKeyed [] = Unit
IsKeyed (s ∷ rest) = (first (has_id s.id) rest ≡ none) × IsKeyed rest

pub first-none :
    {A : Type 0} (p : A → Bool) (xs : List A) (x : A) → first p xs ≡ none → In x xs → p x ≡ false
unfolding first
first-none p [] x h i = absurd i
first-none p (y ∷ ys) x h (inl e) = let miss : p y ≡ false = ground arith in rw (← e) miss
first-none p (y ∷ ys) x h (inr i) = first-none p ys x (ground arith) i

apart :
    (r : Schedule) (rest : List Schedule) (s : Schedule)
    → first (has_id r.id) rest ≡ none
    → In s rest
    → s.id ≡ r.id
    → ⊥
apart r rest s fresh i h =
    false≢true (sym (first-none (has_id r.id) rest s fresh i) ∙ (bytes_eq.test_iff s.id r.id).1 h)

pub same_row :
    (rows : List Schedule) (x s : Schedule)
    → IsKeyed rows
    → In x rows
    → In s rows
    → x.id ≡ s.id
    → x ≡ s
same_row [] x s k i j h = absurd i
same_row (r ∷ rest) x s (fresh, k) (inl e) (inl e') h = sym e ∙ e'
same_row (r ∷ rest) x s (fresh, k) (inl e) (inr i) h =
    absurd (apart r rest s fresh i (sym h ∙ sym (ap (λ t. t.id) e)))
same_row (r ∷ rest) x s (fresh, k) (inr i) (inl e) h =
    absurd (apart r rest x fresh i (h ∙ sym (ap (λ t. t.id) e)))
same_row (r ∷ rest) x s (fresh, k) (inr i) (inr i') h = same_row rest x s k i i' h

pub map_cong :
    {A B : Type 0} (f g : A → B) (xs : List A)
    → ((x : A) → In x xs → f x ≡ g x)
    → map f xs ≡ map g xs
map_cong f g [] h = refl
map_cong f g (x ∷ xs) h = rw (h x (inl refl), map_cong f g xs (λ y i. h y (inr i))) refl

pub In-map :
    {A B : Type 0} (f : A → B) (xs : List A) (y : B)
    → In y (map f xs)
    → (x : A) × In x xs × (f x ≡ y)
In-map f [] y i = absurd i
In-map f (x ∷ xs) y (inl e) = (x, inl refl, e)
In-map f (x ∷ xs) y (inr i) = let (z, at, e) = In-map f xs y i in (z, inr at, e)

In-behind :
    {A : Type 0} (y : A) (xs ys : List A) (x : A)
    → (In x xs → In x ys)
    → In x (y ∷ xs)
    → In x (y ∷ ys)
In-behind y xs ys x f (inl e) = inl e
In-behind y xs ys x f (inr i) = inr (f i)

In-swap : {A : Type 0} (y z : A) (xs : List A) (x : A) → In x (y ∷ z ∷ xs) → In x (z ∷ y ∷ xs)
In-swap y z xs x (inl e) = inr (inl e)
In-swap y z xs x (inr (inl e)) = inl e
In-swap y z xs x (inr (inr i)) = inr (inr i)

pub keep-In :
    {A : Type 0} (p : A → Bool) (xs : List A) (x : A) → In x xs → p x ≡ true → In x (keep p xs)
keep-In p [] x i h = absurd i
keep-In p (y ∷ ys) x (inl e) h = rw (e, h) (inl refl)
keep-In p (y ∷ ys) x (inr i) h = elim (Bool-cases (p y)) [
  | inl e ↦ rw e (inr (keep-In p ys x i h))
  | inr e ↦ rw e (keep-In p ys x i h)
]

pub In-keep : {A : Type 0} (p : A → Bool) (xs : List A) (x : A) → In x (keep p xs) → In x xs
In-keep p [] x i = absurd i
In-keep p (y ∷ ys) x i = elim (Bool-cases (p y)) [
  | inl e ↦ In-behind y (keep p ys) ys x (In-keep p ys x) (rw e at i)
  | inr e ↦ inr (In-keep p ys x (rw e at i))
]

either :
    {A : Type 0} (p : A → Bool) (y : A) (xs : List A) (x : A)
    → p y ≡ true
    → (In x xs → p x ≡ true)
    → In x (y ∷ xs)
    → p x ≡ true
either p y xs x h f (inl e) = rw (← e) h
either p y xs x h f (inr i) = f i

pub keep-holds : {A : Type 0} (p : A → Bool) (xs : List A) (x : A) → In x (keep p xs) → p x ≡ true
keep-holds p [] x i = absurd i
keep-holds p (y ∷ ys) x i = elim (Bool-cases (p y)) [
  | inl e ↦ either p y (keep p ys) x e (keep-holds p ys x) (rw e at i)
  | inr e ↦ keep-holds p ys x (rw e at i)
]

insert-In :
    (s : Schedule) (xs : List Schedule) (x : Schedule) → In x (s ∷ xs) → In x (insert_by_next s xs)
unfolding insert_by_next
insert-In s [] x i = i
insert-In s (y ∷ ys) x i = elim (Bool-cases (is_sorted s y)) [
  | inl e ↦ rw e i
  | inr e ↦ rw e (In-behind y (s ∷ ys) _ x (insert-In s ys x) (In-swap s y ys x i))
]

In-insert :
    (s : Schedule) (xs : List Schedule) (x : Schedule) → In x (insert_by_next s xs) → In x (s ∷ xs)
unfolding insert_by_next
In-insert s [] x i = i
In-insert s (y ∷ ys) x i = elim (Bool-cases (is_sorted s y)) [
  | inl e ↦ rw e at i
  | inr e ↦ In-swap y s ys x (In-behind y _ (s ∷ ys) x (In-insert s ys x) (rw e at i))
]

pub by_next-In : (xs : List Schedule) (x : Schedule) → In x xs → In x (by_next xs)
unfolding by_next
by_next-In [] x i = i
by_next-In (y ∷ ys) x i =
    insert-In y (by_next ys) x (In-behind y ys (by_next ys) x (by_next-In ys x) i)

pub In-by_next : (xs : List Schedule) (x : Schedule) → In x (by_next xs) → In x xs
unfolding by_next
In-by_next [] x i = i
In-by_next (y ∷ ys) x i =
    In-behind y (by_next ys) ys x (In-by_next ys x) (In-insert y (by_next ys) x i)
