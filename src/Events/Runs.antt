-- ===== src/Events/Runs.antt =====
-- internal/events/hub.go: every sequence of calls of the hub.
use system_wrangler_backend.Prelude.{
  ℕ, ◌≡◌, ◌≤◌, refl, sym, ◌∙◌, true, false, not, Option, some, List, [], ◌∷◌, ◌++◌, length,
  length-append, All, arith, ltb, nat_beq, Bytes, inl, inr, Bool-cases, Option-cases,
}
use system_wrangler_backend.Prelude.Maybe.{none_not_some}
use system_wrangler_backend.Events.{
  Subscriber, Hub, new_hub, capacity, close_channel, unregister, send, behind_first, receive, each,
  nth, Op, subscribe, close, unsubscribe, receive_from, broadcast, with_subscribers, step, run,
}

-- A subscriber is in the set exactly while its channel is open, and its buffer is within the capacity.
abbrev pub IsSound : Subscriber → Type 0
IsSound s = (s.is_registered ≡ s.is_open) × (length s.buffer ≤ capacity)

abbrev pub IsShut : Subscriber → Type 0
IsShut s = s.is_open ≡ false

abbrev pub IsHub : Hub → Type 0
IsHub h = All IsSound h.subscribers × (h.closed ≡ true → All IsShut h.subscribers)

-- A change that does not panic on a sound subscriber, and opens no channel.
abbrev IsSafe : (Subscriber → Option Subscriber) → Type 0
IsSafe f =
    (s : Subscriber)
    → IsSound s
    → (s' : Subscriber) × (f s ≡ some s') × IsSound s' × (IsShut s → IsShut s')

send-IsSafe : (e : Bytes) → IsSafe (send e)
unfolding send
send-IsSafe e s (same, bound) = elim (Bool-cases s.is_registered) [
  | inr r ↦ (s, rw r refl, (same, bound), λ h. h)
  | inl r ↦
      let o : s.is_open ≡ true = sym same ∙ r in
      elim (Bool-cases (ltb (length s.buffer) capacity)) [
        | inl l ↦ (
          (record s { buffer = s.buffer ++ e ∷ [] }),
          rw (r, o, l) refl,
          (same, (let n = length-append s.buffer (e ∷ []) in ground (arith, n, l))),
          (λ h. h),
        )
        | inr l ↦ (s, rw (r, o, l) refl, (same, bound), λ h. h)
      ]
]

unregister-shuts :
    (s : Subscriber)
    → IsSound s
    → (s' : Subscriber) × (unregister s ≡ some s') × IsSound s' × IsShut s'
unfolding unregister close_channel
unregister-shuts s (same, bound) = elim (Bool-cases s.is_registered) [
  | inr r ↦ (s, rw r refl, (same, bound), sym same ∙ r)
  | inl r ↦
      let o : s.is_open ≡ true = sym same ∙ r in
      ((record s { is_registered = false; is_open = false }), rw (r, o) refl, (refl, bound), refl)
]

unregister-IsSafe : IsSafe unregister
unregister-IsSafe s h = let (s', e, k, shut) = unregister-shuts s h in (s', e, k, λ _. shut)

behind_first-bound : (xs : List Bytes) → length xs ≤ capacity → length (behind_first xs) ≤ capacity
unfolding behind_first
behind_first-bound [] h = h
behind_first-bound (x ∷ xs) h = ground (arith, h)

receive-IsSafe : IsSafe receive
unfolding receive
receive-IsSafe s (same, bound) = (
  (record s { buffer = behind_first s.buffer }),
  refl,
  (same, behind_first-bound s.buffer bound),
  (λ h. h),
)

each-safe :
    (f : Subscriber → Option Subscriber) (subs : List Subscriber)
    → IsSafe f
    → All IsSound subs
    → (subs' : List Subscriber) × (each f subs ≡ some subs')
      × All IsSound subs'
      × (All IsShut subs → All IsShut subs')
unfolding each
each-safe f [] safe h = ([], refl, tt, λ _. tt)
each-safe f (s ∷ rest) safe (h, hs) =
    let (s', e, k, shut) = safe s h in
    let (rest', e', ks, shuts) = each-safe f rest safe hs in
    ((s' ∷ rest'), rw (e, e') refl, (k, ks), λ (a, b). (shut a, shuts b))

each-shuts :
    (subs : List Subscriber)
    → All IsSound subs
    → (subs' : List Subscriber) × (each unregister subs ≡ some subs')
      × All IsSound subs'
      × All IsShut subs'
unfolding each
each-shuts [] h = ([], refl, tt, tt)
each-shuts (s ∷ rest) (h, hs) =
    let (s', e, k, shut) = unregister-shuts s h in
    let (rest', e', ks, shuts) = each-shuts rest hs in
    ((s' ∷ rest'), rw (e, e') refl, (k, ks), (shut, shuts))

nth-safe :
    (f : Subscriber → Option Subscriber) (n : ℕ) (subs : List Subscriber)
    → IsSafe f
    → All IsSound subs
    → (subs' : List Subscriber) × (nth f n subs ≡ some subs')
      × All IsSound subs'
      × (All IsShut subs → All IsShut subs')
unfolding nth
nth-safe f n [] safe h = ([], refl, tt, λ _. tt)
nth-safe f n (s ∷ rest) safe (h, hs) =
    let (s', e, k, shut) = safe s h in
    let (rest', e', ks, shuts) = nth-safe f n rest safe hs in
    elim (Bool-cases (nat_beq n (length rest))) [
      | inl t ↦ ((s' ∷ rest'), rw (t, e, e') refl, (k, ks), λ (a, b). (shut a, shuts b))
      | inr t ↦ ((s ∷ rest'), rw (t, e') refl, (h, ks), λ (a, b). (a, shuts b))
    ]

-- A call that does not panic, keeps the hub in order, and does not undo a close.
abbrev IsFine : Op → Hub → Type 0
IsFine op h = (h' : Hub) × (step op h ≡ some h') × IsHub h' × (h.closed ≡ true → h'.closed ≡ true)

step-IsFine : (op : Op) (h : Hub) → IsHub h → IsFine op h
unfolding step with_subscribers
step-IsFine subscribe h (a, shut) = (
  (record h {
    subscribers =
        (record { buffer = []; is_open = not h.closed; is_registered = not h.closed })
        ∷ h.subscribers;
  }),
  refl,
  (((refl, omega arith), a), λ c. (rw c refl, shut c)),
  (λ c. c),
)
step-IsFine (unsubscribe n) h (a, shut) =
    let (subs, e, k, keeps) = nth-safe unregister n h.subscribers unregister-IsSafe a in
    ((record h { subscribers = subs }), rw e refl, (k, λ c. keeps (shut c)), λ c. c)
step-IsFine close h (a, shut) = elim (Bool-cases h.closed) [
  | inl c ↦ (h, rw c refl, (a, shut), λ c'. c')
  | inr c ↦
      let (subs, e, k, shuts) = each-shuts h.subscribers a in
      ((record { subscribers = subs; closed = true }), rw (c, e) refl, (k, λ _. shuts), λ _. refl)
]
step-IsFine (broadcast e) h (a, shut) =
    let (subs, e', k, keeps) = each-safe (send e) h.subscribers (send-IsSafe e) a in
    ((record h { subscribers = subs }), rw e' refl, (k, λ c. keeps (shut c)), λ c. c)
step-IsFine (receive_from n) h (a, shut) =
    let (subs, e, k, keeps) = nth-safe receive n h.subscribers receive-IsSafe a in
    ((record h { subscribers = subs }), rw e refl, (k, λ c. keeps (shut c)), λ c. c)

run-safe :
    (ops : List Op) (h : Hub)
    → IsHub h
    → (h' : Hub) × (run ops h ≡ some h') × IsHub h' × (h.closed ≡ true → h'.closed ≡ true)
unfolding run
run-safe [] h k = (h, refl, k, λ c. c)
run-safe (op ∷ ops) h k =
    let (h1, e, k1, keeps) = step-IsFine op h k in
    let (h2, e2, k2, keeps2) = run-safe ops h1 k1 in (h2, rw e e2, k2, λ c. keeps2 (keeps c))

-- No sequence of calls of a new hub sends on a closed channel or closes one again, and behind each a
-- subscriber is in the set exactly while its channel is open, no buffer is over the capacity, and, if the
-- hub is closed, every channel is.
pub run-IsHub : (ops : List Op) → (h : Hub) × (run ops new_hub ≡ some h) × IsHub h
run-IsHub ops = let (h, e, k, _) = run-safe ops new_hub (tt, λ c. tt) in (h, e, k)

run-append :
    (before after : List Op) (h h' : Hub)
    → run before h ≡ some h'
    → run (before ++ after) h ≡ run after h'
unfolding run
run-append [] after h h' e = let same : h ≡ h' = cc in rw same refl
run-append (op ∷ ops) after h h' e = elim (Option-cases (step op h)) [
  | inl s ↦ absurd (none_not_some (rw s at e))
  | inr (h1, s) ↦ rw s (run-append ops after h1 h' (rw s at e))
]

closes : (h : Hub) → IsHub h → (h' : Hub) × (step close h ≡ some h') × IsHub h' × (h'.closed ≡ true)
unfolding step
closes h (a, shut) = elim (Bool-cases h.closed) [
  | inl c ↦ (h, rw c refl, (a, shut), c)
  | inr c ↦
      let (subs, e, k, shuts) = each-shuts h.subscribers a in
      ((record { subscribers = subs; closed = true }), rw (c, e) refl, (k, λ _. shuts), refl)
]

-- Behind a close, whatever calls come before and after it, the channel of every subscriber is closed, so
-- that each owner that waits on it wakes: also of those who subscribe later.
pub run-close :
    (before after : List Op)
    → (h : Hub) × (run (before ++ close ∷ after) new_hub ≡ some h) × All IsShut h.subscribers
unfolding run
run-close before after =
    let (h0, e0, k0, _) = run-safe before new_hub (tt, λ c. tt) in
    let (h1, e1, k1, c1) = closes h0 k0 in
    let (h2, e2, k2, keeps) = run-safe after h1 k1 in
    (h2, run-append before (close ∷ after) new_hub h0 e0 ∙ rw e1 e2, k2.1 (keeps c1))
