-- ===== src/Updaters/Gate/Runs.antt =====
-- internal/updaters/gate.go: any interleaving of acquirers, releases and cancellations. A holder is
-- a caller whose slot is its own, whether or not it has seen its channel closed.
use system_wrangler_backend.Prelude.{
  Bool-cases, Option-cases, ℕ, suc, ◌≤◌, ◌≡◌, ◌⊎◌, inl, inr, refl, true, Option, none, some, List,
  [], ◌∷◌, ◌++◌, arith, if◌then◌else◌, length, length-append, ◌==◌, nat_eq,
}
use system_wrangler_backend.Updaters.Gate.{
  Gate, limit, acquire, release_locked, release, dequeue, cancel,
}
use system_wrangler_backend.Updaters.Gate.Handoff.{release-hands_off, release-fills}

pub record World : Type 0 where
  pub gate : Gate
  pub holders : List ℕ

abbrev pub start : World
start = record { gate = record { active = 0; waiters = [] }; holders = [] }

abbrev pub arrived : Option ℕ → ℕ → World → World
arrived l ch w = record {
  gate = (acquire l ch w.gate).0;
  holders = if (acquire l ch w.gate).1 then ch ∷ w.holders else w.holders;
}

-- The gate after an operation that closed channels: their owners hold slots now.
abbrev pub handed : Gate × List ℕ → List ℕ → World
handed r others = record { gate = r.0; holders = others ++ r.1 }

-- One step, with the limits that it reads: an arrival reads one, a release one before each
-- hand-over.
pub data Step (reads : ℕ → Option ℕ) : World → World → Type 0 where
  arrive : (w : World) (ch : ℕ) → Step reads w (arrived (reads 0) ch w)
  give_back :
      (w : World) (ch : ℕ) (others : List ℕ)
      → dequeue ch w.holders ≡ some others
      → Step reads w (handed (release reads w.gate) others)
  give_up_queued :
      (w : World) (ch : ℕ) (ws : List ℕ)
      → dequeue ch w.gate.waiters ≡ some ws
      → Step reads w (handed (cancel reads ch w.gate) w.holders)
  give_up_signalled :
      (w : World) (ch : ℕ) (others : List ℕ)
      → dequeue ch w.gate.waiters ≡ none
      → dequeue ch w.holders ≡ some others
      → Step reads w (handed (cancel reads ch w.gate) others)

-- Runs in which every reading may find another limit, and runs under one limit.
pub data Reach : World → Type 0 where
  here : Reach start
  next : {w v : World} (reads : ℕ → Option ℕ) → Reach w → Step reads w v → Reach v

pub data ReachUnder (l : Option ℕ) : World → Type 0 where
  here : ReachUnder l start
  next : {w v : World} → ReachUnder l w → Step (λ _. l) w v → ReachUnder l v

length-dequeue : (ch : ℕ) (xs ys : List ℕ) → dequeue ch xs ≡ some ys → length xs ≡ suc (length ys)
unfolding dequeue
length-dequeue ch [] ys h = cc
length-dequeue ch (x ∷ xs) ys h = elim (Bool-cases (x == ch)) [
  | inl e ↦ ground arith
  | inr e ↦ elim (Option-cases (dequeue ch xs)) [
    | inl n ↦ ground arith
    | inr (zs, m) ↦ ground (arith, length-dequeue ch xs zs m)
  ]
]

dequeue-nil : (ch : ℕ) (ws : List ℕ) → dequeue ch [] ≡ some ws → ⊥
unfolding dequeue
dequeue-nil ch ws h = cc

cancel-queued :
    (reads : ℕ → Option ℕ) (ch : ℕ) (g : Gate) (ws : List ℕ)
    → dequeue ch g.waiters ≡ some ws
    → cancel reads ch g ≡ (record g { waiters = ws }, [])
unfolding cancel
cancel-queued reads ch g ws e = rw (e, cancel) refl

cancel-signalled :
    (reads : ℕ → Option ℕ) (ch : ℕ) (g : Gate)
    → dequeue ch g.waiters ≡ none
    → cancel reads ch g ≡ release_locked reads g
unfolding cancel
cancel-signalled reads ch g e = rw (e, cancel) refl

abbrev IsCounted : World → Type 0
IsCounted w = w.gate.active ≡ length w.holders

-- Giving one of the counted slots back, and handing slots on, leaves every slot counted.
handed-IsCounted :
    (reads : ℕ → Option ℕ) (w : World) (ch : ℕ) (others : List ℕ)
    → dequeue ch w.holders ≡ some others
    → IsCounted w
    → IsCounted (handed (release_locked reads w.gate) others)
handed-IsCounted reads w ch others e c = omega (
  arith,
  (release-hands_off reads w.gate).1,
  length-append others (release_locked reads w.gate).1,
  length-dequeue ch w.holders others e,
)

Step-IsCounted : {reads : ℕ → Option ℕ} {w v : World} → Step reads w v → IsCounted w → IsCounted v
unfolding release
Step-IsCounted {reads} (arrive w ch) c = unfold acquire in ground arith
Step-IsCounted {reads} (give_back w ch others e) c = handed-IsCounted reads w ch others e c
Step-IsCounted {reads} (give_up_queued w ch ws e) c =
    rw (cancel-queued reads ch w.gate ws e) (omega (arith, length-append {0} w.holders []))
Step-IsCounted {reads} (give_up_signalled w ch others e e') c =
    rw (cancel-signalled reads ch w.gate e) (handed-IsCounted reads w ch others e' c)

-- In every interleaving of arrivals, releases and cancellations, and however the limit changes, also
-- between two readings of one release, the count of active slots is the number of callers that hold
-- one.
pub Reach-IsCounted : {w : World} → Reach w → w.gate.active ≡ length w.holders
Reach-IsCounted here = refl
Reach-IsCounted (next reads r s) = Step-IsCounted s (Reach-IsCounted r)

-- Under one limit the ceiling holds, and nobody waits while a slot is free.
record IsTight (l : Option ℕ) (g : Gate) : Type 0 where
  ceiling : g.active ≤ limit l
  no_idle : (g.waiters ≡ []) ⊎ (limit l ≤ g.active)

release_locked-IsTight :
    (l : Option ℕ) (g : Gate) → IsTight l g → IsTight l (release_locked (λ _. l) g).0
release_locked-IsTight l g t =
    let (bound, full) = release-fills l g in
    record { ceiling = omega (arith, t.ceiling); no_idle = full }

acquire-IsTight : (l : Option ℕ) (ch : ℕ) (g : Gate) → IsTight l g → IsTight l (acquire l ch g).0
unfolding acquire
acquire-IsTight l ch g t = record {
  ceiling = ground (arith, t.ceiling);
  no_idle = ground (arith, t.no_idle);
}

Step-IsTight :
    {l : Option ℕ} {w v : World} → Step (λ _. l) w v → IsTight l w.gate → IsTight l v.gate
unfolding release
Step-IsTight {l} (arrive w ch) t = acquire-IsTight l ch w.gate t
Step-IsTight {l} (give_back w ch others e) t = release_locked-IsTight l w.gate t
Step-IsTight {l} (give_up_queued w ch ws e) t = rw (cancel-queued (λ _. l) ch w.gate ws e) (record {
  ceiling = t.ceiling;
  no_idle = elim t.no_idle [ inl n ↦ absurd (dequeue-nil ch ws (rw n at e)) | inr n ↦ inr n ];
})
Step-IsTight {l} (give_up_signalled w ch others e e') t =
    rw (cancel-signalled (λ _. l) ch w.gate e) (release_locked-IsTight l w.gate t)

ReachUnder-IsTight : {l : Option ℕ} {w : World} → ReachUnder l w → IsTight l w.gate
ReachUnder-IsTight here = record { ceiling = omega arith; no_idle = inl refl }
ReachUnder-IsTight (next r s) = Step-IsTight s (ReachUnder-IsTight r)

-- While the limit stays as it is, no more slots are taken than it allows, somebody waits only if
-- all slots are taken, and a newcomer that gets a slot at once overtakes nobody.
pub fixed_limit :
    {l : Option ℕ} {w : World} (ch : ℕ)
    → ReachUnder l w
    → (w.gate.active ≤ limit l)
      × ((w.gate.waiters ≡ []) ⊎ (limit l ≤ w.gate.active))
      × ((acquire l ch w.gate).1 ≡ true → w.gate.waiters ≡ [])
unfolding acquire
fixed_limit {l} {w} ch r =
    let t = ReachUnder-IsTight r in (t.ceiling, t.no_idle, ground (arith, t.no_idle))
