-- ===== src/Systems/Memory/Laws.antt =====
-- internal/systems/store.go: what the operations do to the system of each id.
use mathlib.Core.Option
use system_wrangler_backend.Prelude.{
  ℕ, ◌≡◌, Bool, none, some, arith, if◌then◌else◌, Bytes, bytes_eq, bytes_beq_iff, ◌==◌,
  Option-cases, inl, inr,
}
use system_wrangler_backend.Prelude.Maps.{lookup, insert, lookup-insert}
use system_wrangler_backend.Systems.{System, probed}
use system_wrangler_backend.Systems.Memory.{Fleet, update_probe}

inserted :
    (id j : Bytes) (g : System → System) (h : System) (fleet : Fleet)
    → lookup id fleet ≡ some h
    → lookup j (insert id (g h) fleet)
      ≡ (if id == j then Option.map g (lookup j fleet) else lookup j fleet)
inserted id j g h fleet e = ground (arith, bytes_beq_iff id j, lookup-insert id j (g h) fleet)

absent :
    (id j : Bytes) (g : System → System) (fleet : Fleet)
    → lookup id fleet ≡ none
    → lookup j fleet ≡ (if id == j then Option.map g (lookup j fleet) else lookup j fleet)
absent id j g fleet e = ground (arith, bytes_beq_iff id j)

pub lookup-update_probe :
    (id : Bytes) (answered : Bool) (now f s : ℕ) (j : Bytes) (fleet : Fleet)
    → lookup j (update_probe id answered now f s fleet).0
      ≡ (if id == j then Option.map (probed answered now f s) (lookup j fleet) else lookup j fleet)
unfolding update_probe
lookup-update_probe id answered now f s j fleet = elim (Option-cases (lookup id fleet)) [
  | inl e ↦ rw e (absent id j (probed answered now f s) fleet e)
  | inr (h, e) ↦ rw e (inserted id j (probed answered now f s) h fleet e)
]
