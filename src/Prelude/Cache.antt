-- ===== src/Prelude/Cache.antt =====
-- `if v, ok := cache[k]; ok { return v }; v := load(k); cache[k] = v; return v`
use mathlib.Core.Path.{◌≡◌, refl}
use mathlib.Core.Logic.{inl, inr}
use mathlib.Core.Option.{Option, none, some}
use mathlib.Core.List.{[]}
use system_wrangler_backend.Prelude.Tests.{Option-cases, Bool-cases}
use system_wrangler_backend.Prelude.Eq.{Eq, ◌==◌}
use system_wrangler_backend.Prelude.Maps.{Map, lookup, insert, lookup-insert}

module _ {ℓ κ} {K : Type ℓ} {V : Type κ} ⦃e : Eq K⦄ (load : K → V) where
  hit_or_miss : K → Option V → Map K V → V × Map K V
  hit_or_miss k (some v) cache = (v, cache)
  hit_or_miss k none cache = (load k, insert k (load k) cache)

  pub cached : K → Map K V → V × Map K V
  unfolding hit_or_miss
  cached k cache = hit_or_miss k (lookup k cache) cache

  -- All that the cache holds is what a load gives.
  abbrev pub IsFaithful : Map K V → Type (ℓ ⊔ κ)
  IsFaithful cache = (k : K) (v : V) → lookup k cache ≡ some v → v ≡ load k

  pub empty-IsFaithful : IsFaithful []
  unfolding lookup
  empty-IsFaithful k v h = cc

  insert-IsFaithful :
      (k : K) (cache : Map K V) → IsFaithful cache → IsFaithful (insert k (load k) cache)
  insert-IsFaithful k cache h j v found = elim (Bool-cases (k == j)) [
    | inl t ↦
        let same : k ≡ j = (e.test_iff k j).0 t in
        let hit : some (load k) ≡ some v = rw (lookup-insert k j (load k) cache, t) at found in
        cc (same, hit)
    | inr t ↦ h j v (rw (lookup-insert k j (load k) cache, t) at found)
  ]

  -- A faithful cache changes nothing.
  pub cached-load :
      (k : K) (cache : Map K V)
      → IsFaithful cache
      → ((cached k cache).0 ≡ load k) × IsFaithful (cached k cache).1
  unfolding cached
  cached-load k cache h = elim (Option-cases (lookup k cache)) [
    | inl e ↦ rw e (refl, insert-IsFaithful k cache h)
    | inr (v, e) ↦ rw e (h k v e, h)
  ]
