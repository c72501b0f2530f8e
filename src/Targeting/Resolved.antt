-- ===== src/Targeting/Resolved.antt =====
-- internal/targeting/targeting.go: what a valid target points at.
use system_wrangler_backend.Prelude.{
  ◌≡◌, refl, Option, none, some, List, [], ◌∷◌, map, keep, Bytes, bytes_eq,
}
use system_wrangler_backend.Prelude.Maps.{Map, lookup}
use system_wrangler_backend.Labels
use system_wrangler_backend.Labels.{Label}
use system_wrangler_backend.Labels.Parse.{Selector, parse_selector}
use system_wrangler_backend.Labels.Match.{index_labels}
use system_wrangler_backend.Labels.Match.Laws.{meets_all, matches-parsed}
use system_wrangler_backend.Systems.{System}
use system_wrangler_backend.Targeting.{
  Kind, global, group, systems, selector, other, Outcome, ok, or_fail, or_failed, Stores,
  labels_or_empty, select, validate_value, resolve, Error, invalid, is_empty, in_group, pinned,
  ◌>>=◌,
}

-- The systems whose labels meet all requirements.
abbrev pub chosen : Selector → Map Bytes (List Label) → List System → List System
chosen sel by_id all =
    keep (λ s. meets_all sel (index_labels (labels_or_empty (lookup s.id by_id)) [])) all

select-chosen :
    (value : Bytes) (sel : Selector) (by_id : Map Bytes (List Label)) (all : List System)
    → parse_selector value ≡ Labels.Result.ok sel
    → select sel by_id all ≡ ok (chosen sel by_id all)
unfolding select
select-chosen value sel by_id [] h = refl
select-chosen value sel by_id (s ∷ rest) h =
    rw
      (
        matches-parsed value sel (labels_or_empty (lookup s.id by_id)) h,
        select-chosen value sel by_id rest h,
      )
      refl

ok-bind_failed :
    {A B : Type 0} (e : Error) (o : Option A) (f : A → Outcome B) (b : B)
    → (or_failed e o >>= f) ≡ ok b
    → (a : A) × (o ≡ some a)
ok-bind_failed e none f b h = cc
ok-bind_failed e (some a) f b h = (a, refl)

ok-bind_fail :
    {A B : Type 0} (e : Error) (r : Labels.Result A) (f : A → Outcome B) (b : B)
    → (or_fail e r >>= f) ≡ ok b
    → (a : A) × (r ≡ Labels.Result.ok a)
ok-bind_fail e (Labels.Result.ok a) f b h = (a, refl)
ok-bind_fail e (Labels.Result.fail _) f b h = cc
ok-bind_fail e Labels.Result.panic f b h = cc
ok-bind_fail e Labels.Result.out_of_fuel f b h = cc

module _ (unmarshal : Bytes → Option (List Bytes)) where
  -- Where the stores answer, a selector that parses points exactly at the systems whose labels meet all of
  -- its requirements, in the order of the inventory.
  pub resolve-chosen :
      (value : Bytes) (stores : Stores) (sel : Selector) (all : List System)
      (by_id : Map Bytes (List Label))
      → parse_selector value ≡ Labels.Result.ok sel
      → stores.list ≡ some all
      → stores.for_systems (map (λ s. s.id) all) ≡ some by_id
      → resolve unmarshal selector value stores ≡ ok (chosen sel by_id all)
  unfolding resolve
  resolve-chosen value stores sel all by_id parsed listed loaded =
      rw (parsed, listed, loaded) (select-chosen value sel by_id all parsed)

  valid_ids :
      (value : Bytes)
      → validate_value unmarshal systems value ≡ ok tt
      → (ids : List Bytes) × (unmarshal value ≡ some ids)
  unfolding validate_value
  valid_ids value h = ok-bind_failed invalid (unmarshal value) _ tt h

  valid_selector :
      (value : Bytes)
      → validate_value unmarshal selector value ≡ ok tt
      → (sel : Selector) × (parse_selector value ≡ Labels.Result.ok sel)
  unfolding validate_value is_empty
  valid_selector [] h = cc
  valid_selector (c ∷ value) h = ok-bind_fail invalid (parse_selector (c ∷ value)) _ tt h

  -- A target whose value was found valid resolves, with no error and no panic, whatever its kind, while
  -- the stores answer.
  pub valid-resolves :
      (k : Kind) (value : Bytes) (stores : Stores) (all : List System)
      → validate_value unmarshal k value ≡ ok tt
      → stores.list ≡ some all
      → ((ids : List Bytes)
          → (by_id : Map Bytes (List Label)) × (stores.for_systems ids ≡ some by_id))
      → (out : List System) × (resolve unmarshal k value stores ≡ ok out)
  unfolding resolve validate_value
  valid-resolves global value stores all h listed loaded = (all, rw listed refl)
  valid-resolves group value stores all h listed loaded =
      (keep (λ s. in_group value s.group_id) all, rw listed refl)
  valid-resolves systems value stores all h listed loaded =
      let (ids, e) = valid_ids value h in (map (λ id. pinned id (stores.get id)) ids, rw e refl)
  valid-resolves selector value stores all h listed loaded =
      let (sel, parsed) = valid_selector value h in
      let (by_id, e) = loaded (map (λ s. s.id) all) in
      (chosen sel by_id all, resolve-chosen value stores sel all by_id parsed listed e)
  valid-resolves (other k) value stores all h listed loaded = cc
