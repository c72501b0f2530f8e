-- ===== src/Targeting/Tests.antt =====
-- internal/targeting/targeting.go: runs, and the theorems at concrete inputs.
use system_wrangler_backend.Prelude.{
  ◌≡◌, refl, Option, none, some, List, [], ◌∷◌, Bytes, codes, bytes_eq,
}
use system_wrangler_backend.Labels.Match.Tests.{not_prod, not_prod_parsed}
use system_wrangler_backend.Systems.{System}
use system_wrangler_backend.Targeting.{
  selector, systems, ok, Stores, placeholder, validate_value, resolve,
}
use system_wrangler_backend.Targeting.Resolved.{chosen, resolve-chosen, valid-resolves}

abbrev web : Bytes
web = codes "web"

abbrev not_prod_text : Bytes
not_prod_text = codes "env!=prod"

abbrev no_json : Bytes → Option (List Bytes)
no_json value = none

abbrev one_id : Bytes → Option (List Bytes)
one_id value = some (web ∷ [])

abbrev inventory : List System
inventory = placeholder web ∷ []

abbrev stores : Stores
stores = record { list = some inventory; get = λ id. none; for_systems = λ ids. some [] }

missing_is_pinned : resolve one_id systems (codes "[\"web\"]") stores ≡ ok inventory
unfolding resolve
missing_is_pinned = refl

resolve-chosen_example :
    resolve no_json selector not_prod_text stores ≡ ok (chosen not_prod [] inventory)
resolve-chosen_example =
    resolve-chosen no_json not_prod_text stores not_prod inventory [] not_prod_parsed refl refl

not_prod_valid : validate_value no_json selector not_prod_text ≡ ok tt
unfolding validate_value
not_prod_valid = rw not_prod_parsed refl

valid-resolves_example :
    (out : List System) × (resolve no_json selector not_prod_text stores ≡ ok out)
valid-resolves_example =
    valid-resolves no_json selector not_prod_text stores inventory not_prod_valid refl
      (λ ids. ([], refl))
