-- ===== src/Registry/Tests.antt =====
-- The registry's theorems on two providers that share a model id.
use apiforge.Base.{
  ◌≡◌, String, true, false, none, some, [], ◌∷◌, map, lookup, if◌then◌else◌, str_eq,
}
use apiforge.Registry.{
  ModelObject, Provider, Registry, Init, init_all, find_by_model, empty, register,
}
use apiforge.Registry.Routing.{
  Searches, serves, last_reason, find_by_model-Searches, init_all-isolates,
}

abbrev model : String → String → ModelObject
model id owner = record { id = id; object = "model"; created = 9; owned_by = owner }

abbrev claude : Provider
claude = record {
  id = "claude";
  capabilities = "anthropic" ∷ [];
  is_ready = false;
  models = model "opus" "claude" ∷ model "auto" "claude" ∷ [];
  owns_model = λ m. str_eq m "opus";
}

abbrev cursor : Provider
cursor = record {
  id = "cursor";
  capabilities = [];
  is_ready = true;
  models = model "auto" "cursor" ∷ [];
  owns_model = λ m. true;
}

abbrev registry : Registry
registry = register (register empty claude) cursor

-- One provider becomes ready, the other one fails.
abbrev start_up : Init
start_up p =
    if str_eq p.id "claude"
    then (record p { is_ready = true }, none)
    else (record p { is_ready = false }, some "no credentials")

find_by_model-Searches_example :
    Searches (serves "opus") registry.providers (find_by_model registry "opus")
find_by_model-Searches_example = find_by_model-Searches registry "opus"

init_all-isolates_example :
    ((init_all start_up registry).providers ≡ map (λ p. (start_up p).0) registry.providers)
    × (lookup "cursor" (init_all start_up registry).reasons
        ≡ last_reason start_up "cursor" registry.providers (lookup "cursor" registry.reasons))
init_all-isolates_example = init_all-isolates start_up registry "cursor"
