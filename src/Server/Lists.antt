-- ===== src/Server/Lists.antt =====
-- internal/server/server.go: the read-only handlers behind the gates, and `writeError`'s two shapes.
use apiforge.Base.{
  ℕ, String, Bool, true, false, Option, none, some, List, [], ◌∷◌, map, if◌then◌else◌, lookup,
  insert,
}
use apiforge.Registry.{Provider, Registry, ready}
use apiforge.Pool.Health.{AccountStatus, status}
use apiforge.Grok.{contains}
use apiforge.Json.{Json, text, obj}
use apiforge.Server.Handlers.{Pools}

pub record ProviderEntry : Type 0 where
  pub id : String
  pub models : List String
  pub pooled : Bool

abbrev is_some {ℓ} : {A : Type ℓ} → Option A → Bool
is_some none = false
is_some (some a) = true

module _ {ℓ} {C : Type ℓ} where
  abbrev pub entry_of : Pools C → Provider → ProviderEntry
  entry_of pools p = record {
    id = p.id;
    models = map (λ m. m.id) p.models;
    pooled = is_some (lookup p.id pools);
  }

  abbrev pub admin_providers : Registry → Pools C → List ProviderEntry
  admin_providers reg pools = map (entry_of pools) (ready reg)

  -- The map is filled provider by provider.
  unfoldable pub accounts_from :
      Pools C
      → ℕ
      → List (String × List AccountStatus)
      → List Provider
      → List (String × List AccountStatus)
  accounts_from pools now out [] = out
  accounts_from pools now out (p ∷ rest) = elim (lookup p.id pools) [
    | none ↦ accounts_from pools now out rest
    | some pool ↦ accounts_from pools now (insert p.id (status pool now) out) rest
  ]

  abbrev pub admin_accounts : Registry → Pools C → ℕ → List (String × List AccountStatus)
  admin_accounts reg pools now = accounts_from pools now [] (ready reg)

-- The shape of an error, by the surface that the path belongs to.
abbrev pub error_body : String → String → String → Json
error_body path kind message =
    if contains path "/messages"
    then obj (
        ("type", text "error")
        ∷ ("error", obj (("type", text kind) ∷ ("message", text message) ∷ []))
        ∷ [])
    else obj (("error", obj (("message", text message) ∷ ("type", text kind) ∷ [])) ∷ [])
