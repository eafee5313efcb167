-- ===== src/Server/Handlers.antt =====
-- internal/server/server.go: the handlers behind the gates. JSON decoding and the providers' own code
-- are parameters: `extract_model` is the `model` field of a body, `fn` the call of a provider, where
-- `none` is an error. The administrator's handlers take the decoded body, or `none` if it is no JSON,
-- and work on the pools of the pooled providers, by provider id.
pub mod Dispatch
pub mod Admin
use apiforge.Base.{
  ℕ, String, Bool, true, false, not, ◌&&◌, Option, none, some, List, if◌then◌else◌, str_eq, lookup,
  insert,
}
use apiforge.Base.Text.{Bytes, text_append}
use apiforge.Registry.{Provider, Registry, find_by_model, by_id, has_capability}
use apiforge.Pool.{Pool}
use apiforge.Pool.Health.{set_preferred, set_enabled}

-- An answer, or an error with its status, kind and message.
pub data Handled {ℓ} (R : Type ℓ) : Type ℓ where
  answered : R → Handled R
  failed : ℕ → String → String → Handled R

pub record RequestContext : Type 0 where
  pub request_id : String
  pub account_pin : String
  pub session : String

abbrev pub invalid : String
invalid = "invalid_request_error"

unfoldable pub called {ℓ} : {R : Type ℓ} → Option R → Handled R
called none = failed 502 "api_error" "Upstream request failed."
called (some r) = answered r

module _ {ℓ} {R : Type ℓ} (extract_model : Bytes → String)
    (fn : Provider → RequestContext → Bytes → Option R) where
  -- `dispatch` from the provider on.
  unfoldable pub dispatch_to : String → RequestContext → Bytes → Provider → Handled R
  unfolding called
  dispatch_to need rctx body p =
      if not (str_eq need "") && not (has_capability p need)
      then failed 400 invalid (
          text_append "Provider "
            (text_append p.id (text_append " does not support " (text_append need "."))))
      else called (fn p rctx body)

  -- `dispatch`; a body of `none` could not be read.
  unfoldable pub dispatch : Registry → String → RequestContext → Option Bytes → Handled R
  unfolding dispatch_to
  dispatch reg need rctx none = failed 400 invalid "Failed to read request body."
  dispatch reg need rctx (some body) =
      if str_eq (extract_model body) ""
      then failed 400 invalid "Missing required field: model."
      else elim (find_by_model reg (extract_model body)) [
        | none ↦ failed 404 invalid (text_append "No provider serves model: " (extract_model body))
        | some p ↦ dispatch_to need rctx body p
      ]

pub record AdminBody : Type 0 where
  pub provider : String
  pub account : String
  pub enabled : Option Bool

-- Absent, `enabled` is true.
abbrev pub wanted : Option Bool → Bool
wanted none = true
wanted (some enabled) = enabled

-- The pools by provider id.
abbrev pub Pools {ℓ} : Type ℓ → Type ℓ
Pools C = List (String × Pool C)

module _ {ℓ} {C : Type ℓ} (reg : Registry) where
  -- `poolFor`: a provider without an entry in the pools is not pooled.
  unfoldable pub pool_for : Pools C → String → Handled (Pool C)
  pool_for pools id =
      if str_eq id "" then failed 400 invalid "Missing 'provider'." else elim (by_id reg id) [
        | none ↦ failed 404 invalid (text_append "Unknown provider: " id)
        | some p ↦ elim (lookup id pools) [
          | none ↦
              failed 400 invalid (text_append "Provider " (text_append id " has no account pool."))
          | some q ↦ answered q
        ]
      ]

  -- The end of both handlers: what the pool's method did, and whether it knew the account.
  unfoldable pub after_switch : Pools C → AdminBody → Pool C × Bool → Pools C × Handled String
  after_switch pools body (q, known) =
      if not known
      then (
        insert body.provider q pools,
        failed 400 invalid (text_append "Unknown account: " body.account),
      )
      else (insert body.provider q pools, answered body.account)

  abbrev pub with_pool :
      Pools C → AdminBody → (Pool C → Pool C × Bool) → Handled (Pool C) → Pools C × Handled String
  with_pool pools body method (failed status kind message) = (pools, failed status kind message)
  with_pool pools body method (answered q) = after_switch pools body (method q)

  unfoldable pub admin_set_preferred : Pools C → Option AdminBody → Pools C × Handled String
  unfolding pool_for after_switch
  admin_set_preferred pools none = (pools, failed 400 invalid "Invalid JSON body.")
  admin_set_preferred pools (some body) =
      with_pool pools body (λ q. set_preferred q body.account) (pool_for pools body.provider)

  unfoldable pub admin_set_enabled : Pools C → Option AdminBody → Pools C × Handled String
  unfolding pool_for after_switch
  admin_set_enabled pools none = (pools, failed 400 invalid "Invalid JSON body.")
  admin_set_enabled pools (some body) =
      if str_eq body.account ""
      then (pools, failed 400 invalid "Missing 'account'.")
      else with_pool pools body (λ q. set_enabled q body.account (wanted body.enabled))
          (pool_for pools body.provider)
