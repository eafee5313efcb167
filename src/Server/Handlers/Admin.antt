-- ===== src/Server/Handlers/Admin.antt =====
-- What the administrator's handlers change.
use apiforge.Base.{
  ◌≡◌, refl, inl, inr, String, Bool, true, false, some, arith, if◌then◌else◌, str_eq, eq_iff,
  Bool-cases, lookup, lookup-insert,
}
use apiforge.Registry.{Registry}
use apiforge.Pool.{Pool}
use apiforge.Pool.Health.{set_preferred, set_enabled}
use apiforge.Server.Handlers.{
  Handled, answered, failed, AdminBody, Pools, pool_for, after_switch, with_pool, wanted,
  admin_set_preferred, admin_set_enabled,
}

module _ {ℓ} {C : Type ℓ} where
  -- The pools after an administrator's call, by what it answered.
  abbrev pub Effect :
      Pools C → String → (Pool C → Pool C × Bool) → Pools C × Handled String → Type ℓ
  Effect pools provider method (pools', failed status kind message) =
      (id : String) → lookup id pools' ≡ lookup id pools
  Effect pools provider method (pools', answered account) =
      (q : Pool C) × (lookup provider pools ≡ some q)
      × ((method q).1 ≡ true)
      × ((id : String)
          → lookup id pools' ≡ (if str_eq provider id then some (method q).0 else lookup id pools))

  -- A method that reports an unknown account leaves the pool as it is.
  abbrev Keeps : (Pool C → Pool C × Bool) → Type ℓ
  Keeps method = (q : Pool C) → (method q).1 ≡ false → (method q).0 ≡ q

  module _ (reg : Registry) (pools : Pools C) (body : AdminBody) (method : Pool C → Pool C × Bool)
      (keeps : Keeps method) where
    after_switch-Effect :
        (q : Pool C)
        → lookup body.provider pools ≡ some q
        → Effect pools body.provider method (after_switch reg pools body (method q))
    unfolding after_switch
    after_switch-Effect q found = elim (Bool-cases (method q).1) [
      | inl known ↦
          rw known (q, found, known, λ id. lookup-insert body.provider id (method q).0 pools)
      | inr unknown ↦ rw unknown (λ id. ground (
        arith,
        lookup-insert body.provider id (method q).0 pools,
        keeps q unknown,
        eq_iff body.provider id,
      ))
    ]

    pool_for-lookup :
        (id : String) (q : Pool C) → pool_for reg pools id ≡ answered q → lookup id pools ≡ some q
    unfolding pool_for
    pool_for-lookup id q e = ground arith

    with_pool-Effect :
        (o : Handled (Pool C))
        → pool_for reg pools body.provider ≡ o
        → Effect pools body.provider method (with_pool reg pools body method o)
    with_pool-Effect (failed status kind message) e = λ id. refl
    with_pool-Effect (answered q) e = after_switch-Effect q (pool_for-lookup body.provider q e)

  set_enabled-Keeps :
      (account : String) (enabled : Bool) → Keeps (λ q. set_enabled q account enabled)
  unfolding set_enabled
  set_enabled-Keeps account enabled q e = ground arith

  set_preferred-Keeps : (account : String) → Keeps (λ q. set_preferred q account)
  unfolding set_preferred
  set_preferred-Keeps account q e = ground arith

  -- `POST /admin/accounts/enabled`, for every body: after an answer the pool of the named provider is
  -- what `SetEnabled` made of it, and it knew the account; after an error every pool is what it was;
  -- no other provider's pool is ever touched.
  pub admin_set_enabled-Effect :
      (reg : Registry) (pools : Pools C) (body : AdminBody)
      → Effect pools body.provider
          (λ q. set_enabled q body.account (wanted body.enabled))
          (admin_set_enabled reg pools (some body))
  unfolding admin_set_enabled
  admin_set_enabled-Effect reg pools body = elim (Bool-cases (str_eq body.account "")) [
    | inl missing ↦ rw missing (λ id. refl)
    | inr named ↦ rw named (
        with_pool-Effect reg pools body _ (set_enabled-Keeps body.account (wanted body.enabled))
          (pool_for reg pools body.provider) refl)
  ]

  -- `POST /admin/accounts/preferred`, for every body: after an answer the pool of the named provider
  -- is what `SetPreferred` made of it, and it accepted the account; after an error every pool is what
  -- it was; no other provider's pool is ever touched.
  pub admin_set_preferred-Effect :
      (reg : Registry) (pools : Pools C) (body : AdminBody)
      → Effect pools body.provider
          (λ q. set_preferred q body.account)
          (admin_set_preferred reg pools (some body))
  unfolding admin_set_preferred
  admin_set_preferred-Effect reg pools body =
      with_pool-Effect reg pools body _ (set_preferred-Keeps body.account)
        (pool_for reg pools body.provider) refl
