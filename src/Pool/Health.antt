-- ===== src/Pool/Health.antt =====
-- internal/pool/pool.go: session affinity, cooldowns, the administrator's switches and `Status`.
use apiforge.Base.{
  ℕ, suc, ◌+◌, ◌-◌, ◌/◌, ◌*◌, String, Bool, true, false, not, ◌||◌, none, some, List, [], ◌∷◌, ltb,
  if◌then◌else◌, str_eq, ℤ, pos, is_pos, is_zero, add_time, lookup, insert,
}
use apiforge.Pool.{Account, Pool, state_at, healthy}
use apiforge.Pool.Slots.{put_state}

abbrev pub second : ℕ
second = 1000000000

abbrev pub default_rate_limit_cooldown : ℤ
default_rate_limit_cooldown = pos (60 * second)

abbrev pub auth_fail_cooldown : ℤ
auth_fail_cooldown = pos (300 * second)

pub record AccountStatus : Type 0 where
  pub id : String
  pub healthy : Bool
  pub manual_disabled : Bool
  pub failures : ℕ
  pub cooldown_ms : ℕ
  pub inflight : ℕ
  pub preferred : Bool

-- What `MarkRateLimited` makes of the upstream's wish.
abbrev pub cooldown_of : ℤ → ℤ
cooldown_of retry_after = if is_pos retry_after then retry_after else default_rate_limit_cooldown

module _ {ℓ} {C : Type ℓ} where
  unfoldable pub bind : Pool C → String → String → ℕ → Pool C
  bind p session id now =
      if str_eq session "" || is_zero p.sticky_ttl then p else elim (lookup id p.by_id) [
        | none ↦ p
        | some idx ↦ record p {
          sticky =
              insert session (record { id = id; expires = add_time now p.sticky_ttl }) p.sticky;
        }
      ]

  unfoldable pub mark_ok : Pool C → String → Pool C
  mark_ok p id = elim (lookup id p.by_id) [
    | none ↦ p
    | some idx ↦ put_state p idx (record (state_at p idx) { disabled_until = 0; failures = 0 })
  ]

  unfoldable pub cooldown : Pool C → String → ℤ → ℕ → Pool C
  cooldown p id d now = elim (lookup id p.by_id) [
    | none ↦ p
    | some idx ↦
        let s = state_at p idx in
        put_state p idx (record s { disabled_until = add_time now d; failures = s.failures + 1 })
  ]

  unfoldable pub mark_rate_limited : Pool C → String → ℤ → ℕ → Pool C
  mark_rate_limited p id retry_after now = cooldown p id (cooldown_of retry_after) now

  unfoldable pub mark_auth_failed : Pool C → String → ℕ → Pool C
  mark_auth_failed p id now = cooldown p id auth_fail_cooldown now

  unfoldable pub set_preferred : Pool C → String → Pool C × Bool
  set_preferred p id =
      if str_eq id "" then (record p { preferred = id }, true) else elim (lookup id p.by_id) [
        | none ↦ (p, false)
        | some idx ↦ (record p { preferred = id }, true)
      ]

  unfoldable pub set_enabled : Pool C → String → Bool → Pool C × Bool
  set_enabled p id enabled = elim (lookup id p.by_id) [
    | none ↦ (p, false)
    | some idx ↦
        let s = state_at p idx in
        (
          put_state p idx (record s {
            manual_disabled = not enabled;
            disabled_until = if enabled then 0 else s.disabled_until;
          }),
          true,
        )
  ]

  -- One row of `Status`; the cooldown is cut to whole milliseconds.
  unfoldable pub status_row : Pool C → ℕ → ℕ → Account C → AccountStatus
  status_row p now i a =
      let s = state_at p i in
      record {
        id = a.id;
        healthy = healthy p i now;
        manual_disabled = s.manual_disabled;
        failures = s.failures;
        cooldown_ms = if ltb now s.disabled_until then (s.disabled_until - now) / 1000000 else 0;
        inflight = s.inflight;
        preferred = str_eq p.preferred a.id;
      }

  unfoldable pub status_from : Pool C → ℕ → ℕ → List (Account C) → List AccountStatus
  status_from p now i [] = []
  status_from p now i (a ∷ rest) = status_row p now i a ∷ status_from p now (suc i) rest

  abbrev pub status : Pool C → ℕ → List AccountStatus
  status p now = status_from p now 0 p.accounts
