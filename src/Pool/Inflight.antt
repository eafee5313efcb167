-- ===== src/Pool/Inflight.antt =====
-- How each method moves the in-flight counts.
use apiforge.Base.{ℕ, ◌+◌, ◌-◌, ◌≡◌, refl, ◌∙◌, String, true, List, [], ◌∷◌, arith, if◌then◌else◌}
use apiforge.Pool.{Pool, state_at}
use apiforge.Pool.Slots.{acquire, release}
use apiforge.Pool.Health.{mark_rate_limited, mark_auth_failed, cooldown_of, auth_fail_cooldown}
use apiforge.Pool.Invariant.{IsValid}
use apiforge.Pool.States.{
  names, state_at-candidates, state_at-acquire, state_at-release, state_at-bind, state_at-mark_ok,
  state_at-cooldown, state_at-set_preferred, state_at-set_enabled,
}
use apiforge.Pool.History.{
  Call, offers, acquires, releases, binds, succeeds, rate_limits, auth_fails, prefers, enables,
  call, run, call-IsValid,
}

abbrev pub inflight_at {ℓ} : {C : Type ℓ} → Pool C → ℕ → ℕ
inflight_at p i = (state_at p i).inflight

-- The call takes no slot and gives none back.
abbrev pub IsQuiet : Call → Type 0
IsQuiet (acquires id) = ⊥
IsQuiet (releases id) = ⊥
IsQuiet _ = Unit

abbrev pub AllQuiet : List Call → Type 0
AllQuiet [] = Unit
AllQuiet (c ∷ cs) = IsQuiet c × AllQuiet cs

module _ {ℓ} {C : Type ℓ} where
  pub inflight-quiet :
      (p : Pool C) (c : Call) (i : ℕ)
      → IsValid p
      → IsQuiet c
      → inflight_at (call p c) i ≡ inflight_at p i
  unfolding call mark_rate_limited mark_auth_failed
  inflight-quiet p (offers pin session now) i v h =
      ground (arith, state_at-candidates p pin session now i)
  inflight-quiet p (acquires id) i v h = absurd h
  inflight-quiet p (releases id) i v h = absurd h
  inflight-quiet p (binds session id now) i v h = ground (arith, state_at-bind p session id now i)
  inflight-quiet p (succeeds id) i v h = ground (arith, state_at-mark_ok p id i v)
  inflight-quiet p (rate_limits id d now) i v h =
      ground (arith, state_at-cooldown p id (cooldown_of d) now i v)
  inflight-quiet p (auth_fails id now) i v h =
      ground (arith, state_at-cooldown p id auth_fail_cooldown now i v)
  inflight-quiet p (prefers id) i v h = ground (arith, state_at-set_preferred p id i)
  inflight-quiet p (enables id enabled) i v h =
      ground (arith, state_at-set_enabled p id enabled i v)

  pub inflight-run_quiet :
      (p : Pool C) (cs : List Call) (i : ℕ)
      → IsValid p
      → AllQuiet cs
      → inflight_at (run p cs) i ≡ inflight_at p i
  unfolding run
  inflight-run_quiet p [] i v h = refl
  inflight-run_quiet p (c ∷ cs) i v h =
      inflight-run_quiet (call p c) cs i (call-IsValid p c v) h.1 ∙ inflight-quiet p c i v h.0

  pub inflight-acquire :
      (p : Pool C) (id : String) (i : ℕ)
      → IsValid p
      → (acquire p id).1 ≡ true
      → inflight_at (acquire p id).0 i
        ≡ (if names p id i then inflight_at p i + 1 else inflight_at p i)
  inflight-acquire p id i v e = ground (arith, state_at-acquire p id i v)

  pub inflight-release :
      (p : Pool C) (id : String) (i : ℕ)
      → IsValid p
      → inflight_at (release p id) i
        ≡ (if names p id i then inflight_at p i - 1 else inflight_at p i)
  inflight-release p id i v = ground (arith, state_at-release p id i v)
