-- ===== src/Relay/Blame.antt =====
-- Which attempts cool an account down, and which leave its health alone.
use apiforge.Base.{ℕ, ◌<◌, ◌≡◌, String, true, false, arith, Option, none, some, ℤ, pos_part}
use apiforge.Pool.{Pool, state_at, healthy}
use apiforge.Pool.Slots.{release}
use apiforge.Pool.Health.{
  mark_rate_limited, mark_auth_failed, cooldown, cooldown_of, auth_fail_cooldown,
}
use apiforge.Pool.Invariant.{IsValid, cooldown-IsValid}
use apiforge.Pool.States.{names, state_at-cooldown, state_at-release}
use apiforge.Relay.{
  Response, Error, Outcome, responded, failed, panicked, Attempt, streams, retries, retry_after,
  short_cooldown, attempt_once, settle_error, settle_response,
}

-- The pool still thinks of every account's health as before.
abbrev pub SameHealth {ℓ} : {C : Type ℓ} → Pool C → Pool C → ℕ → Type 0
SameHealth p q i =
    ((state_at q i).disabled_until ≡ (state_at p i).disabled_until)
    × ((state_at q i).failures ≡ (state_at p i).failures)
    × ((state_at q i).manual_disabled ≡ (state_at p i).manual_disabled)

cooldown_of-pos : (d : ℤ) → 0 < pos_part (cooldown_of d)
cooldown_of-pos d = ground arith

-- The attempt ends the request and is no success.
abbrev pub IsFinal : Attempt → Type 0
IsFinal (streams r) = ⊥
IsFinal retries = ⊥
IsFinal _ = Unit

module _ {ℓ} {C : Type ℓ} where
  release-SameHealth :
      (p : Pool C) (id : String) (i : ℕ) → IsValid p → SameHealth p (release p id) i
  release-SameHealth p id i v = ground (arith, state_at-release p id i v)

  -- A cooldown of positive length, then the release: the account is out from now on.
  cooled :
      (p : Pool C) (id : String) (d : ℤ) (now i : ℕ)
      → IsValid p
      → 0 < pos_part d
      → names p id i ≡ true
      → healthy (release (cooldown p id d now) id) i now ≡ false
  cooled p id d now i v h e = ground (
    arith,
    state_at-release (cooldown p id d now) id i (cooldown-IsValid p id d now v),
    state_at-cooldown p id d now i v,
  )

  cools_response :
      (p : Pool C) (id session : String) (r : Response) (now i : ℕ)
      → IsValid p
      → names p id i ≡ true
      → (settle_response p id session r now).1 ≡ retries
      → healthy (settle_response p id session r now).0 i now ≡ false
  unfolding settle_response mark_rate_limited mark_auth_failed
  cools_response p id session r now i v n e = ground (
    arith,
    cooled p id (cooldown_of (retry_after r)) now i v (cooldown_of-pos (retry_after r)) n,
    cooled p id short_cooldown now i v (omega arith) n,
    cooled p id auth_fail_cooldown now i v (omega arith) n,
  )

  cools_error :
      (ctx_err : Option Error) (p : Pool C) (id : String) (x : Error) (now i : ℕ)
      → IsValid p
      → names p id i ≡ true
      → (settle_error ctx_err p id x now).1 ≡ retries
      → healthy (settle_error ctx_err p id x now).0 i now ≡ false
  unfolding settle_error mark_rate_limited
  cools_error (some y) p id x now i v n e = cc
  cools_error none p id x now i v n e =
      ground (arith, cooled p id (cooldown_of short_cooldown) now i v (omega arith) n)

  -- An attempt after which the next account is tried has cooled its account down: a further pass
  -- at that time does not offer it among the healthy ones.
  pub attempt_once-cools :
      (ctx_err : Option Error) (p : Pool C) (id session : String) (o : Outcome) (now i : ℕ)
      → IsValid p
      → names p id i ≡ true
      → (attempt_once ctx_err p id session o now).1 ≡ retries
      → healthy (attempt_once ctx_err p id session o now).0 i now ≡ false
  unfolding attempt_once
  attempt_once-cools ctx_err p id session (responded r) now i v n e =
      cools_response p id session r now i v n e
  attempt_once-cools ctx_err p id session (failed x) now i v n e =
      cools_error ctx_err p id x now i v n e
  attempt_once-cools ctx_err p id session panicked now i v n e = cc

  blameless_response :
      (p : Pool C) (id session : String) (r : Response) (now i : ℕ)
      → IsValid p
      → IsFinal (settle_response p id session r now).1
      → SameHealth p (settle_response p id session r now).0 i
  unfolding settle_response
  blameless_response p id session r now i v h = ground (arith, release-SameHealth p id i v)

  -- A disconnected client, a wrapped cancellation, a panic in the callback and an error response
  -- that is passed on count against no account.
  pub attempt_once-SameHealth :
      (ctx_err : Option Error) (p : Pool C) (id session : String) (o : Outcome) (now i : ℕ)
      → IsValid p
      → IsFinal (attempt_once ctx_err p id session o now).1
      → SameHealth p (attempt_once ctx_err p id session o now).0 i
  unfolding attempt_once settle_error
  attempt_once-SameHealth ctx_err p id session (responded r) now i v h =
      blameless_response p id session r now i v h
  attempt_once-SameHealth (some y) p id session (failed x) now i v h = release-SameHealth p id i v
  attempt_once-SameHealth none p id session (failed x) now i v h =
      ground (arith, release-SameHealth p id i v)
  attempt_once-SameHealth ctx_err p id session panicked now i v h = release-SameHealth p id i v
