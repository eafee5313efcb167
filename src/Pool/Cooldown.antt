-- ===== src/Pool/Cooldown.antt =====
-- When an account is healthy again, and which account a session is bound to.
use apiforge.Base.{
  ℕ, ◌+◌, ◌≡◌, ◌≢◌, String, true, false, not, ◌&&◌, some, arith, if◌then◌else◌, lookup, ltb, ℤ,
  add_time, is_zero, pos_part, eq_iff, lookup-insert_self,
}
use apiforge.Pool.{Pool, state_at, healthy}
use apiforge.Pool.Health.{bind, mark_ok, cooldown_of, mark_rate_limited}
use apiforge.Pool.Candidates.{sticky_lookup}
use apiforge.Pool.Invariant.{IsValid}
use apiforge.Pool.States.{names, state_at-mark_ok, state_at-cooldown}

module _ {ℓ} {C : Type ℓ} where
  -- After a 429 the account sits out until the upstream's wish, or the default, has passed from now
  -- on, and longer only if it is disabled by hand; no other account is touched.
  pub healthy-mark_rate_limited :
      (p : Pool C) (id : String) (retry_after : ℤ) (now i later : ℕ)
      → IsValid p
      → healthy (mark_rate_limited p id retry_after now) i later ≡ (
          if names p id i
          then not (state_at p i).manual_disabled
            && not (ltb later (now + pos_part (cooldown_of retry_after)))
          else healthy p i later)
  unfolding mark_rate_limited
  healthy-mark_rate_limited p id retry_after now i later v =
      ground (arith, state_at-cooldown p id (cooldown_of retry_after) now i v)

  -- After a success the account is healthy at every time unless it is disabled by hand, and its
  -- failures are forgotten; no other account is touched.
  pub state_at-mark_ok-healthy :
      (p : Pool C) (id : String) (i later : ℕ)
      → IsValid p
      → names p id i ≡ true
      → (healthy (mark_ok p id) i later ≡ not (state_at p i).manual_disabled)
        × ((state_at (mark_ok p id) i).failures ≡ 0)
        × ((state_at (mark_ok p id) i).inflight ≡ (state_at p i).inflight)
  state_at-mark_ok-healthy p id i later v e = ground (arith, state_at-mark_ok p id i v)

  -- A session that was bound to an account finds it again exactly while the binding has not expired
  -- and the account is healthy.
  pub sticky_lookup-bind :
      (p : Pool C) (session id : String) (now later i : ℕ)
      → session ≢ ""
      → is_zero p.sticky_ttl ≡ false
      → lookup id p.by_id ≡ some i
      → sticky_lookup (bind p session id now) session later
        ≡ (if not (ltb (add_time now p.sticky_ttl) later) && healthy p i later then id else "")
  unfolding bind sticky_lookup
  sticky_lookup-bind p session id now later i ne ttl e = ground (
    arith,
    eq_iff session "",
    lookup-insert_self session (record { id = id; expires = add_time now p.sticky_ttl }) p.sticky,
  )
