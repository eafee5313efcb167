-- ===== src/Pool/History.antt =====
-- A pool under any sequence of calls: the invariant, the cap, and the administrator's switch.
use apiforge.Base.{
  ℕ, ◌≤◌, ◌≡◌, ◌≢◌, refl, sym, ◌∙◌, String, Bool, true, false, some, List, [], ◌∷◌, arith, ℤ,
  is_pos, pos_part, lookup, All,
}
use apiforge.Pool.{Account, Options, Pool, new, state_at, healthy}
use apiforge.Pool.Slots.{acquire_at, acquire, release_at, release}
use apiforge.Pool.Health.{
  bind, mark_ok, cooldown_of, auth_fail_cooldown, cooldown, mark_rate_limited, mark_auth_failed,
  set_preferred, set_enabled,
}
use mathlib.Core.Path.{subst}
use apiforge.Pool.States.{
  state_at-candidates, state_at-acquire, state_at-release, state_at-bind, state_at-mark_ok,
  state_at-cooldown, state_at-set_preferred, state_at-set_enabled,
}
use apiforge.Pool.Candidates.{candidates}
use apiforge.Pool.Invariant.{
  IsValid, new-IsValid, acquire-IsValid, release-IsValid, bind-IsValid, mark_ok-IsValid,
  cooldown-IsValid, set_preferred-IsValid, set_enabled-IsValid, candidates-IsValid,
  state_at-WithinCap,
}

-- One call of a method that may change the pool, at a time.
pub data Call : Type 0 where
  offers : String → String → ℕ → Call
  acquires : String → Call
  releases : String → Call
  binds : String → String → ℕ → Call
  succeeds : String → Call
  rate_limits : String → ℤ → ℕ → Call
  auth_fails : String → ℕ → Call
  prefers : String → Call
  enables : String → Bool → Call

-- The call does not switch account `i` on.
abbrev pub LeavesOff : List (String × ℕ) → ℕ → Call → Type 0
LeavesOff by_id i (enables id true) = lookup id by_id ≢ some i
LeavesOff by_id i _ = Unit

module _ {ℓ} {C : Type ℓ} where
  unfoldable pub call : Pool C → Call → Pool C
  call p (offers pin session now) = (candidates p pin session now).0
  call p (acquires id) = (acquire p id).0
  call p (releases id) = release p id
  call p (binds session id now) = bind p session id now
  call p (succeeds id) = mark_ok p id
  call p (rate_limits id d now) = mark_rate_limited p id d now
  call p (auth_fails id now) = mark_auth_failed p id now
  call p (prefers id) = (set_preferred p id).0
  call p (enables id enabled) = (set_enabled p id enabled).0

  unfoldable pub run : Pool C → List Call → Pool C
  run p [] = p
  run p (c ∷ cs) = run (call p c) cs

  pub call-IsValid : (p : Pool C) (c : Call) → IsValid p → IsValid (call p c)
  unfolding call mark_rate_limited mark_auth_failed
  call-IsValid p (offers pin session now) v = candidates-IsValid p pin session now v
  call-IsValid p (acquires id) v = acquire-IsValid p id v
  call-IsValid p (releases id) v = release-IsValid p id v
  call-IsValid p (binds session id now) v = bind-IsValid p session id now v
  call-IsValid p (succeeds id) v = mark_ok-IsValid p id v
  call-IsValid p (rate_limits id d now) v = cooldown-IsValid p id _ now v
  call-IsValid p (auth_fails id now) v = cooldown-IsValid p id _ now v
  call-IsValid p (prefers id) v = set_preferred-IsValid p id v
  call-IsValid p (enables id enabled) v = set_enabled-IsValid p id enabled v

  -- A valid pool stays valid under every sequence of calls: each account keeps its state and its
  -- index, every index is in range, and no account is above the cap.
  pub run-IsValid : (p : Pool C) (cs : List Call) → IsValid p → IsValid (run p cs)
  unfolding run
  run-IsValid p [] v = v
  run-IsValid p (c ∷ cs) v = run-IsValid (call p c) cs (call-IsValid p c v)

  -- The cap of a pool never changes.
  pub call-conc : (p : Pool C) (c : Call) → (call p c).conc ≡ p.conc
  unfolding call candidates acquire acquire_at release release_at bind mark_ok mark_rate_limited
      mark_auth_failed cooldown set_preferred set_enabled
  call-conc p (offers pin session now) = ground arith
  call-conc p (acquires id) = ground arith
  call-conc p (releases id) = ground arith
  call-conc p (binds session id now) = ground arith
  call-conc p (succeeds id) = ground arith
  call-conc p (rate_limits id d now) = ground arith
  call-conc p (auth_fails id now) = ground arith
  call-conc p (prefers id) = ground arith
  call-conc p (enables id enabled) = ground arith

  pub run-conc : (p : Pool C) (cs : List Call) → (run p cs).conc ≡ p.conc
  unfolding run
  run-conc p [] = refl
  run-conc p (c ∷ cs) = run-conc (call p c) cs ∙ call-conc p c

  pub new-conc :
      (accounts : List (Account C)) (opts : Options) (p : Pool C)
      → new accounts opts ≡ some p
      → p.conc ≡ opts.max_concurrency
  unfolding new
  new-conc [] opts p e = cc
  new-conc (a ∷ rest) opts p e = cc

  -- Whatever is called on a new pool, in any order, no account ever has more requests in flight
  -- than the cap, where there is one.
  pub run-new-inflight :
      (accounts : List (Account C)) (opts : Options) (p : Pool C) (cs : List Call) (i : ℕ)
      → new accounts opts ≡ some p
      → is_pos opts.max_concurrency ≡ true
      → (state_at (run p cs) i).inflight ≤ pos_part opts.max_concurrency
  run-new-inflight accounts opts p cs i e h =
      let inside =
        state_at-WithinCap (run p cs) i (run-IsValid p cs (new-IsValid accounts opts p e)) in
      ground (arith, run-conc p cs, new-conc accounts opts p e)

  pub call-by_id : (p : Pool C) (c : Call) → (call p c).by_id ≡ p.by_id
  unfolding call candidates acquire acquire_at release release_at bind mark_ok mark_rate_limited
      mark_auth_failed cooldown set_preferred set_enabled
  call-by_id p (offers pin session now) = ground arith
  call-by_id p (acquires id) = ground arith
  call-by_id p (releases id) = ground arith
  call-by_id p (binds session id now) = ground arith
  call-by_id p (succeeds id) = ground arith
  call-by_id p (rate_limits id d now) = ground arith
  call-by_id p (auth_fails id now) = ground arith
  call-by_id p (prefers id) = ground arith
  call-by_id p (enables id enabled) = ground arith

  abbrev pub IsOff : Pool C → ℕ → Type 0
  IsOff p i = (state_at p i).manual_disabled ≡ true

  call-IsOff :
      (p : Pool C) (c : Call) (i : ℕ)
      → IsValid p
      → LeavesOff p.by_id i c
      → IsOff p i
      → IsOff (call p c) i
  unfolding call mark_rate_limited mark_auth_failed
  call-IsOff p (offers pin session now) i v l off =
      ground (arith, state_at-candidates p pin session now i)
  call-IsOff p (acquires id) i v l off = ground (arith, state_at-acquire p id i v)
  call-IsOff p (releases id) i v l off = ground (arith, state_at-release p id i v)
  call-IsOff p (binds session id now) i v l off = ground (arith, state_at-bind p session id now i)
  call-IsOff p (succeeds id) i v l off = ground (arith, state_at-mark_ok p id i v)
  call-IsOff p (rate_limits id d now) i v l off =
      ground (arith, state_at-cooldown p id (cooldown_of d) now i v)
  call-IsOff p (auth_fails id now) i v l off =
      ground (arith, state_at-cooldown p id auth_fail_cooldown now i v)
  call-IsOff p (prefers id) i v l off = ground (arith, state_at-set_preferred p id i)
  call-IsOff p (enables id false) i v l off = ground (arith, state_at-set_enabled p id false i v)
  call-IsOff p (enables id true) i v l off = ground (arith, state_at-set_enabled p id true i v)

  run-IsOff :
      (p : Pool C) (cs : List Call) (i : ℕ)
      → IsValid p
      → All (LeavesOff p.by_id i) cs
      → IsOff p i
      → IsOff (run p cs) i
  unfolding run
  run-IsOff p [] i v l off = off
  run-IsOff p (c ∷ cs) i v l off =
      run-IsOff (call p c) cs i (call-IsValid p c v)
        (subst (λ m. All (LeavesOff m i) cs) (sym (call-by_id p c)) l.1)
        (call-IsOff p c i v l.0 off)

  pub run-by_id : (p : Pool C) (cs : List Call) → (run p cs).by_id ≡ p.by_id
  unfolding run
  run-by_id p [] = refl
  run-by_id p (c ∷ cs) = run-by_id (call p c) cs ∙ call-by_id p c

  -- An account that the administrator has disabled stays unhealthy, at every time and whatever is
  -- called, until it is enabled again: successes, cooldowns that end and releases do not bring it back.
  pub run-set_enabled-healthy :
      (p : Pool C) (id : String) (cs : List Call) (i now : ℕ)
      → IsValid p
      → lookup id p.by_id ≡ some i
      → All (LeavesOff p.by_id i) cs
      → healthy (run (set_enabled p id false).0 cs) i now ≡ false
  unfolding call
  run-set_enabled-healthy p id cs i now v e l =
      let q = (set_enabled p id false).0 in
      let off =
        run-IsOff q cs i (set_enabled-IsValid p id false v)
          (subst (λ m. All (LeavesOff m i) cs) (sym (call-by_id p (enables id false))) l)
          (ground (arith, state_at-set_enabled p id false i v)) in
      ground arith
