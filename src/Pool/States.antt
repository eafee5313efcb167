-- ===== src/Pool/States.antt =====
-- What each method does to the state of one account.
use apiforge.Base.{
  ℕ, ◌+◌, ◌-◌, ◌<◌, ◌≡◌, inl, inr, String, Bool, false, not, ◌&&◌, Option, none, some, arith, ◌==◌,
  ==_iff, if◌then◌else◌, lookup, length, Bool-cases, get_or-set_self, get_or-set_ne, lookup-All,
  Option-cases, ltb, ℤ, add_time,
}
use apiforge.Pool.{State, Pool, fresh_state, state_at}
use apiforge.Pool.Slots.{put_state, acquire_at, acquire, release_at, release}
use apiforge.Pool.Health.{bind, mark_ok, cooldown, set_preferred, set_enabled}
use apiforge.Pool.Candidates.{candidates}
use apiforge.Pool.Invariant.{IsValid, PointsAt, ids}

abbrev pub is_at : Option ℕ → ℕ → Bool
is_at none i = false
is_at (some k) i = k == i

module _ {ℓ} {C : Type ℓ} where
  -- The index of a known id is in range.
  pub lookup-in_range :
      (p : Pool C) (id : String) {k : ℕ}
      → IsValid p
      → lookup id p.by_id ≡ some k
      → k < length p.states
  lookup-in_range p id v e =
      let inside = (lookup-All (PointsAt (ids p.accounts)) id p.by_id v.indexed e).0 in
      omega (arith, v.sized)

  pub state_at-put_state :
      (p : Pool C) (k i : ℕ) (s : State)
      → k < length p.states
      → state_at (put_state p k s) i ≡ (if k == i then s else state_at p i)
  state_at-put_state p k i s h = elim (Bool-cases (k == i)) [
    | inl same ↦ rw (same, ← (==_iff k i).0 same) (get_or-set_self p.states k s fresh_state h)
    | inr other ↦ rw other (get_or-set_ne p.states k i s fresh_state (ground arith))
  ]

  -- The id is known, and account `i` is its account.
  abbrev pub names : Pool C → String → ℕ → Bool
  names p id i = is_at (lookup id p.by_id) i

  -- A method that gives the state of the named account a new value.
  put_state-names :
      (p : Pool C) (id : String) (k i : ℕ) (f : State → State)
      → IsValid p
      → lookup id p.by_id ≡ some k
      → state_at (put_state p k (f (state_at p k))) i
        ≡ (if names p id i then f (state_at p i) else state_at p i)
  put_state-names p id k i f v e =
      rw (e, state_at-put_state p k i (f (state_at p k)) (lookup-in_range p id v e))
        (elim (Bool-cases (k == i)) [
          | inl same ↦ rw (same, (==_iff k i).0 same)
          | inr other ↦ rw other
        ])

  pub state_at-mark_ok :
      (p : Pool C) (id : String) (i : ℕ)
      → IsValid p
      → state_at (mark_ok p id) i ≡ (
          if names p id i
          then record (state_at p i) { disabled_until = 0; failures = 0 }
          else state_at p i)
  unfolding mark_ok
  state_at-mark_ok p id i v = elim (Option-cases (lookup id p.by_id)) [
    | inl e ↦ rw (e, mark_ok)
    | inr (k, e) ↦
        rw (e, mark_ok)
          (rw e at
            (put_state-names p id k i (λ s. record s { disabled_until = 0; failures = 0 }) v e))
  ]

  pub state_at-cooldown :
      (p : Pool C) (id : String) (d : ℤ) (now i : ℕ)
      → IsValid p
      → state_at (cooldown p id d now) i ≡ (
          if names p id i
          then record (state_at p i) {
            disabled_until = add_time now d;
            failures = (state_at p i).failures + 1;
          }
          else state_at p i)
  unfolding cooldown
  state_at-cooldown p id d now i v = elim (Option-cases (lookup id p.by_id)) [
    | inl e ↦ rw (e, cooldown)
    | inr (k, e) ↦
        rw (e, cooldown)
          (rw e at (
            put_state-names p id k i
              (λ s. record s { disabled_until = add_time now d; failures = s.failures + 1 }) v e))
  ]

  pub state_at-set_enabled :
      (p : Pool C) (id : String) (enabled : Bool) (i : ℕ)
      → IsValid p
      → state_at (set_enabled p id enabled).0 i ≡ (
          if names p id i
          then record (state_at p i) {
            manual_disabled = not enabled;
            disabled_until = if enabled then 0 else (state_at p i).disabled_until;
          }
          else state_at p i)
  unfolding set_enabled
  state_at-set_enabled p id enabled i v = elim (Option-cases (lookup id p.by_id)) [
    | inl e ↦ rw (e, set_enabled)
    | inr (k, e) ↦
        rw (e, set_enabled)
          (rw e at (
            put_state-names p id k i
              (λ s. record s {
                manual_disabled = not enabled;
                disabled_until = if enabled then 0 else s.disabled_until;
              })
              v e))
  ]

  -- `Acquire` counts one more request on the named account, if it grants the slot.
  pub state_at-acquire :
      (p : Pool C) (id : String) (i : ℕ)
      → IsValid p
      → state_at (acquire p id).0 i ≡ (
          if names p id i && (acquire p id).1
          then record (state_at p i) { inflight = (state_at p i).inflight + 1 }
          else state_at p i)
  unfolding acquire acquire_at
  state_at-acquire p id i v = elim (Option-cases (lookup id p.by_id)) [
    | inl e ↦ rw (e, acquire)
    | inr (k, e) ↦
        ground (arith, put_state-names p id k i (λ s. record s { inflight = s.inflight + 1 }) v e)
  ]

  -- `Release` counts one request less on the named account, if there is one.
  pub state_at-release :
      (p : Pool C) (id : String) (i : ℕ)
      → IsValid p
      → state_at (release p id) i ≡ (
          if names p id i
          then record (state_at p i) { inflight = (state_at p i).inflight - 1 }
          else state_at p i)
  unfolding release release_at
  state_at-release p id i v = elim (Option-cases (lookup id p.by_id)) [
    | inl e ↦ rw (e, release)
    | inr (k, e) ↦ elim (Bool-cases (ltb 0 (state_at p k).inflight)) [
      | inl held ↦
          ground (arith, put_state-names p id k i (λ s. record s { inflight = s.inflight - 1 }) v e)
      | inr free ↦ ground (arith, e)
    ]
  ]

  pub state_at-candidates :
      (p : Pool C) (pin session : String) (now i : ℕ)
      → state_at (candidates p pin session now).0 i ≡ state_at p i
  unfolding candidates
  state_at-candidates p pin session now i = ground arith

  pub state_at-bind :
      (p : Pool C) (session id : String) (now i : ℕ)
      → state_at (bind p session id now) i ≡ state_at p i
  unfolding bind
  state_at-bind p session id now i = ground arith

  pub state_at-set_preferred :
      (p : Pool C) (id : String) (i : ℕ) → state_at (set_preferred p id).0 i ≡ state_at p i
  unfolding set_preferred
  state_at-set_preferred p id i = ground arith
