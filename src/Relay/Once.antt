-- ===== src/Relay/Once.antt =====
-- One attempt seen as a list of calls on the pool.
use apiforge.Base.{
  ℕ, ◌-◌, ◌≡◌, refl, String, Bool, true, false, not, ◌&&◌, ◌||◌, List, [], ◌∷◌, arith,
  if◌then◌else◌, Option, none, some, ltb, ◌==◌,
}
use apiforge.Pool.{Pool}
use apiforge.Pool.Slots.{release}
use apiforge.Pool.Invariant.{IsValid, release-IsValid}
use apiforge.Pool.States.{names}
use apiforge.Pool.History.{
  Call, releases, binds, succeeds, rate_limits, auth_fails, call, run, run-IsValid, run-by_id,
  call-by_id, call-conc, run-conc,
}
use apiforge.Pool.Inflight.{inflight_at, AllQuiet, inflight-run_quiet, inflight-release}
use apiforge.Relay.{
  Response, Error, Outcome, responded, failed, panicked, Attempt, streams, retry_after,
  short_cooldown, attempt_once,
}

-- The attempt is a success whose response body holds the slot.
abbrev pub is_stream : Attempt → Bool
is_stream (streams r) = true
is_stream _ = false

-- The calls of an attempt before the deferred release.
abbrev response_calls : String → String → Response → ℕ → List Call
response_calls id session r now =
    if ltb r.status 300
    then succeeds id ∷ binds session id now ∷ []
    else if r.status == 429
    then rate_limits id (retry_after r) now ∷ []
    else if r.status == 401 || r.status == 403
    then auth_fails id now ∷ []
    else if r.status == 502 || r.status == 503 || r.status == 504
    then rate_limits id short_cooldown now ∷ []
    else []

abbrev pub attempt_calls : Option Error → String → String → Outcome → ℕ → List Call
attempt_calls ctx_err id session (responded r) now = response_calls id session r now
attempt_calls (some e') id session (failed e) now = []
attempt_calls none id session (failed e) now =
    if e.cancelled then [] else rate_limits id short_cooldown now ∷ []
attempt_calls ctx_err id session panicked now = []

attempt_calls-AllQuiet :
    (ctx_err : Option Error) (id session : String) (o : Outcome) (now : ℕ)
    → AllQuiet (attempt_calls ctx_err id session o now)
attempt_calls-AllQuiet ctx_err id session (responded r) now = ground arith
attempt_calls-AllQuiet (some e') id session (failed e) now = tt
attempt_calls-AllQuiet none id session (failed e) now = ground arith
attempt_calls-AllQuiet ctx_err id session panicked now = tt

module _ {ℓ} {C : Type ℓ} where
  -- After its calls, every attempt but a success gives the slot back.
  attempt_once-run :
      (ctx_err : Option Error) (p : Pool C) (id session : String) (o : Outcome) (now : ℕ)
      → let calls = attempt_calls ctx_err id session o now in
        let done = attempt_once ctx_err p id session o now in
        done.0 ≡ (if is_stream done.1 then run p calls else release (run p calls) id)
  unfolding attempt_once run call
  attempt_once-run ctx_err p id session (responded r) now = ground arith
  attempt_once-run (some e') p id session (failed e) now = refl
  attempt_once-run none p id session (failed e) now = ground arith
  attempt_once-run ctx_err p id session panicked now = refl

  pub attempt_once-IsValid :
      (ctx_err : Option Error) (p : Pool C) (id session : String) (o : Outcome) (now : ℕ)
      → IsValid p
      → IsValid (attempt_once ctx_err p id session o now).0
  attempt_once-IsValid ctx_err p id session o now v =
      let calls = attempt_calls ctx_err id session o now in
      let w = run-IsValid p calls v in
      rw (attempt_once-run ctx_err p id session o now) (by_end _ w _)
    where
      by_end : (q : Pool C) → IsValid q → (b : Bool) → IsValid (if b then q else release q id)
      by_end q w true = w
      by_end q w false = release-IsValid q id w

  pub attempt_once-by_id :
      (ctx_err : Option Error) (p : Pool C) (id session : String) (o : Outcome) (now : ℕ)
      → (attempt_once ctx_err p id session o now).0.by_id ≡ p.by_id
  unfolding call
  attempt_once-by_id ctx_err p id session o now =
      let calls = attempt_calls ctx_err id session o now in
      ground (
        arith,
        attempt_once-run ctx_err p id session o now,
        run-by_id p calls,
        call-by_id (run p calls) (releases id),
      )

  pub attempt_once-conc :
      (ctx_err : Option Error) (p : Pool C) (id session : String) (o : Outcome) (now : ℕ)
      → (attempt_once ctx_err p id session o now).0.conc ≡ p.conc
  unfolding call
  attempt_once-conc ctx_err p id session o now =
      let calls = attempt_calls ctx_err id session o now in
      ground (
        arith,
        attempt_once-run ctx_err p id session o now,
        run-conc p calls,
        call-conc (run p calls) (releases id),
      )

  -- An attempt frees the slot of its account exactly when it does not hand it to a streamed body,
  -- whatever the callback did: an error, a cancellation, a panic or any status.
  pub attempt_once-inflight :
      (ctx_err : Option Error) (p : Pool C) (id session : String) (o : Outcome) (now i : ℕ)
      → IsValid p
      → let done = attempt_once ctx_err p id session o now in
        inflight_at done.0 i
        ≡ (if names p id i && not (is_stream done.1) then inflight_at p i - 1 else inflight_at p i)
  attempt_once-inflight ctx_err p id session o now i v =
      let calls = attempt_calls ctx_err id session o now in
      let w = run-IsValid p calls v in
      let quiet =
        inflight-run_quiet p calls i v (attempt_calls-AllQuiet ctx_err id session o now) in
      ground (
        arith,
        attempt_once-run ctx_err p id session o now,
        run-by_id p calls,
        inflight-release (run p calls) id i w,
        quiet,
      )
