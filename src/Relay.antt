-- ===== src/Relay.antt =====
-- internal/relay/relay.go: one request against the pool's candidates, with retries on other
-- accounts, slots held for streamed successes, and queueing while every account is at its cap.
-- What happens outside the function is the argument `World`: how the call of one account comes out,
-- what a wait ends with, and in both cases what other requests did to the pool meanwhile.
pub mod Once
pub mod Interleaving
pub mod Queue
pub mod Blame
pub mod Request
mod Tests
use apiforge.Base.{
  ℕ, zero, suc, ◌+◌, ◌*◌, String, Bool, true, false, ◌||◌, Option, none, some, List, [], ◌∷◌, ltb,
  leb, ◌==◌, if◌then◌else◌, str_eq, ℤ, pos, negsuc, to_int64, add_time,
}
use apiforge.Base.Text.{codes, atoi}
use apiforge.Pool.{Account, Pool}
use apiforge.Pool.Slots.{acquire, release, slot_freed}
use apiforge.Pool.Health.{second, bind, mark_ok, mark_rate_limited, mark_auth_failed}
use apiforge.Pool.Candidates.{candidates}

-- The parts of an upstream response that the relay reads or passes on.
pub record Response : Type 0 where
  pub status : ℕ
  pub retry_after : String
  pub body : String

-- An error, and whether it is, or wraps, a cancellation or an exceeded deadline.
pub record Error : Type 0 where
  pub message : String
  pub cancelled : Bool

pub data Outcome : Type 0 where
  responded : Response → Outcome
  failed : Error → Outcome
  panicked : Outcome

-- What `attemptOnce` returns. `streams` is a success whose body still holds the slot; `retries` is
-- `retriable == true`; `panics` passes a panic of the callback on.
pub data Attempt : Type 0 where
  streams : Response → Attempt
  passes : Response → Attempt
  retries : Attempt
  fails : Error → Attempt
  panics : Attempt

-- `time.Duration(secs) * time.Second` of the header, in 64 bits; 0 asks for the pool's default.
unfoldable pub retry_after : Response → ℤ
retry_after r = if str_eq r.retry_after "" then pos 0 else elim (atoi (codes r.retry_after)) [
  | none ↦ pos 0
  | some secs ↦ elim secs [
    | pos n ↦ if ltb 0 n then to_int64 (n * second) else pos 0
    | negsuc n ↦ pos 0
  ]
]

abbrev pub short_cooldown : ℤ
short_cooldown = pos (10 * second)

module _ {ℓ} {C : Type ℓ} where
  -- The error branch of `attemptOnce`: `ctx_err` is `ctx.Err()`.
  unfoldable pub settle_error : Option Error → Pool C → String → Error → ℕ → Pool C × Attempt
  settle_error (some ctx_err) p id e now = (release p id, fails ctx_err)
  settle_error none p id e now =
      if e.cancelled
      then (release p id, fails e)
      else (release (mark_rate_limited p id short_cooldown now) id, retries)

  -- The switch on the status code.
  unfoldable pub settle_response : Pool C → String → String → Response → ℕ → Pool C × Attempt
  settle_response p id session r now =
      if ltb r.status 300
      then (bind (mark_ok p id) session id now, streams r)
      else if r.status == 429
      then (release (mark_rate_limited p id (retry_after r) now) id, retries)
      else if r.status == 401 || r.status == 403
      then (release (mark_auth_failed p id now) id, retries)
      else if r.status == 502 || r.status == 503 || r.status == 504
      then (release (mark_rate_limited p id short_cooldown now) id, retries)
      else (release p id, passes r)

  -- `attemptOnce` from the return of the callback on; the slot of `id` is already taken, and the
  -- deferred release is part of each branch.
  unfoldable pub attempt_once :
      Option Error → Pool C → String → String → Outcome → ℕ → Pool C × Attempt
  unfolding settle_error settle_response
  attempt_once ctx_err p id session (responded r) now = settle_response p id session r now
  attempt_once ctx_err p id session (failed e) now = settle_error ctx_err p id e now
  attempt_once ctx_err p id session panicked now = (release p id, panics)

-- `releaseCloser`: the body of a success, with the account whose slot it holds.
pub record ReleaseCloser : Type 0 where
  pub id : String
  pub released : Bool

-- Its `Close`, as far as the pool sees it.
unfoldable pub close {ℓ} : {C : Type ℓ} → Pool C → ReleaseCloser → Pool C × ReleaseCloser
close p b = if b.released then (p, b) else (release p b.id, record b { released = true })

-- The end of a callback: what came of it, the request's context, the pool and the time by then.
pub record Flight {ℓ} (C : Type ℓ) : Type ℓ where
  pub outcome : Outcome
  pub ctx_err : Option Error
  pub pool : Pool C
  pub now : ℕ

pub data Wake : Type 0 where
  cancelled : Error → Wake
  timed_out slot_opened : Wake

-- The end of a wait in the queue.
pub record Pause {ℓ} (C : Type ℓ) : Type ℓ where
  pub wake : Wake
  pub pool : Pool C
  pub now : ℕ

-- The callback `fn`, and the `select` on the context, the timer up to the deadline and the channel of
-- freed slots: `pause channel deadline pool now`. What a theorem needs of them is its hypothesis.
pub record World {ℓ} (C : Type ℓ) : Type ℓ where
  pub fly : Account C → Pool C → ℕ → Flight C
  pub pause : ℕ → ℕ → Pool C → ℕ → Pause C

-- What `tryAccounts` returns, with the pool and the time at its end; `none` is no result.
pub record Tried {ℓ} (C : Type ℓ) : Type ℓ where
  pub pool : Pool C
  pub now : ℕ
  pub busy_skips : ℕ
  pub result : Option Attempt

-- What `WithAccountRetry` returns: an upstream's response, one of its own, an error or a panic.
pub data Answer : Type 0 where
  relayed : Attempt → Answer
  synthesized : ℕ → String → Answer
  aborted : Error → Answer

abbrev pub unavailable : Answer
unavailable = synthesized 503 "All upstream accounts are unavailable."

abbrev pub busy : Answer
busy = synthesized 503 "All upstream accounts are busy. Please retry."

module _ {ℓ} {C : Type ℓ} (world : World C) (session : String) where
  -- The rest of the loop of `tryAccounts` once an account's attempt is over.
  unfoldable pub after_attempt : Pool C × Attempt → ℕ → ℕ → (Pool C → Tried C) → Tried C
  after_attempt (p, retries) now skips continue = continue p
  after_attempt (p, a) now skips continue = record {
    pool = p;
    now = now;
    busy_skips = skips;
    result = some a;
  }

  unfoldable pub try_from : List (Account C) → Pool C → ℕ → ℕ → Tried C
  try_from [] p now skips = record { pool = p; now = now; busy_skips = skips; result = none }
  try_from (a ∷ rest) p now skips = elim (acquire p a.id).1 [
    | false ↦ try_from rest (acquire p a.id).0 now (skips + 1)
    | true ↦
        let f = world.fly a (acquire p a.id).0 now in
        after_attempt (attempt_once f.ctx_err f.pool a.id session f.outcome f.now) f.now skips
          (λ q. try_from rest q f.now skips)
  ]

  unfoldable pub try_accounts : Pool C → String → ℕ → Tried C
  unfolding try_from
  try_accounts p pin now =
      let (q, offered) = candidates p pin session now in try_from offered q now 0

  -- The part of the loop after a pass without a result; `again` is the next round.
  unfoldable pub wait_for_slot :
      ℕ → ℕ → Tried C → (Pool C → ℕ → Option (Pool C × ℕ × Answer)) → Option (Pool C × ℕ × Answer)
  wait_for_slot deadline channel t again =
      if t.busy_skips == 0
      then some (t.pool, t.now, unavailable)
      else if leb deadline t.now
      then some (t.pool, t.now, busy)
      else let rest = world.pause channel deadline t.pool t.now in
        elim rest.wake [
          | cancelled e ↦ some (rest.pool, rest.now, aborted e)
          | timed_out ↦ some (rest.pool, rest.now, busy)
          | slot_opened ↦ again rest.pool rest.now
        ]

  -- The loop of `WithAccountRetry`, on fuel: `none` means that the rounds ran out.
  unfoldable pub rounds : ℕ → ℕ → String → Pool C → ℕ → Option (Pool C × ℕ × Answer)
  rounds zero deadline pin p now = none
  rounds (suc fuel) deadline pin p now =
      let t = try_accounts p pin now in
      elim t.result [
        | some a ↦ some (t.pool, t.now, relayed a)
        | none ↦
            wait_for_slot deadline (slot_freed p) t (λ q later. rounds fuel deadline pin q later)
      ]

-- `QUEUE_WAIT_MS` milliseconds in 64 bits, or a minute.
unfoldable pub queue_wait : String → ℤ
queue_wait v = if str_eq v "" then pos (60 * second) else elim (atoi (codes v)) [
  | none ↦ pos (60 * second)
  | some ms ↦ elim ms [ pos n ↦ to_int64 (n * 1000000) | negsuc n ↦ pos (60 * second) ]
]

unfoldable pub with_account_retry {ℓ} :
    {C : Type ℓ}
    → World C
    → String
    → ℕ
    → String
    → String
    → Pool C
    → ℕ
    → Option (Pool C × ℕ × Answer)
with_account_retry world env fuel pin session p now =
    rounds world session fuel (add_time now (queue_wait env)) pin p now
