-- ===== src/Relay/Tests.antt =====
-- The relay's theorems on a pool of two accounts with a cap of one request each.
use apiforge.Base.{
  ℕ, suc, ◌*◌, ◌+◌, ◌-◌, ◌≡◌, refl, ◌≤◌, ◌⊎◌, false, none, some, List, [], ◌∷◌, pos, is_pos,
  add_time, if◌then◌else◌, lookup, insert, str_eq, arith, Bool-cases, inl, inr,
}
use apiforge.Pool.{
  Account, Options, Pool, failover, fresh_state, index_accounts, fresh_states, new, healthy,
}
use apiforge.Pool.Slots.{acquire, acquire_at}
use apiforge.Pool.Health.{second}
use apiforge.Pool.Invariant.{IsValid, new-IsValid}
use apiforge.Pool.Inflight.{inflight_at}
use apiforge.Pool.History.{Call, acquires, rate_limits}
use apiforge.Relay.{
  Attempt, retries, Tried, Response, responded, settle_response, attempt_once, slot_opened, World,
  Answer, after_attempt, try_from, try_accounts, queue_wait, with_account_retry,
}
use apiforge.Relay.Request.{IsPatient, IsTimely, with_account_retry-in_time}
use apiforge.Relay.Blame.{attempt_once-cools}
use apiforge.Relay.Interleaving.{
  System, takes, settles, here, Reach, start, then_step, count, new_system, Reach-count,
}

abbrev accounts : List (Account ℕ)
accounts = record { id = "ann"; cred = 1 } ∷ record { id = "bob"; cred = 2 } ∷ []

abbrev capped : Options
capped = record { strategy = failover; max_concurrency = pos 1; sticky_ttl = pos 0 }

abbrev pool : Pool ℕ
pool = record {
  accounts = accounts;
  by_id = ("ann", 0) ∷ ("bob", 1) ∷ [];
  states = fresh_state ∷ fresh_state ∷ [];
  strategy = failover;
  conc = pos 1;
  sticky_ttl = pos 0;
  cursor = 0;
  preferred = "";
  sticky = [];
  freed = 0;
}

new-pool : new accounts capped ≡ some pool
unfolding new index_accounts fresh_states insert
new-pool = refl

pool-IsValid : IsValid pool
pool-IsValid = new-IsValid accounts capped pool new-pool

abbrev answered : ℕ → Response
answered status = record { status = status; retry_after = ""; body = "" }

-- The first account is down and the other one answers, both at once; a wait ends after a nanosecond.
abbrev world : World ℕ
world = record {
  fly = λ a p now. record {
    outcome = responded (answered (if str_eq a.id "ann" then 503 else 200));
    ctx_err = none;
    pool = p;
    now = now;
  };
  pause = λ c deadline p now. record { wake = slot_opened; pool = p; now = now + 1 };
}

world-IsPatient : IsPatient world
world-IsPatient = record {
  flight = λ a p now. omega arith;
  wait = λ c deadline p now e. omega arith;
  in_time = λ c deadline p now h. omega arith;
}

after_attempt-now :
    (d : Pool ℕ × Attempt) (now skips : ℕ) (continue : Pool ℕ → Tried ℕ)
    → ((q : Pool ℕ) → (continue q).now ≤ now)
    → (after_attempt world "chat" d now skips continue).now ≤ now
unfolding after_attempt
after_attempt-now (q, retries) now skips continue h = h q
after_attempt-now (q, _) now skips continue h = omega arith

try_from-now :
    (offered : List (Account ℕ)) (p : Pool ℕ) (now skips : ℕ)
    → (try_from world "chat" offered p now skips).now ≤ now
unfolding try_from
try_from-now [] p now skips = omega arith
try_from-now (a ∷ rest) p now skips = elim (Bool-cases (acquire p a.id).1) [
  | inl e ↦ rw (e, try_from) (after_attempt-now _ now skips _ (λ q. try_from-now rest q now skips))
  | inr e ↦ rw (e, try_from) (try_from-now rest (acquire p a.id).0 now (skips + 1))
]

world-IsTimely : IsTimely world "ann" "chat" 0
unfolding try_accounts
world-IsTimely p now = omega (arith, try_from-now _ _ now 0)

with_account_retry-in_time_example :
    let deadline = add_time 10 (queue_wait "") in
    (q : Pool ℕ) × (later : ℕ) × (answer : Answer) × (with_account_retry world ""
        (suc (deadline - 10))
        "ann"
        "chat"
        pool
        10
      ≡ some (q, later, answer))
    × ((later ≤ deadline + 0) ⊎ (later ≤ 10 + 0))
with_account_retry-in_time_example =
    with_account_retry-in_time world "" "ann" "chat" pool 10 0 world-IsPatient world-IsTimely

-- The second account is taken, and the first one fails.
abbrev half_taken : Pool ℕ
half_taken = record pool { states = fresh_state ∷ record fresh_state { inflight = 1 } ∷ [] }

abbrev passed : Tried ℕ
passed = record {
  pool = record half_taken {
    states =
        record fresh_state { disabled_until = 10 + 10 * second; failures = 1 }
        ∷ record fresh_state { inflight = 1 }
        ∷ [];
    freed = 1;
  };
  now = 10;
  busy_skips = 1;
  result = none;
}

abbrev own_calls : List Call
own_calls = acquires "ann" ∷ rate_limits "ann" (pos (10 * second)) 10 ∷ []

attempt_once-cools_example :
    healthy (attempt_once none pool "ann" "" (responded (answered 403)) 7).0 0 7 ≡ false
unfolding lookup attempt_once settle_response
attempt_once-cools_example =
    attempt_once-cools none pool "ann" "" (responded (answered 403)) 7 0 pool-IsValid refl refl

abbrev calling : System ℕ
calling = record { pool = (acquire pool "ann").0; slots = "ann" ∷ [] }

abbrev streaming : System ℕ
streaming = record {
  pool = (attempt_once none calling.pool "ann" "" (responded (answered 200)) 7).0;
  slots = "ann" ∷ [];
}

streaming-Reach : Reach (new_system pool) streaming
unfolding acquire acquire_at lookup attempt_once settle_response
streaming-Reach =
    then_step (then_step start (takes "ann" refl refl refl))
      (settles none "ann" "" (responded (answered 200)) 7 [] here refl refl)

Reach-count_example :
    (inflight_at streaming.pool 0 ≡ count streaming.pool.by_id ("ann" ∷ []) 0)
    × ((is_pos (pos 1) ≡ false) ⊎ (count streaming.pool.by_id ("ann" ∷ []) 0 ≤ 1))
Reach-count_example = Reach-count accounts capped pool streaming 0 new-pool streaming-Reach
