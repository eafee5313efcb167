-- ===== src/Pool.antt =====
-- internal/pool/pool.go: the account pool of one provider. A method returns the new pool and its
-- result. Times are natural numbers of nanoseconds since Go's zero time, and `time.Now()` is the
-- argument `now` of each method; the mutex makes each method one step. A channel of slot-freed
-- broadcasts is its serial number: channel `c` is closed when the pool has gone on to a later one.
pub mod Slots
pub mod Health
pub mod Candidates
pub mod Invariant
pub mod Order
pub mod Inflight
pub mod Rotation
pub mod Cooldown
pub mod States
pub mod History
pub mod Recovery
pub mod Preference
mod Tests
use apiforge.Base.{
  ℕ, suc, String, Bool, false, not, ◌&&◌, Option, none, some, List, [], ◌∷◌, ltb, if◌then◌else◌,
  str_eq, ℤ, insert, get_or,
}

abbrev pub round_robin : String
round_robin = "round-robin"

abbrev pub failover : String
failover = "failover"

pub record Account {ℓ} (C : Type ℓ) : Type ℓ where
  pub id : String
  pub cred : C

pub record State : Type 0 where
  pub disabled_until : ℕ
  pub failures : ℕ
  pub manual_disabled : Bool
  pub inflight : ℕ

pub record StickyEntry : Type 0 where
  pub id : String
  pub expires : ℕ

pub record Options : Type 0 where
  pub strategy : String
  pub max_concurrency : ℤ
  pub sticky_ttl : ℤ

pub record Pool {ℓ} (C : Type ℓ) : Type ℓ where
  pub accounts : List (Account C)
  pub by_id : List (String × ℕ)
  pub states : List State
  pub strategy : String
  pub conc : ℤ
  pub sticky_ttl : ℤ
  pub cursor : ℕ
  pub preferred : String
  pub sticky : List (String × StickyEntry)
  pub freed : ℕ

abbrev pub fresh_state : State
fresh_state = record { disabled_until = 0; failures = 0; manual_disabled = false; inflight = 0 }

-- The loop of `New` over the accounts from index `i` on: a later account takes over its id.
unfoldable pub index_accounts {ℓ} :
    {C : Type ℓ} → ℕ → List (Account C) → List (String × ℕ) → List (String × ℕ)
index_accounts i [] by_id = by_id
index_accounts i (a ∷ rest) by_id = index_accounts (suc i) rest (insert a.id i by_id)

unfoldable pub fresh_states {ℓ} : {C : Type ℓ} → List (Account C) → List State
fresh_states [] = []
fresh_states (a ∷ rest) = fresh_state ∷ fresh_states rest

-- `New`. `none` is its panic on an empty account list.
unfoldable pub new {ℓ} : {C : Type ℓ} → List (Account C) → Options → Option (Pool C)
new [] opts = none
new (a ∷ rest) opts = some (record {
  accounts = a ∷ rest;
  by_id = index_accounts 0 (a ∷ rest) [];
  states = fresh_states (a ∷ rest);
  strategy = if str_eq opts.strategy "" then round_robin else opts.strategy;
  conc = opts.max_concurrency;
  sticky_ttl = opts.sticky_ttl;
  cursor = 0;
  preferred = "";
  sticky = [];
  freed = 0;
})

-- `p.states[i]`; every index that the pool uses is in range (Pool/Invariant).
abbrev pub state_at {ℓ} : {C : Type ℓ} → Pool C → ℕ → State
state_at p i = get_or p.states i fresh_state

-- `healthy`, on the state that it reads.
abbrev pub is_healthy : State → ℕ → Bool
is_healthy s now = not s.manual_disabled && not (ltb now s.disabled_until)

abbrev pub healthy {ℓ} : {C : Type ℓ} → Pool C → ℕ → ℕ → Bool
healthy p i now = is_healthy (state_at p i) now
