-- ===== src/Relay/Request.antt =====
-- `WithAccountRetry` as a whole: it ends in time.
use apiforge.Base.{
  ℕ, zero, suc, ◌+◌, ◌-◌, ◌≤◌, ◌<◌, ◌≡◌, ◌⊎◌, refl, inl, inr, String, List, [], ◌∷◌, arith, Option,
  some, leb, ◌==◌, Bool-cases, Option-cases, add_time,
}
use apiforge.Pool.{Account, Pool}
use apiforge.Pool.Slots.{acquire, slot_freed}
use apiforge.Relay.{
  Attempt, retries, Pause, World, Tried, Answer, aborted, after_attempt, try_from, try_accounts,
  rounds, wait_for_slot, with_account_retry, Wake, cancelled, timed_out, slot_opened, busy,
  queue_wait,
}

-- Time does not run backwards, a wake-up for a freed slot comes later than the wait began, and the
-- timer ends every wait at the deadline.
pub record IsPatient {ℓ} {C : Type ℓ} (world : World C) : Type ℓ where
  pub flight : (a : Account C) (p : Pool C) (now : ℕ) → now ≤ (world.fly a p now).now
  pub wait :
      (c deadline : ℕ) (p : Pool C) (now : ℕ)
      → (world.pause c deadline p now).wake ≡ slot_opened
      → now < (world.pause c deadline p now).now
  pub in_time :
      (c deadline : ℕ) (p : Pool C) (now : ℕ)
      → now < deadline
      → (world.pause c deadline p now).now ≤ deadline

-- No pass over the accounts lasts longer than `bound`.
abbrev pub IsTimely {ℓ} : {C : Type ℓ} → World C → String → String → ℕ → Type ℓ
IsTimely {C} world pin session bound =
    (p : Pool C) (now : ℕ) → (try_accounts world session p pin now).now ≤ now + bound

module _ {ℓ} {C : Type ℓ} (world : World C) (session : String) (patient : IsPatient world) where
  after_attempt-later :
      (d : Pool C × Attempt) (start now skips : ℕ) (continue : Pool C → Tried C)
      → start ≤ now
      → ((q : Pool C) → start ≤ (continue q).now)
      → start ≤ (after_attempt world session d now skips continue).now
  unfolding after_attempt
  after_attempt-later (q, retries) start now skips continue h more = more q
  after_attempt-later (q, _) start now skips continue h more = h

  try_from-later :
      (offered : List (Account C)) (p : Pool C) (start now skips : ℕ)
      → start ≤ now
      → start ≤ (try_from world session offered p now skips).now
  unfolding try_from
  try_from-later [] p start now skips h = h
  try_from-later (a ∷ rest) p start now skips h =
      let q = (acquire p a.id).0 in
      let f = world.fly a q now in
      let later = try_from-later rest in
      let on = patient.flight a q now in
      elim (Bool-cases (acquire p a.id).1) [
        | inl e ↦
            rw (e, try_from)
              (after_attempt-later _ start f.now skips _ (omega arith)
                (λ r. later r start f.now skips (omega arith)))
        | inr e ↦ rw (e, try_from) (later q start now (skips + 1) h)
      ]

  try_accounts-later :
      (p : Pool C) (pin : String) (now : ℕ) → now ≤ (try_accounts world session p pin now).now
  unfolding try_accounts
  try_accounts-later p pin now = try_from-later _ _ now now 0 (omega arith)

  module _ (pin : String) (bound deadline limit : ℕ) (timely : IsTimely world pin session bound)
      (late : deadline ≤ limit) where
    -- An answer comes, by the limit or a pass later.
    abbrev pub Answers : Option (Pool C × ℕ × Answer) → Type ℓ
    Answers o =
        (q : Pool C) × (later : ℕ) × (answer : Answer) × (o ≡ some (q, later, answer))
        × (later ≤ limit + bound)

    waking-Answers :
        (rest : Pause C) (again : Pool C → ℕ → Option (Pool C × ℕ × Answer)) (w : Wake)
        → rest.now ≤ deadline
        → (w ≡ slot_opened → Answers (again rest.pool rest.now))
        → Answers (elim w [
          | cancelled e ↦ some (rest.pool, rest.now, aborted e)
          | timed_out ↦ some (rest.pool, rest.now, busy)
          | slot_opened ↦ again rest.pool rest.now
        ])
    waking-Answers rest again (cancelled e) before h = (_, _, _, refl, omega arith)
    waking-Answers rest again timed_out before h = (_, _, _, refl, omega arith)
    waking-Answers rest again slot_opened before h = h refl

    wait_for_slot-Answers :
        (channel : ℕ) (t : Tried C) (again : Pool C → ℕ → Option (Pool C × ℕ × Answer))
        → t.now ≤ limit + bound
        → (t.now < deadline
            → (q : Pool C) (now : ℕ) → t.now < now
            → now ≤ deadline
            → Answers (again q now))
        → Answers (wait_for_slot world session deadline channel t again)
    unfolding wait_for_slot
    wait_for_slot-Answers channel t again end h = elim (Bool-cases (t.busy_skips == 0)) [
      | inl e ↦ rw (e, wait_for_slot) (_, _, _, refl, end)
      | inr e ↦ elim (Bool-cases (leb deadline t.now)) [
        | inl d ↦ rw (e, d, wait_for_slot) (_, _, _, refl, end)
        | inr d ↦
            let rest = world.pause channel deadline t.pool t.now in
            let before : t.now < deadline = ground arith in
            let ends = patient.in_time channel deadline t.pool t.now before in
            rw (e, d, wait_for_slot)
              (waking-Answers rest again rest.wake ends (λ w.
                h before rest.pool rest.now (patient.wait channel deadline t.pool t.now w) ends))
      ]
    ]

    round-Answers :
        (fuel : ℕ) (p : Pool C) (now : ℕ)
        → now ≤ limit
        → ((now' : ℕ)
            → now < now'
            → now < deadline
            → now' ≤ deadline
            → (q : Pool C) → Answers (rounds world session fuel deadline pin q now'))
        → Answers (rounds world session (suc fuel) deadline pin p now)
    unfolding rounds
    round-Answers fuel p now begun h =
        let t = try_accounts world session p pin now in
        let on = try_accounts-later p pin now in
        let over = timely p now in
        let end : t.now ≤ limit + bound = omega arith in
        elim (Option-cases t.result) [
          | inl e ↦
              rw (e, rounds)
                (wait_for_slot-Answers (slot_freed p) t _ end
                  (λ before q now' after ends. h now' (omega arith) (omega arith) ends q))
          | inr (a, e) ↦ rw (e, rounds) (_, _, _, refl, end)
        ]

    pub rounds-Answers :
        (k : ℕ) (p : Pool C) (now : ℕ)
        → now ≤ limit
        → deadline < now + suc k
        → Answers (rounds world session (suc k) deadline pin p now)
    rounds-Answers zero p now begun h =
        round-Answers zero p now begun (λ now' after before ends q. absurd (omega arith))
    rounds-Answers (suc k) p now begun h =
        round-Answers (suc k) p now begun
          (λ now' after before ends q. rounds-Answers k q now' (omega arith) (omega arith))

-- Every request is answered, and in time, when time does not run backwards, each wake-up for a freed
-- slot comes after its wait began, the timer ends every wait at the deadline, and no pass over the
-- accounts lasts longer than `bound`: as many rounds as the queueing budget has nanoseconds, and one
-- more, are enough, and the answer comes no later than `bound` after the deadline (or after the
-- beginning, if the deadline is before it).
pub with_account_retry-in_time {ℓ} :
    {C : Type ℓ} (world : World C) (env pin session : String) (p : Pool C) (now bound : ℕ)
    → IsPatient world
    → IsTimely world pin session bound
    → let deadline = add_time now (queue_wait env) in
      (q : Pool C) × (later : ℕ) × (answer : Answer) × (with_account_retry world env
          (suc (deadline - now))
          pin
          session
          p
          now
        ≡ some (q, later, answer))
      × ((later ≤ deadline + bound) ⊎ (later ≤ now + bound))
unfolding with_account_retry
with_account_retry-in_time world env pin session p now bound patient timely =
    let deadline = add_time now (queue_wait env) in
    elim (Bool-cases (leb now deadline)) [
      | inl before ↦
          let (q, later, answer, e, ends) =
            rounds-Answers world session patient pin bound deadline deadline timely (omega arith)
              (deadline - now) p now (ground (arith, before)) (omega arith) in
          (q, later, answer, e, inl ends)
      | inr after ↦
          let (q, later, answer, e, ends) =
            rounds-Answers world session patient pin bound deadline now timely
              (ground (arith, after)) (deadline - now) p now (omega arith) (omega arith) in
          (q, later, answer, e, inr ends)
    ]
