-- ===== src/Relay/Queue.antt =====
-- The broadcast of freed slots: a request that queues misses none.
use apiforge.Base.{ℕ, ◌<◌, ◌≡◌, true}
use apiforge.Relay.{World, slot_opened}
use apiforge.Pool.{Pool}
use apiforge.Pool.Slots.{is_closed}

-- A wait that begins before the deadline on a channel that is closed already ends with a freed slot, as
-- it does for a request that is not cancelled.
abbrev pub IsPrompt {ℓ} : {C : Type ℓ} → World C → Type ℓ
IsPrompt {C} world =
    (c deadline : ℕ) (p : Pool C) (now : ℕ)
    → is_closed p c ≡ true
    → now < deadline
    → (world.pause c deadline p now).wake ≡ slot_opened
