-- ===== src/Pool/Slots.antt =====
-- internal/pool/pool.go: `Acquire`, `Release` and `SlotFreed`, the per-account concurrency cap.
use apiforge.Base.{
  ℕ, suc, ◌+◌, ◌-◌, String, Bool, true, false, not, ◌&&◌, none, some, ltb, if◌then◌else◌, is_pos,
  pos_part, lookup, set,
}
use apiforge.Pool.{State, Pool, state_at}

module _ {ℓ} {C : Type ℓ} where
  -- `p.states[idx]` gets a new value.
  abbrev pub put_state : Pool C → ℕ → State → Pool C
  put_state p idx s = record p { states = set p.states idx s }

  -- `Acquire` once the id is known.
  unfoldable pub acquire_at : Pool C → ℕ → Pool C × Bool
  acquire_at p idx =
      let s = state_at p idx in
      if is_pos p.conc && not (ltb s.inflight (pos_part p.conc))
      then (p, false)
      else (put_state p idx (record s { inflight = s.inflight + 1 }), true)

  unfoldable pub acquire : Pool C → String → Pool C × Bool
  acquire p id = elim (lookup id p.by_id) [ none ↦ (p, false) | some idx ↦ acquire_at p idx ]

  -- `Release` once the id is known: the channel is closed and replaced with the slot.
  unfoldable pub release_at : Pool C → ℕ → Pool C
  release_at p idx =
      let s = state_at p idx in
      if ltb 0 s.inflight
      then record p {
        states = set p.states idx (record s { inflight = s.inflight - 1 });
        freed = suc p.freed;
      }
      else p

  unfoldable pub release : Pool C → String → Pool C
  release p id = elim (lookup id p.by_id) [ none ↦ p | some idx ↦ release_at p idx ]

  abbrev pub slot_freed : Pool C → ℕ
  slot_freed p = p.freed

  -- A receive from channel `c` does not block.
  abbrev pub is_closed : Pool C → ℕ → Bool
  is_closed p c = ltb c p.freed
