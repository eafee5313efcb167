-- ===== src/Pool/Candidates.antt =====
-- internal/pool/pool.go: `Candidates` and `stickyLookup`, split at the code's own stages.
use apiforge.Base.{
  ℕ, suc, ◌+◌, ◌%◌, String, Bool, false, not, ◌||◌, Option, none, some, List, [], ◌∷◌, ◌++◌, ltb,
  ◌==◌, if◌then◌else◌, str_eq, is_pos, is_zero, pos_part, lookup, length, get_elem?, take, drop,
  keep,
}
use mathlib.Core.List.{filter_map}
use apiforge.Pool.{Account, State, Pool, round_robin, state_at, healthy}

module _ {ℓ} {C : Type ℓ} where
  -- `for i := range p.accounts { if p.healthy(i, now) … }`, from index `i` on.
  unfoldable pub healthy_from : Pool C → ℕ → ℕ → List (Account C) → List ℕ
  healthy_from p now i [] = []
  healthy_from p now i (a ∷ rest) =
      let later = healthy_from p now (suc i) rest in if healthy p i now then i ∷ later else later

  abbrev pub healthy_order : Pool C → ℕ → List ℕ
  healthy_order p now = healthy_from p now 0 p.accounts

-- One round of the loop for the account that recovers soonest; `none` is the code's -1.
unfoldable pub sooner : ℕ → State → Option ℕ × ℕ → Option ℕ × ℕ
sooner i s (none, t) = if s.manual_disabled then (none, t) else (some i, s.disabled_until)
sooner i s (some b, t) =
    if s.manual_disabled
    then (some b, t)
    else if ltb s.disabled_until t
    then (some i, s.disabled_until)
    else (some b, t)

unfoldable pub soonest_from : ℕ → List State → Option ℕ × ℕ → Option ℕ × ℕ
soonest_from i [] best = best
soonest_from i (s ∷ rest) best = soonest_from (suc i) rest (sooner i s best)

-- The account to attempt when none is healthy: index 0 if every account is disabled by hand.
unfoldable pub fallback : List State → ℕ
fallback states = elim (soonest_from 0 states (none, 0)).0 [ none ↦ 0 | some i ↦ i ]

abbrev pub rotate : ℕ → List ℕ → List ℕ
rotate start order = drop start order ++ take start order

-- The first occurrence of `idx` is taken out.
unfoldable pub take_out : ℕ → List ℕ → List ℕ
take_out idx [] = []
take_out idx (i ∷ rest) = if i == idx then rest else i ∷ take_out idx rest

unfoldable pub contains : ℕ → List ℕ → Bool
contains idx [] = false
contains idx (i ∷ rest) = i == idx || contains idx rest

unfoldable pub move_front : ℕ → List ℕ → List ℕ
move_front idx order = if contains idx order then idx ∷ take_out idx order else order

module _ {ℓ} {C : Type ℓ} where
  abbrev pub has_slot : Pool C → ℕ → Bool
  has_slot p i = ltb (state_at p i).inflight (pos_part p.conc)

  -- Accounts with a free slot first, when there is a cap.
  unfoldable pub free_first : Pool C → List ℕ → List ℕ
  free_first p order =
      if is_pos p.conc
      then keep (has_slot p) order ++ keep (λ i. not (has_slot p i)) order
      else order

  unfoldable pub sticky_lookup : Pool C → String → ℕ → String
  sticky_lookup p session now =
      if str_eq session "" || is_zero p.sticky_ttl then "" else elim (lookup session p.sticky) [
        | none ↦ ""
        | some e ↦ if ltb e.expires now then "" else elim (lookup e.id p.by_id) [
          | none ↦ ""
          | some idx ↦ if healthy p idx now then e.id else ""
        ]
      ]

  -- The account to try first: the pin, else the session's, else the preferred one.
  unfoldable pub front_id : Pool C → String → String → ℕ → String
  front_id p pin session now =
      let bound = sticky_lookup p session now in
      if str_eq pin "" then (if str_eq bound "" then p.preferred else bound) else pin

  unfoldable pub front_first : Pool C → String → List ℕ → List ℕ
  front_first p front order =
      if str_eq front ""
      then order
      else elim (lookup front p.by_id) [ none ↦ order | some idx ↦ move_front idx order ]

  -- `p.accounts[i]` for each index; an index out of range would be a panic, and gives nothing here.
  abbrev pub accounts_at : List (Account C) → List ℕ → List (Account C)
  accounts_at accounts order = filter_map (get_elem? accounts) order

  -- The rotation of the healthy accounts, and the next cursor.
  unfoldable pub rotated : Pool C → List ℕ → List ℕ × ℕ
  rotated p order =
      if str_eq p.strategy round_robin
      then (rotate (p.cursor % length order) order, (p.cursor + 1) % length order)
      else (order, p.cursor)

  -- The indices that `Candidates` returns when some account is healthy.
  unfoldable pub candidate_order : Pool C → String → String → ℕ → List ℕ
  candidate_order p pin session now =
      front_first p (front_id p pin session now) (free_first p (rotated p (healthy_order p now)).0)

  unfoldable pub candidates : Pool C → String → String → ℕ → Pool C × List (Account C)
  candidates p pin session now = elim (healthy_order p now) [
    | [] ↦ (p, accounts_at p.accounts (fallback p.states ∷ []))
    | i ∷ rest ↦ (
      record p { cursor = (rotated p (healthy_order p now)).1 },
      accounts_at p.accounts (candidate_order p pin session now),
    )
  ]
