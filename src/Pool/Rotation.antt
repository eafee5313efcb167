-- ===== src/Pool/Rotation.antt =====
-- Round robin: consecutive requests start at consecutive healthy accounts.
use mathlib.Core.List.{head?, filter_map-cons-some}
use mathlib.Core.Path.{subst}
use native.Mathlib.Nat.{mod-lt, mod-add-mod}
use apiforge.Base.{
  ℕ, zero, suc, ◌+◌, ◌%◌, ◌<◌, ◌≡◌, ◌≢◌, refl, ◌∙◌, ap, sym, inl, inr, false, arith, length,
  Bool-cases, is_pos, eq_iff, List, [], ◌∷◌, ◌++◌, get_elem?, get_elem?_of_lt, get_or, drop, take,
  All, All-get_or,
}
use apiforge.Pool.{Account, Pool, round_robin, healthy}
use apiforge.Pool.Candidates.{
  candidates, healthy_order, healthy_from, rotated, rotate, free_first, front_first,
  candidate_order, front_id, sticky_lookup,
}
use apiforge.Pool.Order.{candidates_of_order}

-- Requests with no pin and no session, one at each of the given times.
pub offers_at {ℓ} : {C : Type ℓ} → Pool C → List ℕ → Pool C
offers_at p [] = p
offers_at p (now ∷ times) = offers_at (candidates p "" "" now).0 times

drop-head {ℓ} :
    {A : Type ℓ} (n : ℕ) (xs ys : List A) (d : A)
    → n < length xs
    → (later : List A) × (drop n xs ++ ys ≡ get_or xs n d ∷ later)
drop-head n [] ys d h = absurd (omega arith)
drop-head zero (x ∷ xs) ys d h = (xs ++ ys, refl)
drop-head (suc n) (x ∷ xs) ys d h = drop-head n xs ys d (omega arith)

module _ {ℓ} {C : Type ℓ} where
  -- What a request that is offered accounts leaves as it is.
  healthy_from-offer :
      (p : Pool C) (q : ℕ) (now i : ℕ) (rest : List (Account C))
      → healthy_from (record p { cursor = q }) now i rest ≡ healthy_from p now i rest
  unfolding healthy_from
  healthy_from-offer p q now i [] = refl
  healthy_from-offer p q now i (a ∷ rest) = ground (arith, healthy_from-offer p q now (suc i) rest)

  healthy_from-in_range :
      (p : Pool C) (now i n : ℕ) (rest : List (Account C))
      → i + length rest ≡ n
      → All (λ j. j < n) (healthy_from p now i rest)
  unfolding healthy_from
  healthy_from-in_range p now i n [] h = tt
  healthy_from-in_range p now i n (a ∷ rest) h =
      let later = healthy_from-in_range p now (suc i) n rest (omega arith) in
      elim (Bool-cases (healthy p i now)) [ inl e ↦ rw e (omega arith, later) | inr e ↦ rw e later ]

  -- What round robin needs to be seen: no cap, nothing preferred.
  abbrev pub IsPlain : Pool C → Type 0
  IsPlain p = (p.strategy ≡ round_robin) × (is_pos p.conc ≡ false) × (p.preferred ≡ "")

  offer-cursor :
      (p : Pool C) (c now i : ℕ) (rest : List ℕ)
      → IsPlain p
      → healthy_order p now ≡ i ∷ rest
      → (candidates (record p { cursor = c }) "" "" now).0
        ≡ record p { cursor = (c + 1) % length (i ∷ rest) }
  unfolding candidates rotated
  offer-cursor p c now i rest plain e =
      ground
        (arith, healthy_from-offer p c now 0 p.accounts, (eq_iff p.strategy round_robin).1 plain.0)

  offers_at-cursor :
      (times : List ℕ) (p : Pool C) (c i : ℕ) (rest : List ℕ)
      → IsPlain p
      → All (λ now. healthy_order p now ≡ i ∷ rest) times
      → (q : ℕ) × (offers_at (record p { cursor = c }) times ≡ record p { cursor = q })
        × (q % length (i ∷ rest) ≡ (c + length times) % length (i ∷ rest))
  unfolding offers_at
  offers_at-cursor [] p c i rest plain h = (c, refl, ap (λ m. m % length (i ∷ rest)) (omega arith))
  offers_at-cursor (now ∷ times) p c i rest plain h =
      let n = length (i ∷ rest) in
      let (q, same, turns) = offers_at-cursor times p ((c + 1) % n) i rest plain h.1 in
      (
        q,
        rw (offer-cursor p c now i rest plain h.0) same,
        turns ∙ mod-add-mod (c + 1) n (length times) ∙ ap (λ m. m % n) (omega arith),
      )

  plain-order :
      (p : Pool C) (now : ℕ)
      → IsPlain p
      → candidate_order p "" "" now
        ≡ rotate (p.cursor % length (healthy_order p now)) (healthy_order p now)
  unfolding candidate_order rotated free_first front_first front_id sticky_lookup
  plain-order p now plain =
      rw (plain.2, plain.1, (eq_iff p.strategy round_robin).1 plain.0, rotated)

  offer_order :
      (p : Pool C) (q now i : ℕ) (rest : List ℕ)
      → IsPlain p
      → healthy_order p now ≡ i ∷ rest
      → (later : List ℕ) × (candidate_order (record p { cursor = q }) "" "" now
          ≡ get_or (i ∷ rest) (q % length (i ∷ rest)) 0 ∷ later)
  offer_order p q now i rest plain e =
      let n = length (i ∷ rest) in
      let (later, split) =
        drop-head (q % n) (i ∷ rest) (take (q % n) (i ∷ rest)) 0 (mod-lt q (omega arith)) in
      (
        later,
        plain-order (record p { cursor = q }) now plain
            ∙ ap (λ o. rotate (q % length o) o) (healthy_from-offer p q now 0 p.accounts ∙ e)
            ∙ split,
      )

  -- Round robin with nothing pinned, preferred or capped: while the same accounts are healthy, the
  -- request after `k` others is first offered the account `k` places on from the cursor, cyclically
  -- among the healthy ones; so any run of as many requests as there are healthy accounts starts at
  -- each of them once.
  pub offers_at-rotates :
      (p : Pool C) (times : List ℕ) (now i : ℕ) (rest : List ℕ)
      → IsPlain p
      → All (λ t. healthy_order p t ≡ i ∷ rest) (now ∷ times)
      → head? (candidates (offers_at p times) "" "" now).1
        ≡ get_elem? p.accounts (get_or (i ∷ rest) ((p.cursor + length times) % length (i ∷ rest)) 0)
  offers_at-rotates p times now i rest plain h =
      let n = length (i ∷ rest) in
      let (q, same, turns) = offers_at-cursor times p p.cursor i rest plain h.1 in
      let k = get_or (i ∷ rest) (q % n) 0 in
      let in_order =
        subst (λ o. All (λ j. j < length p.accounts) o) h.0
          (healthy_from-in_range p now 0 (length p.accounts) p.accounts (omega arith)) in
      let (a, found) =
        get_elem?_of_lt p.accounts k
          (All-get_or (λ j. j < length p.accounts) (i ∷ rest) (q % n) 0 in_order (omega arith)) in
      let (later, order_is) = offer_order p q now i rest plain h.0 in
      rw
        (
          same,
          ← turns,
          candidates_of_order (record p { cursor = q }) "" "" now (ne_nil q),
          order_is,
        )
        (ap head? (filter_map-cons-some (get_elem? p.accounts) k later found) ∙ sym found)
    where
      ne_nil : (q : ℕ) → healthy_order (record p { cursor = q }) now ≢ []
      ne_nil q e = cc (healthy_from-offer p q now 0 p.accounts, h.0)
