-- ===== src/Pool/Order.antt =====
-- What `Candidates` offers: the healthy accounts, each once, in the order that the code promises.
use mathlib.Core.List.{Perm, perm_middle, perm_append_comm, filter_map, filter_map-cons-some}
use mathlib.Core.List.Perm
use apiforge.Base.{
  ℕ, suc, ◌%◌, ◌≡◌, ◌≢◌, refl, sym, ap, ◌∙◌, inl, inr, String, Bool, true, not, some, List, [], ◌∷◌,
  ◌++◌, arith, ◌==◌, if◌then◌else◌, str_eq, is_pos, lookup, keep, take, drop, length, get_elem?,
  Bool-cases, Option-cases, append_assoc, take-append-drop, get_elem?-middle, length-append,
  length-map, get_or-middle,
}
use apiforge.Pool.{Account, State, Pool, fresh_state, round_robin, state_at, is_healthy}
use apiforge.Pool.Candidates.{
  healthy_from, healthy_order, rotate, take_out, contains, move_front, has_slot, free_first,
  front_first, accounts_at, rotated, candidate_order, candidates,
}
use apiforge.Pool.Invariant.{IsValid}

rotate-perm : (n : ℕ) (order : List ℕ) → Perm (rotate n order) order
rotate-perm n order =
    Perm.trans (perm_append_comm (drop n order) (take n order))
      (rw (take-append-drop n order) (Perm.refl order))

partition-perm :
    (p : ℕ → Bool) (order : List ℕ) → Perm (keep p order ++ keep (λ i. not (p i)) order) order
partition-perm p [] = Perm.nil
partition-perm p (i ∷ rest) = elim (Bool-cases (p i)) [
  | inl e ↦ rw e (Perm.cons i (partition-perm p rest))
  | inr e ↦ rw e (
      Perm.trans (perm_middle (keep p rest) (keep (λ j. not (p j)) rest))
        (Perm.cons i (partition-perm p rest)))
]

take_out-perm :
    (idx : ℕ) (order : List ℕ) → contains idx order ≡ true → Perm (idx ∷ take_out idx order) order
unfolding contains take_out
take_out-perm idx [] h = cc
take_out-perm idx (i ∷ rest) h = elim (Bool-cases (i == idx)) [
  | inl e ↦ rw e (Perm.cons' (ground arith) (Perm.refl rest))
  | inr e ↦
      rw e (Perm.trans (Perm.swap i idx _) (Perm.cons i (take_out-perm idx rest (ground arith))))
]

move_front-perm : (idx : ℕ) (order : List ℕ) → Perm (move_front idx order) order
unfolding move_front
move_front-perm idx order = elim (Bool-cases (contains idx order)) [
  | inl e ↦ rw (e, move_front) (take_out-perm idx order e)
  | inr e ↦ rw (e, move_front) (Perm.refl order)
]

module _ {ℓ} {C : Type ℓ} where
  rotated-perm : (p : Pool C) (order : List ℕ) → Perm (rotated p order).0 order
  unfolding rotated
  rotated-perm p order = elim (Bool-cases (str_eq p.strategy round_robin)) [
    | inl e ↦ rw (e, rotated) (rotate-perm (p.cursor % length order) order)
    | inr e ↦ rw (e, rotated) (Perm.refl order)
  ]

  free_first-perm : (p : Pool C) (order : List ℕ) → Perm (free_first p order) order
  unfolding free_first
  free_first-perm p order = elim (Bool-cases (is_pos p.conc)) [
    | inl e ↦ rw (e, free_first) (partition-perm (has_slot p) order)
    | inr e ↦ rw (e, free_first) (Perm.refl order)
  ]

  front_first-perm :
      (p : Pool C) (front : String) (order : List ℕ) → Perm (front_first p front order) order
  unfolding front_first
  front_first-perm p front order = elim (Bool-cases (str_eq front "")) [
    | inl e ↦ rw (e, front_first) (Perm.refl order)
    | inr e ↦ elim (Option-cases (lookup front p.by_id)) [
      | inl f ↦ rw (e, f, front_first) (Perm.refl order)
      | inr (i, f) ↦ rw (e, f, front_first) (move_front-perm i order)
    ]
  ]

  candidate_order-perm :
      (p : Pool C) (pin session : String) (now : ℕ)
      → Perm (candidate_order p pin session now) (healthy_order p now)
  unfolding candidate_order
  candidate_order-perm p pin session now =
      Perm.trans (front_first-perm p _ _)
        (Perm.trans (free_first-perm p _) (rotated-perm p (healthy_order p now)))

  -- The healthy accounts, read off the accounts and their states side by side.
  unfoldable pub healthy_accounts : ℕ → List (Account C) → List State → List (Account C)
  healthy_accounts now [] states = []
  healthy_accounts now (a ∷ rest) [] = []
  healthy_accounts now (a ∷ rest) (s ∷ states) =
      if is_healthy s now
      then a ∷ healthy_accounts now rest states
      else healthy_accounts now rest states

  healthy_from-healthy_accounts :
      (p : Pool C) (now i : ℕ) (seen rest : List (Account C)) (before states : List State)
      → p.accounts ≡ seen ++ rest
      → p.states ≡ before ++ states
      → length seen ≡ i
      → length before ≡ i
      → length states ≡ length rest
      → accounts_at p.accounts (healthy_from p now i rest) ≡ healthy_accounts now rest states
  unfolding healthy_from healthy_accounts filter_map
  healthy_from-healthy_accounts p now i seen [] before states ea es la lb ls = refl
  healthy_from-healthy_accounts p now i seen (a ∷ rest) before [] ea es la lb ls =
      absurd (omega arith)
  healthy_from-healthy_accounts p now i seen (a ∷ rest) before (s ∷ states) ea es la lb ls =
      let later =
        healthy_from-healthy_accounts p now (suc i) (seen ++ a ∷ []) rest (before ++ s ∷ []) states
          (rw append_assoc ea) (rw append_assoc es) (omega (arith, length-append seen (a ∷ [])))
          (omega (arith, length-append before (s ∷ []))) (omega arith) in
      elim (Bool-cases (is_healthy s now)) [
        | inl e ↦
            rw (here, e) (filter_map-cons-some (get_elem? p.accounts) i _ found ∙ ap (◌∷◌ a) later)
        | inr e ↦ rw (here, e) later
      ]
    where
      here : state_at p i ≡ s
      here = rw (es, ← lb) (get_or-middle before s states fresh_state)

      found : get_elem? p.accounts i ≡ some a
      found = rw (ea, ← la) (get_elem?-middle seen a rest)

  healthy_order-healthy_accounts :
      (p : Pool C) (now : ℕ)
      → IsValid p
      → accounts_at p.accounts (healthy_order p now) ≡ healthy_accounts now p.accounts p.states
  healthy_order-healthy_accounts p now v =
      healthy_from-healthy_accounts p now 0 [] p.accounts [] p.states refl refl refl refl
        (v.sized ∙ length-map p.accounts (λ a. a.id))

  pub candidates_of_order :
      (p : Pool C) (pin session : String) (now : ℕ)
      → healthy_order p now ≢ []
      → (candidates p pin session now).1
        ≡ accounts_at p.accounts (candidate_order p pin session now)
  unfolding candidates
  candidates_of_order p pin session now h = by_order (healthy_order p now) refl
    where
      by_order :
          (order : List ℕ)
          → healthy_order p now ≡ order
          → (candidates p pin session now).1
            ≡ accounts_at p.accounts (candidate_order p pin session now)
      by_order [] e = absurd (h e)
      by_order (i ∷ rest) e = rw (e, candidates)

  -- When some account is healthy, `Candidates` offers every healthy account once, and no other,
  -- whatever the pin, the session, the strategy and the load.
  pub candidates-healthy_accounts-perm :
      (p : Pool C) (pin session : String) (now : ℕ)
      → IsValid p
      → healthy_accounts now p.accounts p.states ≢ []
      → Perm (candidates p pin session now).1 (healthy_accounts now p.accounts p.states)
  unfolding filter_map
  candidates-healthy_accounts-perm p pin session now v h =
      rw
        (
          candidates_of_order p pin session now some_healthy,
          ← healthy_order-healthy_accounts p now v,
        )
        (Perm.filter_map (get_elem? p.accounts) (candidate_order-perm p pin session now))
    where
      some_healthy : healthy_order p now ≢ []
      some_healthy e =
          h (sym (healthy_order-healthy_accounts p now v) ∙ ap (accounts_at p.accounts) e)
