-- ===== src/Pool/Preference.antt =====
-- Which account `Candidates` puts first, and how it sorts by free slots.
use mathlib.Core.List.{head?, filter_map, filter_map-cons-some, filter_map-append}
use apiforge.Base.{
  ℕ, suc, ◌+◌, ◌%◌, ◌≤◌, ◌<◌, ◌≡◌, ◌≢◌, refl, sym, ap, ◌∙◌, ◌⊎◌, inl, inr, String, Bool, true,
  false, not, ◌||◌, some, List, [], ◌∷◌, ◌++◌, arith, ◌==◌, eq_iff, is_pos, lookup, keep, take,
  drop, length, get_elem?, get_elem?_of_lt, All, Bool-cases, Option-cases, lookup-All, ==_iff,
  length-map, get_elem?-map, take-append-drop,
}
use apiforge.Pool.{Account, Pool, healthy}
use apiforge.Pool.Candidates.{
  healthy_from, healthy_order, rotate, take_out, contains, move_front, has_slot, free_first,
  front_id, front_first, accounts_at, rotated, candidate_order, candidates, sticky_lookup,
}
use apiforge.Pool.Slots.{acquire_at, acquire}
use apiforge.Pool.Invariant.{IsValid, ids, PointsAt}
use apiforge.Pool.Order.{candidates_of_order}

contains-append :
    (i : ℕ) (xs ys : List ℕ) → contains i (xs ++ ys) ≡ (contains i xs || contains i ys)
unfolding contains
contains-append i [] ys = refl
contains-append i (x ∷ xs) ys = ground (arith, contains-append i xs ys)

contains-rotate : (i n : ℕ) (xs : List ℕ) → contains i (rotate n xs) ≡ contains i xs
contains-rotate i n xs = ground (
  arith,
  contains-append i (drop n xs) (take n xs),
  contains-append i (take n xs) (drop n xs),
  ap (contains i) (take-append-drop n xs),
)

contains-partition :
    (i : ℕ) (p : ℕ → Bool) (xs : List ℕ)
    → contains i (keep p xs ++ keep (λ j. not (p j)) xs) ≡ contains i xs
unfolding contains
contains-partition i p [] = refl
contains-partition i p (x ∷ xs) = ground (
  arith,
  contains-append i (keep p xs) (keep (λ j. not (p j)) xs),
  contains-append i (keep p xs) (x ∷ keep (λ j. not (p j)) xs),
  contains-partition i p xs,
)

All-keep_pass : (f : ℕ → Bool) (order : List ℕ) → All (λ i. f i ≡ true) (keep f order)
All-keep_pass f [] = tt
All-keep_pass f (i ∷ order) = ground (arith, All-keep_pass f order)

All-keep_fail :
    (f : ℕ → Bool) (order : List ℕ) → All (λ i. f i ≡ false) (keep (λ i. not (f i)) order)
All-keep_fail f [] = tt
All-keep_fail f (i ∷ order) = ground (arith, All-keep_fail f order)

module _ {ℓ} {C : Type ℓ} where
  contains-healthy_from :
      (p : Pool C) (now i j : ℕ) (rest : List (Account C))
      → j ≤ i
      → i < j + length rest
      → healthy p i now ≡ true
      → contains i (healthy_from p now j rest) ≡ true
  unfolding healthy_from contains
  contains-healthy_from p now i j [] lo hi h = absurd (omega arith)
  contains-healthy_from p now i j (a ∷ rest) lo hi h =
      let later = contains-healthy_from p now i (suc j) rest in
      elim (Bool-cases (j == i)) [
        | inl same ↦
            let here : healthy p j now ≡ true = rw ((==_iff j i).0 same) h in rw (here, same)
        | inr other ↦ elim (Bool-cases (healthy p j now)) [
          | inl e ↦ rw (e, other) (later (ground arith) (omega arith) h)
          | inr e ↦ rw e (later (ground arith) (omega arith) h)
        ]
      ]

  contains-free_first :
      (p : Pool C) (i : ℕ) (order : List ℕ)
      → contains i (free_first p (rotated p order).0) ≡ contains i order
  unfolding free_first rotated
  contains-free_first p i order = ground (
    arith,
    contains-partition i (has_slot p) (rotated p order).0,
    contains-rotate i (p.cursor % length order) order,
  )

  front_first-head :
      (p : Pool C) (front : String) (order : List ℕ) (i : ℕ)
      → front ≢ ""
      → lookup front p.by_id ≡ some i
      → contains i order ≡ true
      → (rest : List ℕ) × (front_first p front order ≡ i ∷ rest)
  unfolding front_first move_front
  front_first-head p front order i ne e h = (take_out i order, ground (arith, eq_iff front ""))

  -- The id that the code promises to serve first: the pin, else the session's account, else the
  -- preferred one.
  abbrev pub Favours : Pool C → String → String → ℕ → String → Type 0
  Favours p pin session now front =
      (front ≢ "")
      × ((pin ≡ front)
          ⊎ ((pin ≡ "") × (sticky_lookup p session now ≡ front))
          ⊎ ((pin ≡ "") × (sticky_lookup p session now ≡ "") × (p.preferred ≡ front)))

  Favours-front_id :
      (p : Pool C) (pin session front : String) (now : ℕ)
      → Favours p pin session now front
      → front_id p pin session now ≡ front
  unfolding front_id
  Favours-front_id p pin session front now h =
      ground (arith, eq_iff pin "", eq_iff (sticky_lookup p session now) "")

  -- A healthy account that is pinned is offered first; without a pin, the one that the session is
  -- bound to; without either, the preferred one.
  pub candidates-front :
      (p : Pool C) (pin session front : String) (now i : ℕ)
      → IsValid p
      → Favours p pin session now front
      → lookup front p.by_id ≡ some i
      → healthy p i now ≡ true
      → head? (candidates p pin session now).1 ≡ get_elem? p.accounts i
  unfolding candidate_order
  candidates-front p pin session front now i v f e h =
      let inside = (lookup-All (PointsAt (ids p.accounts)) front p.by_id v.indexed e).0 in
      let in_range : i < length p.accounts = rw (length-map p.accounts (λ a. a.id)) at inside in
      let held = contains-healthy_from p now i 0 p.accounts (omega arith) (omega arith) h in
      let (a, found) = get_elem?_of_lt p.accounts i in_range in
      let (rest, front_at) =
        front_first-head p front (free_first p (rotated p (healthy_order p now)).0) i f.0 e
          (contains-free_first p i (healthy_order p now) ∙ held) in
      rw
        (
          candidates_of_order p pin session now (ne_nil (healthy_order p now) held),
          Favours-front_id p pin session front now f,
          front_at,
        )
        (ap head? (filter_map-cons-some (get_elem? p.accounts) i rest found) ∙ sym found)
    where
      ne_nil : (order : List ℕ) → contains i order ≡ true → order ≢ []
      ne_nil [] k = unfold contains in λ _. cc
      ne_nil (x ∷ order) k = λ x. cc

  -- With distinct ids, each account's id leads back to the account.
  abbrev pub IsDistinct : Pool C → Type 0
  IsDistinct p =
      (i : ℕ) (name : String)
      → get_elem? (ids p.accounts) i ≡ some name
      → lookup name p.by_id ≡ some i

  abbrev Grants : Pool C → Bool → Account C → Type 0
  Grants p answer a = (acquire p a.id).1 ≡ answer

  Grants-has_slot :
      (p : Pool C) (answer : Bool) (order : List ℕ)
      → IsDistinct p
      → is_pos p.conc ≡ true
      → All (λ i. has_slot p i ≡ answer) order
      → All (Grants p answer) (accounts_at p.accounts order)
  unfolding filter_map acquire acquire_at
  Grants-has_slot p answer [] d c h = tt
  Grants-has_slot p answer (i ∷ order) d c h =
      let later = Grants-has_slot p answer order d c h.1 in
      elim (Option-cases (get_elem? p.accounts i)) [
        | inl e ↦ rw e later
        | inr (a, e) ↦ rw e (granted a (d i a.id (get_elem?-map (λ b. b.id) p.accounts i e)), later)
      ]
    where
      granted : (a : Account C) → lookup a.id p.by_id ≡ some i → Grants p answer a
      granted a e = ground (arith, h.0)

  -- When nothing is favoured, `Candidates` offers every account that `Acquire` would grant now
  -- before every account that it would refuse.
  pub candidates_free_first :
      (p : Pool C) (session : String) (now : ℕ)
      → IsDistinct p
      → is_pos p.conc ≡ true
      → front_id p "" session now ≡ ""
      → healthy_order p now ≢ []
      → (free : List (Account C)) × (full : List (Account C)) × ((candidates p "" session now).1
          ≡ free ++ full)
        × All (Grants p true) free
        × All (Grants p false) full
  unfolding candidate_order free_first front_first
  candidates_free_first p session now d c f h =
      let order = (rotated p (healthy_order p now)).0 in
      let first = keep (has_slot p) order in
      let last = keep (λ i. not (has_slot p i)) order in
      (
        accounts_at p.accounts first,
        accounts_at p.accounts last,
        candidates_of_order p "" session now h
            ∙ rw (f, c, candidate_order, front_first, free_first)
                (filter_map-append (get_elem? p.accounts) first last),
        Grants-has_slot p true first d c (All-keep_pass (has_slot p) order),
        Grants-has_slot p false last d c (All-keep_fail (has_slot p) order),
      )
