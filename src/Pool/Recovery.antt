-- ===== src/Pool/Recovery.antt =====
-- The account that `Candidates` still offers when none is healthy.
use mathlib.Core.Path.{subst}
use mathlib.Core.List.{filter_map, filter_map-cons-some}
use apiforge.Base.{
  ℕ, zero, suc, ◌≤◌, ◌<◌, ◌≡◌, ◌≢◌, refl, sym, ap, ◌∙◌, ◌⊎◌, inl, inr, String, true, false, Option,
  none, some, List, [], ◌∷◌, ◌++◌, arith, length, get_elem?, get_elem?_of_lt, get_or, All,
  All-append, append_assoc, append-nil, length-map, length-append, get_or-middle,
}
use apiforge.Pool.{Account, State, Pool, fresh_state}
use apiforge.Pool.Candidates.{healthy_order, sooner, soonest_from, fallback, candidates}
use apiforge.Pool.Invariant.{IsValid}

-- Nobody but an account disabled by hand recovers before time `t`.
abbrev pub NoneBefore : ℕ → State → Type 0
NoneBefore t s = (s.manual_disabled ≡ true) ⊎ (t ≤ s.disabled_until)

-- What the loop knows of the states that it has seen.
abbrev Soonest : List State → Option ℕ × ℕ → Type 0
Soonest seen (none, t) = All (λ s. s.manual_disabled ≡ true) seen
Soonest seen (some b, t) =
    (b < length seen)
    × ((get_or seen b fresh_state).manual_disabled ≡ false)
    × ((get_or seen b fresh_state).disabled_until ≡ t)
    × All (NoneBefore t) seen

get_or-append_left {ℓ} :
    {A : Type ℓ} (xs ys : List A) (i : ℕ) (d : A)
    → i < length xs
    → get_or (xs ++ ys) i d ≡ get_or xs i d
get_or-append_left [] ys i d h = elim h [ ]
get_or-append_left (x ∷ xs) ys zero d h = refl
get_or-append_left (x ∷ xs) ys (suc i) d h = get_or-append_left xs ys i d (omega arith)

NoneBefore-of_manual :
    (t : ℕ) (seen : List State) → All (λ s. s.manual_disabled ≡ true) seen → All (NoneBefore t) seen
NoneBefore-of_manual t [] h = tt
NoneBefore-of_manual t (s ∷ seen) h = (inl h.0, NoneBefore-of_manual t seen h.1)

NoneBefore-mono :
    (t u : ℕ) (seen : List State) → u ≤ t → All (NoneBefore t) seen → All (NoneBefore u) seen
NoneBefore-mono t u [] le h = tt
NoneBefore-mono t u (s ∷ seen) le h = (ground arith, NoneBefore-mono t u seen le h.1)

-- A round keeps the best index, on an account that is no better, or takes the new one.
sooner-cases :
    (i : ℕ) (s : State) (b : Option ℕ) (t : ℕ)
    → ((sooner i s (b, t) ≡ (b, t))
        × ((s.manual_disabled ≡ true) ⊎ ((b ≢ none) × (t ≤ s.disabled_until))))
      ⊎ ((sooner i s (b, t) ≡ (some i, s.disabled_until))
          × (s.manual_disabled ≡ false)
          × ((b ≡ none) ⊎ (s.disabled_until ≤ t)))
unfolding sooner
sooner-cases i s none t = ground arith
sooner-cases i s (some b) t = ground arith

sooner-Soonest :
    (seen : List State) (s : State) (b : Option ℕ) (t : ℕ)
    → Soonest seen (b, t)
    → Soonest (seen ++ s ∷ []) (sooner (length seen) s (b, t))
sooner-Soonest seen s b t h = elim (sooner-cases (length seen) s b t) [
  | inl (e, worse) ↦ rw e (stay b h worse)
  | inr (e, on, better) ↦ rw e (
    omega (arith, length-append seen (s ∷ [])),
    ap (λ x. x.manual_disabled) at_end ∙ on,
    ap (λ x. x.disabled_until) at_end,
    All-append (NoneBefore s.disabled_until) seen (s ∷ []) (move b h better)
        (inr (omega arith), tt),
  )
]
  where
    at_end : get_or (seen ++ s ∷ []) (length seen) fresh_state ≡ s
    at_end = get_or-middle seen s [] fresh_state

    stay :
        (c : Option ℕ)
        → Soonest seen (c, t)
        → (s.manual_disabled ≡ true) ⊎ ((c ≢ none) × (t ≤ s.disabled_until))
        → Soonest (seen ++ s ∷ []) (c, t)
    stay none k (inl m) = All-append (λ x. x.manual_disabled ≡ true) seen (s ∷ []) k (m, tt)
    stay none k (inr (n, le)) = absurd (n refl)
    stay (some c) (lt, m, d, all) w = (
      omega (arith, length-append seen (s ∷ [])),
      ap (λ x. x.manual_disabled) (get_or-append_left seen (s ∷ []) c fresh_state lt) ∙ m,
      ap (λ x. x.disabled_until) (get_or-append_left seen (s ∷ []) c fresh_state lt) ∙ d,
      All-append (NoneBefore t) seen (s ∷ []) all (ground arith, tt),
    )

    move :
        (c : Option ℕ)
        → Soonest seen (c, t)
        → (c ≡ none) ⊎ (s.disabled_until ≤ t)
        → All (NoneBefore s.disabled_until) seen
    move none k w = NoneBefore-of_manual s.disabled_until seen k
    move (some c) k (inl e) = cc
    move (some c) k (inr le) = NoneBefore-mono t s.disabled_until seen le k.3

soonest_from-Soonest :
    (rest seen : List State) (i : ℕ) (b : Option ℕ) (t : ℕ)
    → length seen ≡ i
    → Soonest seen (b, t)
    → Soonest (seen ++ rest) (soonest_from i rest (b, t))
unfolding soonest_from
soonest_from-Soonest [] seen i b t n h = subst (λ l. Soonest l (b, t)) (sym (append-nil seen)) h
soonest_from-Soonest (s ∷ rest) seen i b t n h = rw (← append_assoc seen (s ∷ []) rest) (
    soonest_from-Soonest rest (seen ++ s ∷ []) (suc i) (sooner i s (b, t)).0 (sooner i s (b, t)).1
      (omega (arith, length-append seen (s ∷ []))) (rw (← n) (sooner-Soonest seen s b t h)))

-- Index `i` is a best choice among states none of which is healthy.
abbrev pub IsSoonest : List State → ℕ → Type 0
IsSoonest states i =
    ((i ≡ 0) × All (λ s. s.manual_disabled ≡ true) states)
    ⊎ ((i < length states)
        × ((get_or states i fresh_state).manual_disabled ≡ false)
        × All (NoneBefore (get_or states i fresh_state).disabled_until) states)

fallback-IsSoonest : (states : List State) → IsSoonest states (fallback states)
unfolding fallback
fallback-IsSoonest states = by_result (soonest_from 0 states (none, 0)) refl
  where
    by_result :
        (r : Option ℕ × ℕ)
        → soonest_from 0 states (none, 0) ≡ r
        → IsSoonest states (fallback states)
    by_result (none, t) e =
        rw (e, fallback) (inl (refl, rw e at (soonest_from-Soonest states [] 0 none 0 refl tt)))
    by_result (some i, t) e =
        let (lt, m, d, all) = rw e at (soonest_from-Soonest states [] 0 none 0 refl tt) in
        rw (e, fallback) (inr (lt, m, rw d all))

-- When no account is healthy, `Candidates` still offers exactly one: of the accounts that are not
-- disabled by hand one whose cooldown ends first, and the first account if there are none such.
pub candidates-IsSoonest {ℓ} :
    {C : Type ℓ} (p : Pool C) (pin session : String) (now : ℕ)
    → IsValid p
    → healthy_order p now ≡ []
    → (i : ℕ) × (a : Account C) × ((candidates p pin session now).1 ≡ a ∷ [])
      × (get_elem? p.accounts i ≡ some a)
      × IsSoonest p.states i
unfolding candidates filter_map
candidates-IsSoonest p pin session now v e =
    let i = fallback p.states in
    let best = fallback-IsSoonest p.states in
    let (a, found) = get_elem?_of_lt p.accounts i (in_range i best) in
    (i, a, rw (e, candidates) (filter_map-cons-some (get_elem? p.accounts) i [] found), found, best)
  where
    in_range : (i : ℕ) → IsSoonest p.states i → i < length p.accounts
    in_range i (inl (z, _)) = omega (arith, length-map p.accounts (λ a. a.id), v.nonempty)
    in_range i (inr (lt, _, _)) = omega (arith, length-map p.accounts (λ a. a.id), v.sized)
