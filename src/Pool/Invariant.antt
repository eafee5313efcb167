-- ===== src/Pool/Invariant.antt =====
-- The invariant of the pool: states beside accounts, ids that point at their accounts, and no
-- account above its concurrency cap.
use apiforge.Base.{
  ℕ, suc, ◌≤◌, ◌<◌, ◌≡◌, ◌≢◌, refl, ap, ◌∙◌, ◌⊎◌, inl, inr, String, Bool, false, none, some, List,
  [], ◌∷◌, ◌++◌, map, arith, ltb, str_eq, ℤ, is_pos, is_zero, add_time, pos_part, ◌||◌, lookup,
  insert, insert-All, length, length-set, get_elem?, All, All-append, All-set, All-get_or,
  Bool-cases, Option-cases, append-nil, append_assoc, lookup-insert_self, lookup-insert-ne_none,
  get_elem?-middle, length-append,
}
use mathlib.Core.Path.{subst}
use mathlib.Core.Option.{some-injective}
use apiforge.Pool.{
  Account, State, Options, Pool, fresh_state, index_accounts, fresh_states, new, state_at,
}
use apiforge.Pool.Slots.{put_state, acquire_at, acquire, release_at, release}
use apiforge.Pool.Health.{bind, mark_ok, cooldown, set_preferred, set_enabled}
use apiforge.Pool.Candidates.{candidates, healthy_order}

abbrev pub ids {ℓ} : {C : Type ℓ} → List (Account C) → List String
ids accounts = map (λ a. a.id) accounts

-- Without a cap, or with a free or just used up last slot.
abbrev pub WithinCap : ℤ → State → Type 0
WithinCap conc s = (is_pos conc ≡ false) ⊎ (s.inflight ≤ pos_part conc)

-- An entry of `by_id` points at an account of that id.
abbrev pub PointsAt : List String → String × ℕ → Type 0
PointsAt names entry = (entry.1 < length names) × (get_elem? names entry.1 ≡ some entry.0)

pub record IsValid {ℓ} {C : Type ℓ} (p : Pool C) : Type 0 where
  pub nonempty : 0 < length (ids p.accounts)
  pub sized : length p.states ≡ length (ids p.accounts)
  pub indexed : All (PointsAt (ids p.accounts)) p.by_id
  pub covered : All (λ name. lookup name p.by_id ≢ none) (ids p.accounts)
  pub capped : All (WithinCap p.conc) p.states

module _ {ℓ} {C : Type ℓ} where
  pub put_state-IsValid :
      (p : Pool C) (i : ℕ) (s : State) → WithinCap p.conc s → IsValid p → IsValid (put_state p i s)
  put_state-IsValid p i s h v = record {
    nonempty = v.nonempty;
    sized = length-set p.states i s ∙ v.sized;
    indexed = v.indexed;
    covered = v.covered;
    capped = All-set (WithinCap p.conc) p.states i s v.capped h;
  }

  pub state_at-WithinCap : (p : Pool C) (i : ℕ) → IsValid p → WithinCap p.conc (state_at p i)
  state_at-WithinCap p i v =
      All-get_or (WithinCap p.conc) p.states i fresh_state v.capped (inr (omega arith))

  acquire_at-IsValid : (p : Pool C) (i : ℕ) → IsValid p → IsValid (acquire_at p i).0
  unfolding acquire_at
  acquire_at-IsValid p i v = elim (Bool-cases (is_pos p.conc)) [
    | inl capped ↦ elim (Bool-cases (ltb (state_at p i).inflight (pos_part p.conc))) [
      | inl free ↦ rw (capped, free, acquire_at) (put_state-IsValid p i _ (inr (ground arith)) v)
      | inr full ↦ rw (capped, full, acquire_at) v
    ]
    | inr open_ended ↦ rw (open_ended, acquire_at) (put_state-IsValid p i _ (inl open_ended) v)
  ]

  -- Taking a slot never puts an account above its cap, and breaks nothing else.
  pub acquire-IsValid : (p : Pool C) (id : String) → IsValid p → IsValid (acquire p id).0
  unfolding acquire
  acquire-IsValid p id v = elim (Option-cases (lookup id p.by_id)) [
    | inl e ↦ rw (e, acquire) v
    | inr (i, e) ↦ rw (e, acquire) (acquire_at-IsValid p i v)
  ]

  release_at-IsValid : (p : Pool C) (i : ℕ) → IsValid p → IsValid (release_at p i)
  unfolding release_at
  release_at-IsValid p i v = elim (Bool-cases (ltb 0 (state_at p i).inflight)) [
    | inl held ↦
        rw (held, release_at)
          (record {
            nonempty = v.nonempty;
            sized = length-set p.states i _ ∙ v.sized;
            indexed = v.indexed;
            covered = v.covered;
            capped =
                All-set (WithinCap p.conc) p.states i _ v.capped
                  (ground (arith, state_at-WithinCap p i v));
          })
    | inr empty ↦ rw (empty, release_at) v
  ]

  pub release-IsValid : (p : Pool C) (id : String) → IsValid p → IsValid (release p id)
  unfolding release
  release-IsValid p id v = elim (Option-cases (lookup id p.by_id)) [
    | inl e ↦ rw (e, release) v
    | inr (i, e) ↦ rw (e, release) (release_at-IsValid p i v)
  ]

  pub bind-IsValid :
      (p : Pool C) (session id : String) (now : ℕ) → IsValid p → IsValid (bind p session id now)
  unfolding bind
  bind-IsValid p session id now v = elim (Bool-cases (str_eq session "" || is_zero p.sticky_ttl)) [
    | inl off ↦ rw (off, bind) v
    | inr on ↦ elim (Option-cases (lookup id p.by_id)) [
      | inl e ↦ rw (on, e, bind) v
      | inr (i, e) ↦ rw (on, e, bind) (regard p v)
    ]
  ]
    where
      regard :
          (q : Pool C)
          → IsValid q
          → IsValid (record q {
            sticky =
                insert session (record { id = id; expires = add_time now q.sticky_ttl }) q.sticky;
          })
      regard q w = record {
        nonempty = w.nonempty;
        sized = w.sized;
        indexed = w.indexed;
        covered = w.covered;
        capped = w.capped;
      }

  pub mark_ok-IsValid : (p : Pool C) (id : String) → IsValid p → IsValid (mark_ok p id)
  unfolding mark_ok
  mark_ok-IsValid p id v = elim (Option-cases (lookup id p.by_id)) [
    | inl e ↦ rw (e, mark_ok) v
    | inr (i, e) ↦ rw (e, mark_ok) (put_state-IsValid p i _ (state_at-WithinCap p i v) v)
  ]

  pub cooldown-IsValid :
      (p : Pool C) (id : String) (d : ℤ) (now : ℕ) → IsValid p → IsValid (cooldown p id d now)
  unfolding cooldown
  cooldown-IsValid p id d now v = elim (Option-cases (lookup id p.by_id)) [
    | inl e ↦ rw (e, cooldown) v
    | inr (i, e) ↦ rw (e, cooldown) (put_state-IsValid p i _ (state_at-WithinCap p i v) v)
  ]

  pub set_preferred-IsValid :
      (p : Pool C) (id : String) → IsValid p → IsValid (set_preferred p id).0
  unfolding set_preferred
  set_preferred-IsValid p id v = elim (Bool-cases (str_eq id "")) [
    | inl e ↦ rw (e, set_preferred) (kept p v)
    | inr e ↦ elim (Option-cases (lookup id p.by_id)) [
      | inl f ↦ rw (e, f, set_preferred) v
      | inr (i, f) ↦ rw (e, f, set_preferred) (kept p v)
    ]
  ]
    where
      kept : (q : Pool C) → IsValid q → IsValid (record q { preferred = id })
      kept q w = record {
        nonempty = w.nonempty;
        sized = w.sized;
        indexed = w.indexed;
        covered = w.covered;
        capped = w.capped;
      }

  pub set_enabled-IsValid :
      (p : Pool C) (id : String) (enabled : Bool) → IsValid p → IsValid (set_enabled p id enabled).0
  unfolding set_enabled
  set_enabled-IsValid p id enabled v = elim (Option-cases (lookup id p.by_id)) [
    | inl e ↦ rw (e, set_enabled) v
    | inr (i, e) ↦ rw (e, set_enabled) (put_state-IsValid p i _ (state_at-WithinCap p i v) v)
  ]

  pub candidates-IsValid :
      (p : Pool C) (pin session : String) (now : ℕ)
      → IsValid p
      → IsValid (candidates p pin session now).0
  unfolding candidates
  candidates-IsValid p pin session now v = by_order (healthy_order p now) refl
    where
      by_order :
          (order : List ℕ) → healthy_order p now ≡ order → IsValid (candidates p pin session now).0
      by_order [] e = rw (e, candidates) v
      by_order (i ∷ rest) e =
          rw (e, candidates)
            (record {
              nonempty = v.nonempty;
              sized = v.sized;
              indexed = v.indexed;
              covered = v.covered;
              capped = v.capped;
            })

  -- `New`'s loop: every entry points at its account, and every account seen has an entry.
  index_accounts-Dict :
      (i : ℕ) (todo : List (Account C)) (names : List String) (by_id : List (String × ℕ))
      → length names ≡ i
      → All (PointsAt (names ++ ids todo)) by_id
      → All (λ name. lookup name by_id ≢ none) names
      → All (PointsAt (names ++ ids todo)) (index_accounts i todo by_id)
        × All (λ name. lookup name (index_accounts i todo by_id) ≢ none) (names ++ ids todo)
  unfolding index_accounts
  index_accounts-Dict i [] names by_id n h k = (h, rw append-nil k)
  index_accounts-Dict i (a ∷ rest) names by_id n h k =
      rw (← append_assoc names (a.id ∷ []) (ids rest)) (
        index_accounts-Dict (suc i) rest (names ++ a.id ∷ []) (insert a.id i by_id) grown
          (rw (append_assoc names (a.id ∷ []) (ids rest))
            (insert-All (PointsAt (names ++ a.id ∷ ids rest)) a.id i by_id h (here i n)))
          (All-append Known names (a.id ∷ []) (still names k) (found, tt)))
    where
      Known : String → Type 0
      Known name = lookup name (insert a.id i by_id) ≢ none

      grown : length (names ++ a.id ∷ []) ≡ suc i
      grown = omega (arith, length-append names (a.id ∷ []))

      here : (j : ℕ) → length names ≡ j → PointsAt (names ++ a.id ∷ ids rest) (a.id, j)
      here j e = (
        omega (arith, length-append names (a.id ∷ ids rest)),
        rw (← e) (get_elem?-middle names a.id (ids rest)),
      )

      found : Known a.id
      found = rw (lookup-insert_self a.id i by_id) (λ x. cc)

      still :
          (some_names : List String)
          → All (λ name. lookup name by_id ≢ none) some_names
          → All Known some_names
      still [] _ = tt
      still (x ∷ xs) (here, there) = (lookup-insert-ne_none a.id x i by_id here, still xs there)

  fresh_states-sized : (todo : List (Account C)) → length (fresh_states todo) ≡ length (ids todo)
  unfolding fresh_states
  fresh_states-sized [] = refl
  fresh_states-sized (a ∷ rest) = ap suc (fresh_states-sized rest)

  fresh_states-capped :
      (conc : ℤ) (todo : List (Account C)) → All (WithinCap conc) (fresh_states todo)
  unfolding fresh_states
  fresh_states-capped conc [] = tt
  fresh_states-capped conc (a ∷ rest) = (inr (omega arith), fresh_states-capped conc rest)

  -- `New` on any list of accounts: it fails on the empty one only, and gives a valid pool.
  pub new-IsValid :
      (accounts : List (Account C)) (opts : Options) (p : Pool C)
      → new accounts opts ≡ some p
      → IsValid p
  unfolding new
  new-IsValid [] opts p e = cc
  new-IsValid (a ∷ rest) opts p e = subst IsValid (some-injective _ _ e) (record {
    nonempty = omega arith;
    sized = fresh_states-sized (a ∷ rest);
    indexed = (index_accounts-Dict 0 (a ∷ rest) [] [] refl tt tt).0;
    covered = (index_accounts-Dict 0 (a ∷ rest) [] [] refl tt tt).1;
    capped = fresh_states-capped opts.max_concurrency (a ∷ rest);
  })
