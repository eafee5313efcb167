-- ===== src/Pool/Tests.antt =====
-- The pool's theorems on pools of three accounts: one as `New` gives it, with a cap of one request,
-- and one in the middle of its life.
use apiforge.Base.{ℕ, ◌≡◌, refl, some, List, [], ◌∷◌, pos, lookup, insert, get_elem?, get_or, ◌≤◌}
use mathlib.Core.Path.{subst}
use mathlib.Core.Option.{some-injective}
use mathlib.Core.List.{head?, Perm}
use apiforge.Base.{◌%◌, zero, suc, inr}
use apiforge.Pool.{
  Account, Options, Pool, round_robin, fresh_state, index_accounts, fresh_states, new, state_at,
}
use apiforge.Pool.Slots.{acquire, acquire_at}
use apiforge.Pool.Health.{mark_rate_limited, mark_auth_failed, cooldown, set_preferred}
use apiforge.Pool.Candidates.{healthy_from, candidates, sticky_lookup}
use apiforge.Pool.Invariant.{IsValid, new-IsValid}
use apiforge.Pool.History.{
  Call, acquires, releases, rate_limits, auth_fails, prefers, call, run, run-IsValid,
  run-new-inflight,
}
use apiforge.Pool.Order.{healthy_accounts, candidates-healthy_accounts-perm}
use apiforge.Pool.Preference.{IsDistinct, candidates-front}
use apiforge.Pool.Recovery.{IsSoonest, candidates-IsSoonest}
use apiforge.Pool.Rotation.{offers_at, offers_at-rotates}

abbrev accounts : List (Account ℕ)
accounts =
    record { id = "ann"; cred = 1 }
    ∷ record { id = "bob"; cred = 2 }
    ∷ record { id = "cy"; cred = 3 }
    ∷ []

abbrev capped : Options
capped = record { strategy = round_robin; max_concurrency = pos 1; sticky_ttl = pos 1000 }

abbrev free : Options
free = record { strategy = ""; max_concurrency = pos 0; sticky_ttl = pos 1000 }

-- What `New` makes of the three accounts.
abbrev started : Options → Pool ℕ
started opts = record {
  accounts = accounts;
  by_id = ("ann", 0) ∷ ("bob", 1) ∷ ("cy", 2) ∷ [];
  states = fresh_state ∷ fresh_state ∷ fresh_state ∷ [];
  strategy = round_robin;
  conc = opts.max_concurrency;
  sticky_ttl = opts.sticky_ttl;
  cursor = 0;
  preferred = "";
  sticky = [];
  freed = 0;
}

new-capped : new accounts capped ≡ some (started capped)
unfolding new index_accounts fresh_states insert
new-capped = refl

new-free : new accounts free ≡ some (started free)
unfolding new index_accounts fresh_states insert
new-free = refl

capped-IsValid : IsValid (started capped)
capped-IsValid = new-IsValid accounts capped (started capped) new-capped

run-new-inflight_example :
    (state_at
      (run
        (started capped)
        (acquires "bob" ∷ acquires "bob" ∷ releases "bob" ∷ acquires "bob" ∷ []))
      1).inflight
    ≤ 1
run-new-inflight_example =
    run-new-inflight accounts capped (started capped)
      (acquires "bob" ∷ acquires "bob" ∷ releases "bob" ∷ acquires "bob" ∷ []) 1 new-capped refl

free-IsValid : IsValid (started free)
free-IsValid = new-IsValid accounts free (started free) new-free

-- One request runs on the first account, and the second one was refused by its upstream.
abbrev midway : List Call
midway = acquires "ann" ∷ auth_fails "bob" 5 ∷ []

run-IsValid_example : IsValid (run (started capped) midway)
run-IsValid_example = run-IsValid (started capped) midway capped-IsValid

candidates-healthy_accounts-perm_example :
    Perm
      (candidates (run (started capped) midway) "cy" "" 10).1
      (healthy_accounts 10 accounts (run (started capped) midway).states)
unfolding run call acquire acquire_at mark_auth_failed cooldown lookup healthy_accounts
candidates-healthy_accounts-perm_example =
    candidates-healthy_accounts-perm (run (started capped) midway) "cy" "" 10
      (run-IsValid (started capped) midway capped-IsValid) (λ e. cc)

candidates-front_example :
    head? (candidates (run (started free) (prefers "bob" ∷ [])) "" "" 10).1 ≡ get_elem? accounts 1
unfolding run call set_preferred lookup healthy_from sticky_lookup
candidates-front_example =
    candidates-front (run (started free) (prefers "bob" ∷ [])) "" "" "bob" 10 1
      (run-IsValid (started free) (prefers "bob" ∷ []) free-IsValid)
      (λ e. cc, inr (inr (refl, refl, refl))) refl refl

loaded-IsDistinct : IsDistinct (run (started capped) (acquires "ann" ∷ []))
unfolding run call acquire acquire_at lookup
loaded-IsDistinct zero name e =
    subst (λ n. lookup n (started capped).by_id ≡ some 0) (some-injective _ _ e) refl
loaded-IsDistinct (suc zero) name e =
    subst (λ n. lookup n (started capped).by_id ≡ some 1) (some-injective _ _ e) refl
loaded-IsDistinct (suc (suc zero)) name e =
    subst (λ n. lookup n (started capped).by_id ≡ some 2) (some-injective _ _ e) refl
loaded-IsDistinct (suc (suc (suc i))) name e = cc

abbrev all_cooling : List Call
all_cooling = rate_limits "ann" (pos 900) 1 ∷ auth_fails "bob" 2 ∷ rate_limits "cy" (pos 500) 3 ∷ []

candidates-IsSoonest_example :
    (i : ℕ) × (a : Account ℕ) × ((candidates (run (started capped) all_cooling) "" "" 10).1
      ≡ a ∷ [])
    × (get_elem? accounts i ≡ some a)
    × IsSoonest (run (started capped) all_cooling).states i
unfolding run call mark_rate_limited mark_auth_failed cooldown lookup healthy_from
candidates-IsSoonest_example =
    candidates-IsSoonest (run (started capped) all_cooling) "" "" 10
      (run-IsValid (started capped) all_cooling capped-IsValid) refl

offers_at-rotates_example :
    head? (candidates (offers_at (started free) (5 ∷ 6 ∷ [])) "" "" 7).1
    ≡ get_elem? accounts (get_or (0 ∷ 1 ∷ 2 ∷ []) (2 % 3) 0)
unfolding healthy_from
offers_at-rotates_example =
    offers_at-rotates (started free) (5 ∷ 6 ∷ []) 7 0 (1 ∷ 2 ∷ []) (refl, refl, refl)
      (refl, (refl, (refl, tt)))
