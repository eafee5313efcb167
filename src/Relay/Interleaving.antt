-- ===== src/Relay/Interleaving.antt =====
-- Any number of requests on one pool, in any interleaving, with the administrator beside them: the
-- in-flight count of each account is the number of requests that hold a slot of it.
use apiforge.Base.{
  ℕ, zero, suc, ◌+◌, ◌≤◌, ◌≡◌, refl, ◌∙◌, ap, sym, ◌⊎◌, String, true, false, List, [], ◌∷◌, arith,
  if◌then◌else◌, lookup, Option, some, ℤ, is_pos, pos_part, get_or,
}
use mathlib.Core.Path.{subst}
use mathlib.Core.Option.{some-injective}
use apiforge.Pool.{Account, Options, Pool, fresh_state, fresh_states, new}
use apiforge.Pool.Slots.{acquire, release}
use apiforge.Pool.Invariant.{
  IsValid, acquire-IsValid, release-IsValid, new-IsValid, state_at-WithinCap,
}
use apiforge.Pool.States.{is_at}
use apiforge.Pool.Inflight.{
  inflight_at, IsQuiet, inflight-quiet, inflight-acquire, inflight-release,
}
use apiforge.Pool.History.{
  Call, acquires, releases, call, call-by_id, call-IsValid, call-conc, new-conc,
}
use apiforge.Relay.{Error, Outcome, attempt_once, ReleaseCloser, close}
use apiforge.Relay.Once.{
  is_stream, attempt_once-IsValid, attempt_once-by_id, attempt_once-conc, attempt_once-inflight,
}

-- The pool, and the account ids of the slots that are held: one for each callback that runs and one
-- for each success whose body is still open.
pub record System {ℓ} (C : Type ℓ) : Type ℓ where
  pub pool : Pool C
  pub slots : List String

-- A holder of a slot of `id` gives it up.
pub data Drops (id : String) : List String → List String → Type 0 where
  here : {rest : List String} → Drops id (id ∷ rest) rest
  there :
      {other : String} {some_slots rest : List String}
      → Drops id some_slots rest
      → Drops id (other ∷ some_slots) (other ∷ rest)

-- One step of one party. `settles` is the end of a callback by `attempt_once`; `closes` is the first
-- `Close` of a streamed body; a later one does nothing to the pool. `others`
-- is any other method of the pool, by a request or by the administrator.
pub data Step {ℓ} {C : Type ℓ} (s t : System C) : Type ℓ where
  takes :
      (id : String)
      → (acquire s.pool id).1 ≡ true
      → t.pool ≡ (acquire s.pool id).0
      → t.slots ≡ id ∷ s.slots
      → Step s t
  settles :
      (ctx_err : Option Error) (id session : String) (o : Outcome) (now : ℕ) (rest : List String)
      → Drops id s.slots rest
      → t.pool ≡ (attempt_once ctx_err s.pool id session o now).0
      → t.slots
        ≡ (if is_stream (attempt_once ctx_err s.pool id session o now).1 then s.slots else rest)
      → Step s t
  closes :
      (body : ReleaseCloser)
      → body.released ≡ false
      → Drops body.id s.slots t.slots
      → t.pool ≡ (close s.pool body).0
      → Step s t
  others : (c : Call) → IsQuiet c → t.pool ≡ call s.pool c → t.slots ≡ s.slots → Step s t

pub data Reach {ℓ} {C : Type ℓ} (s : System C) : System C → Type ℓ where
  start : Reach s s
  then_step : {t u : System C} → Reach s t → Step t u → Reach s u

-- How many of the held slots are of account `i`.
unfoldable pub count : List (String × ℕ) → List String → ℕ → ℕ
count by_id [] i = 0
count by_id (id ∷ slots) i = (if is_at (lookup id by_id) i then 1 else 0) + count by_id slots i

Drops-count :
    (by_id : List (String × ℕ)) {id : String} {slots rest : List String} (i : ℕ)
    → Drops id slots rest
    → count by_id slots i ≡ (if is_at (lookup id by_id) i then 1 else 0) + count by_id rest i
unfolding count
Drops-count by_id i here = refl
Drops-count by_id i (there {other} d) = omega (arith, Drops-count by_id i d)

pub record IsCounted {ℓ} {C : Type ℓ} (conc : ℤ) (s : System C) : Type 0 where
  pub valid : IsValid s.pool
  pub same_cap : s.pool.conc ≡ conc
  pub counted : (i : ℕ) → inflight_at s.pool i ≡ count s.pool.by_id s.slots i

module _ {ℓ} {C : Type ℓ} (conc : ℤ) where
  IsCounted-after :
      (s t : System C)
      → IsValid t.pool
      → t.pool.conc ≡ conc
      → t.pool.by_id ≡ s.pool.by_id
      → ((i : ℕ) → inflight_at t.pool i ≡ count s.pool.by_id t.slots i)
      → IsCounted conc t
  IsCounted-after s t v c e h = record {
    valid = v;
    same_cap = c;
    counted = λ i. h i ∙ ap (λ m. count m t.slots i) (sym e);
  }

  closed :
      (s t : System C) (id : String)
      → IsCounted conc s
      → Drops id s.slots t.slots
      → t.pool ≡ release s.pool id
      → IsCounted conc t
  unfolding call
  closed s t id k d p =
      IsCounted-after s t (rw p (release-IsValid s.pool id k.valid))
        (rw p (call-conc s.pool (releases id) ∙ k.same_cap))
        (rw p (call-by_id s.pool (releases id)))
        (λ i. rw p (
          ground (
            arith,
            inflight-release s.pool id i k.valid,
            k.counted i,
            Drops-count s.pool.by_id i d,
          )))

  Step-IsCounted : (s t : System C) → IsCounted conc s → Step s t → IsCounted conc t
  unfolding count close
  Step-IsCounted s t k (takes id e p q) =
      IsCounted-after s t (rw p (acquire-IsValid s.pool id k.valid))
        (rw p (unfold call in call-conc s.pool (acquires id) ∙ k.same_cap))
        (rw p (unfold call in call-by_id s.pool (acquires id)))
        (λ i. rw (p, q) (ground (arith, inflight-acquire s.pool id i k.valid e, k.counted i)))
  Step-IsCounted s t k (settles ctx_err id session o now rest d p q) =
      IsCounted-after s t (rw p (attempt_once-IsValid ctx_err s.pool id session o now k.valid))
        (rw p (attempt_once-conc ctx_err s.pool id session o now ∙ k.same_cap))
        (rw p (attempt_once-by_id ctx_err s.pool id session o now))
        (λ i.
          rw (p, q)
            (ground (
              arith,
              attempt_once-inflight ctx_err s.pool id session o now i k.valid,
              k.counted i,
              Drops-count s.pool.by_id i d,
            )))
  Step-IsCounted s t k (closes body first d p) = closed s t body.id k d (rw first at p)
  Step-IsCounted s t k (others c quiet p q) =
      IsCounted-after s t (rw p (call-IsValid s.pool c k.valid))
        (rw p (call-conc s.pool c ∙ k.same_cap)) (rw p (call-by_id s.pool c))
        (λ i. rw (p, q) (inflight-quiet s.pool c i k.valid quiet ∙ k.counted i))

  Reach-IsCounted : {s t : System C} → IsCounted conc s → Reach s t → IsCounted conc t
  Reach-IsCounted k start = k
  Reach-IsCounted k (then_step {t} {u} r st) = Step-IsCounted t u (Reach-IsCounted k r) st

abbrev pub new_system {ℓ} : {C : Type ℓ} → Pool C → System C
new_system p = record { pool = p; slots = [] }

fresh_states-fresh {ℓ} :
    {C : Type ℓ} (accounts : List (Account C)) (i : ℕ)
    → get_or (fresh_states accounts) i fresh_state ≡ fresh_state
unfolding fresh_states
fresh_states-fresh [] i = refl
fresh_states-fresh (a ∷ rest) zero = refl
fresh_states-fresh (a ∷ rest) (suc i) = fresh_states-fresh rest i

new-count {ℓ} :
    {C : Type ℓ} (accounts : List (Account C)) (opts : Options) (p : Pool C) (i : ℕ)
    → new accounts opts ≡ some p
    → inflight_at p i ≡ 0
unfolding new
new-count [] opts p i e = cc
new-count (a ∷ rest) opts p i e =
    subst (λ q. inflight_at q i ≡ 0) (some-injective _ _ e)
      (ap (λ s. s.inflight) (fresh_states-fresh (a ∷ rest) i))

-- From a new pool on, whatever requests and administrator do in whatever order, an account has as
-- many requests in flight as slots of it are held, and where there is a cap, no more than the cap.
pub Reach-count {ℓ} :
    {C : Type ℓ} (accounts : List (Account C)) (opts : Options) (p : Pool C) (t : System C) (i : ℕ)
    → new accounts opts ≡ some p
    → Reach (new_system p) t
    → (inflight_at t.pool i ≡ count t.pool.by_id t.slots i)
      × ((is_pos opts.max_concurrency ≡ false)
          ⊎ (count t.pool.by_id t.slots i ≤ pos_part opts.max_concurrency))
unfolding count
Reach-count accounts opts p t i e r =
    let k =
      Reach-IsCounted opts.max_concurrency
        (record {
          valid = new-IsValid accounts opts p e;
          same_cap = new-conc accounts opts p e;
          counted = λ j. new-count accounts opts p j e;
        })
        r in
    (k.counted i, ground (arith, state_at-WithinCap t.pool i k.valid, k.counted i, k.same_cap))
