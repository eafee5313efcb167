-- ===== src/Server/Gates.antt =====
-- Who passes the gates.
use mathlib.Core.Path.{subst}
use apiforge.Base.{
  ℕ, ◌≡◌, ◌≢◌, ◌↔◌, ◌⊎◌, refl, inl, inr, ap, sym, ◌∙◌, Bool, true, false, List, [], ◌∷◌, arith,
  if◌then◌else◌, Bool-cases,
}
use apiforge.Base.Text.{Bytes, same_bytes, same_bytes_sound, same_bytes_refl}
use apiforge.Server.{
  Request, Config, Reply, handed_on, refused, bearer, any_from, any_constant_time_equal, auth,
  admin, RateLimiter, rate_limit, allow, rate_key, chain, serve_v1, serve_admin,
}

-- The text is one of the list.
pub data Among (x : Bytes) : List Bytes → Type 0 where
  first : {rest : List Bytes} → Among x (x ∷ rest)
  later : {y : Bytes} {rest : List Bytes} → Among x rest → Among x (y ∷ rest)

any_from-found : (keys : List Bytes) (presented : Bytes) → any_from true keys presented ≡ true
unfolding any_from
any_from-found [] presented = refl
any_from-found (k ∷ keys) presented = ground (arith, any_from-found keys presented)

any_from-Among :
    (keys : List Bytes) (presented : Bytes)
    → any_from false keys presented ≡ true
    → Among presented keys
unfolding any_from
any_from-Among [] presented e = cc
any_from-Among (k ∷ keys) presented e = elim (Bool-cases (same_bytes k presented)) [
  | inl same ↦
      subst (λ x. Among presented (x ∷ keys)) (sym (same_bytes_sound k presented same)) first
  | inr other ↦ later (any_from-Among keys presented (rw other at e))
]

pub Among-any_from :
    {presented : Bytes} (found : Bool) {keys : List Bytes}
    → Among presented keys
    → any_from found keys presented ≡ true
unfolding any_from
Among-any_from {presented} found (first {rest}) =
    rw (same_bytes_refl presented) (any_from-found rest presented)
Among-any_from {presented} found (later {y} {rest} a) =
    Among-any_from (if same_bytes y presented then true else found) a

-- The client has one of the keys, or there are none.
abbrev pub IsClient : Config → Request → Type 0
IsClient cfg r = (cfg.api_keys ≡ []) ⊎ Among (bearer r) cfg.api_keys

auth_sound : (cfg : Config) (r : Request) → auth cfg r ≡ handed_on → IsClient cfg r
unfolding auth
auth_sound cfg r e = by_keys cfg.api_keys refl
  where
    by_keys : (keys : List Bytes) → cfg.api_keys ≡ keys → IsClient cfg r
    by_keys [] k = inl k
    by_keys (x ∷ keys) k = elim (Bool-cases (any_constant_time_equal (x ∷ keys) (bearer r))) [
      | inl found ↦
          inr (subst (Among (bearer r)) (sym k) (any_from-Among (x ∷ keys) (bearer r) found))
      | inr missed ↦ absurd (ground (arith, ap (λ ks. auth (record cfg { api_keys = ks }) r) k))
    ]

auth_complete : (cfg : Config) (r : Request) → IsClient cfg r → auth cfg r ≡ handed_on
unfolding auth
auth_complete cfg r (inl k) = rw k refl
auth_complete cfg r (inr a) = by_keys cfg.api_keys refl a
  where
    by_keys :
        (keys : List Bytes) → cfg.api_keys ≡ keys → Among (bearer r) keys → auth cfg r ≡ handed_on
    by_keys [] k b = rw k refl
    by_keys (x ∷ keys) k b = rw (k, Among-any_from false b) refl

-- The administrator's token is set, and the caller presents it.
abbrev pub IsAdministrator : Config → Request → Type 0
IsAdministrator cfg r = (cfg.admin_token ≢ []) × (bearer r ≡ cfg.admin_token)

admin_sound : (cfg : Config) (r : Request) → admin cfg r ≡ handed_on → IsAdministrator cfg r
unfolding admin
admin_sound cfg r e = by_token cfg.admin_token refl
  where
    by_token : (token : Bytes) → cfg.admin_token ≡ token → IsAdministrator cfg r
    by_token [] k = absurd (ground (arith, ap (λ t. admin (record cfg { admin_token = t }) r) k))
    by_token (c ∷ token) k = elim (Bool-cases (same_bytes (bearer r) (c ∷ token))) [
      | inl same ↦ (λ none_set. cc, same_bytes_sound (bearer r) (c ∷ token) same ∙ sym k)
      | inr other ↦ absurd (ground (arith, ap (λ t. admin (record cfg { admin_token = t }) r) k))
    ]

admin_complete : (cfg : Config) (r : Request) → IsAdministrator cfg r → admin cfg r ≡ handed_on
unfolding admin
admin_complete cfg r (set, same) = by_token cfg.admin_token refl
  where
    by_token : (token : Bytes) → cfg.admin_token ≡ token → admin cfg r ≡ handed_on
    by_token [] k = absurd (set k)
    by_token (c ∷ token) k =
        let passes : same_bytes (bearer r) (c ∷ token) ≡ true =
          subst (λ t. same_bytes (bearer r) t ≡ true) (same ∙ k) (same_bytes_refl (bearer r)) in
        rw (k, passes) refl

rate_limit-handed_on :
    (rl : RateLimiter) (r : Request) (now : ℕ)
    → ((rate_limit rl r now).1 ≡ handed_on) ↔ ((allow rl (rate_key r) now).1 ≡ true)
unfolding rate_limit
rate_limit-handed_on rl r now = elim (Bool-cases (allow rl (rate_key r) now).1) [
  | inl e ↦ rw e (λ x. refl, λ x. refl)
  | inr e ↦ rw e (λ x. absurd (ground (arith, x)), λ x. cc)
]

chain-handed_on :
    (P : Type 0) (gate : Request → Reply) (rl : RateLimiter) (r : Request) (now : ℕ)
    → (gate r ≡ handed_on) ↔ P
    → ((chain gate rl r now).1 ≡ handed_on) ↔ (P × ((allow rl (rate_key r) now).1 ≡ true))
chain-handed_on P gate rl r now g = by_gate (gate r) refl
  where
    by_gate :
        (x : Reply)
        → gate r ≡ x
        → ((chain gate rl r now).1 ≡ handed_on) ↔ (P × ((allow rl (rate_key r) now).1 ≡ true))
    by_gate handed_on k =
        let limit = rate_limit-handed_on rl r now in
        rw (k, chain) (λ x. (g.0 k, limit.0 x), λ x. limit.1 x.1)
    by_gate (refused status kind message) k =
        rw (k, chain) (λ x. absurd (ground (arith, x)), λ x. sym k ∙ g.1 x.0)

-- A request reaches a `/v1` handler exactly if no client keys are set or it presents one of them, and
-- the rate limit grants it.
pub serve_v1-handed_on :
    (cfg : Config) (rl : RateLimiter) (r : Request) (now : ℕ)
    → ((serve_v1 cfg rl r now).1 ≡ handed_on)
      ↔ (IsClient cfg r × ((allow rl (rate_key r) now).1 ≡ true))
serve_v1-handed_on cfg rl r now =
    chain-handed_on (IsClient cfg r) (auth cfg) rl r now (auth_sound cfg r, auth_complete cfg r)

-- A request reaches an `/admin` handler exactly if the administrator's token is set and presented,
-- and the rate limit grants it: an empty token opens nothing.
pub serve_admin-handed_on :
    (cfg : Config) (rl : RateLimiter) (r : Request) (now : ℕ)
    → ((serve_admin cfg rl r now).1 ≡ handed_on)
      ↔ (IsAdministrator cfg r × ((allow rl (rate_key r) now).1 ≡ true))
serve_admin-handed_on cfg rl r now =
    chain-handed_on (IsAdministrator cfg r) (admin cfg) rl r now
      (admin_sound cfg r, admin_complete cfg r)

auth-refused :
    (cfg : Config) (r : Request)
    → ¬ IsClient cfg r
    → auth cfg r ≡ refused 401 "invalid_request_error" "Invalid API key."
unfolding auth
auth-refused cfg r stranger = by_keys cfg.api_keys refl
  where
    by_keys :
        (keys : List Bytes)
        → cfg.api_keys ≡ keys
        → auth cfg r ≡ refused 401 "invalid_request_error" "Invalid API key."
    by_keys [] k = absurd (stranger (inl k))
    by_keys (x ∷ keys) k = elim (Bool-cases (any_constant_time_equal (x ∷ keys) (bearer r))) [
      | inl found ↦ absurd (
          stranger
            (inr (subst (Among (bearer r)) (sym k) (any_from-Among (x ∷ keys) (bearer r) found))))
      | inr missed ↦ rw (k, missed) refl
    ]

-- A caller without a key gets a 401 and uses up nothing of anyone's rate limit.
pub serve_v1-refused :
    (cfg : Config) (rl : RateLimiter) (r : Request) (now : ℕ)
    → ¬ IsClient cfg r
    → serve_v1 cfg rl r now ≡ (rl, refused 401 "invalid_request_error" "Invalid API key.")
serve_v1-refused cfg rl r now stranger = rw (auth-refused cfg r stranger, chain) refl
