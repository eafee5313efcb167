-- ===== src/Server.antt =====
-- internal/server/middleware.go: the gates before a handler. A request is what the gates read of it:
-- header values are lists of bytes, and an absent header is the empty one. The handler behind the
-- gates is not theirs, so `chain` answers only whether it is reached.
pub mod Gates
pub mod Limits
pub mod Handlers
pub mod Images
pub mod Edits
pub mod Lists
pub mod Upstream
mod Tests
use apiforge.Base.{
  ℕ, suc, ◌+◌, ◌-◌, ◌*◌, String, Bool, true, false, not, Option, none, some, List, [], ◌∷◌, ltb,
  leb, if◌then◌else◌, str_eq, ℤ, is_pos, pos_part,
}
use apiforge.Base.Text.{Bytes, codes, trim_space, cut_prefix, same_bytes}
use apiforge.Pool.Health.{second}

pub record Request : Type 0 where
  pub authorization : Bytes
  pub api_key : Bytes
  pub remote_addr : Bytes

pub record Config : Type 0 where
  pub api_keys : List Bytes
  pub admin_token : Bytes

-- What a gate answers by itself (status, kind, message), or that it hands the request on.
pub data Reply : Type 0 where
  handed_on : Reply
  refused : ℕ → String → String → Reply

-- `subtle.ConstantTimeCompare` is 1 exactly on equal contents.
abbrev pub constant_time_equal : Bytes → Bytes → Bool
constant_time_equal a b = same_bytes a b

unfoldable pub bearer : Request → Bytes
bearer r = elim r.authorization [
  | [] ↦ trim_space r.api_key
  | c ∷ h ↦ elim (cut_prefix (codes "Bearer ") (c ∷ h)) [
    | none ↦ trim_space r.api_key
    | some after ↦ trim_space after
  ]
]

-- The loop of `anyConstantTimeEqual`, with its variable `match`: it never stops early.
unfoldable pub any_from : Bool → List Bytes → Bytes → Bool
any_from found [] presented = found
any_from found (k ∷ keys) presented =
    any_from (if constant_time_equal k presented then true else found) keys presented

abbrev pub any_constant_time_equal : List Bytes → Bytes → Bool
any_constant_time_equal keys presented = any_from false keys presented

unfoldable pub auth : Config → Request → Reply
auth cfg r = elim cfg.api_keys [
  | [] ↦ handed_on
  | k ∷ keys ↦
      if any_constant_time_equal (k ∷ keys) (bearer r)
      then handed_on
      else refused 401 "invalid_request_error" "Invalid API key."
]

unfoldable pub admin : Config → Request → Reply
admin cfg r = elim cfg.admin_token [
  | [] ↦ refused 403 "invalid_request_error" "Admin API is disabled (ADMIN_TOKEN not set)."
  | c ∷ token ↦
      if not (constant_time_equal (bearer r) (c ∷ token))
      then refused 401 "invalid_request_error" "Invalid admin token."
      else handed_on
]

abbrev pub minute : ℕ
minute = 60 * second

pub record RateLimiter : Type 0 where
  pub rpm : ℤ
  pub counts : List (Bytes × ℕ)
  pub window : ℕ

abbrev pub new_rate_limiter : ℤ → ℕ → RateLimiter
new_rate_limiter rpm now = record { rpm = rpm; counts = []; window = now }

-- `rl.counts[key]`, 0 if there is none.
unfoldable pub count_of : Bytes → List (Bytes × ℕ) → ℕ
count_of key [] = 0
count_of key (entry ∷ rest) = if same_bytes entry.0 key then entry.1 else count_of key rest

-- `rl.counts[key] = n`.
unfoldable pub set_count : Bytes → ℕ → List (Bytes × ℕ) → List (Bytes × ℕ)
set_count key n [] = (key, n) ∷ []
set_count key n (entry ∷ rest) =
    if same_bytes entry.0 key then (key, n) ∷ rest else entry ∷ set_count key n rest

-- A window of a minute or more begins anew.
abbrev pub current : RateLimiter → ℕ → RateLimiter
current rl now =
    if leb minute (now - rl.window) then record rl { counts = []; window = now } else rl

unfoldable pub allow : RateLimiter → Bytes → ℕ → RateLimiter × Bool
allow rl key now =
    if not (is_pos rl.rpm)
    then (rl, true)
    else let open_window = current rl now in
      let n = count_of key open_window.counts + 1 in
      (record open_window { counts = set_count key n open_window.counts }, leb n (pos_part rl.rpm))

-- The key that a request is counted under.
abbrev pub rate_key : Request → Bytes
rate_key r = elim (bearer r) [ [] ↦ r.remote_addr | c ∷ key ↦ c ∷ key ]

unfoldable pub rate_limit : RateLimiter → Request → ℕ → RateLimiter × Reply
rate_limit rl r now =
    let (rl', allowed) = allow rl (rate_key r) now in
    (rl', if not allowed then refused 429 "rate_limit_error" "Too many requests." else handed_on)

-- `chain` of one of the two gates and the rate limit, as `New` of server.go builds them: the first
-- listed is the outermost. The body limit behind them refuses nothing itself.
abbrev pub chain : (Request → Reply) → RateLimiter → Request → ℕ → RateLimiter × Reply
chain gate rl r now = elim (gate r) [
  | handed_on ↦ rate_limit rl r now
  | refused status kind message ↦ (rl, refused status kind message)
]

abbrev pub serve_v1 : Config → RateLimiter → Request → ℕ → RateLimiter × Reply
serve_v1 cfg rl r now = chain (auth cfg) rl r now

abbrev pub serve_admin : Config → RateLimiter → Request → ℕ → RateLimiter × Reply
serve_admin cfg rl r now = chain (admin cfg) rl r now
