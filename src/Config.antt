-- ===== src/Config.antt =====
-- internal/config/config.go: the readers of single settings, credential resolution and the loopback
-- test, and what `Load` takes from the environment beside the credential locations. The environment is
-- a function from names to values, empty where there is none, and `stat` tells which paths exist.
pub mod EnvFile
pub mod Loading
pub mod Written
mod Tests
use apiforge.Base.{
  ℕ, ◌+◌, ◌*◌, ◌^◌, ◌==◌, leb, String, Bool, true, false, ◌&&◌, ◌||◌, Option, none, some, List, [],
  ◌∷◌, ◌++◌, keep, map, if◌then◌else◌, ℤ, pos, concat_map,
}
use apiforge.Base.Text.{Bytes, codes, same_bytes, trim_space, atoi}
use apiforge.Vendor.{seen_in, split_commas}

abbrev pub Env : Type 0
Env = Bytes → Bytes

abbrev pub env_str : Env → String → Bytes → Bytes
env_str env name d = if same_bytes (env (codes name)) [] then d else env (codes name)

abbrev or_default : Option ℤ → ℤ → ℤ
or_default none d = d
or_default (some n) d = n

-- Also `envInt64`: both read 64 bits.
abbrev pub env_int : Env → String → ℤ → ℤ
env_int env name d =
    if same_bytes (env (codes name)) [] then d else or_default (atoi (env (codes name))) d

abbrev lower : ℕ → ℕ
lower c = if leb b'A' c && leb c b'Z' then c + 32 else c

abbrev is_one_of : Bytes → List String → Bool
is_one_of v [] = false
is_one_of v (s ∷ rest) = same_bytes v (codes s) || is_one_of v rest

abbrev pub env_bool : Env → String → Bool → Bool
env_bool env name d =
    let v = map lower (env (codes name)) in
    if same_bytes v [] then d else is_one_of v ("1" ∷ "true" ∷ "yes" ∷ "on" ∷ [])

-- The loop of `uniq`, with the texts that were kept before.
unfoldable pub uniq_from : List Bytes → List Bytes → List Bytes
uniq_from seen [] = []
uniq_from seen (s ∷ rest) =
    let skipped = uniq_from seen rest in
    let kept = s ∷ uniq_from (s ∷ seen) rest in if seen_in s seen then skipped else kept

abbrev pub uniq : List Bytes → List Bytes
uniq xs = uniq_from [] xs

unfoldable pub trimmed : List Bytes → List Bytes
trimmed [] = []
trimmed (s ∷ rest) =
    let more = trimmed rest in if same_bytes (trim_space s) [] then more else trim_space s ∷ more

unfoldable pub env_list : Env → String → List Bytes
unfolding uniq_from trimmed
env_list env name =
    if same_bytes (env (codes name)) []
    then []
    else uniq (trimmed (split_commas (env (codes name))))

-- The found ones, else the first candidate.
abbrev or_first : List Bytes → List Bytes → List Bytes
or_first (p ∷ found) u = p ∷ found
or_first [] (p ∷ u) = p ∷ []
or_first [] [] = []

unfoldable pub select_existing : (Bytes → Bool) → List Bytes → List Bytes
unfolding uniq_from
select_existing stat candidates = or_first (keep stat (uniq candidates)) (uniq candidates)

abbrev or_else : List Bytes → List Bytes → List Bytes
or_else (p ∷ list) other = p ∷ list
or_else [] other = other

unfoldable pub resolve_creds : Env → (Bytes → Bool) → String → String → List Bytes → List Bytes
unfolding env_list select_existing
resolve_creds env stat list_env single_env candidates = or_else (env_list env list_env) (
    if same_bytes (env (codes single_env)) []
    then select_existing stat candidates
    else env (codes single_env) ∷ [])

-- `json_files` gives the sorted credential files of a directory, none of what is no directory.
abbrev expanded : (Bytes → Option (List Bytes)) → Bytes → List Bytes
expanded json_files p = elim (json_files p) [ none ↦ p ∷ [] | some files ↦ files ]

unfoldable pub expand_cred_dirs : (Bytes → Option (List Bytes)) → List Bytes → List Bytes
unfolding uniq_from
expand_cred_dirs json_files paths = uniq (concat_map (expanded json_files) paths)

-- The settings of `Config` that are read from one variable each.
pub record Settings : Type 0 where
  pub host : Bytes
  pub port : ℤ
  pub log_level : Bytes
  pub api_keys : List Bytes
  pub admin_token : Bytes
  pub upstream_timeout_ms : ℤ
  pub max_body_bytes : ℤ
  pub rate_limit_rpm : ℤ
  pub max_account_concurrency : ℤ
  pub sticky_ttl_seconds : ℤ

unfoldable pub load : Env → Settings
unfolding env_list
load env = record {
  host = env_str env "HOST" (codes "127.0.0.1");
  port = env_int env "PORT" (pos 8899);
  log_level = env_str env "LOG_LEVEL" (codes "info");
  api_keys = env_list env "API_KEYS";
  admin_token = env (codes "ADMIN_TOKEN");
  upstream_timeout_ms = env_int env "UPSTREAM_TIMEOUT_MS" (pos 600000);
  max_body_bytes = env_int env "MAX_BODY_BYTES" (pos (10 * 2 ^ 20));
  rate_limit_rpm = env_int env "RATE_LIMIT_RPM" (pos 0);
  max_account_concurrency = env_int env "MAX_ACCOUNT_CONCURRENCY" (pos 3);
  sticky_ttl_seconds = env_int env "STICKY_TTL_SECONDS" (pos 0);
}

unfoldable pub is_loopback : Bytes → Bool
is_loopback host = is_one_of host ("127.0.0.1" ∷ "::1" ∷ "localhost" ∷ [])
