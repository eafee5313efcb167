-- ===== src/Server/Upstream.antt =====
-- internal/server/server.go: `writeUpstream`. A header's name is its bytes, with the values in order. The
-- reads of the body come as an argument, the last one with the error that ends it; `writes` tells
-- whether the n-th write to the client works. Flushing has no result.
pub mod Relaying
use apiforge.Base.{
  ℕ, suc, ◌+◌, ◌-◌, ◌==◌, leb, String, Bool, true, false, not, ◌&&◌, ◌||◌, List, [], ◌∷◌, ◌++◌, map,
  concat_map, if◌then◌else◌,
}
use apiforge.Base.Text.{Bytes, codes, same_bytes}

-- `http.CanonicalHeaderKey`: a name with a byte that no token has is left as it is; otherwise the first
-- letter and each one behind a hyphen are upper case, the others lower case.
abbrev is_upper : ℕ → Bool
is_upper c = leb b'A' c && leb c b'Z'

abbrev is_lower : ℕ → Bool
is_lower c = leb b'a' c && leb c b'z'

abbrev among : ℕ → Bytes → Bool
among c [] = false
among c (d ∷ rest) = c == d || among c rest

abbrev is_token : ℕ → Bool
is_token c =
    is_upper c || is_lower c || leb b'0' c && leb c b'9' || among c (codes "!#$%&'*+-.^_`|~")

abbrev all_token : Bytes → Bool
all_token [] = true
all_token (c ∷ rest) = is_token c && all_token rest

unfoldable pub cased : Bool → Bytes → Bytes
cased up [] = []
cased true (c ∷ rest) = (if is_lower c then c - 32 else c) ∷ cased (c == b'-') rest
cased false (c ∷ rest) = (if is_upper c then c + 32 else c) ∷ cased (c == b'-') rest

unfoldable pub canonical : Bytes → Bytes
unfolding cased
canonical name = if all_token name then cased true name else name

abbrev pub hop_by_hop : List Bytes
hop_by_hop =
    codes "Connection"
    ∷ codes "Keep-Alive"
    ∷ codes "Proxy-Authenticate"
    ∷ codes "Proxy-Authorization"
    ∷ codes "Te"
    ∷ codes "Trailer"
    ∷ codes "Transfer-Encoding"
    ∷ codes "Upgrade"
    ∷ codes "Content-Length"
    ∷ codes "Set-Cookie"
    ∷ codes "Openai-Organization"
    ∷ codes "Cf-Ray"
    ∷ codes "Cf-Cache-Status"
    ∷ codes "X-Request-Id"
    ∷ codes "Server"
    ∷ []

unfoldable pub is_listed : Bytes → List Bytes → Bool
is_listed name [] = false
is_listed name (h ∷ rest) = same_bytes name h || is_listed name rest

abbrev pub is_hop_by_hop : Bytes → Bool
is_hop_by_hop name = is_listed (canonical name) hop_by_hop

-- The inner loop; `Add` puts the name into its canonical form.
abbrev pub added : Bytes × List Bytes → List (Bytes × Bytes)
added (name, values) = if is_hop_by_hop name then [] else map (λ v. (canonical name, v)) values

abbrev pub relayed_headers : List (Bytes × List Bytes) → List (Bytes × Bytes)
relayed_headers headers = concat_map added headers

-- A read of the body, and whether it ends it.
pub data Read : Type 0 where
  more : Bytes → Read
  last : Bytes → Read

-- The writes, in order; an empty read gives none, and the first one that fails is the last.
unfoldable pub copy_body : (ℕ → Bool) → ℕ → List Read → List Bytes
copy_body writes n [] = []
copy_body writes n (more [] ∷ rest) = copy_body writes n rest
copy_body writes n (more (b ∷ bs) ∷ rest) =
    let later = copy_body writes (suc n) rest in (b ∷ bs) ∷ (if writes n then later else [])
copy_body writes n (last [] ∷ rest) = []
copy_body writes n (last (b ∷ bs) ∷ rest) = (b ∷ bs) ∷ []

pub record Response : Type 0 where
  pub status : ℕ
  pub headers : List (Bytes × List Bytes)
  pub body : List Read

pub record Written : Type 0 where
  pub status : ℕ
  pub headers : List (Bytes × Bytes)
  pub body : List Bytes

unfoldable pub write_upstream : (ℕ → Bool) → Response → Written
unfolding copy_body
write_upstream writes resp = record {
  status = resp.status;
  headers = relayed_headers resp.headers;
  body = copy_body writes 0 resp.body;
}
