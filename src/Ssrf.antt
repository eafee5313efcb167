-- ===== src/Ssrf.antt =====
-- internal/util/ssrf/ssrf.go: `AssertPublicURL` and `isBlockedIP`. Parsing a URL, parsing a literal
-- address and looking a host up are arguments, from net/url and net; none is an error there. The host is
-- ASCII. An address of four bytes is one whatever its notation, as `To4` finds.
pub mod Public
mod Tests
use apiforge.Base.{
  ℕ, ◌+◌, ◌/◌, ◌%◌, ◌==◌, leb, Bool, true, false, not, ◌&&◌, ◌||◌, Option, none, some, List, [],
  ◌∷◌, ◌++◌, map, if◌then◌else◌, String,
}
use apiforge.Base.Text.{Bytes, codes, same_bytes}

-- The bytes of an address.
pub data Ip : Type 0 where
  v4 : ℕ → ℕ → ℕ → ℕ → Ip
  v6 : Bytes → Ip

abbrev all_zero : Bytes → Bool
all_zero [] = true
all_zero (b ∷ rest) = b == 0 && all_zero rest

-- Fifteen zeros and a one.
abbrev is_one : Bytes → Bool
is_one [] = false
is_one (b ∷ []) = b == 1
is_one (b ∷ c ∷ rest) = b == 0 && is_one (c ∷ rest)

unfoldable pub is_loopback : Ip → Bool
is_loopback (v4 a b c d) = a == 127
is_loopback (v6 bytes) = is_one bytes

abbrev first_two : (ℕ → ℕ → Bool) → Bytes → Bool
first_two test [] = false
first_two test (a ∷ []) = false
first_two test (a ∷ b ∷ rest) = test a b

-- `b & 0xf0 == 16` is a quotient of 1, `a & 0xfe == 0xfc` one of 126.
unfoldable pub is_private : Ip → Bool
is_private (v4 a b c d) = a == 10 || a == 172 && b / 16 == 1 || a == 192 && b == 168
is_private (v6 bytes) = first_two (λ a b. a / 2 == 126) bytes

unfoldable pub is_link_local_unicast : Ip → Bool
is_link_local_unicast (v4 a b c d) = a == 169 && b == 254
is_link_local_unicast (v6 bytes) = first_two (λ a b. a == 254 && b / 64 == 2) bytes

unfoldable pub is_link_local_multicast : Ip → Bool
is_link_local_multicast (v4 a b c d) = a == 224 && b == 0 && c == 0
is_link_local_multicast (v6 bytes) = first_two (λ a b. a == 255 && b % 16 == 2) bytes

unfoldable pub is_unspecified : Ip → Bool
is_unspecified (v4 a b c d) = a == 0 && b == 0 && c == 0 && d == 0
is_unspecified (v6 bytes) = all_zero bytes

unfoldable pub is_blocked_ip : Ip → Bool
unfolding is_loopback is_private is_link_local_unicast is_link_local_multicast is_unspecified
is_blocked_ip ip =
    is_loopback ip
    || is_private ip
    || is_link_local_unicast ip
    || is_link_local_multicast ip
    || is_unspecified ip

pub record Url : Type 0 where
  pub scheme : Bytes
  pub hostname : Bytes

abbrev lower : ℕ → ℕ
lower c = if leb b'A' c && leb c b'Z' then c + 32 else c

-- `strings.HasSuffix`.
unfoldable pub has_suffix : Bytes → Bytes → Bool
has_suffix [] suffix = same_bytes [] suffix
has_suffix (c ∷ s) suffix = same_bytes (c ∷ s) suffix || has_suffix s suffix

unfoldable pub is_local_name : Bytes → Bool
unfolding has_suffix
is_local_name host =
    let name = map lower host in
    same_bytes name (codes "localhost") || has_suffix name (codes ".localhost")

pub data Refusal : Type 0 where
  invalid_url bad_scheme no_host loopback_host : Refusal
  non_public : Ip → Refusal

-- The first resolved address that is blocked.
unfoldable pub first_blocked : List Ip → Option Refusal
first_blocked [] = none
first_blocked (ip ∷ rest) =
    let more = first_blocked rest in if is_blocked_ip ip then some (non_public ip) else more

unfoldable pub check_host :
    (Bytes → Option Ip) → (Bytes → Option (List Ip)) → Bytes → Option Refusal
unfolding first_blocked
check_host parse_ip lookup_ip host = elim (parse_ip host) [
  | some ip ↦ if is_blocked_ip ip then some (non_public ip) else none
  | none ↦ elim (lookup_ip host) [ none ↦ none | some ips ↦ first_blocked ips ]
]

abbrev pub is_http : Bytes → Bool
is_http scheme = same_bytes scheme (codes "http") || same_bytes scheme (codes "https")

unfoldable pub check_url : (Bytes → Option Ip) → (Bytes → Option (List Ip)) → Url → Option Refusal
unfolding check_host is_local_name
check_url parse_ip lookup_ip u =
    if not (is_http u.scheme)
    then some bad_scheme
    else if same_bytes u.hostname []
    then some no_host
    else if is_local_name u.hostname
    then some loopback_host
    else check_host parse_ip lookup_ip u.hostname

-- None is a URL that passes.
unfoldable pub assert_public_url :
    (Bytes → Option Url) → (Bytes → Option Ip) → (Bytes → Option (List Ip)) → Bytes → Option Refusal
unfolding check_url
assert_public_url parse parse_ip lookup_ip raw = elim (parse raw) [
  | none ↦ some invalid_url
  | some u ↦ check_url parse_ip lookup_ip u
]
