-- ===== src/Ssrf/Tests.antt =====
-- The statements about upstream addresses at concrete inputs.
use apiforge.Base.{◌≡◌, refl, true, false, Option, none, some, List, [], ◌∷◌, arith}
use apiforge.Base.Text.{Bytes, codes, same_bytes}
use apiforge.Ssrf.{
  Ip, v4, Url, is_http, is_local_name, has_suffix, first_blocked, is_blocked_ip, is_loopback,
  is_private, is_link_local_unicast, is_link_local_multicast, is_unspecified, check_host, check_url,
  assert_public_url,
}
use apiforge.Ssrf.Public.{
  address, is_non_public, is_blocked_ip-networks, IsPublicHost, assert_public_url-IsPublicHost,
}

is_blocked_ip-networks_example : is_blocked_ip (v4 172 20 0 1) ≡ is_non_public (address 172 20 0 1)
is_blocked_ip-networks_example =
    is_blocked_ip-networks 172 20 0 1 (omega arith) (omega arith) (omega arith) (omega arith)

abbrev api_url : Url
api_url = record { scheme = codes "https"; hostname = codes "api.test" }

abbrev parse : Bytes → Option Url
parse raw = some api_url

abbrev no_literal : Bytes → Option Ip
no_literal host = none

abbrev one_address : Bytes → Option (List Ip)
one_address host = some (v4 93 184 216 34 ∷ [])

passes : assert_public_url parse no_literal one_address (codes "https://api.test") ≡ none
unfolding assert_public_url check_url check_host first_blocked is_blocked_ip is_loopback is_private
    is_link_local_unicast is_link_local_multicast is_unspecified is_local_name has_suffix same_bytes
passes = refl

assert_public_url-IsPublicHost_example :
    (u : Url) × (some api_url ≡ some u)
    × (is_http u.scheme ≡ true)
    × (same_bytes u.hostname [] ≡ false)
    × (is_local_name u.hostname ≡ false)
    × IsPublicHost no_literal one_address u.hostname
assert_public_url-IsPublicHost_example =
    assert_public_url-IsPublicHost parse no_literal one_address (codes "https://api.test") passes
