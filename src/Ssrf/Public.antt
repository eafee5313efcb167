-- ===== src/Ssrf/Public.antt =====
-- What a URL that passes is, and which addresses of four bytes are blocked, by their networks.
use apiforge.Base.{
  ℕ, ◌+◌, ◌*◌, ◌/◌, ◌^◌, ◌<◌, ◌==◌, ◌≡◌, ◌≢◌, ◌∙◌, ap, sym, inl, inr, Bool, true, false, ◌&&◌, ◌||◌,
  Option, none, some, List, [], ◌∷◌, All, Bool-cases, Option-cases, arith,
}
use apiforge.Base.Text.{Bytes, same_bytes}
use apiforge.Ssrf.{
  Ip, v4, is_loopback, is_private, is_link_local_unicast, is_link_local_multicast, is_unspecified,
  is_blocked_ip, Url, is_local_name, first_blocked, check_host, is_http, check_url,
  assert_public_url,
}

-- The number of an address, and whether it is in the network of a base and a prefix length.
abbrev pub address : ℕ → ℕ → ℕ → ℕ → ℕ
address a b c d = a * 16777216 + b * 65536 + c * 256 + d

abbrev pub in_network : ℕ → ℕ → ℕ → Bool
in_network n size base = n / size == base / size

-- 127.0.0.0/8, 10.0.0.0/8, 172.16.0.0/12, 192.168.0.0/16, 169.254.0.0/16, 224.0.0.0/24, 0.0.0.0/32.
abbrev pub is_non_public : ℕ → Bool
is_non_public n =
    in_network n (2 ^ 24) (address 127 0 0 0)
    || in_network n (2 ^ 24) (address 10 0 0 0)
    || in_network n (2 ^ 20) (address 172 16 0 0)
    || in_network n (2 ^ 16) (address 192 168 0 0)
    || in_network n (2 ^ 16) (address 169 254 0 0)
    || in_network n (2 ^ 8) (address 224 0 0 0)
    || in_network n 1 0

or_all : {p q r s : Bool} → p ≡ q → r ≡ s → (p || r) ≡ (q || s)
or_all {p} {q} {r} {s} e f = ap (λ x. x || r) e ∙ ap (λ x. q || x) f

module _ (a b c d : ℕ) (ha : a < 256) (hb : b < 256) (hc : c < 256) (hd : d < 256) where
  of_8 : address a b c d / 16777216 ≡ a
  of_8 = omega arith

  of_12 : address a b c d / 1048576 ≡ a * 16 + b / 16
  of_12 = omega arith

  of_16 : address a b c d / 65536 ≡ a * 256 + b
  of_16 = omega arith

  of_24 : address a b c d / 256 ≡ a * 65536 + b * 256 + c
  of_24 = omega arith

  in_12 : (a * 16 + b / 16 == 2753) ≡ (a == 172 && b / 16 == 1)
  in_12 = ground arith

  in_16 : (x y : ℕ) → y < 256 → (a * 256 + b == x * 256 + y) ≡ (a == x && b == y)
  in_16 x y hy = ground arith

  in_24 : (a * 65536 + b * 256 + c == 14680064) ≡ (a == 224 && b == 0 && c == 0)
  in_24 = ground arith

  in_32 : (address a b c d == 0) ≡ (a == 0 && b == 0 && c == 0 && d == 0)
  in_32 = ground arith

  -- Each network's test is the code's test on the bytes.
  networks : is_non_public (address a b c d) ≡ (
      a == 127
      || a == 10
      || a == 172 && b / 16 == 1
      || a == 192 && b == 168
      || a == 169 && b == 254
      || a == 224 && b == 0 && c == 0
      || a == 0 && b == 0 && c == 0 && d == 0)
  networks =
      let n = address a b c d in
      let loopback : in_network n (2 ^ 24) (address 127 0 0 0) ≡ (a == 127) =
        ap (λ q. q == 127) of_8 in
      let private_8 : in_network n (2 ^ 24) (address 10 0 0 0) ≡ (a == 10) =
        ap (λ q. q == 10) of_8 in
      let private_12 : in_network n (2 ^ 20) (address 172 16 0 0) ≡ (a == 172 && b / 16 == 1) =
        ap (λ q. q == 2753) of_12 ∙ in_12 in
      let private_16 : in_network n (2 ^ 16) (address 192 168 0 0) ≡ (a == 192 && b == 168) =
        ap (λ q. q == 49320) of_16 ∙ in_16 192 168 (omega arith) in
      let link_local : in_network n (2 ^ 16) (address 169 254 0 0) ≡ (a == 169 && b == 254) =
        ap (λ q. q == 43518) of_16 ∙ in_16 169 254 (omega arith) in
      let multicast : in_network n (2 ^ 8) (address 224 0 0 0) ≡ (a == 224 && b == 0 && c == 0) =
        ap (λ q. q == 14680064) of_24 ∙ in_24 in
      let of_32 : n / 1 ≡ n = omega arith in
      let unspecified : in_network n 1 0 ≡ (a == 0 && b == 0 && c == 0 && d == 0) =
        ap (λ q. q == 0) of_32 ∙ in_32 in
      or_all
        (or_all
          (or_all (or_all (or_all (or_all loopback private_8) private_12) private_16) link_local)
          multicast)
        unspecified

or_assoc5 :
    (p q r s t u v : Bool) → (p || (q || r || s) || t || u || v) ≡ (p || q || r || s || t || u || v)
or_assoc5 p q r s t u v = ground arith

-- An address of four bytes is blocked exactly if it is in one of these networks.
pub is_blocked_ip-networks :
    (a b c d : ℕ)
    → a < 256
    → b < 256
    → c < 256
    → d < 256
    → is_blocked_ip (v4 a b c d) ≡ is_non_public (address a b c d)
unfolding is_blocked_ip is_loopback is_private is_link_local_unicast is_link_local_multicast
    is_unspecified
is_blocked_ip-networks a b c d ha hb hc hd =
    or_assoc5 (a == 127) (a == 10) (a == 172 && b / 16 == 1) (a == 192 && b == 168)
      (a == 169 && b == 254) (a == 224 && b == 0 && c == 0) (a == 0 && b == 0 && c == 0 && d == 0)
    ∙ sym (networks a b c d ha hb hc hd)

no_some : {A : Type 0} {a : A} → none ≢ some a
no_some e = cc

first_blocked-none :
    (ips : List Ip) → first_blocked ips ≡ none → All (λ ip. is_blocked_ip ip ≡ false) ips
unfolding first_blocked
first_blocked-none [] h = tt
first_blocked-none (ip ∷ rest) h = elim (Bool-cases (is_blocked_ip ip)) [
  | inl blocked ↦ absurd (no_some (sym (rw (blocked, first_blocked) at h)))
  | inr public ↦ (public, first_blocked-none rest (rw (public, first_blocked) at h))
]

-- The host of a URL is not known to be a private one.
abbrev pub IsPublicHost : (Bytes → Option Ip) → (Bytes → Option (List Ip)) → Bytes → Type 0
IsPublicHost parse_ip lookup_ip host =
    ((ip : Ip) → parse_ip host ≡ some ip → is_blocked_ip ip ≡ false)
    × ((ips : List Ip)
        → parse_ip host ≡ none
        → lookup_ip host ≡ some ips
        → All (λ ip. is_blocked_ip ip ≡ false) ips)

check_host-IsPublicHost :
    (parse_ip : Bytes → Option Ip) (lookup_ip : Bytes → Option (List Ip)) (host : Bytes)
    → check_host parse_ip lookup_ip host ≡ none
    → IsPublicHost parse_ip lookup_ip host
unfolding check_host
check_host-IsPublicHost parse_ip lookup_ip host h = (
  λ ip literal. elim (Bool-cases (is_blocked_ip ip)) [
    | inl blocked ↦ absurd (no_some (sym (rw (literal, blocked, check_host) at h)))
    | inr public ↦ public
  ],
  λ ips no_literal found. first_blocked-none ips (rw (no_literal, found, check_host) at h),
)

-- A URL that passes can be parsed, is http or https, and has a host that is no name of this machine, no
-- literal address that is blocked, and no name that resolves to any blocked address.
pub assert_public_url-IsPublicHost :
    (parse : Bytes → Option Url) (parse_ip : Bytes → Option Ip)
    (lookup_ip : Bytes → Option (List Ip)) (raw : Bytes)
    → assert_public_url parse parse_ip lookup_ip raw ≡ none
    → (u : Url) × (parse raw ≡ some u)
      × (is_http u.scheme ≡ true)
      × (same_bytes u.hostname [] ≡ false)
      × (is_local_name u.hostname ≡ false)
      × IsPublicHost parse_ip lookup_ip u.hostname
unfolding assert_public_url check_url
assert_public_url-IsPublicHost parse parse_ip lookup_ip raw h = elim (Option-cases (parse raw)) [
  | inl bad ↦ absurd (no_some (sym (rw (bad, assert_public_url) at h)))
  | inr (u, parsed) ↦
      let h1 = rw (parsed, assert_public_url) at h in
      elim (Bool-cases (is_http u.scheme)) [
        | inr other ↦ absurd (no_some (sym (rw (other, check_url) at h1)))
        | inl http ↦ elim (Bool-cases (same_bytes u.hostname [])) [
          | inl blank ↦ absurd (no_some (sym (rw (http, blank, check_url) at h1)))
          | inr full ↦ elim (Bool-cases (is_local_name u.hostname)) [
            | inl local ↦ absurd (no_some (sym (rw (http, full, local, check_url) at h1)))
            | inr foreign ↦ (
              u,
              parsed,
              http,
              full,
              foreign,
              check_host-IsPublicHost parse_ip lookup_ip u.hostname
                  (rw (http, full, foreign, check_url) at h1),
            )
          ]
        ]
      ]
]
