-- ===== src/Server/Upstream/Relaying.antt =====
-- What of an upstream's response reaches the client.
use apiforge.Base.{
  ℕ, suc, ◌≡◌, ◌≢◌, refl, ◌∙◌, ap, arith, inl, inr, Bool, true, false, List, [], ◌∷◌, ◌++◌,
  append-nil, map, All, All-append, Bool-cases,
}
use apiforge.Base.Text.{Bytes, codes, same_bytes, same_bytes_sound, same_bytes_refl}
use apiforge.Server.Upstream.{
  canonical, is_listed, is_hop_by_hop, added, relayed_headers, Read, more, last, copy_body,
  Response, write_upstream,
}

-- The names that are not passed on: of the connection, of the account and of the infrastructure.
abbrev pub withheld : List Bytes
withheld =
    codes "Connection"
    ∷ codes "Keep-Alive"
    ∷ codes "Proxy-Authenticate"
    ∷ codes "Proxy-Authorization"
    ∷ codes "Te"
    ∷ codes "Trailer"
    ∷ codes "Transfer-Encoding"
    ∷ codes "Upgrade"
    ∷ codes "Content-Length"
    ∷ codes "Set-Cookie"
    ∷ codes "Openai-Organization"
    ∷ codes "Cf-Ray"
    ∷ codes "Cf-Cache-Status"
    ∷ codes "X-Request-Id"
    ∷ codes "Server"
    ∷ []

abbrev pub IsFree : Bytes → Type 0
IsFree name = All (λ h. name ≢ h) withheld

abbrev pub Passes : Bytes × Bytes → Type 0
Passes (name, value) = IsFree name

not_listed : (name : Bytes) (hs : List Bytes) → is_listed name hs ≡ false → All (λ h. name ≢ h) hs
unfolding is_listed
not_listed name [] e = tt
not_listed name (h ∷ hs) e = elim (Bool-cases (same_bytes name h)) [
  | inl same ↦ absurd (ground (arith, same))
  | inr differs ↦ (
    λ is. absurd (ground (arith, differs, ap (λ n. same_bytes n h) is ∙ same_bytes_refl h)),
    not_listed name hs (ground (arith, differs)),
  )
]

free-not_listed :
    (name : Bytes) (hs : List Bytes) → All (λ h. name ≢ h) hs → is_listed name hs ≡ false
unfolding is_listed
free-not_listed name [] apart = refl
free-not_listed name (h ∷ hs) (differs, apart) = elim (Bool-cases (same_bytes name h)) [
  | inl same ↦ absurd (differs (same_bytes_sound name h same))
  | inr other ↦ rw other (free-not_listed name hs apart)
]

map-Passes :
    (name : Bytes) (values : List Bytes) → IsFree name → All Passes (map (λ v. (name, v)) values)
map-Passes name [] h = tt
map-Passes name (v ∷ values) h = (h, map-Passes name values h)

added-Passes : (h : Bytes × List Bytes) → All Passes (added h)
added-Passes (name, values) = elim (Bool-cases (is_hop_by_hop name)) [
  | inl hop ↦ rw (hop, added) tt
  | inr passes ↦
      rw (passes, added)
        (map-Passes (canonical name) values (not_listed (canonical name) withheld passes))
]

relayed_headers-Passes :
    (headers : List (Bytes × List Bytes)) → All Passes (relayed_headers headers)
relayed_headers-Passes [] = tt
relayed_headers-Passes (h ∷ rest) =
    All-append Passes (added h) (relayed_headers rest) (added-Passes h)
      (relayed_headers-Passes rest)

-- A header stands in what is sent.
pub data Carries (h : Bytes × Bytes) : List (Bytes × Bytes) → Type 0 where
  here : (rest : List (Bytes × Bytes)) → Carries h (h ∷ rest)
  there : (x : Bytes × Bytes) (rest : List (Bytes × Bytes)) → Carries h rest → Carries h (x ∷ rest)

Carries-before :
    {h : Bytes × Bytes} (xs ys : List (Bytes × Bytes)) → Carries h ys → Carries h (xs ++ ys)
Carries-before [] ys c = c
Carries-before (x ∷ xs) ys c = there x (xs ++ ys) (Carries-before xs ys c)

-- Every value of a header that is not withheld stands in `out`.
abbrev pub Keeps : List (Bytes × Bytes) → Bytes × List Bytes → Type 0
Keeps out (name, values) =
    IsFree (canonical name) → All (λ v. Carries (canonical name, v) out) values

Keeps-before :
    (xs ys : List (Bytes × Bytes)) (name : Bytes) (values : List Bytes)
    → All (λ v. Carries (name, v) ys) values
    → All (λ v. Carries (name, v) (xs ++ ys)) values
Keeps-before xs ys name [] h = tt
Keeps-before xs ys name (v ∷ values) h =
    (Carries-before xs ys h.0, Keeps-before xs ys name values h.1)

All-Keeps-before :
    (xs ys : List (Bytes × Bytes)) (headers : List (Bytes × List Bytes))
    → All (Keeps ys) headers
    → All (Keeps (xs ++ ys)) headers
All-Keeps-before xs ys [] h = tt
All-Keeps-before xs ys ((name, values) ∷ headers) h = (
  λ free. Keeps-before xs ys (canonical name) values (h.0 free),
  All-Keeps-before xs ys headers h.1,
)

map-Carries :
    (name : Bytes) (values : List Bytes) (ys : List (Bytes × Bytes))
    → All (λ v. Carries (name, v) (map (λ v. (name, v)) values ++ ys)) values
map-Carries name [] ys = tt
map-Carries name (v ∷ values) ys = (
  here (map (λ v. (name, v)) values ++ ys),
  Keeps-before ((name, v) ∷ []) (map (λ v. (name, v)) values ++ ys) name values
      (map-Carries name values ys),
)

relayed_headers-Keeps :
    (headers : List (Bytes × List Bytes)) → All (Keeps (relayed_headers headers)) headers
relayed_headers-Keeps [] = tt
relayed_headers-Keeps ((name, values) ∷ rest) = (
  λ free.
      let passes = free-not_listed (canonical name) withheld free in
      rw (passes, added) (map-Carries (canonical name) values (relayed_headers rest)),
  All-Keeps-before (added (name, values)) (relayed_headers rest) rest (relayed_headers-Keeps rest),
)

-- The bytes that the upstream sends before the body ends.
abbrev pub sent : List Read → Bytes
sent [] = []
sent (more bs ∷ rest) = bs ++ sent rest
sent (last bs ∷ rest) = bs

abbrev pub joined_bytes : List Bytes → Bytes
joined_bytes [] = []
joined_bytes (bs ∷ rest) = bs ++ joined_bytes rest

copy_body-sent :
    (writes : ℕ → Bool) (n : ℕ) (reads : List Read)
    → ((k : ℕ) → writes k ≡ true)
    → joined_bytes (copy_body writes n reads) ≡ sent reads
unfolding copy_body
copy_body-sent writes n [] h = refl
copy_body-sent writes n (more [] ∷ rest) h = copy_body-sent writes n rest h
copy_body-sent writes n (more (b ∷ bs) ∷ rest) h =
    rw (h n, copy_body) (ap (λ xs. b ∷ bs ++ xs) (copy_body-sent writes (suc n) rest h))
copy_body-sent writes n (last [] ∷ rest) h = refl
copy_body-sent writes n (last (b ∷ bs) ∷ rest) h = append-nil (b ∷ bs)

-- For a client that takes every write: it gets the upstream's status and the whole body; of the
-- headers, by their canonical names, it gets none of the fifteen that `withheld` names, and every value
-- of every other one.
pub write_upstream-Passes :
    (writes : ℕ → Bool) (resp : Response)
    → ((k : ℕ) → writes k ≡ true)
    → let w = write_upstream writes resp in
      (w.status ≡ resp.status)
      × All Passes w.headers
      × All (Keeps w.headers) resp.headers
      × (joined_bytes w.body ≡ sent resp.body)
unfolding write_upstream
write_upstream-Passes writes resp h = (
  refl,
  relayed_headers-Passes resp.headers,
  relayed_headers-Keeps resp.headers,
  copy_body-sent writes 0 resp.body h,
)
