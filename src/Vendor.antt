-- ===== src/Vendor.antt =====
-- What the provider packages under internal/provider each write out for themselves: the list settings
-- and the warming of the accounts. The environment's texts are ASCII, as lists of codes.
use apiforge.Base.{
  ℕ, ◌==◌, ◌≡◌, ◌⊎◌, ◌↔◌, refl, ap, inl, inr, Bool, true, false, ◌||◌, Option, none, some, List, [],
  ◌∷◌, if◌then◌else◌, Bool-cases, arith,
}
use apiforge.Base.Text.{Bytes, trim_space, same_bytes, same_bytes_sound, same_bytes_refl}

-- `strings.Split(v, ",")`.
unfoldable pub onto_head : ℕ → List Bytes → List Bytes
onto_head c [] = (c ∷ []) ∷ []
onto_head c (piece ∷ rest) = (c ∷ piece) ∷ rest

unfoldable pub split_commas : Bytes → List Bytes
unfolding onto_head
split_commas [] = [] ∷ []
split_commas (c ∷ rest) =
    let pieces = split_commas rest in if c == b',' then [] ∷ pieces else onto_head c pieces

unfoldable pub seen_in : Bytes → List Bytes → Bool
seen_in s [] = false
seen_in s (t ∷ rest) = same_bytes s t || seen_in s rest

-- The loop of `parseList`, with the texts that were kept before.
unfoldable pub kept_from : List Bytes → List Bytes → List Bytes
unfolding seen_in
kept_from seen [] = []
kept_from seen (piece ∷ rest) =
    let s = trim_space piece in
    let skipped = kept_from seen rest in
    let kept = s ∷ kept_from (s ∷ seen) rest in
    if same_bytes s [] || seen_in s seen then skipped else kept

unfoldable pub parse_list : Bytes → List Bytes
unfolding kept_from split_commas
parse_list [] = []
parse_list (c ∷ v) = kept_from [] (split_commas (c ∷ v))

-- An account of a provider: a login whose warming gives an error or none, or a key.
pub data Login (E : Type 0) : Type 0 where
  login : Option E → Login E
  key : Login E

module _ {E : Type 0} where
  unfoldable pub has_key : List (Login E) → Bool
  has_key [] = false
  has_key (key ∷ rest) = true
  has_key (login result ∷ rest) = has_key rest

  -- The loop over the logins: the error of the last one, or none if one of them warms.
  unfoldable pub warm_up : Option E → List (Login E) → Option E
  warm_up last_err [] = last_err
  warm_up last_err (key ∷ rest) = warm_up last_err rest
  warm_up last_err (login none ∷ rest) = none
  warm_up last_err (login (some err) ∷ rest) = warm_up (some err) rest

  -- `Init`: none is a provider that is ready. A list without logins counts as warmed.
  unfoldable pub init : List (Login E) → Option E
  unfolding has_key warm_up
  init accounts = if has_key accounts then none else warm_up none accounts

  -- Whether an account can serve.
  abbrev pub Usable : Login E → Type 0
  Usable (login result) = result ≡ none
  Usable key = Unit {0}

  pub data SomeUsable : List (Login E) → Type 0 where
    here : (a : Login E) (rest : List (Login E)) → Usable a → SomeUsable (a ∷ rest)
    later : (a : Login E) (rest : List (Login E)) → SomeUsable rest → SomeUsable (a ∷ rest)

  has_key-SomeUsable : (accounts : List (Login E)) → has_key accounts ≡ true → SomeUsable accounts
  unfolding has_key
  has_key-SomeUsable [] h = cc
  has_key-SomeUsable (key ∷ rest) h = here key rest tt
  has_key-SomeUsable (login result ∷ rest) h = later (login result) rest (has_key-SomeUsable rest h)

  warm_up-SomeUsable :
      (last_err : Option E) (accounts : List (Login E))
      → warm_up last_err accounts ≡ none
      → (last_err ≡ none) ⊎ SomeUsable accounts
  unfolding warm_up
  warm_up-SomeUsable last_err [] h = inl h
  warm_up-SomeUsable last_err (key ∷ rest) h = inr (here key rest tt)
  warm_up-SomeUsable last_err (login none ∷ rest) h = inr (here (login none) rest refl)
  warm_up-SomeUsable last_err (login (some err) ∷ rest) h =
      elim (warm_up-SomeUsable (some err) rest h) [
        | inl never ↦ cc
        | inr usable ↦ inr (later (login (some err)) rest usable)
      ]

  -- The first error only matters if there is no account at all.
  init_none-SomeUsable :
      (a : Login E) (rest : List (Login E)) → warm_up none (a ∷ rest) ≡ none → SomeUsable (a ∷ rest)
  unfolding warm_up
  init_none-SomeUsable key rest h = here key rest tt
  init_none-SomeUsable (login none) rest h = here (login none) rest refl
  init_none-SomeUsable (login (some err)) rest h = elim (warm_up-SomeUsable (some err) rest h) [
    | inl never ↦ cc
    | inr usable ↦ later (login (some err)) rest usable
  ]

  warm_up_of-SomeUsable :
      (last_err : Option E) (accounts : List (Login E))
      → SomeUsable accounts
      → (has_key accounts ≡ true) ⊎ (warm_up last_err accounts ≡ none)
  unfolding warm_up has_key
  warm_up_of-SomeUsable last_err accounts (here key rest u) = inl refl
  warm_up_of-SomeUsable last_err accounts (here (login none) rest u) = inr refl
  warm_up_of-SomeUsable last_err accounts (here (login (some err)) rest u) = cc
  warm_up_of-SomeUsable last_err accounts (later key rest u) = inl refl
  warm_up_of-SomeUsable last_err accounts (later (login none) rest u) = inr refl
  warm_up_of-SomeUsable last_err accounts (later (login (some err)) rest u) =
      warm_up_of-SomeUsable (some err) rest u

  -- A provider with an account is ready exactly if one of its accounts is usable: a key, or a login that
  -- warms.
  pub init-SomeUsable :
      (a : Login E) (rest : List (Login E)) → (init (a ∷ rest) ≡ none) ↔ SomeUsable (a ∷ rest)
  unfolding init
  init-SomeUsable a rest = elim (Bool-cases (has_key (a ∷ rest))) [
    | inl keyed ↦ rw (keyed, init) (λ e. has_key-SomeUsable (a ∷ rest) keyed, λ u. refl)
    | inr no_key ↦
        rw (no_key, init)
          (
            init_none-SomeUsable a rest,
            λ u. elim (warm_up_of-SomeUsable none (a ∷ rest) u) [
              | inl keyed ↦ absurd (ground (arith, no_key, keyed))
              | inr warm ↦ warm
            ],
          )
  ]

-- The texts of a list are not empty, and none stands twice.
abbrev pub Distinct : List Bytes → Type 0
Distinct [] = Unit
Distinct (s ∷ rest) = (same_bytes s [] ≡ false) × (seen_in s rest ≡ false) × Distinct rest

-- What was seen before is not kept.
kept_from-seen :
    (t : Bytes) (seen pieces : List Bytes)
    → seen_in t seen ≡ true
    → seen_in t (kept_from seen pieces) ≡ false
unfolding kept_from seen_in
kept_from-seen t seen [] h = refl
kept_from-seen t seen (piece ∷ rest) h =
    let s = trim_space piece in
    elim (Bool-cases (same_bytes s [] || seen_in s seen)) [
      | inl skipped ↦ rw (skipped, kept_from) (kept_from-seen t seen rest h)
      | inr kept ↦
          let apart : same_bytes t s ≡ false = elim (Bool-cases (same_bytes t s)) [
            | inr apart ↦ apart
            | inl same ↦
                absurd
                  (ground (arith, kept, ap (λ x. seen_in x seen) (same_bytes_sound t s same), h))
          ] in
          let later = kept_from-seen t (s ∷ seen) rest (ground (arith, h)) in
          rw (kept, kept_from) (ground (arith, apart, later))
    ]

kept_from-Distinct : (seen pieces : List Bytes) → Distinct (kept_from seen pieces)
unfolding kept_from seen_in
kept_from-Distinct seen [] = tt
kept_from-Distinct seen (piece ∷ rest) =
    let s = trim_space piece in
    elim (Bool-cases (same_bytes s [] || seen_in s seen)) [
      | inl skipped ↦ rw (skipped, kept_from) (kept_from-Distinct seen rest)
      | inr kept ↦
          rw (kept, kept_from)
            (
              ground (arith, kept),
              kept_from-seen s (s ∷ seen) rest (ground (arith, same_bytes_refl s)),
              kept_from-Distinct (s ∷ seen) rest,
            )
    ]

-- A list setting gives texts that are not empty, each once.
pub parse_list-Distinct : (v : Bytes) → Distinct (parse_list v)
unfolding parse_list
parse_list-Distinct [] = tt
parse_list-Distinct (c ∷ v) = kept_from-Distinct [] (split_commas (c ∷ v))
