-- ===== src/Claude/Identity.antt =====
-- internal/provider/claude/translate.go: `ensureIdentitySystem`; internal/provider/claude/claude.go:
-- `stripFingerprint` and `oauthPatch`, up to the encoding of the body. `cloneMap` copies a map, which a
-- value does not need.
use mathlib.Core.Path.{subst}
use apiforge.Base.{
  ℕ, ◌==◌, leb, ◌≡◌, refl, ◌∙◌, ap, All, ◌++◌, inl, inr, String, Bool, true, false, ◌&&◌, ◌||◌,
  List, [], ◌∷◌, if◌then◌else◌, str_eq, Bool-cases, List-cases, arith,
}
use apiforge.Base.Text.{Bytes, codes, is_space, same_bytes, same_bytes_sound}
use apiforge.Json.{
  Json, null, bool, number, text, array, object, Items, end, item, Fields, obj, get_in, get, str,
  delete_in, put_in, delete_all, get_in-delete_in, get_in-put_in,
}

abbrev pub claude_code_identity : String
claude_code_identity = "You are Claude Code, Anthropic's official CLI for Claude."

-- `unicode.IsSpace`, and `strings.TrimSpace` on the code points of a text.
abbrev is_white : ℕ → Bool
is_white c =
    is_space c
    || c == 133
    || c == 160
    || c == 5760
    || leb 8192 c && leb c 8202
    || c == 8232
    || c == 8233
    || c == 8239
    || c == 8287
    || c == 12288

unfoldable pub trim_left_white : Bytes → Bytes
trim_left_white [] = []
trim_left_white (c ∷ rest) = if is_white c then trim_left_white rest else c ∷ rest

unfoldable pub trim_right_white : Bytes → Bytes
trim_right_white [] = []
trim_right_white (c ∷ rest) = elim (trim_right_white rest) [
  | [] ↦ if is_white c then [] else c ∷ []
  | d ∷ kept ↦ c ∷ d ∷ kept
]

unfoldable pub is_identity : String → Bool
unfolding trim_left_white trim_right_white
is_identity s =
    same_bytes (trim_right_white (trim_left_white (codes s))) (codes claude_code_identity)

abbrev pub text_json : String → Json
text_json s = obj (("type", text "text") ∷ ("text", text s) ∷ [])

abbrev pub identity : Json
identity = text_json claude_code_identity

-- Whether the first block is an object with the identity as its text.
unfoldable pub identity_first : Items → Bool
unfolding is_identity
identity_first end = false
identity_first (item first rest) = is_identity (str (get first "text"))

unfoldable pub ensure_identity_system : Json → Items
unfolding identity_first is_identity
ensure_identity_system null = item identity end
ensure_identity_system (text s) =
    if is_identity s then item identity end else item identity (item (text_json s) end)
ensure_identity_system (array xs) = if identity_first xs then xs else item identity xs
ensure_identity_system (bool b) = item identity end
ensure_identity_system (number n) = item identity end
ensure_identity_system (object fs) = item identity end

abbrev pub fingerprint_fields : List String
fingerprint_fields = "metadata" ∷ "user" ∷ "safety_identifier" ∷ []

abbrev pub strip_fingerprint : Fields → Fields
strip_fingerprint body = delete_all body fingerprint_fields

unfoldable pub oauth_patch : Fields → String → Fields
unfolding ensure_identity_system
oauth_patch body kind =
    if str_eq kind "oauth"
    then (let stripped = strip_fingerprint body in
        put_in stripped "system" (array (ensure_identity_system (get_in stripped "system"))))
    else body

identity_first-ensure : (system : Json) → identity_first (ensure_identity_system system) ≡ true
unfolding ensure_identity_system identity_first is_identity get get_in str trim_left_white
    trim_right_white same_bytes
identity_first-ensure null = refl
identity_first-ensure (text s) = elim (Bool-cases (is_identity s)) [
  | inl e ↦ rw e refl
  | inr e ↦ rw e refl
]
identity_first-ensure (array xs) = elim (Bool-cases (identity_first xs)) [
  | inl e ↦ rw (e, ensure_identity_system) e
  | inr e ↦ rw (e, ensure_identity_system) refl
]
identity_first-ensure (bool b) = refl
identity_first-ensure (number n) = refl
identity_first-ensure (object fs) = refl

-- The first block of the system that is sent has the identity as its text, up to white space around
-- it; and to ensure it again changes nothing.
pub ensure_identity_system-Settles :
    (system : Json)
    → let ensured = ensure_identity_system system in
      (identity_first ensured ≡ true) × (ensure_identity_system (array ensured) ≡ ensured)
unfolding ensure_identity_system
ensure_identity_system-Settles system =
    let first = identity_first-ensure system in (first, rw first refl)

abbrev pub White : Bytes → Type 0
White s = All (λ c. is_white c ≡ true) s

-- The text is the identity, with white space around it.
abbrev pub IsPadded : String → Type 0
IsPadded s =
    (left : Bytes) × (right : Bytes) × (codes s ≡ left ++ (codes claude_code_identity ++ right))
    × White left
    × White right

trim_left_white-padded : (s : Bytes) → (left : Bytes) × (s ≡ left ++ trim_left_white s) × White left
unfolding trim_left_white
trim_left_white-padded [] = ([], refl, tt)
trim_left_white-padded (c ∷ s) = elim (Bool-cases (is_white c)) [
  | inl white ↦
      let (left, e, h) = trim_left_white-padded s in
      rw (white, trim_left_white) (c ∷ left, ap (◌∷◌ c) e, (white, h))
  | inr other ↦ rw (other, trim_left_white) ([], refl, tt)
]

trim_right_white-padded :
    (s : Bytes) → (right : Bytes) × (s ≡ trim_right_white s ++ right) × White right
unfolding trim_right_white
trim_right_white-padded [] = ([], refl, tt)
trim_right_white-padded (c ∷ s) =
    let (right, e, h) = trim_right_white-padded s in
    elim (List-cases (trim_right_white s)) [
      | inr (d, kept, is) ↦
          rw (is, trim_right_white) (right, ap (◌∷◌ c) (e ∙ ap (λ xs. xs ++ right) is), h)
      | inl bare ↦
          let rest : s ≡ right = e ∙ ap (λ xs. xs ++ right) bare in
          elim (Bool-cases (is_white c)) [
            | inl white ↦
                rw (bare, white, trim_right_white) (c ∷ right, ap (◌∷◌ c) rest, (white, h))
            | inr other ↦ rw (bare, other, trim_right_white) (right, ap (◌∷◌ c) rest, h)
          ]
    ]

is_identity-IsPadded : (s : String) → is_identity s ≡ true → IsPadded s
unfolding is_identity
is_identity-IsPadded s h =
    let (left, e, l) = trim_left_white-padded (codes s) in
    let (right, e', r) = trim_right_white-padded (trim_left_white (codes s)) in
    let same = same_bytes_sound _ (codes claude_code_identity) h in
    (left, right, e ∙ ap (◌++◌ left) (e' ∙ ap (λ xs. xs ++ right) same), l, r)

-- The blocks that the client's system holds.
abbrev pub client_blocks : Json → Items
client_blocks (text s) = item (text_json s) end
client_blocks (array xs) = xs
client_blocks _ = end

-- What may be sent for a system: the identity in front of the client's blocks, or, if the client's
-- first text is the identity already, the identity alone in place of a text, and a list as it is.
pub data IsIdentified : Json → Items → Type 0 where
  prefixed : (system : Json) → IsIdentified system (item identity (client_blocks system))
  replaced : (s : String) → IsPadded s → IsIdentified (text s) (item identity end)
  already :
      (first : Json) (rest : Items)
      → IsPadded (str (get first "text"))
      → IsIdentified (array (item first rest)) (item first rest)

by_first :
    (xs : Items) → IsIdentified (array xs) (if identity_first xs then xs else item identity xs)
unfolding identity_first
by_first end = prefixed (array end)
by_first (item first rest) = elim (Bool-cases (is_identity (str (get first "text")))) [
  | inl is ↦ rw is (already first rest (is_identity-IsPadded (str (get first "text")) is))
  | inr other ↦ rw other (prefixed (array (item first rest)))
]

ensure_identity_system-IsIdentified :
    (system : Json) → IsIdentified system (ensure_identity_system system)
unfolding ensure_identity_system
ensure_identity_system-IsIdentified null = prefixed null
ensure_identity_system-IsIdentified (text s) = elim (Bool-cases (is_identity s)) [
  | inl is ↦ rw is (replaced s (is_identity-IsPadded s is))
  | inr other ↦ rw other (prefixed (text s))
]
ensure_identity_system-IsIdentified (array xs) = by_first xs
ensure_identity_system-IsIdentified (bool b) = prefixed (bool b)
ensure_identity_system-IsIdentified (number n) = prefixed (number n)
ensure_identity_system-IsIdentified (object fs) = prefixed (object fs)

-- An entry other than the system, by its key.
abbrev pub sent_entry : Fields → String → Json
sent_entry body key =
    if str_eq "metadata" key || str_eq "user" key || str_eq "safety_identifier" key
    then null
    else get_in body key

get_in-strip_fingerprint :
    (body : Fields) (key : String) → get_in (strip_fingerprint body) key ≡ sent_entry body key
get_in-strip_fingerprint body key =
    let first = delete_in body "metadata" in
    let second = delete_in first "user" in
    ground (
      arith,
      get_in-delete_in body "metadata" key,
      get_in-delete_in first "user" key,
      get_in-delete_in second "safety_identifier" key,
    )

-- For a subscription account, the system that is sent begins with the identity: in front of what the
-- client's system holds, or as the client itself sent it, up to white space around it; the fields that
-- identify the client are not sent, and all other entries are unchanged. For an API key all is.
pub oauth_patch-entries :
    (body : Fields) (key : String)
    → str_eq "system" key ≡ false
    → ((xs : Items) × (get_in (oauth_patch body "oauth") "system" ≡ array xs)
        × IsIdentified (get_in body "system") xs)
      × (get_in (oauth_patch body "oauth") key ≡ sent_entry body key)
      × (oauth_patch body "key" ≡ body)
unfolding oauth_patch
oauth_patch-entries body key other =
    let stripped = strip_fingerprint body in
    let blocks = ensure_identity_system (get_in stripped "system") in
    let system = get_in-strip_fingerprint body "system" in
    (
      (
        blocks,
        get_in-put_in stripped "system" "system" (array blocks),
        subst (λ j. IsIdentified j blocks) system
            (ensure_identity_system-IsIdentified (get_in stripped "system")),
      ),
      get_in-put_in stripped "system" key (array blocks)
          ∙ rw other (get_in-strip_fingerprint body key),
      refl,
    )
