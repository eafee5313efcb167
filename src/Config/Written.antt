-- ===== src/Config/Written.antt =====
-- Files of written lines, and what loading one does.
use apiforge.Base.{
  ℕ, suc, ◌==◌, leb, ◌≡◌, ◌≢◌, refl, sym, ◌∙◌, ap, inl, inr, Bool, true, false, not, ◌&&◌, ◌||◌,
  Option, none, some, List, [], ◌∷◌, ◌++◌, append_assoc, List-cases, map, if◌then◌else◌, Bool-cases,
  Option-cases, All, arith,
}
use apiforge.Base.Text.{
  Bytes, codes, same_bytes, is_space, trim_left, trim_right, trim_space, cut_prefix,
}
use apiforge.Config.{Env}
use apiforge.Config.EnvFile.{
  trim_left_blank, value_of, parse_value, cut_equals, trim_prefix, Line, ignored, assigns, line_of,
  has_nul, set_env, assign, load_lines, load_env_file,
}
use apiforge.Config.Loading.{
  or, value_or, last_given, given_by, load_env_file-given, until_quote-append,
}

-- Letters, digits and the underscore.
abbrev pub is_word : ℕ → Bool
is_word c = leb 48 c && leb c 57 || leb 65 c && leb c 90 || c == 95 || leb 97 c && leb c 122

-- A blank line, a comment, and a setting: with or without `export`, the first character of the name and
-- the others, the quote and the value in it.
pub data Entry : Type 0 where
  blank : Entry
  comment : Bytes → Entry
  setting : Bool → ℕ → Bytes → ℕ → Bytes → Entry

abbrev assignment : ℕ → Bytes → ℕ → Bytes → Bytes
assignment c name q value = c ∷ name ++ b'=' ∷ q ∷ (value ++ q ∷ [])

abbrev pub written : Entry → Bytes
written blank = []
written (comment s) = b'#' ∷ s
written (setting true c name q value) = codes "export " ++ assignment c name q value
written (setting false c name q value) = assignment c name q value

abbrev pub IsEntry : Entry → Type 0
IsEntry blank = Unit
IsEntry (comment s) = Unit
IsEntry (setting exported c name q value) =
    (is_word c ≡ true)
    × All (λ d. is_word d ≡ true) name
    × ((q == b'"' || q == b'\'') ≡ true)
    × All (λ d. d ≢ q) value
    × (has_nul value ≡ false)

-- The value that the last setting of a name gives, unless it is protected.
abbrev pub last_set : (Bytes → Bool) → Bytes → List Entry → Option Bytes
last_set protected k [] = none
last_set protected k (setting exported c name q value ∷ rest) =
    or (last_set protected k rest)
      (if same_bytes k (c ∷ name) && not (protected (c ∷ name)) then some value else none)
last_set protected k (_ ∷ rest) = last_set protected k rest

trim_right-last : (s : Bytes) (c : ℕ) → is_space c ≡ false → trim_right (s ++ c ∷ []) ≡ s ++ c ∷ []
unfolding trim_right
trim_right-last [] c h = rw (h, trim_right) refl
trim_right-last (x ∷ []) c h = rw (trim_right-last [] c h, trim_right) refl
trim_right-last (x ∷ y ∷ s) c h = rw (trim_right-last (y ∷ s) c h, trim_right) refl

trim_right-words :
    (c : ℕ) (s : Bytes)
    → is_word c ≡ true
    → All (λ d. is_word d ≡ true) s
    → trim_right (c ∷ s) ≡ c ∷ s
unfolding trim_right
trim_right-words c [] w h =
    let black : is_space c ≡ false = ground (arith, w) in rw (black, trim_right) refl
trim_right-words c (d ∷ s) w h = rw (trim_right-words d s h.0 h.1, trim_right) refl

trim_space-written :
    (c : ℕ) (s : Bytes) (q : ℕ)
    → is_space c ≡ false
    → is_space q ≡ false
    → trim_space (c ∷ (s ++ q ∷ [])) ≡ c ∷ (s ++ q ∷ [])
unfolding trim_space trim_left
trim_space-written c s q h h' = rw (h, trim_space) (trim_right-last (c ∷ s) q h')

cut_equals-name :
    (name rest : Bytes)
    → All (λ d. is_word d ≡ true) name
    → cut_equals (name ++ b'=' ∷ rest) ≡ some (name, rest)
unfolding cut_equals
cut_equals-name [] rest h = elim (Option-cases (cut_equals rest)) [
  | inl missing ↦ rw (missing, cut_equals) refl
  | inr (x, is) ↦ rw (is, cut_equals) refl
]
cut_equals-name (c ∷ name) rest h =
    let apart : (c == b'=') ≡ false = ground (arith, h.0) in
    rw (cut_equals-name name rest h.1, apart, cut_equals) refl

-- No name begins with `export` and a blank.
cut_prefix-name :
    (prefix name rest : Bytes)
    → All (λ d. (d == b'=') ≡ false) prefix
    → All (λ d. is_word d ≡ true) name
    → cut_prefix (prefix ++ b' ' ∷ []) (name ++ b'=' ∷ rest) ≡ none
unfolding cut_prefix
cut_prefix-name [] [] rest h w = refl
cut_prefix-name [] (c ∷ name) rest h w =
    let apart : (b' ' == c) ≡ false = ground (arith, w.0) in rw (apart, cut_prefix) refl
cut_prefix-name (p ∷ prefix) [] rest h w = rw (h.0, cut_prefix) refl
cut_prefix-name (p ∷ prefix) (c ∷ name) rest h w = elim (Bool-cases (p == c)) [
  | inl same ↦ rw (same, cut_prefix) (cut_prefix-name prefix name rest h.1 w.1)
  | inr differs ↦ rw (differs, cut_prefix) refl
]

parse_value-written :
    (q : ℕ) (value : Bytes)
    → (q == b'"' || q == b'\'') ≡ true
    → All (λ d. d ≢ q) value
    → parse_value (q ∷ (value ++ q ∷ [])) ≡ value
unfolding parse_value trim_left_blank value_of
parse_value-written q value quote h =
    let dark : (q == b' ' || q == 9) ≡ false = ground (arith, quote) in
    rw (dark, quote, trim_left_blank, value_of) (until_quote-append q value [] h)

line_of-assignment :
    (c : ℕ) (name : Bytes) (q : ℕ) (value : Bytes)
    → IsEntry (setting false c name q value)
    → line_of (assignment c name q value) ≡ assigns (c ∷ name) value
unfolding line_of trim_prefix trim_space trim_left same_bytes
line_of-assignment c name q value (w, ws, quote, free, no_nul) =
    let black : is_space c ≡ false = ground (arith, w) in
    let black' : is_space q ≡ false = ground (arith, quote) in
    let plain : (c == b'#') ≡ false = ground (arith, w) in
    let trimmed : trim_space (assignment c name q value) ≡ assignment c name q value =
      ap (λ s. trim_space (c ∷ s)) (sym (append_assoc name (b'=' ∷ q ∷ value) (q ∷ [])))
      ∙ trim_space-written c (name ++ b'=' ∷ q ∷ value) q black black'
      ∙ ap (◌∷◌ c) (append_assoc name (b'=' ∷ q ∷ value) (q ∷ [])) in
    let kept =
      cut_prefix-name (codes "export") (c ∷ name) (q ∷ (value ++ q ∷ []))
        (refl, (refl, (refl, (refl, (refl, (refl, tt)))))) (w, ws) in
    let split = cut_equals-name (c ∷ name) (q ∷ (value ++ q ∷ [])) (w, ws) in
    let key : trim_space (c ∷ name) ≡ c ∷ name =
      rw (black, trim_space) (trim_right-words c name w ws) in
    rw (trimmed, plain, kept, trimmed, split, key, line_of)
      (ap (assigns (c ∷ name)) (parse_value-written q value quote free))

line_of-exported :
    (c : ℕ) (name : Bytes) (q : ℕ) (value : Bytes)
    → IsEntry (setting true c name q value)
    → line_of (codes "export " ++ assignment c name q value) ≡ assigns (c ∷ name) value
unfolding line_of trim_prefix trim_space trim_left same_bytes cut_prefix
line_of-exported c name q value (w, ws, quote, free, no_nul) =
    let black : is_space c ≡ false = ground (arith, w) in
    let black' : is_space q ≡ false = ground (arith, quote) in
    let line = codes "export " ++ assignment c name q value in
    let whole =
      ap (λ xs. codes "export " ++ (c ∷ xs)) (append_assoc name (b'=' ∷ q ∷ value) (q ∷ [])) in
    let trimmed : trim_space line ≡ line =
      ap trim_space (sym whole)
      ∙ trim_space-written b'e' (codes "xport " ++ (c ∷ (name ++ b'=' ∷ q ∷ value))) q refl black'
      ∙ whole in
    let split = cut_equals-name (c ∷ name) (q ∷ (value ++ q ∷ [])) (w, ws) in
    let key : trim_space (c ∷ name) ≡ c ∷ name =
      rw (black, trim_space) (trim_right-words c name w ws) in
    rw (trimmed, split, key, line_of)
      (ap (assigns (c ∷ name)) (parse_value-written q value quote free))

line_of-comment : (s : Bytes) → line_of (b'#' ∷ s) ≡ ignored
unfolding line_of trim_space trim_left trim_right
line_of-comment s = elim (List-cases (trim_right s)) [
  | inl bare ↦ rw (bare, line_of) refl
  | inr (d, kept, is) ↦ rw (is, line_of) refl
]

-- The line that an entry is.
abbrev line_said : Entry → Line
line_said (setting exported c name q value) = assigns (c ∷ name) value
line_said _ = ignored

line_of-written : (e : Entry) → IsEntry e → line_of (written e) ≡ line_said e
unfolding line_of trim_space trim_left trim_right
line_of-written blank h = refl
line_of-written (comment s) h = line_of-comment s
line_of-written (setting true c name q value) h = line_of-exported c name q value h
line_of-written (setting false c name q value) h = line_of-assignment c name q value h

last_given-written :
    (protected : Bytes → Bool) (k : Bytes) (entries : List Entry)
    → All IsEntry entries
    → last_given protected k (map written entries) ≡ last_set protected k entries
unfolding last_given
last_given-written protected k [] h = refl
last_given-written protected k (e ∷ rest) h =
    ap (λ l. or (last_given protected k (map written rest)) (given_by protected k l))
      (line_of-written e h.0)
    ∙ ap (λ o. or o (given_by protected k (line_said e))) (last_given-written protected k rest h.1)
    ∙ by_entry e
  where
    or-none : (o : Option Bytes) → or o none ≡ o
    or-none none = refl
    or-none (some v) = refl

    by_entry :
        (e' : Entry)
        → or (last_set protected k rest) (given_by protected k (line_said e'))
          ≡ last_set protected k (e' ∷ rest)
    by_entry blank = or-none (last_set protected k rest)
    by_entry (comment s) = or-none (last_set protected k rest)
    by_entry (setting exported c name q value) = refl

words-no_nul : (name : Bytes) → All (λ d. is_word d ≡ true) name → has_nul name ≡ false
words-no_nul [] h = refl
words-no_nul (c ∷ name) h = ground (arith, h.0, words-no_nul name h.1)

assign-some :
    (protected : Bytes → Bool) (env : Env) (key value : Bytes)
    → has_nul key ≡ false
    → has_nul value ≡ false
    → (env' : Env) × (assign protected env key value ≡ some env')
unfolding assign
assign-some protected env key value h h' = elim (Bool-cases (protected key)) [
  | inl is ↦ (env, rw is refl)
  | inr free ↦ (set_env env key value, rw (free, h, h') refl)
]

load_lines-written :
    (protected : Bytes → Bool) (n : ℕ) (env : Env) (entries : List Entry)
    → All IsEntry entries
    → (load_lines protected none n env (map written entries)).1 ≡ none
unfolding load_lines
load_lines-written protected n env [] h = refl
load_lines-written protected n env (blank ∷ rest) h =
    rw (line_of-written blank h.0, load_lines) (load_lines-written protected (suc n) env rest h.1)
load_lines-written protected n env (comment s ∷ rest) h =
    rw (line_of-written (comment s) h.0, load_lines)
      (load_lines-written protected (suc n) env rest h.1)
load_lines-written protected n env (setting exported c name q value ∷ rest) h =
    let (w, ws, quote, free, no_nul) = h.0 in
    let (env', e) =
      assign-some protected env (c ∷ name) value (words-no_nul (c ∷ name) (w, ws)) no_nul in
    rw (line_of-written (setting exported c name q value) h.0, e, load_lines)
      (load_lines-written protected (suc n) env' rest h.1)

-- A file of blank lines, comments and settings is loaded without an error, where a setting is `NAME=` with
-- or without `export` in front, a name of letters, digits and underscores, and a value in quotes of
-- either kind that neither holds its quote nor a NUL byte: each variable then has the value of the last
-- setting that names it, unless it is protected, and otherwise the value that it had before.
pub load_env_file-written :
    (protected : Bytes → Bool) (env : Env) (entries : List Entry) (k : Bytes)
    → All IsEntry entries
    → let loaded = load_env_file protected none env (map written entries) in
      (loaded.1 ≡ none) × (loaded.0 k ≡ value_or (last_set protected k entries) (env k))
load_env_file-written protected env entries k h =
    let fine = load_lines-written protected 0 env entries h in
    (
      fine,
      load_env_file-given protected none env (map written entries) k fine
          ∙ ap (λ o. value_or o (env k)) (last_given-written protected k entries h),
    )
