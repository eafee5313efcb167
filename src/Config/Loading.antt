-- ===== src/Config/Loading.antt =====
-- Which value a variable has after a file was loaded, and how quoted values are read.
use mathlib.Core.Option.{some-injective}
use apiforge.Base.{
  ℕ, suc, ◌==◌, ==_iff, ◌≡◌, ◌≢◌, ◌⊎◌, refl, ◌∙◌, ap, sym, inl, inr, Bool, true, not, ◌&&◌, ◌||◌,
  Option, none, some, List, [], ◌∷◌, ◌++◌, if◌then◌else◌, Bool-cases, Option-cases, All, arith,
}
use apiforge.Base.Text.{Bytes, same_bytes, same_bytes_sound}
use apiforge.Config.{Env}
use apiforge.Config.EnvFile.{
  trim_left_blank, until_quote, value_of, parse_value, Line, ignored, not_key_value, empty_key,
  assigns, line_of, has_nul, set_env, assign, LoadError, load_lines, load_env_file,
}

Line-cases :
    (l : Line)
    → (l ≡ ignored)
      ⊎ (l ≡ not_key_value)
      ⊎ (l ≡ empty_key)
      ⊎ ((k : Bytes) × (v : Bytes) × (l ≡ assigns k v))
Line-cases ignored = inl refl
Line-cases not_key_value = inr (inl refl)
Line-cases empty_key = inr (inr (inl refl))
Line-cases (assigns k v) = inr (inr (inr (k, v, refl)))

-- The value that one line gives a variable.
abbrev pub given_by : (Bytes → Bool) → Bytes → Line → Option Bytes
given_by protected k (assigns key value) =
    if same_bytes k key && not (protected key) then some value else none
given_by protected k _ = none

abbrev pub or : Option Bytes → Option Bytes → Option Bytes
or (some v) o = some v
or none o = o

-- The value that the last line that has one gives.
unfoldable pub last_given : (Bytes → Bool) → Bytes → List Bytes → Option Bytes
last_given protected k [] = none
last_given protected k (raw ∷ rest) =
    or (last_given protected k rest) (given_by protected k (line_of raw))

abbrev pub value_or : Option Bytes → Bytes → Bytes
value_or none d = d
value_or (some v) d = v

pub no_some : {A : Type 0} {a : A} → none ≢ some a
no_some e = cc

or_none : (o : Option Bytes) → or o none ≡ o
or_none none = refl
or_none (some v) = refl

assign-given :
    (protected : Bytes → Bool) (env env' : Env) (key value k : Bytes)
    → assign protected env key value ≡ some env'
    → env' k ≡ value_or (given_by protected k (assigns key value)) (env k)
unfolding assign
assign-given protected env env' key value k h = elim (Bool-cases (protected key)) [
  | inl is ↦
      let same = ap (λ e. e k) (sym (some-injective env env' (rw (is, assign) at h))) in
      elim (Bool-cases (same_bytes k key)) [ inl e ↦ rw (e, is) same | inr e ↦ rw e same ]
  | inr free ↦ elim (Bool-cases (has_nul key || has_nul value)) [
    | inl bad ↦ absurd (no_some (rw (free, bad, assign) at h))
    | inr good ↦
        let same =
          ap (λ e. e k)
            (sym (some-injective (set_env env key value) env' (rw (free, good, assign) at h))) in
        elim (Bool-cases (same_bytes k key)) [
          | inl e ↦ rw (e, free) (same ∙ rw e refl)
          | inr e ↦ rw e (same ∙ rw e refl)
        ]
  ]
]

value_or-or : (o o' : Option Bytes) (d : Bytes) → value_or o (value_or o' d) ≡ value_or (or o o') d
value_or-or none o' d = refl
value_or-or (some v) o' d = refl

load_lines-given :
    (protected : Bytes → Bool) (scan_err : Option LoadError) (n : ℕ) (env : Env)
    (lines : List Bytes) (k : Bytes)
    → (load_lines protected scan_err n env lines).1 ≡ none
    → (load_lines protected scan_err n env lines).0 k
      ≡ value_or (last_given protected k lines) (env k)
unfolding load_lines last_given
load_lines-given protected scan_err n env [] k h = refl
load_lines-given protected scan_err n env (raw ∷ rest) k h = elim (Line-cases (line_of raw)) [
  | inl e ↦
      rw (e, load_lines)
        (load_lines-given protected scan_err (suc n) env rest k (rw (e, load_lines) at h)
          ∙ ap (λ o. value_or o (env k)) (sym (or_none (last_given protected k rest))))
  | inr (inl e) ↦ absurd (no_some (sym (rw (e, load_lines) at h)))
  | inr (inr (inl e)) ↦ absurd (no_some (sym (rw (e, load_lines) at h)))
  | inr (inr (inr (key, value, e))) ↦ elim (Option-cases (assign protected env key value)) [
    | inl bad ↦ absurd (no_some (sym (rw (e, bad, load_lines) at h)))
    | inr (env', good) ↦
        rw (e, good, load_lines)
          (load_lines-given protected scan_err (suc n) env' rest k (rw (e, good, load_lines) at h)
            ∙ ap (value_or (last_given protected k rest))
                (assign-given protected env env' key value k good)
            ∙ value_or-or (last_given protected k rest) (given_by protected k (assigns key value))
                (env k))
  ]
]

-- After a file was loaded without an error, a variable has the value that the last line naming it
-- gives, unless it was in the real environment, and otherwise the value that it had before.
pub load_env_file-given :
    (protected : Bytes → Bool) (scan_err : Option LoadError) (env : Env) (lines : List Bytes)
    (k : Bytes)
    → (load_env_file protected scan_err env lines).1 ≡ none
    → (load_env_file protected scan_err env lines).0 k
      ≡ value_or (last_given protected k lines) (env k)
load_env_file-given protected scan_err env lines k h =
    load_lines-given protected scan_err 0 env lines k h

not_given :
    (protected : Bytes → Bool) (k : Bytes) (l : Line)
    → protected k ≡ true
    → given_by protected k l ≡ none
not_given protected k ignored h = refl
not_given protected k not_key_value h = refl
not_given protected k empty_key h = refl
not_given protected k (assigns key value) h = elim (Bool-cases (same_bytes k key)) [
  | inl same ↦ rw (same, sym (ap protected (same_bytes_sound k key same)) ∙ h) refl
  | inr differs ↦ rw differs refl
]

load_lines-protected :
    (protected : Bytes → Bool) (scan_err : Option LoadError) (n : ℕ) (env : Env)
    (lines : List Bytes) (k : Bytes)
    → protected k ≡ true
    → (load_lines protected scan_err n env lines).0 k ≡ env k
unfolding load_lines
load_lines-protected protected scan_err n env [] k h = refl
load_lines-protected protected scan_err n env (raw ∷ rest) k h = elim (Line-cases (line_of raw)) [
  | inl e ↦ rw (e, load_lines) (load_lines-protected protected scan_err (suc n) env rest k h)
  | inr (inl e) ↦ rw (e, load_lines) refl
  | inr (inr (inl e)) ↦ rw (e, load_lines) refl
  | inr (inr (inr (key, value, e))) ↦ elim (Option-cases (assign protected env key value)) [
    | inl bad ↦ rw (e, bad, load_lines) refl
    | inr (env', good) ↦
        rw (e, good, load_lines)
          (load_lines-protected protected scan_err (suc n) env' rest k h
            ∙ assign-given protected env env' key value k good
            ∙ ap (λ o. value_or o (env k)) (not_given protected k (assigns key value) h))
  ]
]

-- A variable of the real environment keeps its value whatever the files say, also when a file is left
-- at an error.
pub load_env_file-protected :
    (protected : Bytes → Bool) (scan_err : Option LoadError) (env : Env) (lines : List Bytes)
    (k : Bytes)
    → protected k ≡ true
    → (load_env_file protected scan_err env lines).0 k ≡ env k
load_env_file-protected protected scan_err env lines k h =
    load_lines-protected protected scan_err 0 env lines k h

pub until_quote-append :
    (q : ℕ) (s rest : Bytes) → All (λ c. c ≢ q) s → until_quote q (s ++ q ∷ rest) ≡ s
unfolding until_quote
until_quote-append q [] rest h = ground arith
until_quote-append q (c ∷ s) rest (apart, h) =
    let more = until_quote-append q s rest h in
    elim (Bool-cases (c == q)) [
      | inl same ↦ absurd (apart ((==_iff c q).0 same))
      | inr differs ↦ rw (differs, until_quote) (ap (◌∷◌ c) more)
    ]

-- A value in quotes is read as it stands between them, whatever follows the closing one.
pub parse_value-quoted :
    (s rest : Bytes) → All (λ c. c ≢ b'"') s → parse_value (b'"' ∷ s ++ b'"' ∷ rest) ≡ s
unfolding parse_value trim_left_blank value_of
parse_value-quoted s rest h = until_quote-append b'"' s rest h
