-- ===== src/Config/EnvFile.antt =====
-- internal/config/envfile.go: `LoadEnvFile` and `parseValue`, on the lines of a file, and `ConfigFiles`
-- and `DiscoverConfigFiles`. The texts are ASCII. `scan_err` is the scanner's error behind the last line
-- that it could read. Setting a variable fails, as in os, if a NUL byte is in its name or value.
use apiforge.Base.{
  ℕ, suc, ◌==◌, Bool, true, false, ◌&&◌, ◌||◌, Option, none, some, List, [], ◌∷◌, if◌then◌else◌,
}
use apiforge.Base.Text.{Bytes, codes, same_bytes, trim_space, cut_prefix}
use apiforge.Config.{Env}

abbrev pub is_blank : ℕ → Bool
is_blank c = c == b' ' || c == 9

unfoldable pub trim_left_blank : Bytes → Bytes
trim_left_blank [] = []
trim_left_blank (c ∷ rest) = if is_blank c then trim_left_blank rest else c ∷ rest

unfoldable pub trim_right_blank : Bytes → Bytes
trim_right_blank [] = []
trim_right_blank (c ∷ rest) = elim (trim_right_blank rest) [
  | [] ↦ if is_blank c then [] else c ∷ []
  | d ∷ kept ↦ c ∷ d ∷ kept
]

-- The text before the closing quote, or all of it.
unfoldable pub until_quote : ℕ → Bytes → Bytes
until_quote q [] = []
until_quote q (c ∷ rest) = let more = until_quote q rest in if c == q then [] else c ∷ more

-- The text before a `#` that follows a blank; `before` is the character in front.
unfoldable pub cut_comment : ℕ → Bytes → Bytes
cut_comment before [] = []
cut_comment before (c ∷ rest) =
    let more = cut_comment c rest in if c == b'#' && is_blank before then [] else c ∷ more

unfoldable pub value_of : Bytes → Bytes
unfolding until_quote cut_comment trim_right_blank
value_of [] = []
value_of (c ∷ rest) =
    if c == b'"' || c == b'\''
    then until_quote c rest
    else if c == b'#'
    then []
    else trim_right_blank (c ∷ cut_comment c rest)

unfoldable pub parse_value : Bytes → Bytes
unfolding trim_left_blank value_of
parse_value raw = value_of (trim_left_blank raw)

-- `strings.Cut(s, "=")`.
unfoldable pub cut_equals : Bytes → Option (Bytes × Bytes)
cut_equals [] = none
cut_equals (c ∷ rest) = elim (cut_equals rest) [
  | none ↦ if c == b'=' then some ([], rest) else none
  | some (key, value) ↦ if c == b'=' then some ([], rest) else some (c ∷ key, value)
]

unfoldable pub trim_prefix : Bytes → Bytes → Bytes
trim_prefix s prefix = elim (cut_prefix prefix s) [ none ↦ s | some rest ↦ rest ]

-- What a line says.
pub data Line : Type 0 where
  ignored not_key_value empty_key : Line
  assigns : Bytes → Bytes → Line

abbrev named : Bytes → Bytes → Line
named key value =
    if same_bytes (trim_space key) []
    then empty_key
    else assigns (trim_space key) (parse_value value)

abbrev is_comment : Bytes → Bool
is_comment [] = true
is_comment (c ∷ rest) = c == b'#'

unfoldable pub line_of : Bytes → Line
unfolding trim_prefix cut_equals parse_value
line_of raw =
    let s = trim_space raw in
    if is_comment s then ignored else (elim (cut_equals (trim_prefix s (codes "export "))) [
      | none ↦ not_key_value
      | some (key, value) ↦ named key value
    ])

abbrev pub has_nul : Bytes → Bool
has_nul [] = false
has_nul (c ∷ rest) = c == 0 || has_nul rest

abbrev pub set_env : Env → Bytes → Bytes → Env
set_env env key value k = if same_bytes k key then value else env k

-- The real environment wins over the file.
unfoldable pub assign : (Bytes → Bool) → Env → Bytes → Bytes → Option Env
assign protected env key value =
    if protected key
    then some env
    else if has_nul key || has_nul value
    then none
    else some (set_env env key value)

-- The error of a line carries its number.
pub data LoadError : Type 0 where
  no_key_value no_key bad_value : ℕ → LoadError
  scan_failed : LoadError

-- The loop: the environment that is left, and the error that ended it early.
unfoldable pub load_lines :
    (Bytes → Bool) → Option LoadError → ℕ → Env → List Bytes → Env × Option LoadError
unfolding line_of assign
load_lines protected scan_err n env [] = (env, scan_err)
load_lines protected scan_err n env (raw ∷ rest) = elim (line_of raw) [
  | ignored ↦ load_lines protected scan_err (suc n) env rest
  | not_key_value ↦ (env, some (no_key_value (suc n)))
  | empty_key ↦ (env, some (no_key (suc n)))
  | assigns key value ↦ elim (assign protected env key value) [
    | none ↦ (env, some (bad_value (suc n)))
    | some env' ↦ load_lines protected scan_err (suc n) env' rest
  ]
]

abbrev pub load_env_file :
    (Bytes → Bool) → Option LoadError → Env → List Bytes → Env × Option LoadError
load_env_file protected scan_err env lines = load_lines protected scan_err 0 env lines

-- The main file if it exists, then the sorted drop-ins.
unfoldable pub config_files : (Bytes → Option Bytes) → (Bytes → List Bytes) → Bytes → List Bytes
config_files main_file drop_ins dir = elim (main_file dir) [
  | none ↦ drop_ins dir
  | some main ↦ main ∷ drop_ins dir
]

-- The files of the first directory that has any.
unfoldable pub discover_in : (Bytes → List Bytes) → List Bytes → List Bytes
discover_in files [] = []
discover_in files (d ∷ dirs) =
    let more = discover_in files dirs in elim (files d) [ [] ↦ more | f ∷ fs ↦ f ∷ fs ]
