-- ===== src/Base/Text.antt =====
-- Go strings as lists of bytes (of the codes of an ASCII text), and the library routines on them
-- that the program calls: `strconv.Atoi`, `strings.TrimSpace`, `Cut`, `Split`, `HasPrefix`, ….
use Prim.Native.Char.{code}
use Prim.Native.String.{String}
use Prim.Native.Nat.{ℕ, zero, suc, ◌+◌, ◌-◌, ◌*◌, ◌^◌}
use mathlib.Core.Path.{◌≡◌, refl, ap}
use mathlib.Core.Bool.{Bool, true, false, ◌&&◌}
use mathlib.Core.Option.{Option, none, some}
use mathlib.Core.List.{List, [], ◌∷◌}
use native.Mathlib.Omega.{arith}
use apiforge.Base.Tests.{ltb, leb, ◌==◌, ==_iff, if◌then◌else◌}
use apiforge.Base.Int.{ℤ, pos, negsuc}

abbrev pub Bytes : Type 0
Bytes = List ℕ

abbrev pub codes : String → Bytes
codes String.[] = []
codes (String.◌∷◌ c s) = code c ∷ codes s

unfoldable pub is_digit : ℕ → Bool
is_digit c = leb b'0' c && leb c b'9'

-- The value of a run of digits after `acc`; anything else is an error.
unfoldable pub digits_value : ℕ → Bytes → Option ℕ
unfolding is_digit
digits_value acc [] = some acc
digits_value acc (c ∷ rest) =
    let more = digits_value (acc * 10 + (c - b'0')) rest in if is_digit c then more else none

unfoldable pub unsigned : Bytes → Option ℕ
unfolding digits_value
unsigned [] = none
unsigned (c ∷ rest) = digits_value 0 (c ∷ rest)

abbrev in_int64 : Bool → ℕ → Option ℤ
in_int64 true zero = some (pos 0)
in_int64 true (suc n) = if ltb n (2 ^ 63) then some (negsuc n) else none
in_int64 false n = if ltb n (2 ^ 63) then some (pos n) else none

abbrev ranged : Bool → Option ℕ → Option ℤ
ranged minus none = none
ranged minus (some n) = in_int64 minus n

-- `strconv.Atoi`, with a 64-bit `int`.
unfoldable pub atoi : Bytes → Option ℤ
unfolding unsigned
atoi [] = none
atoi (c ∷ rest) =
    if c == b'-'
    then ranged true (unsigned rest)
    else if c == b'+'
    then ranged false (unsigned rest)
    else ranged false (unsigned (c ∷ rest))

-- `s + t` on texts.
abbrev pub text_append : String → String → String
text_append String.[] t = t
text_append (String.◌∷◌ c s) t = String.◌∷◌ c (text_append s t)

-- The white space of `strings.TrimSpace` among the ASCII codes: tab to carriage return, and blank.
abbrev pub is_space : ℕ → Bool
is_space c = if c == b' ' then true else leb 9 c && leb c 13

unfoldable pub trim_left : Bytes → Bytes
trim_left [] = []
trim_left (c ∷ rest) = if is_space c then trim_left rest else c ∷ rest

-- Of a text that is blank from here on, nothing is left.
unfoldable pub trim_right : Bytes → Bytes
trim_right [] = []
trim_right (c ∷ rest) = elim (trim_right rest) [
  | [] ↦ if is_space c then [] else c ∷ []
  | d ∷ kept ↦ c ∷ d ∷ kept
]

unfoldable pub trim_space : Bytes → Bytes
unfolding trim_left trim_right
trim_space s = trim_right (trim_left s)

-- `strings.CutPrefix`: the rest of the text, if it begins with the prefix.
unfoldable pub cut_prefix : Bytes → Bytes → Option Bytes
cut_prefix [] s = some s
cut_prefix (p ∷ prefix) [] = none
cut_prefix (p ∷ prefix) (c ∷ s) = if p == c then cut_prefix prefix s else none

unfoldable pub same_bytes : Bytes → Bytes → Bool
same_bytes [] [] = true
same_bytes (a ∷ s) (b ∷ t) = a == b && same_bytes s t
same_bytes _ _ = false

pub text_append_empty : (s : String) → text_append s "" ≡ s
text_append_empty String.[] = refl
text_append_empty (String.◌∷◌ c s) = ap (String.◌∷◌ c) (text_append_empty s)

pub text_append_assoc :
    (s t u : String) → text_append (text_append s t) u ≡ text_append s (text_append t u)
text_append_assoc String.[] t u = refl
text_append_assoc (String.◌∷◌ c s) t u = ap (String.◌∷◌ c) (text_append_assoc s t u)

-- `strings.HasPrefix(s, prefix)`.
unfoldable pub has_prefix : String → String → Bool
has_prefix s String.[] = true
has_prefix String.[] (String.◌∷◌ p prefix) = false
has_prefix (String.◌∷◌ c s) (String.◌∷◌ p prefix) = code c == code p && has_prefix s prefix

-- `strings.Cut(s, sep)` for a separator of one character, without the flag.
unfoldable pub cut : ℕ → String → String × String
cut sep String.[] = ("", "")
cut sep (String.◌∷◌ c s) =
    let rest = cut sep s in if code c == sep then ("", s) else (String.◌∷◌ c rest.0, rest.1)

-- `s[n:]`, of a text that begins with n ASCII characters.
abbrev pub drop_text : ℕ → String → String
drop_text zero s = s
drop_text (suc n) String.[] = ""
drop_text (suc n) (String.◌∷◌ c s) = drop_text n s

pub same_bytes_sound : (s t : Bytes) → same_bytes s t ≡ true → s ≡ t
unfolding same_bytes
same_bytes_sound [] [] e = refl
same_bytes_sound [] (b ∷ t) e = cc
same_bytes_sound (a ∷ s) [] e = cc
same_bytes_sound (a ∷ s) (b ∷ t) e = ground (arith, same_bytes_sound s t, ==_iff a b)

pub same_bytes_refl : (s : Bytes) → same_bytes s s ≡ true
unfolding same_bytes
same_bytes_refl [] = refl
same_bytes_refl (a ∷ s) = ground (arith, same_bytes_refl s, ==_iff a a)
