-- ===== src/Base/Int.antt =====
-- Signed 64-bit values: Go's `int`, `int64` and `time.Duration`. `negsuc n` is -(n + 1).
use Prim.Native.Nat.{ℕ, suc, ◌+◌, ◌-◌, ◌%◌, ◌^◌}
use mathlib.Core.Bool.{Bool, false}
use apiforge.Base.Tests.{ltb, ◌==◌, if◌then◌else◌}

pub data ℤ : Type 0 where
  pos : ℕ → ℤ
  negsuc : ℕ → ℤ

abbrev pub pos_part : ℤ → ℕ
pos_part (pos n) = n
pos_part (negsuc n) = 0

abbrev pub neg_part : ℤ → ℕ
neg_part (pos n) = 0
neg_part (negsuc n) = suc n

-- `z > 0`
abbrev pub is_pos : ℤ → Bool
is_pos (pos n) = ltb 0 n
is_pos (negsuc n) = false

-- `z == 0`
abbrev pub is_zero : ℤ → Bool
is_zero (pos n) = n == 0
is_zero (negsuc n) = false

-- The int64 with the bit pattern of the natural number `n`.
abbrev pub to_int64 : ℕ → ℤ
to_int64 n = let m = n % 2 ^ 64 in if ltb m (2 ^ 63) then pos m else negsuc (2 ^ 64 - 1 - m)

-- `t.Add(d)`: times are nanoseconds since Go's zero time, durations are signed nanoseconds.
abbrev pub add_time : ℕ → ℤ → ℕ
add_time t d = t + pos_part d - neg_part d

-- `a + b`, which wraps around: a negative number counts from 2 ^ 64 down.
abbrev pub bits : ℤ → ℕ
bits (pos n) = n
bits (negsuc n) = 2 ^ 64 - suc n

abbrev pub add_int : ℤ → ℤ → ℤ
add_int a b = to_int64 (bits a + bits b)
