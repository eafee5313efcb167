-- ===== src/Cursor/Varint.antt =====
-- Varints: what `varint` writes, `readVarintAt` reads back.
use native.Mathlib.Nat.{
  add-mul, mul_assoc, mul_comm, mul-le-mul_right, mod-eq_of_lt, pow-succ', div-add-mod,
}
use native.Mathlib.Numerals.{towards_suc}
use apiforge.Base.{
  ℕ, zero, suc, ◌+◌, ◌*◌, ◌/◌, ◌%◌, ◌^◌, ◌<◌, ◌≤◌, ◌≡◌, refl, ◌∙◌, ap, false, inl, inr, [], ◌∷◌,
  ◌++◌, arith, ltb, lt→ltb, ltb→lt, length, Bool-cases,
}
use apiforge.Base.Text.{Bytes}
use apiforge.Cursor.{varint_on, varint, read_varint_from, read_varint_at}

-- Seven bits further on.
pow_shift : (shift : ℕ) → 2 ^ (shift + 7) ≡ 2 ^ shift * 128
pow_shift shift = simp towards_suc (omega arith)

-- A number is its lowest group of seven bits and the other ones.
group_sum : (n place : ℕ) → n % 128 * place + n / 128 * (place * 128) ≡ n * place
group_sum n place = omega (
  arith,
  mul_comm place 128,
  mul_assoc (n / 128) 128 place,
  ap (λ k. k * place) (div-add-mod n 128),
  add-mul (128 * (n / 128)) (n % 128) place,
)

group_fits : (n place bound : ℕ) → n * place < bound → n % 128 * place % bound ≡ n % 128 * place
group_fits n place bound h =
    let small : n % 128 ≤ n = omega arith in
    mod-eq_of_lt (omega (arith, mul-le-mul_right place small))

-- The last byte of a varint, and a byte before it.
read_varint_from-last :
    (shift result n : ℕ) (rest : Bytes)
    → n < 128
    → n * 2 ^ shift < 2 ^ 64
    → read_varint_from shift result (n % 128 ∷ rest) ≡ (result + n * 2 ^ shift, rest)
unfolding read_varint_from
read_varint_from-last shift result n rest small fits =
    let same : n % 128 ≡ n = mod-eq_of_lt small in
    let whole : n * 2 ^ shift % 2 ^ 64 ≡ n * 2 ^ shift = mod-eq_of_lt fits in
    rw (same, same, lt→ltb n 128 small, whole) refl

read_varint_from-more :
    (shift result n : ℕ) (rest : Bytes)
    → n * 2 ^ shift < 2 ^ 64
    → read_varint_from shift result ((n % 128 + 128) ∷ rest)
      ≡ read_varint_from (shift + 7) (result + n % 128 * 2 ^ shift) rest
unfolding read_varint_from
read_varint_from-more shift result n rest fits =
    let group : (n % 128 + 128) % 128 ≡ n % 128 = omega arith in
    let more : ltb (n % 128 + 128) 128 ≡ false = ground arith in
    rw (group, more, group_fits n (2 ^ shift) (2 ^ 64) fits) refl

varint_on-last : (rounds n : ℕ) → n < 128 → varint_on (suc rounds) n ≡ n % 128 ∷ []
unfolding varint_on
varint_on-last rounds n small = ground arith

varint_on-more :
    (rounds n : ℕ)
    → 128 ≤ n
    → varint_on (suc rounds) n ≡ (n % 128 + 128) ∷ varint_on rounds (n / 128)
unfolding varint_on
varint_on-more rounds n big = ground arith

rest_fits : (n place bound : ℕ) → n * place < bound → n / 128 * (place * 128) < bound
rest_fits n place bound h = omega (arith, group_sum n place)

length-varint_on : (rounds n : ℕ) → length (varint_on rounds n) ≤ rounds
unfolding varint_on
length-varint_on zero n = omega arith
length-varint_on (suc rounds) n = ground (arith, length-varint_on rounds (n / 128))

read_varint_from-varint_on :
    (rounds shift result n : ℕ) (rest : Bytes)
    → n < 128 ^ suc rounds
    → n * 2 ^ shift < 2 ^ 64
    → read_varint_from shift result (varint_on (suc rounds) n ++ rest)
      ≡ (result + n * 2 ^ shift, rest)
read_varint_from-varint_on zero shift result n rest small fits =
    rw (varint_on-last zero n small) (read_varint_from-last shift result n rest small fits)
read_varint_from-varint_on (suc rounds) shift result n rest small fits =
    elim (Bool-cases (ltb n 128)) [
      | inl e ↦
          let low = ltb→lt n 128 e in
          rw (varint_on-last (suc rounds) n low)
            (read_varint_from-last shift result n rest low fits)
      | inr e ↦
          let high : 128 ≤ n = ground arith in
          let later =
            read_varint_from-varint_on rounds (shift + 7) (result + n % 128 * 2 ^ shift) (n / 128)
              rest in
          let fewer : n / 128 < 128 ^ suc rounds = omega (arith, pow-succ' 128 (suc rounds)) in
          let lower : n / 128 * 2 ^ (shift + 7) < 2 ^ 64 =
            rw (pow_shift shift) (rest_fits n (2 ^ shift) (2 ^ 64) fits) in
          rw (varint_on-more (suc rounds) n high) (
            read_varint_from-more shift result n _ fits
            ∙ later fewer lower
            ∙ ap (λ k. (k, rest))
                (omega (arith, group_sum n (2 ^ shift), ap (λ k. n / 128 * k) (pow_shift shift))))
    ]

-- Of every `uint64`, whatever follows it in the buffer: `varint` writes at most ten bytes, and
-- `readVarintAt` reads the number back and stops right behind it.
pub read_varint_at-varint :
    (n : ℕ) (rest : Bytes)
    → n < 2 ^ 64
    → (read_varint_at (varint n ++ rest) ≡ (n, rest)) × (length (varint n) ≤ 10)
unfolding read_varint_at varint
read_varint_at-varint n rest h = (
  read_varint_from-varint_on 9 0 0 n rest (omega arith) (omega arith)
      ∙ ap (λ k. (k, rest)) (omega arith),
  length-varint_on 10 n,
)
