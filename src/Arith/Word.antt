-- ===== src/Arith/Word.antt =====
-- `long long` in src/expand.c: 64 bits in two's complement, as the number below 2^64 that they spell.
-- Where C leaves a result open (a sum, product or negation out of range, a shift of a negative
-- number to the left or by more than 63), this is what the machine's 64-bit instructions give.
-- LLONG_MIN / -1 and LLONG_MIN % -1 have no result: the instruction traps, and the process ends.
use arksh.Base.{
  ℕ, zero, suc, ◌+◌, ◌-◌, ◌*◌, ◌/◌, ◌%◌, ◌^◌, Bool, true, false, not, ◌&&◌, ◌||◌, ltb, leb, ◌==◌,
  if◌then◌else◌, bit_and, bit_or,
}
use Prim.Native.Nat.{bit_xor}
use arksh.Arith.{
  negative_exponent, division_by_zero, modulo_by_zero, trapped, Result, ok, err, Op, mul, div,
  mod_by, add, sub, shift_left, shift_right, le, ge, lt, gt, eq, ne, bit_and_op, bit_xor_op,
  bit_or_op, and_op, or_op, Prefix, minus, plus, bang, tilde,
}

abbrev pub modulus : ℕ
modulus = 2 ^ 64

abbrev pub half : ℕ
half = 2 ^ 63

abbrev pub is_negative : ℕ → Bool
is_negative a = leb half a

unfoldable pub negate : ℕ → ℕ
negate a = (modulus - a) % modulus

unfoldable pub complement : ℕ → ℕ
complement a = modulus - 1 - a

abbrev pub magnitude : ℕ → ℕ
magnitude a = if is_negative a then modulus - a else a

abbrev pub with_sign : Bool → ℕ → ℕ
with_sign negative m = if negative then (modulus - m) % modulus else m % modulus

abbrev pub differ : Bool → Bool → Bool
differ true b = not b
differ false b = b

-- `/` rounds to zero, and `%` has the sign of its left operand; not for LLONG_MIN and -1.
unfoldable pub quotient : ℕ → ℕ → ℕ
quotient a b = with_sign (differ (is_negative a) (is_negative b)) (magnitude a / magnitude b)

unfoldable pub remainder : ℕ → ℕ → ℕ
remainder a b = with_sign (is_negative a) (magnitude a % magnitude b)

unfoldable pub shl : ℕ → ℕ → ℕ
shl a b = a * 2 ^ (b % 64) % modulus

unfoldable pub shr : ℕ → ℕ → ℕ
unfolding complement
shr a b = if is_negative a then complement (complement a / 2 ^ (b % 64)) else a / 2 ^ (b % 64)

-- `a < b` for signed numbers.
unfoldable pub less : ℕ → ℕ → Bool
less a b =
    if is_negative a
    then (if is_negative b then ltb a b else true)
    else (if is_negative b then false else ltb a b)

-- LLONG_MIN by -1
abbrev pub traps : ℕ → ℕ → Bool
traps a b = a == half && b == modulus - 1

abbrev pub truth : Bool → ℕ
truth b = if b then 1 else 0

abbrev pub is_true : ℕ → Bool
is_true a = not (a == 0)

-- What the loop of each binary level does with `left` and `right`.
unfoldable pub apply : Op → ℕ → ℕ → Result ℕ
unfolding quotient remainder shl shr less
apply mul a b = ok (a * b % modulus)
apply div a b =
    if b == 0 then err division_by_zero else if traps a b then err trapped else ok (quotient a b)
apply mod_by a b =
    if b == 0 then err modulo_by_zero else if traps a b then err trapped else ok (remainder a b)
apply add a b = ok ((a + b) % modulus)
apply sub a b = ok ((a + (modulus - b)) % modulus)
apply shift_left a b = ok (shl a b)
apply shift_right a b = ok (shr a b)
apply le a b = ok (truth (not (less b a)))
apply ge a b = ok (truth (not (less a b)))
apply lt a b = ok (truth (less a b))
apply gt a b = ok (truth (less b a))
apply eq a b = ok (truth (a == b))
apply ne a b = ok (truth (not (a == b)))
apply bit_and_op a b = ok (bit_and a b)
apply bit_xor_op a b = ok (bit_xor a b)
apply bit_or_op a b = ok (bit_or a b)
apply and_op a b = ok (truth (is_true a && is_true b))
apply or_op a b = ok (truth (is_true a || is_true b))

unfoldable pub apply_prefix : Prefix → ℕ → ℕ
unfolding negate complement
apply_prefix minus a = negate a
apply_prefix plus a = a
apply_prefix bang a = truth (not (is_true a))
apply_prefix tilde a = complement a

-- `for (i = 0; i < exponent; i++) result *= base;`
unfoldable pub multiply_times : ℕ → ℕ → ℕ → ℕ
multiply_times zero base result = result
multiply_times (suc n) base result = multiply_times n base (result * base % modulus)

-- `arith_pow_int`
unfoldable pub arith_pow_int : ℕ → ℕ → Result ℕ
unfolding multiply_times
arith_pow_int base exponent =
    if is_negative exponent then err negative_exponent else ok (multiply_times exponent base 1)
