-- ===== src/Arith/Sense.antt =====
-- What the operators of src/expand.c mean, told by the signs of their operands, and the value of a
-- tree: nothing here uses how the evaluator computes.
use arksh.Base.{
  ℕ, ◌+◌, ◌-◌, ◌*◌, ◌/◌, ◌%◌, ◌^◌, ◌≡◌, refl, ap, ◌∙◌, Bool, true, false, ◌&&◌, ltb, not, ◌||◌, leb,
  ◌==◌, if◌then◌else◌, bit_and, bit_or, arith,
}
use Prim.Native.Nat.{bit_xor}
use arksh.Arith.{
  Error, division_by_zero, modulo_by_zero, trapped, Result, ok, err, Op, mul, div, mod_by, add, sub,
  shift_left, shift_right, le, ge, lt, gt, eq, ne, bit_and_op, bit_xor_op, bit_or_op, and_op, or_op,
  Prefix, minus, plus, bang, tilde,
}
use arksh.Arith.Word.{
  with_sign, differ, complement, negate, truth, quotient, remainder, shl, shr, less, apply,
  apply_prefix,
}

-- The number with the other sign.
abbrev opposite : ℕ → ℕ
opposite n = (2 ^ 64 - n) % 2 ^ 64

-- The quotient, rounded to zero, by the signs of the operands.
abbrev divided : Bool → Bool → ℕ → ℕ → ℕ
divided false false a b = a / b % 2 ^ 64
divided true false a b = opposite ((2 ^ 64 - a) / b)
divided false true a b = opposite (a / (2 ^ 64 - b))
divided true true a b = (2 ^ 64 - a) / (2 ^ 64 - b) % 2 ^ 64

abbrev left_over : Bool → Bool → ℕ → ℕ → ℕ
left_over false false a b = a % b % 2 ^ 64
left_over true false a b = opposite ((2 ^ 64 - a) % b)
left_over false true a b = a % (2 ^ 64 - b) % 2 ^ 64
left_over true true a b = opposite ((2 ^ 64 - a) % (2 ^ 64 - b))

-- A number divided by a power of two, rounded down, by its sign.
abbrev halved : Bool → ℕ → ℕ → ℕ
halved false a n = a / n
halved true a n = 2 ^ 64 - ((2 ^ 64 - (a + 1)) / n + 1)

abbrev below : Bool → Bool → ℕ → ℕ → Bool
below false false a b = ltb a b
below true true a b = ltb a b
below true false a b = true
below false true a b = false

abbrev minus_bit : ℕ → Bool
minus_bit a = leb (2 ^ 63) a

abbrev signed_below : ℕ → ℕ → Bool
signed_below a b = below (minus_bit a) (minus_bit b) a b

abbrev one_if : Bool → ℕ
one_if true = 1
one_if false = 0

-- Zero and the pair LLONG_MIN, -1 have no quotient.
abbrev guarded : Error → ℕ → ℕ → ℕ → Result ℕ
guarded by_zero a b n =
    if b == 0 then err by_zero else if a == 2 ^ 63 && b == 2 ^ 64 - 1 then err trapped else ok n

-- Each operator.
abbrev pub sense : Op → ℕ → ℕ → Result ℕ
sense mul a b = ok (a * b % 2 ^ 64)
sense div a b = guarded division_by_zero a b (divided (minus_bit a) (minus_bit b) a b)
sense mod_by a b = guarded modulo_by_zero a b (left_over (minus_bit a) (minus_bit b) a b)
sense add a b = ok ((a + b) % 2 ^ 64)
sense sub a b = ok ((a + (2 ^ 64 - b)) % 2 ^ 64)
sense shift_left a b = ok (a * 2 ^ (b % 64) % 2 ^ 64)
sense shift_right a b = ok (halved (minus_bit a) a (2 ^ (b % 64)))
sense le a b = ok (if signed_below b a then 0 else 1)
sense ge a b = ok (if signed_below a b then 0 else 1)
sense lt a b = ok (one_if (signed_below a b))
sense gt a b = ok (one_if (signed_below b a))
sense eq a b = ok (one_if (a == b))
sense ne a b = ok (if a == b then 0 else 1)
sense bit_and_op a b = ok (bit_and a b)
sense bit_xor_op a b = ok (bit_xor a b)
sense bit_or_op a b = ok (bit_or a b)
sense and_op a b = ok (if a == 0 then 0 else if b == 0 then 0 else 1)
sense or_op a b = ok (if a == 0 then (if b == 0 then 0 else 1) else 1)

abbrev pub sense_prefix : Prefix → ℕ → ℕ
sense_prefix minus a = opposite a
sense_prefix plus a = a
sense_prefix bang a = if a == 0 then 1 else 0
sense_prefix tilde a = 2 ^ 64 - 1 - a

quotient-divided : (a b : ℕ) → quotient a b ≡ divided (minus_bit a) (minus_bit b) a b
unfolding quotient
quotient-divided a b = by_signs (minus_bit a) (minus_bit b)
  where
    by_signs :
        (p q : Bool)
        → with_sign (differ p q) ((if p then 2 ^ 64 - a else a) / (if q then 2 ^ 64 - b else b))
          ≡ divided p q a b
    by_signs false false = refl
    by_signs false true = refl
    by_signs true false = refl
    by_signs true true = refl

remainder-left_over : (a b : ℕ) → remainder a b ≡ left_over (minus_bit a) (minus_bit b) a b
unfolding remainder
remainder-left_over a b = by_signs (minus_bit a) (minus_bit b)
  where
    by_signs :
        (p q : Bool)
        → with_sign p ((if p then 2 ^ 64 - a else a) % (if q then 2 ^ 64 - b else b))
          ≡ left_over p q a b
    by_signs false false = refl
    by_signs false true = refl
    by_signs true false = refl
    by_signs true true = refl

less_one : (m : ℕ) → 2 ^ 64 - 1 - m ≡ 2 ^ 64 - (m + 1)
less_one m = omega arith

shr-halved : (a b : ℕ) → shr a b ≡ halved (minus_bit a) a (2 ^ (b % 64))
unfolding shr complement
shr-halved a b = by_sign (minus_bit a)
  where
    by_sign :
        (p : Bool)
        → (if p then complement (complement a / 2 ^ (b % 64)) else a / 2 ^ (b % 64))
          ≡ halved p a (2 ^ (b % 64))
    by_sign false = refl
    by_sign true =
        ap (λ m. 2 ^ 64 - 1 - m / 2 ^ (b % 64)) (less_one a)
        ∙ less_one ((2 ^ 64 - (a + 1)) / 2 ^ (b % 64))

less-below : (a b : ℕ) → less a b ≡ signed_below a b
unfolding less
less-below a b = by_signs (minus_bit a) (minus_bit b)
  where
    by_signs :
        (p q : Bool)
        → (if p then (if q then ltb a b else true) else (if q then false else ltb a b))
          ≡ below p q a b
    by_signs false false = refl
    by_signs false true = refl
    by_signs true false = refl
    by_signs true true = refl

truth-one_if : (b : Bool) → truth b ≡ one_if b
truth-one_if true = refl
truth-one_if false = refl

truth-not : (b : Bool) → truth (not b) ≡ (if b then 0 else 1)
truth-not true = refl
truth-not false = refl

pub apply-sense : (o : Op) (a b : ℕ) → apply o a b ≡ sense o a b
unfolding apply shl
apply-sense mul a b = refl
apply-sense div a b = ap (guarded division_by_zero a b) (quotient-divided a b)
apply-sense mod_by a b = ap (guarded modulo_by_zero a b) (remainder-left_over a b)
apply-sense add a b = refl
apply-sense sub a b = refl
apply-sense shift_left a b = refl
apply-sense shift_right a b = ap ok (shr-halved a b)
apply-sense le a b = ap ok (truth-not (less b a) ∙ ap (λ c. if c then 0 else 1) (less-below b a))
apply-sense ge a b = ap ok (truth-not (less a b) ∙ ap (λ c. if c then 0 else 1) (less-below a b))
apply-sense lt a b = ap ok (truth-one_if (less a b) ∙ ap one_if (less-below a b))
apply-sense gt a b = ap ok (truth-one_if (less b a) ∙ ap one_if (less-below b a))
apply-sense eq a b = ap ok (truth-one_if (a == b))
apply-sense ne a b = ap ok (truth-not (a == b))
apply-sense bit_and_op a b = refl
apply-sense bit_xor_op a b = refl
apply-sense bit_or_op a b = refl
apply-sense and_op a b = ap ok (by_zero (a == 0) (b == 0))
  where
    by_zero : (p q : Bool) → truth (not p && not q) ≡ (if p then 0 else if q then 0 else 1)
    by_zero true q = refl
    by_zero false true = refl
    by_zero false false = refl
apply-sense or_op a b = ap ok (by_zero (a == 0) (b == 0))
  where
    by_zero : (p q : Bool) → truth (not p || not q) ≡ (if p then (if q then 0 else 1) else 1)
    by_zero true true = refl
    by_zero true false = refl
    by_zero false q = refl

pub apply_prefix-sense : (p : Prefix) (a : ℕ) → apply_prefix p a ≡ sense_prefix p a
unfolding apply_prefix negate complement
apply_prefix-sense minus a = refl
apply_prefix-sense plus a = refl
apply_prefix-sense bang a = by_zero (a == 0)
  where
    by_zero : (p : Bool) → truth (not (not p)) ≡ (if p then 1 else 0)
    by_zero true = refl
    by_zero false = refl
apply_prefix-sense tilde a = refl
