-- ===== src/Base/Bits.antt =====
-- Laws of `|` and `&` at variables: joining fields that do not overlap, and masking low bits.
use Prim.Native.Nat.{
  ℕ, zero, suc, ◌+◌, ◌-◌, ◌*◌, ◌/◌, ◌%◌, ◌^◌, ◌≤◌, ◌<◌, min, max, bit_and, bit_or, digits,
  bit_and-bitwise, bit_or-bitwise,
}
use mathlib.Core.Path.{◌≡◌, refl, sym, ◌∙◌, ap}
use native.Mathlib.Nat.{pow-suc, one-le-pow, le_refl}
use native.Mathlib.Omega.{arith}

-- Any two amounts of fuel that cover the left argument give the same digits.
module _ (rest : ℕ → ℕ) (digit : ℕ → ℕ → ℕ) where
  enough : (f g x y : ℕ) → x ≤ f → x ≤ g → digits rest digit f x y ≡ digits rest digit g x y
  enough f g zero y p q = at_zero f ∙ sym (at_zero g)
    where
      at_zero : (h : ℕ) → digits rest digit h zero y ≡ rest y
      at_zero zero = refl
      at_zero (suc h) = refl
  enough zero g (suc x) y p q = elim p [ ]
  enough (suc f) zero (suc x) y p q = elim q [ ]
  enough (suc f) (suc g) (suc x) y p q =
      ap (λ t. t * 2 + digit (suc x % 2) (y % 2))
        (enough f g (suc x / 2) (y / 2) (omega arith) (omega arith))

-- The lowest binary digit of `|`.
or_low : (x y : ℕ) → bit_or x y ≡ bit_or (x / 2) (y / 2) * 2 + max (x % 2) (y % 2)
or_low zero y = omega (arith, bit_or-bitwise 0 y, bit_or-bitwise 0 (y / 2))
or_low (suc x) y = omega (
  arith,
  bit_or-bitwise (suc x) y,
  bit_or-bitwise (suc x / 2) (y / 2),
  enough (λ b. b) max x (suc x / 2) (suc x / 2) (y / 2) (omega arith) (le_refl _),
)

-- The lowest binary digit of `&`.
and_low : (x y : ℕ) → bit_and x y ≡ bit_and (x / 2) (y / 2) * 2 + min (x % 2) (y % 2)
and_low zero y = omega (arith, bit_and-bitwise 0 y, bit_and-bitwise 0 (y / 2))
and_low (suc x) y = omega (
  arith,
  bit_and-bitwise (suc x) y,
  bit_and-bitwise (suc x / 2) (y / 2),
  enough (λ b. 0) min x (suc x / 2) (suc x / 2) (y / 2) (omega arith) (le_refl _),
)

or_none : (f x : ℕ) → x ≤ f → bit_or x 0 ≡ x
or_none f zero h = refl
or_none zero (suc x) h = elim h [ ]
or_none (suc f) (suc x) h = omega (arith, or_low (suc x) 0, or_none f (suc x / 2) (omega arith))

and_none : (f x : ℕ) → x ≤ f → bit_and x 0 ≡ 0
and_none f zero h = refl
and_none zero (suc x) h = elim h [ ]
and_none (suc f) (suc x) h = omega (arith, and_low (suc x) 0, and_none f (suc x / 2) (omega arith))

double : (q k : ℕ) → q * 2 ^ suc k ≡ q * 2 ^ k * 2
double q k = omega (arith, ap (λ (t : ℕ). q * t) (pow-suc 2 k))

-- `(high << k) | low` is a sum where `low` fits `k` bits.
pub bit_or_disjoint :
    (k high low : ℕ) → low < 2 ^ k → bit_or (high * 2 ^ k) low ≡ high * 2 ^ k + low
bit_or_disjoint zero high low h = ground (arith, or_none (high * 1) (high * 1) (le_refl _))
bit_or_disjoint (suc k) high low h = ground (
  arith,
  double high k,
  or_low (high * 2 ^ suc k) low,
  bit_or_disjoint k high (low / 2) (omega (arith, pow-suc 2 k)),
)

mask_of_sum : (k q r : ℕ) → r < 2 ^ k → bit_and (q * 2 ^ k + r) (2 ^ k - 1) ≡ r
mask_of_sum zero q r h = ground (arith, and_none (q * 1 + r) (q * 1 + r) (le_refl _))
mask_of_sum (suc k) q r h = ground (
  arith,
  double q k,
  pow-suc 2 k,
  one-le-pow k 2,
  and_low (q * 2 ^ suc k + r) (2 ^ suc k - 1),
  mask_of_sum k q (r / 2) (omega (arith, pow-suc 2 k)),
)

-- Masking by `k` ones keeps the remainder by `2 ^ k`.
pub bit_and_mask : (k x : ℕ) → bit_and x (2 ^ k - 1) ≡ x % 2 ^ k
bit_and_mask k x = ground (arith, one-le-pow k 2, mask_of_sum k (x / 2 ^ k) (x % 2 ^ k))
