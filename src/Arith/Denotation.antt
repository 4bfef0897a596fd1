-- ===== src/Arith/Denotation.antt =====
-- The value of an expression of src/expand.c, from its tree alone, and that the evaluator's
-- operations give it.
use arksh.Base.{
  ℕ, zero, suc, ◌+◌, ◌-◌, ◌*◌, ◌/◌, ◌%◌, ◌^◌, ◌≡◌, refl, sym, ap, ◌∙◌, Bool, true, false, not,
  Option, none, some, ◌&&◌, ◌||◌, [], ◌∷◌, arith, leb, ltb, ◌==◌, if◌then◌else◌, All, Bytes,
}
use native.Mathlib.Nat.{mod-add-div, pow-zero, pow-suc, add-mul-mod_self_left}
use arksh.Arith.{negative_exponent, Result, ok, err, ◌>>=◌}
use arksh.Arith.Word.{modulus, half, is_true, multiply_times, arith_pow_int}
use arksh.Arith.Number.{arith_skip_ws, is_digit, digits, clamp, strtoll}
use arksh.Arith.Numerals.{digit_some, strtoll_decimal}
use arksh.Arith.Parse.{value_of}
use arksh.Arith.Expr.{Expr, num, var, paren, unary, pow, binary, ternary, meaning, IsGrammar}
use arksh.Arith.Sense.{sense, sense_prefix, apply-sense, apply_prefix-sense}

-- A row of decimal digits.
abbrev pub decimal : ℕ → Bytes → ℕ
decimal n [] = n
decimal n (d ∷ more) = decimal (10 * n + (d - 48)) more

-- A power modulo 2^64, where the exponent is not negative.
abbrev pub power_of : ℕ → ℕ → Result ℕ
power_of x y = if ltb y (2 ^ 63) then ok (x ^ y % 2 ^ 64) else err negative_exponent

abbrev pub all_space : Bytes → Bool
all_space [] = true
all_space (c ∷ s) = (c == 32 || (leb 9 c && leb c 13)) && all_space s

-- A variable is what `strtoll` reads, where nothing but white space follows, and 0 otherwise.
abbrev pub number_of : Option Bytes → ℕ
number_of none = 0
number_of (some text) = let (number, end) = strtoll text in if all_space end then number else 0

-- The value of a tree: a numeral above LLONG_MAX is LLONG_MAX, and the operands of an operator
-- have their values from left to right, also the branch that `?:` does not choose.
unfoldable pub denotation : (Bytes → Option Bytes) → Expr → Result ℕ
unfolding strtoll
denotation get_var (num c more) =
    let n = decimal 0 (c ∷ more) in ok (if ltb n (2 ^ 63) then n else 2 ^ 63 - 1)
denotation get_var (var c more) = ok (number_of (get_var (c ∷ more)))
denotation get_var (paren e) = denotation get_var e
denotation get_var (unary p e) = do v ← denotation get_var e; ok (sense_prefix p v)
denotation get_var (pow a b) = do x ← denotation get_var a; y ← denotation get_var b; power_of x y
denotation get_var (binary o a b) = do
  x ← denotation get_var a
  y ← denotation get_var b
  sense o x y
denotation get_var (ternary c t f) = do
  x ← denotation get_var c
  y ← denotation get_var t
  z ← denotation get_var f
  ok (if x == 0 then z else y)

digits-decimal :
    (n : ℕ) (s : Bytes) → All (λ d. is_digit d ≡ true) s → (digits 10 n s).0 ≡ decimal n s
unfolding digits
digits-decimal n [] h = refl
digits-decimal n (d ∷ s) h =
    rw (digits, digit_some d h.0)
      (digits-decimal (n * 10 + (d - 48)) s h.1 ∙ ap (λ m. decimal m s) (omega arith))

clamp_lem : (n : ℕ) → clamp false n ≡ (if ltb n (2 ^ 63) then n else 2 ^ 63 - 1)
unfolding clamp
clamp_lem n = by_sign (leb half n) (ltb n half) (ground arith)
  where
    by_sign : (p q : Bool) → p ≡ not q → (if p then half - 1 else n) ≡ (if q then n else half - 1)
    by_sign true false h = refl
    by_sign false true h = refl
    by_sign true true h = cc
    by_sign false false h = cc

mod-mul : (m x b : ℕ) → (x % m) * b % m ≡ x * b % m
mod-mul m x b =
    sym (add-mul-mod_self_left (x % m * b) m (x / m * b))
    ∙ ap (λ y. y % m) (omega arith ∙ ap (λ y. y * b) (mod-add-div x m))

by_one : (r : ℕ) → r ≡ r * 1
by_one r = omega arith

multiply_times-power : (n b r : ℕ) → multiply_times n b (r % modulus) ≡ r * b ^ n % modulus
unfolding multiply_times
multiply_times-power zero b r =
    ap (λ y. y % modulus) (by_one r ∙ ap (λ p. r * p) (sym (pow-zero b)))
multiply_times-power (suc n) b r =
    multiply_times-power n b (r % modulus * b)
    ∙ ap (λ y. y % modulus) (omega arith)
    ∙ mod-mul modulus r (b * b ^ n)
    ∙ ap (λ p. r * p % modulus) (sym (pow-suc b n ∙ omega arith))

arith_pow_int-power : (x y : ℕ) → arith_pow_int x y ≡ power_of x y
unfolding arith_pow_int
arith_pow_int-power x y =
    ap (λ n. if leb half y then err negative_exponent else ok n)
      (multiply_times-power y x 1 ∙ ap (λ m. m % modulus) (one_by (x ^ y)))
    ∙ by_sign (leb half y) (ltb y half) (ground arith)
  where
    one_by : (m : ℕ) → 1 * m ≡ m
    one_by m = omega arith

    by_sign :
        (p q : Bool)
        → p ≡ not q
        → (if p then err negative_exponent else ok (x ^ y % modulus))
          ≡ (if q then ok (x ^ y % modulus) else err negative_exponent)
    by_sign true false h = refl
    by_sign false true h = refl
    by_sign true true h = cc
    by_sign false false h = cc

ternary-choice : (x y z : ℕ) → (if is_true x then y else z) ≡ (if x == 0 then z else y)
ternary-choice x y z = if-swap (x == 0)
  where
    if-swap : (b : Bool) → (if not b then y else z) ≡ (if b then z else y)
    if-swap true = refl
    if-swap false = refl

skip-all_space :
    (n : ℕ) (s : Bytes)
    → elim (arith_skip_ws s) [ [] ↦ n | d ∷ rest ↦ 0 ] ≡ (if all_space s then n else 0)
unfolding arith_skip_ws
skip-all_space n [] = refl
skip-all_space n (c ∷ s) = by_test (c == 32 || (leb 9 c && leb c 13)) (skip-all_space n s)
  where
    by_test :
        (b : Bool)
        → elim (arith_skip_ws s) [ [] ↦ n | d ∷ rest ↦ 0 ] ≡ (if all_space s then n else 0)
        → elim (if b then arith_skip_ws s else c ∷ s) [ [] ↦ n | d ∷ rest ↦ 0 ]
          ≡ (if b && all_space s then n else 0)
    by_test true h = h
    by_test false h = refl

value_of-number :
    (get_var : Bytes → Option Bytes) (o : Option Bytes) → value_of get_var o ≡ number_of o
unfolding value_of strtoll
value_of-number get_var none = refl
value_of-number get_var (some []) = refl
value_of-number get_var (some (c ∷ text)) =
    let (number, end) = strtoll (c ∷ text) in skip-all_space number end

-- Operands with equal values, and an operator that agrees on them.
bind_cong :
    {r r' : Result ℕ} {f g : ℕ → Result ℕ} → r ≡ r' → ((x : ℕ) → f x ≡ g x) → (r >>= f) ≡ (r' >>= g)
bind_cong {r} {f = f} {g} e h = bind_ext r ∙ ap (λ q. q >>= g) e
  where
    bind_ext : (q : Result ℕ) → (q >>= f) ≡ (q >>= g)
    bind_ext (ok x) = h x
    bind_ext (err x) = refl

pub meaning-denotation :
    (get_var : Bytes → Option Bytes) (e : Expr)
    → IsGrammar e
    → meaning get_var e ≡ denotation get_var e
unfolding meaning denotation
meaning-denotation get_var (num c more) (h, k, m) = ap ok (
    ap (λ p. p.0) (strtoll_decimal c more h k)
    ∙ clamp_lem (digits 10 0 (c ∷ more)).0
    ∙ ap (λ n. if ltb n (2 ^ 63) then n else 2 ^ 63 - 1)
        (digits-decimal 0 (c ∷ more) (ground arith, m)))
meaning-denotation get_var (var c more) g = ap ok (value_of-number get_var (get_var (c ∷ more)))
meaning-denotation get_var (paren e) g = meaning-denotation get_var e g
meaning-denotation get_var (unary p e) (h, g) =
    bind_cong (meaning-denotation get_var e g) (λ x. ap ok (apply_prefix-sense p x))
meaning-denotation get_var (pow a b) (h, g, k, g') =
    bind_cong (meaning-denotation get_var a g)
      (λ x. bind_cong (meaning-denotation get_var b g') (arith_pow_int-power x))
meaning-denotation get_var (binary o a b) (h, g, k, g') =
    bind_cong (meaning-denotation get_var a g)
      (λ x. bind_cong (meaning-denotation get_var b g') (apply-sense o x))
meaning-denotation get_var (ternary c t f) (h, g, k, g', m, g'') =
    bind_cong (meaning-denotation get_var c g) (λ x.
      bind_cong (meaning-denotation get_var t g')
        (λ y. bind_cong (meaning-denotation get_var f g'') (λ z. ap ok (ternary-choice x y z))))
