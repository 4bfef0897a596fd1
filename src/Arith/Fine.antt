-- ===== src/Arith/Fine.antt =====
-- Results of the evaluator of src/expand.c that did not run out of fuel and have no more text left
-- than a bound, and the helpers that never lengthen the text.
use arksh.Base.{
  ℕ, suc, ◌+◌, ◌*◌, ◌≤◌, ◌≡◌, refl, inl, inr, Bool, true, false, Bool-cases, Option, none, some, [],
  ◌∷◌, arith, if◌then◌else◌, ◌==◌, ◌&&◌, ◌||◌, length, Bytes,
}
use arksh.Arith.{Error, out_of_fuel, Result, ok, err, ◌>>=◌}
use arksh.Arith.Number.{
  is_space, is_name_char, arith_skip_ws, digit_of, digits, starts_digit, magnitude_from, clamp,
  number_from, signed_from, strtoll,
}
use arksh.Arith.Parse.{name_at}

abbrev pub NotFuel : Error → Type 0
NotFuel out_of_fuel = ⊥
NotFuel e = Unit

abbrev pub Fine : ℕ → Result (ℕ × Bytes) → Type 0
Fine n (ok (v, rest)) = length rest ≤ n
Fine n (err e) = NotFuel e

pub Fine-more : (n m : ℕ) (r : Result (ℕ × Bytes)) → n ≤ m → Fine n r → Fine m r
Fine-more n m (ok (v, rest)) h f = omega arith
Fine-more n m (err e) h f = f

pub bind-Fine :
    (n m : ℕ) (r : Result (ℕ × Bytes)) (f : ℕ × Bytes → Result (ℕ × Bytes))
    → Fine n r
    → ((v : ℕ) (rest : Bytes) → length rest ≤ n → Fine m (f (v, rest)))
    → Fine m (r >>= f)
bind-Fine n m (ok (v, rest)) f h k = k v rest h
bind-Fine n m (err e) f h k = h

-- A value, or an error of the expression.
abbrev pub Settled : Result ℕ → Type 0
Settled (ok v) = Unit
Settled (err e) = NotFuel e

pub value-Fine :
    (n : ℕ) (r : Result ℕ) (f : ℕ → Result (ℕ × Bytes))
    → Settled r
    → ((v : ℕ) → Fine n (f v))
    → Fine n (r >>= f)
value-Fine n (ok v) f h k = k v
value-Fine n (err e) f h k = h

pub if-Settled : (b : Bool) (x y : Result ℕ) → Settled x → Settled y → Settled (if b then x else y)
if-Settled true x y h k = h
if-Settled false x y h k = k

pub if-Fine :
    (n : ℕ) (b : Bool) (x y : Result (ℕ × Bytes))
    → (b ≡ true → Fine n x)
    → (b ≡ false → Fine n y)
    → Fine n (if b then x else y)
if-Fine n true x y h k = h refl
if-Fine n false x y h k = k refl

pub length-skip_ws : (s : Bytes) → length (arith_skip_ws s) ≤ length s
unfolding arith_skip_ws
length-skip_ws [] = omega arith
length-skip_ws (c ∷ s) = elim (Bool-cases (is_space c)) [
  | inl h ↦ rw h (omega (arith, length-skip_ws s))
  | inr h ↦ rw h (omega arith)
]

pub length-name_at : (s : Bytes) → length (name_at s).1 ≤ length s
unfolding name_at
length-name_at [] = omega arith
length-name_at (c ∷ s) = elim (Bool-cases (is_name_char c)) [
  | inl h ↦ rw h (omega (arith, length-name_at s))
  | inr h ↦ rw h (omega arith)
]

length-digits : (base acc : ℕ) (s : Bytes) → length (digits base acc s).1 ≤ length s
unfolding digits
length-digits base acc [] = omega arith
length-digits base acc (c ∷ s) =
    short (digit_of base c) (λ d. length-digits base (acc * base + d) s)
  where
    turn : Option ℕ → ℕ × Bytes
    turn none = (acc, c ∷ s)
    turn (some d) = digits base (acc * base + d) s

    short :
        (d : Option ℕ)
        → ((k : ℕ) → length (digits base (acc * base + k) s).1 ≤ length s)
        → length (turn d).1 ≤ suc (length s)
    short none h = omega arith
    short (some d) h = omega (arith, h d)

-- A test that chooses between two results that are short enough.
if-length :
    (n : ℕ) (b : Bool) (x y : ℕ × Bytes)
    → length x.1 ≤ n
    → length y.1 ≤ n
    → length (if b then x else y).1 ≤ n
if-length n true x y h k = h
if-length n false x y h k = k

length-magnitude_from : (s : Bytes) → length (magnitude_from s).1 ≤ length s
unfolding magnitude_from
length-magnitude_from [] = omega arith
length-magnitude_from (c ∷ []) = length-digits _ 0 (c ∷ [])
length-magnitude_from (c ∷ x ∷ s) =
    let base : ℕ = if c == b'0' then 8 else 10 in
    let hexadecimal = length-digits 16 0 s in
    if-length (suc (suc (length s))) (c == b'0' && (x == b'x' || x == b'X') && starts_digit 16 s)
      (digits 16 0 s) (digits base 0 (c ∷ x ∷ s)) (omega arith) (length-digits base 0 (c ∷ x ∷ s))

length-number_from :
    (negative : Bool) (whole s : Bytes)
    → length s ≤ length whole
    → length (number_from negative whole s).1 ≤ length whole
unfolding number_from
length-number_from negative whole s h =
    let digits_only = length-magnitude_from s in
    let (m, rest) = magnitude_from s in
    if-length (length whole) (starts_digit 10 s) (clamp negative m, rest) (0, whole) (omega arith)
      (omega arith)

length-signed_from :
    (whole s : Bytes) → length s ≤ length whole → length (signed_from whole s).1 ≤ length whole
unfolding signed_from
length-signed_from whole [] h = omega arith
length-signed_from whole (c ∷ s) h =
    if-length (length whole) (c == b'-') (number_from true whole s) _
      (length-number_from true whole s (omega arith))
      (if-length (length whole) (c == b'+') (number_from false whole s)
        (number_from false whole (c ∷ s)) (length-number_from false whole s (omega arith))
        (length-number_from false whole (c ∷ s) h))

pub length-strtoll : (s : Bytes) → length (strtoll s).1 ≤ length s
unfolding strtoll
length-strtoll s = length-signed_from s (arith_skip_ws s) (length-skip_ws s)
