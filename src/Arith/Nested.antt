-- ===== src/Arith/Nested.antt =====
-- The text of a nested `$((…))` in src/expand.c: what is cut out and what is left are not longer.
use arksh.Base.{
  ℕ, zero, suc, ◌+◌, ◌-◌, ◌≤◌, ◌<◌, ◌≡◌, refl, Bool, true, false, [], ◌∷◌, ◌++◌, arith,
  if◌then◌else◌, ◌==◌, ◌&&◌, length, length-append, drop, take, Bytes, max_output,
}
use arksh.Arith.{Result, ok, err}
use arksh.Arith.Operators.{at}
use arksh.Arith.Parse.{nested_text}
use arksh.Arith.Fine.{NotFuel}

-- The text of a nested expansion and what follows it are not longer than what was read.
abbrev pub Cut : ℕ → ℕ → Result (Bytes × Bytes) → Type 0
Cut n m (ok (text, rest)) = (length text ≤ n) × (length rest ≤ m)
Cut n m (err e) = NotFuel e

if-Cut :
    (n m : ℕ) (b : Bool) (x y : Result (Bytes × Bytes))
    → (b ≡ true → Cut n m x)
    → (b ≡ false → Cut n m y)
    → Cut n m (if b then x else y)
if-Cut n m true x y h k = h refl
if-Cut n m false x y h k = k refl

pub Cut-more :
    (n m n' m' : ℕ) (r : Result (Bytes × Bytes)) → n ≤ n' → m ≤ m' → Cut n m r → Cut n' m' r
Cut-more n m n' m' (ok (text, rest)) h k (p, q) = (omega arith, omega arith)
Cut-more n m n' m' (err e) h k c = c

length-take_le : (k : ℕ) (s : Bytes) → length (take k s) ≤ length s
length-take_le zero s = omega arith
length-take_le (suc k) [] = omega arith
length-take_le (suc k) (c ∷ s) = omega (arith, length-take_le k s)

take_and_drop : (k : ℕ) (s : Bytes) → length (take k s) + length (drop k s) ≡ length s
take_and_drop zero s = omega arith
take_and_drop (suc k) [] = omega arith
take_and_drop (suc k) (c ∷ s) = omega (arith, take_and_drop k s)

-- A step that takes `k` characters more than the first one.
more-Cut :
    (k : ℕ) (text : Bytes) (c : ℕ) (s : Bytes) (r : Result (Bytes × Bytes))
    → Cut (length (text ++ c ∷ take k s) + length (drop k s)) (length (drop k s)) r
    → Cut (length text + suc (length s)) (suc (length s)) r
more-Cut k text c s r h =
    let parts = length-append text (c ∷ take k s) in
    let both = take_and_drop k s in
    Cut-more _ _ _ _ r (omega (arith, parts, both)) (omega (arith, both)) h

pub nested_text-Cut :
    (fuel depth : ℕ) (text s : Bytes)
    → length s < fuel
    → Cut (length text + length s) (length s) (nested_text fuel depth text s)
unfolding nested_text
nested_text-Cut zero depth text s h = elim h [ ]
nested_text-Cut (suc fuel) depth text [] h = tt
nested_text-Cut (suc fuel) depth text (c ∷ s) h =
    let one = take_and_drop 1 s in
    let two = take_and_drop 2 s in
    let opened =
      nested_text-Cut fuel (depth + 1) (text ++ c ∷ take 2 s) (drop 2 s) (omega (arith, two)) in
    let closed =
      nested_text-Cut fuel (depth - 1) (text ++ c ∷ take 1 s) (drop 1 s) (omega (arith, one)) in
    let other = nested_text-Cut fuel depth (text ++ c ∷ []) s (omega arith) in
    if-Cut _ _ (c == b'$' && at s 0 b'(' && at s 1 b'(') _ _ (λ e. more-Cut 2 text c s _ opened)
      (λ e.
        if-Cut _ _ (c == b')' && at s 0 b')') _ _
          (λ e.
            if-Cut _ _ (depth == 1) (ok (take (max_output - 1) text, drop 1 s)) _
              (λ e. (omega (arith, length-take_le (max_output - 1) text), omega (arith, one)))
              (λ e. more-Cut 1 text c s _ closed))
          (λ e. more-Cut 0 text c s _ other))
