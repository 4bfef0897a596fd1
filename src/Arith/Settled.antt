-- ===== src/Arith/Settled.antt =====
-- What the operators of src/expand.c give: a value or an error of the expression, and a step on.
use arksh.Base.{
  ℕ, zero, suc, ◌≤◌, Bool, true, false, not, Option, none, some, arith, if◌then◌else◌, ◌==◌, ◌&&◌,
  Bytes,
}
use arksh.Arith.{
  Op, mul, div, mod_by, add, sub, shift_left, shift_right, le, ge, lt, gt, eq, ne, bit_and_op,
  bit_xor_op, bit_or_op, and_op, or_op,
}
use arksh.Arith.Word.{traps, apply, arith_pow_int, is_negative}
use arksh.Arith.Operators.{at, operators}
use arksh.Arith.Fine.{Settled, if-Settled}

-- The operator of a level takes a character at least.
abbrev pub Takes : Option (Op × ℕ) → Type 0
Takes none = Unit
Takes (some (o, k)) = 1 ≤ k

if-Takes : (b : Bool) (x y : Option (Op × ℕ)) → Takes x → Takes y → Takes (if b then x else y)
if-Takes true x y h k = h
if-Takes false x y h k = k

pub operators-Takes : (l : ℕ) (s : Bytes) → Takes (operators l s)
unfolding operators
operators-Takes zero s =
    if-Takes (at s 0 b'*') _ _ (omega arith)
      (if-Takes (at s 0 b'/') _ _ (omega arith) (if-Takes (at s 0 b'%') _ _ (omega arith) tt))
operators-Takes (suc zero) s =
    if-Takes (at s 0 b'+') _ _ (omega arith) (if-Takes (at s 0 b'-') _ _ (omega arith) tt)
operators-Takes (suc (suc zero)) s =
    if-Takes (at s 0 b'<' && at s 1 b'<') _ _ (omega arith)
      (if-Takes (at s 0 b'>' && at s 1 b'>') _ _ (omega arith) tt)
operators-Takes (suc (suc (suc zero))) s = if-Takes (at s 0 b'<' && at s 1 b'=') _ _ (omega arith) (
    if-Takes (at s 0 b'>' && at s 1 b'=') _ _ (omega arith) (
      if-Takes (at s 0 b'<' && not (at s 1 b'<')) _ _ (omega arith)
        (if-Takes (at s 0 b'>' && not (at s 1 b'>')) _ _ (omega arith) tt)))
operators-Takes (suc (suc (suc (suc zero)))) s =
    if-Takes (at s 0 b'=' && at s 1 b'=') _ _ (omega arith)
      (if-Takes (at s 0 b'!' && at s 1 b'=') _ _ (omega arith) tt)
operators-Takes (suc (suc (suc (suc (suc zero))))) s =
    if-Takes (at s 0 b'&' && not (at s 1 b'&')) _ _ (omega arith) tt
operators-Takes (suc (suc (suc (suc (suc (suc zero)))))) s =
    if-Takes (at s 0 b'^') _ _ (omega arith) tt
operators-Takes (suc (suc (suc (suc (suc (suc (suc zero))))))) s =
    if-Takes (at s 0 b'|' && not (at s 1 b'|')) _ _ (omega arith) tt
operators-Takes (suc (suc (suc (suc (suc (suc (suc (suc zero)))))))) s =
    if-Takes (at s 0 b'&' && at s 1 b'&') _ _ (omega arith) tt
operators-Takes (suc (suc (suc (suc (suc (suc (suc (suc (suc l))))))))) s =
    if-Takes (at s 0 b'|' && at s 1 b'|') _ _ (omega arith) tt

pub apply-Settled : (o : Op) (x y : ℕ) → Settled (apply o x y)
unfolding apply
apply-Settled mul x y = tt
apply-Settled div x y = if-Settled (y == 0) _ _ tt (if-Settled (traps x y) _ _ tt tt)
apply-Settled mod_by x y = if-Settled (y == 0) _ _ tt (if-Settled (traps x y) _ _ tt tt)
apply-Settled add x y = tt
apply-Settled sub x y = tt
apply-Settled shift_left x y = tt
apply-Settled shift_right x y = tt
apply-Settled le x y = tt
apply-Settled ge x y = tt
apply-Settled lt x y = tt
apply-Settled gt x y = tt
apply-Settled eq x y = tt
apply-Settled ne x y = tt
apply-Settled bit_and_op x y = tt
apply-Settled bit_xor_op x y = tt
apply-Settled bit_or_op x y = tt
apply-Settled and_op x y = tt
apply-Settled or_op x y = tt

pub arith_pow_int-Settled : (x y : ℕ) → Settled (arith_pow_int x y)
unfolding arith_pow_int
arith_pow_int-Settled x y = if-Settled (is_negative y) _ _ tt tt
