-- ===== src/Arith/Operators.antt =====
-- The operators that the loops of src/expand.c look for, level by level.
use arksh.Base.{
  ℕ, zero, suc, Bool, false, not, ◌&&◌, Option, none, some, [], ◌∷◌, ◌==◌, if◌then◌else◌, Bytes,
}
use arksh.Arith.{
  Op, mul, div, mod_by, add, sub, shift_left, shift_right, le, ge, lt, gt, eq, ne, bit_and_op,
  bit_xor_op, bit_or_op, and_op, or_op,
}

-- `ctx->pos + k < ctx->len && ctx->expr[ctx->pos + k] == c`
abbrev pub at : Bytes → ℕ → ℕ → Bool
at [] k c = false
at (x ∷ s) zero c = x == c
at (x ∷ s) (suc k) c = at s k c

-- The tests of each level's loop: the operator, and how many characters it takes.
unfoldable pub multiplicative_operator : Bytes → Option (Op × ℕ)
multiplicative_operator s =
    if at s 0 b'*'
    then some (mul, 1)
    else if at s 0 b'/'
    then some (div, 1)
    else if at s 0 b'%'
    then some (mod_by, 1)
    else none

unfoldable pub additive_operator : Bytes → Option (Op × ℕ)
additive_operator s =
    if at s 0 b'+' then some (add, 1) else if at s 0 b'-' then some (sub, 1) else none

unfoldable pub shift_operator : Bytes → Option (Op × ℕ)
shift_operator s =
    if at s 0 b'<' && at s 1 b'<'
    then some (shift_left, 2)
    else if at s 0 b'>' && at s 1 b'>'
    then some (shift_right, 2)
    else none

unfoldable pub comparison_operator : Bytes → Option (Op × ℕ)
comparison_operator s =
    let is_le = at s 0 b'<' && at s 1 b'=' in
    let is_ge = at s 0 b'>' && at s 1 b'=' in
    if is_le
    then some (le, 2)
    else if is_ge
    then some (ge, 2)
    else if at s 0 b'<' && not (at s 1 b'<')
    then some (lt, 1)
    else if at s 0 b'>' && not (at s 1 b'>')
    then some (gt, 1)
    else none

unfoldable pub equality_operator : Bytes → Option (Op × ℕ)
equality_operator s =
    if at s 0 b'=' && at s 1 b'='
    then some (eq, 2)
    else if at s 0 b'!' && at s 1 b'='
    then some (ne, 2)
    else none

unfoldable pub bitwise_and_operator : Bytes → Option (Op × ℕ)
bitwise_and_operator s = if at s 0 b'&' && not (at s 1 b'&') then some (bit_and_op, 1) else none

unfoldable pub bitwise_xor_operator : Bytes → Option (Op × ℕ)
bitwise_xor_operator s = if at s 0 b'^' then some (bit_xor_op, 1) else none

unfoldable pub bitwise_or_operator : Bytes → Option (Op × ℕ)
bitwise_or_operator s = if at s 0 b'|' && not (at s 1 b'|') then some (bit_or_op, 1) else none

unfoldable pub logical_and_operator : Bytes → Option (Op × ℕ)
logical_and_operator s = if at s 0 b'&' && at s 1 b'&' then some (and_op, 2) else none

unfoldable pub logical_or_operator : Bytes → Option (Op × ℕ)
logical_or_operator s = if at s 0 b'|' && at s 1 b'|' then some (or_op, 2) else none

-- The levels from `arith_multiplicative` to `arith_logical_or`, by number.
unfoldable pub operators : ℕ → Bytes → Option (Op × ℕ)
unfolding multiplicative_operator additive_operator shift_operator comparison_operator
    equality_operator bitwise_and_operator bitwise_xor_operator bitwise_or_operator
    logical_and_operator logical_or_operator
operators zero = multiplicative_operator
operators (suc zero) = additive_operator
operators (suc (suc zero)) = shift_operator
operators (suc (suc (suc zero))) = comparison_operator
operators (suc (suc (suc (suc zero)))) = equality_operator
operators (suc (suc (suc (suc (suc zero))))) = bitwise_and_operator
operators (suc (suc (suc (suc (suc (suc zero)))))) = bitwise_xor_operator
operators (suc (suc (suc (suc (suc (suc (suc zero))))))) = bitwise_or_operator
operators (suc (suc (suc (suc (suc (suc (suc (suc zero)))))))) = logical_and_operator
operators (suc (suc (suc (suc (suc (suc (suc (suc (suc l))))))))) = logical_or_operator
