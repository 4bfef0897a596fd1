-- ===== src/Arith.antt =====
-- The arithmetic evaluator of src/expand.c: its operators, its errors, and what a sub-parser returns.
-- `ctx->expr + ctx->pos` is the list of the characters that are left; `ctx->has_error` with
-- `ctx->error` is an `err`, which every caller hands on.
pub mod Word
pub mod Number
pub mod Operators
pub mod Parse
pub mod Expr
pub mod Fine
pub mod Nested
pub mod Settled
pub mod Factors
pub mod Ends
pub mod Levels
pub mod Tokens
pub mod Numerals
pub mod Operands
pub mod Marks
pub mod Whole
pub mod Sense
pub mod Denotation
pub mod Correct
mod Tests
use arksh.Base.{ℕ, Bytes}

pub data Error : Type 0 where
  unexpected_end missing_paren negative_exponent division_by_zero modulo_by_zero : Error
  missing_colon unterminated_expansion : Error
  unexpected_character unexpected_token : ℕ → Error
  -- The process ends by a signal.
  trapped : Error
  out_of_fuel : Error

pub data Result {ℓ} (A : Type ℓ) : Type ℓ where
  ok : A → Result A
  err : Error → Result A

infixl 5 ◌>>=◌
abbrev pub ◌>>=◌ {ℓ κ} : {A : Type ℓ} {B : Type κ} → Result A → (A → Result B) → Result B
ok a >>= f = f a
err e >>= f = err e

-- A value, and what is left of the expression.
abbrev pub Parser : Type 0
Parser = Bytes → Result (ℕ × Bytes)

-- The binary operators, level by level.
pub data Op : Type 0 where
  mul div mod_by : Op
  add sub : Op
  shift_left shift_right : Op
  le ge lt gt : Op
  eq ne : Op
  bit_and_op bit_xor_op bit_or_op : Op
  and_op or_op : Op

pub data Prefix : Type 0 where
  minus plus bang tilde : Prefix
