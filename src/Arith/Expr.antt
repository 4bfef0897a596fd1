-- ===== src/Arith/Expr.antt =====
-- The expressions that src/expand.c evaluates as trees, how they are spelled, and what they mean,
-- with no parser in it.
use arksh.Base.{
  ℕ, suc, ◌≤◌, ◌≡◌, true, ◌||◌, Option, [], ◌∷◌, ◌++◌, leb, ◌==◌, if◌then◌else◌, length, All, Bytes,
}
use arksh.Arith.{
  Result, ok, ◌>>=◌, Op, mul, div, mod_by, add, sub, shift_left, shift_right, le, ge, lt, gt, eq,
  ne, bit_and_op, bit_xor_op, bit_or_op, and_op, or_op, Prefix, minus, plus, bang, tilde,
}
use arksh.Arith.Word.{apply, apply_prefix, arith_pow_int, is_true}
use arksh.Arith.Number.{is_digit, is_letter, is_name_char, strtoll}
use arksh.Arith.Parse.{value_of}

-- `paren` stands for parentheses in the text.
pub data Expr : Type 0 where
  num : ℕ → Bytes → Expr
  var : ℕ → Bytes → Expr
  paren : Expr → Expr
  unary : Prefix → Expr → Expr
  pow : Expr → Expr → Expr
  binary : Op → Expr → Expr → Expr
  ternary : Expr → Expr → Expr → Expr

abbrev pub op_text : Op → Bytes
op_text mul = b'*' ∷ []
op_text div = b'/' ∷ []
op_text mod_by = b'%' ∷ []
op_text add = b'+' ∷ []
op_text sub = b'-' ∷ []
op_text shift_left = b'<' ∷ b'<' ∷ []
op_text shift_right = b'>' ∷ b'>' ∷ []
op_text le = b'<' ∷ b'=' ∷ []
op_text ge = b'>' ∷ b'=' ∷ []
op_text lt = b'<' ∷ []
op_text gt = b'>' ∷ []
op_text eq = b'=' ∷ b'=' ∷ []
op_text ne = b'!' ∷ b'=' ∷ []
op_text bit_and_op = b'&' ∷ []
op_text bit_xor_op = b'^' ∷ []
op_text bit_or_op = b'|' ∷ []
op_text and_op = b'&' ∷ b'&' ∷ []
op_text or_op = b'|' ∷ b'|' ∷ []

-- The precedence of C: a smaller number binds tighter.
abbrev pub op_level : Op → ℕ
op_level mul = 0
op_level div = 0
op_level mod_by = 0
op_level add = 1
op_level sub = 1
op_level shift_left = 2
op_level shift_right = 2
op_level le = 3
op_level ge = 3
op_level lt = 3
op_level gt = 3
op_level eq = 4
op_level ne = 4
op_level bit_and_op = 5
op_level bit_xor_op = 6
op_level bit_or_op = 7
op_level and_op = 8
op_level or_op = 9

abbrev pub prefix_char : Prefix → ℕ
prefix_char minus = b'-'
prefix_char plus = b'+'
prefix_char bang = b'!'
prefix_char tilde = b'~'

unfoldable pub spell : Expr → Bytes
spell (num c more) = c ∷ more
spell (var c more) = c ∷ more
spell (paren e) = b'(' ∷ (spell e ++ b')' ∷ [])
spell (unary p e) = prefix_char p ∷ spell e
spell (pow a b) = spell a ++ (b'*' ∷ b'*' ∷ spell b)
spell (binary o a b) = spell a ++ (op_text o ++ spell b)
spell (ternary c t f) = spell c ++ (b'?' ∷ (spell t ++ (b':' ∷ spell f)))

-- The operands in order, and what the operator makes of their values.
unfoldable pub meaning : (Bytes → Option Bytes) → Expr → Result ℕ
unfolding strtoll value_of apply apply_prefix arith_pow_int
meaning get_var (num c more) = ok (strtoll (c ∷ more)).0
meaning get_var (var c more) = ok (value_of get_var (get_var (c ∷ more)))
meaning get_var (paren e) = meaning get_var e
meaning get_var (unary p e) = do v ← meaning get_var e; ok (apply_prefix p v)
meaning get_var (pow a b) = do x ← meaning get_var a; y ← meaning get_var b; arith_pow_int x y
meaning get_var (binary o a b) = do x ← meaning get_var a; y ← meaning get_var b; apply o x y
meaning get_var (ternary c t f) = do
  x ← meaning get_var c
  y ← meaning get_var t
  z ← meaning get_var f
  ok (if is_true x then y else z)

-- The binary level from which on a tree may stand without parentheses; 11 for a ternary.
abbrev pub low : Expr → ℕ
low (binary o a b) = suc (op_level o)
low (ternary c t f) = 11
low e = 0

-- Operands of prefixes, and left operands of `**`.
abbrev pub IsOperand : Expr → Type 0
IsOperand (pow a b) = ⊥
IsOperand (binary o a b) = ⊥
IsOperand (ternary c t f) = ⊥
IsOperand e = Unit

-- The trees of the grammar: decimal numerals, names that fit the buffer, operators of one level
-- grouped to the left, `**` to the right, and tighter operators inside looser ones.
abbrev pub IsGrammar : Expr → Type 0
IsGrammar (num c more) =
    (leb b'1' c ≡ true) × (leb c b'9' ≡ true) × All (λ d. is_digit d ≡ true) more
IsGrammar (var c more) =
    ((is_letter c || c == b'_') ≡ true)
    × All (λ d. is_name_char d ≡ true) more
    × (length more ≤ 126)
IsGrammar (paren e) = IsGrammar e
IsGrammar (unary p e) = IsOperand e × IsGrammar e
IsGrammar (pow a b) = IsOperand a × IsGrammar a × (low b ≤ 0) × IsGrammar b
IsGrammar (binary o a b) =
    (low a ≤ suc (op_level o)) × IsGrammar a × (low b ≤ op_level o) × IsGrammar b
IsGrammar (ternary c t f) =
    (low c ≤ 10) × IsGrammar c × (low t ≤ 10) × IsGrammar t × (low f ≤ 10) × IsGrammar f
