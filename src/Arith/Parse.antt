-- ===== src/Arith/Parse.antt =====
-- The recursive descent of src/expand.c from `arith_primary` to `evaluate_arith`.
-- A loop takes fuel, one more than the characters left; `depth` counts the parentheses and nested
-- expansions that may still be opened.
use arksh.Base.{
  ℕ, zero, suc, ◌+◌, ◌-◌, Bool, ◌&&◌, ◌||◌, Option, none, some, [], ◌∷◌, ◌++◌, ◌==◌, if◌then◌else◌,
  length, take, drop, Bytes, max_output,
}
use arksh.Arith.{
  unexpected_end, missing_paren, missing_colon, unterminated_expansion, unexpected_character,
  unexpected_token, out_of_fuel, Result, ok, err, ◌>>=◌, Parser, Op, Prefix, minus, plus, bang,
  tilde,
}
use arksh.Arith.Word.{apply, apply_prefix, arith_pow_int, is_true}
use arksh.Arith.Number.{is_space, is_digit, is_letter, is_name_char, arith_skip_ws, strtoll}
use arksh.Arith.Operators.{operators, at}

-- The loop `for (;;)` of a level, over the operators of the level and the parser of the next.
unfoldable pub binary_loop : Parser → (Bytes → Option (Op × ℕ)) → ℕ → ℕ → Parser
unfolding apply arith_skip_ws
binary_loop next operator zero left s = err out_of_fuel
binary_loop next operator (suc fuel) left s = elim (operator (arith_skip_ws s)) [
  | none ↦ ok (left, arith_skip_ws s)
  | some (op, k) ↦ (do
    (right, rest) ← next (drop k (arith_skip_ws s))
    value ← apply op left right
    binary_loop next operator fuel value rest)
]

unfoldable pub binary_level : Parser → (Bytes → Option (Op × ℕ)) → Parser
unfolding binary_loop
binary_level next operator s = do
  (left, rest) ← next s
  binary_loop next operator (length rest + 1) left rest

-- The characters of a name, as many as the buffer takes, and what follows them.
unfoldable pub name_at : Bytes → Bytes × Bytes
name_at [] = ([], [])
name_at (c ∷ s) =
    if is_name_char c then (let (name, rest) = name_at s in (c ∷ name, rest)) else ([], c ∷ s)

-- The text of a nested `$((…))`, at what follows its start, and what follows its end.
unfoldable pub nested_text : ℕ → ℕ → Bytes → Bytes → Result (Bytes × Bytes)
nested_text zero depth text s = err out_of_fuel
nested_text (suc fuel) depth text [] = err unterminated_expansion
nested_text (suc fuel) depth text (c ∷ s) =
    let opened = nested_text fuel (depth + 1) (text ++ take 3 (c ∷ s)) (drop 2 s) in
    let closed = nested_text fuel (depth - 1) (text ++ take 2 (c ∷ s)) (drop 1 s) in
    let other = nested_text fuel depth (text ++ c ∷ []) s in
    if c == b'$' && at s 0 b'(' && at s 1 b'('
    then opened
    else if c == b')' && at s 0 b')'
    then (if depth == 1 then ok (take (max_output - 1) text, drop 1 s) else closed)
    else other

-- `arksh_shell_get_var` for the shell of the context: `none` for NULL.
module _ (get_var : Bytes → Option Bytes) where
  -- The number that a variable's text spells, 0 for any other text.
  unfoldable pub value_of : Option Bytes → ℕ
  unfolding strtoll arith_skip_ws
  value_of none = 0
  value_of (some []) = 0
  value_of (some (c ∷ text)) =
      let (number, end) = strtoll (c ∷ text) in
      elim (arith_skip_ws end) [ [] ↦ number | d ∷ rest ↦ 0 ]

  -- The value of a name that was read, with what follows it; the buffer holds 127 characters.
  abbrev pub variable_of : Bytes × Bytes → Result (ℕ × Bytes)
  variable_of ([], rest) = ok (0, rest)
  variable_of (c ∷ more, rest) = ok (value_of (get_var (take 127 (c ∷ more))), rest)

  unfoldable pub variable_at : Parser
  unfolding value_of name_at
  variable_at s = variable_of (name_at s)

  -- `)` behind a parenthesised expression.
  unfoldable pub close_paren : ℕ → Parser
  unfolding arith_skip_ws
  close_paren value s = elim (arith_skip_ws s) [
    | [] ↦ err missing_paren
    | c ∷ rest ↦ if c == b')' then ok (value, rest) else err missing_paren
  ]

  module _ (expr evaluate : Parser) where
    -- `arith_primary`, over `arith_expr` and `evaluate_arith`.
    unfoldable pub primary_at : ℕ → Bytes → Result (ℕ × Bytes)
    unfolding close_paren nested_text variable_at strtoll
    primary_at c s =
        if c == b'('
        then (do (value, rest) ← expr s; close_paren value rest)
        else if c == b'$' && at s 0 b'(' && at s 1 b'('
        then (do
          (text, rest) ← nested_text (length s + 1) 1 [] (drop 2 s)
          (value, end) ← evaluate text
          ok (value, rest))
        else if c == b'$'
        then variable_at s
        else if is_letter c || c == b'_'
        then variable_at (c ∷ s)
        else if is_digit c
        then ok (strtoll (c ∷ s))
        else err (unexpected_character c)

    unfoldable pub arith_primary : Parser
    unfolding primary_at arith_skip_ws
    arith_primary s = elim (arith_skip_ws s) [
      | [] ↦ err unexpected_end
      | c ∷ rest ↦ primary_at c rest
    ]

    abbrev pub prefixed : Prefix → Result (ℕ × Bytes) → Result (ℕ × Bytes)
    prefixed p r = do (value, rest) ← r; ok (apply_prefix p value, rest)

    -- `arith_unary`
    unfoldable pub arith_unary : Parser
    unfolding arith_primary apply_prefix
    arith_unary [] = arith_primary []
    arith_unary (c ∷ s) =
        let operand = arith_unary s in
        if is_space c
        then operand
        else if c == b'-'
        then prefixed minus operand
        else if c == b'+'
        then prefixed plus operand
        else if c == b'!'
        then prefixed bang operand
        else if c == b'~'
        then prefixed tilde operand
        else arith_primary (c ∷ s)

    -- `**` at `s`
    abbrev pub is_power : Bytes → Bool
    is_power s = at s 0 b'*' && at s 1 b'*'

    -- The right operand of `**`, and the power.
    abbrev pub raise : ℕ → Result (ℕ × Bytes) → Result (ℕ × Bytes)
    raise left r = do (right, end) ← r; value ← arith_pow_int left right; ok (value, end)

    -- `arith_power`
    unfoldable pub power : ℕ → Parser
    unfolding arith_unary arith_pow_int
    power zero s = err out_of_fuel
    power (suc fuel) s = do
      (left, rest) ← arith_unary s
      let more = raise left (power fuel (drop 2 (arith_skip_ws rest)))
      if is_power (arith_skip_ws rest) then more else ok (left, arith_skip_ws rest)

    unfoldable pub arith_power : Parser
    unfolding power
    arith_power s = power (length s + 1) s

    unfoldable pub level : ℕ → Parser
    unfolding arith_power binary_level operators
    level zero = arith_power
    level (suc l) = binary_level (level l) (operators l)

    abbrev pub arith_logical_or : Parser
    arith_logical_or = level 10

    -- `arith_ternary`, from the `?` on.
    unfoldable pub branches : ℕ → Parser
    unfolding level
    branches condition s = do
      (t, rest) ← arith_logical_or s
      if at (arith_skip_ws rest) 0 b':'
          then (do
            (f, end) ← arith_logical_or (drop 1 (arith_skip_ws rest))
            ok (if is_true condition then t else f, end))
          else err missing_colon

    unfoldable pub arith_ternary : Parser
    unfolding branches level
    arith_ternary s = do
      (condition, rest) ← arith_logical_or s
      if at (arith_skip_ws rest) 0 b'?'
          then branches condition (drop 1 (arith_skip_ws rest))
          else ok (condition, arith_skip_ws rest)

  -- What `evaluate_arith` makes of the result of `arith_expr`.
  unfoldable pub at_end : Result (ℕ × Bytes) → Result (ℕ × Bytes)
  unfolding arith_skip_ws
  at_end (err e) = err e
  at_end (ok (value, rest)) = elim (arith_skip_ws rest) [
    | [] ↦ ok (value, [])
    | c ∷ s ↦ err (unexpected_token c)
  ]

  -- `arith_expr`; a nested expansion is evaluated by the same fuel.
  unfoldable pub arith_expr : ℕ → Parser
  unfolding arith_ternary at_end
  arith_expr zero s = err out_of_fuel
  arith_expr (suc depth) s =
      arith_ternary (arith_expr depth) (λ text. at_end (arith_expr depth text)) s

  -- `evaluate_arith`
  unfoldable pub evaluate_arith : Parser
  unfolding arith_expr at_end
  evaluate_arith text = at_end (arith_expr (length text + 1) text)
