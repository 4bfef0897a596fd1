-- ===== src/Arith/Whole.antt =====
-- Whole expressions on a spelled tree in src/expand.c: without a `?`, and with one.
use arksh.Base.{
  ℕ, ◌-◌, ◌≤◌, ◌≡◌, refl, sym, ap, subst, ◌∙◌, false, Option, ◌∷◌, ◌++◌, append_assoc, arith,
  if◌then◌else◌, length, length-append, drop, Bytes,
}
use arksh.Arith.{Result, ok, err, missing_colon, ◌>>=◌, Parser, minus, plus, bang, tilde}
use arksh.Arith.Word.{is_true}
use arksh.Arith.Number.{arith_skip_ws}
use arksh.Arith.Operators.{at}
use arksh.Arith.Parse.{arith_power, level, branches, arith_ternary, at_end, arith_expr}
use arksh.Arith.Expr.{
  Expr, num, var, paren, unary, pow, binary, ternary, spell, meaning, op_text, IsGrammar,
}
use arksh.Arith.Tokens.{Stops, StartsOperand}
use arksh.Arith.Levels.{>>=_assoc, ParseAt, ChainAt, parse_higher}
use arksh.Arith.Marks.{question-Stops, colon-Stops}
use arksh.Arith.Operands.{UnaryAt, PowerAt}

-- Every tree begins with a character that does not go on with an operator.
pub starts : (e : Expr) (s : Bytes) → IsGrammar e → StartsOperand (spell e ++ s)
unfolding spell
starts (num c more) s (h, k, _) = record {
  no_less = ground arith;
  no_greater = ground arith;
  no_equal = ground arith;
  no_ampersand = ground arith;
  no_bar = ground arith;
  no_star = ground arith;
}
starts (var c more) s (h, _, _) = record {
  no_less = ground arith;
  no_greater = ground arith;
  no_equal = ground arith;
  no_ampersand = ground arith;
  no_bar = ground arith;
  no_star = ground arith;
}
starts (paren e) s g = record {
  no_less = refl;
  no_greater = refl;
  no_equal = refl;
  no_ampersand = refl;
  no_bar = refl;
  no_star = refl;
}
starts (unary minus e) s g = record {
  no_less = refl;
  no_greater = refl;
  no_equal = refl;
  no_ampersand = refl;
  no_bar = refl;
  no_star = refl;
}
starts (unary plus e) s g = record {
  no_less = refl;
  no_greater = refl;
  no_equal = refl;
  no_ampersand = refl;
  no_bar = refl;
  no_star = refl;
}
starts (unary bang e) s g = record {
  no_less = refl;
  no_greater = refl;
  no_equal = refl;
  no_ampersand = refl;
  no_bar = refl;
  no_star = refl;
}
starts (unary tilde e) s g = record {
  no_less = refl;
  no_greater = refl;
  no_equal = refl;
  no_ampersand = refl;
  no_bar = refl;
  no_star = refl;
}
starts (pow a b) s g =
    subst StartsOperand (sym (append_assoc (spell a) (b'*' ∷ b'*' ∷ spell b) s)) (starts a _ g.1)
starts (binary o a b) s g =
    subst StartsOperand (sym (append_assoc (spell a) (op_text o ++ spell b) s)) (starts a _ g.1)
starts (ternary c t f) s g =
    subst StartsOperand (sym (append_assoc (spell c) (b'?' ∷ (spell t ++ (b':' ∷ spell f))) s))
      (starts c _ g.1)

-- What ends a whole expression.
abbrev pub EndsExpr : Bytes → Type 0
EndsExpr s = Stops 10 s × (at s 0 b'?' ≡ false)

module _ (get_var : Bytes → Option Bytes) where
  abbrev pub evaluates : ℕ → Parser
  evaluates d text = at_end get_var (arith_expr get_var d text)

  -- What `arith_ternary` makes of a tree, with `d` units of fuel for what stands in parentheses.
  abbrev pub TopAt : ℕ → Expr → Type 0
  TopAt d e =
      (s : Bytes)
      → length (spell e ++ s) ≤ d
      → EndsExpr s
      → arith_ternary get_var (arith_expr get_var d) (evaluates d) (spell e ++ s)
        ≡ (meaning get_var e >>= λ v. ok (v, s))

  abbrev pub UnaryOf : ℕ → Expr → Type 0
  UnaryOf d = UnaryAt get_var (arith_expr get_var d) (evaluates d) d

  abbrev pub PowerOf : ℕ → Expr → Type 0
  PowerOf d = PowerAt get_var (arith_expr get_var d) (evaluates d) d

  abbrev pub ParseOf : ℕ → ℕ → Expr → Type 0
  ParseOf d = ParseAt get_var (arith_expr get_var d) (evaluates d) d

  abbrev pub ChainOf : ℕ → ℕ → Expr → Type 0
  ChainOf d = ChainAt get_var (arith_expr get_var d) (evaluates d) d

  pub ParseOf-power : (d : ℕ) (e : Expr) → PowerOf d e → ParseOf d 0 e
  unfolding level arith_power
  ParseOf-power d e p s fits stops = p _ s (omega arith) fits stops

  pub parse_from : (d l m : ℕ) (e : Expr) → l ≤ m → ParseOf d l e → ParseOf d m e
  parse_from d l m e le p =
      subst (λ k. ParseOf d k e) (omega arith)
        (parse_higher get_var (arith_expr get_var d) (evaluates d) d l (m - l) e p)

  pub top_of_parse : (d : ℕ) (e : Expr) → ParseOf d 10 e → TopAt d e
  unfolding arith_ternary
  top_of_parse d e p s fits (stops, no_question) =
      ap (λ r. r >>= λ q. after_condition q.0 (arith_skip_ws q.1)) (p s fits stops)
      ∙ >>=_assoc (meaning get_var e) _ _
      ∙ λ i. meaning get_var e >>= λ v. stop_here v i
    where
      after_condition : ℕ → Bytes → Result (ℕ × Bytes)
      after_condition v t =
          if at t 0 b'?'
          then branches get_var (arith_expr get_var d) (evaluates d) v (drop 1 t)
          else ok (v, t)

      stop_here : (v : ℕ) → after_condition v (arith_skip_ws s) ≡ ok (v, s)
      stop_here v = rw (stops.no_space, no_question) refl

  -- What stands behind the `?` of a ternary.
  branches_read :
      (d : ℕ) (t f : Expr) (v : ℕ) (s : Bytes)
      → ParseOf d 10 t
      → ParseOf d 10 f
      → length (spell t ++ (b':' ∷ (spell f ++ s))) ≤ d
      → Stops 10 s
      → branches get_var (arith_expr get_var d) (evaluates d) v (spell t ++ (b':' ∷ (spell f ++ s)))
        ≡ (meaning get_var t >>= λ y. meaning get_var f >>= λ z. ok (if is_true v then y else z, s))
  unfolding branches arith_skip_ws
  branches_read d t f v s read_t read_f fits stops =
      let parts = length-append (spell t) (b':' ∷ (spell f ++ s)) in
      ap (λ r. r >>= λ q. behind_first q.0 (arith_skip_ws q.1))
        (read_t (b':' ∷ (spell f ++ s)) fits (colon-Stops 10 (spell f ++ s)))
      ∙ >>=_assoc (meaning get_var t) _ _
      ∙ (λ i. meaning get_var t >>= λ y.
          read_f s (omega arith) stops i >>= λ q. ok (if is_true v then y else q.0, q.1))
      ∙ λ i. meaning get_var t >>= λ y.
          >>=_assoc {B = ℕ × Bytes} (meaning get_var f) (λ z. ok (z, s))
            (λ q. ok (if is_true v then y else q.0, q.1)) i
    where
      behind_first : ℕ → Bytes → Result (ℕ × Bytes)
      behind_first y u =
          if at u 0 b':'
          then (level get_var (arith_expr get_var d) (evaluates d) 10 (drop 1 u) >>= λ q.
              ok (if is_true v then y else q.0, q.1))
          else err missing_colon

  pub ternary-TopAt :
      (d : ℕ) (c t f : Expr)
      → ParseOf d 10 c
      → ParseOf d 10 t
      → ParseOf d 10 f
      → TopAt d (ternary c t f)
  unfolding spell meaning arith_ternary arith_skip_ws
  ternary-TopAt d c t f read_c read_t read_f s fits (stops, no_question) =
      let rest = spell t ++ (b':' ∷ (spell f ++ s)) in
      let split : spell (ternary c t f) ++ s ≡ spell c ++ (b'?' ∷ rest) =
        append_assoc (spell c) (b'?' ∷ (spell t ++ (b':' ∷ spell f))) s
        ∙ ap (λ u. spell c ++ (b'?' ∷ u)) (append_assoc (spell t) (b':' ∷ spell f) s) in
      let whole = ap length split in
      let parts = length-append (spell c) (b'?' ∷ rest) in
      ap (arith_ternary get_var (arith_expr get_var d) (evaluates d)) split
      ∙ ap (λ r. r >>= λ q. after_condition q.0 (arith_skip_ws q.1))
          (read_c (b'?' ∷ rest) (omega (arith, whole)) (question-Stops 10 rest))
      ∙ >>=_assoc (meaning get_var c) _ _
      ∙ (λ i. meaning get_var c >>= λ v.
          branches_read d t f v s read_t read_f (omega (arith, whole)) stops i)
      ∙ sym (
          >>=_assoc (meaning get_var c) values last ∙ λ i.
          meaning get_var c >>= λ x. after_values x i)
    where
      after_condition : ℕ → Bytes → Result (ℕ × Bytes)
      after_condition v u =
          if at u 0 b'?'
          then branches get_var (arith_expr get_var d) (evaluates d) v (drop 1 u)
          else ok (v, u)

      last : ℕ → Result (ℕ × Bytes)
      last v = ok (v, s)

      value_of_branches : ℕ → ℕ → Result ℕ
      value_of_branches x y = meaning get_var f >>= λ z. ok (if is_true x then y else z)

      values : ℕ → Result ℕ
      values x = meaning get_var t >>= value_of_branches x

      after_values :
          (x : ℕ)
          → (values x >>= last) ≡ (
              meaning get_var t >>= λ y.
              meaning get_var f >>= λ z. last (if is_true x then y else z))
      after_values x = >>=_assoc (meaning get_var t) (value_of_branches x) last ∙ λ i.
          meaning get_var t >>= λ y.
          >>=_assoc (meaning get_var f) (λ z. ok (if is_true x then y else z)) last i
