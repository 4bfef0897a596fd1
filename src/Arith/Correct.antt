-- ===== src/Arith/Correct.antt =====
-- `evaluate_arith` of src/expand.c gives every spelled tree its meaning.
use arksh.Base.{
  ℕ, zero, suc, ◌+◌, ◌≤◌, ◌<◌, ◌≡◌, refl, sym, ap, subst, ◌∙◌, Option, [], ◌∷◌, ◌++◌, append-nil,
  arith, length, Bytes,
}
use native.Mathlib.Decide.{dec_le}
use arksh.Arith.{Result, ok, err, ◌>>=◌, Op}
use arksh.Arith.Number.{arith_skip_ws}
use arksh.Arith.Parse.{at_end, arith_expr, evaluate_arith}
use arksh.Arith.Expr.{
  Expr, num, var, paren, unary, pow, binary, ternary, spell, meaning, op_level, low, IsOperand,
  IsGrammar,
}
use arksh.Arith.Denotation.{denotation, meaning-denotation}
use arksh.Arith.Levels.{finish, chain_of_parse, parse_of_chain, chain_of_binary}
use arksh.Arith.Marks.{paren-Stops, end-Stops}
use arksh.Arith.Operands.{
  num-UnaryAt, var-UnaryAt, paren-UnaryAt, prefix-UnaryAt, operand-PowerAt, pow-PowerAt,
}
use arksh.Arith.Whole.{
  starts, evaluates, TopAt, UnaryOf, PowerOf, ParseOf, ChainOf, ParseOf-power, parse_from,
  top_of_parse, ternary-TopAt,
}

module _ (get_var : Bytes → Option Bytes) where
  -- What every parser of the descent makes of a tree.
  record Reads (d : ℕ) (e : Expr) : Type 0 where
    unary_reads : IsOperand e → UnaryOf get_var d e
    power_reads : low e ≤ 0 → PowerOf get_var d e
    parse_reads : (l : ℕ) → low e ≤ l → l ≤ 10 → ParseOf get_var d l e
    chain_reads : (l : ℕ) → low e ≤ suc l → l ≤ 9 → ChainOf get_var d l e
    top_reads : TopAt get_var d e

  operand-Reads : (d : ℕ) (e : Expr) → UnaryOf get_var d e → Reads d e
  operand-Reads d e u =
      let p = operand-PowerAt get_var (arith_expr get_var d) (evaluates get_var d) d e u in
      let z = ParseOf-power get_var d e p in
      record {
        unary_reads = λ h. u;
        power_reads = λ h. p;
        parse_reads = λ l h k. parse_from get_var d 0 l e (omega arith) z;
        chain_reads = λ l h k.
            chain_of_parse get_var (arith_expr get_var d) (evaluates get_var d) d l e
              (parse_from get_var d 0 l e (omega arith) z);
        top_reads = top_of_parse get_var d e (parse_from get_var d 0 10 e (omega arith) z);
      }

  pow-Reads : (d : ℕ) (a b : Expr) → PowerOf get_var d (pow a b) → Reads d (pow a b)
  pow-Reads d a b p =
      let e = pow a b in
      let z = ParseOf-power get_var d e p in
      record {
        unary_reads = λ h. absurd h;
        power_reads = λ h. p;
        parse_reads = λ l h k. parse_from get_var d 0 l e (omega arith) z;
        chain_reads = λ l h k.
            chain_of_parse get_var (arith_expr get_var d) (evaluates get_var d) d l e
              (parse_from get_var d 0 l e (omega arith) z);
        top_reads = top_of_parse get_var d e (parse_from get_var d 0 10 e (omega arith) z);
      }

  op_level_bound : (o : Op) → op_level o ≤ 9
  op_level_bound o = ground arith

  binary-Reads :
      (d : ℕ) (o : Op) (a b : Expr)
      → ChainOf get_var d (op_level o) (binary o a b)
      → Reads d (binary o a b)
  binary-Reads d o a b chain =
      let e = binary o a b in
      let small = op_level_bound o in
      let z =
        parse_of_chain get_var (arith_expr get_var d) (evaluates get_var d) d (op_level o) e
          chain in
      record {
        unary_reads = λ h. absurd h;
        power_reads = λ h. absurd (omega arith);
        parse_reads = λ l h k. parse_from get_var d (suc (op_level o)) l e h z;
        chain_reads = λ l h k. elim (dec_le (suc (op_level o)) l) [
          | yes q ↦
              chain_of_parse get_var (arith_expr get_var d) (evaluates get_var d) d l e
                (parse_from get_var d (suc (op_level o)) l e q z)
          | no q ↦ subst (λ j. ChainOf get_var d j e) (omega arith) chain
        ];
        top_reads =
            top_of_parse get_var d e (parse_from get_var d (suc (op_level o)) 10 e (omega arith) z);
      }

  paren_inner :
      (d : ℕ) (e : Expr)
      → ((d' : ℕ) → TopAt get_var d' e)
      → (s : Bytes) → length (spell e ++ b')' ∷ s) < d
      → arith_expr get_var d (spell e ++ b')' ∷ s)
        ≡ finish get_var
            (arith_expr get_var d)
            (evaluates get_var d)
            d
            (meaning get_var e)
            (b')' ∷ s)
  unfolding arith_expr
  paren_inner zero e top s fits = elim fits [ ]
  paren_inner (suc d) e top s fits = top d (b')' ∷ s) (omega arith) (paren-Stops 10 s, refl)

  reads : (e : Expr) → IsGrammar e → (d : ℕ) → Reads d e
  reads (num c more) (h, k, m) d =
      operand-Reads d _
        (num-UnaryAt get_var (arith_expr get_var d) (evaluates get_var d) d c more h k m)
  reads (var c more) (h, k, m) d =
      operand-Reads d _
        (var-UnaryAt get_var (arith_expr get_var d) (evaluates get_var d) d c more h k m)
  reads (paren e) g d =
      let inner : (d' : ℕ) → TopAt get_var d' e = λ d'. (reads e g d').top_reads in
      operand-Reads d _ (
        paren-UnaryAt get_var (arith_expr get_var d) (evaluates get_var d) d e
          (paren_inner d e inner))
  reads (unary p e) (h, g) d = operand-Reads d _ (
      prefix-UnaryAt get_var (arith_expr get_var d) (evaluates get_var d) d p e
        ((reads e g d).unary_reads h))
  reads (pow a b) (h, g, k, g') d = pow-Reads d a b (
      pow-PowerAt get_var (arith_expr get_var d) (evaluates get_var d) d a b
        ((reads a g d).unary_reads h) ((reads b g' d).power_reads k))
  reads (binary o a b) (h, g, k, g') d =
      let small = op_level_bound o in
      binary-Reads d o a b (
        chain_of_binary get_var (arith_expr get_var d) (evaluates get_var d) d o a b
          ((reads a g d).chain_reads (op_level o) h small)
          ((reads b g' d).parse_reads (op_level o) k (omega arith)) (λ s. starts b s g'))
  reads (ternary c t f) (h, g, k, g', m, g'') d = record {
    unary_reads = λ q. absurd q;
    power_reads = λ q. absurd (omega arith);
    parse_reads = λ l q r. absurd (omega arith);
    chain_reads = λ l q r. absurd (omega arith);
    top_reads =
        ternary-TopAt get_var d c t f ((reads c g d).parse_reads 10 h (omega arith))
          ((reads t g' d).parse_reads 10 k (omega arith))
          ((reads f g'' d).parse_reads 10 m (omega arith));
  }

-- On the spelling of any tree of the grammar (decimal numerals that do not begin with a zero, names
-- of at most 127 characters, parentheses, prefixes, `**`, binary operators grouped as C groups them,
-- and `?:`), the evaluator reads the whole text and returns the tree's value by the signed 64-bit
-- meaning of each operator, or the error that its operands and operators give from left to right:
-- a zero divisor, a negative exponent, or LLONG_MIN divided by -1, which ends the process.
pub evaluate_arith-meaning :
    (get_var : Bytes → Option Bytes) (e : Expr)
    → IsGrammar e
    → evaluate_arith get_var (spell e) ≡ (denotation get_var e >>= λ v. ok (v, []))
unfolding evaluate_arith arith_expr at_end arith_skip_ws
evaluate_arith-meaning get_var e g =
    let d = length (spell e) in
    let whole = ap length (append-nil (spell e)) in
    let one : d + 1 ≡ suc d = omega arith in
    ap (λ f. at_end get_var (arith_expr get_var f (spell e))) (one)
    ∙ ap (λ u. at_end get_var (arith_expr get_var (suc d) u)) (sym (append-nil (spell e)))
    ∙ ap (at_end get_var)
        ((reads get_var e g d).top_reads [] (omega (arith, whole)) (end-Stops 10, refl))
    ∙ ended (meaning get_var e)
    ∙ ap (λ r. r >>= λ v. ok (v, [])) (meaning-denotation get_var e g)
  where
    ended : (r : Result ℕ) → at_end get_var (r >>= λ v. ok (v, [])) ≡ (r >>= λ v. ok (v, []))
    ended (ok v) = refl
    ended (err x) = refl
