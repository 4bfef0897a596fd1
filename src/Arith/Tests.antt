-- ===== src/Arith/Tests.antt =====
-- Runs of the evaluator, and the theorems at expressions where they apply.
use arksh.Base.{◌⊎◌, [], arith, ℕ, ◌^◌, ◌-◌, ◌≡◌, refl, Option, some, codes, Bytes}
use arksh.Arith.Expr.{Expr, num, var, paren, binary, spell, IsGrammar}
use arksh.Arith.Denotation.{denotation}
use arksh.Arith.Ends.{evaluate_arith-ends}
use arksh.Arith.Correct.{evaluate_arith-meaning}
use arksh.Arith.{
  Error, out_of_fuel, add, sub, mul, Result, ok, err, ◌>>=◌, division_by_zero, trapped,
}
use arksh.Arith.Parse.{evaluate_arith}

abbrev no_vars : Bytes → Option Bytes
no_vars name = some (codes "0x10 ")

abbrev value : Result (ℕ × Bytes) → Result ℕ
value r = do (v, rest) ← r; ok v

precedence : value (evaluate_arith no_vars (codes "1 + 2*3 - 4 % 3")) ≡ ok 6
unfolding evaluate_arith
precedence = refl

parens : value (evaluate_arith no_vars (codes " (1+2) *3 << 2 >= 36 && 2 ")) ≡ ok 1
unfolding evaluate_arith
parens = refl

powers : value (evaluate_arith no_vars (codes "2**3**2 ? $((010 + x)) : 1")) ≡ ok 24
unfolding evaluate_arith
powers = refl

signs : value (evaluate_arith no_vars (codes "-7 / 2 + -7 % 2 * !0 + ~0")) ≡ ok (2 ^ 64 - 5)
unfolding evaluate_arith
signs = refl

-- Both branches of a ternary are evaluated.
no_short_circuit : value (evaluate_arith no_vars (codes "1 ? 2 : 1 / 0")) ≡ err division_by_zero
unfolding evaluate_arith
no_short_circuit = refl

-- The one division of two numbers that has no result.
ends_process : value (evaluate_arith no_vars (codes "(-9223372036854775807-1) / -1")) ≡ err trapped
unfolding evaluate_arith
ends_process = refl

-- `1+2*(3-x)`
abbrev tree : Expr
tree =
    binary add (num b'1' [])
      (binary mul (num b'2' []) (paren (binary sub (num b'3' []) (var b'x' []))))

tree-IsGrammar : IsGrammar tree
tree-IsGrammar = (
  omega arith,
  (refl, refl, tt),
  omega arith,
  (
    omega arith,
    (refl, refl, tt),
    omega arith,
    (omega arith, (refl, refl, tt), omega arith, (refl, tt, omega arith)),
  ),
)

evaluate_arith-meaning_example :
    evaluate_arith no_vars (spell tree) ≡ (denotation no_vars tree >>= λ v. ok (v, []))
evaluate_arith-meaning_example = evaluate_arith-meaning no_vars tree tree-IsGrammar

evaluate_arith-ends_example :
    ((v : ℕ) × (evaluate_arith no_vars (codes "$((1+(2)") ≡ ok (v, [])))
    ⊎ ((e : Error) × (evaluate_arith no_vars (codes "$((1+(2)") ≡ err e) × ¬ (e ≡ out_of_fuel))
evaluate_arith-ends_example = evaluate_arith-ends no_vars (codes "$((1+(2)")
