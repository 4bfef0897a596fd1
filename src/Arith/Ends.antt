-- ===== src/Arith/Ends.antt =====
-- The recursive descent of src/expand.c always returns: its fuel is never used up.
use arksh.Base.{
  ℕ, zero, suc, ◌+◌, ◌≤◌, ◌<◌, ◌≡◌, refl, sym, subst, ◌⊎◌, inl, inr, Option, none, some, [], ◌∷◌,
  arith, length, drop, length-drop, Bytes,
}
use arksh.Arith.{Error, unexpected_token, out_of_fuel, Result, ok, err, ◌>>=◌, Parser, Op}
use arksh.Arith.Word.{apply}
use arksh.Arith.Number.{arith_skip_ws}
use arksh.Arith.Operators.{at, operators}
use arksh.Arith.Parse.{
  arith_power, binary_loop, binary_level, level, branches, arith_ternary, at_end, arith_expr,
  evaluate_arith,
}
use arksh.Arith.Marks.{end-Stops}
use arksh.Arith.Fine.{NotFuel, Fine, Fine-more, bind-Fine, value-Fine, if-Fine, length-skip_ws}
use arksh.Arith.Settled.{Takes, operators-Takes, apply-Settled}
use arksh.Arith.Factors.{power-Fine}

module _ (get_var : Bytes → Option Bytes) where
  -- Over an evaluator of what stands in parentheses that returns on every shorter text.
  module _ (expr evaluate : Parser) (n : ℕ)
      (expr-Fine : (s : Bytes) → length s < n → Fine (length s) (expr s))
      (evaluate-Fine : (s : Bytes) → length s < n → Fine (length s) (evaluate s)) where
    module _ (next : Parser) (l : ℕ)
        (next-Fine : (s : Bytes) → length s ≤ n → Fine (length s) (next s)) where
      abbrev turn : ℕ → ℕ → Bytes → Option (Op × ℕ) → Result (ℕ × Bytes)
      turn f v s none = ok (v, s)
      turn f v s (some (op, k)) = do
        (right, rest) ← next (drop k s)
        value ← apply op v right
        binary_loop next (operators l) f value rest

      turn-Fine :
          (f v c : ℕ) (s : Bytes) (o : Option (Op × ℕ))
          → Takes o
          → suc (length s) ≤ n
          → ((w : ℕ) (t : Bytes)
              → length t ≤ length s
              → Fine (length t) (binary_loop next (operators l) f w t))
          → Fine (suc (length s)) (turn f v (c ∷ s) o)
      turn-Fine f v c s none h fits loop = omega arith
      turn-Fine f v c s (some (op, zero)) h fits loop = elim h [ ]
      turn-Fine f v c s (some (op, suc k)) h fits loop =
          let dropped = length-drop k s in
          bind-Fine _ _ (next (drop k s)) _ (next-Fine (drop k s) (omega (arith, dropped)))
            (λ w rest short. value-Fine _ (apply op v w) _ (apply-Settled op v w) (λ x.
              Fine-more _ _ _ (omega (arith, dropped)) (loop x rest (omega (arith, dropped)))))

      binary_loop-Fine :
          (f v : ℕ) (s : Bytes)
          → length s < f
          → length s ≤ n
          → Fine (length s) (binary_loop next (operators l) f v s)
      unfolding binary_loop
      binary_loop-Fine zero v s h k = elim h [ ]
      binary_loop-Fine (suc f) v s h k =
          Fine-more _ _ (turn f v (arith_skip_ws s) (operators l (arith_skip_ws s)))
            (length-skip_ws s)
            (at_text (arith_skip_ws s) (omega (arith, length-skip_ws s))
              (omega (arith, length-skip_ws s)) (λ w t short. binary_loop-Fine f w t short))
        where
          at_text :
              (t : Bytes)
              → length t ≤ f
              → length t ≤ n
              → ((w : ℕ) (u : Bytes)
                  → length u < f
                  → length u ≤ n
                  → Fine (length u) (binary_loop next (operators l) f w u))
              → Fine (length t) (turn f v t (operators l t))
          at_text [] h k loop =
              subst (λ o. Fine 0 (turn f v [] o))
                (sym ((end-Stops (suc l)).no_operator l (omega arith))) (omega arith)
          at_text (c ∷ t) h k loop =
              turn-Fine f v c t (operators l (c ∷ t)) (operators-Takes l (c ∷ t)) k
                (λ w u short. loop w u (omega arith) (omega arith))

    level-Fine :
        (l : ℕ) (s : Bytes) → length s ≤ n → Fine (length s) (level get_var expr evaluate l s)
    unfolding level arith_power binary_level
    level-Fine zero s h =
        power-Fine get_var expr evaluate n expr-Fine evaluate-Fine (length s + 1) s (omega arith) h
    level-Fine (suc l) s h =
        bind-Fine _ _ (level get_var expr evaluate l s) _ (level-Fine l s h) (λ v rest short.
          Fine-more _ _ _ short (
            binary_loop-Fine (level get_var expr evaluate l) l (level-Fine l) (length rest + 1) v
              rest (omega arith) (omega arith)))

    branches-Fine :
        (v : ℕ) (s : Bytes) → length s ≤ n → Fine (length s) (branches get_var expr evaluate v s)
    unfolding branches
    branches-Fine v s h =
        bind-Fine _ _ (level get_var expr evaluate 10 s) _ (level-Fine 10 s h) (λ w rest short.
          let t = arith_skip_ws rest in
          let skipped = length-skip_ws rest in
          let dropped = length-drop 1 t in
          if-Fine _ (at t 0 b':') _ _
            (λ e.
              bind-Fine _ _ (level get_var expr evaluate 10 (drop 1 t)) _
                (level-Fine 10 (drop 1 t) (omega (arith, dropped, skipped)))
                (λ x end k. omega (arith, dropped, skipped)))
            (λ e. tt))

    arith_ternary-Fine :
        (s : Bytes) → length s ≤ n → Fine (length s) (arith_ternary get_var expr evaluate s)
    unfolding arith_ternary
    arith_ternary-Fine s h =
        bind-Fine _ _ (level get_var expr evaluate 10 s) _ (level-Fine 10 s h) (λ v rest short.
          let t = arith_skip_ws rest in
          let skipped = length-skip_ws rest in
          let dropped = length-drop 1 t in
          if-Fine _ (at t 0 b'?') _ _
            (λ e.
              Fine-more _ _ _ (omega (arith, dropped, skipped))
                (branches-Fine v (drop 1 t) (omega (arith, dropped, skipped))))
            (λ e. omega (arith, skipped)))

  abbrev ended : ℕ → Bytes → Result (ℕ × Bytes)
  ended v [] = ok (v, [])
  ended v (c ∷ s) = err (unexpected_token c)

  at_end-Fine : (m : ℕ) (r : Result (ℕ × Bytes)) → Fine m r → Fine 0 (at_end get_var r)
  unfolding at_end
  at_end-Fine m (err e) h = h
  at_end-Fine m (ok (v, rest)) h = short (arith_skip_ws rest)
    where
      short : (t : Bytes) → Fine 0 (ended v t)
      short [] = omega arith
      short (c ∷ t) = tt

  arith_expr-Fine : (d : ℕ) (s : Bytes) → length s < d → Fine (length s) (arith_expr get_var d s)
  unfolding arith_expr
  arith_expr-Fine zero s h = elim h [ ]
  arith_expr-Fine (suc d) s h =
      arith_ternary-Fine (arith_expr get_var d) (λ text. at_end get_var (arith_expr get_var d text))
        d (arith_expr-Fine d)
        (λ t k. Fine-more _ _ _ (omega arith) (at_end-Fine (length t) _ (arith_expr-Fine d t k))) s
        (omega arith)

-- On every text, the evaluator gives a value with nothing left of the text, or an error of the
-- expression, or it ends the process by LLONG_MIN divided by -1, which is an error `trapped`: it
-- never uses up the fuel that stands for its loops and its recursion.
pub evaluate_arith-ends :
    (get_var : Bytes → Option Bytes) (text : Bytes)
    → ((v : ℕ) × (evaluate_arith get_var text ≡ ok (v, [])))
      ⊎ ((e : Error) × (evaluate_arith get_var text ≡ err e) × ¬ (e ≡ out_of_fuel))
unfolding evaluate_arith
evaluate_arith-ends get_var text = settle _ (
    at_end-Fine get_var (length text) _
      (arith_expr-Fine get_var (length text + 1) text (omega arith)))
  where
    settle :
        (r : Result (ℕ × Bytes))
        → Fine 0 r
        → ((v : ℕ) × (r ≡ ok (v, []))) ⊎ ((e : Error) × (r ≡ err e) × ¬ (e ≡ out_of_fuel))
    settle (ok (v, [])) h = inl (v, refl)
    settle (ok (v, c ∷ s)) h = elim h [ ]
    settle (err e) h = inr (e, refl, λ q. subst NotFuel q h)
