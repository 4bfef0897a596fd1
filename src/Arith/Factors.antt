-- ===== src/Arith/Factors.antt =====
-- `arith_primary`, `arith_unary` and `arith_power` of src/expand.c return, over an evaluator that
-- does on every shorter text.
use arksh.Base.{
  ℕ, zero, suc, ◌+◌, ◌≤◌, ◌<◌, ◌≡◌, true, Option, [], ◌∷◌, arith, if◌then◌else◌, ◌==◌, ◌&&◌, ◌||◌,
  length, drop, length-drop, Bytes,
}
use arksh.Arith.{
  missing_paren, unexpected_end, Result, ok, err, ◌>>=◌, Parser, Prefix, minus, plus, bang, tilde,
}
use arksh.Arith.Word.{arith_pow_int}
use arksh.Arith.Number.{is_space, is_digit, is_letter, arith_skip_ws}
use arksh.Arith.Operators.{at}
use arksh.Arith.Parse.{
  name_at, nested_text, variable_of, variable_at, close_paren, primary_at, arith_primary, prefixed,
  arith_unary, is_power, raise, power,
}
use arksh.Arith.Fine.{
  Fine, Fine-more, bind-Fine, value-Fine, if-Fine, length-skip_ws, length-name_at, length-strtoll,
}
use arksh.Arith.Nested.{Cut, Cut-more, nested_text-Cut}
use arksh.Arith.Settled.{arith_pow_int-Settled}

module _ (get_var : Bytes → Option Bytes) where
  abbrev closing : ℕ → Bytes → Result (ℕ × Bytes)
  closing v [] = err missing_paren
  closing v (c ∷ rest) = if c == b')' then ok (v, rest) else err missing_paren

  close_paren-Fine : (v : ℕ) (s : Bytes) → Fine (length s) (close_paren get_var v s)
  unfolding close_paren
  close_paren-Fine v s =
      Fine-more _ _ (closing v (arith_skip_ws s)) (length-skip_ws s) (short (arith_skip_ws s))
    where
      short : (t : Bytes) → Fine (length t) (closing v t)
      short [] = tt
      short (c ∷ rest) = if-Fine _ (c == b')') _ _ (λ e. omega arith) (λ e. tt)

  variable_at-Fine : (s : Bytes) → Fine (length s) (variable_at get_var s)
  unfolding variable_at
  variable_at-Fine s = short (name_at s) (length-name_at s)
    where
      short : (p : Bytes × Bytes) → length p.1 ≤ length s → Fine (length s) (variable_of get_var p)
      short ([], rest) h = h
      short (c ∷ more, rest) h = h

  -- Over an evaluator of what stands in parentheses that returns on every shorter text.
  module _ (expr evaluate : Parser) (n : ℕ)
      (expr-Fine : (s : Bytes) → length s < n → Fine (length s) (expr s))
      (evaluate-Fine : (s : Bytes) → length s < n → Fine (length s) (evaluate s)) where
    nested-Fine :
        (s : Bytes) (r : Result (Bytes × Bytes))
        → length s < n
        → Cut (length (drop 2 s)) (length (drop 2 s)) r
        → Fine (length s) (r >>= λ q. evaluate q.0 >>= λ p. ok (p.0, q.1))
    nested-Fine s (ok (text, rest)) h (a, b) =
        let dropped = length-drop 2 s in
        bind-Fine (length text) (length s) (evaluate text) _
          (evaluate-Fine text (omega (arith, dropped))) (λ v end k. omega (arith, dropped))
    nested-Fine s (err e) h c = c

    primary_at-Fine :
        (c : ℕ) (s : Bytes)
        → suc (length s) ≤ n
        → Fine (suc (length s)) (primary_at get_var expr evaluate c s)
    unfolding primary_at
    primary_at-Fine c s h =
        let dropped = length-drop 2 s in
        let number = length-strtoll (c ∷ s) in
        if-Fine _ (c == b'(') _ _
          (λ e.
            bind-Fine (length s) _ (expr s) _ (expr-Fine s (omega arith))
              (λ v rest k. Fine-more _ _ _ (omega arith) (close_paren-Fine v rest)))
          (λ e.
            if-Fine _ (c == b'$' && at s 0 b'(' && at s 1 b'(') _ _
              (λ e. Fine-more _ _ _ (omega arith) (
                nested-Fine s (nested_text (length s + 1) 1 [] (drop 2 s)) (omega arith) (
                  Cut-more _ _ _ _ _ (omega arith) (omega arith)
                    (nested_text-Cut (length s + 1) 1 [] (drop 2 s) (omega (arith, dropped))))))
              (λ e.
                if-Fine _ (c == b'$') _ _ (λ e. Fine-more _ _ _ (omega arith) (variable_at-Fine s))
                  (λ e.
                    if-Fine _ (is_letter c || c == b'_') _ _ (λ e. variable_at-Fine (c ∷ s))
                      (λ e. if-Fine _ (is_digit c) _ _ (λ e. number) (λ e. tt)))))

    abbrev primary_of : Bytes → Result (ℕ × Bytes)
    primary_of [] = err unexpected_end
    primary_of (c ∷ rest) = primary_at get_var expr evaluate c rest

    arith_primary-Fine :
        (s : Bytes) → length s ≤ n → Fine (length s) (arith_primary get_var expr evaluate s)
    unfolding arith_primary
    arith_primary-Fine s h =
        let shorter = length-skip_ws s in
        Fine-more _ _ (primary_of (arith_skip_ws s)) shorter (short (arith_skip_ws s) (omega arith))
      where
        short : (t : Bytes) → length t ≤ n → Fine (length t) (primary_of t)
        short [] k = tt
        short (c ∷ t) k = primary_at-Fine c t k

    prefixed-Fine :
        (m : ℕ) (p : Prefix) (r : Result (ℕ × Bytes))
        → Fine m r
        → Fine (suc m) (prefixed get_var expr evaluate p r)
    prefixed-Fine m p r h = bind-Fine m (suc m) r _ h (λ v rest k. omega arith)

    arith_unary-Fine :
        (s : Bytes) → length s ≤ n → Fine (length s) (arith_unary get_var expr evaluate s)
    unfolding arith_unary
    arith_unary-Fine [] h = arith_primary-Fine [] h
    arith_unary-Fine (c ∷ s) h =
        let operand = arith_unary-Fine s (omega arith) in
        if-Fine _ (is_space c) _ _ (λ e. Fine-more _ _ _ (omega arith) operand)
          (λ e.
            if-Fine _ (c == b'-') _ _ (λ e. prefixed-Fine _ minus _ operand)
              (λ e.
                if-Fine _ (c == b'+') _ _ (λ e. prefixed-Fine _ plus _ operand)
                  (λ e.
                    if-Fine _ (c == b'!') _ _ (λ e. prefixed-Fine _ bang _ operand)
                      (λ e.
                        if-Fine _ (c == b'~') _ _ (λ e. prefixed-Fine _ tilde _ operand)
                          (λ e. arith_primary-Fine (c ∷ s) h)))))

    raise-Fine :
        (m v : ℕ) (r : Result (ℕ × Bytes)) → Fine m r → Fine m (raise get_var expr evaluate v r)
    raise-Fine m v r h =
        bind-Fine m m r _ h
          (λ w end k. value-Fine m (arith_pow_int v w) _ (arith_pow_int-Settled v w) (λ x. k))

    -- Where an operator of two characters stands, the text has them.
    two_stars : (t : Bytes) → is_power get_var expr evaluate t ≡ true → 2 ≤ length t
    two_stars [] h = absurd (ground arith)
    two_stars (c ∷ []) h = absurd (ground arith)
    two_stars (c ∷ d ∷ t) h = omega arith

    pub power-Fine :
        (f : ℕ) (s : Bytes)
        → length s < f
        → length s ≤ n
        → Fine (length s) (power get_var expr evaluate f s)
    unfolding power
    power-Fine zero s h k = elim h [ ]
    power-Fine (suc f) s h k =
        bind-Fine (length s) _ (arith_unary get_var expr evaluate s) _ (arith_unary-Fine s k)
          (λ v rest short.
            let t = arith_skip_ws rest in
            let skipped = length-skip_ws rest in
            let dropped = length-drop 2 t in
            if-Fine _ (is_power get_var expr evaluate t) _ _
              (λ e.
                let stars = two_stars t e in
                raise-Fine _ v _ (
                  Fine-more _ _ _ (omega (arith, dropped, skipped, stars)) (
                    power-Fine f (drop 2 t) (omega (arith, dropped, skipped, stars))
                      (omega (arith, dropped, skipped, stars)))))
              (λ e. omega arith))
