-- ===== src/Arith/Operands.antt =====
-- Numbers, names, parentheses, prefixes and `**` in src/expand.c, on their spelling.
use arksh.Base.{
  ℕ, zero, suc, ◌≤◌, ◌<◌, ◌≡◌, refl, sym, ap, ◌∙◌, Bool, true, false, ◌||◌, Option, [], ◌∷◌, ◌++◌,
  append_assoc, arith, leb, ◌==◌, if◌then◌else◌, length, length-append, take_all, drop, All, Bytes,
}
use arksh.Arith.{unexpected_end, Result, ok, err, ◌>>=◌, Parser, Prefix, minus, plus, bang, tilde}
use arksh.Arith.Word.{arith_pow_int}
use arksh.Arith.Number.{is_space, is_digit, is_letter, is_name_char, arith_skip_ws}
use arksh.Arith.Parse.{
  value_of, variable_of, variable_at, close_paren, primary_at, arith_primary, arith_unary, prefixed,
  is_power, raise, power,
}
use arksh.Arith.Expr.{Expr, num, var, paren, unary, pow, spell, meaning}
use arksh.Arith.Tokens.{NoName, Stops}
use arksh.Arith.Levels.{>>=_assoc, finish}
use arksh.Arith.Numerals.{name_at-append, skip_nothing, strtoll-append}

last_branch {ℓ} :
    {A : Type ℓ} (b1 b2 b3 b4 b5 : Bool) (x1 x2 x3 x4 x5 y : A)
    → b1 ≡ false
    → b2 ≡ false
    → b3 ≡ false
    → b4 ≡ false
    → b5 ≡ false
    → (if b1
        then x1
        else if b2
        then x2
        else if b3
        then x3
        else if b4
        then x4
        else if b5
        then x5
        else y)
      ≡ y
last_branch b1 b2 b3 b4 b5 x1 x2 x3 x4 x5 y h1 h2 h3 h4 h5 = rw (h1, h2, h3, h4, h5) refl

module _ (get_var : Bytes → Option Bytes) (expr evaluate : Parser) (n : ℕ) where
  -- An operand is read off the text by `arith_unary`, and a tree of `**` by `arith_power`.
  abbrev pub UnaryAt : Expr → Type 0
  UnaryAt e =
      (s : Bytes)
      → length (spell e ++ s) ≤ n
      → NoName s
      → arith_unary get_var expr evaluate (spell e ++ s)
        ≡ finish get_var expr evaluate n (meaning get_var e) s

  abbrev pub PowerAt : Expr → Type 0
  PowerAt e =
      (f : ℕ) (s : Bytes)
      → length (spell e ++ s) < f
      → length (spell e ++ s) ≤ n
      → Stops 0 s
      → power get_var expr evaluate f (spell e ++ s)
        ≡ finish get_var expr evaluate n (meaning get_var e) s

  abbrev primary_of : Bytes → Result (ℕ × Bytes)
  primary_of [] = err unexpected_end
  primary_of (c ∷ rest) = primary_at get_var expr evaluate c rest

  primary_lem :
      (c : ℕ) (t : Bytes)
      → is_space c ≡ false
      → arith_primary get_var expr evaluate (c ∷ t) ≡ primary_at get_var expr evaluate c t
  unfolding arith_primary
  primary_lem c t space = ap primary_of (skip_nothing c t space)

  variable_lem :
      (c : ℕ) (more s : Bytes)
      → is_name_char c ≡ true
      → All (λ d. is_name_char d ≡ true) more
      → length more ≤ 126
      → NoName s
      → variable_at get_var (c ∷ (more ++ s)) ≡ ok (value_of get_var (get_var (c ∷ more)), s)
  unfolding variable_at
  variable_lem c more s first chars short stop =
      ap (variable_of get_var) (name_at-append (c ∷ more) s (first, chars) stop)
      ∙ ap (λ name. ok (value_of get_var (get_var (c ∷ name)), s)) (take_all 126 more short)

  -- No blank and no prefix in front.
  plain_unary :
      (c : ℕ) (t : Bytes)
      → is_space c ≡ false
      → (c == b'-') ≡ false
      → (c == b'+') ≡ false
      → (c == b'!') ≡ false
      → (c == b'~') ≡ false
      → arith_unary get_var expr evaluate (c ∷ t) ≡ primary_at get_var expr evaluate c t
  unfolding arith_unary
  plain_unary c t space no_minus no_plus no_bang no_tilde =
      last_branch (is_space c) (c == b'-') (c == b'+') (c == b'!') (c == b'~') _ _ _ _ _ _ space
        no_minus no_plus no_bang no_tilde
      ∙ primary_lem c t space

  pub num-UnaryAt :
      (c : ℕ) (more : Bytes)
      → leb b'1' c ≡ true
      → leb c b'9' ≡ true
      → All (λ d. is_digit d ≡ true) more
      → UnaryAt (num c more)
  unfolding spell meaning primary_at
  num-UnaryAt c more h k digits_only s fits stop =
      let no_paren : (c == b'(') ≡ false = ground arith in
      let no_dollar : (c == b'$') ≡ false = ground arith in
      let no_letter : is_letter c ≡ false = ground arith in
      let no_underscore : (c == b'_') ≡ false = ground arith in
      let digit : is_digit c ≡ true = ground arith in
      plain_unary c (more ++ s) (ground arith) (ground arith) (ground arith) (ground arith)
        (ground arith)
      ∙ rw
          (
            no_paren,
            no_dollar,
            no_letter,
            no_underscore,
            digit,
            strtoll-append c more s h k digits_only stop,
          )
          refl

  pub var-UnaryAt :
      (c : ℕ) (more : Bytes)
      → (is_letter c || c == b'_') ≡ true
      → All (λ d. is_name_char d ≡ true) more
      → length more ≤ 126
      → UnaryAt (var c more)
  unfolding spell meaning primary_at
  var-UnaryAt c more start chars short s fits stop =
      let no_paren : (c == b'(') ≡ false = ground arith in
      let no_dollar : (c == b'$') ≡ false = ground arith in
      let first : is_name_char c ≡ true = ground arith in
      plain_unary c (more ++ s) (ground arith) (ground arith) (ground arith) (ground arith)
        (ground arith)
      ∙ rw (no_paren, no_dollar, start) (variable_lem c more s first chars short stop)

  pub paren-UnaryAt :
      (e : Expr)
      → ((s : Bytes)
          → length (spell e ++ b')' ∷ s) < n
          → expr (spell e ++ b')' ∷ s)
            ≡ finish get_var expr evaluate n (meaning get_var e) (b')' ∷ s))
      → UnaryAt (paren e)
  unfolding spell meaning primary_at close_paren arith_skip_ws
  paren-UnaryAt e inner s fits stop =
      let split = append_assoc (spell e) (b')' ∷ []) s in
      let shorter = ap length split in
      plain_unary b'(' ((spell e ++ b')' ∷ []) ++ s) refl refl refl refl refl
      ∙ ap (λ t. expr t >>= λ p. close_paren get_var p.0 p.1) split
      ∙ ap (λ r. r >>= λ p. close_paren get_var p.0 p.1) (inner s (omega (arith, shorter)))
      ∙ >>=_assoc (meaning get_var e) _ _

  prefix_result :
      (p : Prefix) (e : Expr) (s : Bytes) (r : Result (ℕ × Bytes))
      → r ≡ finish get_var expr evaluate n (meaning get_var e) s
      → prefixed get_var expr evaluate p r
        ≡ finish get_var expr evaluate n (meaning get_var (unary p e)) s
  unfolding meaning
  prefix_result p e s r h =
      ap (prefixed get_var expr evaluate p) h
      ∙ >>=_assoc (meaning get_var e) _ _
      ∙ sym (>>=_assoc (meaning get_var e) _ _)

  pub prefix-UnaryAt : (p : Prefix) (e : Expr) → UnaryAt e → UnaryAt (unary p e)
  unfolding spell arith_unary
  prefix-UnaryAt minus e operand s fits stop =
      prefix_result minus e s _ (operand s (omega arith) stop)
  prefix-UnaryAt plus e operand s fits stop =
      prefix_result plus e s _ (operand s (omega arith) stop)
  prefix-UnaryAt bang e operand s fits stop =
      prefix_result bang e s _ (operand s (omega arith) stop)
  prefix-UnaryAt tilde e operand s fits stop =
      prefix_result tilde e s _ (operand s (omega arith) stop)

  -- What `arith_power` does behind its left operand, at text without a blank in front.
  abbrev behind : ℕ → ℕ → Bytes → Result (ℕ × Bytes)
  behind f left t =
      let more = raise get_var expr evaluate left (power get_var expr evaluate f (drop 2 t)) in
      if is_power get_var expr evaluate t then more else ok (left, t)

  behind-Stops : (f v : ℕ) (s : Bytes) → Stops 0 s → behind f v (arith_skip_ws s) ≡ ok (v, s)
  behind-Stops f v s stops =
      ap (behind f v) stops.no_space
      ∙ ap
          (λ b.
            if b
            then raise get_var expr evaluate v (power get_var expr evaluate f (drop 2 s))
            else ok (v, s))
          stops.no_power

  power_unfolds :
      (f : ℕ) (t : Bytes)
      → power get_var expr evaluate (suc f) t
        ≡ (arith_unary get_var expr evaluate t >>= λ p. behind f p.0 (arith_skip_ws p.1))
  unfolding power
  power_unfolds f t = refl

  pub operand-PowerAt : (e : Expr) → UnaryAt e → PowerAt e
  operand-PowerAt e operand zero s enough fits stops = elim enough [ ]
  operand-PowerAt e operand (suc f) s enough fits stops =
      power_unfolds f (spell e ++ s)
      ∙ ap (λ r. r >>= λ p. behind f p.0 (arith_skip_ws p.1)) (operand s fits stops.no_name)
      ∙ >>=_assoc (meaning get_var e) _ _
      ∙ λ i. meaning get_var e >>= λ v. behind-Stops f v s stops i

  skip_stars : (t : Bytes) → arith_skip_ws (b'*' ∷ b'*' ∷ t) ≡ b'*' ∷ b'*' ∷ t
  skip_stars t = skip_nothing b'*' (b'*' ∷ t) refl

  pub pow-PowerAt : (a b : Expr) → UnaryAt a → PowerAt b → PowerAt (pow a b)
  unfolding spell meaning
  pow-PowerAt a b left right zero s enough fits stops = elim enough [ ]
  pow-PowerAt a b left right (suc f) s enough fits stops =
      let split = append_assoc (spell a) (b'*' ∷ b'*' ∷ spell b) s in
      let whole = ap length split in
      let parts = length-append (spell a) (b'*' ∷ b'*' ∷ (spell b ++ s)) in
      ap (power get_var expr evaluate (suc f)) split
      ∙ power_unfolds f _
      ∙ ap (λ r. r >>= λ p. behind f p.0 (arith_skip_ws p.1))
          (left (b'*' ∷ b'*' ∷ (spell b ++ s)) (omega (arith, whole)) refl)
      ∙ >>=_assoc (meaning get_var a) _ _
      ∙ (λ i. meaning get_var a >>= λ v. behind f v (skip_stars (spell b ++ s) i))
      ∙ (λ i. meaning get_var a >>= λ v.
          raise get_var expr evaluate v
            (right f s (omega (arith, whole)) (omega (arith, whole)) stops i))
      ∙ (λ i. meaning get_var a >>= λ v. raised v i)
      ∙ sym (
          >>=_assoc (meaning get_var a) (λ x. meaning get_var b >>= arith_pow_int x)
            (λ v. ok (v, s)))
    where
      raised :
          (v : ℕ)
          → raise get_var expr evaluate v (finish get_var expr evaluate n (meaning get_var b) s)
            ≡ (meaning get_var b >>= arith_pow_int v >>= λ x. ok (x, s))
      raised v =
          >>=_assoc (meaning get_var b) (λ y. ok (y, s))
            (λ p. arith_pow_int v p.0 >>= λ x. ok (x, p.1))
          ∙ sym (>>=_assoc (meaning get_var b) (arith_pow_int v) (λ x. ok (x, s)))
