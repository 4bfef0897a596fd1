-- ===== src/Arith/Levels.antt =====
-- One binary level of src/expand.c on a spelled tree: its operand, then its loop.
use arksh.Base.{
  ℕ, zero, suc, ◌+◌, ◌≤◌, ◌<◌, ◌≡◌, refl, sym, ap, subst, ◌∙◌, Option, none, some, List, [], ◌∷◌,
  ◌++◌, append_assoc, arith, length, length-append, drop, Bytes,
}
use arksh.Arith.{
  Result, ok, err, ◌>>=◌, Parser, Op, mul, div, mod_by, add, sub, shift_left, shift_right, le, ge,
  lt, gt, eq, ne, bit_and_op, bit_xor_op, bit_or_op, and_op, or_op,
}
use arksh.Arith.Word.{apply}
use arksh.Arith.Number.{arith_skip_ws}
use arksh.Arith.Parse.{binary_loop, binary_level, level}
use arksh.Arith.Operators.{operators}
use arksh.Arith.Expr.{Expr, binary, spell, meaning, op_text, op_level}
use arksh.Arith.Tokens.{Stops, Stops-fewer, StartsOperand, token_here, token-Stops}

pub >>=_assoc {ℓ κ μ} :
    {A : Type ℓ} {B : Type κ} {C : Type μ} (r : Result A) (f : A → Result B) (g : B → Result C)
    → (r >>= f >>= g) ≡ (r >>= λ x. f x >>= g)
>>=_assoc (ok a) f g = refl
>>=_assoc (err e) f g = refl

pub drop-append {ℓ} : {A : Type ℓ} (xs ys : List A) → drop (length xs) (xs ++ ys) ≡ ys
drop-append [] ys = refl
drop-append (x ∷ xs) ys = drop-append xs ys

op_text_some : (o : Op) → 1 ≤ length (op_text o)
op_text_some mul = omega arith
op_text_some div = omega arith
op_text_some mod_by = omega arith
op_text_some add = omega arith
op_text_some sub = omega arith
op_text_some shift_left = omega arith
op_text_some shift_right = omega arith
op_text_some le = omega arith
op_text_some ge = omega arith
op_text_some lt = omega arith
op_text_some gt = omega arith
op_text_some eq = omega arith
op_text_some ne = omega arith
op_text_some bit_and_op = omega arith
op_text_some bit_xor_op = omega arith
op_text_some bit_or_op = omega arith
op_text_some and_op = omega arith
op_text_some or_op = omega arith

-- The loop of a level where it stops, and where it meets an operator.
module _ (next : Parser) (l : ℕ) where
  -- One turn, at text without a blank in front.
  abbrev turn : ℕ → ℕ → Bytes → Option (Op × ℕ) → Result (ℕ × Bytes)
  turn f v s none = ok (v, s)
  turn f v s (some (op, k)) = do
    (right, rest) ← next (drop k s)
    value ← apply op v right
    binary_loop next (operators l) f value rest

  turn_lem :
      (f v : ℕ) (s : Bytes)
      → arith_skip_ws s ≡ s
      → binary_loop next (operators l) (suc f) v s ≡ turn f v s (operators l s)
  unfolding binary_loop
  turn_lem f v s e = ap (λ t. turn f v t (operators l t)) e

  pub loop_stops :
      (f v : ℕ) (s : Bytes)
      → length s < f
      → arith_skip_ws s ≡ s
      → operators l s ≡ none
      → binary_loop next (operators l) f v s ≡ ok (v, s)
  loop_stops zero v s h e k = elim h [ ]
  loop_stops (suc f) v s h e k = turn_lem f v s e ∙ ap (turn f v s) k

  pub loop_steps :
      (f v : ℕ) (o : Op) (t : Bytes)
      → op_level o ≡ l
      → StartsOperand t
      → binary_loop next (operators l) (suc f) v (op_text o ++ t)
        ≡ (next t >>= λ p. apply o v p.0 >>= λ value. binary_loop next (operators l) f value p.1)
  loop_steps f v o t e h =
      let here : operators l (op_text o ++ t) ≡ some (o, length (op_text o)) =
        subst (λ j. operators j (op_text o ++ t) ≡ some (o, length (op_text o))) e
          (token_here t h o) in
      turn_lem f v (op_text o ++ t) (token-Stops t h o).no_space
      ∙ ap (turn f v (op_text o ++ t)) here
      ∙ ap
          (λ r.
            next r >>= λ p. apply o v p.0 >>= λ value. binary_loop next (operators l) f value p.1)
          (drop-append (op_text o) t)

-- For texts of at most `n` characters.
module _ (get_var : Bytes → Option Bytes) (expr evaluate : Parser) (n : ℕ) where
  abbrev pub finish : Result ℕ → Bytes → Result (ℕ × Bytes)
  finish r s = do v ← r; ok (v, s)

  -- The parser of level `l` reads the tree off the text and gives its meaning.
  abbrev pub ParseAt : ℕ → Expr → Type 0
  ParseAt l e =
      (s : Bytes)
      → length (spell e ++ s) ≤ n
      → Stops l s
      → level get_var expr evaluate l (spell e ++ s) ≡ finish (meaning get_var e) s

  -- The level above comes to its loop with the tree's meaning.
  abbrev pub ChainAt : ℕ → Expr → Type 0
  ChainAt l e =
      (s : Bytes)
      → length (spell e ++ s) ≤ n
      → Stops l s
      → (f : ℕ) × (length s < f)
        × (level get_var expr evaluate (suc l) (spell e ++ s) ≡ (
            meaning get_var e >>= λ v.
            binary_loop (level get_var expr evaluate l) (operators l) f v s))

  pub chain_of_parse : (l : ℕ) (e : Expr) → ParseAt l e → ChainAt l e
  unfolding level binary_level
  chain_of_parse l e parse s fits stops = (
    length s + 1,
    omega arith,
    ap
          (λ r. r >>= λ p.
            binary_loop (level get_var expr evaluate l) (operators l) (length p.1 + 1) p.0 p.1)
          (parse s fits stops)
        ∙ >>=_assoc (meaning get_var e) _ _,
  )

  pub parse_of_chain : (l : ℕ) (e : Expr) → ChainAt l e → ParseAt (suc l) e
  parse_of_chain l e chain s fits stops =
      let (f, enough, run) = chain s fits (Stops-fewer l (suc l) s (omega arith) stops) in
      run ∙ λ i. meaning get_var e >>= λ v.
      loop_stops (level get_var expr evaluate l) l f v s enough stops.no_space
        (stops.no_operator l (omega arith)) i

  pub parse_higher : (l k : ℕ) (e : Expr) → ParseAt l e → ParseAt (k + l) e
  parse_higher l zero e parse = subst (λ m. ParseAt m e) (omega arith) parse
  parse_higher l (suc k) e parse =
      subst (λ m. ParseAt m e) (omega arith)
        (parse_of_chain (k + l) e (chain_of_parse (k + l) e (parse_higher l k e parse)))

  module _ (o : Op) (a b : Expr) (parse : ParseAt (op_level o) b)
      (starts : (s : Bytes) → StartsOperand (spell b ++ s)) where
    abbrev loop_at : ℕ → ℕ → Parser
    loop_at f v s =
        binary_loop (level get_var expr evaluate (op_level o)) (operators (op_level o)) f v s

    right_operand :
        (s : Bytes) (f : ℕ)
        → length (spell b ++ s) ≤ n
        → Stops (op_level o) s
        → (v : ℕ)
        → loop_at (suc f) v (op_text o ++ (spell b ++ s))
          ≡ (meaning get_var b >>= λ w. apply o v w >>= λ x. loop_at f x s)
    right_operand s f fits stops v =
        loop_steps (level get_var expr evaluate (op_level o)) (op_level o) f v o (spell b ++ s) refl
          (starts s)
        ∙ ap (λ r. r >>= λ p. apply o v p.0 >>= λ x. loop_at f x p.1) (parse s fits stops)
        ∙ >>=_assoc (meaning get_var b) _ _

    after_left :
        (s : Bytes) (f : ℕ)
        → length (spell b ++ s) ≤ n
        → Stops (op_level o) s
        → length (op_text o ++ (spell b ++ s)) < f
        → (f' : ℕ) × (length s < f')
          × ((meaning get_var a >>= λ v. loop_at f v (op_text o ++ (spell b ++ s)))
              ≡ (meaning get_var (binary o a b) >>= λ v. loop_at f' v s))
    unfolding meaning
    after_left s zero fits stops enough = elim enough [ ]
    after_left s (suc f) fits stops enough =
        let parts = length-append (op_text o) (spell b ++ s) in
        let last = length-append (spell b) s in
        let some_char = op_text_some o in
        (
          f,
          omega arith,
          (λ i. meaning get_var a >>= λ v. right_operand s f fits stops v i)
              ∙ sym (
                  >>=_assoc (meaning get_var a) (λ x. meaning get_var b >>= apply o x)
                    (λ x. loop_at f x s)
                  ∙ λ i. meaning get_var a >>= λ v.
                      >>=_assoc (meaning get_var b) (apply o v) (λ x. loop_at f x s) i),
        )

  -- A binary tree: the left operand's loop meets the operator.
  pub chain_of_binary :
      (o : Op) (a b : Expr)
      → ChainAt (op_level o) a
      → ParseAt (op_level o) b
      → ((s : Bytes) → StartsOperand (spell b ++ s))
      → ChainAt (op_level o) (binary o a b)
  unfolding spell meaning
  chain_of_binary o a b chain parse starts s fits stops =
      let l = op_level o in
      let t = spell b ++ s in
      let split : spell (binary o a b) ++ s ≡ spell a ++ (op_text o ++ t) =
        append_assoc (spell a) (op_text o ++ spell b) s
        ∙ ap (◌++◌ (spell a)) (append_assoc (op_text o) (spell b) s) in
      let whole = ap length split in
      let parts = length-append (spell a) (op_text o ++ t) in
      let behind = length-append (op_text o) t in
      let last = length-append (spell b) s in
      let (f, enough, run) =
        chain (op_text o ++ t) (omega (arith, whole)) (token-Stops t (starts s) o) in
      let (f', enough', tail) =
        after_left o a b parse starts s f (omega (arith, whole)) stops enough in
      (f', enough', ap (level get_var expr evaluate (suc l)) split ∙ run ∙ tail)
