-- ===== src/Lexer/Steps.antt =====
-- One turn of each scanner's loop of src/lexer.c moves over the line.
use arksh.Base.{ℕ, zero, suc, ◌+◌, ◌-◌, ◌≤◌, ◌<◌, refl, ◌&&◌, arith, ◌==◌, length}
use arksh.Lexer.{
  Error, word_too_long, dangling_arithmetic, dangling_substitution, dangling_process, Result, ok,
  err, ◌>>=◌, Cursor, copy,
}
use arksh.Lexer.Chars.{at}
use arksh.Lexer.Scan.{
  Quote, plain, single, double, is_quote, quote_of, unless_closed, Loop, close_arithmetic,
  arithmetic_step, after_character, substitution_step, process_step,
}
use arksh.Lexer.Moves.{
  NotFuel, Bounded, Moves, Moves-bind, Moves-if, copy-Moves, copy_raw-Moves, copy_escape-Moves,
  drop_escape-Moves,
}

-- The loop with `n` units of fuel, on fewer characters than that.
abbrev pub LoopMoves : ℕ → Loop → Type 0
LoopMoves n loop =
    (q : Quote) (depth : ℕ) (k : Cursor)
    → Bounded k
    → length k.rest < n
    → Moves 0 k (loop q depth k)

-- A step that takes at least one character and goes on with `f`.
module _ (n : ℕ) (k : Cursor) (b : Bounded k) (enough : 1 ≤ length k.rest)
    (fuel : length k.rest ≤ n) where
  pub onward :
      (r : Result Cursor) (f : Cursor → Result Cursor)
      → Moves 1 k r
      → ((k1 : Cursor) → Bounded k1 → length k1.rest < n → Moves 0 k1 (f k1))
      → Moves 1 k (r >>= f)
  onward r f h g = Moves-bind 1 0 1 k r f (omega arith) h (λ k1 b1 le. g k1 b1 (omega arith))

  pub one : (label : Error) → NotFuel label → Moves 1 k (copy 1 label k)
  one label f = copy-Moves 1 1 k (omega arith) enough b label f

  module _ (loop : Loop) (ih : LoopMoves n loop) where
    one_and : (q : Quote) (depth : ℕ) → Moves 1 k (copy 1 word_too_long k >>= loop q depth)
    one_and q depth = onward _ _ (one word_too_long tt) (ih q depth)

    close_arithmetic-Moves :
        (depth : ℕ) (k1 : Cursor)
        → Bounded k1
        → length k1.rest < n
        → Moves 0 k1 (close_arithmetic loop depth k1)
    unfolding close_arithmetic
    close_arithmetic-Moves zero k1 b1 le = record {
      same = refl;
      shorter = omega arith;
      bounded = b1;
    }
    close_arithmetic-Moves (suc zero) k1 b1 le = record {
      same = refl;
      shorter = omega arith;
      bounded = b1;
    }
    close_arithmetic-Moves (suc (suc depth)) k1 b1 le = ih plain (suc depth) k1 b1 le

    pub arithmetic_step-Moves :
        (q : Quote) (depth c : ℕ) → Moves 1 k (arithmetic_step loop q depth k c)
    unfolding arithmetic_step
    arithmetic_step-Moves plain depth c =
        Moves-if 1 k (is_quote c) _ _ (one_and (quote_of c) depth) (
          Moves-if 1 k (c == b'\\') _ _
            (onward _ _ (copy_escape-Moves word_too_long dangling_arithmetic k tt tt b enough)
              (ih plain depth))
            (Moves-if 1 k (c == b'$' && at k.rest 1 b'(' && at k.rest 2 b'(') _ _
              (onward _ _ (copy-Moves 3 1 k (omega arith) enough b word_too_long tt)
                (ih plain (depth + 1)))
              (Moves-if 1 k (c == b')' && at k.rest 1 b')') _ _
                (onward _ _ (copy-Moves 2 1 k (omega arith) enough b word_too_long tt)
                  (close_arithmetic-Moves depth))
                (one_and plain depth))))
    arithmetic_step-Moves single depth c = one_and (unless_closed c b'\'' single) depth
    arithmetic_step-Moves double depth c =
        Moves-if 1 k (c == b'\\') _ _
          (onward _ _ (copy_escape-Moves word_too_long dangling_arithmetic k tt tt b enough)
            (ih double depth))
          (one_and (unless_closed c b'"' double) depth)

    after_character-Moves :
        (q : Quote) (depth : ℕ) (k1 : Cursor)
        → Bounded k1
        → length k1.rest < n
        → Moves 0 k1 (after_character loop q depth k1)
    unfolding after_character
    after_character-Moves plain zero k1 b1 le = record {
      same = refl;
      shorter = omega arith;
      bounded = b1;
    }
    after_character-Moves plain (suc depth) k1 b1 le = ih plain (suc depth) k1 b1 le
    after_character-Moves single depth k1 b1 le = ih single depth k1 b1 le
    after_character-Moves double depth k1 b1 le = ih double depth k1 b1 le

    one_then :
        (q : Quote) (depth : ℕ)
        → Moves 1 k (copy 1 word_too_long k >>= after_character loop q depth)
    one_then q depth = onward _ _ (one word_too_long tt) (after_character-Moves q depth)

    pub substitution_step-Moves :
        (q : Quote) (depth c : ℕ) → Moves 1 k (substitution_step loop q depth k c)
    unfolding substitution_step
    substitution_step-Moves plain depth c =
        Moves-if 1 k (is_quote c) _ _ (one_then (quote_of c) depth) (
          Moves-if 1 k (c == b'\\') _ _
            (onward _ _ (drop_escape-Moves word_too_long dangling_substitution k tt tt b enough)
              (after_character-Moves plain depth))
            (Moves-if 1 k (c == b'$' && at k.rest 1 b'(') _ _ (one_then plain (depth + 1))
              (Moves-if 1 k (c == b')') _ _ (one_then plain (depth - 1)) (one_then plain depth))))
    substitution_step-Moves single depth c = one_then (unless_closed c b'\'' single) depth
    substitution_step-Moves double depth c =
        Moves-if 1 k (c == b'\\') _ _
          (onward _ _ (drop_escape-Moves word_too_long dangling_substitution k tt tt b enough)
            (after_character-Moves double depth))
          (one_then (unless_closed c b'"' double) depth)

    pub process_step-Moves : (q : Quote) (depth c : ℕ) → Moves 1 k (process_step loop q depth k c)
    unfolding process_step
    process_step-Moves plain depth c = Moves-if 1 k (is_quote c) _ _ (one_and (quote_of c) depth) (
        Moves-if 1 k (c == b'\\') _ _
          (onward _ _ (copy_escape-Moves word_too_long dangling_process k tt tt b enough)
            (ih plain depth))
          (Moves-if 1 k (c == b'(') _ _ (one_and plain (depth + 1)) (
            Moves-if 1 k (c == b')') _ _
              (Moves-if 1 k (depth == 1) _ _ (copy_raw-Moves 1 1 k (omega arith) enough b)
                (one_and plain (depth - 1)))
              (one_and plain depth))))
    process_step-Moves single depth c = one_and (unless_closed c b'\'' single) depth
    process_step-Moves double depth c =
        Moves-if 1 k (c == b'\\') _ _
          (onward _ _ (copy_escape-Moves word_too_long dangling_process k tt tt b enough)
            (ih double depth))
          (one_and (unless_closed c b'"' double) depth)

pub Moves-weaken : (k : Cursor) (r : Result Cursor) → Moves 1 k r → Moves 0 k r
Moves-weaken k (err e) h = h
Moves-weaken k (ok k1) h = record {
  same = h.same;
  shorter = omega (arith, h.shorter);
  bounded = h.bounded;
}
