-- ===== src/Lexer/Words.antt =====
-- The scanners of src/lexer.c move over the line, and their loops come to an end.
use arksh.Base.{
  ap, ℕ, zero, suc, ◌≤◌, ◌<◌, refl, inl, inr, Bool, true, false, ◌&&◌, arith, ◌==◌, if◌then◌else◌,
  length, Bytes,
}
use arksh.Lexer.{
  word_too_long, string_too_long, dangling_escape, dangling_string, Result, ◌>>=◌, Cursor, copy,
  copy_raw, drop_escape,
}
use arksh.Lexer.Chars.{at, is_space}
use arksh.Lexer.Scan.{
  plain, is_quote, arithmetic_loop, scan_arithmetic_expansion, substitution_loop,
  scan_command_substitution, string_loop, scan_string, stop_word, ends_word, word_step, word_loop,
  fresh, scan_word_token, process_loop, scan_process_substitution_token,
}
use arksh.Lexer.Moves.{
  Bounded, Moves, Moves-bind, Moves-if, Rest-cases, copy-Moves, copy_raw-Moves, drop_escape-Moves,
}
use arksh.Lexer.Steps.{
  LoopMoves, onward, one, arithmetic_step-Moves, substitution_step-Moves, process_step-Moves,
  Moves-weaken,
}

arithmetic_loop-Moves : (n : ℕ) → LoopMoves n (arithmetic_loop n)
unfolding arithmetic_loop
arithmetic_loop-Moves zero q depth k b le = elim le [ ]
arithmetic_loop-Moves (suc n) q depth k b le = elim (Rest-cases k.rest) [
  | inl e ↦ rw (e, Moves) tt
  | inr (c, t, e) ↦
      rw (e, Moves)
        (Moves-weaken k _ (
          arithmetic_step-Moves n k b (omega (arith, ap length e)) (omega arith) (arithmetic_loop n)
            (arithmetic_loop-Moves n) q depth c))
]

substitution_loop-Moves : (n : ℕ) → LoopMoves n (substitution_loop n)
unfolding substitution_loop
substitution_loop-Moves zero q depth k b le = elim le [ ]
substitution_loop-Moves (suc n) q depth k b le = elim (Rest-cases k.rest) [
  | inl e ↦ rw (e, Moves) tt
  | inr (c, t, e) ↦
      rw (e, Moves)
        (Moves-weaken k _ (
          substitution_step-Moves n k b (omega (arith, ap length e)) (omega arith)
            (substitution_loop n) (substitution_loop-Moves n) q depth c))
]

process_loop-Moves : (n : ℕ) → LoopMoves n (process_loop n)
unfolding process_loop
process_loop-Moves zero q depth k b le = elim le [ ]
process_loop-Moves (suc n) q depth k b le = elim (Rest-cases k.rest) [
  | inl e ↦ rw (e, Moves) tt
  | inr (c, t, e) ↦
      rw (e, Moves)
        (Moves-weaken k _ (
          process_step-Moves n k b (omega (arith, ap length e)) (omega arith) (process_loop n)
            (process_loop-Moves n) q depth c))
]

string_step-Moves :
    (n quote : ℕ) (k : Cursor) (c : ℕ)
    → Bounded k
    → 1 ≤ length k.rest
    → length k.rest ≤ n
    → ((k1 : Cursor) → Bounded k1 → length k1.rest < n → Moves 0 k1 (string_loop n quote k1))
    → Moves 1 k (
        if c == quote
        then copy_raw 1 k
        else if quote == b'"' && c == b'\\'
        then (do k' ← drop_escape string_too_long dangling_string k; string_loop n quote k')
        else (do k' ← copy 1 string_too_long k; string_loop n quote k'))
string_step-Moves n quote k c b enough le ih =
    Moves-if 1 k (c == quote) _ _ (copy_raw-Moves 1 1 k (omega arith) enough b) (
      Moves-if 1 k (quote == b'"' && c == b'\\') _ _
        (onward n k b enough le _ _
          (drop_escape-Moves string_too_long dangling_string k tt tt b enough) ih)
        (onward n k b enough le _ _ (one n k b enough le string_too_long tt) ih))

string_loop-Moves :
    (n quote : ℕ) (k : Cursor) → Bounded k → length k.rest < n → Moves 0 k (string_loop n quote k)
unfolding string_loop
string_loop-Moves zero quote k b le = elim le [ ]
string_loop-Moves (suc n) quote k b le = elim (Rest-cases k.rest) [
  | inl e ↦ rw (e, Moves) tt
  | inr (c, t, e) ↦
      rw (e, Moves)
        (Moves-weaken k _ (
          string_step-Moves n quote k c b (omega (arith, ap length e)) (omega arith)
            (string_loop-Moves n quote)))
]

-- The parts of a word that `scan_word_token` meets in turn.
module _ (k : Cursor) (b : Bounded k) (enough : 1 ≤ length k.rest) where
  scan_arithmetic_expansion-Moves : Moves 1 k (scan_arithmetic_expansion k)
  unfolding scan_arithmetic_expansion
  scan_arithmetic_expansion-Moves =
      Moves-bind 1 0 1 k _ _ (omega arith)
        (copy-Moves 3 1 k (omega arith) enough b word_too_long tt)
        (λ k1 b1 le. arithmetic_loop-Moves _ plain 1 k1 b1 (omega arith))

  scan_command_substitution-Moves : Moves 1 k (scan_command_substitution k)
  unfolding scan_command_substitution
  scan_command_substitution-Moves =
      Moves-bind 1 0 1 k _ _ (omega arith)
        (copy-Moves 2 1 k (omega arith) enough b word_too_long tt)
        (λ k1 b1 le. substitution_loop-Moves _ plain 1 k1 b1 (omega arith))

  scan_string-Moves : (quote : ℕ) → Moves 1 k (scan_string quote k)
  unfolding scan_string
  scan_string-Moves quote =
      Moves-bind 1 0 1 k _ _ (omega arith) (copy_raw-Moves 1 1 k (omega arith) enough b)
        (λ k1 b1 le. string_loop-Moves _ quote k1 b1 (omega arith))

-- How much of the line a word still has to take.
abbrev owed : Bool → ℕ
owed true = 0
owed false = 1

stop_word-Moves :
    (saw_any : Bool) (start : ℕ) (k : Cursor)
    → Bounded k
    → Moves (owed saw_any) k (stop_word saw_any start k)
unfolding stop_word
stop_word-Moves true start k b = record { same = refl; shorter = omega arith; bounded = b }
stop_word-Moves false start k b = tt

owed-Moves :
    (saw_any : Bool) (k : Cursor) (r : Result Cursor) → Moves 1 k r → Moves (owed saw_any) k r
owed-Moves true k r h = Moves-weaken k r h
owed-Moves false k r h = h

module _ (n : ℕ) (loop : Bool → Cursor → Result Cursor)
    (ih : (k1 : Cursor) → Bounded k1 → length k1.rest < n → Moves 0 k1 (loop true k1)) where
  word_step-Moves :
      (conditional_mode saw_any : Bool) (start : ℕ) (k : Cursor) (c : ℕ)
      → Bounded k
      → 1 ≤ length k.rest
      → length k.rest ≤ n
      → Moves (owed saw_any) k (word_step loop conditional_mode saw_any start k c)
  unfolding word_step
  word_step-Moves mode saw_any start k c b enough le =
      let part : (r : Result Cursor) → Moves 1 k r → Moves (owed saw_any) k (r >>= loop true) =
        λ r h. owed-Moves saw_any k _ (onward n k b enough le r (loop true) h ih) in
      let stop = stop_word-Moves saw_any start k b in
      Moves-if _ k (c == b'$' && at k.rest 1 b'(' && at k.rest 2 b'(') _ _
        (part _ (scan_arithmetic_expansion-Moves k b enough))
        (Moves-if _ k (c == b'$' && at k.rest 1 b'(') _ _
          (part _ (scan_command_substitution-Moves k b enough))
          (Moves-if _ k (is_space c) _ _ stop (
            Moves-if _ k (ends_word mode k.rest) _ _ stop (
              Moves-if _ k (c == b'\\') _ _
                (part _ (drop_escape-Moves word_too_long dangling_escape k tt tt b enough))
                (Moves-if _ k (is_quote c) _ _ (part _ (scan_string-Moves k b enough c))
                  (part _ (one n k b enough le word_too_long tt)))))))

word_loop-Moves :
    (n : ℕ) (conditional_mode : Bool) (start : ℕ) (saw_any : Bool) (k : Cursor)
    → Bounded k
    → length k.rest < n
    → Moves (owed saw_any) k (word_loop n conditional_mode start saw_any k)
unfolding word_loop
word_loop-Moves zero mode start saw_any k b le = elim le [ ]
word_loop-Moves (suc n) mode start saw_any k b le = elim (Rest-cases k.rest) [
  | inl e ↦ rw (e, Moves) (stop_word-Moves saw_any start k b)
  | inr (c, t, e) ↦
      rw (e, Moves)
        (word_step-Moves n (word_loop n mode start) (word_loop-Moves n mode start true) mode saw_any
          start k c b (omega (arith, ap length e)) (omega arith))
]

fresh-Bounded : (rest : Bytes) → Bounded (fresh rest)
fresh-Bounded rest = (omega arith, omega arith)

-- `scan_word_token` ends; it either fails with one of its messages, or has taken at least one
-- character, and what it took of the line stands in `raw`, within the buffer.
pub scan_word_token-Moves :
    (conditional_mode : Bool) (start : ℕ) (rest : Bytes)
    → Moves 1 (fresh rest) (scan_word_token conditional_mode start rest)
unfolding scan_word_token
scan_word_token-Moves mode start rest =
    word_loop-Moves _ mode start false (fresh rest) (fresh-Bounded rest) (omega arith)

-- `scan_process_substitution_token` ends on a rest of the line that is not empty; it either fails
-- with one of its messages, or what it took of the line stands in `raw`, within the buffer.
pub scan_process_substitution_token-Moves :
    (rest : Bytes) → 1 ≤ length rest → Moves 1 (fresh rest) (scan_process_substitution_token rest)
unfolding scan_process_substitution_token
scan_process_substitution_token-Moves rest enough =
    Moves-if 1 (fresh rest) (at rest 1 b'(') _ _
      (Moves-bind 1 0 1 (fresh rest) _ _ (omega arith)
        (copy_raw-Moves 2 1 (fresh rest) (omega arith) enough (fresh-Bounded rest))
        (λ k1 b1 le. process_loop-Moves _ plain 1 k1 b1 (omega arith)))
      tt
