-- ===== src/Lexer/Line.antt =====
-- `arksh_lex_line` of src/lexer.c: the loop over a line, and the flags that it keeps.
use arksh.Base.{
  ℕ, zero, suc, ◌+◌, Bool, true, false, not, ◌&&◌, ◌||◌, Option, none, some, List, [], ◌∷◌, ◌++◌,
  leb, ◌==◌, if◌then◌else◌, length, take, drop, Bytes, copy_string, max_token,
}
use arksh.Lexer.{
  Kind, eof, word, arrow, object_pipe, shell_pipe, redirect_in, redirect_out, redirect_append,
  proc_subst_in, proc_subst_out, here_string, heredoc, heredoc_strip, redirect_error,
  redirect_error_append, redirect_error_to_output, and_if, or_if, sequence, background, lparen,
  rparen, comma, too_many_tokens, fd_too_long, unterminated_conditional, out_of_fuel, Result, ok,
  err, ◌>>=◌, Token, Cursor,
}
use arksh.Lexer.Chars.{at, is_space, match_fd_redirection_token}
use arksh.Lexer.Scan.{scan_word_token, scan_process_substitution_token}

-- ARKSH_MAX_LEXER_TOKENS
abbrev pub max_tokens : ℕ
max_tokens = 128

-- The variables of the loop; `rest` is `line + i`.
pub record LexState : Type 0 where
  pub tokens : List Token
  pub in_double_bracket : Bool
  pub command_word_allowed : Bool
  pub pending_redirect_target : Bool
  pub rest : Bytes
  pub i : ℕ

-- `push_token`; the stream is the list of its first `count` tokens.
unfoldable pub push_token : List Token → Kind → Bytes → Bytes → ℕ → Result (List Token)
push_token tokens kind text raw position =
    if leb max_tokens (length tokens)
    then err too_many_tokens
    else ok (
        tokens
        ++ record {
          kind = kind;
          text = copy_string max_token text;
          raw = copy_string max_token raw;
          position = position;
        }
          ∷ [])

-- A token for the next `n` characters, as its `text` and its `raw`, and `i += n`.
unfoldable pub push_characters : Kind → ℕ → LexState → Result LexState
unfolding push_token
push_characters kind n l = do
  tokens ← push_token l.tokens kind (take n l.rest) (take n l.rest) l.i
  ok (record l { tokens = tokens; rest = drop n l.rest; i = l.i + n })

-- The token that a scanner writes to `&tokens[count]`, and `count++`. Its text is `cooked` for a
-- word and `raw` for a process substitution.
unfoldable pub push_scanned : Kind → (Cursor → Bytes) → LexState → Result Cursor → Result LexState
unfolding push_token
push_scanned kind text_of l scan =
    if leb max_tokens (length l.tokens) then err too_many_tokens else (do
      k ← scan
      tokens ← push_token l.tokens kind (text_of k) k.raw l.i
      ok (record l { tokens = tokens; rest = k.rest; i = l.i + length k.raw }))

abbrev pub starts_process : ℕ → Bytes → Bool
starts_process c s = (c == b'<' || c == b'>') && at s 1 b'('

abbrev pub process_kind : ℕ → Kind
process_kind c = if c == b'<' then proc_subst_in else proc_subst_out

-- The body of `if (in_double_bracket)`.
unfoldable pub conditional_step : LexState → ℕ → Result LexState
unfolding push_characters push_scanned scan_word_token scan_process_substitution_token
conditional_step l c =
    if starts_process c l.rest
    then push_scanned (process_kind c) (λ k. k.raw) l (scan_process_substitution_token l.rest)
    else if c == b']' && at l.rest 1 b']'
    then (do
      l' ← push_characters word 2 l
      ok (record l' {
        in_double_bracket = false;
        command_word_allowed = false;
        pending_redirect_target = false;
      }))
    else if c == b'&' && at l.rest 1 b'&'
    then push_characters word 2 l
    else if c == b'|' && at l.rest 1 b'|'
    then push_characters word 2 l
    else if c == b'!' || c == b'(' || c == b')'
    then push_characters word 1 l
    else push_scanned word (λ k. k.cooked) l (scan_word_token true l.i l.rest)

-- What an operator does to `command_word_allowed` and `pending_redirect_target`.
pub data Effect : Type 0 where
  keep new_command end_operand want_target no_target : Effect

unfoldable pub apply_effect : Effect → LexState → LexState
apply_effect keep l = l
apply_effect new_command l = record l {
  command_word_allowed = true;
  pending_redirect_target = false;
}
apply_effect end_operand l = record l {
  command_word_allowed = false;
  pending_redirect_target = false;
}
apply_effect want_target l = record l { pending_redirect_target = true }
apply_effect no_target l = record l { pending_redirect_target = false }

-- The operators in the order in which the loop tries them: kind, characters and effect.
unfoldable pub operator_at : ℕ → Bytes → Option (Kind × ℕ × Effect)
operator_at c s =
    if c == b'|' && at s 1 b'>'
    then some (object_pipe, 2, new_command)
    else if c == b'|' && at s 1 b'|'
    then some (or_if, 2, new_command)
    else if c == b'-' && at s 1 b'>'
    then some (arrow, 2, keep)
    else if c == b'|'
    then some (shell_pipe, 1, new_command)
    else if c == b'&' && at s 1 b'&'
    then some (and_if, 2, new_command)
    else if c == b'&'
    then some (background, 1, new_command)
    else if c == b';'
    then some (sequence, 1, new_command)
    else if c == b'2' && at s 1 b'>' && at s 2 b'&' && at s 3 b'1'
    then some (redirect_error_to_output, 4, no_target)
    else if c == b'2' && at s 1 b'>' && at s 2 b'>'
    then some (redirect_error_append, 3, want_target)
    else if c == b'2' && at s 1 b'>'
    then some (redirect_error, 2, want_target)
    else if c == b'<' && at s 1 b'<' && at s 2 b'<'
    then some (here_string, 3, want_target)
    else if c == b'<' && at s 1 b'<' && at s 2 b'-'
    then some (heredoc_strip, 3, want_target)
    else if c == b'<' && at s 1 b'<'
    then some (heredoc, 2, want_target)
    else if c == b'>' && at s 1 b'>'
    then some (redirect_append, 2, want_target)
    else if c == b'>'
    then some (redirect_out, 1, want_target)
    else if c == b'<'
    then some (redirect_in, 1, want_target)
    else if c == b'('
    then some (lparen, 1, new_command)
    else if c == b')'
    then some (rparen, 1, end_operand)
    else if c == b','
    then some (comma, 1, keep)
    else none

-- `if (pending_redirect_target > 0) … else command_word_allowed = 0;`
unfoldable pub after_word : LexState → LexState
after_word l =
    if l.pending_redirect_target
    then record l { pending_redirect_target = false }
    else record l { command_word_allowed = false }

-- From the operators on: one of them, or a word.
unfoldable pub operator_or_word : LexState → Option (Kind × ℕ × Effect) → Result LexState
unfolding push_characters push_scanned apply_effect after_word scan_word_token
operator_or_word l none = do
  l' ← push_scanned word (λ k. k.cooked) l (scan_word_token false l.i l.rest)
  ok (after_word l')
operator_or_word l (some (kind, n, effect)) = do
  l' ← push_characters kind n l
  ok (apply_effect effect l')

-- `match_fd_redirection_token(…) == 0`, or the process substitutions and what follows them.
unfoldable pub redirection_step : LexState → ℕ → Option (Kind × ℕ) → Result LexState
unfolding push_characters push_scanned scan_process_substitution_token operator_or_word
redirection_step l c (some (kind, n)) =
    if leb max_token n
    then err fd_too_long
    else (do l' ← push_characters kind n l; ok (record l' { pending_redirect_target = true }))
redirection_step l c none =
    if starts_process c l.rest
    then (do
      l' ← push_scanned (process_kind c) (λ k. k.raw) l (scan_process_substitution_token l.rest)
      ok (record l' { pending_redirect_target = false; command_word_allowed = false }))
    else operator_or_word l (operator_at c l.rest)

-- `i + 2 == len || isspace(line[i + 2]) || line[i + 2] == '!' || line[i + 2] == '('`
abbrev pub ends_double_bracket : Bytes → Bool
ends_double_bracket [] = true
ends_double_bracket (c ∷ s) = is_space c || c == b'!' || c == b'('

-- One turn of the loop, at the character `c`.
unfoldable pub lex_step : LexState → ℕ → Result LexState
unfolding conditional_step push_characters redirection_step operator_at match_fd_redirection_token
lex_step l c =
    if is_space c
    then ok (record l { rest = drop 1 l.rest; i = l.i + 1 })
    else if l.in_double_bracket
    then conditional_step l c
    else if l.command_word_allowed
        && not l.pending_redirect_target
        && (c == b'[' && at l.rest 1 b'[')
        && ends_double_bracket (drop 2 l.rest)
    then (do
      l' ← push_characters word 2 l
      ok (record l' { in_double_bracket = true; command_word_allowed = false }))
    else redirection_step l c (match_fd_redirection_token l.rest)

-- After the loop; `i == len`.
unfoldable pub finish : LexState → Result (List Token)
unfolding push_token
finish l =
    if l.in_double_bracket then err unterminated_conditional else push_token l.tokens eof [] [] l.i

unfoldable pub lex_loop : ℕ → LexState → Result (List Token)
unfolding lex_step finish
lex_loop zero l = err out_of_fuel
lex_loop (suc fuel) l = elim l.rest [
  | [] ↦ finish l
  | c ∷ s ↦ (do l' ← lex_step l c; lex_loop fuel l')
]

abbrev pub start_of : Bytes → LexState
start_of line = record {
  tokens = [];
  in_double_bracket = false;
  command_word_allowed = true;
  pending_redirect_target = false;
  rest = line;
  i = 0;
}

-- `arksh_lex_line`
unfoldable pub arksh_lex_line : Bytes → Result (List Token)
unfolding lex_loop
arksh_lex_line line = lex_loop (length line + 1) (start_of line)
