-- ===== src/Lexer/Tests.antt =====
-- Runs of the lexer, and the theorems at lines where they apply.
use arksh.Base.{some, ◌≡◌, refl, false, List, [], ◌∷◌, map, arith, codes, Bytes}
use arksh.Lexer.{
  Kind, eof, word, redirect_dup_out, shell_pipe, lparen, rparen, and_if, unterminated_conditional,
  invalid_process_start, unterminated_string, Result, ok, err, ◌>>=◌, Token,
}
use arksh.Lexer.Scan.{fresh, scan_word_token, scan_process_substitution_token}
use arksh.Lexer.Chars.{match_fd_redirection_token}
use arksh.Lexer.Operators.{error_redirection, redirected, match_fd_redirection_token-error}
use arksh.Lexer.Line.{start_of, lex_step, arksh_lex_line}
use arksh.Lexer.Moves.{Moves}
use arksh.Lexer.Words.{scan_word_token-Moves, scan_process_substitution_token-Moves}
use arksh.Lexer.Covers.{Lexed, arksh_lex_line-Lexed}

abbrev kinds : Result (List Token) → Result (List Kind)
kinds r = do ts ← r; ok (map (λ t. t.kind) ts)

abbrev texts : Result (List Token) → Result (List Bytes)
texts r = do ts ← r; ok (map (λ t. t.text) ts)

pipeline :
    kinds (arksh_lex_line (codes "echo hi 2>&1 | (wc)"))
    ≡ ok (word ∷ word ∷ redirect_dup_out ∷ word ∷ shell_pipe ∷ lparen ∷ word ∷ rparen ∷ eof ∷ [])
unfolding arksh_lex_line
pipeline = refl

conditional :
    kinds (arksh_lex_line (codes "[[ a && b ]] && c"))
    ≡ ok (word ∷ word ∷ word ∷ word ∷ word ∷ and_if ∷ word ∷ eof ∷ [])
unfolding arksh_lex_line
conditional = refl

quoted :
    texts (arksh_lex_line (codes "a'b c'$(d \")\" e)$((1+2))"))
    ≡ ok (codes "ab c$(d \")\" e)$((1+2))" ∷ [] ∷ [])
unfolding arksh_lex_line
quoted = refl

-- The first `))` ends the expansion, so an inner parenthesis before it leaves a stray `)`.
nested_parenthesis :
    texts (arksh_lex_line (codes "$((1+(2)))")) ≡ ok (codes "$((1+(2))" ∷ codes ")" ∷ [] ∷ [])
unfolding arksh_lex_line
nested_parenthesis = refl

open_conditional : arksh_lex_line (codes "[[ a") ≡ err unterminated_conditional
unfolding arksh_lex_line
open_conditional = refl

open_string : arksh_lex_line (codes "a 'b") ≡ err unterminated_string
unfolding arksh_lex_line
open_string = refl

abbrev a_line : Bytes
a_line = codes "ls <(sort \"a b\") | x"

arksh_lex_line-Lexed_example : Lexed a_line (arksh_lex_line a_line)
arksh_lex_line-Lexed_example = arksh_lex_line-Lexed a_line

scan_word_token-Moves_example :
    Moves 1 (fresh (codes "a$(b)c d")) (scan_word_token false 0 (codes "a$(b)c d"))
scan_word_token-Moves_example = scan_word_token-Moves false 0 (codes "a$(b)c d")

scan_process_substitution_token-Moves_example :
    Moves 1 (fresh (codes "<(a)")) (scan_process_substitution_token (codes "<(a)"))
scan_process_substitution_token-Moves_example =
    scan_process_substitution_token-Moves (codes "<(a)") (omega arith)

match_fd_redirection_token-error_example :
    (match_fd_redirection_token (codes "2>&1") ≡ some (error_redirection (codes "&1")))
    × (lex_step (start_of (codes "2>&1")) b'2'
        ≡ redirected (start_of (codes "2>&1")) (error_redirection (codes "&1")))
match_fd_redirection_token-error_example =
    match_fd_redirection_token-error (codes "&1") (start_of (codes "2>&1")) refl refl

no_process : scan_process_substitution_token (codes "ab)") ≡ err invalid_process_start
unfolding scan_process_substitution_token
no_process = refl
