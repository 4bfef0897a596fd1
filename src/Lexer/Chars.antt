-- ===== src/Lexer/Chars.antt =====
-- Character tests of src/lexer.c: what begins an operator.
use arksh.Base.{
  ℕ, zero, suc, ◌+◌, Bool, true, false, ◌&&◌, ◌||◌, Option, none, some, [], ◌∷◌, leb, ◌==◌,
  if◌then◌else◌, Bytes,
}
use arksh.Lexer.{
  Kind, redirect_fd_in, redirect_fd_out, redirect_fd_append, redirect_dup_in, redirect_dup_out,
}

-- `index + k < len && line[index + k] == c`
abbrev pub at : Bytes → ℕ → ℕ → Bool
at [] k c = false
at (x ∷ s) zero c = x == c
at (x ∷ s) (suc k) c = at s k c

-- `isspace` and `isdigit` of the C locale.
abbrev pub is_space : ℕ → Bool
is_space c = c == 32 || (leb 9 c && leb c 13)

abbrev pub is_digit : ℕ → Bool
is_digit c = leb b'0' c && leb c b'9'

-- What follows the digits: the kind and how many characters the operator takes.
unfoldable pub fd_operator : Bytes → Option (Kind × ℕ)
fd_operator s =
    if at s 0 b'>' && at s 1 b'&'
    then some (redirect_dup_out, 2)
    else if at s 0 b'<' && at s 1 b'&'
    then some (redirect_dup_in, 2)
    else if at s 0 b'>' && at s 1 b'>'
    then some (redirect_fd_append, 2)
    else if at s 0 b'>'
    then some (redirect_fd_out, 1)
    else if at s 0 b'<'
    then some (redirect_fd_in, 1)
    else none

-- `while (cursor < len && isdigit(line[cursor])) cursor++;`, then the operator.
unfoldable pub after_digits : ℕ → Bytes → Option (Kind × ℕ)
unfolding fd_operator
after_digits n [] = none
after_digits n (c ∷ s) =
    let later = after_digits (n + 1) s in
    if is_digit c
    then later
    else elim (fd_operator (c ∷ s)) [ none ↦ none | some (kind, m) ↦ some (kind, n + m) ]

-- `match_fd_redirection_token`: `none` for status 1.
unfoldable pub match_fd_redirection_token : Bytes → Option (Kind × ℕ)
unfolding after_digits
match_fd_redirection_token [] = none
match_fd_redirection_token (c ∷ s) = if is_digit c then after_digits 0 (c ∷ s) else none

abbrev pub is_some : Option (Kind × ℕ) → Bool
is_some none = false
is_some (some p) = true

unfoldable pub is_special_token_start : Bytes → Bool
unfolding match_fd_redirection_token
is_special_token_start [] = false
is_special_token_start (c ∷ r) =
    let s = c ∷ r in
    is_some (match_fd_redirection_token s)
    || ((c == b'<' || c == b'>') && at s 1 b'(')
    || (c == b'|' && at s 1 b'>')
    || (c == b'|' && at s 1 b'|')
    || (c == b'-' && at s 1 b'>')
    || (c == b'&' && at s 1 b'&')
    || (c == b'2' && at s 1 b'>' && at s 2 b'&' && at s 3 b'1')
    || (c == b'2' && at s 1 b'>' && at s 2 b'>')
    || (c == b'2' && at s 1 b'>')
    || (c == b'<' && at s 1 b'<' && at s 2 b'-')
    || (c == b'<' && at s 1 b'<')
    || (c == b'|'
        || c == b'&'
        || c == b';'
        || c == b'<'
        || c == b'>'
        || c == b'('
        || c == b')'
        || c == b',')

-- The `break`s of `scan_word_token` in conditional mode.
unfoldable pub ends_conditional_word : Bytes → Bool
ends_conditional_word s =
    (at s 0 b']' && at s 1 b']')
    || (at s 0 b'&' && at s 1 b'&')
    || (at s 0 b'|' && at s 1 b'|')
    || at s 0 b'!'
    || at s 0 b'('
    || at s 0 b')'
