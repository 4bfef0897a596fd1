-- ===== src/Lexer/Operators.antt =====
-- The operators of `arksh_lex_line` lie within what is left of the line.
use arksh.Base.{
  ◌∙◌, ap, ℕ, zero, suc, ◌+◌, ◌≤◌, ◌≡◌, refl, Bool, true, false, ◌&&◌, Option, none, some, [], ◌∷◌,
  arith, ◌==◌, if◌then◌else◌, length, Bytes,
}
use arksh.Lexer.{Result, ok, ◌>>=◌, Kind, redirect_fd_out, redirect_fd_append, redirect_dup_out}
use arksh.Lexer.Chars.{at, is_digit, fd_operator, after_digits, match_fd_redirection_token}
use arksh.Lexer.Line.{push_characters, Effect, LexState, operator_at, redirection_step, lex_step}

at-Within : (s : Bytes) (k c : ℕ) → at s k c ≡ true → suc k ≤ length s
at-Within [] k c e = ground arith
at-Within (x ∷ s) zero c e = omega arith
at-Within (x ∷ s) (suc k) c e = omega (arith, at-Within s k c e)

pub and_right : (a b : Bool) → (a && b) ≡ true → b ≡ true
and_right true b e = e
and_right false b e = ground arith

pub and_left : (a b : Bool) → (a && b) ≡ true → a ≡ true
and_left true b e = refl
and_left false b e = ground arith

-- From one character on, and within the line.
abbrev pub Within : Bytes → ℕ → Type 0
Within s n = (1 ≤ n) × (n ≤ length s)

abbrev pub ShortWithin : Bytes → ℕ → Type 0
ShortWithin s n = Within s n × (n ≤ 4)

abbrev pub OperatorWithin : Bytes → Option (Kind × ℕ × Effect) → Type 0
OperatorWithin s none = Unit
OperatorWithin s (some (kind, n, effect)) = ShortWithin s n

Within-if :
    (s : Bytes) (b : Bool) (x y : Option (Kind × ℕ × Effect))
    → (b ≡ true → OperatorWithin s x)
    → OperatorWithin s y
    → OperatorWithin s (if b then x else y)
Within-if s true x y h g = h refl
Within-if s false x y h g = g

module _ (c : ℕ) (s : Bytes) (enough : 1 ≤ length s) where
  one_character : ShortWithin s 1
  one_character = ((omega arith, enough), omega arith)

  pub second : (a : Bool) (x : ℕ) → (a && at s 1 x) ≡ true → ShortWithin s 2
  second a x e = ((omega arith, at-Within s 1 x (and_right a _ e)), omega arith)

  third : (a : Bool) (x y : ℕ) → ((a && at s 1 x) && at s 2 y) ≡ true → ShortWithin s 3
  third a x y e = ((omega arith, at-Within s 2 y (and_right (a && at s 1 x) _ e)), omega arith)

  fourth :
      (a : Bool) (x y z : ℕ) → (((a && at s 1 x) && at s 2 y) && at s 3 z) ≡ true → ShortWithin s 4
  fourth a x y z e =
      ((omega arith, at-Within s 3 z (and_right ((a && at s 1 x) && at s 2 y) _ e)), omega arith)

  pub operator_at-Within : OperatorWithin s (operator_at c s)
  unfolding operator_at
  operator_at-Within = Within-if s (c == b'|' && at s 1 b'>') _ _ (second _ _) (
      Within-if s (c == b'|' && at s 1 b'|') _ _ (second _ _) (
        Within-if s (c == b'-' && at s 1 b'>') _ _ (second _ _) (
          Within-if s (c == b'|') _ _ (λ e. one_character)
            (Within-if s (c == b'&' && at s 1 b'&') _ _ (second _ _) (
              Within-if s (c == b'&') _ _ (λ e. one_character)
                (Within-if s (c == b';') _ _ (λ e. one_character)
                  (Within-if s (c == b'2' && at s 1 b'>' && at s 2 b'&' && at s 3 b'1') _ _
                    (fourth _ _ _ _)
                    (Within-if s (c == b'2' && at s 1 b'>' && at s 2 b'>') _ _ (third _ _ _) (
                      Within-if s (c == b'2' && at s 1 b'>') _ _ (second _ _) (
                        Within-if s (c == b'<' && at s 1 b'<' && at s 2 b'<') _ _ (third _ _ _) (
                          Within-if s (c == b'<' && at s 1 b'<' && at s 2 b'-') _ _ (third _ _ _) (
                            Within-if s (c == b'<' && at s 1 b'<') _ _ (second _ _) (
                              Within-if s (c == b'>' && at s 1 b'>') _ _ (second _ _) (
                                Within-if s (c == b'>') _ _ (λ e. one_character)
                                  (Within-if s (c == b'<') _ _ (λ e. one_character)
                                    (Within-if s (c == b'(') _ _ (λ e. one_character)
                                      (Within-if s (c == b')') _ _ (λ e. one_character)
                                        (Within-if s (c == b',') _ _ (λ e. one_character)
                                          (tt)))))))))))))))))))

-- The digits before the operator of a redirection are `n` characters.
abbrev pub RedirectionWithin : ℕ → Bytes → Option (Kind × ℕ) → Type 0
RedirectionWithin n s none = Unit
RedirectionWithin n s (some (kind, m)) = (n + 1 ≤ m) × (m ≤ n + length s)

RedirectionWithin-if :
    (n : ℕ) (s : Bytes) (b : Bool) (x y : Option (Kind × ℕ))
    → (b ≡ true → RedirectionWithin n s x)
    → RedirectionWithin n s y
    → RedirectionWithin n s (if b then x else y)
RedirectionWithin-if n s true x y h g = h refl
RedirectionWithin-if n s false x y h g = g

fd_operator-Within : (s : Bytes) → RedirectionWithin 0 s (fd_operator s)
unfolding fd_operator
fd_operator-Within s =
    let two : (x y : ℕ) → (at s 0 x && at s 1 y) ≡ true → (0 + 1 ≤ 2) × (2 ≤ 0 + length s) =
      λ x y e. (omega arith, omega (arith, at-Within s 1 y (and_right (at s 0 x) _ e))) in
    let first : (x : ℕ) → at s 0 x ≡ true → (0 + 1 ≤ 1) × (1 ≤ 0 + length s) =
      λ x e. (omega arith, omega (arith, at-Within s 0 x e)) in
    RedirectionWithin-if 0 s (at s 0 b'>' && at s 1 b'&') _ _ (two _ _) (
      RedirectionWithin-if 0 s (at s 0 b'<' && at s 1 b'&') _ _ (two _ _) (
        RedirectionWithin-if 0 s (at s 0 b'>' && at s 1 b'>') _ _ (two _ _) (
          RedirectionWithin-if 0 s (at s 0 b'>') _ _ (first _)
            (RedirectionWithin-if 0 s (at s 0 b'<') _ _ (first _) tt))))

after_operator :
    (n : ℕ) (s : Bytes) (o : Option (Kind × ℕ))
    → RedirectionWithin 0 s o
    → RedirectionWithin n s (elim o [ none ↦ none | some (kind, m) ↦ some (kind, n + m) ])
after_operator n s none h = tt
after_operator n s (some (kind, m)) h = (omega arith, omega arith)

one_more :
    (n c : ℕ) (s : Bytes) (o : Option (Kind × ℕ))
    → RedirectionWithin (n + 1) s o
    → RedirectionWithin n (c ∷ s) o
one_more n c s none h = tt
one_more n c s (some (kind, m)) h = (omega arith, omega arith)

after_digits-Within : (n : ℕ) (s : Bytes) → RedirectionWithin n s (after_digits n s)
unfolding after_digits
after_digits-Within n [] = tt
after_digits-Within n (c ∷ s) =
    RedirectionWithin-if n (c ∷ s) (is_digit c) _ _
      (λ e. one_more n c s _ (after_digits-Within (n + 1) s))
      (after_operator n (c ∷ s) _ (fd_operator-Within (c ∷ s)))

pub match_fd_redirection_token-Within :
    (s : Bytes) → RedirectionWithin 0 s (match_fd_redirection_token s)
unfolding match_fd_redirection_token
match_fd_redirection_token-Within [] = tt
match_fd_redirection_token-Within (c ∷ s) =
    RedirectionWithin-if 0 (c ∷ s) (is_digit c) _ _ (λ e. after_digits-Within 0 (c ∷ s)) tt

-- What `2>` stands for with what follows it, by the descriptors of a redirection.
abbrev pub error_redirection : Bytes → Kind × ℕ
error_redirection [] = (redirect_fd_out, 2)
error_redirection (c ∷ s) =
    if c == b'&'
    then (redirect_dup_out, 3)
    else if c == b'>'
    then (redirect_fd_append, 3)
    else (redirect_fd_out, 2)

error_matched :
    (s : Bytes) → match_fd_redirection_token (b'2' ∷ b'>' ∷ s) ≡ some (error_redirection s)
unfolding match_fd_redirection_token fd_operator
error_matched [] = refl
error_matched (c ∷ s) = ground arith

-- The token is pushed, and the next word is the target of the redirection.
abbrev pub redirected : LexState → Kind × ℕ → Result LexState
redirected l (kind, n) = do
  l' ← push_characters kind n l
  ok (record l' { pending_redirect_target = true })

redirection_step-error :
    (l : LexState) (s : Bytes)
    → redirection_step l b'2' (some (error_redirection s)) ≡ redirected l (error_redirection s)
unfolding redirection_step
redirection_step-error l [] = refl
redirection_step-error l (c ∷ s) = by_tests (c == b'&') (c == b'>')
  where
    by_tests :
        (x y : Bool)
        → redirection_step l b'2' (
            some (
              if x
              then (redirect_dup_out, 3)
              else if y
              then (redirect_fd_append, 3)
              else (redirect_fd_out, 2)))
          ≡ redirected l (
              if x
              then (redirect_dup_out, 3)
              else if y
              then (redirect_fd_append, 3)
              else (redirect_fd_out, 2))
    by_tests true y = refl
    by_tests false true = refl
    by_tests false false = refl

-- A text that begins with `2>` is matched as a redirection with a descriptor: `2>&` duplicates one,
-- `2>>` appends, and `2>` writes, of three, three and two characters. A turn of `arksh_lex_line`
-- outside `[[ ]]` at such a text pushes this token and expects the target next, and so takes none
-- of its own branches for `2>&1`, `2>>` and `2>`.
pub match_fd_redirection_token-error :
    (s : Bytes) (l : LexState)
    → l.in_double_bracket ≡ false
    → l.rest ≡ b'2' ∷ b'>' ∷ s
    → (match_fd_redirection_token (b'2' ∷ b'>' ∷ s) ≡ some (error_redirection s))
      × (lex_step l b'2' ≡ redirected l (error_redirection s))
unfolding lex_step
match_fd_redirection_token-error s l outside e =
    let matched = error_matched s in
    let stepped : lex_step l b'2' ≡ redirection_step l b'2' (match_fd_redirection_token l.rest) =
      ground (arith, outside) in
    (
      matched,
      stepped
          ∙ ap (redirection_step l b'2') (ap match_fd_redirection_token e ∙ matched)
          ∙ redirection_step-error l s,
    )
