-- ===== src/Lexer/Turns.antt =====
-- One turn of the loop of `arksh_lex_line` in src/lexer.c, branch by branch.
use arksh.Base.{
  ℕ, ◌+◌, ◌≤◌, ◌≡◌, refl, sym, ap, ◌∙◌, inl, inr, Bool, true, false, not, ◌&&◌, ◌||◌, Option, none,
  some, [], ◌∷◌, ◌++◌, append_assoc, arith, leb, ◌==◌, length, take, drop, Bytes, Bool-cases,
  length-append, length-take, take-append-drop, take_all, max_token,
}
use arksh.Lexer.{Kind, word, Result, ok, err, ◌>>=◌, Cursor}
use arksh.Lexer.Chars.{at, is_space}
use arksh.Lexer.Scan.{fresh, scan_word_token, scan_process_substitution_token}
use arksh.Lexer.Line.{
  max_tokens, LexState, push_token, push_characters, push_scanned, starts_process, process_kind,
  conditional_step, Effect, apply_effect, after_word, operator_or_word, redirection_step,
  ends_double_bracket, lex_step,
}
use arksh.Lexer.Moves.{Moves}
use arksh.Lexer.Words.{scan_word_token-Moves, scan_process_substitution_token-Moves}
use arksh.Lexer.Operators.{
  and_left, and_right, second, OperatorWithin, operator_at-Within, RedirectionWithin,
  match_fd_redirection_token-Within, Within,
}
use arksh.Lexer.Tiles.{
  blank, token, ReadsAt, Advance, Advance-if, Advance-then, push_token-cases, apply_effect-Reads,
  after_word-Reads, apply_effect_rest, after_word_rest,
}

module _ (line : Bytes) (l : LexState) (reads : ReadsAt line l) where
  -- A token for `raw`, which begins the rest, takes it off the rest.
  pushed :
      (kind : Kind) (text raw rest : Bytes) (n : ℕ)
      → raw ++ rest ≡ l.rest
      → 1 ≤ length raw
      → length raw ≤ 255
      → n ≡ length raw
      → Advance line l (
          push_token l.tokens kind text raw l.i >>= λ tokens.
          ok (record l { tokens = tokens; rest = rest; i = l.i + n }))
  pushed kind text raw rest n split some_raw fits e =
      elim (push_token-cases l.tokens kind text raw l.i) [
        | inl full ↦ rw (full, Advance) tt
        | inr (room, few) ↦
            rw (room, Advance, take_all 255 raw fits)
              (
                record {
                  done = reads.done ++ raw;
                  tiles = token _ reads.here some_raw reads.tiles;
                  whole =
                      append_assoc reads.done raw rest ∙ ap (◌++◌ reads.done) split ∙ reads.whole;
                  here = omega (arith, reads.here, length-append reads.done raw);
                  few = omega (arith, length-append l.tokens (_ ∷ []));
                },
                omega (arith, length-append raw rest, ap length split),
              )
      ]

  push_characters-Advance :
      (kind : Kind) (n : ℕ) → Within l.rest n → n ≤ 255 → Advance line l (push_characters kind n l)
  unfolding push_characters
  push_characters-Advance kind n (some_left, within) fits =
      let whole = length-take n l.rest in
      pushed kind (take n l.rest) (take n l.rest) (drop n l.rest) n (take-append-drop n l.rest)
        (omega arith) (omega arith) (omega arith)

  push_moved :
      (kind : Kind) (text_of : Cursor → Bytes) (r : Result Cursor)
      → Moves 1 (fresh l.rest) r
      → Advance line l (
          r >>= λ k. push_token l.tokens kind (text_of k) k.raw l.i >>= λ tokens.
          ok (record l { tokens = tokens; rest = k.rest; i = l.i + length k.raw }))
  push_moved kind text_of (err e) h = h
  push_moved kind text_of (ok k) h =
      pushed kind (text_of k) k.raw k.rest (length k.raw) h.same
        (omega (arith, h.shorter, ap length h.same, length-append k.raw k.rest)) h.bounded.1 refl

  push_scanned-Advance :
      (kind : Kind) (text_of : Cursor → Bytes) (r : Result Cursor)
      → Moves 1 (fresh l.rest) r
      → Advance line l (push_scanned kind text_of l r)
  unfolding push_scanned
  push_scanned-Advance kind text_of r h =
      Advance-if line l (leb max_tokens (length l.tokens)) _ _ (λ e. tt)
        (push_moved kind text_of r h)

  past_blank :
      (c : ℕ) (s : Bytes)
      → l.rest ≡ c ∷ s
      → is_space c ≡ true
      → Advance line l (ok (record l { rest = drop 1 l.rest; i = l.i + 1 }))
  past_blank c s e space = rw e (
    record {
      done = reads.done ++ c ∷ [];
      tiles = blank c space reads.tiles;
      whole = append_assoc reads.done (c ∷ []) s ∙ ap (◌++◌ reads.done) (sym e) ∙ reads.whole;
      here = omega (arith, reads.here, length-append reads.done (c ∷ []));
      few = reads.few;
    },
    omega arith,
  )

  module _ (enough : 1 ≤ length l.rest) where
    word-Advance :
        (mode : Bool)
        → Advance line l (push_scanned word (λ k. k.cooked) l (scan_word_token mode l.i l.rest))
    word-Advance mode = push_scanned-Advance word _ _ (scan_word_token-Moves mode l.i l.rest)

    process-Advance :
        (kind : Kind)
        → Advance line l (push_scanned kind (λ k. k.raw) l (scan_process_substitution_token l.rest))
    process-Advance kind =
        push_scanned-Advance kind _ _ (scan_process_substitution_token-Moves l.rest enough)

    two-Advance :
        (a : Bool) (x : ℕ) (kind : Kind)
        → (a && at l.rest 1 x) ≡ true
        → Advance line l (push_characters kind 2 l)
    two-Advance a x kind e =
        push_characters-Advance kind 2 (second 0 l.rest enough a x e).0 (omega arith)

    conditional_step-Advance : (c : ℕ) → Advance line l (conditional_step l c)
    unfolding conditional_step
    conditional_step-Advance c =
        Advance-if line l (starts_process c l.rest) _ _ (λ e. process-Advance (process_kind c))
          (Advance-if line l (c == b']' && at l.rest 1 b']') _ _
            (λ e.
              Advance-then line l _
                (λ l'. record l' {
                  in_double_bracket = false;
                  command_word_allowed = false;
                  pending_redirect_target = false;
                })
                (λ l' r. r) (λ l'. refl) (two-Advance _ _ word e))
            (Advance-if line l (c == b'&' && at l.rest 1 b'&') _ _ (two-Advance _ _ word) (
              Advance-if line l (c == b'|' && at l.rest 1 b'|') _ _ (two-Advance _ _ word) (
                Advance-if line l (c == b'!' || c == b'(' || c == b')') _ _
                  (λ e. push_characters-Advance word 1 (omega arith, enough) (omega arith))
                  (word-Advance true)))))

    operator_or_word-Advance :
        (o : Option (Kind × ℕ × Effect))
        → OperatorWithin l.rest o
        → Advance line l (operator_or_word l o)
    unfolding operator_or_word
    operator_or_word-Advance none h =
        Advance-then line l _ after_word (after_word-Reads line) after_word_rest
          (word-Advance false)
    operator_or_word-Advance (some (kind, n, effect)) h =
        Advance-then line l _ (apply_effect effect) (apply_effect-Reads line effect)
          (apply_effect_rest effect) (push_characters-Advance kind n h.0 (omega arith))

    redirection_step-Advance :
        (c : ℕ) (o : Option (Kind × ℕ))
        → RedirectionWithin 0 l.rest o
        → Advance line l (redirection_step l c o)
    unfolding redirection_step
    redirection_step-Advance c (some (kind, n)) h = elim (Bool-cases (leb max_token n)) [
      | inl e ↦ rw (e, Advance) tt
      | inr e ↦ rw e (
          Advance-then line l _ (λ l'. record l' { pending_redirect_target = true }) (λ l' r. r)
            (λ l'. refl) (push_characters-Advance kind n (omega arith, omega arith) (ground arith)))
    ]
    redirection_step-Advance c none h =
        Advance-if line l (starts_process c l.rest) _ _
          (λ e.
            Advance-then line l _
              (λ l'. record l' { pending_redirect_target = false; command_word_allowed = false })
              (λ l' r. r) (λ l'. refl) (process-Advance (process_kind c)))
          (operator_or_word-Advance _ (operator_at-Within c l.rest enough))

    pub lex_step-Advance : (c : ℕ) (s : Bytes) → l.rest ≡ c ∷ s → Advance line l (lex_step l c)
    unfolding lex_step
    lex_step-Advance c s e = Advance-if line l (is_space c) _ _ (past_blank c s e) (
        Advance-if line l l.in_double_bracket _ _ (λ e. conditional_step-Advance c)
          (Advance-if line l
            (l.command_word_allowed
              && not l.pending_redirect_target
              && (c == b'[' && at l.rest 1 b'[')
              && ends_double_bracket (drop 2 l.rest))
            _ _
            (λ e.
              Advance-then line l _
                (λ l'. record l' { in_double_bracket = true; command_word_allowed = false })
                (λ l' r. r) (λ l'. refl)
                (two-Advance (c == b'[') b'[' word (and_right _ _ (and_left _ _ e))))
            (redirection_step-Advance c _ (match_fd_redirection_token-Within l.rest))))
