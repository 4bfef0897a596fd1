-- ===== src/Lexer/Covers.antt =====
-- The whole of `arksh_lex_line` in src/lexer.c.
use arksh.Base.{
  ℕ, zero, suc, ◌+◌, ◌≤◌, ◌<◌, ◌≡◌, refl, sym, ap, subst, ◌∙◌, inl, inr, List, [], ◌∷◌, ◌++◌,
  append-nil, arith, length, Bytes, Bool-cases, length-append,
}
use arksh.Lexer.{eof, Result, ok, err, ◌>>=◌, Token}
use arksh.Lexer.Line.{LexState, finish, lex_loop, start_of, arksh_lex_line}
use arksh.Lexer.Moves.{NotFuel, Rest-cases}
use arksh.Lexer.Tiles.{Tiles, start, ReadsAt, Advance, push_token-cases}
use arksh.Lexer.Turns.{lex_step-Advance}

-- What `lex_loop` makes of a line: all of it is covered, and the last token stands for its end.
abbrev pub Lexed : Bytes → Result (List Token) → Type 0
Lexed line (err e) = NotFuel e
Lexed line (ok ts) =
    (tokens : List Token) × (ts
      ≡ tokens ++ record { kind = eof; text = []; raw = []; position = length line } ∷ [])
    × Tiles line tokens
    × (length ts ≤ 128)

module _ (line : Bytes) where
  finish-Lexed : (l : LexState) → ReadsAt line l → l.rest ≡ [] → Lexed line (finish l)
  unfolding finish
  finish-Lexed l reads e = elim (Bool-cases l.in_double_bracket) [
    | inl opened ↦ rw (opened, Lexed) tt
    | inr closed ↦ rw closed (elim (push_token-cases l.tokens eof [] [] l.i) [
      | inl full ↦ rw (full, Lexed) tt
      | inr (room, few) ↦
          let read : reads.done ≡ line =
            sym (append-nil reads.done) ∙ ap (◌++◌ reads.done) (sym e) ∙ reads.whole in
          rw (room, Lexed)
            (
              l.tokens,
              ap (λ i. l.tokens ++ record { kind = eof; text = []; raw = []; position = i } ∷ [])
                  (reads.here ∙ ap length read),
              subst (λ s. Tiles s l.tokens) read reads.tiles,
              omega (arith, length-append l.tokens (_ ∷ [])),
            )
    ])
  ]

  Lexed-bind :
      (l : LexState) (r : Result LexState) (f : LexState → Result (List Token))
      → Advance line l r
      → ((l' : LexState) → ReadsAt line l' → length l'.rest < length l.rest → Lexed line (f l'))
      → Lexed line (r >>= f)
  Lexed-bind l (err e) f a h = a
  Lexed-bind l (ok l') f (reads, less) h = h l' reads less

  lex_loop-Lexed :
      (n : ℕ) (l : LexState) → ReadsAt line l → length l.rest < n → Lexed line (lex_loop n l)
  unfolding lex_loop
  lex_loop-Lexed zero l reads le = elim le [ ]
  lex_loop-Lexed (suc n) l reads le = elim (Rest-cases l.rest) [
    | inl e ↦ rw (e, Lexed) (finish-Lexed l reads e)
    | inr (c, s, e) ↦
        rw (e, Lexed)
          (Lexed-bind l _ (lex_loop n)
            (lex_step-Advance line l reads (omega (arith, ap length e)) c s e)
            (λ l' r less. lex_loop-Lexed n l' r (omega arith)))
  ]

-- `arksh_lex_line` ends on every line. Where it succeeds, there are at most 128 tokens; the last is
-- the EOF token at the end of the line, and the others cover the line: it is blanks and the raw
-- texts of the tokens, in order, each at the position that its token records and not empty.
pub arksh_lex_line-Lexed : (line : Bytes) → Lexed line (arksh_lex_line line)
unfolding arksh_lex_line
arksh_lex_line-Lexed line =
    lex_loop-Lexed line (length line + 1) (start_of line)
      (record { done = []; tiles = start; whole = refl; here = refl; few = omega arith })
      (omega arith)
