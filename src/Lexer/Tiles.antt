-- ===== src/Lexer/Tiles.antt =====
-- What the tokens of `arksh_lex_line` in src/lexer.c cover, and where a turn of its loop stands.
use arksh.Base.{
  ℕ, ◌≤◌, ◌<◌, ◌≡◌, refl, ap, ◌⊎◌, inl, inr, Bool, true, false, List, [], ◌∷◌, ◌++◌, arith, leb,
  if◌then◌else◌, length, Bytes, Bool-cases, copy_string, max_token,
}
use arksh.Lexer.{Kind, too_many_tokens, Result, ok, err, ◌>>=◌, Token}
use arksh.Lexer.Chars.{is_space}
use arksh.Lexer.Line.{
  max_tokens, LexState, push_token, Effect, keep, new_command, end_operand, want_target, no_target,
  apply_effect, after_word,
}
use arksh.Lexer.Moves.{NotFuel}

-- The text read so far is blanks and the raw texts of the tokens, each at its position.
pub data Tiles : Bytes → List Token → Type 0 where
  start : Tiles [] []
  blank :
      {s : Bytes} {ts : List Token} (c : ℕ)
      → is_space c ≡ true
      → Tiles s ts
      → Tiles (s ++ c ∷ []) ts
  token :
      {s : Bytes} {ts : List Token} (t : Token)
      → t.position ≡ length s
      → 1 ≤ length t.raw
      → Tiles s ts
      → Tiles (s ++ t.raw) (ts ++ t ∷ [])

-- Where the loop stands on `line`.
pub record Reads (line : Bytes) (tokens : List Token) (rest : Bytes) (i : ℕ) : Type 0 where
  pub done : Bytes
  pub tiles : Tiles done tokens
  pub whole : done ++ rest ≡ line
  pub here : i ≡ length done
  pub few : length tokens ≤ 128

abbrev pub ReadsAt : Bytes → LexState → Type 0
ReadsAt line l = Reads line l.tokens l.rest l.i

-- A turn of the loop takes some of the rest.
abbrev pub Advance : Bytes → LexState → Result LexState → Type 0
Advance line l (err e) = NotFuel e
Advance line l (ok l') = ReadsAt line l' × (length l'.rest < length l.rest)

pub Advance-if :
    (line : Bytes) (l : LexState) (b : Bool) (x y : Result LexState)
    → (b ≡ true → Advance line l x)
    → Advance line l y
    → Advance line l (if b then x else y)
Advance-if line l true x y h g = h refl
Advance-if line l false x y h g = g

-- What follows a turn and leaves the tokens and the place alone.
pub Advance-then :
    (line : Bytes) (l : LexState) (r : Result LexState) (f : LexState → LexState)
    → ((l' : LexState) → ReadsAt line l' → ReadsAt line (f l'))
    → ((l' : LexState) → (f l').rest ≡ l'.rest)
    → Advance line l r
    → Advance line l (r >>= λ l'. ok (f l'))
Advance-then line l (err e) f h same a = a
Advance-then line l (ok l') f h same (reads, less) =
    (h l' reads, omega (arith, ap length (same l')))

pub push_token-cases :
    (tokens : List Token) (kind : Kind) (text raw : Bytes) (i : ℕ)
    → (push_token tokens kind text raw i ≡ err too_many_tokens)
      ⊎ ((push_token tokens kind text raw i
            ≡ ok (
                tokens
                ++ record {
                  kind = kind;
                  text = copy_string max_token text;
                  raw = copy_string max_token raw;
                  position = i;
                }
                  ∷ []))
          × (length tokens < 128))
unfolding push_token
push_token-cases tokens kind text raw i = elim (Bool-cases (leb max_tokens (length tokens))) [
  | inl e ↦ rw e (inl refl)
  | inr e ↦ rw e (inr (refl, ground arith))
]

module _ (line : Bytes) where
  pub apply_effect-Reads :
      (effect : Effect) (l : LexState) → ReadsAt line l → ReadsAt line (apply_effect effect l)
  unfolding apply_effect
  apply_effect-Reads keep l r = r
  apply_effect-Reads new_command l r = r
  apply_effect-Reads end_operand l r = r
  apply_effect-Reads want_target l r = r
  apply_effect-Reads no_target l r = r

  pub after_word-Reads : (l : LexState) → ReadsAt line l → ReadsAt line (after_word l)
  unfolding after_word
  after_word-Reads l r = elim (Bool-cases l.pending_redirect_target) [
    | inl e ↦ rw e r
    | inr e ↦ rw e r
  ]

pub apply_effect_rest : (effect : Effect) (l : LexState) → (apply_effect effect l).rest ≡ l.rest
unfolding apply_effect
apply_effect_rest keep l = refl
apply_effect_rest new_command l = refl
apply_effect_rest end_operand l = refl
apply_effect_rest want_target l = refl
apply_effect_rest no_target l = refl

pub after_word_rest : (l : LexState) → (after_word l).rest ≡ l.rest
unfolding after_word
after_word_rest l = elim (Bool-cases l.pending_redirect_target) [
  | inl e ↦ rw e refl
  | inr e ↦ rw e refl
]
