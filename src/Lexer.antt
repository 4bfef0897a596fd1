-- ===== src/Lexer.antt =====
-- src/lexer.c and include/arksh/lexer.h: tokens, the helpers, and the token stream's state.
-- `line + *index` is the list `rest`; `*index + k < len && line[*index + k] == c` is `at rest k c`.
-- A character that a test has just compared is appended as the line's own character.
pub mod Chars
pub mod Scan
pub mod Line
pub mod Moves
pub mod Steps
pub mod Words
pub mod Operators
pub mod Tiles
pub mod Turns
pub mod Covers
mod Tests
use arksh.Base.{
  ℕ, zero, suc, ◌+◌, Bool, Option, none, some, List, [], ◌∷◌, ◌++◌, leb, if◌then◌else◌, length,
  take, drop, Bytes, max_token,
}

-- `ArkshTokenKind`
pub data Kind : Type 0 where
  invalid eof word string arrow object_pipe shell_pipe : Kind
  redirect_in redirect_out redirect_append proc_subst_in proc_subst_out : Kind
  here_string heredoc heredoc_strip : Kind
  redirect_error redirect_error_append redirect_error_to_output : Kind
  redirect_fd_in redirect_fd_out redirect_fd_append redirect_dup_in redirect_dup_out : Kind
  and_if or_if sequence background lparen rparen comma : Kind

-- The messages; `out_of_fuel` belongs to the model only.
pub data Error : Type 0 where
  raw_too_long word_too_long string_too_long : Error
  dangling_arithmetic unterminated_arithmetic : Error
  dangling_substitution unterminated_substitution : Error
  dangling_escape dangling_string unterminated_string : Error
  invalid_process_start dangling_process unterminated_process : Error
  too_many_tokens fd_too_long unterminated_conditional : Error
  invalid_token : ℕ → Error
  out_of_fuel : Error

pub data Result {ℓ} (A : Type ℓ) : Type ℓ where
  ok : A → Result A
  err : Error → Result A

infixl 5 ◌>>=◌
abbrev pub ◌>>=◌ {ℓ κ} : {A : Type ℓ} {B : Type κ} → Result A → (A → Result B) → Result B
ok a >>= f = f a
err e >>= f = err e

-- `ArkshToken`
pub record Token : Type 0 where
  pub kind : Kind
  pub text : Bytes
  pub raw : Bytes
  pub position : ℕ

-- The buffers `cooked` and `raw` of a scan, and the line from `*index` on.
pub record Cursor : Type 0 where
  pub cooked : Bytes
  pub raw : Bytes
  pub rest : Bytes

-- `append_char`, for a buffer of ARKSH_MAX_TOKEN bytes.
unfoldable pub append_char : Error → Bytes → ℕ → Result Bytes
append_char label dest c =
    if leb max_token (length dest + 1) then err label else ok (dest ++ c ∷ [])

unfoldable pub append_all : Error → Bytes → Bytes → Result Bytes
unfolding append_char
append_all label dest [] = ok dest
append_all label dest (c ∷ cs) = do d ← append_char label dest c; append_all label d cs

-- The next `n` characters go to `raw`, then to `cooked`, and `*index += n`.
unfoldable pub copy : ℕ → Error → Cursor → Result Cursor
unfolding append_all
copy n label k = do
  raw ← append_all raw_too_long k.raw (take n k.rest)
  cooked ← append_all label k.cooked (take n k.rest)
  ok (record { cooked = cooked; raw = raw; rest = drop n k.rest })

-- The same to `raw` only.
unfoldable pub copy_raw : ℕ → Cursor → Result Cursor
unfolding append_all
copy_raw n k = do
  raw ← append_all raw_too_long k.raw (take n k.rest)
  ok (record { cooked = k.cooked; raw = raw; rest = drop n k.rest })

-- `if (*index >= len) { snprintf(error, …); return 1; }`
unfoldable pub more : Error → Cursor → Result Cursor
more dangling k = elim k.rest [ [] ↦ err dangling | c ∷ s ↦ ok k ]

-- An escape whose backslash both buffers keep, or only `raw`.
unfoldable pub copy_escape : Error → Error → Cursor → Result Cursor
unfolding copy more
copy_escape label dangling k = do k1 ← copy 1 label k; k2 ← more dangling k1; copy 1 label k2

unfoldable pub drop_escape : Error → Error → Cursor → Result Cursor
unfolding copy copy_raw more
drop_escape label dangling k = do k1 ← copy_raw 1 k; k2 ← more dangling k1; copy 1 label k2
