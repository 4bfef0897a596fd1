-- ===== src/Lexer/Scan.antt =====
-- The scanners of src/lexer.c: `scan_arithmetic_expansion`, `scan_word_token` with its command
-- substitutions and quoted strings, and `scan_process_substitution_token`.
-- A `while (*index < len)` loop takes fuel; one more than the characters left is enough.
use arksh.Base.{
  ℕ, zero, suc, ◌+◌, ◌-◌, Bool, true, false, not, ◌&&◌, ◌||◌, [], ◌∷◌, ◌==◌, if◌then◌else◌, length,
  Bytes,
}
use arksh.Lexer.{
  word_too_long, string_too_long, dangling_arithmetic, unterminated_arithmetic,
  dangling_substitution, unterminated_substitution, dangling_escape, dangling_string,
  unterminated_string, invalid_process_start, dangling_process, unterminated_process, invalid_token,
  out_of_fuel, Result, ok, err, ◌>>=◌, Cursor, copy, copy_raw, copy_escape, drop_escape,
}
use arksh.Lexer.Chars.{at, is_space, is_special_token_start, ends_conditional_word}

-- `char quote`: none, or the quote that is open.
pub data Quote : Type 0 where
  plain single double : Quote

abbrev pub is_quote : ℕ → Bool
is_quote c = c == b'\'' || c == b'"'

abbrev pub quote_of : ℕ → Quote
quote_of c = if c == b'\'' then single else double

abbrev pub unless_closed : ℕ → ℕ → Quote → Quote
unless_closed c mark q = if c == mark then plain else q

-- The loop that a step goes on with: the open quote, `depth`, and the cursor.
abbrev pub Loop : Type 0
Loop = Quote → ℕ → Cursor → Result Cursor

-- `depth--; if (depth == 0) return 0; continue;`
unfoldable pub close_arithmetic : Loop → ℕ → Cursor → Result Cursor
close_arithmetic loop zero k = ok k
close_arithmetic loop (suc zero) k = ok k
close_arithmetic loop (suc (suc depth)) k = loop plain (suc depth) k

unfoldable pub arithmetic_step : Loop → Quote → ℕ → Cursor → ℕ → Result Cursor
unfolding copy copy_escape close_arithmetic
arithmetic_step loop plain depth k c =
    if is_quote c
    then (do k' ← copy 1 word_too_long k; loop (quote_of c) depth k')
    else if c == b'\\'
    then (do k' ← copy_escape word_too_long dangling_arithmetic k; loop plain depth k')
    else if c == b'$' && at k.rest 1 b'(' && at k.rest 2 b'('
    then (do k' ← copy 3 word_too_long k; loop plain (depth + 1) k')
    else if c == b')' && at k.rest 1 b')'
    then (do k' ← copy 2 word_too_long k; close_arithmetic loop depth k')
    else (do k' ← copy 1 word_too_long k; loop plain depth k')
arithmetic_step loop single depth k c = do
  k' ← copy 1 word_too_long k
  loop (unless_closed c b'\'' single) depth k'
arithmetic_step loop double depth k c =
    if c == b'\\'
    then (do k' ← copy_escape word_too_long dangling_arithmetic k; loop double depth k')
    else (do k' ← copy 1 word_too_long k; loop (unless_closed c b'"' double) depth k')

unfoldable pub arithmetic_loop : ℕ → Loop
unfolding arithmetic_step
arithmetic_loop zero q depth k = err out_of_fuel
arithmetic_loop (suc fuel) q depth k = elim k.rest [
  | [] ↦ err unterminated_arithmetic
  | c ∷ s ↦ arithmetic_step (arithmetic_loop fuel) q depth k c
]

-- At `$((`, which the caller has seen.
unfoldable pub scan_arithmetic_expansion : Cursor → Result Cursor
unfolding copy arithmetic_loop
scan_arithmetic_expansion k = do
  k' ← copy 3 word_too_long k
  arithmetic_loop (length k'.rest + 1) plain 1 k'

-- `(*index)++; if (quote == '\0' && depth == 0) break;`
unfoldable pub after_character : Loop → Loop
after_character loop plain zero k = ok k
after_character loop q depth k = loop q depth k

unfoldable pub substitution_step : Loop → Quote → ℕ → Cursor → ℕ → Result Cursor
unfolding copy drop_escape after_character
substitution_step loop plain depth k c =
    if is_quote c
    then (do k' ← copy 1 word_too_long k; after_character loop (quote_of c) depth k')
    else if c == b'\\'
    then (do
      k' ← drop_escape word_too_long dangling_substitution k
      after_character loop plain depth k')
    else if c == b'$' && at k.rest 1 b'('
    then (do k' ← copy 1 word_too_long k; after_character loop plain (depth + 1) k')
    else if c == b')'
    then (do k' ← copy 1 word_too_long k; after_character loop plain (depth - 1) k')
    else (do k' ← copy 1 word_too_long k; after_character loop plain depth k')
substitution_step loop single depth k c = do
  k' ← copy 1 word_too_long k
  after_character loop (unless_closed c b'\'' single) depth k'
substitution_step loop double depth k c =
    if c == b'\\'
    then (do
      k' ← drop_escape word_too_long dangling_substitution k
      after_character loop double depth k')
    else (do
      k' ← copy 1 word_too_long k
      after_character loop (unless_closed c b'"' double) depth k')

unfoldable pub substitution_loop : ℕ → Loop
unfolding substitution_step
substitution_loop zero q depth k = err out_of_fuel
substitution_loop (suc fuel) q depth k = elim k.rest [
  | [] ↦ err unterminated_substitution
  | c ∷ s ↦ substitution_step (substitution_loop fuel) q depth k c
]

-- The branch of `scan_word_token` at `$(`.
unfoldable pub scan_command_substitution : Cursor → Result Cursor
unfolding copy substitution_loop
scan_command_substitution k = do
  k' ← copy 2 word_too_long k
  substitution_loop (length k'.rest + 1) plain 1 k'

-- The inner loop of a quoted part, and its closing quote.
unfoldable pub string_loop : ℕ → ℕ → Cursor → Result Cursor
unfolding copy copy_raw drop_escape
string_loop zero quote k = err out_of_fuel
string_loop (suc fuel) quote k = elim k.rest [
  | [] ↦ err unterminated_string
  | c ∷ s ↦
      if c == quote
      then copy_raw 1 k
      else if quote == b'"' && c == b'\\'
      then (do k' ← drop_escape string_too_long dangling_string k; string_loop fuel quote k')
      else (do k' ← copy 1 string_too_long k; string_loop fuel quote k')
]

unfoldable pub scan_string : ℕ → Cursor → Result Cursor
unfolding copy_raw string_loop
scan_string quote k = do k' ← copy_raw 1 k; string_loop (length k'.rest + 1) quote k'

-- `if (!saw_any) { … return 1; }`
unfoldable pub stop_word : Bool → ℕ → Cursor → Result Cursor
stop_word saw_any start k = if not saw_any then err (invalid_token start) else ok k

abbrev pub ends_word : Bool → Bytes → Bool
ends_word conditional_mode s =
    if conditional_mode then ends_conditional_word s else is_special_token_start s

unfoldable pub word_step :
    (Bool → Cursor → Result Cursor) → Bool → Bool → ℕ → Cursor → ℕ → Result Cursor
unfolding copy drop_escape scan_arithmetic_expansion scan_command_substitution scan_string stop_word
word_step loop conditional_mode saw_any start k c =
    if c == b'$' && at k.rest 1 b'(' && at k.rest 2 b'('
    then (do k' ← scan_arithmetic_expansion k; loop true k')
    else if c == b'$' && at k.rest 1 b'('
    then (do k' ← scan_command_substitution k; loop true k')
    else if is_space c
    then stop_word saw_any start k
    else if ends_word conditional_mode k.rest
    then stop_word saw_any start k
    else if c == b'\\'
    then (do k' ← drop_escape word_too_long dangling_escape k; loop true k')
    else if is_quote c
    then (do k' ← scan_string c k; loop true k')
    else (do k' ← copy 1 word_too_long k; loop true k')

unfoldable pub word_loop : ℕ → Bool → ℕ → Bool → Cursor → Result Cursor
unfolding word_step ends_conditional_word is_special_token_start
word_loop zero conditional_mode start saw_any k = err out_of_fuel
word_loop (suc fuel) conditional_mode start saw_any k = elim k.rest [
  | [] ↦ stop_word saw_any start k
  | c ∷ s ↦ word_step (word_loop fuel conditional_mode start) conditional_mode saw_any start k c
]

abbrev pub fresh : Bytes → Cursor
fresh rest = record { cooked = []; raw = []; rest = rest }

-- `scan_word_token`, up to the token that it makes of the buffers.
unfoldable pub scan_word_token : Bool → ℕ → Bytes → Result Cursor
unfolding word_loop
scan_word_token conditional_mode start rest =
    word_loop (length rest + 1) conditional_mode start false (fresh rest)

unfoldable pub process_step : Loop → Quote → ℕ → Cursor → ℕ → Result Cursor
unfolding copy copy_raw copy_escape
process_step loop plain depth k c =
    if is_quote c
    then (do k' ← copy 1 word_too_long k; loop (quote_of c) depth k')
    else if c == b'\\'
    then (do k' ← copy_escape word_too_long dangling_process k; loop plain depth k')
    else if c == b'('
    then (do k' ← copy 1 word_too_long k; loop plain (depth + 1) k')
    else if c == b')'
    then (if depth == 1
        then copy_raw 1 k
        else (do k' ← copy 1 word_too_long k; loop plain (depth - 1) k'))
    else (do k' ← copy 1 word_too_long k; loop plain depth k')
process_step loop single depth k c = do
  k' ← copy 1 word_too_long k
  loop (unless_closed c b'\'' single) depth k'
process_step loop double depth k c =
    if c == b'\\'
    then (do k' ← copy_escape word_too_long dangling_process k; loop double depth k')
    else (do k' ← copy 1 word_too_long k; loop (unless_closed c b'"' double) depth k')

unfoldable pub process_loop : ℕ → Loop
unfolding process_step
process_loop zero q depth k = err out_of_fuel
process_loop (suc fuel) q depth k = elim k.rest [
  | [] ↦ err unterminated_process
  | c ∷ s ↦ process_step (process_loop fuel) q depth k c
]

-- `scan_process_substitution_token`
unfoldable pub scan_process_substitution_token : Bytes → Result Cursor
unfolding copy_raw process_loop
scan_process_substitution_token rest =
    if at rest 1 b'('
    then (do k ← copy_raw 2 (fresh rest); process_loop (length k.rest + 1) plain 1 k)
    else err invalid_process_start
