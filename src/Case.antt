-- ===== src/Case.antt =====
-- The patterns of `case` in src/executor.c: `case_char_class_matches` and `shell_pattern_matches`.
-- An index into a C string is the list of the bytes from it up to the terminating zero.
pub mod Pattern
pub mod Classes
pub mod Matches
mod Tests
use arksh.Base.{
  ℕ, zero, suc, ◌+◌, ◌-◌, Bool, true, false, not, ◌&&◌, ◌||◌, Option, none, some, List, [], ◌∷◌,
  ltb, leb, ◌==◌, if◌then◌else◌, length, Bytes,
}

-- `a <= b` for two bytes of type `char`, which is signed: the bytes from 128 on are negative.
abbrev pub char_leb : ℕ → ℕ → Bool
char_leb a b =
    if leb 128 a
    then (if leb 128 b then leb a b else true)
    else (if leb 128 b then false else leb a b)

abbrev pub in_range : ℕ → ℕ × ℕ → Bool
in_range t (start, end) = char_leb start t && char_leb t end

-- The end of a range: a backslash before a byte stands for that byte.
abbrev pub escaped_end : ℕ → ℕ → Bytes → (ℕ × ℕ) × Bytes
escaped_end start e [] = ((start, e), [])
escaped_end start e (f ∷ rest) = if e == b'\\' then ((start, f), rest) else ((start, e), f ∷ rest)

-- After the start of a range: `-` and an end, or nothing.
abbrev pub class_end : ℕ → Bytes → (ℕ × ℕ) × Bytes
class_end start [] = ((start, start), [])
class_end start (m ∷ []) = ((start, start), m ∷ [])
class_end start (m ∷ e ∷ rest) =
    if m == b'-' && not (e == b']')
    then escaped_end start e rest
    else ((start, start), m ∷ e ∷ rest)

abbrev pub class_range : ℕ → Bytes → (ℕ × ℕ) × Bytes
class_range c [] = class_end c []
class_range c (d ∷ rest) = if c == b'\\' then class_end d rest else class_end c (d ∷ rest)

-- The loop over a class: whether the byte is in it, and the rest after `]`. Fuel is the length.
unfoldable pub class_loop : ℕ → ℕ → Bool → Bytes → Option (Bool × Bytes)
class_loop zero t matched pattern = none
class_loop (suc fuel) t matched [] = none
class_loop (suc fuel) t matched (c ∷ pattern) =
    let (range, rest) = class_range c pattern in
    let more = class_loop fuel t (matched || in_range t range) rest in
    if c == b']' then some (matched, pattern) else more

abbrev pub negation : Bytes → Bool × Bytes
negation [] = (false, [])
negation (n ∷ pattern) = if n == b'!' || n == b'^' then (true, pattern) else (false, n ∷ pattern)

abbrev pub class_result : Bool → Option (Bool × Bytes) → Option Bytes
class_result negate none = none
class_result negate (some (matched, rest)) =
    if (if negate then not matched else matched) then some rest else none

-- `case_char_class_matches`, after the `[`: the rest of the pattern where the byte is accepted.
unfoldable pub case_char_class_matches : Bytes → ℕ → Option Bytes
unfolding class_loop
case_char_class_matches pattern t =
    let (negate, class) = negation pattern in
    class_result negate (class_loop (length class) t false class)

abbrev pub skip_stars : Bytes → Bytes
skip_stars [] = []
skip_stars (c ∷ pattern) = if c == b'*' then skip_stars pattern else c ∷ pattern

-- `text[text_index] == '\0'`
abbrev pub is_end : Bytes → Bool
is_end [] = true
is_end (c ∷ text) = false

-- `while (1)`: the rest of the pattern at the text, and at each of its ends.
unfoldable pub try_ends : (Bytes → Bool) → Bytes → Bool
try_ends rest [] = rest []
try_ends rest (c ∷ text) = let later = try_ends rest text in if rest (c ∷ text) then true else later

abbrev pub after_stars : (Bytes → Bytes → Bool) → Bytes → Bytes → Bool
after_stars next [] text = true
after_stars next (c ∷ pattern) text = try_ends (next (c ∷ pattern)) text

abbrev pub after_class : (Bytes → Bytes → Bool) → Bytes → Option Bytes → Bool
after_class next text none = false
after_class next text (some pattern) = next pattern text

abbrev pub literal : (Bytes → Bytes → Bool) → ℕ → Bytes → ℕ → Bytes → Bool
literal next c pattern t text = let rest = next pattern text in if c == t then rest else false

abbrev pub unescaped : (Bytes → Bytes → Bool) → ℕ → Bytes → ℕ → Bytes → Bool
unescaped next c [] t text = literal next c [] t text
unescaped next c (d ∷ pattern) t text =
    if c == b'\\' then literal next d pattern t text else literal next c (d ∷ pattern) t text

abbrev pub one_byte : (Bytes → Bytes → Bool) → ℕ → Bytes → Bytes → Bool
one_byte next c pattern [] = false
one_byte next c pattern (t ∷ text) =
    let any = next pattern text in
    let class = after_class next text (case_char_class_matches pattern t) in
    if c == b'?' then any else if c == b'[' then class else unescaped next c pattern t text

-- `shell_pattern_matches`, with fuel for each item of the pattern and its end.
unfoldable pub pattern_loop : ℕ → Bytes → Bytes → Bool
unfolding try_ends case_char_class_matches
pattern_loop zero pattern text = false
pattern_loop (suc fuel) [] text = is_end text
pattern_loop (suc fuel) (c ∷ pattern) text =
    let starred = after_stars (pattern_loop fuel) (skip_stars pattern) text in
    let other = one_byte (pattern_loop fuel) c pattern text in if c == b'*' then starred else other

unfoldable pub shell_pattern_matches : Bytes → Bytes → Bool
unfolding pattern_loop
shell_pattern_matches pattern text = pattern_loop (suc (length pattern)) pattern text
