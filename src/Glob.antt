-- ===== src/Glob.antt =====
-- src/expand.c, the two glob matchers of parameter expansion and the trims that use them:
-- `glob_match_full`, `glob_match_prefix`, `apply_suffix_trim` and `apply_prefix_trim`.
-- A pointer into a C string is the list of the bytes from it up to the terminating zero, and
-- `*p == '\0'` is the empty list.
pub mod Pattern
pub mod Full
pub mod Prefix
pub mod Trim
mod Tests
use arksh.Base.{
  ℕ, zero, suc, ◌+◌, Bool, true, false, Option, none, some, List, [], ◌∷◌, ◌==◌, if◌then◌else◌,
  drop, length, Bytes,
}

-- `*str == '\0'`
unfoldable pub at_end : Bytes → Bool
at_end [] = true
at_end (c ∷ s) = false

-- `do { if (glob_match_full(pat, str)) return 1; } while (*str++ != '\0'); return 0;`
unfoldable pub try_each : (Bytes → Bool) → Bytes → Bool
try_each rest [] = rest []
try_each rest (c ∷ s) = if rest (c ∷ s) then true else try_each rest s

-- The `?` branch: any byte but the end.
unfoldable pub skip_one : (Bytes → Bool) → Bytes → Bool
skip_one rest [] = false
skip_one rest (c ∷ s) = rest s

-- The last branch: the pattern's byte itself.
unfoldable pub eat : ℕ → (Bytes → Bool) → Bytes → Bool
eat d rest [] = false
eat d rest (c ∷ s) = if d == c then rest s else false

unfoldable pub glob_match_full : Bytes → Bytes → Bool
unfolding at_end try_each skip_one eat
glob_match_full [] str = at_end str
glob_match_full (c ∷ []) str =
    if c == b'*'
    then try_each (glob_match_full []) str
    else if c == b'?'
    then skip_one (glob_match_full []) str
    else eat c (glob_match_full []) str
glob_match_full (c ∷ d ∷ pat) str =
    if c == b'*'
    then try_each (glob_match_full (d ∷ pat)) str
    else if c == b'?'
    then skip_one (glob_match_full (d ∷ pat)) str
    else if c == b'\\'
    then eat d (glob_match_full pat) str
    else eat c (glob_match_full (d ∷ pat)) str

-- `rest < 0 ? -1 : k + rest`, with `none` for -1.
abbrev pub plus : ℕ → Option ℕ → Option ℕ
plus k none = none
plus k (some rest) = some (k + rest)

-- `for (k = max_len; k >= 0; --k)`, on the value of `k`.
unfoldable pub greedy : (Bytes → Option ℕ) → Bytes → ℕ → Option ℕ
greedy rest str zero = plus zero (rest str)
greedy rest str (suc k) = elim (rest (drop (suc k) str)) [
  | some r ↦ some (suc k + r)
  | none ↦ greedy rest str k
]

unfoldable pub prefix_skip_one : (Bytes → Option ℕ) → Bytes → Option ℕ
prefix_skip_one rest [] = none
prefix_skip_one rest (c ∷ s) = plus 1 (rest s)

unfoldable pub prefix_eat : ℕ → (Bytes → Option ℕ) → Bytes → Option ℕ
prefix_eat d rest [] = none
prefix_eat d rest (c ∷ s) = if d == c then plus 1 (rest s) else none

unfoldable pub glob_match_prefix : Bytes → Bytes → Option ℕ
unfolding greedy prefix_skip_one prefix_eat
glob_match_prefix [] str = some 0
glob_match_prefix (c ∷ []) str =
    if c == b'*'
    then greedy (glob_match_prefix []) str (length str)
    else if c == b'?'
    then prefix_skip_one (glob_match_prefix []) str
    else prefix_eat c (glob_match_prefix []) str
glob_match_prefix (c ∷ d ∷ pat) str =
    if c == b'*'
    then greedy (glob_match_prefix (d ∷ pat)) str (length str)
    else if c == b'?'
    then prefix_skip_one (glob_match_prefix (d ∷ pat)) str
    else if c == b'\\'
    then prefix_eat d (glob_match_prefix pat) str
    else prefix_eat c (glob_match_prefix (d ∷ pat)) str
