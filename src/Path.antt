-- ===== src/Path.antt =====
-- `normalize_path` of src/platform.c, on a system whose separator is `/`: a path is cut into
-- segments, `.` and `..` are resolved, and the segments are written out again.
-- `segments` with `count` is a list that has the last segment first.
pub mod Normal
pub mod Stable
pub mod Written
mod Tests
use arksh.Base.{
  ℕ, zero, suc, ◌+◌, ◌-◌, Bool, true, false, not, ◌&&◌, ◌||◌, Option, none, some, List, [], ◌∷◌,
  ◌++◌, leb, ltb, ◌==◌, if◌then◌else◌, length, take, Bytes, copy_string,
}

-- `strcmp(left, right) == 0`
unfoldable pub is_same : Bytes → Bytes → Bool
is_same [] [] = true
is_same [] (c ∷ s) = false
is_same (c ∷ s) [] = false
is_same (c ∷ s) (d ∷ t) = c == d && is_same s t

abbrev pub dot : Bytes
dot = b'.' ∷ []

abbrev pub dot_dot : Bytes
dot_dot = b'.' ∷ b'.' ∷ []

-- ARKSH_MAX_NAME and ARKSH_MAX_PATH of include/arksh/object.h
abbrev pub max_name : ℕ
max_name = 128

abbrev pub max_path : ℕ
max_path = 1024

unfoldable pub is_separator : ℕ → Bool
is_separator c = c == b'/' || c == b'\\'

-- `normalize_separators`
unfoldable pub to_native : Bytes → Bytes
unfolding is_separator
to_native [] = []
to_native (c ∷ s) = (if is_separator c then b'/' else c) ∷ to_native s

unfoldable pub normalize_separators : ℕ → Bytes → Bytes
unfolding to_native
normalize_separators dest_size src = to_native (copy_string dest_size src)

-- `push_segment`
unfoldable pub push_segment : List Bytes → Bytes → Option (List Bytes)
push_segment segments segment =
    if leb 64 (length segments) then none else some (copy_string max_name segment ∷ segments)

-- The branch for `..`.
unfoldable pub go_up : Bool → List Bytes → Option (List Bytes)
unfolding push_segment is_same
go_up absolute [] = if absolute then some [] else push_segment [] dot_dot
go_up absolute (top ∷ segments) =
    if not (is_same top dot_dot)
    then some segments
    else if absolute
    then some (top ∷ segments)
    else push_segment (top ∷ segments) dot_dot

-- What a token does at its end.
unfoldable pub end_token : Bool → List Bytes → Bytes → Option (List Bytes)
unfolding is_same go_up push_segment
end_token absolute segments [] = some segments
end_token absolute segments (c ∷ s) =
    if is_same (c ∷ s) dot
    then some segments
    else if is_same (c ∷ s) dot_dot
    then go_up absolute segments
    else push_segment segments (c ∷ s)

-- `if (token_len + 1 < sizeof(token)) token[token_len++] = c;`
unfoldable pub extend_token : Bytes → ℕ → Bytes
extend_token token c = if ltb (length token + 1) max_name then token ++ c ∷ [] else token

abbrev pub and_then : Option (List Bytes) → (List Bytes → Option (List Bytes)) → Option (List Bytes)
and_then none f = none
and_then (some segments) f = f segments

-- The loop over `cursor`; `none` for `return 1`.
unfoldable pub split_segments : Bool → List Bytes → Bytes → Bytes → Option (List Bytes)
unfolding end_token extend_token
split_segments absolute segments token [] = end_token absolute segments token
split_segments absolute segments token (c ∷ s) = elim (c == b'/') [
  | true ↦ and_then (end_token absolute segments token) (λ next. split_segments absolute next [] s)
  | false ↦ split_segments absolute segments (extend_token token c) s
]

-- `snprintf(out + strlen(out), out_size - strlen(out), "%s", text)`
abbrev pub append_text : ℕ → Bytes → Bytes → Bytes
append_text out_size out text = out ++ take (out_size - length out - 1) text

-- `strlen(out) > 0 && out[strlen(out) - 1] != sep`
unfoldable pub needs_separator : Bytes → Bool
needs_separator [] = false
needs_separator (c ∷ []) = not (c == b'/')
needs_separator (c ∷ d ∷ s) = needs_separator (d ∷ s)

unfoldable pub write_segment : ℕ → Bytes → Bytes → Bytes
unfolding needs_separator
write_segment out_size out segment =
    append_text out_size (if needs_separator out then append_text out_size out (b'/' ∷ []) else out)
      segment

-- `for (i = 0; i < count; ++i)`, from the last segment back.
unfoldable pub write_segments : ℕ → Bytes → List Bytes → Bytes
unfolding write_segment
write_segments out_size out [] = out
write_segments out_size out (segment ∷ segments) =
    write_segment out_size (write_segments out_size out segments) segment

-- After the loop.
unfoldable pub write_path : ℕ → Bool → List Bytes → Bytes
unfolding write_segments
write_path out_size absolute segments =
    let out = append_text out_size [] (if absolute then b'/' ∷ [] else []) in
    elim segments [
      | [] ↦ elim out [
        | [] ↦ copy_string out_size (if absolute then b'/' ∷ [] else dot)
        | c ∷ s ↦ c ∷ s
      ]
      | segment ∷ rest ↦ write_segments out_size out (segment ∷ rest)
    ]

-- `if (temp[0] == sep) { absolute = 1; pos = 1; }`, and the rest of the function.
unfoldable pub normalize_native : ℕ → Bytes → Option Bytes
unfolding split_segments write_path
normalize_native out_size [] = elim (split_segments false [] [] []) [
  | none ↦ none
  | some segments ↦ some (write_path out_size false segments)
]
normalize_native out_size (c ∷ s) =
    let absolute = c == b'/' in
    elim (split_segments absolute [] [] (if absolute then s else c ∷ s)) [
      | none ↦ none
      | some segments ↦ some (write_path out_size absolute segments)
    ]

unfoldable pub normalize_path : ℕ → Bytes → Option Bytes
unfolding normalize_separators normalize_native
normalize_path out_size input = normalize_native out_size (normalize_separators max_path input)
