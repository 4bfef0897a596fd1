-- ===== src/Path/Written.antt =====
-- What `normalize_path` of src/platform.c writes, and that it is stable under a second call.
use arksh.Base.{
  ap₂, ==_iff, ◌||◌, ℕ, ◌+◌, ◌-◌, ◌≤◌, ◌<◌, ◌≡◌, refl, sym, ap, subst, ◌∙◌, Bool, true, false,
  Option, none, some, List, [], ◌∷◌, ◌++◌, append_assoc, arith, ◌==◌, if◌then◌else◌, length,
  take_all, copy_string, length-append, All, Bytes,
}
use arksh.Path.{
  max_path, is_separator, to_native, normalize_separators, normalize_path, is_same, dot,
  split_segments, end_token, extend_token, append_text, needs_separator, write_segment,
  write_segments, write_path, normalize_native,
}
use arksh.Path.Normal.{HasNoSeparator, Normal, NormalResult, split_segments-Normal}
use arksh.Path.Stable.{joined, split_joined}

append_text_room :
    (n : ℕ) (out text : Bytes) → length out + length text < n → append_text n out text ≡ out ++ text
append_text_room n out text fits = ap (◌++◌ out) (take_all (n - length out - 1) text (omega arith))

segment_end : (t : Bytes) → 1 ≤ length t → HasNoSeparator t → needs_separator t ≡ true
unfolding needs_separator
segment_end [] some_char k = absurd (omega arith)
segment_end (c ∷ []) some_char k = rw k.0 refl
segment_end (c ∷ d ∷ s) some_char k = segment_end (d ∷ s) (omega arith) k.1

needs_separator-append :
    (xs t : Bytes) → 1 ≤ length t → HasNoSeparator t → needs_separator (xs ++ t) ≡ true
unfolding needs_separator
needs_separator-append [] t some_char k = segment_end t some_char k
needs_separator-append (c ∷ []) [] some_char k = absurd (omega arith)
needs_separator-append (c ∷ []) (d ∷ t) some_char k = segment_end (d ∷ t) some_char k
needs_separator-append (c ∷ d ∷ xs) t some_char k = needs_separator-append (d ∷ xs) t some_char k

joined_end : (u : Bytes) (ts : List Bytes) → (xs : Bytes) × (joined (u ∷ ts) ≡ xs ++ u)
joined_end u [] = ([], refl)
joined_end u (t ∷ ts) =
    (joined (t ∷ ts) ++ b'/' ∷ [], sym (append_assoc (joined (t ∷ ts)) (b'/' ∷ []) u))

module _ (n : ℕ) (out : Bytes) (opens : needs_separator out ≡ false) where
  first_written : (t : Bytes) → length out + length t < n → write_segment n out t ≡ out ++ t
  unfolding write_segment
  first_written t fits = rw opens (append_text_room n out t fits)

  next_written :
      (w t : Bytes)
      → needs_separator w ≡ true
      → length w + 1 + length t < n
      → write_segment n w t ≡ w ++ b'/' ∷ t
  unfolding write_segment
  next_written w t e fits =
      rw (e, append_text_room n w (b'/' ∷ []) (omega arith))
        (append_text_room n (w ++ b'/' ∷ []) t (omega (arith, length-append w (b'/' ∷ [])))
          ∙ append_assoc w (b'/' ∷ []) t)

  write_segments-joined :
      (absolute : Bool) (t : Bytes) (ts : List Bytes)
      → Normal absolute (t ∷ ts)
      → length out + length (joined (t ∷ ts)) < n
      → write_segments n out (t ∷ ts) ≡ out ++ joined (t ∷ ts)
  unfolding write_segments
  write_segments-joined absolute t [] h fits = first_written t fits
  write_segments-joined absolute t (u ∷ ts) h fits =
      let whole = length-append (joined (u ∷ ts)) (b'/' ∷ t) in
      let ih = write_segments-joined absolute u ts h.2 (omega arith) in
      let (xs, e) = joined_end u ts in
      let ends : needs_separator (out ++ joined (u ∷ ts)) ≡ true =
        ap (λ j. needs_separator (out ++ j)) e
        ∙ ap needs_separator (sym (append_assoc out xs u))
        ∙ needs_separator-append (out ++ xs) u h.2.0.0 h.2.0.2.1 in
      ap (λ w. write_segment n w t) ih
      ∙ next_written (out ++ joined (u ∷ ts)) t ends
          (omega (arith, length-append out (joined (u ∷ ts))))
      ∙ append_assoc out (joined (u ∷ ts)) (b'/' ∷ t)

-- Resolved segments begin with a character that is no separator.
joined_head :
    (absolute : Bool) (t : Bytes) (ts : List Bytes)
    → Normal absolute (t ∷ ts)
    → (c : ℕ) × (s : Bytes) × (joined (t ∷ ts) ≡ c ∷ s) × ((c == b'/') ≡ false)
joined_head absolute [] [] h = absurd (omega (arith, h.0.0))
joined_head absolute (c ∷ s) [] h = (c, s, refl, h.0.2.1.0)
joined_head absolute t (u ∷ ts) h =
    let (c, s, e, k) = joined_head absolute u ts h.2 in
    (c, s ++ b'/' ∷ t, ap (λ j. j ++ b'/' ∷ t) e, k)

root_written : (n : ℕ) → 1 < n → append_text n [] (b'/' ∷ []) ≡ b'/' ∷ []
root_written n h = append_text_room n [] (b'/' ∷ []) (omega arith)

root_opens : needs_separator (b'/' ∷ []) ≡ false
unfolding needs_separator
root_opens = refl

nothing_opens : needs_separator [] ≡ false
unfolding needs_separator
nothing_opens = refl

empty_written : (n : ℕ) → append_text n [] [] ≡ []
empty_written n = take_all (n - 0 - 1) [] (omega arith)

-- What `normalize_path` makes of the segments.
abbrev finished : ℕ → Bool → Option (List Bytes) → Option Bytes
finished n absolute none = none
finished n absolute (some segments) = some (write_path n absolute segments)

module _ (n : ℕ) (t : Bytes) (ts : List Bytes) (few : length (t ∷ ts) ≤ 64)
    (fits : length (joined (t ∷ ts)) + 1 < n) where
  absolute_written : Normal true (t ∷ ts) → write_path n true (t ∷ ts) ≡ b'/' ∷ joined (t ∷ ts)
  unfolding write_path
  absolute_written h =
      ap (λ out. write_segments n out (t ∷ ts)) (root_written n (omega arith))
      ∙ write_segments-joined n (b'/' ∷ []) root_opens true t ts h (omega arith)

  relative_written : Normal false (t ∷ ts) → write_path n false (t ∷ ts) ≡ joined (t ∷ ts)
  unfolding write_path
  relative_written h =
      ap (λ out. write_segments n out (t ∷ ts)) (empty_written n)
      ∙ write_segments-joined n [] nothing_opens false t ts h (omega arith)

  absolute_again :
      Normal true (t ∷ ts)
      → normalize_native n (b'/' ∷ joined (t ∷ ts)) ≡ some (write_path n true (t ∷ ts))
  unfolding normalize_native
  absolute_again h = rw (normalize_native, split_joined true (t ∷ ts) h few) refl

  relative_again :
      Normal false (t ∷ ts)
      → normalize_native n (joined (t ∷ ts)) ≡ some (write_path n false (t ∷ ts))
  unfolding normalize_native
  relative_again h =
      let (c, s, e, k) = joined_head false t ts h in
      let split = ap (split_segments false [] []) (sym e) ∙ split_joined false (t ∷ ts) h few in
      ap (normalize_native n) e
      ∙ ap (λ b. finished n b (split_segments b [] [] (if b then s else c ∷ s))) k
      ∙ ap (finished n false) split

-- The output where no segment is left.
abbrev closed : ℕ → Bool → Bytes → Bytes
closed n absolute [] = copy_string n (if absolute then b'/' ∷ [] else dot)
closed n absolute (c ∷ s) = c ∷ s

root_path : (n : ℕ) → 2 < n → write_path n true [] ≡ b'/' ∷ []
unfolding write_path
root_path n h = ap (closed n true) (root_written n (omega arith))

dot_path : (n : ℕ) → 2 < n → write_path n false [] ≡ dot
unfolding write_path
dot_path n h = ap (closed n false) (empty_written n) ∙ take_all (n - 1) dot (omega arith)

root_again : (n : ℕ) → normalize_native n (b'/' ∷ []) ≡ some (write_path n true [])
unfolding normalize_native split_segments end_token
root_again n = refl

dot_again : (n : ℕ) → normalize_native n dot ≡ some (write_path n false [])
unfolding normalize_native split_segments end_token extend_token is_same
dot_again n = refl

again :
    (n : ℕ) (absolute : Bool) (segments : List Bytes)
    → Normal absolute segments
    → length segments ≤ 64
    → length (joined segments) + 2 < n
    → normalize_native n (write_path n absolute segments) ≡ some (write_path n absolute segments)
again n true [] h few fits = ap (normalize_native n) (root_path n fits) ∙ root_again n
again n false [] h few fits = ap (normalize_native n) (dot_path n fits) ∙ dot_again n
again n true (t ∷ ts) h few fits =
    ap (normalize_native n) (absolute_written n t ts few (omega arith) h)
    ∙ absolute_again n t ts few (omega arith) h
again n false (t ∷ ts) h few fits =
    ap (normalize_native n) (relative_written n t ts few (omega arith) h)
    ∙ relative_again n t ts few (omega arith) h

to_native-plain : (s : Bytes) → All (λ c. (c == b'\\') ≡ false) s → to_native s ≡ s
unfolding to_native is_separator
to_native-plain [] h = refl
to_native-plain (c ∷ s) h =
    let (plain, rest) = h in
    ap₂ ◌∷◌ (kept (c == b'/') (c == b'\\') ((==_iff c b'/').0) plain) (to_native-plain s rest)
  where
    kept : (x y : Bool) → (x ≡ true → c ≡ b'/') → y ≡ false → (if x || y then b'/' else c) ≡ c
    kept true y h k = sym (h refl)
    kept false true h k = ground arith
    kept false false h k = refl

normalize_separators-plain :
    (s : Bytes)
    → All (λ c. (c == b'\\') ≡ false) s
    → length s < max_path
    → normalize_separators max_path s ≡ s
unfolding normalize_separators
normalize_separators-plain s h short =
    ap to_native (take_all 1023 s (omega arith)) ∙ to_native-plain s h

-- The path that `normalize_path` writes for the segments of a text, if the buffer has room for the
-- segments with their separators and three more bytes, and if the path has no backslash and at most
-- 1023 bytes, is one that `normalize_path` gives back unchanged.
pub normalize-write_path :
    (n : ℕ) (absolute : Bool) (text : Bytes) (segments : List Bytes)
    → split_segments absolute [] [] text ≡ some segments
    → length (joined segments) + 2 < n
    → All (λ c. (c == b'\\') ≡ false) (write_path n absolute segments)
    → length (write_path n absolute segments) < max_path
    → normalize_path n (write_path n absolute segments) ≡ some (write_path n absolute segments)
unfolding normalize_path
normalize-write_path n absolute text segments e fits plain short =
    let found =
      subst (NormalResult absolute) e
        (split_segments-Normal absolute [] [] text tt (omega arith) (omega arith, tt)) in
    ap (normalize_native n)
      (normalize_separators-plain (write_path n absolute segments) plain short)
    ∙ again n absolute segments found.0 found.1 fits
