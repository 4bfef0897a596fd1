-- ===== src/Path/Stable.antt =====
-- Reading back what `normalize_path` of src/platform.c writes.
use arksh.Base.{
  ◌+◌, ◌≤◌, ◌<◌, ◌≡◌, refl, sym, ap, ◌∙◌, inl, inr, Bool, true, false, Option, none, some,
  Bool-cases, List, [], ◌∷◌, ◌++◌, append_assoc, append-nil, arith, leb, ltb, lt→ltb, ◌==◌, length,
  take_all, length-append, Bytes,
}
use arksh.Path.{
  is_same, dot_dot, max_name, push_segment, go_up, end_token, extend_token, and_then,
  split_segments,
}
use arksh.Path.Normal.{HasNoSeparator, AllUp, Normal}

-- The segments with separators between them, from the last segment back.
abbrev pub joined : List Bytes → Bytes
joined [] = []
joined (t ∷ []) = t
joined (t ∷ u ∷ ts) = joined (u ∷ ts) ++ b'/' ∷ t

is_same_lem : (s t : Bytes) → is_same s t ≡ true → s ≡ t
unfolding is_same
is_same_lem [] [] e = refl
is_same_lem [] (c ∷ t) e = ground arith
is_same_lem (c ∷ s) [] e = ground arith
is_same_lem (c ∷ s) (d ∷ t) e =
    let head : c ≡ d = ground arith in
    let tail = is_same_lem s t (ground arith) in ap (λ x. x ∷ s) head ∙ ap (◌∷◌ d) tail

push_room :
    (segments : List Bytes) (t : Bytes)
    → length segments < 64
    → length t ≤ 127
    → push_segment segments t ≡ some (t ∷ segments)
unfolding push_segment
push_room segments t few fits =
    let room : leb 64 (length segments) ≡ false = ground arith in
    rw (room, take_all 127 t fits) refl

-- A resolved segment is pushed behind the segments before it.
end_segment :
    (absolute : Bool) (ts : List Bytes) (t : Bytes)
    → Normal absolute (t ∷ ts)
    → length ts < 64
    → end_token absolute ts t ≡ some (t ∷ ts)
unfolding end_token
end_segment absolute ts [] h few = absurd (omega (arith, h.0.0))
end_segment absolute ts (c ∷ s) h few = elim (Bool-cases (is_same (c ∷ s) dot_dot)) [
  | inl up ↦ rw (h.0.1, up) (ups ts (h.1 up).0 (h.1 up).1 few (is_same_lem (c ∷ s) dot_dot up))
  | inr plain ↦ rw (h.0.1, plain) (push_room ts (c ∷ s) few h.0.2.0)
]
  where
    ups :
        (ts : List Bytes)
        → absolute ≡ false
        → AllUp ts
        → length ts < 64
        → c ∷ s ≡ dot_dot
        → go_up absolute ts ≡ some ((c ∷ s) ∷ ts)
    ups [] e a few same = rw (go_up, e, same) (push_room [] dot_dot (omega arith) (omega arith))
    ups (u ∷ us) e a few same =
        rw (go_up, e, same, a.0) (push_room (u ∷ us) dot_dot few (omega arith))

and_then_assoc :
    (o : Option (List Bytes)) (f g : List Bytes → Option (List Bytes))
    → and_then (and_then o f) g ≡ and_then o (λ x. and_then (f x) g)
and_then_assoc none f g = refl
and_then_assoc (some x) f g = refl

split-append :
    (absolute : Bool) (segments : List Bytes) (token xs ys : Bytes)
    → split_segments absolute segments token (xs ++ b'/' ∷ ys)
      ≡ and_then
          (split_segments absolute segments token xs)
          (λ next. split_segments absolute next [] ys)
unfolding split_segments
split-append absolute segments token [] ys = refl
split-append absolute segments token (c ∷ xs) ys = elim (Bool-cases (c == b'/')) [
  | inl e ↦
      rw (split_segments, e)
        (ap (and_then (end_token absolute segments token))
            (λ i next. split-append absolute next [] xs ys i)
          ∙ sym (and_then_assoc (end_token absolute segments token) _ _))
  | inr e ↦ rw (split_segments, e) (split-append absolute segments (extend_token token c) xs ys)
]

split_token :
    (absolute : Bool) (segments : List Bytes) (token t : Bytes)
    → HasNoSeparator t
    → length token + length t ≤ 127
    → split_segments absolute segments token t ≡ end_token absolute segments (token ++ t)
unfolding split_segments extend_token
split_token absolute segments token [] k fits = rw (append-nil token) refl
split_token absolute segments token (c ∷ t) k fits =
    let room : ltb (length token + 1) max_name ≡ true = lt→ltb _ _ (omega arith) in
    rw (split_segments, k.0, extend_token, room)
      (split_token absolute segments (token ++ c ∷ []) t k.1
          (omega (arith, length-append token (c ∷ [])))
        ∙ ap (end_token absolute segments) (append_assoc token (c ∷ []) t))

split_nothing : (absolute : Bool) → split_segments absolute [] [] [] ≡ some []
unfolding split_segments end_token
split_nothing absolute = refl

pub split_joined :
    (absolute : Bool) (ts : List Bytes)
    → Normal absolute ts
    → length ts ≤ 64
    → split_segments absolute [] [] (joined ts) ≡ some ts
split_joined absolute [] h few = split_nothing absolute
split_joined absolute (t ∷ []) h few =
    split_token absolute [] [] t h.0.2.1 (omega (arith, h.0.2.0))
    ∙ end_segment absolute [] t h (omega arith)
split_joined absolute (t ∷ u ∷ ts) h few =
    split-append absolute [] [] (joined (u ∷ ts)) t
    ∙ ap (λ o. and_then o (λ next. split_segments absolute next [] t))
        (split_joined absolute (u ∷ ts) h.2 (omega arith))
    ∙ split_token absolute (u ∷ ts) [] t h.0.2.1 (omega (arith, h.0.2.0))
    ∙ end_segment absolute (u ∷ ts) t h (omega arith)
