-- ===== src/Path/Normal.antt =====
-- What `normalize_path` of src/platform.c leaves of a path: no `.`, no `..` but in front of a
-- relative path, and no separator inside a segment.
use arksh.Base.{
  ℕ, ◌+◌, ◌≤◌, ◌≡◌, refl, sym, subst, inl, inr, Bool, true, false, not, Option, none, some,
  Bool-cases, List, [], ◌∷◌, ◌++◌, arith, leb, ltb, ◌==◌, if◌then◌else◌, length, take_all,
  length-append, All, Bytes,
}
use arksh.Path.{
  is_same, dot, dot_dot, max_name, push_segment, go_up, end_token, extend_token, and_then,
  split_segments,
}

abbrev pub HasNoSeparator : Bytes → Type 0
HasNoSeparator = All (λ c. (c == b'/') ≡ false)

-- A token in the buffer.
abbrev pub IsToken : Bytes → Type 0
IsToken t = (length t ≤ 127) × HasNoSeparator t

abbrev pub IsSegment : Bytes → Type 0
IsSegment t = (1 ≤ length t) × (is_same t dot ≡ false) × IsToken t

abbrev pub AllUp : List Bytes → Type 0
AllUp = All (λ t. is_same t dot_dot ≡ true)

-- Resolved segments, the last one first.
abbrev pub Normal : Bool → List Bytes → Type 0
Normal absolute [] = Unit
Normal absolute (t ∷ ts) =
    IsSegment t × (is_same t dot_dot ≡ true → (absolute ≡ false) × AllUp ts) × Normal absolute ts

abbrev pub NormalResult : Bool → Option (List Bytes) → Type 0
NormalResult absolute none = Unit
NormalResult absolute (some segments) = Normal absolute segments × (length segments ≤ 64)

NormalResult-if :
    (absolute b : Bool) (x y : Option (List Bytes))
    → (b ≡ true → NormalResult absolute x)
    → (b ≡ false → NormalResult absolute y)
    → NormalResult absolute (if b then x else y)
NormalResult-if absolute true x y h g = h refl
NormalResult-if absolute false x y h g = g refl

push_segment-Normal :
    (absolute : Bool) (segments : List Bytes) (t : Bytes)
    → Normal absolute (t ∷ segments)
    → NormalResult absolute (push_segment segments t)
unfolding push_segment
push_segment-Normal absolute segments t h =
    NormalResult-if absolute (leb 64 (length segments)) _ _ (λ e. tt)
      (λ e.
        subst (λ u. NormalResult absolute (some (u ∷ segments))) (sym (take_all 127 t h.0.2.0))
          (h, ground arith))

dot_dot-IsSegment : IsSegment dot_dot
unfolding is_same
dot_dot-IsSegment = (omega arith, refl, (omega arith, (refl, (refl, tt))))

go_up-Normal :
    (absolute : Bool) (segments : List Bytes)
    → Normal absolute segments
    → length segments ≤ 64
    → NormalResult absolute (go_up absolute segments)
unfolding go_up
go_up-Normal absolute [] h few =
    NormalResult-if absolute absolute _ _ (λ e. (tt, omega arith))
      (λ e. push_segment-Normal absolute [] dot_dot (dot_dot-IsSegment, (λ _. (e, tt)), tt))
go_up-Normal absolute (t ∷ ts) h few =
    NormalResult-if absolute (not (is_same t dot_dot)) _ _ (λ e. (h.2, omega arith))
      (λ up.
        NormalResult-if absolute absolute _ _ (λ e. (h, few))
          (λ e.
            push_segment-Normal absolute (t ∷ ts) dot_dot
              (dot_dot-IsSegment, (λ _. (e, (above up, (h.1 (above up)).1))), h)))
  where
    above : not (is_same t dot_dot) ≡ false → is_same t dot_dot ≡ true
    above e = ground arith

end_token-Normal :
    (absolute : Bool) (segments : List Bytes) (t : Bytes)
    → Normal absolute segments
    → length segments ≤ 64
    → IsToken t
    → NormalResult absolute (end_token absolute segments t)
unfolding end_token
end_token-Normal absolute segments [] h few k = (h, few)
end_token-Normal absolute segments (c ∷ s) h few k =
    NormalResult-if absolute (is_same (c ∷ s) dot) _ _ (λ e. (h, few))
      (λ not_dot.
        NormalResult-if absolute (is_same (c ∷ s) dot_dot) _ _
          (λ e. go_up-Normal absolute segments h few)
          (λ not_up. push_segment-Normal absolute segments (c ∷ s) (
            (omega arith, not_dot, k),
            (λ up. absurd (both (is_same (c ∷ s) dot_dot) up not_up)),
            h,
          )))
  where
    both : (b : Bool) → b ≡ true → b ≡ false → ⊥
    both b e g = ground arith

All-snoc {ℓ κ} :
    {A : Type ℓ} (P : A → Type κ) (xs : List A) (x : A) → All P xs → P x → All P (xs ++ x ∷ [])
All-snoc P [] x h p = (p, tt)
All-snoc P (y ∷ xs) x h p = (h.0, All-snoc P xs x h.1 p)

extend_token-IsToken :
    (t : Bytes) (c : ℕ) → IsToken t → (c == b'/') ≡ false → IsToken (extend_token t c)
unfolding extend_token
extend_token-IsToken t c k e = elim (Bool-cases (ltb (length t + 1) max_name)) [
  | inl room ↦
      rw (room, IsToken)
        (ground (arith, length-append t (c ∷ [])), All-snoc (λ d. (d == b'/') ≡ false) t c k.1 e)
  | inr full ↦ rw full k
]

and_then-Normal :
    (absolute : Bool) (o : Option (List Bytes)) (f : List Bytes → Option (List Bytes))
    → NormalResult absolute o
    → ((segments : List Bytes)
        → Normal absolute segments
        → length segments ≤ 64
        → NormalResult absolute (f segments))
    → NormalResult absolute (and_then o f)
and_then-Normal absolute none f h g = tt
and_then-Normal absolute (some segments) f h g = g segments h.0 h.1

-- The loop of `normalize_path`, begun on resolved segments and a token, leaves at most 64 segments,
-- each of one to ARKSH_MAX_NAME - 1 characters without a separator; none is `.`, and `..` stands
-- only in relative paths and only behind other `..`.
pub split_segments-Normal :
    (absolute : Bool) (segments : List Bytes) (token s : Bytes)
    → Normal absolute segments
    → length segments ≤ 64
    → IsToken token
    → NormalResult absolute (split_segments absolute segments token s)
unfolding split_segments
split_segments-Normal absolute segments token [] h few k =
    end_token-Normal absolute segments token h few k
split_segments-Normal absolute segments token (c ∷ s) h few k = elim (Bool-cases (c == b'/')) [
  | inl e ↦
      rw (e, NormalResult)
        (and_then-Normal absolute _ _ (end_token-Normal absolute segments token h few k)
          (λ next n m. split_segments-Normal absolute next [] s n m (omega arith, tt)))
  | inr e ↦
      rw (e, NormalResult)
        (split_segments-Normal absolute segments (extend_token token c) s h few
          (extend_token-IsToken token c k e))
]
