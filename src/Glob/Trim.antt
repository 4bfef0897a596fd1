-- ===== src/Glob/Trim.antt =====
-- `apply_suffix_trim` and `apply_prefix_trim`: `${v%p}`, `${v%%p}`, `${v#p}` and `${v##p}`.
use arksh.Base.{
  max_output, copy_string, take_all, ℕ, zero, suc, ◌+◌, ◌-◌, ◌≤◌, ◌<◌, ◌≡◌, inl, inr, ◌↔◌, Bool,
  true, false, Option, none, some, arith, ltb, if◌then◌else◌, Bool-cases, length, drop, take,
  length-drop, not, Bytes, subst, ap,
}
use native.Mathlib.Decide.{ℕ_discrete}
use arksh.Glob.{glob_match_full}
use arksh.Glob.Pattern.{items, Matches}
use arksh.Glob.Full.{glob_match_full_iff}

-- `for (k = k0; k <= len; ++k) if (test(k)) …`, by the rounds left after `k`.
unfoldable pub scan_up : (ℕ → Bool) → ℕ → ℕ → Option ℕ
scan_up test k zero = if test k then some k else none
scan_up test k (suc rounds) = if test k then some k else scan_up test (suc k) rounds

-- `k = len; for (;;) { if (test(k)) …; if (k == 0) break; k--; }`
unfoldable pub scan_down : (ℕ → Bool) → ℕ → Option ℕ
scan_down test zero = if test 0 then some 0 else none
scan_down test (suc k) = if test (suc k) then some (suc k) else scan_down test k

-- `size_t copy_len = k < size - 1 ? k : size - 1`
abbrev pub clip : ℕ → ℕ → ℕ
clip size k = if ltb k (size - 1) then k else size - 1

-- The two ends of `apply_suffix_trim`: `memcpy` of the bytes before the cut, or the value.
unfoldable pub cut_head : ℕ → Bytes → Option ℕ → Bytes
cut_head out_size val (some k) = take (clip out_size k) val
cut_head out_size val none = copy_string out_size val

-- The two ends of `apply_prefix_trim`.
unfoldable pub cut_tail : ℕ → Bytes → Option ℕ → Bytes
cut_tail out_size val (some match_len) = copy_string out_size (drop match_len val)
cut_tail out_size val none = copy_string out_size val

unfoldable pub apply_suffix_trim : Bytes → Bytes → Bool → ℕ → Bytes
unfolding scan_up scan_down cut_head
apply_suffix_trim val pat longest out_size =
    let test : ℕ → Bool = λ k. glob_match_full pat (drop k val) in
    cut_head out_size val
      (if longest then scan_up test 0 (length val) else scan_down test (length val))

unfoldable pub apply_prefix_trim : Bytes → Bytes → Bool → ℕ → Bytes
unfolding scan_up scan_down cut_tail
apply_prefix_trim val pat longest out_size =
    let test : ℕ → Bool = λ k. glob_match_full pat (take (clip max_output k) val) in
    cut_tail out_size val
      (if longest then scan_down test (length val) else scan_up test 0 (length val))

-- The cut that a scan finds: the first (or last) index from `lo` up to `hi` that passes.
abbrev pub Found : (ℕ → ℕ → Type 0) → (ℕ → Type 0) → ℕ → ℕ → Option ℕ → Type 0
Found Before P lo hi none = (j : ℕ) → lo ≤ j → j ≤ hi → ¬ P j
Found Before P lo hi (some k) =
    (lo ≤ k) × (k ≤ hi) × P k × ((j : ℕ) → lo ≤ j → j ≤ hi → P j → Before k j)

module _ (Before : ℕ → ℕ → Type 0) (P : ℕ → Type 0) where
  not_at : (k j : ℕ) → ¬ P k → j ≡ k → ¬ P j
  not_at k j n e h = n (subst P e h)

  Found-skip_first :
      (k hi : ℕ) (o : Option ℕ) → ¬ P k → Found Before P (suc k) hi o → Found Before P k hi o
  Found-skip_first k hi none n f =
      λ j a b. elim (ℕ_discrete j k) [ yes e ↦ not_at k j n e | no ne ↦ f j (omega arith) b ]
  Found-skip_first k hi (some m) n (a, b, p, first) = (
    omega arith,
    b,
    p,
    λ j c d q. elim (ℕ_discrete j k) [
      | yes e ↦ absurd (not_at k j n e q)
      | no ne ↦ first j (omega arith) d q
    ],
  )

  Found-skip_last :
      (k : ℕ) (o : Option ℕ) → ¬ P (suc k) → Found Before P 0 k o → Found Before P 0 (suc k) o
  Found-skip_last k none n f = λ j a b. elim (ℕ_discrete j (suc k)) [
    | yes e ↦ not_at (suc k) j n e
    | no ne ↦ f j a (omega arith)
  ]
  Found-skip_last k (some m) n (a, b, p, last) = (
    a,
    omega arith,
    p,
    λ j c d q. elim (ℕ_discrete j (suc k)) [
      | yes e ↦ absurd (not_at (suc k) j n e q)
      | no ne ↦ last j c (omega arith) q
    ],
  )

module _ (Before : ℕ → ℕ → Type 0) (P Q : ℕ → Type 0) (hi : ℕ) where
  -- A search is judged by what its test means, inside the range that it looks at.
  Found-iff :
      ((k : ℕ) → k ≤ hi → P k ↔ Q k)
      → (o : Option ℕ) → Found Before P 0 hi o
      → Found Before Q 0 hi o
  Found-iff e none f = λ j a b q. f j a b ((e j b).1 q)
  Found-iff e (some k) (a, b, p, best) = (a, b, (e k b).0 p, λ j c d q. best j c d ((e j d).1 q))

module _ (test : ℕ → Bool) where
  abbrev Passes : ℕ → Type 0
  Passes k = test k ≡ true

  not-Passes : (k : ℕ) → test k ≡ false → ¬ Passes k
  not-Passes k e h = cc

  scan_up-Found :
      (k rounds hi : ℕ) → k + rounds ≡ hi → Found (λ a b. a ≤ b) Passes k hi (scan_up test k rounds)
  unfolding scan_up
  scan_up-Found k zero hi e = elim (Bool-cases (test k)) [
    | inl h ↦ rw h (omega arith, omega arith, h, λ j a b _. a)
    | inr h ↦ rw h (λ j a b. not_at (λ a b. Unit) Passes k j (not-Passes k h) (omega arith))
  ]
  scan_up-Found k (suc rounds) hi e = elim (Bool-cases (test k)) [
    | inl h ↦ rw h (omega arith, omega arith, h, λ j a b _. a)
    | inr h ↦ rw h (
        Found-skip_first _ Passes k hi _ (not-Passes k h)
          (scan_up-Found (suc k) rounds hi (omega arith)))
  ]

  scan_down-Found : (k : ℕ) → Found (λ a b. b ≤ a) Passes 0 k (scan_down test k)
  unfolding scan_down
  scan_down-Found zero = elim (Bool-cases (test 0)) [
    | inl h ↦ rw h (omega arith, omega arith, h, λ j a b _. b)
    | inr h ↦ rw h (λ j a b. not_at (λ a b. Unit) Passes 0 j (not-Passes 0 h) (omega arith))
  ]
  scan_down-Found (suc k) = elim (Bool-cases (test (suc k))) [
    | inl h ↦ rw h (omega arith, omega arith, h, λ j a b _. b)
    | inr h ↦ rw h (Found-skip_last _ Passes k _ (not-Passes (suc k) h) (scan_down-Found k))
  ]

-- Longest means the earliest cut for a suffix, and the latest for a prefix.
abbrev pub Earliest : Bool → ℕ → ℕ → Type 0
Earliest true k j = k ≤ j
Earliest false k j = j ≤ k

abbrev pub kept_head : Bytes → Option ℕ → Bytes
kept_head val none = val
kept_head val (some k) = take k val

abbrev pub kept_tail : Bytes → Option ℕ → Bytes
kept_tail val none = val
kept_tail val (some k) = drop k val

clip_small : (size k : ℕ) → k < size → clip size k ≡ k
clip_small size k h = ground arith

cut_head-Found :
    (B : ℕ → ℕ → Type 0) (P : ℕ → Type 0) (out_size : ℕ) (val : Bytes) (o : Option ℕ)
    → length val < out_size
    → Found B P 0 (length val) o
    → cut_head out_size val o ≡ kept_head val o
unfolding cut_head
cut_head-Found B P out_size val none fits f = take_all (out_size - 1) val (omega arith)
cut_head-Found B P out_size val (some k) fits (_, small, _, _) =
    ap (λ n. take n val) (clip_small out_size k (omega arith))

cut_tail_fits :
    (out_size : ℕ) (val : Bytes) (o : Option ℕ)
    → length val < out_size
    → cut_tail out_size val o ≡ kept_tail val o
unfolding cut_tail
cut_tail_fits out_size val none fits = take_all (out_size - 1) val (omega arith)
cut_tail_fits out_size val (some k) fits =
    take_all (out_size - 1) (drop k val) (omega (arith, length-drop k val))

module _ (val pat : Bytes) where
  -- The cuts that `${v%p}` and `${v#p}` may make.
  abbrev pub SuffixMatches : ℕ → Type 0
  SuffixMatches k = Matches (items pat) (drop k val)

  abbrev pub PrefixMatches : ℕ → Type 0
  PrefixMatches k = Matches (items pat) (take k val)

  suffix_test :
      (k : ℕ) → k ≤ length val → (glob_match_full pat (drop k val) ≡ true) ↔ SuffixMatches k
  suffix_test k _ = glob_match_full_iff pat (drop k val)

  prefix_test :
      length val < max_output
      → (k : ℕ) → k ≤ length val
      → (glob_match_full pat (take (clip max_output k) val) ≡ true) ↔ PrefixMatches k
  prefix_test fits k small =
      rw (clip_small max_output k (omega arith)) (glob_match_full_iff pat (take k val))

  -- `apply_suffix_trim` removes the longest (`%%`) or shortest (`%`) suffix that the pattern
  -- matches, and returns the value unchanged where no suffix matches, if the value fits `out`.
  pub apply_suffix_trim_lem :
      (longest : Bool) (out_size : ℕ)
      → length val < out_size
      → (cut : Option ℕ) × Found (Earliest longest) SuffixMatches 0 (length val) cut
        × (apply_suffix_trim val pat longest out_size ≡ kept_head val cut)
  unfolding apply_suffix_trim
  apply_suffix_trim_lem true out_size fits =
      let test : ℕ → Bool = λ k. glob_match_full pat (drop k val) in
      let f =
        Found-iff _ _ SuffixMatches (length val) suffix_test _
          (scan_up-Found test 0 (length val) (length val) (omega arith)) in
      (_, f, cut_head-Found _ _ out_size val _ fits f)
  apply_suffix_trim_lem false out_size fits =
      let test : ℕ → Bool = λ k. glob_match_full pat (drop k val) in
      let f =
        Found-iff _ _ SuffixMatches (length val) suffix_test _
          (scan_down-Found test (length val)) in
      (_, f, cut_head-Found _ _ out_size val _ fits f)

  -- `apply_prefix_trim` removes the longest (`##`) or shortest (`#`) prefix that the pattern
  -- matches, and returns the value unchanged where no prefix matches, if the value fits `out` and
  -- the buffer `tmp`.
  pub apply_prefix_trim_lem :
      (longest : Bool) (out_size : ℕ)
      → length val < out_size
      → length val < max_output
      → (cut : Option ℕ) × Found (Earliest (not longest)) PrefixMatches 0 (length val) cut
        × (apply_prefix_trim val pat longest out_size ≡ kept_tail val cut)
  unfolding apply_prefix_trim
  apply_prefix_trim_lem true out_size fits small =
      let test : ℕ → Bool = λ k. glob_match_full pat (take (clip max_output k) val) in
      (
        scan_down test (length val),
        Found-iff _ _ PrefixMatches (length val) (prefix_test small) _
            (scan_down-Found test (length val)),
        cut_tail_fits out_size val _ fits,
      )
  apply_prefix_trim_lem false out_size fits small =
      let test : ℕ → Bool = λ k. glob_match_full pat (take (clip max_output k) val) in
      (
        scan_up test 0 (length val),
        Found-iff _ _ PrefixMatches (length val) (prefix_test small) _
            (scan_up-Found test 0 (length val) (length val) (omega arith)),
        cut_tail_fits out_size val _ fits,
      )
