-- ===== src/Glob/Prefix.antt =====
-- `glob_match_prefix` finds the longest prefix that a pattern matches.
use arksh.Base.{
  ℕ, zero, suc, ◌+◌, ◌-◌, ◌≤◌, ◌<◌, ◌≡◌, refl, inl, inr, true, false, Option, none, some,
  Option-cases, List, [], ◌∷◌, ◌==◌, ==_iff, if◌then◌else◌, Bool-cases, arith, length, drop,
  length-drop, Bytes, sym, subst, ap, ◌∙◌,
}
use native.Mathlib.Decide.{dec_lt, ℕ_discrete}
use native.Mathlib.Nat.{zero-add, suc-add}
use arksh.Glob.{plus, greedy, prefix_skip_one, prefix_eat, glob_match_prefix}
use arksh.Glob.Pattern.{
  Item, star, any, lit, token, items, Takes, done, one, same, Suffix, here, there, Takes-star,
  star-Takes, Takes-later,
}

-- The answer `n` is a prefix that the items take, and no prefix that they take is longer; where
-- there is no answer they take no prefix.
abbrev pub Longest : List Item → Bytes → Option ℕ → Type 0
Longest q s none = (r : Bytes) → ¬ Takes q s r
Longest q s (some n) =
    (n ≤ length s) × Takes q s (drop n s) × ((r : Bytes) → Takes q s r → length s ≤ n + length r)

abbrev FindsLongest : (Bytes → Option ℕ) → List Item → Type 0
FindsLongest f q = (s : Bytes) → Longest q s (f s)

Suffix-drop : (n : ℕ) (s : Bytes) → Suffix (drop n s) s
Suffix-drop zero s = here
Suffix-drop (suc n) [] = here
Suffix-drop (suc n) (c ∷ s) = there (Suffix-drop n s)

-- The other way round: a suffix is what some number of dropped bytes leaves.
drop_of_Suffix : {t s : Bytes} → Suffix t s → (i : ℕ) × (i ≤ length s) × (drop i s ≡ t)
drop_of_Suffix here = (0, omega arith, refl)
drop_of_Suffix (there p) = let (i, h, e) = drop_of_Suffix p in (suc i, omega arith, e)

one-add : (k : ℕ) → 1 + k ≡ suc k
one-add k = omega arith

drop-drop : (k n : ℕ) (s : Bytes) → drop n (drop k s) ≡ drop (k + n) s
drop-drop zero n s = rw zero-add
drop-drop (suc k) zero [] = rw suc-add
drop-drop (suc k) (suc n) [] = rw suc-add
drop-drop (suc k) n (c ∷ s) = rw suc-add (drop-drop k n s)

-- One byte taken by the pattern's first item, then the answer for what follows it.
Longest-any :
    (c : ℕ) (q : List Item) (s : Bytes) (o : Option ℕ)
    → Longest q s o
    → Longest (any ∷ q) (c ∷ s) (plus 1 o)
Longest-any c q s none h = no_prefix
  where
    no_prefix : (r : Bytes) → ¬ Takes (any ∷ q) (c ∷ s) r
    no_prefix r (one d) = h r d
Longest-any c q s (some k) (small, d, b) = rw (one-add k) (omega arith, one d, bound)
  where
    bound : (r : Bytes) → Takes (any ∷ q) (c ∷ s) r → length (c ∷ s) ≤ suc k + length r
    bound r (one e) = omega (arith, b r e)

Longest-same :
    (x c : ℕ) (q : List Item) (s : Bytes) (o : Option ℕ)
    → x ≡ c
    → Longest q s o
    → Longest (lit x ∷ q) (c ∷ s) (plus 1 o)
Longest-same x c q s none e h = no_prefix
  where
    no_prefix : (r : Bytes) → ¬ Takes (lit x ∷ q) (c ∷ s) r
    no_prefix r (same _ d) = h r d
Longest-same x c q s (some k) e (small, d, b) = rw (one-add k) (omega arith, same e d, bound)
  where
    bound : (r : Bytes) → Takes (lit x ∷ q) (c ∷ s) r → length (c ∷ s) ≤ suc k + length r
    bound r (same _ f) = omega (arith, b r f)

Suffix-drop-drop : (i k : ℕ) (s : Bytes) → i ≤ k → Suffix (drop k s) (drop i s)
Suffix-drop-drop i k s h =
    let e : i + (k - i) ≡ k = omega arith in
    subst (λ t. Suffix t (drop i s)) (drop-drop i (k - i) s ∙ ap (λ m. drop m s) e)
      (Suffix-drop (k - i) (drop i s))

skip_one-Finds :
    (f : Bytes → Option ℕ) (q : List Item)
    → FindsLongest f q
    → FindsLongest (prefix_skip_one f) (any ∷ q)
unfolding prefix_skip_one
skip_one-Finds f q h [] = λ r d. elim d [ ]
skip_one-Finds f q h (c ∷ s) = Longest-any c q s (f s) (h s)

not_same : {x c : ℕ} {q : List Item} {s r : Bytes} → Takes (lit x ∷ q) (c ∷ s) r → x ≡ c
not_same (same e d) = e

eat-Finds :
    (f : Bytes → Option ℕ) (q : List Item) (x : ℕ)
    → FindsLongest f q
    → FindsLongest (prefix_eat x f) (lit x ∷ q)
unfolding prefix_eat
eat-Finds f q x h [] = λ r d. elim d [ ]
eat-Finds f q x h (c ∷ s) = elim (Bool-cases (x == c)) [
  | inl e ↦ rw e (Longest-same x c q s (f s) ((==_iff x c).0 e) (h s))
  | inr e ↦ rw e (λ r d. absurd (ground (arith, not_same d)))
]

module _ (f : Bytes → Option ℕ) (q : List Item) (h : FindsLongest f q) (s : Bytes) where
  -- No start further on than `k` has an answer.
  abbrev NoneBeyond : ℕ → Type 0
  NoneBeyond k = (i : ℕ) → k < i → i ≤ length s → f (drop i s) ≡ none

  none-Takes : (t r : Bytes) → f t ≡ none → ¬ Takes q t r
  none-Takes t r e d = subst (Longest q t) e (h t) r d

  greedy_bound :
      (k n : ℕ) (r : Bytes)
      → k ≤ length s
      → NoneBeyond k
      → f (drop k s) ≡ some n
      → Takes (star ∷ q) s r
      → length s ≤ k + n + length r
  greedy_bound k n r small later found e =
      let (j, pj, dj) = Takes-star e in
      let (i, hi, ei) = drop_of_Suffix pj in
      let di : Takes q (drop i s) r = subst (λ t. Takes q t r) (sym ei) dj in
      let (inside, d, b) = subst (Longest q (drop k s)) found (h (drop k s)) in
      elim (dec_lt k i) [
        | yes beyond ↦ absurd (none-Takes (drop i s) r (later i beyond hi) di)
        | no not_beyond ↦
            let (w, dw, hw) = Takes-later q (Suffix-drop-drop i k s (omega arith)) di d in
            omega (arith, b w dw, length-drop k s)
      ]

  -- The star's rest answers at `k` dropped bytes.
  greedy_here :
      (k n : ℕ)
      → k ≤ length s
      → NoneBeyond k
      → f (drop k s) ≡ some n
      → Longest (star ∷ q) s (some (k + n))
  greedy_here k n small later found =
      let (inside, d, b) = subst (Longest q (drop k s)) found (h (drop k s)) in
      (
        omega (arith, length-drop k s),
        star-Takes (Suffix-drop k s) (subst (λ t. Takes q (drop k s) t) (drop-drop k n s) d),
        λ r e. greedy_bound k n r small later found e,
      )

  greedy_nowhere : NoneBeyond 0 → f s ≡ none → Longest (star ∷ q) s none
  greedy_nowhere later e r d =
      let (j, pj, dj) = Takes-star d in
      let (i, hi, ei) = drop_of_Suffix pj in
      let di : Takes q (drop i s) r = subst (λ t. Takes q t r) (sym ei) dj in
      none-Takes (drop i s) r (nothing i hi) di
    where
      nothing : (i : ℕ) → i ≤ length s → f (drop i s) ≡ none
      nothing zero _ = e
      nothing (suc i) hi = later (suc i) (omega arith) hi

  NoneBeyond-step : (k : ℕ) → NoneBeyond (suc k) → f (drop (suc k) s) ≡ none → NoneBeyond k
  NoneBeyond-step k later e i hi small = elim (ℕ_discrete i (suc k)) [
    | yes same_start ↦ subst (λ j. f (drop j s) ≡ none) (sym same_start) e
    | no other ↦ later i (omega arith) small
  ]

  greedy-Longest : (k : ℕ) → k ≤ length s → NoneBeyond k → Longest (star ∷ q) s (greedy f s k)
  unfolding greedy
  greedy-Longest zero small later = elim (Option-cases (f s)) [
    | inl e ↦ rw e (greedy_nowhere later e)
    | inr (n, e) ↦ rw e (greedy_here 0 n small later e)
  ]
  greedy-Longest (suc k) small later = elim (Option-cases (f (drop (suc k) s))) [
    | inl e ↦ rw (e, greedy) (greedy-Longest k (omega arith) (NoneBeyond-step k later e))
    | inr (n, e) ↦ rw (e, greedy) (greedy_here (suc k) n small later e)
  ]

token-Finds :
    (c : ℕ) (f : Bytes → Option ℕ) (q : List Item)
    → FindsLongest f q
    → FindsLongest
        (λ s.
          if c == b'*'
          then greedy f s (length s)
          else if c == b'?'
          then prefix_skip_one f s
          else prefix_eat c f s)
        (token c ∷ q)
token-Finds c f q h s = elim (Bool-cases (c == b'*')) [
  | inl e ↦ rw e (greedy-Longest f q h s (length s) (omega arith) (λ i p p'. absurd (omega arith)))
  | inr e ↦ elim (Bool-cases (c == b'?')) [
    | inl e' ↦ rw (e, e') (skip_one-Finds f q h s)
    | inr e' ↦ rw (e, e') (eat-Finds f q c h s)
  ]
]

nil-Finds : FindsLongest (glob_match_prefix []) []
unfolding glob_match_prefix
nil-Finds s = (omega arith, done, bound)
  where
    bound : (r : Bytes) → Takes [] s r → length s ≤ 0 + length r
    bound r done = omega arith

escape_byte : (c : ℕ) → (c == b'\\') ≡ true → ((c == b'*') ≡ false) × ((c == b'?') ≡ false)
escape_byte c h = ground arith

-- `glob_match_prefix` returns the length of the longest prefix that the pattern's items match, and
-- -1 exactly where they match no prefix. A `[` in the pattern is a byte like any other.
pub glob_match_prefix-Longest : (pat s : Bytes) → Longest (items pat) s (glob_match_prefix pat s)
unfolding glob_match_prefix
glob_match_prefix-Longest [] s = nil-Finds s
glob_match_prefix-Longest (c ∷ []) s = token-Finds c (glob_match_prefix []) [] nil-Finds s
glob_match_prefix-Longest (c ∷ d ∷ pat) s = elim (Bool-cases (c == b'\\')) [
  | inl e ↦
      let (not_star, not_any) = escape_byte c e in
      rw (e, not_star, not_any)
        (eat-Finds (glob_match_prefix pat) (items pat) d (glob_match_prefix-Longest pat) s)
  | inr e ↦ rw e (
      token-Finds c (glob_match_prefix (d ∷ pat)) (items (d ∷ pat))
        (glob_match_prefix-Longest (d ∷ pat)) s)
]
