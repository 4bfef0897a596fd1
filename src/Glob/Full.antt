-- ===== src/Glob/Full.antt =====
-- `glob_match_full` decides whether a pattern matches a whole text.
use arksh.Base.{
  ℕ, ◌≡◌, refl, ◌↔◌, ◌⊎◌, inl, inr, Bool, true, false, List, [], ◌∷◌, ◌==◌, if◌then◌else◌,
  Bool-cases, arith, Bytes,
}
use arksh.Glob.{at_end, try_each, skip_one, eat, glob_match_full}
use arksh.Glob.Pattern.{Item, token, star, any, lit, items, done, one, same, leave, more, Matches}

abbrev DecidesFull : (Bytes → Bool) → List Item → Type 0
DecidesFull f q = (s : Bytes) → (f s ≡ true) ↔ Matches q s

at_end-Decides : DecidesFull at_end []
unfolding at_end
at_end-Decides [] = (λ _. done, λ _. refl)
at_end-Decides (c ∷ s) = (λ h. cc, λ d. elim d [ ])

skip_one-Decides :
    (f : Bytes → Bool) (q : List Item) → DecidesFull f q → DecidesFull (skip_one f) (any ∷ q)
unfolding skip_one
skip_one-Decides f q h [] = (λ e. cc, λ d. elim d [ ])
skip_one-Decides f q h (c ∷ s) = (λ e. one ((h s).0 e), back)
  where
    back : Matches (any ∷ q) (c ∷ s) → f s ≡ true
    back (one d) = (h s).1 d

eat-Decides :
    (f : Bytes → Bool) (q : List Item) (x : ℕ) → DecidesFull f q → DecidesFull (eat x f) (lit x ∷ q)
unfolding eat
eat-Decides f q x h [] = (λ e. cc, λ d. elim d [ ])
eat-Decides f q x h (c ∷ s) = (forth, back)
  where
    forth : (if x == c then f s else false) ≡ true → Matches (lit x ∷ q) (c ∷ s)
    forth e = same (ground arith) ((h s).0 (ground arith))

    back : Matches (lit x ∷ q) (c ∷ s) → (if x == c then f s else false) ≡ true
    back (same e d) = ground (arith, (h s).1 d)

try_each-Decides :
    (f : Bytes → Bool) (q : List Item) → DecidesFull f q → DecidesFull (try_each f) (star ∷ q)
unfolding try_each
try_each-Decides f q h [] = (λ e. leave ((h []).0 e), back)
  where
    back : Matches (star ∷ q) [] → f [] ≡ true
    back (leave d) = (h []).1 d
try_each-Decides f q h (c ∷ s) =
    let ih = try_each-Decides f q h s in (forth ih.0 (Bool-cases (f (c ∷ s))), back ih.1)
  where
    forth :
        (try_each f s ≡ true → Matches (star ∷ q) s)
        → (f (c ∷ s) ≡ true) ⊎ (f (c ∷ s) ≡ false)
        → (if f (c ∷ s) then true else try_each f s) ≡ true
        → Matches (star ∷ q) (c ∷ s)
    forth ih (inl e) _ = leave ((h (c ∷ s)).0 e)
    forth ih (inr e) k = more (ih (ground arith))

    back :
        (Matches (star ∷ q) s → try_each f s ≡ true)
        → Matches (star ∷ q) (c ∷ s)
        → (if f (c ∷ s) then true else try_each f s) ≡ true
    back ih (leave d) = ground (arith, (h (c ∷ s)).1 d)
    back ih (more d) = ground (arith, ih d)

-- The three-way branch on an unescaped byte of the pattern.
token-Decides :
    (c : ℕ) (f : Bytes → Bool) (q : List Item)
    → DecidesFull f q
    → DecidesFull
        (λ s. if c == b'*' then try_each f s else if c == b'?' then skip_one f s else eat c f s)
        (token c ∷ q)
token-Decides c f q h s = elim (Bool-cases (c == b'*')) [
  | inl e ↦ rw e (try_each-Decides f q h s)
  | inr e ↦ elim (Bool-cases (c == b'?')) [
    | inl e' ↦ rw (e, e') (skip_one-Decides f q h s)
    | inr e' ↦ rw (e, e') (eat-Decides f q c h s)
  ]
]

escape_byte : (c : ℕ) → (c == b'\\') ≡ true → ((c == b'*') ≡ false) × ((c == b'?') ≡ false)
escape_byte c h = ground arith

-- `glob_match_full` returns 1 exactly on the texts that the pattern's items match whole.
pub glob_match_full_iff : (pat s : Bytes) → (glob_match_full pat s ≡ true) ↔ Matches (items pat) s
unfolding glob_match_full
glob_match_full_iff [] s = at_end-Decides s
glob_match_full_iff (c ∷ []) s = token-Decides c at_end [] at_end-Decides s
glob_match_full_iff (c ∷ d ∷ pat) s = elim (Bool-cases (c == b'\\')) [
  | inl e ↦
      let (not_star, not_any) = escape_byte c e in
      rw (e, not_star, not_any)
        (eat-Decides (glob_match_full pat) (items pat) d (glob_match_full_iff pat) s)
  | inr e ↦ rw e (
      token-Decides c (glob_match_full (d ∷ pat)) (items (d ∷ pat)) (glob_match_full_iff (d ∷ pat))
        s)
]
