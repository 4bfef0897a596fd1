-- ===== src/Case/Matches.antt =====
-- `shell_pattern_matches` of src/executor.c decides whether a pattern matches a text.
use arksh.Base.{
  ℕ, zero, suc, ◌<◌, ◌≡◌, refl, sym, ap, ◌∙◌, ◌↔◌, ◌⊎◌, inl, inr, Bool, true, false, not, none,
  some, List, [], ◌∷◌, ◌==◌, if◌then◌else◌, Bool-cases, length, arith, Bytes,
}
use arksh.Case.{
  skip_stars, try_ends, after_stars, after_class, case_char_class_matches, pattern_loop,
  shell_pattern_matches,
}
use arksh.Case.Pattern.{
  Item, star, one, Matches, done, take, leave, more, in_ranges, is_special, starts_with_star,
  Spells, end, any_text, again, any_byte, byte, quoted, backslash, class, complement,
}
use arksh.Case.Classes.{
  length-Ranges, case_char_class_matches-class, case_char_class_matches-complement,
}

abbrev Decides : (Bytes → Bool) → List Item → Type 0
Decides f q = (s : Bytes) → (f s ≡ true) ↔ Matches q s

star-all : (s : Bytes) → Matches (star ∷ []) s
star-all [] = leave done
star-all (c ∷ s) = more (star-all s)

try_ends-Decides :
    (f : Bytes → Bool) (q : List Item) → Decides f q → Decides (try_ends f) (star ∷ q)
unfolding try_ends
try_ends-Decides f q h [] = (λ e. leave ((h []).0 e), back)
  where
    back : Matches (star ∷ q) [] → f [] ≡ true
    back (leave d) = (h []).1 d
try_ends-Decides f q h (c ∷ s) =
    let ih = try_ends-Decides f q h s in (forth ih.0 (Bool-cases (f (c ∷ s))), back ih.1)
  where
    forth :
        (try_ends f s ≡ true → Matches (star ∷ q) s)
        → (f (c ∷ s) ≡ true) ⊎ (f (c ∷ s) ≡ false)
        → (if f (c ∷ s) then true else try_ends f s) ≡ true
        → Matches (star ∷ q) (c ∷ s)
    forth ih (inl e) _ = leave ((h (c ∷ s)).0 e)
    forth ih (inr e) k = more (ih (ground arith))

    back :
        (Matches (star ∷ q) s → try_ends f s ≡ true)
        → Matches (star ∷ q) (c ∷ s)
        → (if f (c ∷ s) then true else try_ends f s) ≡ true
    back ih (leave d) = ground (arith, (h (c ∷ s)).1 d)
    back ih (more d) = ground (arith, ih d)

-- A function that takes a byte by a test and goes on with the rest.
takes : (Bytes → Bool) → (ℕ → Bool) → Bytes → Bool
takes f test [] = false
takes f test (t ∷ s) = if test t then f s else false

takes-Decides :
    (f : Bytes → Bool) (test : ℕ → Bool) (q : List Item)
    → Decides f q
    → Decides (takes f test) (one test ∷ q)
unfolding takes
takes-Decides f test q h [] = (λ e. cc, λ d. elim d [ ])
takes-Decides f test q h (t ∷ s) = (forth, back)
  where
    forth : (if test t then f s else false) ≡ true → Matches (one test ∷ q) (t ∷ s)
    forth e = take (ground arith) ((h s).0 (ground arith))

    back : Matches (one test ∷ q) (t ∷ s) → (if test t then f s else false) ≡ true
    back (take e d) = ground (arith, (h s).1 d)

Decides-as :
    {f g : Bytes → Bool} {q : List Item} → ((s : Bytes) → g s ≡ f s) → Decides f q → Decides g q
Decides-as e h s = (λ k. (h s).0 (sym (e s) ∙ k), λ d. e s ∙ (h s).1 d)

skip_stars-other : (p : Bytes) → starts_with_star p ≡ false → skip_stars p ≡ p
skip_stars-other [] h = refl
skip_stars-other (c ∷ p) h = ground arith

after_class-in :
    (next : Bytes → Bytes → Bool) (s : Bytes) (b : Bool) (r : Bytes)
    → after_class next s (if b then some r else none) ≡ (if b then next r s else false)
after_class-in next s true r = refl
after_class-in next s false r = refl

any_byte-takes :
    (fuel : ℕ) (p s : Bytes)
    → pattern_loop (suc fuel) (b'?' ∷ p) s ≡ takes (pattern_loop fuel p) (λ t. true) s
unfolding pattern_loop takes
any_byte-takes fuel p [] = refl
any_byte-takes fuel p (t ∷ s) = refl

byte-takes :
    (fuel c : ℕ) (p s : Bytes)
    → is_special c ≡ false
    → pattern_loop (suc fuel) (c ∷ p) s ≡ takes (pattern_loop fuel p) (λ t. c == t) s
unfolding pattern_loop takes
byte-takes fuel c p [] h = ground arith
byte-takes fuel c [] (t ∷ s) h = ground arith
byte-takes fuel c (d ∷ p) (t ∷ s) h = ground arith

quoted-takes :
    (fuel c : ℕ) (p s : Bytes)
    → pattern_loop (suc fuel) (b'\\' ∷ c ∷ p) s ≡ takes (pattern_loop fuel p) (λ t. c == t) s
unfolding pattern_loop takes
quoted-takes fuel c p [] = refl
quoted-takes fuel c p (t ∷ s) = refl

backslash-takes :
    (fuel : ℕ) (s : Bytes)
    → pattern_loop (suc fuel) (b'\\' ∷ []) s ≡ takes (pattern_loop fuel []) (λ t. b'\\' == t) s
unfolding pattern_loop takes
backslash-takes fuel [] = refl
backslash-takes fuel (t ∷ s) = refl

class-takes :
    (fuel : ℕ) (p r s : Bytes) (test : ℕ → Bool)
    → ((t : ℕ) → case_char_class_matches p t ≡ (if test t then some r else none))
    → pattern_loop (suc fuel) (b'[' ∷ p) s ≡ takes (pattern_loop fuel r) test s
unfolding pattern_loop takes
class-takes fuel p r [] test h = refl
class-takes fuel p r (t ∷ s) test h =
    ap (after_class (pattern_loop fuel) s) (h t) ∙ after_class-in (pattern_loop fuel) s (test t) r

after_stars-Decides :
    (fuel : ℕ) (p : Bytes) (q : List Item)
    → Spells p q
    → Decides (pattern_loop fuel p) q
    → Decides (after_stars (pattern_loop fuel) p) (star ∷ q)
after_stars-Decides fuel [] q end h s = (λ e. star-all s, λ d. refl)
after_stars-Decides fuel (c ∷ p) q k h s = try_ends-Decides (pattern_loop fuel (c ∷ p)) q h s

any_text-loop :
    (fuel : ℕ) (p s : Bytes)
    → starts_with_star p ≡ false
    → pattern_loop (suc fuel) (b'*' ∷ p) s ≡ after_stars (pattern_loop fuel) p s
unfolding pattern_loop
any_text-loop fuel p s h = ap (λ r. after_stars (pattern_loop fuel) r s) (skip_stars-other p h)

is_end-Decides : (fuel : ℕ) → Decides (pattern_loop (suc fuel) []) []
unfolding pattern_loop
is_end-Decides fuel [] = (λ e. done, λ d. refl)
is_end-Decides fuel (c ∷ s) = (λ e. cc, λ d. elim d [ ])

again-loop :
    (fuel : ℕ) (p s : Bytes)
    → pattern_loop (suc fuel) (b'*' ∷ b'*' ∷ p) s ≡ pattern_loop (suc fuel) (b'*' ∷ p) s
unfolding pattern_loop
again-loop fuel p s = refl

pattern_loop-Decides :
    (fuel : ℕ) {p : Bytes} {q : List Item}
    → Spells p q
    → length p < fuel
    → Decides (pattern_loop fuel p) q
pattern_loop-Decides zero h k = ground arith
pattern_loop-Decides (suc fuel) end k = is_end-Decides fuel
pattern_loop-Decides (suc fuel) (any_text {p} {q} e h) k =
    Decides-as (λ s. any_text-loop fuel p s e)
      (after_stars-Decides fuel p q h (pattern_loop-Decides fuel h (omega arith)))
pattern_loop-Decides (suc fuel) (again {p} h) k =
    Decides-as (again-loop fuel p) (pattern_loop-Decides (suc fuel) h (omega arith))
pattern_loop-Decides (suc fuel) (any_byte {p} h) k =
    Decides-as (any_byte-takes fuel p)
      (takes-Decides _ _ _ (pattern_loop-Decides fuel h (omega arith)))
pattern_loop-Decides (suc fuel) (byte {c} {p} e h) k =
    Decides-as (λ s. byte-takes fuel c p s e)
      (takes-Decides _ _ _ (pattern_loop-Decides fuel h (omega arith)))
pattern_loop-Decides (suc fuel) (quoted {c} {p} h) k =
    Decides-as (quoted-takes fuel c p)
      (takes-Decides _ _ _ (pattern_loop-Decides fuel h (omega arith)))
pattern_loop-Decides (suc fuel) backslash k =
    Decides-as (backslash-takes fuel)
      (takes-Decides _ _ _ (pattern_loop-Decides fuel end (omega arith)))
pattern_loop-Decides (suc fuel) (class {p} {r} {ranges} e rs h) k =
    Decides-as
      (λ s. class-takes fuel p r s (in_ranges ranges) (λ t. case_char_class_matches-class t e rs))
      (takes-Decides _ _ _ (pattern_loop-Decides fuel h (omega (arith, length-Ranges rs))))
pattern_loop-Decides (suc fuel) (complement {n} {p} {r} {ranges} e rs h) k =
    Decides-as
      (λ s.
        class-takes fuel (n ∷ p) r s (λ t. not (in_ranges ranges t))
          (λ t. case_char_class_matches-complement t n e rs))
      (takes-Decides _ _ _ (pattern_loop-Decides fuel h (omega (arith, length-Ranges rs))))

-- A pattern of `case` that spells some items accepts a text exactly where the items match the whole
-- of it: a star any text, `?` any byte, a class a byte of one of its ranges (both ends included, in
-- the order of signed characters), or of none of them after `!` or `^`, and every other byte itself.
pub shell_pattern_matches-Matches :
    (pattern text : Bytes) (items : List Item)
    → Spells pattern items
    → (shell_pattern_matches pattern text ≡ true) ↔ Matches items text
unfolding shell_pattern_matches
shell_pattern_matches-Matches pattern text items h =
    pattern_loop-Decides (suc (length pattern)) h (omega arith) text
