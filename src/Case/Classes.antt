-- ===== src/Case/Classes.antt =====
-- Reading a character class of a `case` pattern in src/executor.c.
use arksh.Base.{
  ℕ, zero, suc, ◌≤◌, ◌<◌, ◌≡◌, ◌≢◌, refl, ap, ◌∙◌, Bool, true, false, not, ◌&&◌, ◌||◌, Option, none,
  some, List, [], ◌∷◌, ◌==◌, if◌then◌else◌, length, arith, Bytes,
}
use arksh.Case.{
  char_leb, in_range, class_end, class_range, class_loop, class_result, case_char_class_matches,
}
use arksh.Case.Pattern.{
  Member, plain, escaped, begins_range, Ranges, close, single, range, not_after, in_ranges,
  is_negation,
}

length-Member : {s p : Bytes} {a : ℕ} → Member s a p → length p < length s
length-Member (plain h) = omega arith
length-Member escaped = omega arith

class_end-single : (a : ℕ) (p : Bytes) → begins_range p ≡ false → class_end a p ≡ ((a, a), p)
class_end-single a [] h = refl
class_end-single a (m ∷ []) h = refl
class_end-single a (m ∷ e ∷ p) h = ground arith

class_end-range :
    (a d b : ℕ) (p p' : Bytes)
    → d ≢ b']'
    → Member (d ∷ p) b p'
    → class_end a (b'-' ∷ d ∷ p) ≡ ((a, b), p')
class_end-range a d b [] p' h (plain k) = ground arith
class_end-range a d b (f ∷ p) p' h (plain k) = ground arith
class_end-range a d b p p' h escaped = refl

class_range-Member :
    {c a : ℕ} {p p' : Bytes} → Member (c ∷ p) a p' → class_range c p ≡ class_end a p'
class_range-Member {p = []} (plain h) = refl
class_range-Member {p = d ∷ p} (plain h) = ground arith
class_range-Member escaped = refl

class_loop-turn :
    (fuel t c : ℕ) (matched : Bool) (p p' : Bytes) (x : ℕ × ℕ)
    → c ≢ b']'
    → class_range c p ≡ (x, p')
    → class_loop (suc fuel) t matched (c ∷ p) ≡ class_loop fuel t (matched || in_range t x) p'
unfolding class_loop
class_loop-turn fuel t c matched p p' x h e =
    if-else (c == b']') (some (matched, p))
      (let (y, q) = class_range c p in class_loop fuel t (matched || in_range t y) q) (ground arith)
    ∙ ap (λ y. class_loop fuel t (matched || in_range t y.0) y.1) e
  where
    if-else : {A : Type 0} (b : Bool) (y z : A) → b ≡ false → (if b then y else z) ≡ z
    if-else true y z k = ground arith
    if-else false y z k = refl

or_assoc : (a b c : Bool) → ((a || b) || c) ≡ (a || (b || c))
or_assoc true b c = refl
or_assoc false b c = refl

or_false : (a : Bool) → a ≡ (a || false)
or_false true = refl
or_false false = refl

char_leb_lem : (a b : ℕ) → char_leb a b ≡ not_after a b
char_leb_lem a b = ground arith

in_range_lem : (t a b : ℕ) → in_range t (a, b) ≡ (not_after a t && not_after t b)
in_range_lem t a b =
    ap (λ x. x && char_leb t b) (char_leb_lem a t) ∙ ap (λ x. not_after a t && x) (char_leb_lem t b)

class_loop-Ranges :
    (fuel t : ℕ) (matched : Bool) {p r : Bytes} {ranges : List (ℕ × ℕ)}
    → Ranges p ranges r
    → length p ≤ fuel
    → class_loop fuel t matched p ≡ some (matched || in_ranges ranges t, r)
unfolding class_loop
class_loop-Ranges zero t matched close k = ground arith
class_loop-Ranges zero t matched (single h m b rs) k = ground arith
class_loop-Ranges zero t matched (range h m d e rs) k = ground arith
class_loop-Ranges (suc fuel) t matched {r} close k = ap (λ b. some (b, r)) (or_false matched)
class_loop-Ranges (suc fuel) t matched {r} (single {c} {a} {p} {p'} {ranges} h m b rs) k =
    let short = length-Member m in
    class_loop-turn fuel t c matched p p' (a, a) h (class_range-Member m ∙ class_end-single a p' b)
    ∙ class_loop-Ranges fuel t (matched || in_range t (a, a)) rs (omega arith)
    ∙ ap (λ b. some (b, r)) (or_assoc matched (in_range t (a, a)) (in_ranges ranges t))
    ∙ ap (λ x. some (matched || (x || in_ranges ranges t), r)) (in_range_lem t a a)
class_loop-Ranges (suc fuel) t matched {r}
      (range {c} {a} {d = d'} {b} {p} {p'} {p''} {ranges} h m d e rs) k =
    let short = length-Member m in
    let shorter = length-Member e in
    class_loop-turn fuel t c matched p p'' (a, b) h
      (class_range-Member m ∙ class_end-range a d' b p' p'' d e)
    ∙ class_loop-Ranges fuel t (matched || in_range t (a, b)) rs (omega arith)
    ∙ ap (λ b. some (b, r)) (or_assoc matched (in_range t (a, b)) (in_ranges ranges t))
    ∙ ap (λ x. some (matched || (x || in_ranges ranges t), r)) (in_range_lem t a b)

pub length-Ranges : {p r : Bytes} {ranges : List (ℕ × ℕ)} → Ranges p ranges r → length r < length p
length-Ranges close = omega arith
length-Ranges (single h m b rs) = omega (arith, length-Member m, length-Ranges rs)
length-Ranges (range h m d e rs) = omega (arith, length-Member m, length-Member e, length-Ranges rs)

abbrev classed : ℕ → Bool × Bytes → Option Bytes
classed t (negate, p) = class_result negate (class_loop (length p) t false p)

pub case_char_class_matches-class :
    (t : ℕ) {p r : Bytes} {ranges : List (ℕ × ℕ)}
    → is_negation p ≡ false
    → Ranges p ranges r
    → case_char_class_matches p t ≡ (if in_ranges ranges t then some r else none)
unfolding case_char_class_matches
case_char_class_matches-class t {p = []} h rs =
    ap (class_result false) (class_loop-Ranges 0 t false rs (omega arith))
case_char_class_matches-class t {p = c ∷ p} h rs =
    if-else (c == b'!' || c == b'^') h
    ∙ ap (class_result false) (class_loop-Ranges (length (c ∷ p)) t false rs (omega arith))
  where
    if-else :
        (b : Bool)
        → b ≡ false
        → classed t (if b then (true, p) else (false, c ∷ p)) ≡ classed t (false, c ∷ p)
    if-else true k = ground arith
    if-else false k = refl

pub case_char_class_matches-complement :
    (t n : ℕ) {p r : Bytes} {ranges : List (ℕ × ℕ)}
    → (n == b'!' || n == b'^') ≡ true
    → Ranges p ranges r
    → case_char_class_matches (n ∷ p) t ≡ (if not (in_ranges ranges t) then some r else none)
unfolding case_char_class_matches
case_char_class_matches-complement t n {p} h rs =
    if-then (n == b'!' || n == b'^') h
    ∙ ap (class_result true) (class_loop-Ranges (length p) t false rs (omega arith))
  where
    if-then :
        (b : Bool)
        → b ≡ true
        → classed t (if b then (true, p) else (false, n ∷ p)) ≡ classed t (true, p)
    if-then false k = ground arith
    if-then true k = refl
