-- ===== src/Permissions/Accepts.antt =====
-- The texts that `parse_rwx_permissions` accepts are exactly those that the formatter prints.
use arksh.Base.{
  ℕ, ◌<◌, ◌≡◌, refl, ◌∙◌, sym, ap, subst, Bool, true, false, ◌&&◌, Option, none, some, [], ◌∷◌,
  arith, ltb, ◌==◌, all_below, all_below_sound, if◌then◌else◌, Bytes,
}
use arksh.Permissions.{◌>>=◌, set_if, set_execute, format_permission_rwx, parse_rwx_permissions}

-- The characters of a plain place, and of an execute place.
abbrev plain : ℕ → ℕ → ℕ
plain yes_char i = if i == 0 then b'-' else yes_char

abbrev execute : ℕ → ℕ → ℕ → ℕ
execute both only i =
    if i == 0 then b'-' else if i == 1 then b'x' else if i == 2 then both else only

equal : Bytes → Bytes → Bool
equal [] [] = true
equal (x ∷ xs) (y ∷ ys) = x == y && equal xs ys
equal _ _ = false

equal-eq : (a b : Bytes) → equal a b ≡ true → a ≡ b
unfolding equal
equal-eq [] [] h = refl
equal-eq [] (y ∷ b) h = cc
equal-eq (x ∷ a) [] h = cc
equal-eq (x ∷ a) (y ∷ b) h = ground (arith, equal-eq a b)

-- The text is read as a value below 07777 + 1 that prints as the same text.
abbrev reprints : Bytes → Option ℕ → Bool
reprints t none = false
reprints t (some v) = equal (format_permission_rwx v) t && ltb v 4096

reprints-some :
    (t : Bytes) (v : ℕ) {o : Option ℕ}
    → o ≡ some v
    → reprints t o ≡ true
    → (format_permission_rwx v ≡ t) × (v < 4096)
reprints-some t v e h = ground (arith, equal-eq (format_permission_rwx v) t)

set_if_choice :
    (c y bit v : ℕ) {w : ℕ} → set_if c y bit v ≡ some w → (i : ℕ) × (i < 2) × (c ≡ plain y i)
unfolding set_if
set_if_choice c y bit v h = (if c == y then 1 else 0, ground arith, ground arith)

set_execute_choice :
    (c both only bit special v : ℕ) {w : ℕ}
    → set_execute c both only bit special v ≡ some w
    → (i : ℕ) × (i < 4) × (c ≡ execute both only i)
unfolding set_execute
set_execute_choice c both only bit special v h = (
  if c == b'x' then 1 else if c == both then 2 else if c == only then 3 else 0,
  ground arith,
  ground arith,
)

bind_some :
    (m : Option ℕ) (f : ℕ → Option ℕ) {b : ℕ}
    → m >>= f ≡ some b
    → (a : ℕ) × (m ≡ some a) × (f a ≡ some b)
bind_some none f h = cc
bind_some (some a) f h = (a, refl, h)

abbrev text : ℕ → ℕ → ℕ → ℕ → ℕ → ℕ → ℕ → ℕ → ℕ → Bytes
text a b c d e f g h i =
    plain b'r' a
    ∷ plain b'w' b
    ∷ execute b's' b'S' c
    ∷ plain b'r' d
    ∷ plain b'w' e
    ∷ execute b's' b'S' f
    ∷ plain b'r' g
    ∷ plain b'w' h
    ∷ execute b't' b'T' i
    ∷ []

abbrev check : ℕ → ℕ → ℕ → ℕ → ℕ → ℕ → ℕ → ℕ → ℕ → Bool
check a b c d e f g h i =
    reprints (text a b c d e f g h i) (parse_rwx_permissions (text a b c d e f g h i))

abbrev check_other : ℕ → ℕ → ℕ → ℕ → ℕ → ℕ → Bool
check_other a b c d e f =
    all_below 2 (λ g. all_below 2 (λ h. all_below 4 (λ i. check a b c d e f g h i)))

abbrev check_group : ℕ → ℕ → ℕ → Bool
check_group a b c = all_below 2 (λ d. all_below 2 (λ e. all_below 4 (λ f. check_other a b c d e f)))

table : all_below 2 (λ a. all_below 2 (λ b. all_below 4 (λ c. check_group a b c))) ≡ true
unfolding all_below parse_rwx_permissions format_permission_rwx equal
table = refl

-- Three nested tables, looked up at once.
nested :
    (p : ℕ → ℕ → ℕ → Bool) {a b c : ℕ}
    → all_below 2 (λ x. all_below 2 (λ y. all_below 4 (λ z. p x y z))) ≡ true
    → a < 2
    → b < 2
    → c < 4
    → p a b c ≡ true
nested p {a} {b} {c} h ha hb hc =
    all_below_sound 4 (λ z. p a b z) c
      (all_below_sound 2 (λ y. all_below 4 (λ z. p a y z)) b
        (all_below_sound 2 (λ x. all_below 2 (λ y. all_below 4 (λ z. p x y z))) a h ha) hb)
      hc

check_all :
    {a b c d e f g h i : ℕ}
    → a < 2
    → b < 2
    → c < 4
    → d < 2
    → e < 2
    → f < 4
    → g < 2
    → h < 2
    → i < 4
    → check a b c d e f g h i ≡ true
check_all {a} {b} {c} {d} {e} {f} pa pb pc pd pe pf pg ph pi =
    nested (check a b c d e f)
      (nested (check_other a b c) (nested check_group table pa pb pc) pd pe pf) pg ph pi

text_eq :
    {c0 c1 c2 c3 c4 c5 c6 c7 c8 d0 d1 d2 d3 d4 d5 d6 d7 d8 : ℕ}
    → c0 ≡ d0
    → c1 ≡ d1
    → c2 ≡ d2
    → c3 ≡ d3
    → c4 ≡ d4
    → c5 ≡ d5
    → c6 ≡ d6
    → c7 ≡ d7
    → c8 ≡ d8
    → ◌≡◌ {A = Bytes}
        (c0 ∷ c1 ∷ c2 ∷ c3 ∷ c4 ∷ c5 ∷ c6 ∷ c7 ∷ c8 ∷ [])
        (d0 ∷ d1 ∷ d2 ∷ d3 ∷ d4 ∷ d5 ∷ d6 ∷ d7 ∷ d8 ∷ [])
text_eq p0 p1 p2 p3 p4 p5 p6 p7 p8 =
    λ k. p0 k ∷ p1 k ∷ p2 k ∷ p3 k ∷ p4 k ∷ p5 k ∷ p6 k ∷ p7 k ∷ p8 k ∷ []

-- The nine places of an accepted text, each one of the characters that may stand there.
read_places :
    (c0 c1 c2 c3 c4 c5 c6 c7 c8 : ℕ) {v : ℕ}
    → let t = c0 ∷ c1 ∷ c2 ∷ c3 ∷ c4 ∷ c5 ∷ c6 ∷ c7 ∷ c8 ∷ [] in
      parse_rwx_permissions t ≡ some v → (format_permission_rwx v ≡ t) × (v < 4096)
unfolding parse_rwx_permissions
read_places c0 c1 c2 c3 c4 c5 c6 c7 c8 {v} parsed =
    let (v0, e0, p0) = bind_some (set_if c0 b'r' 0o400 0) _ parsed in
    let (v1, e1, p1) = bind_some (set_if c1 b'w' 0o200 v0) _ p0 in
    let (v2, e2, p2) = bind_some (set_execute c2 b's' b'S' 0o100 0o4000 v1) _ p1 in
    let (v3, e3, p3) = bind_some (set_if c3 b'r' 0o40 v2) _ p2 in
    let (v4, e4, p4) = bind_some (set_if c4 b'w' 0o20 v3) _ p3 in
    let (v5, e5, p5) = bind_some (set_execute c5 b's' b'S' 0o10 0o2000 v4) _ p4 in
    let (v6, e6, p6) = bind_some (set_if c6 b'r' 0o4 v5) _ p5 in
    let (v7, e7, e8) = bind_some (set_if c7 b'w' 0o2 v6) _ p6 in
    let (a, ha, ea) = set_if_choice c0 b'r' 0o400 0 e0 in
    let (b, hb, eb) = set_if_choice c1 b'w' 0o200 v0 e1 in
    let (c, hc, ec) = set_execute_choice c2 b's' b'S' 0o100 0o4000 v1 e2 in
    let (d, hd, ed) = set_if_choice c3 b'r' 0o40 v2 e3 in
    let (e, he, ee) = set_if_choice c4 b'w' 0o20 v3 e4 in
    let (f, hf, ef) = set_execute_choice c5 b's' b'S' 0o10 0o2000 v4 e5 in
    let (g, hg, eg) = set_if_choice c6 b'r' 0o4 v5 e6 in
    let (h, hh, eh) = set_if_choice c7 b'w' 0o2 v6 e7 in
    let (i, hi, ei) = set_execute_choice c8 b't' b'T' 0o1 0o1000 v7 e8 in
    let same = text_eq ea eb ec ed ee ef eg eh ei in
    subst (λ t. (format_permission_rwx v ≡ t) × (v < 4096)) (sym same)
      (reprints-some (text a b c d e f g h i) v (ap parse_rwx_permissions (sym same) ∙ parsed)
        (check_all ha hb hc hd he hf hg hh hi))

-- `parse_rwx_permissions` accepts only texts that `format_permission_rwx` prints: what it reads is
-- a twelve-bit value whose `rwx` form is the text itself.
pub format-parse_rwx_permissions :
    (t : Bytes) {v : ℕ}
    → parse_rwx_permissions t ≡ some v
    → (format_permission_rwx v ≡ t) × (v < 4096)
format-parse_rwx_permissions (c0 ∷ c1 ∷ c2 ∷ c3 ∷ c4 ∷ c5 ∷ c6 ∷ c7 ∷ c8 ∷ []) {v} h =
    read_places c0 c1 c2 c3 c4 c5 c6 c7 c8 h
format-parse_rwx_permissions _ {v} h = unfold parse_rwx_permissions in cc
