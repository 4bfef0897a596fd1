-- ===== src/Glob/Pattern.antt =====
-- What a glob pattern means: its items, and the relation "these items take a prefix of this text
-- and leave that rest", with no search order in it.
use arksh.Base.{
  ℕ, ◌≤◌, ◌≡◌, ◌⊎◌, inl, inr, List, [], ◌∷◌, ◌==◌, if◌then◌else◌, arith, length, Bytes,
}

pub data Item : Type 0 where
  star any : Item
  lit : ℕ → Item

abbrev pub token : ℕ → Item
token c = if c == b'*' then star else if c == b'?' then any else lit c

-- A backslash makes the next byte a literal; at the end of the pattern it stands for itself.
abbrev pub items : Bytes → List Item
items [] = []
items (c ∷ []) = token c ∷ []
items (c ∷ d ∷ pat) = if c == b'\\' then lit d ∷ items pat else token c ∷ items (d ∷ pat)

pub data Takes : List Item → Bytes → Bytes → Type 0 where
  done : {s : Bytes} → Takes [] s s
  one : {c : ℕ} {q : List Item} {s r : Bytes} → Takes q s r → Takes (any ∷ q) (c ∷ s) r
  same : {d c : ℕ} {q : List Item} {s r : Bytes} → d ≡ c → Takes q s r → Takes (lit d ∷ q) (c ∷ s) r
  leave : {q : List Item} {s r : Bytes} → Takes q s r → Takes (star ∷ q) s r
  more : {c : ℕ} {q : List Item} {s r : Bytes} → Takes (star ∷ q) s r → Takes (star ∷ q) (c ∷ s) r

-- The items match the whole text.
abbrev pub Matches : List Item → Bytes → Type 0
Matches q s = Takes q s []

pub data Suffix (t : Bytes) : Bytes → Type 0 where
  here : Suffix t t
  there : {c : ℕ} {s : Bytes} → Suffix t s → Suffix t (c ∷ s)

pub Suffix_trans : {a b c : Bytes} → Suffix a b → Suffix b c → Suffix a c
Suffix_trans p here = p
Suffix_trans p (there q) = there (Suffix_trans p q)

pub length-Suffix : {t s : Bytes} → Suffix t s → length t ≤ length s
length-Suffix here = omega arith
length-Suffix (there p) = omega (arith, length-Suffix p)

pub Suffix-total : {a b s : Bytes} → Suffix a s → Suffix b s → Suffix a b ⊎ Suffix b a
Suffix-total here q = inr q
Suffix-total (there p) here = inl (there p)
Suffix-total (there p) (there q) = Suffix-total p q

pub Suffix-cons : {c d : ℕ} {t s : Bytes} → Suffix (d ∷ t) (c ∷ s) → Suffix t s
Suffix-cons here = here
Suffix-cons (there p) = Suffix_trans (there here) p

-- Where a star's own items begin.
pub Takes-star :
    {q : List Item} {s r : Bytes} → Takes (star ∷ q) s r → (j : Bytes) × Suffix j s × Takes q j r
Takes-star {s} (leave d) = (s, here, d)
Takes-star (more d) = let (j, p, e) = Takes-star d in (j, there p, e)

pub star-Takes : {q : List Item} {j s r : Bytes} → Suffix j s → Takes q j r → Takes (star ∷ q) s r
star-Takes here d = leave d
star-Takes (there p) d = more (star-Takes p d)

-- Why a greedy star is right: items that can start later reach at least as far from there.
pub Takes-later :
    (q : List Item) {s t r u : Bytes}
    → Suffix t s
    → Takes q s r
    → Takes q t u
    → (w : Bytes) × Takes q t w × (length w ≤ length r)
Takes-later [] {t} p done done = (t, done, length-Suffix p)
Takes-later (any ∷ q) p (one d) (one e) =
    let (w, f, h) = Takes-later q (Suffix-cons p) d e in (w, one f, h)
Takes-later (lit x ∷ q) p (same k d) (same l e) =
    let (w, f, h) = Takes-later q (Suffix-cons p) d e in (w, same l f, h)
Takes-later (star ∷ q) {s} {t} {r} p d e =
    let (j, pj, dj) = Takes-star d in
    let (k, pk, ek) = Takes-star e in
    elim (Suffix-total pj p) [
      | inl inside ↦ (r, star-Takes inside dj, omega arith)
      | inr before ↦
          let (w, f, h) = Takes-later q (Suffix_trans pk before) dj ek in (w, star-Takes pk f, h)
    ]
