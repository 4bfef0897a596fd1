-- ===== src/Case/Pattern.antt =====
-- What a pattern of `case` means: its items, how they are spelled, and which texts they match.
use arksh.Base.{
  ℕ, ◌≡◌, ◌≢◌, Bool, true, false, not, ◌&&◌, ◌||◌, List, [], ◌∷◌, ltb, leb, ◌==◌, Bytes,
}

-- Any text, or one byte that passes a test.
pub data Item : Type 0 where
  star : Item
  one : (ℕ → Bool) → Item

pub data Matches : List Item → Bytes → Type 0 where
  done : Matches [] []
  take :
      {f : ℕ → Bool} {c : ℕ} {q : List Item} {s : Bytes}
      → f c ≡ true
      → Matches q s
      → Matches (one f ∷ q) (c ∷ s)
  leave : {q : List Item} {s : Bytes} → Matches q s → Matches (star ∷ q) s
  more : {c : ℕ} {q : List Item} {s : Bytes} → Matches (star ∷ q) s → Matches (star ∷ q) (c ∷ s)

-- A byte of a class: a backslash makes the next byte plain.
pub data Member : Bytes → ℕ → Bytes → Type 0 where
  plain : {c : ℕ} {p : Bytes} → c ≢ b'\\' → Member (c ∷ p) c p
  escaped : {c : ℕ} {p : Bytes} → Member (b'\\' ∷ c ∷ p) c p

-- A `-` that is not the last byte of the class.
abbrev pub begins_range : Bytes → Bool
begins_range [] = false
begins_range (m ∷ []) = false
begins_range (m ∷ e ∷ p) = m == b'-' && not (e == b']')

-- The ranges of a class up to its `]`, and the rest; a single byte is a range of one.
pub data Ranges : Bytes → List (ℕ × ℕ) → Bytes → Type 0 where
  close : {r : Bytes} → Ranges (b']' ∷ r) [] r
  single :
      {c a : ℕ} {p p' r : Bytes} {ranges : List (ℕ × ℕ)}
      → c ≢ b']'
      → Member (c ∷ p) a p'
      → begins_range p' ≡ false
      → Ranges p' ranges r
      → Ranges (c ∷ p) ((a, a) ∷ ranges) r
  range :
      {c a d b : ℕ} {p p' p'' r : Bytes} {ranges : List (ℕ × ℕ)}
      → c ≢ b']'
      → Member (c ∷ p) a (b'-' ∷ d ∷ p')
      → d ≢ b']'
      → Member (d ∷ p') b p''
      → Ranges p'' ranges r
      → Ranges (c ∷ p) ((a, b) ∷ ranges) r

-- The order of the bytes as signed characters: -128 to -1 stand before 0 to 127.
abbrev pub not_after : ℕ → ℕ → Bool
not_after a b =
    (leb 128 a && ltb b 128)
    || (leb 128 a && leb 128 b && leb a b)
    || (ltb a 128 && ltb b 128 && leb a b)

abbrev pub in_ranges : List (ℕ × ℕ) → ℕ → Bool
in_ranges [] t = false
in_ranges ((a, b) ∷ ranges) t = (not_after a t && not_after t b) || in_ranges ranges t

abbrev pub is_negation : Bytes → Bool
is_negation [] = false
is_negation (c ∷ p) = c == b'!' || c == b'^'

abbrev pub is_special : ℕ → Bool
is_special c = c == b'*' || c == b'?' || c == b'[' || c == b'\\'

abbrev pub starts_with_star : Bytes → Bool
starts_with_star [] = false
starts_with_star (c ∷ p) = c == b'*'

-- How items are spelled. Stars in a row are one star, and a backslash that ends the pattern is
-- itself.
pub data Spells : Bytes → List Item → Type 0 where
  end : Spells [] []
  any_text :
      {p : Bytes} {q : List Item}
      → starts_with_star p ≡ false
      → Spells p q
      → Spells (b'*' ∷ p) (star ∷ q)
  again : {p : Bytes} {q : List Item} → Spells (b'*' ∷ p) q → Spells (b'*' ∷ b'*' ∷ p) q
  any_byte : {p : Bytes} {q : List Item} → Spells p q → Spells (b'?' ∷ p) (one (λ t. true) ∷ q)
  byte :
      {c : ℕ} {p : Bytes} {q : List Item}
      → is_special c ≡ false
      → Spells p q
      → Spells (c ∷ p) (one (λ t. c == t) ∷ q)
  quoted :
      {c : ℕ} {p : Bytes} {q : List Item}
      → Spells p q
      → Spells (b'\\' ∷ c ∷ p) (one (λ t. c == t) ∷ q)
  backslash : Spells (b'\\' ∷ []) (one (λ t. b'\\' == t) ∷ [])
  class :
      {p r : Bytes} {ranges : List (ℕ × ℕ)} {q : List Item}
      → is_negation p ≡ false
      → Ranges p ranges r
      → Spells r q
      → Spells (b'[' ∷ p) (one (in_ranges ranges) ∷ q)
  complement :
      {n : ℕ} {p r : Bytes} {ranges : List (ℕ × ℕ)} {q : List Item}
      → (n == b'!' || n == b'^') ≡ true
      → Ranges p ranges r
      → Spells r q
      → Spells (b'[' ∷ n ∷ p) (one (λ t. not (in_ranges ranges t)) ∷ q)
