-- ===== src/Base/Text.antt =====
-- A C string as the list of its bytes, without the terminating zero.
use Prim.Native.Nat.{ℕ}
use Prim.Native.Char.{code}
use Prim.Native.String.{String}
use Prim.Native.Nat.{◌-◌}
use mathlib.Core.List.{List, [], ◌∷◌}
use mathlib.Core.Bool.{Bool, true, false, ◌&&◌}
use arksh.Base.Lists.{take}
use arksh.Base.Tests.{◌==◌, ==_iff, ==_refl, Bool-cases}
use mathlib.Core.Path.{◌≡◌, refl, ap, ◌∙◌}
use mathlib.Core.Logic.{inl, inr}
use native.Mathlib.Omega.{arith}

abbrev pub Bytes : Type 0
Bytes = List ℕ

-- The code points of a literal, which are its bytes where it is ASCII.
abbrev pub codes : String → Bytes
codes String.[] = []
codes (String.◌∷◌ c s) = code c ∷ codes s

-- include/arksh/object.h
abbrev pub max_output : ℕ
max_output = 8192

abbrev pub max_token : ℕ
max_token = 256

-- `copy_string`, which stands in every file: `snprintf` keeps `dest_size - 1` bytes.
abbrev pub copy_string : ℕ → Bytes → Bytes
copy_string dest_size src = take (dest_size - 1) src

-- `strcmp(s, t) == 0`
abbrev pub same_text : Bytes → Bytes → Bool
same_text [] [] = true
same_text [] (d ∷ t) = false
same_text (c ∷ s) [] = false
same_text (c ∷ s) (d ∷ t) = c == d && same_text s t

pub same_text_refl : (a : Bytes) → same_text a a ≡ true
same_text_refl [] = refl
same_text_refl (c ∷ a) = rw (==_refl c) (same_text_refl a)

pub same_text_eq : (a b : Bytes) → same_text a b ≡ true → a ≡ b
same_text_eq [] [] h = refl
same_text_eq [] (d ∷ b) h = absurd (ground arith)
same_text_eq (c ∷ a) [] h = absurd (ground arith)
same_text_eq (c ∷ a) (d ∷ b) h = elim (Bool-cases (c == d)) [
  | inl e ↦
      let rest : same_text a b ≡ true = ground (arith, e) in
      ap (λ x. x ∷ a) ((==_iff c d).0 e) ∙ ap (◌∷◌ d) (same_text_eq a b rest)
  | inr e ↦ absurd (ground (arith, e))
]

==_comm : (c d : ℕ) → (c == d) ≡ (d == c)
==_comm c d = ground arith

pub same_text_comm : (a b : Bytes) → same_text a b ≡ same_text b a
same_text_comm [] [] = refl
same_text_comm [] (d ∷ b) = refl
same_text_comm (c ∷ a) [] = refl
same_text_comm (c ∷ a) (d ∷ b) = rw (==_comm c d, same_text_comm a b) refl
