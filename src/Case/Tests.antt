-- ===== src/Case/Tests.antt =====
-- Runs of the matcher of `case`, and the theorem at a pattern.
use arksh.Base.{◌≡◌, refl, ◌↔◌, true, false, not, [], ◌∷◌, arith, ◌==◌, codes}
use arksh.Case.{shell_pattern_matches}
use arksh.Case.Pattern.{
  Matches, star, one, plain, close, single, range, in_ranges, end, any_text, byte, complement,
}
use arksh.Case.Matches.{shell_pattern_matches-Matches}

accepts : shell_pattern_matches (codes "[!a-c_]*x") (codes "d.txx") ≡ true
unfolding shell_pattern_matches
accepts = refl

refuses : shell_pattern_matches (codes "[!a-c_]*x") (codes "b.txx") ≡ false
unfolding shell_pattern_matches
refuses = refl

-- A dash before `]` is itself, and a class that is not closed accepts nothing.
dash_last : shell_pattern_matches (codes "[a-]") (codes "-") ≡ true
unfolding shell_pattern_matches
dash_last = refl

not_closed : shell_pattern_matches (codes "[ab") (codes "a") ≡ false
unfolding shell_pattern_matches
not_closed = refl

shell_pattern_matches-Matches_example :
    (shell_pattern_matches (codes "[!a-c_]*x") (codes "d.txx") ≡ true)
    ↔ Matches
        (one (λ t. not (in_ranges ((b'a', b'c') ∷ (b'_', b'_') ∷ []) t))
          ∷ star
          ∷ one (λ t. b'x' == t)
          ∷ [])
        (codes "d.txx")
shell_pattern_matches-Matches_example =
    shell_pattern_matches-Matches (codes "[!a-c_]*x") (codes "d.txx") _ (
      complement refl
        (range (ground arith) (plain (ground arith)) (ground arith) (plain (ground arith))
          (single (ground arith) (plain (ground arith)) refl close))
        (any_text refl (byte refl end)))
