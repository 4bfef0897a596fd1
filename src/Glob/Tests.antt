-- ===== src/Glob/Tests.antt =====
-- Runs of the matchers and trims, and the theorems at inputs where they apply.
use arksh.Base.{ℕ, ◌≡◌, refl, ◌↔◌, Option, true, false, some, arith, codes}
use arksh.Glob.{glob_match_full, glob_match_prefix}
use arksh.Glob.Pattern.{items, Matches}
use arksh.Glob.Full.{glob_match_full_iff}
use arksh.Glob.Prefix.{Longest, glob_match_prefix-Longest}
use arksh.Glob.Trim.{
  apply_suffix_trim, apply_prefix_trim, Found, Earliest, SuffixMatches, PrefixMatches, kept_head,
  kept_tail, apply_suffix_trim_lem, apply_prefix_trim_lem,
}

backtracks : glob_match_full (codes "*.t?r\\*") (codes "a.tar.tzr*") ≡ true
unfolding glob_match_full
backtracks = refl

lone_backslash : glob_match_full (codes "a\\") (codes "a\\") ≡ true
unfolding glob_match_full
lone_backslash = refl

greedy_prefix : glob_match_prefix (codes "*/") (codes "usr/lib/x") ≡ some 8
unfolding glob_match_prefix
greedy_prefix = refl

suffix_shortest : apply_suffix_trim (codes "a.tar.gz") (codes ".*") false 64 ≡ codes "a.tar"
unfolding apply_suffix_trim glob_match_full
suffix_shortest = refl

suffix_longest : apply_suffix_trim (codes "a.tar.gz") (codes ".*") true 64 ≡ codes "a"
unfolding apply_suffix_trim glob_match_full
suffix_longest = refl

prefix_longest : apply_prefix_trim (codes "usr/lib/x") (codes "*/") true 64 ≡ codes "x"
unfolding apply_prefix_trim glob_match_full
prefix_longest = refl

glob_match_full_iff_example :
    (glob_match_full (codes "*b") (codes "ab") ≡ true) ↔ Matches (items (codes "*b")) (codes "ab")
glob_match_full_iff_example = glob_match_full_iff (codes "*b") (codes "ab")

glob_match_prefix-Longest_example :
    Longest
      (items (codes "*/"))
      (codes "usr/lib/x")
      (glob_match_prefix (codes "*/") (codes "usr/lib/x"))
glob_match_prefix-Longest_example = glob_match_prefix-Longest (codes "*/") (codes "usr/lib/x")

apply_suffix_trim_lem_example :
    (cut : Option ℕ) × Found (Earliest true) (SuffixMatches (codes "a.tar.gz") (codes ".*")) 0 8 cut
    × (apply_suffix_trim (codes "a.tar.gz") (codes ".*") true 64 ≡ kept_head (codes "a.tar.gz") cut)
apply_suffix_trim_lem_example =
    apply_suffix_trim_lem (codes "a.tar.gz") (codes ".*") true 64 (omega arith)

apply_prefix_trim_lem_example :
    (cut : Option ℕ) × Found
      (Earliest true)
      (PrefixMatches (codes "usr/lib/x") (codes "*/"))
      0
      9
      cut
    × (apply_prefix_trim (codes "usr/lib/x") (codes "*/") false 64
        ≡ kept_tail (codes "usr/lib/x") cut)
apply_prefix_trim_lem_example =
    apply_prefix_trim_lem (codes "usr/lib/x") (codes "*/") false 64 (omega arith) (omega arith)
