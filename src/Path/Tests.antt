-- ===== src/Path/Tests.antt =====
-- Runs of the path code, and the theorems at paths where they apply.
use arksh.Base.{◌≡◌, refl, true, false, some, [], ◌∷◌, arith, codes}
use arksh.Path.{split_segments, write_path, normalize_path}
use arksh.Path.Normal.{NormalResult, split_segments-Normal}
use arksh.Path.Written.{normalize-write_path}

absolute_path : normalize_path 1024 (codes "/usr//./lib/../bin/") ≡ some (codes "/usr/bin")
unfolding normalize_path
absolute_path = refl

relative_path : normalize_path 1024 (codes "../a/../..") ≡ some (codes "../..")
unfolding normalize_path
relative_path = refl

above_root : normalize_path 1024 (codes "/..") ≡ some (codes "/")
unfolding normalize_path
above_root = refl

-- A backslash is a separator here too.
backslash : normalize_path 1024 (codes "a\\b") ≡ some (codes "a/b")
unfolding normalize_path
backslash = refl

two_segments :
    split_segments true [] [] (codes "usr/x/../bin") ≡ some (codes "bin" ∷ codes "usr" ∷ [])
unfolding split_segments
two_segments = refl

split_segments-Normal_example : NormalResult false (split_segments false [] [] (codes "../a/../.."))
split_segments-Normal_example =
    split_segments-Normal false [] [] (codes "../a/../..") tt (omega arith) (omega arith, tt)

normalize-write_path_example :
    normalize_path 64 (write_path 64 true (codes "bin" ∷ codes "usr" ∷ []))
    ≡ some (write_path 64 true (codes "bin" ∷ codes "usr" ∷ []))
unfolding write_path
normalize-write_path_example =
    normalize-write_path 64 true (codes "usr/x/../bin") (codes "bin" ∷ codes "usr" ∷ [])
      two_segments (omega arith) (refl, (refl, (refl, (refl, (refl, (refl, (refl, (refl, tt))))))))
      (omega arith)
