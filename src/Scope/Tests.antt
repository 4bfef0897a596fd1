-- ===== src/Scope/Tests.antt =====
-- Runs of the shell's variables, and the theorems at calls where they apply. The environment here
-- is the list of the names that `setenv` was called with.
use arksh.Base.{
  ◌≡◌, refl, Bool, true, false, Option, none, some, List, [], ◌∷◌, arith, Bytes, codes, copy_string,
}
use arksh.Scope.{
  unset, Environ, seen, max_var_value, Shell, lookup_visible_var, get_var, set_var, unset_var,
  push_scope_frame, pop_scope_frame,
}
use arksh.Scope.View.{updated, lookup-set_var}
use arksh.Scope.Unset.{lookup-unset_var}
use arksh.Scope.Local.{Call, set_call, unset_call, run, lookup-pop_scope_frame}

abbrev names_set : Environ
names_set = record {
  State = List Bytes;
  getenv = λ e name. none;
  setenv = λ name value e. (true, name ∷ e);
  unsetenv = λ name e. (true, e);
}

abbrev fresh : Shell names_set
fresh = record { frames = []; vars = []; environ = [] }

abbrev with_x : Shell names_set
with_x = push_scope_frame names_set (set_var names_set fresh (codes "x") (codes "1") true).1

local_x :
    get_var names_set (set_var names_set with_x (codes "x") (codes "2") false).1 (codes "x")
    ≡ some (codes "2")
unfolding get_var set_var push_scope_frame
local_x = refl

-- An unset in a frame hides the outer variable, and the pop shows it again.
hidden_x : get_var names_set (unset_var names_set with_x (codes "x")).1 (codes "x") ≡ none
unfolding get_var set_var unset_var push_scope_frame
hidden_x = refl

shown_x :
    get_var names_set
      (pop_scope_frame names_set (unset_var names_set with_x (codes "x")).1)
      (codes "x")
    ≡ some (codes "1")
unfolding get_var set_var unset_var push_scope_frame pop_scope_frame
shown_x = refl

-- A name of 64 characters is cut to 63 when it is stored, and not found again.
abbrev long_name : Bytes
long_name = codes "aaaaaaaaaaaaaaaabbbbbbbbbbbbbbbbccccccccccccccccdddddddddddddddd"

long_name_lost :
    get_var names_set (set_var names_set fresh long_name (codes "1") false).1 long_name ≡ none
unfolding get_var set_var
long_name_lost = refl

set_x : (set_var names_set with_x (codes "x") (codes "2") false).0 ≡ true
unfolding set_var push_scope_frame
set_x = refl

lookup-set_var_example :
    (e : Bool) × (false ≡ true → e ≡ true)
    × ((other : Bytes)
        → lookup_visible_var
            (set_var names_set with_x (codes "x") (codes "2") false).1.frames
            (set_var names_set with_x (codes "x") (codes "2") false).1.vars
            other
          ≡ updated
              (codes "x")
              (seen (copy_string max_var_value (codes "2")) e)
              other
              (lookup_visible_var with_x.frames with_x.vars other))
lookup-set_var_example =
    lookup-set_var names_set with_x (codes "x") (codes "2") false (omega arith) set_x

abbrev body : List Call
body = set_call (codes "x") (codes "2") true ∷ unset_call (codes "x") ∷ []

lookup-pop_scope_frame_example :
    let after : Shell names_set =
      pop_scope_frame names_set (run names_set body (push_scope_frame names_set with_x)) in
    (after.frames ≡ with_x.frames)
    × (after.vars ≡ with_x.vars)
    × (lookup_visible_var after.frames after.vars (codes "x")
        ≡ lookup_visible_var with_x.frames with_x.vars (codes "x"))
lookup-pop_scope_frame_example = lookup-pop_scope_frame names_set with_x body (codes "x")

-- An environment of one variable, whose inherited value is lost when a frame that assigned it ends.
abbrev one_variable : Environ
one_variable = record {
  State = Option Bytes;
  getenv = λ e name. e;
  setenv = λ name value e. (true, some value);
  unsetenv = λ name e. (true, none);
}

abbrev inherited : Shell one_variable
inherited = record { frames = []; vars = []; environ = some (codes "/home") }

inherited_lost :
    get_var one_variable
      (pop_scope_frame one_variable (
        run one_variable
          (set_call (codes "HOME") (codes "/x") false ∷ [])
          (push_scope_frame one_variable inherited)))
      (codes "HOME")
    ≡ none
unfolding get_var push_scope_frame pop_scope_frame run
inherited_lost = refl

unset_x : (unset_var names_set with_x (codes "x")).0 ≡ true
unfolding set_var unset_var push_scope_frame
unset_x = refl

with_x_frames : with_x.frames ≡ [] ∷ []
unfolding set_var push_scope_frame
with_x_frames = refl

lookup-unset_var_example :
    lookup_visible_var
      (unset_var names_set with_x (codes "x")).1.frames
      (unset_var names_set with_x (codes "x")).1.vars
      (codes "x")
    ≡ updated
        (codes "x")
        unset
        (codes "x")
        (lookup_visible_var with_x.frames with_x.vars (codes "x"))
lookup-unset_var_example =
    lookup-unset_var names_set with_x [] [] (codes "x") with_x_frames (omega arith) unset_x
      (codes "x")
