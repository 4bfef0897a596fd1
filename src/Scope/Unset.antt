-- ===== src/Scope/Unset.antt =====
-- `arksh_shell_unset_var` of src/shell.c inside a scope frame, as an update of what a look-up finds.
use arksh.Base.{
  ◌≡◌, sym, ap, subst, ◌∙◌, ◌<◌, Bool, true, false, ◌&&◌, List, [], ◌∷◌, arith, leb, if◌then◌else◌,
  length, Bytes,
}
use arksh.Scope.{
  Environ, Frame, max_shell_vars, max_var_name, unset, find_scoped_var_entry, lookup_visible_var,
  is_valid_identifier, no_entry, Shell, unset_at, unset_var,
}
use arksh.Scope.View.{updated, put_scoped-view}

-- Where a variable is unset inside a scope frame with status 0 and its name has less than 64
-- characters, a look-up of the name finds it unset, whatever the outer frames and the shell hold,
-- and a look-up of any other name finds what it found before.
pub lookup-unset_var :
    (env : Environ) (s : Shell env) (frame : Frame) (frames : List Frame) (name : Bytes)
    → s.frames ≡ frame ∷ frames
    → length name < max_var_name
    → (unset_var env s name).0 ≡ true
    → (other : Bytes)
    → lookup_visible_var (unset_var env s name).1.frames (unset_var env s name).1.vars other
      ≡ updated name unset other (lookup_visible_var s.frames s.vars other)
unfolding unset_var lookup_visible_var
lookup-unset_var env s frame frames name same short =
    let found = find_scoped_var_entry frame name in
    unset_if (is_valid_identifier name) _ _
      (subst (λ here. IsUnset (unset_at env here s name)) (sym same)
        (unset_if (no_entry found && leb max_shell_vars (length frame)) _ _ refused (λ h other.
          put_scoped-view frame name [] other false true (lookup_visible_var frames (s.vars) other)
            short
          ∙ ap (λ f. updated name unset other (lookup_visible_var f (s.vars) other)) (sym same))))
      refused
  where
    IsUnset : Bool × Shell env → Type 0
    IsUnset (status, t) =
        status ≡ true
        → (other : Bytes)
        → lookup_visible_var t.frames t.vars other
          ≡ updated name unset other (lookup_visible_var s.frames s.vars other)

    unset_if :
        (b : Bool) (x y : Bool × Shell env) → IsUnset x → IsUnset y → IsUnset (if b then x else y)
    unset_if true x y h k = h
    unset_if false x y h k = k

    refused : IsUnset (false, s)
    refused h = absurd (ground arith)
