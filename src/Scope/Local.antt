-- ===== src/Scope/Local.antt =====
-- What a scope frame of src/shell.c keeps to itself: a function's assignments and unsets between
-- `arksh_shell_push_scope_frame` and `arksh_shell_pop_scope_frame`.
use arksh.Base.{
  ◌≡◌, refl, sym, ap, subst, ◌∙◌, Bool, true, false, ◌&&◌, List, [], ◌∷◌, leb, if◌then◌else◌,
  length, Bytes,
}
use arksh.Scope.{
  Environ, ShellVar, Frame, max_shell_vars, lookup_visible_var, find_scoped_var_entry,
  is_valid_identifier, no_entry, Shell, set_at, set_var, unset_at, unset_var, push_scope_frame,
  pop_at, pop_scope_frame,
}

-- A call that a function's body makes on variables.
pub data Call : Type 0 where
  set_call : Bytes → Bytes → Bool → Call
  unset_call : Bytes → Call

module _ (env : Environ) where
  unfoldable pub call : Call → Shell env → Shell env
  unfolding set_var unset_var
  call (set_call name value exported) s = (set_var env s name value exported).1
  call (unset_call name) s = (unset_var env s name).1

  -- Statuses are not looked at.
  unfoldable pub run : List Call → Shell env → Shell env
  unfolding call
  run [] s = s
  run (c ∷ calls) s = run calls (call c s)

  -- Some innermost frame, over these.
  abbrev IsOver : List Frame → List ShellVar → Shell env → Type 0
  IsOver frames vars s = (frame : Frame) × (s.frames ≡ frame ∷ frames) × (s.vars ≡ vars)

  if-IsOver :
      (frames : List Frame) (vars : List ShellVar) (b : Bool) (x y : Bool × Shell env)
      → IsOver frames vars x.1
      → IsOver frames vars y.1
      → IsOver frames vars (if b then x else y).1
  if-IsOver frames vars true x y h k = h
  if-IsOver frames vars false x y h k = k

  set-IsOver :
      (frames : List Frame) (vars : List ShellVar) (s : Shell env) (name value : Bytes)
      (exported : Bool)
      → IsOver frames vars s
      → IsOver frames vars (set_var env s name value exported).1
  unfolding set_var
  set-IsOver frames vars s name value exported (frame, same, kept) =
      if-IsOver frames vars (is_valid_identifier name) _ _
        (subst (λ here. IsOver frames vars (set_at env here s name value exported).1) (sym same)
          (if-IsOver frames vars
            (no_entry (find_scoped_var_entry frame name) && leb max_shell_vars (length frame)) _ _
            (frame, same, kept) (_, refl, kept)))
        (frame, same, kept)

  unset-IsOver :
      (frames : List Frame) (vars : List ShellVar) (s : Shell env) (name : Bytes)
      → IsOver frames vars s
      → IsOver frames vars (unset_var env s name).1
  unfolding unset_var
  unset-IsOver frames vars s name (frame, same, kept) =
      if-IsOver frames vars (is_valid_identifier name) _ _
        (subst (λ here. IsOver frames vars (unset_at env here s name).1) (sym same)
          (if-IsOver frames vars
            (no_entry (find_scoped_var_entry frame name) && leb max_shell_vars (length frame)) _ _
            (frame, same, kept) (_, refl, kept)))
        (frame, same, kept)

  run-IsOver :
      (frames : List Frame) (vars : List ShellVar) (calls : List Call) (s : Shell env)
      → IsOver frames vars s
      → IsOver frames vars (run calls s)
  unfolding run call
  run-IsOver frames vars [] s h = h
  run-IsOver frames vars (set_call name value exported ∷ calls) s h =
      run-IsOver frames vars calls _ (set-IsOver frames vars s name value exported h)
  run-IsOver frames vars (unset_call name ∷ calls) s h =
      run-IsOver frames vars calls _ (unset-IsOver frames vars s name h)

  popped :
      (frames : List Frame) (vars : List ShellVar) (s : Shell env)
      → IsOver frames vars s
      → ((pop_scope_frame env s).frames ≡ frames) × ((pop_scope_frame env s).vars ≡ vars)
  unfolding pop_scope_frame
  popped frames vars s (frame, same, kept) =
      subst (λ here. ((pop_at env here s).frames ≡ frames) × ((pop_at env here s).vars ≡ vars))
        (sym same) (refl, kept)

-- Whatever variables are set and unset, exported or not, between the push of a scope frame and its
-- pop, the frames and the shell's variables are the same afterwards, so that every look-up in them,
-- which leaves the process environment aside, finds what it found before.
pub lookup-pop_scope_frame :
    (env : Environ) (s : Shell env) (calls : List Call) (name : Bytes)
    → let after : Shell env = pop_scope_frame env (run env calls (push_scope_frame env s)) in
      (after.frames ≡ s.frames)
      × (after.vars ≡ s.vars)
      × (lookup_visible_var after.frames after.vars name ≡ lookup_visible_var s.frames s.vars name)
unfolding push_scope_frame
lookup-pop_scope_frame env s calls name =
    let start = push_scope_frame env s in
    let (frames, vars) =
      popped env s.frames s.vars (run env calls start)
        (run-IsOver env s.frames s.vars calls start ([], refl, refl)) in
    (
      frames,
      vars,
      ap (λ f. lookup_visible_var f (pop_scope_frame env (run env calls start)).vars name) frames
          ∙ ap (λ v. lookup_visible_var s.frames v name) vars,
    )
