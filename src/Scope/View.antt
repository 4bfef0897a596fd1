-- ===== src/Scope/View.antt =====
-- `arksh_shell_set_var` of src/shell.c as an update of what `lookup_visible_var` finds.
use arksh.Base.{
  ◌<◌, ◌≡◌, refl, sym, ap, ◌∙◌, inl, inr, Bool, true, false, Bool-cases, ◌&&◌, ◌||◌, List, [], ◌∷◌,
  arith, leb, if◌then◌else◌, length, take_all, Bytes, copy_string, same_text, same_text_eq,
  same_text_comm,
}
use arksh.Scope.{
  Environ, ShellVar, Frame, max_shell_vars, max_var_name, max_var_value, Visible, unset, seen,
  find_scoped_var_entry, find_var_entry, scoped_view, shell_view, lookup_visible_var, is_exported,
  put_scoped, put_var, is_valid_identifier, no_entry, entry_exported, var_exported, Shell, set_at,
  set_var,
}

stored : (name : Bytes) → length name < max_var_name → copy_string max_var_name name ≡ name
stored name h = take_all 63 name (omega arith)

-- What an update of one name makes of a view.
abbrev pub updated : Bytes → Visible → Bytes → Visible → Visible
updated name new other old = if same_text name other then new else old

abbrev entry_view : Bytes → Bool → Bool → Visible
entry_view value exported deleted = if deleted then unset else seen value exported

pub put_scoped-view :
    (frame : Frame) (name value other : Bytes) (exported deleted : Bool) (outer : Visible)
    → length name < max_var_name
    → scoped_view (find_scoped_var_entry (put_scoped frame name value exported deleted) other) outer
      ≡ updated name
          (entry_view value exported deleted)
          other
          (scoped_view (find_scoped_var_entry frame other) outer)
unfolding find_scoped_var_entry put_scoped
put_scoped-view [] name value other exported deleted outer short =
    elim (Bool-cases (same_text name other)) [
      | inl e ↦ rw (stored name short, e) refl
      | inr e ↦ rw (stored name short, e) refl
    ]
put_scoped-view (v ∷ frame) name value other exported deleted outer short =
    elim (Bool-cases (same_text (v.name) name)) [
      | inl h ↦
          let same : v.name ≡ name = same_text_eq (v.name) name h in
          elim (Bool-cases (same_text name other)) [
            | inl e ↦
                let here : same_text (v.name) other ≡ true = ap (λ x. same_text x other) same ∙ e in
                rw (h, here, e) refl
            | inr e ↦
                let here : same_text (v.name) other ≡ false =
                  ap (λ x. same_text x other) same ∙ e in
                rw (h, here, e) refl
          ]
      | inr h ↦ elim (Bool-cases (same_text (v.name) other)) [
        | inl e ↦
            let differs : same_text name other ≡ false =
              ap (same_text name) (sym (same_text_eq (v.name) other e))
              ∙ same_text_comm name (v.name)
              ∙ h in
            rw (h, e, differs) refl
        | inr e ↦ rw (h, e) (put_scoped-view frame name value other exported deleted outer short)
      ]
    ]

put_var-view :
    (vars : List ShellVar) (name value other : Bytes) (exported : Bool)
    → length name < max_var_name
    → shell_view (find_var_entry (put_var vars name value exported) other)
      ≡ updated name (seen value exported) other (shell_view (find_var_entry vars other))
unfolding find_var_entry put_var
put_var-view [] name value other exported short = elim (Bool-cases (same_text name other)) [
  | inl e ↦ rw (stored name short, e) refl
  | inr e ↦ rw (stored name short, e) refl
]
put_var-view (v ∷ vars) name value other exported short =
    elim (Bool-cases (same_text (v.name) name)) [
      | inl h ↦
          let same : v.name ≡ name = same_text_eq (v.name) name h in
          elim (Bool-cases (same_text name other)) [
            | inl e ↦
                let here : same_text (v.name) other ≡ true = ap (λ x. same_text x other) same ∙ e in
                rw (h, here, e) refl
            | inr e ↦
                let here : same_text (v.name) other ≡ false =
                  ap (λ x. same_text x other) same ∙ e in
                rw (h, here, e) refl
          ]
      | inr h ↦ elim (Bool-cases (same_text (v.name) other)) [
        | inl e ↦
            let differs : same_text name other ≡ false =
              ap (same_text name) (sym (same_text_eq (v.name) other e))
              ∙ same_text_comm name (v.name)
              ∙ h in
            rw (h, e, differs) refl
        | inr e ↦ rw (h, e) (put_var-view vars name value other exported short)
      ]
    ]

module _ (env : Environ) (name value : Bytes) (exported : Bool) (s : Shell env) where
  abbrev view_of : Shell env → Bytes → Visible
  view_of t = lookup_visible_var t.frames t.vars

  -- A status of 0 means that the view changed at the name only.
  abbrev IsUpdate : Bool × Shell env → Type 0
  IsUpdate (status, t) =
      status ≡ true
      → (e : Bool) × (exported ≡ true → e ≡ true)
        × ((other : Bytes)
            → view_of t other
              ≡ updated name (seen (copy_string max_var_value value) e) other (view_of s other))

  if-IsUpdate :
      (b : Bool) (x y : Bool × Shell env) → IsUpdate x → IsUpdate y → IsUpdate (if b then x else y)
  if-IsUpdate true x y h k = h
  if-IsUpdate false x y h k = k

  refused-IsUpdate : IsUpdate (false, s)
  refused-IsUpdate h = absurd (ground arith)

  set_at-IsUpdate :
      (frames : List Frame)
      → s.frames ≡ frames
      → length name < max_var_name
      → IsUpdate (set_at env frames s name value exported)
  unfolding lookup_visible_var
  set_at-IsUpdate [] same short =
      if-IsUpdate (no_entry (find_var_entry (s.vars) name) && leb max_shell_vars (length (s.vars)))
        _ _ refused-IsUpdate
        (λ h. (
          exported || var_exported (find_var_entry (s.vars) name),
          (λ k. rw k refl),
          λ other.
              put_var-view (s.vars) name (copy_string max_var_value value) other _ short
              ∙ ap
                  (λ f.
                    updated name
                      (seen (copy_string max_var_value value)
                        (exported || var_exported (find_var_entry (s.vars) name)))
                      other (lookup_visible_var f (s.vars) other))
                  (sym same),
        ))
  set_at-IsUpdate (frame ∷ frames) same short =
      let found = find_scoped_var_entry frame name in
      if-IsUpdate (no_entry found && leb max_shell_vars (length frame)) _ _ refused-IsUpdate (λ h. (
        exported || entry_exported found || is_exported (lookup_visible_var frames (s.vars) name),
        (λ k. rw k refl),
        λ other.
            put_scoped-view frame name (copy_string max_var_value value) other _ false
              (lookup_visible_var frames (s.vars) other) short
            ∙ ap
                (λ f.
                  updated name
                    (seen (copy_string max_var_value value) (
                      exported
                      || entry_exported found
                      || is_exported (lookup_visible_var frames (s.vars) name)))
                    other (lookup_visible_var f (s.vars) other))
                (sym same),
      ))

-- Where setting a variable returns 0 and its name has less than 64 characters, a look-up of the
-- name finds the value, cut to 1023 characters, exported at least when that was asked for, and a
-- look-up of any other name finds what it found before: with and without scope frames, and
-- whatever the process environment does.
pub lookup-set_var :
    (env : Environ) (s : Shell env) (name value : Bytes) (exported : Bool)
    → length name < max_var_name
    → (set_var env s name value exported).0 ≡ true
    → (e : Bool) × (exported ≡ true → e ≡ true)
      × ((other : Bytes)
          → lookup_visible_var
              (set_var env s name value exported).1.frames
              (set_var env s name value exported).1.vars
              other
            ≡ updated name
                (seen (copy_string max_var_value value) e)
                other
                (lookup_visible_var s.frames s.vars other))
unfolding set_var
lookup-set_var env s name value exported short =
    if-IsUpdate env name value exported s (is_valid_identifier name) _ _
      (set_at-IsUpdate env name value exported s (s.frames) refl short)
      (refused-IsUpdate env name value exported s)
