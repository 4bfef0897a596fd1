-- ===== src/Scope.antt =====
-- The shell's variables and their scope frames in src/shell.c: `lookup_visible_var`,
-- `arksh_shell_get_var`, `arksh_shell_set_var`, `arksh_shell_unset_var`, `sync_visible_var_env`,
-- `arksh_shell_push_scope_frame` and `arksh_shell_pop_scope_frame`.
-- The linked frames are a list, the innermost first, without their bindings and positional
-- parameters. The process environment is a parameter. Memory is there, so that an array grows up to
-- ARKSH_MAX_SHELL_VARS entries.
pub mod View
pub mod Local
pub mod Unset
mod Tests
use arksh.Base.{
  ℕ, ◌+◌, Bool, true, false, not, ◌&&◌, ◌||◌, Option, none, some, List, [], ◌∷◌, leb, ◌==◌,
  if◌then◌else◌, length, Bytes, copy_string, same_text,
}

-- The process environment: `getenv`, and `setenv` and `unsetenv` with whether they returned 0.
pub record Environ : Type 1 where
  State : Type 0
  pub getenv : State → Bytes → Option Bytes
  pub setenv : Bytes → Bytes → State → Bool × State
  pub unsetenv : Bytes → State → Bool × State

pub record ScopedVar : Type 0 where
  name : Bytes
  value : Bytes
  exported : Bool
  deleted : Bool

pub record ShellVar : Type 0 where
  name : Bytes
  value : Bytes
  exported : Bool

abbrev pub Frame : Type 0
Frame = List ScopedVar

abbrev pub max_shell_vars : ℕ
max_shell_vars = 64

abbrev pub max_var_name : ℕ
max_var_name = 64

abbrev pub max_var_value : ℕ
max_var_value = 1024

-- What a look-up finds: nothing, an entry that was unset, or a value and whether it is exported.
pub data Visible : Type 0 where
  missing unset : Visible
  seen : Bytes → Bool → Visible

-- `find_scoped_var_entry`
unfoldable pub find_scoped_var_entry : Frame → Bytes → Option ScopedVar
find_scoped_var_entry [] name = none
find_scoped_var_entry (v ∷ frame) name =
    if same_text (v.name) name then some v else find_scoped_var_entry frame name

-- `find_var_entry`
unfoldable pub find_var_entry : List ShellVar → Bytes → Option ShellVar
find_var_entry [] name = none
find_var_entry (v ∷ vars) name =
    if same_text (v.name) name then some v else find_var_entry vars name

abbrev pub scoped_view : Option ScopedVar → Visible → Visible
scoped_view none outer = outer
scoped_view (some v) outer = if v.deleted then unset else seen v.value v.exported

abbrev pub shell_view : Option ShellVar → Visible
shell_view none = missing
shell_view (some v) = seen v.value v.exported

-- `lookup_visible_var` without the process environment.
unfoldable pub lookup_visible_var : List Frame → List ShellVar → Bytes → Visible
unfolding find_scoped_var_entry find_var_entry
lookup_visible_var [] vars name = shell_view (find_var_entry vars name)
lookup_visible_var (frame ∷ frames) vars name =
    scoped_view (find_scoped_var_entry frame name) (lookup_visible_var frames vars name)

abbrev pub is_exported : Visible → Bool
is_exported (seen value exported) = exported
is_exported v = false

-- The entry of a name, or a new one at the end, gets a value.
unfoldable pub put_scoped : Frame → Bytes → Bytes → Bool → Bool → Frame
put_scoped [] name value exported deleted =
    record {
      name = copy_string max_var_name name;
      value = value;
      exported = exported;
      deleted = deleted;
    }
    ∷ []
put_scoped (v ∷ frame) name value exported deleted =
    if same_text (v.name) name
    then record v { value = value; exported = exported; deleted = deleted } ∷ frame
    else v ∷ put_scoped frame name value exported deleted

unfoldable pub put_var : List ShellVar → Bytes → Bytes → Bool → List ShellVar
put_var [] name value exported =
    record { name = copy_string max_var_name name; value = value; exported = exported } ∷ []
put_var (v ∷ vars) name value exported =
    if same_text (v.name) name
    then record v { value = value; exported = exported } ∷ vars
    else v ∷ put_var vars name value exported

-- The variables without the first of a name.
unfoldable pub remove_var : List ShellVar → Bytes → List ShellVar
remove_var [] name = []
remove_var (v ∷ vars) name = if same_text (v.name) name then vars else v ∷ remove_var vars name

abbrev pub is_letter : ℕ → Bool
is_letter c = (leb b'a' c && leb c b'z') || (leb b'A' c && leb c b'Z') || c == b'_'

abbrev pub is_name_char : ℕ → Bool
is_name_char c = is_letter c || (leb b'0' c && leb c b'9')

abbrev pub all_name_chars : Bytes → Bool
all_name_chars [] = true
all_name_chars (c ∷ s) = is_name_char c && all_name_chars s

unfoldable pub is_valid_identifier : Bytes → Bool
is_valid_identifier [] = false
is_valid_identifier (c ∷ s) = is_letter c && all_name_chars s

-- There is no room for one entry more, and the name has none.
abbrev pub no_entry {ℓ} : {A : Type ℓ} → Option A → Bool
no_entry none = true
no_entry (some v) = false

abbrev pub entry_exported : Option ScopedVar → Bool
entry_exported none = false
entry_exported (some v) = v.exported

abbrev pub var_exported : Option ShellVar → Bool
var_exported none = false
var_exported (some v) = v.exported

module _ (env : Environ) where
  pub record Shell : Type 0 where
    frames : List Frame
    vars : List ShellVar
    environ : env.State

  -- A status, `true` for 0, and the shell.
  abbrev pub with_env : List Frame → List ShellVar → Bool × env.State → Bool × Shell
  with_env frames vars (status, e) = (status, record { frames = frames; vars = vars; environ = e })

  -- `if (effective_exported && set_process_env(…) != 0)`
  abbrev pub export : Bool → List Frame → List ShellVar → env.State → Bytes → Bytes → Bool × Shell
  export exported frames vars e name value =
      with_env frames vars (if exported then env.setenv name value e else (true, e))

  -- `sync_visible_var_env`
  abbrev pub sync_env : Visible → Bytes → env.State → Bool × env.State
  sync_env (seen value true) name e = env.setenv name value e
  sync_env v name e = env.unsetenv name e

  unfoldable pub sync_visible_var_env :
      List Frame → List ShellVar → Bytes → env.State → Bool × env.State
  unfolding lookup_visible_var
  sync_visible_var_env frames vars name e = sync_env (lookup_visible_var frames vars name) name e

  -- `arksh_shell_get_var`
  abbrev pub value_or_env : Visible → Option Bytes → Option Bytes
  value_or_env missing e = e
  value_or_env unset e = none
  value_or_env (seen value exported) e = some value

  unfoldable pub get_var : Shell → Bytes → Option Bytes
  unfolding lookup_visible_var
  get_var s [] = none
  get_var s (c ∷ name) =
      value_or_env (lookup_visible_var s.frames s.vars (c ∷ name)) (env.getenv s.environ (c ∷ name))

  abbrev pub set_scoped : Shell → Frame → List Frame → Bytes → Bytes → Bool → Bool × Shell
  set_scoped s frame frames name value exported =
      let found = find_scoped_var_entry frame name in
      let effective =
        exported || entry_exported found || is_exported (lookup_visible_var frames s.vars name) in
      if no_entry found && leb max_shell_vars (length frame)
      then (false, s)
      else export effective
          (put_scoped frame name (copy_string max_var_value value) effective false ∷ frames) s.vars
          s.environ name (copy_string max_var_value value)

  abbrev pub set_global : Shell → Bytes → Bytes → Bool → Bool × Shell
  set_global s name value exported =
      let found = find_var_entry s.vars name in
      let effective = exported || var_exported found in
      if no_entry found && leb max_shell_vars (length (s.vars))
      then (false, s)
      else export effective [] (put_var s.vars name (copy_string max_var_value value) effective)
          s.environ name (copy_string max_var_value value)

  abbrev pub set_at : List Frame → Shell → Bytes → Bytes → Bool → Bool × Shell
  set_at [] s name value exported = set_global s name value exported
  set_at (frame ∷ frames) s name value exported = set_scoped s frame frames name value exported

  -- `arksh_shell_set_var`
  unfoldable pub set_var : Shell → Bytes → Bytes → Bool → Bool × Shell
  unfolding is_valid_identifier find_scoped_var_entry find_var_entry lookup_visible_var put_scoped
      put_var
  set_var s name value exported =
      if is_valid_identifier name then set_at s.frames s name value exported else (false, s)

  abbrev pub unset_at : List Frame → Shell → Bytes → Bool × Shell
  unset_at [] s name =
      let vars = remove_var s.vars name in with_env [] vars (env.unsetenv name s.environ)
  unset_at (frame ∷ frames) s name =
      let frames' = put_scoped frame name [] false true ∷ frames in
      if no_entry (find_scoped_var_entry frame name) && leb max_shell_vars (length frame)
      then (false, s)
      else with_env frames' s.vars (sync_visible_var_env frames' s.vars name s.environ)

  -- `arksh_shell_unset_var`
  unfoldable pub unset_var : Shell → Bytes → Bool × Shell
  unfolding is_valid_identifier find_scoped_var_entry sync_visible_var_env put_scoped remove_var
  unset_var s name = if is_valid_identifier name then unset_at s.frames s name else (false, s)

  -- `arksh_shell_push_scope_frame`
  unfoldable pub push_scope_frame : Shell → Shell
  push_scope_frame s = record { frames = [] ∷ s.frames; vars = s.vars; environ = s.environ }

  unfoldable pub sync_all : List Frame → List ShellVar → Frame → env.State → env.State
  unfolding sync_visible_var_env
  sync_all frames vars [] e = e
  sync_all frames vars (v ∷ frame) e =
      sync_all frames vars frame (sync_visible_var_env frames vars (v.name) e).1

  abbrev pub pop_at : List Frame → Shell → Shell
  pop_at [] s = s
  pop_at (frame ∷ frames) s = record {
    frames = frames;
    vars = s.vars;
    environ = sync_all frames s.vars frame s.environ;
  }

  -- `arksh_shell_pop_scope_frame`
  unfoldable pub pop_scope_frame : Shell → Shell
  unfolding sync_all
  pop_scope_frame s = pop_at s.frames s
