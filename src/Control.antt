-- ===== src/Control.antt =====
-- Control flow in src/executor.c and src/shell.c: command lists, `if`, the loops, and the signals
-- of `break`, `continue` and `return`.
-- The shell is the record of the fields that control flow reads and writes, and the rest of it as a
-- parameter. What runs a line, evaluates a condition or assigns a variable comes back into these
-- functions, so they are taken over an interpreter that does. Memory is there.
pub mod Loops
pub mod Lists
pub mod Balance
pub mod Restores
pub mod Nest
pub mod Ends
pub mod Chain
pub mod AndOr
mod Tests
use arksh.Base.{
  ℕ, zero, suc, ◌+◌, ◌-◌, Bool, true, false, not, ◌&&◌, ◌||◌, Option, none, some, List, [], ◌∷◌,
  ◌++◌, leb, ◌⊎◌, inl, inr, ◌==◌, if◌then◌else◌, length, Bytes, codes, copy_string,
}

-- `ArkshControlSignalKind`
pub data Signal : Type 0 where
  no_signal break_signal continue_signal return_signal : Signal

pub record Shell (W : Type 0) : Type 0 where
  pub running : Bool
  pub control_signal : Signal
  pub control_levels : ℕ
  pub loop_depth : ℕ
  pub in_condition : ℕ
  pub function_depth : ℕ
  pub errexit_suppressed : ℕ
  pub rest : W

-- A status, the text in the output buffer, and the shell afterwards.
pub record Outcome (W : Type 0) : Type 0 where
  pub status : ℕ
  pub text : Bytes
  pub shell : Shell W

-- What a `for` goes over: a list, one value, or nothing. An item of the list is `none` where
-- `arksh_value_set_from_item` cannot make a value of it.
pub data Iterable (A : Type 0) : Type 0 where
  many : List (Option A) → Iterable A
  one : A → Iterable A
  nothing : Iterable A

-- `arksh_shell_execute_line`, `arksh_shell_start_background_job`, `arksh_evaluate_line_value` with
-- `value_is_truthy` (`none` for a status that is not 0), and `evaluate_for_source` and
-- `assign_for_loop_variable`, with the text of the output buffer where the status is not 0.
pub record Interpreter (W : Type 0) : Type 1 where
  Value : Type 0
  pub execute_line : Bytes → Shell W → Outcome W
  pub start_background_job : Bytes → Shell W → Outcome W
  pub evaluate_line_value : Bytes → Shell W → Option Bool × Shell W
  pub evaluate_for_source : Bytes → Shell W → (Bytes ⊎ Iterable Value) × Shell W
  pub assign_for_loop_variable : Bytes → Value → Shell W → Option Bytes × Shell W

abbrev pub no_item : Bytes
no_item = codes "unable to prepare for-loop item"

abbrev pub too_large : Bytes
too_large = codes "combined command output too large"

-- `append_output_segment`
unfoldable pub append_output_segment : ℕ → Bytes → Bytes → Option Bytes
append_output_segment dest_size dest [] = some dest
append_output_segment dest_size [] (c ∷ segment) =
    if leb dest_size (length (c ∷ segment)) then none else some (c ∷ segment)
append_output_segment dest_size (d ∷ dest) (c ∷ segment) =
    if leb dest_size (length (d ∷ dest) + 1)
      || leb dest_size (length (d ∷ dest) + 1 + length (c ∷ segment))
    then none
    else some ((d ∷ dest) ++ (10 ∷ c ∷ segment))

abbrev pub has_signal : Signal → Bool
has_signal no_signal = false
has_signal _ = true

-- What `resolve_loop_control` tells a loop to do.
pub data LoopControl : Type 0 where
  no_control break_control continue_control propagate_control : LoopControl

abbrev pub loop_control_of : Signal → LoopControl
loop_control_of break_signal = break_control
loop_control_of _ = continue_control

module _ {W : Type 0} where
  -- `arksh_shell_clear_control_signal`
  abbrev pub clear_control_signal : Shell W → Shell W
  clear_control_signal s = record s { control_signal = no_signal; control_levels = 0 }

  -- `arksh_shell_raise_control_signal`, where the signal is one and the levels are not 0.
  unfoldable pub raise_control_signal : Signal → ℕ → Shell W → Bool × Shell W
  raise_control_signal no_signal levels s = (false, s)
  raise_control_signal kind zero s = (false, s)
  raise_control_signal kind (suc levels) s =
      (true, record s { control_signal = kind; control_levels = suc levels })

  abbrev resolve : Signal → Shell W → LoopControl × Shell W
  resolve no_signal s = (no_control, s)
  resolve return_signal s = (propagate_control, s)
  resolve kind s =
      let left = record s { control_levels = s.control_levels - 1 } in
      if leb (s.control_levels) 1
      then (loop_control_of kind, clear_control_signal left)
      else (propagate_control, left)

  -- `resolve_loop_control`
  unfoldable pub resolve_loop_control : Shell W → LoopControl × Shell W
  resolve_loop_control s = resolve s.control_signal s

  abbrev pub enter_condition : Shell W → Shell W
  enter_condition s = record s { in_condition = s.in_condition + 1 }

  abbrev pub leave_condition : Shell W → Shell W
  leave_condition s = record s { in_condition = s.in_condition - 1 }

  abbrev pub enter_loop : Shell W → Shell W
  enter_loop s = record s { loop_depth = s.loop_depth + 1 }

  abbrev pub leave_loop : Shell W → Shell W
  leave_loop s = record s { loop_depth = s.loop_depth - 1 }

  -- `!shell->running`, or a signal that is up.
  abbrev pub stopped : Shell W → Bool
  stopped s = not s.running || has_signal s.control_signal

  abbrev pub outcome : ℕ → Bytes → Shell W → Outcome W
  outcome status text s = record { status = status; text = text; shell = s }

  abbrev pub overflow : ℕ → Shell W → Outcome W
  overflow out_size s = outcome 1 (copy_string out_size too_large) s

  -- A part whose output is appended to what there is: `none` where it does not fit.
  abbrev pub appended : ℕ → Outcome W → Option Bytes → Outcome W
  appended out_size part none = overflow out_size part.shell
  appended out_size part (some longer) = outcome part.status longer part.shell
