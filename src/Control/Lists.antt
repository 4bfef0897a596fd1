-- ===== src/Control/Lists.antt =====
-- Command lists, and the commands `break` and `continue`, in src/executor.c and src/shell.c.
use arksh.Base.{
  ℕ, ◌+◌, ◌-◌, Bool, true, false, not, Option, none, some, List, [], ◌∷◌, ◌==◌, if◌then◌else◌,
  Bytes,
}
use arksh.Control.{
  Signal, Shell, Outcome, Interpreter, append_output_segment, raise_control_signal, stopped,
  outcome, overflow,
}

-- `ArkshListCondition`
pub data Condition : Type 0 where
  always on_success on_failure : Condition

pub record Entry : Type 0 where
  pub line : Bytes
  pub condition : Condition
  pub run_in_background : Bool

-- `should_run_list_entry`
unfoldable pub should_run_list_entry : Condition → ℕ → Bool
should_run_list_entry on_success previous_status = previous_status == 0
should_run_list_entry on_failure previous_status = not (previous_status == 0)
should_run_list_entry always previous_status = true

-- The next entry asks for the status of this one.
abbrev pub suppresses : List Entry → Bool
suppresses [] = false
suppresses (e ∷ entries) = elim (e.condition) [
  | always ↦ false
  | on_success ↦ true
  | on_failure ↦ true
]

module _ {W : Type 0} (run : Interpreter W) (out_size : ℕ) where
  abbrev pub raised_by : Bool → Shell W → Shell W
  raised_by false s = s
  raised_by true s = record s { errexit_suppressed = s.errexit_suppressed + 1 }

  abbrev pub lowered_by : Bool → Shell W → Shell W
  lowered_by false s = s
  lowered_by true s = record s { errexit_suppressed = s.errexit_suppressed - 1 }

  -- One entry, with `errexit` held off where the next one asks for its status.
  unfoldable pub run_entry : Entry → Bool → Shell W → Outcome W
  run_entry e suppress s =
      let started = raised_by suppress s in
      let part =
        if e.run_in_background
        then run.start_background_job e.line started
        else run.execute_line e.line started in
      outcome part.status part.text (lowered_by suppress part.shell)

  abbrev pub after_entry : (ℕ → Bytes → Shell W → Outcome W) → Outcome W → Option Bytes → Outcome W
  after_entry next part none = overflow out_size part.shell
  after_entry next part (some out) =
      let rest = next part.status out part.shell in
      if stopped part.shell then outcome part.status out part.shell else rest

  unfoldable pub list_loop : List Entry → ℕ → Bytes → Shell W → Outcome W
  unfolding should_run_list_entry run_entry append_output_segment
  list_loop [] previous_status out s = outcome previous_status out s
  list_loop (e ∷ entries) previous_status out s =
      let part = run_entry e (suppresses entries) s in
      let ran =
        after_entry (list_loop entries) part (append_output_segment out_size out part.text) in
      let skipped = list_loop entries previous_status out s in
      if should_run_list_entry e.condition previous_status then ran else skipped

  -- `execute_command_list`
  unfoldable pub execute_command_list : List Entry → Shell W → Outcome W
  unfolding list_loop
  execute_command_list entries s = list_loop entries 0 [] s

-- `parse_positive_control_count` gives the count, or `none` for what is no count up to 1024.
module _ {W : Type 0} where
  abbrev raised : Signal → Option ℕ → Shell W → Outcome W
  raised kind none s = outcome 1 [] s
  raised kind (some count) s =
      let (done, s') = raise_control_signal kind count s in outcome (if done then 0 else 1) [] s'

  -- `handle_loop_control_line`, behind its keyword; texts of errors are left out.
  unfoldable pub handle_loop_control : Signal → Option ℕ → Shell W → Outcome W
  unfolding raise_control_signal
  handle_loop_control kind count s =
      if s.loop_depth == 0 then outcome 1 [] s else raised kind count s
