-- ===== src/Control/Loops.antt =====
-- `if`, `while`, `until` and `for` of src/executor.c. A loop takes fuel, one unit for each turn that
-- it may begin; `none` means that it has not ended by then.
use arksh.Base.{
  ◌⊎◌, inl, inr, ℕ, zero, suc, Bool, not, Option, none, some, List, [], ◌∷◌, ◌==◌, if◌then◌else◌,
  Bytes, copy_string,
}
use arksh.Control.{
  Shell, Outcome, Iterable, many, one, nothing, Interpreter, append_output_segment, LoopControl,
  no_control, break_control, continue_control, propagate_control, resolve_loop_control,
  enter_condition, leave_condition, enter_loop, leave_loop, stopped, outcome, overflow, appended,
  no_item,
}

module _ {W : Type 0} (run : Interpreter W) (out_size : ℕ) where
  abbrev pub condition_of : Bytes → Option Bool × Shell W → Outcome W
  condition_of text (some truthy, s) = outcome (if truthy then 0 else 1) [] s
  condition_of text (none, s) = run.execute_line text s

  -- `evaluate_condition_status`
  unfoldable pub evaluate_condition_status : Bytes → Shell W → Outcome W
  evaluate_condition_status text s = condition_of text (run.evaluate_line_value text s)

  -- The condition of a command, with `in_condition` raised around it, and its output appended.
  abbrev pub condition : Bytes → Shell W → Outcome W
  condition text s =
      let part = evaluate_condition_status text (enter_condition s) in
      outcome part.status part.text (leave_condition part.shell)

  abbrev pub branch : ℕ → Option Bytes → Bytes → Shell W → Outcome W
  branch zero other then_branch s = run.execute_line then_branch s
  branch (suc status) (some else_branch) then_branch s = run.execute_line else_branch s
  branch (suc status) none then_branch s = outcome 0 [] s

  abbrev pub chosen : Bytes → Option Bytes → Outcome W → Option Bytes → Outcome W
  chosen then_branch else_branch part none = overflow out_size part.shell
  chosen then_branch else_branch part (some out) =
      let last = branch part.status else_branch then_branch part.shell in
      let whole = appended out_size last (append_output_segment out_size out last.text) in
      if stopped part.shell then outcome part.status out part.shell else whole

  -- `execute_if_command`
  unfoldable pub execute_if_command : Bytes → Bytes → Option Bytes → Shell W → Outcome W
  unfolding evaluate_condition_status append_output_segment
  execute_if_command test then_branch else_branch s =
      let part = condition test s in
      chosen then_branch else_branch part (append_output_segment out_size [] part.text)

  -- After the body of a loop: the next turn, or the end.
  abbrev pub after_body :
      (ℕ → Bytes → Shell W → Option (Outcome W))
      → ℕ
      → Bytes
      → LoopControl × Shell W
      → Option (Outcome W)
  after_body next status out (no_control, s) = next status out s
  after_body next status out (continue_control, s) = next 0 out s
  after_body next status out (break_control, s) = some (outcome 0 out (leave_loop s))
  after_body next status out (propagate_control, s) = some (outcome status out (leave_loop s))

  module _ (stops : ℕ → Bool) (test body : Bytes) where
    -- The body, once the condition has not ended the loop.
    abbrev pub body_ran :
        (ℕ → Bytes → Shell W → Option (Outcome W)) → Outcome W → Option Bytes → Option (Outcome W)
    body_ran next part none = some (overflow out_size (leave_loop part.shell))
    body_ran next part (some out) =
        after_body next part.status out (resolve_loop_control part.shell)

    abbrev pub body_turn :
        (ℕ → Bytes → Shell W → Option (Outcome W)) → Bytes → Shell W → Option (Outcome W)
    body_turn next out s =
        let part = run.execute_line body s in
        body_ran next part (append_output_segment out_size out part.text)

    -- What the condition decides, with its output appended. Where that does not fit, `loop_depth`
    -- stays raised.
    abbrev pub decided :
        (ℕ → Bytes → Shell W → Option (Outcome W))
        → ℕ
        → Outcome W
        → Option Bytes
        → Option (Outcome W)
    decided next last part none = some (overflow out_size part.shell)
    decided next last part (some out) =
        let rest = body_turn next out part.shell in
        if stopped part.shell
        then some (outcome part.status out (leave_loop part.shell))
        else if stops part.status
        then some (outcome last out (leave_loop part.shell))
        else rest

    abbrev pub turn :
        (ℕ → Bytes → Shell W → Option (Outcome W)) → ℕ → Bytes → Shell W → Option (Outcome W)
    turn next last out s =
        let part = condition test s in
        let rest = decided next last part (append_output_segment out_size out part.text) in
        if s.running then rest else some (outcome last out (leave_loop s))

    -- `while (shell->running)` of both loops.
    unfoldable pub loop : ℕ → ℕ → Bytes → Shell W → Option (Outcome W)
    unfolding evaluate_condition_status append_output_segment resolve_loop_control
    loop zero last out s = none
    loop (suc fuel) last out s = turn (loop fuel) last out s

  -- `execute_while_command`
  unfoldable pub execute_while_command : ℕ → Bytes → Bytes → Shell W → Option (Outcome W)
  unfolding loop
  execute_while_command fuel test body s =
      loop (λ c. not (c == 0)) test body fuel 0 [] (enter_loop s)

  -- `execute_until_command`
  unfoldable pub execute_until_command : ℕ → Bytes → Bytes → Shell W → Option (Outcome W)
  unfolding loop
  execute_until_command fuel test body s = loop (λ c. c == 0) test body fuel 0 [] (enter_loop s)

  module _ (variable body : Bytes) where
    abbrev pub assigned : (Shell W → Outcome W) → Option Bytes × Shell W → Outcome W
    assigned next (some message, s) = outcome 1 message (leave_loop s)
    assigned next (none, s) = next s

    abbrev pub after_item :
        (ℕ → Bytes → Shell W → Outcome W) → ℕ → Bytes → LoopControl × Shell W → Outcome W
    after_item next status out (no_control, s) = next status out s
    after_item next status out (continue_control, s) = next 0 out s
    after_item next status out (break_control, s) = outcome 0 out (leave_loop s)
    after_item next status out (propagate_control, s) = outcome status out (leave_loop s)

    abbrev pub item_ran : (ℕ → Bytes → Shell W → Outcome W) → Outcome W → Option Bytes → Outcome W
    item_ran next part none = overflow out_size (leave_loop part.shell)
    item_ran next part (some out) =
        after_item next part.status out (resolve_loop_control part.shell)

    abbrev pub item_turn : (ℕ → Bytes → Shell W → Outcome W) → Bytes → Shell W → Outcome W
    item_turn next out s =
        let part = run.execute_line body s in
        item_ran next part (append_output_segment out_size out part.text)

    -- A turn begins by copying an item. Where that fails, `loop_depth` stays raised.
    unfoldable pub for_loop : List (Option run.Value) → ℕ → Bytes → Shell W → Outcome W
    unfolding append_output_segment resolve_loop_control
    for_loop [] last out s = outcome last out (leave_loop s)
    for_loop (none ∷ values) last out s =
        if s.running
        then outcome 1 (copy_string out_size no_item) s
        else outcome last out (leave_loop s)
    for_loop (some value ∷ values) last out s =
        let more =
          assigned (item_turn (for_loop values) out)
            (run.assign_for_loop_variable variable value s) in
        if s.running then more else outcome last out (leave_loop s)

    -- A single value: whatever the body asks for, the loop is over.
    abbrev pub for_once : run.Value → Shell W → Outcome W
    for_once value s =
        assigned (item_turn (λ status out s'. outcome status out (leave_loop s')) [])
          (run.assign_for_loop_variable variable value s)

    abbrev pub for_values : (Bytes ⊎ Iterable run.Value) × Shell W → Outcome W
    for_values (inl message, s) = outcome 1 message s
    for_values (inr (many values), s) = for_loop values 0 [] (enter_loop s)
    for_values (inr (one value), s) = for_once value (enter_loop s)
    for_values (inr nothing, s) = outcome 0 [] s

  -- `execute_for_command`
  unfoldable pub execute_for_command : Bytes → Bytes → Bytes → Shell W → Outcome W
  unfolding for_loop append_output_segment resolve_loop_control
  execute_for_command variable source body s =
      for_values variable body (run.evaluate_for_source source s)
