-- ===== src/Control/Nest.antt =====
-- What `break n` does inside nested loops of src/executor.c.
use arksh.Base.{
  inr, ℕ, zero, suc, ◌+◌, ◌-◌, ◌≤◌, ◌≡◌, subst, ◌∙◌, true, false, Option, none, some, List, [], ◌∷◌,
  arith, Bytes, length,
}
use arksh.Control.{
  enter_condition, leave_condition, enter_loop, Signal, no_signal, break_signal, Shell, Outcome,
  many, Interpreter, outcome,
}
use arksh.Control.Loops.{execute_while_command, execute_until_command, execute_for_command}
use arksh.Control.Lists.{handle_loop_control}

pub data Kind : Type 0 where
  while_kind until_kind for_kind : Kind

abbrev pub pending : ℕ → Signal
pending zero = no_signal
pending (suc left) = break_signal

module _ {W : Type 0} where
  -- The parts of the shell that decide how a loop goes on are the same.
  pub record Same (s t : Shell W) : Type 0 where
    pub same_running : t.running ≡ s.running
    pub same_signal : t.control_signal ≡ s.control_signal
    pub same_levels : t.control_levels ≡ s.control_levels
    pub same_depth : t.loop_depth ≡ s.loop_depth

  -- A condition that holds, one that fails, and a source with a first value to assign.
  pub record Endless (run : Interpreter W) (true_test false_test source variable : Bytes)
      : Type 0 where
    pub holds : (s : Shell W) → (run.evaluate_line_value true_test s).0 ≡ some true
    pub holds_same : (s : Shell W) → Same s (run.evaluate_line_value true_test s).1
    pub fails : (s : Shell W) → (run.evaluate_line_value false_test s).0 ≡ some false
    pub fails_same : (s : Shell W) → Same s (run.evaluate_line_value false_test s).1
    pub first : run.Value
    pub others : List (Option run.Value)
    pub values :
        (s : Shell W) → (run.evaluate_for_source source s).0 ≡ inr (many (some first ∷ others))
    pub values_same : (s : Shell W) → Same s (run.evaluate_for_source source s).1
    pub binds : (s : Shell W) → (run.assign_for_loop_variable variable first s).0 ≡ none
    pub bound_same : (s : Shell W) → Same s (run.assign_for_loop_variable variable first s).1

  -- What a loop of one turn at most ends with; status 1 if it goes on.
  abbrev ended : Shell W → Option (Outcome W) → Outcome W
  ended s none = outcome 1 [] s
  ended s (some r) = r

  module _ (run : Interpreter W) (out_size : ℕ)
      (true_test false_test source variable body : Bytes) where
    abbrev looped : Kind → Interpreter W → Shell W → Outcome W
    looped while_kind inner s = ended s (execute_while_command inner out_size 1 true_test body s)
    looped until_kind inner s = ended s (execute_until_command inner out_size 1 false_test body s)
    looped for_kind inner s = execute_for_command inner out_size variable source body s

    -- Loops in each other's bodies, the outermost first, and `break n` in the innermost one. A `while`
    -- and an `until` may begin one turn.
    unfoldable pub nest : ℕ → List Kind → Shell W → Outcome W
    unfolding execute_while_command execute_until_command execute_for_command handle_loop_control
    nest n [] s = handle_loop_control break_signal (some n) s
    nest n (kind ∷ kinds) s = looped kind (record run { execute_line = λ line. nest n kinds }) s

  -- Status 0, no output, the depth as before, and `left` levels still to break.
  pub record Broken (left : ℕ) (s : Shell W) (r : Outcome W) : Type 0 where
    pub no_error : r.status ≡ 0
    pub no_text : r.text ≡ []
    pub runs : r.shell.running ≡ true
    pub depth : r.shell.loop_depth ≡ s.loop_depth
    pub signal : r.shell.control_signal ≡ pending left
    pub levels : r.shell.control_levels ≡ left

  -- The shell runs, and no signal is up.
  pub record IsReady (s : Shell W) : Type 0 where
    pub is_running : s.running ≡ true
    pub no_signal_up : s.control_signal ≡ no_signal

  module _ (inner : Interpreter W) (out_size : ℕ) (left : ℕ) (s : Shell W) (ready : IsReady s) where
    module _ (test body : Bytes) where
      -- The shell that evaluates a condition, and the one that the body then starts in.
      abbrev tested : Shell W
      tested = enter_condition (enter_loop s)

      abbrev started : Shell W
      started = leave_condition (inner.evaluate_line_value test tested).1

      module _ (k : Same tested (inner.evaluate_line_value test tested).1)
          (i : Broken (suc left) started (inner.execute_line body started)) where
        while-Broken :
            (inner.evaluate_line_value test tested).0 ≡ some true
            → Broken left s (ended s (execute_while_command inner out_size 1 test body s))
        unfolding execute_while_command
        while-Broken h = ground arith

        until-Broken :
            (inner.evaluate_line_value test tested).0 ≡ some false
            → Broken left s (ended s (execute_until_command inner out_size 1 test body s))
        unfolding execute_until_command
        until-Broken h = ground arith

    for-Broken :
        (variable source body : Bytes) (first : inner.Value) (others : List (Option inner.Value))
        → (inner.evaluate_for_source source s).0 ≡ inr (many (some first ∷ others))
        → Same s (inner.evaluate_for_source source s).1
        → let p =
            inner.assign_for_loop_variable variable first
              (enter_loop (inner.evaluate_for_source source s).1) in
          p.0 ≡ none
          → Same (enter_loop (inner.evaluate_for_source source s).1) p.1
          → Broken (suc left) p.1 (inner.execute_line body p.1)
          → Broken left s (execute_for_command inner out_size variable source body s)
    unfolding execute_for_command
    for-Broken variable source body first others h k b c i = ground arith

  handle_loop_control-Broken :
      (n : ℕ) (s : Shell W)
      → IsReady s
      → 1 ≤ s.loop_depth
      → Broken (suc n) s (handle_loop_control break_signal (some (suc n)) s)
  unfolding handle_loop_control
  handle_loop_control-Broken n s ready d = ground arith

  IsReady-Same : {s t : Shell W} → IsReady s → Same s t → IsReady t
  IsReady-Same ready k = record {
    is_running = k.same_running ∙ ready.is_running;
    no_signal_up = k.same_signal ∙ ready.no_signal_up;
  }

  again : (s : Shell W) → s.running ≡ true → s.control_signal ≡ no_signal → IsReady s
  again s p q = record { is_running = p; no_signal_up = q }

  condition-IsReady :
      {s t : Shell W}
      → IsReady s
      → Same (enter_condition (enter_loop s)) t
      → IsReady (leave_condition t)
  condition-IsReady {s} {t} ready k =
      again (leave_condition t) (k.same_running ∙ ready.is_running)
        (k.same_signal ∙ ready.no_signal_up)

  module _ (run : Interpreter W) (out_size : ℕ) (true_test false_test source variable body : Bytes)
      (law : Endless run true_test false_test source variable) where
    abbrev nested : ℕ → List Kind → Shell W → Outcome W
    nested n kinds s = nest run out_size true_test false_test source variable body n kinds s

    abbrev inner : ℕ → List Kind → Interpreter W
    inner n kinds = record run { execute_line = λ line. nested n kinds }

    looped-Broken :
        (n left : ℕ) (kinds : List Kind) (kind : Kind) (s : Shell W)
        → IsReady s
        → ((t : Shell W) → IsReady t → 1 ≤ t.loop_depth → Broken (suc left) t (nested n kinds t))
        → Broken left s
            (looped run out_size true_test false_test source variable body kind (inner n kinds) s)
    looped-Broken n left kinds while_kind s ready f =
        let e = enter_condition (enter_loop s) in
        let k = law.holds_same e in
        while-Broken (inner n kinds) out_size left s ready true_test body k
          (f (leave_condition (run.evaluate_line_value true_test e).1) (condition-IsReady ready k)
            (omega arith))
          (law.holds e)
    looped-Broken n left kinds until_kind s ready f =
        let e = enter_condition (enter_loop s) in
        let k = law.fails_same e in
        until-Broken (inner n kinds) out_size left s ready false_test body k
          (f (leave_condition (run.evaluate_line_value false_test e).1) (condition-IsReady ready k)
            (omega arith))
          (law.fails e)
    looped-Broken n left kinds for_kind s ready f =
        let k = law.values_same s in
        let e = enter_loop (run.evaluate_for_source source s).1 in
        let b = law.bound_same e in
        for-Broken (inner n kinds) out_size left s ready variable source body law.first law.others
          (law.values s) k (law.binds e) (law.bound_same e)
          (f (run.assign_for_loop_variable variable law.first e).1
            (IsReady-Same
              (again e (k.same_running ∙ ready.is_running) (k.same_signal ∙ ready.no_signal_up))
              (law.bound_same e))
            (omega arith))

    nested-Broken :
        (n : ℕ) (kinds : List Kind) (s : Shell W)
        → IsReady s
        → length kinds ≤ suc n
        → 1 ≤ s.loop_depth + length kinds
        → Broken (suc n - length kinds) s (nested (suc n) kinds s)
    unfolding nest
    nested-Broken n [] s ready q d =
        subst (λ left. Broken left s (nested (suc n) [] s)) (omega arith)
          (handle_loop_control-Broken n s ready (omega arith))
    nested-Broken n (kind ∷ kinds) s ready q d =
        subst (λ left. Broken left s (nested (suc n) (kind ∷ kinds) s)) (omega arith)
          (looped-Broken (suc n) (n - length kinds) kinds kind s ready (λ t go deep.
            subst (λ left. Broken left t (nested (suc n) kinds t)) (omega arith)
              (nested-Broken n kinds t go (omega arith) (omega arith))))

-- `break` with the count n + 1 inside loops of any kinds, at most n + 1 of them. Where the conditions
-- let the loops go on, `for` has a value to assign, these evaluations leave alone whether the shell
-- runs, its signal and its depth of loops, the shell runs, no signal is up, and there is a loop,
-- here or around: every loop ends in its first turn with status 0, without output and with the
-- depth restored, and the levels left are n + 1 less the number of the loops. With as many loops as
-- levels no signal is up afterwards; with fewer, the break signal stays up, also where no loop is
-- around.
pub nest-Broken :
    {W : Type 0} (run : Interpreter W) (out_size : ℕ)
    (true_test false_test source variable body : Bytes) (n : ℕ) (kinds : List Kind) (s : Shell W)
    → Endless run true_test false_test source variable
    → s.running ≡ true
    → s.control_signal ≡ no_signal
    → length kinds ≤ suc n
    → 1 ≤ s.loop_depth + length kinds
    → Broken
        (suc n - length kinds)
        s
        (nest run out_size true_test false_test source variable body (suc n) kinds s)
nest-Broken run out_size true_test false_test source variable body n kinds s law p q r d =
    nested-Broken run out_size true_test false_test source variable body law n kinds s (again s p q)
      r d
