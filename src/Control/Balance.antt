-- ===== src/Control/Balance.antt =====
-- The counters of the shell around compound commands of src/executor.c: what is raised is lowered.
use arksh.Base.{
  ℕ, zero, suc, ◌≡◌, refl, ◌⊎◌, inl, inr, Bool, true, false, Option, none, some, arith,
  if◌then◌else◌, Bytes, copy_string,
}
use arksh.Control.{
  Shell, Outcome, Interpreter, append_output_segment, LoopControl, no_control, break_control,
  continue_control, propagate_control, resolve_loop_control, enter_condition, leave_condition,
  enter_loop, leave_loop, stopped, appended, too_large,
}
use arksh.Control.Loops.{
  condition_of, branch, evaluate_condition_status, condition, chosen, execute_if_command,
  after_body, body_ran, decided, loop,
}

module _ {W : Type 0} where
  -- The four counters are the same.
  pub record Keeps (s t : Shell W) : Type 0 where
    pub same_loop : t.loop_depth ≡ s.loop_depth
    pub same_condition : t.in_condition ≡ s.in_condition
    pub same_function : t.function_depth ≡ s.function_depth
    pub same_errexit : t.errexit_suppressed ≡ s.errexit_suppressed

  pub Keeps-refl : (s : Shell W) → Keeps s s
  Keeps-refl s = record {
    same_loop = refl;
    same_condition = refl;
    same_function = refl;
    same_errexit = refl;
  }

  pub Keeps-trans : {s t u : Shell W} → Keeps s t → Keeps t u → Keeps s u
  Keeps-trans p q = omega arith

  pub leave_loop-Keeps : {s t : Shell W} → Keeps (enter_loop s) t → Keeps s (leave_loop t)
  leave_loop-Keeps p = omega arith

  leave_condition-Keeps :
      {s t : Shell W} → Keeps (enter_condition s) t → Keeps s (leave_condition t)
  leave_condition-Keeps p = omega arith

  pub resolve_loop_control-Keeps : (s : Shell W) → Keeps s (resolve_loop_control s).1
  unfolding resolve_loop_control
  resolve_loop_control-Keeps s = ground arith

  -- What runs a line, and what it is given, keeps the counters.
  pub record IsBalanced (run : Interpreter W) : Type 0 where
    pub line_keeps : (line : Bytes) (s : Shell W) → Keeps s (run.execute_line line s).shell
    pub job_keeps : (line : Bytes) (s : Shell W) → Keeps s (run.start_background_job line s).shell
    pub value_keeps : (line : Bytes) (s : Shell W) → Keeps s (run.evaluate_line_value line s).1
    pub source_keeps : (line : Bytes) (s : Shell W) → Keeps s (run.evaluate_for_source line s).1
    pub assign_keeps :
        (variable : Bytes) (value : run.Value) (s : Shell W)
        → Keeps s (run.assign_for_loop_variable variable value s).1

  pub if-Keeps :
      (s : Shell W) (b : Bool) (x y : Outcome W)
      → Keeps s x.shell
      → Keeps s y.shell
      → Keeps s (if b then x else y).shell
  if-Keeps s true x y p q = p
  if-Keeps s false x y p q = q

  -- A loop ends balanced, or it reports that the output of a condition does not fit.
  abbrev pub KeepsOrLeaks : ℕ → Shell W → Option (Outcome W) → Type 0
  KeepsOrLeaks out_size s none = Unit
  KeepsOrLeaks out_size s (some r) =
      Keeps s r.shell
      ⊎ (Keeps (enter_loop s) r.shell × (r.status ≡ 1) × (r.text ≡ copy_string out_size too_large))

  module _ (run : Interpreter W) (out_size : ℕ) (law : IsBalanced run) where
    condition_of_value :
        (line : Bytes) (s : Shell W) (p : Option Bool × Shell W)
        → Keeps s p.1
        → Keeps s (condition_of run out_size line p).shell
    condition_of_value line s (some true, t) h = h
    condition_of_value line s (some false, t) h = h
    condition_of_value line s (none, t) h = Keeps-trans h (law.line_keeps line t)

    pub condition-Keeps :
        (line : Bytes) (s : Shell W) → Keeps s (condition run out_size line s).shell
    unfolding evaluate_condition_status
    condition-Keeps line s = leave_condition-Keeps (
        condition_of_value line (enter_condition s)
          (run.evaluate_line_value line (enter_condition s))
          (law.value_keeps line (enter_condition s)))

    appended-Keeps :
        (s : Shell W) (part : Outcome W) (out : Option Bytes)
        → Keeps s part.shell
        → Keeps s (appended out_size part out).shell
    appended-Keeps s part none h = h
    appended-Keeps s part (some out) h = h

    branch-Keeps :
        (s : Shell W) (status : ℕ) (other : Option Bytes) (line : Bytes)
        → Keeps s (branch run out_size status other line s).shell
    branch-Keeps s zero other line = law.line_keeps line s
    branch-Keeps s (suc status) (some line') line = law.line_keeps line' s
    branch-Keeps s (suc status) none line = Keeps-refl s

    chosen-Keeps :
        (s : Shell W) (line : Bytes) (other : Option Bytes) (part : Outcome W) (out : Option Bytes)
        → Keeps s part.shell
        → Keeps s (chosen run out_size line other part out).shell
    chosen-Keeps s line other part none h = h
    chosen-Keeps s line other part (some out) h = if-Keeps s (stopped part.shell) _ _ h (
        let last = branch run out_size part.status other line part.shell in
        appended-Keeps s last (append_output_segment out_size out last.text)
          (Keeps-trans h (branch-Keeps part.shell part.status other line)))

    pub execute_if_command-Keeps :
        (test line : Bytes) (other : Option Bytes) (s : Shell W)
        → Keeps s (execute_if_command run out_size test line other s).shell
    unfolding execute_if_command
    execute_if_command-Keeps test line other s =
        chosen-Keeps s line other (condition run out_size test s) _ (condition-Keeps test s)

    -- Inside a loop, `s` is the shell before it.
    module _ (s : Shell W) where
      if-KeepsOrLeaks :
          (b : Bool) (x y : Option (Outcome W))
          → KeepsOrLeaks out_size s x
          → KeepsOrLeaks out_size s y
          → KeepsOrLeaks out_size s (if b then x else y)
      if-KeepsOrLeaks true x y h k = h
      if-KeepsOrLeaks false x y h k = k

      module _ (next : ℕ → Bytes → Shell W → Option (Outcome W))
          (next_keeps : (last : ℕ) (out : Bytes) (t : Shell W)
            → Keeps (enter_loop s) t
            → KeepsOrLeaks out_size s (next last out t)) where
        after_body-Keeps :
            (status : ℕ) (out : Bytes) (p : LoopControl × Shell W)
            → Keeps (enter_loop s) p.1
            → KeepsOrLeaks out_size s (after_body run out_size next status out p)
        after_body-Keeps status out (no_control, t) h = next_keeps status out t h
        after_body-Keeps status out (continue_control, t) h = next_keeps 0 out t h
        after_body-Keeps status out (break_control, t) h = inl (leave_loop-Keeps h)
        after_body-Keeps status out (propagate_control, t) h = inl (leave_loop-Keeps h)

        body_ran-Keeps :
            (stops : ℕ → Bool) (test body : Bytes) (part : Outcome W) (out : Option Bytes)
            → Keeps (enter_loop s) part.shell
            → KeepsOrLeaks out_size s (body_ran run out_size stops test body next part out)
        body_ran-Keeps stops test body part none h = inl (leave_loop-Keeps h)
        body_ran-Keeps stops test body part (some out) h =
            after_body-Keeps part.status out _
              (Keeps-trans h (resolve_loop_control-Keeps part.shell))

        decided-Keeps :
            (stops : ℕ → Bool) (test body : Bytes) (last : ℕ) (part : Outcome W)
            (out : Option Bytes)
            → Keeps (enter_loop s) part.shell
            → KeepsOrLeaks out_size s (decided run out_size stops test body next last part out)
        decided-Keeps stops test body last part none h = inr (h, refl, refl)
        decided-Keeps stops test body last part (some out) h =
            if-KeepsOrLeaks (stopped part.shell) _ _ (inl (leave_loop-Keeps h)) (
              if-KeepsOrLeaks (stops part.status) _ _ (inl (leave_loop-Keeps h)) (
                body_ran-Keeps stops test body (run.execute_line body part.shell) _
                  (Keeps-trans h (law.line_keeps body part.shell))))

      pub loop-Keeps :
          (stops : ℕ → Bool) (test body : Bytes) (fuel last : ℕ) (out : Bytes) (t : Shell W)
          → Keeps (enter_loop s) t
          → KeepsOrLeaks out_size s (loop run out_size stops test body fuel last out t)
      unfolding loop
      loop-Keeps stops test body zero last out t h = tt
      loop-Keeps stops test body (suc fuel) last out t h =
          if-KeepsOrLeaks t.running _ _
            (decided-Keeps (loop run out_size stops test body fuel)
              (loop-Keeps stops test body fuel) stops test body last (condition run out_size test t)
              _ (Keeps-trans h (condition-Keeps test t)))
            (inl (leave_loop-Keeps h))
