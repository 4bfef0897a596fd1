-- ===== src/Control/Restores.antt =====
-- The counters of the shell around `for` commands and command lists of src/executor.c.
use arksh.Base.{
  ◌≡◌, refl, ◌⊎◌, inl, inr, ℕ, Bool, true, false, Option, none, some, List, [], ◌∷◌, arith,
  if◌then◌else◌, Bytes, copy_string,
}
use arksh.Control.{
  Shell, Outcome, Iterable, many, one, nothing, Interpreter, LoopControl, no_control, break_control,
  continue_control, propagate_control, enter_loop, leave_loop, stopped, outcome, no_item,
}
use arksh.Control.Loops.{
  execute_if_command, after_item, item_ran, item_turn, assigned, for_loop, for_values,
  execute_for_command,
}
use arksh.Control.Lists.{
  raised_by, lowered_by, Entry, should_run_list_entry, suppresses, run_entry, after_entry,
  list_loop, execute_command_list,
}
use arksh.Control.Balance.{
  Keeps, Keeps-refl, Keeps-trans, IsBalanced, if-Keeps, leave_loop-Keeps,
  resolve_loop_control-Keeps, execute_if_command-Keeps,
}

-- A `for` ends balanced, or it reports that an item cannot be copied.
abbrev pub KeepsOrFails : {W : Type 0} → ℕ → Shell W → Outcome W → Type 0
KeepsOrFails out_size s r =
    Keeps s r.shell
    ⊎ (Keeps (enter_loop s) r.shell × (r.status ≡ 1) × (r.text ≡ copy_string out_size no_item))

module _ {W : Type 0} (run : Interpreter W) (out_size : ℕ) (law : IsBalanced run) where
  module _ (variable body : Bytes) (s : Shell W) where
    if-KeepsOrFails :
        (b : Bool) (x y : Outcome W)
        → KeepsOrFails out_size s x
        → KeepsOrFails out_size s y
        → KeepsOrFails out_size s (if b then x else y)
    if-KeepsOrFails true x y h k = h
    if-KeepsOrFails false x y h k = k

    module _ (next : ℕ → Bytes → Shell W → Outcome W)
        (next_keeps : (last : ℕ) (out : Bytes) (t : Shell W)
          → Keeps (enter_loop s) t
          → KeepsOrFails out_size s (next last out t)) where
      after_item-Keeps :
          (status : ℕ) (out : Bytes) (p : LoopControl × Shell W)
          → Keeps (enter_loop s) p.1
          → KeepsOrFails out_size s (after_item run out_size variable body next status out p)
      after_item-Keeps status out (no_control, t) h = next_keeps status out t h
      after_item-Keeps status out (continue_control, t) h = next_keeps 0 out t h
      after_item-Keeps status out (break_control, t) h = inl (leave_loop-Keeps h)
      after_item-Keeps status out (propagate_control, t) h = inl (leave_loop-Keeps h)

      item_ran-Keeps :
          (part : Outcome W) (out : Option Bytes)
          → Keeps (enter_loop s) part.shell
          → KeepsOrFails out_size s (item_ran run out_size variable body next part out)
      item_ran-Keeps part none h = inl (leave_loop-Keeps h)
      item_ran-Keeps part (some out) h =
          after_item-Keeps part.status out _ (Keeps-trans h (resolve_loop_control-Keeps part.shell))

      item_turn-Keeps :
          (out : Bytes) (t : Shell W)
          → Keeps (enter_loop s) t
          → KeepsOrFails out_size s (item_turn run out_size variable body next out t)
      item_turn-Keeps out t h =
          item_ran-Keeps (run.execute_line body t) _ (Keeps-trans h (law.line_keeps body t))

    assigned-Keeps :
        (next : Shell W → Outcome W)
        → ((t : Shell W) → Keeps (enter_loop s) t → KeepsOrFails out_size s (next t))
        → (p : Option Bytes × Shell W) → Keeps (enter_loop s) p.1
        → KeepsOrFails out_size s (assigned run out_size variable body next p)
    assigned-Keeps next h (some message, t) k = inl (leave_loop-Keeps k)
    assigned-Keeps next h (none, t) k = h t k

    for_loop-Keeps :
        (values : List (Option run.Value)) (last : ℕ) (out : Bytes) (t : Shell W)
        → Keeps (enter_loop s) t
        → KeepsOrFails out_size s (for_loop run out_size variable body values last out t)
    unfolding for_loop
    for_loop-Keeps [] last out t h = inl (leave_loop-Keeps h)
    for_loop-Keeps (none ∷ values) last out t h =
        if-KeepsOrFails t.running _ _ (inr (h, refl, refl)) (inl (leave_loop-Keeps h))
    for_loop-Keeps (some value ∷ values) last out t h =
        if-KeepsOrFails t.running _ _
          (assigned-Keeps _
            (λ u k.
              item_turn-Keeps (for_loop run out_size variable body values) (for_loop-Keeps values)
                out u k)
            (run.assign_for_loop_variable variable value t)
            (Keeps-trans h (law.assign_keeps variable value t)))
          (inl (leave_loop-Keeps h))

    for_values-Keeps :
        (p : (Bytes ⊎ Iterable run.Value) × Shell W)
        → Keeps s p.1
        → KeepsOrFails out_size s (for_values run out_size variable body p)
    for_values-Keeps (inl message, t) h = inl h
    for_values-Keeps (inr nothing, t) h = inl h
    for_values-Keeps (inr (many values), t) h =
        for_loop-Keeps values 0 [] (enter_loop t) (omega arith)
    for_values-Keeps (inr (one value), t) h =
        assigned-Keeps _
          (λ u k.
            item_turn-Keeps (λ status out w. outcome status out (leave_loop w))
              (λ last out w m. inl (leave_loop-Keeps m)) [] u k)
          (run.assign_for_loop_variable variable value (enter_loop t))
          (let k = law.assign_keeps variable value (enter_loop t) in omega arith)

  raised_part-Keeps :
      (s : Shell W) (suppress : Bool) (f : Shell W → Outcome W)
      → ((t : Shell W) → Keeps t (f t).shell)
      → Keeps s (lowered_by run out_size suppress (f (raised_by run out_size suppress s)).shell)
  raised_part-Keeps s true f h = let k = h (raised_by run out_size true s) in omega arith
  raised_part-Keeps s false f h = h s

  run_entry-Keeps :
      (e : Entry) (suppress : Bool) (s : Shell W)
      → Keeps s (run_entry run out_size e suppress s).shell
  unfolding run_entry
  run_entry-Keeps e suppress s =
      raised_part-Keeps s suppress
        (λ t.
          if e.run_in_background
          then run.start_background_job e.line t
          else run.execute_line e.line t)
        (λ t. if-Keeps t e.run_in_background _ _ (law.job_keeps e.line t) (law.line_keeps e.line t))

  list_loop-Keeps :
      (entries : List Entry) (last : ℕ) (out : Bytes) (s t : Shell W)
      → Keeps s t
      → Keeps s (list_loop run out_size entries last out t).shell
  unfolding list_loop
  list_loop-Keeps [] last out s t h = h
  list_loop-Keeps (e ∷ entries) last out s t h =
      if-Keeps s (should_run_list_entry e.condition last) _ _
        (after (run_entry run out_size e (suppresses entries) t) _
          (Keeps-trans h (run_entry-Keeps e (suppresses entries) t))
          (λ last' out' u k. list_loop-Keeps entries last' out' s u k))
        (list_loop-Keeps entries last out s t h)
    where
      after :
          (part : Outcome W) (o : Option Bytes)
          → Keeps s part.shell
          → ((last' : ℕ) (out' : Bytes) (u : Shell W)
              → Keeps s u
              → Keeps s (list_loop run out_size entries last' out' u).shell)
          → Keeps s (after_entry run out_size (list_loop run out_size entries) part o).shell
      after part none k ih = k
      after part (some out') k ih =
          if-Keeps s (stopped part.shell) _ _ k (ih part.status out' part.shell k)

-- Where the interpreter keeps the counters of loops, conditions, functions and of `errexit`, an
-- `if` and a command list keep them too, on every path, and so does a `for`, with one exception:
-- where an item of its list cannot be copied, the status is 1, the text is the message, and the
-- counter of loops is left one higher.
pub execute_for_command-Keeps :
    {W : Type 0} (run : Interpreter W) (out_size : ℕ) (s : Shell W)
    → IsBalanced run
    → ((test line : Bytes) (other : Option Bytes)
        → Keeps s (execute_if_command run out_size test line other s).shell)
      × ((variable source body : Bytes)
          → KeepsOrFails out_size s (execute_for_command run out_size variable source body s))
      × ((entries : List Entry) → Keeps s (execute_command_list run out_size entries s).shell)
unfolding execute_for_command execute_command_list
execute_for_command-Keeps run out_size s law = (
  (λ test line other. execute_if_command-Keeps run out_size law test line other s),
  (λ variable source body.
      for_values-Keeps run out_size law variable body s (run.evaluate_for_source source s)
        (law.source_keeps source s)),
  (λ entries. list_loop-Keeps run out_size law entries 0 [] s s (Keeps-refl s)),
)
