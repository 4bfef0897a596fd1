-- ===== src/Control/Ends.antt =====
-- That a `while` of src/executor.c ends where every turn lowers a measure of the shell.
use arksh.Base.{
  ℕ, zero, suc, ◌+◌, ◌≤◌, ◌<◌, ◌≡◌, refl, Bool, true, false, not, Option, none, some, [], arith,
  ◌==◌, if◌then◌else◌, Bytes,
}
use arksh.Control.{
  Shell, Outcome, Interpreter, LoopControl, no_control, break_control, continue_control,
  propagate_control, resolve_loop_control, enter_loop, leave_loop, stopped, outcome,
}
use arksh.Control.Loops.{
  condition, after_body, body_ran, decided, turn, loop, execute_while_command,
}

-- From fuel `n` on, it is the same result.
abbrev pub EndsFrom : {A : Type 0} → ℕ → (ℕ → Option A) → Type 0
EndsFrom {A} n f = (r : A) × ((fuel : ℕ) → n ≤ fuel → f fuel ≡ some r)

at_once : {A : Type 0} {n : ℕ} (r : A) → EndsFrom n (λ fuel. some r)
at_once r = (r, λ fuel p. refl)

if-EndsFrom :
    {A : Type 0} {n : ℕ} (b : Bool) (f g : ℕ → Option A)
    → EndsFrom n f
    → (b ≡ false → EndsFrom n g)
    → EndsFrom n (λ fuel. if b then f fuel else g fuel)
if-EndsFrom true f g h k = h
if-EndsFrom false f g h k = k refl

module _ {W : Type 0} (run : Interpreter W) (out_size : ℕ) (stops : ℕ → Bool)
    (test body : Bytes) where
  -- The shell of a turn's body, before and after what it signals is resolved.
  abbrev pub body_shell : Shell W → Shell W
  body_shell s = (run.execute_line body (condition run out_size test s).shell).shell

  abbrev pub turned : Shell W → Shell W
  turned s = (resolve_loop_control (body_shell s)).1

  module _ (n : ℕ) (next : ℕ → ℕ → Bytes → Shell W → Option (Outcome W)) where
    after_body-EndsFrom :
        (status : ℕ) (out : Bytes) (p : LoopControl × Shell W)
        → ((last : ℕ) → EndsFrom n (λ fuel. next fuel last out p.1))
        → EndsFrom n (λ fuel. after_body run out_size (next fuel) status out p)
    after_body-EndsFrom status out (no_control, t) h = h status
    after_body-EndsFrom status out (continue_control, t) h = h 0
    after_body-EndsFrom status out (break_control, t) h = at_once _
    after_body-EndsFrom status out (propagate_control, t) h = at_once _

    body_ran-EndsFrom :
        (part : Outcome W) (o : Option Bytes)
        → ((last : ℕ) (out : Bytes)
            → EndsFrom n (λ fuel. next fuel last out (resolve_loop_control part.shell).1))
        → EndsFrom n (λ fuel. body_ran run out_size stops test body (next fuel) part o)
    body_ran-EndsFrom part none h = at_once _
    body_ran-EndsFrom part (some out) h = after_body-EndsFrom part.status out _ (λ last. h last out)

    decided-EndsFrom :
        (last : ℕ) (part : Outcome W) (o : Option Bytes)
        → (stops part.status ≡ false
            → (last' : ℕ) (out : Bytes)
            → EndsFrom n (λ fuel.
              next fuel last' out
                (resolve_loop_control (run.execute_line body part.shell).shell).1))
        → EndsFrom n (λ fuel. decided run out_size stops test body (next fuel) last part o)
    decided-EndsFrom last part none h = at_once _
    decided-EndsFrom last part (some out) h =
        if-EndsFrom (stopped part.shell) _ _ (at_once _) (λ going.
          if-EndsFrom (stops part.status) _ _ (at_once _)
            (λ on. body_ran-EndsFrom (run.execute_line body part.shell) _ (h on)))

    turn-EndsFrom :
        (last : ℕ) (out : Bytes) (s : Shell W)
        → (stops (condition run out_size test s).status ≡ false
            → (last' : ℕ) (out' : Bytes) → EndsFrom n (λ fuel. next fuel last' out' (turned s)))
        → EndsFrom n (λ fuel. turn run out_size stops test body (next fuel) last out s)
    turn-EndsFrom last out s h =
        if-running s.running (decided-EndsFrom last (condition run out_size test s) _ h)
      where
        if-running :
            (b : Bool)
            → {f : ℕ → Option (Outcome W)} → EndsFrom n f
            → EndsFrom n (λ fuel. if b then f fuel else some (outcome last out (leave_loop s)))
        if-running true k = k
        if-running false k = at_once _

  module _ (measure : Shell W → ℕ)
      (falls : (s : Shell W)
        → stops (condition run out_size test s).status ≡ false
        → measure (turned s) < measure s) where
    loop-EndsFrom :
        (n last : ℕ) (out : Bytes) (s : Shell W)
        → measure s < n
        → EndsFrom n (λ fuel. loop run out_size stops test body fuel last out s)
    unfolding loop
    loop-EndsFrom zero last out s p = ground arith
    loop-EndsFrom (suc n) last out s p =
        let (r, k) =
          turn-EndsFrom n (loop run out_size stops test body) last out s (λ on last' out'.
            let h = falls s on in loop-EndsFrom n last' out' (turned s) (omega arith)) in
        (r, later r k)
      where
        later :
            (r : Outcome W)
            → ((fuel : ℕ)
                → n ≤ fuel
                → turn run out_size stops test body
                    (loop run out_size stops test body fuel)
                    last
                    out
                    s
                  ≡ some r)
            → (fuel : ℕ) → suc n ≤ fuel
            → loop run out_size stops test body fuel last out s ≡ some r
        later r k zero q = ground arith
        later r k (suc fuel) q = k fuel (omega arith)

-- A `while` ends. Where a number read off the shell falls with every turn whose condition has
-- status 0, the condition and the body with its signal resolved included, there is an outcome, and
-- the loop has it with fuel for one turn more than that number at the start, and with any fuel
-- above that.
pub execute_while_command-ends :
    {W : Type 0} (run : Interpreter W) (out_size : ℕ) (test body : Bytes) (measure : Shell W → ℕ)
    (s : Shell W)
    → ((t : Shell W)
        → (condition run out_size test t).status ≡ 0
        → measure (turned run out_size (λ c. not (c == 0)) test body t) < measure t)
    → (r : Outcome W) × ((more : ℕ)
        → execute_while_command run out_size (measure (enter_loop s) + 1 + more) test body s
          ≡ some r)
unfolding execute_while_command
execute_while_command-ends run out_size test body measure s falls =
    let (r, k) =
      loop-EndsFrom run out_size (λ c. not (c == 0)) test body measure
        (λ t on. falls t (ground arith)) (measure (enter_loop s) + 1) 0 [] (enter_loop s)
        (omega arith) in
    (r, λ more. k _ (omega arith))
