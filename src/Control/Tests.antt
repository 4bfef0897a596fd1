-- ===== src/Control/Tests.antt =====
-- Runs of the commands of control flow, and the theorems at shells where they apply. The rest of
-- the shell is a number that a line counts down.
use arksh.Base.{
  inr, ℕ, ◌+◌, ◌-◌, ◌<◌, ◌≡◌, refl, true, false, not, Option, none, some, List, [], ◌∷◌, ◌++◌,
  arith, ◌==◌, if◌then◌else◌, length, Bytes, codes,
}
use arksh.Control.{no_signal, Shell, Outcome, many, Interpreter, outcome, resolve_loop_control}
use arksh.Control.Loops.{
  condition, evaluate_condition_status, execute_if_command, execute_while_command,
  execute_for_command,
}
use arksh.Control.Lists.{Entry, execute_command_list}
use arksh.Control.Balance.{Keeps, IsBalanced}
use arksh.Control.Restores.{KeepsOrFails, execute_for_command-Keeps}
use arksh.Control.Nest.{while_kind, for_kind, Endless, Broken, nest, nest-Broken}
use arksh.Control.Ends.{turned, execute_while_command-ends}
use arksh.Control.Chain.{Chain, single, both, either, entries_of, run_chains, result}
use arksh.Control.AndOr.{execute_command_list-chains}

-- "yes" holds, "no" does not, and "left" holds while the number is not 0. A line prints itself, and
-- fails if it is "false".
abbrev toy : Interpreter ℕ
toy = record {
  Value = ℕ;
  execute_line =
      λ line s. outcome (if length line == 5 then 1 else 0) line (record s { rest = s.rest - 1 });
  start_background_job = λ line s. outcome 0 [] s;
  evaluate_line_value = λ line s. (
    some (if length line == 3 then true else if length line == 2 then false else not (s.rest == 0)),
    s,
  );
  evaluate_for_source = λ line s. (inr (many (some 4 ∷ some 5 ∷ [])), s);
  assign_for_loop_variable = λ variable value s. (none, record s { rest = value });
}

abbrev fresh : Shell ℕ
fresh = record {
  running = true;
  control_signal = no_signal;
  control_levels = 0;
  loop_depth = 0;
  in_condition = 0;
  function_depth = 0;
  errexit_suppressed = 0;
  rest = 2;
}

two_turns :
    execute_while_command toy 64 3 (codes "left") (codes "ab") fresh
    ≡ some (outcome 0 (codes "ab" ++ (10 ∷ codes "ab")) (record fresh { rest = 0 }))
unfolding execute_while_command
two_turns = refl

-- The condition's own output is longer than the buffer of 4 bytes: the depth stays raised.
abbrev loud : Interpreter ℕ
loud = record toy { evaluate_line_value = λ line s. (none, s) }

leaves_loop_depth :
    execute_while_command loud 4 1 (codes "loud!") (codes "ab") fresh
    ≡ some (outcome 1 (codes "com") (record fresh { loop_depth = 1; rest = 1 }))
unfolding execute_while_command
leaves_loop_depth = refl

toy-IsBalanced : IsBalanced toy
toy-IsBalanced = record {
  line_keeps = λ line s. omega arith;
  job_keeps = λ line s. omega arith;
  value_keeps = λ line s. omega arith;
  source_keeps = λ line s. omega arith;
  assign_keeps = λ variable value s. omega arith;
}

-- An item that cannot be copied: the depth stays raised.
abbrev broken : Interpreter ℕ
broken = record toy { evaluate_for_source = λ line s. (inr (many (some 4 ∷ none ∷ [])), s) }

leaves_for_depth :
    execute_for_command broken 64 (codes "v") (codes "list") (codes "x") fresh
    ≡ outcome 1
        (codes "unable to prepare for-loop item")
        (record fresh { loop_depth = 1; rest = 3 })
unfolding execute_for_command
leaves_for_depth = refl

execute_for_command-Keeps_example :
    ((test line : Bytes) (other : Option Bytes)
      → Keeps fresh (execute_if_command toy 64 test line other fresh).shell)
    × ((variable source body : Bytes)
        → KeepsOrFails 64 fresh (execute_for_command toy 64 variable source body fresh))
    × ((entries : List Entry) → Keeps fresh (execute_command_list toy 64 entries fresh).shell)
execute_for_command-Keeps_example = execute_for_command-Keeps toy 64 fresh toy-IsBalanced

toy-Endless : Endless toy (codes "yes") (codes "no") (codes "list") (codes "x")
toy-Endless = record {
  holds = λ s. refl;
  holds_same = λ s. ground arith;
  fails = λ s. refl;
  fails_same = λ s. ground arith;
  first = 4;
  others = some 5 ∷ [];
  values = λ s. refl;
  values_same = λ s. ground arith;
  binds = λ s. refl;
  bound_same = λ s. ground arith;
}

-- Three levels, and two loops: one level stays.
nest-Broken_example : Broken 1 fresh (
    nest toy 64
      (codes "yes")
      (codes "no")
      (codes "list")
      (codes "x")
      (codes "body")
      3
      (while_kind ∷ for_kind ∷ [])
      fresh)
nest-Broken_example =
    nest-Broken toy 64 (codes "yes") (codes "no") (codes "list") (codes "x") (codes "body") 2
      (while_kind ∷ for_kind ∷ []) fresh toy-Endless refl refl (omega arith) (omega arith)

toy-falls :
    (t : Shell ℕ)
    → (condition toy 64 (codes "left") t).status ≡ 0
    → (turned toy 64 (λ c. not (c == 0)) (codes "left") (codes "ab") t).rest < t.rest
unfolding evaluate_condition_status resolve_loop_control
toy-falls t p = ground arith

execute_while_command-ends_example :
    (r : Outcome ℕ) × ((more : ℕ)
      → execute_while_command toy 64 (2 + 1 + more) (codes "left") (codes "ab") fresh ≡ some r)
execute_while_command-ends_example =
    execute_while_command-ends toy 64 (codes "left") (codes "ab") (λ t. t.rest) fresh toy-falls

-- `false && a || b`
abbrev list : List Chain
list =
    either
      (both (single (record { line = codes "false"; run_in_background = false }))
        (record { line = codes "a"; run_in_background = false }))
      (record { line = codes "b"; run_in_background = false })
    ∷ []

execute_command_list-chains_example :
    execute_command_list toy 64 (entries_of list) fresh
    ≡ result (run_chains toy 64 list (outcome 0 [] fresh))
execute_command_list-chains_example = execute_command_list-chains toy 64 list fresh
