-- ===== src/Control/Chain.antt =====
-- What a chain of commands joined by `&&` and `||` does, told without the loop over the entries of a
-- list in src/executor.c.
use arksh.Base.{
  ℕ, ◌≡◌, refl, Bool, true, false, Option, none, some, List, [], ◌∷◌, ◌++◌, ◌==◌, if◌then◌else◌,
  Bytes, ◌+◌, ◌-◌, ltb, length, length-append, arith, codes, copy_string,
}
use arksh.Control.{
  Signal, no_signal, break_signal, continue_signal, return_signal, Shell, Outcome, Interpreter,
  append_output_segment, outcome,
}
use arksh.Control.Lists.{Condition, always, on_success, on_failure, Entry}

pub record Command : Type 0 where
  pub line : Bytes
  pub run_in_background : Bool

-- Commands joined by `&&` and `||`, which associate to the left.
pub data Chain : Type 0 where
  single : Command → Chain
  both either : Chain → Command → Chain

abbrev pub entry : Condition → Command → Entry
entry condition c = record {
  line = c.line;
  condition = condition;
  run_in_background = c.run_in_background;
}

abbrev pub chain_entries : Chain → List Entry
chain_entries (single c) = entry always c ∷ []
chain_entries (both chain c) = chain_entries chain ++ (entry on_success c ∷ [])
chain_entries (either chain c) = chain_entries chain ++ (entry on_failure c ∷ [])

abbrev pub entries_of : List Chain → List Entry
entries_of [] = []
entries_of (chain ∷ chains) = chain_entries chain ++ entries_of chains

-- Output that is added begins a new line behind output that is there; it fits where it leaves room
-- for the terminating zero.
abbrev pub with_line : Bytes → Bytes → Bytes
with_line [] segment = segment
with_line (d ∷ out) segment = (d ∷ out) ++ (10 ∷ segment)

abbrev pub fitting : ℕ → Bytes → Option Bytes
fitting size text = if ltb (length text) size then some text else none

abbrev pub joined : ℕ → Bytes → Bytes → Option Bytes
joined size out [] = some out
joined size out (c ∷ segment) = fitting size (with_line out (c ∷ segment))

pub append_output_segment_lem :
    (size : ℕ) (out segment : Bytes)
    → append_output_segment size out segment ≡ joined size out segment
unfolding append_output_segment
append_output_segment_lem size out [] = refl
append_output_segment_lem size [] (c ∷ segment) = ground arith
append_output_segment_lem size (d ∷ out) (c ∷ segment) =
    let whole = length-append (d ∷ out) (10 ∷ c ∷ segment) in ground (arith, whole)

-- The shell runs, and no signal is up.
abbrev pub goes_on : Bool → Signal → Bool
goes_on true no_signal = true
goes_on true break_signal = false
goes_on true continue_signal = false
goes_on true return_signal = false
goes_on false k = false

-- The status, output and shell so far, and whether the list goes on.
pub data Progress (W : Type 0) : Type 0 where
  going ended : Outcome W → Progress W

module _ {W : Type 0} where
  abbrev pub proceed : Progress W → (Outcome W → Outcome W) → Outcome W
  proceed (going o) f = f o
  proceed (ended o) f = o

  abbrev pub after : Progress W → (Outcome W → Progress W) → Progress W
  after (going o) f = f o
  after (ended o) f = ended o

  abbrev pub result : Progress W → Outcome W
  result p = proceed p (λ o. o)

  module _ (run : Interpreter W) (out_size : ℕ) where
    abbrev pub plain_run : Command → Shell W → Outcome W
    plain_run c s =
        if c.run_in_background then run.start_background_job c.line s else run.execute_line c.line s

    -- A command, with `errexit` held off while it runs, or not.
    abbrev pub held_run : Command → Bool → Shell W → Outcome W
    held_run c false s = plain_run c s
    held_run c true s =
        let o = plain_run c (record s { errexit_suppressed = s.errexit_suppressed + 1 }) in
        outcome o.status o.text
          (record (o.shell) { errexit_suppressed = o.shell.errexit_suppressed - 1 })

    abbrev pub added : Outcome W → Option Bytes → Progress W
    added part none =
        ended
          (outcome 1 (copy_string out_size (codes "combined command output too large")) part.shell)
    added part (some out) =
        let o = outcome part.status out part.shell in
        if goes_on part.shell.running part.shell.control_signal then going o else ended o

    -- One command, and its output added.
    abbrev pub run_command : Command → Bool → Outcome W → Progress W
    run_command c suppress o =
        let part = held_run c suppress o.shell in added part (joined out_size o.text part.text)

    -- A chain: what is left of an operator runs first, with `errexit` held off.
    abbrev pub run_chain : Chain → Bool → Outcome W → Progress W
    run_chain (single c) suppress o = run_command c suppress o
    run_chain (both chain c) suppress o =
        after (run_chain chain true o)
          (λ o'. if o'.status == 0 then run_command c suppress o' else going o')
    run_chain (either chain c) suppress o =
        after (run_chain chain true o)
          (λ o'. if o'.status == 0 then going o' else run_command c suppress o')

    abbrev pub run_chains : List Chain → Outcome W → Progress W
    run_chains [] o = going o
    run_chains (chain ∷ chains) o = after (run_chain chain false o) (run_chains chains)
