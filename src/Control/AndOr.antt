-- ===== src/Control/AndOr.antt =====
-- Command lists of src/executor.c against the grammar: chains of `&&` and `||`, one after the other.
use arksh.Base.{
  ◌≡⟨◌⟩◌, ◌∎, ℕ, ◌≡◌, refl, sym, ap, ◌∙◌, Bool, true, false, not, Option, none, some, List, [], ◌∷◌,
  ◌++◌, append_assoc, ◌==◌, if◌then◌else◌, Bytes, ◌||◌,
}
use arksh.Control.{
  Signal, no_signal, break_signal, continue_signal, return_signal, Shell, Outcome, Interpreter,
  append_output_segment, has_signal, outcome,
}
use arksh.Control.Lists.{
  Condition, always, on_success, on_failure, Entry, should_run_list_entry, suppresses, run_entry,
  after_entry, list_loop, execute_command_list,
}
use arksh.Control.Chain.{
  Command, Chain, single, both, either, entry, chain_entries, entries_of, append_output_segment_lem,
  goes_on, Progress, going, ended, proceed, after, result, held_run, added, run_command, run_chain,
  run_chains,
}

if-swap : {A : Type 0} (b : Bool) (x y : A) → (if not b then x else y) ≡ (if b then y else x)
if-swap true x y = refl
if-swap false x y = refl

module _ {W : Type 0} where
  module _ (run : Interpreter W) (out_size : ℕ) where
    abbrev rest_of : List Entry → Outcome W → Outcome W
    rest_of entries o = list_loop run out_size entries o.status o.text o.shell

    proceed-added :
        (entries : List Entry) (part : Outcome W) (o : Option Bytes)
        → after_entry run out_size (list_loop run out_size entries) part o
          ≡ proceed (added run out_size part o) (rest_of entries)
    proceed-added entries part none = refl
    proceed-added entries part (some out) = if-proceed part.shell.running part.shell.control_signal
      where
        if-proceed :
            (b : Bool) (k : Signal)
            → (if not b || has_signal k
                then outcome part.status out part.shell
                else rest_of entries (outcome part.status out part.shell))
              ≡ proceed
                  (if goes_on b k
                    then going (outcome part.status out part.shell)
                    else ended (outcome part.status out part.shell))
                  (rest_of entries)
        if-proceed false k = refl
        if-proceed true no_signal = refl
        if-proceed true break_signal = refl
        if-proceed true continue_signal = refl
        if-proceed true return_signal = refl

    run_entry_lem :
        (condition : Condition) (c : Command) (suppress : Bool) (s : Shell W)
        → run_entry run out_size (entry condition c) suppress s ≡ held_run run out_size c suppress s
    unfolding run_entry
    run_entry_lem condition c false s = refl
    run_entry_lem condition c true s = refl

    -- An entry that may be passed over.
    list_loop-entry :
        (condition : Condition) (c : Command) (entries : List Entry) (o : Outcome W)
        → rest_of (entry condition c ∷ entries) o
          ≡ proceed
              (if should_run_list_entry condition o.status
                then run_command run out_size c (suppresses entries) o
                else going o)
              (rest_of entries)
    unfolding list_loop
    list_loop-entry condition c entries o =
        ap
          (λ part.
            if should_run_list_entry condition o.status
            then after_entry run out_size (list_loop run out_size entries) part
                (append_output_segment out_size o.text part.text)
            else rest_of entries o)
          (run_entry_lem condition c (suppresses entries) o.shell)
        ∙ if-entry (should_run_list_entry condition o.status)
      where
        if-entry :
            (b : Bool)
            → (if b
                then after_entry run out_size
                    (list_loop run out_size entries)
                    (held_run run out_size c (suppresses entries) o.shell)
                    (append_output_segment out_size o.text
                      (held_run run out_size c (suppresses entries) o.shell).text)
                else rest_of entries o)
              ≡ proceed
                  (if b then run_command run out_size c (suppresses entries) o else going o)
                  (rest_of entries)
        if-entry true =
            let part = held_run run out_size c (suppresses entries) o.shell in
            proceed-added entries part (append_output_segment out_size o.text part.text)
            ∙ ap (λ out. proceed (added run out_size part out) (rest_of entries))
                (append_output_segment_lem out_size o.text part.text)
        if-entry false = refl

    proceed_cong :
        (p : Progress W) {f g : Outcome W → Outcome W}
        → ((o : Outcome W) → f o ≡ g o)
        → proceed p f ≡ proceed p g
    proceed_cong (going o) h = h o
    proceed_cong (ended o) h = refl

    proceed-after :
        (p : Progress W) (f : Outcome W → Progress W) (g : Outcome W → Outcome W)
        → proceed (after p f) g ≡ proceed p (λ o. proceed (f o) g)
    proceed-after (going o) f g = refl
    proceed-after (ended o) f g = refl

    list_loop-chain :
        (chain : Chain) (entries : List Entry) (o : Outcome W)
        → rest_of (chain_entries chain ++ entries) o
          ≡ proceed (run_chain run out_size chain (suppresses entries) o) (rest_of entries)
    unfolding append_output_segment should_run_list_entry
    list_loop-chain (single c) entries o = list_loop-entry always c entries o
    list_loop-chain (both chain c) entries o =
        rest_of ((chain_entries chain ++ (entry on_success c ∷ [])) ++ entries) o
        ≡⟨ ap (λ e. rest_of e o)
            (append_assoc (chain_entries chain) (entry on_success c ∷ []) entries) ⟩
          rest_of (chain_entries chain ++ (entry on_success c ∷ entries)) o
        ≡⟨ list_loop-chain chain (entry on_success c ∷ entries) o ⟩
          proceed (run_chain run out_size chain true o) (rest_of (entry on_success c ∷ entries))
        ≡⟨ proceed_cong (run_chain run out_size chain true o)
            (λ o'. list_loop-entry on_success c entries o') ⟩
          proceed (run_chain run out_size chain true o) (λ o'.
            proceed
              (if o'.status == 0
                then run_command run out_size c (suppresses entries) o'
                else going o')
              (rest_of entries))
        ≡⟨ sym (proceed-after (run_chain run out_size chain true o) _ (rest_of entries)) ⟩
          proceed (run_chain run out_size (both chain c) (suppresses entries) o) (rest_of entries) ∎
    list_loop-chain (either chain c) entries o =
        rest_of ((chain_entries chain ++ (entry on_failure c ∷ [])) ++ entries) o
        ≡⟨ ap (λ e. rest_of e o)
            (append_assoc (chain_entries chain) (entry on_failure c ∷ []) entries) ⟩
          rest_of (chain_entries chain ++ (entry on_failure c ∷ entries)) o
        ≡⟨ list_loop-chain chain (entry on_failure c ∷ entries) o ⟩
          proceed (run_chain run out_size chain true o) (rest_of (entry on_failure c ∷ entries))
        ≡⟨ proceed_cong (run_chain run out_size chain true o) (λ o'.
          list_loop-entry on_failure c entries o'
          ∙ ap (λ p. proceed p (rest_of entries))
              (if-swap (o'.status == 0) (run_command run out_size c (suppresses entries) o')
                (going o'))) ⟩
          proceed (run_chain run out_size chain true o) (λ o'.
            proceed
              (if o'.status == 0
                then going o'
                else run_command run out_size c (suppresses entries) o')
              (rest_of entries))
        ≡⟨ sym (proceed-after (run_chain run out_size chain true o) _ (rest_of entries)) ⟩
          proceed (run_chain run out_size (either chain c) (suppresses entries) o)
            (rest_of entries) ∎

    suppresses-chain :
        (chain : Chain) (entries : List Entry) → suppresses (chain_entries chain ++ entries) ≡ false
    suppresses-chain (single c) entries = refl
    suppresses-chain (both chain c) entries =
        ap suppresses (append_assoc (chain_entries chain) (entry on_success c ∷ []) entries)
        ∙ suppresses-chain chain (entry on_success c ∷ entries)
    suppresses-chain (either chain c) entries =
        ap suppresses (append_assoc (chain_entries chain) (entry on_failure c ∷ []) entries)
        ∙ suppresses-chain chain (entry on_failure c ∷ entries)

    suppresses-chains : (chains : List Chain) → suppresses (entries_of chains) ≡ false
    suppresses-chains [] = refl
    suppresses-chains (chain ∷ chains) = suppresses-chain chain (entries_of chains)

    list_loop-chains :
        (chains : List Chain) (o : Outcome W)
        → rest_of (entries_of chains) o ≡ result (run_chains run out_size chains o)
    unfolding list_loop
    list_loop-chains [] o = refl
    list_loop-chains (chain ∷ chains) o =
        list_loop-chain chain (entries_of chains) o
        ∙ ap (λ b. proceed (run_chain run out_size chain b o) (rest_of (entries_of chains)))
            (suppresses-chains chains)
        ∙ proceed_cong (run_chain run out_size chain false o) (list_loop-chains chains)
        ∙ sym (
            proceed-after (run_chain run out_size chain false o) (run_chains run out_size chains)
              (λ p. p))

-- Running the entries of a list of chains is running the chains one after the other, where `&&`
-- runs its right side if the left one ends with status 0, and `||` if it does not, both to the
-- left; the left side of either runs with the counter that holds off `errexit` one higher, the last
-- command of a chain does not; output begins a new line behind output that is there; and a command
-- after which the shell does not run or a signal is up, or whose output does not fit, ends the whole
-- list with the status that it then has, which is 1 with a message where the output does not fit.
pub execute_command_list-chains :
    {W : Type 0} (run : Interpreter W) (out_size : ℕ) (chains : List Chain) (s : Shell W)
    → execute_command_list run out_size (entries_of chains) s
      ≡ result (run_chains run out_size chains (outcome 0 [] s))
unfolding execute_command_list
execute_command_list-chains run out_size chains s =
    list_loop-chains run out_size chains (outcome 0 [] s)
