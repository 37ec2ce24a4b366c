-- ===== src/Examples/Running.antt =====
-- The theorems on a run that converges, on a machine where everything succeeds.
use codexport.Base.{
  true, false, ◌≡◌, refl, ℕ, suc, String, List, [], ◌∷◌, ◌++◌, none, text_lt, map_set,
}
use codexport.Domain.Outcome.{JournalRecord, JournalActionInput, converged}
use codexport.Executor.Contexts.{ordered, execution_contexts, execution_limits}
use codexport.Executor.Machine.{success, Machine, Run}
use codexport.Executor.Actions.{execute_action}
use codexport.Executor.Actions.Shapes.{IsTraced}
use codexport.Executor.Actions.Traced.{execute_action-IsTraced}
use codexport.Executor.Runs.{execute_ordered}
use codexport.Executor.Runs.Converged.{IsSuccessful, execute_ordered-IsSuccessful}
use codexport.Recovery.Journal.{validate_journal, stored_journal, latest_of}
use codexport.Recovery.Journal.Accepts.{validate_journal-converged}
use codexport.Examples.{plain_env}
use codexport.Examples.Planning.{
  planner, request, request-planned, plan, digests, run, state, writing,
}

-- The world counts what is done to it.
abbrev machine : Machine ℕ
machine = record {
  plan = plain_env;
  prepare = λ s w. (
    success (record { reference = none; execute = λ n. (success tt, suc n); rollback = none }),
    w,
  );
  verify = λ s w. (
    success
        (record { is_passed = true; method = "digest"; observed_digest = none; exit_code = none }),
    w,
  );
  store = λ e w. (success tt, suc w);
  store_drift = λ r c t w. (success tt, w);
  now = λ w. ("2026-01-01T00:00:00Z", w);
  resolve = λ i t w. (success false, w);
  redact = λ s secrets. s;
}

abbrev idle : Run ℕ
idle = record { world = 0; journal = [] }

execute_action-IsTraced_example :
    (events : List JournalActionInput) × ((execute_action machine run state 1 idle).1.journal
      ≡ idle.journal ++ events)
    × IsTraced "action:guide:0:write-file" 1
        (execute_action machine run state 1 idle).0.kind
        (execute_action machine run state 1 idle).0
        events
execute_action-IsTraced_example = execute_action-IsTraced machine run state 1 idle

run-converged :
    (execute_ordered machine run (state ∷ []) idle).0.outcome ≡ converged "run" ("guide" ∷ [])
unfolding execute_ordered text_lt
run-converged = refl

execute_ordered-IsSuccessful_example :
    (events : List JournalActionInput) × ((execute_ordered machine run (state ∷ []) idle).1.journal
      ≡ idle.journal ++ events)
    × IsSuccessful (state ∷ []) events
execute_ordered-IsSuccessful_example =
    execute_ordered-IsSuccessful machine run (state ∷ []) idle "run" ("guide" ∷ []) run-converged

run-accepted : execution_contexts digests run (execution_limits run) ≡ ordered (state ∷ [])
unfolding execution_contexts execution_limits map_set
run-accepted = refl

validate_journal-converged_example :
    (latest : List (String × JournalRecord)) × (validate_journal
        (stored_journal (writing ∷ []) (execute_ordered machine run (state ∷ []) idle).1.journal)
        (writing ∷ [])
      ≡ latest_of latest)
validate_journal-converged_example =
    validate_journal-converged planner request plan request-planned machine digests run (state ∷ [])
      0 "run" ("guide" ∷ []) refl run-accepted run-converged
