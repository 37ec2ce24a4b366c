-- ===== src/Recovery/Journal/Accepts.antt =====
-- recovery.ts: the journal of a run that has converged is valid.
use codexport.Base.{
  true, ◌≡◌, refl, sym, ap, ◌∙◌, subst, String, List, [], ◌∷◌, ◌++◌, map, arith, All, string_eq,
  nat_eq, eq_iff, contains, length, IsSetList,
}
use codexport.Domain.{PlannedAction}
use codexport.Domain.Outcome.{JournalRecord, JournalActionInput, converged, state_eq}
use codexport.Planner.Data.{PlannerInput}
use codexport.Planner.Synchronize.{
  PlannedSynchronization, PlannerEnv, planned, plan_synchronization,
}
use codexport.Planner.Synchronize.Accepted.{plan_synchronization-IsPlanOf}
use codexport.Planner.Transfers.Required.{action_ids}
use codexport.Executor.Contexts.{
  ActionState, DigestEnv, RunInput, ordered, execution_contexts, execution_limits,
}
use codexport.Executor.Machine.{Machine, Run}
use codexport.Executor.Runs.{execute_ordered}
use codexport.Executor.Runs.Converged.{execute_ordered-IsSuccessful}
use codexport.Executor.Contexts.Sound.{execution_contexts-plan_synchronization}
use codexport.Executor.Contexts.Sound.{actions_of}
use codexport.Executor.Runs.Converged.{IsSuccessful}
use codexport.Recovery.Journal.{
  latest_of, is_in_order, events_of, latest, check_journal, validate_journal, pending_events,
  stored_events, stored_journal,
}
use codexport.Recovery.Journal.Done.{check_journal-latest}
use codexport.Recovery.Journal.Stored.{
  events_of-append, ids_of, IsSuccessful-IsDone, pending_one, pending_in_order, stored_in_order,
  successful-IsPlanned, All-planned, contains-ids, check_journals-latest,
}

module _ (states : List ActionState) (events : List JournalActionInput)
    (d : IsSetList (ids_of states)) (h : IsSuccessful states events) where
  journal_done :
      (action : String)
      → contains action (ids_of states) ≡ true
      → (l : JournalRecord) × (check_journal action
            (events_of action (stored_journal (actions_of states) events))
          ≡ latest l)
  unfolding stored_journal
  journal_done action c =
      let (first, alone, p, zeroth) = pending_one 0 action states c d in
      let done = IsSuccessful-IsDone action (length (actions_of states)) states events c d h in
      let (l, e) =
        check_journal-latest action first
          (events_of action (stored_events (length (actions_of states)) events)) p zeroth done in
      (
        l,
        ap (check_journal action) (
              events_of-append action (pending_events 0 (actions_of states))
                (stored_events (length (actions_of states)) events)
              ∙ ap
                  (λ xs. xs ++ events_of action (stored_events (length (actions_of states)) events))
                  alone)
            ∙ e,
      )

  journals_done :
      (some_states : List ActionState)
      → ((id : String)
          → contains id (ids_of some_states) ≡ true
          → contains id (ids_of states) ≡ true)
      → All
          (λ (s : ActionState).
            (l : JournalRecord) × (check_journal s.action.id
                (events_of s.action.id (stored_journal (actions_of states) events))
              ≡ latest l))
          some_states
  journals_done [] k = tt
  journals_done (s ∷ rest) k = (
    journal_done s.action.id (k s.action.id (ground (arith, eq_iff s.action.id s.action.id))),
    journals_done rest (λ id m. k id (ground (arith, m))),
  )

  -- The journal of actions that succeeded one after the other is valid.
  pub validate_journal-latest :
      (latest : List (String × JournalRecord)) × (validate_journal
          (stored_journal (actions_of states) events)
          (actions_of states)
        ≡ latest_of latest)
  unfolding validate_journal stored_journal
  validate_journal-latest =
      let named = map (λ (a : PlannedAction). a.id) (actions_of states) in
      let known = All-planned named states (λ id m. contains-ids id states ∙ m) in
      let in_order =
        pending_in_order named 0 states (stored_events (length (actions_of states)) events) known (
          subst
            (λ n. is_in_order named n (stored_events (length (actions_of states)) events) ≡ true)
            (omega arith)
            (stored_in_order named (length (actions_of states)) events
              (successful-IsPlanned named states events known h))) in
      let (found, e) =
        check_journals-latest (stored_journal (actions_of states) events) states []
          (journals_done states (λ id m. m)) in
      (found, ground (arith, in_order, e))

ids_of-actions : (states : List ActionState) → ids_of states ≡ action_ids (actions_of states)
ids_of-actions [] = refl
ids_of-actions (s ∷ states) = ap (λ l. s.action.id ∷ l) (ids_of-actions states)

-- Where a run of a plan of `plan_synchronization` converges, recovery accepts the journal that it has
-- left: the pending events of its start, and then what it wrote.
pub validate_journal-converged :
    (planner : PlannerEnv) (request : PlannerInput) (p : PlannedSynchronization)
    → plan_synchronization planner request ≡ planned p
    → {W : Type 0} (m : Machine W) (env : DigestEnv) (input : RunInput) (states : List ActionState)
      (world : W) (run : String) (verified : List String)
    → input.plan ≡ p
    → execution_contexts env input (execution_limits input) ≡ ordered states
    → (execute_ordered m input states (record { world = world; journal = [] })).0.outcome
      ≡ converged run verified
    → (latest : List (String × JournalRecord)) × (validate_journal
          (stored_journal p.body.actions
            (execute_ordered m input states (record { world = world; journal = [] })).1.journal)
          p.body.actions
        ≡ latest_of latest)
validate_journal-converged planner request p made {W} m env input states world run verified same
      accepted e =
    let made_of = plan_synchronization-IsPlanOf planner request p made in
    let actions =
      execution_contexts-plan_synchronization planner request p made env input
        (execution_limits input) states same accepted in
    let start : Run W = record { world = world; journal = [] } in
    let (events, added, good) = execute_ordered-IsSuccessful m input states start run verified e in
    let d : IsSetList (ids_of states) =
      subst IsSetList (sym (ids_of-actions states ∙ ap action_ids actions)) made_of.plan.distinct in
    let (found, valid) = validate_journal-latest states events d good in
    (
      found,
      subst
          (λ (xs : List PlannedAction).
            validate_journal (stored_journal xs (execute_ordered m input states start).1.journal) xs
            ≡ latest_of found)
          actions
          (subst
            (λ (l : List JournalActionInput).
              validate_journal (stored_journal (actions_of states) l) (actions_of states)
              ≡ latest_of found)
            (sym added) valid),
    )
