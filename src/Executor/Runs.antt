-- ===== src/Executor/Runs.antt =====
-- executor.ts: `executeSynchronizationPlan`. Interruption is not modelled.
pub mod Converged
use mathlib.Core.List.{reverse}
use codexport.Base.{
  Bool, true, false, not, ◌&&◌, ◌||◌, ℕ, String, List, [], ◌∷◌, ◌++◌, map, Option, none, some, ◌==◌,
  string_eq, if◌then◌else◌, is_none, is_some, or_else, template, contains, filter, set_add, map_get,
  map_from, text_lt,
}
use codexport.Base.Order.{sort}
use codexport.Domain.{AppliedRecord, DesiredResource, DesiredResourceEntry, PublishedResource}
use codexport.Domain.Outcome.{
  HumanAction, DriftConflict, VerificationEvidence, VerificationStatus, not_run, JournalState,
  failed_state, skipped, JournalEntry, RunOutcome, converged, human_action_required, follower_drift,
  failed_run,
}
use codexport.Plans.Entries.{desired_resource_digest}
use codexport.Executor.Contexts.{
  ActionState, RunInput, DigestEnv, ExecutionError, Ordered, ordered, rejected, out_of_fuel,
  execution_contexts, execution_limits, Catalog, catalog_of,
}
use codexport.Executor.Machine.{
  Exit, success, failure, Effect, Machine, Run, Task, call, ignored, ignoring, read_clock, journal,
}
use codexport.Executor.Actions.{
  ActionResult, ResultKind, verified_kind, human_kind, drift_kind, failed_kind, plain_entry,
  evidence, previous_record, execute_action, owned_files_for, desired_executable_of,
  desired_mode_of, desired_symlink_of, desired_keys_of, desired_format_of,
}

-- An action to undo where a later one fails.
pub record Completed (W : Type 0) : Type 0 where
  pub action : String
  pub resource : Option String
  pub rollback : Effect W
  pub reference : Option String

-- The variables of the loop.
pub record Progress (W : Type 0) : Type 0 where
  pub completed_actions : List String
  pub verified : List String
  pub human : List HumanAction
  pub drift : List DriftConflict
  pub removed_resources : List String
  pub failed_rollbacks : List String
  pub completed_rollbacks : List (Completed W)
  pub failed_reason : Option String

module _ {A : Type 0} where
  -- `push` of a value that may be undefined.
  abbrev pub push_option : List A → Option A → List A
  push_option xs none = xs
  push_option xs (some x) = xs ++ x ∷ []

-- `add` of a resource that may be undefined.
abbrev pub add_option : List String → Option String → List String
add_option s none = s
add_option s (some x) = set_add s x

-- A resource that the revision removes.
abbrev pub removed_of : Option (List String) → Option String → Option String
removed_of (some removed) (some resource) =
    if contains resource removed then some resource else none
removed_of _ _ = none

-- The reason of the latest failure.
abbrev pub later_reason : Option String → Option String → Option String
later_reason old none = old
later_reason old (some reason) = some reason

module _ {W : Type 0} where
  abbrev pub start_progress : Progress W
  start_progress = record {
    completed_actions = [];
    verified = [];
    human = [];
    drift = [];
    removed_resources = [];
    failed_rollbacks = [];
    completed_rollbacks = [];
    failed_reason = none;
  }

  -- The rollback that a verified action owes.
  abbrev pub owed : ResultKind → String → ActionResult W → Option (Completed W)
  owed verified_kind action result = elim result.rollback [
    | none ↦ none
    | some rollback ↦ some (record {
      action = action;
      resource = result.resource;
      rollback = rollback;
      reference = result.rollback_reference;
    })
  ]
  owed _ action result = none

  -- What the loop notes of a result.
  unfoldable pub note_result : RunInput → ActionState → ActionResult W → Progress W → Progress W
  note_result input s result p = record {
    completed_actions = p.completed_actions ++ s.action.id ∷ [];
    verified = add_option p.verified result.resource;
    human = push_option p.human result.human;
    drift = push_option p.drift result.drift;
    removed_resources =
        add_option p.removed_resources
          (removed_of input.revision.removed_resources result.resource);
    failed_rollbacks =
        if result.rollback_failed
        then p.failed_rollbacks ++ s.action.id ∷ []
        else p.failed_rollbacks;
    completed_rollbacks = push_option p.completed_rollbacks (owed result.kind s.action.id result);
    failed_reason = later_reason p.failed_reason result.reason;
  }

module _ {W : Type 0} (m : Machine W) (input : RunInput) where
  abbrev previous_of : Option String → Option AppliedRecord
  previous_of none = none
  previous_of (some resource) = previous_record input.applied_resources resource

  -- The entry of an action that is rolled back with its run.
  unfoldable pub rolled_back_entry : Completed W → JournalEntry
  unfolding previous_record
  rolled_back_entry c = record (plain_entry input.id c.action failed_state 1 c.reference) {
    verification = some (evidence not_run "run-rolled-back");
    applied_resource = previous_of c.resource;
    removed_resource = if is_none (previous_of c.resource) then c.resource else none;
  }

  abbrev rollback_message : Progress W → Completed W → String → String
  rollback_message p c e = template (
      or_else p.failed_reason "synchronization failed"
      ∷ "; rollback failed for "
      ∷ c.action
      ∷ ": "
      ∷ m.redact e input.known_secrets
      ∷ [])

  abbrev after_entry : Completed W → Progress W → Exit (Unit {0}) × Run W → Progress W × Run W
  after_entry c p (success _, r) = (p, r)
  after_entry c p (failure e, r) = (record p { failed_reason = some (rollback_message p c e) }, r)

  abbrev after_undo : Completed W → Progress W → Exit (Unit {0}) × Run W → Progress W × Run W
  after_undo c p (success _, r) = after_entry c p (journal m (rolled_back_entry c) r)
  after_undo c p (failure e, r) = (
    record p {
      failed_rollbacks = p.failed_rollbacks ++ c.action ∷ [];
      failed_reason = some (rollback_message p c e);
    },
    r,
  )

  -- The loop over `completedRollbacks.reverse()`.
  unfoldable pub undo_all : List (Completed W) → Progress W × Run W → Progress W × Run W
  unfolding call journal rolled_back_entry
  undo_all [] x = x
  undo_all (c ∷ rest) (p, r) = undo_all rest (after_undo c p (call c.rollback r))

  -- `completeSkipped`
  unfoldable pub complete_skipped : List ActionState → Run W → Run W
  unfolding ignoring journal
  complete_skipped [] r = r
  complete_skipped (s ∷ states) r =
      complete_skipped states
        (ignoring (journal m (plain_entry input.id s.action.id skipped 1 none)) r).1

  abbrev skip_rest : List ActionState → Progress W × Run W → Progress W × Run W
  skip_rest states (p, r) = (p, complete_skipped states r)

  -- After an action: the next ones run, or the loop ends.
  abbrev pub go_on :
      ResultKind
      → List ActionState
      → (Progress W × Run W → Progress W × Run W)
      → Progress W × Run W
      → Progress W × Run W
  go_on verified_kind states next (p, r) = next (p, r)
  go_on failed_kind states next (p, r) =
      skip_rest states (undo_all (reverse p.completed_rollbacks) (p, r))
  go_on human_kind states next (p, r) = skip_rest states (p, r)
  go_on drift_kind states next (p, r) = skip_rest states (p, r)

  -- `runActions`
  unfoldable pub run_actions : List ActionState → Progress W × Run W → Progress W × Run W
  unfolding execute_action note_result undo_all complete_skipped
  run_actions [] x = x
  run_actions (s ∷ states) (p, r) =
      let next = run_actions states in
      let (result, r1) = execute_action m input s 1 r in
      go_on result.kind states next (note_result input s result p, r1)

  -- The outcome of a run.
  unfoldable pub outcome_of : Progress W → RunOutcome
  outcome_of p = elim p.failed_reason [
    | some reason ↦ failed_run input.id reason
    | none ↦ elim p.drift [
      | _ ∷ _ ↦ follower_drift input.id p.drift
      | [] ↦ elim p.human [
        | _ ∷ _ ↦ human_action_required input.id p.human
        | [] ↦ converged input.id (sort text_lt p.verified)
      ]
    ]
  ]

  -- The record of a resource that has converged, if its wanted state has a digest.
  unfoldable pub applied_record : Catalog → String → String → Option AppliedRecord
  unfolding map_get desired_resource_digest owned_files_for
  applied_record catalog applied_at resource = elim (map_get resource catalog.desired) [
    | none ↦ none
    | some entry ↦ elim (desired_resource_digest m.plan entry.desired) [
      | none ↦ none
      | some digest ↦
          let published = map_get resource catalog.resources in
          some (record {
            resource = resource;
            revision = input.revision.id;
            digest = digest;
            applied_at = applied_at;
            kind = elim published [ none ↦ none | some r ↦ some r.kind ];
            policy = elim published [ none ↦ none | some r ↦ some r.policy ];
            target = elim published [ none ↦ none | some r ↦ some r.target ];
            executable = desired_executable_of entry.desired;
            mode = desired_mode_of entry.desired;
            symlink_to = desired_symlink_of entry.desired;
            owned_files = owned_files_for m.plan entry.desired;
            owned_keys = desired_keys_of entry.desired;
            config_format = desired_format_of entry.desired;
          })
    ]
  ]

  -- The loop that fills `applied`.
  unfoldable pub applied_records : Catalog → String → List String → List String → List AppliedRecord
  unfolding applied_record
  applied_records catalog applied_at removed [] = []
  applied_records catalog applied_at removed (resource ∷ resources) =
      let rest = applied_records catalog applied_at removed resources in
      if contains resource removed
      then rest
      else elim (applied_record catalog applied_at resource) [ none ↦ rest | some a ↦ a ∷ rest ]

-- `SynchronizationExecutionResult`
pub record ExecutionResult : Type 0 where
  pub outcome : RunOutcome
  pub applied_resources : List AppliedRecord
  pub removed_resources : List String
  pub failed_rollbacks : List String

module _ {W : Type 0} (m : Machine W) (input : RunInput) where
  -- The result of a run with this outcome.
  unfoldable pub result_with : RunOutcome → Progress W → Run W → ExecutionResult × Run W
  unfolding read_clock catalog_of applied_records
  result_with (converged run verified) p r =
      let (time, w) = m.now r.world in
      (
        record {
          outcome = converged run verified;
          applied_resources =
              applied_records m input (catalog_of input.revision) time p.removed_resources verified;
          removed_resources = sort text_lt p.removed_resources;
          failed_rollbacks = p.failed_rollbacks;
        },
        record r { world = w },
      )
  result_with outcome p r = (
    record {
      outcome = outcome;
      applied_resources = [];
      removed_resources = [];
      failed_rollbacks = p.failed_rollbacks;
    },
    r,
  )

  abbrev finished : Progress W × Run W → ExecutionResult × Run W
  finished (p, r) = result_with (outcome_of m input p) p r

  -- The actions in their order, from nothing done.
  unfoldable pub execute_ordered : List ActionState → Run W → ExecutionResult × Run W
  unfolding run_actions outcome_of result_with
  execute_ordered states r = finished (run_actions m input states (start_progress, r))

-- A plan is executed, or not accepted. `unended` stands for the loop of `executionContexts` that has
-- not ended, which never happens.
pub data Executed (W : Type 0) : Type 0 where
  executed : ExecutionResult × Run W → Executed W
  not_accepted : ExecutionError → Executed W
  unended : Executed W

module _ {W : Type 0} (m : Machine W) (env : DigestEnv) where
  -- `executeSynchronizationPlan`
  unfoldable pub execute_plan : RunInput → Run W → Executed W
  unfolding execution_contexts execution_limits execute_ordered
  execute_plan input r = elim (execution_contexts env input (execution_limits input)) [
    | rejected error ↦ not_accepted error
    | out_of_fuel ↦ unended
    | ordered states ↦ executed (execute_ordered m input states r)
  ]
