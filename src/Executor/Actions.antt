-- ===== src/Executor/Actions.antt =====
-- executor.ts: `executeSynchronizationAction` and what it calls. Interruption is not modelled.
pub mod Traces
pub mod Shapes
pub mod Traced
use codexport.Base.{
  Bool, true, false, not, ◌&&◌, ◌||◌, ℕ, String, List, [], ◌∷◌, map, Option, none, some, ◌==◌,
  string_eq, if◌then◌else◌, is_none, is_some, or_else, template,
}
use codexport.Domain.{
  AppliedRecord, DesiredResource, file_resource, directory_resource, config_resource,
  skill_resource, tool_resource, credential_resource, TreeSpec, FileSpec, ConfigSpec, FileEntry,
  ObjectKind, ConfigFormat, regular, symlink, ActionDetail, Drift, human_action, agent_task,
  drift_conflict, transfer_blob, remove_resource, PlannedAgentTask,
}
use codexport.Domain.Outcome.{
  HumanAction, DriftConflict, VerificationEvidence, VerificationStatus, passed, failed, not_run,
  JournalState, pending, running, succeeded, failed_state, skipped, JournalEntry,
}
use codexport.Plans.Env.{PlanEnv}
use codexport.Plans.Entries.{desired_directory_entries, desired_resource_digest}
use codexport.Executor.Contexts.{
  ActionState, RunInput, AgentPolicy, deterministic_only, agent_propose, agent_apply,
  AgentConfiguration,
}
use codexport.Executor.Machine.{
  Exit, success, failure, Effect, void_effect, Prepared, Verification, Machine, Run, Task, pure,
  call, ◌>>=◌, after, catch, caught, ignored, ignoring, read_clock, journal,
}

-- `verificationEvidence`
unfoldable pub verification_evidence : Verification → VerificationEvidence
verification_evidence v = record {
  status = if v.is_passed then passed else failed;
  method = v.method;
  observed_digest = v.observed_digest;
  exit_code = v.exit_code;
}

-- Evidence of a step that is not a verification.
abbrev pub evidence : VerificationStatus → String → VerificationEvidence
evidence status method = record {
  status = status;
  method = method;
  observed_digest = none;
  exit_code = none;
}

-- An entry of an action, without evidence and ownership.
abbrev pub plain_entry : String → String → JournalState → ℕ → Option String → JournalEntry
plain_entry run action state attempt reference = record {
  run = run;
  action = action;
  state = state;
  attempt = attempt;
  verification = none;
  rollback_reference = reference;
  applied_resource = none;
  removed_resource = none;
  removed_record = none;
}

-- An owned file: an entry without a kind is a symbolic link or a regular file.
unfoldable pub owned_file : FileEntry → FileEntry
owned_file f = record f {
  object_kind = some (or_else f.object_kind (if is_some f.symlink_to then symlink else regular));
}

-- `ownedFilesFor`
unfoldable pub owned_files_for : PlanEnv → DesiredResource → Option (List FileEntry)
unfolding desired_directory_entries owned_file
owned_files_for env (directory_resource tree) =
    some (map owned_file (desired_directory_entries env tree))
owned_files_for env (skill_resource name tree) =
    some (map owned_file (desired_directory_entries env tree))
owned_files_for env _ = none

abbrev pub desired_executable_of : DesiredResource → Option Bool
desired_executable_of (file_resource f) = some f.executable
desired_executable_of _ = none

abbrev pub desired_mode_of : DesiredResource → Option ℕ
desired_mode_of (file_resource f) = some f.mode
desired_mode_of (directory_resource tree) = some tree.mode
desired_mode_of (skill_resource _ tree) = some tree.mode
desired_mode_of _ = none

abbrev pub desired_symlink_of : DesiredResource → Option String
desired_symlink_of (file_resource f) = f.symlink_to
desired_symlink_of _ = none

abbrev pub desired_keys_of : DesiredResource → Option (List String)
desired_keys_of (config_resource c) = some c.keys
desired_keys_of _ = none

abbrev pub desired_format_of : DesiredResource → Option ConfigFormat
desired_format_of (config_resource c) = some c.format
desired_format_of _ = none

-- `appliedResourceFor`
unfoldable pub applied_resource_for :
    PlanEnv → RunInput → ActionState → String → Option AppliedRecord
unfolding desired_resource_digest owned_files_for
applied_resource_for env input s applied_at = elim (desired_resource_digest env s.desired) [
  | none ↦ none
  | some digest ↦ some (record {
    resource = s.action.resource;
    revision = input.revision.id;
    digest = digest;
    applied_at = applied_at;
    kind = some s.resource.kind;
    policy = some s.resource.policy;
    target = some s.resource.target;
    executable = desired_executable_of s.desired;
    mode = desired_mode_of s.desired;
    symlink_to = desired_symlink_of s.desired;
    owned_files = owned_files_for env s.desired;
    owned_keys = desired_keys_of s.desired;
    config_format = desired_format_of s.desired;
  })
]

-- `appliedResources.find` by the resource.
unfoldable pub previous_record : List AppliedRecord → String → Option AppliedRecord
previous_record [] resource = none
previous_record (a ∷ records) resource =
    let rest = previous_record records resource in if a.resource == resource then some a else rest

-- The conflict that a drift action records.
unfoldable pub conflict_of_drift : RunInput → ActionState → Drift → DriftConflict
unfolding previous_record
conflict_of_drift input s d = record {
  resource = s.action.resource;
  target = d.target;
  desired_digest = d.desired_digest;
  observed_digest = d.observed_digest;
  last_applied_digest = elim (previous_record input.applied_resources s.action.resource) [
    | none ↦ d.desired_digest
    | some previous ↦ previous.digest
  ];
  desired_executable = d.desired_executable;
  observed_executable = d.observed_executable;
  desired_mode = d.desired_mode;
  observed_mode = d.observed_mode;
}

pub data ResultKind : Type 0 where
  verified_kind human_kind drift_kind failed_kind : ResultKind

-- `ActionResult`
pub record ActionResult (W : Type 0) : Type 0 where
  pub kind : ResultKind
  pub resource : Option String
  pub human : Option HumanAction
  pub drift : Option DriftConflict
  pub reason : Option String
  pub rollback : Option (Effect W)
  pub rollback_reference : Option String
  pub rollback_failed : Bool

module _ {W : Type 0} where
  abbrev pub result_of : ResultKind → ActionResult W
  result_of kind = record {
    kind = kind;
    resource = none;
    human = none;
    drift = none;
    reason = none;
    rollback = none;
    rollback_reference = none;
    rollback_failed = false;
  }

  abbrev pub failed_result : String → ActionResult W
  failed_result reason = record (result_of failed_kind) { reason = some reason }

  abbrev pub human_result : String → String → String → ActionResult W
  human_result resource reason instructions = record (result_of human_kind) {
    human =
        some (record { reason = reason; instructions = instructions; resource = some resource });
  }

  -- `driftResult`
  unfoldable pub drift_result : RunInput → ActionState → ActionDetail → ActionResult W
  unfolding conflict_of_drift
  drift_result input s (drift_conflict d) = record (result_of drift_kind) {
    drift = some (conflict_of_drift input s d);
  }
  drift_result input s _ = failed_result "invalid drift action"

  -- `rollbackPrepared`
  abbrev pub rollback_of : Option (Prepared W) → Effect W
  rollback_of none = void_effect
  rollback_of (some p) = or_else p.rollback void_effect

  abbrev pub reference_of : Option (Prepared W) → Option String
  reference_of none = none
  reference_of (some p) = p.reference

-- The task of an agent action that a harness may resolve by itself.
unfoldable pub task_of : List PlannedAgentTask → String → Option PlannedAgentTask
task_of [] id = none
task_of (t ∷ tasks) id = let rest = task_of tasks id in if t.id == id then some t else rest

abbrev may_apply : Option AgentConfiguration → Bool
may_apply none = false
may_apply (some a) = elim a.policy [ agent_apply ↦ a.has_harness | _ ↦ false ]

unfoldable pub resolvable_task : RunInput → String → Option PlannedAgentTask
unfolding task_of
resolvable_task input id =
    if may_apply input.agent && input.has_agent_resolution
    then task_of input.plan.body.agent_tasks id
    else none

module _ {W : Type 0} (m : Machine W) (input : RunInput) (s : ActionState) (attempt : ℕ) where
  abbrev note : JournalState → Option String → JournalEntry
  note state reference = plain_entry input.id s.action.id state attempt reference

  -- The verification of an agent's work.
  unfoldable pub verify_agent_work : Task W (ActionResult W)
  unfolding call ◌>>=◌ journal verification_evidence
  verify_agent_work = do
    v ← call (m.verify s)
    let entry = record (note (if v.is_passed then succeeded else failed_state) none) {
      verification = some (verification_evidence v);
    }
    _ ← journal m entry
    pure (
        if v.is_passed
        then record (result_of verified_kind) { resource = some s.action.resource }
        else failed_result
            (template ("verification failed for agent task " ∷ s.action.resource ∷ [])))

  -- After the agent has answered.
  unfoldable pub finish_agent_task : String → Bool → Task W (ActionResult W)
  unfolding ◌>>=◌ journal verify_agent_work
  finish_agent_task summary true = verify_agent_work
  finish_agent_task summary false = do
    _ ← journal m (note skipped none)
    pure (
        human_result s.action.resource
          (template ("Agent did not apply the requested task: " ∷ summary ∷ []))
          "Review the agent proposal or complete the task manually, then rerun synchronization.")

  -- The task goes to the harness, if one may apply it.
  unfoldable pub offer_agent_task : String → Option PlannedAgentTask → Task W (ActionResult W)
  unfolding call ◌>>=◌ journal finish_agent_task
  offer_agent_task summary none = do
    _ ← journal m (note skipped none)
    pure (
        human_result s.action.resource
          (template ("Bounded agent task requires an apply-authorized harness: " ∷ summary ∷ []))
          "Configure an agent-apply harness, or resolve the task manually, then rerun synchronization.")
  offer_agent_task summary (some task) = do
    _ ← journal m (note running none)
    applied ← call (m.resolve input task)
    finish_agent_task summary applied

  -- The part of `agentActionResult` that may fail.
  abbrev resolve_agent_task : String → String → Task W (ActionResult W)
  resolve_agent_task task_id summary = offer_agent_task summary (resolvable_task input task_id)

  -- An action that failed, in the journal.
  abbrev failed_note : String → Option String → JournalEntry
  failed_note method reference = record (note failed_state reference) {
    verification = some (evidence not_run method);
  }

  abbrev unresolved_result : String → ActionResult W
  unresolved_result e =
      human_result s.action.resource
        (template (
          "The configured agent harness could not resolve the task: "
          ∷ m.redact e input.known_secrets
          ∷ []))
        "Resolve the task manually or adjust the agent harness bounds, then run synchronization again."

  -- `agentActionResult`
  unfoldable pub agent_action_result : String → String → Task W (ActionResult W)
  unfolding catch ignoring journal offer_agent_task resolvable_task ◌>>=◌
  agent_action_result task_id summary = catch (resolve_agent_task task_id summary) (λ e. do
    _ ← ignoring (journal m (failed_note "action-failed" none))
    pure (unresolved_result e))

  abbrev accepted_result : Prepared W → Option AppliedRecord → ActionResult W
  accepted_result p applied = record (result_of verified_kind) {
    resource = some s.action.resource;
    rollback = elim p.rollback [
      | some effect ↦ some effect
      | none ↦ if is_none applied then none else some void_effect
    ];
    rollback_reference = p.reference;
  }

  unfoldable pub accepted_entry : Prepared W → Verification → Option AppliedRecord → JournalEntry
  unfolding verification_evidence previous_record
  accepted_entry p v applied = record (note succeeded p.reference) {
    verification = some (verification_evidence v);
    applied_resource = applied;
    removed_record = previous_record input.applied_resources s.action.resource;
  }

  -- A verification that passes.
  unfoldable pub accept_prepared : Prepared W → Verification → Task W (ActionResult W)
  unfolding ◌>>=◌ journal read_clock accepted_entry applied_resource_for
  accept_prepared p v = do
    time ← read_clock m
    let applied = applied_resource_for m.plan input s time
    _ ← journal m (accepted_entry p v applied)
    pure (accepted_result p applied)

  -- A verification that does not pass.
  unfoldable pub reject_prepared : Prepared W → Verification → Task W (ActionResult W)
  unfolding call ◌>>=◌ journal verification_evidence
  reject_prepared p v = do
    _ ← call (rollback_of (some p))
    _ ←
        journal m
          (record (note failed_state p.reference) { verification = some (verification_evidence v) })
    pure (failed_result (template ("verification failed for resource " ∷ s.action.resource ∷ [])))

  -- A prepared action whose wanted state is verified.
  unfoldable pub verify_prepared : Prepared W → Task W (ActionResult W)
  unfolding call ◌>>=◌ accept_prepared reject_prepared
  verify_prepared p =
      call (m.verify s) >>= (λ v. if v.is_passed then accept_prepared p v else reject_prepared p v)

  -- What follows the execution of a prepared action.
  unfoldable pub finish_prepared : ActionDetail → Prepared W → Task W (ActionResult W)
  unfolding ◌>>=◌ journal previous_record verify_prepared
  finish_prepared (transfer_blob blob bytes) p = do
    _ ← journal m (record (note succeeded p.reference) {
      verification = some (evidence passed "sha256-and-size");
    })
    pure (record (result_of verified_kind) {
      rollback = p.rollback;
      rollback_reference = p.reference;
    })
  finish_prepared (remove_resource target paths keys) p = do
    _ ← journal m (record (note succeeded p.reference) {
      verification = some (evidence passed "owned-resource-removed");
      removed_resource = some s.action.resource;
      removed_record = previous_record input.applied_resources s.action.resource;
    })
    pure (record (result_of verified_kind) {
      resource = some s.action.resource;
      rollback = some (or_else p.rollback void_effect);
      rollback_reference = p.reference;
    })
  finish_prepared _ p = verify_prepared p

  -- `work`, once the action is prepared.
  unfoldable pub execute_prepared : Prepared W → Task W (ActionResult W)
  unfolding call ◌>>=◌ journal finish_prepared
  execute_prepared p = do
    _ ← journal m (note running p.reference)
    _ ← call p.execute
    finish_prepared s.action.detail p

  -- The outcome of an error, after the rollback of what was prepared.
  abbrev after_rollback : Option (Prepared W) → String → Exit (Unit {0}) → ActionResult W
  after_rollback p e (success _) = failed_result (m.redact e input.known_secrets)
  after_rollback p e (failure undone) =
      record (failed_result (m.redact undone input.known_secrets)) {
        rollback_failed = true;
        rollback_reference = reference_of p;
      }

  abbrev after_journal : ActionResult W → Exit (Unit {0}) × Run W → Exit (ActionResult W) × Run W
  after_journal result (success _, r) = (success result, r)
  after_journal result (failure e, r) =
      (success (record result { reason = some (m.redact e input.known_secrets) }), r)

  -- The handler of the errors of `work`.
  unfoldable pub recover_action : Option (Prepared W) → String → Task W (ActionResult W)
  unfolding call journal
  recover_action p e r =
      let (undone, r1) = call (rollback_of p) r in
      after_journal (after_rollback p e undone)
        (journal m (failed_note "action-failed" (reference_of p)) r1)

  abbrev prepared_or : Exit (Prepared W) × Run W → Exit (ActionResult W) × Run W
  prepared_or (failure e, r) = recover_action none e r
  prepared_or (success p, r) = catch (execute_prepared p) (recover_action (some p)) r

  -- `work` and its handler.
  unfoldable pub work : Task W (ActionResult W)
  unfolding call catch execute_prepared recover_action
  work r = prepared_or (call (m.prepare s) r)

  -- `executeSynchronizationAction`, by the detail of the action, before its last handler.
  unfoldable pub perform : ActionDetail → Task W (ActionResult W)
  unfolding ◌>>=◌ call read_clock journal conflict_of_drift drift_result agent_action_result work
  perform (human_action reason instructions) = do
    _ ← journal m (note skipped none)
    pure (human_result s.action.resource reason instructions)
  perform (agent_task task_id summary) = agent_action_result task_id summary
  perform (drift_conflict d) = do
    time ← read_clock m
    _ ← call (m.store_drift input.id (conflict_of_drift input s d) time)
    _ ← journal m (note skipped none)
    pure (drift_result input s (drift_conflict d))
  perform _ = work

  abbrev never_fails : Exit (ActionResult W) × Run W → ActionResult W × Run W
  never_fails (success result, r) = (result, r)
  never_fails (failure e, r) = (failed_result (m.redact e input.known_secrets), r)

  -- `executeSynchronizationAction`
  unfoldable pub execute_action : Run W → ActionResult W × Run W
  unfolding perform
  execute_action r = never_fails (perform s.action.detail r)
