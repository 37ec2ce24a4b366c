-- ===== src/Executor/Contexts.antt =====
-- executor.ts: `validateLimits` and `executionContexts`, the order in which a plan's actions run.
pub mod Rounds
pub mod Sound
use codexport.Base.{
  Bool, true, false, not, ◌&&◌, ◌||◌, ℕ, zero, suc, String, List, [], ◌∷◌, ◌++◌, map, Option, none,
  some, ◌==◌, nat_eq, string_eq, bool_eq, option_eq, all, contains, length, if◌then◌else◌, leb, ltb,
  or_else, template, map_get, map_from, set_add, is_none,
}
use codexport.Domain.{
  PublishedResource, DesiredResource, DesiredResourceEntry, VerificationInput, PlannedAction,
  ActionDetail, WriteFile, write_file, detail_kind, action_kind_eq, PlanningRevision, file_resource,
  kind_text, AppliedRecord,
}
use codexport.Planner.Validate.{verification_compatible, method_name}
use codexport.Planner.Synchronize.{PlannedSynchronization, PlanBody}

pub record Limits : Type 0 where
  pub maximum_file_bytes : ℕ
  pub process_timeout_milliseconds : ℕ
  pub maximum_process_output_bytes : ℕ
  pub verification_concurrency : ℕ

-- The limits that a run overrides.
pub record LimitOverrides : Type 0 where
  pub maximum_file_bytes : Option ℕ
  pub process_timeout_milliseconds : Option ℕ
  pub maximum_process_output_bytes : Option ℕ
  pub verification_concurrency : Option ℕ

-- `SynchronizationArtifact`, its content as a text of bytes.
pub record Artifact : Type 0 where
  pub digest : String
  pub content : String

-- `AgentPolicy`
pub data AgentPolicy : Type 0 where
  deterministic_only agent_propose agent_apply : AgentPolicy

-- `SynchronizationAgentConfiguration`: the harness is only passed on.
pub record AgentConfiguration : Type 0 where
  pub policy : AgentPolicy
  pub has_harness : Bool

-- `SynchronizationRunInput`
pub record RunInput : Type 0 where
  pub id : String
  pub plan : PlannedSynchronization
  pub revision : PlanningRevision
  pub applied_resources : List AppliedRecord
  pub artifacts : List Artifact
  pub known_secrets : List String
  pub limits : LimitOverrides
  pub agent : Option AgentConfiguration
  pub has_agent_resolution : Bool

-- `defaultSynchronizationExecutionLimits`
abbrev pub default_limits : Limits
default_limits = record {
  maximum_file_bytes = 16777216;
  process_timeout_milliseconds = 600000;
  maximum_process_output_bytes = 1048576;
  verification_concurrency = 4;
}

-- `executionLimits`
unfoldable pub execution_limits : RunInput → Limits
execution_limits input = record {
  maximum_file_bytes = or_else input.limits.maximum_file_bytes default_limits.maximum_file_bytes;
  process_timeout_milliseconds =
      or_else input.limits.process_timeout_milliseconds default_limits.process_timeout_milliseconds;
  maximum_process_output_bytes =
      or_else input.limits.maximum_process_output_bytes default_limits.maximum_process_output_bytes;
  verification_concurrency =
      or_else input.limits.verification_concurrency default_limits.verification_concurrency;
}

-- `Number.isSafeInteger`, of a natural number.
abbrev is_safe_integer : ℕ → Bool
is_safe_integer n = leb n 9007199254740991

-- The test of `validateLimits`.
unfoldable pub are_limits_valid : Limits → Bool
are_limits_valid l =
    is_safe_integer l.maximum_file_bytes
    && ltb 0 l.maximum_file_bytes
    && is_safe_integer l.process_timeout_milliseconds
    && ltb 0 l.process_timeout_milliseconds
    && is_safe_integer l.maximum_process_output_bytes
    && is_safe_integer l.verification_concurrency
    && ltb 0 l.verification_concurrency

pub data ExecutionError : Type 0 where
  invalid_plan : (message : String) → ExecutionError
  missing_resource : (resource : String) → ExecutionError

-- `ResourceExecutionContext`, without the artifacts, which are those of the input.
pub record ActionState : Type 0 where
  pub run : String
  pub action : PlannedAction
  pub resource : PublishedResource
  pub desired : DesiredResource
  pub verification : VerificationInput
  pub limits : Limits

-- What `executionContexts` gives. `out_of_fuel` is no result of the source: it stands for a loop that
-- has not ended.
pub data Ordered : Type 0 where
  ordered : List ActionState → Ordered
  rejected : ExecutionError → Ordered
  out_of_fuel : Ordered

-- `remaining.findIndex(ready)` and the `splice`: the first action whose prerequisites are completed,
-- and the others.
unfoldable pub take_ready :
    List String → List PlannedAction → Option (PlannedAction × List PlannedAction)
take_ready completed [] = none
take_ready completed (a ∷ actions) =
    let rest = take_ready completed actions in
    if all (λ id. contains id completed) a.before
    then some (a, actions)
    else elim rest [ none ↦ none | some (b, others) ↦ some (b, a ∷ others) ]

-- The executable bit and the mode of a write are not those of the wanted resource.
unfoldable pub has_other_intent : ActionDetail → DesiredResource → Bool
has_other_intent (write_file w) (file_resource f) =
    not (w.executable == some f.executable) || not (w.mode == some f.mode)
has_other_intent (write_file w) d = not (is_none w.executable) || not (is_none w.mode)
has_other_intent _ d = false

-- The resources and the wanted states, by identifier.
pub record Catalog : Type 0 where
  pub resources : List (String × PublishedResource)
  pub desired : List (String × DesiredResourceEntry)

unfoldable pub catalog_of : PlanningRevision → Catalog
unfolding map_from
catalog_of revision = record {
  resources = map_from [] (map (λ (r : PublishedResource). (r.id, r)) revision.resources);
  desired = map_from [] (map (λ (e : DesiredResourceEntry). (e.resource, e)) revision.desired);
}

-- The checks of an action that is ready, and its context.
pub data Checked : Type 0 where
  checked : ActionState → Checked
  refused : ExecutionError → Checked

-- The checks against the resource and its wanted state.
unfoldable pub check_against :
    String → Limits → PlannedAction → PublishedResource → DesiredResourceEntry → Checked
unfolding verification_compatible has_other_intent method_name kind_text template
check_against run limits a resource entry =
    if not (verification_compatible resource.kind entry.desired entry.verification)
    then refused (
        invalid_plan (
          template (
            "verification method "
            ∷ method_name entry.verification
            ∷ " is incompatible with "
            ∷ kind_text resource.kind
            ∷ " resource "
            ∷ resource.id
            ∷ [])))
    else if has_other_intent a.detail entry.desired
    then refused (
        invalid_plan (template ("write-file executable intent does not match " ∷ resource.id ∷ [])))
    else checked (record {
      run = run;
      action = a;
      resource = resource;
      desired = entry.desired;
      verification = entry.verification;
      limits = limits;
    })

unfoldable pub check_action : String → Limits → Catalog → List String → PlannedAction → Checked
unfolding check_against map_get template
check_action run limits catalog seen a =
    if contains a.id seen || not (a.kind == detail_kind a.detail)
    then refused (invalid_plan (template ("invalid or duplicate action " ∷ a.id ∷ [])))
    else elim (map_get a.resource catalog.resources) [
      | none ↦ refused (missing_resource a.resource)
      | some resource ↦ elim (map_get a.resource catalog.desired) [
        | none ↦ refused (missing_resource a.resource)
        | some entry ↦ check_against run limits a resource entry
      ]
    ]

abbrev prepend : ActionState → Ordered → Ordered
prepend s (ordered states) = ordered (s ∷ states)
prepend s (rejected error) = rejected error
prepend s out_of_fuel = out_of_fuel

-- The `while` loop of `executionContexts`, with fuel for its rounds. Each round takes an action out,
-- and both `seen` and `completed` get its identifier.
unfoldable pub order_actions :
    String → Limits → Catalog → ℕ → List String → List PlannedAction → Ordered
unfolding take_ready check_action
order_actions run limits catalog fuel seen [] = ordered []
order_actions run limits catalog zero seen (a ∷ actions) = out_of_fuel
order_actions run limits catalog (suc fuel) seen (a ∷ actions) =
    elim (take_ready seen (a ∷ actions)) [
      | none ↦
          rejected (invalid_plan "plan actions are cyclic or reference an unknown prerequisite")
      | some (ready, others) ↦ elim (check_action run limits catalog seen ready) [
        | refused error ↦ rejected error
        | checked state ↦
            prepend state (order_actions run limits catalog fuel (set_add seen ready.id) others)
      ]
    ]

-- What the execution takes from elsewhere: SHA-256 and the canonical encoding of a plan's body.
pub record DigestEnv : Type 0 where
  pub sha256_hex : String → String
  pub encode : PlanBody → String

-- The identity of the plan is that of its content.
unfoldable pub is_identified : DigestEnv → RunInput → Bool
is_identified env input =
    input.plan.body.revision == input.revision.id
    && not (input.plan.body.follower == "")
    && input.plan.digest == env.sha256_hex input.plan.encoded
    && input.plan.encoded == env.encode input.plan.body

-- `executionContexts`
unfoldable pub execution_contexts : DigestEnv → RunInput → Limits → Ordered
unfolding are_limits_valid is_identified order_actions catalog_of
execution_contexts env input limits =
    if not (are_limits_valid limits)
    then rejected (invalid_plan "execution limits must be positive safe integers")
    else if not (is_identified env input)
    then rejected (invalid_plan "plan identity or digest does not match its hydrated content")
    else order_actions input.id limits (catalog_of input.revision) (length input.plan.body.actions)
        [] input.plan.body.actions
