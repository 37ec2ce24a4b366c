-- ===== src/Planner/Build.antt =====
-- planner.ts: `materializeDraft` and `buildPlan`, the actions of a plan and their prerequisites.
pub mod Ids
pub mod Scheduled
pub mod Loop
pub mod WellBuilt
pub mod Complete
use codexport.Base.{
  Bool, String, List, [], ◌∷◌, ◌++◌, ℕ, zero, suc, Option, none, some, ◌==◌, contains, string_eq,
  to_set, set_from, map_get, map_set, template, or_else, text_lt, if◌then◌else◌,
}
use codexport.Base.Order.{sorted_unique}
use codexport.Base.Decimal.{decimal}
use codexport.Domain.{
  PublishedResource, PlanningContext, PlannedAction, PlannedAgentTask, AgentTaskDraft, ActionDetail,
  agent_task, detail_kind, ActionKind, agent_task_kind, no_op_kind, transfer_blob_kind,
  write_file_kind, write_config_kind, mirror_directory_kind, remove_resource_kind,
  install_tool_kind, verify_only_kind, human_action_kind, drift_conflict_kind, DesiredResource,
  ObservedState,
}
use codexport.Plans.Env.{PlanEnv, Draft, Planned, drafts, throws, Thrown}
use codexport.Plans.Dispatch.{plan_resource, plan_withdrawn}
use codexport.Planner.Data.{TextMap, PlannerInput, IndexedInput}
use codexport.Planner.Transfers.{TransferPlan}

-- The words of the source for the kind of an action.
unfoldable pub action_kind_text : ActionKind → String
action_kind_text no_op_kind = "no-op"
action_kind_text transfer_blob_kind = "transfer-blob"
action_kind_text write_file_kind = "write-file"
action_kind_text write_config_kind = "write-config"
action_kind_text mirror_directory_kind = "mirror-directory"
action_kind_text remove_resource_kind = "remove-resource"
action_kind_text install_tool_kind = "install-tool"
action_kind_text verify_only_kind = "verify-only"
action_kind_text human_action_kind = "human-action"
action_kind_text agent_task_kind = "agent-task"
action_kind_text drift_conflict_kind = "drift-conflict"

-- `action:${resource.id}:${ordinal}:${draft.kind}`
unfoldable pub draft_action_id : String → ℕ → ActionKind → String
unfolding template decimal action_kind_text
draft_action_id resource ordinal kind =
    template ("action:" ∷ resource ∷ ":" ∷ decimal ordinal ∷ ":" ∷ action_kind_text kind ∷ [])

-- `agent:${resource.id}:${ordinal}`
unfoldable pub agent_task_id : String → ℕ → String
unfolding template decimal
agent_task_id resource ordinal = template ("agent:" ∷ resource ∷ ":" ∷ decimal ordinal ∷ [])

pub record MaterializedDraft : Type 0 where
  pub action : PlannedAction
  pub task : Option PlannedAgentTask

-- The detail of the action: an agent task gets its identifier.
unfoldable pub materialized_detail : ActionDetail → String → ℕ → ActionDetail
unfolding agent_task_id
materialized_detail (agent_task _ summary) resource ordinal =
    agent_task (agent_task_id resource ordinal) summary
materialized_detail detail _ _ = detail

-- The task of the action, with its identifier.
unfoldable pub materialized_task : Draft → String → ℕ → Option PlannedAgentTask
unfolding agent_task_id
materialized_task d resource ordinal = elim d.detail [
  | agent_task _ _ ↦ elim d.task [
    | none ↦ none
    | some task ↦ some (record { id = agent_task_id resource ordinal; draft = task })
  ]
  | _ ↦ none
]

-- `materializeDraft`
unfoldable pub materialize_draft : Draft → PublishedResource → ℕ → List String → MaterializedDraft
unfolding draft_action_id materialized_detail materialized_task sorted_unique
materialize_draft d resource ordinal prerequisites = record {
  action = record {
    id = draft_action_id resource.id ordinal d.kind;
    resource = resource.id;
    kind = detail_kind d.detail;
    detail = materialized_detail d.detail resource.id ordinal;
    before = sorted_unique prerequisites;
  };
  task = materialized_task d resource.id ordinal;
}

-- What `buildPlan` keeps while it goes through the resources.
pub record Building : Type 0 where
  pub actions : List PlannedAction
  pub tasks : List PlannedAgentTask
  pub terminals : TextMap String

-- The values of a map at keys that it has.
unfoldable pub found_in : TextMap String → List String → List String
unfolding map_get
found_in m [] = []
found_in m (k ∷ ks) = elim (map_get k m) [ none ↦ found_in m ks | some v ↦ v ∷ found_in m ks ]

-- `resourcePrerequisites`: the last actions of the dependencies, and the transfers.
unfoldable pub resource_prerequisites :
    TransferPlan → TextMap String → PublishedResource → List String
unfolding found_in sorted_unique
resource_prerequisites transfer terminals resource =
    found_in terminals (sorted_unique resource.depends_on)
    ++ found_in transfer.by_blob (sorted_unique resource.blobs)

abbrev pub with_previous : List String → Option String → List String
with_previous prerequisites none = prerequisites
with_previous prerequisites (some previous) = prerequisites ++ previous ∷ []

-- The loop over the drafts of a resource: the actions, the tasks and the last action.
pub record DraftLoop : Type 0 where
  pub actions : List PlannedAction
  pub tasks : List PlannedAgentTask
  pub previous : Option String

abbrev pub push_task : List PlannedAgentTask → Option PlannedAgentTask → List PlannedAgentTask
push_task tasks none = tasks
push_task tasks (some task) = tasks ++ task ∷ []

unfoldable pub add_drafts : PublishedResource → List String → ℕ → List Draft → DraftLoop → DraftLoop
unfolding materialize_draft
add_drafts resource prerequisites ordinal [] s = s
add_drafts resource prerequisites ordinal (d ∷ ds) s =
    let m = materialize_draft d resource ordinal (with_previous prerequisites s.previous) in
    add_drafts resource prerequisites (suc ordinal) ds (record {
      actions = s.actions ++ m.action ∷ [];
      tasks = push_task s.tasks m.task;
      previous = some m.action.id;
    })

-- What planning gives, or the error that it throws.
pub data Built : Type 0 where
  built : Building → Built
  thrown : Thrown → Built

-- The end of a round for a resource: its last action is recorded.
unfoldable pub finish_resource : String → TextMap String → DraftLoop → Building
unfolding map_set
finish_resource id terminals loop = record {
  actions = loop.actions;
  tasks = loop.tasks;
  terminals = elim loop.previous [ none ↦ terminals | some last ↦ map_set id last terminals ];
}

module _ (env : PlanEnv) (input : PlannerInput) (indexed : IndexedInput)
    (transfer : TransferPlan) where
  -- `context` of `buildPlan`.
  unfoldable pub context_of : PublishedResource → DesiredResource → ObservedState → PlanningContext
  unfolding map_get
  context_of resource desired observed = record {
    resource = resource;
    desired = desired;
    observed = observed;
    overlay_keys = or_else (map_get resource.id indexed.overlays) [];
    applied = map_get resource.id indexed.applied;
    platform = input.platform;
  }

  -- `drafts` of `buildPlan`.
  unfoldable pub drafts_of : PlanningContext → Planned
  unfolding plan_withdrawn plan_resource set_from
  drafts_of c =
      if contains c.resource.id (to_set (or_else input.revision.removed_resources []))
      then plan_withdrawn env c
      else plan_resource env c

  -- A round of the loop over the resources.
  unfoldable pub build_resource : PublishedResource → Building → Built
  unfolding context_of drafts_of map_get resource_prerequisites add_drafts finish_resource
  build_resource resource b = elim (map_get resource.id indexed.desired) [
    | none ↦ built b
    | some desired ↦ elim (map_get resource.id indexed.observed) [
      | none ↦ built b
      | some observed ↦ elim (drafts_of (context_of resource desired observed)) [
        | throws error ↦ thrown error
        | drafts ds ↦ built (
            finish_resource resource.id b.terminals (
              add_drafts resource (resource_prerequisites transfer b.terminals resource) 0 ds
                (record { actions = b.actions; tasks = b.tasks; previous = none })))
      ]
    ]
  ]

  -- The loop over the resources.
  unfoldable pub build_resources : List PublishedResource → Building → Built
  unfolding build_resource
  build_resources [] b = built b
  build_resources (r ∷ rs) b = elim (build_resource r b) [
    | thrown error ↦ thrown error
    | built b' ↦ build_resources rs b'
  ]

  -- `buildPlan`, up to the encoding: the loop from the transfers.
  unfoldable pub build_plan : List PublishedResource → Built
  unfolding build_resources
  build_plan ordered =
      build_resources ordered (record { actions = transfer.actions; tasks = []; terminals = [] })
